-- ===== src/Xhci/Devices.antt =====
-- MdeModulePkg/Bus/Pci/XhciDxe/XhciSched.c: from the addresses that the USB bus driver uses to slots and
-- device contexts.
pub mod Lookup
use edk2_adlink_ampere_altra.Base.{
  ℕ, zero, suc, ◌+◌, ◌*◌, ◌-◌, ◌%◌, Bool, true, false, not, ◌&&◌, ◌==◌, if◌then◌else◌, u8,
}

-- EFI_USB_DATA_DIRECTION
pub data Direction : Type 0 where
  data_in data_out no_data : Direction

abbrev pub is_in : Direction → Bool
is_in Direction.data_in = true
is_in _ = false

-- The fields of USB_DEV_CONTEXT by which a device is found; the route string as its Dword.
pub record DevContext : Type 0 where
  pub enabled : Bool
  pub slot_id : ℕ
  pub bus_dev_addr : ℕ
  pub route_string : ℕ

-- XhcEndpointToDci
unfoldable pub xhc_endpoint_to_dci : ℕ → Direction → ℕ
xhc_endpoint_to_dci ep_addr direction =
    if ep_addr == 0
    then 1
    else if is_in direction
    then u8 (u8 (2 * ep_addr) + 1)
    else u8 (2 * ep_addr)

-- The loops over UsbDevContext, with the rounds that are left: the slot of the first entry from
-- `at` on that is in use and that the test accepts, 0 if there is none.
unfoldable pub slot_steps : (DevContext → Bool) → ℕ → (ℕ → DevContext) → ℕ → ℕ
slot_steps test zero contexts at = 0
slot_steps test (suc rounds) contexts at =
    let rest = slot_steps test rounds contexts (suc at) in
    let d = contexts at in if d.enabled && (not (d.slot_id == 0) && test d) then d.slot_id else rest

-- XhcBusDevAddrToSlotId and XhcRouteStringToSlotId: Index + 1 runs over 1 to 255.
unfoldable pub xhc_bus_dev_addr_to_slot_id : (ℕ → DevContext) → ℕ → ℕ
unfolding slot_steps
xhc_bus_dev_addr_to_slot_id contexts bus_dev_addr =
    slot_steps (λ d. d.bus_dev_addr == bus_dev_addr) 255 contexts 1

unfoldable pub xhc_route_string_to_slot_id : (ℕ → DevContext) → ℕ → ℕ
unfolding slot_steps
xhc_route_string_to_slot_id contexts route_string =
    slot_steps (λ d. d.route_string == route_string) 255 contexts 1
