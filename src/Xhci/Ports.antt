-- ===== src/Xhci/Ports.antt =====
-- MdeModulePkg/Bus/Pci/XhciDxe/Xhci.c: the ports of the root hub. The bits of the UEFI port status and
-- the features are those of the UEFI specification. RaiseTPL, RestoreTPL and DEBUG are not modelled.
pub mod Masks
pub mod Mapped
pub mod Writes
use edk2_adlink_ampere_altra.Base.{
  ℕ, ◌+◌, ◌*◌, ◌/◌, ◌^◌, Bool, true, false, Option, none, some, List, [], ◌∷◌, ◌==◌, leb,
  if◌then◌else◌, bit_and, bit_or, u32, Status, success, invalid_parameter, is_error,
}
use edk2_adlink_ampere_altra.Xhci.Regs.{
  Bus, Xhc, not32, xhc_bit_is_set, xhc_read_op_reg, xhc_write_op_reg, xhc_is_halt, xhc_run_hc,
  xhc_wait_op_reg_bit,
}

-- EFI_USB_PORT_FEATURE; `unknown` stands for the values that have no name.
pub data PortFeature : Type 0 where
  enable suspend reset power owner connect_change enable_change suspend_change : PortFeature
  over_current_change reset_change unknown : PortFeature

-- XHC_PORTSC_PED, XHC_PORTSC_RESET, XHC_PORTSC_PLS, XHC_PORTSC_PS, XHC_PORTSC_LWS, XHC_PORTSC_CSC,
-- XHC_PORTSC_PEC, XHC_PORTSC_OCC and XHC_PORTSC_PRC
abbrev pub portsc_ped : ℕ
portsc_ped = 0x2

abbrev pub portsc_reset : ℕ
portsc_reset = 0x10

abbrev pub portsc_pls : ℕ
portsc_pls = 0x1E0

abbrev pub portsc_ps : ℕ
portsc_ps = 0x3C00

abbrev pub portsc_lws : ℕ
portsc_lws = 0x10000

abbrev pub portsc_csc : ℕ
portsc_csc = 0x20000

abbrev pub portsc_pec : ℕ
portsc_pec = 0x40000

abbrev pub portsc_occ : ℕ
portsc_occ = 0x100000

abbrev pub portsc_prc : ℕ
portsc_prc = 0x200000

-- BIT1 | BIT17 | BIT18 | BIT19 | BIT20 | BIT21 | BIT22 | BIT23
abbrev pub change_bits : ℕ
change_bits = 0xFE0002

-- XHC_GENERIC_TIMEOUT
abbrev pub generic_timeout : ℕ
generic_timeout = 10000

-- `(UINT32)(XHC_PORTSC_OFFSET + (0x10 * PortNumber))`
abbrev pub portsc_offset : ℕ → ℕ
portsc_offset port = u32 (0x400 + 0x10 * port)

-- mUsbPortStateMap and mUsbPortChangeMap
abbrev pub usb_port_state_map : List (ℕ × ℕ)
usb_port_state_map = (0x1, 0x1) ∷ (0x2, 0x2) ∷ (0x8, 0x8) ∷ (0x10, 0x10) ∷ []

abbrev pub usb_port_change_map : List (ℕ × ℕ)
usb_port_change_map = (0x20000, 0x1) ∷ (0x40000, 0x2) ∷ (0x100000, 0x8) ∷ (0x200000, 0x10) ∷ []

-- The loops of XhcGetRootHubPortStatus over these maps.
unfoldable pub apply_map : List (ℕ × ℕ) → ℕ → ℕ → ℕ
apply_map [] state acc = acc
apply_map ((hw_state, uefi_state) ∷ map) state acc =
    apply_map map state (if xhc_bit_is_set state hw_state then bit_or acc uefi_state else acc)

-- The switch over the speed: USB_PORT_STAT_LOW_SPEED, _HIGH_SPEED, _SUPER_SPEED.
unfoldable pub speed_status : ℕ → ℕ
speed_status state =
    let speed = bit_and state portsc_ps / 2 ^ 10 in
    if speed == 2
    then 0x200
    else if speed == 3
    then 0x400
    else if speed == 4
    then 0x800
    else if speed == 5
    then 0x800
    else 0

-- What XhcGetRootHubPortStatus stores: PortStatus and PortChangeStatus, from the register.
unfoldable pub port_status : ℕ → ℕ
unfolding apply_map speed_status
port_status state =
    let mapped = apply_map usb_port_state_map state (speed_status state) in
    if bit_and state portsc_pls / 2 ^ 5 == 3 then bit_or mapped 0x4 else mapped

unfoldable pub port_change_status : ℕ → ℕ
unfolding apply_map
port_change_status state = apply_map usb_port_change_map state 0

module _ {W : Type 0} (bus : Bus W) (xhc : Xhc) where
  -- XhcClearRootHubPortFeature
  unfoldable pub xhc_clear_root_hub_port_feature : ℕ → PortFeature → W → Status × W
  unfolding xhc_read_op_reg xhc_write_op_reg
  xhc_clear_root_hub_port_feature port feature w =
      let offset = portsc_offset port in
      let (word, w') = xhc_read_op_reg bus xhc offset w in
      let state = bit_and word (not32 change_bits) in
      let write = λ (v : ℕ) (u : W). xhc_write_op_reg bus xhc offset v u in
      if leb xhc.max_ports port then (invalid_parameter, w) else elim feature [
        | PortFeature.enable ↦
            (success, write (bit_and (bit_or state portsc_ped) (not32 portsc_reset)) w')
        | PortFeature.suspend ↦
            let strobed = bit_or state portsc_lws in
            (success, write (bit_and strobed (not32 portsc_pls)) (write strobed w'))
        | PortFeature.reset ↦ (success, w')
        | PortFeature.owner ↦ (success, w')
        | PortFeature.connect_change ↦ (success, write (bit_or state portsc_csc) w')
        | PortFeature.enable_change ↦ (success, write (bit_or state portsc_pec) w')
        | PortFeature.over_current_change ↦ (success, write (bit_or state portsc_occ) w')
        | PortFeature.reset_change ↦ (success, write (bit_or state portsc_prc) w')
        | PortFeature.power ↦ (success, w')
        | PortFeature.suspend_change ↦ (success, w')
        | PortFeature.unknown ↦ (invalid_parameter, w')
      ]

  -- The branch of XhcSetRootHubPortFeature for EfiUsbPortReset, once the controller runs: what the
  -- wait for XHC_PORTSC_PRC returns is not looked at.
  unfoldable pub reset_port : ℕ → ℕ → ℕ → Status → W → Option (Status × W)
  unfolding xhc_write_op_reg
  reset_port fuel offset state status w =
      elim (xhc_wait_op_reg_bit bus xhc fuel offset portsc_prc true generic_timeout
        (xhc_write_op_reg bus xhc offset (bit_or state portsc_reset) w)) [
          | none ↦ none
          | some (waited, w') ↦ some (status, w')
        ]

  -- XhcSetRootHubPortFeature. `none` means that the fuel of a wait ran out.
  unfoldable pub xhc_set_root_hub_port_feature : ℕ → ℕ → PortFeature → W → Option (Status × W)
  unfolding xhc_read_op_reg xhc_write_op_reg xhc_is_halt reset_port
  xhc_set_root_hub_port_feature fuel port feature w =
      let offset = portsc_offset port in
      let (word, w₁) = xhc_read_op_reg bus xhc offset w in
      let state = bit_and word (not32 change_bits) in
      let write = λ (v : ℕ) (u : W). xhc_write_op_reg bus xhc offset v u in
      if leb xhc.max_ports port then some (invalid_parameter, w) else elim feature [
        | PortFeature.enable ↦ some (success, w₁)
        | PortFeature.suspend ↦
            let strobed = bit_or state portsc_lws in
            some
              (success, write (bit_or (bit_and strobed (not32 portsc_pls)) 0x60) (write strobed w₁))
        | PortFeature.reset ↦
            let (halted, w₂) = xhc_is_halt bus xhc w₁ in
            elim halted [
              | false ↦ reset_port fuel offset state success w₂
              | true ↦ elim (xhc_run_hc bus xhc fuel generic_timeout w₂) [
                | none ↦ none
                | some (status, w₃) ↦ elim (is_error status) [
                  | true ↦ some (status, w₃)
                  | false ↦ reset_port fuel offset state status w₃
                ]
              ]
            ]
        | PortFeature.power ↦ some (success, w₁)
        | PortFeature.owner ↦ some (success, w₁)
        | _ ↦ some (invalid_parameter, w₁)
      ]
