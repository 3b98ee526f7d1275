-- ===== src/Xhci/Exec.antt =====
-- MdeModulePkg/Bus/Pci/XhciDxe/XhciSched.c: XhcExecTransfer, which polls a request until it is finished
-- or the time is over. Assertions are not modelled.
pub mod Ends
pub mod Returns
use edk2_adlink_ampere_altra.Base.{
  ℕ, zero, suc, ◌+◌, ◌*◌, ◌%◌, ◌^◌, Bool, true, false, not, ◌&&◌, Option, none, some, List, ◌==◌,
  ltb, if◌then◌else◌, Status, success, device_error, timed_out, is_error,
}
use edk2_adlink_ampere_altra.Xhci.Trb.{Trb}
use edk2_adlink_ampere_altra.Xhci.Regs.{Bus, Xhc, xhc_write_door_bell_reg}
use edk2_adlink_ampere_altra.Xhci.Devices.{
  Direction, DevContext, is_in, xhc_endpoint_to_dci, xhc_bus_dev_addr_to_slot_id,
}
use edk2_adlink_ampere_altra.Xhci.Pool.{MemPool}
use edk2_adlink_ampere_altra.Xhci.Urbs.{
  UrbState, Polling, with_urb, usb_err_notexecute, usb_err_timeout, xhc_check_urb_result,
}

-- The fields of USB_ENDPOINT that these functions read.
pub record Endpoint : Type 0 where
  pub bus_addr : ℕ
  pub ep_addr : ℕ
  pub direction : Direction
  pub type : ℕ

-- XHC_BULK_TRANSFER, and MAX_NUMBER_OF_NAK_FOR_A_BULK_IN_REQUEST
abbrev pub xhc_bulk_transfer : ℕ
xhc_bulk_transfer = 2

abbrev pub max_number_of_nak : ℕ
max_number_of_nak = 65535

-- The endpoint for which the number of polls is limited.
abbrev pub is_limited : Endpoint → Bool
is_limited ep = ep.ep_addr == 1 && (is_in ep.direction && ep.type == xhc_bulk_transfer)

-- The result of a request is set.
abbrev pub with_result : Polling → ℕ → ℕ → Polling
with_result s urb result = record s {
  urbs = with_urb s.urbs urb (record (s.urbs urb) { result = result });
}

-- What follows the label DONE where no call has failed, with the status so far: that of SetTimer, or
-- EFI_SUCCESS.
unfoldable pub conclude : Status → ℕ → Bool → Polling → Status × Polling
conclude so_far urb finished s =
    if not finished
    then (timed_out, with_result s urb usb_err_timeout)
    else ((if (s.urbs urb).result == 0 then so_far else device_error), s)

module _ {W : Type 0} (bus : Bus W) (xhc : Xhc) where
  open bus use {stall, create_event, set_timer, check_event, close_event}

  -- XhcRingDoorBell
  unfoldable pub xhc_ring_door_bell : ℕ → ℕ → W → W
  unfolding xhc_write_door_bell_reg
  xhc_ring_door_bell slot_id dci w =
      if slot_id == 0
      then xhc_write_door_bell_reg bus xhc 0 0 w
      else xhc_write_door_bell_reg bus xhc (slot_id * 4) dci w

  -- The loop of XhcExecTransfer over XhcCheckUrbResult, with IndefiniteTimeout and Count. It ends
  -- when the timer says so, so it has fuel: `none` means that it ran out, or what it means for
  -- XhcCheckUrbResult.
  unfoldable pub poll_steps :
      (Polling → W → Option (Bool × Polling × W))
      → Endpoint
      → Bool
      → ℕ
      → ℕ
      → Polling
      → W
      → Option (Bool × Polling × W)
  poll_steps check ep indefinite zero count s w = none
  poll_steps check ep indefinite (suc fuel) count s w = elim (check s w) [
    | none ↦ none
    | some (finished, s', w') ↦ elim finished [
      | true ↦ some (true, s', w')
      | false ↦
          let count' = (count + 1) % 2 ^ 64 in
          let w₁ = stall 1 w' in
          let (expired, w₂) = check_event w₁ in
          elim (ltb max_number_of_nak count' && is_limited ep) [
            | true ↦ some (false, s', w₁)
            | false ↦ elim indefinite [
              | true ↦ poll_steps check ep indefinite fuel count' s' w₁
              | false ↦ elim (is_error expired) [
                | true ↦ poll_steps check ep indefinite fuel count' s' w₂
                | false ↦ some (false, s', w₂)
              ]
            ]
          ]
    ]
  ]

  module _ (pool : MemPool) (mem : ℕ → Trb) (events_in : W → List Trb) where
    -- From the label RINGDOORBELL on, with the status so far.
    unfoldable pub ring_and_poll :
        Status → ℕ → ℕ → ℕ → Endpoint → ℕ → Bool → ℕ → Polling → W → Option (Status × Polling × W)
    unfolding conclude
    ring_and_poll so_far fuel slot_id dci ep urb indefinite count s w =
        elim (poll_steps (xhc_check_urb_result pool mem bus xhc events_in urb) ep indefinite fuel
          count s (xhc_ring_door_bell slot_id dci w)) [
            | none ↦ none
            | some (finished, s', w') ↦
                let (status, s'') = conclude so_far urb finished s' in some (status, s'', w')
          ]

    -- XhcExecTransfer, after the slot and the device context index are known: `count` is what the
    -- variable Count holds where the code does not set it.
    unfoldable pub exec_on :
        ℕ → ℕ → ℕ → ℕ → Endpoint → ℕ → ℕ → Polling → W → Option (Status × Polling × W)
    exec_on fuel count slot_id dci ep urb timeout s w =
        let (created, w₁) = create_event w in
        let (timed, w₂) = set_timer timeout w₁ in
        elim (timeout == 0) [
          | true ↦ ring_and_poll success fuel slot_id dci ep urb true count s w
          | false ↦ elim (is_error created) [
            | true ↦ some (created, with_result s urb usb_err_notexecute, w₁)
            | false ↦ elim (is_error timed) [
              | true ↦ some (timed, with_result s urb usb_err_notexecute, close_event w₂)
              | false ↦ elim (ring_and_poll timed fuel slot_id dci ep urb false 0 s w₂) [
                | none ↦ none
                | some (status, s', w') ↦ some (status, s', close_event w')
              ]
            ]
          ]
        ]

    -- XhcExecTransfer
    unfoldable pub xhc_exec_transfer :
        ℕ
        → ℕ
        → (ℕ → DevContext)
        → Bool
        → Endpoint
        → ℕ
        → ℕ
        → Polling
        → W
        → Option (Status × Polling × W)
    xhc_exec_transfer fuel count contexts cmd_transfer ep urb timeout s w =
        let slot_id = xhc_bus_dev_addr_to_slot_id contexts ep.bus_addr in
        let dci = xhc_endpoint_to_dci ep.ep_addr ep.direction in
        elim cmd_transfer [
          | true ↦ exec_on fuel count 0 0 ep urb timeout s w
          | false ↦ elim (slot_id == 0) [
            | true ↦ some (device_error, s, w)
            | false ↦ exec_on fuel count slot_id dci ep urb timeout s w
          ]
        ]
