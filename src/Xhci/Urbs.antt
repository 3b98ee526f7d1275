-- ===== src/Xhci/Urbs.antt =====
-- MdeModulePkg/Bus/Pci/XhciDxe/XhciSched.c: XhcCheckUrbResult, which takes the new events and brings
-- the requests up to date. A request is named by a number, its address; the blocks of a request lie at
-- addresses of the host. The blocks that the driver reads there, and the event ring as the controller
-- has left it, are parameters. `none` is an access through an address that no block of the pool has.
-- Assertions and DEBUG are not modelled.
pub mod Kept
pub mod Succeeds
pub mod Completed
use edk2_adlink_ampere_altra.Base.{
  ℕ, zero, suc, ◌+◌, ◌-◌, ◌*◌, ◌/◌, ◌%◌, ◌^◌, Bool, true, false, ◌&&◌, ◌||◌, Option, none, some,
  List, [], ◌∷◌, ◌==◌, if◌then◌else◌, get_or, bit_or, is_success,
}
use edk2_adlink_ampere_altra.Xhci.Trb.{Trb, zero_trb, is_link}
use edk2_adlink_ampere_altra.Xhci.Regs.{
  Bus, Xhc, xhc_is_halt, xhc_is_sys_error, xhc_read_runtime_reg, xhc_write_runtime_reg,
}
use edk2_adlink_ampere_altra.Xhci.Events.{EventRing, xhc_sync_event_ring, xhc_check_new_event}
use edk2_adlink_ampere_altra.Xhci.Pool.{MemPool}
use edk2_adlink_ampere_altra.Xhci.MemPool.{
  usb_hc_get_host_addr_for_pci_addr, usb_hc_get_pci_addr_for_host_addr,
}

-- The fields of URB that the events change, and where its blocks are; `evt_trb` is a place in the
-- event ring, and `none` is NULL.
pub record UrbState : Type 0 where
  pub trb_start : ℕ
  pub trb_end : ℕ
  pub trb_num : ℕ
  pub result : ℕ
  pub completed : ℕ
  pub start_done : Bool
  pub end_done : Bool
  pub finished : Bool
  pub evt_trb : Option ℕ

-- EFI_USB_ERR_NOTEXECUTE, _STALL, _BUFFER, _BABBLE, _TIMEOUT and _SYSTEM
abbrev pub usb_err_notexecute : ℕ
usb_err_notexecute = 0x01

abbrev pub usb_err_stall : ℕ
usb_err_stall = 0x02

abbrev pub usb_err_buffer : ℕ
usb_err_buffer = 0x04

abbrev pub usb_err_babble : ℕ
usb_err_babble = 0x08

abbrev pub usb_err_timeout : ℕ
usb_err_timeout = 0x40

abbrev pub usb_err_system : ℕ
usb_err_system = 0x100

-- XHC_ERDP_OFFSET, and `sizeof (TRB_TEMPLATE)`
abbrev pub erdp_offset : ℕ
erdp_offset = 0x38

abbrev pub trb_size : ℕ
trb_size = 16

-- Of EVT_TRB_TRANSFER: Completecode, Length and the two halves of TRBPtr; and Length of
-- TRANSFER_TRB_NORMAL.
abbrev pub complete_code : Trb → ℕ
complete_code event = event.status / 2 ^ 24

abbrev pub event_length : Trb → ℕ
event_length event = event.status % 2 ^ 24

abbrev pub trb_ptr : Trb → ℕ
trb_ptr event = event.parameter1 + event.parameter2 * 2 ^ 32

abbrev pub block_length : Trb → ℕ
block_length block = block.status % 2 ^ 17

-- The only two types of events that count: TRB_TYPE_COMMAND_COMPLT_EVENT and TRB_TYPE_TRANS_EVENT.
abbrev pub is_completion : Trb → Bool
is_completion event = event.type == 33 || event.type == 32

-- The blocks that carry data: TRB_TYPE_DATA_STAGE, TRB_TYPE_NORMAL and TRB_TYPE_ISOCH.
abbrev pub carries_data : Trb → Bool
carries_data block = block.type == 3 || (block.type == 1 || block.type == 5)

-- The request has failed.
abbrev pub failed : ℕ → UrbState → UrbState
failed err u = record u { result = bit_or u.result err; finished = true }

-- The case of a success or a short packet, and what follows the switch: the event is about the block
-- at the address `trb`.
unfoldable pub block_done : Trb → ℕ → Trb → ℕ → UrbState → UrbState
block_done event trb block place u =
    let start_done = trb == u.trb_start || u.start_done in
    let end_done = trb == u.trb_end || u.end_done in
    record u {
      completed =
          if carries_data block
          then (u.completed + (block_length block + 2 ^ 64 - event_length event)) % 2 ^ 64
          else u.completed;
      start_done = start_done;
      end_done = end_done;
      finished = (start_done && end_done) || u.finished;
      evt_trb = if start_done && end_done then some place else u.evt_trb;
    }

-- The switch over the completion code: whether the function goes on to the next event, and the
-- request.
unfoldable pub urb_event : Trb → ℕ → Trb → ℕ → UrbState → Bool × UrbState
unfolding block_done
urb_event event trb block place u =
    let code = complete_code event in
    if code == 6
    then (false, failed usb_err_stall u)
    else if code == 3
    then (false, failed usb_err_babble u)
    else if code == 2
    then (false, failed usb_err_buffer u)
    else if code == 4
    then (false, failed usb_err_timeout u)
    else if code == 26 || code == 27
    then (true, failed usb_err_timeout u)
    else if code == 13 || code == 1
    then (true, block_done event trb block place u)
    else (false, failed usb_err_timeout u)

-- One of the requests is another.
abbrev pub with_urb : (ℕ → UrbState) → ℕ → UrbState → ℕ → UrbState
with_urb urbs id u id' = if id' == id then u else urbs id'

-- What USB_XHCI_INSTANCE keeps of the requests: the event ring and its address, PendingUrb and
-- AsyncIntTransfers.
pub record Polling : Type 0 where
  pub event_ring : EventRing
  pub event_ring_seg0 : ℕ
  pub urbs : ℕ → UrbState
  pub pending_urb : Option ℕ
  pub async_int_transfers : List ℕ

module _ (pool : MemPool) (mem : ℕ → Trb) where
  -- The loop of IsTransferRingTrb, with the blocks that are left.
  unfoldable pub ring_steps : ℕ → ℕ → ℕ → Option Bool
  ring_steps zero trb checked = some false
  ring_steps (suc rounds) trb checked = elim (trb == checked) [
    | true ↦ some true
    | false ↦ elim (is_link (mem (checked + trb_size))) [
      | false ↦ ring_steps rounds trb (checked + trb_size)
      | true ↦
          elim (usb_hc_get_host_addr_for_pci_addr pool (trb_ptr (mem (checked + trb_size)))
            trb_size) [ none ↦ none | some first ↦ ring_steps rounds trb first ]
    ]
  ]

  -- IsTransferRingTrb
  unfoldable pub is_transfer_ring_trb : ℕ → UrbState → Option Bool
  unfolding ring_steps
  is_transfer_ring_trb trb u = ring_steps u.trb_num trb u.trb_start

  -- IsAsyncIntTrb: the request, if there is one.
  unfoldable pub is_async_int_trb : (ℕ → UrbState) → ℕ → List ℕ → Option (Option ℕ)
  is_async_int_trb urbs trb [] = some none
  is_async_int_trb urbs trb (id ∷ ids) = elim (is_transfer_ring_trb trb (urbs id)) [
    | none ↦ none
    | some true ↦ some (some id)
    | some false ↦ is_async_int_trb urbs trb ids
  ]

  -- The test for PendingUrb.
  unfoldable pub is_pending_trb : Option ℕ → (ℕ → UrbState) → ℕ → Option Bool
  is_pending_trb none urbs trb = some false
  is_pending_trb (some id) urbs trb = is_transfer_ring_trb trb (urbs id)

  -- Which request the block belongs to: PendingUrb, the one that is checked, or one of the list.
  unfoldable pub checked_urb : Option ℕ → List ℕ → ℕ → (ℕ → UrbState) → ℕ → Option (Option ℕ)
  checked_urb pending async urb urbs trb = elim (is_pending_trb pending urbs trb) [
    | none ↦ none
    | some true ↦ some pending
    | some false ↦ elim (is_transfer_ring_trb trb (urbs urb)) [
      | none ↦ none
      | some true ↦ some (some urb)
      | some false ↦ is_async_int_trb urbs trb async
    ]
  ]

  -- One round of the loop, from the new event: whether the function goes on, and the requests.
  unfoldable pub handle_event :
      Option ℕ → List ℕ → ℕ → Trb → ℕ → (ℕ → UrbState) → Option (Bool × (ℕ → UrbState))
  handle_event pending async urb event place urbs = elim (is_completion event) [
    | false ↦ some (true, urbs)
    | true ↦ elim (usb_hc_get_host_addr_for_pci_addr pool (trb_ptr event) trb_size) [
      | none ↦ none
      | some trb ↦ elim (checked_urb pending async urb urbs trb) [
        | none ↦ none
        | some none ↦ some (true, urbs)
        | some (some id) ↦
            let (goes_on, u) = urb_event event trb (mem trb) place (urbs id) in
            some (goes_on, with_urb urbs id u)
      ]
    ]
  ]

  -- The loop over the new events, with the rounds that are left.
  unfoldable pub check_steps :
      Option ℕ → List ℕ → ℕ → ℕ → EventRing → (ℕ → UrbState) → Option (EventRing × (ℕ → UrbState))
  check_steps pending async urb zero r urbs = some (r, urbs)
  check_steps pending async urb (suc rounds) r urbs =
      let (status, place, r') = xhc_check_new_event r in
      elim (is_success status) [
        | false ↦ some (r', urbs)
        | true ↦ elim (handle_event pending async urb (get_or r.trbs place zero_trb) place urbs) [
          | none ↦ none
          | some (goes_on, urbs') ↦ elim goes_on [
            | false ↦ some (r', urbs')
            | true ↦ check_steps pending async urb rounds r' urbs'
          ]
        ]
      ]

  -- XhcSyncEventRing and the loop.
  unfoldable pub take_events : ℕ → Polling → Option Polling
  take_events urb s = elim (xhc_sync_event_ring s.event_ring) [
    | none ↦ none
    | some r ↦ elim (check_steps s.pending_urb s.async_int_transfers urb r.trb_number r s.urbs) [
      | none ↦ none
      | some (r', urbs) ↦ some (record s { event_ring = r'; urbs = urbs })
    ]
  ]

  module _ {W : Type 0} (bus : Bus W) (xhc : Xhc) (events_in : W → List Trb) where
    -- What follows the label EXIT: the controller is told how far the driver has come.
    unfoldable pub advance_event_ring : Polling → W → Option W
    unfolding xhc_read_runtime_reg xhc_write_runtime_reg
    advance_event_ring s w =
        let (low, w₁) = xhc_read_runtime_reg bus xhc erdp_offset w in
        let (high, w₂) = xhc_read_runtime_reg bus xhc (erdp_offset + 4) w₁ in
        let dequeue = s.event_ring_seg0 + s.event_ring.event_ring_dequeue * trb_size in
        elim (usb_hc_get_pci_addr_for_host_addr pool dequeue trb_size) [
          | none ↦ none
          | some phy_addr ↦ some (
              if (high * 2 ^ 32 + low) / 16 == phy_addr / 16
              then w₂
              else xhc_write_runtime_reg bus xhc (erdp_offset + 4) (phy_addr / 2 ^ 32)
                  (xhc_write_runtime_reg bus xhc erdp_offset (bit_or (phy_addr % 2 ^ 32) 8) w₂))
        ]

    -- XhcIsHalt (Xhc) || XhcIsSysError (Xhc)
    unfoldable pub is_stopped : W → Bool × W
    unfolding xhc_is_halt xhc_is_sys_error
    is_stopped w =
        let (halted, w₁) = xhc_is_halt bus xhc w in
        let (in_error, w₂) = xhc_is_sys_error bus xhc w₁ in
        if halted then (true, w₁) else (in_error, w₂)

    -- The body of XhcCheckUrbResult up to the label EXIT.
    unfoldable pub update_urbs : ℕ → Polling → W → Option (Polling × W)
    update_urbs urb s w =
        let (stopped, w') = is_stopped w in
        let u = s.urbs urb in
        elim u.finished [
          | true ↦ some (s, w)
          | false ↦ elim stopped [
            | true ↦ some (
              record s {
                urbs = with_urb s.urbs urb (record u { result = bit_or u.result usb_err_system });
              },
              w',
            )
            | false ↦
                elim (take_events urb
                  (record s { event_ring = record s.event_ring { trbs = events_in w' } })) [
                    | none ↦ none
                    | some s' ↦ some (s', w')
                  ]
          ]
        ]

    -- XhcCheckUrbResult
    unfoldable pub xhc_check_urb_result : ℕ → Polling → W → Option (Bool × Polling × W)
    xhc_check_urb_result urb s w = elim (update_urbs urb s w) [
      | none ↦ none
      | some (s', w₁) ↦ elim (advance_event_ring s' w₁) [
        | none ↦ none
        | some w₂ ↦ some ((s'.urbs urb).finished, s', w₂)
      ]
    ]
