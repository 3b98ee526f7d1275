-- ===== src/Xhci/Events.antt =====
-- MdeModulePkg/Bus/Pci/XhciDxe/XhciSched.c: the event ring, where the controller writes and the
-- driver reads. Pointers into the ring are indices from EventRingSeg0 on; `none` is an access past
-- the ring. Assertions are not modelled.
pub mod Walk
pub mod Drained
use edk2_adlink_ampere_altra.Base.{
  ℕ, zero, suc, ◌+◌, ◌^◌, Bool, true, false, Option, none, some, List, [], ◌∷◌, ◌==◌, leb,
  if◌then◌else◌, get_elem?, get_or, Status, success, other, is_success,
}
use edk2_adlink_ampere_altra.Xhci.Trb.{Trb, zero_trb}

-- EVENT_RING
pub record EventRing : Type 0 where
  pub trbs : List Trb
  pub trb_number : ℕ
  pub event_ring_enqueue : ℕ
  pub event_ring_dequeue : ℕ
  pub event_ring_ccs : ℕ

-- EFI_NOT_READY
abbrev pub not_ready : Status
not_ready = other (2 ^ 63 + 6)

-- `(EvtRing->EventRingCCS) ? 0 : 1`
abbrev pub switched : ℕ → ℕ
switched ccs = if ccs == 0 then 1 else 0

-- The loop of XhcSyncEventRing, with the rounds that are left: whether it ended before the last
-- round, the cycle state, and the place.
unfoldable pub event_steps : ℕ → ℕ → List Trb → ℕ → ℕ → Option (Bool × ℕ × ℕ)
event_steps zero number trbs ccs at = some (false, ccs, at)
event_steps (suc rounds) number trbs ccs at = elim (get_elem? trbs at) [
  | none ↦ none
  | some t ↦ elim (t.cycle_bit == ccs) [
    | false ↦ some (true, ccs, at)
    | true ↦ elim (leb number (suc at)) [
      | true ↦ event_steps rounds number trbs (switched ccs) 0
      | false ↦ event_steps rounds number trbs ccs (suc at)
    ]
  ]
]

-- XhcSyncEventRing
unfoldable pub xhc_sync_event_ring : EventRing → Option EventRing
xhc_sync_event_ring r =
    elim (event_steps r.trb_number r.trb_number r.trbs r.event_ring_ccs r.event_ring_dequeue) [
      | none ↦ none
      | some (ended, ccs, at) ↦ some (record r {
        event_ring_ccs = ccs;
        event_ring_enqueue = if ended then at else r.event_ring_enqueue;
      })
    ]

-- XhcCheckNewEvent: the status, the place of the event, and the ring.
unfoldable pub xhc_check_new_event : EventRing → Status × ℕ × EventRing
xhc_check_new_event r =
    let next = suc r.event_ring_dequeue in
    if r.event_ring_dequeue == r.event_ring_enqueue then (not_ready, r.event_ring_dequeue, r) else (
      success,
      r.event_ring_dequeue,
      record r { event_ring_dequeue = if leb r.trb_number next then 0 else next },
    )

-- The loop of XhcCheckUrbResult over the new events, where it does not leave for an error: the
-- events that it comes to, and the ring.
unfoldable pub new_events : ℕ → EventRing → List Trb × EventRing
unfolding xhc_check_new_event
new_events zero r = ([], r)
new_events (suc rounds) r =
    let (status, place, r') = xhc_check_new_event r in
    let (events, r'') = new_events rounds r' in
    if is_success status then (get_or r.trbs place zero_trb ∷ events, r'') else ([], r)
