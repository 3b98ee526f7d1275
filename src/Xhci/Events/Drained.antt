-- ===== src/Xhci/Events/Drained.antt =====
-- What XhcSyncEventRing and the loop over XhcCheckNewEvent find in the event ring.
use edk2_adlink_ampere_altra.Base.{
  ℕ, suc, ◌+◌, ◌-◌, ◌<◌, ◌≡◌, ap, ◌∙◌, true, false, some, List, [], ◌∷◌, ◌++◌, ◌==◌, length,
  get_elem?, arith, append-nil, length-append,
}
use edk2_adlink_ampere_altra.Xhci.Trb.{Trb}
use edk2_adlink_ampere_altra.Xhci.Events.{
  EventRing, event_steps, switched, new_events, xhc_check_new_event, xhc_sync_event_ring, not_ready,
}
use edk2_adlink_ampere_altra.Xhci.Events.Walk.{
  RunAt, stops, walk, walk_round, reading, after_run, read_nothing, read_run, read_round,
}

-- The controller has written `events` from the dequeue pointer on: inside of the ring, with the cycle
-- bit that the driver expects, or up to its end and on from its start, with the other bit there. The
-- block behind them is not new, and fewer events lie in the ring than it has blocks.
pub data Written (r : EventRing) : List Trb → Type 0 where
  straight :
      (events : List Trb) (f : Trb)
      → RunAt r.trbs r.event_ring_ccs r.event_ring_dequeue events
      → r.event_ring_dequeue + length events < r.trb_number
      → get_elem? r.trbs (r.event_ring_dequeue + length events) ≡ some f
      → (f.cycle_bit == r.event_ring_ccs) ≡ false
      → Written r events
  around :
      (t : Trb) (first second : List Trb) (f : Trb)
      → RunAt r.trbs r.event_ring_ccs r.event_ring_dequeue (t ∷ first)
      → r.event_ring_dequeue + suc (length first) ≡ r.trb_number
      → RunAt r.trbs (switched r.event_ring_ccs) 0 second
      → length second < r.event_ring_dequeue
      → get_elem? r.trbs (length second) ≡ some f
      → (f.cycle_bit == switched r.event_ring_ccs) ≡ false
      → Written r (t ∷ (first ++ second))

sync_ends :
    (r : EventRing) (ccs at : ℕ)
    → event_steps r.trb_number r.trb_number r.trbs r.event_ring_ccs r.event_ring_dequeue
      ≡ some (true, ccs, at)
    → xhc_sync_event_ring r ≡ some (record r { event_ring_ccs = ccs; event_ring_enqueue = at })
unfolding xhc_sync_event_ring
sync_ends r ccs at e = ground (arith, e)

-- The ring after XhcSyncEventRing, where the events go on at the start of the ring.
abbrev gone_round : EventRing → List Trb → EventRing
gone_round r second = record r {
  event_ring_ccs = switched r.event_ring_ccs;
  event_ring_enqueue = 0 + length second;
}

sync_goes_round :
    (r : EventRing) (t : Trb) (first second : List Trb) (f : Trb)
    → RunAt r.trbs r.event_ring_ccs r.event_ring_dequeue (t ∷ first)
    → r.event_ring_dequeue + suc (length first) ≡ r.trb_number
    → RunAt r.trbs (switched r.event_ring_ccs) 0 second
    → length second < r.event_ring_dequeue
    → get_elem? r.trbs (length second) ≡ some f
    → (f.cycle_bit == switched r.event_ring_ccs) ≡ false
    → xhc_sync_event_ring r ≡ some (gone_round r second)
sync_goes_round r t first second f run end run' room seen other =
    let d = r.event_ring_dequeue in
    let c' : ℕ = switched r.event_ring_ccs in
    let place : 0 + length second ≡ length second = omega arith in
    let k : ℕ = r.trb_number - suc (length first) - length second - 1 in
    let rounds : r.trb_number ≡ suc (length first) + (length second + suc k) = omega arith in
    sync_ends r c' (0 + length second) (
      ap (λ n. event_steps n r.trb_number r.trbs r.event_ring_ccs d) rounds
      ∙ walk_round r.trb_number r.trbs r.event_ring_ccs (length second + suc k) d t first run end
      ∙ walk r.trb_number r.trbs c' (suc k) 0 second run' (omega arith)
      ∙ stops r.trb_number k r.trbs c' (0 + length second) f (ap (get_elem? r.trbs) place ∙ seen)
          other)

-- XhcSyncEventRing and the loop over XhcCheckNewEvent come to exactly the events that the controller
-- has written, in order, and end with the dequeue pointer at the enqueue pointer.
pub xhc_sync_event_ring-Written :
    (r : EventRing) (events : List Trb)
    → Written r events
    → (r' : EventRing) × (xhc_sync_event_ring r ≡ some r')
      × ((new_events r.trb_number r').0 ≡ events)
      × ((new_events r.trb_number r').1.event_ring_dequeue ≡ r'.event_ring_enqueue)
xhc_sync_event_ring-Written r _ (straight events f run inside seen other) =
    let d = r.event_ring_dequeue in
    let r' : EventRing = record r { event_ring_enqueue = d + length events } in
    let k : ℕ = r.trb_number - length events - 1 in
    let rounds : r.trb_number ≡ length events + suc k = omega arith in
    let reads : new_events r.trb_number r' ≡ (events, reading r' (d + length events)) =
      ap (λ n. new_events n r') rounds
      ∙ read_run r' r.event_ring_ccs (suc k) d events run (ground arith) inside
      ∙ ap (after_run events) (read_nothing r' (suc k))
      ∙ (λ i. (append-nil events i, reading r' (d + length events))) in
    (
      r',
      sync_ends r r.event_ring_ccs (d + length events) (
          ap (λ n. event_steps n r.trb_number r.trbs r.event_ring_ccs d) rounds
          ∙ walk r.trb_number r.trbs r.event_ring_ccs (suc k) d events run inside
          ∙ stops r.trb_number k r.trbs r.event_ring_ccs (d + length events) f seen other),
      ap (λ p. p.0) reads,
      ap (λ p. p.1.event_ring_dequeue) reads,
    )
xhc_sync_event_ring-Written r _ (around t first second f run end run' room seen other) =
    let d = r.event_ring_dequeue in
    let c' : ℕ = switched r.event_ring_ccs in
    let r' = gone_round r second in
    let k : ℕ = r.trb_number - suc (length first) - length second - 1 in
    let rounds : r.trb_number ≡ suc (length first) + (length second + suc k) = omega arith in
    let reads : new_events r.trb_number r'
        ≡ (t ∷ (first ++ second), reading r' (0 + length second)) =
      ap (λ n. new_events n r') rounds
      ∙ read_round r' r.event_ring_ccs (length second + suc k) d t first run (omega arith) end
      ∙ ap (after_run (t ∷ first)) (
          read_run r' c' (suc k) 0 second run' (ground arith) (omega arith)
          ∙ ap (after_run second) (read_nothing r' (suc k)))
      ∙ (λ i. (t ∷ (first ++ append-nil second i), reading r' (0 + length second))) in
    (
      r',
      sync_goes_round r t first second f run end run' room seen other,
      ap (λ p. p.0) reads,
      ap (λ p. p.1.event_ring_dequeue) reads,
    )

RunAt-left :
    (trbs : List Trb) (c at : ℕ) (xs : List Trb) (y : Trb) (ys : List Trb)
    → RunAt trbs c at (xs ++ (y ∷ ys))
    → RunAt trbs c at xs × (get_elem? trbs (at + length xs) ≡ some y) × ((y.cycle_bit == c) ≡ true)
RunAt-left trbs c at [] y ys run = (tt, ap (get_elem? trbs) {y = at} (omega arith) ∙ run.0, run.1)
RunAt-left trbs c at (x ∷ xs) y ys run =
    let (left, here, mine) = RunAt-left trbs c (suc at) xs y ys run.2 in
    ((run.0, run.1, left), ap (get_elem? trbs) {y = suc at + length xs} (omega arith) ∙ here, mine)

switched_away : (b c : ℕ) → (b == c) ≡ true → (b == switched c) ≡ false
switched_away b c h = ground arith

-- Where the events went on at the start of the ring, and the driver has taken only the events `t`
-- and `taken` of those before its end, XhcSyncEventRing sets the enqueue pointer back: XhcCheckNewEvent
-- then finds no new event, and the event `y` and all that come after it stay in the ring.
pub xhc_sync_event_ring-misses :
    (r : EventRing) (t : Trb) (taken : List Trb) (y : Trb) (left second : List Trb) (f : Trb)
    → RunAt r.trbs r.event_ring_ccs r.event_ring_dequeue (t ∷ (taken ++ (y ∷ left)))
    → r.event_ring_dequeue + suc (length (taken ++ (y ∷ left))) ≡ r.trb_number
    → RunAt r.trbs (switched r.event_ring_ccs) 0 second
    → length second < r.event_ring_dequeue
    → get_elem? r.trbs (length second) ≡ some f
    → (f.cycle_bit == switched r.event_ring_ccs) ≡ false
    → (r₁ r₂ : EventRing) × (xhc_sync_event_ring r ≡ some r₁)
      × (xhc_sync_event_ring (new_events (suc (length taken)) r₁).1 ≡ some r₂)
      × ((xhc_check_new_event r₂).0 ≡ not_ready)
      × (get_elem? r₂.trbs r₂.event_ring_dequeue ≡ some y)
unfolding xhc_check_new_event new_events
xhc_sync_event_ring-misses r t taken y left second f run end run' room seen other =
    let d = r.event_ring_dequeue in
    let r₁ = gone_round r second in
    let at : ℕ = d + suc (length taken) in
    let (before, here, mine) = RunAt-left r.trbs r.event_ring_ccs d (t ∷ taken) y left run in
    let rounds : suc (length taken) ≡ suc (length taken) + 0 = omega arith in
    let size = length-append taken (y ∷ left) in
    let reads : (new_events (suc (length taken)) r₁).1 ≡ reading r₁ at =
      ap (λ n. (new_events n r₁).1) rounds
      ∙ ap (λ p. p.1)
          (read_run r₁ r.event_ring_ccs 0 d (t ∷ taken) before (ground arith)
            (omega (arith, size))) in
    let r₂ : EventRing = record (reading r₁ at) { event_ring_enqueue = at } in
    let k : ℕ = r.trb_number - 1 in
    let some_rounds : r.trb_number ≡ suc k = omega (arith, size) in
    (
      r₁,
      r₂,
      sync_goes_round r t (taken ++ (y ∷ left)) second f run end run' room seen other,
      ap xhc_sync_event_ring reads
          ∙ sync_ends (reading r₁ at) (switched r.event_ring_ccs) at (
              ap (λ n. event_steps n r.trb_number r.trbs (switched r.event_ring_ccs) at) some_rounds
              ∙ stops r.trb_number k r.trbs (switched r.event_ring_ccs) at y here
                  (switched_away y.cycle_bit r.event_ring_ccs mine)),
      ground arith,
      here,
    )
