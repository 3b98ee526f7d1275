-- ===== src/Xhci/Events/Walk.antt =====
-- The two loops over the event ring, over a run of blocks.
use edk2_adlink_ampere_altra.Base.{
  ℕ, zero, suc, ◌+◌, ◌<◌, ◌≡◌, refl, ap, ◌∙◌, true, false, some, List, [], ◌∷◌, ◌++◌, ◌==◌, leb,
  length, get_elem?, get_or, arith, if◌then◌else◌, ◌⊎◌, ◌≢◌, ◌≤◌,
}
use edk2_adlink_ampere_altra.Xhci.Trb.{Trb, zero_trb}
use edk2_adlink_ampere_altra.Xhci.Events.{EventRing, event_steps, switched, new_events}

-- The events lie in the ring one behind the other from a place on, with one cycle bit.
abbrev pub RunAt : List Trb → ℕ → ℕ → List Trb → Type 0
RunAt trbs c at [] = Unit {0}
RunAt trbs c at (t ∷ ts) =
    (get_elem? trbs at ≡ some t) × ((t.cycle_bit == c) ≡ true) × RunAt trbs c (suc at) ts

get_or-get_elem? :
    (trbs : List Trb) (at : ℕ) (t : Trb) → get_elem? trbs at ≡ some t → get_or trbs at zero_trb ≡ t
get_or-get_elem? [] at t e = cc
get_or-get_elem? (x ∷ trbs) zero t e = cc
get_or-get_elem? (x ∷ trbs) (suc at) t e = get_or-get_elem? trbs at t e

module _ (number rounds : ℕ) (trbs : List Trb) (c : ℕ) where
  pub stops :
      (at : ℕ) (t : Trb)
      → get_elem? trbs at ≡ some t
      → (t.cycle_bit == c) ≡ false
      → event_steps (suc rounds) number trbs c at ≡ some (true, c, at)
  unfolding event_steps
  stops at t seen other = ground (arith, seen)

  goes_on :
      (at : ℕ) (t : Trb)
      → get_elem? trbs at ≡ some t
      → (t.cycle_bit == c) ≡ true
      → suc at < number
      → event_steps (suc rounds) number trbs c at ≡ event_steps rounds number trbs c (suc at)
  unfolding event_steps
  goes_on at t seen mine inside = ground (arith, seen)

  goes_round :
      (at : ℕ) (t : Trb)
      → get_elem? trbs at ≡ some t
      → (t.cycle_bit == c) ≡ true
      → suc at ≡ number
      → event_steps (suc rounds) number trbs c at ≡ event_steps rounds number trbs (switched c) 0
  unfolding event_steps
  goes_round at t seen mine end = ground (arith, seen)

module _ (number : ℕ) (trbs : List Trb) (c : ℕ) where
  -- A run that ends inside of the ring, and one that ends with the ring.
  pub walk :
      (rounds at : ℕ) (events : List Trb)
      → RunAt trbs c at events
      → at + length events < number
      → event_steps (length events + rounds) number trbs c at
        ≡ event_steps rounds number trbs c (at + length events)
  walk rounds at [] run inside = (λ i. event_steps (zero_add i) number trbs c (add_zero i))
    where
      zero_add : 0 + rounds ≡ rounds
      zero_add = omega arith

      add_zero : at ≡ at + 0
      add_zero = omega arith
  walk rounds at (t ∷ events) run inside =
      ap (λ n. event_steps n number trbs c at) {y = suc (length events + rounds)} (omega arith)
      ∙ goes_on number (length events + rounds) trbs c at t run.0 run.1 (omega arith)
      ∙ walk rounds (suc at) events run.2 (omega arith)
      ∙ ap (event_steps rounds number trbs c) {y = at + suc (length events)} (omega arith)

  pub walk_round :
      (rounds at : ℕ) (t : Trb) (events : List Trb)
      → RunAt trbs c at (t ∷ events)
      → at + suc (length events) ≡ number
      → event_steps (suc (length events) + rounds) number trbs c at
        ≡ event_steps rounds number trbs (switched c) 0
  walk_round rounds at t [] run end =
      ap (λ n. event_steps n number trbs c at) {y = suc rounds} (omega arith)
      ∙ goes_round number rounds trbs c at t run.0 run.1 (omega arith)
  walk_round rounds at t (u ∷ events) run end =
      ap (λ n. event_steps n number trbs c at) {y = suc (suc (length events) + rounds)}
        (omega arith)
      ∙ goes_on number (suc (length events) + rounds) trbs c at t run.0 run.1 (omega arith)
      ∙ walk_round rounds (suc at) u events run.2 (omega arith)

-- The ring with its dequeue pointer at a place.
abbrev pub reading : EventRing → ℕ → EventRing
reading r at = record r { event_ring_dequeue = at }

-- The events of a run, and what is read after it.
abbrev pub after_run : List Trb → List Trb × EventRing → List Trb × EventRing
after_run events (later, r) = (events ++ later, r)

module _ (r : EventRing) where
  pub read_nothing :
      (rounds : ℕ)
      → new_events rounds (reading r r.event_ring_enqueue) ≡ ([], reading r r.event_ring_enqueue)
  unfolding new_events
  read_nothing zero = refl
  read_nothing (suc rounds) = ground arith

  read_one :
      (rounds at next : ℕ) (t : Trb)
      → at ≢ r.event_ring_enqueue
      → get_elem? r.trbs at ≡ some t
      → (if leb r.trb_number (suc at) then 0 else suc at) ≡ next
      → new_events (suc rounds) (reading r at)
        ≡ after_run (t ∷ []) (new_events rounds (reading r next))
  unfolding new_events
  read_one rounds at next t apart seen e =
      ground (arith, get_or-get_elem? r.trbs at t seen, apart, e)

  -- A run that the enqueue pointer is not in.
  pub read_run :
      (c rounds at : ℕ) (events : List Trb)
      → RunAt r.trbs c at events
      → (r.event_ring_enqueue < at) ⊎ (at + length events ≤ r.event_ring_enqueue)
      → at + length events < r.trb_number
      → new_events (length events + rounds) (reading r at)
        ≡ after_run events (new_events rounds (reading r (at + length events)))
  read_run c rounds at [] run apart inside =
      let stay : at ≡ at + 0 = omega arith in
      let none_left : 0 + rounds ≡ rounds = omega arith in
      (λ i. after_run [] (new_events (none_left i) (reading r (stay i))))
  read_run c rounds at (t ∷ events) run apart inside =
      ap (λ n. new_events n (reading r at)) {y = suc (length events + rounds)} (omega arith)
      ∙ read_one (length events + rounds) at (suc at) t (ground arith) run.0 (ground arith)
      ∙ ap (after_run (t ∷ []))
          (read_run c rounds (suc at) events run.2 (ground arith) (omega arith))
      ∙ ap (λ k. after_run (t ∷ events) (new_events rounds (reading r k)))
          {y = at + suc (length events)} (omega arith)

  pub read_round :
      (c rounds at : ℕ) (t : Trb) (events : List Trb)
      → RunAt r.trbs c at (t ∷ events)
      → r.event_ring_enqueue < at
      → at + suc (length events) ≡ r.trb_number
      → new_events (suc (length events) + rounds) (reading r at)
        ≡ after_run (t ∷ events) (new_events rounds (reading r 0))
  read_round c rounds at t [] run apart end =
      ap (λ n. new_events n (reading r at)) {y = suc rounds} (omega arith)
      ∙ read_one rounds at 0 t (ground arith) run.0 (ground arith)
  read_round c rounds at t (u ∷ events) run apart end =
      ap (λ n. new_events n (reading r at)) {y = suc (suc (length events) + rounds)} (omega arith)
      ∙ read_one (suc (length events) + rounds) at (suc at) t (ground arith) run.0 (ground arith)
      ∙ ap (after_run (t ∷ []))
          (read_round c rounds (suc at) u events run.2 (omega arith) (omega arith))
