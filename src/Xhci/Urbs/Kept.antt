-- ===== src/Xhci/Urbs/Kept.antt =====
-- XhcCheckUrbResult: what it never takes back, and when a request is finished.
use edk2_adlink_ampere_altra.Base.{
  ℕ, zero, suc, ◌≡◌, refl, ◌≢◌, sym, ap, ◌∙◌, Bool, true, false, ◌&&◌, ◌||◌, Option, none, some,
  List, ◌==◌, arith, ◌⊎◌, inl, inr, Status, Bool-cases, Option-cases, bit_or, bit_at, bit_at-bit_or,
  is_success, get_or, if◌then◌else◌,
}
use edk2_adlink_ampere_altra.Xhci.Trb.{Trb, zero_trb}
use edk2_adlink_ampere_altra.Xhci.Regs.{Bus, Xhc}
use edk2_adlink_ampere_altra.Xhci.Events.{EventRing, xhc_check_new_event, xhc_sync_event_ring}
use edk2_adlink_ampere_altra.Xhci.Pool.{MemPool}
use edk2_adlink_ampere_altra.Xhci.MemPool.{usb_hc_get_host_addr_for_pci_addr}
use edk2_adlink_ampere_altra.Xhci.Urbs.{
  is_completion, trb_ptr, trb_size, UrbState, Polling, failed, block_done, urb_event, with_urb,
  checked_urb, handle_event, check_steps, take_events, is_stopped, update_urbs, advance_event_ring,
  xhc_check_urb_result, usb_err_system, usb_err_timeout, usb_err_stall, usb_err_babble,
  usb_err_buffer, complete_code,
}

-- A request is finished where its first and its last block are done, and only there or with an error.
pub record IsSettled (u : UrbState) : Type 0 where
  pub done_finished : (u.start_done && u.end_done) ≡ true → u.finished ≡ true
  pub finished_done : u.finished ≡ true → ((u.start_done && u.end_done) ≡ true) ⊎ (u.result ≢ 0)

-- What was done stays done, no error is lost, and the blocks stay where they are.
pub record Carries (u u' : UrbState) : Type 0 where
  pub blocks : (u'.trb_start ≡ u.trb_start) × (u'.trb_end ≡ u.trb_end) × (u'.trb_num ≡ u.trb_num)
  pub still_finished : u.finished ≡ true → u'.finished ≡ true
  pub still_started : u.start_done ≡ true → u'.start_done ≡ true
  pub still_ended : u.end_done ≡ true → u'.end_done ≡ true
  pub errors : (k : ℕ) → bit_at k u.result ≡ true → bit_at k u'.result ≡ true
  pub settled : IsSettled u → IsSettled u'

or_keeps : (k a b : ℕ) → bit_at k a ≡ true → bit_at k (bit_or a b) ≡ true
or_keeps k a b h = ground (arith, bit_at-bit_or k a b, h)

or_sets : (k a b : ℕ) → bit_at k b ≡ true → bit_at k 0 ≡ false → bit_or a b ≢ 0
or_sets k a b h zero_bit none_set =
    ground (arith, bit_at-bit_or k a b, h, ap (bit_at k) none_set, zero_bit)

Carries-refl : (u : UrbState) → Carries u u
Carries-refl u = record {
  blocks = (refl, refl, refl);
  still_finished = λ h. h;
  still_started = λ h. h;
  still_ended = λ h. h;
  errors = λ k h. h;
  settled = λ h. h;
}

Carries-trans : (u v w : UrbState) → Carries u v → Carries v w → Carries u w
Carries-trans u v w p q = record {
  blocks = (q.blocks.0 ∙ p.blocks.0, q.blocks.1 ∙ p.blocks.1, q.blocks.2 ∙ p.blocks.2);
  still_finished = λ h. q.still_finished (p.still_finished h);
  still_started = λ h. q.still_started (p.still_started h);
  still_ended = λ h. q.still_ended (p.still_ended h);
  errors = λ k h. q.errors k (p.errors k h);
  settled = λ h. q.settled (p.settled h);
}

failed-Carries :
    (err k : ℕ) (u : UrbState) → bit_at k err ≡ true → bit_at k 0 ≡ false → Carries u (failed err u)
failed-Carries err k u set zero_bit = record {
  blocks = (refl, refl, refl);
  still_finished = λ h. refl;
  still_started = λ h. h;
  still_ended = λ h. h;
  errors = λ j h. or_keeps j u.result err h;
  settled = λ h. record {
    done_finished = λ done. refl;
    finished_done = λ fin. inr (or_sets k u.result err set zero_bit);
  };
}

block_done-Carries :
    (event : Trb) (trb : ℕ) (block : Trb) (place : ℕ) (u : UrbState)
    → Carries u (block_done event trb block place u)
unfolding block_done
block_done-Carries event trb block place u = record {
  blocks = (refl, refl, refl);
  still_finished = λ h. ground (arith, h);
  still_started = λ h. ground (arith, h);
  still_ended = λ h. ground (arith, h);
  errors = λ j h. h;
  settled = λ s. record {
    done_finished = λ done. ground (arith, done);
    finished_done = λ fin. ground (arith, fin, s.finished_done);
  };
}

if-holds : {A : Type 0} (P : A → Type 0) (b : Bool) (x y : A) → P x → P y → P (if b then x else y)
if-holds P true x y p q = p
if-holds P false x y p q = q

urb_event-Carries :
    (event : Trb) (trb : ℕ) (block : Trb) (place : ℕ) (u : UrbState)
    → Carries u (urb_event event trb block place u).1
unfolding urb_event
urb_event-Carries event trb block place u =
    let P : Bool × UrbState → Type 0 = λ out. Carries u out.1 in
    let code = complete_code event in
    let timeout = failed-Carries usb_err_timeout 6 u refl refl in
    if-holds P (code == 6) _ _ (failed-Carries usb_err_stall 1 u refl refl) (
      if-holds P (code == 3) _ _ (failed-Carries usb_err_babble 3 u refl refl) (
        if-holds P (code == 2) _ _ (failed-Carries usb_err_buffer 2 u refl refl) (
          if-holds P (code == 4) _ _ timeout (
            if-holds P (code == 26 || code == 27) _ _ timeout (
              if-holds P (code == 13 || code == 1) _ _ (block_done-Carries event trb block place u)
                timeout)))))

-- Each of the requests carries on.
abbrev AllCarry : (urbs urbs' : ℕ → UrbState) → Type 0
AllCarry urbs urbs' = (id : ℕ) → Carries (urbs id) (urbs' id)

AllCarry-trans : (f g h : ℕ → UrbState) → AllCarry f g → AllCarry g h → AllCarry f h
AllCarry-trans f g h p q id = Carries-trans (f id) (g id) (h id) (p id) (q id)

with_urb-Carries :
    (urbs : ℕ → UrbState) (id : ℕ) (u : UrbState)
    → Carries (urbs id) u
    → AllCarry urbs (with_urb urbs id u)
with_urb-Carries urbs id u c id' = elim (Bool-cases (id' == id)) [
  | inl same ↦ let at : id' ≡ id = ground (arith, same) in rw (same, at) c
  | inr other ↦ rw other (Carries-refl (urbs id'))
]

module _ (pool : MemPool) (mem : ℕ → Trb) (pending : Option ℕ) (async : List ℕ) (urb : ℕ) where
  -- What an event comes to: nothing, or the switch for one of the requests.
  handle_event-cases :
      (event : Trb) (place : ℕ) (urbs : ℕ → UrbState) (goes_on : Bool) (urbs' : ℕ → UrbState)
      → handle_event pool mem pending async urb event place urbs ≡ some (goes_on, urbs')
      → (urbs' ≡ urbs)
        ⊎ ((id trb : ℕ) × (urbs'
              ≡ with_urb urbs id (urb_event event trb (mem trb) place (urbs id)).1))
  unfolding handle_event
  handle_event-cases event place urbs goes_on urbs' e = elim (Bool-cases (is_completion event)) [
    | inr other ↦ inl (ground (arith, e, other))
    | inl completes ↦
        elim (Option-cases (usb_hc_get_host_addr_for_pci_addr pool (trb_ptr event) trb_size)) [
          | inl nowhere ↦ absurd (ground (arith, e, completes, nowhere))
          | inr (trb, there) ↦
              elim (Option-cases (checked_urb pool mem pending async urb urbs trb)) [
                | inl nowhere ↦ absurd (ground (arith, e, completes, there, nowhere))
                | inr (none, nobody) ↦ inl (ground (arith, e, completes, there, nobody))
                | inr (some id, found) ↦ inr (id, trb, ground (arith, e, completes, there, found))
              ]
        ]
  ]

  handle_event-Carries :
      (event : Trb) (place : ℕ) (urbs : ℕ → UrbState) (goes_on : Bool) (urbs' : ℕ → UrbState)
      → handle_event pool mem pending async urb event place urbs ≡ some (goes_on, urbs')
      → AllCarry urbs urbs'
  handle_event-Carries event place urbs goes_on urbs' e =
      elim (handle_event-cases event place urbs goes_on urbs' e) [
        | inl same ↦ rw same (λ id. Carries-refl (urbs id))
        | inr (id, trb, changed) ↦ rw changed (
            with_urb-Carries urbs id (urb_event event trb (mem trb) place (urbs id)).1
              (urb_event-Carries event trb (mem trb) place (urbs id)))
      ]

  check_steps-Carries :
      (rounds : ℕ) (r : EventRing) (urbs : ℕ → UrbState) (r' : EventRing) (urbs' : ℕ → UrbState)
      → check_steps pool mem pending async urb rounds r urbs ≡ some (r', urbs')
      → AllCarry urbs urbs'
  unfolding check_steps
  check_steps-Carries zero r urbs r' urbs' e =
      let same : urbs ≡ urbs' = ground (arith, e) in rw (sym same) (λ id. Carries-refl (urbs id))
  check_steps-Carries (suc rounds) r urbs r' urbs' e = elim (Bool-cases (is_success new.0)) [
    | inr nothing ↦
        let same : urbs ≡ urbs' = ground (arith, e, nothing) in
        rw (sym same) (λ id. Carries-refl (urbs id))
    | inl is_new ↦ elim (Option-cases handled) [
      | inl nowhere ↦ absurd (ground (arith, e, is_new, nowhere))
      | inr ((false, urbs₁), stops) ↦
          let same : urbs₁ ≡ urbs' = ground (arith, e, is_new, stops) in
          rw (sym same) (handle_event-Carries event new.1 urbs false urbs₁ stops)
      | inr ((true, urbs₁), on) ↦
          AllCarry-trans urbs urbs₁ urbs' (handle_event-Carries event new.1 urbs true urbs₁ on)
            (check_steps-Carries rounds new.2 urbs₁ r' urbs' (ground (arith, e, is_new, on)))
    ]
  ]
    where
      new : Status × ℕ × EventRing
      new = xhc_check_new_event r

      event : Trb
      event = get_or r.trbs new.1 zero_trb

      handled : Option (Bool × (ℕ → UrbState))
      handled = handle_event pool mem pending async urb event new.1 urbs

module _ (pool : MemPool) (mem : ℕ → Trb) (urb : ℕ) where
  take_events-Carries :
      (s s' : Polling) → take_events pool mem urb s ≡ some s' → AllCarry s.urbs s'.urbs
  unfolding take_events
  take_events-Carries s s' e = elim (Option-cases (xhc_sync_event_ring s.event_ring)) [
    | inl nowhere ↦ absurd (ground (arith, e, nowhere))
    | inr (r, synced) ↦
        elim (Option-cases
          (check_steps pool mem s.pending_urb s.async_int_transfers urb r.trb_number r s.urbs)) [
            | inl nowhere ↦ absurd (ground (arith, e, synced, nowhere))
            | inr ((r', urbs'), checked) ↦
                let same : urbs' ≡ s'.urbs = ground (arith, e, synced, checked) in
                rw (sym same) (
                  check_steps-Carries pool mem s.pending_urb s.async_int_transfers urb r.trb_number
                    r s.urbs r' urbs' checked)
          ]
  ]

  module _ {W : Type 0} (bus : Bus W) (xhc : Xhc) (events_in : W → List Trb) where
    update_urbs-Carries :
        (s : Polling) (w : W) (s' : Polling) (w' : W)
        → update_urbs pool mem bus xhc events_in urb s w ≡ some (s', w')
        → AllCarry s.urbs s'.urbs
    unfolding update_urbs
    update_urbs-Carries s w s' w' e = elim (Bool-cases (s.urbs urb).finished) [
      | inl fin ↦
          let same : s.urbs ≡ s'.urbs = ground (arith, e, fin) in
          rw (sym same) (λ id. Carries-refl (s.urbs id))
      | inr going ↦ elim (Bool-cases stopped.0) [
        | inl stop ↦
            let same : with_urb s.urbs urb in_error ≡ s'.urbs = ground (arith, e, going, stop) in
            rw (sym same) (with_urb-Carries s.urbs urb in_error (in_error-Carries going))
        | inr runs ↦ elim (Option-cases (take_events pool mem urb filled)) [
          | inl nowhere ↦ absurd (ground (arith, e, going, runs, nowhere))
          | inr (taken, took) ↦
              let same : taken.urbs ≡ s'.urbs = ground (arith, e, going, runs, took) in
              rw (sym same) (take_events-Carries filled taken took)
        ]
      ]
    ]
      where
        stopped : Bool × W
        stopped = is_stopped pool mem bus xhc events_in w

        filled : Polling
        filled = record s { event_ring = record s.event_ring { trbs = events_in stopped.1 } }

        in_error : UrbState
        in_error = record (s.urbs urb) { result = bit_or (s.urbs urb).result usb_err_system }

        in_error-Carries : (s.urbs urb).finished ≡ false → Carries (s.urbs urb) in_error
        in_error-Carries going = record {
          blocks = (refl, refl, refl);
          still_finished = λ h. h;
          still_started = λ h. h;
          still_ended = λ h. h;
          errors = λ k h. or_keeps k (s.urbs urb).result usb_err_system h;
          settled = λ was. record {
            done_finished = was.done_finished;
            finished_done = λ fin. absurd (ground (arith, fin, going));
          };
        }

-- XhcCheckUrbResult takes nothing back from any request: what was finished or done stays so, no bit of
-- the result is lost, and the blocks stay; and where a request is finished exactly when its first and
-- its last block are done or there is an error, it is so afterwards.
pub xhc_check_urb_result-Carries :
    {W : Type 0} (pool : MemPool) (mem : ℕ → Trb) (bus : Bus W) (xhc : Xhc)
    (events_in : W → List Trb) (urb : ℕ) (s : Polling) (w : W) (finished : Bool) (s' : Polling)
    (w' : W)
    → xhc_check_urb_result pool mem bus xhc events_in urb s w ≡ some (finished, s', w')
    → ((id : ℕ) → Carries (s.urbs id) (s'.urbs id)) × (finished ≡ (s'.urbs urb).finished)
unfolding xhc_check_urb_result
xhc_check_urb_result-Carries pool mem bus xhc events_in urb s w finished s' w' e =
    elim (Option-cases (update_urbs pool mem bus xhc events_in urb s w)) [
      | inl nowhere ↦ absurd (ground (arith, e, nowhere))
      | inr ((s₁, w₁), updated) ↦
          elim (Option-cases (advance_event_ring pool mem bus xhc events_in s₁ w₁)) [
            | inl nowhere ↦ absurd (ground (arith, e, updated, nowhere))
            | inr (w₂, advanced) ↦
                let same : s₁ ≡ s' = ground (arith, e, updated, advanced) in
                (
                  rw (sym same)
                      (update_urbs-Carries pool mem urb bus xhc events_in s w s₁ w₁ updated),
                  ground (arith, e, updated, advanced),
                )
          ]
    ]
