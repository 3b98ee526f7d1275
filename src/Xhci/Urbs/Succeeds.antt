-- ===== src/Xhci/Urbs/Succeeds.antt =====
-- The loop of XhcCheckUrbResult over the events of a transfer that succeeds.
use edk2_adlink_ampere_altra.Base.{
  ℕ, zero, suc, ◌+◌, ◌-◌, ◌^◌, ◌<◌, ◌≤◌, ◌≡◌, refl, ◌≢◌, sym, ◌∙◌, Bool, true, false, ◌&&◌, ◌||◌,
  none, some, List, [], ◌∷◌, ◌==◌, arith, ◌⊎◌, inl, inr, Bool-cases, is_success, get_or,
  if◌then◌else◌,
}
use edk2_adlink_ampere_altra.Xhci.Trb.{Trb, zero_trb}
use edk2_adlink_ampere_altra.Xhci.Events.{EventRing, xhc_check_new_event, new_events}
use edk2_adlink_ampere_altra.Xhci.Pool.{MemPool}
use edk2_adlink_ampere_altra.Xhci.MemPool.{usb_hc_get_host_addr_for_pci_addr}
use edk2_adlink_ampere_altra.Xhci.Urbs.{
  UrbState, complete_code, event_length, trb_ptr, block_length, is_completion, carries_data,
  trb_size, block_done, urb_event, with_urb, is_transfer_ring_trb, checked_urb, is_pending_trb,
  handle_event, check_steps,
}

-- How many bytes a block has moved where the event says what is left of it.
abbrev pub moved_by : Trb → Trb → ℕ
moved_by event block = if carries_data block then block_length block - event_length event else 0

-- The event is a success or a short packet of the block at an address, which is one of the request's.
pub record Completes (pool : MemPool) (mem : ℕ → Trb) (u : UrbState) (event : Trb) (trb : ℕ)
    : Type 0 where
  pub completes : is_completion event ≡ true
  pub there : usb_hc_get_host_addr_for_pci_addr pool (trb_ptr event) trb_size ≡ some trb
  pub its_own : is_transfer_ring_trb pool mem trb u ≡ some true
  pub well : (complete_code event ≡ 1) ⊎ (complete_code event ≡ 13)
  pub rest : event_length event ≤ block_length (mem trb)

-- Each of the events does: how many bytes they have moved, and whether the first and the last block
-- of the request are among theirs.
pub data Succeeds (pool : MemPool) (mem : ℕ → Trb) (u : UrbState)
    : List Trb → ℕ → Bool → Bool → Type 0 where
  nothing : Succeeds pool mem u [] 0 false false
  and_event :
      (e : Trb) (trb : ℕ) (es : List Trb) (moved : ℕ) (started ended : Bool)
      → Completes pool mem u e trb
      → Succeeds pool mem u es moved started ended
      → Succeeds pool mem u
          (e ∷ es)
          (moved_by e (mem trb) + moved)
          (trb == u.trb_start || started)
          (trb == u.trb_end || ended)

-- What such events make of the request.
pub record Advanced (u u' : UrbState) (moved : ℕ) (started ended : Bool) : Type 0 where
  pub completed : u'.completed ≡ u.completed + moved
  pub result : u'.result ≡ u.result
  pub start_done : u'.start_done ≡ (started || u.start_done)
  pub end_done : u'.end_done ≡ (ended || u.end_done)
  pub finished : (u'.start_done && u'.end_done) ≡ true → u'.finished ≡ true

same_urb : (n : ℕ) → (n == n) ≡ true
same_urb n = ground arith

with_urb-here : (urbs : ℕ → UrbState) (urb : ℕ) (u : UrbState) → with_urb urbs urb u urb ≡ u
with_urb-here urbs urb u = rw (same_urb urb) refl

with_urb-others :
    (urbs : ℕ → UrbState) (urb : ℕ) (u : UrbState) (id : ℕ)
    → id ≢ urb
    → with_urb urbs urb u id ≡ urbs id
with_urb-others urbs urb u id other = ground arith

-- Two states of one request, as far as its blocks are concerned.
pub record SameBlocks (u v : UrbState) : Type 0 where
  pub starts : v.trb_start ≡ u.trb_start
  pub ends : v.trb_end ≡ u.trb_end
  pub number : v.trb_num ≡ u.trb_num

module _ (pool : MemPool) (mem : ℕ → Trb) where
  Completes-same :
      (u v : UrbState) (event : Trb) (trb : ℕ)
      → SameBlocks u v
      → Completes pool mem u event trb
      → Completes pool mem v event trb
  unfolding is_transfer_ring_trb
  Completes-same u v event trb same c = record {
    completes = c.completes;
    there = c.there;
    its_own = rw (same.number, same.starts) c.its_own;
    well = c.well;
    rest = c.rest;
  }

  handle_event-Completes :
      (async : List ℕ) (urb : ℕ) (event : Trb) (trb place : ℕ) (urbs : ℕ → UrbState)
      → Completes pool mem (urbs urb) event trb
      → handle_event pool mem none async urb event place urbs
        ≡ some (true, with_urb urbs urb (block_done event trb (mem trb) place (urbs urb)))
  unfolding handle_event checked_urb is_pending_trb urb_event
  handle_event-Completes async urb event trb place urbs c = elim c.well [
    | inl one ↦ ground (arith, c.completes, c.there, c.its_own, one)
    | inr short ↦ ground (arith, c.completes, c.there, c.its_own, short)
  ]

  block_done-Advanced :
      (event : Trb) (trb place : ℕ) (u : UrbState)
      → Completes pool mem u event trb
      → u.completed + moved_by event (mem trb) < 2 ^ 64
      → Advanced u
          (block_done event trb (mem trb) place u)
          (moved_by event (mem trb))
          (trb == u.trb_start)
          (trb == u.trb_end)
  unfolding block_done
  block_done-Advanced event trb place u c fits = record {
    completed = ground (arith, c.rest, fits);
    result = refl;
    start_done = refl;
    end_done = refl;
    finished = λ both. ground (arith, both);
  }

  Advanced-trans :
      (u v w : UrbState) (moved moved' : ℕ) (started started' ended ended' : Bool)
      → Advanced u v moved started ended
      → Advanced v w moved' started' ended'
      → Advanced u w (moved + moved') (started || started') (ended || ended')
  Advanced-trans u v w moved moved' started started' ended ended' p q = record {
    completed = omega (arith, p.completed, q.completed);
    result = q.result ∙ p.result;
    start_done = ground (arith, p.start_done, q.start_done);
    end_done = ground (arith, p.end_done, q.end_done);
    finished = q.finished;
  }

  Advanced-refl :
      (u : UrbState)
      → ((u.start_done && u.end_done) ≡ true → u.finished ≡ true)
      → Advanced u u 0 false false
  Advanced-refl u settled = record {
    completed = omega arith;
    result = refl;
    start_done = refl;
    end_done = refl;
    finished = settled;
  }

  -- What one such event makes of the requests.
  first_event :
      (urb : ℕ) (u : UrbState) (event : Trb) (trb place : ℕ) (urbs : ℕ → UrbState)
      → Completes pool mem u event trb
      → SameBlocks u (urbs urb)
      → (urbs urb).completed + moved_by event (mem trb) < 2 ^ 64
      → (urbs₁ : ℕ → UrbState) × ((async : List ℕ)
          → handle_event pool mem none async urb event place urbs ≡ some (true, urbs₁))
        × SameBlocks u (urbs₁ urb)
        × Advanced
            (urbs urb)
            (urbs₁ urb)
            (moved_by event (mem trb))
            (trb == u.trb_start)
            (trb == u.trb_end)
        × ((id : ℕ) → id ≢ urb → urbs₁ id ≡ urbs id)
  unfolding block_done
  first_event urb u event trb place urbs c same fits =
      let v = urbs urb in
      let c' = Completes-same u v event trb same c in
      let v' = block_done event trb (mem trb) place v in
      let here = with_urb-here urbs urb v' in
      let advanced = block_done-Advanced event trb place v c' fits in
      (
        with_urb urbs urb v',
        λ async. handle_event-Completes async urb event trb place urbs c',
        rw here (record { starts = same.starts; ends = same.ends; number = same.number }),
        rw here (record {
          completed = advanced.completed;
          result = advanced.result;
          start_done = rw (sym same.starts) advanced.start_done;
          end_done = rw (sym same.ends) advanced.end_done;
          finished = advanced.finished;
        }),
        with_urb-others urbs urb v',
      )

  -- No event was new, or the first was the one at the dequeue pointer and the others come after it.
  new_events-none :
      (rounds : ℕ) (r : EventRing)
      → (new_events (suc rounds) r).0 ≡ []
      → (is_success (xhc_check_new_event r).0 ≡ false)
        × ((new_events (suc rounds) r).1 ≡ r)
        × ((xhc_check_new_event r).2 ≡ r)
  unfolding new_events xhc_check_new_event
  new_events-none rounds r found =
      elim (Bool-cases (r.event_ring_dequeue == r.event_ring_enqueue)) [
        | inl empty ↦ (ground (arith, empty), ground (arith, empty), ground (arith, empty))
        | inr some_left ↦ absurd (ground (arith, found, some_left))
      ]

  new_events-next :
      (rounds : ℕ) (r : EventRing) (e : Trb) (es : List Trb)
      → (new_events (suc rounds) r).0 ≡ e ∷ es
      → (is_success (xhc_check_new_event r).0 ≡ true)
        × (get_or r.trbs (xhc_check_new_event r).1 zero_trb ≡ e)
        × ((new_events rounds (xhc_check_new_event r).2).0 ≡ es)
        × ((new_events (suc rounds) r).1 ≡ (new_events rounds (xhc_check_new_event r).2).1)
  unfolding new_events xhc_check_new_event
  new_events-next rounds r e es found =
      elim (Bool-cases (r.event_ring_dequeue == r.event_ring_enqueue)) [
        | inl empty ↦ absurd (ground (arith, empty, found))
        | inr some_left ↦ (
          ground (arith, some_left),
          ground (arith, some_left, found),
          ground (arith, some_left, found),
          ground (arith, some_left),
        )
      ]

  -- The loop takes the events that new_events finds, and brings the request up to date.
  pub check_steps-Succeeds :
      (async : List ℕ) (urb : ℕ) (u : UrbState) (rounds : ℕ) (r : EventRing) (urbs : ℕ → UrbState)
      (events : List Trb) (moved : ℕ) (started ended : Bool)
      → Succeeds pool mem u events moved started ended
      → (new_events rounds r).0 ≡ events
      → SameBlocks u (urbs urb)
      → ((urbs urb).start_done && (urbs urb).end_done ≡ true → (urbs urb).finished ≡ true)
      → (urbs urb).completed + moved < 2 ^ 64
      → (urbs' : ℕ → UrbState) × (check_steps pool mem none async urb rounds r urbs
          ≡ some ((new_events rounds r).1, urbs'))
        × Advanced (urbs urb) (urbs' urb) moved started ended
        × ((id : ℕ) → id ≢ urb → urbs' id ≡ urbs id)
  unfolding check_steps new_events
  check_steps-Succeeds async urb u zero r urbs _ _ _ _ nothing found same settled fits =
      (urbs, refl, Advanced-refl (urbs urb) settled, λ id other. refl)
  check_steps-Succeeds async urb u zero r urbs _ _ _ _ (and_event e trb es m st en c s) found same
        settled fits =
      absurd (ground (arith, found))
  check_steps-Succeeds async urb u (suc rounds) r urbs _ _ _ _ nothing found same settled fits =
      let (old, left, stays) = new_events-none rounds r found in
      (urbs, ground (arith, old, left, stays), Advanced-refl (urbs urb) settled, λ id other. refl)
  check_steps-Succeeds async urb u (suc rounds) r urbs _ _ _ _ (and_event e trb es m st en c s)
        found same settled fits =
      let (is_new, is_e, found', left) = new_events-next rounds r e es found in
      let new = xhc_check_new_event r in
      let (urbs₁, handled, same₁, advanced, others) =
        first_event urb u e trb new.1 urbs c same (omega arith) in
      let (urbs', steps, advanced', others') =
        check_steps-Succeeds async urb u rounds new.2 urbs₁ es m st en s found' same₁
          advanced.finished (omega (arith, advanced.completed)) in
      (
        urbs',
        ground (arith, is_new, is_e, handled async, steps, left),
        Advanced-trans (urbs urb) (urbs₁ urb) (urbs' urb) (moved_by e (mem trb)) m
            (trb == u.trb_start) st (trb == u.trb_end) en advanced advanced',
        λ id other. others' id other ∙ others id other,
      )
