-- ===== src/Xhci/Urbs/Completed.antt =====
-- What XhcCheckUrbResult makes of the events of a transfer that succeeds.
use edk2_adlink_ampere_altra.Base.{
  ℕ, zero, suc, ◌+◌, ◌*◌, ◌^◌, ◌<◌, ◌≡◌, refl, ◌≢◌, ap, ◌∙◌, true, false, ◌&&◌, none, some, List,
  arith, inl, inr, Option-cases,
}
use edk2_adlink_ampere_altra.Xhci.Trb.{Trb}
use edk2_adlink_ampere_altra.Xhci.Regs.{Bus, Xhc}
use edk2_adlink_ampere_altra.Xhci.Events.{
  EventRing, event_steps, xhc_check_new_event, xhc_sync_event_ring, new_events,
}
use edk2_adlink_ampere_altra.Xhci.Events.Drained.{Written, xhc_sync_event_ring-Written}
use edk2_adlink_ampere_altra.Xhci.Pool.{MemPool}
use edk2_adlink_ampere_altra.Xhci.MemPool.{usb_hc_get_pci_addr_for_host_addr}
use edk2_adlink_ampere_altra.Xhci.Urbs.{
  UrbState, Polling, trb_size, check_steps, take_events, is_stopped, update_urbs,
  advance_event_ring, xhc_check_urb_result,
}
use edk2_adlink_ampere_altra.Xhci.Urbs.Succeeds.{Succeeds, check_steps-Succeeds}

synced_place :
    (r r' : EventRing)
    → xhc_sync_event_ring r ≡ some r'
    → (r'.event_ring_dequeue ≡ r.event_ring_dequeue) × (r'.trb_number ≡ r.trb_number)
unfolding xhc_sync_event_ring
synced_place r r' synced =
    elim (Option-cases
      (event_steps r.trb_number r.trb_number r.trbs r.event_ring_ccs r.event_ring_dequeue)) [
        | inl nowhere ↦ absurd (ground (arith, synced, nowhere))
        | inr (out, found) ↦ (ground (arith, synced, found), ground (arith, synced, found))
      ]

new_events-inside :
    (rounds : ℕ) (r : EventRing)
    → r.event_ring_dequeue < r.trb_number
    → (new_events rounds r).1.event_ring_dequeue < r.trb_number
unfolding new_events xhc_check_new_event
new_events-inside zero r inside = inside
new_events-inside (suc rounds) r inside =
    ground (arith, inside, new_events-inside rounds (xhc_check_new_event r).2)

module _ (pool : MemPool) (mem : ℕ → Trb) {W : Type 0} (bus : Bus W) (xhc : Xhc)
    (events_in : W → List Trb) where
  advances :
      (s : Polling) (w : W) (phy_addr : ℕ)
      → usb_hc_get_pci_addr_for_host_addr pool
          (s.event_ring_seg0 + s.event_ring.event_ring_dequeue * trb_size)
          trb_size
        ≡ some phy_addr
      → (w' : W) × (advance_event_ring pool mem bus xhc events_in s w ≡ some w')
  unfolding advance_event_ring
  advances s w phy_addr there =
      elim (Option-cases (advance_event_ring pool mem bus xhc events_in s w)) [
        | inl nowhere ↦ absurd (ground (arith, nowhere, there))
        | inr advanced ↦ advanced
      ]

  updates :
      (urb : ℕ) (s : Polling) (w : W) (r' : EventRing) (left : EventRing) (urbs' : ℕ → UrbState)
      → (s.urbs urb).finished ≡ false
      → (is_stopped pool mem bus xhc events_in w).0 ≡ false
      → s.pending_urb ≡ none
      → xhc_sync_event_ring
          (record s.event_ring { trbs = events_in (is_stopped pool mem bus xhc events_in w).1 })
        ≡ some r'
      → check_steps pool mem none s.async_int_transfers urb r'.trb_number r' s.urbs
        ≡ some (left, urbs')
      → update_urbs pool mem bus xhc events_in urb s w
        ≡ some (
          record s { event_ring = left; urbs = urbs' },
          (is_stopped pool mem bus xhc events_in w).1,
        )
  unfolding update_urbs take_events
  updates urb s w r' left urbs' going runs nobody synced steps =
      ground (arith, going, runs, nobody, synced, steps)

-- The events of a transfer are those that the controller has written since the last check: each is a
-- success or a short packet of one of the request's blocks, the first and the last block among them.
-- Then XhcCheckUrbResult returns TRUE, the request has no error, and its Completed has grown by what the
-- blocks have moved; the other requests are as they were. The request is not finished before and has
-- no error, no other request is pending, the controller runs, the bytes fit in 64 bits, and the memory of the
-- event ring is the pool's.
pub xhc_check_urb_result-Succeeds :
    {W : Type 0} (pool : MemPool) (mem : ℕ → Trb) (bus : Bus W) (xhc : Xhc)
    (events_in : W → List Trb) (urb : ℕ) (s : Polling) (w : W) (events : List Trb) (moved : ℕ)
    → (s.urbs urb).finished ≡ false
    → ((s.urbs urb).start_done && (s.urbs urb).end_done) ≡ false
    → (is_stopped pool mem bus xhc events_in w).0 ≡ false
    → s.pending_urb ≡ none
    → Written
        (record s.event_ring { trbs = events_in (is_stopped pool mem bus xhc events_in w).1 })
        events
    → Succeeds pool mem (s.urbs urb) events moved true true
    → (s.urbs urb).completed + moved < 2 ^ 64
    → s.event_ring.event_ring_dequeue < s.event_ring.trb_number
    → ((place : ℕ)
        → place < s.event_ring.trb_number
        → (phy_addr : ℕ) × (usb_hc_get_pci_addr_for_host_addr pool
              (s.event_ring_seg0 + place * trb_size)
              trb_size
            ≡ some phy_addr))
    → (s' : Polling) × (w' : W) × (xhc_check_urb_result pool mem bus xhc events_in urb s w
        ≡ some (true, s', w'))
      × ((s'.urbs urb).result ≡ (s.urbs urb).result)
      × ((s'.urbs urb).completed ≡ (s.urbs urb).completed + moved)
      × ((id : ℕ) → id ≢ urb → s'.urbs id ≡ s.urbs id)
unfolding xhc_check_urb_result
xhc_check_urb_result-Succeeds pool mem bus xhc events_in urb s w events moved going halfway runs
      nobody written succeeds fits inside mapped =
    let stopped = is_stopped pool mem bus xhc events_in w in
    let r : EventRing = record s.event_ring { trbs = events_in stopped.1 } in
    let (r', synced, found, ends) = xhc_sync_event_ring-Written r events written in
    let (same_place, same_number) = synced_place r r' synced in
    let (urbs', steps, advanced, others) =
      check_steps-Succeeds pool mem s.async_int_transfers urb (s.urbs urb) r'.trb_number r' s.urbs
        events moved true true succeeds (ap (λ n. (new_events n r').0) same_number ∙ found)
        (record { starts = refl; ends = refl; number = refl })
        (λ both. absurd (ground (arith, both, halfway))) fits in
    let left = (new_events r'.trb_number r').1 in
    let s' : Polling = record s { event_ring = left; urbs = urbs' } in
    let (phy_addr, there) = mapped left.event_ring_dequeue (
      omega (
        arith,
        new_events-inside r'.trb_number r' (omega (arith, same_place, same_number, inside)),
        same_number,
      )) in
    let updated =
      updates pool mem bus xhc events_in urb s w r' left urbs' going runs nobody synced steps in
    let (w', advances_to) = advances pool mem bus xhc events_in s' stopped.1 phy_addr there in
    let fin : (urbs' urb).finished ≡ true =
      advanced.finished (ground (arith, advanced.start_done, advanced.end_done)) in
    (s', w', ground (arith, updated, advances_to, fin), advanced.result, advanced.completed, others)
