-- ===== src/Xhci/Commands/Pending.antt =====
-- PendingUrb, which only XhcStopEndpoint sets.
use edk2_adlink_ampere_altra.Base.{
  ℕ, zero, suc, ◌+◌, ◌*◌, ◌%◌, ◌^◌, ◌≡◌, refl, sym, ap, ◌∙◌, Bool, true, false, ◌&&◌, Option, some,
  List, ◌==◌, ltb, Status, success, is_error, arith, inl, inr, Bool-cases, Option-cases,
}
use edk2_adlink_ampere_altra.Xhci.Trb.{Trb}
use edk2_adlink_ampere_altra.Xhci.Ring.{xhc_create_cmd_trb}
use edk2_adlink_ampere_altra.Xhci.Regs.{Bus, Xhc}
use edk2_adlink_ampere_altra.Xhci.Pool.{MemPool}
use edk2_adlink_ampere_altra.Xhci.Events.{xhc_sync_event_ring}
use edk2_adlink_ampere_altra.Xhci.Urbs.{
  Polling, with_urb, trb_size, check_steps, take_events, is_stopped, update_urbs,
  advance_event_ring, xhc_check_urb_result,
}
use edk2_adlink_ampere_altra.Xhci.Exec.{
  Endpoint, max_number_of_nak, is_limited, conclude, poll_steps, ring_and_poll, exec_on,
  xhc_exec_transfer, xhc_ring_door_bell,
}
use edk2_adlink_ampere_altra.Xhci.Commands.{
  Commander, Env, with_cmd_ring, cmd_urb, cmd_endpoint, exec_cmd, xhc_cmd_transfer,
}

take_events-pending :
    (pool : MemPool) (mem : ℕ → Trb) (urb : ℕ) (s s' : Polling)
    → take_events pool mem urb s ≡ some s'
    → s'.pending_urb ≡ s.pending_urb
unfolding take_events
take_events-pending pool mem urb s s' e = elim (Option-cases (xhc_sync_event_ring s.event_ring)) [
  | inl nowhere ↦ absurd (ground (arith, e, nowhere))
  | inr (r, synced) ↦
      elim (Option-cases
        (check_steps pool mem s.pending_urb s.async_int_transfers urb r.trb_number r s.urbs)) [
          | inl nowhere ↦ absurd (ground (arith, e, synced, nowhere))
          | inr (out, checked) ↦ ground (arith, e, synced, checked)
        ]
]

module _ {W : Type 0} (bus : Bus W) (xhc : Xhc) where
  -- What the check keeps of a state, the loop keeps.
  poll_steps-keeps :
      (pending : Option ℕ) (check : Polling → W → Option (Bool × Polling × W))
      → ((s : Polling) (w : W) (f : Bool) (s' : Polling) (w' : W)
          → check s w ≡ some (f, s', w')
          → s.pending_urb ≡ pending
          → s'.pending_urb ≡ pending)
      → (ep : Endpoint) (indefinite : Bool) (fuel count : ℕ) (s : Polling) (w : W) (f : Bool)
        (s' : Polling) (w' : W)
      → poll_steps bus xhc check ep indefinite fuel count s w ≡ some (f, s', w')
      → s.pending_urb ≡ pending
      → s'.pending_urb ≡ pending
  unfolding poll_steps
  poll_steps-keeps pending check keeps ep indefinite zero count s w f s' w' e p =
      absurd (ground (arith, e))
  poll_steps-keeps pending check keeps ep indefinite (suc fuel) count s w f s' w' e p =
      elim (Option-cases (check s w)) [
        | inl nowhere ↦ absurd (ground (arith, e, nowhere))
        | inr ((f₁, s₁, w₁), checked) ↦
            let p₁ = keeps s w f₁ s₁ w₁ checked p in
            let count' = (count + 1) % 2 ^ 64 in
            let w₂ = bus.stall 1 w₁ in
            elim (Bool-cases f₁) [
              | inl fin ↦ ground (arith, e, checked, fin, p₁)
              | inr going ↦ elim (Bool-cases (ltb max_number_of_nak count' && is_limited ep)) [
                | inl enough ↦ ground (arith, e, checked, going, enough, p₁)
                | inr few ↦ elim (Bool-cases indefinite) [
                  | inl forever ↦
                      poll_steps-keeps pending check keeps ep indefinite fuel count' s₁ w₂ f s' w'
                        (ground (arith, e, checked, going, few, forever)) p₁
                  | inr timed ↦ elim (Bool-cases (is_error (bus.check_event w₂).0)) [
                    | inl still ↦
                        poll_steps-keeps pending check keeps ep indefinite fuel count' s₁
                          (bus.check_event w₂).1 f s' w'
                          (ground (arith, e, checked, going, few, timed, still)) p₁
                    | inr over ↦ ground (arith, e, checked, going, few, timed, over, p₁)
                  ]
                ]
              ]
            ]
      ]

  module _ (pool : MemPool) (mem : ℕ → Trb) (events_in : W → List Trb) where
    update_urbs-pending :
        (urb : ℕ) (s : Polling) (w : W) (s' : Polling) (w' : W)
        → update_urbs pool mem bus xhc events_in urb s w ≡ some (s', w')
        → s'.pending_urb ≡ s.pending_urb
    unfolding update_urbs
    update_urbs-pending urb s w s' w' e = elim (Option-cases (take_events pool mem urb filled)) [
      | inl nowhere ↦ ground (arith, e, nowhere)
      | inr (taken, took) ↦
          ground (arith, e, took, take_events-pending pool mem urb filled taken took)
    ]
      where
        filled : Polling
        filled = record s {
          event_ring = record s.event_ring {
            trbs = events_in (is_stopped pool mem bus xhc events_in w).1;
          };
        }

    xhc_check_urb_result-pending :
        (urb : ℕ) (pending : Option ℕ) (s : Polling) (w : W) (f : Bool) (s' : Polling) (w' : W)
        → xhc_check_urb_result pool mem bus xhc events_in urb s w ≡ some (f, s', w')
        → s.pending_urb ≡ pending
        → s'.pending_urb ≡ pending
    unfolding xhc_check_urb_result
    xhc_check_urb_result-pending urb pending s w f s' w' e p =
        elim (Option-cases (update_urbs pool mem bus xhc events_in urb s w)) [
          | inl nowhere ↦ absurd (ground (arith, e, nowhere))
          | inr ((s₁, w₁), updated) ↦
              elim (Option-cases (advance_event_ring pool mem bus xhc events_in s₁ w₁)) [
                | inl nowhere ↦ absurd (ground (arith, e, updated, nowhere))
                | inr (w₂, advanced) ↦
                    let same : s₁ ≡ s' = ground (arith, e, updated, advanced) in
                    ap (λ t. t.pending_urb) (sym same)
                    ∙ update_urbs-pending urb s w s₁ w₁ updated
                    ∙ p
              ]
        ]

    ring_and_poll-pending :
        (so_far : Status) (fuel slot_id dci : ℕ) (ep : Endpoint) (urb : ℕ) (indefinite : Bool)
        (count : ℕ) (s : Polling) (w : W) (status : Status) (s' : Polling) (w' : W)
        → ring_and_poll bus xhc pool mem events_in so_far fuel slot_id dci ep urb indefinite count s
            w
          ≡ some (status, s', w')
        → s'.pending_urb ≡ s.pending_urb
    unfolding ring_and_poll conclude
    ring_and_poll-pending so_far fuel slot_id dci ep urb indefinite count s w status s' w' e =
        let check = xhc_check_urb_result pool mem bus xhc events_in urb in
        let rung = xhc_ring_door_bell bus xhc slot_id dci w in
        elim (Option-cases (poll_steps bus xhc check ep indefinite fuel count s rung)) [
          | inl nowhere ↦ absurd (ground (arith, e, nowhere))
          | inr ((f, s₁, w₁), ends) ↦
              let kept =
                poll_steps-keeps s.pending_urb check
                  (xhc_check_urb_result-pending urb s.pending_urb) ep indefinite fuel count s rung f
                  s₁ w₁ ends refl in
              ground (arith, e, ends, kept)
        ]

    exec_on-pending :
        (fuel count slot_id dci : ℕ) (ep : Endpoint) (urb timeout : ℕ) (s : Polling) (w : W)
        (status : Status) (s' : Polling) (w' : W)
        → exec_on bus xhc pool mem events_in fuel count slot_id dci ep urb timeout s w
          ≡ some (status, s', w')
        → s'.pending_urb ≡ s.pending_urb
    unfolding exec_on
    exec_on-pending fuel count slot_id dci ep urb timeout s w status s' w' e =
        elim (Bool-cases (timeout == 0)) [
          | inl forever ↦
              ring_and_poll-pending success fuel slot_id dci ep urb true count s w status s' w'
                (ground (arith, e, forever))
          | inr timed ↦
              let timer = bus.set_timer timeout (bus.create_event w).1 in
              elim (Option-cases (
                ring_and_poll bus xhc pool mem events_in timer.0 fuel slot_id dci ep urb false 0 s
                  timer.1)) [
                    | inl nowhere ↦ ground (arith, e, timed, nowhere)
                    | inr ((status₁, s₁, w₁), ends) ↦ ground (
                      arith,
                      e,
                      timed,
                      ends,
                      ring_and_poll-pending timer.0 fuel slot_id dci ep urb false 0 s timer.1
                          status₁ s₁ w₁ ends,
                    )
                  ]
        ]

module _ {W : Type 0} (env : Env W) where
  exec_cmd-pending :
      (urb place timeout : ℕ) (c : Commander) (w : W) (status : Status) (c' : Commander) (w' : W)
      → exec_cmd env urb place timeout c w ≡ some (status, c', w')
      → c'.polling.pending_urb ≡ c.polling.pending_urb
  unfolding exec_cmd xhc_exec_transfer
  exec_cmd-pending urb place timeout c w status c' w' e = elim (Option-cases executed) [
    | inl nowhere ↦ absurd (ground (arith, e, nowhere))
    | inr ((status₁, s₁, w₁), ends) ↦
        let kept =
          exec_on-pending env.bus env.xhc env.pool blocks env.events_in env.fuel 0 0 0 cmd_endpoint
            urb timeout created w status₁ s₁ w₁ ends in
        ground (arith, e, ends, kept)
  ]
    where
      blocks : ℕ → Trb
      blocks = with_cmd_ring env.mem c.cmd_ring_seg0 c.cmd_ring

      created : Polling
      created = record c.polling {
        urbs = with_urb c.polling.urbs urb (cmd_urb (c.cmd_ring_seg0 + place * trb_size));
      }

      executed : Option (Status × Polling × W)
      executed =
          exec_on env.bus env.xhc env.pool blocks env.events_in env.fuel 0 0 0 cmd_endpoint urb
            timeout created w

  -- XhcCmdTransfer leaves PendingUrb alone.
  pub xhc_cmd_transfer-pending :
      (cmd_trb : Trb) (timeout : ℕ) (c : Commander) (w : W) (status : Status) (c' : Commander)
      (w' : W)
      → xhc_cmd_transfer env cmd_trb timeout c w ≡ some (status, c', w')
      → c'.polling.pending_urb ≡ c.polling.pending_urb
  unfolding xhc_cmd_transfer
  xhc_cmd_transfer-pending cmd_trb timeout c w status c' w' e =
      elim (Option-cases (xhc_create_cmd_trb c.cmd_ring cmd_trb)) [
        | inl nowhere ↦ ground (arith, e, nowhere)
        | inr ((r, place), made) ↦
            let c₁ : Commander = record c { cmd_ring = r } in
            let w₁ = (is_stopped env.pool env.mem env.bus env.xhc env.events_in w).1 in
            let (urb, w₂) = env.allocate_urb w₁ in
            elim (Option-cases (exec_cmd env urb place timeout c₁ w₂)) [
              | inl nowhere ↦ ground (arith, e, made, nowhere)
              | inr ((status₁, c₂, w₃), ends) ↦ ground (
                arith,
                e,
                made,
                ends,
                exec_cmd-pending urb place timeout c₁ w₂ status₁ c₂ w₃ ends,
              )
            ]
      ]
