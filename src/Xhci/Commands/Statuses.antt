-- ===== src/Xhci/Commands/Statuses.antt =====
-- That no command ends with EFI_ALREADY_STARTED, where the calls for the timer do not.
use edk2_adlink_ampere_altra.Base.{
  ℕ, ◌+◌, ◌*◌, ◌≡◌, refl, sym, Bool, true, false, Option, some, List, ◌==◌, Status, success,
  is_error, arith, inl, inr, Bool-cases, Option-cases,
}
use edk2_adlink_ampere_altra.Xhci.Trb.{Trb}
use edk2_adlink_ampere_altra.Xhci.Ring.{TransferRing, xhc_create_cmd_trb}
use edk2_adlink_ampere_altra.Xhci.Regs.{Bus, Xhc}
use edk2_adlink_ampere_altra.Xhci.Pool.{MemPool}
use edk2_adlink_ampere_altra.Xhci.MemPool.{usb_hc_get_pci_addr_for_host_addr}
use edk2_adlink_ampere_altra.Xhci.Ports.{generic_timeout}
use edk2_adlink_ampere_altra.Xhci.Urbs.{
  Polling, with_urb, trb_size, is_stopped, xhc_check_urb_result,
}
use edk2_adlink_ampere_altra.Xhci.Exec.{
  Endpoint, conclude, poll_steps, ring_and_poll, exec_on, xhc_exec_transfer, xhc_ring_door_bell,
}
use edk2_adlink_ampere_altra.Xhci.Commands.{
  Commander, Env, is_already_started, with_cmd_ring, cmd_urb, cmd_endpoint, exec_cmd,
  xhc_cmd_transfer, stop_endpoint_trb, set_tr_dequeue_trb, with_pending, xhc_stop_endpoint,
  xhc_set_tr_dequeue_pointer,
}

-- What is documented of CreateEvent and SetTimer.
pub record TimerStatuses {W : Type 0} (bus : Bus W) : Type 0 where
  pub created : (w : W) → is_already_started (bus.create_event w).0 ≡ false
  pub timed : (timeout : ℕ) (w : W) → is_already_started (bus.set_timer timeout w).0 ≡ false

module _ {W : Type 0} (bus : Bus W) (xhc : Xhc) (timer : TimerStatuses bus) (pool : MemPool)
    (mem : ℕ → Trb) (events_in : W → List Trb) where
  ring_and_poll-status :
      (so_far : Status)
      → is_already_started so_far ≡ false
      → (fuel slot_id dci : ℕ) (ep : Endpoint) (urb : ℕ) (indefinite : Bool) (count : ℕ)
        (s : Polling) (w : W) (status : Status) (s' : Polling) (w' : W)
      → ring_and_poll bus xhc pool mem events_in so_far fuel slot_id dci ep urb indefinite count s w
        ≡ some (status, s', w')
      → is_already_started status ≡ false
  unfolding ring_and_poll conclude
  ring_and_poll-status so_far good fuel slot_id dci ep urb indefinite count s w status s' w' e =
      let check = xhc_check_urb_result pool mem bus xhc events_in urb in
      let rung = xhc_ring_door_bell bus xhc slot_id dci w in
      elim (Option-cases (poll_steps bus xhc check ep indefinite fuel count s rung)) [
        | inl nowhere ↦ absurd (ground (arith, e, nowhere))
        | inr ((f, s₁, w₁), ends) ↦ ground (arith, e, ends, good)
      ]

  exec_on-status :
      (fuel count slot_id dci : ℕ) (ep : Endpoint) (urb timeout : ℕ) (s : Polling) (w : W)
      (status : Status) (s' : Polling) (w' : W)
      → exec_on bus xhc pool mem events_in fuel count slot_id dci ep urb timeout s w
        ≡ some (status, s', w')
      → is_already_started status ≡ false
  unfolding exec_on
  exec_on-status fuel count slot_id dci ep urb timeout s w status s' w' e =
      elim (Bool-cases (timeout == 0)) [
        | inl forever ↦
            ring_and_poll-status success refl fuel slot_id dci ep urb true count s w status s' w'
              (ground (arith, e, forever))
        | inr timed ↦ elim (Bool-cases (is_error (bus.create_event w).0)) [
          | inl no_event ↦
              let same : (bus.create_event w).0 ≡ status = ground (arith, e, timed, no_event) in
              rw (sym same) (timer.created w)
          | inr event ↦
              elim (Bool-cases (is_error (bus.set_timer timeout (bus.create_event w).1).0)) [
                | inl no_timer ↦
                    let same : (bus.set_timer timeout (bus.create_event w).1).0 ≡ status =
                      ground (arith, e, timed, event, no_timer) in
                    rw (sym same) (timer.timed timeout (bus.create_event w).1)
                | inr set ↦
                    let armed = (bus.set_timer timeout (bus.create_event w).1).1 in
                    elim (Option-cases (
                      ring_and_poll bus xhc pool mem events_in
                        (bus.set_timer timeout (bus.create_event w).1).0 fuel slot_id dci ep urb
                        false 0 s armed)) [
                          | inl nowhere ↦ absurd (ground (arith, e, timed, event, set, nowhere))
                          | inr ((status₁, s₁, w₁), ends) ↦
                              let same : status₁ ≡ status =
                                ground (arith, e, timed, event, set, ends) in
                              rw (sym same) (
                                ring_and_poll-status
                                  (bus.set_timer timeout (bus.create_event w).1).0
                                  (timer.timed timeout (bus.create_event w).1) fuel slot_id dci ep
                                  urb false 0 s armed status₁ s₁ w₁ ends)
                        ]
              ]
        ]
      ]

module _ {W : Type 0} (env : Env W) (timer : TimerStatuses env.bus) where
  exec_cmd-status :
      (urb place timeout : ℕ) (c : Commander) (w : W) (status : Status) (c' : Commander) (w' : W)
      → exec_cmd env urb place timeout c w ≡ some (status, c', w')
      → is_already_started status ≡ false
  unfolding exec_cmd xhc_exec_transfer
  exec_cmd-status urb place timeout c w status c' w' e = elim (Option-cases executed) [
    | inl nowhere ↦ absurd (ground (arith, e, nowhere))
    | inr ((status₁, s₁, w₁), ends) ↦
        let fine =
          exec_on-status env.bus env.xhc timer env.pool blocks env.events_in env.fuel 0 0 0
            cmd_endpoint urb timeout created w status₁ s₁ w₁ ends in
        ground (arith, e, ends, fine)
  ]
    where
      blocks : ℕ → Trb
      blocks = with_cmd_ring env.mem c.cmd_ring_seg0 c.cmd_ring

      created : Polling
      created = record c.polling {
        urbs = with_urb c.polling.urbs urb (cmd_urb (c.cmd_ring_seg0 + place * trb_size));
      }

      executed : Option (Status × Polling × W)
      executed =
          exec_on env.bus env.xhc env.pool blocks env.events_in env.fuel 0 0 0 cmd_endpoint urb
            timeout created w

  xhc_cmd_transfer-status :
      (cmd_trb : Trb) (timeout : ℕ) (c : Commander) (w : W) (status : Status) (c' : Commander)
      (w' : W)
      → xhc_cmd_transfer env cmd_trb timeout c w ≡ some (status, c', w')
      → is_already_started status ≡ false
  unfolding xhc_cmd_transfer
  xhc_cmd_transfer-status cmd_trb timeout c w status c' w' e =
      elim (Option-cases (xhc_create_cmd_trb c.cmd_ring cmd_trb)) [
        | inl nowhere ↦ ground (arith, e, nowhere)
        | inr ((r, place), made) ↦
            let c₁ : Commander = record c { cmd_ring = r } in
            let w₁ = (is_stopped env.pool env.mem env.bus env.xhc env.events_in w).1 in
            let (urb, w₂) = env.allocate_urb w₁ in
            elim (Option-cases (exec_cmd env urb place timeout c₁ w₂)) [
              | inl nowhere ↦ ground (arith, e, made, nowhere)
              | inr ((status₁, c₂, w₃), ends) ↦
                  ground (
                    arith,
                    e,
                    made,
                    ends,
                    exec_cmd-status urb place timeout c₁ w₂ status₁ c₂ w₃ ends,
                  )
            ]
      ]

  pub xhc_stop_endpoint-status :
      (slot_id dci urb : ℕ) (c : Commander) (w : W) (status : Status) (c' : Commander) (w' : W)
      → xhc_stop_endpoint env slot_id dci urb c w ≡ some (status, c', w')
      → is_already_started status ≡ false
  unfolding xhc_stop_endpoint
  xhc_stop_endpoint-status slot_id dci urb c w status c' w' e =
      elim (Option-cases (
        xhc_cmd_transfer env (stop_endpoint_trb slot_id dci) generic_timeout
          (with_pending env c urb) w)) [
            | inl nowhere ↦ absurd (ground (arith, e, nowhere))
            | inr ((status₁, c₁, w₁), sent) ↦
                let same : status₁ ≡ status = ground (arith, e, sent) in
                rw (sym same) (
                  xhc_cmd_transfer-status (stop_endpoint_trb slot_id dci) generic_timeout
                    (with_pending env c urb) w status₁ c₁ w₁ sent)
          ]

  pub xhc_set_tr_dequeue_pointer-status :
      (slot_id dci : ℕ) (r : TransferRing) (seg0 : ℕ) (c : Commander) (w : W) (status : Status)
      (c' : Commander) (w' : W)
      → xhc_set_tr_dequeue_pointer env slot_id dci r seg0 c w ≡ some (status, c', w')
      → is_already_started status ≡ false
  unfolding xhc_set_tr_dequeue_pointer
  xhc_set_tr_dequeue_pointer-status slot_id dci r seg0 c w status c' w' e =
      elim (Option-cases
        (usb_hc_get_pci_addr_for_host_addr env.pool (seg0 + r.ring_enqueue * trb_size) trb_size)) [
          | inl nowhere ↦ absurd (ground (arith, e, nowhere))
          | inr (phy_addr, there) ↦
              xhc_cmd_transfer-status (set_tr_dequeue_trb phy_addr r.ring_pcs slot_id dci)
                generic_timeout c w status c' w' (ground (arith, e, there))
        ]
