-- ===== src/Xhci/Requests/Results.antt =====
-- What EFI_SUCCESS of a transfer says of its TransferResult.
use edk2_adlink_ampere_altra.Base.{
  ℕ, ◌≡◌, sym, ap, ◌∙◌, true, false, Option, none, some, ◌==◌, Status, success, is_error, arith,
  ◌⊎◌, inl, inr, Bool-cases, Option-cases,
}
use edk2_adlink_ampere_altra.Xhci.Ring.{TransferRing}
use edk2_adlink_ampere_altra.Xhci.Devices.{xhc_endpoint_to_dci, xhc_bus_dev_addr_to_slot_id}
use edk2_adlink_ampere_altra.Xhci.Transfer.{usb_noerror}
use edk2_adlink_ampere_altra.Xhci.Urbs.{Polling, is_stopped}
use edk2_adlink_ampere_altra.Xhci.Exec.{Endpoint, xhc_bulk_transfer, xhc_exec_transfer}
use edk2_adlink_ampere_altra.Xhci.Exec.Ends.{
  Ended, well, in_error, out_of_time, not_executed, xhc_exec_transfer-Ended,
}
use edk2_adlink_ampere_altra.Xhci.Commands.{
  Commander, Env, is_already_started, has_succeeded, xhc_stop_endpoint, xhc_set_tr_dequeue_pointer,
  xhc_dequeue_trb_from_endpoint,
}
use edk2_adlink_ampere_altra.Xhci.Commands.Dequeued.{then_ring-cases}
use edk2_adlink_ampere_altra.Xhci.Commands.Statuses.{
  TimerStatuses, xhc_stop_endpoint-status, xhc_set_tr_dequeue_pointer-status,
}
use edk2_adlink_ampere_altra.Xhci.Requests.{
  is_timed_out, Host, Asked, Answer, Created, Pci, xhc_create_urb, env_of, abort_slow,
  recover_halted, run_urb, xhc_transfer, start_transfer, is_valid_bulk, xhc_bulk_transfer_to,
  is_valid_interrupt, xhc_sync_interrupt_transfer, xhc_int_transfer_sync,
}

-- EFI_ALREADY_STARTED says that the request is finished and has no error.
already_started-finished :
    {W : Type 0} (env : Env W)
    → TimerStatuses env.bus
    → (ep : Endpoint) (urb : ℕ) (r : TransferRing) (seg0 : ℕ) (c : Commander) (w : W)
      (status : Status) (c' : Commander) (w' : W)
    → xhc_dequeue_trb_from_endpoint env ep urb r seg0 c w ≡ some (status, c', w')
    → is_already_started status ≡ true
    → has_succeeded env c' urb ≡ true
unfolding xhc_dequeue_trb_from_endpoint
already_started-finished env timer ep urb r seg0 c w status c' w' e started =
    let slot_id = xhc_bus_dev_addr_to_slot_id env.contexts ep.bus_addr in
    let dci = xhc_endpoint_to_dci ep.ep_addr ep.direction in
    elim (Bool-cases (slot_id == 0)) [
      | inl nothing ↦ absurd (ground (arith, e, nothing, started))
      | inr slot ↦ elim (Option-cases (xhc_stop_endpoint env slot_id dci urb c w)) [
        | inl nowhere ↦ absurd (ground (arith, e, slot, nowhere))
        | inr ((status₁, c₁, w₁), stop) ↦
            let fine = xhc_stop_endpoint-status env timer slot_id dci urb c w status₁ c₁ w₁ stop in
            elim (Bool-cases (is_error status₁)) [
              | inl wrong ↦
                  let same : status₁ ≡ status = ground (arith, e, slot, stop, wrong) in
                  absurd (ground (arith, fine, started, ap is_already_started same))
              | inr stops ↦ elim (Bool-cases (has_succeeded env c₁ urb)) [
                | inl done ↦
                    let same : c₁ ≡ c' = ground (arith, e, slot, stop, stops, done) in
                    rw (sym same) done
                | inr going ↦
                    let (w₂, set, rung) =
                      then_ring-cases env slot_id dci
                        (xhc_set_tr_dequeue_pointer env slot_id dci r seg0 c₁ w₁) status c' w'
                        (ground (arith, e, slot, stop, stops, going)) in
                    let other =
                      xhc_set_tr_dequeue_pointer-status env timer slot_id dci r seg0 c₁ w₁ status c'
                        w₂ set in
                    absurd (ground (arith, other, started))
              ]
            ]
      ]
    ]

-- EFI_SUCCESS of XhcExecTransfer says that the request has no error.
Ended-success :
    (so_far : Status) (urb : ℕ) (status : Status) (s : Polling)
    → Ended so_far urb status s
    → status ≡ success
    → (s.urbs urb).result ≡ usb_noerror
Ended-success so_far urb status s (well e fine f r) good = r
Ended-success so_far urb status s (in_error e f r) good = absurd (ground (arith, e, good))
Ended-success so_far urb status s (out_of_time e f r) good = absurd (ground (arith, e, good))
Ended-success so_far urb status s (not_executed e r) good = absurd (ground (arith, e, good))

module _ {W : Type 0} (env : Env W) (timer : TimerStatuses env.bus) (pci : Pci W) where
  exec_success :
      (count timeout : ℕ) (created : Created) (s : Polling) (w : W) (status : Status) (s' : Polling)
      (w' : W)
      → xhc_exec_transfer env.bus env.xhc env.pool
          (env_of env pci created).mem
          env.events_in
          env.fuel
          count
          env.contexts
          false
          created.endpoint
          created.urb
          timeout
          s
          w
        ≡ some (status, s', w')
      → status ≡ success
      → (s'.urbs created.urb).result ≡ usb_noerror
  exec_success count timeout created s w status s' w' e good =
      elim (xhc_exec_transfer-Ended env.bus env.xhc env.pool (env_of env pci created).mem
        env.events_in env.fuel count env.contexts false created.endpoint created.urb timeout s w
        status s' w' e) [
          | inl no_slot ↦ absurd (ground (arith, no_slot.2, good))
          | inr ended ↦ Ended-success _ created.urb status s' ended good
        ]

  abort_slow-success :
      (created : Created) (status : Status) (c : Commander) (w : W) (status' : Status)
      (c' : Commander) (w' : W)
      → (status ≡ success → (c.polling.urbs created.urb).result ≡ usb_noerror)
      → abort_slow env pci created status c w ≡ some (status', c', w')
      → status' ≡ success
      → (c'.polling.urbs created.urb).result ≡ usb_noerror
  unfolding abort_slow
  abort_slow-success created status c w status' c' w' before e good =
      elim (Bool-cases (is_timed_out status)) [
        | inr fast ↦
            let same : (status ≡ status') × (c ≡ c') =
              (ground (arith, e, fast), ground (arith, e, fast)) in
            rw (sym same.1) (before (same.0 ∙ good))
        | inl slow ↦
            let here = env_of env pci created in
            elim (Option-cases (
              xhc_dequeue_trb_from_endpoint here created.endpoint created.urb created.ring
                created.seg0 c w)) [
                  | inl nowhere ↦ absurd (ground (arith, e, slow, nowhere))
                  | inr ((recovery, c₁, w₁), tried) ↦
                      elim (Bool-cases (is_already_started recovery)) [
                        | inl started ↦
                            let done =
                              already_started-finished here timer created.endpoint created.urb
                                created.ring created.seg0 c w recovery c₁ w₁ tried started in
                            let same : c₁ ≡ c' = ground (arith, e, slow, tried) in
                            rw (sym same) (ground (arith, done))
                        | inr lost ↦
                            let same : status ≡ status' = ground (arith, e, slow, tried, lost) in
                            absurd (ground (arith, slow, same, good))
                      ]
                ]
      ]

  run_urb-success :
      (count timeout : ℕ) (created : Created) (h : Host) (w : W) (answer : Answer) (h' : Host)
      (w' : W)
      → run_urb env pci count timeout created h w ≡ some (answer, h', w')
      → answer.status ≡ success
      → answer.transfer_result ≡ usb_noerror
  unfolding run_urb
  run_urb-success count timeout created h w answer h' w' e good = elim (Option-cases executed) [
    | inl nowhere ↦ absurd (ground (arith, e, nowhere))
    | inr ((status, s, w₁), ends) ↦
        let c : Commander = record h.commander { polling = s } in
        elim (Option-cases (abort_slow env pci created status c w₁)) [
          | inl nowhere ↦ absurd (ground (arith, e, ends, nowhere))
          | inr ((status', c', w₂), aborted) ↦
              let result = (c'.polling.urbs created.urb).result in
              let fine =
                abort_slow-success created status c w₁ status' c' w₂
                  (exec_success count timeout created h.commander.polling w status s w₁ ends)
                  aborted in
              elim (Option-cases (recover_halted env pci created result c' w₂)) [
                | inl nowhere ↦ absurd (ground (arith, e, ends, aborted, nowhere))
                | inr (recovered, tried) ↦
                    let same : (answer.status ≡ status') × (answer.transfer_result ≡ result) = (
                      ground (arith, e, ends, aborted, tried),
                      ground (arith, e, ends, aborted, tried),
                    ) in
                    same.1 ∙ fine (sym same.0 ∙ good)
              ]
        ]
  ]
    where
      executed : Option (Status × Polling × W)
      executed =
          xhc_exec_transfer env.bus env.xhc env.pool (env_of env pci created).mem env.events_in
            env.fuel count env.contexts false created.endpoint created.urb timeout
            h.commander.polling w

  start_transfer-success :
      (count : ℕ) (a : Asked) (h : Host) (w : W) (answer : Answer) (h' : Host) (w' : W)
      → start_transfer env pci count a h w ≡ some (answer, h', w')
      → answer.status ≡ success
      → answer.transfer_result ≡ usb_noerror
  unfolding start_transfer xhc_transfer
  start_transfer-success count a h w answer h' w' e good =
      let w₁ = (is_stopped env.pool env.mem env.bus env.xhc env.events_in w).1 in
      elim (Option-cases (xhc_create_urb env pci a h w₁)) [
        | inl nowhere ↦ absurd (ground (arith, e, nowhere, good))
        | inr ((none, h₁, w₂), made) ↦ absurd (ground (arith, e, made, good))
        | inr ((some created, h₁, w₂), made) ↦
            elim (Option-cases (run_urb env pci count a.timeout created h₁ w₂)) [
              | inl nowhere ↦ absurd (ground (arith, e, made, nowhere, good))
              | inr ((answer₁, h₂, w₃), ran) ↦
                  let fine = run_urb-success count a.timeout created h₁ w₂ answer₁ h₂ w₃ ran in
                  ground (arith, e, made, ran, good, fine)
            ]
      ]

-- Where XhcBulkTransfer or XhcSyncInterruptTransfer returns EFI_SUCCESS, TransferResult is
-- EFI_USB_NOERROR, a transfer that finished only while it was aborted included; CreateEvent and SetTimer
-- do not return EFI_ALREADY_STARTED.
pub xhc_bulk_transfer-success :
    {W : Type 0} (env : Env W) (pci : Pci W) (count device_speed packet toggle result : ℕ)
    (a : Asked) (h : Host) (w : W) (answer : Answer) (h' : Host) (w' : W)
    → TimerStatuses env.bus
    → (xhc_bulk_transfer_to env pci count device_speed packet toggle result a h w
        ≡ some (answer, h', w'))
      ⊎ (xhc_sync_interrupt_transfer env pci count device_speed packet toggle result a h w
          ≡ some (answer, h', w'))
    → answer.status ≡ success
    → answer.transfer_result ≡ usb_noerror
unfolding xhc_bulk_transfer_to xhc_sync_interrupt_transfer
xhc_bulk_transfer-success env pci count device_speed packet toggle result a h w answer h' w' timer
      (inl e) good =
    elim (Bool-cases (is_valid_bulk env pci device_speed packet toggle a)) [
      | inr invalid ↦ absurd (ground (arith, e, invalid, good))
      | inl valid ↦
          start_transfer-success env timer pci count (record a { type = xhc_bulk_transfer }) h w
            answer h' w' (ground (arith, e, valid)) good
    ]
xhc_bulk_transfer-success env pci count device_speed packet toggle result a h w answer h' w' timer
      (inr e) good =
    elim (Bool-cases (is_valid_interrupt env pci device_speed packet toggle a)) [
      | inr invalid ↦ absurd (ground (arith, e, invalid, good))
      | inl valid ↦
          start_transfer-success env timer pci count (record a { type = xhc_int_transfer_sync }) h w
            answer h' w' (ground (arith, e, valid)) good
    ]
