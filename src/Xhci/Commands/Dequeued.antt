-- ===== src/Xhci/Commands/Dequeued.antt =====
-- How XhcDequeueTrbFromEndpoint ends, and what XhcStopEndpoint leaves.
use edk2_adlink_ampere_altra.Base.{
  ℕ, ◌+◌, ◌*◌, ◌≡◌, ◌≢◌, sym, ap, ◌∙◌, true, false, ◌&&◌, Option, none, some, ◌==◌, if◌then◌else◌,
  Status, device_error, is_error, arith, inl, inr, Bool-cases, Option-cases,
}
use edk2_adlink_ampere_altra.Xhci.Ring.{TransferRing}
use edk2_adlink_ampere_altra.Xhci.Devices.{xhc_endpoint_to_dci, xhc_bus_dev_addr_to_slot_id}
use edk2_adlink_ampere_altra.Xhci.MemPool.{usb_hc_get_pci_addr_for_host_addr}
use edk2_adlink_ampere_altra.Xhci.Ports.{generic_timeout}
use edk2_adlink_ampere_altra.Xhci.Transfer.{usb_noerror}
use edk2_adlink_ampere_altra.Xhci.Urbs.{trb_size, is_stopped}
use edk2_adlink_ampere_altra.Xhci.Exec.{Endpoint, xhc_ring_door_bell}
use edk2_adlink_ampere_altra.Xhci.Exec.Ends.{with_result-here}
use edk2_adlink_ampere_altra.Xhci.Commands.{
  already_started, is_already_started, Commander, Env, stop_endpoint_trb, set_tr_dequeue_trb,
  xhc_cmd_transfer, with_pending, without_pending, xhc_stop_endpoint, xhc_set_tr_dequeue_pointer,
  then_ring, has_succeeded, xhc_dequeue_trb_from_endpoint,
}
use edk2_adlink_ampere_altra.Xhci.Commands.Pending.{xhc_cmd_transfer-pending}
use edk2_adlink_ampere_altra.Xhci.Commands.Statuses.{
  TimerStatuses, xhc_stop_endpoint-status, xhc_set_tr_dequeue_pointer-status,
}

module _ {W : Type 0} (env : Env W) where
  -- How XhcDequeueTrbFromEndpoint ends, for the device context index of the endpoint and the
  -- slot of its device: there is no slot, and nothing was done; XhcStopEndpoint has failed, and
  -- all is as it left it; XhcStopEndpoint has not, and the request is then finished without an
  -- error; or it is not, and XhcSetTrDequeuePointer was called next and gave the status. The
  -- door bell is rung in the last two but where XhcSetTrDequeuePointer has failed.
  pub data Dequeues (slot_id dci urb : ℕ) (r : TransferRing) (seg0 : ℕ) (c : Commander) (w : W)
      (status : Status) (c' : Commander) (w' : W) : Type 0 where
    no_slot :
        slot_id ≡ 0
        → status ≡ device_error
        → c' ≡ c
        → w' ≡ w
        → Dequeues slot_id dci urb r seg0 c w status c' w'
    not_stopped :
        slot_id ≢ 0
        → xhc_stop_endpoint env slot_id dci urb c w ≡ some (status, c', w')
        → is_error status ≡ true
        → is_already_started status ≡ false
        → Dequeues slot_id dci urb r seg0 c w status c' w'
    was_finished :
        (status₁ : Status) (w₁ : W)
        → slot_id ≢ 0
        → xhc_stop_endpoint env slot_id dci urb c w ≡ some (status₁, c', w₁)
        → is_error status₁ ≡ false
        → (c'.polling.urbs urb).finished ≡ true
        → (c'.polling.urbs urb).result ≡ usb_noerror
        → status ≡ already_started
        → w' ≡ xhc_ring_door_bell env.bus env.xhc slot_id dci w₁
        → Dequeues slot_id dci urb r seg0 c w status c' w'
    dequeued :
        (status₁ : Status) (c₁ : Commander) (w₁ w₂ : W)
        → slot_id ≢ 0
        → xhc_stop_endpoint env slot_id dci urb c w ≡ some (status₁, c₁, w₁)
        → is_error status₁ ≡ false
        → ((c₁.polling.urbs urb).finished && (c₁.polling.urbs urb).result == usb_noerror) ≡ false
        → xhc_set_tr_dequeue_pointer env slot_id dci r seg0 c₁ w₁ ≡ some (status, c', w₂)
        → is_already_started status ≡ false
        → w' ≡ (if is_error status then w₂ else xhc_ring_door_bell env.bus env.xhc slot_id dci w₂)
        → Dequeues slot_id dci urb r seg0 c w status c' w'

  pub then_ring-cases :
      (slot_id dci : ℕ) (o : Option (Status × Commander × W)) (status : Status) (c' : Commander)
      (w' : W)
      → then_ring env slot_id dci o ≡ some (status, c', w')
      → (w : W) × (o ≡ some (status, c', w))
        × (w' ≡ (if is_error status then w else xhc_ring_door_bell env.bus env.xhc slot_id dci w))
  unfolding then_ring
  then_ring-cases slot_id dci none status c' w' e = absurd (ground (arith, e))
  then_ring-cases slot_id dci (some (status₁, c₁, w₁)) status c' w' e =
      (w₁, ground (arith, e), ground (arith, e))

  xhc_stop_endpoint-pending :
      (slot_id dci urb : ℕ) (c : Commander) (w : W) (status : Status) (c' : Commander) (w' : W)
      → xhc_stop_endpoint env slot_id dci urb c w ≡ some (status, c', w')
      → c'.polling.pending_urb ≡ none
  unfolding xhc_stop_endpoint
  xhc_stop_endpoint-pending slot_id dci urb c w status c' w' e =
      elim (Option-cases (
        xhc_cmd_transfer env (stop_endpoint_trb slot_id dci) generic_timeout
          (with_pending env c urb) w)) [
            | inl nowhere ↦ absurd (ground (arith, e, nowhere))
            | inr ((status₁, c₁, w₁), sent) ↦
                let same : without_pending env c₁ ≡ c' = ground (arith, e, sent) in
                ap (λ k. k.polling.pending_urb) (sym same)
          ]

  xhc_set_tr_dequeue_pointer-pending :
      (slot_id dci : ℕ) (r : TransferRing) (seg0 : ℕ) (c : Commander) (w : W) (status : Status)
      (c' : Commander) (w' : W)
      → xhc_set_tr_dequeue_pointer env slot_id dci r seg0 c w ≡ some (status, c', w')
      → c'.polling.pending_urb ≡ c.polling.pending_urb
  unfolding xhc_set_tr_dequeue_pointer
  xhc_set_tr_dequeue_pointer-pending slot_id dci r seg0 c w status c' w' e =
      elim (Option-cases
        (usb_hc_get_pci_addr_for_host_addr env.pool (seg0 + r.ring_enqueue * trb_size) trb_size)) [
          | inl nowhere ↦ absurd (ground (arith, e, nowhere))
          | inr (phy_addr, there) ↦
              xhc_cmd_transfer-pending env (set_tr_dequeue_trb phy_addr r.ring_pcs slot_id dci)
                generic_timeout c w status c' w' (ground (arith, e, there))
        ]

stop_failed :
    {W : Type 0} (env : Env W) (slot_id dci urb : ℕ) (r : TransferRing) (seg0 : ℕ) (c : Commander)
    (w : W) (status status₁ : Status) (c' c₁ : Commander) (w' w₁ : W)
    → slot_id ≢ 0
    → xhc_stop_endpoint env slot_id dci urb c w ≡ some (status₁, c₁, w₁)
    → is_error status₁ ≡ true
    → is_already_started status₁ ≡ false
    → ◌≡◌ {A = Option (Status × Commander × W)} (some (status₁, c₁, w₁)) (some (status, c', w'))
    → Dequeues env slot_id dci urb r seg0 c w status c' w'
stop_failed env slot_id dci urb r seg0 c w status status₁ c' c₁ w' w₁ slot stop wrong other e =
    let same : status₁ ≡ status = ground (arith, e) in
    not_stopped slot (stop ∙ e) (rw (sym same) wrong) (rw (sym same) other)

-- Where XhcDequeueTrbFromEndpoint returns, it has ended in one of four ways: the device has no
-- slot, the status is EFI_DEVICE_ERROR and nothing has changed; or XhcStopEndpoint has failed,
-- with this status; or XhcStopEndpoint has succeeded and the request was finished without an
-- error by then, the status is EFI_ALREADY_STARTED and the door bell is rung; or the request was
-- not, the status is that of XhcSetTrDequeuePointer, called next, and the door bell is rung where
-- that is no error. The status is EFI_ALREADY_STARTED in the third alone, where CreateEvent and
-- SetTimer do not answer with it. No request is pending where none was before.
pub xhc_dequeue_trb_from_endpoint-Dequeues :
    {W : Type 0} (env : Env W)
    → TimerStatuses env.bus
    → (ep : Endpoint) (urb : ℕ) (r : TransferRing) (seg0 : ℕ) (c : Commander) (w : W)
      (status : Status) (c' : Commander) (w' : W)
    → xhc_dequeue_trb_from_endpoint env ep urb r seg0 c w ≡ some (status, c', w')
    → c.polling.pending_urb ≡ none
    → Dequeues env
        (xhc_bus_dev_addr_to_slot_id env.contexts ep.bus_addr)
        (xhc_endpoint_to_dci ep.ep_addr ep.direction)
        urb
        r
        seg0
        c
        w
        status
        c'
        w'
      × (c'.polling.pending_urb ≡ none)
unfolding xhc_dequeue_trb_from_endpoint
xhc_dequeue_trb_from_endpoint-Dequeues env timer ep urb r seg0 c w status c' w' e nobody =
    let slot_id = xhc_bus_dev_addr_to_slot_id env.contexts ep.bus_addr in
    let dci = xhc_endpoint_to_dci ep.ep_addr ep.direction in
    elim (Bool-cases (slot_id == 0)) [
      | inl nothing ↦ (
        no_slot (ground (arith, nothing)) (ground (arith, e, nothing)) (ground (arith, e, nothing))
            (ground (arith, e, nothing)),
        ground (arith, e, nothing, nobody),
      )
      | inr slot ↦ elim (Option-cases (xhc_stop_endpoint env slot_id dci urb c w)) [
        | inl nowhere ↦ absurd (ground (arith, e, slot, nowhere))
        | inr ((status₁, c₁, w₁), stop) ↦
            let nobody₁ = xhc_stop_endpoint-pending env slot_id dci urb c w status₁ c₁ w₁ stop in
            let other = xhc_stop_endpoint-status env timer slot_id dci urb c w status₁ c₁ w₁ stop in
            elim (Bool-cases (is_error status₁)) [
              | inl wrong ↦ (
                stop_failed env slot_id dci urb r seg0 c w status status₁ c' c₁ w' w₁
                    (ground (arith, slot)) stop wrong other (ground (arith, e, slot, stop, wrong)),
                ground (arith, e, slot, stop, wrong, nobody₁),
              )
              | inr fine ↦ elim (Bool-cases (has_succeeded env c₁ urb)) [
                | inl done ↦
                    let same : c₁ ≡ c' = ground (arith, e, slot, stop, fine, done) in
                    (
                      rw (sym same) (
                          was_finished status₁ w₁ (ground (arith, slot)) stop fine
                            (ground (arith, done)) (ground (arith, done))
                            (ground (arith, e, slot, stop, fine, done))
                            (ground (arith, e, slot, stop, fine, done))),
                      rw (sym same) nobody₁,
                    )
                | inr going ↦
                    let (w₂, set, rung) =
                      then_ring-cases env slot_id dci
                        (xhc_set_tr_dequeue_pointer env slot_id dci r seg0 c₁ w₁) status c' w'
                        (ground (arith, e, slot, stop, fine, going)) in
                    (
                      dequeued status₁ c₁ w₁ w₂ (ground (arith, slot)) stop fine going set
                          (xhc_set_tr_dequeue_pointer-status env timer slot_id dci r seg0 c₁ w₁
                            status c' w₂ set)
                          rung,
                      xhc_set_tr_dequeue_pointer-pending env slot_id dci r seg0 c₁ w₁ status c' w₂
                            set
                          ∙ nobody₁,
                    )
              ]
            ]
      ]
    ]

-- Where the controller has stopped or has a system error, XhcDequeueTrbFromEndpoint for a device
-- with a slot fails with EFI_DEVICE_ERROR, and the result of the request, which was
-- EFI_USB_ERR_TIMEOUT or any other before, is EFI_USB_NOERROR.
pub xhc_dequeue_trb_from_endpoint-stopped :
    {W : Type 0} (env : Env W) (ep : Endpoint) (urb : ℕ) (r : TransferRing) (seg0 : ℕ)
    (c : Commander) (w : W)
    → (xhc_bus_dev_addr_to_slot_id env.contexts ep.bus_addr == 0) ≡ false
    → (is_stopped env.pool env.mem env.bus env.xhc env.events_in w).0 ≡ true
    → (c' : Commander) × (w' : W) × (xhc_dequeue_trb_from_endpoint env ep urb r seg0 c w
        ≡ some (device_error, c', w'))
      × ((c'.polling.urbs urb).result ≡ usb_noerror)
unfolding xhc_dequeue_trb_from_endpoint xhc_stop_endpoint xhc_cmd_transfer
xhc_dequeue_trb_from_endpoint-stopped env ep urb r seg0 c w slot stop = (
  without_pending env (with_pending env c urb),
  (is_stopped env.pool env.mem env.bus env.xhc env.events_in w).1,
  ground (arith, slot, stop),
  ap (λ u. u.result) (with_result-here c.polling urb usb_noerror),
)
