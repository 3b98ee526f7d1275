-- ===== src/Xhci/Exec/Ends.antt =====
-- How XhcExecTransfer ends, and that it does.
use edk2_adlink_ampere_altra.Base.{
  ℕ, zero, suc, ◌+◌, ◌%◌, ◌^◌, ◌≡◌, ◌≢◌, refl, sym, ap, ◌∙◌, Bool, true, false, ◌&&◌, Option, some,
  List, ◌==◌, ltb, if◌then◌else◌, Status, success, device_error, timed_out, is_error, arith, ◌⊎◌,
  inl, inr, Bool-cases, Option-cases,
}
use edk2_adlink_ampere_altra.Xhci.Trb.{Trb}
use edk2_adlink_ampere_altra.Xhci.Regs.{Bus, Xhc}
use edk2_adlink_ampere_altra.Xhci.Devices.{
  DevContext, xhc_endpoint_to_dci, xhc_bus_dev_addr_to_slot_id,
}
use edk2_adlink_ampere_altra.Xhci.Pool.{MemPool}
use edk2_adlink_ampere_altra.Xhci.Urbs.{
  Polling, usb_err_notexecute, usb_err_timeout, xhc_check_urb_result,
}
use edk2_adlink_ampere_altra.Xhci.Urbs.Kept.{xhc_check_urb_result-Carries}
use edk2_adlink_ampere_altra.Xhci.Exec.{
  Endpoint, max_number_of_nak, is_limited, with_result, conclude, xhc_ring_door_bell, poll_steps,
  ring_and_poll, exec_on, xhc_exec_transfer,
}

-- The status with which the polling begins: that of SetTimer, or EFI_SUCCESS where there is no timer.
abbrev pub status_so_far : {W : Type 0} → Bus W → ℕ → W → Status
status_so_far bus timeout w =
    if timeout == 0 then success else (bus.set_timer timeout (bus.create_event w).1).0

-- How the request stands when XhcExecTransfer has polled it, or has not, for the status before.
pub data Ended (so_far : Status) (urb : ℕ) (status : Status) (s : Polling) : Type 0 where
  well :
      status ≡ so_far
      → is_error so_far ≡ false
      → (s.urbs urb).finished ≡ true
      → (s.urbs urb).result ≡ 0
      → Ended so_far urb status s
  in_error :
      status ≡ device_error
      → (s.urbs urb).finished ≡ true
      → (s.urbs urb).result ≢ 0
      → Ended so_far urb status s
  out_of_time :
      status ≡ timed_out
      → (s.urbs urb).finished ≡ false
      → (s.urbs urb).result ≡ usb_err_timeout
      → Ended so_far urb status s
  not_executed :
      is_error status ≡ true → (s.urbs urb).result ≡ usb_err_notexecute → Ended so_far urb status s

pub with_result-here :
    (s : Polling) (urb result : ℕ)
    → ((with_result s urb result).urbs urb) ≡ record (s.urbs urb) { result = result }
with_result-here s urb result = ground arith

conclude-Ended :
    (so_far : Status) (urb : ℕ) (finished : Bool) (s : Polling)
    → is_error so_far ≡ false
    → finished ≡ (s.urbs urb).finished
    → Ended so_far urb (conclude so_far urb finished s).0 (conclude so_far urb finished s).1
unfolding conclude
conclude-Ended so_far urb false s fine same =
    let here = with_result-here s urb usb_err_timeout in
    out_of_time refl (ap (λ u. u.finished) here ∙ sym same) (ap (λ u. u.result) here)
conclude-Ended so_far urb true s fine same = elim (Bool-cases ((s.urbs urb).result == 0)) [
  | inl no_error ↦ well (ground (arith, no_error)) fine (sym same) (ground (arith, no_error))
  | inr wrong ↦ in_error (ground (arith, wrong)) (sym same) (ground (arith, wrong))
]

module _ {W : Type 0} (bus : Bus W) (xhc : Xhc) where
  -- The loop says of the request what the request says.
  poll_steps-finished :
      (check : Polling → W → Option (Bool × Polling × W)) (urb : ℕ)
      → ((s : Polling) (w : W) (f : Bool) (s' : Polling) (w' : W)
          → check s w ≡ some (f, s', w')
          → f ≡ (s'.urbs urb).finished)
      → (ep : Endpoint) (indefinite : Bool) (fuel count : ℕ) (s : Polling) (w : W) (f : Bool)
        (s' : Polling) (w' : W)
      → poll_steps bus xhc check ep indefinite fuel count s w ≡ some (f, s', w')
      → f ≡ (s'.urbs urb).finished
  unfolding poll_steps
  poll_steps-finished check urb says ep indefinite zero count s w f s' w' e =
      absurd (ground (arith, e))
  poll_steps-finished check urb says ep indefinite (suc fuel) count s w f s' w' e =
      elim (Option-cases (check s w)) [
        | inl nowhere ↦ absurd (ground (arith, e, nowhere))
        | inr ((true, s₁, w₁), checked) ↦
            let same = says s w true s₁ w₁ checked in ground (arith, e, checked, same)
        | inr ((false, s₁, w₁), checked) ↦
            let same = says s w false s₁ w₁ checked in
            let count' = (count + 1) % 2 ^ 64 in
            elim (Bool-cases (ltb max_number_of_nak count' && is_limited ep)) [
              | inl enough ↦ ground (arith, e, checked, same, enough)
              | inr few ↦ elim (Bool-cases indefinite) [
                | inl forever ↦
                    poll_steps-finished check urb says ep indefinite fuel count' s₁ (bus.stall 1 w₁)
                      f s' w' (ground (arith, e, checked, few, forever))
                | inr timed ↦ elim (Bool-cases (is_error (bus.check_event (bus.stall 1 w₁)).0)) [
                  | inl still ↦
                      poll_steps-finished check urb says ep indefinite fuel count' s₁
                        (bus.check_event (bus.stall 1 w₁)).1 f s' w'
                        (ground (arith, e, checked, few, timed, still))
                  | inr over ↦ ground (arith, e, checked, same, few, timed, over)
                ]
              ]
            ]
      ]

  module _ (pool : MemPool) (mem : ℕ → Trb) (events_in : W → List Trb) where
    ring_and_poll-Ended :
        (so_far : Status)
        → is_error so_far ≡ false
        → (fuel slot_id dci : ℕ) (ep : Endpoint) (urb : ℕ) (indefinite : Bool) (count : ℕ)
          (s : Polling) (w : W) (status : Status) (s' : Polling) (w' : W)
        → ring_and_poll bus xhc pool mem events_in so_far fuel slot_id dci ep urb indefinite count s
            w
          ≡ some (status, s', w')
        → Ended so_far urb status s'
    unfolding ring_and_poll
    ring_and_poll-Ended so_far good fuel slot_id dci ep urb indefinite count s w status s' w' e =
        elim (Option-cases polled) [
          | inl nowhere ↦ absurd (ground (arith, e, nowhere))
          | inr ((f, s₁, w₁), ends) ↦
              let same =
                poll_steps-finished check urb says ep indefinite fuel count s rung f s₁ w₁ ends in
              let out : (status ≡ (conclude so_far urb f s₁).0)
                  × (s' ≡ (conclude so_far urb f s₁).1) =
                (ground (arith, e, ends), ground (arith, e, ends)) in
              rw (out.0, out.1) (conclude-Ended so_far urb f s₁ good same)
        ]
      where
        check : Polling → W → Option (Bool × Polling × W)
        check = xhc_check_urb_result pool mem bus xhc events_in urb

        rung : W
        rung = xhc_ring_door_bell bus xhc slot_id dci w

        polled : Option (Bool × Polling × W)
        polled = poll_steps bus xhc check ep indefinite fuel count s rung

        says :
            (s : Polling) (w : W) (f : Bool) (s' : Polling) (w' : W)
            → check s w ≡ some (f, s', w')
            → f ≡ (s'.urbs urb).finished
        says s w f s' w' e =
            (xhc_check_urb_result-Carries pool mem bus xhc events_in urb s w f s' w' e).1

    exec_on-Ended :
        (fuel count slot_id dci : ℕ) (ep : Endpoint) (urb timeout : ℕ) (s : Polling) (w : W)
        (status : Status) (s' : Polling) (w' : W)
        → exec_on bus xhc pool mem events_in fuel count slot_id dci ep urb timeout s w
          ≡ some (status, s', w')
        → Ended (status_so_far bus timeout w) urb status s'
    unfolding exec_on
    exec_on-Ended fuel count slot_id dci ep urb timeout s w status s' w' e =
        elim (Bool-cases (timeout == 0)) [
          | inl forever ↦ rw forever (
              ring_and_poll-Ended success refl fuel slot_id dci ep urb true count s w status s' w'
                (ground (arith, e, forever)))
          | inr timed ↦ elim (Bool-cases (is_error (bus.create_event w).0)) [
            | inl no_event ↦
                let same : marked ≡ s' = ground (arith, e, timed, no_event) in
                not_executed (ground (arith, e, timed, no_event))
                  (rw (sym same) (ap (λ u. u.result) here))
            | inr event ↦
                elim (Bool-cases (is_error (bus.set_timer timeout (bus.create_event w).1).0)) [
                  | inl no_timer ↦
                      let same : marked ≡ s' = ground (arith, e, timed, event, no_timer) in
                      not_executed (ground (arith, e, timed, event, no_timer))
                        (rw (sym same) (ap (λ u. u.result) here))
                  | inr timer ↦ elim (Option-cases polled) [
                    | inl nowhere ↦ absurd (ground (arith, e, timed, event, timer, nowhere))
                    | inr ((status₁, s₁, w₁), ends) ↦
                        let same : (status ≡ status₁) × (s' ≡ s₁) = (
                          ground (arith, e, timed, event, timer, ends),
                          ground (arith, e, timed, event, timer, ends),
                        ) in
                        rw (timed, same.0, same.1)
                          (ring_and_poll-Ended (bus.set_timer timeout (bus.create_event w).1).0
                            timer fuel slot_id dci ep urb false 0 s armed status₁ s₁ w₁ ends)
                  ]
                ]
          ]
        ]
      where
        armed : W
        armed = (bus.set_timer timeout (bus.create_event w).1).1

        marked : Polling
        marked = with_result s urb usb_err_notexecute

        here : marked.urbs urb ≡ record (s.urbs urb) { result = usb_err_notexecute }
        here = with_result-here s urb usb_err_notexecute

        polled : Option (Status × Polling × W)
        polled =
            ring_and_poll bus xhc pool mem events_in
              (bus.set_timer timeout (bus.create_event w).1).0 fuel slot_id dci ep urb false 0 s
              armed

-- Where XhcExecTransfer returns, its status says how the request stands: the status of SetTimer,
-- which is then no error, or EFI_SUCCESS where there is no timeout, that it is finished and has no
-- error; EFI_DEVICE_ERROR that it is finished with an error, or that its device
-- has no slot and nothing was done; EFI_TIMEOUT that it is not finished, its result being
-- EFI_USB_ERR_TIMEOUT; and the error of a timer call that its result is EFI_USB_ERR_NOTEXECUTE.
pub xhc_exec_transfer-Ended :
    {W : Type 0} (bus : Bus W) (xhc : Xhc) (pool : MemPool) (mem : ℕ → Trb)
    (events_in : W → List Trb) (fuel count : ℕ) (contexts : ℕ → DevContext) (cmd_transfer : Bool)
    (ep : Endpoint) (urb timeout : ℕ) (s : Polling) (w : W) (status : Status) (s' : Polling)
    (w' : W)
    → xhc_exec_transfer bus xhc pool mem events_in fuel count contexts cmd_transfer ep urb timeout s
        w
      ≡ some (status, s', w')
    → ((cmd_transfer ≡ false)
        × (xhc_bus_dev_addr_to_slot_id contexts ep.bus_addr ≡ 0)
        × (status ≡ device_error)
        × (s' ≡ s)
        × (w' ≡ w))
      ⊎ Ended (status_so_far bus timeout w) urb status s'
unfolding xhc_exec_transfer
xhc_exec_transfer-Ended bus xhc pool mem events_in fuel count contexts true ep urb timeout s w
      status s' w' e =
    inr (exec_on-Ended bus xhc pool mem events_in fuel count 0 0 ep urb timeout s w status s' w' e)
xhc_exec_transfer-Ended bus xhc pool mem events_in fuel count contexts false ep urb timeout s w
      status s' w' e =
    let slot_id = xhc_bus_dev_addr_to_slot_id contexts ep.bus_addr in
    elim (Bool-cases (slot_id == 0)) [
      | inl no_slot ↦ inl (
        refl,
        ground (arith, no_slot),
        ground (arith, e, no_slot),
        ground (arith, e, no_slot),
        ground (arith, e, no_slot),
      )
      | inr slot ↦ inr (
          exec_on-Ended bus xhc pool mem events_in fuel count slot_id
            (xhc_endpoint_to_dci ep.ep_addr ep.direction) ep urb timeout s w status s' w'
            (ground (arith, e, slot)))
    ]
