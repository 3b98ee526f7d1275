-- ===== src/Xhci/Exec/Returns.antt =====
-- XhcExecTransfer returns, where the time of its timer runs out.
use edk2_adlink_ampere_altra.Base.{
  ℕ, zero, suc, ◌+◌, ◌*◌, ◌/◌, ◌%◌, ◌^◌, ◌<◌, ◌≤◌, ◌≡◌, ◌≢◌, sym, Bool, true, false, ◌&&◌, Option,
  some, List, ltb, Status, is_error, arith, inl, inr, Bool-cases, Option-cases, bit_or, u32,
}
use edk2_adlink_ampere_altra.Xhci.Trb.{Trb}
use edk2_adlink_ampere_altra.Xhci.Regs.{
  Bus, Xhc, read_at, xhc_read_op_reg, xhc_reg_bit_is_set, xhc_is_halt, xhc_is_sys_error,
  xhc_read_runtime_reg, xhc_write_runtime_reg, xhc_write_door_bell_reg,
}
use edk2_adlink_ampere_altra.Xhci.Devices.{
  DevContext, xhc_endpoint_to_dci, xhc_bus_dev_addr_to_slot_id,
}
use edk2_adlink_ampere_altra.Xhci.Pool.{MemPool}
use edk2_adlink_ampere_altra.Xhci.MemPool.{usb_hc_get_pci_addr_for_host_addr}
use edk2_adlink_ampere_altra.Xhci.Urbs.{
  Polling, trb_size, erdp_offset, is_stopped, update_urbs, advance_event_ring, xhc_check_urb_result,
}
use edk2_adlink_ampere_altra.Xhci.Exec.{
  Endpoint, max_number_of_nak, is_limited, xhc_ring_door_bell, conclude, poll_steps, ring_and_poll,
  exec_on, xhc_exec_transfer,
}

-- What is documented of the timer: its time does not grow while the driver uses the controller or
-- waits, and there is less of it after each CheckEvent that says it is not over.
pub record Ticks {W : Type 0} (bus : Bus W) (left : W → ℕ) : Type 0 where
  pub reads : (place : ℕ) (w : W) → left (bus.mem_read place w).2 ≤ left w
  pub writes : (place word : ℕ) (w : W) → left (bus.mem_write place word w).1 ≤ left w
  pub stalls : (microseconds : ℕ) (w : W) → left (bus.stall microseconds w) ≤ left w
  pub checks : (w : W) → is_error (bus.check_event w).0 ≡ true → left (bus.check_event w).1 < left w

module _ {W : Type 0} (bus : Bus W) (xhc : Xhc) (left : W → ℕ) (ticks : Ticks bus left) where
  read_at-left : (place : ℕ) (w : W) → left (read_at bus place w).1 ≤ left w
  unfolding read_at
  read_at-left place w = ticks.reads place w

  xhc_read_runtime_reg-left :
      (offset : ℕ) (w : W) → left (xhc_read_runtime_reg bus xhc offset w).1 ≤ left w
  unfolding xhc_read_runtime_reg
  xhc_read_runtime_reg-left offset w = read_at-left (u32 (xhc.rts_off + offset)) w

  xhc_write_runtime_reg-left :
      (offset word : ℕ) (w : W) → left (xhc_write_runtime_reg bus xhc offset word w) ≤ left w
  unfolding xhc_write_runtime_reg
  xhc_write_runtime_reg-left offset word w = ticks.writes (u32 (xhc.rts_off + offset)) word w

  xhc_reg_bit_is_set-left :
      (offset bit : ℕ) (w : W) → left (xhc_reg_bit_is_set bus xhc offset bit w).1 ≤ left w
  unfolding xhc_reg_bit_is_set xhc_read_op_reg
  xhc_reg_bit_is_set-left offset bit w = read_at-left (u32 (xhc.cap_length + offset)) w

  xhc_ring_door_bell-left :
      (slot_id dci : ℕ) (w : W) → left (xhc_ring_door_bell bus xhc slot_id dci w) ≤ left w
  unfolding xhc_ring_door_bell xhc_write_door_bell_reg
  xhc_ring_door_bell-left slot_id dci w = ground (
    arith,
    ticks.writes (u32 (xhc.db_off + 0)) 0 w,
    ticks.writes (u32 (xhc.db_off + slot_id * 4)) dci w,
  )

  module _ (pool : MemPool) (mem : ℕ → Trb) (events_in : W → List Trb) where
    is_stopped-left : (w : W) → left (is_stopped pool mem bus xhc events_in w).1 ≤ left w
    unfolding is_stopped xhc_is_halt xhc_is_sys_error
    is_stopped-left w =
        let halted = xhc_reg_bit_is_set bus xhc 4 1 w in
        ground (arith, xhc_reg_bit_is_set-left 4 1 w, xhc_reg_bit_is_set-left 4 4 halted.1)

    advance_event_ring-left :
        (s : Polling) (w w' : W)
        → advance_event_ring pool mem bus xhc events_in s w ≡ some w'
        → left w' ≤ left w
    unfolding advance_event_ring
    advance_event_ring-left s w w' e = elim (Option-cases there) [
      | inl nowhere ↦ absurd (ground (arith, e, nowhere))
      | inr (phy_addr, found) ↦
          let low = bit_or (phy_addr % 2 ^ 32) 8 in
          let w₃ = xhc_write_runtime_reg bus xhc erdp_offset low r₂.1 in
          ground (
            arith,
            e,
            found,
            xhc_read_runtime_reg-left erdp_offset w,
            xhc_read_runtime_reg-left (erdp_offset + 4) r₁.1,
            xhc_write_runtime_reg-left erdp_offset low r₂.1,
            xhc_write_runtime_reg-left (erdp_offset + 4) (phy_addr / 2 ^ 32) w₃,
          )
    ]
      where
        r₁ : ℕ × W
        r₁ = xhc_read_runtime_reg bus xhc erdp_offset w

        r₂ : ℕ × W
        r₂ = xhc_read_runtime_reg bus xhc (erdp_offset + 4) r₁.1

        there : Option ℕ
        there =
            usb_hc_get_pci_addr_for_host_addr pool
              (s.event_ring_seg0 + s.event_ring.event_ring_dequeue * trb_size) trb_size

    update_urbs-left :
        (urb : ℕ) (s : Polling) (w : W) (s' : Polling) (w' : W)
        → update_urbs pool mem bus xhc events_in urb s w ≡ some (s', w')
        → left w' ≤ left w
    unfolding update_urbs
    update_urbs-left urb s w s' w' e = ground (arith, e, is_stopped-left w)

    xhc_check_urb_result-left :
        (urb : ℕ) (s : Polling) (w : W) (f : Bool) (s' : Polling) (w' : W)
        → xhc_check_urb_result pool mem bus xhc events_in urb s w ≡ some (f, s', w')
        → left w' ≤ left w
    unfolding xhc_check_urb_result
    xhc_check_urb_result-left urb s w f s' w' e =
        elim (Option-cases (update_urbs pool mem bus xhc events_in urb s w)) [
          | inl nowhere ↦ absurd (ground (arith, e, nowhere))
          | inr ((s₁, w₁), updated) ↦
              elim (Option-cases (advance_event_ring pool mem bus xhc events_in s₁ w₁)) [
                | inl nowhere ↦ absurd (ground (arith, e, updated, nowhere))
                | inr (w₂, advanced) ↦
                    let same : w₂ ≡ w' = ground (arith, e, updated, advanced) in
                    rw (sym same) (
                      omega (
                        arith,
                        update_urbs-left urb s w s₁ w₁ updated,
                        advance_event_ring-left s₁ w₁ w₂ advanced,
                      ))
              ]
        ]

-- The addresses in the events that come are those of blocks in the pool, so that XhcCheckUrbResult
-- returns whenever the loop calls it: a property of the states that it comes to.
pub record AllFound {W : Type 0} (bus : Bus W) (check : Polling → W → Option (Bool × Polling × W))
    (Found : Polling → W → Type 0) : Type 0 where
  pub polls :
      (s : Polling) (w : W)
      → Found s w
      → (f : Bool) × (s' : Polling) × (w' : W) × (check s w ≡ some (f, s', w'))
        × Found s' (bus.check_event (bus.stall 1 w')).1

module _ {W : Type 0} (bus : Bus W) (xhc : Xhc) (left : W → ℕ) (ticks : Ticks bus left) where
  poll_steps-returns :
      (check : Polling → W → Option (Bool × Polling × W)) (Found : Polling → W → Type 0)
      → ((s : Polling) (w : W) (f : Bool) (s' : Polling) (w' : W)
          → check s w ≡ some (f, s', w')
          → left w' ≤ left w)
      → AllFound bus check Found
      → (ep : Endpoint) (fuel count : ℕ) (s : Polling) (w : W) → Found s w
      → left w < fuel
      → (f : Bool) × (s' : Polling) × (w' : W) × (poll_steps bus xhc check ep false fuel count s w
          ≡ some (f, s', w'))
  unfolding poll_steps
  poll_steps-returns check Found shorter all ep zero count s w found enough = absurd (omega arith)
  poll_steps-returns check Found shorter all ep (suc fuel) count s w found enough =
      let (f, s₁, w₁, checked, found') = all.polls s w found in
      let before = shorter s w f s₁ w₁ checked in
      let w₂ = bus.stall 1 w₁ in
      let w₃ = (bus.check_event w₂).1 in
      let count' = (count + 1) % 2 ^ 64 in
      elim (Bool-cases f) [
        | inl fin ↦ (true, s₁, w₁, ground (arith, checked, fin))
        | inr going ↦ elim (Bool-cases (ltb max_number_of_nak count' && is_limited ep)) [
          | inl limit ↦ (false, s₁, w₂, ground (arith, checked, going, limit))
          | inr few ↦ elim (Bool-cases (is_error (bus.check_event w₂).0)) [
            | inr over ↦ (false, s₁, w₃, ground (arith, checked, going, few, over))
            | inl still ↦
                let (f', s', w', rest) =
                  poll_steps-returns check Found shorter all ep fuel count' s₁ w₃ found'
                    (omega (arith, before, ticks.stalls 1 w₁, ticks.checks w₂ still)) in
                (f', s', w', ground (arith, checked, going, few, still, rest))
          ]
        ]
      ]

  module _ (pool : MemPool) (mem : ℕ → Trb) (events_in : W → List Trb)
      (Found : Polling → W → Type 0) (urb : ℕ)
      (all : AllFound bus (xhc_check_urb_result pool mem bus xhc events_in urb) Found) where
    ring_and_poll-returns :
        (so_far : Status) (fuel slot_id dci : ℕ) (ep : Endpoint) (s : Polling) (w : W)
        → Found s (xhc_ring_door_bell bus xhc slot_id dci w)
        → left w < fuel
        → (out : Status × Polling × W) × (ring_and_poll bus xhc pool mem events_in so_far fuel
              slot_id dci ep urb false 0 s w
            ≡ some out)
    unfolding ring_and_poll
    ring_and_poll-returns so_far fuel slot_id dci ep s w found enough =
        let (f, s', w', ends) =
          poll_steps-returns (xhc_check_urb_result pool mem bus xhc events_in urb) Found
            (xhc_check_urb_result-left bus xhc left ticks pool mem events_in urb) all ep fuel 0 s
            (xhc_ring_door_bell bus xhc slot_id dci w) found
            (omega (arith, xhc_ring_door_bell-left bus xhc left ticks slot_id dci w, enough)) in
        (((conclude so_far urb f s').0, (conclude so_far urb f s').1, w'), ground (arith, ends))

    exec_on-returns :
        (fuel count slot_id dci : ℕ) (ep : Endpoint) (timeout : ℕ) (s : Polling) (w : W)
        → Found s (
            xhc_ring_door_bell bus xhc slot_id dci (bus.set_timer timeout (bus.create_event w).1).1)
        → timeout ≢ 0
        → left (bus.set_timer timeout (bus.create_event w).1).1 < fuel
        → (out : Status × Polling × W) × (exec_on bus xhc pool mem events_in fuel count slot_id dci
              ep urb timeout s w
            ≡ some out)
    unfolding exec_on
    exec_on-returns fuel count slot_id dci ep timeout s w found timed enough =
        let (out, ends) =
          ring_and_poll-returns (bus.set_timer timeout (bus.create_event w).1).0 fuel slot_id dci ep
            s (bus.set_timer timeout (bus.create_event w).1).1 found enough in
        elim (Option-cases
          (exec_on bus xhc pool mem events_in fuel count slot_id dci ep urb timeout s w)) [
            | inr returned ↦ returned
            | inl nothing ↦ absurd (ground (arith, nothing, timed, ends))
          ]

-- With a timeout that is not 0, XhcExecTransfer returns: for as much fuel as the timer has time, and
-- a step more, where the time grows less with each CheckEvent and the events lead to blocks of the pool.
pub xhc_exec_transfer-returns :
    {W : Type 0} (bus : Bus W) (xhc : Xhc) (left : W → ℕ) (pool : MemPool) (mem : ℕ → Trb)
    (events_in : W → List Trb) (Found : Polling → W → Type 0) (fuel count : ℕ)
    (contexts : ℕ → DevContext) (cmd_transfer : Bool) (ep : Endpoint) (urb timeout : ℕ)
    (s : Polling) (w : W)
    → Ticks bus left
    → AllFound bus (xhc_check_urb_result pool mem bus xhc events_in urb) Found
    → ((slot_id dci : ℕ)
        → Found s (
            xhc_ring_door_bell bus xhc slot_id dci
              (bus.set_timer timeout (bus.create_event w).1).1))
    → timeout ≢ 0
    → left (bus.set_timer timeout (bus.create_event w).1).1 < fuel
    → (status : Status) × (s' : Polling) × (w' : W) × (xhc_exec_transfer bus xhc pool mem events_in
          fuel count contexts cmd_transfer ep urb timeout s w
        ≡ some (status, s', w'))
unfolding xhc_exec_transfer
xhc_exec_transfer-returns bus xhc left pool mem events_in Found fuel count contexts cmd_transfer ep
      urb timeout s w ticks all found timed enough =
    let slot_id = xhc_bus_dev_addr_to_slot_id contexts ep.bus_addr in
    let dci = xhc_endpoint_to_dci ep.ep_addr ep.direction in
    let returns = λ (slot_id dci : ℕ).
      exec_on-returns bus xhc left ticks pool mem events_in Found urb all fuel count slot_id dci ep
        timeout s w (found slot_id dci) timed enough in
    elim (Option-cases (
      xhc_exec_transfer bus xhc pool mem events_in fuel count contexts cmd_transfer ep urb timeout s
        w)) [
          | inr ((status, s', w'), out) ↦ (status, s', w', out)
          | inl nothing ↦ absurd (ground (arith, nothing, (returns 0 0).1, (returns slot_id dci).1))
        ]
