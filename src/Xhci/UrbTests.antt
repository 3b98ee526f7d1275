-- ===== src/Xhci/UrbTests.antt =====
-- Runs of the polling of a request, on a pool of one block at the addresses from 0x1000 on, and a world
-- that is the time that is left.
use edk2_adlink_ampere_altra.Base.{
  ℕ, zero, suc, ◌+◌, ◌*◌, ◌-◌, ◌<◌, ◌≡◌, ◌≢◌, refl, Bool, true, false, arith, Option, none, some,
  List, [], ◌∷◌, ◌⊎◌, ◌==◌, inl, inr, Status, success, device_error, timed_out, if◌then◌else◌,
  Bool-cases, bit_or,
}
use edk2_adlink_ampere_altra.Xhci.Trb.{Trb, zero_trb}
use edk2_adlink_ampere_altra.Xhci.Regs.{
  Bus, Xhc, read_at, xhc_read_op_reg, xhc_reg_bit_is_set, xhc_is_halt, xhc_is_sys_error,
  xhc_read_runtime_reg, xhc_write_runtime_reg, xhc_write_door_bell_reg,
}
use edk2_adlink_ampere_altra.Xhci.Devices.{
  Direction, DevContext, xhc_bus_dev_addr_to_slot_id, slot_steps,
}
use edk2_adlink_ampere_altra.Xhci.Events.{
  not_ready, event_steps, xhc_sync_event_ring, xhc_check_new_event,
}
use edk2_adlink_ampere_altra.Xhci.Events.Drained.{straight}
use edk2_adlink_ampere_altra.Xhci.Pool.{MemPool}
use edk2_adlink_ampere_altra.Xhci.MemPool.{
  usb_hc_get_pci_addr_for_host_addr, usb_hc_get_host_addr_for_pci_addr, pci_addr_in, host_addr_in,
}
use edk2_adlink_ampere_altra.Xhci.Urbs.{
  UrbState, Polling, block_done, urb_event, with_urb, trb_size, usb_err_system, ring_steps,
  is_transfer_ring_trb, is_pending_trb, checked_urb, handle_event, check_steps, take_events,
  advance_event_ring, is_stopped, update_urbs, xhc_check_urb_result,
}
use edk2_adlink_ampere_altra.Xhci.Urbs.Kept.{Carries, xhc_check_urb_result-Carries}
use edk2_adlink_ampere_altra.Xhci.Urbs.Succeeds.{Completes, Succeeds, nothing, and_event}
use edk2_adlink_ampere_altra.Xhci.Urbs.Completed.{xhc_check_urb_result-Succeeds}
use edk2_adlink_ampere_altra.Xhci.Exec.{
  Endpoint, conclude, xhc_ring_door_bell, poll_steps, ring_and_poll, exec_on, xhc_exec_transfer,
}
use edk2_adlink_ampere_altra.Xhci.Exec.Ends.{Ended, xhc_exec_transfer-Ended}
use edk2_adlink_ampere_altra.Xhci.Exec.Returns.{Ticks, AllFound, xhc_exec_transfer-returns}

abbrev pub one_block : MemPool
one_block = record {
  head = record {
    ptr = 0x10;
    bits_ptr = 0x20;
    bits = 0xff ∷ 0xff ∷ [];
    buf = 0x1000;
    buf_host = 0x1000;
    buf_len = 1024;
    mapping = 0x30;
  };
  others = [];
}

-- The registers read as a number, which is even where the controller runs.
abbrev pub ticking : ℕ → Bus ℕ
ticking word = record {
  mem_read = λ place w. (success, word, w);
  mem_write = λ place word w. (success, w);
  read_command = λ w. (success, 0, w);
  stall = λ microseconds w. w;
  create_event = λ w. (success, w);
  set_timer = λ timeout w. (success, timeout);
  check_event = λ w. ((if w == 0 then success else not_ready), w - 1);
  close_event = λ w. w;
}

abbrev pub some_xhc : Xhc
some_xhc = record {
  cap_length = 0x20;
  db_off = 0x1000;
  rts_off = 0x2000;
  ext_cap_reg_base = 0x3000;
  usb_leg_sup_offset = 0;
  debug_cap_sup_offset = 0xFFFFFFFF;
  max_ports = 2;
}

-- A normal block of 512 bytes lies at each address; the request has the one at 0x1200, and an event
-- says that all of it but 12 bytes was moved.
abbrev pub blocks : ℕ → Trb
blocks at = record zero_trb { type = 1; status = 512 }

abbrev pub short_packet : Trb
short_packet = record zero_trb {
  parameter1 = 0x1200;
  status = 13 * 16777216 + 12;
  cycle_bit = 1;
  type = 32;
}

abbrev pub event_ring : ℕ → List Trb
event_ring w = short_packet ∷ zero_trb ∷ []

abbrev asked : UrbState
asked = record {
  trb_start = 0x1200;
  trb_end = 0x1200;
  trb_num = 1;
  result = 0;
  completed = 0;
  start_done = false;
  end_done = false;
  finished = false;
  evt_trb = none;
}

abbrev pub polled : Polling
polled = record {
  event_ring = record {
    trbs = [];
    trb_number = 2;
    event_ring_enqueue = 0;
    event_ring_dequeue = 0;
    event_ring_ccs = 1;
  };
  event_ring_seg0 = 0x1000;
  urbs = λ id. asked;
  pending_urb = none;
  async_int_transfers = [];
}

abbrev given : Option (Bool × Polling × ℕ) → Bool × Polling × ℕ
given none = (false, polled, 0)
given (some out) = out

abbrev one_poll : Bool × Polling × ℕ
one_poll = given (xhc_check_urb_result one_block blocks (ticking 0) some_xhc event_ring 7 polled 3)

one_poll-returns :
    xhc_check_urb_result one_block blocks (ticking 0) some_xhc event_ring 7 polled 3 ≡ some one_poll
unfolding xhc_check_urb_result update_urbs take_events check_steps handle_event checked_urb
    is_pending_trb is_transfer_ring_trb ring_steps urb_event block_done advance_event_ring
    is_stopped xhc_is_halt xhc_is_sys_error xhc_reg_bit_is_set xhc_read_op_reg read_at
    xhc_read_runtime_reg xhc_write_runtime_reg xhc_sync_event_ring event_steps xhc_check_new_event
    usb_hc_get_pci_addr_for_host_addr usb_hc_get_host_addr_for_pci_addr pci_addr_in host_addr_in
one_poll-returns = refl

one_poll_moves : (one_poll.1.urbs 7).completed ≡ 500
unfolding xhc_check_urb_result update_urbs take_events check_steps handle_event checked_urb
    is_pending_trb is_transfer_ring_trb ring_steps urb_event block_done advance_event_ring
    is_stopped xhc_is_halt xhc_is_sys_error xhc_reg_bit_is_set xhc_read_op_reg read_at
    xhc_read_runtime_reg xhc_write_runtime_reg xhc_sync_event_ring event_steps xhc_check_new_event
    usb_hc_get_pci_addr_for_host_addr usb_hc_get_host_addr_for_pci_addr pci_addr_in host_addr_in
one_poll_moves = refl

xhc_check_urb_result-Carries_example :
    ((id : ℕ) → Carries (polled.urbs id) (one_poll.1.urbs id))
    × (one_poll.0 ≡ (one_poll.1.urbs 7).finished)
xhc_check_urb_result-Carries_example =
    xhc_check_urb_result-Carries one_block blocks (ticking 0) some_xhc event_ring 7 polled 3
      one_poll.0 one_poll.1 one_poll.2 one_poll-returns

runs : (is_stopped one_block blocks (ticking 0) some_xhc event_ring 3).0 ≡ false
unfolding is_stopped xhc_is_halt xhc_is_sys_error xhc_reg_bit_is_set xhc_read_op_reg read_at
runs = refl

packet-Completes : Completes one_block blocks asked short_packet 0x1200
unfolding usb_hc_get_host_addr_for_pci_addr host_addr_in is_transfer_ring_trb ring_steps
packet-Completes = record {
  completes = refl;
  there = refl;
  its_own = refl;
  well = inr refl;
  rest = omega arith;
}

packet-Succeeds : Succeeds one_block blocks asked (short_packet ∷ []) 500 true true
packet-Succeeds = and_event short_packet 0x1200 [] 0 false false packet-Completes nothing

ring_is_mapped :
    (place : ℕ)
    → place < 2
    → (phy_addr : ℕ) × (usb_hc_get_pci_addr_for_host_addr one_block
          (0x1000 + place * trb_size)
          trb_size
        ≡ some phy_addr)
unfolding usb_hc_get_pci_addr_for_host_addr pci_addr_in
ring_is_mapped zero inside = (0x1000, refl)
ring_is_mapped (suc zero) inside = (0x1010, refl)
ring_is_mapped (suc (suc place)) inside = absurd (omega (arith, inside))

xhc_check_urb_result-Succeeds_example :
    (s' : Polling) × (w' : ℕ) × (xhc_check_urb_result one_block blocks
        (ticking 0)
        some_xhc
        event_ring
        7
        polled
        3
      ≡ some (true, s', w'))
    × ((s'.urbs 7).result ≡ 0)
    × ((s'.urbs 7).completed ≡ 0 + 500)
    × ((id : ℕ) → id ≢ 7 → s'.urbs id ≡ asked)
xhc_check_urb_result-Succeeds_example =
    xhc_check_urb_result-Succeeds one_block blocks (ticking 0) some_xhc event_ring 7 polled 3
      (short_packet ∷ []) 500 refl refl runs refl
      (straight (short_packet ∷ []) zero_trb (refl, refl, tt) (omega arith) refl refl)
      packet-Succeeds (omega arith) (omega arith) ring_is_mapped

-- The device of the request has a slot.
abbrev pub devices : ℕ → DevContext
devices index = record { enabled = index == 1; slot_id = index; bus_dev_addr = 5; route_string = 1 }

abbrev pub bulk_in : Endpoint
bulk_in = record { bus_addr = 5; ep_addr = 1; direction = Direction.data_in; type = 2 }

abbrev executed_as : Option (Status × Polling × ℕ) → Status × Polling × ℕ
executed_as none = (timed_out, polled, 0)
executed_as (some out) = out

abbrev one_transfer : Status × Polling × ℕ
one_transfer = executed_as (
    xhc_exec_transfer (ticking 0) some_xhc one_block blocks event_ring 4 9 devices false bulk_in 7 3
      polled 0)

one_transfer-returns :
    xhc_exec_transfer
      (ticking 0)
      some_xhc
      one_block
      blocks
      event_ring
      4
      9
      devices
      false
      bulk_in
      7
      3
      polled
      0
    ≡ some one_transfer
unfolding xhc_exec_transfer exec_on ring_and_poll poll_steps conclude xhc_ring_door_bell
    xhc_write_door_bell_reg xhc_bus_dev_addr_to_slot_id slot_steps xhc_check_urb_result update_urbs
    take_events check_steps handle_event checked_urb is_pending_trb is_transfer_ring_trb ring_steps
    urb_event block_done advance_event_ring is_stopped xhc_is_halt xhc_is_sys_error
    xhc_reg_bit_is_set xhc_read_op_reg read_at xhc_read_runtime_reg xhc_write_runtime_reg
    xhc_sync_event_ring event_steps xhc_check_new_event usb_hc_get_pci_addr_for_host_addr
    usb_hc_get_host_addr_for_pci_addr pci_addr_in host_addr_in
one_transfer-returns = refl

xhc_exec_transfer-Ended_example :
    ((false ≡ false)
      × (xhc_bus_dev_addr_to_slot_id devices 5 ≡ 0)
      × (one_transfer.0 ≡ device_error)
      × (one_transfer.1 ≡ polled)
      × (one_transfer.2 ≡ 0))
    ⊎ Ended success 7 one_transfer.0 one_transfer.1
xhc_exec_transfer-Ended_example =
    xhc_exec_transfer-Ended (ticking 0) some_xhc one_block blocks event_ring 4 9 devices false
      bulk_in 7 3 polled 0 one_transfer.0 one_transfer.1 one_transfer.2 one_transfer-returns

ticking-Ticks : (word : ℕ) → Ticks (ticking word) (λ w. w)
ticking-Ticks word = record {
  reads = λ place w. omega arith;
  writes = λ place word' w. omega arith;
  stalls = λ microseconds w. omega arith;
  checks = λ w still. ground (arith, still);
}

-- A controller that has stopped: no event is looked at, and the time runs out.
abbrev AtStart : Polling → ℕ → Type 0
AtStart s w = (s.event_ring.event_ring_dequeue ≡ 0) × (s.event_ring_seg0 ≡ 0x1000)

stopped-AllFound :
    AllFound
      (ticking 1)
      (xhc_check_urb_result one_block blocks (ticking 1) some_xhc event_ring 7)
      AtStart
unfolding xhc_check_urb_result update_urbs advance_event_ring is_stopped xhc_is_halt
    xhc_is_sys_error xhc_reg_bit_is_set xhc_read_op_reg read_at xhc_read_runtime_reg
    xhc_write_runtime_reg usb_hc_get_pci_addr_for_host_addr pci_addr_in
stopped-AllFound = record {
  polls = λ s w found. elim (Bool-cases (s.urbs 7).finished) [
    | inl fin ↦ (true, s, w, ground (arith, fin, found), found)
    | inr going ↦ (
      false,
      record s {
        urbs =
            with_urb s.urbs 7
              (record (s.urbs 7) { result = bit_or (s.urbs 7).result usb_err_system });
      },
      w,
      ground (arith, going, found),
      found,
    )
  ];
}

xhc_exec_transfer-returns_example :
    (status : Status) × (s' : Polling) × (w' : ℕ) × (xhc_exec_transfer
        (ticking 1)
        some_xhc
        one_block
        blocks
        event_ring
        4
        9
        devices
        false
        bulk_in
        7
        3
        polled
        0
      ≡ some (status, s', w'))
xhc_exec_transfer-returns_example =
    xhc_exec_transfer-returns (ticking 1) some_xhc (λ w. w) one_block blocks event_ring AtStart 4 9
      devices false bulk_in 7 3 polled 0 (ticking-Ticks 1) stopped-AllFound
      (λ slot_id dci. (refl, refl)) (λ e. absurd (omega (arith, e))) (omega arith)
