-- ===== src/Xhci/DriverTests.antt =====
-- Runs of the rings, the registers and the ports, and instances of the theorems about them.
use edk2_adlink_ampere_altra.Base.{
  ℕ, ◌+◌, ◌≤◌, ◌≡◌, ◌≢◌, refl, arith, Bool, true, false, none, some, [], ◌∷◌, get_or, get_elem?,
  ◌==◌, u32, Status, inr, success, device_error, ◌<◌, if◌then◌else◌,
}
use edk2_adlink_ampere_altra.Xhci.Trb.{Trb, zero_trb, stamp}
use edk2_adlink_ampere_altra.Xhci.Ring.{
  TransferRing, create_transfer_ring, xhc_sync_trs_ring, write_trb, write_and_sync, sync_steps,
  pass_link,
}
use edk2_adlink_ampere_altra.Xhci.Ring.Delivery.{System, Reach, here, next, post, fetch, start}
use edk2_adlink_ampere_altra.Xhci.Ring.Delivery.Order.{
  UnderWay, create_transfer_ring-UnderWay, create_transfer_ring-write_and_sync,
}
use edk2_adlink_ampere_altra.Xhci.Events.{
  EventRing, xhc_sync_event_ring, xhc_check_new_event, not_ready, new_events,
}
use edk2_adlink_ampere_altra.Xhci.Events.Drained.{
  Written, around, xhc_sync_event_ring-Written, xhc_sync_event_ring-misses,
}
use edk2_adlink_ampere_altra.Xhci.Regs.{
  Bus, Xhc, no_offset, read_at, xhc_get_capability_addr, xhc_read_ext_cap_reg,
}
use edk2_adlink_ampere_altra.Xhci.Regs.Caps.{
  Listed, last, more, xhc_get_capability_addr-Listed, xhc_get_capability_addr-endless,
}
use edk2_adlink_ampere_altra.Xhci.Ports.{
  PortFeature, xhc_clear_root_hub_port_feature, port_status, port_change_status,
}
use edk2_adlink_ampere_altra.Xhci.Ports.Mapped.{
  IsPortStatus, IsPortChange, port_status-port_change_status,
}
use edk2_adlink_ampere_altra.Xhci.Ports.Writes.{
  Sparing, logging, xhc_clear_root_hub_port_feature-Sparing,
}
use edk2_adlink_ampere_altra.Xhci.Devices.{
  Direction, DevContext, xhc_bus_dev_addr_to_slot_id, slot_steps,
}
use edk2_adlink_ampere_altra.Xhci.Devices.Lookup.{taken, xhc_bus_dev_addr_to_slot_id-taken}
use edk2_adlink_ampere_altra.Xhci.Transfer.{Urb, Sched, xhc_create_transfer_trb}
use edk2_adlink_ampere_altra.Xhci.Transfer.Submitted.{
  mapped, Submitted, xhc_create_transfer_trb-Submitted, slot_of,
}

abbrev command : Trb
command = record zero_trb { parameter1 = 0x1234; type = 9 }

abbrev event : ℕ → ℕ → Trb
event n cycle_bit = record zero_trb { parameter1 = n; cycle_bit = cycle_bit; type = 32 }

-- One block is posted to a ring with room for two, and the controller takes it.
abbrev posted_ring : TransferRing
posted_ring = record (create_transfer_ring 0x4000 4) {
  trbs =
      stamp 1 command
      ∷ zero_trb
      ∷ zero_trb
      ∷ get_or (create_transfer_ring 0x4000 4).trbs 3 zero_trb
      ∷ [];
  ring_enqueue = 1;
}

abbrev posted_state : System
posted_state = record (start 0x4000 4) { transfers = posted_ring; sent = command ∷ [] }

posted_reached : Reach 2 (start 0x4000 4) posted_state
unfolding write_and_sync write_trb xhc_sync_trs_ring sync_steps pass_link create_transfer_ring
posted_reached = next here (post (start 0x4000 4) command posted_ring refl (omega arith) refl)

taken_reached : Reach 2 (start 0x4000 4) (record posted_state { at = 1; received = command ∷ [] })
taken_reached = next posted_reached (fetch posted_state (stamp 1 command) refl refl refl)

create_transfer_ring-UnderWay_example :
    UnderWay 2 (record posted_state { at = 1; received = command ∷ [] })
create_transfer_ring-UnderWay_example = create_transfer_ring-UnderWay 0x4000 2 taken_reached

create_transfer_ring-write_and_sync_example :
    (r : TransferRing) × (write_and_sync posted_ring command ≡ some r)
create_transfer_ring-write_and_sync_example =
    create_transfer_ring-write_and_sync 0x4000 2 posted_state command posted_reached (omega arith)

-- Three events up to the end of a ring of five, two from its start on.
abbrev wrapped_ring : EventRing
wrapped_ring = record {
  trbs = event 4 0 ∷ event 5 0 ∷ event 1 1 ∷ event 2 1 ∷ event 3 1 ∷ [];
  trb_number = 5;
  event_ring_enqueue = 2;
  event_ring_dequeue = 2;
  event_ring_ccs = 1;
}

abbrev one_around : EventRing
one_around = record wrapped_ring {
  trbs = event 4 0 ∷ event 0 1 ∷ event 1 1 ∷ event 2 1 ∷ event 3 1 ∷ [];
}

around_Written : Written one_around (event 1 1 ∷ event 2 1 ∷ event 3 1 ∷ event 4 0 ∷ [])
around_Written =
    around (event 1 1) (event 2 1 ∷ event 3 1 ∷ []) (event 4 0 ∷ []) (event 0 1)
      (refl, refl, (refl, refl, (refl, refl, tt))) refl (refl, refl, tt) (omega arith) refl refl

xhc_sync_event_ring-Written_example :
    (r' : EventRing) × (xhc_sync_event_ring one_around ≡ some r')
    × ((new_events 5 r').0 ≡ event 1 1 ∷ event 2 1 ∷ event 3 1 ∷ event 4 0 ∷ [])
    × ((new_events 5 r').1.event_ring_dequeue ≡ r'.event_ring_enqueue)
xhc_sync_event_ring-Written_example =
    xhc_sync_event_ring-Written one_around (event 1 1 ∷ event 2 1 ∷ event 3 1 ∷ event 4 0 ∷ [])
      around_Written

xhc_sync_event_ring-misses_example :
    (r₁ r₂ : EventRing) × (xhc_sync_event_ring one_around ≡ some r₁)
    × (xhc_sync_event_ring (new_events 2 r₁).1 ≡ some r₂)
    × ((xhc_check_new_event r₂).0 ≡ not_ready)
    × (get_elem? r₂.trbs r₂.event_ring_dequeue ≡ some (event 3 1))
xhc_sync_event_ring-misses_example =
    xhc_sync_event_ring-misses one_around (event 1 1) (event 2 1 ∷ []) (event 3 1) []
      (event 4 0 ∷ []) (event 0 1) (refl, refl, (refl, refl, (refl, refl, tt))) refl
      (refl, refl, tt) (omega arith) refl refl

-- A controller whose registers are `file`, at the addresses of the bus, and the writes to it.
abbrev bus_of : (ℕ → Status × ℕ) → Bus (Unit {0})
bus_of file = record {
  mem_read = λ place w. ((file place).0, (file place).1, w);
  mem_write = λ place word w. (success, w);
  read_command = λ w. (success, 0, w);
  stall = λ time w. w;
  create_event = λ w. (success, w);
  set_timer = λ timeout w. (success, w);
  check_event = λ w. (success, w);
  close_event = λ w. w;
}

abbrev xhc : Xhc
xhc = record {
  cap_length = 0x20;
  db_off = 0x800;
  rts_off = 0x600;
  ext_cap_reg_base = 0;
  usb_leg_sup_offset = no_offset;
  debug_cap_sup_offset = no_offset;
  max_ports = 4;
}

-- A capability with id 1, and two words further one with id 2, the last.
abbrev two_capabilities : ℕ → ℕ
two_capabilities place = if place == 0x500 then 0x0201 else if place == 0x508 then 0x0002 else 0

abbrev seen_capabilities : ℕ → ℕ
seen_capabilities place = two_capabilities (u32 (0 + place))

two_capabilities-Listed : Listed seen_capabilities 0x500 (0x500 ∷ 0x508 ∷ [])
two_capabilities-Listed =
    more 0x500 (0x508 ∷ []) (λ none. absurd (omega (arith, none))) (last 0x508 refl)

reads_capabilities :
    (place : ℕ)
    → xhc_read_ext_cap_reg (bus_of (λ p. (success, two_capabilities p))) xhc place tt
      ≡ (seen_capabilities place, tt)
unfolding xhc_read_ext_cap_reg read_at
reads_capabilities place = refl

xhc_get_capability_addr-Listed_example :
    xhc_get_capability_addr (bus_of (λ p. (success, two_capabilities p))) xhc 2 2 0x500 tt
    ≡ some (0x508, tt)
xhc_get_capability_addr-Listed_example =
    xhc_get_capability_addr-Listed (bus_of (λ p. (success, two_capabilities p))) xhc
      seen_capabilities 2 2 0x500 (0x500 ∷ 0x508 ∷ []) tt reads_capabilities two_capabilities-Listed
      (omega arith)

-- Every read fails.
xhc_get_capability_addr-endless_example :
    xhc_get_capability_addr (bus_of (λ p. (device_error, 0))) xhc 100 1 0x500 tt ≡ none
xhc_get_capability_addr-endless_example =
    xhc_get_capability_addr-endless (bus_of (λ p. (device_error, 0))) xhc 100 1 0x500 tt
      (λ place v. refl) (λ same. absurd (omega (arith, same)))

-- A port that is connected and enabled, at high speed, with a change of the connection.
port_status-port_change_status_example :
    IsPortStatus 0x20C03 (port_status 0x20C03) × IsPortChange 0x20C03 (port_change_status 0x20C03)
port_status-port_change_status_example = port_status-port_change_status 0x20C03

-- Its change of the connection is cleared.
xhc_clear_root_hub_port_feature-Sparing_example :
    Sparing
      (0x20 + 0x410)
      0x20000
      1
      (xhc_clear_root_hub_port_feature
        (logging (bus_of (λ p. (success, 0x20C03))))
        xhc
        1
        PortFeature.connect_change
        (tt, [])).1.1
xhc_clear_root_hub_port_feature-Sparing_example =
    xhc_clear_root_hub_port_feature-Sparing (bus_of (λ p. (success, 0x20C03))) xhc 1
      PortFeature.connect_change tt

-- Endpoint 1 in both directions.
abbrev first_endpoint : ℕ
first_endpoint = 1

-- Slot 7 is at entry 3, for the address 5; no other entry is in use.
abbrev contexts : ℕ → DevContext
contexts n = record { enabled = n == 3; slot_id = 7; bus_dev_addr = 5; route_string = 1 }

xhc_bus_dev_addr_to_slot_id-taken_example :
    let holds = taken (λ d. d.bus_dev_addr == 5) in
    let slot = xhc_bus_dev_addr_to_slot_id contexts 5 in
    (slot ≢ 0
      → (n : ℕ) × (1 ≤ n) × (n < 256) × (holds (contexts n) ≡ true) × ((contexts n).slot_id ≡ slot))
    × ((n : ℕ) → 1 ≤ n → n < 256 → holds (contexts n) ≡ true → slot ≢ 0)
xhc_bus_dev_addr_to_slot_id-taken_example = xhc_bus_dev_addr_to_slot_id-taken contexts 5

-- A bulk transfer of 64 KB and one byte, on a new ring with room for four blocks.
abbrev bulk_urb : Urb
bulk_urb = record {
  bus_addr = 5;
  ep_addr = 1;
  direction = Direction.data_out;
  request = record { request_type = 0; request = 0; value = 0; index = 0; length = 0 };
  data_ptr = 0x8000;
  data_len = 0x10001;
  data_phy = 0;
  data_map = 0;
  result = 0;
  completed = 0;
  ring = (0, 0);
  trb_start = 0;
  trb_end = 0;
  trb_num = 0;
  start_done = false;
  end_done = false;
  finished = false;
}

abbrev sched : Sched
sched = record {
  contexts = contexts;
  rings = λ slot dci. create_transfer_ring 0x4000 6;
  csz = 0;
  ep_type = λ slot dci. 2;
  ep_type_64 = λ slot dci. 0;
}

abbrev map_at : Bool → ℕ → ℕ → Unit {0} → Status × ℕ × ℕ × ℕ × Unit {0}
map_at is_write data_ptr len w = (success, len, 0x100000, 1, w)

has_slot : slot_of sched bulk_urb ≢ 0
unfolding xhc_bus_dev_addr_to_slot_id slot_steps
has_slot missing = absurd (omega (arith, missing))

xhc_create_transfer_trb-Submitted_example :
    Submitted map_at 0x4000 4 sched bulk_urb
      (start 0x4000 6)
      0x100000
      tt
      (xhc_create_transfer_trb map_at sched bulk_urb tt)
xhc_create_transfer_trb-Submitted_example =
    xhc_create_transfer_trb-Submitted map_at 0x4000 4 sched bulk_urb (start 0x4000 6) tt 0x100000 1
      tt here has_slot refl (inr refl)
      (mapped 0x100000 1 tt (λ none. absurd (omega (arith, none))) refl refl) refl (omega arith)
      (omega arith)
