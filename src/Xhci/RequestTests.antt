-- ===== src/Xhci/RequestTests.antt =====
-- Runs of the commands and of a bulk transfer, on the pool and the world of the runs of the polling.
use edk2_adlink_ampere_altra.Base.{
  ℕ, ◌≡◌, refl, true, false, ◌==◌, Option, none, some, List, [], ◌∷◌, Status, success, device_error,
  out_of_resources, inl,
}
use edk2_adlink_ampere_altra.Xhci.Trb.{Trb, zero_trb}
use edk2_adlink_ampere_altra.Xhci.Ring.{
  TransferRing, create_transfer_ring, xhc_create_cmd_trb, xhc_sync_trs_ring, sync_steps, pass_link,
  write_trb, write_and_sync,
}
use edk2_adlink_ampere_altra.Xhci.Regs.{
  read_at, xhc_read_op_reg, xhc_reg_bit_is_set, xhc_is_halt, xhc_is_sys_error, xhc_read_runtime_reg,
  xhc_write_runtime_reg, xhc_write_door_bell_reg,
}
use edk2_adlink_ampere_altra.Xhci.Devices.{
  xhc_bus_dev_addr_to_slot_id, slot_steps, xhc_endpoint_to_dci,
}
use edk2_adlink_ampere_altra.Xhci.Events.{event_steps, xhc_sync_event_ring, xhc_check_new_event}
use edk2_adlink_ampere_altra.Xhci.MemPool.{
  usb_hc_get_pci_addr_for_host_addr, usb_hc_get_host_addr_for_pci_addr, pci_addr_in, host_addr_in,
}
use edk2_adlink_ampere_altra.Xhci.Transfer.{
  usb_noerror, xhc_create_transfer_trb, map_data, transfer_blocks, normal_steps, normal_trb,
}
use edk2_adlink_ampere_altra.Xhci.Urbs.{
  block_done, urb_event, ring_steps, is_transfer_ring_trb, is_pending_trb, checked_urb,
  handle_event, check_steps, take_events, advance_event_ring, is_stopped, update_urbs,
  xhc_check_urb_result,
}
use edk2_adlink_ampere_altra.Xhci.Exec.{
  conclude, xhc_ring_door_bell, poll_steps, ring_and_poll, exec_on, xhc_exec_transfer,
}
use edk2_adlink_ampere_altra.Xhci.Commands.{
  already_started, Commander, Env, exec_cmd, xhc_cmd_transfer, xhc_stop_endpoint,
  xhc_dequeue_trb_from_endpoint,
}
use edk2_adlink_ampere_altra.Xhci.Commands.Dequeued.{
  Dequeues, xhc_dequeue_trb_from_endpoint-Dequeues, xhc_dequeue_trb_from_endpoint-stopped,
}
use edk2_adlink_ampere_altra.Xhci.Commands.Statuses.{TimerStatuses}
use edk2_adlink_ampere_altra.Xhci.Requests.{
  Host, Asked, Answer, Pci, xhc_create_urb, xhc_free_urb, abort_slow, recover_halted, run_urb,
  xhc_transfer, start_transfer, is_valid_bulk, xhc_bulk_transfer_to,
}
use edk2_adlink_ampere_altra.Xhci.Requests.Results.{xhc_bulk_transfer-success}
use edk2_adlink_ampere_altra.Xhci.UrbTests.{
  one_block, ticking, some_xhc, blocks, short_packet, event_ring, polled, devices, bulk_in,
}

abbrev some_env : ℕ → Env ℕ
some_env word = record {
  bus = ticking word;
  xhc = some_xhc;
  pool = one_block;
  mem = blocks;
  events_in = event_ring;
  allocate_urb = λ w. (7, w);
  free_pool = λ ptr w. w;
  contexts = devices;
  fuel = 4;
}

abbrev four_blocks : TransferRing
four_blocks = create_transfer_ring 0x1300 4

abbrev commander : Commander
commander = record { polling = polled; cmd_ring = four_blocks; cmd_ring_seg0 = 0x1300 }

has_slot : (xhc_bus_dev_addr_to_slot_id devices 5 == 0) ≡ false
unfolding xhc_bus_dev_addr_to_slot_id slot_steps
has_slot = refl

has_stopped : (is_stopped one_block blocks (ticking 1) some_xhc event_ring 3).0 ≡ true
unfolding is_stopped xhc_is_halt xhc_is_sys_error xhc_reg_bit_is_set xhc_read_op_reg read_at
has_stopped = refl

xhc_dequeue_trb_from_endpoint-stopped_example :
    (c' : Commander) × (w' : ℕ) × (xhc_dequeue_trb_from_endpoint
        (some_env 1)
        bulk_in
        8
        four_blocks
        0x1200
        commander
        3
      ≡ some (device_error, c', w'))
    × ((c'.polling.urbs 8).result ≡ usb_noerror)
xhc_dequeue_trb_from_endpoint-stopped_example =
    xhc_dequeue_trb_from_endpoint-stopped (some_env 1) bulk_in 8 four_blocks 0x1200 commander 3
      has_slot has_stopped

-- The request is finished just before the command that stops its endpoint.
abbrev both_events : ℕ → List Trb
both_events w =
    short_packet
    ∷ record zero_trb { parameter1 = 0x1300; status = 16777216; cycle_bit = 1; type = 33 }
    ∷ zero_trb
    ∷ []

abbrev late_env : Env ℕ
late_env = record (some_env 0) { events_in = both_events }

abbrev late : Commander
late = record commander {
  polling = record polled { event_ring = record polled.event_ring { trb_number = 3 } };
}

abbrev dequeued_as : Option (Status × Commander × ℕ) → Status × Commander × ℕ
dequeued_as none = (success, commander, 0)
dequeued_as (some out) = out

abbrev late_end : Status × Commander × ℕ
late_end = dequeued_as (xhc_dequeue_trb_from_endpoint late_env bulk_in 8 four_blocks 0x1200 late 3)

late_end-returns :
    xhc_dequeue_trb_from_endpoint late_env bulk_in 8 four_blocks 0x1200 late 3 ≡ some late_end
unfolding exec_cmd xhc_cmd_transfer xhc_create_cmd_trb xhc_stop_endpoint
    xhc_dequeue_trb_from_endpoint xhc_exec_transfer exec_on ring_and_poll poll_steps conclude
    xhc_ring_door_bell xhc_write_door_bell_reg xhc_bus_dev_addr_to_slot_id slot_steps
    xhc_endpoint_to_dci xhc_check_urb_result update_urbs take_events check_steps handle_event
    checked_urb is_pending_trb is_transfer_ring_trb ring_steps urb_event block_done
    advance_event_ring is_stopped xhc_is_halt xhc_is_sys_error xhc_reg_bit_is_set xhc_read_op_reg
    read_at xhc_read_runtime_reg xhc_write_runtime_reg xhc_sync_event_ring event_steps
    xhc_check_new_event usb_hc_get_pci_addr_for_host_addr usb_hc_get_host_addr_for_pci_addr
    pci_addr_in host_addr_in create_transfer_ring sync_steps pass_link xhc_sync_trs_ring write_trb
late_end-returns = refl

late_end-already_started : late_end.0 ≡ already_started
unfolding exec_cmd xhc_cmd_transfer xhc_create_cmd_trb xhc_stop_endpoint
    xhc_dequeue_trb_from_endpoint xhc_exec_transfer exec_on ring_and_poll poll_steps conclude
    xhc_ring_door_bell xhc_write_door_bell_reg xhc_bus_dev_addr_to_slot_id slot_steps
    xhc_endpoint_to_dci xhc_check_urb_result update_urbs take_events check_steps handle_event
    checked_urb is_pending_trb is_transfer_ring_trb ring_steps urb_event block_done
    advance_event_ring is_stopped xhc_is_halt xhc_is_sys_error xhc_reg_bit_is_set xhc_read_op_reg
    read_at xhc_read_runtime_reg xhc_write_runtime_reg xhc_sync_event_ring event_steps
    xhc_check_new_event usb_hc_get_pci_addr_for_host_addr usb_hc_get_host_addr_for_pci_addr
    pci_addr_in host_addr_in create_transfer_ring sync_steps pass_link xhc_sync_trs_ring write_trb
late_end-already_started = refl

ticking-TimerStatuses : TimerStatuses (ticking 0)
ticking-TimerStatuses = record { created = λ w. refl; timed = λ timeout w. refl }

xhc_dequeue_trb_from_endpoint-Dequeues_example :
    Dequeues late_env
      (xhc_bus_dev_addr_to_slot_id devices 5)
      (xhc_endpoint_to_dci bulk_in.ep_addr bulk_in.direction)
      8
      four_blocks
      0x1200
      late
      3
      late_end.0
      late_end.1
      late_end.2
    × (late_end.1.polling.pending_urb ≡ none)
xhc_dequeue_trb_from_endpoint-Dequeues_example =
    xhc_dequeue_trb_from_endpoint-Dequeues late_env ticking-TimerStatuses bulk_in 8 four_blocks
      0x1200 late 3 late_end.0 late_end.1 late_end.2 late_end-returns refl

-- A bulk transfer of 512 bytes, of which 500 come.
abbrev some_pci : Pci ℕ
some_pci = record {
  map = λ to_memory address bytes w. (success, bytes, address, 9, w);
  unmap = λ mapping w. w;
  flush = λ w. w;
}

abbrev host : Host
host = record {
  commander = commander;
  sched = record {
    contexts = devices;
    rings = λ slot_id dci. four_blocks;
    csz = 0;
    ep_type = λ slot_id dci. 6;
    ep_type_64 = λ slot_id dci. 0;
  };
  ring_seg0 = λ slot_id dci. 0x1200;
}

abbrev bulk : Asked
bulk = record {
  device_address = 5;
  end_point_address = 0x81;
  type = 0;
  request = record { request_type = 0; request = 0; value = 0; index = 0; length = 0 };
  data_ptr = 0x9000;
  data_length = 512;
  timeout = 3;
}

abbrev answered : Option (Answer × Host × ℕ) → Answer × Host × ℕ
answered none =
    (record { status = out_of_resources; transfer_result = 1; data_length = 0 }, host, 0)
answered (some out) = out

abbrev bulk_end : Answer × Host × ℕ
bulk_end = answered (xhc_bulk_transfer_to (some_env 0) some_pci 9 2 512 0 1 bulk host 3)

bulk_end-returns :
    xhc_bulk_transfer_to (some_env 0) some_pci 9 2 512 0 1 bulk host 3 ≡ some bulk_end
unfolding xhc_create_urb xhc_free_urb abort_slow recover_halted run_urb xhc_transfer start_transfer
    is_valid_bulk xhc_bulk_transfer_to write_and_sync xhc_create_transfer_trb map_data
    transfer_blocks normal_steps normal_trb xhc_exec_transfer exec_on ring_and_poll poll_steps
    conclude xhc_ring_door_bell xhc_write_door_bell_reg xhc_bus_dev_addr_to_slot_id slot_steps
    xhc_endpoint_to_dci xhc_check_urb_result update_urbs take_events check_steps handle_event
    checked_urb is_pending_trb is_transfer_ring_trb ring_steps urb_event block_done
    advance_event_ring is_stopped xhc_is_halt xhc_is_sys_error xhc_reg_bit_is_set xhc_read_op_reg
    read_at xhc_read_runtime_reg xhc_write_runtime_reg xhc_sync_event_ring event_steps
    xhc_check_new_event usb_hc_get_pci_addr_for_host_addr usb_hc_get_host_addr_for_pci_addr
    pci_addr_in host_addr_in create_transfer_ring sync_steps pass_link xhc_sync_trs_ring write_trb
bulk_end-returns = refl

bulk_end-success : (bulk_end.0.status ≡ success) × (bulk_end.0.data_length ≡ 500)
unfolding xhc_create_urb xhc_free_urb abort_slow recover_halted run_urb xhc_transfer start_transfer
    is_valid_bulk xhc_bulk_transfer_to write_and_sync xhc_create_transfer_trb map_data
    transfer_blocks normal_steps normal_trb xhc_exec_transfer exec_on ring_and_poll poll_steps
    conclude xhc_ring_door_bell xhc_write_door_bell_reg xhc_bus_dev_addr_to_slot_id slot_steps
    xhc_endpoint_to_dci xhc_check_urb_result update_urbs take_events check_steps handle_event
    checked_urb is_pending_trb is_transfer_ring_trb ring_steps urb_event block_done
    advance_event_ring is_stopped xhc_is_halt xhc_is_sys_error xhc_reg_bit_is_set xhc_read_op_reg
    read_at xhc_read_runtime_reg xhc_write_runtime_reg xhc_sync_event_ring event_steps
    xhc_check_new_event usb_hc_get_pci_addr_for_host_addr usb_hc_get_host_addr_for_pci_addr
    pci_addr_in host_addr_in create_transfer_ring sync_steps pass_link xhc_sync_trs_ring write_trb
bulk_end-success = (refl, refl)

xhc_bulk_transfer-success_example : bulk_end.0.transfer_result ≡ usb_noerror
xhc_bulk_transfer-success_example =
    xhc_bulk_transfer-success (some_env 0) some_pci 9 2 512 0 1 bulk host 3 bulk_end.0 bulk_end.1
      bulk_end.2 ticking-TimerStatuses (inl bulk_end-returns) bulk_end-success.0
