-- ===== src/Xhci/Commands.antt =====
-- MdeModulePkg/Bus/Pci/XhciDxe/XhciSched.c: XhcCmdTransfer, and the commands with which the driver
-- takes a request that has failed or was too slow from its endpoint. The allocation of a URB and
-- FreePool are parameters; assertions and DEBUG are not modelled. `none` is what it is for
-- XhcExecTransfer, or an access past the command ring.
pub mod Pending
pub mod Statuses
pub mod Dequeued
use edk2_adlink_ampere_altra.Base.{
  ℕ, zero, suc, ◌+◌, ◌-◌, ◌*◌, ◌/◌, ◌%◌, ◌^◌, Bool, true, false, ◌&&◌, Option, none, some, List,
  ◌==◌, leb, ltb, if◌then◌else◌, get_or, length, bit_or, Status, success, device_error,
  out_of_resources, other, is_error,
}
use edk2_adlink_ampere_altra.Xhci.Trb.{Trb, zero_trb}
use edk2_adlink_ampere_altra.Xhci.Ring.{TransferRing, xhc_create_cmd_trb}
use edk2_adlink_ampere_altra.Xhci.Regs.{Bus, Xhc}
use edk2_adlink_ampere_altra.Xhci.Devices.{
  Direction, DevContext, xhc_endpoint_to_dci, xhc_bus_dev_addr_to_slot_id,
}
use edk2_adlink_ampere_altra.Xhci.Pool.{MemPool}
use edk2_adlink_ampere_altra.Xhci.MemPool.{usb_hc_get_pci_addr_for_host_addr}
use edk2_adlink_ampere_altra.Xhci.Ports.{generic_timeout}
use edk2_adlink_ampere_altra.Xhci.Transfer.{usb_noerror}
use edk2_adlink_ampere_altra.Xhci.Urbs.{UrbState, Polling, with_urb, trb_size, is_stopped}
use edk2_adlink_ampere_altra.Xhci.Exec.{
  Endpoint, with_result, xhc_exec_transfer, xhc_ring_door_bell,
}

-- EFI_ALREADY_STARTED
abbrev pub already_started : Status
already_started = other (2 ^ 63 + 20)

-- `RecoveryStatus == EFI_ALREADY_STARTED`
abbrev pub is_already_started : Status → Bool
is_already_started (other n) = n == 2 ^ 63 + 20
is_already_started _ = false

-- What USB_XHCI_INSTANCE keeps besides: CmdRing and its address.
pub record Commander : Type 0 where
  pub polling : Polling
  pub cmd_ring : TransferRing
  pub cmd_ring_seg0 : ℕ

-- The blocks at the addresses of the host, those of the command ring among them.
abbrev pub with_cmd_ring : (ℕ → Trb) → ℕ → TransferRing → ℕ → Trb
with_cmd_ring mem seg0 r at =
    if leb seg0 at && (ltb at (seg0 + length r.trbs * trb_size) && (at - seg0) % trb_size == 0)
    then get_or r.trbs ((at - seg0) / trb_size) zero_trb
    else mem at

-- The URB of XhcCreateCmdTrb, with the address of its block, and its endpoint.
abbrev pub cmd_urb : ℕ → UrbState
cmd_urb trb = record {
  trb_start = trb;
  trb_end = trb;
  trb_num = 1;
  result = usb_noerror;
  completed = 0;
  start_done = false;
  end_done = false;
  finished = false;
  evt_trb = none;
}

abbrev pub cmd_endpoint : Endpoint
cmd_endpoint = record { bus_addr = 0; ep_addr = 0; direction = Direction.data_in; type = 0 }

-- The commands, with the device context index and the slot: EDID or Endpoint has 5 bits, SlotId 8.
abbrev pub endpoint_and_slot : ℕ → ℕ → ℕ
endpoint_and_slot dci slot_id = dci % 2 ^ 5 + slot_id % 2 ^ 8 * 2 ^ 8

abbrev pub stop_endpoint_trb : ℕ → ℕ → Trb
stop_endpoint_trb slot_id dci = record zero_trb {
  cycle_bit = 1;
  type = 15;
  control = endpoint_and_slot dci slot_id;
}

abbrev pub reset_endpoint_trb : ℕ → ℕ → Trb
reset_endpoint_trb slot_id dci = record zero_trb {
  cycle_bit = 1;
  type = 14;
  control = endpoint_and_slot dci slot_id;
}

abbrev pub set_tr_dequeue_trb : ℕ → ℕ → ℕ → ℕ → Trb
set_tr_dequeue_trb phy_addr pcs slot_id dci = record zero_trb {
  parameter1 = bit_or (phy_addr % 2 ^ 32) pcs;
  parameter2 = phy_addr / 2 ^ 32;
  cycle_bit = 1;
  type = 16;
  control = endpoint_and_slot dci slot_id;
}

-- What the commands need: the registers and the timer, the pool, the memory of the blocks and of the
-- event ring, AllocateZeroPool for a URB and FreePool, the devices, and the fuel of a wait.
pub record Env (W : Type 0) : Type 0 where
  pub bus : Bus W
  pub xhc : Xhc
  pub pool : MemPool
  pub mem : ℕ → Trb
  pub events_in : W → List Trb
  pub allocate_urb : W → ℕ × W
  pub free_pool : ℕ → W → W
  pub contexts : ℕ → DevContext
  pub fuel : ℕ

module _ {W : Type 0} (env : Env W) where
  open env use {bus, xhc, pool, mem, events_in, allocate_urb, free_pool, contexts, fuel}

  -- From the XhcExecTransfer of XhcCmdTransfer on, for the URB at `urb` and the block at `place`.
  unfoldable pub exec_cmd : ℕ → ℕ → ℕ → Commander → W → Option (Status × Commander × W)
  exec_cmd urb place timeout c w =
      let created = cmd_urb (c.cmd_ring_seg0 + place * trb_size) in
      elim (xhc_exec_transfer bus xhc pool (with_cmd_ring mem c.cmd_ring_seg0 c.cmd_ring) events_in
        fuel 0 contexts true cmd_endpoint urb timeout
        (record c.polling { urbs = with_urb c.polling.urbs urb created }) w) [
          | none ↦ none
          | some (status, s, w') ↦ some (
            if (s.urbs urb).result == usb_noerror then success else status,
            record c { polling = s },
            free_pool urb w',
          )
        ]

  -- XhcCmdTransfer, with a timeout that is not 0. The events that it stores through EvtTrb are not
  -- used by the functions below.
  unfoldable pub xhc_cmd_transfer : Trb → ℕ → Commander → W → Option (Status × Commander × W)
  xhc_cmd_transfer cmd_trb timeout c w =
      let (stopped, w₁) = is_stopped pool mem bus xhc events_in w in
      let (urb, w₂) = allocate_urb w₁ in
      elim stopped [
        | true ↦ some (device_error, c, w₁)
        | false ↦ elim (urb == 0) [
          | true ↦ some (out_of_resources, c, w₂)
          | false ↦ elim (xhc_create_cmd_trb c.cmd_ring cmd_trb) [
            | none ↦ none
            | some (r, place) ↦ exec_cmd urb place timeout (record c { cmd_ring = r }) w₂
          ]
        ]
      ]

  -- The pending request, and its result before XhcStopEndpoint sends its command.
  abbrev pub with_pending : Commander → ℕ → Commander
  with_pending c urb = record c {
    polling = record (with_result c.polling urb usb_noerror) { pending_urb = some urb };
  }

  abbrev pub without_pending : Commander → Commander
  without_pending c = record c { polling = record c.polling { pending_urb = none } }

  -- XhcStopEndpoint for a request.
  unfoldable pub xhc_stop_endpoint : ℕ → ℕ → ℕ → Commander → W → Option (Status × Commander × W)
  xhc_stop_endpoint slot_id dci urb c w =
      elim (xhc_cmd_transfer (stop_endpoint_trb slot_id dci) generic_timeout (with_pending c urb)
        w) [ none ↦ none | some (status, c', w') ↦ some (status, without_pending c', w') ]

  -- XhcResetEndpoint
  unfoldable pub xhc_reset_endpoint : ℕ → ℕ → Commander → W → Option (Status × Commander × W)
  xhc_reset_endpoint slot_id dci c w =
      xhc_cmd_transfer (reset_endpoint_trb slot_id dci) generic_timeout c w

  -- XhcSetTrDequeuePointer, for the ring of the request and its address.
  unfoldable pub xhc_set_tr_dequeue_pointer :
      ℕ → ℕ → TransferRing → ℕ → Commander → W → Option (Status × Commander × W)
  xhc_set_tr_dequeue_pointer slot_id dci r seg0 c w =
      elim (usb_hc_get_pci_addr_for_host_addr pool (seg0 + r.ring_enqueue * trb_size) trb_size) [
        | none ↦ none
        | some phy_addr ↦
            xhc_cmd_transfer (set_tr_dequeue_trb phy_addr r.ring_pcs slot_id dci) generic_timeout c
              w
      ]

  -- The door bell is rung where the calls before it have not failed.
  unfoldable pub then_ring :
      ℕ → ℕ → Option (Status × Commander × W) → Option (Status × Commander × W)
  then_ring slot_id dci none = none
  then_ring slot_id dci (some (status, c, w)) =
      some (status, c, if is_error status then w else xhc_ring_door_bell bus xhc slot_id dci w)

  -- XhcRecoverHaltedEndpoint
  unfoldable pub xhc_recover_halted_endpoint :
      Endpoint → TransferRing → ℕ → Commander → W → Option (Status × Commander × W)
  xhc_recover_halted_endpoint ep r seg0 c w =
      let slot_id = xhc_bus_dev_addr_to_slot_id contexts ep.bus_addr in
      let dci = xhc_endpoint_to_dci ep.ep_addr ep.direction in
      elim (slot_id == 0) [
        | true ↦ some (device_error, c, w)
        | false ↦ elim (xhc_reset_endpoint slot_id dci c w) [
          | none ↦ none
          | some (status, c', w') ↦ elim (is_error status) [
            | true ↦ some (status, c', w')
            | false ↦ then_ring slot_id dci (xhc_set_tr_dequeue_pointer slot_id dci r seg0 c' w')
          ]
        ]
      ]

  -- The request is finished, and has no error.
  abbrev pub has_succeeded : Commander → ℕ → Bool
  has_succeeded c urb = (c.polling.urbs urb).finished && (c.polling.urbs urb).result == usb_noerror

  -- XhcDequeueTrbFromEndpoint
  unfoldable pub xhc_dequeue_trb_from_endpoint :
      Endpoint → ℕ → TransferRing → ℕ → Commander → W → Option (Status × Commander × W)
  xhc_dequeue_trb_from_endpoint ep urb r seg0 c w =
      let slot_id = xhc_bus_dev_addr_to_slot_id contexts ep.bus_addr in
      let dci = xhc_endpoint_to_dci ep.ep_addr ep.direction in
      elim (slot_id == 0) [
        | true ↦ some (device_error, c, w)
        | false ↦ elim (xhc_stop_endpoint slot_id dci urb c w) [
          | none ↦ none
          | some (status, c', w') ↦ elim (is_error status) [
            | true ↦ some (status, c', w')
            | false ↦ elim (has_succeeded c' urb) [
              | true ↦ some (already_started, c', xhc_ring_door_bell bus xhc slot_id dci w')
              | false ↦ then_ring slot_id dci (xhc_set_tr_dequeue_pointer slot_id dci r seg0 c' w')
            ]
          ]
        ]
      ]
