-- ===== src/Xhci/Requests.antt =====
-- MdeModulePkg/Bus/Pci/XhciDxe/Xhci.c: the bulk and the interrupt transfers of the USB2 host controller
-- protocol, and XhcTransfer, which they and the control transfers use; from XhciSched.c, XhcCreateUrb
-- and XhcFreeUrb. A pointer that is NULL is `none` or the number 0. RaiseTPL, RestoreTPL, assertions
-- and DEBUG are not modelled; what `none` is for XhcExecTransfer and for the commands, it is here.
pub mod Results
use edk2_adlink_ampere_altra.Base.{
  ℕ, zero, suc, ◌+◌, ◌*◌, ◌%◌, ◌^◌, Bool, true, false, not, ◌&&◌, ◌||◌, Option, none, some, ◌==◌,
  ltb, if◌then◌else◌, bit_and, Status, success, invalid_parameter, device_error, timed_out,
  out_of_resources, unsupported, other, is_error,
}
use edk2_adlink_ampere_altra.Xhci.Trb.{Trb}
use edk2_adlink_ampere_altra.Xhci.Ring.{TransferRing}
use edk2_adlink_ampere_altra.Xhci.Devices.{Direction, xhc_bus_dev_addr_to_slot_id}
use edk2_adlink_ampere_altra.Xhci.Transfer.{
  Urb, DeviceRequest, Sched, usb_noerror, xhc_create_transfer_trb,
}
use edk2_adlink_ampere_altra.Xhci.Urbs.{
  UrbState, Polling, with_urb, trb_size, is_stopped, usb_err_stall, usb_err_babble, usb_err_system,
}
use edk2_adlink_ampere_altra.Xhci.Exec.{Endpoint, xhc_bulk_transfer, xhc_exec_transfer}
use edk2_adlink_ampere_altra.Xhci.Commands.{
  Commander, Env, is_already_started, with_cmd_ring, xhc_dequeue_trb_from_endpoint,
  xhc_recover_halted_endpoint,
}

-- XHC_INT_TRANSFER_SYNC, and the speeds EFI_USB_SPEED_FULL, _LOW, _HIGH and _SUPER
abbrev pub xhc_int_transfer_sync : ℕ
xhc_int_transfer_sync = 4

abbrev pub speed_full : ℕ
speed_full = 0

abbrev pub speed_low : ℕ
speed_low = 1

abbrev pub speed_high : ℕ
speed_high = 2

abbrev pub speed_super : ℕ
speed_super = 3

-- `Status == EFI_TIMEOUT`
abbrev pub is_timed_out : Status → Bool
is_timed_out timed_out = true
is_timed_out _ = false

-- The rings of the endpoints with their addresses, by slot and device context index.
pub record Host : Type 0 where
  pub commander : Commander
  pub sched : Sched
  pub ring_seg0 : ℕ → ℕ → ℕ

-- What the caller of XhcTransfer asks for.
pub record Asked : Type 0 where
  pub device_address : ℕ
  pub end_point_address : ℕ
  pub type : ℕ
  pub request : DeviceRequest
  pub data_ptr : ℕ
  pub data_length : ℕ
  pub timeout : ℕ

-- What a transfer returns: its status, TransferResult and DataLength.
pub record Answer : Type 0 where
  pub status : Status
  pub transfer_result : ℕ
  pub data_length : ℕ

-- A URB whose blocks are in a ring, and its endpoint.
pub record Created : Type 0 where
  pub urb : ℕ
  pub endpoint : Endpoint
  pub ring : TransferRing
  pub seg0 : ℕ
  pub data_map : ℕ

-- The direction and the number of an endpoint, from its address.
abbrev pub direction_of : ℕ → Direction
direction_of ep_addr = if bit_and ep_addr 0x80 == 0 then Direction.data_out else Direction.data_in

-- The URB of XhcCreateUrb before XhcCreateTransferTrb.
abbrev pub asked_urb : Asked → Urb
asked_urb a = record {
  bus_addr = a.device_address;
  ep_addr = a.end_point_address % 16;
  direction = direction_of a.end_point_address;
  request = a.request;
  data_ptr = a.data_ptr;
  data_len = a.data_length;
  data_phy = 0;
  data_map = 0;
  result = 0;
  completed = 0;
  ring = (0, 0);
  trb_start = 0;
  trb_end = 0;
  trb_num = 0;
  start_done = false;
  end_done = false;
  finished = false;
}

-- The URB as XhcCheckUrbResult sees it, in the ring at an address.
abbrev pub placed : ℕ → Urb → UrbState
placed seg0 u = record {
  trb_start = seg0 + u.trb_start * trb_size;
  trb_end = seg0 + u.trb_end * trb_size;
  trb_num = u.trb_num;
  result = u.result;
  completed = u.completed;
  start_done = u.start_done;
  end_done = u.end_done;
  finished = u.finished;
  evt_trb = none;
}

-- PciIo's Map, Unmap and Flush.
pub record Pci (W : Type 0) : Type 0 where
  pub map : Bool → ℕ → ℕ → W → Status × ℕ × ℕ × ℕ × W
  pub unmap : ℕ → W → W
  pub flush : W → W

module _ {W : Type 0} (env : Env W) (pci : Pci W) where
  -- The URB is put at its address, and the blocks of its ring are there to be read.
  abbrev pub insert_urb : ℕ → ℕ → Urb → Sched → Host → Created × Host
  insert_urb type urb u sched h =
      let (slot_id, dci) = u.ring in
      let seg0 = h.ring_seg0 slot_id dci in
      let p = h.commander.polling in
      (
        record {
          urb = urb;
          endpoint = record {
            bus_addr = u.bus_addr;
            ep_addr = u.ep_addr;
            direction = u.direction;
            type = type;
          };
          ring = sched.rings slot_id dci;
          seg0 = seg0;
          data_map = u.data_map;
        },
        record h {
          sched = sched;
          commander = record h.commander {
            polling = record p { urbs = with_urb p.urbs urb (placed seg0 u) };
          };
        },
      )

  -- XhcCreateUrb: `none` in the second place stands for NULL.
  unfoldable pub xhc_create_urb : Asked → Host → W → Option (Option Created × Host × W)
  xhc_create_urb a h w =
      let (urb, w₁) = env.allocate_urb w in
      elim (urb == 0) [
        | true ↦ some (none, h, w₁)
        | false ↦ elim (xhc_create_transfer_trb pci.map h.sched (asked_urb a) w₁) [
          | none ↦ none
          | some (status, sched, u, w₂) ↦ elim (is_error status) [
            | true ↦ some (none, record h { sched = sched }, env.free_pool urb w₂)
            | false ↦
                let (created, h') = insert_urb a.type urb u sched h in some (some created, h', w₂)
          ]
        ]
      ]

  -- XhcFreeUrb
  unfoldable pub xhc_free_urb : Created → W → W
  xhc_free_urb created w =
      env.free_pool created.urb (if created.data_map == 0 then w else pci.unmap created.data_map w)

  -- The memory of the blocks, with those of the ring of the request.
  abbrev pub env_of : Created → Env W
  env_of created = record env { mem = with_cmd_ring env.mem created.seg0 created.ring }

  -- The branch of XhcTransfer for a transfer that timed out.
  unfoldable pub abort_slow : Created → Status → Commander → W → Option (Status × Commander × W)
  abort_slow created status c w = elim (is_timed_out status) [
    | false ↦ some (status, c, w)
    | true ↦
        elim (xhc_dequeue_trb_from_endpoint (env_of created) created.endpoint created.urb
          created.ring created.seg0 c w) [
            | none ↦ none
            | some (recovery, c', w') ↦
                some (if is_already_started recovery then success else status, c', w')
          ]
  ]

  -- The branch for a stall or a babble; what XhcRecoverHaltedEndpoint returns is not looked at.
  unfoldable pub recover_halted : Created → ℕ → Commander → W → Option (Commander × W)
  recover_halted created result c w = elim (result == usb_err_stall || result == usb_err_babble) [
    | false ↦ some (c, w)
    | true ↦
        elim (xhc_recover_halted_endpoint (env_of created) created.endpoint created.ring
          created.seg0 c w) [ none ↦ none | some (recovery, c', w') ↦ some (c', w') ]
  ]

  -- XhcTransfer from XhcExecTransfer on: `count` is as for XhcExecTransfer.
  unfoldable pub run_urb : ℕ → ℕ → Created → Host → W → Option (Answer × Host × W)
  run_urb count timeout created h w =
      elim (xhc_exec_transfer env.bus env.xhc env.pool (env_of created).mem env.events_in env.fuel
        count env.contexts false created.endpoint created.urb timeout h.commander.polling w) [
          | none ↦ none
          | some (status, polling, w₁) ↦
              elim (abort_slow created status (record h.commander { polling = polling }) w₁) [
                | none ↦ none
                | some (status', c, w₂) ↦
                    let u = c.polling.urbs created.urb in
                    elim (recover_halted created u.result c w₂) [
                      | none ↦ none
                      | some (c', w₃) ↦ some (
                        record {
                          status = status';
                          transfer_result = u.result;
                          data_length = u.completed;
                        },
                        record h { commander = c' },
                        xhc_free_urb created (pci.flush w₃),
                      )
                    ]
              ]
        ]

  -- XhcTransfer: `result` is what TransferResult held before.
  unfoldable pub xhc_transfer : ℕ → ℕ → Asked → Host → W → Option (Answer × Host × W)
  xhc_transfer count result a h w = elim (xhc_create_urb a h w) [
    | none ↦ none
    | some (none, h', w') ↦ some (
      record { status = out_of_resources; transfer_result = result; data_length = a.data_length },
      h',
      w',
    )
    | some (some created, h', w') ↦ run_urb count a.timeout created h' w'
  ]

  -- What XhcBulkTransfer and XhcSyncInterruptTransfer do once their parameters are valid.
  unfoldable pub start_transfer : ℕ → Asked → Host → W → Option (Answer × Host × W)
  start_transfer count a h w =
      let (stopped, w') = is_stopped env.pool env.mem env.bus env.xhc env.events_in w in
      let refused : Answer = record {
        status = device_error;
        transfer_result = usb_err_system;
        data_length = a.data_length;
      } in
      elim (stopped || xhc_bus_dev_addr_to_slot_id env.contexts a.device_address == 0) [
        | true ↦ some (refused, h, w')
        | false ↦ xhc_transfer count usb_err_system a h w'
      ]

  -- The tests of XhcBulkTransfer, with the speed, the packet size and the toggle; no pointer but that
  -- to the data is NULL.
  unfoldable pub is_valid_bulk : ℕ → ℕ → ℕ → Asked → Bool
  is_valid_bulk device_speed maximum_packet_length data_toggle a =
      not (a.data_length == 0 || a.data_ptr == 0)
      && (not (not (data_toggle == 0) && not (data_toggle == 1))
          && not (
              device_speed == speed_low
              || ((device_speed == speed_full && ltb 64 maximum_packet_length)
                  || ((speed_high == device_speed && ltb 512 maximum_packet_length)
                      || (speed_super == device_speed && ltb 1024 maximum_packet_length)))))

  -- XhcBulkTransfer; the answer where the parameters are not valid keeps what was there.
  unfoldable pub xhc_bulk_transfer_to :
      ℕ → ℕ → ℕ → ℕ → ℕ → Asked → Host → W → Option (Answer × Host × W)
  unfolding is_valid_bulk
  xhc_bulk_transfer_to count device_speed maximum_packet_length data_toggle result a h w =
      elim (is_valid_bulk device_speed maximum_packet_length data_toggle a) [
        | false ↦ some (
          record {
            status = invalid_parameter;
            transfer_result = result;
            data_length = a.data_length;
          },
          h,
          w,
        )
        | true ↦ start_transfer count (record a { type = xhc_bulk_transfer }) h w
      ]

  -- The tests of XhcSyncInterruptTransfer.
  unfoldable pub is_valid_interrupt : ℕ → ℕ → ℕ → Asked → Bool
  is_valid_interrupt device_speed maximum_packet_length data_toggle a =
      not (a.data_length == 0 || a.data_ptr == 0)
      && (not (not (data_toggle == 1) && not (data_toggle == 0))
          && not (
              (device_speed == speed_low && not (maximum_packet_length == 8))
              || ((device_speed == speed_full && ltb 64 maximum_packet_length)
                  || (device_speed == speed_high && ltb 3072 maximum_packet_length))))

  -- XhcSyncInterruptTransfer
  unfoldable pub xhc_sync_interrupt_transfer :
      ℕ → ℕ → ℕ → ℕ → ℕ → Asked → Host → W → Option (Answer × Host × W)
  unfolding is_valid_interrupt
  xhc_sync_interrupt_transfer count device_speed maximum_packet_length data_toggle result a h w =
      elim (is_valid_interrupt device_speed maximum_packet_length data_toggle a) [
        | false ↦ some (
          record {
            status = invalid_parameter;
            transfer_result = result;
            data_length = a.data_length;
          },
          h,
          w,
        )
        | true ↦ start_transfer count (record a { type = xhc_int_transfer_sync }) h w
      ]
