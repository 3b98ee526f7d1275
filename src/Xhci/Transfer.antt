-- ===== src/Xhci/Transfer.antt =====
-- MdeModulePkg/Bus/Pci/XhciDxe/XhciSched.c: XhcCreateTransferTrb, which turns a request into blocks on
-- the ring of its endpoint. PciIo's Map is a parameter. The fields of a block that the code does not
-- set are zero: XhcSyncTrsRing has cleared the block at the enqueue pointer.
pub mod Chunks
pub mod Sent
pub mod Submitted
use edk2_adlink_ampere_altra.Base.{
  ℕ, zero, suc, ◌+◌, ◌-◌, ◌*◌, ◌/◌, ◌%◌, ◌^◌, Bool, true, false, not, ◌&&◌, ◌||◌, Option, none,
  some, ◌==◌, leb, ltb, if◌then◌else◌, Status, success, device_error, out_of_resources, is_error,
}
use edk2_adlink_ampere_altra.Xhci.Trb.{Trb, zero_trb}
use edk2_adlink_ampere_altra.Xhci.Ring.{TransferRing, xhc_sync_trs_ring, write_trb, write_and_sync}
use edk2_adlink_ampere_altra.Xhci.Devices.{
  Direction, DevContext, is_in, xhc_endpoint_to_dci, xhc_bus_dev_addr_to_slot_id,
}

-- EFI_USB_DEVICE_REQUEST
pub record DeviceRequest : Type 0 where
  pub request_type : ℕ
  pub request : ℕ
  pub value : ℕ
  pub index : ℕ
  pub length : ℕ

-- The fields of URB that XhcCreateTransferTrb uses, those of its endpoint among them. `data_ptr` and
-- `data_map` are 0 for NULL; the ring is named by slot and device context index, and `trb_start` and
-- `trb_end` are places in it.
pub record Urb : Type 0 where
  pub bus_addr : ℕ
  pub ep_addr : ℕ
  pub direction : Direction
  pub request : DeviceRequest
  pub data_ptr : ℕ
  pub data_len : ℕ
  pub data_phy : ℕ
  pub data_map : ℕ
  pub result : ℕ
  pub completed : ℕ
  pub ring : ℕ × ℕ
  pub trb_start : ℕ
  pub trb_end : ℕ
  pub trb_num : ℕ
  pub start_done : Bool
  pub end_done : Bool
  pub finished : Bool

-- EFI_USB_NOERROR
abbrev pub usb_noerror : ℕ
usb_noerror = 0

-- The contexts of the devices, the rings of their endpoints, and the endpoint types in the output
-- contexts, in the layout that the Csz bit of the controller says; the last three by slot and device
-- context index.
pub record Sched : Type 0 where
  pub contexts : ℕ → DevContext
  pub rings : ℕ → ℕ → TransferRing
  pub csz : ℕ
  pub ep_type : ℕ → ℕ → ℕ
  pub ep_type_64 : ℕ → ℕ → ℕ

-- The block of `TrbCtrSetup`, without its cycle bit: IOC and IDT are bits 4 and 5 of `rsvd_z1`. TRT
-- is not set where there is data and no direction, which the code asserts not to be.
unfoldable pub setup_trb : Urb → Trb
setup_trb urb = record zero_trb {
  parameter1 = urb.request.request_type + urb.request.request * 2 ^ 8 + urb.request.value * 2 ^ 16;
  parameter2 = urb.request.index + urb.request.length * 2 ^ 16;
  status = 8;
  rsvd_z1 = 2 ^ 4 + 2 ^ 5;
  type = 2;
  control = if urb.data_len == 0 then 0 else elim urb.direction [
    | Direction.data_in ↦ 3
    | Direction.data_out ↦ 2
    | Direction.no_data ↦ 0
  ];
}

-- The block of `TrbCtrData`: ISP and IOC are bits 1 and 4 of `rsvd_z1`; Length has 17 bits.
unfoldable pub data_trb : Urb → Trb
data_trb urb = record zero_trb {
  parameter1 = urb.data_phy % 2 ^ 32;
  parameter2 = urb.data_phy / 2 ^ 32 % 2 ^ 32;
  status = urb.data_len % 2 ^ 17;
  rsvd_z1 = 2 ^ 1 + 2 ^ 4;
  type = 3;
  control = if is_in urb.direction then 1 else 0;
}

-- The block of `TrbCtrStatus`
unfoldable pub status_trb : Urb → Trb
status_trb urb = record zero_trb {
  rsvd_z1 = 2 ^ 4;
  type = 4;
  control = elim urb.direction [
    | Direction.data_in ↦ 0
    | Direction.data_out ↦ 1
    | Direction.no_data ↦ 0
  ];
}

-- The block of `TrbNormal` for `len` bytes of the data, from `total_len` on.
unfoldable pub normal_trb : ℕ → ℕ → ℕ → Trb
normal_trb data_phy total_len len = record zero_trb {
  parameter1 = (data_phy + total_len) % 2 ^ 32;
  parameter2 = (data_phy + total_len) / 2 ^ 32 % 2 ^ 32;
  status = len % 2 ^ 17;
  rsvd_z1 = 2 ^ 1 + 2 ^ 4;
  type = 1;
}

-- How many bytes the next block takes.
abbrev pub chunk_len : ℕ → ℕ → ℕ
chunk_len data_len total_len =
    if leb data_len (total_len + 0x10000) then data_len - total_len else 0x10000

-- The loop of the bulk and the interrupt transfers, with the rounds that are left: each takes at
-- least a byte, so that DataLen of them are enough. It ends with the ring, the number of blocks and
-- the place of the last one.
unfoldable pub normal_steps : ℕ → ℕ → ℕ → TransferRing → ℕ → ℕ → ℕ → Option (TransferRing × ℕ × ℕ)
unfolding normal_trb
normal_steps zero data_phy data_len r total_len trb_num trb_start = some (r, trb_num, trb_start)
normal_steps (suc rounds) data_phy data_len r total_len trb_num trb_start =
    let len = chunk_len data_len total_len in
    if ltb total_len data_len
    then elim (write_and_sync r (normal_trb data_phy total_len len)) [
      | none ↦ none
      | some r' ↦
          normal_steps rounds data_phy data_len r' (total_len + len) (suc trb_num) r.ring_enqueue
    ]
    else some (r, trb_num, trb_start)

-- The branch of the control transfers, after the first XhcSyncTrsRing: the ring, and the place of
-- the block of the status stage.
unfoldable pub control_blocks : Urb → TransferRing → Option (TransferRing × ℕ)
unfolding setup_trb data_trb status_trb
control_blocks urb r = elim (write_and_sync r (setup_trb urb)) [
  | none ↦ none
  | some r₁ ↦ elim (if urb.data_len == 0 then some r₁ else write_and_sync r₁ (data_trb urb)) [
    | none ↦ none
    | some r₂ ↦ elim (write_and_sync r₂ (status_trb urb)) [
      | none ↦ none
      | some r₃ ↦ some (r₃, r₂.ring_enqueue)
    ]
  ]
]

-- The switch over the type of the endpoint, from the request and the synchronized ring.
unfoldable pub transfer_blocks : ℕ → Urb → TransferRing → Option (TransferRing × Urb)
unfolding control_blocks normal_steps
transfer_blocks ep_type urb r =
    if ep_type == 4
    then elim (control_blocks urb r) [
      | none ↦ none
      | some (r', last) ↦ some (
        r',
        record urb { trb_num = urb.trb_num + (if urb.data_len == 0 then 2 else 3); trb_end = last },
      )
    ]
    else if (ep_type == 2 || ep_type == 6) || (ep_type == 3 || ep_type == 7)
    then elim (normal_steps urb.data_len urb.data_phy urb.data_len r 0 0 r.ring_enqueue) [
      | none ↦ none
      | some (r', trb_num, last) ↦ some (r', record urb { trb_num = trb_num; trb_end = last })
    ]
    else some (r, urb)

-- The ring of one endpoint is another.
abbrev pub with_ring : (ℕ → ℕ → TransferRing) → ℕ → ℕ → TransferRing → ℕ → ℕ → TransferRing
with_ring rings slot dci r slot' dci' = if slot' == slot && dci' == dci then r else rings slot' dci'

module _ {W : Type 0} (map : Bool → ℕ → ℕ → W → Status × ℕ × ℕ × ℕ × W) where
  -- The mapping of the data, unless it is mapped: the status, the request and the world. `map` takes
  -- whether the controller writes the data, the data and its length, and gives the length, the
  -- address and the mapping.
  unfoldable pub map_data : Urb → W → Bool × Urb × W
  map_data urb w =
      let (status, len, phy_addr, mapping, w') =
        map (is_in urb.direction) urb.data_ptr urb.data_len w in
      if urb.data_ptr == 0 || not (urb.data_map == 0)
      then (true, urb, w)
      else if is_error status || not (len == urb.data_len)
      then (false, urb, w')
      else (true, record urb { data_phy = phy_addr; data_map = mapping }, w')

  -- XhcCreateTransferTrb. `none` is an access past the ring.
  unfoldable pub xhc_create_transfer_trb : Sched → Urb → W → Option (Status × Sched × Urb × W)
  unfolding map_data transfer_blocks
  xhc_create_transfer_trb sched urb w =
      let slot = xhc_bus_dev_addr_to_slot_id sched.contexts urb.bus_addr in
      let dci = xhc_endpoint_to_dci urb.ep_addr urb.direction in
      let ep_type = if sched.csz == 0 then sched.ep_type slot dci else sched.ep_type_64 slot dci in
      let (mapped, urb', w') =
        map_data
          (record urb {
            finished = false;
            start_done = false;
            end_done = false;
            completed = 0;
            result = usb_noerror;
            ring = (slot, dci);
          })
          w in
      if slot == 0 then some (device_error, sched, urb, w) else elim mapped [
        | false ↦ some (out_of_resources, sched, urb', w')
        | true ↦ elim (xhc_sync_trs_ring (sched.rings slot dci)) [
          | none ↦ none
          | some r ↦ elim (transfer_blocks ep_type (record urb' { trb_start = r.ring_enqueue }) r) [
            | none ↦ none
            | some (r', urb'') ↦
                some
                  (success, record sched { rings = with_ring sched.rings slot dci r' }, urb'', w')
          ]
        ]
      ]
