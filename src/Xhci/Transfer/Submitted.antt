-- ===== src/Xhci/Transfer/Submitted.antt =====
-- XhcCreateTransferTrb as a whole, from the lookup of the slot to the blocks on the ring.
use edk2_adlink_ampere_altra.Base.{
  ℕ, ◌+◌, ◌^◌, ◌≤◌, ◌≡◌, ◌≢◌, ap, ◌∙◌, Bool, true, false, Option, some, List, ◌==◌, if◌then◌else◌,
  length, arith, ◌⊎◌, inl, inr, Status, success, ==_false,
}
use edk2_adlink_ampere_altra.Xhci.Trb.{Trb}
use edk2_adlink_ampere_altra.Xhci.Ring.{TransferRing, xhc_sync_trs_ring}
use edk2_adlink_ampere_altra.Xhci.Ring.Delivery.{System, Reach, next, sync, start}
use edk2_adlink_ampere_altra.Xhci.Ring.Delivery.Order.{create_transfer_ring-xhc_sync_trs_ring}
use edk2_adlink_ampere_altra.Xhci.Devices.{is_in, xhc_endpoint_to_dci, xhc_bus_dev_addr_to_slot_id}
use edk2_adlink_ampere_altra.Xhci.Transfer.{
  Urb, Sched, setup_trb, status_trb, data_trb, usb_noerror, with_ring, map_data, transfer_blocks,
  xhc_create_transfer_trb,
}
use edk2_adlink_ampere_altra.Xhci.Transfer.Sent.{
  After, Asked, control, normal, Blocks, is_normal, asked_for, control-Blocks, normal-Blocks,
}

-- Where the request goes.
abbrev pub slot_of : Sched → Urb → ℕ
slot_of sched urb = xhc_bus_dev_addr_to_slot_id sched.contexts urb.bus_addr

abbrev pub dci_of : Urb → ℕ
dci_of urb = xhc_endpoint_to_dci urb.ep_addr urb.direction

abbrev pub ep_type_of : Sched → Urb → ℕ
ep_type_of sched urb =
    if sched.csz == 0
    then sched.ep_type (slot_of sched urb) (dci_of urb)
    else sched.ep_type_64 (slot_of sched urb) (dci_of urb)

-- The request as it is when its blocks are written.
abbrev pub prepared : Sched → Urb → ℕ → ℕ → ℕ → Urb
prepared sched urb data_phy data_map trb_start = record urb {
  finished = false;
  start_done = false;
  end_done = false;
  completed = 0;
  result = usb_noerror;
  ring = (slot_of sched urb, dci_of urb);
  data_phy = data_phy;
  data_map = data_map;
  trb_start = trb_start;
}

abbrev pub reset : Sched → Urb → Urb
reset sched urb = prepared sched urb urb.data_phy urb.data_map urb.trb_start

module _ {W : Type 0} (map : Bool → ℕ → ℕ → W → Status × ℕ × ℕ × ℕ × W) where
  -- The address and the mapping that the data of a request gets: none where there is no data, those
  -- of PciIo's Map where that succeeds for the whole of the data.
  pub data Mapping (urb : Urb) (w : W) : ℕ → ℕ → W → Type 0 where
    no_data : urb.data_ptr ≡ 0 → Mapping urb w urb.data_phy urb.data_map w
    mapped :
        (data_phy data_map : ℕ) (w' : W)
        → urb.data_ptr ≢ 0
        → urb.data_map ≡ 0
        → map (is_in urb.direction) urb.data_ptr urb.data_len w
          ≡ (success, urb.data_len, data_phy, data_map, w')
        → Mapping urb w data_phy data_map w'

  map_data-Mapping :
      {data_phy mapping : ℕ} {w' : W} (sched : Sched) (urb : Urb) (w : W)
      → Mapping urb w data_phy mapping w'
      → map_data map (reset sched urb) w
        ≡ (true, prepared sched urb data_phy mapping urb.trb_start, w')
  unfolding map_data
  map_data-Mapping sched urb w (no_data nothing) = ground (arith, nothing)
  map_data-Mapping sched urb w (mapped data_phy mapping w' something fresh went) =
      ground (arith, something, fresh, went)

  -- XhcCreateTransferTrb has returned EFI_SUCCESS, with these blocks on the ring of the endpoint.
  pub record Submitted (phy_addr room : ℕ) (sched : Sched) (urb : Urb) (s : System) (data_phy : ℕ)
      (w' : W) (out : Option (Status × Sched × Urb × W)) : Type 0 where
    pub ring : TransferRing
    pub request : Urb
    pub trbs : List Trb
    pub returns :
        out
        ≡ some (
          success,
          record sched { rings = with_ring sched.rings (slot_of sched urb) (dci_of urb) ring },
          request,
          w',
        )
    pub after : After phy_addr room s trbs ring
    pub asked : Asked (ep_type_of sched urb) (record urb { data_phy = data_phy }) trbs
    pub counting : request.trb_num ≡ length trbs

  any-Blocks :
      (phy_addr room : ℕ) (urb : Urb) (s : System) (ep_type : ℕ)
      → Reach room (start phy_addr (room + 2)) s
      → urb.trb_num ≡ 0
      → (ep_type ≡ 4) ⊎ (is_normal ep_type ≡ true)
      → urb.data_phy + urb.data_len ≤ 2 ^ 64
      → length s.sent + asked_for ep_type urb ≤ length s.received + room
      → Blocks phy_addr room ep_type urb s (transfer_blocks ep_type urb s.transfers)
  any-Blocks phy_addr room urb s ep_type reached fresh (inl is_control) below space =
      rw is_control (
        control-Blocks phy_addr room urb s reached fresh
          (omega (arith, ap (λ k. asked_for k urb) is_control, space)))
  any-Blocks phy_addr room urb s ep_type reached fresh (inr is) below space =
      normal-Blocks phy_addr room urb s reached fresh ep_type is below space

  prepared-Asked :
      (sched : Sched) (urb : Urb) (ep_type data_phy mapping trb_start : ℕ) (ts : List Trb)
      → Asked ep_type (prepared sched urb data_phy mapping trb_start) ts
      → Asked ep_type (record urb { data_phy = data_phy }) ts
  unfolding setup_trb status_trb data_trb
  prepared-Asked sched urb ep_type data_phy mapping trb_start ts (control is same) = control is same
  prepared-Asked sched urb ep_type data_phy mapping trb_start ts (normal is tiles) = normal is tiles

  goes_through :
      (sched : Sched) (urb request urb' : Urb) (w w' : W) (r r' : TransferRing)
      → (slot_of sched urb == 0) ≡ false
      → map_data map (reset sched urb) w ≡ (true, urb', w')
      → xhc_sync_trs_ring (sched.rings (slot_of sched urb) (dci_of urb)) ≡ some r
      → transfer_blocks (ep_type_of sched urb) (record urb' { trb_start = r.ring_enqueue }) r
        ≡ some (r', request)
      → xhc_create_transfer_trb map sched urb w
        ≡ some (
          success,
          record sched { rings = with_ring sched.rings (slot_of sched urb) (dci_of urb) r' },
          request,
          w',
        )
  unfolding xhc_create_transfer_trb
  goes_through sched urb request urb' w w' r r' found mapped_it synced wrote =
      ground (arith, found, mapped_it, synced, wrote)

  -- For a request whose device has a slot, whose endpoint is a control, bulk or interrupt endpoint
  -- and whose data is mapped, XhcCreateTransferTrb returns EFI_SUCCESS, if the ring has room for the
  -- blocks: on a ring that the controller is reading, it sends the setup, data and status stage, or
  -- normal blocks that cover the data, in order, without a gap and of at most 64 KB each, after all
  -- that was sent before. It changes no other ring and TrbNum is the number of the blocks. The
  -- request is a new one, whose TrbNum is 0, and its data ends below 2^64.
  pub xhc_create_transfer_trb-Submitted :
      (phy_addr room : ℕ) (sched : Sched) (urb : Urb) (s : System) (w : W) (data_phy mapping : ℕ)
      (w' : W)
      → Reach room (start phy_addr (room + 2)) s
      → slot_of sched urb ≢ 0
      → sched.rings (slot_of sched urb) (dci_of urb) ≡ s.transfers
      → (ep_type_of sched urb ≡ 4) ⊎ (is_normal (ep_type_of sched urb) ≡ true)
      → Mapping urb w data_phy mapping w'
      → urb.trb_num ≡ 0
      → data_phy + urb.data_len ≤ 2 ^ 64
      → length s.sent + asked_for (ep_type_of sched urb) urb ≤ length s.received + room
      → Submitted phy_addr room sched urb s data_phy w' (xhc_create_transfer_trb map sched urb w)
  unfolding xhc_create_transfer_trb
  xhc_create_transfer_trb-Submitted phy_addr room sched urb s w data_phy mapping w' reached has_slot
        its_ring ep_type maps fresh below space =
      let (r, synced) = create_transfer_ring-xhc_sync_trs_ring phy_addr room s reached in
      let s₁ : System = record s { transfers = r } in
      let b =
        any-Blocks phy_addr room (prepared sched urb data_phy mapping r.ring_enqueue) s₁
          (ep_type_of sched urb) (next reached (sync s r synced)) fresh ep_type below space in
      let found : (slot_of sched urb == 0) ≡ false = ==_false (slot_of sched urb) 0 has_slot in
      record {
        ring = b.ring;
        request = b.request;
        trbs = b.trbs;
        returns =
            goes_through sched urb b.request (prepared sched urb data_phy mapping urb.trb_start) w
              w' r b.ring found (map_data-Mapping sched urb w maps)
              (ap xhc_sync_trs_ring its_ring ∙ synced) b.returns;
        after = record {
          state = b.after.state;
          reached = b.after.reached;
          ring = b.after.ring;
          sent = b.after.sent;
          received = b.after.received;
        };
        asked =
            prepared-Asked sched urb (ep_type_of sched urb) data_phy mapping r.ring_enqueue b.trbs
              b.asked;
        counting = b.counting;
      }
