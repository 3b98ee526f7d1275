-- ===== src/Xhci/Ring.antt =====
-- MdeModulePkg/Bus/Pci/XhciDxe/XhciSched.c: transfer rings and the command ring, where the driver
-- writes and the controller reads. Pointers into a ring are indices from RingSeg0 on; `none` is an
-- access past the last block. Assertions are not modelled.
pub mod Slots
pub mod Queue
pub mod Delivery
use edk2_adlink_ampere_altra.Base.{
  ℕ, zero, suc, ◌-◌, ◌/◌, ◌%◌, ◌^◌, Bool, true, false, Option, none, some, List, [], ◌∷◌, ◌++◌,
  ◌==◌, if◌then◌else◌, length, get_elem?, get_or, set, replicate,
}
use edk2_adlink_ampere_altra.Xhci.Trb.{Trb, zero_trb, trb_type_link, bit0, toggled, is_link, stamp}

-- TRANSFER_RING; RingDequeue is not used after it is set.
pub record TransferRing : Type 0 where
  pub trbs : List Trb
  pub trb_number : ℕ
  pub ring_enqueue : ℕ
  pub ring_pcs : ℕ

-- The block at the end of a ring, which points to the address of the first one on the bus. The
-- toggle cycle bit of LINK_TRB is the lowest bit of `rsvd_z1`.
abbrev pub end_trb : ℕ → Trb
end_trb phy_addr = record zero_trb {
  parameter1 = phy_addr % 2 ^ 32;
  parameter2 = phy_addr / 2 ^ 32 % 2 ^ 32;
  rsvd_z1 = 1;
  type = trb_type_link;
}

-- CreateTransferRing, from the address of its memory on the bus.
unfoldable pub create_transfer_ring : ℕ → ℕ → TransferRing
create_transfer_ring phy_addr trb_num = record {
  trbs = replicate (trb_num - 1) zero_trb ++ (end_trb phy_addr ∷ []);
  trb_number = trb_num;
  ring_enqueue = 0;
  ring_pcs = 1;
}

-- What follows `TrsTrb++` in XhcSyncTrsRing: at a link the driver hands it over and goes round.
unfoldable pub pass_link : List Trb → ℕ → ℕ → Option (List Trb × ℕ × ℕ)
pass_link trbs pcs at = elim (get_elem? trbs at) [
  | none ↦ none
  | some t ↦
      some
        (if is_link t then (set trbs at (stamp (bit0 pcs) t), toggled pcs, 0) else (trbs, pcs, at))
]

-- The loop of XhcSyncTrsRing, with the rounds that are left: the blocks, the cycle state and the
-- place when it ends.
unfoldable pub sync_steps : ℕ → List Trb → ℕ → ℕ → Option (List Trb × ℕ × ℕ)
unfolding pass_link
sync_steps zero trbs pcs at = some (trbs, pcs, at)
sync_steps (suc rounds) trbs pcs at = elim (get_elem? trbs at) [
  | none ↦ none
  | some t ↦ elim (t.cycle_bit == bit0 pcs) [
    | false ↦ some (trbs, pcs, at)
    | true ↦ elim (pass_link trbs pcs (suc at)) [
      | none ↦ none
      | some (trbs', pcs', at') ↦ sync_steps rounds trbs' pcs' at'
    ]
  ]
]

-- The block at the enqueue pointer is cleared, but for its cycle bit.
abbrev pub clear_at : List Trb → ℕ → List Trb
clear_at trbs at = set trbs at (stamp (get_or trbs at zero_trb).cycle_bit zero_trb)

-- XhcSyncTrsRing
unfoldable pub xhc_sync_trs_ring : TransferRing → Option TransferRing
xhc_sync_trs_ring r = elim (sync_steps r.trb_number r.trbs r.ring_pcs r.ring_enqueue) [
  | none ↦ none
  | some (trbs, pcs, at) ↦
      some (record r { trbs = clear_at trbs at; ring_pcs = pcs; ring_enqueue = at })
]

-- A block written at the enqueue pointer, with the cycle bit of the driver.
unfoldable pub write_trb : TransferRing → Trb → TransferRing
write_trb r t = record r { trbs = set r.trbs r.ring_enqueue (stamp (bit0 r.ring_pcs) t) }

-- What the loops of XhcCreateTransferTrb do with each block: it is written, and the ring goes on.
unfoldable pub write_and_sync : TransferRing → Trb → Option TransferRing
write_and_sync r t = xhc_sync_trs_ring (write_trb r t)

-- XhcCreateCmdTrb: the ring and the place of the block.
unfoldable pub xhc_create_cmd_trb : TransferRing → Trb → Option (TransferRing × ℕ)
xhc_create_cmd_trb r cmd_trb = elim (xhc_sync_trs_ring r) [
  | none ↦ none
  | some r' ↦ some (write_trb r' cmd_trb, r'.ring_enqueue)
]
