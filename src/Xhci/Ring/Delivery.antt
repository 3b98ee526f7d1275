-- ===== src/Xhci/Ring/Delivery.antt =====
-- A ring between the driver, which writes blocks, and the controller, which reads them by the cycle
-- bit. The controller's side is what the xHCI specification says of a transfer ring, not code of
-- the driver.
pub mod Kept
pub mod Order
use edk2_adlink_ampere_altra.Base.{
  ℕ, zero, suc, ◌+◌, ◌≤◌, ◌<◌, ◌≡◌, refl, sym, ap, ◌∙◌, Bool, true, false, Option, none, some, List,
  [], ◌∷◌, ◌++◌, ◌==◌, length, get_elem?, replicate, map, arith, append_assoc, append-nil,
  length-append,
}
use edk2_adlink_ampere_altra.Xhci.Trb.{Trb, zero_trb, bit0, toggled, is_link, stamp}
use edk2_adlink_ampere_altra.Xhci.Ring.{
  TransferRing, create_transfer_ring, xhc_sync_trs_ring, write_and_sync,
}
use edk2_adlink_ampere_altra.Xhci.Ring.Queue.{
  blocks, ring, ring_of, length-map, write_more, write_round,
}

-- The ring, where the controller stands in it with its cycle state, and what was sent and received
-- so far, without the cycle bits.
pub record System : Type 0 where
  pub transfers : TransferRing
  pub at : ℕ
  pub ccs : ℕ
  pub sent : List Trb
  pub received : List Trb

-- The driver writes a block while fewer than `room` are outstanding, and calls XhcSyncTrsRing; the controller takes a block
-- that has its cycle bit, and follows a link that has it, toggling its cycle state.
pub data Step (room : ℕ) : System → System → Type 0 where
  post :
      (s : System) (t : Trb) (r : TransferRing)
      → is_link t ≡ false
      → length s.sent < length s.received + room
      → write_and_sync s.transfers t ≡ some r
      → Step room s (record s { transfers = r; sent = s.sent ++ (stamp 0 t ∷ []) })
  sync :
      (s : System) (r : TransferRing)
      → xhc_sync_trs_ring s.transfers ≡ some r
      → Step room s (record s { transfers = r })
  fetch :
      (s : System) (t : Trb)
      → get_elem? s.transfers.trbs s.at ≡ some t
      → (t.cycle_bit == s.ccs) ≡ true
      → is_link t ≡ false
      → Step room s (record s { at = suc s.at; received = s.received ++ (stamp 0 t ∷ []) })
  follow :
      (s : System) (t : Trb)
      → get_elem? s.transfers.trbs s.at ≡ some t
      → (t.cycle_bit == s.ccs) ≡ true
      → is_link t ≡ true
      → Step room s (record s { at = 0; ccs = toggled s.ccs })

pub data Reach (room : ℕ) (s : System) : System → Type 0 where
  here : Reach room s s
  next : {t u : System} → Reach room s t → Step room t u → Reach room s u

-- After CreateTransferRing.
abbrev pub start : ℕ → ℕ → System
start phy_addr trb_num = record {
  transfers = create_transfer_ring phy_addr trb_num;
  at = 0;
  ccs = 1;
  sent = [];
  received = [];
}

abbrev pub NoLinks : List Trb → Type 0
NoLinks [] = Unit {0}
NoLinks (t ∷ ts) = (is_link t ≡ false) × NoLinks ts

pub NoLinks-append : (xs ys : List Trb) → NoLinks xs → NoLinks ys → NoLinks (xs ++ ys)
NoLinks-append [] ys p q = q
NoLinks-append (x ∷ xs) ys p q = (p.0, NoLinks-append xs ys p.1 q)

pub NoLinks-right :
    (xs : List Trb) (y : Trb) (ys : List Trb) → NoLinks (xs ++ (y ∷ ys)) → is_link y ≡ false
NoLinks-right [] y ys p = p.0
NoLinks-right (x ∷ xs) y ys p = NoLinks-right xs y ys p.1

-- What the blocks hold at each place.
pub at_written :
    (c : ℕ) (a : List Trb) (x : Trb) (b rest : List Trb)
    → get_elem? (map (stamp c) (a ++ (x ∷ b)) ++ rest) (length a) ≡ some (stamp c x)
at_written c [] x b rest = refl
at_written c (y ∷ a) x b rest = at_written c a x b rest

pub at_free :
    (c : ℕ) (a : List Trb) (y : Trb) (rest : List Trb)
    → get_elem? (map (stamp c) a ++ (y ∷ rest)) (length a) ≡ some y
at_free c [] y rest = refl
at_free c (x ∷ a) y rest = at_free c a y rest

pub past_free :
    (c : ℕ) (new : List Trb) (y : Trb) (rest : List Trb) (k : ℕ)
    → get_elem? (map (stamp c) new ++ (y ∷ rest)) (length new + 1 + k) ≡ get_elem? rest k
past_free c [] y rest k = ap (get_elem? (y ∷ rest)) {y = suc k} (omega arith)
past_free c (x ∷ new) y rest k =
    ap (get_elem? (stamp c x ∷ (map (stamp c) new ++ (y ∷ rest)))) {y = suc (length new + 1 + k)}
      (omega arith)
    ∙ past_free c new y rest k

-- The blocks that the controller has not read are in this round, or in the round before and in this
-- one.
pub data Held (room : ℕ) (s : System) : Type 0 where
  ahead :
      (c : ℕ) (a b : List Trb) (free : Trb) (old : List Trb) (link : Trb)
      → c < 2
      → is_link link ≡ true
      → NoLinks (a ++ b)
      → NoLinks old
      → length a + length b + length old ≡ room
      → s.transfers ≡ ring_of c (a ++ b) free old link
      → s.at ≡ length a
      → s.ccs ≡ c
      → s.sent ≡ s.received ++ map (stamp 0) b
      → Held room s
  behind :
      (c : ℕ) (new : List Trb) (free : Trb) (a b : List Trb) (link : Trb)
      → c < 2
      → is_link link ≡ true
      → NoLinks new
      → NoLinks (a ++ b)
      → length new + length a + length b ≡ room
      → s.transfers ≡ ring_of c new free (a ++ b) link
      → s.at ≡ length new + 1 + length a
      → s.ccs ≡ toggled c
      → s.sent ≡ s.received ++ map (stamp 0) (b ++ new)
      → Held room s
