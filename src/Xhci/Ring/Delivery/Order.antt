-- ===== src/Xhci/Ring/Delivery/Order.antt =====
-- What the controller receives, in every sequence of steps.
use edk2_adlink_ampere_altra.Base.{
  ℕ, zero, suc, ◌+◌, ◌-◌, ◌≤◌, ◌<◌, ◌≡◌, refl, sym, ap, ◌∙◌, false, some, List, [], ◌∷◌, ◌++◌, ◌==◌,
  length, get_elem?, map, arith, append-nil, length-append, replicate, length-replicate,
}
use edk2_adlink_ampere_altra.Xhci.Trb.{Trb, zero_trb, toggled, stamp}
use edk2_adlink_ampere_altra.Xhci.Ring.{
  TransferRing, create_transfer_ring, end_trb, xhc_sync_trs_ring, write_and_sync,
}
use edk2_adlink_ampere_altra.Xhci.Ring.Queue.{
  ring, ring_of, length-map, write_more, write_round, sync_again,
}
use edk2_adlink_ampere_altra.Xhci.Ring.Delivery.{
  System, Reach, here, next, start, NoLinks, Held, ahead, behind, at_written, past_free,
}
use edk2_adlink_ampere_altra.Xhci.Ring.Delivery.Kept.{Step-Held, at_end, sees, outstanding}

blank-NoLinks : (n : ℕ) → NoLinks (replicate n zero_trb)
blank-NoLinks zero = tt
blank-NoLinks (suc n) = (refl, blank-NoLinks n)

map-replicate : (n : ℕ) → map (stamp 0) (replicate n zero_trb) ≡ replicate n zero_trb
map-replicate zero = refl
map-replicate (suc n) = ap (λ k. zero_trb ∷ k) (map-replicate n)

start-Held : (phy_addr room : ℕ) → Held room (start phy_addr (room + 2))
unfolding create_transfer_ring
start-Held phy_addr room =
    let first : room + 2 - 1 ≡ suc room = omega arith in
    let last = end_trb phy_addr ∷ [] in
    let trbs : replicate (room + 2 - 1) zero_trb ++ last
        ≡ zero_trb ∷ (map (stamp 0) (replicate room zero_trb) ++ last) =
      ap (λ n. replicate n zero_trb ++ last) first
      ∙ ap (λ xs. zero_trb ∷ (xs ++ last)) (sym (map-replicate room)) in
    let number : room + 2 ≡ 0 + length (replicate room zero_trb) + 2 =
      omega (arith, length-replicate room zero_trb) in
    ahead 1 [] [] zero_trb (replicate room zero_trb) (end_trb phy_addr) (omega arith) refl tt
      (blank-NoLinks room) (omega (arith, length-replicate room zero_trb))
      (λ i. ring (trbs i) (number i) 0 1) refl refl refl

Reach-Held :
    (phy_addr room : ℕ) {s : System} → Reach room (start phy_addr (room + 2)) s → Held room s
Reach-Held phy_addr room here = start-Held phy_addr room
Reach-Held phy_addr room (next r step) = Step-Held step (Reach-Held phy_addr room r)

-- What is under way, and that a controller that finds no block with its cycle bit has everything.
abbrev pub UnderWay : ℕ → System → Type 0
UnderWay room s =
    (pending : List Trb) × (s.sent ≡ s.received ++ pending)
    × (length pending ≤ room)
    × ((t : Trb)
        → get_elem? s.transfers.trbs s.at ≡ some t
        → (t.cycle_bit == s.ccs) ≡ false
        → pending ≡ [])

-- A block of the round before, and the link, have the cycle bit of that round.
round_before :
    (room : ℕ) (s : System) (c : ℕ) (new : List Trb) (free link : Trb) (a b : List Trb) (t : Trb)
    → get_elem? s.transfers.trbs s.at ≡ some t
    → s.transfers ≡ ring_of c new free (a ++ b) link
    → s.at ≡ length new + 1 + length a
    → t.cycle_bit ≡ toggled c
round_before room s c new free link a [] t seen e at =
    ap (λ (u : Trb). u.cycle_bit)
      (sees room s t seen {u = stamp (toggled c) link} e at
        (rw append-nil (at_end c new free a link)))
round_before room s c new free link a (x ∷ b) t seen e at =
    ap (λ (u : Trb). u.cycle_bit)
      (sees room s t seen {u = stamp (toggled c) x} e at
        (past_free c new (stamp (toggled c) free) _ (length a) ∙ at_written (toggled c) a x b _))

Held-UnderWay : (room : ℕ) (s : System) → Held room s → UnderWay room s
Held-UnderWay room s (ahead c a [] free old link bit end new_ok old_ok size e at ccs all) =
    ([], all, omega arith, λ t seen other. refl)
Held-UnderWay room s (ahead c a (x ∷ b) free old link bit end new_ok old_ok size e at ccs all) = (
  map (stamp 0) (x ∷ b),
  all,
  omega (arith, length-map (stamp 0) (x ∷ b), size),
  λ t seen other.
      let it : t ≡ stamp c x = sees room s t seen e at (at_written c a x b _) in
      absurd (ground (arith, other, it, ccs)),
)
Held-UnderWay room s (behind c new free a b link bit end new_ok old_ok size e at ccs all) = (
  map (stamp 0) (b ++ new),
  all,
  omega (arith, length-map (stamp 0) (b ++ new), length-append b new, size),
  λ t seen other.
      absurd (ground (arith, other, ccs, round_before room s c new free link a b t seen e at)),
)

-- In every sequence of writes of the driver and of steps of the controller, from CreateTransferRing
-- on, what the controller has received is what was sent, in order and each block once, up to a rest
-- of at most as many blocks as the ring has room for, two fewer than its size; where the controller
-- finds no block with its cycle bit, there is no rest. Cycle bits are left out of the comparison,
-- and the driver writes only while fewer blocks are outstanding than there is room for.
pub create_transfer_ring-UnderWay :
    (phy_addr room : ℕ) {s : System} → Reach room (start phy_addr (room + 2)) s → UnderWay room s
create_transfer_ring-UnderWay phy_addr room {s} r =
    Held-UnderWay room s (Reach-Held phy_addr room r)

module _ (room : ℕ) (s : System) (t : Trb) (space : length s.sent < length s.received + room) where
  Held-takes : Held room s → (r : TransferRing) × (write_and_sync s.transfers t ≡ some r)
  Held-takes (ahead c a b free (o ∷ old) link bit end new_ok old_ok size e at ccs all) =
      (_, ap (λ q. write_and_sync q t) e ∙ write_more c bit (a ++ b) free t link o old old_ok.0)
  Held-takes (ahead c [] b free [] link bit end new_ok old_ok size e at ccs all) =
      absurd (omega (arith, outstanding s.sent s.received b all))
  Held-takes (ahead c (h ∷ a) b free [] link bit end new_ok old_ok size e at ccs all) = (
    _,
    ap (λ q. write_and_sync q t) e
        ∙ write_round c bit (h ∷ (a ++ b)) free t link h ((a ++ b) ++ (t ∷ [])) end refl,
  )
  Held-takes (behind c new free [] b link bit end new_ok old_ok size e at ccs all) =
      absurd (omega (arith, outstanding s.sent s.received (b ++ new) all, length-append b new))
  Held-takes (behind c new free (o ∷ a) b link bit end new_ok old_ok size e at ccs all) =
      (_, ap (λ q. write_and_sync q t) e ∙ write_more c bit new free t link o (a ++ b) old_ok.0)

-- In each state that is so reached, writing one more block and XhcSyncTrsRing end without an access
-- past the ring, if there is room for the block.
pub create_transfer_ring-write_and_sync :
    (phy_addr room : ℕ) (s : System) (t : Trb)
    → Reach room (start phy_addr (room + 2)) s
    → length s.sent < length s.received + room
    → (r : TransferRing) × (write_and_sync s.transfers t ≡ some r)
create_transfer_ring-write_and_sync phy_addr room s t r space =
    Held-takes room s t space (Reach-Held phy_addr room r)

pub create_transfer_ring-xhc_sync_trs_ring :
    (phy_addr room : ℕ) (s : System)
    → Reach room (start phy_addr (room + 2)) s
    → (r : TransferRing) × (xhc_sync_trs_ring s.transfers ≡ some r)
create_transfer_ring-xhc_sync_trs_ring phy_addr room s r = Held-syncs (Reach-Held phy_addr room r)
  where
    Held-syncs : Held room s → (r : TransferRing) × (xhc_sync_trs_ring s.transfers ≡ some r)
    Held-syncs (ahead c a b free old link bit end new_ok old_ok size e at ccs all) =
        (_, ap xhc_sync_trs_ring e ∙ sync_again c bit (a ++ b) free free link old)
    Held-syncs (behind c new free a b link bit end new_ok old_ok size e at ccs all) =
        (_, ap xhc_sync_trs_ring e ∙ sync_again c bit new free free link (a ++ b))
