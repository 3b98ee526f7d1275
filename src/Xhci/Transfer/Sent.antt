-- ===== src/Xhci/Transfer/Sent.antt =====
-- What XhcCreateTransferTrb hands to the controller, on a ring that the controller is reading.
use edk2_adlink_ampere_altra.Base.{
  ℕ, ◌+◌, ◌/◌, ◌^◌, ◌≤◌, ◌<◌, ◌≡◌, refl, sym, ap, ◌∙◌, Bool, Bool-cases, true, false, ◌||◌, Option,
  none, some, List, [], ◌∷◌, ◌++◌, ◌==◌, if◌then◌else◌, length, arith, inl, inr, map, append_assoc,
  append-nil, length-append,
}
use edk2_adlink_ampere_altra.Xhci.Trb.{Trb, stamp}
use edk2_adlink_ampere_altra.Xhci.Ring.{TransferRing, write_and_sync}
use edk2_adlink_ampere_altra.Xhci.Ring.Delivery.{System, Reach, next, post, start, NoLinks}
use edk2_adlink_ampere_altra.Xhci.Ring.Delivery.Order.{create_transfer_ring-write_and_sync}
use edk2_adlink_ampere_altra.Xhci.Transfer.{
  Urb, normal_steps, transfer_blocks, control_blocks, setup_trb, data_trb, status_trb,
}
use edk2_adlink_ampere_altra.Xhci.Transfer.Chunks.{
  write_all, write_all-cons, chunks-NoLinks, Tiles-length, chunks, chunks-Tiles, Tiles, counted,
  normal_steps-write_all,
}

-- A state after more blocks were sent, and nothing else has happened.
pub record After (phy_addr room : ℕ) (s : System) (ts : List Trb) (r : TransferRing) : Type 0 where
  pub state : System
  pub reached : Reach room (start phy_addr (room + 2)) state
  pub ring : state.transfers ≡ r
  pub sent : state.sent ≡ s.sent ++ map (stamp 0) ts
  pub received : state.received ≡ s.received

module _ (phy_addr room : ℕ) where
  write_all-After :
      (ts : List Trb) (s : System) (last : ℕ)
      → NoLinks ts
      → Reach room (start phy_addr (room + 2)) s
      → length s.sent + length ts ≤ length s.received + room
      → (r : TransferRing) × (last' : ℕ) × (write_all s.transfers ts last ≡ some (r, last'))
        × After phy_addr room s ts r
  unfolding write_all
  write_all-After [] s last no_links reached space = (
    s.transfers,
    last,
    refl,
    record {
      state = s;
      reached = reached;
      ring = refl;
      sent = sym (append-nil s.sent);
      received = refl;
    },
  )
  write_all-After (t ∷ ts) s last no_links reached space =
      let room_for_it : length s.sent < length s.received + room = omega (arith, space) in
      let (r₁, wrote) = create_transfer_ring-write_and_sync phy_addr room s t reached room_for_it in
      let s₁ : System = record s { transfers = r₁; sent = s.sent ++ (stamp 0 t ∷ []) } in
      let (r, last', went, after) =
        write_all-After ts s₁ s.transfers.ring_enqueue no_links.1
          (next reached (post s t r₁ no_links.0 room_for_it wrote))
          (omega (arith, length-append s.sent (stamp 0 t ∷ []), space)) in
      (
        r,
        last',
        write_all-cons s.transfers r₁ t ts last wrote ∙ went,
        record {
          state = after.state;
          reached = after.reached;
          ring = after.ring;
          sent = after.sent ∙ append_assoc s.sent (stamp 0 t ∷ []) (map (stamp 0) ts);
          received = after.received;
        },
      )

-- The blocks of a control transfer: a data stage only where there is data.
abbrev pub control_list : Urb → List Trb
control_list urb =
    setup_trb urb
    ∷ (if urb.data_len == 0 then status_trb urb ∷ [] else data_trb urb ∷ status_trb urb ∷ [])

abbrev pub is_normal : ℕ → Bool
is_normal ep_type = (ep_type == 2 || ep_type == 6) || (ep_type == 3 || ep_type == 7)

-- The blocks that a request asks for, by the type of its endpoint.
pub data Asked (ep_type : ℕ) (urb : Urb) (ts : List Trb) : Type 0 where
  control : ep_type ≡ 4 → ts ≡ control_list urb → Asked ep_type urb ts
  normal : is_normal ep_type ≡ true → Tiles urb.data_phy urb.data_len 0 ts → Asked ep_type urb ts

-- How many they are.
abbrev pub asked_for : ℕ → Urb → ℕ
asked_for ep_type urb =
    if ep_type == 4 then (if urb.data_len == 0 then 2 else 3) else (urb.data_len + 0xFFFF) / 0x10000

three_stages :
    (none_in_between : Bool) (r : TransferRing) (first between final : Trb) (last : ℕ)
    → (elim (write_and_sync r first) [
      | none ↦ none
      | some r₁ ↦ elim (if none_in_between then some r₁ else write_and_sync r₁ between) [
        | none ↦ none
        | some r₂ ↦ elim (write_and_sync r₂ final) [
          | none ↦ none
          | some r₃ ↦ some (r₃, r₂.ring_enqueue)
        ]
      ]
    ])
      ≡ write_all r (first ∷ (if none_in_between then final ∷ [] else between ∷ final ∷ [])) last
unfolding write_all
three_stages true r first between final last = refl
three_stages false r first between final last = refl

control_blocks-write_all :
    (urb : Urb) (r : TransferRing) (last : ℕ)
    → control_blocks urb r ≡ write_all r (control_list urb) last
unfolding control_blocks
control_blocks-write_all urb r last =
    three_stages (urb.data_len == 0) r (setup_trb urb) (data_trb urb) (status_trb urb) last

length-control_list : (urb : Urb) → length (control_list urb) ≡ (if urb.data_len == 0 then 2 else 3)
length-control_list urb = ground arith

control_list-NoLinks : (urb : Urb) → NoLinks (control_list urb)
unfolding setup_trb data_trb status_trb
control_list-NoLinks urb = elim (Bool-cases (urb.data_len == 0)) [
  | inl nothing ↦ rw nothing (refl, (refl, tt))
  | inr something ↦ rw something (refl, (refl, (refl, tt)))
]

-- What the switch over the type of the endpoint does on a ring of a reached state.
pub record Blocks (phy_addr room ep_type : ℕ) (urb : Urb) (s : System)
    (out : Option (TransferRing × Urb)) : Type 0 where
  pub ring : TransferRing
  pub request : Urb
  pub trbs : List Trb
  pub returns : out ≡ some (ring, request)
  pub after : After phy_addr room s trbs ring
  pub asked : Asked ep_type urb trbs
  pub counting : request.trb_num ≡ length trbs

module _ (phy_addr room : ℕ) (urb : Urb) (s : System)
    (reached : Reach room (start phy_addr (room + 2)) s) (fresh : urb.trb_num ≡ 0) where
  pub control-Blocks :
      length s.sent + asked_for 4 urb ≤ length s.received + room
      → Blocks phy_addr room 4 urb s (transfer_blocks 4 urb s.transfers)
  unfolding transfer_blocks
  control-Blocks space =
      let (r, last, went, after) =
        write_all-After phy_addr room (control_list urb) s 0 (control_list-NoLinks urb) reached
          (omega (arith, length-control_list urb)) in
      record {
        ring = r;
        request = record urb {
          trb_num = urb.trb_num + (if urb.data_len == 0 then 2 else 3);
          trb_end = last;
        };
        trbs = control_list urb;
        returns = rw (control_blocks-write_all urb s.transfers 0 ∙ went) refl;
        after = after;
        asked = control refl refl;
        counting = omega (arith, length-control_list urb);
      }

  pub normal-Blocks :
      (ep_type : ℕ)
      → is_normal ep_type ≡ true
      → urb.data_phy + urb.data_len ≤ 2 ^ 64
      → length s.sent + asked_for ep_type urb ≤ length s.received + room
      → Blocks phy_addr room ep_type urb s (transfer_blocks ep_type urb s.transfers)
  unfolding transfer_blocks
  normal-Blocks ep_type is below space =
      let ts = chunks urb.data_len urb.data_phy urb.data_len 0 in
      let at = s.transfers.ring_enqueue in
      let other : (ep_type == 4) ≡ false = ground (arith, is) in
      let tiles : Tiles urb.data_phy urb.data_len 0 ts =
        chunks-Tiles urb.data_len urb.data_phy urb.data_len 0 (omega arith) (omega arith) below in
      let enough : asked_for ep_type urb ≡ (urb.data_len + 0xFFFF) / 0x10000 = rw other refl in
      let (r, last, went, after) =
        write_all-After phy_addr room ts s at
          (chunks-NoLinks urb.data_len urb.data_phy urb.data_len 0) reached
          (omega (arith, Tiles-length tiles, enough, space)) in
      let steps : normal_steps urb.data_len urb.data_phy urb.data_len s.transfers 0 0 at
          ≡ some (r, 0 + length ts, last) =
        normal_steps-write_all urb.data_len urb.data_phy urb.data_len s.transfers 0 0 at
        ∙ ap (counted (0 + length ts)) went in
      record {
        ring = r;
        request = record urb { trb_num = 0 + length ts; trb_end = last };
        trbs = ts;
        returns = rw (other, is, steps) refl;
        after = after;
        asked = normal is tiles;
        counting = omega arith;
      }
