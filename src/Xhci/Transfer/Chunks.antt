-- ===== src/Xhci/Transfer/Chunks.antt =====
-- The blocks of a bulk or an interrupt transfer cover its data.
use edk2_adlink_ampere_altra.Base.{
  ℕ, zero, suc, ◌+◌, ◌*◌, ◌/◌, ◌%◌, ◌^◌, ◌≤◌, ◌<◌, ◌≡◌, refl, ap, ◌∙◌, true, Option, none, some,
  List, [], ◌∷◌, leb, ltb, if◌then◌else◌, length, arith, ◌⊎◌, inl, inr, Bool-cases,
}
use edk2_adlink_ampere_altra.Xhci.Trb.{Trb}
use edk2_adlink_ampere_altra.Xhci.Ring.{TransferRing, write_and_sync}
use edk2_adlink_ampere_altra.Xhci.Ring.Delivery.{NoLinks}
use edk2_adlink_ampere_altra.Xhci.Transfer.{normal_trb, chunk_len, normal_steps}

-- Blocks written one after the other: the ring, and the place of the last one.
unfoldable pub write_all : TransferRing → List Trb → ℕ → Option (TransferRing × ℕ)
write_all r [] last = some (r, last)
write_all r (t ∷ ts) last = elim (write_and_sync r t) [
  | none ↦ none
  | some r' ↦ write_all r' ts r.ring_enqueue
]

pub write_all-cons :
    (r r' : TransferRing) (t : Trb) (ts : List Trb) (last : ℕ)
    → write_and_sync r t ≡ some r'
    → write_all r (t ∷ ts) last ≡ write_all r' ts r.ring_enqueue
unfolding write_all
write_all-cons r r' t ts last went = rw (went, write_all) refl

-- The blocks that the loop writes.
abbrev pub chunks : ℕ → ℕ → ℕ → ℕ → List Trb
chunks zero data_phy data_len total_len = []
chunks (suc rounds) data_phy data_len total_len =
    let len = chunk_len data_len total_len in
    let rest = chunks rounds data_phy data_len (total_len + len) in
    if ltb total_len data_len then normal_trb data_phy total_len len ∷ rest else []

-- A normal block for `len` bytes at an address, whose completion is reported.
pub record Covers (t : Trb) (address len : ℕ) : Type 0 where
  pub pointer : t.parameter1 + t.parameter2 * 2 ^ 32 ≡ address
  pub size : t.status ≡ len
  pub kind : t.type ≡ 1
  pub reported : t.rsvd_z1 / 2 ^ 4 % 2 ≡ 1

-- Blocks that cover what follows `total_len` of the data, in order and without a gap, each of at
-- least a byte and at most 64 KB, and of less than that only at the end.
pub data Tiles (data_phy data_len : ℕ) : ℕ → List Trb → Type 0 where
  end : Tiles data_phy data_len data_len []
  more :
      (total_len len : ℕ) (t : Trb) (ts : List Trb)
      → 1 ≤ len
      → len ≤ 0x10000
      → (len ≡ 0x10000) ⊎ (total_len + len ≡ data_len)
      → Covers t (data_phy + total_len) len
      → Tiles data_phy data_len (total_len + len) ts
      → Tiles data_phy data_len total_len (t ∷ ts)

normal_trb-Covers :
    (data_phy total_len len : ℕ)
    → data_phy + total_len < 2 ^ 64
    → len ≤ 0x10000
    → Covers (normal_trb data_phy total_len len) (data_phy + total_len) len
unfolding normal_trb
normal_trb-Covers data_phy total_len len below small = record {
  pointer = omega arith;
  size = omega arith;
  kind = refl;
  reported = refl;
}

chunk_size :
    (data_len total_len : ℕ)
    → ltb total_len data_len ≡ true
    → let len = chunk_len data_len total_len in
      (1 ≤ len)
      × (len ≤ 0x10000)
      × ((len ≡ 0x10000) ⊎ (total_len + len ≡ data_len))
      × (total_len + len ≤ data_len)
chunk_size data_len total_len goes_on = elim (Bool-cases (leb data_len (total_len + 0x10000))) [
  | inl rest ↦ (
    ground (arith, rest, goes_on),
    ground (arith, rest, goes_on),
    inr (ground (arith, rest, goes_on)),
    ground (arith, rest, goes_on),
  )
  | inr full ↦ (
    ground (arith, full, goes_on),
    ground (arith, full, goes_on),
    inl (ground (arith, full, goes_on)),
    ground (arith, full, goes_on),
  )
]

pub chunks-Tiles :
    (rounds data_phy data_len total_len : ℕ)
    → data_len ≤ total_len + rounds
    → total_len ≤ data_len
    → data_phy + data_len ≤ 2 ^ 64
    → Tiles data_phy data_len total_len (chunks rounds data_phy data_len total_len)
chunks-Tiles zero data_phy data_len total_len enough within below =
    let all : total_len ≡ data_len = omega arith in rw all end
chunks-Tiles (suc rounds) data_phy data_len total_len enough within below =
    let len = chunk_len data_len total_len in
    let taken = chunk_size data_len total_len in
    elim (Bool-cases (ltb total_len data_len)) [
      | inl goes_on ↦
          let (least, most, last, inside) = taken goes_on in
          rw goes_on (
            more total_len len (normal_trb data_phy total_len len)
              (chunks rounds data_phy data_len (total_len + len)) least most last
              (normal_trb-Covers data_phy total_len len (omega arith) most)
              (chunks-Tiles rounds data_phy data_len (total_len + len) (omega arith) inside below))
      | inr over ↦ let all : total_len ≡ data_len = ground (arith, over) in rw over (rw all end)
    ]

-- What the loop leaves, from what the writes leave.
abbrev pub counted : ℕ → Option (TransferRing × ℕ) → Option (TransferRing × ℕ × ℕ)
counted trb_num none = none
counted trb_num (some (r, last)) = some (r, trb_num, last)

counted_cong : (k l : ℕ) (o : Option (TransferRing × ℕ)) → k ≡ l → counted k o ≡ counted l o
counted_cong k l o e = ap (λ n. counted n o) e

after_write :
    (f : TransferRing → Option (TransferRing × ℕ × ℕ))
    (g : TransferRing → Option (TransferRing × ℕ)) (k : ℕ)
    → ((r : TransferRing) → f r ≡ counted k (g r))
    → (o : Option TransferRing)
    → (elim o [ none ↦ none | some r ↦ f r ]) ≡ counted k (elim o [ none ↦ none | some r ↦ g r ])
after_write f g k same none = refl
after_write f g k same (some r) = same r

-- The loop writes these blocks and counts them.
pub normal_steps-write_all :
    (rounds data_phy data_len : ℕ) (r : TransferRing) (total_len trb_num last : ℕ)
    → let ts = chunks rounds data_phy data_len total_len in
      normal_steps rounds data_phy data_len r total_len trb_num last
      ≡ counted (trb_num + length ts) (write_all r ts last)
unfolding normal_steps write_all
normal_steps-write_all zero data_phy data_len r total_len trb_num last =
    ap (λ k. some (r, k, last)) {x = trb_num} (omega arith)
normal_steps-write_all (suc rounds) data_phy data_len r total_len trb_num last =
    elim (Bool-cases (ltb total_len data_len)) [
      | inl goes_on ↦ rw goes_on (
          after_write
            (λ r'.
              normal_steps rounds data_phy data_len r' (total_len + chunk_len data_len total_len)
                (suc trb_num) r.ring_enqueue)
            (λ r'.
              write_all r'
                (chunks rounds data_phy data_len (total_len + chunk_len data_len total_len))
                r.ring_enqueue)
            _
            (λ r'.
              normal_steps-write_all rounds data_phy data_len r' _ (suc trb_num) _
              ∙ counted_cong _ _ _ (omega arith))
            (write_and_sync r (normal_trb data_phy total_len (chunk_len data_len total_len))))
      | inr over ↦ rw over (ap (λ k. some (r, k, last)) {x = trb_num} (omega arith))
    ]

pub chunks-NoLinks :
    (rounds data_phy data_len total_len : ℕ) → NoLinks (chunks rounds data_phy data_len total_len)
unfolding normal_trb
chunks-NoLinks zero data_phy data_len total_len = tt
chunks-NoLinks (suc rounds) data_phy data_len total_len =
    elim (Bool-cases (ltb total_len data_len)) [
      | inl goes_on ↦ rw goes_on (refl, chunks-NoLinks rounds data_phy data_len _)
      | inr over ↦ rw over tt
    ]

Tiles-within :
    {data_phy data_len total_len : ℕ} {ts : List Trb}
    → Tiles data_phy data_len total_len ts
    → total_len ≤ data_len
Tiles-within end = omega arith
Tiles-within (more total_len len t ts least most last covers rest) =
    omega (arith, Tiles-within rest)

-- There is a block for every 64 KB that have begun.
pub Tiles-length :
    {data_phy data_len total_len : ℕ} {ts : List Trb}
    → Tiles data_phy data_len total_len ts
    → length ts * 0x10000 + total_len ≤ data_len + 0xFFFF
Tiles-length end = omega arith
Tiles-length (more total_len len t ts least most (inl full) covers rest) =
    omega (arith, Tiles-length rest, full)
Tiles-length {data_phy} {data_len} (more total_len len t ts least most (inr last) covers rest) =
    omega (arith, Tiles-length rest, last)
