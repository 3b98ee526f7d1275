-- ===== src/Xhci/Ring/Queue.antt =====
-- The ring as a queue: what lies in the blocks, and what writing one more does.
use edk2_adlink_ampere_altra.Base.{
  ℕ, suc, ◌+◌, ◌<◌, ◌≡◌, refl, sym, ap, ◌∙◌, true, false, Option, some, List, [], ◌∷◌, ◌++◌, ◌==◌,
  length, get_or, set, map, arith, length-append,
}
use edk2_adlink_ampere_altra.Xhci.Trb.{Trb, zero_trb, bit0, toggled, is_link, stamp}
use edk2_adlink_ampere_altra.Xhci.Ring.{
  TransferRing, sync_steps, xhc_sync_trs_ring, write_trb, write_and_sync,
}
use edk2_adlink_ampere_altra.Xhci.Ring.Slots.{
  sync_stays, sync_advances, sync_wraps, set-append, set-append_suc, get_or-append,
  get_or-append_suc,
}

-- A ring where `new` was written in this round, the next block is `free`, and `old` is what is left
-- of the round before. The blocks of this round have the cycle bit of the driver, all others not.
abbrev pub blocks : ℕ → List Trb → Trb → List Trb → Trb → List Trb
blocks c new free old link =
    map (stamp c) new
    ++ (stamp (toggled c) free ∷ (map (stamp (toggled c)) old ++ (stamp (toggled c) link ∷ [])))

abbrev pub ring_of : ℕ → List Trb → Trb → List Trb → Trb → TransferRing
ring_of c new free old link = record {
  trbs = blocks c new free old link;
  trb_number = length new + length old + 2;
  ring_enqueue = length new;
  ring_pcs = c;
}

pub length-map : {A B : Type 0} (f : A → B) (xs : List A) → length (map f xs) ≡ length xs
length-map f [] = refl
length-map f (x ∷ xs) = ap suc (length-map f xs)

bit0_id : (c : ℕ) → c < 2 → bit0 c ≡ c
bit0_id c h = omega arith

toggled_other : (c : ℕ) → c < 2 → (toggled c == bit0 c) ≡ false
toggled_other c h = ground arith

toggled_apart : (c : ℕ) → c < 2 → (c == bit0 (toggled c)) ≡ false
toggled_apart c h = ground arith

pub toggled-toggled : (c : ℕ) → c < 2 → c ≡ toggled (toggled c)
toggled-toggled c h = ground arith

pub toggled_lt : (c : ℕ) → c < 2 → toggled c < 2
toggled_lt c h = ground arith

pub toggled_ne : (c : ℕ) → c < 2 → (toggled c == c) ≡ false
toggled_ne c h = ground arith

abbrev pub ring : List Trb → ℕ → ℕ → ℕ → TransferRing
ring trbs number at pcs = record {
  trbs = trbs;
  trb_number = number;
  ring_enqueue = at;
  ring_pcs = pcs;
}

-- XhcSyncTrsRing, from what its loop ends with.
sync_ends :
    (trbs trbs' : List Trb) (number at at' c c' : ℕ)
    → sync_steps number trbs c at ≡ some (trbs', c', at')
    → xhc_sync_trs_ring (ring trbs number at c)
      ≡ some (
          ring (set trbs' at' (stamp (get_or trbs' at' zero_trb).cycle_bit zero_trb)) number at' c')
unfolding xhc_sync_trs_ring
sync_ends trbs trbs' number at at' c c' e = ground (arith, e)

same_ring :
    {trbs trbs' : List Trb} {number number' at at' c : ℕ}
    → trbs ≡ trbs'
    → number ≡ number'
    → at ≡ at'
    → some (ring trbs number at c) ≡ some (ring trbs' number' at' c)
same_ring {c} p q r = λ i. some (ring (p i) (q i) (r i) c)

map-append_one :
    (c : ℕ) (xs : List Trb) (y : Trb) (zs : List Trb)
    → map (stamp c) (xs ++ (y ∷ [])) ++ zs ≡ map (stamp c) xs ++ (stamp c y ∷ zs)
map-append_one c [] y zs = refl
map-append_one c (x ∷ xs) y zs = ap (λ k. stamp c x ∷ k) (map-append_one c xs y zs)

module _ (c : ℕ) (bit : c < 2) (new : List Trb) (free t link : Trb) where
  -- The block is written where the ring stands.
  written :
      (rest : List Trb)
      → set (map (stamp c) new ++ (stamp (toggled c) free ∷ rest)) (length new) (stamp (bit0 c) t)
        ≡ map (stamp c) new ++ (stamp c t ∷ rest)
  written rest =
      let before = map (stamp c) new ++ (stamp (toggled c) free ∷ rest) in
      (λ i. set before (sym (length-map (stamp c) new) i) (stamp (bit0_id c bit i) t))
      ∙ set-append (map (stamp c) new) (stamp (toggled c) free) rest (stamp c t)

  -- The loop, from the place as the blocks give it.
  steps :
      (trbs : List Trb) (number rounds : ℕ) {result : Option (List Trb × ℕ × ℕ)}
      → number ≡ rounds
      → sync_steps rounds trbs c (length (map (stamp c) new)) ≡ result
      → sync_steps number trbs c (length new) ≡ result
  steps trbs number rounds p e =
      (λ i. sync_steps (p i) trbs c (sym (length-map (stamp c) new) i)) ∙ e

  -- The next block is cleared, but for its cycle bit.
  cleared :
      (o : Trb) (rest : List Trb)
      → let after = map (stamp c) new ++ (stamp c t ∷ stamp (toggled c) o ∷ rest) in
        set after
          (suc (length new))
          (stamp (get_or after (suc (length new)) zero_trb).cycle_bit zero_trb)
        ≡ map (stamp c) (new ++ (t ∷ [])) ++ (stamp (toggled c) zero_trb ∷ rest)
  cleared o rest =
      let xs = map (stamp c) new in
      let after = xs ++ (stamp c t ∷ stamp (toggled c) o ∷ rest) in
      let place : suc (length new) ≡ suc (length xs) = ap suc (sym (length-map (stamp c) new)) in
      (λ i. set after (place i) (stamp (get_or after (place i) zero_trb).cycle_bit zero_trb))
      ∙ ap (λ b. set after (suc (length xs)) (stamp b zero_trb))
          (ap (λ (o' : Trb). o'.cycle_bit) (get_or-append_suc xs _ _ rest zero_trb))
      ∙ set-append_suc xs (stamp c t) (stamp (toggled c) o) rest (stamp (toggled c) zero_trb)
      ∙ sym (map-append_one c new t (stamp (toggled c) zero_trb ∷ rest))

  is_written : (c == bit0 c) ≡ true
  is_written = ground arith

  -- Where the ring stands at a free block, XhcSyncTrsRing only clears the block.
  pub sync_again :
      (old : List Trb)
      → xhc_sync_trs_ring (ring_of c new free old link) ≡ some (ring_of c new zero_trb old link)
  sync_again old =
      let rest = map (stamp (toggled c)) old ++ (stamp (toggled c) link ∷ []) in
      let number = length new + length old + 2 in
      let xs = map (stamp c) new in
      let all = xs ++ (stamp (toggled c) free ∷ rest) in
      let place : length new ≡ length xs = sym (length-map (stamp c) new) in
      sync_ends all all number (length new) (length new) c c (
        steps all number (suc (length new + length old + 1)) (omega arith) (
          sync_stays _ xs (stamp (toggled c) free) rest c (toggled_other c bit)
          ∙ ap (λ k. some (all, c, k)) (length-map (stamp c) new)))
      ∙ same_ring
          ((λ i. set all (place i) (stamp (get_or all (place i) zero_trb).cycle_bit zero_trb))
            ∙ ap (λ b. set all (length xs) (stamp b zero_trb))
                (ap (λ (o : Trb). o.cycle_bit)
                  (get_or-append xs (stamp (toggled c) free) rest zero_trb))
            ∙ set-append xs (stamp (toggled c) free) rest (stamp (toggled c) zero_trb))
          refl refl

  pub write_more :
      (o : Trb) (os : List Trb)
      → is_link o ≡ false
      → write_and_sync (ring_of c new free (o ∷ os) link) t
        ≡ some (ring_of c (new ++ (t ∷ [])) zero_trb os link)
  unfolding write_and_sync write_trb
  write_more o os no_link =
      let rest = map (stamp (toggled c)) os ++ (stamp (toggled c) link ∷ []) in
      let number = length new + length (o ∷ os) + 2 in
      let after = map (stamp c) new ++ (stamp c t ∷ stamp (toggled c) o ∷ rest) in
      ap (λ k. xhc_sync_trs_ring (ring k number (length new) c))
        (written (stamp (toggled c) o ∷ rest))
      ∙ sync_ends after after number (length new) (suc (length new)) c c (
          steps after number (suc (suc (length new + length os + 1))) (omega arith) (
            sync_advances _ (map (stamp c) new) (stamp c t) (stamp (toggled c) o) rest c is_written
              no_link (toggled_other c bit)
            ∙ ap (λ k. some (after, c, suc k)) (length-map (stamp c) new)))
      ∙ same_ring (cleared o rest) (omega (arith, length-append new (t ∷ [])))
          (omega (arith, length-append new (t ∷ [])))

  -- The blocks of the round, seen from the first one on.
  round :
      (h : Trb) (rest : List Trb)
      → new ++ (t ∷ []) ≡ h ∷ rest
      → map (stamp c) new ++ (stamp c t ∷ stamp (bit0 c) link ∷ [])
        ≡ stamp c h ∷ (map (stamp c) rest ++ (stamp c link ∷ []))
  round h rest first =
      (λ i. map (stamp c) new ++ (stamp c t ∷ stamp (bit0_id c bit i) link ∷ []))
      ∙ sym (map-append_one c new t (stamp c link ∷ []))
      ∙ ap (λ xs. map (stamp c) xs ++ (stamp c link ∷ [])) first

  -- After the last block the ring goes round: what was the first block is the next one.
  pub write_round :
      (h : Trb) (rest : List Trb)
      → is_link link ≡ true
      → new ++ (t ∷ []) ≡ h ∷ rest
      → write_and_sync (ring_of c new free [] link) t
        ≡ some (ring_of (toggled c) [] zero_trb rest link)
  unfolding write_and_sync write_trb
  write_round h rest is_end first =
      let number = length new + 0 + 2 in
      let before = map (stamp c) new ++ (stamp c t ∷ stamp (toggled c) link ∷ []) in
      let after = map (stamp c) rest ++ (stamp c link ∷ []) in
      ap (λ k. xhc_sync_trs_ring (ring k number (length new) c))
        (written (stamp (toggled c) link ∷ []))
      ∙ sync_ends before (stamp c h ∷ after) number (length new) 0 c (toggled c) (
          steps before number (suc (suc (length new))) (omega arith) (
            sync_wraps _ (map (stamp c) new) (stamp c t) (stamp (toggled c) link) (stamp c h) after
              c is_written is_end (round h rest first) (toggled_apart c bit)))
      ∙ same_ring
          (λ i.
            stamp (toggled-toggled c bit i) zero_trb
            ∷ (map (stamp (toggled-toggled c bit i)) rest
                ++ (stamp (toggled-toggled c bit i) link ∷ [])))
          (omega (arith, ap length first, length-append new (t ∷ []))) refl
