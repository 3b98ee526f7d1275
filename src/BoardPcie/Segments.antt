-- ===== src/BoardPcie/Segments.antt =====
-- The segment numbers of the board.
use edk2_adlink_ampere_altra.Base.{
  ltb_of_lt, ℕ, ◌+◌, ◌*◌, ◌/◌, ◌%◌, ◌≤◌, ◌<◌, ◌≡◌, refl, sym, ap, ◌∙◌, arith, true, ◌⊎◌, [], ◌∷◌,
  get_or, ◌==◌, passes_below, below_all_checked, ==_iff,
}
use edk2_adlink_ampere_altra.BoardPcie.{
  RootComplex, Sizes, board_segment, board_pcie_get_segment_number,
}

-- The segment of root complex `k`, counted over both sockets.
abbrev segment_at : ℕ → ℕ
segment_at k = get_or (get_or board_segment (k / 8) []) (k % 8) 0

-- Where a segment stands in the table.
place : ℕ → ℕ
place s =
    get_or (3 ∷ 2 ∷ 4 ∷ 5 ∷ 6 ∷ 7 ∷ 10 ∷ 11 ∷ 12 ∷ 13 ∷ 14 ∷ 15 ∷ 0 ∷ 1 ∷ 0 ∷ 0 ∷ 8 ∷ 9 ∷ []) s 0

place_table : passes_below (λ k. place (segment_at k) == k) 16 ≡ true
unfolding passes_below place
place_table = refl

place-segment_at : (k : ℕ) → k < 16 → place (segment_at k) ≡ k
place-segment_at k h = (==_iff _ k).0 (below_all_checked _ 16 k h place_table)

place_of :
    (sizes : Sizes) (rc : RootComplex)
    → 2 ≤ sizes.max_socket
    → 8 ≤ sizes.max_root_complex
    → (rc.socket < 2) × (rc.id < 8)
    → place (board_pcie_get_segment_number sizes rc) ≡ rc.socket * 8 + rc.id
unfolding board_pcie_get_segment_number
place_of sizes rc p q h =
    let k : ℕ = rc.socket * 8 + rc.id in
    let socket : k / 8 ≡ rc.socket = omega arith in
    let id : k % 8 ≡ rc.id = omega arith in
    let here : segment_at k ≡ get_or (get_or board_segment rc.socket []) rc.id 0 =
      rw (socket, id) in
    rw
      (
        ltb_of_lt rc.socket sizes.max_socket (omega arith),
        ltb_of_lt rc.id sizes.max_root_complex (omega arith),
        ← here,
      )
      (place-segment_at k (omega arith))

same_place :
    (a b : RootComplex) → a.id < 8 → b.id < 8 → a.socket * 8 + a.id ≡ b.socket * 8 + b.id → a ≡ b
same_place a b ha hb e = ground arith

-- No two of the sixteen root complexes of the two sockets share a segment number, if the table has
-- room for them.
pub board_pcie_get_segment_number-injective :
    (sizes : Sizes) (a b : RootComplex)
    → 2 ≤ sizes.max_socket
    → 8 ≤ sizes.max_root_complex
    → (a.socket < 2) × (a.id < 8)
    → (b.socket < 2) × (b.id < 8)
    → board_pcie_get_segment_number sizes a ≡ board_pcie_get_segment_number sizes b
    → a ≡ b
board_pcie_get_segment_number-injective sizes a b p q ha hb e =
    same_place a b ha.1 hb.1 (sym (place_of sizes a p q ha) ∙ ap place e ∙ place_of sizes b p q hb)

-- A root complex outside of the table never has the number 0x0F that is documented for it, but the
-- one whose id is 17: the number is the id less two, on sixteen bits.
pub board_pcie_get_segment_number-default :
    (sizes : Sizes) (rc : RootComplex)
    → (sizes.max_socket ≤ rc.socket) ⊎ (sizes.max_root_complex ≤ rc.id)
    → rc.id < 256
    → board_pcie_get_segment_number sizes rc ≡ 0x0F
    → rc.id ≡ 17
unfolding board_pcie_get_segment_number
board_pcie_get_segment_number-default sizes rc outside byte e = ground arith
