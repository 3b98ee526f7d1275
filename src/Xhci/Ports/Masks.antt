-- ===== src/Xhci/Ports/Masks.antt =====
-- Words built by masks, digit by digit.
use edk2_adlink_ampere_altra.Base.{
  ℕ, ◌≡◌, sym, ap, ◌∙◌, Bool, true, false, ◌&&◌, ◌||◌, List, [], ◌∷◌, bit_and, bit_or, arith,
  bit_at, bit_at-bit_and, bit_at-bit_or, bit_at-zero, Bool-cases, inl, inr,
}
use edk2_adlink_ampere_altra.Xhci.Regs.{xhc_bit_is_set}
use edk2_adlink_ampere_altra.Xhci.Ports.{apply_map}

-- On the digits of the mask, the two words are the same.
pub Agree : ℕ → ℕ → ℕ → Type 0
Agree mask v u = (k : ℕ) → bit_at k mask ≡ true → bit_at k v ≡ bit_at k u

-- A word that shares no digit with the mask.
pub bit_and-Agree : (mask x c : ℕ) → bit_and c mask ≡ 0 → Agree mask (bit_and x c) 0
unfolding Agree
bit_and-Agree mask x c apart k here =
    let none : (bit_at k c && bit_at k mask) ≡ false =
      sym (bit_at-bit_and k c mask) ∙ ap (bit_at k) apart ∙ bit_at-zero k in
    ground (arith, bit_at-bit_and k x c, none, bit_at-zero k)

-- A digit of the mask is set by what is added alone.
pub bit_or-Agree : (mask v c : ℕ) → Agree mask v 0 → Agree mask (bit_or v c) c
unfolding Agree
bit_or-Agree mask v c agree k here =
    ground (arith, bit_at-bit_or k v c, agree k here, bit_at-zero k)

-- Digits are taken off outside of the mask.
pub keep-Agree :
    (mask v u c : ℕ) → bit_and c mask ≡ mask → Agree mask v u → Agree mask (bit_and v c) u
unfolding Agree
keep-Agree mask v u c kept agree k here =
    let both : (bit_at k c && bit_at k mask) ≡ bit_at k mask =
      sym (bit_at-bit_and k c mask) ∙ ap (bit_at k) kept in
    ground (arith, bit_at-bit_and k v c, both, agree k here)

pub apart-Agree : (mask c : ℕ) → bit_and c mask ≡ 0 → Agree mask c 0
unfolding Agree
apart-Agree mask c apart k here =
    let none : (bit_at k c && bit_at k mask) ≡ false =
      sym (bit_at-bit_and k c mask) ∙ ap (bit_at k) apart ∙ bit_at-zero k in
    ground (arith, none, bit_at-zero k)

pub Agree-trans : (mask v u w : ℕ) → Agree mask v u → Agree mask u w → Agree mask v w
unfolding Agree
Agree-trans mask v u w p q k here = p k here ∙ q k here

-- The entries of a map that set a digit.
abbrev pub sets : List (ℕ × ℕ) → ℕ → ℕ → Bool
sets [] state k = false
sets ((hw_state, uefi_state) ∷ map) state k =
    (xhc_bit_is_set state hw_state && bit_at k uefi_state) || sets map state k

pub bit_at-apply_map :
    (map : List (ℕ × ℕ)) (state acc k : ℕ)
    → bit_at k (apply_map map state acc) ≡ (bit_at k acc || sets map state k)
unfolding apply_map
bit_at-apply_map [] state acc k = ground arith
bit_at-apply_map ((hw_state, uefi_state) ∷ map) state acc k =
    elim (Bool-cases (xhc_bit_is_set state hw_state)) [
      | inl is_set ↦ rw is_set (
          ground (
            arith,
            bit_at-apply_map map state (bit_or acc uefi_state) k,
            bit_at-bit_or k acc uefi_state,
          ))
      | inr clear ↦ rw clear (ground (arith, bit_at-apply_map map state acc k))
    ]
