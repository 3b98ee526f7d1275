-- ===== src/Xhci/Bits.antt =====
-- MdeModulePkg/Bus/Pci/XhciDxe/UsbHcMem.h: the bits of a memory block, one for each unit of 64 bytes.
use Prim.Native.Nat.{bit_xor}
use edk2_adlink_ampere_altra.Base.{
  ℕ, suc, ◌+◌, ◌*◌, ◌/◌, ◌%◌, ◌^◌, ◌<◌, ◌≡◌, refl, ◌∙◌, ap, Bool, true, false, not, ◌||◌, List,
  bit_and, bit_or, u8, ◌==◌, ltb, if◌then◌else◌, get_or, set, length, arith, passes_below,
  below_all_checked, ap₂, sym, length-set, get_or-set_self, get_or-set_ne, ◌⊎◌, ◌≢◌, inl, inr,
}

-- USB_HC_BIT and USB_HC_BIT_IS_SET
abbrev pub usb_hc_bit : ℕ → ℕ
usb_hc_bit a = 2 ^ a

abbrev pub usb_hc_bit_is_set : ℕ → ℕ → Bool
usb_hc_bit_is_set data_byte bit = bit_and data_byte (usb_hc_bit bit) == usb_hc_bit bit

-- A place in the bit array: the byte, and the bit in it.
abbrev pub Place : Type 0
Place = ℕ × ℕ

-- NEXT_BIT
abbrev pub next_bit : Place → Place
next_bit (byte, bit) = if ltb 7 (suc bit) then (suc byte, 0) else (byte, suc bit)

-- `Bits[Byte] = (UINT8)(Bits[Byte] | USB_HC_BIT (Bit))`
unfoldable pub set_usb_hc_bit : Place → List ℕ → List ℕ
set_usb_hc_bit (byte, bit) bits = set bits byte (u8 (bit_or (get_or bits byte 0) (usb_hc_bit bit)))

-- `Bits[Byte] = (UINT8)(Bits[Byte] ^ USB_HC_BIT (Bit))`
unfoldable pub flip_usb_hc_bit : Place → List ℕ → List ℕ
flip_usb_hc_bit (byte, bit) bits =
    set bits byte (u8 (bit_xor (get_or bits byte 0) (usb_hc_bit bit)))

-- `USB_HC_BIT_IS_SET (Bits[Byte], Bit)`
abbrev pub used_at : List ℕ → Place → Bool
used_at bits (byte, bit) = usb_hc_bit_is_set (get_or bits byte 0) bit

-- The unit that a place stands for, and whether a unit is in use.
abbrev pub unit_of : Place → ℕ
unit_of (byte, bit) = byte * 8 + bit

unfoldable pub used : List ℕ → ℕ → Bool
used bits k = used_at bits (k / 8, k % 8)

-- The elements of the bit array are bytes.
unfoldable pub AreBytes : List ℕ → Type 0
AreBytes bits = (i : ℕ) → get_or bits i 0 < 256

abbrev same : Bool → Bool → Bool
same a b = (if a then 1 else 0) == (if b then 1 else 0)

equal_of_same : (a b : Bool) → same a b ≡ true → a ≡ b
equal_of_same true true h = refl
equal_of_same true false h = ground (arith, h)
equal_of_same false true h = ground (arith, h)
equal_of_same false false h = refl

-- What a change of bit `k` of a byte does to the test of bit `j`.
or_at : ℕ → ℕ → ℕ → Bool
or_at x k j =
    same (usb_hc_bit_is_set (u8 (bit_or x (usb_hc_bit k))) j) ((j == k) || usb_hc_bit_is_set x j)

xor_at : ℕ → ℕ → ℕ → Bool
xor_at x k j =
    same (usb_hc_bit_is_set (u8 (bit_xor x (usb_hc_bit k))) j)
      (if j == k then not (usb_hc_bit_is_set x j) else usb_hc_bit_is_set x j)

-- A byte and two bits as the digits of one number, so that a table runs through them all.
module _ (f : ℕ → ℕ → ℕ → Bool) where
  on_digits : ℕ → Bool
  on_digits n = f (n % 256) (n / 256 % 8) (n / 2048)

  at_digits :
      passes_below on_digits 16384 ≡ true → (x k j : ℕ) → x < 256 → k < 8 → j < 8 → f x k j ≡ true
  unfolding on_digits
  at_digits table x k j byte bit other =
      let n : ℕ = j * 2048 + k * 256 + x in
      let low : n % 256 ≡ x = omega arith in
      let middle : n / 256 % 8 ≡ k = omega arith in
      let high : n / 2048 ≡ j = omega arith in
      cc (below_all_checked on_digits 16384 n (omega arith) table, low, middle, high)

or_table : passes_below (on_digits or_at) 16384 ≡ true
unfolding passes_below on_digits or_at
or_table = refl

xor_table : passes_below (on_digits xor_at) 16384 ≡ true
unfolding passes_below on_digits xor_at
xor_table = refl

module _ (x k j : ℕ) (byte : x < 256) (bit : k < 8) (other : j < 8) where
  or_bit : usb_hc_bit_is_set (u8 (bit_or x (usb_hc_bit k))) j ≡ ((j == k) || usb_hc_bit_is_set x j)
  unfolding or_at
  or_bit = equal_of_same _ _ (at_digits or_at or_table x k j byte bit other)

  xor_bit :
      usb_hc_bit_is_set (u8 (bit_xor x (usb_hc_bit k))) j
      ≡ (if j == k then not (usb_hc_bit_is_set x j) else usb_hc_bit_is_set x j)
  unfolding xor_at
  xor_bit = equal_of_same _ _ (at_digits xor_at xor_table x k j byte bit other)

pub length-set_usb_hc_bit :
    (at : Place) (bits : List ℕ) → length (set_usb_hc_bit at bits) ≡ length bits
unfolding set_usb_hc_bit
length-set_usb_hc_bit (byte, bit) bits = length-set bits byte _

pub length-flip_usb_hc_bit :
    (at : Place) (bits : List ℕ) → length (flip_usb_hc_bit at bits) ≡ length bits
unfolding flip_usb_hc_bit
length-flip_usb_hc_bit (byte, bit) bits = length-set bits byte _

-- Setting or flipping a bit of the array, by units.
module _ (bits : List ℕ) (bytes : AreBytes bits) (byte bit : ℕ) (inside : byte < length bits)
    (in_byte : bit < 8) where
  here_or_there :
      (j : ℕ)
      → ((j / 8 ≡ byte) × ((j == unit_of (byte, bit)) ≡ (j % 8 == bit)))
        ⊎ ((byte ≢ j / 8) × ((j == unit_of (byte, bit)) ≡ false))
  here_or_there j = ground arith

  stored : (j v : ℕ) → j / 8 ≡ byte → get_or (set bits byte v) (j / 8) 0 ≡ v
  stored j v e = ap (λ i. get_or (set bits byte v) i 0) e ∙ get_or-set_self bits byte v 0 inside

  pub used-set_usb_hc_bit :
      (j : ℕ)
      → used (set_usb_hc_bit (byte, bit) bits) j ≡ ((j == unit_of (byte, bit)) || used bits j)
  unfolding used set_usb_hc_bit AreBytes
  used-set_usb_hc_bit j = elim (here_or_there j) [
    | inl (e, q) ↦
        ap (λ x. usb_hc_bit_is_set x (j % 8)) (stored j _ e)
        ∙ or_bit (get_or bits byte 0) bit (j % 8) (bytes byte) in_byte (omega arith)
        ∙ ap₂ ◌||◌ (sym q) (ap (λ i. usb_hc_bit_is_set (get_or bits i 0) (j % 8)) (sym e))
    | inr (ne, q) ↦
        ap (λ x. usb_hc_bit_is_set x (j % 8)) (get_or-set_ne bits _ 0 ne)
        ∙ ap (λ b. b || used bits j) (sym q)
  ]

  pub used-flip_usb_hc_bit :
      (j : ℕ)
      → used (flip_usb_hc_bit (byte, bit) bits) j
        ≡ (if j == unit_of (byte, bit) then not (used bits j) else used bits j)
  unfolding used flip_usb_hc_bit AreBytes
  used-flip_usb_hc_bit j = elim (here_or_there j) [
    | inl (e, q) ↦
        ap (λ x. usb_hc_bit_is_set x (j % 8)) (stored j _ e)
        ∙ xor_bit (get_or bits byte 0) bit (j % 8) (bytes byte) in_byte (omega arith)
        ∙ ap₂ (λ b c. if b then not c else c) (sym q)
            (ap (λ i. usb_hc_bit_is_set (get_or bits i 0) (j % 8)) (sym e))
    | inr (ne, q) ↦
        ap (λ x. usb_hc_bit_is_set x (j % 8)) (get_or-set_ne bits _ 0 ne)
        ∙ ap (λ b. if b then not (used bits j) else used bits j) (sym q)
  ]

  stored-AreBytes : (v : ℕ) → v < 256 → AreBytes (set bits byte v)
  unfolding AreBytes
  stored-AreBytes v h i =
      let decided : (i ≡ byte) ⊎ (byte ≢ i) = ground arith in
      elim decided [
        | inl e ↦
            omega (
              arith,
              ap (λ k. get_or (set bits byte v) k 0) e,
              get_or-set_self bits byte v 0 inside,
            )
        | inr ne ↦ omega (arith, get_or-set_ne bits v 0 ne, bytes i)
      ]

  pub set_usb_hc_bit-AreBytes : AreBytes (set_usb_hc_bit (byte, bit) bits)
  unfolding set_usb_hc_bit
  set_usb_hc_bit-AreBytes = stored-AreBytes _ (omega arith)

  pub flip_usb_hc_bit-AreBytes : AreBytes (flip_usb_hc_bit (byte, bit) bits)
  unfolding flip_usb_hc_bit
  flip_usb_hc_bit-AreBytes = stored-AreBytes _ (omega arith)
