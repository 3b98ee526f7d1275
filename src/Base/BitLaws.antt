-- ===== src/Base/BitLaws.antt =====
-- The binary digits of a number, and of `bit_and` and `bit_or` of two numbers.
use Prim.Native.Nat.{
  ℕ, zero, suc, ◌+◌, ◌*◌, ◌/◌, ◌%◌, ◌≤◌, min, max, bit_and, bit_or, bit_and-bitwise, bit_or-bitwise,
  digits, bitwise,
}
use mathlib.Core.Path.{◌≡◌, refl, ap, ◌∙◌}
use mathlib.Core.Bool.{Bool, false, ◌&&◌, ◌||◌}
use native.Mathlib.Omega.{arith}
use edk2_adlink_ampere_altra.Base.Tests.{◌==◌}

-- Digit `k`, the lowest first.
abbrev pub bit_at : ℕ → ℕ → Bool
bit_at zero x = x % 2 == 1
bit_at (suc k) x = bit_at k (x / 2)

-- An operation on digits, where what it gives once the first number has run out is the operation too.
module _ (rest : ℕ → ℕ) (op : ℕ → ℕ → ℕ)
    (run_out : (b : ℕ) → rest b ≡ rest (b / 2) * 2 + op 0 (b % 2)) where
  enough : (n m a b : ℕ) → a ≤ n → a ≤ m → digits rest op n a b ≡ digits rest op m a b
  enough zero zero a b p q = refl
  enough zero (suc m) zero b p q = refl
  enough (suc n) zero zero b p q = refl
  enough (suc n) (suc m) zero b p q = refl
  enough zero (suc m) (suc a) b p q = absurd (omega arith)
  enough (suc n) zero (suc a) b p q = absurd (omega arith)
  enough (suc n) (suc m) (suc a) b p q =
      ap (λ k. k * 2 + op (suc a % 2) (b % 2))
        (enough n m (suc a / 2) (b / 2) (omega arith) (omega arith))

  bitwise_digit :
      (a b : ℕ) → bitwise rest op a b ≡ bitwise rest op (a / 2) (b / 2) * 2 + op (a % 2) (b % 2)
  bitwise_digit zero b = run_out b
  bitwise_digit (suc a) b =
      ap (λ k. k * 2 + op (suc a % 2) (b % 2))
        (enough a (suc a / 2) (suc a / 2) (b / 2) (omega arith) (omega arith))

and_digit : (a b : ℕ) → bit_and a b ≡ bit_and (a / 2) (b / 2) * 2 + min (a % 2) (b % 2)
and_digit a b = omega (
  arith,
  bit_and-bitwise a b,
  bit_and-bitwise (a / 2) (b / 2),
  bitwise_digit (λ b. zero) min (λ b. omega arith) a b,
)

or_digit : (a b : ℕ) → bit_or a b ≡ bit_or (a / 2) (b / 2) * 2 + max (a % 2) (b % 2)
or_digit a b = omega (
  arith,
  bit_or-bitwise a b,
  bit_or-bitwise (a / 2) (b / 2),
  bitwise_digit (λ b. b) max (λ b. omega arith) a b,
)

pub bit_at-bit_and : (k a b : ℕ) → bit_at k (bit_and a b) ≡ (bit_at k a && bit_at k b)
bit_at-bit_and zero a b = ground (arith, and_digit a b)
bit_at-bit_and (suc k) a b =
    let half : bit_and a b / 2 ≡ bit_and (a / 2) (b / 2) = omega (arith, and_digit a b) in
    ap (bit_at k) half ∙ bit_at-bit_and k (a / 2) (b / 2)

pub bit_at-bit_or : (k a b : ℕ) → bit_at k (bit_or a b) ≡ (bit_at k a || bit_at k b)
bit_at-bit_or zero a b = ground (arith, or_digit a b)
bit_at-bit_or (suc k) a b =
    let half : bit_or a b / 2 ≡ bit_or (a / 2) (b / 2) = omega (arith, or_digit a b) in
    ap (bit_at k) half ∙ bit_at-bit_or k (a / 2) (b / 2)

bit_and-zero_below : (n a : ℕ) → a ≤ n → bit_and a 0 ≡ 0
bit_and-zero_below zero zero h = refl
bit_and-zero_below zero (suc a) h = absurd (omega arith)
bit_and-zero_below (suc n) zero h = refl
bit_and-zero_below (suc n) (suc a) h =
    omega (arith, and_digit (suc a) 0, bit_and-zero_below n (suc a / 2) (omega arith))

and_odd : (m x : ℕ) → bit_and x (m * 2 + 1) ≡ bit_and (x / 2) m * 2 + x % 2
and_odd m x =
    let half : (m * 2 + 1) / 2 ≡ m = omega arith in
    omega (arith, and_digit x (m * 2 + 1), ap (bit_and (x / 2)) half)

-- The lowest four digits, and the lowest byte.
pub bit_and-nibble : (y : ℕ) → bit_and y 15 ≡ y % 16
bit_and-nibble y = omega (
  arith,
  and_odd 7 y,
  and_odd 3 (y / 2),
  and_odd 1 (y / 2 / 2),
  and_odd 0 (y / 2 / 2 / 2),
  bit_and-zero_below (y / 2 / 2 / 2 / 2) (y / 2 / 2 / 2 / 2) (omega arith),
)

pub bit_and-byte : (a : ℕ) → bit_and a 0xFF ≡ a % 256
bit_and-byte a = omega (
  arith,
  and_odd 127 a,
  and_odd 63 (a / 2),
  and_odd 31 (a / 2 / 2),
  and_odd 15 (a / 2 / 2 / 2),
  bit_and-nibble (a / 2 / 2 / 2 / 2),
)

-- The number with digit `k` alone.
abbrev pub pow2 : ℕ → ℕ
pow2 zero = 1
pow2 (suc k) = pow2 k * 2

-- A number without its lowest `k` digits.
abbrev pub halves : ℕ → ℕ → ℕ
halves zero x = x
halves (suc k) x = halves k (x / 2)

-- Four digits from digit `k` on.
pub halves-bit_and : (k x m : ℕ) → halves k (bit_and x (m * pow2 k)) ≡ bit_and (halves k x) m
halves-bit_and zero x m = ap (bit_and x) (omega arith)
halves-bit_and (suc k) x m =
    let half : m * (pow2 k * 2) / 2 ≡ m * pow2 k = grind arith in
    let digit : bit_and x (m * (pow2 k * 2)) / 2 ≡ bit_and (x / 2) (m * pow2 k) =
      omega (arith, and_digit x (m * (pow2 k * 2)), ap (bit_and (x / 2)) half) in
    ap (halves k) digit ∙ halves-bit_and k (x / 2) m

-- Testing for a digit by a mask.
pub bit_and-pow2 : (k x : ℕ) → (bit_and x (pow2 k) == pow2 k) ≡ bit_at k x
bit_and-pow2 zero x = ground (arith, and_digit x 1, bit_and-zero_below (x / 2) (x / 2))
bit_and-pow2 (suc k) x =
    let half : pow2 k * 2 / 2 ≡ pow2 k = omega arith in
    let digit : bit_and x (pow2 k * 2) ≡ bit_and (x / 2) (pow2 k) * 2 =
      omega (arith, and_digit x (pow2 k * 2), ap (bit_and (x / 2)) half) in
    ap (λ y. y == pow2 k * 2) digit
    ∙ doubled (bit_and (x / 2) (pow2 k)) (pow2 k)
    ∙ bit_and-pow2 k (x / 2)
  where
    doubled : (a b : ℕ) → (a * 2 == b * 2) ≡ (a == b)
    doubled a b = ground arith

pub bit_at-zero : (k : ℕ) → bit_at k 0 ≡ false
bit_at-zero zero = refl
bit_at-zero (suc k) = bit_at-zero k
