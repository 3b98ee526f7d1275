-- ===== src/Base/Rotation.antt =====
-- A list of slots written round and round: reading it from the next slot to be written gives the
-- writes of the last round in order.
use Prim.Native.Nat.{ℕ, zero, suc, ◌-◌, ◌<◌, ◌≤◌}
use mathlib.Core.Path.{◌≡◌, refl, ap, ap₂, ◌∙◌}
use mathlib.Core.List.{List, [], ◌∷◌, ◌++◌, append-nil, append_assoc}
use native.Mathlib.Omega.{arith}
use edk2_adlink_ampere_altra.Base.Lists.{
  length, set, take, drop, length-append, take_all, drop_all, length-drop, take-append_le,
}

module _ {ℓ} {A : Type ℓ} where
  -- The slots from `i` on, then those before it.
  abbrev pub rotated : List A → ℕ → List A
  rotated xs i = drop i xs ++ take i xs

  -- The last `m` elements.
  abbrev pub last_n : ℕ → List A → List A
  last_n m xs = drop (length xs - m) xs

  pub take-set_self : (xs : List A) (i : ℕ) (v : A) → take i (set xs i v) ≡ take i xs
  take-set_self [] zero v = refl
  take-set_self [] (suc i) v = refl
  take-set_self (x ∷ xs) zero v = refl
  take-set_self (x ∷ xs) (suc i) v = ap (λ k. x ∷ k) (take-set_self xs i v)

  pub take-suc-set :
      (xs : List A) (i : ℕ) (v : A)
      → i < length xs
      → take (suc i) (set xs i v) ≡ take i xs ++ (v ∷ [])
  take-suc-set [] i v h = absurd (omega arith)
  take-suc-set (x ∷ xs) zero v h = refl
  take-suc-set (x ∷ xs) (suc i) v h = ap (λ k. x ∷ k) (take-suc-set xs i v (omega arith))

  pub drop-suc-set : (xs : List A) (i : ℕ) (v : A) → drop (suc i) (set xs i v) ≡ drop (suc i) xs
  drop-suc-set [] i v = refl
  drop-suc-set (x ∷ xs) zero v = refl
  drop-suc-set (x ∷ xs) (suc i) v = drop-suc-set xs i v

  drop-suc-drop : (n : ℕ) (xs : List A) → drop (suc n) xs ≡ drop 1 (drop n xs)
  drop-suc-drop zero xs = refl
  drop-suc-drop (suc n) [] = refl
  drop-suc-drop (suc n) (x ∷ xs) = drop-suc-drop n xs

  pub drop-append_le :
      (n : ℕ) (xs ys : List A) → n ≤ length xs → drop n (xs ++ ys) ≡ drop n xs ++ ys
  drop-append_le zero xs ys h = refl
  drop-append_le (suc n) [] ys h = absurd (omega arith)
  drop-append_le (suc n) (x ∷ xs) ys h = drop-append_le n xs ys (omega arith)

  pub take-append-drop : (n : ℕ) (xs : List A) → take n xs ++ drop n xs ≡ xs
  take-append-drop zero xs = refl
  take-append-drop (suc n) [] = refl
  take-append-drop (suc n) (x ∷ xs) = ap (λ k. x ∷ k) (take-append-drop n xs)

  length-drop_pos : (n : ℕ) (xs : List A) → n < length xs → 1 ≤ length (drop n xs)
  length-drop_pos zero xs h = h
  length-drop_pos (suc n) [] h = absurd (omega arith)
  length-drop_pos (suc n) (x ∷ xs) h = length-drop_pos n xs (omega arith)

  -- Writing the oldest slot and stepping past it drops the oldest and appends the new one.
  pub rotated-set :
      (xs : List A) (i : ℕ) (v : A)
      → i < length xs
      → rotated (set xs i v) (suc i) ≡ drop 1 (rotated xs i) ++ (v ∷ [])
  rotated-set xs i v h = rw (
    drop-suc-set xs i v,
    take-suc-set xs i v h,
    drop-suc-drop i xs,
    drop-append_le 1 (drop i xs) (take i xs) (length-drop_pos i xs h),
    append_assoc,
  )

  -- All slots, read from the end, are all slots read from the start.
  pub rotated_full : (xs : List A) (i : ℕ) → i ≡ length xs → rotated xs i ≡ rotated xs 0
  rotated_full xs i e = rw (drop_all i xs (omega arith), take_all i xs (omega arith), append-nil)

  pub last_n-append :
      (m : ℕ) (xs : List A) (v : A)
      → 0 < m
      → m ≤ length xs
      → last_n m (xs ++ (v ∷ [])) ≡ drop 1 (last_n m xs) ++ (v ∷ [])
  last_n-append m xs v p h =
      ap (λ k. drop k (xs ++ (v ∷ []))) {y = suc (length xs - m)}
        (omega (arith, length-append xs (v ∷ [])))
      ∙ drop-append_le (suc (length xs - m)) xs (v ∷ []) (omega arith)
      ∙ ap (λ k. k ++ (v ∷ [])) (drop-suc-drop (length xs - m) xs)

  pub last_n_short : (m : ℕ) (xs : List A) → length xs ≤ m → last_n m xs ≡ xs
  last_n_short m xs h = ap (λ k. drop k xs) {y = 0} (omega arith)

  -- Undoing a rotation by `i` of all slots.
  pub unrotated :
      (xs : List A) (i : ℕ)
      → i ≤ length xs
      → drop (length xs - i) (rotated xs i) ++ take (length xs - i) (rotated xs i) ≡ xs
  unrotated xs i h =
      let size : length (drop i xs) ≡ length xs - i = length-drop i xs in
      ap₂ ◌++◌
        (drop-append_le (length xs - i) (drop i xs) (take i xs) (omega (arith, size))
          ∙ ap (λ k. k ++ take i xs) (drop_all (length xs - i) (drop i xs) (omega (arith, size))))
        (take-append_le (length xs - i) (drop i xs) (take i xs) (omega (arith, size))
          ∙ take_all (length xs - i) (drop i xs) (omega (arith, size)))
      ∙ take-append-drop i xs
