-- ===== src/StatusCode/Journal/Window.antt =====
-- The slots of both memory workers as a window on the history of the status codes reported, and how one report moves it.
use edk2_adlink_ampere_altra.Base.{
  ℕ, suc, ◌+◌, ◌≤◌, ◌<◌, ◌≡◌, refl, sym, ap, ◌∙◌, List, [], ◌∷◌, ◌++◌, arith, if◌then◌else◌, ◌==◌,
  Bool-cases, ==_iff, ==_false, inl, inr, length, set, take, drop, rotated, last_n, take-suc-set,
  rotated-set, rotated_full, last_n-append, last_n_short, length-set, length-append, drop_all,
}
use edk2_adlink_ampere_altra.StatusCode.Journal.{Entry}

-- `slots` holds the end of `history`, and the next entry goes to slot `index` of `m`.
pub record Tracks (m : ℕ) (slots : List Entry) (index : ℕ) (history : List Entry) : Type 0 where
  pub sized : length slots ≡ m
  pub in_range : index < m
  pub early_index : length history < m → index ≡ length history
  pub early : length history < m → take index slots ≡ history
  pub late : m ≤ length history → rotated slots index ≡ last_n m history

-- The index after slot `i`.
abbrev pub after : ℕ → ℕ → ℕ
after m i = if suc i == m then 0 else suc i

module _ {m : ℕ} {slots : List Entry} {i : ℕ} {history : List Entry} (e : Entry)
    (t : Tracks m slots i history) where
  snoc-length : length (history ++ (e ∷ [])) ≡ length history + 1
  snoc-length = length-append history (e ∷ [])

  early_step : length history < m → take (suc i) (set slots i e) ≡ history ++ (e ∷ [])
  early_step h =
      take-suc-set slots i e (omega (arith, t.sized, t.in_range))
      ∙ ap (λ k. k ++ (e ∷ [])) (t.early h)

  full_step :
      suc (length history) ≡ m → rotated (set slots i e) (suc i) ≡ last_n m (history ++ (e ∷ []))
  full_step h =
      ap (λ k. k ++ take (suc i) (set slots i e))
        (drop_all (suc i) (set slots i e)
          (omega (arith, length-set slots i e, t.sized, t.early_index)))
      ∙ early_step (omega arith)
      ∙ sym (last_n_short m (history ++ (e ∷ [])) (omega (arith, snoc-length)))

  late_step : m ≤ length history → rotated (set slots i e) (suc i) ≡ last_n m (history ++ (e ∷ []))
  late_step h =
      rotated-set slots i e (omega (arith, t.sized, t.in_range))
      ∙ ap (λ k. drop 1 k ++ (e ∷ [])) (t.late h)
      ∙ sym (last_n-append m history e (omega (arith, t.in_range)) h)

  rotated_step :
      m ≤ suc (length history) → rotated (set slots i e) (suc i) ≡ last_n m (history ++ (e ∷ []))
  rotated_step h = elim (Bool-cases (suc (length history) == m)) [
    | inl p ↦ full_step ((==_iff _ m).0 p)
    | inr p ↦ late_step (ground arith)
  ]

  wrap_step : rotated (set slots i e) (after m i) ≡ rotated (set slots i e) (suc i)
  wrap_step = elim (Bool-cases (suc i == m)) [
    | inl p ↦ rw p (
        sym (
          rotated_full (set slots i e) (suc i)
            (omega (arith, (==_iff (suc i) m).0 p, length-set slots i e, t.sized))))
    | inr p ↦ rw p
  ]

  -- One more entry in the slot at the index keeps the window on the longer history.
  pub Tracks-set : Tracks m (set slots i e) (after m i) (history ++ (e ∷ []))
  Tracks-set = record {
    sized = length-set slots i e ∙ t.sized;
    in_range = ground (arith, t.in_range);
    early_index = ground (arith, snoc-length, t.early_index);
    early = λ h.
        rw (==_false (suc i) m (omega (arith, h, snoc-length, t.early_index)))
          (early_step (omega (arith, snoc-length)));
    late = λ h. wrap_step ∙ rotated_step (omega (arith, snoc-length));
  }

-- A pool in which nothing is recorded yet.
pub Tracks-nil : (m : ℕ) (slots : List Entry) → 0 < m → length slots ≡ m → Tracks m slots 0 []
Tracks-nil m slots p h = record {
  sized = h;
  in_range = p;
  early_index = λ _. refl;
  early = λ _. refl;
  late = λ q. absurd (omega arith);
}
