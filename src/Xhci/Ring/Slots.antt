-- ===== src/Xhci/Ring/Slots.antt =====
-- XhcSyncTrsRing step by step, on a ring that is split at the enqueue pointer.
use edk2_adlink_ampere_altra.Base.{
  ℕ, suc, ◌≡◌, refl, ap, true, false, some, List, [], ◌∷◌, ◌++◌, ◌==◌, length, get_elem?, get_or,
  set, arith,
}
use edk2_adlink_ampere_altra.Xhci.Trb.{Trb, bit0, toggled, is_link, stamp}
use edk2_adlink_ampere_altra.Xhci.Ring.{pass_link, sync_steps}

module _ {ℓ} {A : Type ℓ} where
  pub get_elem?-append :
      (xs : List A) (y : A) (ys : List A) → get_elem? (xs ++ (y ∷ ys)) (length xs) ≡ some y
  get_elem?-append [] y ys = refl
  get_elem?-append (x ∷ xs) y ys = get_elem?-append xs y ys

  pub get_elem?-append_suc :
      (xs : List A) (y z : A) (zs : List A)
      → get_elem? (xs ++ (y ∷ z ∷ zs)) (suc (length xs)) ≡ some z
  get_elem?-append_suc [] y z zs = refl
  get_elem?-append_suc (x ∷ xs) y z zs = get_elem?-append_suc xs y z zs

  pub get_or-append :
      (xs : List A) (y : A) (ys : List A) (d : A) → get_or (xs ++ (y ∷ ys)) (length xs) d ≡ y
  get_or-append [] y ys d = refl
  get_or-append (x ∷ xs) y ys d = get_or-append xs y ys d

  pub get_or-append_suc :
      (xs : List A) (y z : A) (zs : List A) (d : A)
      → get_or (xs ++ (y ∷ z ∷ zs)) (suc (length xs)) d ≡ z
  get_or-append_suc [] y z zs d = refl
  get_or-append_suc (x ∷ xs) y z zs d = get_or-append_suc xs y z zs d

  pub set-append :
      (xs : List A) (y : A) (ys : List A) (v : A)
      → set (xs ++ (y ∷ ys)) (length xs) v ≡ xs ++ (v ∷ ys)
  set-append [] y ys v = refl
  set-append (x ∷ xs) y ys v = ap (λ k. x ∷ k) (set-append xs y ys v)

  pub set-append_suc :
      (xs : List A) (y z : A) (zs : List A) (v : A)
      → set (xs ++ (y ∷ z ∷ zs)) (suc (length xs)) v ≡ xs ++ (y ∷ v ∷ zs)
  set-append_suc [] y z zs v = refl
  set-append_suc (x ∷ xs) y z zs v = ap (λ k. x ∷ k) (set-append_suc xs y z zs v)

-- A block with another cycle bit than the driver's ends the loop where it stands.
pub sync_stays :
    (rounds : ℕ) (xs : List Trb) (f : Trb) (rest : List Trb) (c : ℕ)
    → (f.cycle_bit == bit0 c) ≡ false
    → sync_steps (suc rounds) (xs ++ (f ∷ rest)) c (length xs)
      ≡ some (xs ++ (f ∷ rest), c, length xs)
unfolding sync_steps
sync_stays rounds xs f rest c other = ground (arith, get_elem?-append xs f rest)

-- The loop steps over a block that was written, to the next one, if that is no link.
pub sync_advances :
    (rounds : ℕ) (xs : List Trb) (t o : Trb) (rest : List Trb) (c : ℕ)
    → (t.cycle_bit == bit0 c) ≡ true
    → is_link o ≡ false
    → (o.cycle_bit == bit0 c) ≡ false
    → sync_steps (suc (suc rounds)) (xs ++ (t ∷ o ∷ rest)) c (length xs)
      ≡ some (xs ++ (t ∷ o ∷ rest), c, suc (length xs))
unfolding sync_steps pass_link
sync_advances rounds xs t o rest c written no_link other =
    ground (arith, get_elem?-append xs t (o ∷ rest), get_elem?-append_suc xs t o rest)

-- At the link the loop goes on at the first block, with the cycle state toggled.
pub sync_wraps :
    (rounds : ℕ) (xs : List Trb) (t l h : Trb) (rest : List Trb) (c : ℕ)
    → (t.cycle_bit == bit0 c) ≡ true
    → is_link l ≡ true
    → xs ++ (t ∷ stamp (bit0 c) l ∷ []) ≡ h ∷ rest
    → (h.cycle_bit == bit0 (toggled c)) ≡ false
    → sync_steps (suc (suc rounds)) (xs ++ (t ∷ l ∷ [])) c (length xs)
      ≡ some (h ∷ rest, toggled c, 0)
unfolding sync_steps pass_link
sync_wraps rounds xs t l h rest c written link first other = ground (
  arith,
  get_elem?-append xs t (l ∷ []),
  get_elem?-append_suc xs t l [],
  set-append_suc xs t l [] (stamp (bit0 c) l),
)
