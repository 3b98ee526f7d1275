-- ===== src/PostCode/Laws.antt =====
-- What goes out for a POST code.
use edk2_adlink_ampere_altra.Base.{
  ℕ, ◌≡◌, ◌≢◌, refl, false, List, ==_false, u8, ◌⊎◌, inl, inr, Bool-cases,
}
use edk2_adlink_ampere_altra.Print.{PrintLib}
use edk2_adlink_ampere_altra.Mmc.{Uart, mmc_post_code, post_code_frame}
use edk2_adlink_ampere_altra.PostCode.{
  Properties, post_code_enabled, post_code, post_code_with_description,
}

module _ {W : Type 0} (uart : Uart W) (print : PrintLib) (p : Properties) where
  -- Only the low byte of a POST code reaches the MMC: two codes that are not 0 and have the same low
  -- byte send the same, with and without a description, while each call returns its own code.
  pub post_code_low_byte :
      (a b : ℕ) (description : List ℕ) (w : W)
      → a ≢ 0
      → b ≢ 0
      → u8 a ≡ u8 b
      → (post_code uart print p a w ≡ (a, (post_code uart print p b w).1))
        × (post_code_with_description uart print p a description w
            ≡ (a, (post_code_with_description uart print p b description w).1))
  unfolding post_code post_code_with_description mmc_post_code post_code_frame
  post_code_low_byte a b description w ha hb e =
      rw (==_false a 0 ha, ==_false b 0 hb, e) (refl, refl)

  -- A POST code of 0, or one sent while POST codes are disabled, leaves the UART alone.
  pub post_code_silent :
      (value : ℕ) (w : W)
      → (value ≡ 0) ⊎ (post_code_enabled p ≡ false)
      → post_code uart print p value w ≡ (value, w)
  unfolding post_code
  post_code_silent value w (inl e) = elim (Bool-cases (post_code_enabled p)) [
    | inl on ↦ rw (on, e)
    | inr off ↦ rw off
  ]
  post_code_silent value w (inr e) = rw e
