-- ===== src/FwUi/Outcome.antt =====
-- When the machine is reset, and what it finds then.
use edk2_adlink_ampere_altra.Base.{
  ℕ, suc, ◌≡◌, refl, ap, ◌∙◌, arith, Bool, true, false, ◌==◌, ◌||◌, if◌then◌else◌, Status, success,
  unsupported, is_error, inl, inr, Bool-cases, bit_or, bit_and,
}
use edk2_adlink_ampere_altra.FwUi.{Variables, set_boot_to_fw_ui, shell_app_main}

-- Of a world, the value of the variable OsIndications and how often the machine was reset: reading
-- changes neither and gives the value, a write that succeeds stores, and one that fails does not.
pub record KeepsVariables {W : Type 0} (vars : Variables W) (os_indications resets : W → ℕ)
    : Type 0 where
  pub by_supported :
      (w : W)
      → (os_indications (vars.get_os_indications_supported w).3 ≡ os_indications w)
        × (resets (vars.get_os_indications_supported w).3 ≡ resets w)
  pub by_get :
      (w : W)
      → (os_indications (vars.get_os_indications w).3 ≡ os_indications w)
        × (resets (vars.get_os_indications w).3 ≡ resets w)
  pub gets :
      (w : W)
      → is_error (vars.get_os_indications w).0 ≡ false
      → (vars.get_os_indications w).2 ≡ os_indications w
  pub sets :
      (v : ℕ) (w : W)
      → is_error (vars.set_os_indications v w).0 ≡ false
      → os_indications (vars.set_os_indications v w).1 ≡ v
  pub set_fails :
      (v : ℕ) (w : W)
      → is_error (vars.set_os_indications v w).0 ≡ true
      → os_indications (vars.set_os_indications v w).1 ≡ os_indications w
  pub by_set : (v : ℕ) (w : W) → resets (vars.set_os_indications v w).1 ≡ resets w
  pub by_reset : (w : W) → resets (vars.reset_cold w) ≡ suc (resets w)

or_false : (a b : Bool) → (a || b) ≡ false → a ≡ false
or_false a b h = ground arith

module _ {W : Type 0} (vars : Variables W) (os_indications resets : W → ℕ) where
  -- Whether a read of OsIndicationsSupported and one of OsIndications give no value, whether the
  -- former has the bit for the setup, and the world after both.
  abbrev pub is_unreadable : W → Bool
  is_unreadable w =
      is_error (vars.get_os_indications_supported w).0
      || (vars.get_os_indications_supported w).1 == 0

  abbrev pub is_unsupported : W → Bool
  is_unsupported w = bit_and (vars.get_os_indications_supported w).2 vars.boot_to_fw_ui == 0

  abbrev pub is_unknown : W → Bool
  is_unknown w = is_error (vars.get_os_indications w).0 || (vars.get_os_indications w).1 == 0

  abbrev pub when_read : W → W
  when_read w = (vars.get_os_indications (vars.get_os_indications_supported w).3).3

  -- OsIndications with the bit for the setup, beside the bits that it had, or beside none where it
  -- could not be read; and its store.
  abbrev pub wanted : W → ℕ
  wanted w =
      bit_or (if is_unknown (vars.get_os_indications_supported w).3 then 0 else os_indications w)
        vars.boot_to_fw_ui

  abbrev pub when_stored : W → Status × W
  when_stored w = vars.set_os_indications (wanted w) (when_read w)

  -- OsIndications is what it was, and the machine was not reset.
  abbrev pub Untouched : W → W → Type 0
  Untouched w w' = (os_indications w' ≡ os_indications w) × (resets w' ≡ resets w)

  pub data Outcome (w : W) (r : Status × W) : Type 0 where
    not_readable :
        is_unreadable w ≡ true
        → r.0 ≡ (vars.get_os_indications_supported w).0
        → Untouched w r.1
        → Outcome w r
    not_supported :
        is_unreadable w ≡ false
        → is_unsupported w ≡ true
        → r.0 ≡ unsupported
        → Untouched w r.1
        → Outcome w r
    not_stored :
        is_unreadable w ≡ false
        → is_unsupported w ≡ false
        → is_error (when_stored w).0 ≡ true
        → r.0 ≡ (when_stored w).0
        → Untouched w r.1
        → Outcome w r
    was_reset :
        (v : W)
        → is_unreadable w ≡ false
        → is_unsupported w ≡ false
        → is_error (when_stored w).0 ≡ false
        → r ≡ (success, vars.reset_cold v)
        → os_indications v ≡ wanted w
        → resets r.1 ≡ suc (resets w)
        → Outcome w r

module _ {W : Type 0} (vars : Variables W) (os_indications resets : W → ℕ)
    (keeps : KeepsVariables vars os_indications resets) where
  -- The value that is read, in terms of what the variable is.
  read_lem :
      (w : W)
      → let w₀ = (vars.get_os_indications_supported w).3 in
        let unknown = is_unknown vars os_indications resets w₀ in
        (if unknown then 0 else (vars.get_os_indications w₀).2)
        ≡ (if unknown then 0 else os_indications w)
  read_lem w =
      let w₀ = (vars.get_os_indications_supported w).3 in
      elim (Bool-cases (is_unknown vars os_indications resets w₀)) [
        | inl p ↦ rw p refl
        | inr p ↦ rw p (keeps.gets w₀ (or_false _ _ p) ∙ (keeps.by_supported w).0)
      ]

  set_boot_to_fw_ui_lem :
      (w : W)
      → let r = when_stored vars os_indications resets w in
        set_boot_to_fw_ui vars (vars.get_os_indications_supported w).3
        ≡ (if is_error r.0 then (r.0, r.1) else (success, vars.reset_cold r.1))
  unfolding set_boot_to_fw_ui
  set_boot_to_fw_ui_lem w =
      ap
        (λ old.
          let r =
            vars.set_os_indications (bit_or old vars.boot_to_fw_ui)
              (when_read vars os_indications resets w) in
          if is_error r.0 then (r.0, r.1) else (success, vars.reset_cold r.1))
        (read_lem w)

  when_read-Untouched :
      (w : W) → Untouched vars os_indications resets w (when_read vars os_indications resets w)
  when_read-Untouched w =
      let w₀ = (vars.get_os_indications_supported w).3 in
      (
        (keeps.by_get w₀).0 ∙ (keeps.by_supported w).0,
        (keeps.by_get w₀).1 ∙ (keeps.by_supported w).1,
      )

  -- ShellAppMain ends in one of four ways. OsIndicationsSupported cannot be read, and the
  -- status is that of the read; or it lacks the bit for the firmware's setup, and the status is
  -- EFI_UNSUPPORTED; or OsIndications cannot be stored, and the status is that of the store: in
  -- these three OsIndications is what it was and the machine is not reset. Or the machine is
  -- reset once, from a world in which OsIndications has the bit for the setup beside the bits
  -- that it had before, or beside none exactly where it could not be read.
  pub shell_app_main-Outcome :
      (w : W) → Outcome vars os_indications resets w (shell_app_main vars w)
  unfolding shell_app_main
  shell_app_main-Outcome w = elim (Bool-cases (is_unreadable vars os_indications resets w)) [
    | inl p ↦ rw p (not_readable p refl (keeps.by_supported w))
    | inr p ↦ elim (Bool-cases (is_unsupported vars os_indications resets w)) [
      | inl q ↦ rw (p, q) (not_supported p q refl (keeps.by_supported w))
      | inr q ↦
          rw (p, q, set_boot_to_fw_ui_lem w)
            (elim (Bool-cases (is_error stored.0)) [
              | inl bad ↦ rw bad (
                  not_stored p q bad refl
                    (keeps.set_fails asked there bad ∙ same.0, keeps.by_set asked there ∙ same.1))
              | inr fine ↦ rw fine (
                  was_reset stored.1 p q fine refl (keeps.sets asked there fine)
                    (keeps.by_reset stored.1 ∙ ap suc (keeps.by_set asked there ∙ same.1)))
            ])
    ]
  ]
    where
      asked : ℕ
      asked = wanted vars os_indications resets w

      there : W
      there = when_read vars os_indications resets w

      stored : Status × W
      stored = when_stored vars os_indications resets w

      same : Untouched vars os_indications resets w there
      same = when_read-Untouched w
