-- ===== src/Rtc/Clock/Total.antt =====
-- LibGetTime on every path.
use edk2_adlink_ampere_altra.Base.{
  ℕ, suc, ◌<◌, ◌≡◌, ◌≢◌, refl, arith, false, Option, some, none, leb, ◌==◌, Bool-cases, inl, inr,
  ◌||◌, Status, success,
}
use edk2_adlink_ampere_altra.Rtc.Types.{EfiTime, Devices, TimeBase, Rtc}
use edk2_adlink_ampere_altra.Rtc.Chip.{platform_get_time}
use edk2_adlink_ampere_altra.Rtc.Clock.{
  Call, returns, null_access, finish_get_time, get_from_chip, get_time_steps, lib_get_time,
}

module _ {W : Type 0} (dev : Devices W) (base : TimeBase) where
  -- The call returned EFI_SUCCESS, with some time.
  abbrev Returned : Call (Status × EfiTime × Rtc W) → Type 0
  Returned c = (t : EfiTime) × (s : Rtc W) × (c ≡ returns (success, t, s))

  finish_returns : (e : ℕ) (t : EfiTime) (s : Rtc W) → Returned (finish_get_time dev base e t s)
  unfolding finish_get_time
  finish_returns e t s = (_, _, refl)

  chip_returns :
      (t : EfiTime) (s : Rtc W)
      → Returned (get_from_chip dev base (platform_get_time dev (some t) s))
  unfolding platform_get_time get_from_chip
  chip_returns t s = finish_returns _ _ _

  -- With the saved epoch cleared LibGetTime reads the chip, whatever is left of the fuel.
  cleared_reads_chip :
      (fuel : ℕ) (time : Option EfiTime) (s : Rtc W)
      → s.last_saved_time_epoch ≡ 0
      → get_time_steps dev base (suc fuel) time s
        ≡ get_from_chip dev base (platform_get_time dev time s)
  unfolding get_time_steps
  cleared_reads_chip fuel time s e = rw (e, get_time_steps)

  steps_return : (t : EfiTime) (s : Rtc W) → Returned (get_time_steps dev base 2 (some t) s)
  unfolding get_time_steps
  steps_return t s = elim (Bool-cases (s.last_saved_time_epoch == 0 || dev.at_runtime s.world)) [
    | inl p ↦ rw p (chip_returns t s)
    | inr p ↦ elim (Bool-cases (leb s.last_saved_system_count (dev.system_count s.world).0)) [
      | inl q ↦ rw (p, q) (finish_returns _ _ _)
      | inr q ↦ rw (p, q) (chip_returns _ _)
    ]
  ]

  -- LibGetTime ends and returns EFI_SUCCESS in every state, also where the chip cannot be read: the
  -- EFI_DEVICE_ERROR of its documentation is never returned. This is for a time structure that is
  -- there.
  pub lib_get_time_total :
      (t : EfiTime) (s : Rtc W)
      → (t' : EfiTime) × (s' : Rtc W) × (lib_get_time dev base (some t) s
          ≡ returns (success, t', s'))
  unfolding lib_get_time
  lib_get_time_total t s = steps_return t s

  -- For a NULL pointer LibGetTime returns nothing, in no state: it writes or reads through it.
  pub lib_get_time_null : (s : Rtc W) → lib_get_time dev base none s ≡ null_access
  unfolding lib_get_time get_time_steps platform_get_time get_from_chip
  lib_get_time_null s = ground arith

  -- Where the generic timer has wrapped since the epoch was saved, LibGetTime reads the chip anew.
  pub lib_get_time_wrapped :
      (t : EfiTime) (s : Rtc W)
      → (dev.system_count s.world).0 < s.last_saved_system_count
      → s.last_saved_time_epoch ≢ 0
      → dev.at_runtime s.world ≡ false
      → lib_get_time dev base (some t) s
        ≡ get_from_chip dev base (
            platform_get_time dev
              (some t)
              (record s { last_saved_time_epoch = 0; world = (dev.system_count s.world).1 }))
  unfolding lib_get_time get_time_steps
  lib_get_time_wrapped t s wrapped saved boot = ground arith
