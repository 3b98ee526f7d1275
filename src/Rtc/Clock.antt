-- ===== src/Rtc/Clock.antt =====
-- Library/PCF8563RealTimeClockLib/PCF8563RealTimeClockLib.c: the runtime services GetTime and
-- SetTime over the chip, with the epoch that is saved at boot time and carried on by the generic
-- timer. UINTN and UINT64 arithmetic wraps at 2^64.
pub mod Elapsed
pub mod Total
use edk2_adlink_ampere_altra.Base.{
  ℕ, zero, suc, ◌+◌, ◌-◌, ◌*◌, ◌/◌, Bool, true, false, not, ◌&&◌, ◌||◌, Option, none, some, ◌==◌,
  leb, bit_and, if◌then◌else◌, u32, u64, sub64, ℤ, pos, negsuc, word64, Status, success,
  unsupported, is_error,
}
use edk2_adlink_ampere_altra.Rtc.Types.{EfiTime, Devices, TimeBase, Rtc}
use edk2_adlink_ampere_altra.Rtc.Chip.{platform_get_time, platform_set_time, platform_initialize}

-- What a call does: it returns, or it goes through a NULL pointer, or the fuel of its recursion ran
-- out.
pub data Call (A : Type 0) : Type 0 where
  returns : A → Call A
  null_access : Call A
  unfinished : Call A

abbrev pub eq_ℤ : ℤ → ℤ → Bool
eq_ℤ (pos a) (pos b) = a == b
eq_ℤ (negsuc a) (negsuc b) = a == b
eq_ℤ _ _ = false

-- The time that stands in for one that cannot be read: 2017-01-01, 10:00:00.
abbrev pub fake_time : EfiTime → EfiTime
fake_time t = record t { second = 0; minute = 0; hour = 10; day = 1; month = 1; year = 2017 }

module _ {W : Type 0} (dev : Devices W) (base : TimeBase) where
  open dev use {at_runtime, system_count, timer_freq}
  open base use {
    efi_time_to_epoch, epoch_to_efi_time, sec_per_min, sec_per_hour, unspecified_timezone,
    time_in_daylight,
  }

  -- `Time->TimeZone * SEC_PER_MIN` and the hour of daylight saving, as 64-bit words.
  unfoldable pub zone_seconds : EfiTime → ℕ
  zone_seconds t =
      if eq_ℤ t.time_zone unspecified_timezone then 0 else u64 (word64 t.time_zone * sec_per_min)

  unfoldable pub daylight_seconds : EfiTime → ℕ
  daylight_seconds t =
      if bit_and t.daylight time_in_daylight == time_in_daylight then u64 sec_per_hour else 0

  -- The end of LibGetTime, from the time zone on.
  unfoldable pub finish_get_time : ℕ → EfiTime → Rtc W → Call (Status × EfiTime × Rtc W)
  finish_get_time epoch_seconds t s =
      let zoned = u64 (epoch_seconds + zone_seconds t) in
      let adjusted = u64 (zoned + daylight_seconds t) in
      returns (success, epoch_to_efi_time adjusted t, s)

  -- LibGetTime, where it reads the chip. The status and the time of PlatformGetTime come first.
  unfoldable pub get_from_chip : Status × Option EfiTime × Rtc W → Call (Status × EfiTime × Rtc W)
  get_from_chip (status, none, s) = null_access
  get_from_chip (status, some t, s) =
      let t' = if is_error status then fake_time t else t in
      let epoch_seconds = u64 (efi_time_to_epoch t') in
      let (count, w) = system_count s.world in
      let saved = record s {
        last_saved_time_epoch = epoch_seconds;
        last_saved_system_count = count;
        world = w;
      } in
      finish_get_time epoch_seconds t' (if not (at_runtime s.world) then saved else s)

  -- LibGetTime. It calls itself once at most, with the saved epoch cleared.
  unfoldable pub get_time_steps : ℕ → Option EfiTime → Rtc W → Call (Status × EfiTime × Rtc W)
  get_time_steps zero time s = unfinished
  get_time_steps (suc fuel) time s =
      let (count, w) = system_count s.world in
      let counted = record s { world = w } in
      let again = get_time_steps fuel time (record counted { last_saved_time_epoch = 0 }) in
      let elapsed = (count - s.last_saved_system_count) / u32 (timer_freq w) in
      let carried_on : Call (Status × EfiTime × Rtc W) = elim time [
        | none ↦ null_access
        | some t ↦ finish_get_time (u64 (s.last_saved_time_epoch + elapsed)) t counted
      ] in
      if s.last_saved_time_epoch == 0 || at_runtime s.world
      then get_from_chip (platform_get_time dev time s)
      else if leb s.last_saved_system_count count
      then carried_on
      else again

  unfoldable pub lib_get_time : Option EfiTime → Rtc W → Call (Status × EfiTime × Rtc W)
  lib_get_time = get_time_steps 2

  -- LibSetTime. It leaves the time in UTC in the caller's structure.
  unfoldable pub lib_set_time : Option EfiTime → Rtc W → Call (Status × EfiTime × Rtc W)
  lib_set_time none s = null_access
  lib_set_time (some t) s =
      let unzoned = sub64 (u64 (efi_time_to_epoch t)) (zone_seconds t) in
      let epoch_seconds = sub64 unzoned (daylight_seconds t) in
      let utc = epoch_to_efi_time epoch_seconds t in
      let (status, s') = platform_set_time dev (some utc) s in
      let (count, w) = system_count s'.world in
      let saved = record s' {
        last_saved_time_epoch = epoch_seconds;
        last_saved_system_count = count;
        world = w;
      } in
      if is_error status
      then returns (status, utc, s')
      else returns (success, utc, if not (at_runtime s'.world) then saved else s')

  -- LibRtcInitialize, with the status of CreateEventEx, which it only asserts.
  unfoldable pub lib_rtc_initialize : Rtc W → Status × Rtc W
  lib_rtc_initialize s =
      let (status, s') = platform_initialize dev s in
      if is_error status then (status, s') else (success, s')

-- LibGetWakeupTime and LibSetWakeupTime: the board has no wakeup timer.
unfoldable pub lib_get_wakeup_time : Status
lib_get_wakeup_time = unsupported

unfoldable pub lib_set_wakeup_time : Bool → EfiTime → Status
lib_set_wakeup_time enabled time = unsupported
