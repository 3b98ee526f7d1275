-- ===== src/Rtc/Clock/Elapsed.antt =====
-- A time that was set comes back with the seconds that have passed since.
use edk2_adlink_ampere_altra.Base.{
  ℕ, ◌+◌, ◌-◌, ◌/◌, ◌^◌, ◌≤◌, ◌<◌, ◌≡◌, ◌≢◌, ap, ◌∙◌, arith, false, some, u32, u64, sub64, success,
}
use edk2_adlink_ampere_altra.Rtc.Types.{EfiTime, Devices, TimeBase, Rtc}
use edk2_adlink_ampere_altra.Rtc.Chip.{platform_set_time}
use edk2_adlink_ampere_altra.Rtc.Clock.{
  returns, zone_seconds, daylight_seconds, finish_get_time, get_time_steps, lib_get_time,
  lib_set_time,
}

-- Going to UTC and back on 64-bit words.
local_again :
    (epoch zone daylight elapsed : ℕ)
    → zone < 2 ^ 64
    → daylight < 2 ^ 64
    → u64 (u64 (u64 (sub64 (sub64 (u64 epoch) zone) daylight + elapsed) + zone) + daylight)
      ≡ u64 (epoch + elapsed)
local_again epoch zone daylight elapsed p q = omega arith

module _ {W : Type 0} (dev : Devices W) (base : TimeBase) where
  zone_seconds-lt : (t : EfiTime) → zone_seconds dev base t < 2 ^ 64
  unfolding zone_seconds
  zone_seconds-lt t = ground arith

  daylight_seconds-lt : (t : EfiTime) → daylight_seconds dev base t < 2 ^ 64
  unfolding daylight_seconds
  daylight_seconds-lt t = ground arith

  set_saves :
      (t utc : EfiTime) (s s' : Rtc W)
      → ((w : W) → dev.at_runtime w ≡ false)
      → lib_set_time dev base (some t) s ≡ returns (success, utc, s')
      → s'.last_saved_time_epoch
        ≡ sub64
            (sub64 (u64 (base.efi_time_to_epoch t)) (zone_seconds dev base t))
            (daylight_seconds dev base t)
  unfolding lib_set_time
  set_saves t utc s s' boot set =
      let epoch =
        sub64 (sub64 (u64 (base.efi_time_to_epoch t)) (zone_seconds dev base t))
          (daylight_seconds dev base t) in
      let stored = platform_set_time dev (some (base.epoch_to_efi_time epoch t)) s in
      ground (arith, boot stored.1.world)

  carries_on :
      (t : EfiTime) (s : Rtc W)
      → dev.at_runtime s.world ≡ false
      → s.last_saved_time_epoch ≢ 0
      → s.last_saved_system_count ≤ (dev.system_count s.world).0
      → let (count, w) = dev.system_count s.world in
        let elapsed = (count - s.last_saved_system_count) / u32 (dev.timer_freq w) in
        lib_get_time dev base (some t) s
        ≡ finish_get_time dev base
            (u64 (s.last_saved_time_epoch + elapsed))
            t
            (record s { world = w })
  unfolding lib_get_time get_time_steps
  carries_on t s boot saved later = ground arith

  same_zone_seconds :
      (t t' : EfiTime)
      → t'.time_zone ≡ t.time_zone
      → zone_seconds dev base t' ≡ zone_seconds dev base t
  unfolding zone_seconds
  same_zone_seconds t t' e = rw e

  same_daylight_seconds :
      (t t' : EfiTime)
      → t'.daylight ≡ t.daylight
      → daylight_seconds dev base t' ≡ daylight_seconds dev base t
  unfolding daylight_seconds
  same_daylight_seconds t t' e = rw e

  -- Before the operating system runs, a time that LibSetTime stored is what LibGetTime returns
  -- later, with the whole seconds that the generic timer has counted since, if the caller's
  -- structure asks for the same time zone and daylight saving as the time that was set. This
  -- supposes that the epoch saved is not 0, which stands for none, and that the timer has not
  -- wrapped. `w` is the world at the later call.
  pub lib_get_time-lib_set_time :
      (t t' utc : EfiTime) (s s' : Rtc W) (w : W)
      → ((v : W) → dev.at_runtime v ≡ false)
      → lib_set_time dev base (some t) s ≡ returns (success, utc, s')
      → s'.last_saved_time_epoch ≢ 0
      → s'.last_saved_system_count ≤ (dev.system_count w).0
      → t'.time_zone ≡ t.time_zone
      → t'.daylight ≡ t.daylight
      → let (count, w') = dev.system_count w in
        let elapsed = (count - s'.last_saved_system_count) / u32 (dev.timer_freq w') in
        lib_get_time dev base (some t') (record s' { world = w })
        ≡ returns (
          success,
          base.epoch_to_efi_time (u64 (base.efi_time_to_epoch t + elapsed)) t',
          record s' { world = w' },
        )
  unfolding finish_get_time
  lib_get_time-lib_set_time t t' utc s s' w boot set saved later same_zone same_daylight =
      let (count, w') = dev.system_count w in
      let elapsed = (count - s'.last_saved_system_count) / u32 (dev.timer_freq w') in
      carries_on t' (record s' { world = w }) (boot w) saved later
      ∙ ap (λ e. returns (success, base.epoch_to_efi_time e t', record s' { world = w' }))
          (rw
            (
              set_saves t utc s s' boot set,
              same_zone_seconds t t' same_zone,
              same_daylight_seconds t t' same_daylight,
            )
            (local_again (base.efi_time_to_epoch t) (zone_seconds dev base t)
              (daylight_seconds dev base t) elapsed (zone_seconds-lt t) (daylight_seconds-lt t)))
