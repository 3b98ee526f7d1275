-- ===== src/Rtc/Types.antt =====
-- The state of the real time clock library and what it calls: EFI_TIME, the bus, the GPIO pin, the
-- timers and TimeBaseLib. None of these is part of the library, so each is a field of a record.
use edk2_adlink_ampere_altra.Base.{ℕ, List, Bool, Status, ℤ}

-- EFI_TIME. The pads and the nanoseconds are not touched by the library.
pub record EfiTime : Type 0 where
  pub year : ℕ
  pub month : ℕ
  pub day : ℕ
  pub hour : ℕ
  pub minute : ℕ
  pub second : ℕ
  pub time_zone : ℤ
  pub daylight : ℕ

-- GpioLib, TimerLib, I2cLib, UefiRuntimeLib and ArmGenericTimerCounterLib over a world `W` of
-- devices. `i2c_read` gives the bytes stored in the caller's buffer, from its start.
pub record Devices (W : Type 0) : Type 0 where
  pub gpio_read_bit : ℕ → W → ℕ × W
  pub micro_second_delay : ℕ → W → W
  pub i2c_probe : ℕ → ℕ → W → Status × W
  pub i2c_write : ℕ → ℕ → List ℕ → W → Status × W
  pub i2c_read : ℕ → ℕ → ℕ → W → Status × List ℕ × W
  pub i2c_setup_runtime : ℕ → W → Status × W
  pub gpio_setup_runtime : ℕ → W → Status × W
  pub at_runtime : W → Bool
  pub system_count : W → ℕ × W
  pub timer_freq : W → ℕ

-- TimeBaseLib, and the constants of the UEFI specification that go with it.
pub record TimeBase : Type 0 where
  pub efi_time_to_epoch : EfiTime → ℕ
  pub epoch_to_efi_time : ℕ → EfiTime → EfiTime
  pub sec_per_min : ℕ
  pub sec_per_hour : ℕ
  pub unspecified_timezone : ℤ
  pub time_in_daylight : ℕ

-- The static variables of the two files, with the eight bytes that RtcBufVir points to.
pub record Rtc (W : Type 0) : Type 0 where
  pub buffer : List ℕ
  pub last_saved_system_count : ℕ
  pub last_saved_time_epoch : ℕ
  pub world : W
