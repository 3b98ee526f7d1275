-- ===== src/Rtc/Tests.antt =====
-- Runs of the clock on a chip that is released after some polls and keeps what is written to it.
use edk2_adlink_ampere_altra.Base.{
  ℕ, zero, suc, ◌+◌, ◌-◌, ◌*◌, ◌<◌, ◌≡◌, refl, ◌∙◌, arith, false, some, List, [], ◌∷◌, ◌++◌,
  if◌then◌else◌, ◌==◌, replicate, length, take, length-take, length-append, take-append_le,
  take_all, success, pos, negsuc,
}
use edk2_adlink_ampere_altra.Rtc.Types.{EfiTime, Devices, TimeBase, Rtc}
use edk2_adlink_ampere_altra.Rtc.Bcd.{encode_time, decode_time}
use edk2_adlink_ampere_altra.Rtc.Bcd.RoundTrip.{IsStorable, decode_time-encode_time}
use edk2_adlink_ampere_altra.Rtc.Chip.{
  wait_loop, rtc_i2c_wait_access, rtc_i2c_read, rtc_i2c_write, platform_get_time, platform_set_time,
}
use edk2_adlink_ampere_altra.Rtc.Chip.Wait.{
  polled, before_poll, IsReleased, rtc_i2c_wait_access_released,
}
use edk2_adlink_ampere_altra.Rtc.Chip.Transfer.{KeepsRegisters, platform_get_time-platform_set_time}
use edk2_adlink_ampere_altra.Rtc.Clock.{
  returns, zone_seconds, daylight_seconds, lib_get_time, lib_set_time,
}
use edk2_adlink_ampere_altra.Rtc.Clock.Elapsed.{lib_get_time-lib_set_time}
use edk2_adlink_ampere_altra.Rtc.Clock.Total.{lib_get_time_total}

-- The pin is held for the next `busy` polls.
record Board : Type 0 where
  memory : List ℕ
  busy : ℕ
  ticks : ℕ

abbrev registers : Board → List ℕ
registers w = take 8 (w.memory ++ replicate 8 0)

abbrev store : List ℕ → Board → Board
store (a ∷ b ∷ bytes) w = record w { memory = b ∷ bytes }
store _ w = w

abbrev board_devices : Devices Board
board_devices = record {
  gpio_read_bit = λ pin w. (if w.busy == 0 then 0 else 1, record w { busy = w.busy - 1 });
  micro_second_delay = λ us w. w;
  i2c_probe = λ bus speed w. (success, w);
  i2c_write = λ bus chip bytes w. (success, store bytes w);
  i2c_read = λ bus chip len w. (success, registers w, w);
  i2c_setup_runtime = λ bus w. (success, w);
  gpio_setup_runtime = λ pin w. (success, w);
  at_runtime = λ w. false;
  system_count = λ w. (w.ticks, w);
  timer_freq = λ w. 10;
}

registers-sized : (w : Board) → length (registers w) ≡ 8
registers-sized w =
    omega (arith, length-take 8 (w.memory ++ replicate 8 0), length-append w.memory (replicate 8 0))

registers-store :
    (bytes : List ℕ) (w : Board) → length bytes ≡ 8 → registers (store (2 ∷ bytes) w) ≡ bytes
registers-store [] w h = absurd (omega arith)
registers-store (b ∷ bytes) w h =
    take-append_le 8 (b ∷ bytes) (replicate 8 0) (omega arith)
    ∙ take_all 8 (b ∷ bytes) (omega arith)

board_keeps : KeepsRegisters board_devices registers
board_keeps = record {
  sized = registers-sized;
  by_gpio = λ pin w. refl;
  by_delay = λ us w. refl;
  by_probe = λ bus speed w. refl;
  by_select = λ w. refl;
  by_write = λ bytes w h e. registers-store bytes w h;
  by_read = λ w. refl;
  reads = λ w e. refl;
}

-- The epoch counts the minutes of an hour and the seconds, which is enough to run the clock.
abbrev minutes : TimeBase
minutes = record {
  efi_time_to_epoch = λ t. t.minute * 60 + t.second + 1;
  epoch_to_efi_time = λ e t. record t { second = e };
  sec_per_min = 60;
  sec_per_hour = 3600;
  unspecified_timezone = pos 2047;
  time_in_daylight = 2;
}

abbrev noon : EfiTime
noon = record {
  year = 2022;
  month = 12;
  day = 31;
  hour = 12;
  minute = 34;
  second = 56;
  time_zone = negsuc 59;
  daylight = 0;
}

abbrev idle : Board
idle = record { memory = []; busy = 3; ticks = 100 }

abbrev start : Rtc Board
start = record {
  buffer = replicate 8 0;
  last_saved_system_count = 0;
  last_saved_time_epoch = 0;
  world = idle;
}

noon-IsStorable : IsStorable noon
noon-IsStorable = omega arith

decode_time-encode_time_example : decode_time (encode_time noon (replicate 8 0xff)) noon ≡ noon
decode_time-encode_time_example =
    decode_time-encode_time noon noon noon-IsStorable (replicate 8 0xff) refl

-- A byte of ones is a year past the range.
decode_time_clamps : (decode_time (replicate 8 0xff) noon).year ≡ 2099
unfolding decode_time
decode_time_clamps = refl

rtc_i2c_wait_access_released_example :
    rtc_i2c_wait_access board_devices idle
    ≡ (success, polled board_devices (before_poll board_devices 3 idle))
rtc_i2c_wait_access_released_example =
    rtc_i2c_wait_access_released board_devices 3 idle (omega arith) held refl
  where
    held : (j : ℕ) → j < 3 → ¬ IsReleased board_devices j idle
    held zero h = λ e. cc
    held (suc zero) h = λ e. cc
    held (suc (suc zero)) h = λ e. cc
    held (suc (suc (suc j))) h = absurd (omega arith)

-- A pin that is never released.
abbrev stuck_devices : Devices Board
stuck_devices = record board_devices { gpio_read_bit = λ pin w. (1, w) }

abbrev blank : EfiTime
blank = record {
  year = 0;
  month = 0;
  day = 0;
  hour = 0;
  minute = 0;
  second = 0;
  time_zone = negsuc 59;
  daylight = 0;
}

platform_get_time-platform_set_time_example :
    (platform_get_time board_devices
      (some blank)
      (platform_set_time board_devices (some noon) start).1).1
    ≡ some noon
unfolding platform_get_time platform_set_time rtc_i2c_read rtc_i2c_write rtc_i2c_wait_access
    wait_loop encode_time
platform_get_time-platform_set_time_example =
    platform_get_time-platform_set_time board_devices registers board_keeps noon blank start
      noon-IsStorable refl refl refl

-- The state after noon was set, at a time zone of an hour west: 34:56 and one hour, in seconds.
abbrev set_at_noon : Rtc Board
set_at_noon = record {
  buffer = encode_time (record noon { second = 5697 }) (replicate 8 0);
  last_saved_system_count = 100;
  last_saved_time_epoch = 5697;
  world = record {
    memory = encode_time (record noon { second = 5697 }) (replicate 8 0);
    busy = 0;
    ticks = 100;
  };
}

set_noon :
    lib_set_time board_devices minutes (some noon) start
    ≡ returns (success, record noon { second = 5697 }, set_at_noon)
unfolding lib_set_time platform_set_time rtc_i2c_write rtc_i2c_wait_access wait_loop encode_time
    zone_seconds daylight_seconds
set_noon = refl

-- 75 ticks at 10 to the second are 7 seconds.
lib_get_time-lib_set_time_example :
    lib_get_time board_devices minutes
      (some blank)
      (record set_at_noon { world = record idle { ticks = 175 } })
    ≡ returns (
      success,
      record blank { second = 2104 },
      record set_at_noon { world = record idle { ticks = 175 } },
    )
lib_get_time-lib_set_time_example =
    lib_get_time-lib_set_time board_devices minutes noon blank (record noon { second = 5697 }) start
      set_at_noon (record idle { ticks = 175 }) (λ v. refl) set_noon (omega arith) (omega arith)
      refl refl

lib_get_time_total_example :
    (t : EfiTime) × (s : Rtc Board) × (lib_get_time board_devices minutes (some blank) start
      ≡ returns (success, t, s))
lib_get_time_total_example = lib_get_time_total board_devices minutes blank start
