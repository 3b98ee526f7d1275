-- ===== src/Rtc/Chip/Wait.antt =====
-- RtcI2cWaitAccess: it ends, after at most 1000 delays of 100 microseconds, and what it returns.
use edk2_adlink_ampere_altra.Base.{
  ℕ, zero, suc, ◌-◌, ◌*◌, ◌<◌, ◌≡◌, arith, some, success, timed_out,
}
use edk2_adlink_ampere_altra.Rtc.Types.{Devices}
use edk2_adlink_ampere_altra.Rtc.Chip.{wait_loop, wait_fuel, rtc_i2c_wait_access, access_gpio_pin}

one_round : (rounds : ℕ) → suc rounds * 100 - 100 ≡ rounds * 100
one_round rounds = omega arith

module _ {W : Type 0} (dev : Devices W) where
  open dev use {gpio_read_bit, micro_second_delay}

  -- The world after the pin was read once more.
  abbrev pub polled : W → W
  polled w = (gpio_read_bit access_gpio_pin w).1

  -- The world before poll number `k`: each earlier poll was followed by a delay.
  abbrev pub before_poll : ℕ → W → W
  before_poll zero w = w
  before_poll (suc k) w = before_poll k (micro_second_delay 100 (polled w))

  -- Poll number `k` finds the pin released.
  abbrev pub IsReleased : ℕ → W → Type 0
  IsReleased k w = (gpio_read_bit access_gpio_pin (before_poll k w)).0 ≡ 0

  wait_loop_released :
      (k fuel rounds : ℕ) (w : W)
      → k < rounds
      → rounds < fuel
      → ((j : ℕ) → j < k → ¬ IsReleased j w)
      → IsReleased k w
      → wait_loop dev fuel (rounds * 100) w ≡ some ((rounds - k) * 100, polled (before_poll k w))
  unfolding wait_loop
  wait_loop_released k zero rounds w a b held free = absurd (omega arith)
  wait_loop_released zero (suc fuel) rounds w a b held free = ground (arith, free)
  wait_loop_released (suc k) (suc fuel) zero w a b held free = absurd (omega arith)
  wait_loop_released (suc k) (suc fuel) (suc rounds) w a b held free =
      let later = micro_second_delay 100 (polled w) in
      let ih =
        wait_loop_released k fuel rounds later (omega arith) (omega arith)
          (λ j h. held (suc j) (omega arith)) free in
      ground (arith, held 0 (omega arith), one_round rounds, ih)

  -- Where the pin is held for all rounds, one more poll is made after the last delay.
  wait_loop_held :
      (fuel rounds : ℕ) (w : W)
      → rounds < fuel
      → ((j : ℕ) → j < rounds → ¬ IsReleased j w)
      → wait_loop dev fuel (rounds * 100) w ≡ some (0, polled (before_poll rounds w))
  unfolding wait_loop
  wait_loop_held zero rounds w b held = absurd (omega arith)
  wait_loop_held (suc fuel) zero w b held = ground arith
  wait_loop_held (suc fuel) (suc rounds) w b held =
      let later = micro_second_delay 100 (polled w) in
      let ih = wait_loop_held fuel rounds later (omega arith) (λ j h. held (suc j) (omega arith)) in
      ground (arith, held 0 (omega arith), one_round rounds, ih)

  -- RtcI2cWaitAccess succeeds, with no delay more than needed, if one of the first 1000 polls finds
  -- the pin released: after poll `k`, the first that does.
  pub rtc_i2c_wait_access_released :
      (k : ℕ) (w : W)
      → k < 1000
      → ((j : ℕ) → j < k → ¬ IsReleased j w)
      → IsReleased k w
      → rtc_i2c_wait_access dev w ≡ (success, polled (before_poll k w))
  unfolding rtc_i2c_wait_access
  rtc_i2c_wait_access_released k w lt held free =
      rw (wait_loop_released k wait_fuel 1000 w lt (omega arith) held free) (ground arith)

  -- RtcI2cWaitAccess times out after 1000 delays if the pin is held at each of the first 1000
  -- polls. What the poll after the last delay finds makes no difference.
  pub rtc_i2c_wait_access_held :
      (w : W)
      → ((j : ℕ) → j < 1000 → ¬ IsReleased j w)
      → rtc_i2c_wait_access dev w ≡ (timed_out, polled (before_poll 1000 w))
  unfolding rtc_i2c_wait_access
  rtc_i2c_wait_access_held w held = rw (wait_loop_held wait_fuel 1000 w (omega arith) held)
