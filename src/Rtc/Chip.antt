-- ===== src/Rtc/Chip.antt =====
-- Library/PCF8563RealTimeClockLib/PCF8563.c: access to the chip. A pointer that may be NULL is an
-- option. DEBUG and ASSERT_EFI_ERROR, which release builds leave out, are not modelled.
pub mod Wait
pub mod Transfer
use edk2_adlink_ampere_altra.Base.{
  ℕ, zero, suc, ◌+◌, ◌-◌, Bool, true, false, not, ◌&&◌, ◌||◌, Option, none, some, List, [], ◌∷◌,
  ◌++◌, length, take, ltb, ◌==◌, if◌then◌else◌, overlay, Status, success, invalid_parameter,
  device_error, timed_out, is_error, is_success, replicate,
}
use edk2_adlink_ampere_altra.Rtc.Types.{EfiTime, Devices, Rtc}
use edk2_adlink_ampere_altra.Rtc.Bcd.{min_year, max_year, encode_time, decode_time}

-- I2C_RTC_BUS_ADDRESS, I2C_RTC_BUS_SPEED, I2C_RTC_CHIP_ADDRESS, I2C_RTC_ACCESS_GPIO_PIN
abbrev pub bus_address : ℕ
bus_address = 1

abbrev pub bus_speed : ℕ
bus_speed = 400000

abbrev pub chip_address : ℕ
chip_address = 0x51

abbrev pub access_gpio_pin : ℕ
access_gpio_pin = 28

-- RTC_TIMEOUT_WAIT_ACCESS, RTC_ADDR, RTC_DATA_BUF_LEN
abbrev pub timeout_wait_access : ℕ
timeout_wait_access = 100000

abbrev pub rtc_addr : ℕ
rtc_addr = 0x2

abbrev pub data_buf_len : ℕ
data_buf_len = 8

-- The fuel of a wait: one more test than the timeout has steps.
abbrev pub wait_fuel : ℕ
wait_fuel = 1001

module _ {W : Type 0} (dev : Devices W) where
  open dev use {
    gpio_read_bit, micro_second_delay, i2c_probe, i2c_write, i2c_read, i2c_setup_runtime,
    gpio_setup_runtime,
  }

  -- The loop of RtcI2cWaitAccess: the time left when it ends. `none` means that the fuel ran out.
  -- `Timeout -= 100` runs only on a positive multiple of 100, so the INTN does not become negative.
  unfoldable pub wait_loop : ℕ → ℕ → W → Option (ℕ × W)
  wait_loop zero timeout w = none
  wait_loop (suc fuel) timeout w =
      let (bit, w₁) = gpio_read_bit access_gpio_pin w in
      let rest = wait_loop fuel (timeout - 100) (micro_second_delay 100 w₁) in
      if not (bit == 0) && ltb 0 timeout then rest else some (timeout, w₁)

  wait_status : Option (ℕ × W) → W → Status × W
  wait_status none w = (timed_out, w)
  wait_status (some (timeout, w')) w = (if timeout == 0 then timed_out else success, w')

  -- RtcI2cWaitAccess
  unfoldable pub rtc_i2c_wait_access : W → Status × W
  unfolding wait_status
  rtc_i2c_wait_access w = wait_status (wait_loop wait_fuel timeout_wait_access w) w

  -- RtcI2cRead. `Data` is RtcBufVir in every call: the buffer is passed in and returned.
  unfoldable pub rtc_i2c_read : ℕ → List ℕ → ℕ → W → Status × List ℕ × W
  rtc_i2c_read addr buffer len w =
      let (access, w₁) = rtc_i2c_wait_access w in
      let (probe, w₂) = i2c_probe bus_address bus_speed w₁ in
      let (sent, w₃) = i2c_write bus_address chip_address (addr ∷ []) w₂ in
      let (read, bytes, w₄) = i2c_read bus_address chip_address len w₃ in
      if is_error access
      then (device_error, buffer, w₁)
      else if is_error probe
      then (device_error, buffer, w₂)
      else if is_error sent
      then (device_error, buffer, w₃)
      else if is_error read
      then (device_error, overlay bytes buffer, w₄)
      else (success, overlay bytes buffer, w₄)

  -- RtcI2cWrite. `sizeof (TmpBuf) - 1` is RTC_DATA_BUF_LEN.
  unfoldable pub rtc_i2c_write : ℕ → List ℕ → ℕ → W → Status × W
  rtc_i2c_write addr buffer len w =
      let (access, w₁) = rtc_i2c_wait_access w in
      let (probe, w₂) = i2c_probe bus_address bus_speed w₁ in
      let (sent, w₃) = i2c_write bus_address chip_address (addr ∷ take len buffer) w₂ in
      if is_error access
      then (device_error, w₁)
      else if ltb data_buf_len len
      then (invalid_parameter, w₁)
      else if is_error probe
      then (device_error, w₂)
      else if is_error sent
      then (device_error, w₃)
      else (success, w₃)

  -- PlatformGetTime: the status, the time structure afterwards, and the state.
  unfoldable pub platform_get_time : Option EfiTime → Rtc W → Status × Option EfiTime × Rtc W
  platform_get_time none s = (invalid_parameter, none, s)
  platform_get_time (some time) s =
      let (status, bytes, w) = rtc_i2c_read rtc_addr s.buffer data_buf_len s.world in
      let time' = if is_success status then decode_time bytes time else time in
      (status, some time', record s { buffer = bytes; world = w })

  -- PlatformSetTime
  unfoldable pub platform_set_time : Option EfiTime → Rtc W → Status × Rtc W
  platform_set_time none s = (invalid_parameter, s)
  platform_set_time (some time) s =
      let bytes = encode_time time s.buffer in
      let (status, w) = rtc_i2c_write rtc_addr bytes data_buf_len s.world in
      if ltb time.year min_year || ltb max_year time.year
      then (invalid_parameter, s)
      else (status, record s { buffer = bytes; world = w })

  -- PlatformInitialize. The pool is cleared; the two setup calls must succeed.
  unfoldable pub platform_initialize : Rtc W → Status × Rtc W
  platform_initialize s =
      let zeroed = replicate data_buf_len 0 in
      let (i2c, w₁) = i2c_setup_runtime bus_address s.world in
      let (gpio, w₂) = gpio_setup_runtime access_gpio_pin w₁ in
      if is_error i2c
      then (i2c, record s { buffer = zeroed; world = w₁ })
      else if is_error gpio
      then (gpio, record s { buffer = zeroed; world = w₂ })
      else (success, record s { buffer = zeroed; world = w₂ })
