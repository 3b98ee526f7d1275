-- ===== src/Rtc/Chip/Transfer.antt =====
-- PlatformSetTime and PlatformGetTime against a chip that keeps what is written to it.
use edk2_adlink_ampere_altra.Base.{
  ℕ, zero, suc, ◌-◌, ◌<◌, ◌≡◌, refl, ap, ◌∙◌, arith, false, Bool-cases, inl, inr, not, ◌&&◌, ◌==◌,
  ltb, ◌⊎◌, Option, some, none, List, [], ◌∷◌, append-nil, length, drop, take_all, drop_all,
  success, invalid_parameter, is_error,
}
use edk2_adlink_ampere_altra.Rtc.Types.{EfiTime, Devices, Rtc}
use edk2_adlink_ampere_altra.Rtc.Bcd.{encode_time, decode_time, min_year, max_year}
use edk2_adlink_ampere_altra.Rtc.Bcd.RoundTrip.{
  IsStorable, decode_time-encode_time, length-encode_time,
}
use edk2_adlink_ampere_altra.Rtc.Chip.{
  wait_loop, wait_fuel, wait_status, rtc_i2c_wait_access, rtc_i2c_read, rtc_i2c_write,
  platform_get_time, platform_set_time, bus_address, bus_speed, chip_address, access_gpio_pin,
  rtc_addr, data_buf_len, timeout_wait_access,
}

-- A chip whose eight registers from RTC_ADDR on are `registers`: a transfer that starts with
-- RTC_ADDR stores what follows it, reading gives the registers from there, and nothing else
-- changes them. So it describes the time between two ticks of the clock.
pub record KeepsRegisters {W : Type 0} (dev : Devices W) (registers : W → List ℕ) : Type 0 where
  pub sized : (w : W) → length (registers w) ≡ data_buf_len
  pub by_gpio : (pin : ℕ) (w : W) → registers (dev.gpio_read_bit pin w).1 ≡ registers w
  pub by_delay : (us : ℕ) (w : W) → registers (dev.micro_second_delay us w) ≡ registers w
  pub by_probe : (bus speed : ℕ) (w : W) → registers (dev.i2c_probe bus speed w).1 ≡ registers w
  pub by_select :
      (w : W) → registers (dev.i2c_write bus_address chip_address (rtc_addr ∷ []) w).1 ≡ registers w
  pub by_write :
      (bytes : List ℕ) (w : W)
      → length bytes ≡ data_buf_len
      → is_error (dev.i2c_write bus_address chip_address (rtc_addr ∷ bytes) w).0 ≡ false
      → registers (dev.i2c_write bus_address chip_address (rtc_addr ∷ bytes) w).1 ≡ bytes
  pub by_read :
      (w : W) → registers (dev.i2c_read bus_address chip_address data_buf_len w).2 ≡ registers w
  pub reads :
      (w : W)
      → is_error (dev.i2c_read bus_address chip_address data_buf_len w).0 ≡ false
      → (dev.i2c_read bus_address chip_address data_buf_len w).1 ≡ registers w

module _ {W : Type 0} (dev : Devices W) (registers : W → List ℕ)
    (k : KeepsRegisters dev registers) where
  loop_keeps :
      (fuel timeout : ℕ) (w : W) (r : ℕ × W)
      → wait_loop dev fuel timeout w ≡ some r
      → registers r.1 ≡ registers w
  unfolding wait_loop
  loop_keeps zero timeout w r e = cc
  loop_keeps (suc fuel) timeout w r e =
      let w₁ = (dev.gpio_read_bit access_gpio_pin w).1 in
      let ih = loop_keeps fuel (timeout - 100) (dev.micro_second_delay 100 w₁) r in
      elim (Bool-cases (not ((dev.gpio_read_bit access_gpio_pin w).0 == 0) && ltb 0 timeout)) [
        | inl p ↦ ih (rw p at e) ∙ k.by_delay 100 w₁ ∙ k.by_gpio access_gpio_pin w
        | inr p ↦ let stopped = rw p at e in ground (arith, stopped, k.by_gpio access_gpio_pin w)
      ]

  status_keeps :
      (o : Option (ℕ × W)) (w : W)
      → ((r : ℕ × W) → o ≡ some r → registers r.1 ≡ registers w)
      → registers (wait_status dev o w).1 ≡ registers w
  unfolding wait_status
  status_keeps none w keep = refl
  status_keeps (some r) w keep = keep r refl

  wait_keeps : (w : W) → registers (rtc_i2c_wait_access dev w).1 ≡ registers w
  unfolding rtc_i2c_wait_access
  wait_keeps w = status_keeps _ w (loop_keeps wait_fuel timeout_wait_access w)

  rtc_i2c_write_stores :
      (bytes : List ℕ) (w : W)
      → length bytes ≡ data_buf_len
      → (rtc_i2c_write dev rtc_addr bytes data_buf_len w).0 ≡ success
      → registers (rtc_i2c_write dev rtc_addr bytes data_buf_len w).1 ≡ bytes
  unfolding rtc_i2c_write
  rtc_i2c_write_stores bytes w sized ok =
      let w₂ = (dev.i2c_probe bus_address bus_speed (rtc_i2c_wait_access dev w).1).1 in
      ground (arith, k.by_write bytes w₂ sized, take_all data_buf_len bytes (omega arith))

  rtc_i2c_read_gives :
      (buffer : List ℕ) (w : W)
      → length buffer ≡ data_buf_len
      → (rtc_i2c_read dev rtc_addr buffer data_buf_len w).0 ≡ success
      → (rtc_i2c_read dev rtc_addr buffer data_buf_len w).1 ≡ registers w
  unfolding rtc_i2c_read
  rtc_i2c_read_gives buffer w sized ok =
      let w₁ = (rtc_i2c_wait_access dev w).1 in
      let w₂ = (dev.i2c_probe bus_address bus_speed w₁).1 in
      let w₃ = (dev.i2c_write bus_address chip_address (rtc_addr ∷ []) w₂).1 in
      let kept : registers w₃ ≡ registers w =
        k.by_select w₂ ∙ k.by_probe bus_address bus_speed w₁ ∙ wait_keeps w in
      let none_left : drop (length (registers w₃)) buffer ≡ [] =
        drop_all _ buffer (omega (arith, k.sized w₃)) in
      ground (arith, k.reads w₃, kept, none_left, append-nil (registers w₃))

  set_in_range :
      (t : EfiTime) (s : Rtc W)
      → IsStorable t
      → let bytes = encode_time t s.buffer in
        let sent = rtc_i2c_write dev rtc_addr bytes data_buf_len s.world in
        platform_set_time dev (some t) s ≡ (sent.0, record s { buffer = bytes; world = sent.1 })
  unfolding platform_set_time
  set_in_range t s v = ground (arith, v.year_from, v.year_to)

  get_gives :
      (old : EfiTime) (s : Rtc W)
      → length s.buffer ≡ data_buf_len
      → (platform_get_time dev (some old) s).0 ≡ success
      → (platform_get_time dev (some old) s).1 ≡ some (decode_time (registers s.world) old)
  unfolding platform_get_time
  get_gives old s sized read = rw (read, rtc_i2c_read_gives s.buffer s.world sized read)

  -- With a chip that keeps what is written to it, a time that it can hold and that PlatformSetTime
  -- reports as stored is the time that a successful PlatformGetTime reads back next.
  pub platform_get_time-platform_set_time :
      (t old : EfiTime) (s : Rtc W)
      → IsStorable t
      → length s.buffer ≡ data_buf_len
      → (platform_set_time dev (some t) s).0 ≡ success
      → (platform_get_time dev (some old) (platform_set_time dev (some t) s).1).0 ≡ success
      → (platform_get_time dev (some old) (platform_set_time dev (some t) s).1).1
        ≡ some (record old {
          year = t.year;
          month = t.month;
          day = t.day;
          hour = t.hour;
          minute = t.minute;
          second = t.second;
        })
  platform_get_time-platform_set_time t old s v sized stored read =
      let bytes = encode_time t s.buffer in
      let sent = rtc_i2c_write dev rtc_addr bytes data_buf_len s.world in
      let s' : Rtc W = record s { buffer = bytes; world = sent.1 } in
      let step : platform_set_time dev (some t) s ≡ (sent.0, s') = set_in_range t s v in
      let wide : length bytes ≡ data_buf_len = length-encode_time t s.buffer ∙ sized in
      let held : registers sent.1 ≡ bytes =
        rtc_i2c_write_stores bytes s.world wide (rw step at stored) in
      rw step (
        get_gives old s' wide (rw step at read)
        ∙ ap (λ r. some (decode_time r old)) held
        ∙ ap some (decode_time-encode_time t old v s.buffer sized))

-- A year that the chip cannot hold is refused, and neither the chip nor the state is touched.
pub platform_set_time-invalid_parameter :
    {W : Type 0} (dev : Devices W) (t : EfiTime) (s : Rtc W)
    → (t.year < min_year) ⊎ (max_year < t.year)
    → platform_set_time dev (some t) s ≡ (invalid_parameter, s)
unfolding platform_set_time
platform_set_time-invalid_parameter dev t s h = ground arith
