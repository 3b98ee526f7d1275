-- ===== src/Mmc/Replies.antt =====
-- What the sensor readings return, on every path.
use edk2_adlink_ampere_altra.Base.{
  leb_of_le, Bool-cases, overlay_whole, length-overlay, drop-overlay, ℕ, ◌+◌, ◌≤◌, ◌<◌, ◌≡◌, ◌≢◌,
  refl, ap, ◌∙◌, arith, List, length, take, drop, overlay, ◌==◌, ==_false, length-take, length-drop,
  success, unsupported, no_response, ◌⊎◌, inl, inr,
}
use edk2_adlink_ampere_altra.Mmc.{
  Uart, NvParam, Reading, returned, out_of_bounds, get_firmware_major_version, ask, copy_reply,
}
use edk2_adlink_ampere_altra.Mmc.Sensors.{
  Sensor, p3v3, request, reply_size, reading_offset, sensor_reading,
}

-- The room for a reading behind its offset is nine bytes for each sensor.
room : (s : Sensor) → reply_size s ≡ reading_offset s + 9
room p3v3 = refl
room _ = refl

copy_fits :
    {W : Type 0} (offset : ℕ) (buffer array : List ℕ) (w : W)
    → offset + length buffer ≤ length array
    → copy_reply offset (length buffer) buffer array w
      ≡ returned success (take (length buffer) (drop offset array)) w
unfolding copy_reply
copy_fits offset buffer array w h =
    rw (leb_of_le _ _ h, leb_of_le (length buffer) (length buffer) (omega arith))
      (ap (λ bytes. returned success bytes w)
        (overlay_whole (take (length buffer) (drop offset array)) buffer (
          omega
            (arith, length-take (length buffer) (drop offset array), length-drop offset array))))

copy_overflows :
    {W : Type 0} (offset count : ℕ) (buffer array : List ℕ) (w : W)
    → length array < offset + count
    → copy_reply offset count buffer array w ≡ out_of_bounds
unfolding copy_reply
copy_overflows offset count buffer array w h = ground arith

module _ {W : Type 0} (uart : Uart W) (nv : NvParam W) (s : Sensor) (stack : ℕ)
    (array buffer : List ℕ) (w : W) where
  -- The worlds after the version was read, after the request and after the reply, and the reply.
  abbrev pub versioned : W
  versioned = (get_firmware_major_version nv stack w).1

  abbrev pub requested : W
  requested = (uart.write uart.register_base (request s) versioned).1

  abbrev pub replied : W
  replied = (uart.read uart.register_base (reply_size s) requested).1

  abbrev pub reply : List ℕ
  reply = (uart.read uart.register_base (reply_size s) requested).0

  -- The exchange took place: not a board A1, some bytes went out, and some came back.
  pub record Exchanged : Type 0 where
    pub not_a1 : (get_firmware_major_version nv stack w).0 ≢ 0xA1
    pub sent : (uart.write uart.register_base (request s) versioned).0 ≢ 0
    pub received : length reply ≢ 0

  ask_exchanged :
      (copy : List ℕ → W → Reading W)
      → Exchanged
      → ask uart nv (request s) (reply_size s) stack array buffer copy w
        ≡ copy (overlay reply array) replied
  unfolding ask
  ask_exchanged copy e = rw (==_false _ _ e.not_a1, ==_false _ _ e.sent, ==_false _ _ e.received)

  -- A board A1 is asked nothing: the UART is not touched, and neither is the caller's buffer.
  pub sensor_reading-unsupported :
      (buffer_size : ℕ)
      → (get_firmware_major_version nv stack w).0 ≡ 0xA1
      → sensor_reading uart nv s stack array buffer buffer_size w
        ≡ returned unsupported buffer versioned
  unfolding sensor_reading ask
  sensor_reading-unsupported buffer_size e = rw e

  -- Where the request or the reply fails altogether, the caller's buffer keeps what it held.
  pub sensor_reading-no_response :
      (buffer_size : ℕ)
      → (get_firmware_major_version nv stack w).0 ≢ 0xA1
      → ((uart.write uart.register_base (request s) versioned).0 ≡ 0) ⊎ (length reply ≡ 0)
      → (v : W) × (sensor_reading uart nv s stack array buffer buffer_size w
          ≡ returned no_response buffer v)
  unfolding sensor_reading ask
  sensor_reading-no_response buffer_size not_a1 (inl e) = (requested, rw (==_false _ _ not_a1, e))
  sensor_reading-no_response buffer_size not_a1 (inr e) =
      elim (Bool-cases ((uart.write uart.register_base (request s) versioned).0 == 0)) [
        | inl p ↦ (requested, rw (==_false _ _ not_a1, p))
        | inr p ↦ (replied, rw (==_false _ _ not_a1, p, e))
      ]

  -- A whole reply is enough: whatever `xBuffer` held before the call, the caller's buffer, of at most
  -- nine bytes, is filled with the bytes of the reply from the sensor's offset on.
  pub sensor_reading-reply :
      Exchanged
      → length array ≡ reply_size s
      → length reply ≡ reply_size s
      → length buffer ≤ 9
      → sensor_reading uart nv s stack array buffer (length buffer) w
        ≡ returned success (take (length buffer) (drop (reading_offset s) reply)) replied
  unfolding sensor_reading
  sensor_reading-reply e sized whole small = rw (ask_exchanged _ e) (
      rw (overlay_whole reply array (omega arith))
        (copy_fits (reading_offset s) buffer reply replied (omega (arith, room s))))

  -- A reply that ends before the sensor's offset goes unnoticed: the reading succeeds, and the
  -- caller's buffer is filled with what `xBuffer` held before the call.
  pub sensor_reading-short_reply :
      Exchanged
      → length array ≡ reply_size s
      → length reply ≤ reading_offset s
      → length buffer ≤ 9
      → sensor_reading uart nv s stack array buffer (length buffer) w
        ≡ returned success (take (length buffer) (drop (reading_offset s) array)) replied
  unfolding sensor_reading
  sensor_reading-short_reply e sized short small = rw (ask_exchanged _ e) (
      copy_fits (reading_offset s) buffer (overlay reply array) replied
        (omega (arith, room s, length-overlay reply array (omega (arith, room s))))
      ∙ ap (λ bytes. returned success (take (length buffer) bytes) replied)
          (drop-overlay (reading_offset s) reply array short))

  -- A size of more than nine bytes is copied from beyond the end of `xBuffer`.
  pub sensor_reading-out_of_bounds :
      (buffer_size : ℕ)
      → Exchanged
      → length array ≡ reply_size s
      → length reply ≤ reply_size s
      → 9 < buffer_size
      → sensor_reading uart nv s stack array buffer buffer_size w ≡ out_of_bounds
  unfolding sensor_reading
  sensor_reading-out_of_bounds buffer_size e sized fits large = rw (ask_exchanged _ e) (
      copy_overflows (reading_offset s) buffer_size buffer (overlay reply array) replied
        (omega (arith, room s, length-overlay reply array (omega arith))))
