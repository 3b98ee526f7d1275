-- ===== src/Rtc/Bcd/RoundTrip.antt =====
-- The registers give back the time that was stored in them.
use edk2_adlink_ampere_altra.Base.{
  ℕ, ◌+◌, ◌-◌, ◌≤◌, ◌<◌, ◌≡◌, refl, ap, List, [], ◌∷◌, true, arith, ◌==◌, ==_iff, passes_below,
  below_all_checked, length, u8, u16, length-set,
}
use edk2_adlink_ampere_altra.Rtc.Types.{EfiTime}
use edk2_adlink_ampere_altra.Rtc.Bcd.{
  sec_enc, min_enc, hr_enc, day_enc, mon_enc, yea_enc, sec_dec, min_dec, hr_dec, day_dec, mon_dec,
  yea_dec, encode_time, decode_time, clamp_year, min_year, max_year,
}

-- A time that the chip can hold.
pub record IsStorable (t : EfiTime) : Type 0 where
  pub year_from : min_year ≤ t.year
  pub year_to : t.year ≤ max_year
  pub month_to : t.month ≤ 12
  pub day_to : t.day ≤ 31
  pub hour_to : t.hour ≤ 23
  pub minute_to : t.minute ≤ 59
  pub second_to : t.second ≤ 59

-- Below `n`, a byte encoded with one mask and decoded with the other is the number itself.
decodes :
    (enc dec : ℕ → ℕ) (n : ℕ)
    → passes_below (λ x. u8 (dec (u8 (enc x))) == x) n ≡ true
    → (x : ℕ) → x < n
    → u8 (dec (u8 (enc x))) ≡ x
decodes enc dec n table x h = (==_iff _ x).0 (below_all_checked _ n x h table)

sec_table : passes_below (λ x. u8 (sec_dec (u8 (sec_enc x))) == x) 60 ≡ true
unfolding passes_below
sec_table = refl

hr_table : passes_below (λ x. u8 (hr_dec (u8 (hr_enc x))) == x) 24 ≡ true
unfolding passes_below
hr_table = refl

day_table : passes_below (λ x. u8 (day_dec (u8 (day_enc x))) == x) 32 ≡ true
unfolding passes_below
day_table = refl

mon_table : passes_below (λ x. u8 (mon_dec (u8 (mon_enc x))) == x) 13 ≡ true
unfolding passes_below
mon_table = refl

yea_table : passes_below (λ x. u16 (yea_dec (u8 (yea_enc x))) == x) 100 ≡ true
unfolding passes_below
yea_table = refl

yea_decodes : (x : ℕ) → x < 100 → u16 (yea_dec (u8 (yea_enc x))) ≡ x
yea_decodes x h = (==_iff _ x).0 (below_all_checked _ 100 x h yea_table)

clamp_year_id : (y : ℕ) → min_year ≤ y → y ≤ max_year → clamp_year y ≡ y
unfolding clamp_year
clamp_year_id y p q = ground arith

module _ (t old : EfiTime) (v : IsStorable t) where
  year_back :
      clamp_year (u16 (u16 (yea_dec (u8 (yea_enc (t.year - min_year)))) + min_year)) ≡ t.year
  unfolding clamp_year
  year_back =
      rw (yea_decodes (t.year - min_year) (omega (arith, v.year_from, v.year_to)))
        (ground (arith, v.year_from, v.year_to))

  -- A time that the chip can hold, encoded into the eight bytes of the buffer and decoded again,
  -- comes back with all six of its fields; whatever the buffer held before, and whatever the
  -- time structure that the result is stored in held.
  pub decode_time-encode_time :
      (b : List ℕ)
      → length b ≡ 8
      → decode_time (encode_time t b) old ≡ record old {
        year = t.year;
        month = t.month;
        day = t.day;
        hour = t.hour;
        minute = t.minute;
        second = t.second;
      }
  unfolding decode_time encode_time
  decode_time-encode_time (b₀ ∷ b₁ ∷ b₂ ∷ b₃ ∷ b₄ ∷ b₅ ∷ b₆ ∷ b₇ ∷ []) h =
      rw
        (
          decodes sec_enc sec_dec 60 sec_table t.second (omega (arith, v.second_to)),
          decodes min_enc min_dec 60 sec_table t.minute (omega (arith, v.minute_to)),
          decodes hr_enc hr_dec 24 hr_table t.hour (omega (arith, v.hour_to)),
          decodes day_enc day_dec 32 day_table t.day (omega (arith, v.day_to)),
          decodes mon_enc mon_dec 13 mon_table t.month (omega (arith, v.month_to)),
        )
        (ap
          (λ y. record old {
            year = y;
            month = t.month;
            day = t.day;
            hour = t.hour;
            minute = t.minute;
            second = t.second;
          })
          year_back)
  decode_time-encode_time _ h = absurd (omega arith)

-- Storing a time does not change the size of the buffer.
pub length-encode_time : (t : EfiTime) (b : List ℕ) → length (encode_time t b) ≡ length b
unfolding encode_time
length-encode_time t b = simp length-set

-- Whatever bytes the chip answers, the decoded year lies in the range that PlatformSetTime takes.
pub decode_time_bounds :
    (b : List ℕ) (old : EfiTime)
    → let t = decode_time b old in (min_year ≤ t.year) × (t.year ≤ max_year)
unfolding decode_time
decode_time_bounds b old = ground arith
