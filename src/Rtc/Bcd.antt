-- ===== src/Rtc/Bcd.antt =====
-- The register encoding of PCF8563.c: the macros PCF8563_*_ENC and PCF8563_*_DEC, and the
-- assignments by which PlatformSetTime and PlatformGetTime apply them.
pub mod RoundTrip
use edk2_adlink_ampere_altra.Base.{
  ℕ, ◌+◌, ◌-◌, ◌*◌, ◌/◌, ◌%◌, List, bit_and, bit_or, u8, u16, ltb, if◌then◌else◌, get_or, set,
}
use edk2_adlink_ampere_altra.Rtc.Types.{EfiTime}

abbrev pub min_year : ℕ
min_year = 2000

abbrev pub max_year : ℕ
max_year = 2099

-- `((((x) / 10) & mask) << 4) | (((x) % 10) & 0xf)`
abbrev pub bcd_enc : ℕ → ℕ → ℕ
bcd_enc mask x = bit_or (bit_and (x / 10) mask * 16) (bit_and (x % 10) 0xf)

-- `((((x) & mask) >> 4) * 10) + ((x) & 0xf)`
abbrev pub bcd_dec : ℕ → ℕ → ℕ
bcd_dec mask x = bit_and x mask / 16 * 10 + bit_and x 0xf

-- PCF8563_SEC_ENC, PCF8563_MIN_ENC, PCF8563_HR_ENC, PCF8563_DAY_ENC, PCF8563_MON_ENC and
-- PCF8563_YEA_ENC
abbrev pub sec_enc : ℕ → ℕ
sec_enc = bcd_enc 0x7

abbrev pub min_enc : ℕ → ℕ
min_enc = bcd_enc 0x7

abbrev pub hr_enc : ℕ → ℕ
hr_enc = bcd_enc 0x3

abbrev pub day_enc : ℕ → ℕ
day_enc = bcd_enc 0x3

abbrev pub mon_enc : ℕ → ℕ
mon_enc = bcd_enc 0x1

abbrev pub yea_enc : ℕ → ℕ
yea_enc = bcd_enc 0xf

-- PCF8563_SEC_DEC, PCF8563_MIN_DEC, PCF8563_HR_DEC, PCF8563_DAY_DEC, PCF8563_MON_DEC and
-- PCF8563_YEA_DEC
abbrev pub sec_dec : ℕ → ℕ
sec_dec = bcd_dec 0x70

abbrev pub min_dec : ℕ → ℕ
min_dec = bcd_dec 0x70

abbrev pub hr_dec : ℕ → ℕ
hr_dec = bcd_dec 0x30

abbrev pub day_dec : ℕ → ℕ
day_dec = bcd_dec 0x30

abbrev pub mon_dec : ℕ → ℕ
mon_dec = bcd_dec 0x10

abbrev pub yea_dec : ℕ → ℕ
yea_dec = bcd_dec 0xf0

-- The stores of PlatformSetTime into the bytes of RtcBufVir, at the offsets PCF8563_OFFSET_*. The
-- byte of the weekday and the eighth byte keep what they held.
unfoldable pub encode_time : EfiTime → List ℕ → List ℕ
encode_time t b₀ =
    let b₁ = set b₀ 0 (u8 (sec_enc t.second)) in
    let b₂ = set b₁ 1 (u8 (min_enc t.minute)) in
    let b₃ = set b₂ 2 (u8 (hr_enc t.hour)) in
    let b₄ = set b₃ 3 (u8 (day_enc t.day)) in
    let b₅ = set b₄ 5 (u8 (mon_enc t.month)) in set b₅ 6 (u8 (yea_enc (t.year - min_year)))

-- The two corrections of the year in PlatformGetTime.
unfoldable pub clamp_year : ℕ → ℕ
clamp_year y =
    let y' = if ltb max_year y then max_year else y in if ltb y' min_year then min_year else y'

-- The stores of PlatformGetTime into `*Time`, from the bytes of RtcBufVir.
unfoldable pub decode_time : List ℕ → EfiTime → EfiTime
unfolding clamp_year
decode_time b t = record t {
  second = u8 (sec_dec (get_or b 0 0));
  minute = u8 (min_dec (get_or b 1 0));
  hour = u8 (hr_dec (get_or b 2 0));
  day = u8 (day_dec (get_or b 3 0));
  month = u8 (mon_dec (get_or b 5 0));
  year = clamp_year (u16 (u16 (yea_dec (get_or b 6 0)) + min_year));
}
