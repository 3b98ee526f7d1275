-- ===== src/Mmc/Frames.antt =====
-- The requests that go out to the MMC, and the version of the board.
use edk2_adlink_ampere_altra.Base.{
  ℕ, ◌≤◌, ◌<◌, ◌≡◌, ◌≢◌, refl, sym, ap, ◌∙◌, arith, true, List, [], ◌∷◌, ◌++◌, length, take,
  overlay, get_or, ◌==◌, if◌then◌else◌, length-append, length-take, take-append_le, length-overlay,
  none, u8,
}
use edk2_adlink_ampere_altra.Print
use edk2_adlink_ampere_altra.Print.{PrintLib, Arg, PrintsWithin, PrintsLiterally, codes, crlf}
use edk2_adlink_ampere_altra.Mmc.{
  NvParam, line, after_store, post_code_frame, power_off_frame, get_firmware_major_version,
}
use edk2_adlink_ampere_altra.Mmc.Sensors.{
  Sensor, p3v3, p12v, p5v, p1v5_vddh, p0v75_pcp, p0v9_vddc_rca, p0v75_vddc_soc, p1v2_vddq_ab,
  p1v2_vddq_cd, p1v8_pcp, cpu_temp, request,
}

-- The sensor that a request names, read off the second digit of its last byte.
sensor_of : ℕ → Sensor
sensor_of c =
    if c == b'1'
    then p3v3
    else if c == b'2'
    then p12v
    else if c == b'3'
    then p5v
    else if c == b'5'
    then p1v5_vddh
    else if c == b'6'
    then p0v75_pcp
    else if c == b'7'
    then p0v9_vddc_rca
    else if c == b'8'
    then p0v75_vddc_soc
    else if c == b'9'
    then p1v2_vddq_ab
    else if c == b'A'
    then p1v2_vddq_cd
    else if c == b'B'
    then p1v8_pcp
    else cpu_temp

sensor_of-request : (s : Sensor) → sensor_of (get_or (request s) 11 0) ≡ s
unfolding sensor_of
sensor_of-request p3v3 = refl
sensor_of-request _ = refl

-- No two sensors are asked for by the same request.
pub request-injective : (s t : Sensor) → request s ≡ request t → s ≡ t
request-injective s t e =
    sym (sensor_of-request s) ∙ ap (λ r. sensor_of (get_or r 11 0)) e ∙ sensor_of-request t

-- What a text printed over an array of `size` bytes leaves of the array.
printed_length :
    (print : PrintLib)
    → PrintsWithin print
    → (format array : List ℕ) (args : List Arg) → 0 < length array
    → length (overlay (print.ascii_sprint (length array) format args ++ (0 ∷ [])) array)
      ≡ length array
printed_length print p format array args h = length-overlay _ array (
    omega (
      arith,
      p.sprint_fits (length array) format args h,
      length-append (print.ascii_sprint (length array) format args) (0 ∷ []),
    ))

-- MmcPostCode and MmcSetPowerOffType send exactly the sixteen bytes of their array, for every value:
-- what AsciiSPrint prints does not run over its end.
pub length-frames :
    (print : PrintLib) (value : ℕ)
    → PrintsWithin print
    → (length (post_code_frame print value) ≡ 16) × (length (power_off_frame print value) ≡ 16)
unfolding post_code_frame power_off_frame
length-frames print value p = (
  printed_length print p _ (line (codes "[C0 00 80 11]")) _ (omega arith),
  printed_length print p _ (line (codes "[C0 00 15 01]")) _ (omega arith),
)

printed_start :
    (print : PrintLib)
    → PrintsLiterally print
    → (text format array : List ℕ) (args : List Arg) → Print.is_literal text ≡ true
    → length text < length array
    → take
        (length text)
        (overlay (print.ascii_sprint (length array) (text ++ format) args ++ (0 ∷ [])) array)
      ≡ text
printed_start print p text format array args plain short =
    let chars = print.ascii_sprint (length array) (text ++ format) args in
    let start : take (length text) chars ≡ text =
      p.copies (length array) text format args plain short in
    let long : length text ≤ length chars =
      omega (arith, ap length start, length-take (length text) chars) in
    take-append_le (length text) (chars ++ (0 ∷ [])) _ (omega (arith, length-append chars (0 ∷ [])))
    ∙ take-append_le (length text) chars (0 ∷ []) long
    ∙ start

-- For every value and every other value, MmcSetPowerOffType sends a frame that starts as the frame
-- of MmcPostCode does, with the command for a POST code, and so never the frame that its array is
-- initialised with, that of the command 15.
pub power_off_frame-starts :
    (print : PrintLib) (value code : ℕ)
    → PrintsLiterally print
    → (take 10 (power_off_frame print value) ≡ take 10 (post_code_frame print code))
      × (power_off_frame print value ≢ line (codes "[C0 00 15 01]"))
unfolding post_code_frame power_off_frame
power_off_frame-starts print value code p =
    let text : List ℕ = codes "[C0 00 80 " in
    let power =
      printed_start print p text (codes "%02X]" ++ crlf) (line (codes "[C0 00 15 01]"))
        (Arg.number (u8 value) ∷ []) refl (omega arith) in
    let post =
      printed_start print p text (codes "%2X]" ++ crlf) (line (codes "[C0 00 80 11]"))
        (Arg.number (u8 code) ∷ []) refl (omega arith) in
    (power ∙ sym post, λ e. not_fifteen (sym power ∙ ap (take 10) e))
  where
    not_fifteen : codes "[C0 00 80 " ≢ codes "[C0 00 15 "
    not_fifteen e = absurd (omega (arith, ap (λ (r : List ℕ). get_or r 7 0) e))

-- Where NVParamGet stores nothing, the version is decided by what the variable held before the
-- call: any of the three versions is then possible, whatever board it is.
pub get_firmware_major_version-unset :
    {W : Type 0} (nv : NvParam W) (w : W)
    → (nv.get nv.board_i2c_vrd_config_info nv.perm_all w).1 ≡ none
    → ((get_firmware_major_version nv 0x6A685860 w).0 ≡ 0xA2)
      × ((get_firmware_major_version nv 0x6A687F60 w).0 ≡ 0xA1)
      × ((get_firmware_major_version nv 0 w).0 ≡ 0xA0)
unfolding get_firmware_major_version
get_firmware_major_version-unset nv w e =
    (rw (e, after_store), rw (e, after_store), rw (e, after_store))
