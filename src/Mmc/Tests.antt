-- ===== src/Mmc/Tests.antt =====
-- Runs of the MMC commands.
use edk2_adlink_ampere_altra.Base.{
  ℕ, zero, suc, ◌+◌, ◌-◌, ◌/◌, ◌%◌, ◌≤◌, ◌≡◌, ◌≢◌, refl, arith, true, List, [], ◌∷◌, ◌++◌, length,
  take, replicate, ◌==◌, ltb, if◌then◌else◌, length-take, Option, some, success,
}
use edk2_adlink_ampere_altra.Print.{PrintLib, Arg, PrintsWithin, PrintsLiterally, codes, is_literal}
use edk2_adlink_ampere_altra.Mmc.{
  Uart, NvParam, returned, out_of_bounds, line, get_firmware_major_version, post_code_frame,
  power_off_frame,
}
use edk2_adlink_ampere_altra.Mmc.Sensors.{cpu_temp, sensor_reading}
use edk2_adlink_ampere_altra.Mmc.Replies.{
  Exchanged, sensor_reading-reply, sensor_reading-short_reply, sensor_reading-out_of_bounds,
}
use edk2_adlink_ampere_altra.Mmc.Frames.{power_off_frame-starts}

-- A printer that copies up to the first conversion, and prints the first argument there in two
-- digits.
digit : ℕ → ℕ
digit n = if ltb n 10 then n + b'0' else n + 55

hexadecimal : List Arg → List ℕ
hexadecimal (Arg.number n ∷ _) = digit (n / 16) ∷ digit (n % 16) ∷ []
hexadecimal _ = []

-- The format behind a conversion to X.
behind : List ℕ → List ℕ
behind [] = []
behind (c ∷ cs) = if c == b'X' then cs else behind cs

render : List ℕ → List Arg → List ℕ
render [] args = []
render (c ∷ cs) args = if c == b'%' then hexadecimal args ++ behind cs else c ∷ render cs args

abbrev printer : PrintLib
printer = record {
  ascii_sprint = λ size format args. take (size - 1) (render format args);
  ascii_bsprint = λ size format marker. take (size - 1) (format ++ marker);
}

printer-PrintsWithin : PrintsWithin printer
printer-PrintsWithin = record {
  sprint_fits = λ size format args h. omega (arith, length-take (size - 1) (render format args));
  bsprint_fits = λ size format marker h. omega (arith, length-take (size - 1) (format ++ marker));
}

render_literal :
    (n : ℕ) (text format : List ℕ) (args : List Arg)
    → is_literal text ≡ true
    → length text ≤ n
    → take (length text) (take n (render (text ++ format) args)) ≡ text
unfolding render
render_literal n [] format args plain h = refl
render_literal zero (c ∷ text) format args plain h = absurd (omega arith)
render_literal (suc n) (c ∷ text) format args plain h =
    ground (arith, render_literal n text format args)

printer-PrintsLiterally : PrintsLiterally printer
printer-PrintsLiterally = record {
  copies = λ size text format args plain h.
      render_literal (size - 1) text format args plain (omega arith);
}

-- The POST code 0xAD, and a power-off type of 1.
post_code_frame_test : post_code_frame printer 0x1AD ≡ line (codes "[C0 00 80 AD]")
unfolding post_code_frame render hexadecimal digit behind
post_code_frame_test = refl

power_off_frame_test : power_off_frame printer 1 ≡ line (codes "[C0 00 80 01]")
unfolding power_off_frame render hexadecimal digit behind
power_off_frame_test = refl

power_off_frame-starts_example :
    (take 10 (power_off_frame printer 1) ≡ take 10 (post_code_frame printer 0xAD))
    × (power_off_frame printer 1 ≢ line (codes "[C0 00 15 01]"))
power_off_frame-starts_example = power_off_frame-starts printer 1 0xAD printer-PrintsLiterally

-- An MMC that answers each request with the same bytes; the world counts the requests.
abbrev uart : List ℕ → Uart ℕ
uart reply = record {
  register_base = 0;
  write = λ base bytes w. (length bytes, w + 1);
  read = λ base size w. (take size reply, w);
}

abbrev board : Option ℕ → NvParam ℕ
board val = record {
  board_i2c_vrd_config_info = 0;
  perm_all = 0;
  get = λ param acl w. (success, val, w);
}

abbrev board_a1 : NvParam ℕ
board_a1 = board (some 0x6A687F60)

abbrev board_a2 : NvParam ℕ
board_a2 = board (some 0x6A685860)

abbrev whole_reply : List ℕ
whole_reply = replicate 33 b'.' ++ codes "31.5 C   "

abbrev stack : List ℕ
stack = replicate 33 0 ++ codes "leftovers"

exchanged :
    (reply : List ℕ)
    → length (take 42 reply) ≢ 0
    → Exchanged (uart reply) board_a2 cpu_temp 0 stack (0 ∷ 0 ∷ 0 ∷ 0 ∷ []) 0
unfolding get_firmware_major_version
exchanged reply h = record {
  not_a1 = λ e. absurd (omega arith);
  sent = λ e. absurd (omega arith);
  received = h;
}

sensor_reading-reply_example :
    sensor_reading (uart whole_reply) board_a2 cpu_temp 0 stack (0 ∷ 0 ∷ 0 ∷ 0 ∷ []) 4 0
    ≡ returned success (codes "31.5") 1
unfolding get_firmware_major_version
sensor_reading-reply_example =
    sensor_reading-reply (uart whole_reply) board_a2 cpu_temp 0 stack (0 ∷ 0 ∷ 0 ∷ 0 ∷ []) 0
      (exchanged whole_reply (λ e. absurd (omega arith))) refl refl (omega arith)

sensor_reading-short_reply_example :
    sensor_reading (uart (b'[' ∷ [])) board_a2 cpu_temp 0 stack (0 ∷ 0 ∷ 0 ∷ 0 ∷ []) 4 0
    ≡ returned success (codes "left") 1
unfolding get_firmware_major_version
sensor_reading-short_reply_example =
    sensor_reading-short_reply (uart (b'[' ∷ [])) board_a2 cpu_temp 0 stack (0 ∷ 0 ∷ 0 ∷ 0 ∷ []) 0
      (exchanged (b'[' ∷ []) (λ e. absurd (omega arith))) refl (omega arith) (omega arith)

sensor_reading-out_of_bounds_example :
    sensor_reading (uart whole_reply) board_a2 cpu_temp 0 stack (0 ∷ 0 ∷ 0 ∷ 0 ∷ []) 10 0
    ≡ out_of_bounds
sensor_reading-out_of_bounds_example =
    sensor_reading-out_of_bounds (uart whole_reply) board_a2 cpu_temp 0 stack (0 ∷ 0 ∷ 0 ∷ 0 ∷ []) 0
      10 (exchanged whole_reply (λ e. absurd (omega arith))) refl (omega arith) (omega arith)
