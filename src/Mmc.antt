-- ===== src/Mmc.antt =====
-- Library/MmcLib/MmcLib.c, the commands to the board's management controller (MMC) over a UART,
-- and Library/NVLib/NVLib.c, the version of the board that some of them depend on.
-- PL011UartLib and NVParamLib are parameters. DEBUG output is not modelled.
pub mod Sensors
pub mod Replies
pub mod Frames
mod Tests
use edk2_adlink_ampere_altra.Base.{
  ℕ, ◌+◌, ◌-◌, List, [], ◌∷◌, ◌++◌, Bool, ◌&&◌, Option, some, none, ◌==◌, leb, ltb, if◌then◌else◌,
  length, take, drop, set, overlay, u8, sub64, Status, success, invalid_parameter, unsupported,
  no_response,
}
use edk2_adlink_ampere_altra.Print.{PrintLib, Arg, codes, crlf}

-- PL011UartWrite gives the number of bytes written, PL011UartRead the bytes received.
pub record Uart (W : Type 0) : Type 0 where
  pub register_base : ℕ
  pub write : ℕ → List ℕ → W → ℕ × W
  pub read : ℕ → ℕ → W → List ℕ × W

-- NVParamGet gives the value that it stores, if it stores one.
pub record NvParam (W : Type 0) : Type 0 where
  pub board_i2c_vrd_config_info : ℕ
  pub perm_all : ℕ
  pub get : ℕ → ℕ → W → Status × Option ℕ × W

-- What a reading does: it returns, with the caller's buffer afterwards, or it copies outside of one
-- of its two buffers.
pub data Reading (W : Type 0) : Type 0 where
  returned : Status → List ℕ → W → Reading W
  out_of_bounds : Reading W

-- An array initialised with a text, its line end and its NUL.
abbrev pub line : List ℕ → List ℕ
line text = text ++ crlf ++ (0 ∷ [])

abbrev pub after_store : Option ℕ → ℕ → ℕ
after_store none old = old
after_store (some v) old = v

-- `CopyMem (Buffer, xBuffer + offset, count)`
unfoldable pub copy_reply : {W : Type 0} → ℕ → ℕ → List ℕ → List ℕ → W → Reading W
copy_reply offset count buffer array w =
    if leb (offset + count) (length array) && leb count (length buffer)
    then returned success (overlay (take count (drop offset array)) buffer) w
    else out_of_bounds

-- `Buffer[2] = '.'`
dot_third : {W : Type 0} → Reading W → Reading W
dot_third out_of_bounds = out_of_bounds
dot_third (returned status buffer w) =
    if ltb 2 (length buffer) then returned status (set buffer 2 b'.') w else out_of_bounds

module _ {W : Type 0} (nv : NvParam W) where
  -- GetFirmwareMajorVersion. `stack` is what its variable `Val` holds before the call.
  unfoldable pub get_firmware_major_version : ℕ → W → ℕ × W
  get_firmware_major_version stack w =
      let (status, stored, w') = nv.get nv.board_i2c_vrd_config_info nv.perm_all w in
      let val = after_store stored stack in
      (if val == 0x6A685860 then 0xA2 else if val == 0x6A687F60 then 0xA1 else 0xA0, w')

-- The bytes that MmcPostCode and MmcSetPowerOffType send: the text printed over the array.
unfoldable pub post_code_frame : PrintLib → ℕ → List ℕ
post_code_frame print value =
    let array = line (codes "[C0 00 80 11]") in
    overlay
      (print.ascii_sprint (length array) (codes "[C0 00 80 %2X]" ++ crlf)
          (Arg.number (u8 value) ∷ [])
        ++ (0 ∷ []))
      array

unfoldable pub power_off_frame : PrintLib → ℕ → List ℕ
power_off_frame print value =
    let array = line (codes "[C0 00 15 01]") in
    overlay
      (print.ascii_sprint (length array) (codes "[C0 00 80 %02X]" ++ crlf)
          (Arg.number (u8 value) ∷ [])
        ++ (0 ∷ []))
      array

module _ {W : Type 0} (uart : Uart W) where
  -- MmcPostCode
  unfoldable pub mmc_post_code : PrintLib → ℕ → W → Status × W
  mmc_post_code print value w =
      let (n, w') = uart.write uart.register_base (post_code_frame print value) w in
      (if n == 0 then no_response else success, w')

  -- MmcSetPowerOffType
  unfoldable pub mmc_set_power_off_type : PrintLib → ℕ → W → Status × W
  mmc_set_power_off_type print value w =
      let (n, w') = uart.write uart.register_base (power_off_frame print value) w in
      (if n == 0 then invalid_parameter else success, w')

  -- WolDisableCmd and WolEnableCmd
  unfoldable pub wol_disable_cmd : W → Status × W
  wol_disable_cmd w =
      let (n, w') = uart.write uart.register_base (line (codes "[C0 00 3C 00]")) w in
      (if n == 0 then no_response else success, w')

  unfoldable pub wol_enable_cmd : W → Status × W
  wol_enable_cmd w =
      let (n, w') = uart.write uart.register_base (line (codes "[C0 00 3C 01]")) w in
      (if n == 0 then no_response else success, w')

  module _ (nv : NvParam W) where
    -- The common part of the functions that ask the MMC: no request on a board A1, one write, one
    -- read of `size` bytes into an array that held `array`, and then `copy` with that array.
    unfoldable pub ask : List ℕ → ℕ → ℕ → List ℕ → List ℕ → (List ℕ → W → Reading W) → W → Reading W
    ask request size stack array buffer copy w =
        let (version, w₁) = get_firmware_major_version nv stack w in
        let (n, w₂) = uart.write uart.register_base request w₁ in
        let (bytes, w₃) = uart.read uart.register_base size w₂ in
        if version == 0xA1
        then returned unsupported buffer w₁
        else if n == 0
        then returned no_response buffer w₂
        else if length bytes == 0
        then returned no_response buffer w₃
        else copy (overlay bytes array) w₃

    -- MmcFirmwareVersion: of the copied characters the third becomes a dot.
    abbrev pub version_buffer_size : ℕ
    version_buffer_size = 74

    unfoldable pub mmc_firmware_version : ℕ → List ℕ → List ℕ → ℕ → W → Reading W
    unfolding dot_third
    mmc_firmware_version stack array buffer buffer_size w =
        ask (line (codes "[18 00 01]")) version_buffer_size stack array buffer
          (λ reply w'. dot_third (copy_reply 66 (sub64 buffer_size 1) buffer reply w')) w
