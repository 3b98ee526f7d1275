-- ===== src/StatusCode/Serial.antt =====
-- Pei/SerialStatusCodeWorker.c and RuntimeDxe/SerialStatusCodeWorker.c: a status code as a line on
-- the serial port, and as a POST code. ReportStatusCodeLib, PostCodeMapLib, SerialPortLib and the
-- report status code router are parameters, with the constants of the PI specification.
pub mod Fits
use edk2_adlink_ampere_altra.Base.{
  ℕ, ◌+◌, ◌-◌, List, [], ◌∷◌, ◌++◌, Bool, ◌&&◌, Option, none, some, ◌==◌, if◌then◌else◌, bit_and,
  length, u8, Status, success,
}
use edk2_adlink_ampere_altra.Print.{PrintLib, Arg, codes, lfcr}
use edk2_adlink_ampere_altra.Mmc.{Uart}
use edk2_adlink_ampere_altra.PostCode.{Properties, post_code}

-- What the workers read of EFI_STATUS_CODE_DATA; `address` is the pointer itself.
pub record StatusData : Type 0 where
  pub address : ℕ
  pub type : ℕ
  pub string_type : ℕ
  pub string_ascii : List ℕ

-- What ReportStatusCodeExtractAssertInfo and ReportStatusCodeExtractDebugInfo give.
pub record AssertInfo : Type 0 where
  pub filename : List ℕ
  pub line_number : ℕ
  pub description : List ℕ

pub record DebugInfo : Type 0 where
  pub format : List ℕ
  pub marker : List ℕ

pub record Services (W : Type 0) : Type 0 where
  pub type_mask : ℕ
  pub error_code : ℕ
  pub progress_code : ℕ
  pub exit_boot_services : ℕ
  pub string_guid : ℕ
  pub string_ascii_type : ℕ
  pub max_debug_message_length : ℕ
  pub extract_assert_info : ℕ → ℕ → StatusData → Option AssertInfo
  pub extract_debug_info : StatusData → Option DebugInfo
  pub get_post_code_from_status_code : ℕ → ℕ → ℕ
  pub serial_port_write : List ℕ → W → W
  pub unregister_serial : W → W

module _ {W : Type 0} (svc : Services W) (print : PrintLib) where
  open svc use {
    type_mask, error_code, progress_code, string_guid, string_ascii_type, max_debug_message_length,
    extract_assert_info, extract_debug_info,
  }

  -- `if (p != NULL) CharCount += AsciiSPrint (&Buffer[CharCount], …)`
  abbrev append_text : List ℕ → List ℕ → Option Arg → List ℕ
  append_text text format none = text
  append_text text format (some arg) =
      text ++ print.ascii_sprint (max_debug_message_length - length text) format (arg ∷ [])

  abbrev caller_arg : Option ℕ → Option Arg
  caller_arg none = none
  caller_arg (some id) = some (Arg.guid id)

  abbrev data_arg : Option StatusData → Option Arg
  data_arg none = none
  data_arg (some d) = some (Arg.pointer d.address)

  -- The branch for EFI_ERROR_CODE.
  error_message : ℕ → ℕ → ℕ → Option ℕ → Option StatusData → List ℕ
  error_message code_type value instance_number caller_id data_of =
      let head =
        print.ascii_sprint max_debug_message_length (codes "ERROR: C%08x:V%08x I%x")
          (Arg.number code_type ∷ Arg.number value ∷ Arg.number instance_number ∷ []) in
      let named = append_text head (codes " %g") (caller_arg caller_id) in
      let shown = append_text named (codes " %x") (data_arg data_of) in
      shown ++ print.ascii_sprint (max_debug_message_length - length shown) lfcr []

  undefined_message : ℕ → ℕ → ℕ → List ℕ
  undefined_message code_type value instance_number =
      print.ascii_sprint max_debug_message_length (codes "Undefined: C%08x:V%08x I%x" ++ lfcr)
        (Arg.number code_type ∷ Arg.number value ∷ Arg.number instance_number ∷ [])

  -- The branch for EFI_STATUS_CODE_STRING_DATA, and the last one.
  string_message : ℕ → ℕ → ℕ → Option StatusData → List ℕ
  string_message code_type value instance_number none =
      undefined_message code_type value instance_number
  string_message code_type value instance_number (some d) =
      if d.type == string_guid && d.string_type == string_ascii_type
      then print.ascii_sprint max_debug_message_length (codes "%a") (Arg.ascii d.string_ascii ∷ [])
      else undefined_message code_type value instance_number

  -- The branches behind those for ASSERT() and DEBUG().
  plain_message : ℕ → ℕ → ℕ → Option ℕ → Option StatusData → List ℕ
  plain_message code_type value instance_number caller_id data_of =
      if bit_and code_type type_mask == error_code
      then error_message code_type value instance_number caller_id data_of
      else if bit_and code_type type_mask == progress_code
      then print.ascii_sprint max_debug_message_length (codes "PROGRESS CODE: V%08x I%x" ++ lfcr)
          (Arg.number value ∷ Arg.number instance_number ∷ [])
      else string_message code_type value instance_number data_of

  abbrev assert_info : ℕ → ℕ → Option StatusData → Option AssertInfo
  assert_info code_type value none = none
  assert_info code_type value (some d) = extract_assert_info code_type value d

  abbrev debug_info : Option StatusData → Option DebugInfo
  debug_info none = none
  debug_info (some d) = extract_debug_info d

  -- The branch for DEBUG(), before the text of the branches behind it.
  debug_message : Option DebugInfo → List ℕ → List ℕ
  debug_message none otherwise = otherwise
  debug_message (some d) otherwise = print.ascii_bsprint max_debug_message_length d.format d.marker

  -- The branch for ASSERT(); `phase` is what the two files print before its place.
  assert_message : List ℕ → Option AssertInfo → List ℕ → List ℕ
  assert_message phase none otherwise = otherwise
  assert_message phase (some a) otherwise =
      print.ascii_sprint max_debug_message_length (lfcr ++ phase ++ codes ": %a (%d): %a" ++ lfcr)
        (Arg.ascii a.filename ∷ Arg.number a.line_number ∷ Arg.ascii a.description ∷ [])

  -- The text in `Buffer`.
  unfoldable pub message : List ℕ → ℕ → ℕ → ℕ → Option ℕ → Option StatusData → List ℕ
  unfolding assert_message debug_message plain_message error_message string_message
      undefined_message
  message phase code_type value instance_number caller_id data_of =
      assert_message phase (assert_info code_type value data_of) (
        debug_message (debug_info data_of)
          (plain_message code_type value instance_number caller_id data_of))

  module _ (uart : Uart W) (properties : Properties) where
    -- What both workers do: the text, and the POST code that goes with the status code.
    unfoldable pub write_and_post : List ℕ → ℕ → ℕ → W → W
    write_and_post text code_type value w =
        (post_code uart print properties (u8 (svc.get_post_code_from_status_code code_type value))
          (svc.serial_port_write text w)).1

    -- SerialStatusCodeReportWorker of the PEI module
    unfoldable pub pei_serial_report : ℕ → ℕ → ℕ → Option ℕ → Option StatusData → W → Status × W
    unfolding message write_and_post
    pei_serial_report code_type value instance_number caller_id data_of w = (
      success,
      write_and_post
          (message (codes "PEI_ASSERT!") code_type value instance_number caller_id data_of)
          code_type value w,
    )

    -- UnregisterSerialBootTimeHandlers; the flag is PcdStatusCodeUseSerial.
    unfoldable pub unregister_serial_boot_time_handlers : Bool → W → W
    unregister_serial_boot_time_handlers use_serial w =
        if use_serial then svc.unregister_serial w else w

    -- SerialStatusCodeReportWorker of the DXE driver, which leaves the router with the boot services.
    unfoldable pub dxe_serial_report :
        Bool → ℕ → ℕ → ℕ → Option ℕ → Option StatusData → W → Status × W
    unfolding message write_and_post unregister_serial_boot_time_handlers
    dxe_serial_report use_serial code_type value instance_number caller_id data_of w =
        let posted =
          write_and_post
            (message (codes "DXE_ASSERT!") code_type value instance_number caller_id data_of)
            code_type value w in
        (
          success,
          if (bit_and code_type type_mask == progress_code) && (value == svc.exit_boot_services)
              then unregister_serial_boot_time_handlers use_serial posted
              else posted,
        )
