-- ===== src/FwUi.antt =====
-- Application/FwUi/FwUi.c: asks the firmware to enter its setup at the next boot. The variable
-- services and the reset are parameters, and so is EFI_OS_INDICATIONS_BOOT_TO_FW_UI. Print is not
-- modelled.
pub mod Outcome
use edk2_adlink_ampere_altra.Base.{
  ℕ, ◌==◌, Bool, ◌||◌, not, List, if◌then◌else◌, bit_and, bit_or, Status, success, unsupported,
  is_error,
}

-- GetVariable gives its status, the DataSize, and the 64 bits of the buffer afterwards; SetVariable
-- takes them. `EfiResetCold` does not return, so the world after it is the last one.
pub record Variables (W : Type 0) : Type 0 where
  pub boot_to_fw_ui : ℕ
  pub get_os_indications_supported : W → Status × ℕ × ℕ × W
  pub get_os_indications : W → Status × ℕ × ℕ × W
  pub set_os_indications : ℕ → W → Status × W
  pub reset_cold : W → W

module _ {W : Type 0} (vars : Variables W) where
  open vars use {
    boot_to_fw_ui, get_os_indications_supported, get_os_indications, set_os_indications, reset_cold,
  }

  -- The last part of ShellAppMain, from the read of OsIndications on.
  unfoldable pub set_boot_to_fw_ui : W → Status × W
  set_boot_to_fw_ui w =
      let (status, size, value, w₁) = get_os_indications w in
      let old = if is_error status || size == 0 then 0 else value in
      let (stored, w₂) = set_os_indications (bit_or old boot_to_fw_ui) w₁ in
      if is_error stored then (stored, w₂) else (success, reset_cold w₂)

  -- ShellAppMain
  unfoldable pub shell_app_main : W → Status × W
  shell_app_main w =
      let (status, size, supported, w₁) = get_os_indications_supported w in
      if is_error status || size == 0
      then (status, w₁)
      else if bit_and supported boot_to_fw_ui == 0
      then (unsupported, w₁)
      else set_boot_to_fw_ui w₁
