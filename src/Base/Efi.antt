-- ===== src/Base/Efi.antt =====
-- EFI_STATUS: the codes that the code returns itself or tests by name, and those that only pass
-- through it. A code that passes through is a number, an error if its top bit is set.
use Prim.Native.Nat.{ℕ, ◌^◌}
use mathlib.Core.Bool.{Bool, true, false}
use edk2_adlink_ampere_altra.Base.Tests.{leb}

pub data Status : Type 0 where
  success invalid_parameter unsupported no_response device_error timed_out out_of_resources : Status
  other : ℕ → Status

-- `EFI_ERROR`
abbrev pub is_error : Status → Bool
is_error success = false
is_error (other n) = leb (2 ^ 63) n
is_error _ = true

-- `Status == EFI_SUCCESS`
abbrev pub is_success : Status → Bool
is_success success = true
is_success _ = false
