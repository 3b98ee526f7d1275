-- ===== src/PostCode.antt =====
-- Library/PostCodeLibMmc/PostCode.c: POST codes sent to the MMC. The two bits of
-- PcdPostCodePropertyMask are PostCodeLib.h's, and parameters with the mask.
pub mod Laws
use edk2_adlink_ampere_altra.Base.{ℕ, Bool, not, ◌&&◌, ◌==◌, if◌then◌else◌, has_bits, List}
use edk2_adlink_ampere_altra.Print.{PrintLib}
use edk2_adlink_ampere_altra.Mmc.{Uart, mmc_post_code}

-- PcdPostCodePropertyMask, POST_CODE_PROPERTY_POST_CODE_ENABLED and
-- POST_CODE_PROPERTY_POST_CODE_DESCRIPTION_ENABLED
pub record Properties : Type 0 where
  pub mask : ℕ
  pub enabled_bit : ℕ
  pub description_enabled_bit : ℕ

-- PostCodeEnabled and PostCodeDescriptionEnabled
unfoldable pub post_code_enabled : Properties → Bool
post_code_enabled p = has_bits p.mask p.enabled_bit

unfoldable pub post_code_description_enabled : Properties → Bool
post_code_description_enabled p = has_bits p.mask p.description_enabled_bit

module _ {W : Type 0} (uart : Uart W) (print : PrintLib) (p : Properties) where
  -- PostCode; the status of MmcPostCode is dropped.
  unfoldable pub post_code : ℕ → W → ℕ × W
  unfolding post_code_enabled
  post_code value w = (
    value,
    if post_code_enabled p && not (value == 0) then (mmc_post_code uart print value w).1 else w,
  )

  -- PostCodeWithDescription; the description goes only to DEBUG.
  unfoldable pub post_code_with_description : ℕ → List ℕ → W → ℕ × W
  unfolding post_code_description_enabled
  post_code_with_description value description w = (
    value,
    if post_code_description_enabled p && not (value == 0)
        then (mmc_post_code uart print value w).1
        else w,
  )
