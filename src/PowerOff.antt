-- ===== src/PowerOff.antt =====
-- Drivers/MmcSetPowerOffType: the PEI module and the DXE driver that tell the MMC the power-off
-- type. Each keeps a UINT8 counter of its runs, and sends the command when it is 0.
pub mod Counter
use edk2_adlink_ampere_altra.Base.{ℕ, zero, suc, ◌+◌, ◌==◌, if◌then◌else◌, u8, Status, success}
use edk2_adlink_ampere_altra.Print.{PrintLib}
use edk2_adlink_ampere_altra.Mmc.{Uart, mmc_set_power_off_type}

-- The static variable `SettingCount`.
pub record PowerOff (W : Type 0) : Type 0 where
  pub setting_count : ℕ
  pub world : W

-- CreateEventEx, as its status.
pub record Events (W : Type 0) : Type 0 where
  pub create_ready_to_boot : W → Status × W

module _ {W : Type 0} (uart : Uart W) (print : PrintLib) where
  -- The static counter, stepped after it was tested.
  abbrev set_once : ℕ → PowerOff W → PowerOff W
  set_once type s = record {
    setting_count = u8 (s.setting_count + 1);
    world =
        if s.setting_count == 0
        then (mmc_set_power_off_type uart print type s.world).1
        else s.world;
  }

  -- MmcNotifyReadyToBoot
  unfoldable pub mmc_notify_ready_to_boot : PowerOff W → PowerOff W
  mmc_notify_ready_to_boot s = set_once 1 s

  -- MmcSetPowerOffTypePeim
  unfoldable pub mmc_set_power_off_type_peim : PowerOff W → Status × PowerOff W
  mmc_set_power_off_type_peim s = (success, set_once 0 s)

  -- The event is signalled `n` times.
  unfoldable pub notify_times : ℕ → PowerOff W → PowerOff W
  notify_times zero s = s
  notify_times (suc n) s = mmc_notify_ready_to_boot (notify_times n s)

-- MmcSetPowerOffTypeDxeInitialize
unfoldable pub mmc_set_power_off_type_dxe_initialize : {W : Type 0} → Events W → W → Status × W
mmc_set_power_off_type_dxe_initialize events w = events.create_ready_to_boot w
