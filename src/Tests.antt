-- ===== src/Tests.antt =====
-- Runs of the POST codes, the power-off type, the PCIe segments and the setup application.
use edk2_adlink_ampere_altra.Base.{ℕ, ◌+◌, ◌≡◌, refl, suc, true, false, [], success, length}
use edk2_adlink_ampere_altra.Print.{PrintLib}
use edk2_adlink_ampere_altra.Mmc.{Uart}
use edk2_adlink_ampere_altra.PostCode.{Properties}
use edk2_adlink_ampere_altra.PowerOff.{notify_times}
use edk2_adlink_ampere_altra.PowerOff.Counter.{sends, notify_times-sends}
use edk2_adlink_ampere_altra.BoardPcie.{Sizes}
use edk2_adlink_ampere_altra.FwUi.{Variables, shell_app_main, set_boot_to_fw_ui}
use edk2_adlink_ampere_altra.FwUi.Outcome.{KeepsVariables, Outcome, shell_app_main-Outcome}

-- The world counts the frames sent.
abbrev uart : Uart ℕ
uart = record {
  register_base = 0;
  write = λ base bytes w. (length bytes, w + 1);
  read = λ base size w. ([], w);
}

abbrev print : PrintLib
print = record { ascii_sprint = λ size format args. []; ascii_bsprint = λ size format marker. [] }

abbrev properties : Properties
properties = record { mask = 0x18; enabled_bit = 0x8; description_enabled_bit = 0x10 }

-- At the 257th signal the power-off type goes out again.
notify_times-sends_example :
    notify_times uart print 257 (record { setting_count = 0; world = 0 })
    ≡ record { setting_count = 1; world = sends uart print 2 0 }
notify_times-sends_example = notify_times-sends uart print 257 0

abbrev sizes : Sizes
sizes = record { max_socket = 2; max_root_complex = 8 }

-- A store of one variable, and how often the machine was reset.
abbrev variables : Variables (ℕ × ℕ)
variables = record {
  boot_to_fw_ui = 1;
  get_os_indications_supported = λ w. (success, 8, 1, w);
  get_os_indications = λ w. (success, 8, w.0, w);
  set_os_indications = λ v w. (success, (v, w.1));
  reset_cold = λ w. (w.0, suc w.1);
}

variables_keep : KeepsVariables variables (λ w. w.0) (λ w. w.1)
variables_keep = record {
  by_supported = λ w. (refl, refl);
  by_get = λ w. (refl, refl);
  gets = λ w e. refl;
  sets = λ v w e. refl;
  set_fails = λ v w e. absurd (never e);
  by_set = λ v w. refl;
  by_reset = λ w. refl;
}
  where
    never : false ≡ true → ⊥
    never e = cc

shell_app_main-Outcome_example :
    Outcome variables (λ w. w.0) (λ w. w.1) (4, 0) (shell_app_main variables (4, 0))
shell_app_main-Outcome_example =
    shell_app_main-Outcome variables (λ w. w.0) (λ w. w.1) variables_keep (4, 0)

-- The bit 4 stays beside the bit for the setup.
shell_app_main_test : shell_app_main variables (4, 0) ≡ (success, (5, 1))
unfolding shell_app_main set_boot_to_fw_ui
shell_app_main_test = refl
