-- ===== src/PowerOff/Counter.antt =====
-- How often the power-off type is sent.
use edk2_adlink_ampere_altra.Base.{
  ℕ, zero, suc, ◌+◌, ◌/◌, ◌%◌, ◌≡◌, ◌≢◌, refl, ap, ◌∙◌, arith, ◌==◌, ==_false, Bool-cases, ==_iff,
  inl, inr, u8,
}
use edk2_adlink_ampere_altra.Print.{PrintLib}
use edk2_adlink_ampere_altra.Mmc.{Uart, mmc_set_power_off_type}
use edk2_adlink_ampere_altra.PowerOff.{mmc_notify_ready_to_boot, notify_times}

module _ {W : Type 0} (uart : Uart W) (print : PrintLib) where
  -- The command for the type 1, sent `k` times.
  unfoldable pub sends : ℕ → W → W
  sends zero w = w
  sends (suc k) w = (mmc_set_power_off_type uart print 1 (sends k w)).1

  signal_first :
      (n : ℕ) (w : W)
      → n % 256 ≡ 0
      → mmc_notify_ready_to_boot uart print
          (record { setting_count = n % 256; world = sends ((n + 255) / 256) w })
        ≡ record { setting_count = suc n % 256; world = sends ((suc n + 255) / 256) w }
  unfolding mmc_notify_ready_to_boot sends
  signal_first n w e =
      let next : (suc n + 255) / 256 ≡ suc ((n + 255) / 256) = omega (arith, e) in
      let count : suc n % 256 ≡ 1 = omega (arith, e) in rw (next, count, e)

  signal_later :
      (n : ℕ) (w : W)
      → n % 256 ≢ 0
      → mmc_notify_ready_to_boot uart print
          (record { setting_count = n % 256; world = sends ((n + 255) / 256) w })
        ≡ record { setting_count = suc n % 256; world = sends ((suc n + 255) / 256) w }
  unfolding mmc_notify_ready_to_boot
  signal_later n w ne =
      let next : (suc n + 255) / 256 ≡ (n + 255) / 256 = omega (arith, ne) in
      let count : u8 (n % 256 + 1) ≡ suc n % 256 = omega arith in
      rw (next, ==_false (n % 256) 0 ne, count)

  signal :
      (n : ℕ) (w : W)
      → mmc_notify_ready_to_boot uart print
          (record { setting_count = n % 256; world = sends ((n + 255) / 256) w })
        ≡ record { setting_count = suc n % 256; world = sends ((suc n + 255) / 256) w }
  signal n w = elim (Bool-cases (n % 256 == 0)) [
    | inl p ↦ signal_first n w ((==_iff (n % 256) 0).0 p)
    | inr p ↦ signal_later n w (ground arith)
  ]

  -- After `n` signals of ReadyToBoot the counter has wrapped with its eight bits, and the command has
  -- gone out at the first signal of each 256: once if there are at most 256 signals, and again at
  -- the 257th.
  pub notify_times-sends :
      (n : ℕ) (w : W)
      → notify_times uart print n (record { setting_count = 0; world = w })
        ≡ record { setting_count = n % 256; world = sends ((n + 255) / 256) w }
  unfolding notify_times sends
  notify_times-sends zero w = refl
  notify_times-sends (suc n) w =
      ap (mmc_notify_ready_to_boot uart print) (notify_times-sends n w) ∙ signal n w
