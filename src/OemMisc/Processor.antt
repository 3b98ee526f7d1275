-- ===== src/OemMisc/Processor.antt =====
-- The processor information and the SMBIOS strings.
use edk2_adlink_ampere_altra.Base.{
  ℕ, ◌*◌, ◌/◌, ◌%◌, ◌^◌, ◌<◌, ◌≡◌, ◌↔◌, refl, arith, Bool, true, false, u8, set_bit, Bool-cases,
  inl, inr,
}
use edk2_adlink_ampere_altra.OemMisc.{
  Cpu, CacheTable, ProcessorInformation, Field, Strings, frees_null, oem_is_processor_present,
  oem_get_processor_information, oem_get_cache_information, oem_update_smbios_info,
}

module _ (cpu : Cpu) (index : ℕ) where
  -- OemGetProcessorInformation and OemGetCacheInformation succeed exactly for a processor that is
  -- present. For one that is not, the first clears the status alone, and the second changes nothing.
  pub presence_agrees :
      (level : ℕ) (data_cache unified_cache : Bool) (info : ProcessorInformation)
      (table : CacheTable)
      → ((oem_get_processor_information cpu index info).0 ≡ oem_is_processor_present cpu index)
        × ((oem_get_cache_information cpu index level data_cache unified_cache table).0
            ≡ oem_is_processor_present cpu index)
  unfolding oem_get_processor_information oem_get_cache_information
  presence_agrees level data_cache unified_cache info table =
      elim (Bool-cases (oem_is_processor_present cpu index)) [
        | inl p ↦ rw p (refl, refl)
        | inr p ↦ rw p (refl, refl)
      ]

  -- The seven bits below the top bit of the voltage are the voltage in tenths of a volt exactly if
  -- the voltage has no tenths: the division by 1000 comes before the product with 10. The voltage is
  -- in millivolts, and less than 12.8 volts, so that seven bits are enough.
  pub voltage_tenths :
      (info : ProcessorInformation)
      → oem_is_processor_present cpu index ≡ true
      → cpu.get_voltage index < 12800
      → ((oem_get_processor_information cpu index info).1.misc.voltage % 2 ^ 7
          ≡ cpu.get_voltage index / 100)
        ↔ (cpu.get_voltage index % 1000 < 100)
  unfolding oem_get_processor_information
  voltage_tenths info present small = rw present (in_tenths (cpu.get_voltage index) small)
    where
      in_tenths :
          (v : ℕ)
          → v < 12800
          → ((u8 (set_bit 7 (v / 1000 * 10))) % 2 ^ 7 ≡ v / 100) ↔ (v % 1000 < 100)
      in_tenths v h = ground arith

-- Where the pool has no room for the string, OemUpdateSmbiosInfo sets none, and hands the NULL
-- pointer to FreePool.
pub oem_update_smbios_info-frees_null :
    {W : Type 0} (cpu : Cpu) (strings : Strings W) (hii_handle token : ℕ) (field : Field) (w : W)
    → ((size : ℕ) → (strings.allocate_pool size w).0 ≡ false)
    → (v : W) × (oem_update_smbios_info cpu strings hii_handle token field w ≡ frees_null v)
unfolding oem_update_smbios_info
oem_update_smbios_info-frees_null cpu strings hii_handle token field w full =
    let size : ℕ = u8 (strings.smbios_string_max_length * 2) in
    ((strings.allocate_pool size w).1, rw (full size))
