-- ===== src/OemMisc/Cache.antt =====
-- The cache sizes and the cache configuration in the SMBIOS table.
use edk2_adlink_ampere_altra.Base.{
  ℕ, ◌+◌, ◌-◌, ◌*◌, ◌/◌, ◌%◌, ◌^◌, ◌≤◌, ◌<◌, ◌≡◌, refl, arith, Bool, true, ◌==◌, ◌&&◌,
  if◌then◌else◌, u64, test_bit, set_bit, ◌⊎◌, passes_below, below_all_checked,
}
use edk2_adlink_ampere_altra.OemMisc.{
  Cpu, CacheTable, cache_configuration_of, core_cache_size, cache_size_fields,
  oem_is_processor_present, oem_get_cache_information,
}

-- What the SMBIOS specification reads in a size of 16 and of 32 bits, in kilobytes: the top bit
-- chooses granules of 64 kilobytes.
abbrev pub size16 : ℕ → ℕ
size16 x = if test_bit 15 x then (x - 2 ^ 15) * 64 else x

abbrev pub size32 : ℕ → ℕ
size32 x = if test_bit 31 x then (x - 2 ^ 31) * 64 else x

set_bit_high : (k x : ℕ) → x < 2 ^ 31 → (set_bit 31 x ≡ x + 2 ^ 31)
set_bit_high k x h = ground arith

-- The sizes written for a cache of `n` kilobytes: the 32-bit one stands for `n`, rounded down to 64
-- kilobytes at most, and the 16-bit one for the same, or it is 0xFFFF, which refers to the other.
-- This is for a size that 31 bits of granules can hold.
pub cache_size_fields_lem :
    (n : ℕ)
    → n < 2 ^ 37
    → let (small, large) = cache_size_fields n in
      (size32 large ≤ n)
      × (n < size32 large + 64)
      × ((small ≡ 0xFFFF) ⊎ (size16 small ≡ size32 large))
unfolding cache_size_fields
cache_size_fields_lem n h = ground arith

-- One core's size is what the table's 32-bit size stands for, if that is less than 2^32 kilobytes.
pub core_cache_size-size32 : (x : ℕ) → x < 2 ^ 32 → size32 x < 2 ^ 32 → core_cache_size x ≡ size32 x
unfolding core_cache_size
core_cache_size-size32 x h small = ground arith

-- From 2^26 granules on the product with 64 wraps, and one core's size comes out smaller than what
-- the table stands for.
pub core_cache_size_wraps :
    (x : ℕ) → 2 ^ 31 + 2 ^ 26 ≤ x → x < 2 ^ 32 → core_cache_size x < size32 x
unfolding core_cache_size
core_cache_size_wraps x low high = ground arith

module _ (cpu : Cpu) (index level : ℕ) (data_cache unified_cache : Bool) (old : CacheTable) where
  -- The 32-bit size that OemGetCacheInformation writes for a processor that is present stands for
  -- the size in the table times the number of active cores, rounded down to 64 kilobytes at most,
  -- and both 32-bit fields are the same. This is for a size in the table below 2^32 kilobytes and a
  -- product below 2^37.
  pub oem_get_cache_information-size :
      oem_is_processor_present cpu index ≡ true
      → old.maximum_cache_size2 < 2 ^ 32
      → size32 old.maximum_cache_size2 < 2 ^ 32
      → size32 old.maximum_cache_size2 * cpu.get_number_of_active_cores_per_socket index < 2 ^ 37
      → let new = (oem_get_cache_information cpu index level data_cache unified_cache old).1 in
        let total =
          size32 old.maximum_cache_size2 * cpu.get_number_of_active_cores_per_socket index in
        (size32 new.maximum_cache_size2 ≤ total)
        × (total < size32 new.maximum_cache_size2 + 64)
        × (new.installed_size2 ≡ new.maximum_cache_size2)
  unfolding oem_get_cache_information
  oem_get_cache_information-size present word small product =
      let total =
        size32 old.maximum_cache_size2 * cpu.get_number_of_active_cores_per_socket index in
      let whole : u64 total ≡ total = omega arith in
      let sizes = cache_size_fields_lem total product in
      rw (present, core_cache_size-size32 old.maximum_cache_size2 word small, whole)
        (sizes.0, sizes.1, refl)

-- The fields of CacheConfiguration for the mode `k / 8` and the level `k % 8 + 1`.
abbrev config_ok : ℕ → Bool
config_ok k =
    let c = cache_configuration_of (k / 8) (k % 8 + 1) in
    (c / 2 ^ 8 == k / 8) && (c % 8 == k % 8) && (c / 2 ^ 3 % 2 ^ 5 == 2 ^ 4)

config_table : passes_below config_ok 24 ≡ true
unfolding passes_below cache_configuration_of
config_table = refl

config_at :
    (k : ℕ)
    → k < 24
    → let c = cache_configuration_of (k / 8) (k % 8 + 1) in
      (c / 2 ^ 8 ≡ k / 8) × (c % 8 ≡ k % 8) × (c / 2 ^ 3 % 2 ^ 5 ≡ 2 ^ 4)
config_at k h = ground (arith, below_all_checked config_ok 24 k h config_table)

-- The cache configuration of one of the three modes and one of the eight levels keeps them apart:
-- the mode stands in the bits from 8 on, the level less one in the lowest three, and of the five
-- bits between only the one for an enabled cache is set.
pub cache_configuration_of_fields :
    (mode level : ℕ)
    → mode < 3
    → 1 ≤ level
    → level ≤ 8
    → let c = cache_configuration_of mode level in
      (c / 2 ^ 8 ≡ mode) × (c % 8 ≡ level - 1) × (c / 2 ^ 3 % 2 ^ 5 ≡ 2 ^ 4)
cache_configuration_of_fields mode level three low high =
    let k : ℕ = mode * 8 + (level - 1) in
    let hi : k / 8 ≡ mode = omega arith in
    let lo : k % 8 ≡ level - 1 = omega arith in
    let up : level - 1 + 1 ≡ level = omega arith in
    let at = config_at k (omega arith) in rw (hi, lo, up) at at
