-- ===== src/OemMisc.antt =====
-- Library/OemMiscLib/OemMiscLib.c: what the board reports of its processors for SMBIOS. AmpereCpuLib,
-- ArmLib, PrintLib, HiiLib and MemoryAllocationLib are parameters.
pub mod Cache
pub mod Processor
mod Tests
use edk2_adlink_ampere_altra.Base.{
  ℕ, ◌+◌, ◌-◌, ◌*◌, ◌/◌, ◌%◌, ◌^◌, List, [], ◌∷◌, ◌++◌, Bool, true, false, not, ◌&&◌, ◌||◌, Option,
  none, some, ltb, leb, ◌==◌, if◌then◌else◌, u8, u16, u32, u64, test_bit, set_bit, clear_bit,
  bit_or,
}
use edk2_adlink_ampere_altra.Print.{Arg, codes}

-- AmpereCpuLib and ArmLib; `read_ccsidr level ind` reads CCSIDR with the level and the kind selected
-- in CSSELR. The constants are those of AmpereCpuLib.h and SmBios.h.
pub record Cpu : Type 0 where
  pub is_slave_socket_available : Bool
  pub is_cpu_enabled : ℕ → Bool
  pub is_ac01_processor : Bool
  pub get_max_freq : ℕ → ℕ
  pub get_current_freq : ℕ
  pub get_voltage : ℕ → ℕ
  pub get_number_of_active_cores_per_socket : ℕ → ℕ
  pub get_maximum_number_of_cores : ℕ
  pub get_sku_max_core : ℕ → ℕ
  pub get_sku_max_turbo : ℕ → ℕ
  pub get_ecid : ℕ → List Arg
  pub read_ccsidr : ℕ → Bool → ℕ
  pub cpu_cache_l1 : ℕ
  pub cache_error_parity : ℕ
  pub cache_error_single_bit : ℕ

-- What is written of PROCESSOR_STATUS_DATA, PROCESSOR_CHARACTERISTIC_FLAGS and
-- OEM_MISC_PROCESSOR_DATA.
pub record ProcessorStatus : Type 0 where
  pub socket_populated : Bool
  pub cpu_status : Bool

pub record Characteristics : Type 0 where
  pub unknown : Bool
  pub capable_64bit : Bool
  pub multi_core : Bool
  pub hardware_thread : Bool
  pub execute_protection : Bool
  pub enhanced_virtualization : Bool
  pub power_performance_ctrl : Bool
  pub capable_128bit : Bool

pub record MiscProcessorData : Type 0 where
  pub voltage : ℕ
  pub current_speed : ℕ
  pub max_speed : ℕ
  pub core_count : ℕ
  pub cores_enabled : ℕ
  pub thread_count : ℕ

pub record ProcessorInformation : Type 0 where
  pub status : ProcessorStatus
  pub characteristics : Characteristics
  pub misc : MiscProcessorData

-- What is read and written of SMBIOS_TABLE_TYPE7.
pub record CacheTable : Type 0 where
  pub supported_sram_synchronous : Bool
  pub current_sram_synchronous : Bool
  pub error_correction_type : ℕ
  pub cache_configuration : ℕ
  pub maximum_cache_size : ℕ
  pub installed_size : ℕ
  pub maximum_cache_size2 : ℕ
  pub installed_size2 : ℕ

-- CACHE_OPERATION_MODE, of which CacheModeUnknown is never returned
abbrev pub cache_mode_write_through : ℕ
cache_mode_write_through = 0

abbrev pub cache_mode_write_back : ℕ
cache_mode_write_back = 1

abbrev pub cache_mode_varies_with_address : ℕ
cache_mode_varies_with_address = 2

-- CacheLocationInternal
abbrev pub cache_location_internal : ℕ
cache_location_internal = 0

-- CacheConfiguration, from its four parts; `1 << CACHE_ENABLED_SHIFT` is 128.
unfoldable pub cache_configuration_of : ℕ → ℕ → ℕ
cache_configuration_of mode level =
    bit_or
      (bit_or (bit_or (u16 (mode * 2 ^ 8)) (u16 (cache_location_internal * 2 ^ 5))) (u16 (2 ^ 7)))
      (u16 (level + 2 ^ 16 - 1))

-- The size of one core's cache in kilobytes, from MaximumCacheSize2: the product is one of UINT32.
unfoldable pub core_cache_size : ℕ → ℕ
core_cache_size size2 = if u8 (size2 / 2 ^ 31) == 0 then size2 else u32 (clear_bit 31 size2 * 64)

-- `CacheSize16` and `CacheSize32` of a size in kilobytes; MAX_INT16 is 0x7FFF.
unfoldable pub cache_size_fields : ℕ → ℕ × ℕ
cache_size_fields size64 =
    let granules = size64 / 64 in
    if ltb size64 0x7FFF
    then (u16 size64, u16 size64)
    else if ltb granules 0x7FFF
    then (u16 (set_bit 15 granules), u32 (set_bit 31 granules))
    else (0xFFFF, if leb (size64 / 1024) 2047 then u32 size64 else u32 (set_bit 31 granules))

-- OemGetMaxProcessors
unfoldable pub oem_get_max_processors : ℕ
oem_get_max_processors = 1

module _ (cpu : Cpu) where
  -- OemIsProcessorPresent
  unfoldable pub oem_is_processor_present : ℕ → Bool
  oem_is_processor_present index = if index == 0 then true else cpu.is_slave_socket_available

  -- OemGetCpuFreq
  unfoldable pub oem_get_cpu_freq : ℕ → ℕ
  oem_get_cpu_freq index = cpu.get_current_freq

  -- GetCacheOperationalMode
  unfoldable pub get_cache_operational_mode : ℕ → Bool → Bool → ℕ
  get_cache_operational_mode level data_cache unified_cache =
      let ccsidr = cpu.read_ccsidr (u8 (level + 255)) (not data_cache && not unified_cache) in
      let wt = test_bit 31 ccsidr in
      let wb = test_bit 30 ccsidr in
      if wt && wb
      then cache_mode_varies_with_address
      else if wt
      then cache_mode_write_through
      else cache_mode_write_back

  -- OemGetProcessorInformation. `none` for the characteristics and the rest means that they keep
  -- what they held.
  unfoldable pub oem_get_processor_information :
      ℕ → ProcessorInformation → Bool × ProcessorInformation
  unfolding oem_is_processor_present
  oem_get_processor_information index old =
      if oem_is_processor_present index
      then (
        true,
        record {
          status = record {
            socket_populated = oem_is_processor_present index;
            cpu_status = cpu.is_cpu_enabled index;
          };
          characteristics = record {
            unknown = false;
            capable_64bit = true;
            multi_core = true;
            hardware_thread = false;
            execute_protection = true;
            enhanced_virtualization = true;
            power_performance_ctrl = true;
            capable_128bit = false;
          };
          misc = record {
            max_speed = u16 (cpu.get_max_freq index);
            cores_enabled = cpu.get_number_of_active_cores_per_socket index;
            core_count = cpu.get_maximum_number_of_cores;
            thread_count = cpu.get_maximum_number_of_cores;
            current_speed = cpu.get_current_freq;
            voltage = u8 (set_bit 7 (cpu.get_voltage index / 1000 * 10));
          };
        },
      )
      else (false, record old { status = record { socket_populated = false; cpu_status = false } })

  -- OemGetCacheInformation
  unfoldable pub oem_get_cache_information : ℕ → ℕ → Bool → Bool → CacheTable → Bool × CacheTable
  unfolding oem_is_processor_present get_cache_operational_mode cache_configuration_of
      core_cache_size cache_size_fields
  oem_get_cache_information index level data_cache unified_cache old =
      let total = u64 (
        core_cache_size old.maximum_cache_size2
        * cpu.get_number_of_active_cores_per_socket index) in
      let sizes = cache_size_fields total in
      if oem_is_processor_present index
      then (
        true,
        record {
          supported_sram_synchronous = true;
          current_sram_synchronous = true;
          error_correction_type =
              if level == cpu.cpu_cache_l1
              then cpu.cache_error_parity
              else cpu.cache_error_single_bit;
          cache_configuration =
              cache_configuration_of (get_cache_operational_mode level data_cache unified_cache)
                level;
          maximum_cache_size = sizes.0;
          installed_size = sizes.0;
          maximum_cache_size2 = sizes.1;
          installed_size2 = sizes.1;
        },
      )
      else (false, old)

-- OEM_MISC_SMBIOS_HII_STRING_FIELD, as far as the code tells its values apart
pub data Field : Type 0 where
  processor_version_type04 processor_serial_num_type04 processor_part_num_type04 other : Field

-- UnicodeSPrint with the size of the buffer in bytes; AllocatePool, which may fail; HiiSetString.
pub record Strings (W : Type 0) : Type 0 where
  pub smbios_string_max_length : ℕ
  pub unicode_sprint : ℕ → List ℕ → List Arg → List ℕ
  pub allocate_pool : ℕ → W → Bool × W
  pub hii_set_string : ℕ → ℕ → List ℕ → W → W
  pub free_pool : W → W

-- What OemUpdateSmbiosInfo does: it returns, or it frees a NULL pointer.
pub data Update (W : Type 0) : Type 0 where
  updated : W → Update W
  frees_null : W → Update W

module _ {W : Type 0} (cpu : Cpu) (strings : Strings W) where
  -- The format and its arguments for a field.
  smbios_text : Field → List ℕ × List Arg
  smbios_text processor_version_type04 = (
    if cpu.is_ac01_processor
        then codes "Ampere(R) Altra(R) Processor"
        else codes "Ampere(R) Altra(R) Max Processor",
    [],
  )
  smbios_text processor_serial_num_type04 = (codes "%08X%08X%08X%08X", cpu.get_ecid 0)
  smbios_text processor_part_num_type04 = (
    if cpu.is_ac01_processor then codes "Q%02d-%02X" else codes "M%02d-%02X",
    Arg.number (cpu.get_sku_max_core 0) ∷ Arg.number (cpu.get_sku_max_turbo 0) ∷ [],
  )
  smbios_text other = (codes "Not Specified", [])

  -- OemUpdateSmbiosInfo; `StringLength` is a UINT8.
  unfoldable pub oem_update_smbios_info : ℕ → ℕ → Field → W → Update W
  unfolding smbios_text
  oem_update_smbios_info hii_handle token field w =
      let string_length = u8 (strings.smbios_string_max_length * 2) in
      let (allocated, w₁) = strings.allocate_pool string_length w in
      let (format, args) = smbios_text field in
      let text = strings.unicode_sprint string_length format args in
      if allocated
      then updated (strings.free_pool (strings.hii_set_string hii_handle token text w₁))
      else frees_null w₁
