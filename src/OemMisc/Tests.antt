-- ===== src/OemMisc/Tests.antt =====
-- Runs of the OEM library.
use edk2_adlink_ampere_altra.Base.{ℕ, ◌+◌, true, false, []}
use edk2_adlink_ampere_altra.OemMisc.{Cpu, CacheTable, ProcessorInformation, Strings}

-- One socket of eighty cores at 850 millivolts.
abbrev cpu : Cpu
cpu = record {
  is_slave_socket_available = false;
  is_cpu_enabled = λ i. true;
  is_ac01_processor = true;
  get_max_freq = λ i. 2800;
  get_current_freq = 2600;
  get_voltage = λ i. 850;
  get_number_of_active_cores_per_socket = λ i. 80;
  get_maximum_number_of_cores = 80;
  get_sku_max_core = λ i. 80;
  get_sku_max_turbo = λ i. 28;
  get_ecid = λ i. [];
  read_ccsidr = λ level ind. 0;
  cpu_cache_l1 = 1;
  cache_error_parity = 4;
  cache_error_single_bit = 5;
}

-- A core's cache of one megabyte.
abbrev table : CacheTable
table = record {
  supported_sram_synchronous = false;
  current_sram_synchronous = false;
  error_correction_type = 0;
  cache_configuration = 0;
  maximum_cache_size = 1024;
  installed_size = 1024;
  maximum_cache_size2 = 1024;
  installed_size2 = 1024;
}

abbrev info : ProcessorInformation
info = record {
  status = record { socket_populated = false; cpu_status = false };
  characteristics = record {
    unknown = true;
    capable_64bit = false;
    multi_core = false;
    hardware_thread = false;
    execute_protection = false;
    enhanced_virtualization = false;
    power_performance_ctrl = false;
    capable_128bit = false;
  };
  misc = record {
    voltage = 0;
    current_speed = 0;
    max_speed = 0;
    core_count = 0;
    cores_enabled = 0;
    thread_count = 0;
  };
}

abbrev no_memory : Strings ℕ
no_memory = record {
  smbios_string_max_length = 64;
  unicode_sprint = λ size format args. format;
  allocate_pool = λ size w. (false, w);
  hii_set_string = λ handle token text w. w + 1;
  free_pool = λ w. w;
}
