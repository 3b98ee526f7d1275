-- ===== src/StatusCode/Tests.antt =====
-- A start of the DXE driver after two status codes of the PEI phase.
use edk2_adlink_ampere_altra.Base.{
  ℕ, ◌-◌, ◌<◌, ◌≡◌, arith, List, [], ◌∷◌, ◌++◌, take, none, some, length, length-take,
}
use edk2_adlink_ampere_altra.Print.{PrintLib, PrintsWithin, codes}
use edk2_adlink_ampere_altra.Mmc.{Uart}
use edk2_adlink_ampere_altra.PostCode.{Properties}
use edk2_adlink_ampere_altra.StatusCode.Journal.{
  Layout, Entry, Packet, Table, pei_initialize, pei_report_all, rt_read,
}
use edk2_adlink_ampere_altra.StatusCode.Journal.Hob.{PeiFits}
use edk2_adlink_ampere_altra.StatusCode.Serial.{Services, message}
use edk2_adlink_ampere_altra.StatusCode.Serial.Fits.{length-message}
use edk2_adlink_ampere_altra.StatusCode.Dispatch.{Router, initialization_dispatcher_worker}
use edk2_adlink_ampere_altra.StatusCode.Dispatch.Handover.{
  serial_all, all_on, initialization_dispatcher_worker-handover,
}

abbrev print : PrintLib
print = record {
  ascii_sprint = λ size format args. take (size - 1) format;
  ascii_bsprint = λ size format marker. take (size - 1) format;
}

print-PrintsWithin : PrintsWithin print
print-PrintsWithin = record {
  sprint_fits = λ size format args h. omega (arith, length-take (size - 1) format);
  bsprint_fits = λ size format marker h. omega (arith, length-take (size - 1) format);
}

-- The world is what the serial port and the UART got.
abbrev services : Services (List ℕ)
services = record {
  type_mask = 0xFF;
  error_code = 2;
  progress_code = 1;
  exit_boot_services = 0x3101019;
  string_guid = 7;
  string_ascii_type = 0;
  max_debug_message_length = 256;
  extract_assert_info = λ code_type value d. none;
  extract_debug_info = λ d. none;
  get_post_code_from_status_code = λ code_type value. value;
  serial_port_write = λ text w. w ++ text;
  unregister_serial = λ w. w;
}

abbrev uart : Uart (List ℕ)
uart = record {
  register_base = 0;
  write = λ base bytes w. (length bytes, w ++ bytes);
  read = λ base size w. ([], w);
}

abbrev properties : Properties
properties = record { mask = 8; enabled_bit = 8; description_enabled_bit = 16 }

abbrev router : Router (List ℕ)
router = record { serial_port_initialize = λ w. w; register = λ worker w. w }

abbrev layout : Layout
layout = record { record_size = 256; index_values = 65536 }

abbrev entry : ℕ → Entry
entry n = record { code_type = 1; value = n; instance_number = 0 }

abbrev pool : List Entry
pool = entry 0 ∷ entry 0 ∷ entry 0 ∷ entry 0 ∷ []

abbrev history : List Entry
history = entry 5 ∷ entry 6 ∷ []

abbrev unset : Table
unset = record { record_index = 0; number_of_records = 0; max_records_number = 0; records = [] }

history_fits : PeiFits layout 1 pool history
history_fits = omega arith

initialization_dispatcher_worker-handover_example :
    (p : Packet) × (pei_report_all layout (pei_initialize layout 1 pool) history ≡ some p)
    × ((t : Table) × (initialization_dispatcher_worker services print uart properties router layout
            (all_on 1)
            (some p)
            pool
            unset
            []
          ≡ some (t, serial_all services print uart properties router layout (all_on 1) history []))
        × (rt_read t ≡ history))
initialization_dispatcher_worker-handover_example =
    initialization_dispatcher_worker-handover services print uart properties router layout 1 history
      pool pool unset [] history_fits (omega arith) (omega arith)

length-message_example :
    length (message services print (codes "PEI_ASSERT!") 2 0x12 1 (some 3) none) < 256
length-message_example =
    length-message services print print-PrintsWithin (omega arith) 2 0x12 1 (some 3)
      (codes "PEI_ASSERT!") none
