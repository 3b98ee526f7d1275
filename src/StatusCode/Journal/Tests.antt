-- ===== src/StatusCode/Journal/Tests.antt =====
-- Runs of the memory workers, on a pool that has room for two records.
use edk2_adlink_ampere_altra.Base.{ℕ, ◌≡◌, List, [], ◌∷◌, some, arith, last_n}
use edk2_adlink_ampere_altra.StatusCode.Journal.{
  Layout, Entry, Table, Packet, rt_initialize, rt_report_all, rt_read, pei_initialize,
  pei_report_all, pei_read, replayed, capacity,
}
use edk2_adlink_ampere_altra.StatusCode.Journal.Runtime.{rt_report_all-rt_read}
use edk2_adlink_ampere_altra.StatusCode.Journal.Hob.{
  PeiFits, pei_report_all-pei_read, replayed_in_slot_order,
}

abbrev layout : Layout
layout = record { record_size = 512; index_values = 65536 }

abbrev entry : ℕ → Entry
entry n = record { code_type = 1; value = n; instance_number = 0 }

abbrev memory : List Entry
memory = entry 0 ∷ entry 0 ∷ []

abbrev short_history : List Entry
short_history = entry 7 ∷ []

abbrev long_history : List Entry
long_history = entry 5 ∷ entry 6 ∷ entry 7 ∷ []

rt_report_all-rt_read_example :
    (t : Table) × (rt_report_all (rt_initialize layout 1 memory) long_history ≡ some t)
    × (rt_read t ≡ last_n (capacity layout 1) long_history)
rt_report_all-rt_read_example =
    rt_report_all-rt_read layout 1 memory long_history (omega arith) (omega arith) (omega arith)
      (omega arith)

long_fits : PeiFits layout 1 memory long_history
long_fits = omega arith

short_fits : PeiFits layout 1 memory short_history
short_fits = omega arith

pei_report_all-pei_read_example :
    (p : Packet) × (pei_report_all layout (pei_initialize layout 1 memory) long_history ≡ some p)
    × (pei_read p ≡ last_n (capacity layout 1) long_history)
pei_report_all-pei_read_example = pei_report_all-pei_read layout 1 memory long_history long_fits

-- The codes 6 and 7 are replayed as 7 and 6.
replayed_in_slot_order_example :
    (p : Packet) × (pei_report_all layout (pei_initialize layout 1 memory) long_history ≡ some p)
    × (replayed p ≡ entry 7 ∷ entry 6 ∷ [])
replayed_in_slot_order_example =
    replayed_in_slot_order layout 1 memory long_history long_fits (omega arith)
