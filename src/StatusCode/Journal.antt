-- ===== src/StatusCode/Journal.antt =====
-- The memory workers, Pei/MemoryStausCodeWorker.c and RuntimeDxe/MemoryStatusCodeWorker.c: status
-- codes are recorded in the slots of a pool, round and round. A write outside the pool is `none`:
-- what C does there is undefined. The pool is not cleared, so its first content is a parameter.
-- Records of a PacketHeader live in the HOB behind it, those of a table behind its header.
pub mod Window
pub mod Runtime
pub mod Hob
mod Tests
use edk2_adlink_ampere_altra.Base.{
  ℕ, ◌+◌, ◌*◌, ◌/◌, ◌%◌, ◌^◌, Option, none, some, List, [], ◌∷◌, Bool, ltb, ◌==◌, if◌then◌else◌,
  length, set, take, rotated, u32, leb,
}

-- The facts of MemoryStatusCodeRecord.h that the workers rest on: `sizeof
-- (MEMORY_STATUSCODE_RECORD)` and the number of values of an index of the HOB's header.
pub record Layout : Type 0 where
  pub record_size : ℕ
  pub index_values : ℕ

-- MEMORY_STATUSCODE_RECORD
pub record Entry : Type 0 where
  pub code_type : ℕ
  pub value : ℕ
  pub instance_number : ℕ

-- MEMORY_STATUSCODE_PACKET_HEADER, with its records
pub record Packet : Type 0 where
  pub packet_index : ℕ
  pub record_index : ℕ
  pub max_records_number : ℕ
  pub records : List Entry

-- RUNTIME_MEMORY_STATUSCODE_HEADER, with its records
pub record Table : Type 0 where
  pub record_index : ℕ
  pub number_of_records : ℕ
  pub max_records_number : ℕ
  pub records : List Entry

-- How many records fit in a pool of `kilobytes`, PcdStatusCodeMemorySize.
abbrev pub capacity : Layout → ℕ → ℕ
capacity layout kilobytes = kilobytes * 1024 / layout.record_size

-- The slots of the pool: what lay in the memory, as far as whole records fit.
abbrev pub slots : Layout → ℕ → List Entry → List Entry
slots layout kilobytes memory = take (capacity layout kilobytes) memory

-- `MemoryStatusCodeInitializeWorker`
unfoldable pub pei_initialize : Layout → ℕ → List Entry → Packet
pei_initialize layout kilobytes memory = record {
  packet_index = 0;
  record_index = 0;
  max_records_number = u32 (capacity layout kilobytes);
  records = slots layout kilobytes memory;
}

-- `MemoryStatusCodeReportWorker`
unfoldable pub pei_report : Layout → Packet → Entry → Option Packet
pei_report layout p e =
    let next = (p.record_index + 1) % layout.index_values in
    let written = record p { records = set p.records p.record_index e; record_index = next } in
    if ltb p.record_index (length p.records)
    then some (
        if next == p.max_records_number
        then record written {
          record_index = 0;
          packet_index = (p.packet_index + 1) % layout.index_values;
        }
        else written)
    else none

-- `RtMemoryStatusCodeInitializeWorker`
unfoldable pub rt_initialize : Layout → ℕ → List Entry → Table
rt_initialize layout kilobytes memory = record {
  record_index = 0;
  number_of_records = 0;
  max_records_number = u32 (capacity layout kilobytes);
  records = slots layout kilobytes memory;
}

-- `RtMemoryStatusCodeReportWorker`
unfoldable pub rt_report : Table → Entry → Option Table
rt_report t e =
    let next = u32 (t.record_index + 1) in
    let written = record t {
      records = set t.records t.record_index e;
      record_index = next;
      number_of_records = u32 (t.number_of_records + 1);
    } in
    if ltb t.record_index (length t.records)
    then some
        (if next == t.max_records_number then record written { record_index = 0 } else written)
    else none

-- The status codes reported one after the other.
unfoldable pub pei_report_all : Layout → Packet → List Entry → Option Packet
pei_report_all layout p [] = some p
pei_report_all layout p (e ∷ es) = elim (pei_report layout p e) [
  | none ↦ none
  | some p' ↦ pei_report_all layout p' es
]

unfoldable pub rt_report_all : Table → List Entry → Option Table
rt_report_all t [] = some t
rt_report_all t (e ∷ es) = elim (rt_report t e) [ none ↦ none | some t' ↦ rt_report_all t' es ]

-- How the comment in `RtMemoryStatusCodeReportWorker` says a table is to be read: "compare the
-- number of records with max records number; if it is equal to or larger than the max number,
-- the first record is pointed by record index", else "the first record is zero".
abbrev pub rt_read : Table → List Entry
rt_read t =
    if leb t.max_records_number t.number_of_records
    then rotated t.records t.record_index
    else take t.record_index t.records

-- The same for the HOB, where a packet index above 0 says that the records went round.
abbrev pub pei_read : Packet → List Entry
pei_read p =
    if ltb 0 p.packet_index then rotated p.records p.record_index else take p.record_index p.records

-- The records that `InitializationDispatcherWorker` visits, `Index` from 0 to `MaxRecordNumber`.
unfoldable pub replayed : Packet → List Entry
replayed p =
    let max_record_number = if ltb 0 p.packet_index then p.max_records_number else p.record_index in
    take max_record_number p.records
