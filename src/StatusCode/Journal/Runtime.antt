-- ===== src/StatusCode/Journal/Runtime.antt =====
-- RuntimeDxe/MemoryStatusCodeWorker.c against the history of the status codes reported.
use edk2_adlink_ampere_altra.Base.{
  ℕ, ◌+◌, ◌^◌, ◌≤◌, ◌<◌, ◌≡◌, refl, sym, ◌∙◌, List, [], ◌∷◌, ◌++◌, append-nil, append_assoc, arith,
  some, Bool-cases, inl, inr, leb, length, set, length-append, length-take, last_n, last_n_short,
}
use edk2_adlink_ampere_altra.StatusCode.Journal.{
  Layout, Entry, Table, capacity, rt_initialize, rt_report, rt_report_all, rt_read,
}
use edk2_adlink_ampere_altra.StatusCode.Journal.Window.{Tracks, after, Tracks-set, Tracks-nil}

-- A table that has recorded `history`.
pub record RtHolds (m : ℕ) (t : Table) (history : List Entry) : Type 0 where
  pub capacity_is : t.max_records_number ≡ m
  pub capacity_fits : m < 2 ^ 32
  pub counted : t.number_of_records ≡ length history
  pub tracks : Tracks m t.records t.record_index history

-- One report always lands inside the pool, and is recorded.
rt_report-RtHolds :
    (m : ℕ) (t : Table) (history : List Entry) (e : Entry)
    → RtHolds m t history
    → length history + 1 < 2 ^ 32
    → (t' : Table) × (rt_report t e ≡ some t') × RtHolds m t' (history ++ (e ∷ []))
unfolding rt_report
rt_report-RtHolds m t history e h bound = (
  record {
    record_index = after m t.record_index;
    number_of_records = length history + 1;
    max_records_number = t.max_records_number;
    records = set t.records t.record_index e;
  },
  ground arith,
  record {
    capacity_is = h.capacity_is;
    capacity_fits = h.capacity_fits;
    counted = omega (arith, length-append history (e ∷ []));
    tracks = Tracks-set e h.tracks;
  },
)

-- The table reads as the last `m` of the history.
pub rt_read_lem :
    (m : ℕ) (t : Table) (history : List Entry) → RtHolds m t history → rt_read t ≡ last_n m history
rt_read_lem m t history h = elim (Bool-cases (leb t.max_records_number t.number_of_records)) [
  | inl p ↦ rw p (h.tracks.late (ground (arith, h.capacity_is, h.counted)))
  | inr p ↦ rw p (
      h.tracks.early (ground (arith, h.capacity_is, h.counted))
      ∙ sym (last_n_short m history (ground (arith, h.capacity_is, h.counted))))
]

rt_report_all-RtHolds :
    (m : ℕ) (t : Table) (history es : List Entry)
    → RtHolds m t history
    → length history + length es < 2 ^ 32
    → (t' : Table) × (rt_report_all t es ≡ some t') × RtHolds m t' (history ++ es)
unfolding rt_report_all
rt_report_all-RtHolds m t history [] h bound = (t, refl, rw append-nil h)
rt_report_all-RtHolds m t history (e ∷ es) h bound =
    let (t₁, step, h₁) = rt_report-RtHolds m t history e h (omega arith) in
    let (t₂, rest, h₂) =
      rt_report_all-RtHolds m t₁ (history ++ (e ∷ [])) es h₁
        (omega (arith, length-append history (e ∷ []))) in
    (t₂, rw (step, rt_report_all) rest, rw append_assoc at h₂)

module _ (layout : Layout) (kilobytes : ℕ) (memory : List Entry) where
  rt_initialize-RtHolds :
      0 < capacity layout kilobytes
      → capacity layout kilobytes < 2 ^ 32
      → capacity layout kilobytes ≤ length memory
      → RtHolds (capacity layout kilobytes) (rt_initialize layout kilobytes memory) []
  unfolding rt_initialize
  rt_initialize-RtHolds p q r = record {
    capacity_is = omega arith;
    capacity_fits = q;
    counted = refl;
    tracks = Tracks-nil _ _ p (omega (arith, length-take (capacity layout kilobytes) memory));
  }

  -- From initialisation on, reporting any history of fewer than 2^32 status codes to a runtime
  -- table stays inside its pool, and reading the table the way its comment prescribes gives the
  -- last codes of the history, as many as the pool has room for, oldest first. This supposes that
  -- the pool has room for at least one record and fewer than 2^32, and was allocated.
  pub rt_report_all-rt_read :
      (history : List Entry)
      → 0 < capacity layout kilobytes
      → capacity layout kilobytes < 2 ^ 32
      → capacity layout kilobytes ≤ length memory
      → length history < 2 ^ 32
      → (t : Table) × (rt_report_all (rt_initialize layout kilobytes memory) history ≡ some t)
        × (rt_read t ≡ last_n (capacity layout kilobytes) history)
  rt_report_all-rt_read history p q r bound =
      let (t, runs, h) =
        rt_report_all-RtHolds _ _ [] history (rt_initialize-RtHolds p q r) (omega arith) in
      (t, runs, rt_read_lem _ t history h)
