-- ===== src/StatusCode/Journal/Hob.antt =====
-- Pei/MemoryStausCodeWorker.c against the history of the status codes reported, and the replay
-- of its records in RuntimeDxe/StatusCodeHandlerRuntimeDxe.c.
use edk2_adlink_ampere_altra.Base.{
  ℕ, suc, ◌+◌, ◌-◌, ◌*◌, ◌%◌, ◌^◌, ◌≤◌, ◌<◌, ◌≡◌, refl, sym, ap, ◌∙◌, List, [], ◌∷◌, ◌++◌,
  append-nil, append_assoc, arith, some, Bool-cases, ◌==◌, ==_iff, if◌then◌else◌, inl, inr, ltb,
  length, set, length-append, length-take, last_n, take, drop, last_n_short, take_all, unrotated,
}
use native.Mathlib.Nat.{mod-eq_of_lt}
use edk2_adlink_ampere_altra.StatusCode.Journal.{
  Layout, Entry, Packet, capacity, pei_initialize, pei_report, pei_report_all, pei_read, replayed,
}
use edk2_adlink_ampere_altra.StatusCode.Journal.Window.{Tracks, after, Tracks-set, Tracks-nil}

-- A HOB that has recorded `history`, going round once for each count of its packet index.
pub record PeiHolds (layout : Layout) (m : ℕ) (p : Packet) (history : List Entry) : Type 0 where
  pub capacity_is : p.max_records_number ≡ m
  pub capacity_fits : m < layout.index_values
  pub counted : length history ≡ p.packet_index * m + p.record_index
  pub tracks : Tracks m p.records p.record_index history

-- The packet index after slot `i`.
abbrev turns : ℕ → ℕ → ℕ → ℕ
turns m i k = if suc i == m then k + 1 else k

lt_of_mul_lt : (a b m : ℕ) → a * m < b * m → a < b
lt_of_mul_lt a b m h = grind arith

le_mul_pos : (k m : ℕ) → 0 < k → m ≤ k * m
le_mul_pos k m h = grind arith

index_of_count : (n k m i : ℕ) → n ≡ k * m + i → i < m → i ≡ n % m
index_of_count n k m i h lt = grind arith

counted_step : (n k m i : ℕ) → n ≡ k * m + i → n + 1 ≡ turns m i k * m + after m i
counted_step n k m i h = elim (Bool-cases (suc i == m)) [
  | inl p ↦ rw p (omega (arith, h, (==_iff (suc i) m).0 p))
  | inr p ↦ rw p (omega (arith, h))
]

module _ (layout : Layout) (m : ℕ) where
  -- Fewer entries than `bound` times the capacity do not bring the packet index to `bound`.
  turns-lt : (n k i bound : ℕ) → n ≡ k * m + i → n + 1 < bound * m → turns m i k < bound
  turns-lt n k i bound h lt =
      lt_of_mul_lt (turns m i k) bound m (omega (arith, counted_step n k m i h))

  pei_report-PeiHolds :
      (p : Packet) (history : List Entry) (e : Entry)
      → PeiHolds layout m p history
      → length history + 1 < layout.index_values * m
      → (p' : Packet) × (pei_report layout p e ≡ some p')
        × PeiHolds layout m p' (history ++ (e ∷ []))
  unfolding pei_report
  pei_report-PeiHolds p history e h bound = (
    record {
      packet_index = turns m p.record_index p.packet_index;
      record_index = after m p.record_index;
      max_records_number = p.max_records_number;
      records = set p.records p.record_index e;
    },
    ground (
      arith,
      mod-eq_of_lt {n = p.record_index + 1} {m = layout.index_values} (omega arith),
      mod-eq_of_lt {n = turns m p.record_index p.packet_index} {m = layout.index_values} (
          turns-lt (length history) p.packet_index p.record_index layout.index_values h.counted
            bound),
    ),
    record {
      capacity_is = h.capacity_is;
      capacity_fits = h.capacity_fits;
      counted = omega (
        arith,
        length-append history (e ∷ []),
        counted_step (length history) p.packet_index m p.record_index h.counted,
      );
      tracks = Tracks-set e h.tracks;
    },
  )

  pei_report_all-PeiHolds :
      (p : Packet) (history es : List Entry)
      → PeiHolds layout m p history
      → length history + length es < layout.index_values * m
      → (p' : Packet) × (pei_report_all layout p es ≡ some p')
        × PeiHolds layout m p' (history ++ es)
  unfolding pei_report_all
  pei_report_all-PeiHolds p history [] h bound = (p, refl, rw append-nil h)
  pei_report_all-PeiHolds p history (e ∷ es) h bound =
      let (p₁, step, h₁) = pei_report-PeiHolds p history e h (omega arith) in
      let (p₂, rest, h₂) =
        pei_report_all-PeiHolds p₁ (history ++ (e ∷ [])) es h₁
          (omega (arith, length-append history (e ∷ []))) in
      (p₂, rw (step, pei_report_all) rest, rw append_assoc at h₂)

  went_round :
      (p : Packet) (history : List Entry)
      → PeiHolds layout m p history
      → 0 < p.packet_index
      → m ≤ length history
  went_round p history h pos = omega (arith, h.counted, le_mul_pos p.packet_index m pos)

  not_yet_round :
      (p : Packet) (history : List Entry)
      → PeiHolds layout m p history
      → p.packet_index ≡ 0
      → length history < m
  not_yet_round p history h none_yet =
      omega (arith, h.counted, h.tracks.in_range, ap (λ (k : ℕ). k * m) none_yet)

  pei_read_lem :
      (p : Packet) (history : List Entry)
      → PeiHolds layout m p history
      → pei_read p ≡ last_n m history
  pei_read_lem p history h = elim (Bool-cases (ltb 0 p.packet_index)) [
    | inl e ↦ rw e (h.tracks.late (went_round p history h (ground arith)))
    | inr e ↦
        let short : length history < m = not_yet_round p history h (ground arith) in
        rw e (h.tracks.early short ∙ sym (last_n_short m history (omega arith)))
  ]

  replayed_early :
      (p : Packet) (history : List Entry)
      → PeiHolds layout m p history
      → length history < m
      → replayed p ≡ history
  unfolding replayed
  replayed_early p history h short = elim (Bool-cases (ltb 0 p.packet_index)) [
    | inl e ↦ absurd (omega (arith, went_round p history h (ground arith)))
    | inr e ↦ rw e (h.tracks.early short)
  ]

  replayed_all :
      (p : Packet) (history : List Entry)
      → PeiHolds layout m p history
      → m ≤ length history
      → replayed p ≡ p.records
  unfolding replayed
  replayed_all p history h long = elim (Bool-cases (ltb 0 p.packet_index)) [
    | inl e ↦ rw e (take_all _ _ (omega (arith, h.tracks.sized, h.capacity_is)))
    | inr e ↦ absurd (omega (arith, not_yet_round p history h (ground arith)))
  ]

  -- After going round the records come in the order of the slots.
  replayed_late :
      (p : Packet) (history : List Entry)
      → PeiHolds layout m p history
      → m ≤ length history
      → replayed p
        ≡ drop (m - length history % m) (last_n m history)
          ++ take (m - length history % m) (last_n m history)
  replayed_late p history h long =
      let i : p.record_index ≡ length history % m =
        index_of_count (length history) p.packet_index m p.record_index h.counted
          h.tracks.in_range in
      replayed_all p history h long
      ∙ sym (unrotated p.records p.record_index (omega (arith, h.tracks.sized, h.tracks.in_range)))
      ∙ rw (h.tracks.sized, h.tracks.late long, i)

module _ (layout : Layout) (kilobytes : ℕ) (memory : List Entry) (history : List Entry) where
  -- What the theorems of this part suppose: the HOB was built and has room for at least one record,
  -- its index can count the records, and it has not gone round so often that the packet index wraps.
  pub record PeiFits : Type 0 where
    pub some_room : 0 < capacity layout kilobytes
    pub countable : capacity layout kilobytes < layout.index_values
    pub wide : capacity layout kilobytes < 2 ^ 32
    pub allocated : capacity layout kilobytes ≤ length memory
    pub few : length history < layout.index_values * capacity layout kilobytes

  pei_holds :
      PeiFits
      → (p : Packet) × (pei_report_all layout (pei_initialize layout kilobytes memory) history
          ≡ some p)
        × PeiHolds layout (capacity layout kilobytes) p history
  unfolding pei_initialize
  pei_holds fits =
      pei_report_all-PeiHolds layout (capacity layout kilobytes) _ [] history
        (record {
          capacity_is = omega (arith, fits.wide);
          capacity_fits = fits.countable;
          counted = omega arith;
          tracks =
              Tracks-nil _ _ fits.some_room
                (omega (arith, fits.allocated, length-take (capacity layout kilobytes) memory));
        })
        (omega (arith, fits.few))

  -- From initialisation on, reporting a history of status codes to the HOB stays inside it. Read
  -- the way the worker's comment prescribes, the HOB gives the last codes of the history, as many
  -- as it has room for, oldest first. The conditions are those of `PeiFits`.
  pub pei_report_all-pei_read :
      PeiFits
      → (p : Packet) × (pei_report_all layout (pei_initialize layout kilobytes memory) history
          ≡ some p)
        × (pei_read p ≡ last_n (capacity layout kilobytes) history)
  pei_report_all-pei_read fits =
      let (p, runs, h) = pei_holds fits in (p, runs, pei_read_lem layout _ p history h)

  -- A history that is shorter than the HOB has room for is replayed by the DXE driver whole and in
  -- order. The conditions are those of `PeiFits`.
  pub replayed_in_order :
      PeiFits
      → length history < capacity layout kilobytes
      → (p : Packet) × (pei_report_all layout (pei_initialize layout kilobytes memory) history
          ≡ some p)
        × (replayed p ≡ history)
  replayed_in_order fits short =
      let (p, runs, h) = pei_holds fits in (p, runs, replayed_early layout _ p history h short)

  -- Once the history fills the HOB, the DXE driver replays its last codes, as many as there is room
  -- for, in the order of the slots: with `i` the number of reports since the first slot was last
  -- written, the newest `i` codes come first and the older ones behind them. The conditions are
  -- those of `PeiFits`.
  pub replayed_in_slot_order :
      PeiFits
      → capacity layout kilobytes ≤ length history
      → (p : Packet) × (pei_report_all layout (pei_initialize layout kilobytes memory) history
          ≡ some p)
        × (let m = capacity layout kilobytes in
            let newest = last_n m history in
            let i = length history % m in replayed p ≡ drop (m - i) newest ++ take (m - i) newest)
  replayed_in_slot_order fits long =
      let (p, runs, h) = pei_holds fits in (p, runs, replayed_late layout _ p history h long)
