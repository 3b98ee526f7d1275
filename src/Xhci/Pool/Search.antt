-- ===== src/Xhci/Pool/Search.antt =====
-- The search of UsbHcAllocMemFromBlock ends, and what it ends with is a run of free units.
use edk2_adlink_ampere_altra.Base.{
  ℕ, zero, suc, ◌+◌, ◌*◌, ◌/◌, ◌%◌, ◌≤◌, ◌<◌, ◌≡◌, refl, true, false, some, List, leb, length,
  arith, leb_of_le, Bool-cases, inl, inr, ◌⊎◌, ap, ◌∙◌,
}
use edk2_adlink_ampere_altra.Xhci.Bits.{Place, next_bit, used_at, unit_of, used}
use edk2_adlink_ampere_altra.Xhci.Pool.{search_bits}

-- Units `from` up to `from + count` are free.
unfoldable pub AreFree : List ℕ → ℕ → ℕ → Type 0
AreFree bits from count = (k : ℕ) → from ≤ k → k < from + count → used bits k ≡ false

pub AreFree-fewer :
    (bits : List ℕ) (from count units : ℕ)
    → units ≤ count
    → AreFree bits from count
    → AreFree bits from units
unfolding AreFree
AreFree-fewer bits from count units le free k low high = free k low (omega arith)

module _ (bits : List ℕ) (units : ℕ) where
  -- Where the search stands: the units from the start on are free, and fewer than those asked for.
  record Searching (at start : Place) (available : ℕ) : Type 0 where
    in_byte : at.1 < 8
    start_in_byte : start.1 < 8
    run : unit_of start + available ≡ unit_of at
    inside : unit_of at ≤ length bits * 8
    free : AreFree bits (unit_of start) available
    short : available < units

  -- What the search ends with, if it finds a run.
  pub record Found (available : ℕ) (start : Place) : Type 0 where
    pub in_byte : start.1 < 8
    pub enough : units ≤ available
    pub inside : unit_of start + available ≤ length bits * 8
    pub free : AreFree bits (unit_of start) available

  used_at-used :
      (byte bit : ℕ) → bit < 8 → used bits (unit_of (byte, bit)) ≡ used_at bits (byte, bit)
  unfolding used
  used_at-used byte bit h =
      let low : (byte * 8 + bit) / 8 ≡ byte = omega arith in
      let high : (byte * 8 + bit) % 8 ≡ bit = omega arith in rw (low, high) refl

  pub next_bit_lem :
      (byte bit : ℕ)
      → bit < 8
      → ((next_bit (byte, bit)).1 < 8)
        × (unit_of (next_bit (byte, bit)) ≡ suc (unit_of (byte, bit)))
  next_bit_lem byte bit h = ground arith

  -- No run of enough units starts before the start of the search.
  NoneBefore : Place → Type 0
  NoneBefore start = (k : ℕ) → k < unit_of start → ¬ AreFree bits k units

  -- No run of enough units is inside of the block.
  unfoldable pub IsFull : Type 0
  IsFull = (k : ℕ) → k + units ≤ length bits * 8 → ¬ AreFree bits k units

  abbrev pub Outcome : ℕ → Place → Type 0
  Outcome available start = Found available start ⊎ ((available < units) × IsFull)

  AreFree-suc :
      (from count : ℕ)
      → AreFree bits from count
      → used bits (from + count) ≡ false
      → AreFree bits from (suc count)
  unfolding AreFree
  AreFree-suc from count free last k low high =
      let decided : (k ≡ from + count) ⊎ (k < from + count) = ground arith in
      elim decided [ inl e ↦ ap (used bits) e ∙ last | inr lt ↦ free k low lt ]

  module _ (byte bit : ℕ) (start : Place) (available : ℕ)
      (s : Searching (byte, bit) start available) where
    at_end : length bits ≤ byte → NoneBefore start → IsFull
    unfolding IsFull NoneBefore
    at_end past none_before k room free =
        let decided : (k < unit_of start) ⊎ (unit_of start ≤ k) = ground arith in
        elim decided [
          | inl before ↦ none_before k before free
          | inr from ↦ absurd (omega (arith, s.run, s.inside, s.short, past, room, from))
        ]

    longer : used_at bits (byte, bit) ≡ false → AreFree bits (unit_of start) (suc available)
    longer is_free =
        AreFree-suc (unit_of start) available s.free
          (ap (used bits) s.run ∙ used_at-used byte bit s.in_byte ∙ is_free)

    after_free :
        byte < length bits
        → used_at bits (byte, bit) ≡ false
        → suc available < units
        → Searching (next_bit (byte, bit)) start (suc available)
    after_free more is_free lt = record {
      in_byte = (next_bit_lem byte bit s.in_byte).0;
      start_in_byte = s.start_in_byte;
      run = omega (arith, (next_bit_lem byte bit s.in_byte).1, s.run);
      inside = omega (arith, (next_bit_lem byte bit s.in_byte).1, s.in_byte);
      free = longer is_free;
      short = lt;
    }

    after_used :
        byte < length bits → 0 < units → Searching (next_bit (byte, bit)) (next_bit (byte, bit)) 0
    unfolding AreFree
    after_used more some_units = record {
      in_byte = (next_bit_lem byte bit s.in_byte).0;
      start_in_byte = (next_bit_lem byte bit s.in_byte).0;
      run = omega arith;
      inside = omega (arith, (next_bit_lem byte bit s.in_byte).1, s.in_byte);
      free = λ k low high. absurd (omega arith);
      short = some_units;
    }

    NoneBefore-next :
        used_at bits (byte, bit) ≡ true → NoneBefore start → NoneBefore (next_bit (byte, bit))
    unfolding NoneBefore AreFree
    NoneBefore-next is_used none_before k before free =
        let decided : (k < unit_of start) ⊎ (unit_of start ≤ k) = ground arith in
        elim decided [ inl earlier ↦ none_before k earlier free | inr from ↦ within from ]
      where
        within : unit_of start ≤ k → ⊥
        within from =
            let next : unit_of (next_bit (byte, bit)) ≡ suc (unit_of (byte, bit)) =
              (next_bit_lem byte bit s.in_byte).1 in
            let clash : used bits (unit_of (byte, bit)) ≡ false =
              free (unit_of (byte, bit)) (omega (arith, next, before))
                (omega (arith, s.run, s.short, from)) in
            cc (clash, used_at-used byte bit s.in_byte, is_used)

    found :
        byte < length bits
        → used_at bits (byte, bit) ≡ false
        → units ≤ suc available
        → Found (suc available) start
    found more is_free enough = record {
      in_byte = s.start_in_byte;
      enough = enough;
      inside = omega (arith, s.run, s.in_byte);
      free = longer is_free;
    }

  -- The search ends, if its fuel is more than the bits that are left.
  search_bits-Outcome :
      (fuel byte bit : ℕ) (start : Place) (available : ℕ)
      → 0 < units
      → Searching (byte, bit) start available
      → NoneBefore start
      → length bits * 8 < unit_of (byte, bit) + fuel
      → (a : ℕ) × (p : Place) × (search_bits fuel bits units (byte, bit) start available
          ≡ some (a, p))
        × Outcome a p
  unfolding search_bits
  search_bits-Outcome zero byte bit start available some_units s none_before more =
      absurd (omega (arith, s.inside))
  search_bits-Outcome (suc fuel) byte bit start available some_units s none_before more =
      let decided : (length bits ≤ byte) ⊎ (byte < length bits) = ground arith in
      elim decided [
        | inl past ↦ rw (leb_of_le _ _ past) (
          available,
          start,
          refl,
          inr (s.short, at_end byte bit start available s past none_before),
        )
        | inr further ↦
            let not_past : leb (length bits) byte ≡ false = ground arith in
            elim (Bool-cases (used_at bits (byte, bit))) [
              | inl is_used ↦
                  rw (not_past, is_used)
                    (search_bits-Outcome fuel _ _ (next_bit (byte, bit)) 0 some_units
                      (after_used byte bit start available s further some_units)
                      (NoneBefore-next byte bit start available s is_used none_before)
                      (omega (arith, (next_bit_lem byte bit s.in_byte).1)))
              | inr is_free ↦ elim (Bool-cases (leb units (suc available))) [
                | inl enough ↦
                    rw (not_past, is_free, enough)
                      (
                        suc available,
                        start,
                        refl,
                        inl (found byte bit start available s further is_free (ground arith)),
                      )
                | inr lt ↦
                    rw (not_past, is_free, lt)
                      (search_bits-Outcome fuel _ _ start (suc available) some_units
                        (after_free byte bit start available s further is_free (ground arith))
                        none_before (omega (arith, (next_bit_lem byte bit s.in_byte).1)))
              ]
            ]
      ]

  -- From the start of the block on.
  pub search_bits-ends :
      0 < units
      → (a : ℕ) × (p : Place) × (search_bits (suc (length bits * 8)) bits units (0, 0) (0, 0) 0
          ≡ some (a, p))
        × Outcome a p
  unfolding NoneBefore AreFree
  search_bits-ends some_units =
      search_bits-Outcome (suc (length bits * 8)) 0 0 (0, 0) 0 some_units at_start
        (λ k before free. omega arith) (omega arith)
    where
      at_start : Searching (0, 0) (0, 0) 0
      at_start = record {
        in_byte = omega arith;
        start_in_byte = omega arith;
        run = refl;
        inside = omega arith;
        free = λ k low high. absurd (omega arith);
        short = some_units;
      }
