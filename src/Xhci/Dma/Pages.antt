-- ===== src/Xhci/Dma/Pages.antt =====
-- UsbHcAllocateAlignedPages: what it gives out, and which memory is held after it.
use edk2_adlink_ampere_altra.Base.{
  ℕ, ◌+◌, ◌-◌, ◌*◌, ◌/◌, ◌%◌, ◌^◌, ◌≤◌, ◌<◌, ◌≡◌, refl, sym, ap, ◌∙◌, Bool, true, false, not, ◌&&◌,
  ◌||◌, none, some, ◌==◌, leb, ltb, if◌then◌else◌, bit_and, u64, sub64, Status, success,
  invalid_parameter, is_error, arith, Bool-cases, inl, inr, Option, ◌⊎◌,
}
use native.Mathlib.Nat.{
  div-mul-le_self, lt-div-mul-add, mul_assoc, mul-mod_left, mod-eq_of_lt, div-add-mod',
}
use mathlib.Core.Path.{subst}
use edk2_adlink_ampere_altra.Xhci.Dma.{
  Dma, page_size, pages_to_size, size_to_pages, align_up, free_some, allocate_more, map_pages,
  usb_hc_allocate_aligned_pages,
}

-- Whether an address is in so many pages from an address on.
abbrev pub in_pages : ℕ → ℕ → ℕ → Bool
in_pages memory pages place = leb memory place && ltb place (memory + pages * page_size)

-- What the UEFI specification says of PciIo's buffers, in terms of the addresses that are held:
-- those that are given out begin at a page, were free, and end within the addresses of 64 bits.
pub record HoldsPages {W : Type 0} (dma : Dma W) (held : W → ℕ → Bool) : Type 0 where
  pub given :
      (pages : ℕ) (w : W)
      → is_error (dma.allocate_buffer pages w).0 ≡ false
      → ((dma.allocate_buffer pages w).1 % page_size ≡ 0)
        × ((place : ℕ)
            → held (dma.allocate_buffer pages w).2 place
              ≡ (in_pages (dma.allocate_buffer pages w).1 pages place || held w place))
        × ((place : ℕ)
            → in_pages (dma.allocate_buffer pages w).1 pages place ≡ true
            → held w place ≡ false)
        × ((dma.allocate_buffer pages w).1 + pages * page_size ≤ 2 ^ 64)
  pub refused :
      (pages : ℕ) (w : W)
      → is_error (dma.allocate_buffer pages w).0 ≡ true
      → (place : ℕ) → held (dma.allocate_buffer pages w).2 place ≡ held w place
  pub freed :
      (pages memory : ℕ) (w : W) (place : ℕ)
      → held (dma.free_buffer pages memory w).1 place
        ≡ (not (in_pages memory pages place) && held w place)
  pub map_keeps :
      (memory bytes : ℕ) (w : W) (place : ℕ)
      → held (dma.map_buffer memory bytes w).4 place ≡ held w place

-- The addresses that are held are those before, and the pages that were given out.
pub record Given (W : Type 0) (held : W → ℕ → Bool) (pages alignment : ℕ) (w : W) (host_address : ℕ)
    (w' : W) : Type 0 where
  pub aligned : host_address % alignment ≡ 0
  pub on_page : host_address % page_size ≡ 0
  pub holds : (place : ℕ) → held w' place ≡ (in_pages host_address pages place || held w place)
  pub was_free : (place : ℕ) → in_pages host_address pages place ≡ true → held w place ≡ false

-- The aligned address, for an alignment that is a multiple of the page size.
module _ (units memory : ℕ) (on_page : memory % page_size ≡ 0) (some_units : 0 < units)
    (fits : memory + units * page_size ≤ 2 ^ 64) where
  align_up_bounds :
      let aligned = align_up (units * page_size) memory in
      (memory ≤ aligned)
      × (aligned + page_size ≤ memory + units * page_size)
      × (aligned % page_size ≡ 0)
  align_up_bounds =
      let size = units * page_size in
      let x = memory + (size - 1) in
      let some_bytes : 0 < size = omega arith in
      let same : u64 x ≡ x = omega (arith, fits) in
      let low = div-mul-le_self x size in
      let high = lt-div-mul-add {a = x} some_bytes in
      let on = mul_assoc (x / size) units page_size in
      rw same (omega arith, omega arith, omega arith)

-- Whether an address is in a range.
abbrev within : ℕ → ℕ → ℕ → Bool
within low high place = leb low place && ltb place high

-- What is left of a range when both its ends are given back.
ends_back :
    (memory aligned high end place : ℕ) (before : Bool)
    → memory ≤ aligned
    → aligned ≤ high
    → high ≤ end
    → (within memory end place ≡ true → before ≡ false)
    → (not (within high end place)
        && (not (within memory aligned place) && (within memory end place || before)))
      ≡ (within aligned high place || before)
ends_back memory aligned high end place true p q r free = ground (arith, free)
ends_back memory aligned high end place false p q r free = ground arith

-- The addresses behind the pages that are given out.
in_range_behind :
    (high start end behind place : ℕ)
    → start + behind * page_size ≡ end
    → (0 < behind → high ≡ start)
    → in_pages high behind place ≡ within start end place
in_range_behind high start end behind place all at = elim (Bool-cases (ltb 0 behind)) [
  | inl some_pages ↦ ground (arith, at (ground (arith, some_pages)), all)
  | inr no_pages ↦ ground (arith, no_pages, all)
]

taken_off : (a h : Bool) → (a ≡ true → h ≡ false) → (not a && (a || h)) ≡ h
taken_off true h free = sym (free refl)
taken_off false h free = refl

by_branch :
    {T : Type 0} (P : T → Type 0) (a b c : Bool) {x y z u : T}
    → (a ≡ true → P x)
    → (b ≡ true → P y)
    → (c ≡ true → P z)
    → (c ≡ false → P u)
    → P (if a then x else if b then y else if c then z else u)
by_branch P true b c p q r t = p refl
by_branch P false true c p q r t = q refl
by_branch P false false true p q r t = r refl
by_branch P false false false p q r t = t refl

whole_pages :
    (alignment : ℕ)
    → ltb page_size alignment ≡ true
    → (page_size % alignment ≡ 0) ⊎ (alignment % page_size ≡ 0)
    → alignment ≡ alignment / page_size * page_size
whole_pages alignment above (inl divides) =
    let smaller : page_size < alignment = ground (arith, above) in
    absurd (omega (arith, mod-eq_of_lt smaller, divides))
whole_pages alignment above (inr divided) = omega (arith, divided)

page_aligned :
    (alignment memory : ℕ)
    → 0 < alignment
    → ltb page_size alignment ≡ false
    → (page_size % alignment ≡ 0) ⊎ (alignment % page_size ≡ 0)
    → memory % page_size ≡ 0
    → memory % alignment ≡ 0
page_aligned alignment memory some_bytes below (inl divides) on_page =
    let pages = memory / page_size in
    let parts = page_size / alignment in
    let page : page_size ≡ parts * alignment =
      omega (arith, div-add-mod' page_size alignment, divides) in
    let whole : memory ≡ pages * parts * alignment =
      omega (arith, on_page, ap (λ k. pages * k) page, mul_assoc pages parts alignment) in
    ap (λ m. m % alignment) whole ∙ mul-mod_left (pages * parts) alignment
page_aligned alignment memory some_bytes below (inr divided) on_page =
    let same : alignment ≡ page_size = ground (arith, below, divided) in
    ap (λ k. memory % k) same ∙ on_page

-- What UsbHcAllocateAlignedPages ends with: the pages, or an error and nothing that is held more.
abbrev pub Outcome :
    (W : Type 0) → (W → ℕ → Bool) → ℕ → ℕ → W → Status × Option (ℕ × ℕ × ℕ) × W → Type 0
Outcome W held pages alignment w (status, out, w') =
    ((status ≡ success)
      × (host_address device_address mapping : ℕ) × (out
          ≡ some (host_address, device_address, mapping))
      × Given W held pages alignment w host_address w')
    ⊎ ((is_error status ≡ true) × (out ≡ none) × ((place : ℕ) → held w' place ≡ held w place))

module _ {W : Type 0} (dma : Dma W) (held : W → ℕ → Bool) (laws : HoldsPages dma held) where
  free_some-held :
      (pages memory : ℕ) (w : W) (place : ℕ)
      → held (free_some dma pages memory w) place
        ≡ (not (in_pages memory pages place) && held w place)
  unfolding free_some
  free_some-held pages memory w place = elim (Bool-cases (ltb 0 pages)) [
    | inl some_pages ↦ rw some_pages (laws.freed pages memory w place)
    | inr no_pages ↦ rw no_pages (ground (arith, no_pages))
  ]

  -- `high` is where the pages behind begin, if there are any.
  trimmed :
      (memory aligned high before behind pages real place : ℕ) (w w₁ : W)
      → memory + before * page_size ≡ aligned
      → before + pages + behind ≡ real
      → (0 < behind → high ≡ aligned + pages * page_size)
      → held w₁ place ≡ (in_pages memory real place || held w place)
      → (in_pages memory real place ≡ true → held w place ≡ false)
      → held (free_some dma behind high (free_some dma before memory w₁)) place
        ≡ (in_pages aligned pages place || held w place)
  trimmed memory aligned high before behind pages real place w w₁ front all at holds was_free =
      free_some-held behind high (free_some dma before memory w₁) place
      ∙ ap (λ b. not (in_pages high behind place) && b)
          (free_some-held before memory w₁ place
            ∙ ap (λ b. not (in_pages memory before place) && b) holds)
      ∙ (λ i.
          not (
            in_range_behind high (aligned + pages * page_size) (memory + real * page_size) behind
              place (omega arith) at i)
          && (not (within memory (front i) place)
              && (within memory (memory + real * page_size) place || held w place)))
      ∙ ends_back memory aligned (aligned + pages * page_size) (memory + real * page_size) place
          (held w place) (omega arith) (omega arith) (omega arith) was_free

  module _ (pages units : ℕ) (w : W) (some_units : 0 < units)
      (fits : pages + size_to_pages (units * page_size) < 2 ^ 64) where
    all_pages : u64 (pages + size_to_pages (units * page_size)) ≡ pages + units
    all_pages = omega (arith, fits)

    allocate_more-Given :
        is_error (allocate_more dma pages (units * page_size) w).0 ≡ false
        → Given W held pages
            (units * page_size)
            w
            (allocate_more dma pages (units * page_size) w).1
            (allocate_more dma pages (units * page_size) w).2
    unfolding allocate_more
    allocate_more-Given went = elim (Bool-cases (is_error (dma.allocate_buffer real w).0)) [
      | inl bad ↦ absurd (ground (arith, went, bad))
      | inr good ↦
          let (on_page, holds, was_free, inside_64) = laws.given real w good in
          let (low, high, aligned_page) =
            align_up_bounds units memory on_page some_units (omega (arith, all_pages, inside_64)) in
          rw good (record {
            aligned = mul-mod_left _ _;
            on_page = aligned_page;
            holds = λ place.
                trimmed memory aligned (u64 (aligned + pages_to_size pages)) before behind pages
                  real place w (dma.allocate_buffer real w).2
                  (omega (arith, low, high, aligned_page, on_page, all_pages, inside_64))
                  (omega (arith, low, high, aligned_page, on_page, all_pages, inside_64, fits))
                  (λ some_behind. omega (
                    arith, low, high, aligned_page, on_page, all_pages, inside_64, fits,
                    some_behind,
                  ))
                  (holds place) (was_free place);
            was_free =
                λ place inside. was_free place (ground (arith, inside, low, high, all_pages));
          })
    ]
      where
        real : ℕ
        real = u64 (pages + size_to_pages (units * page_size))

        memory : ℕ
        memory = (dma.allocate_buffer real w).1

        aligned : ℕ
        aligned = align_up (units * page_size) memory

        before : ℕ
        before = size_to_pages (sub64 aligned memory)

        behind : ℕ
        behind = sub64 (sub64 real pages) before

  returned_pages :
      (pages alignment memory : ℕ) (w w₁ : W)
      → Given W held pages alignment w memory w₁
      → (place : ℕ)
      → held
          (dma.free_buffer pages memory (dma.map_buffer memory (pages_to_size pages) w₁).4).1
          place
        ≡ held w place
  returned_pages pages alignment memory w w₁ g place =
      laws.freed pages memory (dma.map_buffer memory (pages_to_size pages) w₁).4 place
      ∙ ap (λ b. not (in_pages memory pages place) && b)
          (laws.map_keeps memory (pages_to_size pages) w₁ place ∙ g.holds place)
      ∙ taken_off (in_pages memory pages place) (held w place) (g.was_free place)

  map_pages-Outcome :
      (pages alignment aligned_memory : ℕ) (status : Status) (w w₁ : W)
      → is_error status ≡ false
      → Given W held pages alignment w aligned_memory w₁
      → Outcome W held pages alignment w (map_pages dma pages (status, aligned_memory, w₁))
  unfolding map_pages
  map_pages-Outcome pages alignment aligned_memory status w w₁ good g =
      elim (Bool-cases (
        is_error (dma.map_buffer aligned_memory (pages_to_size pages) w₁).0
        || not
            ((dma.map_buffer aligned_memory (pages_to_size pages) w₁).1 == pages_to_size pages))) [
              | inl unmapped ↦
                  rw (good, unmapped)
                    (inr (
                      refl,
                      refl,
                      λ place. returned_pages pages alignment aligned_memory w w₁ g place,
                    ))
              | inr mapped ↦
                  rw (good, mapped)
                    (inl (
                      refl,
                      aligned_memory,
                      _,
                      _,
                      refl,
                      record {
                        aligned = g.aligned;
                        on_page = g.on_page;
                        holds = λ place.
                            laws.map_keeps aligned_memory (pages_to_size pages) w₁ place
                            ∙ g.holds place;
                        was_free = g.was_free;
                      },
                    ))
            ]

  refused-Outcome :
      (pages alignment real aligned_memory : ℕ) (w : W)
      → is_error (dma.allocate_buffer real w).0 ≡ true
      → Outcome W held pages alignment w (
          map_pages dma pages
            ((dma.allocate_buffer real w).0, aligned_memory, (dma.allocate_buffer real w).2))
  unfolding map_pages
  refused-Outcome pages alignment real aligned_memory w bad =
      rw bad (inr (refl, refl, laws.refused real w bad))

  direct-Outcome :
      (pages alignment : ℕ) (w : W)
      → ((memory : ℕ) → memory % page_size ≡ 0 → memory % alignment ≡ 0)
      → Outcome W held pages alignment w (map_pages dma pages (dma.allocate_buffer pages w))
  direct-Outcome pages alignment w divides =
      elim (Bool-cases (is_error (dma.allocate_buffer pages w).0)) [
        | inl bad ↦ refused-Outcome pages alignment pages (dma.allocate_buffer pages w).1 w bad
        | inr good ↦
            let (on_page, holds, was_free, inside_64) = laws.given pages w good in
            map_pages-Outcome pages alignment (dma.allocate_buffer pages w).1
              (dma.allocate_buffer pages w).0 w (dma.allocate_buffer pages w).2 good
              (record {
                aligned = divides _ on_page;
                on_page = on_page;
                holds = holds;
                was_free = was_free;
              })
      ]

  allocate_more_succeeds :
      (pages units : ℕ) (w : W)
      → is_error (dma.allocate_buffer (u64 (pages + size_to_pages (units * page_size))) w).0 ≡ false
      → is_error (allocate_more dma pages (units * page_size) w).0 ≡ false
  unfolding allocate_more
  allocate_more_succeeds pages units w good = rw good refl

  more-Outcome :
      (pages units : ℕ) (w : W)
      → 0 < units
      → pages + size_to_pages (units * page_size) < 2 ^ 64
      → Outcome W held pages
          (units * page_size)
          w
          (map_pages dma pages (allocate_more dma pages (units * page_size) w))
  unfolding allocate_more
  more-Outcome pages units w some_units fits =
      elim (Bool-cases
        (is_error (dma.allocate_buffer (u64 (pages + size_to_pages (units * page_size))) w).0)) [
          | inl bad ↦ rw bad (
              refused-Outcome pages (units * page_size)
                (u64 (pages + size_to_pages (units * page_size))) 0 w bad)
          | inr good ↦
              map_pages-Outcome pages (units * page_size) _ _ w _
                (allocate_more_succeeds pages units w good)
                (allocate_more-Given pages units w some_units fits
                  (allocate_more_succeeds pages units w good))
        ]

  -- UsbHcAllocateAlignedPages either returns EFI_SUCCESS and pages at the alignment, which were
  -- held by nobody before and are all that is held more than before; or it returns an error,
  -- gives nothing out, and what is held is what was held before. The alignment is not 0, and
  -- either divides the size of a page or is a multiple of it, as a power of two does or is; and
  -- where it is above that size, the number of pages that the code asks for stays below 2^64,
  -- as it asserts.
  pub usb_hc_allocate_aligned_pages-Outcome :
      (pages alignment : ℕ) (w : W)
      → 0 < alignment
      → (page_size % alignment ≡ 0) ⊎ (alignment % page_size ≡ 0)
      → (page_size < alignment → pages + size_to_pages alignment < 2 ^ 64)
      → Outcome W held pages alignment w (usb_hc_allocate_aligned_pages dma pages alignment w)
  unfolding usb_hc_allocate_aligned_pages
  usb_hc_allocate_aligned_pages-Outcome pages alignment w some_bytes divides fits =
      by_branch (Outcome W held pages alignment w) (not (bit_and alignment (alignment - 1) == 0))
        (pages == 0) (ltb page_size alignment) {x = (invalid_parameter, none, w)}
        {y = (invalid_parameter, none, w)} (λ odd. inr (refl, refl, λ place. refl))
        (λ none_asked. inr (refl, refl, λ place. refl))
        (λ above.
          let units = alignment / page_size in
          let whole : alignment ≡ units * page_size = whole_pages alignment above divides in
          subst
            (λ size.
              Outcome W held pages size w (map_pages dma pages (allocate_more dma pages size w)))
            (sym whole)
            (more-Outcome pages units w (ground (arith, above, whole))
              (omega (arith, fits (ground (arith, above)), whole))))
        (λ below.
          direct-Outcome pages alignment w
            (λ memory on_page. page_aligned alignment memory some_bytes below divides on_page))
