-- ===== src/Xhci/MemPool/Grows.antt =====
-- UsbHcAllocateMem: which memory it gives out, and that the pool grows where it has none.
use edk2_adlink_ampere_altra.Base.{
  ℕ, zero, suc, ◌*◌, ◌/◌, ◌%◌, ◌^◌, ◌+◌, ◌≤◌, ◌<◌, ◌≡◌, refl, ap, ◌∙◌, true, false, not, Option,
  none, some, List, [], ◌∷◌, length, get_or, replicate, length-replicate, arith, ◌⊎◌, inl, inr,
  Option-cases, passes_below, below_all_checked,
}
use edk2_adlink_ampere_altra.Xhci.Bits.{AreBytes, used, usb_hc_bit_is_set}
use edk2_adlink_ampere_altra.Xhci.Dma.{Dma, page_size, pages_to_size}
use edk2_adlink_ampere_altra.Xhci.Pool.{
  MemBlock, MemPool, usbhc_mem_unit, usbhc_mem_round, usb_hc_alloc_mem_from_block,
}
use edk2_adlink_ampere_altra.Xhci.Pool.Search.{AreFree, IsFull}
use edk2_adlink_ampere_altra.Xhci.Pool.Disjoint.{Allocation, usb_hc_alloc_mem_from_block-Allocation}
use edk2_adlink_ampere_altra.Xhci.MemPool.{
  alloc_from_others, alloc_from_pool, mem_block_size, block_pages, alloc_buffer_of_block,
  usb_hc_alloc_mem_block, usb_hc_allocate_mem, usb_hc_insert_mem_block_to_pool,
}
use edk2_adlink_ampere_altra.Xhci.MemPool.Ledger.{IsFresh}

-- A block whose bit array is one of bytes, with a bit for each of its units.
pub record IsSound (block : MemBlock) : Type 0 where
  pub bytes : AreBytes block.bits
  pub sized : block.buf_len ≡ length block.bits * 8 * usbhc_mem_unit

abbrev pub AllSound : List MemBlock → Type 0
AllSound [] = Unit {0}
AllSound (b ∷ bs) = IsSound b × AllSound bs

-- No block of a list has so many units that are free and next to each other.
abbrev pub AllFull : ℕ → List MemBlock → Type 0
AllFull units [] = Unit {0}
AllFull units (b ∷ bs) = IsFull b.bits units × AllFull units bs

-- One block of a list is another, and the others are what they were.
pub data OneChanged (block after : MemBlock) : List MemBlock → List MemBlock → Type 0 where
  first : (bs : List MemBlock) → OneChanged block after (block ∷ bs) (after ∷ bs)
  later :
      (b : MemBlock) (bs bs' : List MemBlock)
      → OneChanged block after bs bs'
      → OneChanged block after (b ∷ bs) (b ∷ bs')

-- From one block of a list, so many units are given out at an address.
pub record Gives (units mem : ℕ) (bs bs' : List MemBlock) : Type 0 where
  pub block : MemBlock
  pub after : MemBlock
  pub start : ℕ
  pub changed : OneChanged block after bs bs'
  pub allocation : Allocation block units start mem after

Gives-later :
    (units mem : ℕ) (b : MemBlock) (bs bs' : List MemBlock)
    → Gives units mem bs bs'
    → Gives units mem (b ∷ bs) (b ∷ bs')
Gives-later units mem b bs bs' g = record {
  block = g.block;
  after = g.after;
  start = g.start;
  changed = later b bs bs' g.changed;
  allocation = g.allocation;
}

after-IsSound :
    (block after : MemBlock) (units start mem : ℕ)
    → Allocation block units start mem after
    → IsSound block
    → IsSound after
after-IsSound block after units start mem a s = record {
  bytes = a.bytes;
  sized = omega (arith, a.same_place.2, a.same_size, s.sized);
}

OneChanged-AllSound :
    {block after : MemBlock} {bs bs' : List MemBlock}
    → (IsSound block → IsSound after)
    → OneChanged block after bs bs'
    → AllSound bs
    → AllSound bs'
OneChanged-AllSound keep (first bs) s = (keep s.0, s.1)
OneChanged-AllSound keep (later b bs bs' c) s = (s.0, OneChanged-AllSound keep c s.1)

Gives-AllSound :
    (units mem : ℕ) (bs bs' : List MemBlock) → Gives units mem bs bs' → AllSound bs → AllSound bs'
Gives-AllSound units mem bs bs' g =
    OneChanged-AllSound (after-IsSound g.block g.after units g.start mem g.allocation) g.changed

alloc_from_others-Gives :
    (bs : List MemBlock) (units : ℕ)
    → AllSound bs
    → 0 < units
    → ((alloc_from_others bs units ≡ none) × AllFull units bs)
      ⊎ ((mem : ℕ) × (bs' : List MemBlock) × (alloc_from_others bs units ≡ some (mem, bs'))
          × Gives units mem bs bs')
unfolding alloc_from_others
alloc_from_others-Gives [] units sound some_units = inl (refl, tt)
alloc_from_others-Gives (b ∷ bs) units sound some_units =
    elim (usb_hc_alloc_mem_from_block-Allocation b units sound.0.bytes some_units) [
      | inl (start, mem, after, gave, a) ↦ inr (
        mem,
        after ∷ bs,
        ground (arith, gave),
        record { block = b; after = after; start = start; changed = first bs; allocation = a },
      )
      | inr (null, full) ↦ elim (alloc_from_others-Gives bs units sound.1 some_units) [
        | inl (nothing, rest) ↦ inl (ground (arith, null, nothing), (full, rest))
        | inr (mem, bs', gave, g) ↦
            inr (mem, b ∷ bs', ground (arith, null, gave), Gives-later units mem b bs bs' g)
      ]
    ]

get_or-replicate : (n i : ℕ) → ◌≡◌ {A = ℕ} (get_or (replicate n 0) i 0) 0
get_or-replicate zero i = refl
get_or-replicate (suc n) zero = refl
get_or-replicate (suc n) (suc i) = get_or-replicate n i

no_bit : (bit : ℕ) → bit < 8 → not (usb_hc_bit_is_set 0 bit) ≡ true
unfolding passes_below
no_bit bit small = below_all_checked (λ b. not (usb_hc_bit_is_set 0 b)) 8 bit small refl

blank_unit : (n k : ℕ) → used (replicate n 0) k ≡ false
unfolding used
blank_unit n k =
    ap (λ x. usb_hc_bit_is_set x (k % 8)) (get_or-replicate n (k / 8))
    ∙ ground (arith, no_bit (k % 8))

blank-AreFree : (n units : ℕ) → AreFree (replicate n 0) 0 units
unfolding AreFree
blank-AreFree n units k low high = blank_unit n k

blank-AreBytes : (n : ℕ) → AreBytes (replicate n 0)
unfolding AreBytes
blank-AreBytes n i = omega (arith, get_or-replicate n i)

fresh-IsSound :
    (block : MemBlock) (pages : ℕ)
    → pages * page_size < 2 ^ 64
    → IsFresh block pages
    → IsSound block
fresh-IsSound block pages fits fresh = record {
  bytes = rw fresh.blank (blank-AreBytes (pages * 8));
  sized =
      omega
        (arith, fits, fresh.sized, ap length fresh.blank, length-replicate {A = ℕ} (pages * 8) 0);
}

-- A fresh block gives out what it has room for.
fresh-Gives :
    (block : MemBlock) (pages units : ℕ)
    → pages * page_size < 2 ^ 64
    → IsFresh block pages
    → 0 < units
    → units ≤ pages * 64
    → (mem : ℕ) × (after : MemBlock) × (start : ℕ) × (usb_hc_alloc_mem_from_block block units
        ≡ some (mem, after))
      × Allocation block units start mem after
unfolding IsFull
fresh-Gives block pages units fits fresh some_units room =
    elim (usb_hc_alloc_mem_from_block-Allocation block units
      (fresh-IsSound block pages fits fresh).bytes some_units) [
        | inl (start, mem, after, gave, a) ↦ (mem, after, start, gave, a)
        | inr (null, full) ↦ absurd (
            full 0
              (omega (arith, ap length fresh.blank, length-replicate {A = ℕ} (pages * 8) 0, room))
              (rw fresh.blank (blank-AreFree (pages * 8) units)))
      ]

bits_of :
    (pages : ℕ)
    → pages * page_size < 2 ^ 64
    → ◌≡◌ {A = List ℕ}
        (replicate (pages_to_size pages / (usbhc_mem_unit * 8)) 0)
        (replicate (pages * 8) 0)
bits_of pages fits = ap (λ n. replicate n 0) (omega (arith, fits))

abbrev pub blocks_of : MemPool → List MemBlock
blocks_of pool = pool.head ∷ pool.others

alloc_from_pool-Gives :
    (pool : MemPool) (units : ℕ)
    → AllSound (blocks_of pool)
    → 0 < units
    → ((alloc_from_pool pool units ≡ none) × AllFull units (blocks_of pool))
      ⊎ ((mem : ℕ) × (pool' : MemPool) × (alloc_from_pool pool units ≡ some (mem, pool'))
          × Gives units mem (blocks_of pool) (blocks_of pool'))
unfolding alloc_from_pool
alloc_from_pool-Gives pool units sound some_units =
    elim (usb_hc_alloc_mem_from_block-Allocation pool.head units sound.0.bytes some_units) [
      | inl (start, mem, after, gave, a) ↦ inr (
        mem,
        record pool { head = after },
        ground (arith, gave),
        record {
          block = pool.head;
          after = after;
          start = start;
          changed = first pool.others;
          allocation = a;
        },
      )
      | inr (null, full) ↦ elim (alloc_from_others-Gives pool.others units sound.1 some_units) [
        | inl (nothing, rest) ↦ inl (ground (arith, null, nothing), (full, rest))
        | inr (mem, bs', gave, g) ↦ inr (
          mem,
          record pool { others = bs' },
          ground (arith, null, gave),
          Gives-later units mem pool.head pool.others bs' g,
        )
      ]
    ]

module _ {W : Type 0} (dma : Dma W) where
  alloc_buffer_of_block-IsFresh :
      (ptr bits_ptr pages : ℕ) (w : W) (block : MemBlock)
      → pages * page_size < 2 ^ 64
      → (alloc_buffer_of_block dma ptr bits_ptr pages w).0 ≡ some block
      → IsFresh block pages
  unfolding alloc_buffer_of_block
  alloc_buffer_of_block-IsFresh ptr bits_ptr pages w block fits gave = record {
    sized = ground (arith, gave);
    blank = ground (arith, gave, bits_of pages fits);
  }

  usb_hc_alloc_mem_block-IsFresh :
      (pages : ℕ) (w : W) (block : MemBlock)
      → pages * page_size < 2 ^ 64
      → (usb_hc_alloc_mem_block dma pages w).0 ≡ some block
      → IsFresh block pages
  unfolding usb_hc_alloc_mem_block
  usb_hc_alloc_mem_block-IsFresh pages w block fits gave =
      let p₁ = dma.allocate_zero_pool mem_block_size w in
      let p₂ = dma.allocate_zero_pool (pages_to_size pages / (usbhc_mem_unit * 8)) p₁.1 in
      alloc_buffer_of_block-IsFresh p₁.0 p₂.0 pages p₂.1 block fits (ground (arith, gave))

  -- What UsbHcAllocateMem comes to, for as many units as the size rounds up to.
  pub data Served (pool : MemPool) (size : ℕ) (w : W) (out : Option ℕ × MemPool × W) : Type 0 where
    from_pool :
        (mem : ℕ) (pool' : MemPool)
        → out ≡ (some mem, pool', w)
        → Gives (usbhc_mem_round size / usbhc_mem_unit) mem (blocks_of pool) (blocks_of pool')
        → Served pool size w out
    from_new :
        (mem : ℕ) (block : MemBlock) (pool' : MemPool) (w' : W)
        → AllFull (usbhc_mem_round size / usbhc_mem_unit) (blocks_of pool)
        → usb_hc_alloc_mem_block dma (block_pages (usbhc_mem_round size)) w ≡ (some block, w')
        → out ≡ (some mem, pool', w')
        → IsSound block
        → Gives
            (usbhc_mem_round size / usbhc_mem_unit)
            mem
            (pool.head ∷ block ∷ pool.others)
            (blocks_of pool')
        → Served pool size w out
    refused :
        (w' : W)
        → AllFull (usbhc_mem_round size / usbhc_mem_unit) (blocks_of pool)
        → usb_hc_alloc_mem_block dma (block_pages (usbhc_mem_round size)) w ≡ (none, w')
        → out ≡ (none, pool, w')
        → Served pool size w out

  serves :
      (pool : MemPool) (size : ℕ) (w : W)
      → AllSound (blocks_of pool)
      → 0 < size
      → size + 2 ^ 14 ≤ 2 ^ 64
      → Served pool size w (usb_hc_allocate_mem dma pool size w)
  unfolding usb_hc_allocate_mem
  serves pool size w sound some_bytes bounded =
      elim (alloc_from_pool-Gives pool units sound (omega (arith, bounded))) [
        | inr (mem, pool', gave, g) ↦ from_pool mem pool' (ground (arith, gave)) g
        | inl (nothing, full) ↦ elim (Option-cases new.0) [
          | inl no_block ↦
              refused new.1 full (ground (arith, no_block)) (ground (arith, nothing, no_block))
          | inr (block, given) ↦
              let fresh = usb_hc_alloc_mem_block-IsFresh pages w block fits given in
              let (mem, after, start, gave, a) =
                fresh-Gives block pages units fits fresh (omega (arith, bounded))
                  (ground (arith, bounded)) in
              from_new mem block (usb_hc_insert_mem_block_to_pool pool after) new.1 full
                (ground (arith, given)) (ground (arith, nothing, given, gave))
                (fresh-IsSound block pages fits fresh)
                (record {
                  block = block;
                  after = after;
                  start = start;
                  changed =
                      later pool.head (block ∷ pool.others) (after ∷ pool.others)
                        (first pool.others);
                  allocation = a;
                })
        ]
      ]
    where
      fits : block_pages (usbhc_mem_round size) * page_size < 2 ^ 64
      fits = ground (arith, bounded)

      units : ℕ
      units = usbhc_mem_round size / usbhc_mem_unit

      pages : ℕ
      pages = block_pages (usbhc_mem_round size)

      new : Option MemBlock × W
      new = usb_hc_alloc_mem_block dma pages w

  Served-AllSound :
      (pool : MemPool) (size : ℕ) (w : W) (out : Option ℕ × MemPool × W)
      → Served pool size w out
      → AllSound (blocks_of pool)
      → AllSound (blocks_of out.1)
  Served-AllSound pool size w out (from_pool mem pool' e g) sound = rw (ap (λ o. o.1) e) (
      Gives-AllSound (usbhc_mem_round size / usbhc_mem_unit) mem (blocks_of pool) (blocks_of pool')
        g sound)
  Served-AllSound pool size w out (from_new mem block pool' w' full made e fresh g) sound =
      rw (ap (λ o. o.1) e) (
        Gives-AllSound (usbhc_mem_round size / usbhc_mem_unit) mem (pool.head ∷ block ∷ pool.others)
          (blocks_of pool') g (sound.0, (fresh, sound.1)))
  Served-AllSound pool size w out (refused w' full failed e) sound = rw (ap (λ o. o.1) e) sound

  -- From a pool whose blocks have bit arrays of bytes, with a bit for each of their units,
  -- UsbHcAllocateMem serves each size from 1 to 2^64 - 2^14: it gives out units that were free
  -- in one block of the pool and marks just these; or no block of the pool has so many next to
  -- each other, and it gives them out of a new one, which joins the pool; or no block of the
  -- pool has, and it gives none out and the pool stays, because there is no new block. The
  -- blocks have such bit arrays afterwards.
  pub usb_hc_allocate_mem-Served :
      (pool : MemPool) (size : ℕ) (w : W)
      → AllSound (blocks_of pool)
      → 0 < size
      → size + 2 ^ 14 ≤ 2 ^ 64
      → Served pool size w (usb_hc_allocate_mem dma pool size w)
        × AllSound (blocks_of (usb_hc_allocate_mem dma pool size w).1)
  usb_hc_allocate_mem-Served pool size w sound some_bytes bounded =
      let served = serves pool size w sound some_bytes bounded in
      (served, Served-AllSound pool size w (usb_hc_allocate_mem dma pool size w) served sound)
