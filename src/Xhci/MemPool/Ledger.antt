-- ===== src/Xhci/MemPool/Ledger.antt =====
-- What a block of the pool takes from the system, and that it is all given back.
use mathlib.Core.Path.{subst}
use edk2_adlink_ampere_altra.Base.{
  ℕ, ◌*◌, ◌/◌, ◌^◌, ◌<◌, ◌≡◌, ◌≢◌, refl, ap, ◌∙◌, true, false, Option, none, some, List, [], ◌∷◌,
  ◌==◌, is_error, arith, inl, inr, Bool-cases, replicate, Status,
}
use edk2_adlink_ampere_altra.Xhci.Dma.{Dma, page_size, pages_to_size, size_to_pages}
use edk2_adlink_ampere_altra.Xhci.Pool.{MemBlock, MemPool, usbhc_mem_unit, usb_hc_free_mem_block}
use edk2_adlink_ampere_altra.Xhci.MemPool.{
  mem_block_size, mem_pool_size, usbhc_mem_default_pages, alloc_buffer_of_block,
  usb_hc_alloc_mem_block, usb_hc_init_mem_pool, usb_hc_free_mem_pool, free_others,
}

-- What can be held: memory of the pool, pages at an address, and a mapping.
pub data Resource : Type 0 where
  memory : ℕ → Resource
  buffer : ℕ → ℕ → Resource
  mapped_as : ℕ → Resource

-- What the UEFI specification says of these services, in terms of what is held, the last first: a
-- success adds what it gives, a failure adds nothing, and giving back the last takes it off; and a
-- buffer that is given is smaller than the address space of 64 bits.
pub record HasLedger {W : Type 0} (dma : Dma W) (held : W → List Resource) : Type 0 where
  pub pool_null :
      (size : ℕ) (w : W)
      → (dma.allocate_pool size w).0 ≡ 0
      → held (dma.allocate_pool size w).1 ≡ held w
  pub pool_given :
      (size : ℕ) (w : W)
      → (dma.allocate_pool size w).0 ≢ 0
      → held (dma.allocate_pool size w).1 ≡ memory (dma.allocate_pool size w).0 ∷ held w
  pub zero_pool_null :
      (size : ℕ) (w : W)
      → (dma.allocate_zero_pool size w).0 ≡ 0
      → held (dma.allocate_zero_pool size w).1 ≡ held w
  pub zero_pool_given :
      (size : ℕ) (w : W)
      → (dma.allocate_zero_pool size w).0 ≢ 0
      → held (dma.allocate_zero_pool size w).1 ≡ memory (dma.allocate_zero_pool size w).0 ∷ held w
  pub pool_freed :
      (ptr : ℕ) (rest : List Resource) (w : W)
      → held w ≡ memory ptr ∷ rest
      → held (dma.free_pool ptr w) ≡ rest
  pub buffer_refused :
      (pages : ℕ) (w : W)
      → is_error (dma.allocate_buffer pages w).0 ≡ true
      → held (dma.allocate_buffer pages w).2 ≡ held w
  pub buffer_given :
      (pages : ℕ) (w : W)
      → is_error (dma.allocate_buffer pages w).0 ≡ false
      → held (dma.allocate_buffer pages w).2 ≡ buffer pages (dma.allocate_buffer pages w).1 ∷ held w
  pub buffer_fits :
      (pages : ℕ) (w : W)
      → is_error (dma.allocate_buffer pages w).0 ≡ false
      → pages * page_size < 2 ^ 64
  pub buffer_freed :
      (pages host : ℕ) (rest : List Resource) (w : W)
      → held w ≡ buffer pages host ∷ rest
      → held (dma.free_buffer pages host w).1 ≡ rest
  pub map_refused :
      (host bytes : ℕ) (w : W)
      → is_error (dma.map_buffer host bytes w).0 ≡ true
      → held (dma.map_buffer host bytes w).4 ≡ held w
  pub map_given :
      (host bytes : ℕ) (w : W)
      → is_error (dma.map_buffer host bytes w).0 ≡ false
      → held (dma.map_buffer host bytes w).4 ≡ mapped_as (dma.map_buffer host bytes w).3 ∷ held w
  pub unmapped :
      (mapping : ℕ) (rest : List Resource) (w : W)
      → held w ≡ mapped_as mapping ∷ rest
      → held (dma.unmap mapping w).1 ≡ rest

-- A Map that does not fail maps all that is asked for.
abbrev pub MapsAll : {W : Type 0} → Dma W → Type 0
MapsAll {W} dma =
    (host bytes : ℕ) (w : W)
    → is_error (dma.map_buffer host bytes w).0 ≡ false
    → (dma.map_buffer host bytes w).1 ≡ bytes

-- What a block holds.
abbrev pub block_resources : MemBlock → List Resource → List Resource
block_resources block rest =
    mapped_as block.mapping
    ∷ buffer (size_to_pages block.buf_len) block.buf_host
    ∷ memory block.bits_ptr
    ∷ memory block.ptr
    ∷ rest

-- A new block: all of its units are free, and it has a bit for each.
pub record IsFresh (block : MemBlock) (pages : ℕ) : Type 0 where
  pub sized : block.buf_len ≡ pages_to_size pages
  pub blank : block.bits ≡ replicate (pages * 8) 0

abbrev pub AllocatesBlock :
    {W : Type 0} → (W → List Resource) → ℕ → List Resource → Option MemBlock × W → Type 0
AllocatesBlock held pages rest (none, w) = held w ≡ rest
AllocatesBlock held pages rest (some block, w) =
    (held w ≡ block_resources block rest) × IsFresh block pages

module _ {W : Type 0} (dma : Dma W) (held : W → List Resource) (laws : HasLedger dma held)
    (all : MapsAll dma) where
  same_size : (pages : ℕ) → (pages_to_size pages == pages_to_size pages) ≡ true
  same_size pages = ground arith

  both_freed :
      (ptr bits_ptr : ℕ) (rest : List Resource) (w : W)
      → held w ≡ memory bits_ptr ∷ memory ptr ∷ rest
      → held (dma.free_pool ptr (dma.free_pool bits_ptr w)) ≡ rest
  both_freed ptr bits_ptr rest w e =
      laws.pool_freed ptr rest (dma.free_pool bits_ptr w)
        (laws.pool_freed bits_ptr (memory ptr ∷ rest) w e)

  alloc_buffer_of_block-AllocatesBlock :
      (ptr bits_ptr pages : ℕ) (rest : List Resource) (w : W)
      → held w ≡ memory bits_ptr ∷ memory ptr ∷ rest
      → AllocatesBlock held pages rest (alloc_buffer_of_block dma ptr bits_ptr pages w)
  unfolding alloc_buffer_of_block
  alloc_buffer_of_block-AllocatesBlock ptr bits_ptr pages rest w e =
      elim (Bool-cases (is_error given.0)) [
        | inl refused ↦
            rw refused
              (both_freed ptr bits_ptr rest given.2 (laws.buffer_refused pages w refused ∙ e))
        | inr good ↦ elim (Bool-cases (is_error mapped.0)) [
          | inl refused ↦
              rw (good, refused)
                (both_freed ptr bits_ptr rest _ (
                  laws.buffer_freed pages given.1 _ _
                    (laws.map_refused given.1 (pages_to_size pages) given.2 refused ∙ taken good)))
          | inr maps ↦
              rw (good, maps, all given.1 (pages_to_size pages) given.2 maps, same_size pages)
                (
                  laws.map_given given.1 (pages_to_size pages) given.2 maps ∙ (λ i.
                      mapped_as mapped.3
                      ∷ (taken good ∙ whole given.1 (laws.buffer_fits pages w good)) i),
                  record {
                    sized = refl;
                    blank = ap (λ n. replicate n 0) (omega (arith, laws.buffer_fits pages w good));
                  },
                )
        ]
      ]
    where
      given : Status × ℕ × W
      given = dma.allocate_buffer pages w

      mapped : Status × ℕ × ℕ × ℕ × W
      mapped = dma.map_buffer given.1 (pages_to_size pages) given.2

      taken :
          is_error given.0 ≡ false
          → held given.2 ≡ buffer pages given.1 ∷ memory bits_ptr ∷ memory ptr ∷ rest
      taken good = laws.buffer_given pages w good ∙ ap (λ h. buffer pages given.1 ∷ h) e

      whole :
          (host : ℕ)
          → pages * page_size < 2 ^ 64
          → ◌≡◌ {A = List Resource} (buffer pages host ∷ memory bits_ptr ∷ memory ptr ∷ rest) (
              buffer (size_to_pages (pages_to_size pages)) host
              ∷ memory bits_ptr
              ∷ memory ptr
              ∷ rest)
      whole host fits =
          ap (λ n. buffer n host ∷ memory bits_ptr ∷ memory ptr ∷ rest) (omega (arith, fits))

  -- UsbHcAllocMemBlock either gives nothing and what is held is what was held before; or it gives a
  -- block of the pages asked for, all of whose units are free, and what is held more is the block,
  -- its bit array, its buffer and the mapping. A Map that does not fail maps all of the buffer.
  pub usb_hc_alloc_mem_block-AllocatesBlock :
      (pages : ℕ) (w : W) → AllocatesBlock held pages (held w) (usb_hc_alloc_mem_block dma pages w)
  unfolding usb_hc_alloc_mem_block
  usb_hc_alloc_mem_block-AllocatesBlock pages w = elim (Bool-cases (p₁.0 == 0)) [
    | inl null ↦ rw null (laws.zero_pool_null mem_block_size w (ground (arith, null)))
    | inr got ↦
        let one = laws.zero_pool_given mem_block_size w (λ e. ground (arith, got, e)) in
        elim (Bool-cases (p₂.0 == 0)) [
          | inl null ↦
              rw (got, null)
                (laws.pool_freed p₁.0 (held w) p₂.1
                  (laws.zero_pool_null bits_len p₁.1 (ground (arith, null)) ∙ one))
          | inr both ↦
              rw (got, both)
                (alloc_buffer_of_block-AllocatesBlock p₁.0 p₂.0 pages (held w) p₂.1 (
                  laws.zero_pool_given bits_len p₁.1 (λ e. ground (arith, both, e))
                  ∙ ap (λ h. memory p₂.0 ∷ h) one))
        ]
  ]
    where
      bits_len : ℕ
      bits_len = pages_to_size pages / (usbhc_mem_unit * 8)

      p₁ : ℕ × W
      p₁ = dma.allocate_zero_pool mem_block_size w

      p₂ : ℕ × W
      p₂ = dma.allocate_zero_pool bits_len p₁.1

  free_block-held :
      (block : MemBlock) (rest : List Resource) (w : W)
      → held w ≡ block_resources block rest
      → held (usb_hc_free_mem_block dma block w) ≡ rest
  unfolding usb_hc_free_mem_block
  free_block-held block rest w e = both_freed block.ptr block.bits_ptr rest _ (
      laws.buffer_freed (size_to_pages block.buf_len) block.buf_host _ _
        (laws.unmapped block.mapping _ w e))

  -- What is held after UsbHcInitMemPool and, where that gives a pool, UsbHcFreeMemPool.
  abbrev pub init_and_free : Option (ℕ × MemPool) × W → W
  init_and_free (none, w) = w
  init_and_free (some (ptr, pool), w) = usb_hc_free_mem_pool dma ptr pool w

  -- With the address of the pool, and what the allocation of the head has come to.
  head_freed :
      (ptr : ℕ) (rest : List Resource) (new_head : Option MemBlock) (w : W)
      → AllocatesBlock held usbhc_mem_default_pages (memory ptr ∷ rest) (new_head, w)
      → held (
          init_and_free (elim new_head [
            | none ↦ (none, dma.free_pool ptr w)
            | some head ↦ (some (ptr, record { head = head; others = [] }), w)
          ]))
        ≡ rest
  unfolding usb_hc_free_mem_pool free_others
  head_freed ptr rest none w e = laws.pool_freed ptr rest w e
  head_freed ptr rest (some head) w (e, fresh) =
      laws.pool_freed ptr rest (usb_hc_free_mem_block dma head w)
        (free_block-held head (memory ptr ∷ rest) w e)

  -- UsbHcFreeMemPool gives back all that UsbHcInitMemPool has taken, and where UsbHcInitMemPool gives
  -- no pool, it has given all back itself. A Map that does not fail maps all of the buffer.
  pub usb_hc_free_mem_pool-usb_hc_init_mem_pool :
      (w : W) → held (init_and_free (usb_hc_init_mem_pool dma w)) ≡ held w
  unfolding usb_hc_init_mem_pool
  usb_hc_free_mem_pool-usb_hc_init_mem_pool w = elim (Bool-cases (p.0 == 0)) [
    | inl null ↦ rw null (laws.pool_null mem_pool_size w (ground (arith, null)))
    | inr got ↦ rw got (
        head_freed p.0 (held w) new.0 new.1 (
          subst (λ h. AllocatesBlock held usbhc_mem_default_pages h new)
            (laws.pool_given mem_pool_size w (λ e. ground (arith, got, e)))
            (usb_hc_alloc_mem_block-AllocatesBlock usbhc_mem_default_pages p.1)))
  ]
    where
      p : ℕ × W
      p = dma.allocate_pool mem_pool_size w

      new : Option MemBlock × W
      new = usb_hc_alloc_mem_block dma usbhc_mem_default_pages p.1
