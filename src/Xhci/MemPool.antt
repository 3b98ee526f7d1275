-- ===== src/Xhci/MemPool.antt =====
-- MdeModulePkg/Bus/Pci/XhciDxe/UsbHcMem.c: the pool of blocks, how it grows, and the addresses of its
-- memory for the host and on the bus. That UsbHcAllocateMem sets the memory to zero is not modelled,
-- nor are assertions and DEBUG.
pub mod Ledger
pub mod Grows
pub mod Translation
use edk2_adlink_ampere_altra.Base.{
  ℕ, zero, suc, ◌+◌, ◌-◌, ◌*◌, ◌/◌, Bool, true, false, not, ◌&&◌, ◌||◌, Option, none, some, List,
  [], ◌∷◌, ◌==◌, leb, ltb, if◌then◌else◌, is_error, replicate,
}
use edk2_adlink_ampere_altra.Xhci.Dma.{Dma, pages_to_size, size_to_pages}
use edk2_adlink_ampere_altra.Xhci.Pool.{
  MemBlock, MemPool, usbhc_mem_unit, usbhc_mem_round, usb_hc_alloc_mem_from_block, is_inside,
  usb_hc_free_mem_block,
}

-- USBHC_MEM_DEFAULT_PAGES, `sizeof (USBHC_MEM_BLOCK)` and `sizeof (USBHC_MEM_POOL)`
abbrev pub usbhc_mem_default_pages : ℕ
usbhc_mem_default_pages = 16

abbrev pub mem_block_size : ℕ
mem_block_size = 56

abbrev pub mem_pool_size : ℕ
mem_pool_size = 24

-- UsbHcInsertMemBlockToPool
abbrev pub usb_hc_insert_mem_block_to_pool : MemPool → MemBlock → MemPool
usb_hc_insert_mem_block_to_pool pool block = record pool { others = block ∷ pool.others }

-- The loop of UsbHcAllocateMem over the blocks, as many units as it asks for: the address and the
-- blocks, or NULL.
unfoldable pub alloc_from_others : List MemBlock → ℕ → Option (ℕ × List MemBlock)
alloc_from_others [] units = none
alloc_from_others (block ∷ blocks) units =
    let later = alloc_from_others blocks units in
    elim (usb_hc_alloc_mem_from_block block units) [
      | some (mem, block') ↦ some (mem, block' ∷ blocks)
      | none ↦ elim later [ none ↦ none | some (mem, blocks') ↦ some (mem, block ∷ blocks') ]
    ]

unfoldable pub alloc_from_pool : MemPool → ℕ → Option (ℕ × MemPool)
unfolding alloc_from_others
alloc_from_pool pool units = elim (usb_hc_alloc_mem_from_block pool.head units) [
  | some (mem, head) ↦ some (mem, record pool { head = head })
  | none ↦ elim (alloc_from_others pool.others units) [
    | none ↦ none
    | some (mem, others) ↦ some (mem, record pool { others = others })
  ]
]

-- How many pages a new block gets.
abbrev pub block_pages : ℕ → ℕ
block_pages alloc_size =
    if ltb (pages_to_size usbhc_mem_default_pages) alloc_size
    then size_to_pages alloc_size + 1
    else usbhc_mem_default_pages

module _ {W : Type 0} (dma : Dma W) where
  open dma use {
    allocate_pool, allocate_zero_pool, free_pool, allocate_buffer, free_buffer, map_buffer,
  }

  -- What follows the allocation of the bit array in UsbHcAllocMemBlock, with the addresses of the
  -- block and of the bit array.
  unfoldable pub alloc_buffer_of_block : ℕ → ℕ → ℕ → W → Option MemBlock × W
  alloc_buffer_of_block ptr bits_ptr pages w =
      let (given, buf_host, w₁) = allocate_buffer pages w in
      let (mapped, bytes, mapped_addr, mapping, w₂) =
        map_buffer buf_host (pages_to_size pages) w₁ in
      let (released, w₃) = free_buffer pages buf_host w₂ in
      if is_error given
      then (none, free_pool ptr (free_pool bits_ptr w₁))
      else if is_error mapped || not (bytes == pages_to_size pages)
      then (none, free_pool ptr (free_pool bits_ptr w₃))
      else (
        some (record {
          ptr = ptr;
          bits_ptr = bits_ptr;
          bits = replicate (pages_to_size pages / (usbhc_mem_unit * 8)) 0;
          buf = mapped_addr;
          buf_host = buf_host;
          buf_len = pages_to_size pages;
          mapping = mapping;
        }),
        w₂,
      )

  -- UsbHcAllocMemBlock
  unfoldable pub usb_hc_alloc_mem_block : ℕ → W → Option MemBlock × W
  unfolding alloc_buffer_of_block
  usb_hc_alloc_mem_block pages w =
      let (ptr, w₁) = allocate_zero_pool mem_block_size w in
      let (bits_ptr, w₂) = allocate_zero_pool (pages_to_size pages / (usbhc_mem_unit * 8)) w₁ in
      if ptr == 0
      then (none, w₁)
      else if bits_ptr == 0
      then (none, free_pool ptr w₂)
      else alloc_buffer_of_block ptr bits_ptr pages w₂

  -- UsbHcAllocateMem: the address, or NULL.
  unfoldable pub usb_hc_allocate_mem : MemPool → ℕ → W → Option ℕ × MemPool × W
  usb_hc_allocate_mem pool size w =
      let alloc_size = usbhc_mem_round size in
      let units = alloc_size / usbhc_mem_unit in
      let (new_block, w') = usb_hc_alloc_mem_block (block_pages alloc_size) w in
      elim (alloc_from_pool pool units) [
        | some (mem, pool') ↦ (some mem, pool', w)
        | none ↦ elim new_block [
          | none ↦ (none, pool, w')
          | some block ↦ elim (usb_hc_alloc_mem_from_block block units) [
            | none ↦ (none, usb_hc_insert_mem_block_to_pool pool block, w')
            | some (mem, block') ↦ (some mem, usb_hc_insert_mem_block_to_pool pool block', w')
          ]
        ]
      ]

  -- UsbHcInitMemPool, with the address of the pool.
  unfoldable pub usb_hc_init_mem_pool : W → Option (ℕ × MemPool) × W
  unfolding usb_hc_alloc_mem_block
  usb_hc_init_mem_pool w =
      let (ptr, w₁) = allocate_pool mem_pool_size w in
      let (new_head, w₂) = usb_hc_alloc_mem_block usbhc_mem_default_pages w₁ in
      if ptr == 0 then (none, w₁) else elim new_head [
        | none ↦ (none, free_pool ptr w₂)
        | some head ↦ (some (ptr, record { head = head; others = [] }), w₂)
      ]

  -- The loop of UsbHcFreeMemPool.
  unfoldable pub free_others : List MemBlock → W → W
  unfolding usb_hc_free_mem_block
  free_others [] w = w
  free_others (block ∷ blocks) w = free_others blocks (usb_hc_free_mem_block dma block w)

  -- UsbHcFreeMemPool
  unfoldable pub usb_hc_free_mem_pool : ℕ → MemPool → W → W
  unfolding free_others
  usb_hc_free_mem_pool ptr pool w =
      free_pool ptr (usb_hc_free_mem_block dma pool.head (free_others pool.others w))

-- The test by which UsbHcGetHostAddrForPciAddr finds the block of an address.
abbrev pub is_inside_pci : MemBlock → ℕ → ℕ → Bool
is_inside_pci block mem alloc_size =
    leb block.buf mem && leb (mem + alloc_size) (block.buf + block.buf_len)

-- The loops of both functions; `none` stands for the access through NULL that follows where no block
-- is found.
unfoldable pub pci_addr_in : List MemBlock → ℕ → ℕ → Option ℕ
pci_addr_in [] mem alloc_size = none
pci_addr_in (block ∷ blocks) mem alloc_size =
    if is_inside block mem alloc_size
    then some (block.buf + (mem - block.buf_host))
    else pci_addr_in blocks mem alloc_size

unfoldable pub host_addr_in : List MemBlock → ℕ → ℕ → Option ℕ
host_addr_in [] mem alloc_size = none
host_addr_in (block ∷ blocks) mem alloc_size =
    if is_inside_pci block mem alloc_size
    then some (block.buf_host + (mem - block.buf))
    else host_addr_in blocks mem alloc_size

-- UsbHcGetPciAddrForHostAddr and UsbHcGetHostAddrForPciAddr
unfoldable pub usb_hc_get_pci_addr_for_host_addr : MemPool → ℕ → ℕ → Option ℕ
unfolding pci_addr_in
usb_hc_get_pci_addr_for_host_addr pool mem size =
    if mem == 0 then some 0 else pci_addr_in (pool.head ∷ pool.others) mem (usbhc_mem_round size)

unfoldable pub usb_hc_get_host_addr_for_pci_addr : MemPool → ℕ → ℕ → Option ℕ
unfolding host_addr_in
usb_hc_get_host_addr_for_pci_addr pool mem size =
    if mem == 0 then some 0 else host_addr_in (pool.head ∷ pool.others) mem (usbhc_mem_round size)
