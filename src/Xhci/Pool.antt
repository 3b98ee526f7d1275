-- ===== src/Xhci/Pool.antt =====
-- MdeModulePkg/Bus/Pci/XhciDxe/UsbHcMem.c: memory in units of 64 bytes from a block, whose bit array
-- says which units are in use. Addresses are numbers; assertions are not modelled.
pub mod Search
pub mod Disjoint
pub mod Apart
use edk2_adlink_ampere_altra.Base.{
  ℕ, zero, suc, ◌+◌, ◌-◌, ◌*◌, ◌/◌, ◌%◌, Bool, true, ◌&&◌, not, Option, none, some, List, [], ◌∷◌,
  ◌==◌, ltb, leb, if◌then◌else◌, length, u64,
}
use edk2_adlink_ampere_altra.Xhci.Dma.{Dma, size_to_pages}
use edk2_adlink_ampere_altra.Xhci.Bits.{
  Place, next_bit, used_at, unit_of, set_usb_hc_bit, flip_usb_hc_bit,
}

-- USBHC_MEM_UNIT and USBHC_MEM_ROUND
abbrev pub usbhc_mem_unit : ℕ
usbhc_mem_unit = 64

-- The mask keeps a multiple of the unit, of a sum that wraps at 64 bits.
abbrev pub usbhc_mem_round : ℕ → ℕ
usbhc_mem_round len = u64 (len + (usbhc_mem_unit - 1)) / usbhc_mem_unit * usbhc_mem_unit

-- USBHC_MEM_BLOCK, with its own address; `BitsLen` is the length of `bits`, `bits_ptr` their address.
pub record MemBlock : Type 0 where
  pub ptr : ℕ
  pub bits_ptr : ℕ
  pub bits : List ℕ
  pub buf : ℕ
  pub buf_host : ℕ
  pub buf_len : ℕ
  pub mapping : ℕ

-- The first loop of UsbHcAllocMemFromBlock: `Available` and the start when it ends, from a place, a
-- start and a count on. `none` means that the fuel ran out.
unfoldable pub search_bits : ℕ → List ℕ → ℕ → Place → Place → ℕ → Option (ℕ × Place)
search_bits zero bits units at start available = none
search_bits (suc fuel) bits units at start available =
    let after_free = search_bits fuel bits units (next_bit at) start (suc available) in
    let after_used = search_bits fuel bits units (next_bit at) (next_bit at) 0 in
    if leb (length bits) at.0
    then some (available, start)
    else if not (used_at bits at)
    then (if leb units (suc available) then some (suc available, start) else after_free)
    else after_used

-- The second loop, and that of UsbHcFreeMem: `Count` units from a place on.
unfoldable pub mark_bits : ℕ → Place → List ℕ → List ℕ
mark_bits zero at bits = bits
mark_bits (suc count) at bits = mark_bits count (next_bit at) (set_usb_hc_bit at bits)

unfoldable pub clear_bits : ℕ → Place → List ℕ → List ℕ
clear_bits zero at bits = bits
clear_bits (suc count) at bits = clear_bits count (next_bit at) (flip_usb_hc_bit at bits)

-- What UsbHcAllocMemFromBlock does with the end of the search.
unfoldable pub take_units : MemBlock → ℕ → Option (ℕ × Place) → Option (ℕ × MemBlock)
take_units block units none = none
take_units block units (some (available, start)) =
    if ltb available units
    then none
    else some (
      block.buf_host + unit_of start * usbhc_mem_unit,
      record block { bits = mark_bits units start block.bits },
    )

-- UsbHcAllocMemFromBlock: the address and the block, or NULL. The fuel is one more than the bits.
unfoldable pub usb_hc_alloc_mem_from_block : MemBlock → ℕ → Option (ℕ × MemBlock)
usb_hc_alloc_mem_from_block block units =
    take_units block units
      (search_bits (suc (length block.bits * 8)) block.bits units (0, 0) (0, 0) 0)

-- USBHC_MEM_POOL: the head of its list of blocks, which is never released, and the others.
pub record MemPool : Type 0 where
  pub head : MemBlock
  pub others : List MemBlock

-- The test by which UsbHcFreeMem finds the block of an address.
abbrev pub is_inside : MemBlock → ℕ → ℕ → Bool
is_inside block mem alloc_size =
    leb block.buf_host mem && leb (mem + alloc_size) (block.buf_host + block.buf_len)

-- What UsbHcFreeMem does to that block.
unfoldable pub free_units : MemBlock → ℕ → ℕ → MemBlock
free_units block mem alloc_size =
    let unit = (mem - block.buf_host) / usbhc_mem_unit in
    record block { bits = clear_bits (alloc_size / usbhc_mem_unit) (unit / 8, unit % 8) block.bits }

-- UsbHcIsMemBlockEmpty
abbrev pub usb_hc_is_mem_block_empty : List ℕ → Bool
usb_hc_is_mem_block_empty [] = true
usb_hc_is_mem_block_empty (x ∷ bits) = x == 0 && usb_hc_is_mem_block_empty bits

-- UsbHcFreeMem behind the head, up to the list of the blocks: a block that is empty then leaves the
-- list, and comes back to be released. `none` stands for the access through NULL that follows where
-- no block is found.
unfoldable pub free_from_others : List MemBlock → ℕ → ℕ → Option (List MemBlock × Option MemBlock)
free_from_others [] mem alloc_size = none
free_from_others (block ∷ blocks) mem alloc_size =
    let freed = free_units block mem alloc_size in
    let later = free_from_others blocks mem alloc_size in
    if is_inside block mem alloc_size
    then some (
        if usb_hc_is_mem_block_empty freed.bits
        then (blocks, some freed)
        else (freed ∷ blocks, none))
    else elim later [ none ↦ none | some (bs, emptied) ↦ some (block ∷ bs, emptied) ]

module _ {W : Type 0} (dma : Dma W) where
  -- UsbHcFreeMemBlock
  unfoldable pub usb_hc_free_mem_block : MemBlock → W → W
  usb_hc_free_mem_block block w =
      let (unmapped, w₁) = dma.unmap block.mapping w in
      let (released, w₂) = dma.free_buffer (size_to_pages block.buf_len) block.buf_host w₁ in
      dma.free_pool block.ptr (dma.free_pool block.bits_ptr w₂)

  -- UsbHcFreeMem
  unfoldable pub usb_hc_free_mem : MemPool → ℕ → ℕ → W → Option (MemPool × W)
  unfolding usb_hc_free_mem_block
  usb_hc_free_mem pool mem size w =
      let alloc_size = usbhc_mem_round size in
      if is_inside pool.head mem alloc_size
      then some (record pool { head = free_units pool.head mem alloc_size }, w)
      else elim (free_from_others pool.others mem alloc_size) [
        | none ↦ none
        | some (bs, none) ↦ some (record pool { others = bs }, w)
        | some (bs, some emptied) ↦
            some (record pool { others = bs }, usb_hc_free_mem_block emptied w)
      ]
