-- ===== src/Xhci/Dma.antt =====
-- What the memory functions of MdeModulePkg/Bus/Pci/XhciDxe/UsbHcMem.c call, and its pages at an
-- alignment. PciIo and the pool of the boot services are parameters; assertions are not modelled.
pub mod Pages
use edk2_adlink_ampere_altra.Base.{
  ℕ, ◌+◌, ◌-◌, ◌*◌, ◌/◌, ◌%◌, Bool, not, ◌||◌, Option, none, some, ◌==◌, ltb, if◌then◌else◌,
  bit_and, u64, sub64, Status, success, invalid_parameter, out_of_resources, is_error,
}

-- AllocatePool and AllocateZeroPool (the address, 0 for NULL), FreePool, and PciIo's AllocateBuffer
-- (the status and the address), FreeBuffer, Map of a common buffer (the status, the bytes that are
-- mapped, their address on the bus and the mapping) and Unmap.
pub record Dma (W : Type 0) : Type 0 where
  pub allocate_pool : ℕ → W → ℕ × W
  pub allocate_zero_pool : ℕ → W → ℕ × W
  pub free_pool : ℕ → W → W
  pub allocate_buffer : ℕ → W → Status × ℕ × W
  pub free_buffer : ℕ → ℕ → W → Status × W
  pub map_buffer : ℕ → ℕ → W → Status × ℕ × ℕ × ℕ × W
  pub unmap : ℕ → W → Status × W

-- EFI_PAGE_SIZE, EFI_PAGES_TO_SIZE and EFI_SIZE_TO_PAGES
abbrev pub page_size : ℕ
page_size = 4096

abbrev pub pages_to_size : ℕ → ℕ
pages_to_size pages = u64 (pages * page_size)

abbrev pub size_to_pages : ℕ → ℕ
size_to_pages size = (size + (page_size - 1)) / page_size

-- `(Memory + AlignmentMask) & ~AlignmentMask`: the mask keeps a multiple of the power of two, of a sum
-- that wraps at 64 bits.
abbrev pub align_up : ℕ → ℕ → ℕ
align_up alignment memory = u64 (memory + (alignment - 1)) / alignment * alignment

module _ {W : Type 0} (dma : Dma W) where
  open dma use {allocate_buffer, free_buffer, map_buffer, unmap}

  -- The release of the pages at an end, where there are any.
  unfoldable pub free_some : ℕ → ℕ → W → W
  free_some pages memory w = if ltb 0 pages then (free_buffer pages memory w).1 else w

  -- The branch for an alignment above the size of a page: the status and the aligned address.
  unfoldable pub allocate_more : ℕ → ℕ → W → Status × ℕ × W
  unfolding free_some
  allocate_more pages alignment w =
      let real_pages = u64 (pages + size_to_pages alignment) in
      let (status, memory, w₁) = allocate_buffer real_pages w in
      let aligned_memory = align_up alignment memory in
      let before = size_to_pages (sub64 aligned_memory memory) in
      let w₂ = free_some before memory w₁ in
      let behind = sub64 (sub64 real_pages pages) before in
      if is_error status then (status, 0, w₁) else (
        success,
        aligned_memory,
        free_some behind (u64 (aligned_memory + pages_to_size pages)) w₂,
      )

  -- What follows in both branches: the host address, the device address and the mapping.
  unfoldable pub map_pages : ℕ → Status × ℕ × W → Status × Option (ℕ × ℕ × ℕ) × W
  map_pages pages (status, aligned_memory, w) =
      let (mapped, bytes, device_address, mapping, w') =
        map_buffer aligned_memory (pages_to_size pages) w in
      if is_error status
      then (out_of_resources, none, w)
      else if is_error mapped || not (bytes == pages_to_size pages)
      then (out_of_resources, none, (free_buffer pages aligned_memory w').1)
      else (success, some (aligned_memory, device_address, mapping), w')

  -- UsbHcAllocateAlignedPages
  unfoldable pub usb_hc_allocate_aligned_pages : ℕ → ℕ → W → Status × Option (ℕ × ℕ × ℕ) × W
  unfolding allocate_more map_pages
  usb_hc_allocate_aligned_pages pages alignment w =
      if not (bit_and alignment (alignment - 1) == 0)
      then (invalid_parameter, none, w)
      else if pages == 0
      then (invalid_parameter, none, w)
      else if ltb page_size alignment
      then map_pages pages (allocate_more pages alignment w)
      else map_pages pages (allocate_buffer pages w)

  -- UsbHcFreeAlignedPages
  unfoldable pub usb_hc_free_aligned_pages : ℕ → ℕ → ℕ → W → W
  usb_hc_free_aligned_pages host_address pages mapping w =
      (free_buffer pages host_address (unmap mapping w).1).1
