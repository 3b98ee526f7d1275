-- ===== src/Xhci/Tests.antt =====
-- Runs of the XHCI memory pool on a block of sixteen units, of which the first two are in use.
use edk2_adlink_ampere_altra.Base.{
  ℕ, zero, suc, ◌*◌, ◌≡◌, refl, arith, none, some, List, [], ◌∷◌, ◌⊎◌, success,
}
use edk2_adlink_ampere_altra.Xhci.Bits.{AreBytes, used, set_usb_hc_bit, flip_usb_hc_bit}
use edk2_adlink_ampere_altra.Xhci.Dma.{Dma}
use edk2_adlink_ampere_altra.Xhci.Pool.{
  MemBlock, usb_hc_alloc_mem_from_block, usb_hc_free_mem, search_bits, mark_bits, take_units,
  clear_bits, free_units,
}
use edk2_adlink_ampere_altra.Xhci.Pool.Search.{IsFull}
use edk2_adlink_ampere_altra.Xhci.Pool.Disjoint.{Allocation, usb_hc_alloc_mem_from_block-Allocation}
use edk2_adlink_ampere_altra.Xhci.Pool.Apart.{usb_hc_free_mem-usb_hc_alloc_mem_from_block}

abbrev with_bits : List ℕ → MemBlock
with_bits bits = record {
  ptr = 0x10;
  bits_ptr = 0x20;
  bits = bits;
  buf = 0x2000;
  buf_host = 0x1000;
  buf_len = 1024;
  mapping = 0x30;
}

abbrev two_used : MemBlock
two_used = with_bits (0x03 ∷ 0 ∷ [])

two_used-AreBytes : AreBytes two_used.bits
unfolding AreBytes
two_used-AreBytes zero = omega arith
two_used-AreBytes (suc zero) = omega arith
two_used-AreBytes (suc (suc i)) = omega arith

-- The services, with a number that counts what they give out.
abbrev counting : Dma ℕ
counting = record {
  allocate_pool = λ size w. (suc w, suc w);
  allocate_zero_pool = λ size w. (suc w, suc w);
  free_pool = λ ptr w. w;
  allocate_buffer = λ pages w. (success, suc w * 0x100000, suc w);
  free_buffer = λ pages host w. (success, w);
  map_buffer = λ host bytes w. (success, bytes, host, suc w, suc w);
  unmap = λ mapping w. (success, w);
}

-- Seven units across the two bytes.
seven_units : usb_hc_alloc_mem_from_block two_used 7 ≡ some (0x1080, with_bits (0xff ∷ 0x01 ∷ []))
unfolding usb_hc_alloc_mem_from_block take_units search_bits mark_bits set_usb_hc_bit
seven_units = refl

four_units :
    usb_hc_alloc_mem_from_block (with_bits (0xff ∷ 0x01 ∷ [])) 4
    ≡ some (0x1240, with_bits (0xff ∷ 0x1f ∷ []))
unfolding usb_hc_alloc_mem_from_block take_units search_bits mark_bits set_usb_hc_bit
four_units = refl

too_many : usb_hc_alloc_mem_from_block two_used 15 ≡ none
unfolding usb_hc_alloc_mem_from_block take_units search_bits mark_bits set_usb_hc_bit
too_many = refl

seven_given_back :
    usb_hc_free_mem counting
      (record { head = with_bits (0xff ∷ 0x01 ∷ []); others = [] })
      0x1080
      400
      7
    ≡ some (record { head = two_used; others = [] }, 7)
unfolding usb_hc_free_mem free_units clear_bits flip_usb_hc_bit
seven_given_back = refl

usb_hc_alloc_mem_from_block-Allocation_example :
    ((start : ℕ) × (address : ℕ) × (after : MemBlock) × (usb_hc_alloc_mem_from_block two_used 7
        ≡ some (address, after))
      × Allocation two_used 7 start address after)
    ⊎ ((usb_hc_alloc_mem_from_block two_used 7 ≡ none) × IsFull two_used.bits 7)
usb_hc_alloc_mem_from_block-Allocation_example =
    usb_hc_alloc_mem_from_block-Allocation two_used 7 two_used-AreBytes (omega arith)

usb_hc_free_mem-usb_hc_alloc_mem_from_block_example :
    (freed : MemBlock) × (usb_hc_free_mem counting
        (record { head = with_bits (0xff ∷ 0x01 ∷ []); others = [] })
        0x1080
        400
        7
      ≡ some (record { head = freed; others = [] }, 7))
    × ((k : ℕ) → used freed.bits k ≡ used two_used.bits k)
usb_hc_free_mem-usb_hc_alloc_mem_from_block_example =
    usb_hc_free_mem-usb_hc_alloc_mem_from_block counting 7 two_used (with_bits (0xff ∷ 0x01 ∷ []))
      [] 7 0x1080 400 two_used-AreBytes (omega arith) seven_units refl refl
