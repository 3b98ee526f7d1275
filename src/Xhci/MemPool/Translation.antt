-- ===== src/Xhci/MemPool/Translation.antt =====
-- The addresses of the pool's memory for the host and on the bus.
use edk2_adlink_ampere_altra.Base.{
  ℕ, ◌+◌, ◌^◌, ◌≤◌, ◌<◌, ◌≡◌, ◌≢◌, false, some, List, [], ◌∷◌, arith, ◌⊎◌, inl, inr, Bool-cases,
  ==_false,
}
use edk2_adlink_ampere_altra.Xhci.Pool.{MemBlock, MemPool, usbhc_mem_round, is_inside}
use edk2_adlink_ampere_altra.Xhci.MemPool.{
  is_inside_pci, pci_addr_in, host_addr_in, usb_hc_get_pci_addr_for_host_addr,
  usb_hc_get_host_addr_for_pci_addr,
}

-- The blocks are apart from each other on the bus, and none begins at address 0 there.
abbrev pub ApartFrom : MemBlock → List MemBlock → Type 0
ApartFrom block [] = Unit {0}
ApartFrom block (b ∷ bs) =
    ((block.buf + block.buf_len ≤ b.buf) ⊎ (b.buf + b.buf_len ≤ block.buf)) × ApartFrom block bs

abbrev pub AreApart : List MemBlock → Type 0
AreApart [] = Unit {0}
AreApart (b ∷ bs) = (0 < b.buf) × ApartFrom b bs × AreApart bs

-- Where the address on the bus was found behind a block, it is not in that block.
found_behind :
    (block : MemBlock) (bs : List MemBlock) (mem alloc_size pci : ℕ)
    → 0 < alloc_size
    → ApartFrom block bs
    → pci_addr_in bs mem alloc_size ≡ some pci
    → is_inside_pci block pci alloc_size ≡ false
unfolding pci_addr_in
found_behind block [] mem alloc_size pci some_bytes apart found = cc
found_behind block (b ∷ bs) mem alloc_size pci some_bytes apart found =
    ground (arith, found, found_behind block bs mem alloc_size pci some_bytes apart.1)

translated_back :
    (bs : List MemBlock) (mem alloc_size pci : ℕ)
    → 0 < alloc_size
    → AreApart bs
    → pci_addr_in bs mem alloc_size ≡ some pci
    → (0 < pci) × (host_addr_in bs pci alloc_size ≡ some mem)
unfolding pci_addr_in host_addr_in
translated_back [] mem alloc_size pci some_bytes apart found = cc
translated_back (b ∷ bs) mem alloc_size pci some_bytes apart found =
    elim (Bool-cases (is_inside b mem alloc_size)) [
      | inl here ↦ ground (arith, found, here)
      | inr behind ↦ ground (
        arith,
        found,
        behind,
        translated_back bs mem alloc_size pci some_bytes apart.2,
        found_behind b bs mem alloc_size pci some_bytes apart.1,
      )
    ]

-- UsbHcGetHostAddrForPciAddr undoes UsbHcGetPciAddrForHostAddr: for memory that is not NULL and
-- of a size from 1 to 2^64 - 64, and that the first finds in a block, where the blocks of the
-- pool are apart on the bus and do not begin at its address 0.
pub usb_hc_get_host_addr_for_pci_addr-usb_hc_get_pci_addr_for_host_addr :
    (pool : MemPool) (mem size pci : ℕ)
    → AreApart (pool.head ∷ pool.others)
    → mem ≢ 0
    → 0 < size
    → size + 63 < 2 ^ 64
    → usb_hc_get_pci_addr_for_host_addr pool mem size ≡ some pci
    → usb_hc_get_host_addr_for_pci_addr pool pci size ≡ some mem
unfolding usb_hc_get_pci_addr_for_host_addr usb_hc_get_host_addr_for_pci_addr
usb_hc_get_host_addr_for_pci_addr-usb_hc_get_pci_addr_for_host_addr pool mem size pci apart not_null
      some_bytes no_wrap found =
    let bs = pool.head ∷ pool.others in
    let some_units : 0 < usbhc_mem_round size = omega arith in
    let looked : pci_addr_in bs mem (usbhc_mem_round size) ≡ some pci =
      rw (==_false mem 0 not_null) at found in
    let (not_zero, back) =
      translated_back bs mem (usbhc_mem_round size) pci some_units apart looked in
    rw (==_false pci 0 (λ e. absurd (omega (arith, e, not_zero)))) back
