-- ===== src/Xhci/PoolTests.antt =====
-- Runs of the memory pool's pages, blocks and addresses.
use edk2_adlink_ampere_altra.Base.{
  ℕ, zero, suc, ◌+◌, ◌*◌, ◌≡◌, refl, ap, Bool, true, not, ◌&&◌, ◌||◌, ltb, arith, some, List, [],
  ◌∷◌, inr, success, out_of_resources, leb, if◌then◌else◌, ◌^◌,
}
use edk2_adlink_ampere_altra.Xhci.Bits.{AreBytes}
use edk2_adlink_ampere_altra.Xhci.Dma.{Dma, page_size, usb_hc_allocate_aligned_pages}
use edk2_adlink_ampere_altra.Xhci.Dma.Pages.{
  HoldsPages, Outcome, in_pages, usb_hc_allocate_aligned_pages-Outcome,
}
use edk2_adlink_ampere_altra.Xhci.Pool.{MemPool}
use edk2_adlink_ampere_altra.Xhci.MemPool.{
  usb_hc_alloc_mem_block, usb_hc_allocate_mem, usb_hc_init_mem_pool,
  usb_hc_get_pci_addr_for_host_addr, usb_hc_get_host_addr_for_pci_addr, pci_addr_in,
}
use edk2_adlink_ampere_altra.Xhci.MemPool.Ledger.{
  Resource, memory, buffer, mapped_as, HasLedger, MapsAll, AllocatesBlock, init_and_free,
  usb_hc_alloc_mem_block-AllocatesBlock, usb_hc_free_mem_pool-usb_hc_init_mem_pool,
}
use edk2_adlink_ampere_altra.Xhci.MemPool.Grows.{
  Served, AllSound, blocks_of, usb_hc_allocate_mem-Served,
}
use edk2_adlink_ampere_altra.Xhci.MemPool.Translation.{
  usb_hc_get_host_addr_for_pci_addr-usb_hc_get_pci_addr_for_host_addr,
}

-- Pages that are given out one after the other, and what is held of them.
abbrev is_held : ℕ × (ℕ → Bool) → ℕ → Bool
is_held w place = ltb place (w.0 * page_size) && w.1 place

abbrev bump : Dma (ℕ × (ℕ → Bool))
bump = record {
  allocate_pool = λ size w. (0, w);
  allocate_zero_pool = λ size w. (0, w);
  free_pool = λ ptr w. w;
  allocate_buffer = λ pages w.
      if leb ((w.0 + pages) * page_size) (2 ^ 64)
      then (
        success,
        w.0 * page_size,
        (w.0 + pages, λ place. in_pages (w.0 * page_size) pages place || is_held w place),
      )
      else (out_of_resources, 0, w);
  free_buffer =
      λ pages host w. (success, (w.0, λ place. not (in_pages host pages place) && w.1 place));
  map_buffer = λ host bytes w. (success, bytes, host, 1, w);
  unmap = λ mapping w. (success, w);
}

bump-HoldsPages : HoldsPages bump is_held
bump-HoldsPages = record {
  given = λ pages w good.
      let fits : leb ((w.0 + pages) * page_size) (2 ^ 64) ≡ true = ground (arith, good) in
      (
        rw fits (omega arith),
        λ place. rw fits (ground arith),
        λ place inside. ground (arith, fits, inside),
        rw fits (ground (arith, fits)),
      );
  refused = λ pages w bad place. ground (arith, bad);
  freed = λ pages host w place. ground arith;
  map_keeps = λ host bytes w place. refl;
}

usb_hc_allocate_aligned_pages-Outcome_example :
    Outcome
      (ℕ × (ℕ → Bool))
      is_held
      2
      16384
      (3, λ place. true)
      (usb_hc_allocate_aligned_pages bump 2 16384 (3, λ place. true))
usb_hc_allocate_aligned_pages-Outcome_example =
    usb_hc_allocate_aligned_pages-Outcome bump is_held bump-HoldsPages 2 16384 (3, λ place. true)
      (omega arith) (inr refl) (λ above. omega arith)

-- What is held, and a number for what is given out next.
abbrev behind_first : List Resource → List Resource
behind_first [] = []
behind_first (r ∷ rs) = rs

abbrev ledger : ℕ × List Resource → List Resource
ledger w = w.1

abbrev booked : Dma (ℕ × List Resource)
booked = record {
  allocate_pool = λ size w. (suc w.0, (suc w.0, memory (suc w.0) ∷ w.1));
  allocate_zero_pool = λ size w. (suc w.0, (suc w.0, memory (suc w.0) ∷ w.1));
  free_pool = λ ptr w. (w.0, behind_first w.1);
  allocate_buffer = λ pages w.
      if ltb (pages * page_size) (2 ^ 64)
      then (success, suc w.0 * 0x100000, (suc w.0, buffer pages (suc w.0 * 0x100000) ∷ w.1))
      else (out_of_resources, 0, w);
  free_buffer = λ pages host w. (success, (w.0, behind_first w.1));
  map_buffer =
      λ host bytes w. (success, bytes, host, suc w.0, (suc w.0, mapped_as (suc w.0) ∷ w.1));
  unmap = λ mapping w. (success, (w.0, behind_first w.1));
}

booked-HasLedger : HasLedger booked ledger
booked-HasLedger = record {
  pool_null = λ size w null. absurd (omega (arith, null));
  pool_given = λ size w got. refl;
  zero_pool_null = λ size w null. absurd (omega (arith, null));
  zero_pool_given = λ size w got. refl;
  pool_freed = λ ptr rest w e. ap behind_first e;
  buffer_refused = λ pages w bad. ground (arith, bad);
  buffer_given = λ pages w good. ground (arith, good);
  buffer_fits = λ pages w good. ground (arith, good);
  buffer_freed = λ pages host rest w e. ap behind_first e;
  map_refused = λ host bytes w bad. absurd (ground (arith, bad));
  map_given = λ host bytes w good. refl;
  unmapped = λ mapping rest w e. ap behind_first e;
}

booked-MapsAll : MapsAll booked
booked-MapsAll host bytes w good = refl

usb_hc_alloc_mem_block-AllocatesBlock_example :
    AllocatesBlock ledger 16 (memory 7 ∷ []) (usb_hc_alloc_mem_block booked 16 (7, memory 7 ∷ []))
usb_hc_alloc_mem_block-AllocatesBlock_example =
    usb_hc_alloc_mem_block-AllocatesBlock booked ledger booked-HasLedger booked-MapsAll 16
      (7, memory 7 ∷ [])

usb_hc_free_mem_pool-usb_hc_init_mem_pool_example :
    ledger (
      init_and_free booked ledger booked-HasLedger booked-MapsAll
        (usb_hc_init_mem_pool booked (7, memory 7 ∷ [])))
    ≡ memory 7 ∷ []
usb_hc_free_mem_pool-usb_hc_init_mem_pool_example =
    usb_hc_free_mem_pool-usb_hc_init_mem_pool booked ledger booked-HasLedger booked-MapsAll
      (7, memory 7 ∷ [])

abbrev small_pool : MemPool
small_pool = record {
  head = record {
    ptr = 0x10;
    bits_ptr = 0x20;
    bits = 0x03 ∷ 0 ∷ [];
    buf = 0x8000;
    buf_host = 0x1000;
    buf_len = 1024;
    mapping = 0x30;
  };
  others = [];
}

small_pool-AreBytes : AreBytes small_pool.head.bits
unfolding AreBytes
small_pool-AreBytes zero = omega arith
small_pool-AreBytes (suc zero) = omega arith
small_pool-AreBytes (suc (suc i)) = omega arith

-- Fifteen units are more than the block has left, so that the pool grows.
usb_hc_allocate_mem-Served_example :
    Served booked small_pool 960 (7, []) (usb_hc_allocate_mem booked small_pool 960 (7, []))
    × AllSound (blocks_of (usb_hc_allocate_mem booked small_pool 960 (7, [])).1)
usb_hc_allocate_mem-Served_example =
    usb_hc_allocate_mem-Served booked small_pool 960 (7, [])
      (record { bytes = small_pool-AreBytes; sized = refl }, tt) (omega arith) (omega arith)

small_pool_addr : usb_hc_get_pci_addr_for_host_addr small_pool 0x1040 16 ≡ some 0x8040
unfolding usb_hc_get_pci_addr_for_host_addr pci_addr_in
small_pool_addr = refl

usb_hc_get_host_addr_for_pci_addr-usb_hc_get_pci_addr_for_host_addr_example :
    usb_hc_get_host_addr_for_pci_addr small_pool 0x8040 16 ≡ some 0x1040
usb_hc_get_host_addr_for_pci_addr-usb_hc_get_pci_addr_for_host_addr_example =
    usb_hc_get_host_addr_for_pci_addr-usb_hc_get_pci_addr_for_host_addr small_pool 0x1040 16 0x8040
      (omega arith, tt, tt) (λ e. absurd (omega (arith, e))) (omega arith) (omega arith)
      small_pool_addr
