-- ===== src/Xhci/Pool/Apart.antt =====
-- Memory that UsbHcAllocMemFromBlock has given out is not given out again before it is freed.
use mathlib.Core.Path.{subst}
use edk2_adlink_ampere_altra.Base.{
  ℕ, ◌+◌, ◌*◌, ◌≤◌, ◌<◌, ◌≡◌, ◌∙◌, sym, Option, none, some, arith, List, length, ◌⊎◌, inl, inr,
}
use edk2_adlink_ampere_altra.Xhci.Bits.{used, AreBytes}
use edk2_adlink_ampere_altra.Xhci.Dma.{Dma}
use edk2_adlink_ampere_altra.Xhci.Pool.{
  MemBlock, usb_hc_alloc_mem_from_block, usb_hc_free_mem, usbhc_mem_unit, usbhc_mem_round,
}
use edk2_adlink_ampere_altra.Xhci.Pool.Search.{AreFree}
use edk2_adlink_ampere_altra.Xhci.Pool.Disjoint.{
  Allocation, usb_hc_alloc_mem_from_block-Allocation, usb_hc_free_mem-Allocation,
}

-- An address that is given out comes with an allocation.
given_out :
    (block after : MemBlock) (units address : ℕ)
    → AreBytes block.bits
    → 0 < units
    → usb_hc_alloc_mem_from_block block units ≡ some (address, after)
    → (start : ℕ) × Allocation block units start address after
given_out block after units address bytes some_units gave =
    elim (usb_hc_alloc_mem_from_block-Allocation block units bytes some_units) [
      | inl (start, x, y, e, a) ↦ subst Given (sym e ∙ gave) (start, a)
      | inr (null, full) ↦ absurd (ground (arith, null, gave))
    ]
  where
    Given : Option (ℕ × MemBlock) → Type 0
    Given none = ℕ
    Given (some (x, y)) = (start : ℕ) × Allocation block units start x y

overlap_free :
    (block middle : MemBlock) (units₁ units₂ start₁ start₂ address₁ k : ℕ)
    → Allocation block units₁ start₁ address₁ middle
    → AreFree middle.bits start₂ units₂
    → start₁ ≤ k
    → k < start₁ + units₁
    → start₂ ≤ k
    → start₂ + units₂ ≤ k
unfolding AreFree
overlap_free block middle units₁ units₂ start₁ start₂ address₁ k a free p q r =
    ground (arith, a.now_used k, free k r)

-- Two allocations from a block, one after the other, are of memory that does not overlap. Neither
-- is of 0 units, and the array is one of bytes.
pub usb_hc_alloc_mem_from_block-apart :
    (block middle after : MemBlock) (units₁ units₂ address₁ address₂ : ℕ)
    → AreBytes block.bits
    → 0 < units₁
    → 0 < units₂
    → usb_hc_alloc_mem_from_block block units₁ ≡ some (address₁, middle)
    → usb_hc_alloc_mem_from_block middle units₂ ≡ some (address₂, after)
    → (address₁ + units₁ * usbhc_mem_unit ≤ address₂)
      ⊎ (address₂ + units₂ * usbhc_mem_unit ≤ address₁)
usb_hc_alloc_mem_from_block-apart block middle after units₁ units₂ address₁ address₂ bytes p q gave₁
      gave₂ =
    let (start₁, a₁) = given_out block middle units₁ address₁ bytes p gave₁ in
    let (start₂, a₂) = given_out middle after units₂ address₂ a₁.bytes q gave₂ in
    let at =
      λ (k : ℕ). overlap_free block middle units₁ units₂ start₁ start₂ address₁ k a₁ a₂.were_free in
    let order : (start₁ + units₁ ≤ start₂) ⊎ (start₂ + units₂ ≤ start₁) =
      ground (arith, p, q, at start₁, at start₂) in
    elim order [
      | inl before ↦ inl (omega (arith, a₁.address_of, a₂.address_of, a₁.same_place.1))
      | inr behind ↦ inr (omega (arith, a₁.address_of, a₂.address_of, a₁.same_place.1))
    ]

-- UsbHcFreeMem undoes an allocation from the head of the pool: it finds the block, and each unit of
-- it is in use exactly if it was before the allocation; the other blocks stay. The size that is
-- freed rounds up to the units of the allocation, which are not 0, the array is one of bytes, and it
-- has a bit for each unit of the block.
pub usb_hc_free_mem-usb_hc_alloc_mem_from_block :
    {W : Type 0} (dma : Dma W) (w : W) (block after : MemBlock) (others : List MemBlock)
    (units address size : ℕ)
    → AreBytes block.bits
    → 0 < units
    → usb_hc_alloc_mem_from_block block units ≡ some (address, after)
    → usbhc_mem_round size ≡ units * usbhc_mem_unit
    → block.buf_len ≡ length block.bits * 8 * usbhc_mem_unit
    → (freed : MemBlock) × (usb_hc_free_mem dma
          (record { head = after; others = others })
          address
          size
          w
        ≡ some (record { head = freed; others = others }, w))
      × ((k : ℕ) → used freed.bits k ≡ used block.bits k)
usb_hc_free_mem-usb_hc_alloc_mem_from_block dma w block after others units address size bytes p gave
      rounded sized =
    let (start, a) = given_out block after units address bytes p gave in
    usb_hc_free_mem-Allocation dma w block after others units start address size a rounded sized
