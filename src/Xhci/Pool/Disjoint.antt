-- ===== src/Xhci/Pool/Disjoint.antt =====
-- What UsbHcAllocMemFromBlock gives out, and what the loop of UsbHcFreeMem gives back.
use edk2_adlink_ampere_altra.Base.{
  ℕ, zero, suc, ◌+◌, ◌-◌, ◌*◌, ◌/◌, ◌%◌, ◌≤◌, ◌<◌, ◌≡◌, refl, Bool, true, false, not, ◌&&◌, ◌||◌,
  none, some, List, ltb, leb, ◌==◌, if◌then◌else◌, length, arith, inl, inr, ◌⊎◌, ap, ◌∙◌,
}
use edk2_adlink_ampere_altra.Xhci.Bits.{
  unit_of, used, AreBytes, set_usb_hc_bit, flip_usb_hc_bit, used-set_usb_hc_bit,
  length-set_usb_hc_bit, length-flip_usb_hc_bit, used-flip_usb_hc_bit, set_usb_hc_bit-AreBytes,
  flip_usb_hc_bit-AreBytes,
}
use edk2_adlink_ampere_altra.Xhci.Dma.{Dma}
use edk2_adlink_ampere_altra.Xhci.Pool.{
  MemBlock, is_inside, free_units, usb_hc_free_mem, usbhc_mem_round, mark_bits, clear_bits,
  take_units, usb_hc_alloc_mem_from_block, usbhc_mem_unit,
}
use edk2_adlink_ampere_altra.Xhci.Pool.Search.{
  AreFree, AreFree-fewer, IsFull, search_bits-ends, next_bit_lem,
}

-- Whether a unit is one of `count` from a unit on.
abbrev pub among : ℕ → ℕ → ℕ → Bool
among from count k = leb from k && ltb k (from + count)

mark_step :
    (u count k : ℕ) (b : Bool)
    → (among (suc u) count k || ((k == u) || b)) ≡ (among u (suc count) k || b)
mark_step u count k true = ground arith
mark_step u count k false = ground arith

clear_step :
    (u count k : ℕ) (b : Bool)
    → (if among (suc u) count k
        then not (if k == u then not b else b)
        else (if k == u then not b else b))
      ≡ (if among u (suc count) k then not b else b)
clear_step u count k true = ground arith
clear_step u count k false = ground arith

-- The two loops, over a run of units that is inside of the block.
used-mark_bits :
    (count byte bit : ℕ) (bits : List ℕ)
    → AreBytes bits
    → bit < 8
    → unit_of (byte, bit) + count ≤ length bits * 8
    → (k : ℕ)
    → used (mark_bits count (byte, bit) bits) k
      ≡ (among (unit_of (byte, bit)) count k || used bits k)
unfolding mark_bits
used-mark_bits zero byte bit bits bytes in_byte inside k = ground arith
used-mark_bits (suc count) byte bit bits bytes in_byte inside k =
    let next = next_bit_lem bits 0 byte bit in_byte in
    let size = length-set_usb_hc_bit (byte, bit) bits in
    used-mark_bits count _ _ (set_usb_hc_bit (byte, bit) bits)
      (set_usb_hc_bit-AreBytes bits bytes byte bit (omega arith) in_byte) next.0
      (omega (arith, next.1, size)) k
    ∙ ap (λ u. among u count k || used (set_usb_hc_bit (byte, bit) bits) k) next.1
    ∙ ap (λ b. among (suc (unit_of (byte, bit))) count k || b)
        (used-set_usb_hc_bit bits bytes byte bit (omega arith) in_byte k)
    ∙ mark_step (unit_of (byte, bit)) count k (used bits k)

used-clear_bits :
    (count byte bit : ℕ) (bits : List ℕ)
    → AreBytes bits
    → bit < 8
    → unit_of (byte, bit) + count ≤ length bits * 8
    → (k : ℕ)
    → used (clear_bits count (byte, bit) bits) k
      ≡ (if among (unit_of (byte, bit)) count k then not (used bits k) else used bits k)
unfolding clear_bits
used-clear_bits zero byte bit bits bytes in_byte inside k = ground arith
used-clear_bits (suc count) byte bit bits bytes in_byte inside k =
    let next = next_bit_lem bits 0 byte bit in_byte in
    let size = length-flip_usb_hc_bit (byte, bit) bits in
    used-clear_bits count _ _ (flip_usb_hc_bit (byte, bit) bits)
      (flip_usb_hc_bit-AreBytes bits bytes byte bit (omega arith) in_byte) next.0
      (omega (arith, next.1, size)) k
    ∙ ap
        (λ u.
          if among u count k
          then not (used (flip_usb_hc_bit (byte, bit) bits) k)
          else used (flip_usb_hc_bit (byte, bit) bits) k)
        next.1
    ∙ ap (λ b. if among (suc (unit_of (byte, bit))) count k then not b else b)
        (used-flip_usb_hc_bit bits bytes byte bit (omega arith) in_byte k)
    ∙ clear_step (unit_of (byte, bit)) count k (used bits k)

-- The array stays one of bytes, of the same length.
mark_bits-AreBytes :
    (count byte bit : ℕ) (bits : List ℕ)
    → AreBytes bits
    → bit < 8
    → unit_of (byte, bit) + count ≤ length bits * 8
    → AreBytes (mark_bits count (byte, bit) bits)
      × (length (mark_bits count (byte, bit) bits) ≡ length bits)
unfolding mark_bits
mark_bits-AreBytes zero byte bit bits bytes in_byte inside = (bytes, refl)
mark_bits-AreBytes (suc count) byte bit bits bytes in_byte inside =
    let next = next_bit_lem bits 0 byte bit in_byte in
    let size = length-set_usb_hc_bit (byte, bit) bits in
    let (bytes', size') =
      mark_bits-AreBytes count _ _ (set_usb_hc_bit (byte, bit) bits)
        (set_usb_hc_bit-AreBytes bits bytes byte bit (omega arith) in_byte) next.0
        (omega (arith, next.1, size)) in
    (bytes', size' ∙ size)

-- What an allocation gives: the units from `start` on were free and are now in use, no other unit
-- changed, and the address is that of the first of them.
pub record Allocation (block : MemBlock) (units start address : ℕ) (after : MemBlock) : Type 0 where
  pub address_of : address ≡ block.buf_host + start * usbhc_mem_unit
  pub inside : start + units ≤ length block.bits * 8
  pub were_free : AreFree block.bits start units
  pub now_used : (k : ℕ) → used after.bits k ≡ (among start units k || used block.bits k)
  pub bytes : AreBytes after.bits
  pub same_size : length after.bits ≡ length block.bits
  pub same_place :
      (after.buf ≡ block.buf) × (after.buf_host ≡ block.buf_host) × (after.buf_len ≡ block.buf_len)

-- UsbHcAllocMemFromBlock gives out a run of units inside of the block that were free, and marks
-- these and no others as used; or it gives NULL, and then no run of that many units is free. The
-- number of units is not 0, as the code asserts, and the array is one of bytes.
pub usb_hc_alloc_mem_from_block-Allocation :
    (block : MemBlock) (units : ℕ)
    → AreBytes block.bits
    → 0 < units
    → ((start : ℕ) × (address : ℕ) × (after : MemBlock) × (usb_hc_alloc_mem_from_block block units
          ≡ some (address, after))
        × Allocation block units start address after)
      ⊎ ((usb_hc_alloc_mem_from_block block units ≡ none) × IsFull block.bits units)
unfolding usb_hc_alloc_mem_from_block take_units
usb_hc_alloc_mem_from_block-Allocation block units bytes some_units =
    let (available, (byte, bit), ends, outcome) = search_bits-ends block.bits units some_units in
    elim outcome [
      | inl found ↦
          let enough : ltb available units ≡ false = ground (arith, found.enough) in
          let room : unit_of (byte, bit) + units ≤ length block.bits * 8 =
            omega (arith, found.enough, found.inside) in
          let kept = mark_bits-AreBytes units byte bit block.bits bytes found.in_byte room in
          inl (
            unit_of (byte, bit),
            block.buf_host + unit_of (byte, bit) * usbhc_mem_unit,
            record block { bits = mark_bits units (byte, bit) block.bits },
            rw (ends, enough) refl,
            record {
              address_of = refl;
              inside = room;
              were_free = AreFree-fewer _ _ available units found.enough found.free;
              now_used = used-mark_bits units byte bit block.bits bytes found.in_byte room;
              bytes = kept.0;
              same_size = kept.1;
              same_place = (refl, refl, refl);
            },
          )
      | inr (short, full) ↦
          let few : ltb available units ≡ true = ground arith in inr (rw (ends, few) refl, full)
    ]

toggled_back :
    (u count start units k : ℕ) (b : Bool)
    → u ≡ start
    → count ≡ units
    → (start ≤ k → k < start + units → b ≡ false)
    → (if among u count k then not (among start units k || b) else (among start units k || b)) ≡ b
toggled_back u count start units k true p q free = ground (arith, p, q, free)
toggled_back u count start units k false p q free = ground (arith, p, q)

module _ (block after : MemBlock) (units start address : ℕ)
    (a : Allocation block units start address after) where
  restored :
      (u count k : ℕ)
      → u ≡ start
      → count ≡ units
      → used (clear_bits count (u / 8, u % 8) after.bits) k ≡ used block.bits k
  unfolding AreFree
  restored u count k p q =
      used-clear_bits count (u / 8) (u % 8) after.bits a.bytes (omega arith)
        (omega (arith, a.inside, a.same_size, p, q)) k
      ∙ ap (λ b. if among (unit_of (u / 8, u % 8)) count k then not b else b) (a.now_used k)
      ∙ toggled_back _ _ start units k (used block.bits k) (omega (arith, p)) q (a.were_free k)

pub usb_hc_free_mem-Allocation :
    {W : Type 0} (dma : Dma W) (w : W) (block after : MemBlock) (others : List MemBlock)
    (units start address size : ℕ)
    → Allocation block units start address after
    → usbhc_mem_round size ≡ units * usbhc_mem_unit
    → block.buf_len ≡ length block.bits * 8 * usbhc_mem_unit
    → (freed : MemBlock) × (usb_hc_free_mem dma
          (record { head = after; others = others })
          address
          size
          w
        ≡ some (record { head = freed; others = others }, w))
      × ((k : ℕ) → used freed.bits k ≡ used block.bits k)
unfolding usb_hc_free_mem free_units
usb_hc_free_mem-Allocation dma w block after others units start address size a rounded sized =
    let here : (address - after.buf_host) / usbhc_mem_unit ≡ start =
      omega (arith, a.address_of, a.same_place.1) in
    let contained : is_inside after address (usbhc_mem_round size) ≡ true =
      ground (arith, a.address_of, a.inside, a.same_place.1, a.same_place.2, rounded, sized) in
    (
      free_units after address (usbhc_mem_round size),
      rw contained refl,
      λ k. restored block after units start address a _ _ k here (omega (arith, rounded)),
    )
