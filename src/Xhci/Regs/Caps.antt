-- ===== src/Xhci/Regs/Caps.antt =====
-- XhcGetCapabilityAddr: the walk along the extended capabilities of the controller.
use edk2_adlink_ampere_altra.Base.{
  ℕ, zero, suc, ◌+◌, ◌*◌, ◌/◌, ◌%◌, ◌^◌, ◌≤◌, ◌≡◌, ◌≢◌, refl, sym, true, none, some, List, [], ◌∷◌,
  length, ◌==◌, if◌then◌else◌, bit_and, u8, u32, is_error, arith, bit_and-byte, ==_false,
}
use edk2_adlink_ampere_altra.Xhci.Regs.{
  Bus, Xhc, no_offset, xhc_read_ext_cap_reg, xhc_get_capability_addr,
}

-- The capability id of a register, and the distance to the next capability, in units of four bytes.
abbrev pub id_of : ℕ → ℕ
id_of word = word % 256

abbrev pub next_of : ℕ → ℕ
next_of word = word / 256 % 256

-- The offsets of the list of capabilities that begins at an offset.
pub data Listed (file : ℕ → ℕ) : ℕ → List ℕ → Type 0 where
  last : (offset : ℕ) → next_of (file offset) ≡ 0 → Listed file offset (offset ∷ [])
  more :
      (offset : ℕ) (offsets : List ℕ)
      → next_of (file offset) ≢ 0
      → Listed file (u32 (offset + next_of (file offset) * 4)) offsets
      → Listed file offset (offset ∷ offsets)

abbrev pub first_with : (ℕ → ℕ) → ℕ → List ℕ → ℕ
first_with file cap_id [] = no_offset
first_with file cap_id (offset ∷ offsets) =
    if id_of (file offset) == cap_id then offset else first_with file cap_id offsets

low_byte : (x : ℕ) → u8 (bit_and x 0xFF) ≡ x % 256
low_byte x = omega (arith, bit_and-byte x)

module _ {W : Type 0} (bus : Bus W) (xhc : Xhc) where
  -- XhcGetCapabilityAddr finds the first capability of the list that has the id, or 0xFFFFFFFF if none
  -- has; for registers that a read does not change, and a list that ends, which takes as many rounds
  -- as it has capabilities.
  pub xhc_get_capability_addr-Listed :
      (file : ℕ → ℕ) (fuel cap_id offset : ℕ) (offsets : List ℕ) (w : W)
      → ((place : ℕ) → xhc_read_ext_cap_reg bus xhc place w ≡ (file place, w))
      → Listed file offset offsets
      → length offsets ≤ fuel
      → xhc_get_capability_addr bus xhc fuel cap_id offset w
        ≡ some (first_with file cap_id offsets, w)
  unfolding xhc_get_capability_addr
  xhc_get_capability_addr-Listed file zero cap_id _ _ w reads (last offset end) enough =
      absurd (omega arith)
  xhc_get_capability_addr-Listed file zero cap_id _ _ w reads (more offset offsets on l) enough =
      absurd (omega arith)
  xhc_get_capability_addr-Listed file (suc fuel) cap_id _ _ w reads (last offset end) enough =
      rw (reads offset, bit_and-byte (file offset), low_byte (file offset / 2 ^ 8))
        (ground (arith, end))
  xhc_get_capability_addr-Listed file (suc fuel) cap_id _ _ w reads (more offset offsets on l)
        enough =
      let rest =
        xhc_get_capability_addr-Listed file fuel cap_id _ offsets w reads l (omega arith) in
      rw (reads offset, bit_and-byte (file offset), low_byte (file offset / 2 ^ 8))
        (ground (arith, on, rest))

  -- Where every read fails, as PciIo may report it, XhcGetCapabilityAddr does not end: no number of
  -- rounds is enough for it, for any capability but the id 0xFF.
  pub xhc_get_capability_addr-endless :
      (fuel cap_id offset : ℕ) (w : W)
      → ((place : ℕ) (v : W) → is_error (bus.mem_read place v).0 ≡ true)
      → cap_id ≢ 0xFF
      → xhc_get_capability_addr bus xhc fuel cap_id offset w ≡ none
  unfolding xhc_get_capability_addr xhc_read_ext_cap_reg
  xhc_get_capability_addr-endless zero cap_id offset w fails other = refl
  xhc_get_capability_addr-endless (suc fuel) cap_id offset w fails other =
      rw (fails _ w, ==_false 0xFF cap_id (λ e. other (sym e)))
        (xhc_get_capability_addr-endless fuel cap_id _ _ fails other)
