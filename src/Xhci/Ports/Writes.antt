-- ===== src/Xhci/Ports/Writes.antt =====
-- What XhcClearRootHubPortFeature writes to the register of the port.
use edk2_adlink_ampere_altra.Base.{
  ℕ, suc, ◌+◌, ◌^◌, ◌≡◌, refl, ap, false, List, [], ◌∷◌, leb, if◌then◌else◌, bit_and, bit_or, u32,
  Bool-cases, inl, inr,
}
use edk2_adlink_ampere_altra.Xhci.Regs.{Bus, Xhc, not32, xhc_read_op_reg, xhc_write_op_reg, read_at}
use edk2_adlink_ampere_altra.Xhci.Ports.{
  PortFeature, portsc_ped, portsc_reset, portsc_pls, portsc_lws, portsc_csc, portsc_pec, portsc_occ,
  portsc_prc, change_bits, portsc_offset, xhc_clear_root_hub_port_feature,
}
use edk2_adlink_ampere_altra.Xhci.Ports.Masks.{
  Agree, bit_and-Agree, bit_or-Agree, keep-Agree, apart-Agree, Agree-trans,
}

-- The same bus, with every write to the memory of the controller on record, the last first.
abbrev pub logging : {W : Type 0} → Bus W → Bus (W × List (ℕ × ℕ))
logging bus = record {
  mem_read =
      λ place w. let (status, word, w') = bus.mem_read place w.0 in (status, word, (w', w.1));
  mem_write = λ place word w.
      let (status, w') = bus.mem_write place word w.0 in (status, (w', (place, word) ∷ w.1));
  read_command = λ w. let (status, word, w') = bus.read_command w.0 in (status, word, (w', w.1));
  stall = λ time w. (bus.stall time w.0, w.1);
  create_event = λ w. let (status, w') = bus.create_event w.0 in (status, (w', w.1));
  set_timer = λ timeout w. let (status, w') = bus.set_timer timeout w.0 in (status, (w', w.1));
  check_event = λ w. let (status, w') = bus.check_event w.0 in (status, (w', w.1));
  close_event = λ w. (bus.close_event w.0, w.1);
}

-- The digits of the register that a write of one clears: the enable flag, and the changes from bit 17
-- to bit 23.
abbrev pub one_clears : ℕ
one_clears = 2 ^ 1 + 2 ^ 17 + 2 ^ 18 + 2 ^ 19 + 2 ^ 20 + 2 ^ 21 + 2 ^ 22 + 2 ^ 23

-- The digit among one_clears that clearing a feature is for.
abbrev pub own_bit : PortFeature → ℕ
own_bit PortFeature.enable = portsc_ped
own_bit PortFeature.connect_change = portsc_csc
own_bit PortFeature.enable_change = portsc_pec
own_bit PortFeature.over_current_change = portsc_occ
own_bit PortFeature.reset_change = portsc_prc
own_bit _ = 0

-- So many writes, all to one place, each of which sets the digit `own` of one_clears and no other.
pub data Sparing (place own : ℕ) : ℕ → List (ℕ × ℕ) → Type 0 where
  done : Sparing place own 0 []
  written :
      (n v : ℕ) (rest : List (ℕ × ℕ))
      → Agree one_clears v own
      → Sparing place own n rest
      → Sparing place own (suc n) ((place, v) ∷ rest)

-- How many writes a feature takes.
abbrev pub writes_of : PortFeature → ℕ
writes_of PortFeature.enable = 1
writes_of PortFeature.suspend = 2
writes_of PortFeature.connect_change = 1
writes_of PortFeature.enable_change = 1
writes_of PortFeature.over_current_change = 1
writes_of PortFeature.reset_change = 1
writes_of _ = 0

masked-Agree : (word : ℕ) → Agree one_clears (bit_and word (not32 change_bits)) 0
masked-Agree word = bit_and-Agree one_clears word (not32 change_bits) refl

strobed-Agree :
    (word : ℕ) → Agree one_clears (bit_or (bit_and word (not32 change_bits)) portsc_lws) 0
strobed-Agree word =
    let state = bit_and word (not32 change_bits) in
    Agree-trans one_clears (bit_or state portsc_lws) portsc_lws 0
      (bit_or-Agree one_clears state portsc_lws (masked-Agree word))
      (apart-Agree one_clears portsc_lws refl)

own-Agree : (word bit : ℕ) → Agree one_clears (bit_or (bit_and word (not32 change_bits)) bit) bit
own-Agree word bit =
    bit_or-Agree one_clears (bit_and word (not32 change_bits)) bit (masked-Agree word)

enable-Agree :
    (word : ℕ)
    → Agree one_clears
        (bit_and (bit_or (bit_and word (not32 change_bits)) portsc_ped) (not32 portsc_reset))
        portsc_ped
enable-Agree word =
    keep-Agree one_clears (bit_or (bit_and word (not32 change_bits)) portsc_ped) portsc_ped
      (not32 portsc_reset) refl (own-Agree word portsc_ped)

suspend-Agree :
    (word : ℕ)
    → Agree one_clears
        (bit_and (bit_or (bit_and word (not32 change_bits)) portsc_lws) (not32 portsc_pls))
        0
suspend-Agree word =
    keep-Agree one_clears (bit_or (bit_and word (not32 change_bits)) portsc_lws) 0
      (not32 portsc_pls) refl (strobed-Agree word)

module _ {W : Type 0} (bus : Bus W) (xhc : Xhc) where
  abbrev at_port : ℕ → ℕ
  at_port port = u32 (xhc.cap_length + portsc_offset port)

  abbrev word_at : ℕ → W → ℕ
  word_at port w = (xhc_read_op_reg bus xhc (portsc_offset port) w).0

  in_range-Sparing :
      (port : ℕ) (feature : PortFeature) (w : W)
      → leb xhc.max_ports port ≡ false
      → Sparing
          (at_port port)
          (own_bit feature)
          (writes_of feature)
          (xhc_clear_root_hub_port_feature (logging bus) xhc port feature (w, [])).1.1
  unfolding xhc_clear_root_hub_port_feature xhc_read_op_reg xhc_write_op_reg read_at
  in_range-Sparing port PortFeature.enable w within =
      rw within (written 0 _ [] (enable-Agree (word_at port w)) done)
  in_range-Sparing port PortFeature.suspend w within = rw within (
      written 1 _ _ (suspend-Agree (word_at port w))
        (written 0 _ [] (strobed-Agree (word_at port w)) done))
  in_range-Sparing port PortFeature.reset w within = rw within done
  in_range-Sparing port PortFeature.power w within = rw within done
  in_range-Sparing port PortFeature.owner w within = rw within done
  in_range-Sparing port PortFeature.connect_change w within =
      rw within (written 0 _ [] (own-Agree (word_at port w) portsc_csc) done)
  in_range-Sparing port PortFeature.enable_change w within =
      rw within (written 0 _ [] (own-Agree (word_at port w) portsc_pec) done)
  in_range-Sparing port PortFeature.suspend_change w within = rw within done
  in_range-Sparing port PortFeature.over_current_change w within =
      rw within (written 0 _ [] (own-Agree (word_at port w) portsc_occ) done)
  in_range-Sparing port PortFeature.reset_change w within =
      rw within (written 0 _ [] (own-Agree (word_at port w) portsc_prc) done)
  in_range-Sparing port PortFeature.unknown w within = rw within done

  -- XhcClearRootHubPortFeature writes to the register of its port alone, as often as the feature
  -- takes, and not at all where the port is out of range. Of the bits that a write of one clears, each
  -- word has the feature's own and no other: no change of the port is lost by clearing another.
  pub xhc_clear_root_hub_port_feature-Sparing :
      (port : ℕ) (feature : PortFeature) (w : W)
      → Sparing
          (at_port port)
          (own_bit feature)
          (if leb xhc.max_ports port then 0 else writes_of feature)
          (xhc_clear_root_hub_port_feature (logging bus) xhc port feature (w, [])).1.1
  unfolding xhc_clear_root_hub_port_feature
  xhc_clear_root_hub_port_feature-Sparing port feature w =
      elim (Bool-cases (leb xhc.max_ports port)) [
        | inl out_of_range ↦ rw out_of_range done
        | inr within ↦
            rw (ap (λ t. if t then 0 else writes_of feature) within)
              (in_range-Sparing port feature w within)
      ]
