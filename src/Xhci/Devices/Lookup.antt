-- ===== src/Xhci/Devices/Lookup.antt =====
-- Endpoints have device context indices of their own, and a device that has a slot is found.
use edk2_adlink_ampere_altra.Base.{
  ℕ, zero, suc, ◌+◌, ◌≤◌, ◌<◌, ◌≡◌, ◌≢◌, refl, ap, ◌∙◌, Bool, true, not, ◌&&◌, ◌==◌, arith,
  Bool-cases, inl, inr, ◌⊎◌,
}
use edk2_adlink_ampere_altra.Xhci.Devices.{
  Direction, DevContext, is_in, xhc_endpoint_to_dci, slot_steps, xhc_bus_dev_addr_to_slot_id,
}

dci_ge : (a : ℕ) (d : Direction) → a < 16 → 1 ≤ xhc_endpoint_to_dci a d
unfolding xhc_endpoint_to_dci
dci_ge a d small = ground arith

dci_lt : (a : ℕ) (d : Direction) → a < 16 → xhc_endpoint_to_dci a d < 32
unfolding xhc_endpoint_to_dci
dci_lt a d small = ground arith

dci_injective :
    (a b : ℕ) (d e : Direction)
    → a < 16
    → b < 16
    → xhc_endpoint_to_dci a d ≡ xhc_endpoint_to_dci b e
    → (a ≡ b) × ((a ≡ 0) ⊎ (is_in d ≡ is_in e))
unfolding xhc_endpoint_to_dci
dci_injective a b d e small small' same = ground arith

-- XhcEndpointToDci maps endpoint addresses below 16 to indices from 1 to 31, and two of them to the
-- same index only where both are the default control endpoint, or they are the same endpoint, with
-- the same direction as far as it is in or not in.
pub xhc_endpoint_to_dci-injective :
    (a b : ℕ) (d e : Direction)
    → a < 16
    → b < 16
    → (1 ≤ xhc_endpoint_to_dci a d)
      × (xhc_endpoint_to_dci a d < 32)
      × (xhc_endpoint_to_dci a d ≡ xhc_endpoint_to_dci b e
          → (a ≡ b) × ((a ≡ 0) ⊎ (is_in d ≡ is_in e)))
unfolding xhc_endpoint_to_dci
xhc_endpoint_to_dci-injective a b d e small small' =
    (dci_ge a d small, dci_lt a d small, λ same. dci_injective a b d e small small' same)

-- An entry that a lookup takes: in use, with a slot, and accepted by the test.
abbrev pub taken : (DevContext → Bool) → DevContext → Bool
taken test d = d.enabled && (not (d.slot_id == 0) && test d)

taken-slot_id : (test : DevContext → Bool) (d : DevContext) → taken test d ≡ true → d.slot_id ≢ 0
taken-slot_id test d accepted none = ground (arith, accepted, none)

compare_eq : (a b : ℕ) → (a ≡ b) ⊎ (a ≢ b)
compare_eq a b = elim (Bool-cases (a == b)) [
  | inl same ↦ inl (ground (arith, same))
  | inr apart ↦ inr (λ e. ground (arith, apart, e))
]

slot_steps-none :
    (test : DevContext → Bool) (rounds : ℕ) (contexts : ℕ → DevContext) (at n : ℕ)
    → at ≤ n
    → n < at + rounds
    → taken test (contexts n) ≡ true
    → slot_steps test rounds contexts at ≢ 0
unfolding slot_steps
slot_steps-none test zero contexts at n from below it = absurd (omega arith)
slot_steps-none test (suc rounds) contexts at n from below it =
    elim (Bool-cases (taken test (contexts at))) [
      | inl accepted ↦ rw accepted (taken-slot_id test (contexts at) accepted)
      | inr passed ↦ rw passed (
          slot_steps-none test rounds contexts (suc at) n
            (elim (compare_eq at n) [
              | inl here ↦ absurd (ground (arith, it, passed, ap contexts here))
              | inr apart ↦ omega (arith, apart)
            ])
            (omega arith) it)
    ]

slot_steps-some :
    (test : DevContext → Bool) (rounds : ℕ) (contexts : ℕ → DevContext) (at : ℕ)
    → slot_steps test rounds contexts at ≢ 0
    → (n : ℕ) × (at ≤ n)
      × (n < at + rounds)
      × (taken test (contexts n) ≡ true)
      × ((contexts n).slot_id ≡ slot_steps test rounds contexts at)
unfolding slot_steps
slot_steps-some test zero contexts at found = absurd (found refl)
slot_steps-some test (suc rounds) contexts at found = elim (Bool-cases (taken test (contexts at))) [
  | inl accepted ↦ (at, omega arith, omega arith, accepted, rw accepted refl)
  | inr passed ↦
      let (n, from, below, it, its) =
        slot_steps-some test rounds contexts (suc at) (λ none. found (rw passed none)) in
      (n, omega arith, omega arith, it, its ∙ rw passed refl)
]

-- XhcBusDevAddrToSlotId gives the slot of an entry 1 to 255 that is in use, has a slot and has the
-- address, and 0 only where no such entry is there.
pub xhc_bus_dev_addr_to_slot_id-taken :
    (contexts : ℕ → DevContext) (bus_dev_addr : ℕ)
    → let holds = taken (λ d. d.bus_dev_addr == bus_dev_addr) in
      let slot = xhc_bus_dev_addr_to_slot_id contexts bus_dev_addr in
      (slot ≢ 0
        → (n : ℕ) × (1 ≤ n)
          × (n < 256)
          × (holds (contexts n) ≡ true)
          × ((contexts n).slot_id ≡ slot))
      × ((n : ℕ) → 1 ≤ n → n < 256 → holds (contexts n) ≡ true → slot ≢ 0)
unfolding xhc_bus_dev_addr_to_slot_id
xhc_bus_dev_addr_to_slot_id-taken contexts bus_dev_addr =
    let test = λ (d : DevContext). d.bus_dev_addr == bus_dev_addr in
    (
      slot_steps-some test 255 contexts 1,
      λ n from below it. slot_steps-none test 255 contexts 1 n from below it,
    )
