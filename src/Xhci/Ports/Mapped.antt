-- ===== src/Xhci/Ports/Mapped.antt =====
-- What XhcGetRootHubPortStatus stores, bit by bit.
use edk2_adlink_ampere_altra.Base.{
  ℕ, ◌/◌, ◌%◌, ◌^◌, ◌≡◌, ap, ◌∙◌, Bool, true, false, ◌&&◌, ◌||◌, ◌==◌, bit_and, arith, bit_at,
  bit_at-zero, bit_at-bit_or, bit_and-pow2, halves, halves-bit_and, bit_and-nibble,
}
use edk2_adlink_ampere_altra.Xhci.Ports.{
  usb_port_state_map, usb_port_change_map, apply_map, speed_status, port_status, port_change_status,
}
use edk2_adlink_ampere_altra.Xhci.Ports.Masks.{sets, bit_at-apply_map}

-- The link state and the speed of the port, as the specification places them.
abbrev pub link_state : ℕ → ℕ
link_state state = state / 2 ^ 5 % 2 ^ 4

abbrev pub port_speed : ℕ → ℕ
port_speed state = state / 2 ^ 10 % 2 ^ 4

link_state_read : (state : ℕ) → bit_and state 0x1E0 / 2 ^ 5 ≡ link_state state
link_state_read state = omega (arith, halves-bit_and 5 state 15, bit_and-nibble (halves 5 state))

port_speed_read : (state : ℕ) → bit_and state 0x3C00 / 2 ^ 10 ≡ port_speed state
port_speed_read state = omega (arith, halves-bit_and 10 state 15, bit_and-nibble (halves 10 state))

-- What the register says of the port, in the bits of the UEFI port status.
pub record IsPortStatus (state : ℕ) (status : ℕ) : Type 0 where
  pub connection : bit_at 0 status ≡ bit_at 0 state
  pub enabled : bit_at 1 status ≡ bit_at 1 state
  pub suspended : bit_at 2 status ≡ (link_state state == 3)
  pub overcurrent : bit_at 3 status ≡ bit_at 3 state
  pub reset : bit_at 4 status ≡ bit_at 4 state
  pub low_speed : bit_at 9 status ≡ (port_speed state == 2)
  pub high_speed : bit_at 10 status ≡ (port_speed state == 3)
  pub super_speed : bit_at 11 status ≡ (port_speed state == 4 || port_speed state == 5)

pub record IsPortChange (state : ℕ) (change : ℕ) : Type 0 where
  pub connection : bit_at 0 change ≡ bit_at 17 state
  pub enabled : bit_at 1 change ≡ bit_at 18 state
  pub overcurrent : bit_at 3 change ≡ bit_at 20 state
  pub reset : bit_at 4 change ≡ bit_at 21 state

-- Of four entries that set different digits, the first, the second, the third and the last.
select_first :
    (a b c d : Bool) → (a && true || (b && false || (c && false || (d && false || false)))) ≡ a
select_first a b c d = ground arith

select_second :
    (a b c d : Bool) → (a && false || (b && true || (c && false || (d && false || false)))) ≡ b
select_second a b c d = ground arith

select_third :
    (a b c d : Bool) → (a && false || (b && false || (c && true || (d && false || false)))) ≡ c
select_third a b c d = ground arith

select_last :
    (a b c d : Bool) → (a && false || (b && false || (c && false || (d && true || false)))) ≡ d
select_last a b c d = ground arith

port_change_status-IsPortChange : (state : ℕ) → IsPortChange state (port_change_status state)
unfolding port_change_status
port_change_status-IsPortChange state =
    let set = λ (n : ℕ). bit_and state (2 ^ n) == 2 ^ n in
    record {
      connection =
          bit_at-apply_map usb_port_change_map state 0 0
          ∙ select_first (set 17) (set 18) (set 20) (set 21)
          ∙ bit_and-pow2 17 state;
      enabled =
          bit_at-apply_map usb_port_change_map state 0 1
          ∙ select_second (set 17) (set 18) (set 20) (set 21)
          ∙ bit_and-pow2 18 state;
      overcurrent =
          bit_at-apply_map usb_port_change_map state 0 3
          ∙ select_third (set 17) (set 18) (set 20) (set 21)
          ∙ bit_and-pow2 20 state;
      reset =
          bit_at-apply_map usb_port_change_map state 0 4
          ∙ select_last (set 17) (set 18) (set 20) (set 21)
          ∙ bit_and-pow2 21 state;
    }

-- The digit of the suspend flag is added to the others.
suspend_digit :
    (state k : ℕ)
    → bit_at k (port_status state) ≡ (
        bit_at k (speed_status state)
        || sets usb_port_state_map state k
        || (link_state state == 3 && bit_at k 0x4))
unfolding port_status
suspend_digit state k = ground (
  arith,
  link_state_read state,
  bit_at-apply_map usb_port_state_map state (speed_status state) k,
  bit_at-bit_or k (apply_map usb_port_state_map state (speed_status state)) 0x4,
)

speed_digit :
    (state k : ℕ)
    → bit_at k (speed_status state) ≡ (
        port_speed state == 2 && bit_at k 0x200
        || (port_speed state == 3 && bit_at k 0x400
            || ((port_speed state == 4 || port_speed state == 5) && bit_at k 0x800)))
unfolding speed_status
speed_digit state k = ground (arith, port_speed_read state, bit_at-zero k)

-- A digit of the port status, from the digits that set it.
status_digit :
    (state k : ℕ)
    → bit_at k (port_status state) ≡ (
        (port_speed state == 2 && bit_at k 0x200
          || (port_speed state == 3 && bit_at k 0x400
              || ((port_speed state == 4 || port_speed state == 5) && bit_at k 0x800)))
        || sets usb_port_state_map state k
        || (link_state state == 3 && bit_at k 0x4))
status_digit state k =
    suspend_digit state k
    ∙ ap (λ t. t || sets usb_port_state_map state k || (link_state state == 3 && bit_at k 0x4))
        (speed_digit state k)

-- A digit that no speed sets, and a digit that speeds and nothing else set.
state_digit :
    (a b c l t : Bool) → ((a && false || (b && false || (c && false))) || t || (l && false)) ≡ t
state_digit a b c l t = ground arith

suspended_digit :
    (a b c l p₀ p₁ p₂ p₃ : Bool)
    → ((a && false || (b && false || (c && false)))
        || (p₀ && false || (p₁ && false || (p₂ && false || (p₃ && false || false))))
        || (l && true))
      ≡ l
suspended_digit a b c l p₀ p₁ p₂ p₃ = ground arith

-- A digit that one speed sets, where no entry of the state map sets it.
speed_second :
    (a b c l e : Bool)
    → e ≡ false
    → ((a && true || (b && false || (c && false))) || e || (l && false)) ≡ a
speed_second a b c l e none = ground arith

speed_third :
    (a b c l e : Bool)
    → e ≡ false
    → ((a && false || (b && true || (c && false))) || e || (l && false)) ≡ b
speed_third a b c l e none = ground arith

speed_last :
    (a b c l e : Bool)
    → e ≡ false
    → ((a && false || (b && false || (c && true))) || e || (l && false)) ≡ c
speed_last a b c l e none = ground arith

select_none :
    (a b c d : Bool) → (a && false || (b && false || (c && false || (d && false || false)))) ≡ false
select_none a b c d = ground arith

port_status-IsPortStatus : (state : ℕ) → IsPortStatus state (port_status state)
port_status-IsPortStatus state =
    let low = port_speed state == 2 in
    let high = port_speed state == 3 in
    let super = port_speed state == 4 || port_speed state == 5 in
    let asleep = link_state state == 3 in
    let set = λ (n : ℕ). bit_and state (2 ^ n) == 2 ^ n in
    let entries = λ (k : ℕ). sets usb_port_state_map state k in
    let none = select_none (set 0) (set 1) (set 3) (set 4) in
    record {
      connection =
          status_digit state 0
          ∙ state_digit low high super asleep (entries 0)
          ∙ select_first (set 0) (set 1) (set 3) (set 4)
          ∙ bit_and-pow2 0 state;
      enabled =
          status_digit state 1
          ∙ state_digit low high super asleep (entries 1)
          ∙ select_second (set 0) (set 1) (set 3) (set 4)
          ∙ bit_and-pow2 1 state;
      suspended =
          status_digit state 2
          ∙ suspended_digit low high super asleep (set 0) (set 1) (set 3) (set 4);
      overcurrent =
          status_digit state 3
          ∙ state_digit low high super asleep (entries 3)
          ∙ select_third (set 0) (set 1) (set 3) (set 4)
          ∙ bit_and-pow2 3 state;
      reset =
          status_digit state 4
          ∙ state_digit low high super asleep (entries 4)
          ∙ select_last (set 0) (set 1) (set 3) (set 4)
          ∙ bit_and-pow2 4 state;
      low_speed = status_digit state 9 ∙ speed_second low high super asleep (entries 9) none;
      high_speed = status_digit state 10 ∙ speed_third low high super asleep (entries 10) none;
      super_speed = status_digit state 11 ∙ speed_last low high super asleep (entries 11) none;
    }

-- The port status and the port change status that XhcGetRootHubPortStatus stores say what the register
-- of the port says: connection, enable, over-current and reset and their changes bit by bit, suspend
-- for link state 3, low, high and super speed for the speeds 2, 3, and 4 or 5.
pub port_status-port_change_status :
    (state : ℕ)
    → IsPortStatus state (port_status state) × IsPortChange state (port_change_status state)
port_status-port_change_status state =
    (port_status-IsPortStatus state, port_change_status-IsPortChange state)
