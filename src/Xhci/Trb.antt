-- ===== src/Xhci/Trb.antt =====
-- MdeModulePkg/Bus/Pci/XhciDxe/XhciSched.h: transfer request blocks. The layouts of a block that
-- overlay TRB_TEMPLATE are read through the fields of the template.
use edk2_adlink_ampere_altra.Base.{ℕ, ◌%◌, ◌==◌, if◌then◌else◌, Bool}

-- TRB_TEMPLATE
pub record Trb : Type 0 where
  pub parameter1 : ℕ
  pub parameter2 : ℕ
  pub status : ℕ
  pub cycle_bit : ℕ
  pub rsvd_z1 : ℕ
  pub type : ℕ
  pub control : ℕ

-- TRB_TYPE_LINK
abbrev pub trb_type_link : ℕ
trb_type_link = 6

abbrev pub zero_trb : Trb
zero_trb = record {
  parameter1 = 0;
  parameter2 = 0;
  status = 0;
  cycle_bit = 0;
  rsvd_z1 = 0;
  type = 0;
  control = 0;
}

-- `RingPCS & BIT0`, and `(RingPCS & BIT0) ? 0 : 1`
abbrev pub bit0 : ℕ → ℕ
bit0 n = n % 2

abbrev pub toggled : ℕ → ℕ
toggled pcs = if bit0 pcs == 0 then 1 else 0

-- A block with the cycle bit set to `c`.
abbrev pub stamp : ℕ → Trb → Trb
stamp c t = record t { cycle_bit = c }

abbrev pub is_link : Trb → Bool
is_link t = t.type == trb_type_link
