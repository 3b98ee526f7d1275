-- ===== src/BoardPcie.antt =====
-- Library/BoardPcieLib/BoardPcieLib.c: the segment numbers of the PCIe root complexes. The sizes of
-- the table, PLATFORM_CPU_MAX_SOCKET and AC01_PCIE_MAX_ROOT_COMPLEX, are parameters.
pub mod Segments
use edk2_adlink_ampere_altra.Base.{
  ℕ, ◌+◌, ◌-◌, ◌^◌, ◌%◌, List, [], ◌∷◌, Bool, ◌&&◌, ltb, if◌then◌else◌, get_or, u16, Status,
  success,
}

-- What is read of AC01_ROOT_COMPLEX, two bytes.
pub record RootComplex : Type 0 where
  pub socket : ℕ
  pub id : ℕ

pub record Sizes : Type 0 where
  pub max_socket : ℕ
  pub max_root_complex : ℕ

-- `Ac01BoardSegment`; what its initialiser leaves out is 0.
abbrev pub board_segment : List (List ℕ)
board_segment =
    (0x0C ∷ 0x0D ∷ 0x01 ∷ 0x00 ∷ 0x02 ∷ 0x03 ∷ 0x04 ∷ 0x05 ∷ [])
    ∷ (0x10 ∷ 0x11 ∷ 0x06 ∷ 0x07 ∷ 0x08 ∷ 0x09 ∷ 0x0A ∷ 0x0B ∷ [])
    ∷ []

-- BoardPcieGetSegmentNumber; the last `return` converts an `int` to UINT16.
unfoldable pub board_pcie_get_segment_number : Sizes → RootComplex → ℕ
board_pcie_get_segment_number sizes rc =
    if ltb rc.socket sizes.max_socket && ltb rc.id sizes.max_root_complex
    then get_or (get_or board_segment rc.socket []) rc.id 0
    else u16 (rc.id + 2 ^ 16 - 2)

-- BoardPcieAssertPerst and BoardPcieReleaseAllPerst, which do nothing on this board.
unfoldable pub board_pcie_assert_perst : RootComplex → ℕ → Bool → Status
board_pcie_assert_perst rc pcie_index is_pull_to_high = success

unfoldable pub board_pcie_release_all_perst : {W : Type 0} → ℕ → W → W
board_pcie_release_all_perst socket_id w = w
