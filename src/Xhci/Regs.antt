-- ===== src/Xhci/Regs.antt =====
-- MdeModulePkg/Bus/Pci/XhciDxe/XhciReg.c: the registers of the controller. PciIo and the timer of the
-- boot services are parameters. Assertions and DEBUG are not modelled.
pub mod Caps
use edk2_adlink_ampere_altra.Base.{
  ℕ, zero, suc, ◌+◌, ◌-◌, ◌*◌, ◌/◌, ◌%◌, ◌^◌, Bool, true, false, not, ◌||◌, ◌&&◌, Option, none,
  some, ◌==◌, if◌then◌else◌, bit_and, bit_or, u8, u32, Status, success, timed_out, is_error,
}

-- What the driver calls: PciIo's 32-bit accesses to the memory of the controller (the status, and the
-- data of a read), its read of the PCI command register, Stall, and the timer event of a wait.
pub record Bus (W : Type 0) : Type 0 where
  pub mem_read : ℕ → W → Status × ℕ × W
  pub mem_write : ℕ → ℕ → W → Status × W
  pub read_command : W → Status × ℕ × W
  pub stall : ℕ → W → W
  pub create_event : W → Status × W
  pub set_timer : ℕ → W → Status × W
  pub check_event : W → Status × W
  pub close_event : W → W

-- The fields of USB_XHCI_INSTANCE that these functions read.
pub record Xhc : Type 0 where
  pub cap_length : ℕ
  pub db_off : ℕ
  pub rts_off : ℕ
  pub ext_cap_reg_base : ℕ
  pub usb_leg_sup_offset : ℕ
  pub debug_cap_sup_offset : ℕ
  pub max_ports : ℕ

-- `~Bit` of 32 bits
abbrev pub not32 : ℕ → ℕ
not32 bit = 2 ^ 32 - 1 - bit

-- XHC_BIT_IS_SET
abbrev pub xhc_bit_is_set : ℕ → ℕ → Bool
xhc_bit_is_set word bit = bit_and word bit == bit

abbrev pub no_offset : ℕ
no_offset = 0xFFFFFFFF

-- XHC_USBCMD_OFFSET, XHC_USBSTS_OFFSET, XHC_USBCMD_RUN, XHC_USBCMD_HSEE,
-- XHC_USBSTS_HALT, XHC_USBSTS_HSE
abbrev pub usbcmd_offset : ℕ
usbcmd_offset = 0

abbrev pub usbsts_offset : ℕ
usbsts_offset = 4

abbrev pub usbcmd_run : ℕ
usbcmd_run = 1

abbrev pub usbcmd_hsee : ℕ
usbcmd_hsee = 8

abbrev pub usbsts_halt : ℕ
usbsts_halt = 1

abbrev pub usbsts_hse : ℕ
usbsts_hse = 4

-- USBLEGSP_BIOS_SEMAPHORE, USBLEGSP_OS_SEMAPHORE and EFI_PCI_COMMAND_SERR
abbrev pub bios_semaphore : ℕ
bios_semaphore = 0x10000

abbrev pub os_semaphore : ℕ
os_semaphore = 0x1000000

abbrev pub command_serr : ℕ
command_serr = 0x100

module _ {W : Type 0} (bus : Bus W) where
  open bus use {
    mem_read, mem_write, read_command, stall, create_event, set_timer, check_event, close_event,
  }

  -- A read that failed gives all ones.
  unfoldable pub read_at : ℕ → W → ℕ × W
  read_at place w =
      let (status, word, w') = mem_read place w in
      (if is_error status then 0xFFFFFFFF else word, w')

  module _ (xhc : Xhc) where
    open xhc use {
      cap_length, db_off, rts_off, ext_cap_reg_base, usb_leg_sup_offset, debug_cap_sup_offset,
    }

    -- XhcReadCapReg
    unfoldable pub xhc_read_cap_reg : ℕ → W → ℕ × W
    unfolding read_at
    xhc_read_cap_reg offset w = read_at offset w

    -- XhcReadOpReg and XhcWriteOpReg
    unfoldable pub xhc_read_op_reg : ℕ → W → ℕ × W
    unfolding read_at
    xhc_read_op_reg offset w = read_at (u32 (cap_length + offset)) w

    unfoldable pub xhc_write_op_reg : ℕ → ℕ → W → W
    xhc_write_op_reg offset word w = (mem_write (u32 (cap_length + offset)) word w).1

    -- XhcWriteDoorBellReg
    unfoldable pub xhc_write_door_bell_reg : ℕ → ℕ → W → W
    xhc_write_door_bell_reg offset word w = (mem_write (u32 (db_off + offset)) word w).1

    -- XhcReadRuntimeReg and XhcWriteRuntimeReg
    unfoldable pub xhc_read_runtime_reg : ℕ → W → ℕ × W
    unfolding read_at
    xhc_read_runtime_reg offset w = read_at (u32 (rts_off + offset)) w

    unfoldable pub xhc_write_runtime_reg : ℕ → ℕ → W → W
    xhc_write_runtime_reg offset word w = (mem_write (u32 (rts_off + offset)) word w).1

    -- XhcReadExtCapReg and XhcWriteExtCapReg
    unfoldable pub xhc_read_ext_cap_reg : ℕ → W → ℕ × W
    unfolding read_at
    xhc_read_ext_cap_reg offset w = read_at (u32 (ext_cap_reg_base + offset)) w

    unfoldable pub xhc_write_ext_cap_reg : ℕ → ℕ → W → W
    xhc_write_ext_cap_reg offset word w = (mem_write (u32 (ext_cap_reg_base + offset)) word w).1

    -- XhcSetRuntimeRegBit and XhcClearRuntimeRegBit
    unfoldable pub xhc_set_runtime_reg_bit : ℕ → ℕ → W → W
    unfolding xhc_read_runtime_reg xhc_write_runtime_reg
    xhc_set_runtime_reg_bit offset bit w =
        let (word, w') = xhc_read_runtime_reg offset w in
        xhc_write_runtime_reg offset (bit_or word bit) w'

    unfoldable pub xhc_clear_runtime_reg_bit : ℕ → ℕ → W → W
    unfolding xhc_read_runtime_reg xhc_write_runtime_reg
    xhc_clear_runtime_reg_bit offset bit w =
        let (word, w') = xhc_read_runtime_reg offset w in
        xhc_write_runtime_reg offset (bit_and word (not32 bit)) w'

    -- XhcSetOpRegBit and XhcClearOpRegBit
    unfoldable pub xhc_set_op_reg_bit : ℕ → ℕ → W → W
    unfolding xhc_read_op_reg xhc_write_op_reg
    xhc_set_op_reg_bit offset bit w =
        let (word, w') = xhc_read_op_reg offset w in xhc_write_op_reg offset (bit_or word bit) w'

    unfoldable pub xhc_clear_op_reg_bit : ℕ → ℕ → W → W
    unfolding xhc_read_op_reg xhc_write_op_reg
    xhc_clear_op_reg_bit offset bit w =
        let (word, w') = xhc_read_op_reg offset w in
        xhc_write_op_reg offset (bit_and word (not32 bit)) w'

    -- XHC_REG_BIT_IS_SET, on the word that is read
    unfoldable pub xhc_reg_bit_is_set : ℕ → ℕ → W → Bool × W
    unfolding xhc_read_op_reg
    xhc_reg_bit_is_set offset bit w =
        let (word, w') = xhc_read_op_reg offset w in (xhc_bit_is_set word bit, w')

    -- The loop of XhcWaitOpRegBit. The timer ends it, so it has fuel: `none` means that it ran out.
    unfoldable pub wait_steps : ℕ → ℕ → ℕ → Bool → W → Option (Status × W)
    unfolding xhc_reg_bit_is_set
    wait_steps zero offset bit wait_to_set w = none
    wait_steps (suc fuel) offset bit wait_to_set w =
        let (is_set, w₁) = xhc_reg_bit_is_set offset bit w in
        let (expired, w₂) = check_event (stall 1 w₁) in
        let rest = wait_steps fuel offset bit wait_to_set w₂ in
        if (if wait_to_set then is_set else not is_set)
        then some (success, w₁)
        else if is_error expired
        then rest
        else some (timed_out, w₂)

    abbrev closed : Option (Status × W) → Option (Status × W)
    closed none = none
    closed (some (status, w)) = some (status, close_event w)

    -- XhcWaitOpRegBit. The event is closed where it was created.
    unfoldable pub xhc_wait_op_reg_bit : ℕ → ℕ → ℕ → Bool → ℕ → W → Option (Status × W)
    unfolding wait_steps
    xhc_wait_op_reg_bit fuel offset bit wait_to_set timeout w =
        let (created, w₁) = create_event w in
        let (timed, w₂) = set_timer timeout w₁ in
        let waited = closed (wait_steps fuel offset bit wait_to_set w₂) in
        if timeout == 0
        then some (timed_out, w)
        else if is_error created
        then some (created, w₁)
        else if is_error timed
        then some (timed, close_event w₂)
        else waited

    -- XhcSetBiosOwnership and XhcClearBiosOwnership
    unfoldable pub xhc_set_bios_ownership : W → W
    unfolding xhc_read_ext_cap_reg xhc_write_ext_cap_reg
    xhc_set_bios_ownership w =
        let (buffer, w') = xhc_read_ext_cap_reg usb_leg_sup_offset w in
        if usb_leg_sup_offset == no_offset
        then w
        else xhc_write_ext_cap_reg usb_leg_sup_offset
            (bit_or (bit_and buffer (not32 os_semaphore)) bios_semaphore) w'

    unfoldable pub xhc_clear_bios_ownership : W → W
    unfolding xhc_read_ext_cap_reg xhc_write_ext_cap_reg
    xhc_clear_bios_ownership w =
        let (buffer, w') = xhc_read_ext_cap_reg usb_leg_sup_offset w in
        if usb_leg_sup_offset == no_offset
        then w
        else xhc_write_ext_cap_reg usb_leg_sup_offset
            (bit_or (bit_and buffer (not32 bios_semaphore)) os_semaphore) w'

    -- XhcGetCapabilityAddr, from an offset on. `none` means that the fuel ran out.
    unfoldable pub xhc_get_capability_addr : ℕ → ℕ → ℕ → W → Option (ℕ × W)
    xhc_get_capability_addr zero cap_id offset w = none
    xhc_get_capability_addr (suc fuel) cap_id offset w =
        let (word, w') = xhc_read_ext_cap_reg offset w in
        let next = u8 (bit_and (word / 2 ^ 8) 0xFF) in
        let rest = xhc_get_capability_addr fuel cap_id (u32 (offset + next * 4)) w' in
        if bit_and word 0xFF == cap_id
        then some (offset, w')
        else if next == 0
        then some (no_offset, w')
        else rest

    -- XhcIsHalt and XhcIsSysError
    unfoldable pub xhc_is_halt : W → Bool × W
    unfolding xhc_reg_bit_is_set
    xhc_is_halt w = xhc_reg_bit_is_set usbsts_offset usbsts_halt w

    unfoldable pub xhc_is_sys_error : W → Bool × W
    unfolding xhc_reg_bit_is_set
    xhc_is_sys_error w = xhc_reg_bit_is_set usbsts_offset usbsts_hse w

    -- XhcSetHsee
    unfoldable pub xhc_set_hsee : W → W
    unfolding xhc_set_op_reg_bit
    xhc_set_hsee w =
        let (status, command, w') = read_command w in
        if is_error status
        then w'
        else if bit_and command command_serr == 0
        then w'
        else xhc_set_op_reg_bit usbcmd_offset usbcmd_hsee w'

    -- XhcHaltHC and XhcRunHC
    unfoldable pub xhc_halt_hc : ℕ → ℕ → W → Option (Status × W)
    unfolding xhc_clear_op_reg_bit xhc_wait_op_reg_bit
    xhc_halt_hc fuel timeout w =
        xhc_wait_op_reg_bit fuel usbsts_offset usbsts_halt true timeout
          (xhc_clear_op_reg_bit usbcmd_offset usbcmd_run w)

    unfoldable pub xhc_run_hc : ℕ → ℕ → W → Option (Status × W)
    unfolding xhc_set_op_reg_bit xhc_wait_op_reg_bit
    xhc_run_hc fuel timeout w =
        xhc_wait_op_reg_bit fuel usbsts_offset usbsts_halt false timeout
          (xhc_set_op_reg_bit usbcmd_offset usbcmd_run w)
