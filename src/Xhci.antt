-- ===== src/Xhci.antt =====
-- MdeModulePkg/Bus/Pci/XhciDxe: the parts of the XHCI driver that are modelled.
pub mod Bits
pub mod Dma
pub mod Pool
pub mod MemPool
pub mod Trb
pub mod Ring
pub mod Events
pub mod Regs
pub mod Ports
pub mod Devices
pub mod Transfer
pub mod Urbs
pub mod Exec
pub mod Commands
pub mod Requests
mod Tests
mod PoolTests
mod UrbTests
mod RequestTests
mod DriverTests
