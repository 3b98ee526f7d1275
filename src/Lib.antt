-- ===== src/Lib.antt =====
-- Firmware of the ADLINK Ampere Altra boards (EDK II modules in C), and what is proved of it.
--
-- The parts and how they interact. The status code drivers record progress codes and print them
-- (MdeModulePkg/Universal/StatusCodeHandler); each code is also sent as a POST code by
-- Library/PostCodeLibMmc, through Library/MmcLib, as a frame over a UART to the management controller
-- (MMC). The PEI module leaves its records in a HOB, which the DXE driver replays to its own workers.
-- The drivers of Drivers/MmcSetPowerOffType and the sensor readings use the same UART; some commands
-- depend on the board version of Library/NVLib. Library/PCF8563RealTimeClockLib is the real time clock,
-- Library/OemMiscLib and Library/BoardPcieLib describe the processors and the PCIe segments, and
-- Application/FwUi asks for the firmware's setup.
--
-- Which file models which part:
--   Base          shared names, tests, lists, machine words, status codes, and rotated lists
--   Print         what the code uses of PrintLib
--   StatusCode    Journal: MemoryStausCodeWorker.c (pei_*) and MemoryStatusCodeWorker.c (rt_*);
--                 Serial: the two files SerialStatusCodeWorker.c; Dispatch: StatusCodeHandlerPei.c and
--                 StatusCodeHandlerRuntimeDxe.c
--   PostCode      Library/PostCodeLibMmc/PostCode.c
--   Mmc           Library/MmcLib/MmcLib.c and Library/NVLib/NVLib.c; Sensors: the sensor readings
--   PowerOff      Drivers/MmcSetPowerOffType, both modules
--   Rtc           Types: state and parameters; Bcd and Chip: PCF8563.c;
--                 Clock: PCF8563RealTimeClockLib.c
--   BoardPcie     Library/BoardPcieLib/BoardPcieLib.c
--   OemMisc       Library/OemMiscLib/OemMiscLib.c
--   FwUi          Application/FwUi/FwUi.c
--   Xhci          MdeModulePkg/Bus/Pci/XhciDxe; Bits: the macros of UsbHcMem.h;
--                 Pool, MemPool and Dma: the allocator of a block, the pool and the aligned pages of
--                 UsbHcMem.c; Trb, Ring and Events: the blocks and the rings of XhciSched.h and
--                 XhciSched.c; Devices and Transfer: the lookups of slots and XhcCreateTransferTrb of
--                 XhciSched.c; Urbs, Exec and Commands: XhcCheckUrbResult, XhcExecTransfer and the
--                 commands for endpoints of XhciSched.c; Requests: XhcTransfer and its callers in
--                 Xhci.c; Regs: XhciReg.c; Ports: the root hub of Xhci.c
--   Tests and the modules Tests below the parts hold runs and instances of the theorems.
--
-- A definition has the name of its C function in lower case with underscores. Code that is not in the
-- repository (I2cLib, GpioLib, PL011UartLib, NVParamLib, TimeBaseLib, PrintLib, AmpereCpuLib, the
-- variable services and so on) is a field of a record over an abstract world W; a call takes the world
-- and returns it. What a theorem needs of such code is a named record of laws among its hypotheses, and
-- the test modules have an instance of each.
--
-- The XHCI driver shares rings in memory with the controller. A ring is a list of blocks, a pointer
-- into it is a place in that list, and an access past the list is `none`. The controller's side of a
-- transfer ring (Ring/Delivery) and what it has written to the event ring (Events/Drained) are stated
-- as the xHCI specification has them: a block is taken by its cycle bit, and a link by its own.
-- XhcCreateTransferTrb finds the ring by slot and device context index and writes blocks to it.
-- A request (URB) is a number, its address; XhcCheckUrbResult changes the states of the requests by the
-- events, whose addresses on the bus the memory pool translates. XhcExecTransfer calls it in a loop,
-- XhcCmdTransfer calls XhcExecTransfer for a block on the command ring, and XhcTransfer for the blocks of
-- a transfer. Time and what the controller has written to memory are part of the world.
--
-- Numbers are natural numbers, and each store into a machine word keeps its low bits. What an array
-- holds before it is written is a parameter, so that uninitialised memory can be told apart. A copy
-- outside of an array, an access through NULL and a NULL that is freed are results of their own.
--
-- Bounds and fuel. The wait of the real time clock has fuel 1001, one more than its timeout of
-- 100000 microseconds has steps of 100; LibGetTime has fuel 2, since it calls itself with the saved
-- epoch cleared, which it then does not do again. The search for free units has one step more than
-- the block has bits, and each step goes to the next bit. The loops over a ring have as many rounds as
-- the ring has blocks, as in the code; that over the data of a transfer has as many as there are bytes,
-- of which each round takes at least one. The wait for a register bit ends by a timer, and the walk
-- along the capabilities by the controller's registers, so that both have fuel, and `none` means that
-- it ran out. The loop of XhcExecTransfer ends by a timer too; fuel above the time that the timer has is
-- enough for it. The 16-bit indices of the HOB and the
-- 32-bit counters of the table are written out; histories that are long enough to wrap them are
-- outside the theorems. The sizes and the numbers of pages of the XHCI driver's memory pool wrap at
-- 64 bits as the code's do, and the theorems say for which of them they hold.
--
-- Not modelled: DEBUG and Print output, assertions, the conversion of pointers to virtual
-- addresses, event registration beyond its status, Application/BoardVersion and Drivers/GpioInitDxe
-- (one call each). Of the XHCI driver: the commands for slots and their contexts, the asynchronous
-- requests, the polling of ports, the reset of the controller, and control transfers, which call these.
-- ACPI tables, build files and tools have no behaviour to model.
pub mod Base
pub mod StatusCode
pub mod Rtc
pub mod Print
pub mod Mmc
pub mod PostCode
pub mod PowerOff
pub mod BoardPcie
pub mod OemMisc
pub mod FwUi
mod Tests
pub mod Xhci
