-- ===== src/Rtc.antt =====
-- Library/PCF8563RealTimeClockLib: the real time clock of the board, a PCF8563 behind an I2C bus.
-- Bcd holds the register encoding, Chip the access to the chip (PCF8563.c), and Clock the runtime
-- services on top of it (PCF8563RealTimeClockLib.c).
pub mod Types
pub mod Bcd
pub mod Chip
pub mod Clock
mod Tests
