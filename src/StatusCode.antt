-- ===== src/StatusCode.antt =====
-- MdeModulePkg/Universal/StatusCodeHandler: the status code handlers of the board's firmware.
pub mod Journal
pub mod Serial
pub mod Dispatch
mod Tests
