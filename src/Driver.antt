-- ===== src/Driver.antt =====
-- src/drivers: the state of a driver, what it sends, and the Marlin driver's answers to a printer.
pub mod State
pub mod Print
pub mod Response
pub mod Firmware
pub mod Serial
pub mod Port
pub mod Reading
pub mod Connection
pub mod Update
pub mod Framing
pub mod Turn
pub mod Stop
pub mod Delivery
