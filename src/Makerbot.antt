-- ===== src/Makerbot.antt =====
-- src/drivers/MakerbotDriver.{h,cpp}, src/drivers/S3GParser.h: the driver for Makerbot printers.
pub mod Crc
pub mod Parser
pub mod State
pub mod Packets
pub mod Responses
pub mod Frames
pub mod Keeps
pub mod Copies
pub mod Order
pub mod Queue
pub mod Refill
pub mod Silence
pub mod Printing
