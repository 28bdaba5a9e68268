-- ===== src/GcodeBuffer.antt =====
-- src/drivers/GCodeBuffer.{h,cpp}: the buffer of gcode that the drivers print from.
pub mod Cleanup
pub mod Clean
pub mod State
pub mod Append
pub mod Lines
pub mod Contents
pub mod Counts
pub mod Sequence
pub mod Chunks
pub mod Front
pub mod Packed
