-- ===== src/Driver/Delivery.antt =====
-- A whole print of a driver: which lines are sent while the printer confirms them, and how it ends.
pub mod Lines
pub mod Sending
pub mod Answers
pub mod Whole
