-- ===== src/Cmdline.antt =====
-- src/frontends/cmdline: the command line client.
pub mod Options
pub mod Actions
pub mod Sending
pub mod Queries
pub mod Dispatch
pub mod Main
pub mod Supplied
pub mod Json
pub mod Quiet
pub mod Sound
pub mod Answers
