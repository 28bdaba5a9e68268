-- ===== src/Frontend.antt =====
-- src/frontends/communicator.c: the frontend's side of the commands.
pub mod Replies
pub mod Requests
pub mod Packets
pub mod Results
pub mod Served
