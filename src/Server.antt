-- ===== src/Server.antt =====
-- src/server: the clients of the server, and what it does with their commands.
pub mod Client
pub mod Handlers
pub mod Dispatch
pub mod Streams
pub mod Transactions
pub mod Carried
pub mod Requests
pub mod Uploads
pub mod Loop
pub mod Watched
pub mod Remaining
