-- ===== src/Ipc.antt =====
-- src/ipc_shared.{h,c}: the commands that the server and its frontends exchange.
pub mod Codes
pub mod Devices
pub mod Stringify
pub mod Wire
pub mod Command
pub mod Layout
pub mod RoundTrip
pub mod Arguments
pub mod Build
