-- ===== src/Dtls.antt =====
-- crates/thread-dtls: the errors that its modules share.
pub mod Record
pub mod Protection
pub mod Handshake
pub mod Cursor
pub mod Hello
pub mod Replay
pub mod KeySchedule
pub mod Session
pub mod EcJpake
pub mod Thread
use ot_commissioner_rs.Base.{ℕ, String, List}

-- `Error` of error.rs. A message made by `format!` is its template with the numbers put in. An I/O
-- error comes from the sockets only, which are not modelled.
pub data Error : Type 0 where
  crypto : String → Error
  crypto_format : String → List ℕ → Error
  invalid_state timeout : String → Error
