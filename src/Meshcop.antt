-- ===== src/Meshcop.antt =====
-- crates/ot-commissioner-rs/src/meshcop: the mesh commissioning protocol.
pub mod Coap
pub mod Constants
pub mod Types
pub mod Flags
pub mod Builders
pub mod Parsers
mod Tests
pub mod Diag
