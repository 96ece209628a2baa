-- ===== src/Commissioner.antt =====
-- crates/ot-commissioner-rs/src/commissioner: the commissioner itself.
pub mod Joiners
