-- ===== src/Errors.antt =====
-- crates/ot-commissioner-rs/src/error.rs: the errors of the commissioner crate.
use ot_commissioner_rs.Base.{ℕ, String, List, Option, Bytes}
use ot_commissioner_rs.Tlv.{TlvError}
use ot_commissioner_rs.Dtls as Session

-- `Error`. A message made by `format!` is its template with the numbers put in. The errors of the hex
-- crate and of input and output come from code that is not modelled.
pub data Error : Type 0 where
  configuration : String → Error
  tlv : TlvError → Error
  dataset : String → Error
  dataset_format : String → List ℕ → Error
  crypto : String → Error
  dtls : Session.Error → Error
  timeout invalid_state unsupported : String → Error
  petition_rejected : Option Bytes → Error
