-- ===== src/Dtls/EcJpake.antt =====
-- crates/thread-dtls/src/ecjpake: EC J-PAKE over P-256, by file: Curve has the parameters and the points
-- and scalars of mod.rs, Schnorr schnorr.rs, Codec codec.rs, Party the participants of mod.rs.
pub mod Curve
pub mod Schnorr
pub mod Party
pub mod Rounds
pub mod Key
pub mod Agreement
pub mod Codec
pub mod Toy
pub mod Sample
mod Tests
use ot_commissioner_rs.Base.{List, [], ◌∷◌, Bytes}

pub data EcJpakeRole : Type 0 where
  client server : EcJpakeRole

pub record SchnorrProof : Type 0 where
  pub v : Bytes
  pub r : Bytes
  pub prover_id : Bytes

pub record RoundOne : Type 0 where
  pub g1 : Bytes
  pub g2 : Bytes
  pub proof1 : SchnorrProof
  pub proof2 : SchnorrProof
  pub participant_id : Bytes

pub record RoundTwo : Type 0 where
  pub point : Bytes
  pub proof : SchnorrProof

abbrev pub thread_client_id : Bytes
thread_client_id = b'c' ∷ b'l' ∷ b'i' ∷ b'e' ∷ b'n' ∷ b't' ∷ []

abbrev pub thread_server_id : Bytes
thread_server_id = b's' ∷ b'e' ∷ b'r' ∷ b'v' ∷ b'e' ∷ b'r' ∷ []

-- `EcJpakeRole::thread_participant_id`
abbrev pub thread_participant_id : EcJpakeRole → Bytes
thread_participant_id client = thread_client_id
thread_participant_id server = thread_server_id

-- `EcJpakeRole::peer_role`
abbrev pub peer_role : EcJpakeRole → EcJpakeRole
peer_role client = server
peer_role server = client
