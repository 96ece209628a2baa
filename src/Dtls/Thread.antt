-- ===== src/Dtls/Thread.antt =====
-- The handshake states of crates/thread-dtls: Client is thread_handshake.rs, Server
-- thread_server_handshake.rs, and what both use is here. A method that takes `&mut self` gives the state
-- that it leaves, also when it fails. The traces of secrets are left out.
pub mod Client
pub mod Server
pub mod States
pub mod Steps
pub mod KeyExchange
pub mod Cookie
pub mod Kkpp
pub mod ClientHello
pub mod ServerHello
pub mod Exchange
pub mod Agreement
pub mod Finished
mod Tests
use ot_commissioner_rs.Base.{
  List, Bytes, Bool, not, same_bytes, Result, ok, err, stuck, ◌>>=◌, ◌>>◌, fail_if,
}
use ot_commissioner_rs.Dtls.{Error, crypto}
use ot_commissioner_rs.Dtls.EcJpake.Curve.{Curve}
use ot_commissioner_rs.Dtls.Handshake.{HandshakeMessage, HandshakeType, finished, same_type}
use ot_commissioner_rs.Dtls.Handshake.Transcript.{HandshakeTranscript}
use ot_commissioner_rs.Dtls.KeySchedule.{
  Mac, FinishedRole, ThreadDtlsKeyMaterial, derive_master_secret, derive_aes_128_ccm_8_key_block,
  finished_verify_data,
}

-- `?` in a method: an error leaves the state as it is at that point.
abbrev pub on_ok :
    {S A B : Type 0} → S → Result Error A → (A → S × Result Error B) → S × Result Error B
on_ok s (ok a) rest = rest a
on_ok s (err e) rest = (s, err e)
on_ok s stuck rest = (s, stuck)

module _ (c : Curve) (h : Mac) where
  -- `HandshakeTranscript::finished_verify_data` of handshake.rs, with its `sha256`
  abbrev pub verify_data_of : HandshakeTranscript → Bytes → FinishedRole → Result Error Bytes
  verify_data_of transcript master_secret role =
      finished_verify_data h master_secret role (c.sha256 transcript.bytes)

  -- The last part of both `derive_key_material`.
  unfoldable pub key_material_of : Bytes → Bytes → Bytes → Result Error ThreadDtlsKeyMaterial
  key_material_of pre_master_secret client_random server_random = do
    master_secret ← derive_master_secret h pre_master_secret client_random server_random
    key_block ← derive_aes_128_ccm_8_key_block h master_secret client_random server_random
    ok (record { master_secret = master_secret; key_block = key_block })
