-- ===== src/Dtls/Thread/Server.antt =====
-- `ThreadDtlsServerHandshake` of
-- crates/thread-dtls/src/thread_server_handshake.rs.
use ot_commissioner_rs.Base.{
  ℕ, Bool, true, false, not, ◌||◌, ◌==◌, Option, none, some, List, [], ◌∷◌, Bytes, same_bytes,
  Result, ok, ◌>>=◌, ◌>>◌, fail_if, ok_or,
}
use ot_commissioner_rs.Dtls.{Error, crypto, invalid_state}
use ot_commissioner_rs.Dtls.EcJpake.{RoundOne, RoundTwo, server, thread_client_id}
use ot_commissioner_rs.Dtls.EcJpake.Codec.{
  encode_tls_kkpp, decode_tls_kkpp, encode_tls_key_exchange, decode_tls_key_exchange,
}
use ot_commissioner_rs.Dtls.EcJpake.Curve.{Curve}
use ot_commissioner_rs.Dtls.EcJpake.Party.{
  EcJpakeParty, new_thread_with_rng, round_one, round_two, finish,
}
use ot_commissioner_rs.Dtls.Handshake.{
  HandshakeMessage, client_hello, server_hello, server_key_exchange, server_hello_done,
  client_key_exchange, finished, same_type,
}
use ot_commissioner_rs.Dtls.Handshake.Transcript.{HandshakeTranscript, new as new_transcript, push}
use ot_commissioner_rs.Dtls.Hello.{
  ClientHello, ServerHello, ec_point_formats_extension, extension_ecjpake_kkpp,
  tls_ecjpake_with_aes_128_ccm_8, tls_compression_null,
}
use ot_commissioner_rs.Dtls.Hello.Client.{decode, ecjpake_kkpp}
use ot_commissioner_rs.Dtls.Hello.Server.{encode}
use ot_commissioner_rs.Dtls.KeySchedule.{
  Mac, FinishedRole, ThreadDtlsKeyMaterial, derive_joiner_router_kek as router_kek,
}
use ot_commissioner_rs.Dtls.Thread.{on_ok, verify_data_of, key_material_of}

pub record ThreadDtlsServerHandshake (c : Curve) : Type 0 where
  pub ecjpake : EcJpakeParty c
  pub server_round_one : RoundOne
  pub client_round_one : Option RoundOne
  pub client_round_two : Option RoundTwo
  pub server_random : Bytes
  pub client_random : Option Bytes
  pub transcript : HandshakeTranscript

abbrev pub holds : List ℕ → ℕ → Bool
holds [] value = false
holds (x ∷ xs) value = x == value || holds xs value

abbrev pub is_none : {A : Type 0} → Option A → Bool
is_none none = true
is_none (some a) = false

module _ (c : Curve) where
  -- `ThreadDtlsServerHandshake::new_with_rng`, from the 32 random bytes and the draws of scalars, with
  -- the draws that it leaves
  unfoldable pub new_with_rng :
      Bytes → List c.Scalar → Bytes → Result Error (ThreadDtlsServerHandshake c × List c.Scalar)
  new_with_rng server_random draws shared_secret = do
    (ecjpake, draws1) ← new_thread_with_rng c draws server shared_secret
    (server_round_one, draws2) ← round_one c ecjpake draws1
    ok (
      record {
        ecjpake = ecjpake;
        server_round_one = server_round_one;
        client_round_one = none;
        client_round_two = none;
        server_random = server_random;
        client_random = none;
        transcript = new_transcript;
      },
      draws2,
    )

  -- `self.transcript.push(message)?` and a result.
  abbrev pub recorded :
      {A : Type 0}
      → ThreadDtlsServerHandshake c
      → HandshakeMessage
      → A
      → ThreadDtlsServerHandshake c × Result Error A
  recorded s message result =
      let (t, r) = push s.transcript message in (record s { transcript = t }, r >>= λ _. ok result)

  -- The checks of `handle_client_hello`, ahead of its changes.
  unfoldable pub read_client_hello : HandshakeMessage → Result Error (ClientHello × RoundOne)
  read_client_hello message = do
    fail_if (not (same_type message.message_type client_hello))
        (crypto "expected ClientHello message")
    hello ← decode message.payload
    fail_if (not (holds hello.cipher_suites tls_ecjpake_with_aes_128_ccm_8))
        (crypto "ClientHello does not offer TLS_ECJPAKE_WITH_AES_128_CCM_8")
    fail_if (not (holds hello.compression_methods tls_compression_null))
        (crypto "ClientHello does not offer null compression")
    kkpp ← ok_or (ecjpake_kkpp hello) (crypto "ClientHello missing ECJPAKE KKPP")
    client_round_one ← decode_tls_kkpp c kkpp thread_client_id
    ok (hello, client_round_one)

  -- `ThreadDtlsServerHandshake::handle_client_hello`
  unfoldable pub handle_client_hello :
      ThreadDtlsServerHandshake c
      → HandshakeMessage
      → ThreadDtlsServerHandshake c × Result Error ClientHello
  handle_client_hello s message = on_ok s (read_client_hello message) (λ (hello, client_round_one).
      recorded
        (record s { client_round_one = some client_round_one; client_random = some hello.random })
        message hello)

  unfoldable pub server_hello_of : ThreadDtlsServerHandshake c → Bytes → ServerHello
  server_hello_of s kkpp = record {
    random = s.server_random;
    session_id = [];
    cipher_suite = tls_ecjpake_with_aes_128_ccm_8;
    compression_method = tls_compression_null;
    extensions =
        record { extension_type = extension_ecjpake_kkpp; body = kkpp }
        ∷ ec_point_formats_extension
        ∷ [];
  }

  unfoldable pub make_server_hello : ThreadDtlsServerHandshake c → ℕ → Result Error HandshakeMessage
  make_server_hello s message_seq = do
    fail_if (is_none s.client_random) (invalid_state "ClientHello has not been accepted")
    kkpp ← encode_tls_kkpp c s.server_round_one
    payload ← encode (server_hello_of s kkpp)
    ok (record { message_type = server_hello; message_seq = message_seq; payload = payload })

  -- `ThreadDtlsServerHandshake::build_server_hello`
  unfoldable pub build_server_hello :
      ThreadDtlsServerHandshake c → ℕ → ThreadDtlsServerHandshake c × Result Error HandshakeMessage
  build_server_hello s message_seq =
      on_ok s (make_server_hello s message_seq) (λ message. recorded s message message)

  unfoldable pub make_server_key_exchange :
      ThreadDtlsServerHandshake c
      → ℕ
      → List c.Scalar
      → Result Error (HandshakeMessage × List c.Scalar)
  make_server_key_exchange s message_seq draws = do
    client_round_one ←
        ok_or s.client_round_one (invalid_state "client ECJPAKE round one is missing")
    (server_round_two, rest) ← round_two c s.ecjpake s.server_round_one client_round_one draws
    payload ← encode_tls_key_exchange c server_round_two true
    ok (
      record { message_type = server_key_exchange; message_seq = message_seq; payload = payload },
      rest,
    )

  -- `ThreadDtlsServerHandshake::build_server_key_exchange`, with the draws that it leaves
  unfoldable pub build_server_key_exchange :
      ThreadDtlsServerHandshake c
      → ℕ
      → List c.Scalar
      → ThreadDtlsServerHandshake c × Result Error (HandshakeMessage × List c.Scalar)
  build_server_key_exchange s message_seq draws =
      on_ok s (make_server_key_exchange s message_seq draws)
        (λ (message, rest). recorded s message (message, rest))

  -- `ThreadDtlsServerHandshake::build_server_hello_done`
  unfoldable pub build_server_hello_done :
      ThreadDtlsServerHandshake c → ℕ → ThreadDtlsServerHandshake c × Result Error HandshakeMessage
  build_server_hello_done s message_seq =
      let message : HandshakeMessage = record {
        message_type = server_hello_done;
        message_seq = message_seq;
        payload = [];
      } in
      recorded s message message

  unfoldable pub read_client_key_exchange : HandshakeMessage → Result Error RoundTwo
  read_client_key_exchange message = do
    fail_if (not (same_type message.message_type client_key_exchange))
        (crypto "expected ClientKeyExchange message")
    decode_tls_key_exchange c message.payload thread_client_id false

  -- `ThreadDtlsServerHandshake::handle_client_key_exchange`
  unfoldable pub handle_client_key_exchange :
      ThreadDtlsServerHandshake c
      → HandshakeMessage
      → ThreadDtlsServerHandshake c × Result Error (Unit {0})
  handle_client_key_exchange s message =
      on_ok s (read_client_key_exchange message) (λ client_round_two.
        recorded (record s { client_round_two = some client_round_two }) message tt)

  module _ (h : Mac) where
    -- `ThreadDtlsServerHandshake::derive_key_material`
    unfoldable pub derive_key_material :
        ThreadDtlsServerHandshake c → Result Error ThreadDtlsKeyMaterial
    derive_key_material s = do
      client_round_one ←
          ok_or s.client_round_one (invalid_state "client ECJPAKE round one is missing")
      client_round_two ←
          ok_or s.client_round_two (invalid_state "client ECJPAKE round two is missing")
      client_random ← ok_or s.client_random (invalid_state "client random is missing")
      pre_master_secret ← finish c s.ecjpake s.server_round_one client_round_one client_round_two
      key_material_of c h pre_master_secret client_random s.server_random

    unfoldable pub check_client_finished :
        ThreadDtlsServerHandshake c
        → HandshakeMessage
        → ThreadDtlsKeyMaterial
        → Result Error (Unit {0})
    check_client_finished s message key_material = do
      fail_if (not (same_type message.message_type finished)) (crypto "expected Finished message")
      expected ← verify_data_of c h s.transcript key_material.master_secret FinishedRole.client
      fail_if (not (same_bytes expected message.payload))
          (crypto "client Finished verify_data mismatch")

    -- `ThreadDtlsServerHandshake::verify_client_finished`
    unfoldable pub verify_client_finished :
        ThreadDtlsServerHandshake c
        → HandshakeMessage
        → ThreadDtlsKeyMaterial
        → ThreadDtlsServerHandshake c × Result Error (Unit {0})
    verify_client_finished s message key_material =
        on_ok s (check_client_finished s message key_material) (λ _. recorded s message tt)

    -- `ThreadDtlsServerHandshake::build_server_finished`
    unfoldable pub build_server_finished :
        ThreadDtlsServerHandshake c
        → ℕ
        → ThreadDtlsKeyMaterial
        → ThreadDtlsServerHandshake c × Result Error HandshakeMessage
    build_server_finished s message_seq key_material =
        on_ok s (verify_data_of c h s.transcript key_material.master_secret FinishedRole.server)
          (λ verify_data.
            let message : HandshakeMessage = record {
              message_type = finished;
              message_seq = message_seq;
              payload = verify_data;
            } in
            recorded s message message)

    -- `ThreadDtlsServerHandshake::derive_joiner_router_kek`
    unfoldable pub derive_joiner_router_kek :
        ThreadDtlsServerHandshake c → ThreadDtlsKeyMaterial → Result Error Bytes
    derive_joiner_router_kek s key_material = do
      client_random ← ok_or s.client_random (invalid_state "client random is missing")
      router_kek h c.sha256 key_material.master_secret client_random s.server_random
