-- ===== src/Dtls/Thread/Client.antt =====
-- `ThreadDtlsHandshake` of crates/thread-dtls/src/thread_handshake.rs.
use ot_commissioner_rs.Base.{
  false, true, ℕ, not, ◌||◌, ◌==◌, Option, none, some, List, Bytes, length, same_bytes, Result, ok,
  ◌>>=◌, ◌>>◌, fail_if, ok_or,
}
use ot_commissioner_rs.Dtls.{Error, crypto, invalid_state}
use ot_commissioner_rs.Dtls.EcJpake.{RoundOne, RoundTwo, client, thread_server_id}
use ot_commissioner_rs.Dtls.EcJpake.Codec.{
  encode_tls_kkpp, decode_tls_kkpp, encode_tls_key_exchange, decode_tls_key_exchange,
}
use ot_commissioner_rs.Dtls.EcJpake.Curve.{Curve}
use ot_commissioner_rs.Dtls.EcJpake.Party.{
  EcJpakeParty, new_thread_with_rng, round_one, round_two, finish,
}
use ot_commissioner_rs.Dtls.Handshake.{
  HandshakeMessage, client_hello, server_hello, server_key_exchange, server_hello_done,
  client_key_exchange, finished, same_type,
}
use ot_commissioner_rs.Dtls.Handshake.Transcript.{HandshakeTranscript, new as new_transcript, push}
use ot_commissioner_rs.Dtls.Hello.{ServerHello}
use ot_commissioner_rs.Dtls.Hello.Server.{decode, validate_thread_profile, ecjpake_kkpp}
use ot_commissioner_rs.Dtls.Hello.State.{DtlsClientHelloState, with_ecjpake_kkpp}
use ot_commissioner_rs.Dtls.KeySchedule.{Mac, FinishedRole, ThreadDtlsKeyMaterial}
use ot_commissioner_rs.Dtls.Thread.{on_ok, verify_data_of, key_material_of}

pub record ThreadDtlsHandshake (c : Curve) : Type 0 where
  pub ecjpake : EcJpakeParty c
  pub client_round_one : RoundOne
  pub server_round_one : Option RoundOne
  pub server_round_two : Option RoundTwo
  pub client_random : Bytes
  pub server_random : Option Bytes
  pub transcript : HandshakeTranscript

module _ (c : Curve) where
  -- `ThreadDtlsHandshake::new_with_rng`, from the 32 random bytes and the draws of scalars, with the
  -- draws that it leaves
  unfoldable pub new_with_rng :
      Bytes → List c.Scalar → Bytes → Result Error (ThreadDtlsHandshake c × List c.Scalar)
  new_with_rng client_random draws pskc = do
    (ecjpake, draws1) ← new_thread_with_rng c draws client pskc
    (client_round_one, draws2) ← round_one c ecjpake draws1
    ok (
      record {
        ecjpake = ecjpake;
        client_round_one = client_round_one;
        server_round_one = none;
        server_round_two = none;
        client_random = client_random;
        server_random = none;
        transcript = new_transcript;
      },
      draws2,
    )

  -- `ThreadDtlsHandshake::client_hello_state`
  unfoldable pub client_hello_state : ThreadDtlsHandshake c → Result Error DtlsClientHelloState
  client_hello_state s = do
    kkpp ← encode_tls_kkpp c s.client_round_one
    ok (with_ecjpake_kkpp s.client_random kkpp)

  -- `self.transcript.push(message)?` and a result.
  abbrev pub recorded :
      {A : Type 0}
      → ThreadDtlsHandshake c
      → HandshakeMessage
      → A
      → ThreadDtlsHandshake c × Result Error A
  recorded s message result =
      let (t, r) = push s.transcript message in (record s { transcript = t }, r >>= λ _. ok result)

  -- `ThreadDtlsHandshake::record_client_hello`
  unfoldable pub record_client_hello :
      ThreadDtlsHandshake c → HandshakeMessage → ThreadDtlsHandshake c × Result Error (Unit {0})
  record_client_hello s message =
      on_ok s
        (fail_if (not (same_type message.message_type client_hello))
          (crypto "expected ClientHello message"))
        (λ _. recorded s message tt)

  -- The checks of `handle_server_hello`, ahead of its changes.
  unfoldable pub read_server_hello : HandshakeMessage → Result Error (ServerHello × RoundOne)
  read_server_hello message = do
    fail_if (not (same_type message.message_type server_hello))
        (crypto "expected ServerHello message")
    hello ← decode message.payload
    validate_thread_profile hello
    kkpp ← ok_or (ecjpake_kkpp hello) (crypto "ServerHello missing ECJPAKE KKPP")
    server_round_one ← decode_tls_kkpp c kkpp thread_server_id
    ok (hello, server_round_one)

  -- `ThreadDtlsHandshake::handle_server_hello`
  unfoldable pub handle_server_hello :
      ThreadDtlsHandshake c → HandshakeMessage → ThreadDtlsHandshake c × Result Error ServerHello
  handle_server_hello s message = on_ok s (read_server_hello message) (λ (hello, server_round_one).
      recorded
        (record s { server_round_one = some server_round_one; server_random = some hello.random })
        message hello)

  unfoldable pub read_server_key_exchange : HandshakeMessage → Result Error RoundTwo
  read_server_key_exchange message = do
    fail_if (not (same_type message.message_type server_key_exchange))
        (crypto "expected ServerKeyExchange message")
    decode_tls_key_exchange c message.payload thread_server_id true

  -- `ThreadDtlsHandshake::handle_server_key_exchange`
  unfoldable pub handle_server_key_exchange :
      ThreadDtlsHandshake c → HandshakeMessage → ThreadDtlsHandshake c × Result Error RoundTwo
  handle_server_key_exchange s message =
      on_ok s (read_server_key_exchange message) (λ server_round_two.
        recorded (record s { server_round_two = some server_round_two }) message server_round_two)

  -- `ThreadDtlsHandshake::handle_server_hello_done`
  unfoldable pub handle_server_hello_done :
      ThreadDtlsHandshake c → HandshakeMessage → ThreadDtlsHandshake c × Result Error (Unit {0})
  handle_server_hello_done s message =
      on_ok s
        (fail_if
          (not (same_type message.message_type server_hello_done)
            || not (length message.payload == 0))
          (crypto "expected empty ServerHelloDone message"))
        (λ _. recorded s message tt)

  unfoldable pub make_client_key_exchange :
      ThreadDtlsHandshake c → ℕ → List c.Scalar → Result Error (HandshakeMessage × List c.Scalar)
  make_client_key_exchange s message_seq draws = do
    server_round_one ←
        ok_or s.server_round_one (invalid_state "server ECJPAKE round one is missing")
    (client_round_two, rest) ← round_two c s.ecjpake s.client_round_one server_round_one draws
    payload ← encode_tls_key_exchange c client_round_two false
    ok (
      record { message_type = client_key_exchange; message_seq = message_seq; payload = payload },
      rest,
    )

  -- `ThreadDtlsHandshake::build_client_key_exchange`, with the draws that it leaves
  unfoldable pub build_client_key_exchange :
      ThreadDtlsHandshake c
      → ℕ
      → List c.Scalar
      → ThreadDtlsHandshake c × Result Error (HandshakeMessage × List c.Scalar)
  build_client_key_exchange s message_seq draws =
      on_ok s (make_client_key_exchange s message_seq draws)
        (λ (message, rest). recorded s message (message, rest))

  module _ (h : Mac) where
    -- `ThreadDtlsHandshake::derive_key_material`
    unfoldable pub derive_key_material : ThreadDtlsHandshake c → Result Error ThreadDtlsKeyMaterial
    derive_key_material s = do
      server_round_one ←
          ok_or s.server_round_one (invalid_state "server ECJPAKE round one is missing")
      server_round_two ←
          ok_or s.server_round_two (invalid_state "server ECJPAKE round two is missing")
      server_random ← ok_or s.server_random (invalid_state "server random is missing")
      pre_master_secret ← finish c s.ecjpake s.client_round_one server_round_one server_round_two
      key_material_of c h pre_master_secret s.client_random server_random

    -- `ThreadDtlsHandshake::client_finished_verify_data`
    unfoldable pub client_finished_verify_data : ThreadDtlsHandshake c → Result Error Bytes
    client_finished_verify_data s = do
      key_material ← derive_key_material s
      verify_data_of c h s.transcript key_material.master_secret FinishedRole.client

    -- `ThreadDtlsHandshake::build_client_finished`
    unfoldable pub build_client_finished :
        ThreadDtlsHandshake c → ℕ → ThreadDtlsHandshake c × Result Error HandshakeMessage
    build_client_finished s message_seq = on_ok s (client_finished_verify_data s) (λ verify_data.
        let message : HandshakeMessage = record {
          message_type = finished;
          message_seq = message_seq;
          payload = verify_data;
        } in
        recorded s message message)

    unfoldable pub check_server_finished :
        ThreadDtlsHandshake c → HandshakeMessage → ThreadDtlsKeyMaterial → Result Error (Unit {0})
    check_server_finished s message key_material = do
      fail_if (not (same_type message.message_type finished)) (crypto "expected Finished message")
      expected ← verify_data_of c h s.transcript key_material.master_secret FinishedRole.server
      fail_if (not (same_bytes expected message.payload))
          (crypto "server Finished verify_data mismatch")

    -- `ThreadDtlsHandshake::verify_server_finished`
    unfoldable pub verify_server_finished :
        ThreadDtlsHandshake c
        → HandshakeMessage
        → ThreadDtlsKeyMaterial
        → ThreadDtlsHandshake c × Result Error (Unit {0})
    verify_server_finished s message key_material =
        on_ok s (check_server_finished s message key_material) (λ _. recorded s message tt)
