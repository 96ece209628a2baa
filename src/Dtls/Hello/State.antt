-- ===== src/Dtls/Hello/State.antt =====
-- `DtlsClientHelloState` of crates/thread-dtls/src/hello.rs: the client's hello flight with its cookie
-- retry. A method that takes `&mut self` gives the state that it leaves, also when it fails.
pub mod Retry
pub mod Answers
use ot_commissioner_rs.Base.{
  false, [], ℕ, ◌+◌, ◌%◌, ◌^◌, Bool, not, Option, none, some, ◌==◌, Bytes, Result, ok, err, stuck,
  ◌>>=◌, ◌>>◌, fail_if,
}
use ot_commissioner_rs.Dtls.{Error, crypto}
use ot_commissioner_rs.Dtls.Handshake.{
  HandshakeMessage, client_hello, hello_verify_request, encode as encode_handshake,
}
use ot_commissioner_rs.Dtls.Handshake.Readers.{parse_unfragmented_record}
use ot_commissioner_rs.Dtls.Hello.{ClientHello, HelloVerifyRequest}
use ot_commissioner_rs.Dtls.Record.{DtlsRecord, handshake, dtls_1_2_version, new as new_record}
use ot_commissioner_rs.Dtls.Hello.Client
use ot_commissioner_rs.Dtls.Hello.Verify

pub record DtlsClientHelloState : Type 0 where
  pub random : Bytes
  pub cookie : Bytes
  pub ecjpake_kkpp : Option Bytes
  pub next_record_sequence : ℕ
  pub next_message_sequence : ℕ
  pub last_client_hello_sequence : Option ℕ

-- `DtlsClientHelloState::new`
unfoldable pub new : Bytes → DtlsClientHelloState
new random = record {
  random = random;
  cookie = [];
  ecjpake_kkpp = none;
  next_record_sequence = 0;
  next_message_sequence = 0;
  last_client_hello_sequence = none;
}

-- `DtlsClientHelloState::set_ecjpake_kkpp`
unfoldable pub set_ecjpake_kkpp : Bytes → DtlsClientHelloState → DtlsClientHelloState
set_ecjpake_kkpp kkpp s = record s { ecjpake_kkpp = some kkpp }

-- `DtlsClientHelloState::with_ecjpake_kkpp`
unfoldable pub with_ecjpake_kkpp : Bytes → Bytes → DtlsClientHelloState
unfolding new
with_ecjpake_kkpp random kkpp = record (new random) { ecjpake_kkpp = some kkpp }

-- The body of the next ClientHello.
unfoldable pub hello_of : Bytes → Bytes → Option Bytes → ClientHello
hello_of random cookie (some kkpp) = Client.thread_profile_with_ecjpake random cookie kkpp
hello_of random cookie none = Client.thread_profile random cookie

abbrev pub message_of : ℕ → Bytes → HandshakeMessage
message_of message_seq payload = record {
  message_type = client_hello;
  message_seq = message_seq;
  payload = payload;
}

hello_record : ClientHello → ℕ → ℕ → Result Error DtlsRecord
hello_record hello message_seq record_sequence = do
  payload ← Client.encode hello
  bytes ← encode_handshake (message_of message_seq payload)
  new_record handshake 0 record_sequence bytes

-- The record sequence advances only behind a record that was built.
advance :
    DtlsClientHelloState → Result Error DtlsRecord → DtlsClientHelloState × Result Error DtlsRecord
advance s (ok r) = (record s { next_record_sequence = (s.next_record_sequence + 1) % 2 ^ 64 }, ok r)
advance s (err e) = (s, err e)
advance s stuck = (s, stuck)

-- `DtlsClientHelloState::next_client_hello_record`. The message sequence advances in any case.
unfoldable pub next_client_hello_record :
    DtlsClientHelloState → DtlsClientHelloState × Result Error DtlsRecord
unfolding hello_record advance
next_client_hello_record s =
    advance
      (record s {
        next_message_sequence = (s.next_message_sequence + 1) % 2 ^ 16;
        last_client_hello_sequence = some s.next_message_sequence;
      })
      (hello_record (hello_of s.random s.cookie s.ecjpake_kkpp) s.next_message_sequence
        s.next_record_sequence)

-- `Some(n) == last`
unfoldable pub is_last : ℕ → Option ℕ → Bool
is_last n none = false
is_last n (some m) = n == m

verified : DtlsClientHelloState → DtlsRecord → Result Error HelloVerifyRequest
unfolding is_last
verified s r = do
  message ← parse_unfragmented_record r hello_verify_request
  fail_if (not (is_last message.message_seq s.last_client_hello_sequence))
      (crypto "HelloVerifyRequest sequence does not match ClientHello")
  hello_verify ← Verify.decode message.payload
  fail_if (not (hello_verify.server_version == dtls_1_2_version))
      (crypto "HelloVerifyRequest version is not DTLS 1.2")
  ok hello_verify

keep_cookie :
    DtlsClientHelloState
    → Result Error HelloVerifyRequest
    → DtlsClientHelloState × Result Error HelloVerifyRequest
keep_cookie s (ok h) = (record s { cookie = h.cookie }, ok h)
keep_cookie s (err e) = (s, err e)
keep_cookie s stuck = (s, stuck)

-- `DtlsClientHelloState::handle_hello_verify_request`
unfoldable pub handle_hello_verify_request :
    DtlsClientHelloState → DtlsRecord → DtlsClientHelloState × Result Error HelloVerifyRequest
unfolding verified keep_cookie
handle_hello_verify_request s r = keep_cookie s (verified s r)
