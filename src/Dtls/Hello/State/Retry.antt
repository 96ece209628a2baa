-- ===== src/Dtls/Hello/State/Retry.antt =====
-- The cookie retry: what the client sends before and after a HelloVerifyRequest.
use ot_commissioner_rs.Base.{none, some, arith, length, ok, Option, ℕ, ◌≡◌, Bytes}
use ot_commissioner_rs.Dtls.Handshake.{
  client_hello, hello_verify_request, encode as encode_handshake,
}
use ot_commissioner_rs.Dtls.Handshake.Readers.{parse_unfragmented_record}
use ot_commissioner_rs.Dtls.Hello.{ClientHello, HelloVerifyRequest}
use ot_commissioner_rs.Dtls.Hello.Client.RoundTrip.{IsTyped}
use ot_commissioner_rs.Dtls.Hello.State.{hello_of, message_of}
use ot_commissioner_rs.Dtls.Record.{DtlsRecord, handshake, new as new_record}
use ot_commissioner_rs.Dtls.Hello.Client
use ot_commissioner_rs.Dtls.Hello.Verify

pub hello_of-IsTyped :
    (random cookie : Bytes) (kkpp : Option Bytes)
    → length random ≡ 32
    → IsTyped (hello_of random cookie kkpp)
unfolding hello_of Client.thread_profile_with_ecjpake Client.thread_profile Client.set_ecjpake_kkpp
hello_of-IsTyped random cookie none h = record {
  random = h;
  suites = omega arith;
  types = omega arith;
}
hello_of-IsTyped random cookie (some kkpp) h = record {
  random = h;
  suites = omega arith;
  types = omega arith;
}

-- A record of one ClientHello: its fields, and the hello that a server reads in it.
pub record Carries (r : DtlsRecord) (h : ClientHello) (message_seq record_sequence : ℕ)
    : Type 0 where
  pub payload : Bytes
  pub message : parse_unfragmented_record r client_hello ≡ ok (message_of message_seq payload)
  pub hello : Client.decode payload ≡ ok h
  pub epoch : r.header.epoch ≡ 0
  pub sequence : r.header.sequence_number ≡ record_sequence

-- `r` is the record of a HelloVerifyRequest `h` under a message sequence.
pub record Verifies (r : DtlsRecord) (h : HelloVerifyRequest) (message_seq : ℕ) : Type 0 where
  pub body : Bytes
  pub encoded : Verify.encode h ≡ ok body
  pub content : r.header.content_type ≡ handshake
  pub payload :
      encode_handshake
        (record { message_type = hello_verify_request; message_seq = message_seq; payload = body })
      ≡ ok r.payload
