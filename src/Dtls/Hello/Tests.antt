-- ===== src/Dtls/Hello/Tests.antt =====
-- Concrete hellos and a cookie exchange, and the theorems at them.
use ot_commissioner_rs.Base.{
  ◌≢◌, Result, ◌≡◌, ◌⊎◌, refl, [], ◌∷◌, ◌++◌, ok, Bytes, arith, replicate,
}
use ot_commissioner_rs.Dtls.{Error}
use ot_commissioner_rs.Dtls.Cursor.{read_u16, read_array_32, read_vec_u8, read_vec_u16, finish}
use ot_commissioner_rs.Dtls.Handshake.{encode as encode_handshake}
use ot_commissioner_rs.Dtls.Hello.{
  read_extensions, ClientHello, ServerHello, HelloVerifyRequest, append_extensions,
}
use ot_commissioner_rs.Dtls.Hello.Client.Decoding.{encode-decode_client}
use ot_commissioner_rs.Dtls.Hello.State.{
  handle_hello_verify_request, next_client_hello_record, DtlsClientHelloState, with_ecjpake_kkpp,
}
use ot_commissioner_rs.Dtls.Hello.State.Answers.{Answers, handle_hello_verify_request_cases}
use ot_commissioner_rs.Dtls.Record.{new as new_record, DtlsRecord, handshake, dtls_1_2_version}
use ot_commissioner_rs.Dtls.Hello.Client
use ot_commissioner_rs.Dtls.Hello.Client.RoundTrip as ClientTrip
use ot_commissioner_rs.Dtls.Hello.Server
use ot_commissioner_rs.Dtls.Hello.Server.RoundTrip as ServerTrip
use ot_commissioner_rs.Dtls.Hello.Verify

abbrev random : Bytes
random = replicate 32 7

abbrev cookie : Bytes
cookie = 1 ∷ 2 ∷ 3 ∷ []

abbrev kkpp : Bytes
kkpp = 9 ∷ 8 ∷ []

abbrev hello : ClientHello
hello = Client.thread_profile_with_ecjpake random cookie kkpp

abbrev hello_bytes : Bytes
hello_bytes =
    0xfe
    ∷ 0xfd
    ∷ (random
        ++ (0 ∷ 3 ∷ 1 ∷ 2 ∷ 3 ∷ 0 ∷ 4 ∷ 0xc0 ∷ 0xff ∷ 0x00 ∷ 0xff ∷ 1 ∷ 0 ∷ 0 ∷ 33 ∷ 0 ∷ 10 ∷ 0 ∷ 4
            ∷ 0 ∷ 2 ∷ 0 ∷ 23 ∷ 0 ∷ 13 ∷ 0 ∷ 4 ∷ 0 ∷ 2 ∷ 4 ∷ 3 ∷ 0 ∷ 11 ∷ 0 ∷ 2 ∷ 1 ∷ 0 ∷ 1 ∷ 0 ∷ 0
            ∷ 2 ∷ 9 ∷ 8 ∷ 0 ∷ 1 ∷ 0 ∷ 1 ∷ 2 ∷ []))

hello_encodes : Client.encode hello ≡ ok hello_bytes
unfolding Client.encode Client.thread_profile_with_ecjpake append_extensions Client.suite_bytes
hello_encodes = refl

hello-IsTyped : ClientTrip.IsTyped hello
unfolding Client.thread_profile_with_ecjpake
hello-IsTyped = record { random = refl; suites = omega arith; types = omega arith }

decode-encode_client_example : Client.decode hello_bytes ≡ ok hello
decode-encode_client_example =
    ClientTrip.decode-encode_client hello hello_bytes hello-IsTyped hello_encodes

-- The end of a hello with no extension block.
abbrev bare_bytes : Bytes
bare_bytes = 0xfe ∷ 0xfd ∷ (random ++ (0 ∷ 0 ∷ 0 ∷ 2 ∷ 0xc0 ∷ 0xff ∷ 1 ∷ 0 ∷ []))

abbrev bare : ClientHello
bare = record {
  random = random;
  session_id = [];
  cookie = [];
  cipher_suites = 0xc0ff ∷ [];
  compression_methods = 0 ∷ [];
  extensions = [];
}

bare_decodes : Client.decode bare_bytes ≡ ok bare
unfolding Client.decode read_u16 read_array_32 read_vec_u8 read_vec_u16 read_extensions finish
    Client.suites_of
bare_decodes = refl

encode-decode_client_example :
    ClientTrip.IsTyped bare
    × ((Client.encode bare ≡ ok bare_bytes)
        ⊎ ((bare.extensions ≡ []) × (Client.encode bare ≡ ok (bare_bytes ++ 0 ∷ 0 ∷ []))))
encode-decode_client_example = encode-decode_client bare_bytes bare (omega arith) bare_decodes

abbrev server : ServerHello
server = record {
  random = random;
  session_id = 5 ∷ [];
  cipher_suite = 0xc0ff;
  compression_method = 0;
  extensions = record { extension_type = 256; body = kkpp } ∷ [];
}

abbrev server_bytes : Bytes
server_bytes =
    0xfe ∷ 0xfd ∷ (random ++ (1 ∷ 5 ∷ 0xc0 ∷ 0xff ∷ 0 ∷ 0 ∷ 6 ∷ 1 ∷ 0 ∷ 0 ∷ 2 ∷ 9 ∷ 8 ∷ []))

server_encodes : Server.encode server ≡ ok server_bytes
unfolding Server.encode append_extensions
server_encodes = refl

decode-encode_server_example : Server.decode server_bytes ≡ ok server
decode-encode_server_example =
    ServerTrip.decode-encode_server server server_bytes
      (record { random = refl; suite = omega arith; types = omega arith }) server_encodes

abbrev start : DtlsClientHelloState
start = with_ecjpake_kkpp random kkpp

abbrev answer_body : Bytes
answer_body = 0xfe ∷ 0xfd ∷ 3 ∷ 1 ∷ 2 ∷ 3 ∷ []

abbrev answer : DtlsRecord
answer = record {
  header = record {
    content_type = handshake;
    version = dtls_1_2_version;
    epoch = 0;
    sequence_number = 0;
    len = 18;
  };
  payload = 3 ∷ 0 ∷ 0 ∷ 6 ∷ 0 ∷ 0 ∷ 0 ∷ 0 ∷ 0 ∷ 0 ∷ 0 ∷ 6 ∷ answer_body;
}

abbrev verify : HelloVerifyRequest
verify = record { server_version = dtls_1_2_version; cookie = cookie }

abbrev record_or : DtlsRecord → Result Error DtlsRecord → DtlsRecord
record_or d (ok r) = r
record_or d _ = d

abbrev first : DtlsRecord
first = record_or answer (next_client_hello_record start).1

abbrev verified : DtlsClientHelloState
verified = (handle_hello_verify_request (next_client_hello_record start).0 answer).0

abbrev second : DtlsRecord
second = record_or answer (next_client_hello_record verified).1

abbrev asked : DtlsClientHelloState
asked = (next_client_hello_record start).0

handle_hello_verify_request_cases_example :
    ((h : HelloVerifyRequest) × Answers asked answer h
      × (handle_hello_verify_request asked answer ≡ (record asked { cookie = h.cookie }, ok h)))
    ⊎ (((handle_hello_verify_request asked answer).0 ≡ asked)
        × ((h : HelloVerifyRequest) → (handle_hello_verify_request asked answer).1 ≢ ok h))
handle_hello_verify_request_cases_example = handle_hello_verify_request_cases asked answer
