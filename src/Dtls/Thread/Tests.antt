-- ===== src/Dtls/Thread/Tests.antt =====
-- A whole handshake over the toy curve and a toy MAC, and the theorems at it.
use ot_commissioner_rs.Base.{
  ◌≡◌, refl, some, none, List, [], ◌∷◌, Bytes, replicate, Result, ok, err, stuck,
}
use ot_commissioner_rs.Base.Loop.{decode_all}
use ot_commissioner_rs.Dtls.{Error}
use ot_commissioner_rs.Dtls.Cursor.{
  read_u16 as cursor_u16, read_array_32, read_vec_u8, read_vec_u16, finish as cursor_finish,
}
use ot_commissioner_rs.Dtls.EcJpake.{RoundTwo}
use ot_commissioner_rs.Dtls.EcJpake.Codec.{
  encode_tls_kkpp, encode_tls, write_key_kp, write_tls_point, trim_scalar_bytes, decode_tls_kkpp,
  encode_tls_key_exchange, decode_tls_key_exchange, read_key_kp, read_proof, read_tls_point,
  read_opaque_u8, read_u8, read_u16, read_exact, finish as finish_cursor,
  read_secp256r1_curve_params,
}
use ot_commissioner_rs.Dtls.EcJpake.Curve.{
  point_from_bytes, random_scalar, scalar_from_secret, derive_session_key, point_x_bytes,
}
use ot_commissioner_rs.Dtls.EcJpake.Party.{
  new_with_rng as party_new, new_thread_with_rng, round_one, round_two, verify_round_one,
  second_round_base, finish,
}
use ot_commissioner_rs.Dtls.EcJpake.Sample.{alice, bob, first}
use ot_commissioner_rs.Dtls.EcJpake.Schnorr.{generate, proof_with, challenge_scalar, verify}
use ot_commissioner_rs.Dtls.EcJpake.Toy.{Three, i, t, toy}
use ot_commissioner_rs.Dtls.Handshake.{
  HandshakeMessage, transcript_bytes, encode_header, validate, write_u24,
}
use ot_commissioner_rs.Dtls.Handshake.Transcript.{new as new_transcript, push, pushed}
use ot_commissioner_rs.Dtls.Hello.{
  ClientHello, ServerHello, append_extensions, find_extension, read_extension, read_extensions,
}
use ot_commissioner_rs.Dtls.Hello.Client.{
  encode, thread_profile, thread_profile_with_ecjpake, set_ecjpake_kkpp, suite_bytes,
  decode as decode_client, ecjpake_kkpp as client_kkpp, suites_of,
}
use ot_commissioner_rs.Dtls.Hello.Server.{
  encode as encode_server, decode as decode_server, ecjpake_kkpp as server_kkpp,
  validate_thread_profile,
}
use ot_commissioner_rs.Dtls.Hello.State.{hello_of, message_of}
use ot_commissioner_rs.Dtls.KeySchedule.{
  ThreadDtlsKeyMaterial, derive_master_secret, derive_aes_128_ccm_8_key_block, tls12_prf, prf_loop,
  hmac_sha256, finished_verify_data,
}
use ot_commissioner_rs.Dtls.KeySchedule.Toy.{toy_mac}
use ot_commissioner_rs.Dtls.Thread.{key_material_of}
use ot_commissioner_rs.Dtls.Thread.Agreement.{derive_key_material-build}
use ot_commissioner_rs.Dtls.Thread.Client.{
  ThreadDtlsHandshake, new_with_rng as client_new_with_rng, record_client_hello,
  derive_key_material as client_derive, handle_server_hello, read_server_hello,
  handle_server_key_exchange, read_server_key_exchange, handle_server_hello_done,
  build_client_key_exchange, make_client_key_exchange, build_client_finished,
  client_finished_verify_data, verify_server_finished,
}
use ot_commissioner_rs.Dtls.Thread.Finished.{verify_finished-build}
use ot_commissioner_rs.Dtls.Thread.Server.{
  ThreadDtlsServerHandshake, new_with_rng as server_new_with_rng,
  derive_key_material as server_derive, handle_client_hello, read_client_hello, build_server_hello,
  make_server_hello, server_hello_of, build_server_key_exchange, make_server_key_exchange,
  build_server_hello_done, handle_client_key_exchange, read_client_key_exchange,
  verify_client_finished, check_client_finished, build_server_finished,
}
use ot_commissioner_rs.Dtls.Thread.States.{client_state, server_state}

abbrev value_of : {A : Type 0} → A → Result Error A → A
value_of default (ok a) = a
value_of default (err e) = default
value_of default stuck = default

abbrev secret : Bytes
secret = 1 ∷ 2 ∷ []

abbrev client_random : Bytes
client_random = replicate 32 7

abbrev server_random : Bytes
server_random = replicate 32 9

abbrev draws : List Three
draws = i ∷ t ∷ i ∷ t ∷ []

abbrev fresh_client : ThreadDtlsHandshake toy
fresh_client = client_state toy alice (first alice) none none client_random none new_transcript

abbrev fresh_server : ThreadDtlsServerHandshake toy
fresh_server = server_state toy bob (first bob) none none server_random none new_transcript

new_client : client_new_with_rng toy client_random draws secret ≡ ok (fresh_client, [])
unfolding client_new_with_rng new_thread_with_rng party_new round_one random_scalar generate
    scalar_from_secret
new_client = refl

new_server : server_new_with_rng toy server_random draws secret ≡ ok (fresh_server, [])
unfolding server_new_with_rng new_thread_with_rng party_new round_one random_scalar generate
    scalar_from_secret
new_server = refl

abbrev kkpp : Bytes
kkpp = value_of [] (encode_tls_kkpp toy (first alice))

abbrev hello_payload : Bytes
hello_payload = value_of [] (encode (hello_of client_random (5 ∷ []) (some kkpp)))

abbrev ch : HandshakeMessage
ch = message_of 1 hello_payload

abbrev k1 : ThreadDtlsHandshake toy
k1 = (record_client_hello toy fresh_client ch).0

abbrev s1 : ThreadDtlsServerHandshake toy
s1 = (handle_client_hello toy fresh_server ch).0

abbrev s2 : ThreadDtlsServerHandshake toy
s2 = (build_server_hello toy s1 0).0

abbrev sh : HandshakeMessage
sh = value_of ch (build_server_hello toy s1 0).1

abbrev k2 : ThreadDtlsHandshake toy
k2 = (handle_server_hello toy k1 sh).0

abbrev s3 : ThreadDtlsServerHandshake toy
s3 = (build_server_key_exchange toy s2 1 (i ∷ [])).0

abbrev ske : HandshakeMessage
ske = (value_of (ch, []) (build_server_key_exchange toy s2 1 (i ∷ [])).1).0

abbrev k3 : ThreadDtlsHandshake toy
k3 = (handle_server_key_exchange toy k2 ske).0

abbrev s4 : ThreadDtlsServerHandshake toy
s4 = (build_server_hello_done toy s3 2).0

abbrev shd : HandshakeMessage
shd = value_of ch (build_server_hello_done toy s3 2).1

abbrev k4 : ThreadDtlsHandshake toy
k4 = (handle_server_hello_done toy k3 shd).0

abbrev k5 : ThreadDtlsHandshake toy
k5 = (build_client_key_exchange toy k4 2 (i ∷ [])).0

abbrev cke : HandshakeMessage
cke = (value_of (ch, []) (build_client_key_exchange toy k4 2 (i ∷ [])).1).0

abbrev s5 : ThreadDtlsServerHandshake toy
s5 = (handle_client_key_exchange toy s4 cke).0

-- What each side builds over what the other's last message left.
built :
    (encode_tls_kkpp toy (first alice) ≡ ok (value_of [] (encode_tls_kkpp toy (first alice))))
    × (encode (hello_of client_random (5 ∷ []) (some kkpp)) ≡ ok hello_payload)
    × (record_client_hello toy fresh_client ch ≡ (k1, ok tt))
    × (build_server_hello toy s1 0 ≡ (s2, ok sh))
    × (build_server_key_exchange toy s2 1 (i ∷ []) ≡ (s3, ok (ske, [])))
    × (build_server_hello_done toy s3 2 ≡ (s4, ok shd))
    × (build_client_key_exchange toy k4 2 (i ∷ []) ≡ (k5, ok (cke, [])))
unfolding record_client_hello push pushed transcript_bytes encode_header validate write_u24 encode
    suite_bytes append_extensions hello_of thread_profile thread_profile_with_ecjpake
    set_ecjpake_kkpp encode_tls_kkpp write_key_kp encode_tls write_tls_point trim_scalar_bytes
    point_from_bytes proof_with challenge_scalar handle_client_hello read_client_hello decode_client
    client_kkpp find_extension decode_tls_kkpp read_key_kp read_proof read_tls_point read_opaque_u8
    read_u8 read_exact finish_cursor verify build_server_hello make_server_hello server_hello_of
    encode_server handle_server_hello read_server_hello decode_server server_kkpp
    validate_thread_profile build_server_key_exchange make_server_key_exchange round_two
    verify_round_one second_round_base generate random_scalar encode_tls_key_exchange
    handle_server_key_exchange read_server_key_exchange decode_tls_key_exchange
    read_secp256r1_curve_params read_u16 build_server_hello_done handle_server_hello_done
    build_client_key_exchange make_client_key_exchange handle_client_key_exchange
    read_client_key_exchange cursor_u16 read_array_32 read_vec_u8 read_vec_u16 read_extensions
    decode_all read_extension cursor_finish suites_of
built = (refl, refl, refl, refl, refl, refl, refl)

derive_key_material-build_example :
    (hello1 : ClientHello) × (hello2 : ServerHello) × (y : RoundTwo) × ((handle_client_hello toy
        fresh_server ch).1
      ≡ ok hello1)
    × ((handle_server_hello toy k1 sh).1 ≡ ok hello2)
    × ((handle_server_key_exchange toy k2 ske).1 ≡ ok y)
    × ((handle_server_hello_done toy k3 shd).1 ≡ ok tt)
    × ((handle_client_key_exchange toy s4 cke).1 ≡ ok tt)
    × (k5.transcript ≡ s5.transcript)
    × (client_derive toy toy_mac k5 ≡ server_derive toy toy_mac s5)
derive_key_material-build_example =
    derive_key_material-build toy toy_mac client_random server_random secret (5 ∷ []) kkpp
      hello_payload 1 0 1 2 2 draws [] (i ∷ []) [] draws [] (i ∷ []) [] fresh_client k1 k2 k3 k4 k5
      fresh_server s1 s2 s3 s4 s5 sh ske shd cke (handle_client_hello toy fresh_server ch).1
      (handle_server_hello toy k1 sh).1 (handle_server_key_exchange toy k2 ske).1
      (handle_server_hello_done toy k3 shd).1 (handle_client_key_exchange toy s4 cke).1 refl refl
      new_client new_server built.0 built.1 built.2 refl built.3 refl built.4 refl built.5 refl
      built.6 refl

abbrev no_keys : ThreadDtlsKeyMaterial
no_keys = record {
  master_secret = [];
  key_block = record {
    client_write_key = [];
    server_write_key = [];
    client_write_iv = [];
    server_write_iv = [];
  };
}

abbrev keys : ThreadDtlsKeyMaterial
keys = value_of no_keys (client_derive toy toy_mac k5)

abbrev k6 : ThreadDtlsHandshake toy
k6 = (build_client_finished toy toy_mac k5 3).0

abbrev client_finished : HandshakeMessage
client_finished = value_of ch (build_client_finished toy toy_mac k5 3).1

abbrev s6 : ThreadDtlsServerHandshake toy
s6 = (verify_client_finished toy toy_mac s5 client_finished keys).0

abbrev s7 : ThreadDtlsServerHandshake toy
s7 = (build_server_finished toy toy_mac s6 3 keys).0

abbrev server_finished : HandshakeMessage
server_finished = value_of ch (build_server_finished toy toy_mac s6 3 keys).1

finished_built :
    (client_derive toy toy_mac k5 ≡ ok keys)
    × (build_client_finished toy toy_mac k5 3 ≡ (k6, ok client_finished))
    × (build_server_finished toy toy_mac s6 3 keys ≡ (s7, ok server_finished))
unfolding record_client_hello push pushed transcript_bytes encode_header validate write_u24 encode
    suite_bytes append_extensions hello_of thread_profile thread_profile_with_ecjpake
    set_ecjpake_kkpp encode_tls_kkpp write_key_kp encode_tls write_tls_point trim_scalar_bytes
    point_from_bytes proof_with challenge_scalar handle_client_hello read_client_hello decode_client
    client_kkpp find_extension decode_tls_kkpp read_key_kp read_proof read_tls_point read_opaque_u8
    read_u8 read_exact finish_cursor verify build_server_hello make_server_hello server_hello_of
    encode_server handle_server_hello read_server_hello decode_server server_kkpp
    validate_thread_profile build_server_key_exchange make_server_key_exchange round_two
    verify_round_one second_round_base generate random_scalar encode_tls_key_exchange
    handle_server_key_exchange read_server_key_exchange decode_tls_key_exchange
    read_secp256r1_curve_params read_u16 build_server_hello_done handle_server_hello_done
    build_client_key_exchange make_client_key_exchange handle_client_key_exchange
    read_client_key_exchange cursor_u16 read_array_32 read_vec_u8 read_vec_u16 read_extensions
    decode_all read_extension cursor_finish suites_of client_derive server_derive finish
    derive_session_key point_x_bytes key_material_of derive_master_secret
    derive_aes_128_ccm_8_key_block tls12_prf prf_loop hmac_sha256 build_client_finished
    client_finished_verify_data verify_client_finished check_client_finished build_server_finished
    finished_verify_data
finished_built = (refl, refl, refl)

same_transcripts : k5.transcript ≡ s5.transcript
same_transcripts =
    (derive_key_material-build toy toy_mac client_random server_random secret (5 ∷ []) kkpp
      hello_payload 1 0 1 2 2 draws [] (i ∷ []) [] draws [] (i ∷ []) [] fresh_client k1 k2 k3 k4 k5
      fresh_server s1 s2 s3 s4 s5 sh ske shd cke (handle_client_hello toy fresh_server ch).1
      (handle_server_hello toy k1 sh).1 (handle_server_key_exchange toy k2 ske).1
      (handle_server_hello_done toy k3 shd).1 (handle_client_key_exchange toy s4 cke).1 refl refl
      new_client new_server built.0 built.1 built.2 refl built.3 refl built.4 refl built.5 refl
      built.6 refl).8

verify_finished-build_example :
    ((verify_client_finished toy toy_mac s5 client_finished keys).1 ≡ ok tt)
    × ((verify_server_finished toy toy_mac k6 server_finished keys).1 ≡ ok tt)
    × ((verify_server_finished toy toy_mac k6 server_finished keys).0.transcript ≡ s7.transcript)
verify_finished-build_example =
    verify_finished-build toy toy_mac k5 k6
      (verify_server_finished toy toy_mac k6 server_finished keys).0 s5 s6 s7 keys 3 3
      client_finished server_finished (verify_client_finished toy toy_mac s5 client_finished keys).1
      (verify_server_finished toy toy_mac k6 server_finished keys).1 same_transcripts
      finished_built.0 finished_built.1 refl finished_built.2 refl
