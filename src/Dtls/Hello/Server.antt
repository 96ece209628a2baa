-- ===== src/Dtls/Hello/Server.antt =====
-- `ServerHello` of crates/thread-dtls/src/hello.rs.
pub mod RoundTrip
use ot_commissioner_rs.Base.{
  ℕ, ◌+◌, ◌*◌, ◌/◌, ◌%◌, ◌≡◌, List, [], ◌∷◌, ◌++◌, Option, none, some, Bool, not, ◌||◌, ltb, ◌==◌,
  if◌then◌else◌, length, retain, find, Bytes, as_u8, to_be_u16, from_be_u16, Result, ok, err, ◌>>=◌,
  ◌>>◌, fail_if,
}
use ot_commissioner_rs.Base.Loop.{decode_all}
use ot_commissioner_rs.Dtls.{Error, crypto}
use ot_commissioner_rs.Dtls.Cursor.{
  read_u8, read_u16, read_array_32, read_vec_u8, read_vec_u16, finish,
}
use ot_commissioner_rs.Dtls.Record.{dtls_1_2_version}
use ot_commissioner_rs.Dtls.Hello.{
  ClientHello, ServerHello, HelloVerifyRequest, TlsExtension, supported_groups_extension,
  signature_algorithms_extension, ec_point_formats_extension, max_fragment_length_extension,
  extension_ecjpake_kkpp, extension_max_fragment_length, tls_ecjpake_with_aes_128_ccm_8,
  tls_empty_renegotiation_info_scsv, tls_compression_null, find_extension, append_extensions,
  read_extensions, validate_u8_len, validate_u16_len,
}

-- `ServerHello::validate_thread_profile`
unfoldable pub validate_thread_profile : ServerHello → Result Error (Unit {0})
validate_thread_profile h = do
  fail_if (not (h.cipher_suite == tls_ecjpake_with_aes_128_ccm_8))
      (crypto "ServerHello selected an unsupported cipher suite")
  fail_if (not (h.compression_method == tls_compression_null))
      (crypto "ServerHello selected an unsupported compression method")
  ok tt

-- `ServerHello::ecjpake_kkpp`
unfoldable pub ecjpake_kkpp : ServerHello → Option Bytes
unfolding find_extension
ecjpake_kkpp h = find_extension h.extensions extension_ecjpake_kkpp

-- `ServerHello::encode`
unfoldable pub encode : ServerHello → Result Error Bytes
encode h = do
  validate_u8_len (length h.session_id) "ServerHello session_id exceeds 255 bytes"
  append_extensions
      (to_be_u16 dtls_1_2_version
        ++ (h.random
            ++ (as_u8 (length h.session_id)
                ∷ (h.session_id ++ (to_be_u16 h.cipher_suite ++ h.compression_method ∷ [])))))
      h.extensions

-- `ServerHello::decode`
unfoldable pub decode : Bytes → Result Error ServerHello
decode bytes = do
  (version, bytes) ← read_u16 bytes
  fail_if (not (version == dtls_1_2_version)) (crypto "ServerHello version is not DTLS 1.2")
  (random, bytes) ← read_array_32 bytes
  (session_id, bytes) ← read_vec_u8 bytes
  (cipher_suite, bytes) ← read_u16 bytes
  (compression_method, bytes) ← read_u8 bytes
  (extensions, bytes) ← read_extensions bytes
  finish bytes
  ok (record {
    random = random;
    session_id = session_id;
    cipher_suite = cipher_suite;
    compression_method = compression_method;
    extensions = extensions;
  })
