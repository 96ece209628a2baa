-- ===== src/Dtls/Hello/Client.antt =====
-- `ClientHello` of crates/thread-dtls/src/hello.rs.
pub mod RoundTrip
pub mod Decoding
use ot_commissioner_rs.Base.{
  ℕ, ◌+◌, ◌*◌, ◌/◌, ◌%◌, ◌≡◌, List, [], ◌∷◌, ◌++◌, Option, none, some, Bool, not, ◌||◌, ltb, ◌==◌,
  if◌then◌else◌, length, retain, find, Bytes, as_u8, to_be_u16, from_be_u16, Result, ok, err, ◌>>=◌,
  ◌>>◌, fail_if,
}
use ot_commissioner_rs.Base.Loop.{decode_all}
use ot_commissioner_rs.Dtls.{Error, crypto}
use ot_commissioner_rs.Dtls.Cursor.{
  read_u8, read_u16, read_array_32, read_vec_u8, read_vec_u16, finish,
}
use ot_commissioner_rs.Dtls.Record.{dtls_1_2_version}
use ot_commissioner_rs.Dtls.Hello.{
  ClientHello, ServerHello, HelloVerifyRequest, TlsExtension, supported_groups_extension,
  signature_algorithms_extension, ec_point_formats_extension, max_fragment_length_extension,
  extension_ecjpake_kkpp, extension_max_fragment_length, tls_ecjpake_with_aes_128_ccm_8,
  tls_empty_renegotiation_info_scsv, tls_compression_null, find_extension, append_extensions,
  read_extensions, validate_u8_len, validate_u16_len,
}

-- The bytes of the cipher suites, and `chunks_exact(2)` of them read back.
unfoldable pub suite_bytes : List ℕ → Bytes
suite_bytes [] = []
suite_bytes (s ∷ ss) = to_be_u16 s ++ suite_bytes ss

unfoldable pub suites_of : Bytes → List ℕ
suites_of (b0 ∷ b1 ∷ rest) = from_be_u16 b0 b1 ∷ suites_of rest
suites_of _ = []

-- `ClientHello::thread_profile`
unfoldable pub thread_profile : Bytes → Bytes → ClientHello
thread_profile random cookie = record {
  random = random;
  session_id = [];
  cookie = cookie;
  cipher_suites = tls_ecjpake_with_aes_128_ccm_8 ∷ tls_empty_renegotiation_info_scsv ∷ [];
  compression_methods = tls_compression_null ∷ [];
  extensions =
      supported_groups_extension ∷ signature_algorithms_extension ∷ ec_point_formats_extension ∷ [];
}

-- `ClientHello::set_ecjpake_kkpp`
unfoldable pub set_ecjpake_kkpp : Bytes → ClientHello → ClientHello
unfolding retain
set_ecjpake_kkpp kkpp h = record h {
  extensions =
      (retain
          (λ e. not (
            e.extension_type == extension_ecjpake_kkpp
            || e.extension_type == extension_max_fragment_length))
          h.extensions
        ++ record { extension_type = extension_ecjpake_kkpp; body = kkpp } ∷ [])
      ++ max_fragment_length_extension ∷ [];
}

-- `ClientHello::thread_profile_with_ecjpake`
unfoldable pub thread_profile_with_ecjpake : Bytes → Bytes → Bytes → ClientHello
unfolding thread_profile set_ecjpake_kkpp
thread_profile_with_ecjpake random cookie kkpp =
    set_ecjpake_kkpp kkpp (thread_profile random cookie)

-- `ClientHello::ecjpake_kkpp`
unfoldable pub ecjpake_kkpp : ClientHello → Option Bytes
unfolding find_extension
ecjpake_kkpp h = find_extension h.extensions extension_ecjpake_kkpp

-- `ClientHello::encode`. A list of u16 in memory is shorter than the address space by a factor of two,
-- so `checked_mul` does not fail.
unfoldable pub encode : ClientHello → Result Error Bytes
encode h = do
  validate_u8_len (length h.session_id) "ClientHello session_id exceeds 255 bytes"
  validate_u8_len (length h.cookie) "ClientHello cookie exceeds 255 bytes"
  validate_u8_len (length h.compression_methods) "ClientHello compression methods exceeds 255 bytes"
  let cipher_len = length h.cipher_suites * 2
  validate_u16_len cipher_len "ClientHello cipher suites exceeds 65535 bytes"
  append_extensions
      (to_be_u16 dtls_1_2_version
        ++ (h.random
            ++ (as_u8 (length h.session_id)
                ∷ (h.session_id
                    ++ (as_u8 (length h.cookie)
                        ∷ (h.cookie
                            ++ (to_be_u16 cipher_len
                                ++ (suite_bytes h.cipher_suites
                                    ++ (as_u8 (length h.compression_methods)
                                        ∷ h.compression_methods)))))))))
      h.extensions

-- `ClientHello::decode`
unfoldable pub decode : Bytes → Result Error ClientHello
decode bytes = do
  (version, bytes) ← read_u16 bytes
  fail_if (not (version == dtls_1_2_version)) (crypto "ClientHello version is not DTLS 1.2")
  (random, bytes) ← read_array_32 bytes
  (session_id, bytes) ← read_vec_u8 bytes
  (cookie, bytes) ← read_vec_u8 bytes
  (cipher_bytes, bytes) ← read_vec_u16 bytes
  fail_if (not (length cipher_bytes % 2 == 0))
      (crypto "ClientHello cipher-suite vector has odd length")
  (compression_methods, bytes) ← read_vec_u8 bytes
  (extensions, bytes) ← read_extensions bytes
  finish bytes
  ok (record {
    random = random;
    session_id = session_id;
    cookie = cookie;
    cipher_suites = suites_of cipher_bytes;
    compression_methods = compression_methods;
    extensions = extensions;
  })
