-- ===== src/Dtls/Hello.antt =====
-- crates/thread-dtls/src/hello.rs: the bodies of hello messages and their extensions, with the constants
-- of constants.rs. The messages' operations are in Hello/Client, Hello/Server and Hello/Verify, and the
-- client's hello state in Hello/State.antt.
pub mod Extensions
pub mod Client
pub mod Server
pub mod Verify
pub mod State
mod Tests
use ot_commissioner_rs.Base.{
  String, ℕ, ◌+◌, ◌*◌, ◌/◌, ◌%◌, ◌≡◌, List, [], ◌∷◌, ◌++◌, Option, none, some, Bool, not, ◌||◌, ltb,
  ◌==◌, if◌then◌else◌, length, retain, find, Bytes, as_u8, to_be_u16, from_be_u16, Result, ok, err,
  ◌>>=◌, ◌>>◌, fail_if,
}
use ot_commissioner_rs.Base.Loop.{decode_all}
use ot_commissioner_rs.Dtls.{Error, crypto}
use ot_commissioner_rs.Dtls.Cursor.{
  read_u8, read_u16, read_array_32, read_vec_u8, read_vec_u16, finish,
}
use ot_commissioner_rs.Dtls.Record.{dtls_1_2_version}
use mathlib.Core.Option

abbrev pub tls_ecjpake_with_aes_128_ccm_8 : ℕ
tls_ecjpake_with_aes_128_ccm_8 = 0xc0ff

abbrev pub tls_empty_renegotiation_info_scsv : ℕ
tls_empty_renegotiation_info_scsv = 0x00ff

abbrev pub tls_compression_null : ℕ
tls_compression_null = 0

abbrev pub extension_supported_groups : ℕ
extension_supported_groups = 10

abbrev pub extension_max_fragment_length : ℕ
extension_max_fragment_length = 1

abbrev pub extension_ec_point_formats : ℕ
extension_ec_point_formats = 11

abbrev pub extension_signature_algorithms : ℕ
extension_signature_algorithms = 13

abbrev pub extension_ecjpake_kkpp : ℕ
extension_ecjpake_kkpp = 256

abbrev pub named_group_secp256r1 : ℕ
named_group_secp256r1 = 23

abbrev pub ec_point_format_uncompressed : ℕ
ec_point_format_uncompressed = 0

pub record TlsExtension : Type 0 where
  pub extension_type : ℕ
  pub body : Bytes

pub record ClientHello : Type 0 where
  pub random : Bytes
  pub session_id : Bytes
  pub cookie : Bytes
  pub cipher_suites : List ℕ
  pub compression_methods : Bytes
  pub extensions : List TlsExtension

pub record HelloVerifyRequest : Type 0 where
  pub server_version : ℕ
  pub cookie : Bytes

pub record ServerHello : Type 0 where
  pub random : Bytes
  pub session_id : Bytes
  pub cipher_suite : ℕ
  pub compression_method : ℕ
  pub extensions : List TlsExtension

abbrev pub supported_groups_extension : TlsExtension
supported_groups_extension = record {
  extension_type = extension_supported_groups;
  body = 0x00 ∷ 0x02 ∷ as_u8 (named_group_secp256r1 / 256) ∷ as_u8 named_group_secp256r1 ∷ [];
}

abbrev pub signature_algorithms_extension : TlsExtension
signature_algorithms_extension = record {
  extension_type = extension_signature_algorithms;
  body = 0x00 ∷ 0x02 ∷ 0x04 ∷ 0x03 ∷ [];
}

abbrev pub ec_point_formats_extension : TlsExtension
ec_point_formats_extension = record {
  extension_type = extension_ec_point_formats;
  body = 0x01 ∷ ec_point_format_uncompressed ∷ [];
}

abbrev pub max_fragment_length_extension : TlsExtension
max_fragment_length_extension = record {
  extension_type = extension_max_fragment_length;
  body = 0x02 ∷ [];
}

unfoldable pub find_extension : List TlsExtension → ℕ → Option Bytes
unfolding find
find_extension extensions ty =
    Option.map (λ (e : TlsExtension). e.body) (find (λ e. e.extension_type == ty) extensions)

-- `field` stands for the whole text, "{field} exceeds 255 bytes".
abbrev pub validate_u8_len : ℕ → String → Result Error (Unit {0})
validate_u8_len len field = fail_if (ltb 255 len) (crypto field)

abbrev pub validate_u16_len : ℕ → String → Result Error (Unit {0})
validate_u16_len len field = fail_if (ltb 65535 len) (crypto field)

-- The loop of `append_extensions`, with `encoded`.
encode_extensions : List TlsExtension → Bytes → Result Error Bytes
encode_extensions [] encoded = ok encoded
encode_extensions (e ∷ es) encoded = do
  validate_u16_len (length e.body) "TLS extension exceeds 65535 bytes"
  encode_extensions es
      (((encoded ++ to_be_u16 e.extension_type) ++ to_be_u16 (length e.body)) ++ e.body)

unfoldable pub append_extensions : Bytes → List TlsExtension → Result Error Bytes
unfolding encode_extensions
append_extensions out extensions = do
  encoded ← encode_extensions extensions []
  validate_u16_len (length encoded) "TLS extensions exceeds 65535 bytes"
  ok ((out ++ to_be_u16 (length encoded)) ++ encoded)

-- One round of the loop of `Cursor::read_extensions`.
unfoldable pub read_extension : Bytes → Result Error (TlsExtension × Bytes)
read_extension bytes = do
  (ty, bytes) ← read_u16 bytes
  (body, bytes) ← read_vec_u16 bytes
  ok (record { extension_type = ty; body = body }, bytes)

-- `Cursor::read_extensions`
unfoldable pub read_extensions : Bytes → Result Error (List TlsExtension × Bytes)
read_extensions [] = ok ([], [])
read_extensions (b ∷ bs) = do
  (extension_bytes, rest) ← read_vec_u16 (b ∷ bs)
  extensions ← decode_all read_extension (length extension_bytes) extension_bytes []
  ok (extensions, rest)
