-- ===== src/Dtls/Record.antt =====
-- crates/thread-dtls/src/record.rs: DTLS record headers, records and datagrams.
pub mod Header
pub mod Datagram
mod Tests
use ot_commissioner_rs.Base.{
  ℕ, ◌+◌, ◌*◌, ◌/◌, ◌%◌, ◌^◌, bit_or, List, [], ◌∷◌, ◌++◌, ltb, ◌==◌, if◌then◌else◌, not, length,
  take, drop, Bytes, as_u8, to_be_u16, from_be_u16, Result, ok, err, ◌>>=◌, ◌>>◌, fail_if,
}
use ot_commissioner_rs.Base.Loop.{decode_all}
use ot_commissioner_rs.Dtls.{Error, crypto}

pub data ContentType : Type 0 where
  change_cipher_spec alert handshake application_data : ContentType

-- `content_type as u8`
abbrev pub to_u8 : ContentType → ℕ
to_u8 change_cipher_spec = 20
to_u8 alert = 21
to_u8 handshake = 22
to_u8 application_data = 23

-- `ContentType::try_from`
unfoldable pub try_from : ℕ → Result Error ContentType
try_from value =
    if value == 20
    then ok change_cipher_spec
    else if value == 21
    then ok alert
    else if value == 22
    then ok handshake
    else if value == 23
    then ok application_data
    else err (crypto "unknown DTLS content type")

pub record RecordHeader : Type 0 where
  pub content_type : ContentType
  pub version : ℕ
  pub epoch : ℕ
  pub sequence_number : ℕ
  pub len : ℕ

pub record DtlsRecord : Type 0 where
  pub header : RecordHeader
  pub payload : Bytes

abbrev pub header_len : ℕ
header_len = 13

abbrev pub dtls_1_2_version : ℕ
dtls_1_2_version = 0xfefd

-- The six bytes joined by shifts and `|`.
unfoldable pub sequence_of : ℕ → ℕ → ℕ → ℕ → ℕ → ℕ → ℕ
sequence_of b5 b6 b7 b8 b9 b10 =
    bit_or
      (bit_or (bit_or (bit_or (bit_or (b5 * 2 ^ 40) (b6 * 2 ^ 32)) (b7 * 2 ^ 24)) (b8 * 2 ^ 16))
        (b9 * 2 ^ 8))
      b10

-- The low 48 bits, most significant byte first.
abbrev pub sequence_bytes : ℕ → Bytes
sequence_bytes n =
    as_u8 (n / 2 ^ 40)
    ∷ as_u8 (n / 2 ^ 32)
    ∷ as_u8 (n / 2 ^ 24)
    ∷ as_u8 (n / 2 ^ 16)
    ∷ as_u8 (n / 2 ^ 8)
    ∷ as_u8 n
    ∷ []

-- `RecordHeader::parse`
unfoldable pub parse_header : Bytes → Result Error RecordHeader
unfolding sequence_of try_from
parse_header (b0 ∷ b1 ∷ b2 ∷ b3 ∷ b4 ∷ b5 ∷ b6 ∷ b7 ∷ b8 ∷ b9 ∷ b10 ∷ b11 ∷ b12 ∷ rest) = do
  content_type ← try_from b0
  ok (record {
    content_type = content_type;
    version = from_be_u16 b1 b2;
    epoch = from_be_u16 b3 b4;
    sequence_number = sequence_of b5 b6 b7 b8 b9 b10;
    len = from_be_u16 b11 b12;
  })
parse_header _ = err (crypto "DTLS record header is truncated")

-- `RecordHeader::encode`
unfoldable pub encode_header : RecordHeader → Bytes
encode_header h =
    to_u8 h.content_type
    ∷ (to_be_u16 h.version
        ++ (to_be_u16 h.epoch ++ (sequence_bytes h.sequence_number ++ to_be_u16 h.len)))

unfoldable pub aead_additional_data : RecordHeader → ℕ → Bytes
aead_additional_data h plaintext_len =
    to_be_u16 h.epoch
    ++ (sequence_bytes h.sequence_number
        ++ (to_u8 h.content_type ∷ (to_be_u16 h.version ++ to_be_u16 plaintext_len)))

-- `DtlsRecord::new`
unfoldable pub new : ContentType → ℕ → ℕ → Bytes → Result Error DtlsRecord
new content_type epoch sequence_number payload =
    if ltb (length payload) (2 ^ 16)
    then ok (record {
      header = record {
        content_type = content_type;
        version = dtls_1_2_version;
        epoch = epoch;
        sequence_number = sequence_number;
        len = length payload;
      };
      payload = payload;
    })
    else err (crypto "DTLS record payload is too long")

-- `DtlsRecord::encode`
unfoldable pub encode : DtlsRecord → Result Error Bytes
encode r =
    if not (length r.payload == r.header.len)
    then err (crypto "DTLS record header length does not match payload")
    else ok (encode_header r.header ++ r.payload)

-- One round of the loop of `parse_datagram`. The length fits 16 bits, so `checked_add` does not fail.
unfoldable pub parse_record : Bytes → Result Error (DtlsRecord × Bytes)
parse_record bytes = do
  header ← parse_header bytes
  fail_if (ltb (length bytes) (header_len + header.len)) (crypto "DTLS record payload is truncated")
  ok (
    record { header = header; payload = take header.len (drop header_len bytes) },
    drop (header_len + header.len) bytes,
  )

-- Each round takes at least a header, so the input's length is fuel enough.
unfoldable pub parse_datagram : Bytes → Result Error (List DtlsRecord)
parse_datagram bytes = decode_all parse_record (length bytes) bytes []
