-- ===== src/Dtls/Handshake.antt =====
-- crates/thread-dtls/src/handshake.rs and the 24-bit integers of util.rs: handshake fragments and whole
-- messages. How a record is read as messages is in Handshake/Readers.antt.
pub mod Readers
pub mod Transcript
pub mod Fragments
pub mod Messages
pub mod Fragmentation
pub mod Reassembler
mod Tests
use ot_commissioner_rs.Base.{
  ℕ, zero, suc, max, ◌+◌, ◌*◌, ◌/◌, ◌%◌, ◌^◌, bit_or, Bool, true, false, not, ◌&&◌, ◌||◌, List, [],
  ◌∷◌, ◌++◌, String, ltb, ◌==◌, if◌then◌else◌, length, take, drop, Bytes, as_u8, to_be_u16,
  from_be_u16, Result, ok, err, ◌>>=◌, ◌>>◌, fail_if,
}
use ot_commissioner_rs.Base.Loop.{decode_all}
use ot_commissioner_rs.Dtls.{Error, crypto}
use ot_commissioner_rs.Dtls.Record.{ContentType, handshake, to_u8, DtlsRecord}

pub data HandshakeType : Type 0 where
  hello_request client_hello server_hello hello_verify_request certificate server_key_exchange :
      HandshakeType
  certificate_request server_hello_done certificate_verify client_key_exchange finished :
      HandshakeType

-- `message_type as u8`
abbrev pub type_code : HandshakeType → ℕ
type_code hello_request = 0
type_code client_hello = 1
type_code server_hello = 2
type_code hello_verify_request = 3
type_code certificate = 11
type_code server_key_exchange = 12
type_code certificate_request = 13
type_code server_hello_done = 14
type_code certificate_verify = 15
type_code client_key_exchange = 16
type_code finished = 20

-- `==` on content types and on handshake types
abbrev pub same_content : ContentType → ContentType → Bool
same_content a b = to_u8 a == to_u8 b

abbrev pub same_type : HandshakeType → HandshakeType → Bool
same_type a b = type_code a == type_code b

-- `HandshakeType::try_from`, in two parts
try_from_low : ℕ → Result Error HandshakeType
try_from_low value =
    if value == 0
    then ok hello_request
    else if value == 1
    then ok client_hello
    else if value == 2
    then ok server_hello
    else if value == 3
    then ok hello_verify_request
    else if value == 11
    then ok certificate
    else err (crypto "unknown DTLS handshake type")

unfoldable pub try_from : ℕ → Result Error HandshakeType
unfolding try_from_low
try_from value =
    if value == 12
    then ok server_key_exchange
    else if value == 13
    then ok certificate_request
    else if value == 14
    then ok server_hello_done
    else if value == 15
    then ok certificate_verify
    else if value == 16
    then ok client_key_exchange
    else if value == 20
    then ok finished
    else try_from_low value

pub record HandshakeHeader : Type 0 where
  pub message_type : HandshakeType
  pub len : ℕ
  pub message_seq : ℕ
  pub fragment_offset : ℕ
  pub fragment_length : ℕ

pub record HandshakeFragment : Type 0 where
  pub header : HandshakeHeader
  pub fragment : Bytes

pub record HandshakeMessage : Type 0 where
  pub message_type : HandshakeType
  pub message_seq : ℕ
  pub payload : Bytes

abbrev pub max_u24 : ℕ
max_u24 = 0x00ff_ffff

abbrev pub handshake_header_len : ℕ
handshake_header_len = 12

unfoldable pub read_u24 : ℕ → ℕ → ℕ → ℕ
read_u24 b0 b1 b2 = bit_or (bit_or (b0 * 2 ^ 16) (b1 * 2 ^ 8)) b2

-- The three bytes that are written; the slice always has length 3 here.
unfoldable pub write_u24 : ℕ → Result Error Bytes
write_u24 value =
    if ltb max_u24 value
    then err (crypto "invalid 24-bit integer")
    else ok (as_u8 (value / 2 ^ 16) ∷ as_u8 (value / 2 ^ 8) ∷ as_u8 value ∷ [])

-- The sum stays below 2^25 after the first test, so the u32 addition does not wrap.
unfoldable pub validate : HandshakeHeader → Result Error (Unit {0})
validate h = do
  fail_if (ltb max_u24 h.len || ltb max_u24 h.fragment_offset || ltb max_u24 h.fragment_length)
      (crypto "DTLS handshake length exceeds 24-bit field")
  fail_if (ltb h.len (h.fragment_offset + h.fragment_length))
      (crypto "DTLS handshake fragment exceeds message length")
  ok tt

-- `HandshakeHeader::parse`
unfoldable pub parse_header : Bytes → Result Error HandshakeHeader
parse_header (b0 ∷ b1 ∷ b2 ∷ b3 ∷ b4 ∷ b5 ∷ b6 ∷ b7 ∷ b8 ∷ b9 ∷ b10 ∷ b11 ∷ rest) = do
  message_type ← try_from b0
  let header : HandshakeHeader = record {
    message_type = message_type;
    len = read_u24 b1 b2 b3;
    message_seq = from_be_u16 b4 b5;
    fragment_offset = read_u24 b6 b7 b8;
    fragment_length = read_u24 b9 b10 b11;
  }
  validate header
  ok header
parse_header _ = err (crypto "DTLS handshake header is truncated")

-- `HandshakeHeader::encode`
unfoldable pub encode_header : HandshakeHeader → Result Error Bytes
encode_header h = do
  validate h
  len ← write_u24 h.len
  offset ← write_u24 h.fragment_offset
  size ← write_u24 h.fragment_length
  ok (type_code h.message_type ∷ (len ++ (to_be_u16 h.message_seq ++ (offset ++ size))))

-- `HandshakeFragment::parse`
unfoldable pub parse_fragment : Bytes → Result Error HandshakeFragment
parse_fragment bytes = do
  header ← parse_header bytes
  fail_if (ltb (length bytes) (handshake_header_len + header.fragment_length))
      (crypto "DTLS handshake fragment is truncated")
  ok (record {
    header = header;
    fragment = take header.fragment_length (drop handshake_header_len bytes);
  })

-- `HandshakeFragment::encode`
unfoldable pub encode_fragment : HandshakeFragment → Result Error Bytes
encode_fragment f = do
  fail_if (not (length f.fragment == f.header.fragment_length))
      (crypto "DTLS handshake fragment header length does not match payload")
  header ← encode_header f.header
  ok (header ++ f.fragment)

-- `<[u8]>::chunks`, with as much fuel as there are bytes
chunks : ℕ → ℕ → Bytes → List Bytes
chunks fuel n [] = []
chunks zero n (b ∷ bs) = []
chunks (suc fuel) n (b ∷ bs) = take n (b ∷ bs) ∷ chunks fuel n (drop n (b ∷ bs))

-- The fragment at `offset`, which stays below 2^24, so `checked_mul` and the cast lose nothing.
fragment_at : HandshakeMessage → ℕ → Bytes → HandshakeFragment
fragment_at m offset piece = record {
  header = record {
    message_type = m.message_type;
    len = length m.payload;
    message_seq = m.message_seq;
    fragment_offset = offset;
    fragment_length = length piece;
  };
  fragment = piece;
}

-- The loop over the chunks from the index `idx` on.
fragment_loop : HandshakeMessage → ℕ → ℕ → List Bytes → List HandshakeFragment
fragment_loop m n idx [] = []
fragment_loop m n idx (piece ∷ pieces) =
    fragment_at m (idx * n) piece ∷ fragment_loop m n (idx + 1) pieces

-- A message with no payload has one empty fragment.
or_empty : HandshakeMessage → List HandshakeFragment → List HandshakeFragment
or_empty m [] = fragment_at m 0 [] ∷ []
or_empty m fs = fs

-- `HandshakeMessage::fragment`
unfoldable pub fragment : HandshakeMessage → ℕ → Result Error (List HandshakeFragment)
unfolding chunks fragment_loop or_empty fragment_at
fragment m max_fragment_len = do
  fail_if (max_fragment_len == 0) (crypto "maximum handshake fragment length must be nonzero")
  fail_if (ltb max_u24 (length m.payload)) (crypto "DTLS handshake message exceeds 24-bit length")
  ok (
      or_empty m
        (fragment_loop m max_fragment_len 0 (chunks (length m.payload) max_fragment_len m.payload)))

first_of_fragments : List HandshakeFragment → Result Error HandshakeFragment
first_of_fragments [] = err (crypto "missing handshake fragment")
first_of_fragments (f ∷ fs) = ok f

-- `HandshakeMessage::encode`
unfoldable pub encode : HandshakeMessage → Result Error Bytes
unfolding first_of_fragments
encode m = do
  fragments ← fragment m (max (length m.payload) 1)
  first ← first_of_fragments fragments
  encode_fragment first

-- `HandshakeMessage::transcript_bytes`
unfoldable pub transcript_bytes : HandshakeMessage → Result Error Bytes
transcript_bytes m = do
  fail_if (not (ltb (length m.payload) (2 ^ 32)))
      (crypto "DTLS handshake message exceeds 24-bit length")
  header ← encode_header (record {
    message_type = m.message_type;
    len = length m.payload;
    message_seq = m.message_seq;
    fragment_offset = 0;
    fragment_length = length m.payload;
  })
  ok (header ++ m.payload)
