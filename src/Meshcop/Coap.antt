-- ===== src/Meshcop/Coap.antt =====
-- crates/ot-commissioner-rs/src/meshcop/coap.rs: CoAP messages and their codec.
pub mod Sorting
pub mod Nibbles
pub mod Options
pub mod RoundTrip
pub mod Decoding
pub mod UriPath
mod Tests
use ot_commissioner_rs.Base.{
  ℕ, zero, suc, ◌+◌, ◌-◌, ◌*◌, ◌/◌, ◌^◌, bit_and, bit_or, Bool, true, false, not, ◌&&◌, ◌||◌, List,
  [], ◌∷◌, ◌++◌, map, ltb, leb, ◌==◌, if◌then◌else◌, length, take, drop, Bytes, as_u8, to_be_u16,
  from_be_u16, Result, ok, err, stuck, ◌>>=◌, ◌>>◌, fail_if,
}
use ot_commissioner_rs.Errors.{Error, dataset}

pub data CoapType : Type 0 where
  confirmable non_confirmable acknowledgement reset : CoapType

-- `ty as u8`
abbrev pub type_code : CoapType → ℕ
type_code confirmable = 0
type_code non_confirmable = 1
type_code acknowledgement = 2
type_code reset = 3

-- `CoapType::try_from`
unfoldable pub try_from : ℕ → Result Error CoapType
try_from value =
    if value == 0
    then ok confirmable
    else if value == 1
    then ok non_confirmable
    else if value == 2
    then ok acknowledgement
    else if value == 3
    then ok reset
    else err (dataset "invalid CoAP type")

-- The codes, of the type `CoapCode`, which wraps a byte.
abbrev pub empty_code : ℕ
empty_code = 0x00

abbrev pub post : ℕ
post = 0x02

abbrev pub changed : ℕ
changed = 0x44

pub record CoapOption : Type 0 where
  pub number : ℕ
  pub value : Bytes

pub record CoapMessage : Type 0 where
  pub ty : CoapType
  pub code : ℕ
  pub message_id : ℕ
  pub token : Bytes
  pub options : List CoapOption
  pub payload : Bytes

-- `CoapMessage::empty_ack`
unfoldable pub empty_ack : ℕ → CoapMessage
empty_ack message_id = record {
  ty = acknowledgement;
  code = empty_code;
  message_id = message_id;
  token = [];
  options = [];
  payload = [];
}

-- `CoapMessage::empty_changed_response`
unfoldable pub empty_changed_response : CoapMessage → CoapMessage
empty_changed_response request = record {
  ty = acknowledgement;
  code = changed;
  message_id = request.message_id;
  token = request.token;
  options = [];
  payload = [];
}

-- `is_empty` of a vector
abbrev pub is_empty {ℓ} : {A : Type ℓ} → List A → Bool
is_empty [] = true
is_empty (x ∷ xs) = false

-- `CoapMessage::is_empty_ack_for`
unfoldable pub is_empty_ack_for : CoapMessage → ℕ → Bool
is_empty_ack_for m message_id =
    (type_code m.ty == type_code acknowledgement)
    && ((m.code == empty_code)
        && ((m.message_id == message_id)
            && (is_empty m.token && (is_empty m.options && is_empty m.payload))))

-- The nibble and the bytes behind it. It never fails on a u16.
unfoldable pub encode_extended_nibble : ℕ → Result Error (ℕ × Bytes)
encode_extended_nibble value =
    if leb value 12
    then ok (as_u8 value, [])
    else if leb value 268
    then ok (13, as_u8 (value - 13) ∷ [])
    else ok (14, to_be_u16 (value - 269))

one_byte : Bytes → Result Error (ℕ × ℕ)
one_byte [] = err (dataset "CoAP option extension is truncated")
one_byte (b ∷ bs) = ok (b + 13, 1)

two_bytes : Bytes → Result Error (ℕ × ℕ)
two_bytes (b0 ∷ b1 ∷ bs) =
    if ltb 65535 (from_be_u16 b0 b1 + 269)
    then err (dataset "CoAP option extension overflow")
    else ok (from_be_u16 b0 b1 + 269, 2)
two_bytes _ = err (dataset "CoAP option extension is truncated")

-- The value, and how many bytes it took.
unfoldable pub decode_extended_nibble : ℕ → Bytes → Result Error (ℕ × ℕ)
unfolding one_byte two_bytes
decode_extended_nibble nibble bytes =
    if leb nibble 12
    then ok (nibble, 0)
    else if nibble == 13
    then one_byte bytes
    else if nibble == 14
    then two_bytes bytes
    else err (dataset "reserved CoAP option nibble")

-- The bytes that `encode_option_header` appends.
unfoldable pub encode_option_header : ℕ → ℕ → Result Error Bytes
encode_option_header delta len = do
  d ← encode_extended_nibble delta
  fail_if (ltb 65535 len) (dataset "CoAP option too long")
  l ← encode_extended_nibble len
  ok (bit_or (as_u8 (d.0 * 2 ^ 4)) l.0 ∷ (d.1 ++ l.1))

-- `checked_sub`, with the loop's error
checked_sub : ℕ → ℕ → Result Error ℕ
checked_sub a b = if ltb a b then err (dataset "CoAP option numbers decreased") else ok (a - b)

-- The bytes that the loop over the sorted options appends.
unfoldable pub encode_options : ℕ → List CoapOption → Result Error Bytes
unfolding checked_sub
encode_options last_number [] = ok []
encode_options last_number (o ∷ os) = do
  delta ← checked_sub o.number last_number
  header ← encode_option_header delta (length o.value)
  rest ← encode_options o.number os
  ok (header ++ (o.value ++ rest))

-- `sort_by_key(|(idx, option)| (option.number, *idx))` of the enumerated options. The keys differ from
-- one another, so every sort gives this list.
enumerate : ℕ → List CoapOption → List (ℕ × CoapOption)
enumerate idx [] = []
enumerate idx (o ∷ os) = (idx, o) ∷ enumerate (idx + 1) os

key_le : ℕ × CoapOption → ℕ × CoapOption → Bool
key_le (i, o) (j, p) = ltb o.number p.number || (o.number == p.number) && leb i j

insert : ℕ × CoapOption → List (ℕ × CoapOption) → List (ℕ × CoapOption)
insert x [] = x ∷ []
insert x (y ∷ ys) = let rest = insert x ys in if key_le x y then x ∷ (y ∷ ys) else y ∷ rest

sort_by_key : List (ℕ × CoapOption) → List (ℕ × CoapOption)
sort_by_key [] = []
sort_by_key (x ∷ xs) = insert x (sort_by_key xs)

unfoldable pub sorted : List CoapOption → List CoapOption
unfolding enumerate key_le insert sort_by_key
sorted os = map (λ x. x.1) (sort_by_key (enumerate 0 os))

-- The payload with its marker.
abbrev pub marked : Bytes → Bytes
marked [] = []
marked (b ∷ bs) = 0xff ∷ b ∷ bs

-- `CoapMessage::encode`
unfoldable pub encode : CoapMessage → Result Error Bytes
encode m = do
  fail_if (ltb 8 (length m.token)) (dataset "CoAP token length > 8")
  options ← encode_options 0 (sorted m.options)
  ok (
      bit_or (bit_or (1 * 2 ^ 6) (as_u8 (type_code m.ty * 2 ^ 4))) (as_u8 (length m.token))
      ∷ (m.code ∷ (to_be_u16 m.message_id ++ (m.token ++ (options ++ marked m.payload)))))

-- One round of the loop of `decode` behind the marker's test: the option, and the bytes left.
unfoldable pub decode_option : ℕ → ℕ → Bytes → Result Error (CoapOption × Bytes)
decode_option last_number first after_header = do
  delta ← decode_extended_nibble (first / 2 ^ 4) after_header
  let after_delta = drop delta.1 after_header
  len ← decode_extended_nibble (bit_and first 0x0f) after_delta
  let after_length = drop len.1 after_delta
  fail_if (ltb (length after_length) len.0) (dataset "CoAP option value is truncated")
  fail_if (ltb 65535 (last_number + delta.0)) (dataset "CoAP option number overflow")
  ok (
    record { number = last_number + delta.0; value = take len.0 after_length },
    drop len.0 after_length,
  )

-- The loop of `decode`: the options and the payload.
unfoldable pub decode_options :
    ℕ → ℕ → Bytes → List CoapOption → Result Error (List CoapOption × Bytes)
decode_options fuel last_number [] options = ok (options, [])
decode_options zero last_number (first ∷ after_header) options = stuck
decode_options (suc fuel) last_number (first ∷ after_header) options =
    if first == 0xff
    then ok (options, after_header)
    else decode_option last_number first after_header >>= λ r.
        decode_options fuel r.0.number r.1 (options ++ r.0 ∷ [])

-- `CoapMessage::decode`
unfoldable pub decode : Bytes → Result Error CoapMessage
decode (b0 ∷ b1 ∷ b2 ∷ b3 ∷ rest) = do
  fail_if (not (b0 / 2 ^ 6 == 1)) (dataset "unsupported CoAP version")
  let token_len = bit_and b0 0x0f
  fail_if (ltb 8 token_len || ltb (length (b0 ∷ b1 ∷ b2 ∷ b3 ∷ rest)) (4 + token_len))
      (dataset "invalid CoAP token length")
  ty ← try_from (bit_and (b0 / 2 ^ 4) 0x03)
  body ← decode_options (length rest) 0 (drop token_len rest) []
  ok (record {
    ty = ty;
    code = b1;
    message_id = from_be_u16 b2 b3;
    token = take token_len rest;
    options = body.0;
    payload = body.1;
  })
decode _ = err (dataset "CoAP header is truncated")
