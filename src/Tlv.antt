-- ===== src/Tlv.antt =====
-- crates/ot-commissioner-rs/src/tlv.rs and wire.rs: type-length-value entries, their one-byte and
-- extended headers, and the ordered collection that keeps duplicates.
pub mod RoundTrip
pub mod Parsing
pub mod Values
mod Tests
use ot_commissioner_rs.Base.{
  ◌^◌, ◌*◌, ◌%◌, ℕ, ◌+◌, ◌≡◌, Bool, true, not, List, [], ◌∷◌, ◌++◌, reverse, map, Option, none,
  some, arith, ltb, leb, ◌==◌, if◌then◌else◌, length, take, drop, retain, find, Bytes, as_u8,
  to_be_u16, from_be_u16, from_be_u32, Result, ok, err, ◌>>=◌, ok_or,
}
use ot_commissioner_rs.Base.Loop.{decode_all}
use mathlib.Core.Option

pub data TlvError : Type 0 where
  buffer_too_small invalid_length invalid_value : TlvError
  value_too_large : ℕ → TlvError

pub record TlvEntry : Type 0 where
  pub ty : ℕ
  pub value : Bytes

pub record TlvSet : Type 0 where
  pub entries : List TlvEntry

abbrev pub max_standard_tlv_length : ℕ
max_standard_tlv_length = 254

abbrev pub extended_tlv_marker : ℕ
extended_tlv_marker = 0xff

abbrev pub max_extended_tlv_length : ℕ
max_extended_tlv_length = 65535

-- On an error the caller drops `out`, so only its final contents are returned.
unfoldable pub encode_header : ℕ → ℕ → Bytes → Result TlvError Bytes
encode_header ty len out =
    let out = out ++ ty ∷ [] in
    if leb len max_standard_tlv_length
    then ok (out ++ as_u8 len ∷ [])
    else if leb len max_extended_tlv_length
    then ok ((out ++ extended_tlv_marker ∷ []) ++ to_be_u16 (len % 2 ^ 16))
    else err (value_too_large len)

-- `TlvEntry::encode`
unfoldable pub encode_entry : TlvEntry → Bytes → Result TlvError Bytes
unfolding encode_header
encode_entry e out = do out ← encode_header e.ty (length e.value) out; ok (out ++ e.value)

encode_loop : List TlvEntry → Bytes → Result TlvError Bytes
encode_loop [] out = ok out
encode_loop (e ∷ es) out = do out ← encode_entry e out; encode_loop es out

-- `TlvSet::encode`
unfoldable pub encode : TlvSet → Result TlvError Bytes
unfolding encode_loop
encode s = encode_loop s.entries []

-- The value of `len` bytes behind a header. `header_len + len` fits a usize, so `checked_add`
-- does not fail.
pub take_value : ℕ → ℕ → Bytes → Result TlvError (TlvEntry × Bytes)
take_value ty len after =
    if ltb (length after) len
    then err buffer_too_small
    else ok (record { ty = ty; value = take len after }, drop len after)

-- The two length bytes of the extended form.
extended : ℕ → Bytes → Result TlvError (TlvEntry × Bytes)
unfolding take_value
extended ty (b2 ∷ b3 ∷ after) = take_value ty (from_be_u16 b2 b3) after
extended ty _ = err buffer_too_small

unfoldable pub parse_one : Bytes → Result TlvError (TlvEntry × Bytes)
unfolding extended
parse_one (ty ∷ length_byte ∷ after) =
    if length_byte == extended_tlv_marker
    then extended ty after
    else take_value ty length_byte after
parse_one _ = err buffer_too_small

-- `TlvSet::parse`. Each round takes at least the two header bytes, so the input's length is fuel
-- enough.
unfoldable pub parse : Bytes → Result TlvError TlvSet
unfolding decode_all
parse bytes = do
  entries ← decode_all parse_one (length bytes) bytes []
  ok (record { entries = entries })

unfoldable pub push : TlvEntry → TlvSet → TlvSet
push e s = record { entries = s.entries ++ e ∷ [] }

unfoldable pub last_value : ℕ → TlvSet → Option Bytes
unfolding find
last_value ty s =
    Option.map (λ (e : TlvEntry). e.value) (find (λ e. e.ty == ty) (reverse s.entries))

unfoldable pub set_last : ℕ → Bytes → TlvSet → TlvSet
unfolding retain
set_last ty value s = record {
  entries = retain (λ e. not (e.ty == ty)) s.entries ++ record { ty = ty; value = value } ∷ [];
}

-- `wire::read_u16`, behind `tlv::read_u16`
unfoldable pub read_u16 : Bytes → Result TlvError ℕ
read_u16 (b0 ∷ b1 ∷ []) = ok (from_be_u16 b0 b1)
read_u16 _ = err invalid_length

unfoldable pub read_u32 : Bytes → Result TlvError ℕ
read_u32 (b0 ∷ b1 ∷ b2 ∷ b3 ∷ []) = ok (from_be_u32 b0 b1 b2 b3)
read_u32 _ = err invalid_length

unfoldable pub read_u64 : Bytes → Result TlvError ℕ
read_u64 (b0 ∷ b1 ∷ b2 ∷ b3 ∷ b4 ∷ b5 ∷ b6 ∷ b7 ∷ []) =
    ok (from_be_u32 b0 b1 b2 b3 * 2 ^ 32 + from_be_u32 b4 b5 b6 b7)
read_u64 _ = err invalid_length
