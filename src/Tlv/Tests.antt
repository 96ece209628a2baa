-- ===== src/Tlv/Tests.antt =====
-- Concrete runs, and the theorems at concrete inputs.
use ot_commissioner_rs.Base.{◌≤◌, ◌≡◌, refl, [], ◌∷◌, arith, Bytes, length, ok, err, some}
use ot_commissioner_rs.Tlv.{
  encode_entry, TlvSet, buffer_too_small, encode, parse, parse_one, last_value,
}
use ot_commissioner_rs.Tlv.Parsing.{encode-parse}
use ot_commissioner_rs.Tlv.RoundTrip.{parse-encode}

abbrev duplicates : TlvSet
duplicates = record {
  entries =
      record { ty = 1; value = 0xaa ∷ [] }
      ∷ record { ty = 2; value = 0xbb ∷ [] }
      ∷ record { ty = 1; value = 0xcc ∷ [] }
      ∷ [];
}

abbrev duplicates_bytes : Bytes
duplicates_bytes = 1 ∷ 1 ∷ 0xaa ∷ 2 ∷ 1 ∷ 0xbb ∷ 1 ∷ 1 ∷ 0xcc ∷ []

-- The extended header where the short one would do.
abbrev padded_bytes : Bytes
padded_bytes = 2 ∷ 255 ∷ 0 ∷ 1 ∷ 0xbb ∷ []

abbrev padded : TlvSet
padded = record { entries = record { ty = 2; value = 0xbb ∷ [] } ∷ [] }

encode-duplicates : encode duplicates ≡ ok duplicates_bytes
unfolding encode encode_entry
encode-duplicates = refl

parse-padded : parse padded_bytes ≡ ok padded
unfolding parse parse_one
parse-padded = refl

parse_cut : parse (1 ∷ 255 ∷ 0 ∷ 2 ∷ 0xaa ∷ []) ≡ err buffer_too_small
unfolding parse parse_one
parse_cut = refl

newest : last_value 1 duplicates ≡ some (0xcc ∷ [])
unfolding last_value
newest = refl

parse-encode_example : parse duplicates_bytes ≡ ok duplicates
parse-encode_example = parse-encode duplicates duplicates_bytes encode-duplicates

encode-parse_example :
    (out : Bytes) × (encode padded ≡ ok out)
    × (parse out ≡ ok padded)
    × (length out ≤ length padded_bytes)
encode-parse_example = encode-parse padded_bytes padded (omega arith) parse-padded
