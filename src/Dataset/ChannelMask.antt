-- ===== src/Dataset/ChannelMask.antt =====
-- `ChannelMaskEntry` of crates/ot-commissioner-rs/src/dataset.rs.
pub mod Entries
use ot_commissioner_rs.Base.{
  ℕ, List, [], ◌∷◌, ◌++◌, ltb, length, take, drop, Bytes, as_u8, Result, ok, err, ◌>>=◌, ◌>>◌,
  fail_if,
}
use ot_commissioner_rs.Base.Loop.{decode_all}
use ot_commissioner_rs.Errors.{Error, dataset}

pub record ChannelMaskEntry : Type 0 where
  pub page : ℕ
  pub mask : Bytes

-- One round of the loop of `parse_all`.
unfoldable pub parse_entry : Bytes → Result Error (ChannelMaskEntry × Bytes)
parse_entry (page ∷ len ∷ value) = do
  fail_if (ltb (length value) len) (dataset "channel mask entry value is truncated")
  ok (record { page = page; mask = take len value }, drop len value)
parse_entry _ = err (dataset "channel mask entry header is truncated")

unfoldable pub parse_all : Bytes → Result Error (List ChannelMaskEntry)
parse_all value = decode_all parse_entry (length value) value []

-- The bytes that the loop appends.
unfoldable pub encode_all : List ChannelMaskEntry → Result Error Bytes
encode_all [] = ok []
encode_all (e ∷ es) = do
  fail_if (ltb 255 (length e.mask)) (dataset "channel mask entry too long")
  rest ← encode_all es
  ok (e.page ∷ (as_u8 (length e.mask) ∷ (e.mask ++ rest)))
