-- ===== src/Meshcop/Parsers/Masks.antt =====
-- Channel masks of requests and notifications.
use ot_commissioner_rs.Base.{
  zero-bit_or, ◌^◌, ◌/◌, ℕ, ◌≡◌, ◌∙◌, ap, ◌==◌, arith, Bytes, ok, IsU32, to_be_u32, from_be_u32,
  as_u8, [], ◌∷◌, fail_if-eq-ok,
}
use ot_commissioner_rs.Dataset.ChannelMask.Entries.{parse_all-encode_all}
use ot_commissioner_rs.Meshcop.Builders.{channel_mask_value}
use ot_commissioner_rs.Meshcop.Parsers.{page_zero_mask, channel_mask_from_value}

-- A channel mask of 32 bits that a request is built with is the one that the parser reads.
pub channel_mask_from_value-channel_mask_value :
    (mask : ℕ) (value : Bytes)
    → IsU32 mask
    → channel_mask_value mask ≡ ok value
    → channel_mask_from_value value ≡ ok mask
unfolding channel_mask_value channel_mask_from_value page_zero_mask
channel_mask_from_value-channel_mask_value mask value h k =
    let (some_bit, written) = fail_if-eq-ok (mask == 0) _ _ k in
    let read =
      parse_all-encode_all (record { page = 0; mask = to_be_u32 mask } ∷ []) value written in
    let whole : from_be_u32 (as_u8 (mask / 2 ^ 24)) (as_u8 (mask / 2 ^ 16)) (as_u8 (mask / 2 ^ 8))
          (as_u8 mask)
        ≡ mask =
      omega arith in
    rw read (ap ok (zero-bit_or _ ∙ whole))
