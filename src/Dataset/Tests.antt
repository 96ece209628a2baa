-- ===== src/Dataset/Tests.antt =====
-- Concrete datasets and values, and the theorems at them.
use ot_commissioner_rs.Base.{find, ◌≡◌, ◌≢◌, refl, some, List, [], ◌∷◌, ok, stuck, Bytes, arith}
use ot_commissioner_rs.Base.Loop.{decode_all}
use ot_commissioner_rs.Dataset.{last_value, encode, Dataset, to_bytes, raw, channel, tlv_channel}
use ot_commissioner_rs.Dataset.ChannelMask.{ChannelMaskEntry, parse_entry, parse_all, encode_all}
use ot_commissioner_rs.Dataset.ChannelMask.Entries.{encode_all-parse_all, parse_all-ne-stuck}
use ot_commissioner_rs.Dataset.Values.{
  Channel, Timestamp, SecurityPolicy, channel_value, timestamp_value, security_policy_value,
  parse_timestamp, parse_channel, parse_security_policy,
}
use ot_commissioner_rs.Dataset.Values.Timestamps.{parse_timestamp-timestamp_value}
use ot_commissioner_rs.Tlv.{encode, encode_entry, encode_header, last_value}

abbrev home : Dataset
home = record {
  tlvs = record {
    entries =
        record { ty = tlv_channel; value = 0 ∷ 0 ∷ 25 ∷ [] }
        ∷ record { ty = 0xfe; value = 0xaa ∷ [] }
        ∷ record { ty = tlv_channel; value = 0 ∷ 0 ∷ 11 ∷ [] }
        ∷ [];
  };
}

abbrev home_bytes : Bytes
home_bytes = 0 ∷ 3 ∷ 0 ∷ 0 ∷ 25 ∷ 0xfe ∷ 1 ∷ 0xaa ∷ 0 ∷ 3 ∷ 0 ∷ 0 ∷ 11 ∷ []

to_bytes-home : to_bytes home ≡ ok home_bytes
unfolding to_bytes encode encode_entry encode_header
to_bytes-home = refl

-- The last of two channels counts.
channel-home : channel home ≡ ok (some (record { page = 0; channel = 11 }))
unfolding channel raw last_value find parse_channel
channel-home = refl

abbrev fifteen : Channel
fifteen = record { page = 0; channel = 15 }

abbrev stamp : Timestamp
stamp = record { raw = 0x3039_00c9 }

abbrev policy : SecurityPolicy
policy = record { rotation_time = 672; flags = 0xfff8 }

-- Page 0, channels 11 to 26.
abbrev mask : List ChannelMaskEntry
mask = record { page = 0; mask = 0 ∷ 0x1f ∷ 0xff ∷ 0xe0 ∷ [] } ∷ []

abbrev mask_bytes : Bytes
mask_bytes = 0 ∷ 4 ∷ 0 ∷ 0x1f ∷ 0xff ∷ 0xe0 ∷ []

encode_all-mask : encode_all mask ≡ ok mask_bytes
unfolding encode_all
encode_all-mask = refl

parse_all-mask : parse_all mask_bytes ≡ ok mask
unfolding parse_all parse_entry decode_all
parse_all-mask = refl

encode_all-parse_all_example : encode_all mask ≡ ok mask_bytes
encode_all-parse_all_example = encode_all-parse_all mask_bytes mask (omega arith) parse_all-mask

parse_all-ne-stuck_example : parse_all (0 ∷ 4 ∷ 1 ∷ []) ≢ stuck
parse_all-ne-stuck_example = parse_all-ne-stuck (0 ∷ 4 ∷ 1 ∷ [])

parse_timestamp-timestamp_value_example :
    (parse_timestamp (timestamp_value stamp) ≡ ok stamp)
    × (parse_channel (channel_value fifteen) ≡ ok fifteen)
    × (parse_security_policy (security_policy_value policy) ≡ ok policy)
parse_timestamp-timestamp_value_example =
    parse_timestamp-timestamp_value stamp fifteen policy (omega arith) (omega arith) (omega arith)
      (omega arith)
