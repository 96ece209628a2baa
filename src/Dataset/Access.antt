-- ===== src/Dataset/Access.antt =====
-- The values that are read after one was set.
use ot_commissioner_rs.Base.{ℕ, ◌≡◌, refl, some, List, Bytes, ok, ◌==◌, if◌then◌else◌, IsU16, IsU64}
use ot_commissioner_rs.Dataset.{
  Dataset, raw, set_raw, channel, active_timestamp, pending_timestamp, security_policy,
  channel_mask, tlv_channel, tlv_active_timestamp, tlv_pending_timestamp, tlv_security_policy,
  tlv_channel_mask,
}
use ot_commissioner_rs.Dataset.ChannelMask.{ChannelMaskEntry, encode_all}
use ot_commissioner_rs.Dataset.ChannelMask.Entries.{parse_all-encode_all}
use ot_commissioner_rs.Dataset.Values.{
  Channel, Timestamp, SecurityPolicy, channel_value, timestamp_value, security_policy_value,
}
use ot_commissioner_rs.Dataset.Values.Timestamps.{parse_timestamp-timestamp_value}
use ot_commissioner_rs.Tlv.{push, set_last}
use ot_commissioner_rs.Tlv.Values.{last_value-set_last}

-- After `set_raw` the value of the type is the one set, and every other type's is as before.
pub raw-set_raw :
    (ty other : ℕ) (value : Bytes) (d : Dataset)
    → raw other (set_raw ty value d) ≡ (if ty == other then some value else raw other d)
unfolding raw set_raw push set_last
raw-set_raw ty other value d = last_value-set_last ty other value d.tlvs

-- A typed value that was set is the one read.
pub channel-set_raw :
    (d : Dataset) (c : Channel) (t : Timestamp) (p : SecurityPolicy) (es : List ChannelMaskEntry)
    (mask : Bytes)
    → IsU16 c.channel
    → IsU64 t.raw
    → IsU16 p.rotation_time
    → IsU16 p.flags
    → encode_all es ≡ ok mask
    → (channel (set_raw tlv_channel (channel_value c) d) ≡ ok (some c))
      × (active_timestamp (set_raw tlv_active_timestamp (timestamp_value t) d) ≡ ok (some t))
      × (pending_timestamp (set_raw tlv_pending_timestamp (timestamp_value t) d) ≡ ok (some t))
      × (security_policy (set_raw tlv_security_policy (security_policy_value p) d) ≡ ok (some p))
      × (channel_mask (set_raw tlv_channel_mask mask d) ≡ ok (some es))
unfolding channel active_timestamp pending_timestamp security_policy channel_mask
channel-set_raw d c t p es mask hc ht hr hf hm =
    let (stamp, chan, policy) = parse_timestamp-timestamp_value t c p ht hc hr hf in
    (
      rw (raw-set_raw tlv_channel tlv_channel (channel_value c) d, chan) refl,
      rw (raw-set_raw tlv_active_timestamp tlv_active_timestamp (timestamp_value t) d, stamp) refl,
      rw (raw-set_raw tlv_pending_timestamp tlv_pending_timestamp (timestamp_value t) d, stamp)
          refl,
      rw (raw-set_raw tlv_security_policy tlv_security_policy (security_policy_value p) d, policy)
          refl,
      rw (raw-set_raw tlv_channel_mask tlv_channel_mask mask d, parse_all-encode_all es mask hm)
          refl,
    )
