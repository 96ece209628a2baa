-- ===== src/Dataset.antt =====
-- crates/ot-commissioner-rs/src/dataset.rs: operational datasets over the TLV codec. The values of
-- single TLVs are in Dataset/Values.antt and Dataset/ChannelMask.antt.
pub mod Values
pub mod ChannelMask
pub mod Access
mod Tests
use ot_commissioner_rs.Base.{
  ℕ, not, Option, List, retain, ◌==◌, if◌then◌else◌, Bytes, Result, ok, err, ◌>>=◌, map_err,
  transpose, length, [], ◌∷◌, String,
}
use ot_commissioner_rs.Base.Utf8.{is_utf8}
use ot_commissioner_rs.Errors.{Error, tlv, dataset, dataset_format}
use ot_commissioner_rs.Tlv.{TlvEntry, TlvSet, parse, encode, push, last_value, read_u16, read_u32}
use ot_commissioner_rs.Dataset.Values.{
  Channel, Timestamp, SecurityPolicy, parse_channel, parse_timestamp, parse_security_policy,
}
use ot_commissioner_rs.Dataset.ChannelMask.{ChannelMaskEntry, parse_all}

pub record Dataset : Type 0 where
  pub tlvs : TlvSet

abbrev pub tlv_channel : ℕ
tlv_channel = 0x00

abbrev pub tlv_pan_id : ℕ
tlv_pan_id = 0x01

abbrev pub tlv_extended_pan_id : ℕ
tlv_extended_pan_id = 0x02

abbrev pub tlv_network_name : ℕ
tlv_network_name = 0x03

abbrev pub tlv_pskc : ℕ
tlv_pskc = 0x04

abbrev pub tlv_network_key : ℕ
tlv_network_key = 0x05

abbrev pub tlv_mesh_local_prefix : ℕ
tlv_mesh_local_prefix = 0x07

abbrev pub tlv_security_policy : ℕ
tlv_security_policy = 0x0c

abbrev pub tlv_active_timestamp : ℕ
tlv_active_timestamp = 0x0e

abbrev pub tlv_pending_timestamp : ℕ
tlv_pending_timestamp = 0x33

abbrev pub tlv_delay_timer : ℕ
tlv_delay_timer = 0x34

abbrev pub tlv_channel_mask : ℕ
tlv_channel_mask = 0x35

-- `Dataset::from_bytes`
unfoldable pub from_bytes : Bytes → Result Error Dataset
from_bytes bytes = do tlvs ← map_err tlv (parse bytes); ok (record { tlvs = tlvs })

-- `Dataset::to_bytes`
unfoldable pub to_bytes : Dataset → Result Error Bytes
to_bytes d = map_err tlv (encode d.tlvs)

unfoldable pub raw : ℕ → Dataset → Option Bytes
raw ty d = last_value ty d.tlvs

-- The entries removed are also overwritten in memory, which nobody can read any more.
unfoldable pub remove_all : ℕ → Dataset → Dataset
remove_all ty d = record {
  tlvs = record { entries = retain (λ e. not (e.ty == ty)) d.tlvs.entries };
}

unfoldable pub set_raw : ℕ → Bytes → Dataset → Dataset
unfolding remove_all
set_raw ty value d = record {
  tlvs = push (record { ty = ty; value = value }) (remove_all ty d).tlvs;
}

abbrev pub pskc : Dataset → Option Bytes
pskc d = raw tlv_pskc d

-- A `&str` is its UTF-8 bytes.
from_utf8 : Bytes → Result Error Bytes
from_utf8 value = if is_utf8 value then ok value else err (dataset "network name is not UTF-8")

unfoldable pub network_name : Dataset → Result Error (Option Bytes)
unfolding from_utf8
network_name d = transpose from_utf8 (raw tlv_network_name d)

unfoldable pub channel : Dataset → Result Error (Option Channel)
channel d = transpose parse_channel (raw tlv_channel d)

unfoldable pub pan_id : Dataset → Result Error (Option ℕ)
pan_id d = map_err tlv (transpose read_u16 (raw tlv_pan_id d))

-- `read_array::<N>`
unfoldable pub read_array : ℕ → Bytes → Result Error Bytes
read_array n value =
    if length value == n
    then ok value
    else err (dataset_format "expected {N} bytes, got {}" (n ∷ length value ∷ []))

unfoldable pub extended_pan_id : Dataset → Result Error (Option Bytes)
extended_pan_id d = transpose (read_array 8) (raw tlv_extended_pan_id d)

unfoldable pub network_key : Dataset → Result Error (Option Bytes)
network_key d = transpose (read_array 16) (raw tlv_network_key d)

unfoldable pub mesh_local_prefix : Dataset → Result Error (Option Bytes)
mesh_local_prefix d = transpose (read_array 8) (raw tlv_mesh_local_prefix d)

unfoldable pub active_timestamp : Dataset → Result Error (Option Timestamp)
active_timestamp d = transpose parse_timestamp (raw tlv_active_timestamp d)

unfoldable pub pending_timestamp : Dataset → Result Error (Option Timestamp)
pending_timestamp d = transpose parse_timestamp (raw tlv_pending_timestamp d)

unfoldable pub delay_timer : Dataset → Result Error (Option ℕ)
delay_timer d = map_err tlv (transpose read_u32 (raw tlv_delay_timer d))

unfoldable pub security_policy : Dataset → Result Error (Option SecurityPolicy)
security_policy d = transpose parse_security_policy (raw tlv_security_policy d)

unfoldable pub channel_mask : Dataset → Result Error (Option (List ChannelMaskEntry))
channel_mask d = transpose parse_all (raw tlv_channel_mask d)
