-- ===== src/Dataset/Values.antt =====
-- The values of single TLVs in crates/ot-commissioner-rs/src/dataset.rs.
pub mod Timestamps
pub mod Thresholds
use ot_commissioner_rs.Base.{
  ℕ, ◌+◌, ◌*◌, ◌/◌, ◌%◌, ◌^◌, bit_and, bit_or, Bool, true, false, [], ◌∷◌, ◌++◌, ◌==◌,
  if◌then◌else◌, Bytes, to_be_u16, to_be_u64, from_be_u16, Result, ok, err, ◌>>=◌, map_err,
}
use ot_commissioner_rs.Errors.{Error, tlv, dataset}
use ot_commissioner_rs.Tlv.{read_u64}

pub record Channel : Type 0 where
  pub page : ℕ
  pub channel : ℕ

-- `Channel::parse`
unfoldable pub parse_channel : Bytes → Result Error Channel
parse_channel (b0 ∷ b1 ∷ b2 ∷ []) = ok (record { page = b0; channel = from_be_u16 b1 b2 })
parse_channel _ = err (dataset "channel TLV must be 3 bytes")

-- `Channel::to_value`
unfoldable pub channel_value : Channel → Bytes
channel_value c = c.page ∷ to_be_u16 c.channel

-- The bits of a u64, `from_raw` and `raw`.
pub record Timestamp : Type 0 where
  pub raw : ℕ

abbrev pub bit_of : Bool → ℕ
bit_of true = 1
bit_of false = 0

-- `Timestamp::from_components`
unfoldable pub from_components : ℕ → ℕ → Bool → Timestamp
from_components seconds ticks authoritative = record {
  raw =
      bit_or (bit_or (seconds * 2 ^ 16 % 2 ^ 64) (bit_and ticks 0x7fff * 2)) (bit_of authoritative);
}

-- `Timestamp::parse`
unfoldable pub parse_timestamp : Bytes → Result Error Timestamp
parse_timestamp value = do raw ← map_err tlv (read_u64 value); ok (record { raw = raw })

unfoldable pub seconds : Timestamp → ℕ
seconds t = t.raw / 2 ^ 16

unfoldable pub ticks : Timestamp → ℕ
ticks t = bit_and t.raw 0xfffe / 2 % 2 ^ 16

unfoldable pub authoritative : Timestamp → Bool
authoritative t = bit_and t.raw 1 == 1

-- `Timestamp::to_value`
unfoldable pub timestamp_value : Timestamp → Bytes
timestamp_value t = to_be_u64 t.raw

-- `SecurityPolicyFlags` is its u16.
pub record SecurityPolicy : Type 0 where
  pub rotation_time : ℕ
  pub flags : ℕ

-- `SecurityPolicy::parse`
unfoldable pub parse_security_policy : Bytes → Result Error SecurityPolicy
parse_security_policy (b0 ∷ b1 ∷ b2 ∷ b3 ∷ []) =
    ok (record { rotation_time = from_be_u16 b0 b1; flags = from_be_u16 b2 b3 })
parse_security_policy _ = err (dataset "security policy TLV must be 4 bytes")

-- `SecurityPolicy::to_value`
unfoldable pub security_policy_value : SecurityPolicy → Bytes
security_policy_value p = to_be_u16 p.rotation_time ++ to_be_u16 p.flags

pub data ThreadProtocolVersion : Type 0 where
  v1_or_2 v3 v4 v5 v6 v7 v8 v9 v10 : ThreadProtocolVersion

-- `match bits & 0x07`
version_of : ℕ → ThreadProtocolVersion
version_of bits =
    if bits == 0
    then v3
    else if bits == 1
    then v4
    else if bits == 2
    then v5
    else if bits == 3
    then v6
    else if bits == 4
    then v7
    else if bits == 5
    then v8
    else if bits == 6
    then v9
    else v10

-- `ThreadProtocolVersion::from_bits`
unfoldable pub from_bits : ℕ → ThreadProtocolVersion
unfolding version_of
from_bits bits = version_of (bit_and bits 0x07)

-- `ThreadProtocolVersion::to_bits`
abbrev pub to_bits : ThreadProtocolVersion → ℕ
to_bits v1_or_2 = 7
to_bits v10 = 7
to_bits v3 = 0
to_bits v4 = 1
to_bits v5 = 2
to_bits v6 = 3
to_bits v7 = 4
to_bits v8 = 5
to_bits v9 = 6

abbrev pub legacy_routers_enabled : ℕ
legacy_routers_enabled = 0x0004

abbrev pub version_threshold_mask : ℕ
version_threshold_mask = 0xe000

-- `SecurityPolicyFlags::contains`
unfoldable pub contains : ℕ → ℕ → Bool
contains bits mask = bit_and bits mask == mask

unfoldable pub version_threshold_for_routing : ℕ → ThreadProtocolVersion
unfolding contains
version_threshold_for_routing bits =
    if contains bits legacy_routers_enabled
    then v1_or_2
    else from_bits (bit_and bits version_threshold_mask / 2 ^ 13 % 2 ^ 8)

-- The second branch of `set_version_threshold_for_routing`; `!` is taken in 16 bits.
write_version : ℕ → ThreadProtocolVersion → ℕ
write_version bits version =
    bit_or (bit_and (bit_and bits 0xfffb) 0x1fff) (to_bits version * 2 ^ 13 % 2 ^ 16)

unfoldable pub set_version_threshold_for_routing : ℕ → ThreadProtocolVersion → ℕ
unfolding write_version
set_version_threshold_for_routing bits v1_or_2 = bit_or bits legacy_routers_enabled
set_version_threshold_for_routing bits version = write_version bits version
