-- ===== src/Dataset/Values/Timestamps.antt =====
-- The fields of a timestamp, and the fixed-size values against their bytes.
use ot_commissioner_rs.Base.{
  ℕ, ◌+◌, ◌*◌, ◌/◌, ◌%◌, ◌^◌, ◌<◌, ◌≡◌, refl, ap, bit_and, bit_or_add, bit_and_mask, bit_and_step,
  Bool, arith, ok, IsU16, IsU64, from_be-to_be_u16,
}
use ot_commissioner_rs.Tlv.{read_u64}
use ot_commissioner_rs.Dataset.Values.{
  Timestamp, bit_of, from_components, seconds, ticks, authoritative, parse_timestamp,
  timestamp_value, Channel, parse_channel, channel_value, SecurityPolicy, parse_security_policy,
  security_policy_value,
}

ticks_mask : (x : ℕ) → bit_and x 0xfffe / 2 ≡ x / 2 % 2 ^ 15
ticks_mask x = omega (arith, bit_and_step x 0xfffe, bit_and_mask 15 (x / 2))

from_components-sum :
    (s t : ℕ) (a : Bool)
    → s < 2 ^ 48
    → (from_components s t a).raw ≡ s * 2 ^ 16 + t % 2 ^ 15 * 2 + bit_of a
unfolding from_components
from_components-sum s t a h =
    let small : bit_of a < 2 = ground arith in
    let whole : s * 2 ^ 16 % 2 ^ 64 ≡ s * 2 ^ 16 = omega arith in
    rw
      (
        whole,
        bit_and_mask 15 t,
        bit_or_add 16 (s * 2 ^ 16) (t % 2 ^ 15 * 2) (omega arith) (omega arith),
        bit_or_add 1 (s * 2 ^ 16 + t % 2 ^ 15 * 2) (bit_of a) (omega arith) (omega arith),
      )
      refl

-- The components of 48 and 15 bits that a timestamp is built from are read back; of more bits in the
-- ticks the low 15 are.
pub seconds-from_components :
    (s t : ℕ) (a : Bool)
    → s < 2 ^ 48
    → (seconds (from_components s t a) ≡ s)
      × (ticks (from_components s t a) ≡ t % 2 ^ 15)
      × (authoritative (from_components s t a) ≡ a)
unfolding seconds ticks authoritative
seconds-from_components s t a h =
    let small : bit_of a < 2 = ground arith in
    let sum = from_components-sum s t a h in
    (
      omega (arith, sum),
      omega (arith, sum, ticks_mask (from_components s t a).raw),
      ground (arith, sum, bit_and_mask 1 (from_components s t a).raw),
    )

-- Every timestamp of 64 bits is built from its components.
pub from_components-seconds :
    (t : Timestamp) → IsU64 t.raw → from_components (seconds t) (ticks t) (authoritative t) ≡ t
unfolding seconds ticks authoritative
from_components-seconds t h =
    let s = from_components-sum (t.raw / 2 ^ 16) (ticks t) (authoritative t) (omega arith) in
    let low : bit_of (authoritative t) ≡ t.raw % 2 = ground (arith, bit_and_mask 1 t.raw) in
    let stamp : ℕ → Timestamp = λ r. record { raw = r } in
    ap stamp (omega (arith, s, low, ticks_mask t.raw))

-- Channels, timestamps and security policies with fields of the source's widths are read back from
-- their bytes.
pub parse_timestamp-timestamp_value :
    (t : Timestamp) (c : Channel) (p : SecurityPolicy)
    → IsU64 t.raw
    → IsU16 c.channel
    → IsU16 p.rotation_time
    → IsU16 p.flags
    → (parse_timestamp (timestamp_value t) ≡ ok t)
      × (parse_channel (channel_value c) ≡ ok c)
      × (parse_security_policy (security_policy_value p) ≡ ok p)
unfolding parse_timestamp timestamp_value parse_channel channel_value parse_security_policy
    security_policy_value read_u64
parse_timestamp-timestamp_value t c p h k l m = (
  ap (λ (r : ℕ). ok (record { raw = r })) (omega arith),
  rw (from_be-to_be_u16 c.channel k) refl,
  rw (from_be-to_be_u16 p.rotation_time l, from_be-to_be_u16 p.flags m) refl,
)
