-- ===== src/Dataset/Values/Thresholds.antt =====
-- The version threshold among the security policy's flags.
use ot_commissioner_rs.Base.{
  ne→==, ℕ, ◌+◌, ◌*◌, ◌/◌, ◌%◌, ◌^◌, ◌≤◌, ◌≡◌, refl, ◌∙◌, bit_and, bit_or, bit_or_fields,
  bit_or_step, bit_or-zero, bit_or_comm, bit_and_split, bit_and_mask, bit_and-zero, true, false,
  arith, ◌==◌,
}
use ot_commissioner_rs.Dataset.Values.{
  ThreadProtocolVersion, v1_or_2, v3, v4, v5, v6, v7, v8, v9, v10, from_bits, to_bits, contains,
  version_threshold_for_routing, write_version, set_version_threshold_for_routing,
}

-- The masks read their bits.
legacy_bit : (x : ℕ) → bit_and x 0x0004 ≡ x / 4 % 2 * 4
legacy_bit x =
    bit_and_split 2 x 1 0 (omega arith)
    ∙ omega (arith, bit_and_mask 1 (x / 2 ^ 2), bit_and-zero (x % 2 ^ 2))

threshold_bits : (x : ℕ) → bit_and x 0xe000 ≡ x / 2 ^ 13 % 8 * 2 ^ 13
threshold_bits x =
    bit_and_split 13 x 7 0 (omega arith)
    ∙ omega (arith, bit_and_mask 3 (x / 2 ^ 13), bit_and-zero (x % 2 ^ 13))

clear_legacy : (x : ℕ) → bit_and x 0xfffb ≡ x / 8 % 2 ^ 13 * 8 + x % 4
clear_legacy x =
    bit_and_split 3 x 0x1fff 3 (omega arith)
    ∙ omega (arith, bit_and_mask 13 (x / 2 ^ 3), bit_and_mask 2 (x % 2 ^ 3))

set_legacy : (x : ℕ) → bit_or x 0x0004 ≡ x / 8 * 8 + 4 + x % 4
set_legacy x = omega (
  arith,
  bit_or_step x 4,
  bit_or_step (x / 2) 2,
  bit_or_step (x / 2 / 2) 1,
  bit_or-zero (x / 2 / 2 / 2),
)

-- The flags with the threshold `v`, as a sum of fields.
write_version-sum :
    (x : ℕ) (v : ThreadProtocolVersion)
    → write_version x v ≡ to_bits v * 2 ^ 13 + x / 8 % 2 ^ 10 * 8 + x % 4
unfolding write_version
write_version-sum x v =
    let small : to_bits v ≤ 7 = ground arith in
    let kept : bit_and (bit_and x 0xfffb) 0x1fff ≡ x / 8 % 2 ^ 10 * 8 + x % 4 =
      bit_and_mask 13 (bit_and x 0xfffb) ∙ omega (arith, clear_legacy x) in
    let written : to_bits v * 2 ^ 13 % 2 ^ 16 ≡ to_bits v * 2 ^ 13 = omega arith in
    rw (kept, written)
      (bit_or_comm (x / 8 % 2 ^ 10 * 8 + x % 4) (to_bits v * 2 ^ 13)
        ∙ bit_or_fields 13 (to_bits v) (x / 8 % 2 ^ 10 * 8 + x % 4) (omega arith)
        ∙ omega arith)

-- The bits that no threshold is kept in.
abbrev pub other_bits : ℕ → ℕ
other_bits x = x / 8 % 2 ^ 10 * 8 + x % 4

-- A threshold with bits of its own.
write_version-read :
    (x : ℕ) (v : ThreadProtocolVersion)
    → from_bits (to_bits v) ≡ v
    → (version_threshold_for_routing (write_version x v) ≡ v)
      × (other_bits (write_version x v) ≡ other_bits x)
unfolding version_threshold_for_routing contains
write_version-read x v e =
    let y = write_version x v in
    let small : to_bits v ≤ 7 = ground arith in
    let sum = write_version-sum x v in
    let clear : (bit_and y 0x0004 == 0x0004) ≡ false =
      ne→== _ _ (λ k. omega (arith, k, legacy_bit y, sum)) in
    let bits : bit_and y 0xe000 / 2 ^ 13 % 2 ^ 8 ≡ to_bits v =
      omega (arith, threshold_bits y, sum) in
    (rw (clear, bits) e, omega (arith, sum))

-- A threshold that was set is the one read, from whatever flags it was set in, and the bits of no
-- threshold are as before.
pub version_threshold-set :
    (x : ℕ) (v : ThreadProtocolVersion)
    → (version_threshold_for_routing (set_version_threshold_for_routing x v) ≡ v)
      × (other_bits (set_version_threshold_for_routing x v) ≡ other_bits x)
unfolding version_threshold_for_routing set_version_threshold_for_routing contains from_bits
version_threshold-set x v1_or_2 =
    let set : (bit_and (bit_or x 0x0004) 0x0004 == 0x0004) ≡ true =
      ground (arith, legacy_bit (bit_or x 0x0004), set_legacy x) in
    (rw set refl, omega (arith, set_legacy x))
version_threshold-set x v3 = write_version-read x v3 refl
version_threshold-set x v4 = write_version-read x v4 refl
version_threshold-set x v5 = write_version-read x v5 refl
version_threshold-set x v6 = write_version-read x v6 refl
version_threshold-set x v7 = write_version-read x v7 refl
version_threshold-set x v8 = write_version-read x v8 refl
version_threshold-set x v9 = write_version-read x v9 refl
version_threshold-set x v10 = write_version-read x v10 refl
