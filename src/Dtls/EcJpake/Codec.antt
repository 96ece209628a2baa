-- ===== src/Dtls/EcJpake/Codec.antt =====
-- crates/thread-dtls/src/ecjpake/codec.rs: the TLS form of the rounds. The cursor is the bytes from its
-- offset on; an offset within a slice fits a usize, so `checked_add` does not fail.
pub mod Fields
pub mod RoundTrip
use ot_commissioner_rs.Base.{
  ℕ, zero, suc, ◌-◌, ◌≡◌, Bool, true, false, not, ◌||◌, ◌==◌, List, [], ◌∷◌, ◌++◌, ltb,
  if◌then◌else◌, length, take, drop, get_or, replicate, String, Bytes, as_u8, from_be_u16, Result,
  ok, err, stuck, ◌>>=◌, ◌>>◌, fail_if,
}
use ot_commissioner_rs.Dtls.{Error, crypto}
use ot_commissioner_rs.Dtls.EcJpake.{SchnorrProof, RoundOne, RoundTwo}
use ot_commissioner_rs.Dtls.EcJpake.Curve.{
  Curve, point_from_bytes, point_to_bytes, scalar_from_repr,
}
use ot_commissioner_rs.Dtls.EcJpake.Schnorr.{verify}

abbrev pub validate_tls_u8_len : ℕ → String → Result Error (Unit {0})
validate_tls_u8_len len message = fail_if (ltb 255 len) (crypto message)

-- The bytes from the first that is not zero on, or the last one.
unfoldable pub trim_scalar_bytes : Bytes → Bytes
trim_scalar_bytes [] = []
trim_scalar_bytes (b ∷ []) = b ∷ []
trim_scalar_bytes (b ∷ b1 ∷ bytes) =
    let rest = trim_scalar_bytes (b1 ∷ bytes) in if b == 0 then rest else b ∷ b1 ∷ bytes

abbrev pub write_secp256r1_curve_params : Bytes
write_secp256r1_curve_params = 0x03 ∷ 0x00 ∷ 0x17 ∷ []

unfoldable pub read_exact : ℕ → Bytes → Result Error (Bytes × Bytes)
read_exact len bytes =
    if ltb (length bytes) len
    then err (crypto "ECJPAKE structure is truncated")
    else ok (take len bytes, drop len bytes)

unfoldable pub read_u8 : Bytes → Result Error (ℕ × Bytes)
read_u8 bytes = do (read, rest) ← read_exact 1 bytes; ok (get_or read 0 0, rest)

unfoldable pub read_u16 : Bytes → Result Error (ℕ × Bytes)
read_u16 bytes = do
  (read, rest) ← read_exact 2 bytes
  ok (from_be_u16 (get_or read 0 0) (get_or read 1 0), rest)

-- `message` is that of an empty field.
unfoldable pub read_opaque_u8 : String → Bytes → Result Error (Bytes × Bytes)
read_opaque_u8 message bytes = do
  (len, rest) ← read_u8 bytes
  fail_if (len == 0) (crypto message)
  read_exact len rest

unfoldable pub finish : Bytes → Result Error (Unit {0})
finish bytes =
    if length bytes == 0 then ok tt else err (crypto "trailing bytes after ECJPAKE structure")

unfoldable pub read_secp256r1_curve_params : Bytes → Result Error Bytes
read_secp256r1_curve_params bytes = do
  (curve_type, rest1) ← read_u8 bytes
  (named_curve, rest2) ← read_u16 rest1
  fail_if (not (curve_type == 0x03) || not (named_curve == 0x0017))
      (crypto "ECJPAKE key exchange does not use secp256r1")
  ok rest2

module _ (c : Curve) where
  unfoldable pub write_tls_point : Bytes → Result Error Bytes
  write_tls_point point = do
    parsed ← point_from_bytes c point
    let canonical = point_to_bytes c parsed
    validate_tls_u8_len (length canonical) "EC point exceeds 255 bytes"
    ok (as_u8 (length canonical) ∷ canonical)

  -- `SchnorrProof::encode_tls`
  unfoldable pub encode_tls : SchnorrProof → Result Error Bytes
  encode_tls proof = do
    out ← write_tls_point proof.v
    let r = trim_scalar_bytes proof.r
    validate_tls_u8_len (length r) "Schnorr scalar exceeds 255 bytes"
    fail_if (length r == 0) (crypto "Schnorr scalar must not be empty")
    ok (out ++ (as_u8 (length r) ∷ r))

  unfoldable pub write_key_kp : Bytes → SchnorrProof → Result Error Bytes
  write_key_kp point proof = do
    out ← write_tls_point point
    more ← encode_tls proof
    ok (out ++ more)

  -- `RoundOne::encode_tls_kkpp`
  unfoldable pub encode_tls_kkpp : RoundOne → Result Error Bytes
  encode_tls_kkpp r = do
    out ← write_key_kp r.g1 r.proof1
    more ← write_key_kp r.g2 r.proof2
    ok (out ++ more)

  -- `RoundTwo::encode_tls_key_exchange`
  unfoldable pub encode_tls_key_exchange : RoundTwo → Bool → Result Error Bytes
  encode_tls_key_exchange r include_curve_params = do
    more ← write_key_kp r.point r.proof
    ok ((if include_curve_params then write_secp256r1_curve_params else []) ++ more)

  unfoldable pub read_tls_point : Bytes → Result Error (Bytes × Bytes)
  read_tls_point bytes = do
    (point, rest) ← read_opaque_u8 "EC point is empty" bytes
    parsed ← point_from_bytes c point
    ok (point_to_bytes c parsed, rest)

  unfoldable pub read_proof : Bytes → Bytes → Result Error (SchnorrProof × Bytes)
  read_proof participant_id bytes = do
    (v, rest1) ← read_tls_point bytes
    (r_bytes, rest2) ← read_opaque_u8 "Schnorr scalar is empty" rest1
    fail_if (length r_bytes == 0) (crypto "Schnorr scalar must not be empty")
    fail_if (ltb 32 (length r_bytes)) (crypto "Schnorr scalar exceeds 32 bytes")
    let r = replicate (32 - length r_bytes) 0 ++ r_bytes
    scalar ← scalar_from_repr c r
    ok (record { v = v; r = r; prover_id = participant_id }, rest2)

  unfoldable pub read_key_kp : Bytes → Bytes → Result Error ((Bytes × SchnorrProof) × Bytes)
  read_key_kp participant_id bytes = do
    (point, rest1) ← read_tls_point bytes
    (proof, rest2) ← read_proof participant_id rest1
    ok ((point, proof), rest2)

  -- `RoundOne::decode_tls_kkpp`
  unfoldable pub decode_tls_kkpp : Bytes → Bytes → Result Error RoundOne
  decode_tls_kkpp bytes participant_id = do
    ((g1, proof1), rest1) ← read_key_kp participant_id bytes
    ((g2, proof2), rest2) ← read_key_kp participant_id rest1
    finish rest2
    p1 ← point_from_bytes c g1
    p2 ← point_from_bytes c g2
    verify c proof1 c.generator p1 participant_id []
    verify c proof2 c.generator p2 participant_id []
    ok (record {
      g1 = g1;
      g2 = g2;
      proof1 = proof1;
      proof2 = proof2;
      participant_id = participant_id;
    })

  abbrev pub after_params : Bool → Bytes → Result Error Bytes
  after_params true bytes = read_secp256r1_curve_params bytes
  after_params false bytes = ok bytes

  -- `RoundTwo::decode_tls_key_exchange`
  unfoldable pub decode_tls_key_exchange : Bytes → Bytes → Bool → Result Error RoundTwo
  decode_tls_key_exchange bytes participant_id expect_curve_params = do
    rest1 ← after_params expect_curve_params bytes
    ((point, proof), rest2) ← read_key_kp participant_id rest1
    finish rest2
    ok (record { point = point; proof = proof })
