-- ===== src/Dtls/EcJpake/Schnorr.antt =====
-- crates/thread-dtls/src/ecjpake/schnorr.rs: the proof of knowledge of a scalar.
use ot_commissioner_rs.Base.{
  ◌%◌, ◌^◌, ◌==◌, ◌≡◌, refl, sym, ap, false, not, List, [], ◌++◌, if◌then◌else◌, length, Bytes,
  to_be_u32, same_bytes, same_bytes_refl, Result, ok, ◌>>=◌, ◌>>◌, fail_if, bind-eq-ok,
  ok-injective,
}
use ot_commissioner_rs.Dtls.{Error, crypto}
use ot_commissioner_rs.Dtls.EcJpake.{SchnorrProof}
use ot_commissioner_rs.Dtls.EcJpake.Curve.{
  Curve, point_from_bytes, point_to_bytes, scalar_from_repr, random_scalar, random_scalar-nonzero,
  point_from_bytes-point_to_bytes,
}

-- `hash_item`: what an item adds to what is hashed. The length is narrowed to 32 bits.
abbrev pub hash_item : Bytes → Bytes
hash_item item = to_be_u32 (length item % 2 ^ 32) ++ item

abbrev other_item : Bytes → Bytes
other_item other_info = if length other_info == 0 then [] else hash_item other_info

module _ (c : Curve) where
  unfoldable pub challenge_scalar : c.Point → c.Point → c.Point → Bytes → Bytes → c.Scalar
  challenge_scalar base v public prover_id other_info = c.reduce_bytes (
      c.sha256 (
        hash_item (point_to_bytes c base)
        ++ hash_item (point_to_bytes c v)
        ++ hash_item (point_to_bytes c public)
        ++ hash_item prover_id
        ++ other_item other_info))

  -- The proof that `SchnorrProof::generate` makes of the scalar that it draws.
  unfoldable pub proof_with : c.Scalar → c.Point → c.Scalar → c.Point → Bytes → Bytes → SchnorrProof
  proof_with v_scalar base private public prover_id other_info =
      let v_point = c.mul base v_scalar in
      let challenge = challenge_scalar base v_point public prover_id other_info in
      record {
        v = point_to_bytes c v_point;
        r = c.to_bytes (c.sub_scalar v_scalar (c.mul_scalar private challenge));
        prover_id = prover_id;
      }

  -- `SchnorrProof::generate`, with the draws that it leaves
  unfoldable pub generate :
      c.Point
      → c.Scalar
      → c.Point
      → Bytes
      → Bytes
      → List c.Scalar
      → Result Error (SchnorrProof × List c.Scalar)
  generate base private public prover_id other_info draws = do
    (v_scalar, rest) ← random_scalar c false draws
    ok (proof_with v_scalar base private public prover_id other_info, rest)

  -- `SchnorrProof::verify`
  unfoldable pub verify : SchnorrProof → c.Point → c.Point → Bytes → Bytes → Result Error (Unit {0})
  verify proof base public expected_prover_id other_info = do
    fail_if (not (same_bytes proof.prover_id expected_prover_id))
        (crypto "Schnorr proof identity mismatch")
    fail_if (c.is_identity public) (crypto "Schnorr public point is identity")
    v_point ← point_from_bytes c proof.v
    r ← scalar_from_repr c proof.r
    let challenge = challenge_scalar base v_point public expected_prover_id other_info
    let expected = c.add (c.mul base r) (c.mul public challenge)
    fail_if (not (same_bytes (point_to_bytes c expected) proof.v))
        (crypto "Schnorr proof verification failed")

  -- The verifier's point is the prover's: b (v - x e) + (b x) e is b v.
  expected-commitment :
      (base : c.Point) (v private e : c.Scalar)
      → c.add (c.mul base (c.sub_scalar v (c.mul_scalar private e))) (c.mul (c.mul base private) e)
        ≡ c.mul base v
  expected-commitment base v private e =
      rw (c.mul-mul base private e, c.mul-sub_scalar base v (c.mul_scalar private e))
        (c.sub-add (c.mul base v) (c.mul base (c.mul_scalar private e)))

  -- A proof that was generated for a scalar other than zero, over a base that is not the identity,
  -- verifies.
  pub verify-generate :
      (base : c.Point) (private : c.Scalar) (prover_id other_info : Bytes)
      (draws rest : List c.Scalar) (proof : SchnorrProof)
      → c.is_identity base ≡ false
      → c.is_zero private ≡ false
      → generate base private (c.mul base private) prover_id other_info draws ≡ ok (proof, rest)
      → verify proof base (c.mul base private) prover_id other_info ≡ ok tt
  unfolding generate verify proof_with
  verify-generate base private prover_id other_info draws rest proof hb hx h =
      let ((v, left), drawn, made) = bind-eq-ok (random_scalar c false draws) _ h in
      let nonzero = random_scalar-nonzero c draws left v drawn in
      let e = challenge_scalar base (c.mul base v) (c.mul base private) prover_id other_info in
      let is_made = sym (ap (λ (x : SchnorrProof × List c.Scalar). x.0) (ok-injective made)) in
      rw
        (
          is_made,
          same_bytes_refl prover_id,
          c.is_identity-mul base private hb hx,
          point_from_bytes-point_to_bytes c (c.mul base v) (c.is_identity-mul base v hb nonzero),
          c.from_repr-to_bytes (c.sub_scalar v (c.mul_scalar private e)),
          expected-commitment base v private e,
          same_bytes_refl (c.encoded_point (c.mul base v)),
        )
        refl
