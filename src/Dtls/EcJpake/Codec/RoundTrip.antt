-- ===== src/Dtls/EcJpake/Codec/RoundTrip.antt =====
-- The rounds that a party makes are read back as they are.
use ot_commissioner_rs.Base.{
  ◌∷◌, ◌≡◌, refl, sym, ap, ◌∙◌, true, false, Bool, List, [], ◌++◌, Bytes, ok, bind-eq-ok,
  ok-injective, fail_if-eq-ok, append-nil,
}
use ot_commissioner_rs.Dtls.EcJpake.{RoundOne, RoundTwo}
use ot_commissioner_rs.Dtls.EcJpake.Codec.{
  read_u8, read_u16, finish, write_key_kp, read_key_kp, encode_tls_kkpp, decode_tls_kkpp,
  encode_tls_key_exchange, decode_tls_key_exchange, read_secp256r1_curve_params,
  write_secp256r1_curve_params,
}
use ot_commissioner_rs.Dtls.EcJpake.Codec.Fields.{
  read_exact-append, IsPoint-mul, generate-IsProof, write_key_kp-Reads,
}
use ot_commissioner_rs.Dtls.EcJpake.Curve.{Curve, point_to_bytes, point_from_bytes-point_to_bytes}
use ot_commissioner_rs.Dtls.EcJpake.Party.{
  EcJpakeParty, round_one, round_two, verify_round_one, second_round_base,
}
use ot_commissioner_rs.Dtls.EcJpake.Rounds.{IsParty}
use ot_commissioner_rs.Dtls.EcJpake.Schnorr.{generate, verify-generate}

module _ (c : Curve) where
  -- What a party sends as its first round is written, and reading that under the party's identity
  -- verifies it and gives it back. The scalars of the party are not zero.
  pub decode_tls_kkpp-round_one :
      (p : EcJpakeParty c) (draws rest : List c.Scalar) (r : RoundOne)
      → IsParty c p
      → round_one c p draws ≡ ok (r, rest)
      → (bytes : Bytes) × (encode_tls_kkpp c r ≡ ok bytes)
        × (decode_tls_kkpp c bytes p.participant_id ≡ ok r)
  unfolding round_one encode_tls_kkpp decode_tls_kkpp finish
  decode_tls_kkpp-round_one p draws rest r w h =
      let id = p.participant_id in
      let g = c.generator in
      let g1 = c.mul g p.x1 in
      let g2 = c.mul g p.x2 in
      let ((proof1, draws1), made1, h1) = bind-eq-ok (generate c g p.x1 g1 id [] draws) _ h in
      let ((proof2, draws2), made2, h2) = bind-eq-ok (generate c g p.x2 g2 id [] draws1) _ h1 in
      let is_made = sym (ap (λ (x : RoundOne × List c.Scalar). x.0) (ok-injective h2)) in
      let w1 = IsPoint-mul c g p.x1 c.is_identity-generator w.x1 in
      let w2 = IsPoint-mul c g p.x2 c.is_identity-generator w.x2 in
      let (front, written1, reads1) =
        write_key_kp-Reads c id (point_to_bytes c g1) proof1 w1
          (generate-IsProof c g p.x1 g1 id [] draws draws1 proof1 c.is_identity-generator made1) in
      let (back, written2, reads2) =
        write_key_kp-Reads c id (point_to_bytes c g2) proof2 w2
          (generate-IsProof c g p.x2 g2 id [] draws1 draws2 proof2 c.is_identity-generator made2) in
      let reads_last : read_key_kp c id back ≡ ok ((point_to_bytes c g2, proof2), []) =
        ap (read_key_kp c id) (sym (append-nil back)) ∙ reads2 [] in
      rw is_made (
        front ++ back,
        rw (written1, written2) refl,
        rw
            (
              reads1 back,
              reads_last,
              point_from_bytes-point_to_bytes c g1
                  (c.is_identity-mul g p.x1 c.is_identity-generator w.x1),
              point_from_bytes-point_to_bytes c g2
                  (c.is_identity-mul g p.x2 c.is_identity-generator w.x2),
              verify-generate c g p.x1 id [] draws draws1 proof1 c.is_identity-generator w.x1 made1,
              verify-generate c g p.x2 id [] draws1 draws2 proof2 c.is_identity-generator w.x2
                  made2,
            )
            refl,
      )

  read_secp256r1_curve_params-append :
      (rest : Bytes) → read_secp256r1_curve_params (write_secp256r1_curve_params ++ rest) ≡ ok rest
  unfolding read_secp256r1_curve_params read_u8 read_u16
  read_secp256r1_curve_params-append rest =
      rw
        (
          read_exact-append 1 (0x03 ∷ []) (0x00 ∷ 0x17 ∷ rest) refl,
          read_exact-append 2 (0x00 ∷ 0x17 ∷ []) rest refl,
        )
        refl

  -- What a party sends as its second round is written, with the curve's parameters or without, and
  -- reading that under the same choice and the party's identity gives it back. The party's secret and
  -- scalars are not zero.
  pub decode_tls_key_exchange-round_two :
      (p : EcJpakeParty c) (own peer : RoundOne) (draws rest : List c.Scalar) (r : RoundTwo)
      (with_params : Bool)
      → IsParty c p
      → round_two c p own peer draws ≡ ok (r, rest)
      → (bytes : Bytes) × (encode_tls_key_exchange c r with_params ≡ ok bytes)
        × (decode_tls_key_exchange c bytes p.participant_id with_params ≡ ok r)
  unfolding round_two encode_tls_key_exchange decode_tls_key_exchange finish
  decode_tls_key_exchange-round_two p own peer draws rest r with_params w h =
      let id = p.participant_id in
      let (_, checked, h1) = bind-eq-ok (verify_round_one c peer) _ h in
      let (base, summed, h2) = bind-eq-ok (second_round_base c p own peer p.role) _ h1 in
      let (some_base, h3) = fail_if-eq-ok (c.is_identity base) _ _ h2 in
      let exponent = c.mul_scalar p.x2 p.secret in
      let point = c.mul base exponent in
      let ((proof, left), made, h4) =
        bind-eq-ok (generate c base exponent point id [] draws) _ h3 in
      let is_made = sym (ap (λ (x : RoundTwo × List c.Scalar). x.0) (ok-injective h4)) in
      let (bytes, written, reads) =
        write_key_kp-Reads c id (point_to_bytes c point) proof
          (IsPoint-mul c base exponent some_base (c.is_zero-mul_scalar p.x2 p.secret w.x2 w.secret))
          (generate-IsProof c base exponent point id [] draws left proof some_base made) in
      let reads_last : read_key_kp c id bytes ≡ ok ((point_to_bytes c point, proof), []) =
        ap (read_key_kp c id) (sym (append-nil bytes)) ∙ reads [] in
      rw is_made (
        sent with_params bytes (record { point = point_to_bytes c point; proof = proof }) id written
          reads_last)
    where
      sent :
          (with_params : Bool) (bytes : Bytes) (r : RoundTwo) (id : Bytes)
          → write_key_kp c r.point r.proof ≡ ok bytes
          → read_key_kp c id bytes ≡ ok ((r.point, r.proof), [])
          → (whole : Bytes) × (encode_tls_key_exchange c r with_params ≡ ok whole)
            × (decode_tls_key_exchange c whole id with_params ≡ ok r)
      sent true bytes r id written reads = (
        write_secp256r1_curve_params ++ bytes,
        rw written refl,
        rw (read_secp256r1_curve_params-append bytes, reads) refl,
      )
      sent false bytes r id written reads = (bytes, rw written refl, rw reads refl)
