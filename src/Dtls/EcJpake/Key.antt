-- ===== src/Dtls/EcJpake/Key.antt =====
-- The point that EC J-PAKE shares by RFC 8236, and its key.
use ot_commissioner_rs.Base.{
  ◌≡◌, refl, ◌⊎◌, inl, inr, true, false, some, Bytes, ok, err, Bool-cases,
}
use ot_commissioner_rs.Dtls.{crypto}
use ot_commissioner_rs.Dtls.EcJpake.Curve.{Curve, derive_session_key, point_x_bytes}
use ot_commissioner_rs.Dtls.EcJpake.Party.{EcJpakeParty}
use ot_commissioner_rs.Dtls.EcJpake.Rounds.{IsParty, key_of}

module _ (c : Curve) where
  -- (x1 + x3) G of RFC 8236, of the two parties' first scalars
  abbrev pub first_sum : EcJpakeParty c → EcJpakeParty c → c.Point
  first_sum a b = c.add (c.mul c.generator a.x1) (c.mul c.generator b.x1)

  -- (x1 + x3) x2 x4 s G of RFC 8236
  abbrev pub shared_point : EcJpakeParty c → EcJpakeParty c → c.Point
  shared_point a b = c.mul (first_sum a b) (c.mul_scalar (c.mul_scalar b.x2 b.secret) a.x2)

  pub key_of-shared_point :
      (a b : EcJpakeParty c)
      → IsParty c a
      → IsParty c b
      → ((c.is_identity (first_sum a b) ≡ false)
          × (x : Bytes) × (c.x_of (c.encoded_point (shared_point a b)) ≡ some x)
          × (key_of c (shared_point a b) ≡ ok (c.sha256 x)))
        ⊎ ((c.is_identity (first_sum a b) ≡ true)
            × (key_of c (shared_point a b) ≡ err (crypto "derived J-PAKE point is identity")))
  unfolding key_of derive_session_key point_x_bytes
  key_of-shared_point a b wa wb =
      let z = c.mul_scalar (c.mul_scalar b.x2 b.secret) a.x2 in
      let nonzero : c.is_zero z ≡ false =
        c.is_zero-mul_scalar (c.mul_scalar b.x2 b.secret) a.x2
          (c.is_zero-mul_scalar b.x2 b.secret wb.x2 wb.secret) wa.x2 in
      elim (Bool-cases (c.is_identity (first_sum a b))) [
        | inl e ↦ inr (e, rw (c.is_identity-mul_identity (first_sum a b) z e) refl)
        | inr e ↦
            let point = c.is_identity-mul (first_sum a b) z e nonzero in
            let (x, read) = c.x_of-encoded_point (shared_point a b) point in
            inl (
              e,
              x,
              read,
              rw (point, c.from_bytes-encoded_point (shared_point a b) point, read) refl,
            )
      ]
