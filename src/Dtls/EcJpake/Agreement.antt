-- ===== src/Dtls/EcJpake/Agreement.antt =====
-- The two sides of EC J-PAKE put together.
use ot_commissioner_rs.Base.{
  ◌∙◌, ◌≡◌, refl, sym, ap, List, ok, err, ◌⊎◌, inl, inr, true, false, some, Bytes,
}
use ot_commissioner_rs.Dtls.{crypto}
use ot_commissioner_rs.Dtls.EcJpake.{peer_role, RoundTwo, RoundOne, client, server}
use ot_commissioner_rs.Dtls.EcJpake.Curve.{Curve}
use ot_commissioner_rs.Dtls.EcJpake.Key.{first_sum, shared_point, key_of-shared_point}
use ot_commissioner_rs.Dtls.EcJpake.Party.{finish, round_two, EcJpakeParty, round_one}
use ot_commissioner_rs.Dtls.EcJpake.Rounds.{
  IsParty, round_one-Opened, round_two-Sent, base_for, key_of, finish-Sent,
}

module _ (c : Curve) where
  -- (h + y G) x s - (x G) y s is h x s.
  cancel :
      (h : c.Point) (x y s : c.Scalar)
      → c.sub
          (c.mul (c.add h (c.mul c.generator y)) (c.mul_scalar x s))
          (c.mul (c.mul c.generator x) (c.mul_scalar y s))
        ≡ c.mul h (c.mul_scalar x s)
  cancel h x y s =
      let swap : c.mul_scalar y (c.mul_scalar x s) ≡ c.mul_scalar x (c.mul_scalar y s) =
        sym (c.mul_scalar_assoc y x s)
        ∙ ap (λ z. c.mul_scalar z s) (c.mul_scalar_comm y x)
        ∙ c.mul_scalar_assoc x y s in
      rw
        (
          c.mul-add h (c.mul c.generator y) (c.mul_scalar x s),
          c.mul-mul c.generator y (c.mul_scalar x s),
          c.mul-mul c.generator x (c.mul_scalar y s),
          swap,
        )
        (c.add-sub (c.mul h (c.mul_scalar x s))
          (c.mul c.generator (c.mul_scalar x (c.mul_scalar y s))))

  -- The point that a party with the scalar x2 = y derives of a peer with x2 = x.
  derived :
      (h b : c.Point) (x y s : c.Scalar)
      → b ≡ c.add h (c.mul c.generator y)
      → c.mul
          (c.sub (c.mul b (c.mul_scalar x s)) (c.mul (c.mul c.generator x) (c.mul_scalar y s)))
          y
        ≡ c.mul h (c.mul_scalar (c.mul_scalar x s) y)
  derived h b x y s e = rw (e, cancel h x y s) (c.mul-mul h (c.mul_scalar x s) y)

  scalars_agree :
      (x y s : c.Scalar) → c.mul_scalar (c.mul_scalar x s) y ≡ c.mul_scalar (c.mul_scalar y s) x
  scalars_agree x y s =
      ap (λ z. c.mul_scalar z y) (c.mul_scalar_comm x s)
      ∙ c.mul_scalar_assoc s x y
      ∙ ap (c.mul_scalar s) (c.mul_scalar_comm x y)
      ∙ sym (c.mul_scalar_assoc s y x)
      ∙ ap (λ z. c.mul_scalar z x) (c.mul_scalar_comm s y)

  swap_last : (p q r : c.Point) → c.add (c.add p q) r ≡ c.add (c.add p r) q
  swap_last p q r = c.add_assoc p q r ∙ ap (c.add p) (c.add_comm q r) ∙ sym (c.add_assoc p r q)

  pub finish-shared_point :
      (a b : EcJpakeParty c) (r1 s1 : RoundOne) (r2 s2 : RoundTwo)
      (da da1 da2 da3 db db1 db2 db3 : List c.Scalar)
      → a.role ≡ client
      → b.role ≡ server
      → a.secret ≡ b.secret
      → IsParty c a
      → IsParty c b
      → round_one c a da ≡ ok (r1, da1)
      → round_one c b db ≡ ok (s1, db1)
      → round_two c a r1 s1 da2 ≡ ok (r2, da3)
      → round_two c b s1 r1 db2 ≡ ok (s2, db3)
      → (finish c a r1 s1 s2 ≡ key_of c (shared_point c a b))
        × (finish c b s1 r1 r2 ≡ key_of c (shared_point c a b))
  unfolding base_for
  finish-shared_point a b r1 s1 r2 s2 da da1 da2 da3 db db1 db2 db3 ra rb secrets wa wb a1 b1 a2
        b2 =
      let oa = round_one-Opened c a da da1 r1 wa a1 in
      let ob = round_one-Opened c b db db1 s1 wb b1 in
      let ta = round_two-Sent c a b r1 s1 da2 da3 r2 wa oa ob a2 in
      let tb = round_two-Sent c b a s1 r1 db2 db3 s2 wb ob oa b2 in
      let h = first_sum c a b in
      let at_server : base_for c a b a.role ≡ c.add h (c.mul c.generator b.x2) = rw ra refl in
      let at_client : base_for c b a b.role ≡ c.add h (c.mul c.generator a.x2) =
        rw rb
          (swap_last (c.mul c.generator a.x1) (c.mul c.generator a.x2) (c.mul c.generator b.x1)) in
      (
        finish-Sent c b a s1 r1 s2 (ra ∙ ap peer_role (sym rb)) ob oa tb
            ∙ ap (key_of c)
                (rw secrets (derived h (base_for c b a b.role) b.x2 a.x2 b.secret at_client)),
        finish-Sent c a b r1 s1 r2 (rb ∙ ap peer_role (sym ra)) oa ob ta
            ∙ ap (key_of c)
                (rw secrets (derived h (base_for c a b a.role) a.x2 b.x2 b.secret at_server))
            ∙ ap (λ z. key_of c (c.mul h z)) (sym (scalars_agree b.x2 a.x2 b.secret)),
      )

  -- A client and a server that were made of the same secret, whose scalars are not zero, and that each
  -- made its two rounds, the second from the other's first, both derive the digest of the X coordinate
  -- of RFC 8236's point (x1 + x3) x2 x4 s G, where (x1 + x3) G is not the identity, and both refuse with
  -- the error for the identity where it is. The draws of random scalars are any.
  pub finish-round_two :
      (a b : EcJpakeParty c) (r1 s1 : RoundOne) (r2 s2 : RoundTwo)
      (da da1 da2 da3 db db1 db2 db3 : List c.Scalar)
      → a.role ≡ client
      → b.role ≡ server
      → a.secret ≡ b.secret
      → IsParty c a
      → IsParty c b
      → round_one c a da ≡ ok (r1, da1)
      → round_one c b db ≡ ok (s1, db1)
      → round_two c a r1 s1 da2 ≡ ok (r2, da3)
      → round_two c b s1 r1 db2 ≡ ok (s2, db3)
      → ((c.is_identity (first_sum c a b) ≡ false)
          × (x : Bytes) × (c.x_of (c.encoded_point (shared_point c a b)) ≡ some x)
          × (finish c a r1 s1 s2 ≡ ok (c.sha256 x))
          × (finish c b s1 r1 r2 ≡ ok (c.sha256 x)))
        ⊎ ((c.is_identity (first_sum c a b) ≡ true)
            × (finish c a r1 s1 s2 ≡ err (crypto "derived J-PAKE point is identity"))
            × (finish c b s1 r1 r2 ≡ err (crypto "derived J-PAKE point is identity")))
  finish-round_two a b r1 s1 r2 s2 da da1 da2 da3 db db1 db2 db3 ra rb secrets wa wb a1 b1 a2 b2 =
      let (at_a, at_b) =
        finish-shared_point a b r1 s1 r2 s2 da da1 da2 da3 db db1 db2 db3 ra rb secrets wa wb a1 b1
          a2 b2 in
      elim (key_of-shared_point c a b wa wb) [
        | inl (e, x, read, key) ↦ inl (e, x, read, at_a ∙ key, at_b ∙ key)
        | inr (e, refused) ↦ inr (e, at_a ∙ refused, at_b ∙ refused)
      ]
