-- ===== src/Dtls/EcJpake/Rounds.antt =====
-- What the rounds of EC J-PAKE hold, and what `finish` makes of them.
use ot_commissioner_rs.Base.{
  ◌∙◌, fail_if-eq-ok, Result, ◌≡◌, refl, sym, ap, false, List, [], Bytes, ok, bind-eq-ok,
  ok-injective, subst, fail_if, ◌>>◌,
}
use ot_commissioner_rs.Dtls.{Error, crypto}
use ot_commissioner_rs.Dtls.EcJpake.{peer_role, RoundTwo, EcJpakeRole, RoundOne, client, server}
use ot_commissioner_rs.Dtls.EcJpake.Curve.{
  derive_session_key, Curve, point_from_bytes, random_scalar, random_scalar-nonzero,
  scalar_from_secret, scalar_from_secret-nonzero, point_from_bytes-point_to_bytes, point_to_bytes,
}
use ot_commissioner_rs.Dtls.EcJpake.Party.{
  finish, round_two, second_round_base, base_of, EcJpakeParty, new_with_rng, round_one,
  verify_round_one,
}
use ot_commissioner_rs.Dtls.EcJpake.Schnorr.{verify, generate, verify-generate}

module _ (c : Curve) where
  -- The scalars of a party are not zero.
  pub record IsParty (p : EcJpakeParty c) : Type 0 where
    pub secret : c.is_zero p.secret ≡ false
    pub x1 : c.is_zero p.x1 ≡ false
    pub x2 : c.is_zero p.x2 ≡ false

  pub new_with_rng-IsParty :
      (draws rest : List c.Scalar) (role : EcJpakeRole) (participant_id shared_secret : Bytes)
      (p : EcJpakeParty c)
      → new_with_rng c draws role participant_id shared_secret ≡ ok (p, rest)
      → IsParty p
        × (p.role ≡ role)
        × (p.participant_id ≡ participant_id)
        × (p.secret ≡ scalar_from_secret c shared_secret)
  unfolding new_with_rng
  new_with_rng-IsParty draws rest role participant_id shared_secret p h =
      let ((x1, draws1), drawn1, h1) = bind-eq-ok (random_scalar c false draws) _ h in
      let ((x2, draws2), drawn2, h2) = bind-eq-ok (random_scalar c false draws1) _ h1 in
      let is_made = sym (ap (λ (x : EcJpakeParty c × List c.Scalar). x.0) (ok-injective h2)) in
      rw is_made (
        record {
          secret = scalar_from_secret-nonzero c shared_secret;
          x1 = random_scalar-nonzero c draws draws1 x1 drawn1;
          x2 = random_scalar-nonzero c draws1 draws2 x2 drawn2;
        },
        refl,
        refl,
        refl,
      )

  -- What round one holds.
  pub record Opened (p : EcJpakeParty c) (r : RoundOne) : Type 0 where
    pub g1 : point_from_bytes c r.g1 ≡ ok (c.mul c.generator p.x1)
    pub g2 : point_from_bytes c r.g2 ≡ ok (c.mul c.generator p.x2)
    pub participant_id : r.participant_id ≡ p.participant_id
    pub verifies : verify_round_one c r ≡ ok tt

  pub round_one-Opened :
      (p : EcJpakeParty c) (draws rest : List c.Scalar) (r : RoundOne)
      → IsParty p
      → round_one c p draws ≡ ok (r, rest)
      → Opened p r
  unfolding round_one verify_round_one
  round_one-Opened p draws rest r w h =
      let g1 = c.mul c.generator p.x1 in
      let g2 = c.mul c.generator p.x2 in
      let ((proof1, draws1), made1, h1) =
        bind-eq-ok (generate c c.generator p.x1 g1 p.participant_id [] draws) _ h in
      let ((proof2, draws2), made2, h2) =
        bind-eq-ok (generate c c.generator p.x2 g2 p.participant_id [] draws1) _ h1 in
      let is_made = sym (ap (λ (x : RoundOne × List c.Scalar). x.0) (ok-injective h2)) in
      let some_g1 = c.is_identity-mul c.generator p.x1 c.is_identity-generator w.x1 in
      let some_g2 = c.is_identity-mul c.generator p.x2 c.is_identity-generator w.x2 in
      let read1 = point_from_bytes-point_to_bytes c g1 some_g1 in
      let read2 = point_from_bytes-point_to_bytes c g2 some_g2 in
      rw is_made (record {
        g1 = read1;
        g2 = read2;
        participant_id = refl;
        verifies =
            rw
              (
                read1,
                read2,
                some_g2,
                verify-generate c c.generator p.x1 p.participant_id [] draws draws1 proof1
                    c.is_identity-generator w.x1 made1,
                verify-generate c c.generator p.x2 p.participant_id [] draws1 draws2 proof2
                    c.is_identity-generator w.x2 made2,
              )
              refl;
      })

  unfoldable pub base_for : EcJpakeParty c → EcJpakeParty c → EcJpakeRole → c.Point
  base_for p q role =
      base_of c p.role role (c.mul c.generator p.x1) (c.mul c.generator p.x2)
        (c.mul c.generator q.x1) (c.mul c.generator q.x2)

  pub second_round_base-Opened :
      (p q : EcJpakeParty c) (r s : RoundOne) (role : EcJpakeRole)
      → Opened p r
      → Opened q s
      → second_round_base c p r s role ≡ ok (base_for p q role)
  unfolding second_round_base base_for
  second_round_base-Opened p q r s role a b = rw (a.g1, a.g2, b.g1, b.g2) refl

  -- What round two holds.
  pub record Sent (p q : EcJpakeParty c) (t : RoundTwo) : Type 0 where
    pub point :
        point_from_bytes c t.point ≡ ok (c.mul (base_for p q p.role) (c.mul_scalar p.x2 p.secret))
    pub verifies :
        verify c t.proof
          (base_for p q p.role)
          (c.mul (base_for p q p.role) (c.mul_scalar p.x2 p.secret))
          p.participant_id
          []
        ≡ ok tt

  pub round_two-Sent :
      (p q : EcJpakeParty c) (r s : RoundOne) (draws rest : List c.Scalar) (t : RoundTwo)
      → IsParty p
      → Opened p r
      → Opened q s
      → round_two c p r s draws ≡ ok (t, rest)
      → Sent p q t
  unfolding round_two
  round_two-Sent p q r s draws rest t w a b h =
      let (_, checked, h1) = bind-eq-ok (verify_round_one c s) _ h in
      let (base, summed, h2) = bind-eq-ok (second_round_base c p r s p.role) _ h1 in
      let (some_base, h3) = fail_if-eq-ok (c.is_identity base) _ _ h2 in
      let exponent = c.mul_scalar p.x2 p.secret in
      let ((proof, left), made, h4) =
        bind-eq-ok (generate c base exponent (c.mul base exponent) p.participant_id [] draws) _
          h3 in
      let nonzero = c.is_zero-mul_scalar p.x2 p.secret w.x2 w.secret in
      let same : base ≡ base_for p q p.role =
        ok-injective (sym summed ∙ second_round_base-Opened p q r s p.role a b) in
      let is_made = sym (ap (λ (x : RoundTwo × List c.Scalar). x.0) (ok-injective h4)) in
      rw is_made (record {
        point =
            subst
              (λ (b : c.Point).
                point_from_bytes c (point_to_bytes c (c.mul base exponent)) ≡ ok (c.mul b exponent))
              same
              (point_from_bytes-point_to_bytes c (c.mul base exponent)
                (c.is_identity-mul base exponent some_base nonzero));
        verifies =
            subst (λ (b : c.Point). verify c proof b (c.mul b exponent) p.participant_id [] ≡ ok tt)
              same
              (verify-generate c base exponent p.participant_id [] draws left proof some_base
                nonzero made);
      })

  -- What `finish` makes of the point that it derives.
  unfoldable pub key_of : c.Point → Result Error Bytes
  key_of shared = do
    fail_if (c.is_identity shared) (crypto "derived J-PAKE point is identity")
    derive_session_key c shared

  pub finish-Sent :
      (p q : EcJpakeParty c) (r s : RoundOne) (t : RoundTwo)
      → q.role ≡ peer_role p.role
      → Opened p r
      → Opened q s
      → Sent p q t
      → finish c q s r t
        ≡ key_of (
            c.mul
              (c.sub
                (c.mul (base_for p q p.role) (c.mul_scalar p.x2 p.secret))
                (c.mul (c.mul c.generator p.x2) (c.mul_scalar q.x2 q.secret)))
              q.x2)
  unfolding finish key_of
  finish-Sent p q r s t roles a b sent =
      rw
        (
          a.verifies,
          second_round_base-Opened q p s r (peer_role q.role) b a,
          mirror,
          sent.point,
          a.participant_id,
          sent.verifies,
          a.g2,
        )
        refl
    where
      mirrored :
          (pr qr : EcJpakeRole) (g1 g2 g3 g4 : c.Point)
          → qr ≡ peer_role pr
          → base_of c qr (peer_role qr) g3 g4 g1 g2 ≡ base_of c pr pr g1 g2 g3 g4
      mirrored client server g1 g2 g3 g4 e = refl
      mirrored server client g1 g2 g3 g4 e = refl
      mirrored client client g1 g2 g3 g4 e = absurd (cc)
      mirrored server server g1 g2 g3 g4 e = absurd (cc)

      mirror : base_for q p (peer_role q.role) ≡ base_for p q p.role
      mirror = unfold base_for in mirrored p.role q.role _ _ _ _ roles
