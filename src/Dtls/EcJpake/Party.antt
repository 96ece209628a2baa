-- ===== src/Dtls/EcJpake/Party.antt =====
-- `EcJpakeParty` of crates/thread-dtls/src/ecjpake/mod.rs.
use ot_commissioner_rs.Base.{false, List, [], Bytes, Result, ok, ◌>>=◌, ◌>>◌, fail_if}
use ot_commissioner_rs.Dtls.{Error, crypto}
use ot_commissioner_rs.Dtls.EcJpake.{
  EcJpakeRole, client, server, RoundOne, RoundTwo, thread_participant_id, peer_role,
}
use ot_commissioner_rs.Dtls.EcJpake.Curve.{
  Curve, point_from_bytes, point_to_bytes, scalar_from_repr, random_scalar, scalar_from_secret,
  derive_session_key,
}
use ot_commissioner_rs.Dtls.EcJpake.Schnorr.{generate, verify}

pub record EcJpakeParty (c : Curve) : Type 0 where
  pub role : EcJpakeRole
  pub participant_id : Bytes
  pub secret : c.Scalar
  pub x1 : c.Scalar
  pub x2 : c.Scalar

module _ (c : Curve) where
  -- `EcJpakeParty::new_with_rng`, with the draws that it leaves
  unfoldable pub new_with_rng :
      List c.Scalar → EcJpakeRole → Bytes → Bytes → Result Error (EcJpakeParty c × List c.Scalar)
  new_with_rng draws role participant_id shared_secret = do
    (x1, draws1) ← random_scalar c false draws
    (x2, draws2) ← random_scalar c false draws1
    ok (
      record {
        role = role;
        participant_id = participant_id;
        secret = scalar_from_secret c shared_secret;
        x1 = x1;
        x2 = x2;
      },
      draws2,
    )

  -- `EcJpakeParty::new_thread_with_rng`
  unfoldable pub new_thread_with_rng :
      List c.Scalar → EcJpakeRole → Bytes → Result Error (EcJpakeParty c × List c.Scalar)
  unfolding new_with_rng
  new_thread_with_rng draws role shared_secret =
      new_with_rng draws role (thread_participant_id role) shared_secret

  -- `EcJpakeParty::new_with_scalars`
  unfoldable pub new_with_scalars :
      EcJpakeRole → Bytes → Bytes → Bytes → Bytes → Result Error (EcJpakeParty c)
  new_with_scalars role participant_id shared_secret x1 x2 = do
    a ← scalar_from_repr c x1
    b ← scalar_from_repr c x2
    fail_if (c.is_zero a) (crypto "x1/x3 must be nonzero")
    fail_if (c.is_zero b) (crypto "x2/x4 must be nonzero")
    ok (record {
      role = role;
      participant_id = participant_id;
      secret = scalar_from_secret c shared_secret;
      x1 = a;
      x2 = b;
    })

  -- `EcJpakeParty::round_one`, with the draws that it leaves
  unfoldable pub round_one :
      EcJpakeParty c → List c.Scalar → Result Error (RoundOne × List c.Scalar)
  round_one p draws = do
    let base = c.generator
    let g1 = c.mul base p.x1
    let g2 = c.mul base p.x2
    (proof1, draws1) ← generate c base p.x1 g1 p.participant_id [] draws
    (proof2, draws2) ← generate c base p.x2 g2 p.participant_id [] draws1
    ok (
      record {
        g1 = point_to_bytes c g1;
        g2 = point_to_bytes c g2;
        proof1 = proof1;
        proof2 = proof2;
        participant_id = p.participant_id;
      },
      draws2,
    )

  -- `EcJpakeParty::verify_round_one`
  unfoldable pub verify_round_one : RoundOne → Result Error (Unit {0})
  verify_round_one peer = do
    let base = c.generator
    g1 ← point_from_bytes c peer.g1
    g2 ← point_from_bytes c peer.g2
    fail_if (c.is_identity g2) (crypto "peer x2/x4 point must not be identity")
    verify c peer.proof1 base g1 peer.participant_id []
    verify c peer.proof2 base g2 peer.participant_id []

  -- The sum of three of the points, by the roles of the computing party and of the sender.
  abbrev pub base_of : EcJpakeRole → EcJpakeRole → c.Point → c.Point → c.Point → c.Point → c.Point
  base_of client client own_g1 own_g2 peer_g1 peer_g2 = c.add (c.add own_g1 peer_g1) peer_g2
  base_of client server own_g1 own_g2 peer_g1 peer_g2 = c.add (c.add own_g1 own_g2) peer_g1
  base_of server server own_g1 own_g2 peer_g1 peer_g2 = c.add (c.add peer_g1 peer_g2) own_g1
  base_of server client own_g1 own_g2 peer_g1 peer_g2 = c.add (c.add peer_g1 own_g1) own_g2

  -- `EcJpakeParty::second_round_base`
  unfoldable pub second_round_base :
      EcJpakeParty c → RoundOne → RoundOne → EcJpakeRole → Result Error c.Point
  second_round_base p own peer sender_role = do
    own_g1 ← point_from_bytes c own.g1
    own_g2 ← point_from_bytes c own.g2
    peer_g1 ← point_from_bytes c peer.g1
    peer_g2 ← point_from_bytes c peer.g2
    ok (base_of p.role sender_role own_g1 own_g2 peer_g1 peer_g2)

  -- `EcJpakeParty::round_two`, with the draws that it leaves
  unfoldable pub round_two :
      EcJpakeParty c → RoundOne → RoundOne → List c.Scalar → Result Error (RoundTwo × List c.Scalar)
  round_two p own_round_one peer_round_one draws = do
    verify_round_one peer_round_one
    base ← second_round_base p own_round_one peer_round_one p.role
    fail_if (c.is_identity base) (crypto "second-round generator is identity")
    let exponent = c.mul_scalar p.x2 p.secret
    let point = c.mul base exponent
    (proof, rest) ← generate c base exponent point p.participant_id [] draws
    ok (record { point = point_to_bytes c point; proof = proof }, rest)

  -- `EcJpakeParty::finish`
  unfoldable pub finish : EcJpakeParty c → RoundOne → RoundOne → RoundTwo → Result Error Bytes
  finish p own_round_one peer_round_one peer_round_two = do
    verify_round_one peer_round_one
    peer_base ← second_round_base p own_round_one peer_round_one (peer_role p.role)
    peer_point ← point_from_bytes c peer_round_two.point
    verify c peer_round_two.proof peer_base peer_point peer_round_one.participant_id []
    peer_x2_point ← point_from_bytes c peer_round_one.g2
    let exponent = c.mul_scalar p.x2 p.secret
    let shared = c.mul (c.sub peer_point (c.mul peer_x2_point exponent)) p.x2
    fail_if (c.is_identity shared) (crypto "derived J-PAKE point is identity")
    derive_session_key c shared
