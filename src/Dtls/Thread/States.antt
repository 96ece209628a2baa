-- ===== src/Dtls/Thread/States.antt =====
-- What a fresh handshake state holds.
use ot_commissioner_rs.Base.{
  ◌≡◌, refl, ap, subst, Option, none, List, Bytes, ok, bind-eq-ok, ok-injective,
}
use ot_commissioner_rs.Dtls.EcJpake.{
  RoundOne, RoundTwo, EcJpakeRole, client, server, thread_participant_id,
}
use ot_commissioner_rs.Dtls.EcJpake.Curve.{Curve, scalar_from_secret}
use ot_commissioner_rs.Dtls.EcJpake.Party.{EcJpakeParty, new_thread_with_rng, round_one}
use ot_commissioner_rs.Dtls.EcJpake.Rounds.{IsParty, new_with_rng-IsParty}
use ot_commissioner_rs.Dtls.Handshake.Transcript.{HandshakeTranscript, new as new_transcript}
use ot_commissioner_rs.Dtls.Thread.Client.{new_with_rng as client_new_with_rng, ThreadDtlsHandshake}
use ot_commissioner_rs.Dtls.Thread.Server.{
  new_with_rng as server_new_with_rng, ThreadDtlsServerHandshake,
}

module _ (c : Curve) where
  abbrev pub client_state :
      EcJpakeParty c
      → RoundOne
      → Option RoundOne
      → Option RoundTwo
      → Bytes
      → Option Bytes
      → HandshakeTranscript
      → ThreadDtlsHandshake c
  client_state a r1 s1 s2 random server_random t = record {
    ecjpake = a;
    client_round_one = r1;
    server_round_one = s1;
    server_round_two = s2;
    client_random = random;
    server_random = server_random;
    transcript = t;
  }

  abbrev pub server_state :
      EcJpakeParty c
      → RoundOne
      → Option RoundOne
      → Option RoundTwo
      → Bytes
      → Option Bytes
      → HandshakeTranscript
      → ThreadDtlsServerHandshake c
  server_state b s1 r1 r2 random client_random t = record {
    ecjpake = b;
    server_round_one = s1;
    client_round_one = r1;
    client_round_two = r2;
    server_random = random;
    client_random = client_random;
    transcript = t;
  }

  -- A party of the Thread profile and its first round.
  pub record Starts (role : EcJpakeRole) (secret : Bytes) (p : EcJpakeParty c) (r : RoundOne)
      : Type 0 where
    pub is_party : IsParty c p
    pub role_is : p.role ≡ role
    pub id_is : p.participant_id ≡ thread_participant_id role
    pub secret_is : p.secret ≡ scalar_from_secret c secret
    pub draws : List c.Scalar
    pub rest : List c.Scalar
    pub made : round_one c p draws ≡ ok (r, rest)

  new_thread_with_rng-Starts :
      (role : EcJpakeRole) (secret : Bytes) (p : EcJpakeParty c) (r : RoundOne)
      (draws draws1 rest : List c.Scalar)
      → new_thread_with_rng c draws role secret ≡ ok (p, draws1)
      → round_one c p draws1 ≡ ok (r, rest)
      → Starts role secret p r
  unfolding new_thread_with_rng
  new_thread_with_rng-Starts role secret p r draws draws1 rest e made =
      let (w, is_role, is_id, is_secret) =
        new_with_rng-IsParty c draws draws1 role (thread_participant_id role) secret p e in
      record {
        is_party = w;
        role_is = is_role;
        id_is = is_id;
        secret_is = is_secret;
        draws = draws1;
        rest = rest;
        made = made;
      }

  pub client_new :
      (random secret : Bytes) (draws rest : List c.Scalar) (k : ThreadDtlsHandshake c)
      → client_new_with_rng c random draws secret ≡ ok (k, rest)
      → Starts client secret k.ecjpake k.client_round_one
        × (k ≡ client_state k.ecjpake k.client_round_one none none random none new_transcript)
  unfolding client_new_with_rng
  client_new random secret draws rest k h =
      let ((p, draws1), e1, h1) = bind-eq-ok (new_thread_with_rng c draws client secret) _ h in
      let ((r, draws2), e2, h2) = bind-eq-ok (round_one c p draws1) _ h1 in
      let is_k = ap (λ (x : ThreadDtlsHandshake c × List c.Scalar). x.0) (ok-injective h2) in
      subst
        (λ (k : ThreadDtlsHandshake c).
          Starts client secret k.ecjpake k.client_round_one
          × (k ≡ client_state k.ecjpake k.client_round_one none none random none new_transcript))
        is_k (new_thread_with_rng-Starts client secret p r draws draws1 draws2 e1 e2, refl)

  pub server_new :
      (random secret : Bytes) (draws rest : List c.Scalar) (s : ThreadDtlsServerHandshake c)
      → server_new_with_rng c random draws secret ≡ ok (s, rest)
      → Starts server secret s.ecjpake s.server_round_one
        × (s ≡ server_state s.ecjpake s.server_round_one none none random none new_transcript)
  unfolding server_new_with_rng
  server_new random secret draws rest s h =
      let ((p, draws1), e1, h1) = bind-eq-ok (new_thread_with_rng c draws server secret) _ h in
      let ((r, draws2), e2, h2) = bind-eq-ok (round_one c p draws1) _ h1 in
      let is_s = ap (λ (x : ThreadDtlsServerHandshake c × List c.Scalar). x.0) (ok-injective h2) in
      subst
        (λ (s : ThreadDtlsServerHandshake c).
          Starts server secret s.ecjpake s.server_round_one
          × (s ≡ server_state s.ecjpake s.server_round_one none none random none new_transcript))
        is_s (new_thread_with_rng-Starts server secret p r draws draws1 draws2 e1 e2, refl)
