-- ===== src/Dtls/EcJpake/Sample.antt =====
-- A client and a server over the toy curve, and their rounds.
use ot_commissioner_rs.Base.{List, [], ◌∷◌}
use ot_commissioner_rs.Dtls.EcJpake.{
  client, server, RoundOne, RoundTwo, thread_client_id, thread_server_id,
}
use ot_commissioner_rs.Dtls.EcJpake.Party.{EcJpakeParty}
use ot_commissioner_rs.Dtls.EcJpake.Schnorr.{proof_with}
use ot_commissioner_rs.Dtls.EcJpake.Toy.{Three, i, t, toy, encoded}

abbrev pub alice : EcJpakeParty toy
alice = record { role = client; participant_id = thread_client_id; secret = t; x1 = i; x2 = t }

abbrev pub bob : EcJpakeParty toy
bob = record { role = server; participant_id = thread_server_id; secret = t; x1 = i; x2 = t }

abbrev pub draws : List Three
draws = i ∷ t ∷ i ∷ []

abbrev pub first : EcJpakeParty toy → RoundOne
first p = record {
  g1 = encoded p.x1;
  g2 = encoded p.x2;
  proof1 = proof_with toy i i p.x1 p.x1 p.participant_id [];
  proof2 = proof_with toy t i p.x2 p.x2 p.participant_id [];
  participant_id = p.participant_id;
}

-- The base is 1 + 1 + 2, and the exponent 2 * 2.
abbrev pub second : EcJpakeParty toy → RoundTwo
second p = record { point = encoded i; proof = proof_with toy i i i i p.participant_id [] }
