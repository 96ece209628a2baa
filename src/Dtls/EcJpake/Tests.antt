-- ===== src/Dtls/EcJpake/Tests.antt =====
-- A run of the protocol over the toy curve, and the theorems at it.
use ot_commissioner_rs.Base.{true, Bytes, replicate, ◌≡◌, refl, [], ◌∷◌, ok, err, ◌⊎◌, false, some}
use ot_commissioner_rs.Dtls.{crypto}
use ot_commissioner_rs.Dtls.EcJpake.{server, thread_client_id, thread_server_id}
use ot_commissioner_rs.Dtls.EcJpake.Agreement.{finish-round_two}
use ot_commissioner_rs.Dtls.EcJpake.Codec.{
  encode_tls_kkpp, decode_tls_kkpp, encode_tls_key_exchange, decode_tls_key_exchange,
}
use ot_commissioner_rs.Dtls.EcJpake.Codec.RoundTrip.{
  decode_tls_kkpp-round_one, decode_tls_key_exchange-round_two,
}
use ot_commissioner_rs.Dtls.EcJpake.Curve.{
  point_x_bytes, derive_session_key, point_from_bytes, random_scalar,
}
use ot_commissioner_rs.Dtls.EcJpake.Key.{first_sum, shared_point}
use ot_commissioner_rs.Dtls.EcJpake.Party.{
  EcJpakeParty, second_round_base, verify_round_one, finish, round_two, round_one,
}
use ot_commissioner_rs.Dtls.EcJpake.Rounds.{IsParty}
use ot_commissioner_rs.Dtls.EcJpake.Sample.{alice, bob, draws, first, second}
use ot_commissioner_rs.Dtls.EcJpake.Schnorr.{
  challenge_scalar, generate, verify, verify-generate, proof_with,
}
use ot_commissioner_rs.Dtls.EcJpake.Toy.{encoded, i, t, toy}

alice-IsParty : IsParty toy alice
alice-IsParty = record { secret = refl; x1 = refl; x2 = refl }

bob-IsParty : IsParty toy bob
bob-IsParty = record { secret = refl; x1 = refl; x2 = refl }

generated : generate toy i t t [] [] draws ≡ ok (proof_with toy i i t t [] [], t ∷ i ∷ [])
unfolding generate random_scalar
generated = refl

verify-generate_example : verify toy (proof_with toy i i t t [] []) i t [] [] ≡ ok tt
verify-generate_example =
    verify-generate toy i t [] [] draws (t ∷ i ∷ []) (proof_with toy i i t t [] []) refl refl
      generated

first_of_alice : round_one toy alice draws ≡ ok (first alice, i ∷ [])
unfolding round_one generate random_scalar
first_of_alice = refl

first_of_bob : round_one toy bob draws ≡ ok (first bob, i ∷ [])
unfolding round_one generate random_scalar
first_of_bob = refl

second_of_alice :
    round_two toy alice (first alice) (first bob) draws ≡ ok (second alice, t ∷ i ∷ [])
unfolding round_two verify_round_one second_round_base verify point_from_bytes generate proof_with
    challenge_scalar random_scalar
second_of_alice = refl

second_of_bob : round_two toy bob (first bob) (first alice) draws ≡ ok (second bob, t ∷ i ∷ [])
unfolding round_two verify_round_one second_round_base verify point_from_bytes generate proof_with
    challenge_scalar random_scalar
second_of_bob = refl

finish-round_two_example :
    ((toy.is_identity (first_sum toy alice bob) ≡ false)
      × (x : Bytes) × (toy.x_of (toy.encoded_point (shared_point toy alice bob)) ≡ some x)
      × (finish toy alice (first alice) (first bob) (second bob) ≡ ok (toy.sha256 x))
      × (finish toy bob (first bob) (first alice) (second alice) ≡ ok (toy.sha256 x)))
    ⊎ ((toy.is_identity (first_sum toy alice bob) ≡ true)
        × (finish toy alice (first alice) (first bob) (second bob)
            ≡ err (crypto "derived J-PAKE point is identity"))
        × (finish toy bob (first bob) (first alice) (second alice)
            ≡ err (crypto "derived J-PAKE point is identity")))
finish-round_two_example =
    finish-round_two toy alice bob (first alice) (first bob) (second alice) (second bob) draws
      (i ∷ []) draws (t ∷ i ∷ []) draws (i ∷ []) draws (t ∷ i ∷ []) refl refl refl alice-IsParty
      bob-IsParty first_of_alice first_of_bob second_of_alice second_of_bob

-- The key is a digest, not the refusal of the identity.
finished : finish toy alice (first alice) (first bob) (second bob) ≡ ok (replicate 32 32)
unfolding finish verify_round_one second_round_base verify point_from_bytes proof_with
    challenge_scalar derive_session_key point_x_bytes
finished = refl

-- A server whose first scalar is the opposite of the client's: the shared point is the identity.
abbrev dave : EcJpakeParty toy
dave = record { role = server; participant_id = thread_server_id; secret = t; x1 = t; x2 = t }

refused :
    finish toy dave
      (first dave)
      (first alice)
      (record { point = encoded t; proof = proof_with toy t i t i thread_client_id [] })
    ≡ err (crypto "derived J-PAKE point is identity")
unfolding finish verify_round_one second_round_base verify point_from_bytes proof_with
    challenge_scalar
refused = refl

decode_tls_kkpp-round_one_example :
    (bytes : Bytes) × (encode_tls_kkpp toy (first alice) ≡ ok bytes)
    × (decode_tls_kkpp toy bytes thread_client_id ≡ ok (first alice))
decode_tls_kkpp-round_one_example =
    decode_tls_kkpp-round_one toy alice draws (i ∷ []) (first alice) alice-IsParty first_of_alice

decode_tls_key_exchange-round_two_example :
    (bytes : Bytes) × (encode_tls_key_exchange toy (second bob) true ≡ ok bytes)
    × (decode_tls_key_exchange toy bytes thread_server_id true ≡ ok (second bob))
decode_tls_key_exchange-round_two_example =
    decode_tls_key_exchange-round_two toy bob (first bob) (first alice) draws (t ∷ i ∷ [])
      (second bob) true bob-IsParty second_of_bob
