-- ===== src/Dtls/Thread/Kkpp.antt =====
-- A first round in a hello is read back.
use ot_commissioner_rs.Base.{◌≡◌, sym, ap, ◌∙◌, List, Bytes, ok, ok-injective}
use ot_commissioner_rs.Dtls.EcJpake.{RoundOne}
use ot_commissioner_rs.Dtls.EcJpake.Codec.{encode_tls_kkpp, decode_tls_kkpp}
use ot_commissioner_rs.Dtls.EcJpake.Codec.RoundTrip.{decode_tls_kkpp-round_one}
use ot_commissioner_rs.Dtls.EcJpake.Curve.{Curve}
use ot_commissioner_rs.Dtls.EcJpake.Party.{EcJpakeParty, round_one}
use ot_commissioner_rs.Dtls.EcJpake.Rounds.{IsParty}

-- The kkpp of a round that a party made is read back.
pub kkpp_back :
    (c : Curve) (p : EcJpakeParty c) (draws rest : List c.Scalar) (r : RoundOne) (kkpp id : Bytes)
    → IsParty c p
    → p.participant_id ≡ id
    → round_one c p draws ≡ ok (r, rest)
    → encode_tls_kkpp c r ≡ ok kkpp
    → decode_tls_kkpp c kkpp id ≡ ok r
kkpp_back c p draws rest r kkpp id w same made e =
    let (bytes, written, read) = decode_tls_kkpp-round_one c p draws rest r w made in
    ap (λ b. decode_tls_kkpp c b id) (ok-injective (sym e ∙ written))
    ∙ ap (decode_tls_kkpp c bytes) (sym same)
    ∙ read
