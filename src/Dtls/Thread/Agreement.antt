-- ===== src/Dtls/Thread/Agreement.antt =====
-- A handshake up to the ClientKeyExchange: the client's side and the server's put together.
use ot_commissioner_rs.Base.{ℕ, ◌≡◌, refl, sym, ap, ◌∙◌, some, List, Bytes, length, Result, ok}
use ot_commissioner_rs.Dtls.{Error}
use ot_commissioner_rs.Dtls.EcJpake.{RoundOne, RoundTwo}
use ot_commissioner_rs.Dtls.EcJpake.Agreement.{finish-shared_point}
use ot_commissioner_rs.Dtls.EcJpake.Codec.{encode_tls_kkpp}
use ot_commissioner_rs.Dtls.EcJpake.Curve.{Curve}
use ot_commissioner_rs.Dtls.EcJpake.Party.{EcJpakeParty, finish}
use ot_commissioner_rs.Dtls.Handshake.{HandshakeMessage}
use ot_commissioner_rs.Dtls.Handshake.Transcript.{HandshakeTranscript}
use ot_commissioner_rs.Dtls.Hello.{ClientHello, ServerHello}
use ot_commissioner_rs.Dtls.Hello.Client.{encode}
use ot_commissioner_rs.Dtls.Hello.State.{hello_of, message_of}
use ot_commissioner_rs.Dtls.KeySchedule.{Mac}
use ot_commissioner_rs.Dtls.Thread.Client.{
  ThreadDtlsHandshake, record_client_hello, handle_server_hello, handle_server_key_exchange,
  handle_server_hello_done, build_client_key_exchange, new_with_rng as client_new_with_rng,
  derive_key_material as client_derive,
}
use ot_commissioner_rs.Dtls.Thread.Exchange.{after_hellos, after_key_exchange}
use ot_commissioner_rs.Dtls.Thread.Server.{
  ThreadDtlsServerHandshake, handle_client_hello, build_server_hello, build_server_key_exchange,
  build_server_hello_done, handle_client_key_exchange, new_with_rng as server_new_with_rng,
  derive_key_material as server_derive,
}
use ot_commissioner_rs.Dtls.Thread.States.{client_state, server_state, client_new, server_new}

module _ (c : Curve) (h : Mac) where
  derive-equal :
      (cr sr : Bytes) (a b : EcJpakeParty c) (r q : RoundOne) (x y : RoundTwo)
      (t : HandshakeTranscript)
      → finish c a r q y ≡ finish c b q r x
      → client_derive c h (client_state c a r (some q) (some y) cr (some sr) t)
        ≡ server_derive c h (server_state c b q (some r) (some x) sr (some cr) t)
  unfolding client_derive server_derive
  derive-equal cr sr a b r q x y t e = rw e refl

  -- A client and a server of the same secret that exchange their messages, each over what the other's
  -- last message left, up to the ClientKeyExchange: where every message is built, every one is accepted
  -- by the other side, both derive the same key material, or refuse alike, and the transcripts are the
  -- same. The randoms have 32 bytes; the cookie, the message sequences and the draws are any.
  pub derive_key_material-build :
      (cr sr secret cookie kkpp payload : Bytes) (n n1 n2 n3 n4 : ℕ)
      (dc dc1 dc2 dc3 ds ds1 ds2 ds3 : List c.Scalar) (k k1 k2 k3 k4 k5 : ThreadDtlsHandshake c)
      (s s1 s2 s3 s4 s5 : ThreadDtlsServerHandshake c) (sh ske shd cke : HandshakeMessage)
      (o1 : Result Error ClientHello) (o2 : Result Error ServerHello) (o3 : Result Error RoundTwo)
      (o4 o5 : Result Error (Unit {0}))
      → length cr ≡ 32
      → length sr ≡ 32
      → client_new_with_rng c cr dc secret ≡ ok (k, dc1)
      → server_new_with_rng c sr ds secret ≡ ok (s, ds1)
      → encode_tls_kkpp c k.client_round_one ≡ ok kkpp
      → encode (hello_of cr cookie (some kkpp)) ≡ ok payload
      → record_client_hello c k (message_of n payload) ≡ (k1, ok tt)
      → handle_client_hello c s (message_of n payload) ≡ (s1, o1)
      → build_server_hello c s1 n1 ≡ (s2, ok sh)
      → handle_server_hello c k1 sh ≡ (k2, o2)
      → build_server_key_exchange c s2 n2 ds2 ≡ (s3, ok (ske, ds3))
      → handle_server_key_exchange c k2 ske ≡ (k3, o3)
      → build_server_hello_done c s3 n3 ≡ (s4, ok shd)
      → handle_server_hello_done c k3 shd ≡ (k4, o4)
      → build_client_key_exchange c k4 n4 dc2 ≡ (k5, ok (cke, dc3))
      → handle_client_key_exchange c s4 cke ≡ (s5, o5)
      → (hello1 : ClientHello) × (hello2 : ServerHello) × (y : RoundTwo) × (o1 ≡ ok hello1)
        × (o2 ≡ ok hello2)
        × (o3 ≡ ok y)
        × (o4 ≡ ok tt)
        × (o5 ≡ ok tt)
        × (k5.transcript ≡ s5.transcript)
        × (client_derive c h k5 ≡ server_derive c h s5)
  derive_key_material-build cr sr secret cookie kkpp payload n n1 n2 n3 n4 dc dc1 dc2 dc3 ds ds1 ds2
        ds3 k k1 k2 k3 k4 k5 s s1 s2 s3 s4 s5 sh ske shd cke o1 o2 o3 o4 o5 hc hs new_k new_s kk pl
        a1 b1 b2 a2 b3 a3 b4 a4 a5 b5 =
      let (ca, ek) = client_new c cr secret dc dc1 k new_k in
      let (cb, es) = server_new c sr secret ds ds1 s new_s in
      let a = k.ecjpake in
      let r = k.client_round_one in
      let b = s.ecjpake in
      let q = s.server_round_one in
      let (t, hello1, hello2, took1, took2, ek2, es2) =
        after_hellos c cr sr secret cookie kkpp payload n n1 a b r q k1 k2 s1 s2 sh o1 o2 ca cb hc
          hs kk pl (ap (λ x. record_client_hello c x (message_of n payload)) (sym ek) ∙ a1)
          (ap (λ x. handle_client_hello c x (message_of n payload)) (sym es) ∙ b1) b2 a2 in
      let (x, y, end, dx, dy, sent_x, sent_y, ek5, es5, took3, took4, took5) =
        after_key_exchange c cr sr secret n2 n3 n4 a b r q t dc2 dc3 ds2 ds3 k2 k3 k4 k5 s2 s3 s4 s5
          ske shd cke o3 o4 o5 ca cb ek2 es2 b3 a3 b4 a4 a5 b5 in
      let (at_client, at_server) =
        finish-shared_point c a b r q x y ca.draws ca.rest dc2 dx cb.draws cb.rest ds2 dy ca.role_is
          cb.role_is (ca.secret_is ∙ sym cb.secret_is) ca.is_party cb.is_party ca.made cb.made
          sent_x sent_y in
      (
        hello1,
        hello2,
        y,
        took1,
        took2,
        took3,
        took4,
        took5,
        ap (λ (k : ThreadDtlsHandshake c). k.transcript) ek5
            ∙ sym (ap (λ (s : ThreadDtlsServerHandshake c). s.transcript) es5),
        ap (client_derive c h) ek5
            ∙ derive-equal cr sr a b r q x y end (at_client ∙ sym at_server)
            ∙ sym (ap (server_derive c h) es5),
      )
