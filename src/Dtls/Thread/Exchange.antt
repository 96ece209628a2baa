-- ===== src/Dtls/Thread/Exchange.antt =====
-- The states after the hellos and after the key exchange.
use ot_commissioner_rs.Base.{
  ℕ, ◌≡◌, refl, sym, ap, ◌∙◌, some, none, List, Bytes, length, Result, ok,
}
use ot_commissioner_rs.Dtls.{Error}
use ot_commissioner_rs.Dtls.EcJpake.{RoundOne, RoundTwo, client, server}
use ot_commissioner_rs.Dtls.EcJpake.Codec.{encode_tls_kkpp}
use ot_commissioner_rs.Dtls.EcJpake.Curve.{Curve}
use ot_commissioner_rs.Dtls.EcJpake.Party.{EcJpakeParty, round_two}
use ot_commissioner_rs.Dtls.Handshake.{HandshakeMessage}
use ot_commissioner_rs.Dtls.Handshake.Transcript.{HandshakeTranscript, new as new_transcript}
use ot_commissioner_rs.Dtls.Hello.{ClientHello, ServerHello}
use ot_commissioner_rs.Dtls.Hello.Client.{encode}
use ot_commissioner_rs.Dtls.Hello.State.{hello_of, message_of}
use ot_commissioner_rs.Dtls.Thread.Client.{
  ThreadDtlsHandshake, record_client_hello, handle_server_hello, handle_server_key_exchange,
  handle_server_hello_done, build_client_key_exchange,
}
use ot_commissioner_rs.Dtls.Thread.Server.{
  ThreadDtlsServerHandshake, handle_client_hello, build_server_hello, build_server_key_exchange,
  build_server_hello_done, handle_client_key_exchange,
}
use ot_commissioner_rs.Dtls.Thread.ClientHello.{handle_client_hello-record}
use ot_commissioner_rs.Dtls.Thread.ServerHello.{
  handle_server_hello-build, handle_server_hello_done-build,
}
use ot_commissioner_rs.Dtls.Thread.KeyExchange.{
  handle_server_key_exchange-build, handle_client_key_exchange-build,
}
use ot_commissioner_rs.Dtls.Thread.States.{client_state, server_state, Starts}

some_eq : {A : Type 0} {x y : A} → some x ≡ some y → x ≡ y
some_eq e = cc

module _ (c : Curve) where
  -- Both states after the two hellos.
  pub after_hellos :
      (cr sr secret cookie kkpp payload : Bytes) (n n1 : ℕ) (a b : EcJpakeParty c) (r q : RoundOne)
      (k1 k2 : ThreadDtlsHandshake c) (s1 s2 : ThreadDtlsServerHandshake c) (m : HandshakeMessage)
      (o1 : Result Error ClientHello) (o2 : Result Error ServerHello)
      → Starts c client secret a r
      → Starts c server secret b q
      → length cr ≡ 32
      → length sr ≡ 32
      → encode_tls_kkpp c r ≡ ok kkpp
      → encode (hello_of cr cookie (some kkpp)) ≡ ok payload
      → record_client_hello c
          (client_state c a r none none cr none new_transcript)
          (message_of n payload)
        ≡ (k1, ok tt)
      → handle_client_hello c
          (server_state c b q none none sr none new_transcript)
          (message_of n payload)
        ≡ (s1, o1)
      → build_server_hello c s1 n1 ≡ (s2, ok m)
      → handle_server_hello c k1 m ≡ (k2, o2)
      → (t : HandshakeTranscript) × (hello1 : ClientHello) × (hello2 : ServerHello) × (o1
          ≡ ok hello1)
        × (o2 ≡ ok hello2)
        × (k2 ≡ client_state c a r (some q) none cr (some sr) t)
        × (s2 ≡ server_state c b q (some r) none sr (some cr) t)
  after_hellos cr sr secret cookie kkpp payload n n1 a b r q k1 k2 s1 s2 m o1 o2 ca cb hc hs kk pl
        a1 b1 b2 a2 =
      let fresh_k = client_state c a r none none cr none new_transcript in
      let fresh_s = server_state c b q none none sr none new_transcript in
      let (hello1, ek1, m1) =
        handle_client_hello-record c fresh_k k1 fresh_s n ca.draws ca.rest cookie kkpp payload
          ca.is_party ca.id_is ca.made hc refl kk pl a1 in
      let state_s1 = server_state c b q (some r) none sr (some cr) k1.transcript in
      let es1 : s1 ≡ state_s1 =
        ap (λ (x : ThreadDtlsServerHandshake c × Result Error ClientHello). x.0) (sym b1 ∙ m1) in
      let state_k1 = client_state c a r none none cr none k1.transcript in
      let (hello2, es2, m2) =
        handle_server_hello-build c state_s1 s2 state_k1 n1 cb.draws cb.rest m cb.is_party cb.id_is
          cb.made hs refl (ap (λ x. build_server_hello c x n1) (sym es1) ∙ b2) in
      let ek2 = sym a2 ∙ ap (λ x. handle_server_hello c x m) ek1 ∙ m2 in
      (
        s2.transcript,
        hello1,
        hello2,
        ap (λ (x : ThreadDtlsServerHandshake c × Result Error ClientHello). x.1) (sym b1 ∙ m1),
        ap (λ (x : ThreadDtlsHandshake c × Result Error ServerHello). x.1) ek2,
        ap (λ (x : ThreadDtlsHandshake c × Result Error ServerHello). x.0) ek2,
        es2,
      )

  -- Both states after the key exchange, with the second rounds that each side made.
  pub after_key_exchange :
      (cr sr secret : Bytes) (n2 n3 n4 : ℕ) (a b : EcJpakeParty c) (r q : RoundOne)
      (t : HandshakeTranscript) (dc2 dc3 ds2 ds3 : List c.Scalar)
      (k2 k3 k4 k5 : ThreadDtlsHandshake c) (s2 s3 s4 s5 : ThreadDtlsServerHandshake c)
      (ske shd cke : HandshakeMessage) (o3 : Result Error RoundTwo)
      (o4 o5 : Result Error (Unit {0}))
      → Starts c client secret a r
      → Starts c server secret b q
      → k2 ≡ client_state c a r (some q) none cr (some sr) t
      → s2 ≡ server_state c b q (some r) none sr (some cr) t
      → build_server_key_exchange c s2 n2 ds2 ≡ (s3, ok (ske, ds3))
      → handle_server_key_exchange c k2 ske ≡ (k3, o3)
      → build_server_hello_done c s3 n3 ≡ (s4, ok shd)
      → handle_server_hello_done c k3 shd ≡ (k4, o4)
      → build_client_key_exchange c k4 n4 dc2 ≡ (k5, ok (cke, dc3))
      → handle_client_key_exchange c s4 cke ≡ (s5, o5)
      → (x y : RoundTwo) × (end : HandshakeTranscript) × (dx dy : List c.Scalar) × (round_two c a r
            q dc2
          ≡ ok (x, dx))
        × (round_two c b q r ds2 ≡ ok (y, dy))
        × (k5 ≡ client_state c a r (some q) (some y) cr (some sr) end)
        × (s5 ≡ server_state c b q (some r) (some x) sr (some cr) end)
        × (o3 ≡ ok y)
        × (o4 ≡ ok tt)
        × (o5 ≡ ok tt)
  after_key_exchange cr sr secret n2 n3 n4 a b r q t dc2 dc3 ds2 ds3 k2 k3 k4 k5 s2 s3 s4 s5 ske shd
        cke o3 o4 o5 ca cb ek2 es2 b3 a3 b4 a4 a5 b5 =
      let state_k2 = client_state c a r (some q) none cr (some sr) t in
      let state_s2 = server_state c b q (some r) none sr (some cr) t in
      let (r', y, dy, has, sent, es3, m3) =
        handle_server_key_exchange-build c state_s2 s3 state_k2 n2 ds2 ds3 ske cb.is_party cb.id_is
          refl (ap (λ x. build_server_key_exchange c x n2 ds2) (sym es2) ∙ b3) in
      let state_k3 = client_state c a r (some q) (some y) cr (some sr) s3.transcript in
      let ek3 : k3 ≡ state_k3 =
        ap (λ (x : ThreadDtlsHandshake c × Result Error RoundTwo). x.0)
          (sym a3 ∙ ap (λ x. handle_server_key_exchange c x ske) ek2 ∙ m3) in
      let state_s3 = server_state c b q (some r) none sr (some cr) s3.transcript in
      let (es4, m4) =
        handle_server_hello_done-build c state_s3 s4 state_k3 n3 shd refl
          (ap (λ x. build_server_hello_done c x n3) (sym es3) ∙ b4) in
      let state_k4 = client_state c a r (some q) (some y) cr (some sr) s4.transcript in
      let ek4 : k4 ≡ state_k4 =
        ap (λ (x : ThreadDtlsHandshake c × Result Error (Unit {0})). x.0)
          (sym a4 ∙ ap (λ x. handle_server_hello_done c x shd) ek3 ∙ m4) in
      let state_s4 = server_state c b q (some r) none sr (some cr) s4.transcript in
      let (q', x, dx, has_q, sent_x, ek5, m5) =
        handle_client_key_exchange-build c state_k4 k5 state_s4 n4 dc2 dc3 cke ca.is_party ca.id_is
          refl (ap (λ x. build_client_key_exchange c x n4 dc2) (sym ek4) ∙ a5) in
      let es5 = sym b5 ∙ ap (λ x. handle_client_key_exchange c x cke) es4 ∙ m5 in
      (
        x,
        y,
        k5.transcript,
        dx,
        dy,
        ap (λ z. round_two c a r z dc2) (some_eq has_q) ∙ sent_x,
        ap (λ z. round_two c b q z ds2) (some_eq has) ∙ sent,
        ek5,
        ap (λ (x : ThreadDtlsServerHandshake c × Result Error (Unit {0})). x.0) es5,
        ap (λ (x : ThreadDtlsHandshake c × Result Error RoundTwo). x.1)
            (sym a3 ∙ ap (λ x. handle_server_key_exchange c x ske) ek2 ∙ m3),
        ap (λ (x : ThreadDtlsHandshake c × Result Error (Unit {0})). x.1)
            (sym a4 ∙ ap (λ x. handle_server_hello_done c x shd) ek3 ∙ m4),
        ap (λ (x : ThreadDtlsServerHandshake c × Result Error (Unit {0})). x.1) es5,
      )
