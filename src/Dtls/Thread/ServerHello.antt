-- ===== src/Dtls/Thread/ServerHello.antt =====
-- A ServerHello and a ServerHelloDone that the server builds are handled by the client.
use ot_commissioner_rs.Base.{
  ℕ, ◌≡◌, refl, sym, ap, ◌∙◌, some, List, [], Bytes, length, arith, ok, bind-eq-ok, fail_if-eq-ok,
  ok-injective,
}
use ot_commissioner_rs.Dtls.EcJpake.{RoundOne, thread_server_id}
use ot_commissioner_rs.Dtls.EcJpake.Codec.{encode_tls_kkpp, decode_tls_kkpp}
use ot_commissioner_rs.Dtls.EcJpake.Curve.{Curve}
use ot_commissioner_rs.Dtls.EcJpake.Party.{round_one}
use ot_commissioner_rs.Dtls.EcJpake.Rounds.{IsParty}
use ot_commissioner_rs.Dtls.Handshake.{HandshakeMessage, server_hello, server_hello_done}
use ot_commissioner_rs.Dtls.Handshake.Transcript.{HandshakeTranscript, push}
use ot_commissioner_rs.Dtls.Hello.{ServerHello, find_extension}
use ot_commissioner_rs.Dtls.Hello.Server.{encode, validate_thread_profile, ecjpake_kkpp}
use ot_commissioner_rs.Dtls.Hello.Server.RoundTrip.{IsTyped, decode-encode_server}
use ot_commissioner_rs.Dtls.Thread.Client.{
  ThreadDtlsHandshake, handle_server_hello, read_server_hello, handle_server_hello_done,
}
use ot_commissioner_rs.Dtls.Thread.Server.{
  ThreadDtlsServerHandshake, server_hello_of, build_server_hello, make_server_hello,
  build_server_hello_done, is_none,
}
use ot_commissioner_rs.Dtls.Thread.Steps.{on_ok-eq, server_recorded-eq}
use ot_commissioner_rs.Dtls.Thread.Kkpp.{kkpp_back}

module _ (c : Curve) where
  server_hello_of-IsTyped :
      (s : ThreadDtlsServerHandshake c) (kkpp : Bytes)
      → length s.server_random ≡ 32
      → IsTyped (server_hello_of c s kkpp)
  unfolding server_hello_of
  server_hello_of-IsTyped s kkpp e = record {
    random = e;
    suite = omega arith;
    types = (omega arith, (omega arith, tt));
  }

  read_server_hello-message :
      (s : ThreadDtlsServerHandshake c) (n : ℕ) (kkpp payload : Bytes)
      → length s.server_random ≡ 32
      → encode (server_hello_of c s kkpp) ≡ ok payload
      → decode_tls_kkpp c kkpp thread_server_id ≡ ok s.server_round_one
      → read_server_hello c
          (record { message_type = server_hello; message_seq = n; payload = payload })
        ≡ ok (server_hello_of c s kkpp, s.server_round_one)
  unfolding read_server_hello server_hello_of validate_thread_profile ecjpake_kkpp find_extension
  read_server_hello-message s n kkpp payload size e read =
      rw
        (
          decode-encode_server (server_hello_of c s kkpp) payload
              (server_hello_of-IsTyped s kkpp size) e,
          read,
        )
        refl

  make_server_hello-eq :
      (s : ThreadDtlsServerHandshake c) (n : ℕ) (m : HandshakeMessage)
      → make_server_hello c s n ≡ ok m
      → (kkpp : Bytes) × (payload : Bytes) × (encode_tls_kkpp c s.server_round_one ≡ ok kkpp)
        × (encode (server_hello_of c s kkpp) ≡ ok payload)
        × (m ≡ record { message_type = server_hello; message_seq = n; payload = payload })
  unfolding make_server_hello
  make_server_hello-eq s n m e =
      let (known, e1) = fail_if-eq-ok (is_none s.client_random) _ _ e in
      let (kkpp, e2, e3) = bind-eq-ok (encode_tls_kkpp c s.server_round_one) _ e1 in
      let (payload, e4, e5) = bind-eq-ok (encode (server_hello_of c s kkpp)) _ e3 in
      (kkpp, payload, e2, e4, sym (ok-injective e5))

  handle_server_hello-ok :
      (k : ThreadDtlsHandshake c) (m : HandshakeMessage) (hello : ServerHello) (r : RoundOne)
      (grown : HandshakeTranscript)
      → read_server_hello c m ≡ ok (hello, r)
      → push k.transcript m ≡ (grown, ok tt)
      → handle_server_hello c k m ≡ (
        record k {
          server_round_one = some r;
          server_random = some hello.random;
          transcript = grown;
        },
        ok hello,
      )
  unfolding handle_server_hello
  handle_server_hello-ok k m hello r grown e p = rw (e, p) refl

  -- A ServerHello that the server builds over the transcript of the client is handled by the client: it
  -- holds the server's first round and random then, and the transcripts are the same again.
  pub handle_server_hello-build :
      (s left : ThreadDtlsServerHandshake c) (k : ThreadDtlsHandshake c) (n : ℕ)
      (draws rest : List c.Scalar) (m : HandshakeMessage)
      → IsParty c s.ecjpake
      → s.ecjpake.participant_id ≡ thread_server_id
      → round_one c s.ecjpake draws ≡ ok (s.server_round_one, rest)
      → length s.server_random ≡ 32
      → k.transcript ≡ s.transcript
      → build_server_hello c s n ≡ (left, ok m)
      → (hello : ServerHello) × (left ≡ record s { transcript = left.transcript })
        × (handle_server_hello c k m ≡ (
          record k {
            server_round_one = some s.server_round_one;
            server_random = some s.server_random;
            transcript = left.transcript;
          },
          ok hello,
        ))
  unfolding build_server_hello server_hello_of
  handle_server_hello-build s left k n draws rest m w id made size same h =
      let (m1, e, h1) = on_ok-eq s left (make_server_hello c s n) _ m h in
      let (pushes, is_m, after) = server_recorded-eq c s left m1 m1 m h1 in
      let (kkpp, payload, e1, e2, is_message) = make_server_hello-eq s n m1 e in
      let reads =
        ap (read_server_hello c) (sym is_m ∙ is_message)
        ∙ read_server_hello-message s n kkpp payload size e2 (
            kkpp_back c s.ecjpake draws rest s.server_round_one kkpp thread_server_id w id made
              e1) in
      (
        server_hello_of c s kkpp,
        after,
        handle_server_hello-ok k m (server_hello_of c s kkpp) s.server_round_one left.transcript
            reads (ap (λ x. push x m) same ∙ ap (push s.transcript) (sym is_m) ∙ pushes),
      )

  handle_server_hello_done-ok :
      (k : ThreadDtlsHandshake c) (n : ℕ) (grown : HandshakeTranscript)
      → push k.transcript
          (record { message_type = server_hello_done; message_seq = n; payload = [] })
        ≡ (grown, ok tt)
      → handle_server_hello_done c k
          (record { message_type = server_hello_done; message_seq = n; payload = [] })
        ≡ (record k { transcript = grown }, ok tt)
  unfolding handle_server_hello_done
  handle_server_hello_done-ok k n grown p = rw p refl

  pub handle_server_hello_done-build :
      (s left : ThreadDtlsServerHandshake c) (k : ThreadDtlsHandshake c) (n : ℕ)
      (m : HandshakeMessage)
      → k.transcript ≡ s.transcript
      → build_server_hello_done c s n ≡ (left, ok m)
      → (left ≡ record s { transcript = left.transcript })
        × (handle_server_hello_done c k m ≡ (record k { transcript = left.transcript }, ok tt))
  unfolding build_server_hello_done
  handle_server_hello_done-build s left k n m same h =
      let (pushes, is_m, after) = server_recorded-eq c s left _ _ m h in
      (
        after,
        ap (handle_server_hello_done c k) (sym is_m)
            ∙ handle_server_hello_done-ok k n left.transcript (
                ap
                  (λ x.
                    push x
                      (record { message_type = server_hello_done; message_seq = n; payload = [] }))
                  same
                ∙ pushes),
      )
