-- ===== src/Dtls/Thread/ClientHello.antt =====
-- A ClientHello that the client records is handled by the server.
use ot_commissioner_rs.Base.{ℕ, ◌≡◌, refl, ap, ◌∙◌, some, List, Bytes, length, ok}
use ot_commissioner_rs.Dtls.EcJpake.{thread_client_id, RoundOne}
use ot_commissioner_rs.Dtls.EcJpake.Codec.{encode_tls_kkpp, decode_tls_kkpp}
use ot_commissioner_rs.Dtls.EcJpake.Curve.{Curve}
use ot_commissioner_rs.Dtls.EcJpake.Party.{round_one}
use ot_commissioner_rs.Dtls.EcJpake.Rounds.{IsParty}
use ot_commissioner_rs.Dtls.Handshake.{HandshakeMessage}
use ot_commissioner_rs.Dtls.Handshake.Transcript.{HandshakeTranscript, push}
use ot_commissioner_rs.Dtls.Hello.{ClientHello, find_extension}
use ot_commissioner_rs.Dtls.Hello.Client.RoundTrip.{decode-encode_client}
use ot_commissioner_rs.Dtls.Hello.State.{hello_of, message_of}
use ot_commissioner_rs.Dtls.Hello.State.Retry.{hello_of-IsTyped}
use ot_commissioner_rs.Dtls.Thread.Client.{ThreadDtlsHandshake, record_client_hello}
use ot_commissioner_rs.Dtls.Thread.Server.{
  ThreadDtlsServerHandshake, read_client_hello, handle_client_hello,
}
use ot_commissioner_rs.Dtls.Thread.Steps.{client_recorded-eq}
use ot_commissioner_rs.Dtls.Hello.Client
use ot_commissioner_rs.Dtls.Thread.Kkpp.{kkpp_back}

module _ (c : Curve) where
  -- What the server makes of a ClientHello that it can read and push.
  handle_client_hello-ok :
      (s : ThreadDtlsServerHandshake c) (m : HandshakeMessage) (hello : ClientHello) (r : RoundOne)
      (grown : HandshakeTranscript)
      → read_client_hello c m ≡ ok (hello, r)
      → push s.transcript m ≡ (grown, ok tt)
      → handle_client_hello c s m ≡ (
        record s {
          client_round_one = some r;
          client_random = some hello.random;
          transcript = grown;
        },
        ok hello,
      )
  unfolding handle_client_hello
  handle_client_hello-ok s m hello r grown e p = rw (e, p) refl

  read_client_hello-message :
      (random cookie kkpp payload : Bytes) (n : ℕ) (r : RoundOne)
      → length random ≡ 32
      → Client.encode (hello_of random cookie (some kkpp)) ≡ ok payload
      → decode_tls_kkpp c kkpp thread_client_id ≡ ok r
      → read_client_hello c (message_of n payload) ≡ ok (hello_of random cookie (some kkpp), r)
  unfolding read_client_hello hello_of Client.thread_profile_with_ecjpake Client.thread_profile
      Client.set_ecjpake_kkpp Client.ecjpake_kkpp find_extension
  read_client_hello-message random cookie kkpp payload n r size e read =
      rw
        (
          decode-encode_client (hello_of random cookie (some kkpp)) payload
              (hello_of-IsTyped random cookie (some kkpp) size) e,
          read,
        )
        refl

  -- A ClientHello with any cookie, made from the client's random and its first round, that the client
  -- records over the transcript of the server is handled by the server: it holds the client's first
  -- round and random then, and the transcripts are the same again.
  pub handle_client_hello-record :
      (k left : ThreadDtlsHandshake c) (s : ThreadDtlsServerHandshake c) (n : ℕ)
      (draws rest : List c.Scalar) (cookie kkpp payload : Bytes)
      → IsParty c k.ecjpake
      → k.ecjpake.participant_id ≡ thread_client_id
      → round_one c k.ecjpake draws ≡ ok (k.client_round_one, rest)
      → length k.client_random ≡ 32
      → s.transcript ≡ k.transcript
      → encode_tls_kkpp c k.client_round_one ≡ ok kkpp
      → Client.encode (hello_of k.client_random cookie (some kkpp)) ≡ ok payload
      → record_client_hello c k (message_of n payload) ≡ (left, ok tt)
      → (hello : ClientHello) × (left ≡ record k { transcript = left.transcript })
        × (handle_client_hello c s (message_of n payload) ≡ (
          record s {
            client_round_one = some k.client_round_one;
            client_random = some k.client_random;
            transcript = left.transcript;
          },
          ok hello,
        ))
  unfolding record_client_hello hello_of Client.thread_profile_with_ecjpake Client.thread_profile
      Client.set_ecjpake_kkpp
  handle_client_hello-record k left s n draws rest cookie kkpp payload w id made size same e1 e2 h =
      let (pushes, is_m, after) = client_recorded-eq c k left (message_of n payload) tt tt h in
      let reads =
        read_client_hello-message k.client_random cookie kkpp payload n k.client_round_one size e2 (
          kkpp_back c k.ecjpake draws rest k.client_round_one kkpp thread_client_id w id made e1) in
      (
        hello_of k.client_random cookie (some kkpp),
        after,
        handle_client_hello-ok s (message_of n payload)
            (hello_of k.client_random cookie (some kkpp)) k.client_round_one left.transcript reads
            (ap (λ x. push x (message_of n payload)) same ∙ pushes),
      )
