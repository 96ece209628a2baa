-- ===== src/Dtls/Thread/KeyExchange.antt =====
-- A key exchange that one side builds is handled by the other.
use ot_commissioner_rs.Base.{
  false, ℕ, ◌≡◌, refl, sym, ap, ◌∙◌, true, some, List, Bytes, ok, bind-eq-ok, ok-injective,
  ok_or-eq-ok, ok_or,
}
use ot_commissioner_rs.Dtls.{invalid_state}
use ot_commissioner_rs.Dtls.EcJpake.{RoundOne, RoundTwo, thread_server_id, thread_client_id}
use ot_commissioner_rs.Dtls.EcJpake.Codec.{encode_tls_key_exchange, decode_tls_key_exchange}
use ot_commissioner_rs.Dtls.EcJpake.Codec.RoundTrip.{decode_tls_key_exchange-round_two}
use ot_commissioner_rs.Dtls.EcJpake.Curve.{Curve}
use ot_commissioner_rs.Dtls.EcJpake.Party.{round_two}
use ot_commissioner_rs.Dtls.EcJpake.Rounds.{IsParty}
use ot_commissioner_rs.Dtls.Handshake.{HandshakeMessage, server_key_exchange, client_key_exchange}
use ot_commissioner_rs.Dtls.Handshake.Transcript.{HandshakeTranscript, push}
use ot_commissioner_rs.Dtls.Thread.Client.{
  ThreadDtlsHandshake, handle_server_key_exchange, read_server_key_exchange,
  build_client_key_exchange, make_client_key_exchange,
}
use ot_commissioner_rs.Dtls.Thread.Server.{
  ThreadDtlsServerHandshake, build_server_key_exchange, make_server_key_exchange,
  handle_client_key_exchange, read_client_key_exchange,
}
use ot_commissioner_rs.Dtls.Thread.Steps.{on_ok-eq, server_recorded-eq, client_recorded-eq}

module _ (c : Curve) where
  make_server_key_exchange-eq :
      (s : ThreadDtlsServerHandshake c) (n : ℕ) (draws rest : List c.Scalar) (m : HandshakeMessage)
      → make_server_key_exchange c s n draws ≡ ok (m, rest)
      → (r : RoundOne) × (t : RoundTwo) × (payload : Bytes) × (s.client_round_one ≡ some r)
        × (round_two c s.ecjpake s.server_round_one r draws ≡ ok (t, rest))
        × (encode_tls_key_exchange c t true ≡ ok payload)
        × (m ≡ record { message_type = server_key_exchange; message_seq = n; payload = payload })
  unfolding make_server_key_exchange
  make_server_key_exchange-eq s n draws rest m e =
      let (r, e1, e2) =
        bind-eq-ok (ok_or s.client_round_one (invalid_state "client ECJPAKE round one is missing"))
          _ e in
      let ((t, rest1), e3, e4) =
        bind-eq-ok (round_two c s.ecjpake s.server_round_one r draws) _ e2 in
      let (payload, e5, e6) = bind-eq-ok (encode_tls_key_exchange c t true) _ e4 in
      let made = ok-injective e6 in
      let same_rest = ap (λ (x : HandshakeMessage × List c.Scalar). x.1) made in
      (
        r,
        t,
        payload,
        ok_or-eq-ok s.client_round_one _ e1,
        e3 ∙ ap (λ z. ok (t, z)) same_rest,
        e5,
        sym (ap (λ (x : HandshakeMessage × List c.Scalar). x.0) made),
      )

  -- What the client makes of a ServerKeyExchange that it can read and push.
  handle_server_key_exchange-ok :
      (k : ThreadDtlsHandshake c) (m : HandshakeMessage) (t : RoundTwo)
      (grown : HandshakeTranscript)
      → read_server_key_exchange c m ≡ ok t
      → push k.transcript m ≡ (grown, ok tt)
      → handle_server_key_exchange c k m
        ≡ (record k { server_round_two = some t; transcript = grown }, ok t)
  unfolding handle_server_key_exchange
  handle_server_key_exchange-ok k m t grown e p = rw (e, p) refl

  read_server_key_exchange-message :
      (n : ℕ) (payload : Bytes) (t : RoundTwo) (id : Bytes)
      → id ≡ thread_server_id
      → decode_tls_key_exchange c payload id true ≡ ok t
      → read_server_key_exchange c
          (record { message_type = server_key_exchange; message_seq = n; payload = payload })
        ≡ ok t
  unfolding read_server_key_exchange
  read_server_key_exchange-message n payload t id same e =
      ap (λ i. decode_tls_key_exchange c payload i true) (sym same) ∙ e

  -- A ServerKeyExchange that the server builds over the transcript of the client is handled by the
  -- client: it holds the server's second round then, and the transcripts are the same again.
  pub handle_server_key_exchange-build :
      (s left : ThreadDtlsServerHandshake c) (k : ThreadDtlsHandshake c) (n : ℕ)
      (draws rest : List c.Scalar) (m : HandshakeMessage)
      → IsParty c s.ecjpake
      → s.ecjpake.participant_id ≡ thread_server_id
      → k.transcript ≡ s.transcript
      → build_server_key_exchange c s n draws ≡ (left, ok (m, rest))
      → (r : RoundOne) × (t : RoundTwo) × (rest1 : List c.Scalar) × (s.client_round_one ≡ some r)
        × (round_two c s.ecjpake s.server_round_one r draws ≡ ok (t, rest1))
        × (left ≡ record s { transcript = left.transcript })
        × (handle_server_key_exchange c k m
            ≡ (record k { server_round_two = some t; transcript = left.transcript }, ok t))
  unfolding build_server_key_exchange
  handle_server_key_exchange-build s left k n draws rest m w id same h =
      let ((made, rest1), e, h1) =
        on_ok-eq s left (make_server_key_exchange c s n draws) _ (m, rest) h in
      let (pushes, outcome, after) = server_recorded-eq c s left made (made, rest1) (m, rest) h1 in
      let is_m : made ≡ m = ap (λ (x : HandshakeMessage × List c.Scalar). x.0) outcome in
      let (r, t, payload, has, sent, written, is_message) =
        make_server_key_exchange-eq s n draws rest1 made e in
      let (whole, written2, read) =
        decode_tls_key_exchange-round_two c s.ecjpake s.server_round_one r draws rest1 t true w
          sent in
      let is_whole : whole ≡ payload = ok-injective (sym written2 ∙ written) in
      let reads : read_server_key_exchange c m ≡ ok t =
        ap (read_server_key_exchange c) (sym is_m ∙ is_message)
        ∙ read_server_key_exchange-message n payload t s.ecjpake.participant_id id (
            ap (λ b. decode_tls_key_exchange c b s.ecjpake.participant_id true) (sym is_whole)
            ∙ read) in
      (
        r,
        t,
        rest1,
        has,
        sent,
        after,
        handle_server_key_exchange-ok k m t left.transcript reads
            (ap (λ x. push x m) same ∙ ap (push s.transcript) (sym is_m) ∙ pushes),
      )

  make_client_key_exchange-eq :
      (k : ThreadDtlsHandshake c) (n : ℕ) (draws rest : List c.Scalar) (m : HandshakeMessage)
      → make_client_key_exchange c k n draws ≡ ok (m, rest)
      → (r : RoundOne) × (t : RoundTwo) × (payload : Bytes) × (k.server_round_one ≡ some r)
        × (round_two c k.ecjpake k.client_round_one r draws ≡ ok (t, rest))
        × (encode_tls_key_exchange c t false ≡ ok payload)
        × (m ≡ record { message_type = client_key_exchange; message_seq = n; payload = payload })
  unfolding make_client_key_exchange
  make_client_key_exchange-eq k n draws rest m e =
      let (r, e1, e2) =
        bind-eq-ok (ok_or k.server_round_one (invalid_state "server ECJPAKE round one is missing"))
          _ e in
      let ((t, rest1), e3, e4) =
        bind-eq-ok (round_two c k.ecjpake k.client_round_one r draws) _ e2 in
      let (payload, e5, e6) = bind-eq-ok (encode_tls_key_exchange c t false) _ e4 in
      let made = ok-injective e6 in
      (
        r,
        t,
        payload,
        ok_or-eq-ok k.server_round_one _ e1,
        e3 ∙ ap (λ z. ok (t, z)) (ap (λ (x : HandshakeMessage × List c.Scalar). x.1) made),
        e5,
        sym (ap (λ (x : HandshakeMessage × List c.Scalar). x.0) made),
      )

  -- What the server makes of a ClientKeyExchange that it can read and push.
  handle_client_key_exchange-ok :
      (s : ThreadDtlsServerHandshake c) (m : HandshakeMessage) (t : RoundTwo)
      (grown : HandshakeTranscript)
      → read_client_key_exchange c m ≡ ok t
      → push s.transcript m ≡ (grown, ok tt)
      → handle_client_key_exchange c s m
        ≡ (record s { client_round_two = some t; transcript = grown }, ok tt)
  unfolding handle_client_key_exchange
  handle_client_key_exchange-ok s m t grown e p = rw (e, p) refl

  read_client_key_exchange-message :
      (n : ℕ) (payload : Bytes) (t : RoundTwo) (id : Bytes)
      → id ≡ thread_client_id
      → decode_tls_key_exchange c payload id false ≡ ok t
      → read_client_key_exchange c
          (record { message_type = client_key_exchange; message_seq = n; payload = payload })
        ≡ ok t
  unfolding read_client_key_exchange
  read_client_key_exchange-message n payload t id same e =
      ap (λ i. decode_tls_key_exchange c payload i false) (sym same) ∙ e

  -- The same for a ClientKeyExchange that the client builds.
  pub handle_client_key_exchange-build :
      (k left : ThreadDtlsHandshake c) (s : ThreadDtlsServerHandshake c) (n : ℕ)
      (draws rest : List c.Scalar) (m : HandshakeMessage)
      → IsParty c k.ecjpake
      → k.ecjpake.participant_id ≡ thread_client_id
      → s.transcript ≡ k.transcript
      → build_client_key_exchange c k n draws ≡ (left, ok (m, rest))
      → (r : RoundOne) × (t : RoundTwo) × (rest1 : List c.Scalar) × (k.server_round_one ≡ some r)
        × (round_two c k.ecjpake k.client_round_one r draws ≡ ok (t, rest1))
        × (left ≡ record k { transcript = left.transcript })
        × (handle_client_key_exchange c s m
            ≡ (record s { client_round_two = some t; transcript = left.transcript }, ok tt))
  unfolding build_client_key_exchange
  handle_client_key_exchange-build k left s n draws rest m w id same h =
      let ((made, rest1), e, h1) =
        on_ok-eq k left (make_client_key_exchange c k n draws) _ (m, rest) h in
      let (pushes, outcome, after) = client_recorded-eq c k left made (made, rest1) (m, rest) h1 in
      let is_m : made ≡ m = ap (λ (x : HandshakeMessage × List c.Scalar). x.0) outcome in
      let (r, t, payload, has, sent, written, is_message) =
        make_client_key_exchange-eq k n draws rest1 made e in
      let (whole, written2, read) =
        decode_tls_key_exchange-round_two c k.ecjpake k.client_round_one r draws rest1 t false w
          sent in
      let is_whole : whole ≡ payload = ok-injective (sym written2 ∙ written) in
      let reads : read_client_key_exchange c m ≡ ok t =
        ap (read_client_key_exchange c) (sym is_m ∙ is_message)
        ∙ read_client_key_exchange-message n payload t k.ecjpake.participant_id id (
            ap (λ b. decode_tls_key_exchange c b k.ecjpake.participant_id false) (sym is_whole)
            ∙ read) in
      (
        r,
        t,
        rest1,
        has,
        sent,
        after,
        handle_client_key_exchange-ok s m t left.transcript reads
            (ap (λ x. push x m) same ∙ ap (push k.transcript) (sym is_m) ∙ pushes),
      )
