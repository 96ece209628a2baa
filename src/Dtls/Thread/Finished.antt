-- ===== src/Dtls/Thread/Finished.antt =====
-- Each side accepts the other's Finished.
use ot_commissioner_rs.Base.{
  ℕ, ◌≡◌, refl, sym, ap, ◌∙◌, Bytes, same_bytes_refl, Result, ok, bind-eq-ok, ok-injective,
}
use ot_commissioner_rs.Dtls.{Error}
use ot_commissioner_rs.Dtls.EcJpake.Curve.{Curve}
use ot_commissioner_rs.Dtls.Handshake.{HandshakeMessage, finished}
use ot_commissioner_rs.Dtls.Handshake.Transcript.{HandshakeTranscript, push}
use ot_commissioner_rs.Dtls.KeySchedule.{Mac, FinishedRole, ThreadDtlsKeyMaterial}
use ot_commissioner_rs.Dtls.Thread.{verify_data_of}
use ot_commissioner_rs.Dtls.Thread.Client.{
  ThreadDtlsHandshake, derive_key_material as client_derive, client_finished_verify_data,
  build_client_finished, check_server_finished, verify_server_finished,
}
use ot_commissioner_rs.Dtls.Thread.Server.{
  ThreadDtlsServerHandshake, check_client_finished, verify_client_finished, build_server_finished,
}
use ot_commissioner_rs.Dtls.Thread.Steps.{on_ok-eq, client_recorded-eq, server_recorded-eq}

abbrev finished_message : ℕ → Bytes → HandshakeMessage
finished_message n tag = record { message_type = finished; message_seq = n; payload = tag }

module _ (c : Curve) (h : Mac) where
  verify_client_finished-ok :
      (s : ThreadDtlsServerHandshake c) (n : ℕ) (tag : Bytes) (km : ThreadDtlsKeyMaterial)
      (grown : HandshakeTranscript)
      → verify_data_of c h s.transcript km.master_secret FinishedRole.client ≡ ok tag
      → push s.transcript (finished_message n tag) ≡ (grown, ok tt)
      → verify_client_finished c h s (finished_message n tag) km
        ≡ (record s { transcript = grown }, ok tt)
  unfolding verify_client_finished check_client_finished
  verify_client_finished-ok s n tag km grown e p = rw (e, same_bytes_refl tag, p) refl

  verify_server_finished-ok :
      (k : ThreadDtlsHandshake c) (n : ℕ) (tag : Bytes) (km : ThreadDtlsKeyMaterial)
      (grown : HandshakeTranscript)
      → verify_data_of c h k.transcript km.master_secret FinishedRole.server ≡ ok tag
      → push k.transcript (finished_message n tag) ≡ (grown, ok tt)
      → verify_server_finished c h k (finished_message n tag) km
        ≡ (record k { transcript = grown }, ok tt)
  unfolding verify_server_finished check_server_finished
  verify_server_finished-ok k n tag km grown e p = rw (e, same_bytes_refl tag, p) refl

  client_finished :
      (k k1 : ThreadDtlsHandshake c) (s : ThreadDtlsServerHandshake c) (km : ThreadDtlsKeyMaterial)
      (n : ℕ) (m : HandshakeMessage)
      → k.transcript ≡ s.transcript
      → client_derive c h k ≡ ok km
      → build_client_finished c h k n ≡ (k1, ok m)
      → verify_client_finished c h s m km ≡ (record s { transcript = k1.transcript }, ok tt)
  unfolding build_client_finished client_finished_verify_data
  client_finished k k1 s km n m same derived e =
      let (tag, e1, e2) = on_ok-eq k k1 (client_finished_verify_data c h k) _ m e in
      let (km', e3, e4) = bind-eq-ok (client_derive c h k) _ e1 in
      let (pushes, is_m, after) =
        client_recorded-eq c k k1 (finished_message n tag) (finished_message n tag) m e2 in
      let is_km : km' ≡ km = ok-injective (sym e3 ∙ derived) in
      let agreed : verify_data_of c h s.transcript km.master_secret FinishedRole.client ≡ ok tag =
        ap (λ t. verify_data_of c h t km.master_secret FinishedRole.client) (sym same)
        ∙ ap
            (λ (z : ThreadDtlsKeyMaterial).
              verify_data_of c h k.transcript z.master_secret FinishedRole.client)
            (sym is_km)
        ∙ e4 in
      ap (λ z. verify_client_finished c h s z km) (sym is_m)
      ∙ verify_client_finished-ok s n tag km k1.transcript agreed
          (ap (λ t. push t (finished_message n tag)) (sym same) ∙ pushes)

  server_finished :
      (s s1 : ThreadDtlsServerHandshake c) (k : ThreadDtlsHandshake c) (km : ThreadDtlsKeyMaterial)
      (n : ℕ) (m : HandshakeMessage)
      → k.transcript ≡ s.transcript
      → build_server_finished c h s n km ≡ (s1, ok m)
      → verify_server_finished c h k m km ≡ (record k { transcript = s1.transcript }, ok tt)
  unfolding build_server_finished
  server_finished s s1 k km n m same e =
      let (tag, e1, e2) =
        on_ok-eq s s1 (verify_data_of c h s.transcript km.master_secret FinishedRole.server) _ m
          e in
      let (pushes, is_m, after) =
        server_recorded-eq c s s1 (finished_message n tag) (finished_message n tag) m e2 in
      ap (λ z. verify_server_finished c h k z km) (sym is_m)
      ∙ verify_server_finished-ok k n tag km s1.transcript
          (ap (λ t. verify_data_of c h t km.master_secret FinishedRole.server) same ∙ e1)
          (ap (λ t. push t (finished_message n tag)) same ∙ pushes)

  -- Of two handshakes with the same transcript, of which the client derives the keys that the server
  -- holds, each accepts the Finished that the other builds, the server's being built behind the
  -- client's, and the transcripts are the same at the end.
  pub verify_finished-build :
      (k k1 k2 : ThreadDtlsHandshake c) (s s1 s2 : ThreadDtlsServerHandshake c)
      (km : ThreadDtlsKeyMaterial) (n n1 : ℕ) (m m1 : HandshakeMessage)
      (o o1 : Result Error (Unit {0}))
      → k.transcript ≡ s.transcript
      → client_derive c h k ≡ ok km
      → build_client_finished c h k n ≡ (k1, ok m)
      → verify_client_finished c h s m km ≡ (s1, o)
      → build_server_finished c h s1 n1 km ≡ (s2, ok m1)
      → verify_server_finished c h k1 m1 km ≡ (k2, o1)
      → (o ≡ ok tt) × (o1 ≡ ok tt) × (k2.transcript ≡ s2.transcript)
  verify_finished-build k k1 k2 s s1 s2 km n n1 m m1 o o1 same derived built checked built1
        checked1 =
      let first = sym checked ∙ client_finished k k1 s km n m same derived built in
      let grown : k1.transcript ≡ s1.transcript = sym (
        ap (λ (x : ThreadDtlsServerHandshake c × Result Error (Unit {0})). x.0.transcript) first) in
      let second = sym checked1 ∙ server_finished s1 s2 k1 km n1 m1 grown built1 in
      (
        ap (λ (x : ThreadDtlsServerHandshake c × Result Error (Unit {0})). x.1) first,
        ap (λ (x : ThreadDtlsHandshake c × Result Error (Unit {0})). x.1) second,
        ap (λ (x : ThreadDtlsHandshake c × Result Error (Unit {0})). x.0.transcript) second,
      )
