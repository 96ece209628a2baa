-- ===== src/Dtls/Hello/State/Answers.antt =====
-- Which answers to its ClientHello the client takes.
use ot_commissioner_rs.Base.{
  true_of_not, ok-injective, subst, eq_of_guard, eq_of_==, ◌==◌, sym, refl, not, ap, inr,
  fail_if-eq-ok, true, inl, bind-eq-ok, Option, Result, ℕ, ok, ◌≡◌, ◌≢◌, ◌⊎◌, some, none, err,
  stuck,
}
use ot_commissioner_rs.Dtls.{Error}
use ot_commissioner_rs.Dtls.Handshake.{HandshakeMessage, hello_verify_request}
use ot_commissioner_rs.Dtls.Handshake.Readers.{parse_unfragmented_record}
use ot_commissioner_rs.Dtls.Hello.{HelloVerifyRequest}
use ot_commissioner_rs.Dtls.Hello.State.{
  DtlsClientHelloState, is_last, verified, keep_cookie, handle_hello_verify_request,
}
use ot_commissioner_rs.Dtls.Record.{DtlsRecord, dtls_1_2_version}
use ot_commissioner_rs.Dtls.Hello.Verify

-- `r` answers the last ClientHello with `h`.
pub record Answers (s : DtlsClientHelloState) (r : DtlsRecord) (h : HelloVerifyRequest)
    : Type 0 where
  pub message : HandshakeMessage
  pub read : parse_unfragmented_record r hello_verify_request ≡ ok message
  pub last : s.last_client_hello_sequence ≡ some message.message_seq
  pub decoded : Verify.decode message.payload ≡ ok h
  pub version : h.server_version ≡ dtls_1_2_version

is_last-some : (n : ℕ) (o : Option ℕ) → is_last n o ≡ true → o ≡ some n
unfolding is_last
is_last-some n none e = cc
is_last-some n (some m) e = ap some (sym (eq_of_== n m e))

verified-Answers :
    (s : DtlsClientHelloState) (r : DtlsRecord) (h : HelloVerifyRequest)
    → verified s r ≡ ok h
    → Answers s r h
unfolding verified
verified-Answers s r h e =
    let (m, k, e1) = bind-eq-ok (parse_unfragmented_record r hello_verify_request) _ e in
    let (last, e2) =
      fail_if-eq-ok (not (is_last m.message_seq s.last_client_hello_sequence)) _ _ e1 in
    let (body, d, e3) = bind-eq-ok (Verify.decode m.payload) _ e2 in
    let (right, done) = fail_if-eq-ok (not (body.server_version == dtls_1_2_version)) _ _ e3 in
    let version = eq_of_guard body.server_version dtls_1_2_version right in
    subst (Answers s r) (ok-injective done) (record {
      message = m;
      read = k;
      last = is_last-some m.message_seq _ (true_of_not _ last);
      decoded = d;
      version = version;
    })

keep_cookie-cases :
    (s : DtlsClientHelloState) (m : Result Error HelloVerifyRequest)
    → ((h : HelloVerifyRequest) × (m ≡ ok h)
        × (keep_cookie s m ≡ (record s { cookie = h.cookie }, ok h)))
      ⊎ (((keep_cookie s m).0 ≡ s) × ((h : HelloVerifyRequest) → (keep_cookie s m).1 ≢ ok h))
unfolding keep_cookie
keep_cookie-cases s (ok h) = inl (h, refl, refl)
keep_cookie-cases s (err e) = inr (refl, λ h p. cc)
keep_cookie-cases s stuck = inr (refl, λ h p. cc)

-- A record is taken only if it holds a HelloVerifyRequest of DTLS 1.2 under the message sequence of the
-- last ClientHello, and then the cookie is the one thing that changes; any other record is refused and
-- changes nothing.
pub handle_hello_verify_request_cases :
    (s : DtlsClientHelloState) (r : DtlsRecord)
    → ((h : HelloVerifyRequest) × Answers s r h
        × (handle_hello_verify_request s r ≡ (record s { cookie = h.cookie }, ok h)))
      ⊎ (((handle_hello_verify_request s r).0 ≡ s)
          × ((h : HelloVerifyRequest) → (handle_hello_verify_request s r).1 ≢ ok h))
unfolding handle_hello_verify_request
handle_hello_verify_request_cases s r = elim (keep_cookie-cases s (verified s r)) [
  | inl (h, e, same) ↦ inl (h, verified-Answers s r h e, same)
  | inr refused ↦ inr refused
]
