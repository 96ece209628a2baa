-- ===== src/Dtls/Session/Receive.antt =====
-- Receiving application data keeps the session in a run.
use ot_commissioner_rs.Base.{
  ℕ, ap, Option, List, [], ◌∷◌, Bytes, Bool-cases, inl, inr, ◌==◌, Result, ok, err, stuck, subst,
}
use ot_commissioner_rs.Dtls.{Error}
use ot_commissioner_rs.Dtls.KeySchedule.{ThreadDtlsKeyMaterial}
use ot_commissioner_rs.Dtls.Protection.{Aead}
use ot_commissioner_rs.Dtls.Record.{DtlsRecord}
use ot_commissioner_rs.Dtls.Session.{
  SessionState, SessionRole, DriverError, Received, Next, go_on, give, one_record, records,
  is_application, is_alert, from_open, follow, ends, received, recv_records, recv_application_data,
  open_application_data,
}
use ot_commissioner_rs.Dtls.Session.Outcomes.{Outcome, open_application_data-Outcome}
use ot_commissioner_rs.Dtls.Session.Runs.{Run, opens}

module _ (aead : Aead) (k : ThreadDtlsKeyMaterial) (role : SessionRole) (out : List ℕ) where
  -- A session after a receive: one more number is opened if it gave a plaintext, and none if not.
  abbrev pub Leaves : {X : Type 0} → List ℕ → SessionState → Result X Bytes → Type 0
  Leaves opened t (ok plaintext) = (n : ℕ) × Run aead k role t out (n ∷ opened)
  Leaves opened t (err e) = Run aead k role t out opened
  Leaves opened t stuck = Run aead k role t out opened

  abbrev Follows : List ℕ → Next → Type 0
  Follows opened (go_on t) = Run aead k role t out opened
  Follows opened (give t result) = Leaves opened t result

  from_open-Follows :
      (s : SessionState) (opened : List ℕ) (r : DtlsRecord)
      → Run aead k role s out opened
      → Follows opened (from_open aead (open_application_data aead s r))
  unfolding from_open
  from_open-Follows s opened r run = elim (open_application_data-Outcome aead s r) [
    | Outcome.replayed old same ↦ rw same run
    | Outcome.refused x fresh opened_as same ↦ rw same run
    | Outcome.delivered p fresh opened_as same ↦
        let made =
          opens r p run (ap (λ (x : SessionState × Result Error (Option Bytes)). x.1) same) in
        rw same (
          r.header.sequence_number,
          subst
              (λ (x : SessionState × Result Error (Option Bytes)).
                Run aead k role x.0 out (r.header.sequence_number ∷ opened))
              same made,
        )
  ]

  one_record-Follows :
      (s : SessionState) (opened : List ℕ) (r : DtlsRecord)
      → Run aead k role s out opened
      → Follows opened (one_record aead s r)
  unfolding one_record
  one_record-Follows s opened r run = elim (Bool-cases (is_application aead r)) [
    | inl app ↦ rw app (from_open-Follows s opened r run)
    | inr other ↦ elim (Bool-cases (is_alert aead r)) [
      | inl alert ↦ rw (other, alert) run
      | inr neither ↦ rw (other, neither) run
    ]
  ]

  follow-Follows :
      (opened : List ℕ) (n : Next) (rest : SessionState → Next)
      → Follows opened n
      → ((t : SessionState) → Run aead k role t out opened → Follows opened (rest t))
      → Follows opened (follow n rest)
  follow-Follows opened (go_on t) rest h more = more t h
  follow-Follows opened (give t result) rest h more = h

  records-Follows :
      (s : SessionState) (opened : List ℕ) (rs : List DtlsRecord)
      → Run aead k role s out opened
      → Follows opened (records aead s rs)
  unfolding records
  records-Follows s opened [] run = run
  records-Follows s opened (r ∷ rs) run =
      follow-Follows opened (one_record aead s r) _ (one_record-Follows s opened r run)
        (λ t h. records-Follows t opened rs h)

  ends-Leaves :
      {E : Type 0} (opened : List ℕ) (n : Next)
      (rest : SessionState → SessionState × Result (DriverError E) Bytes)
      → Follows opened n
      → ((t : SessionState) → Run aead k role t out opened → Leaves opened (rest t).0 (rest t).1)
      → Leaves opened (ends n rest).0 (ends n rest).1
  ends-Leaves opened (go_on t) rest h more = more t h
  ends-Leaves opened (give t (ok p)) rest h more = h
  ends-Leaves opened (give t (err e)) rest h more = h
  ends-Leaves opened (give t stuck) rest h more = h

  received-Leaves :
      {E : Type 0} (peer : ℕ) (s : SessionState) (opened : List ℕ)
      (m : Result (DriverError E) (List DtlsRecord × ℕ))
      (rest : SessionState → SessionState × Result (DriverError E) Bytes)
      → Run aead k role s out opened
      → ((t : SessionState) → Run aead k role t out opened → Leaves opened (rest t).0 (rest t).1)
      → Leaves opened (received aead peer s m rest).0 (received aead peer s m rest).1
  unfolding received
  received-Leaves peer s opened (err e) rest run more = run
  received-Leaves peer s opened stuck rest run more = run
  received-Leaves peer s opened (ok (rs, source)) rest run more =
      elim (Bool-cases (source == peer)) [
        | inl ours ↦
            rw ours
              (ends-Leaves opened (records aead s rs) rest (records-Follows s opened rs run) more)
        | inr other ↦ rw other (more s run)
      ]

  -- Whatever the receives give, a call that receives application data leaves the session in a run: one
  -- more number is opened if it gave a plaintext, and none if it failed or waits; nothing is sent.
  pub recv_application_data-Leaves :
      {E : Type 0} (s : SessionState) (opened : List ℕ) (peer : ℕ) (es : List (Received E))
      → Run aead k role s out opened
      → Leaves opened
          (recv_application_data aead s peer es).0
          (recv_application_data aead s peer es).1
  unfolding recv_application_data
  recv_application_data-Leaves s opened peer [] run = run
  recv_application_data-Leaves s opened peer (e ∷ es) run =
      received-Leaves peer s opened (recv_records e) _ run
        (λ t h. recv_application_data-Leaves t opened peer es h)
