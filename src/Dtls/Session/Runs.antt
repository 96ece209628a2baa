-- ===== src/Dtls/Session/Runs.antt =====
-- What holds in every run of a session: no sequence number is opened twice, and none is sent twice.
use ot_commissioner_rs.Base.{
  subst, All-map, ℕ, ◌+◌, ◌%◌, ◌^◌, ◌≤◌, ◌<◌, ◌≡◌, ◌≢◌, refl, sym, ap, ◌∙◌, false, Option, none,
  some, List, [], ◌∷◌, Bytes, All, Result, ok, err, stuck, arith,
}
use ot_commissioner_rs.Dtls.{Error}
use ot_commissioner_rs.Dtls.KeySchedule.{ThreadDtlsKeyMaterial}
use ot_commissioner_rs.Dtls.Protection.{Aead, protect}
use ot_commissioner_rs.Dtls.Protection.Opens.{protect-sequence}
use ot_commissioner_rs.Dtls.Record.{DtlsRecord, application_data}
use ot_commissioner_rs.Dtls.Replay.{has_seen, mark_seen}
use ot_commissioner_rs.Dtls.Replay.Window.{marks, contains, is_refused, has_seen-marks}
use ot_commissioner_rs.Dtls.Session.{
  SessionState, SessionRole, new, write_keys, sent, protect_application_data, open_application_data,
}
use ot_commissioner_rs.Dtls.Session.Outcomes.{Outcome, open_application_data-Outcome}

-- The states that a session reaches, with the sequence numbers of the records that it sent and of those
-- that it opened, the last of each first.
module _ (aead : Aead) (k : ThreadDtlsKeyMaterial) (role : SessionRole) where
  pub data Run : SessionState → List ℕ → List ℕ → Type 0 where
    start : Run (new k role) [] []
    sends :
        {s : SessionState} {out opened : List ℕ} (plaintext : Bytes) (r : DtlsRecord)
        → Run s out opened
        → (protect_application_data aead s plaintext).1 ≡ ok r
        → Run (protect_application_data aead s plaintext).0 (r.header.sequence_number ∷ out) opened
    send_fails :
        {s : SessionState} {out opened : List ℕ} (plaintext : Bytes) (e : Error)
        → Run s out opened
        → (protect_application_data aead s plaintext).1 ≡ err e
        → Run (protect_application_data aead s plaintext).0 out opened
    opens :
        {s : SessionState} {out opened : List ℕ} (r : DtlsRecord) (plaintext : Bytes)
        → Run s out opened
        → (open_application_data aead s r).1 ≡ ok (some plaintext)
        → Run (open_application_data aead s r).0 out (r.header.sequence_number ∷ opened)
    ignores :
        {s : SessionState} {out opened : List ℕ} (r : DtlsRecord)
        → Run s out opened
        → (open_application_data aead s r).1 ≡ ok none
        → Run (open_application_data aead s r).0 out opened
    rejects :
        {s : SessionState} {out opened : List ℕ} (r : DtlsRecord) (e : Error)
        → Run s out opened
        → (open_application_data aead s r).1 ≡ err e
        → Run (open_application_data aead s r).0 out opened

abbrev pub Distinct : List ℕ → Type 0
Distinct [] = Unit
Distinct (n ∷ ns) = (contains ns n ≡ false) × Distinct ns

-- What a run keeps.
pub record Holds (k : ThreadDtlsKeyMaterial) (role : SessionRole) (s : SessionState)
    (out opened : List ℕ) : Type 0 where
  pub keys : s.key_material ≡ k
  pub same_role : s.role ≡ role
  pub window : s.application_replay ≡ marks opened
  pub once : Distinct opened
  pub sent_below : All (λ n. n < s.next_application_sequence) out
  pub sent_once : Distinct out
  pub in_range : s.next_application_sequence ≤ 2 ^ 48

above-contains : (ns : List ℕ) (n : ℕ) → All (λ m. m < n) ns → contains ns n ≡ false
above-contains [] n h = refl
above-contains (m ∷ ns) n h = ground (arith, above-contains ns n h.1)

raise : (ns : List ℕ) (n : ℕ) → All (λ m. m < n) ns → All (λ m. m < n + 1) ns
raise ns n h = All-map (λ m. m < n) (λ m. m < n + 1) (λ m lt. omega arith) ns h

refused-contains : (ms : List ℕ) (n : ℕ) → is_refused ms n ≡ false → contains ms n ≡ false
refused-contains [] n e = refl
refused-contains (m ∷ ms) n e = ground arith

-- What a call that sent a record did.
pub sent-ok :
    (s : SessionState) (m : Result Error DtlsRecord) {r : DtlsRecord}
    → (sent s m).1 ≡ ok r
    → (m ≡ ok r)
      × ((sent s m).0
          ≡ record s { next_application_sequence = (s.next_application_sequence + 1) % 2 ^ 64 })
unfolding sent
sent-ok s (ok r) e = (e, refl)
sent-ok s (err x) e = absurd (cc)
sent-ok s stuck e = absurd (cc)

sent-err :
    (s : SessionState) (m : Result Error DtlsRecord) {x : Error}
    → (sent s m).1 ≡ err x
    → (sent s m).0 ≡ s
unfolding sent
sent-err s (ok r) e = absurd (cc)
sent-err s (err x) e = refl
sent-err s stuck e = absurd (cc)

module _ (aead : Aead) (k : ThreadDtlsKeyMaterial) (role : SessionRole) where
  Holds-start : Holds k role (new k role) [] []
  Holds-start = record {
    keys = refl;
    same_role = refl;
    window = refl;
    once = tt;
    sent_below = tt;
    sent_once = tt;
    in_range = omega arith;
  }

  Holds-sends :
      (s : SessionState) (out opened : List ℕ) (plaintext : Bytes) (r : DtlsRecord)
      → Holds k role s out opened
      → (protect_application_data aead s plaintext).1 ≡ ok r
      → Holds k role
          (protect_application_data aead s plaintext).0
          (r.header.sequence_number ∷ out)
          opened
  unfolding protect_application_data
  Holds-sends s out opened plaintext r h e =
      let n = s.next_application_sequence in
      let (key, iv) = write_keys s.key_material s.role in
      let made = protect aead application_data 1 n key iv plaintext in
      let (m, left) = sent-ok s made e in
      let (small, same) = protect-sequence aead application_data 1 n key iv plaintext r m in
      let next : (n + 1) % 2 ^ 64 ≡ n + 1 = omega arith in
      subst (λ (t : SessionState). Holds k role t (r.header.sequence_number ∷ out) opened)
        (sym left)
        (record {
          keys = h.keys;
          same_role = h.same_role;
          window = h.window;
          once = h.once;
          sent_below =
              subst (λ (b : ℕ). All (λ m. m < b) (r.header.sequence_number ∷ out)) (sym next)
                (omega arith, raise out n h.sent_below);
          sent_once = (rw same (above-contains out n h.sent_below), h.sent_once);
          in_range = omega arith;
        })

  Holds-opens :
      (s : SessionState) (out opened : List ℕ) (r : DtlsRecord) (plaintext : Bytes)
      → Holds k role s out opened
      → (open_application_data aead s r).1 ≡ ok (some plaintext)
      → Holds k role (open_application_data aead s r).0 out (r.header.sequence_number ∷ opened)
  Holds-opens s out opened r plaintext h e = elim (open_application_data-Outcome aead s r) [
    | Outcome.replayed old same ↦ absurd (cc)
    | Outcome.refused x fresh opened_as same ↦ absurd (cc)
    | Outcome.delivered p fresh opened_as same ↦
        let n = r.header.sequence_number in
        let unseen : is_refused opened n ≡ false =
          sym (has_seen-marks opened n) ∙ ap (λ w. has_seen w n) (sym h.window) ∙ fresh in
        rw same (record {
          keys = h.keys;
          same_role = h.same_role;
          window = ap (mark_seen n) h.window;
          once = (refused-contains opened n unseen, h.once);
          sent_below = h.sent_below;
          sent_once = h.sent_once;
          in_range = h.in_range;
        })
  ]

  -- A record that is not delivered leaves the state as it was.
  not_delivered :
      (s : SessionState) (r : DtlsRecord)
      → ((p : Bytes) → (open_application_data aead s r).1 ≢ ok (some p))
      → (open_application_data aead s r).0 ≡ s
  not_delivered s r h = elim (open_application_data-Outcome aead s r) [
    | Outcome.replayed old same ↦ ap (λ (x : SessionState × Result Error (Option Bytes)). x.0) same
    | Outcome.refused x fresh opened_as same ↦
        ap (λ (x : SessionState × Result Error (Option Bytes)). x.0) same
    | Outcome.delivered p fresh opened_as same ↦
        absurd (h p (ap (λ (x : SessionState × Result Error (Option Bytes)). x.1) same))
  ]

  -- In every run of a session, of sends and receives that succeed or fail, the keys and the role are
  -- those it was made with, the window is that of the numbers that were opened, none of which was opened
  -- twice, no number was sent twice, every one sent is below the next, and that is at most 2^48.
  pub Run-Holds :
      {s : SessionState} {out opened : List ℕ}
      → Run aead k role s out opened
      → Holds k role s out opened
  Run-Holds start = Holds-start
  Run-Holds (sends {s} {out} {opened} plaintext r run e) =
      Holds-sends s out opened plaintext r (Run-Holds run) e
  Run-Holds (send_fails {s} {out} {opened} plaintext x run e) =
      subst (λ (t : SessionState). Holds k role t out opened) (sym (failed s plaintext x e))
        (Run-Holds run)
    where
      failed :
          (s : SessionState) (plaintext : Bytes) (x : Error)
          → (protect_application_data aead s plaintext).1 ≡ err x
          → (protect_application_data aead s plaintext).0 ≡ s
      failed s plaintext x = unfold protect_application_data in sent-err s _
  Run-Holds (opens {s} {out} {opened} r plaintext run e) =
      Holds-opens s out opened r plaintext (Run-Holds run) e
  Run-Holds (ignores {s} {out} {opened} r run e) =
      subst (λ (t : SessionState). Holds k role t out opened) (sym (not_delivered s r (λ p q. cc)))
        (Run-Holds run)
  Run-Holds (rejects {s} {out} {opened} r x run e) =
      subst (λ (t : SessionState). Holds k role t out opened) (sym (not_delivered s r (λ p q. cc)))
        (Run-Holds run)
