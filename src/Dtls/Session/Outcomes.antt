-- ===== src/Dtls/Session/Outcomes.antt =====
-- What opening a record of a session may do.
use ot_commissioner_rs.Base.{
  Result-cases, inr, inl, Bool-cases, ◌≡◌, ◌≢◌, refl, true, false, none, some, Bytes, ok, err,
  stuck, arith,
}
use ot_commissioner_rs.Dtls.{Error}
use ot_commissioner_rs.Dtls.Protection.{Aead, open_record}
use ot_commissioner_rs.Dtls.Record.{DtlsRecord}
use ot_commissioner_rs.Dtls.Replay.{has_seen, mark_seen}
use ot_commissioner_rs.Dtls.Session.{SessionState, read_keys, taken, open_application_data}

-- The three outcomes of opening a record.
pub data Outcome (aead : Aead) (s : SessionState) (r : DtlsRecord) : Type 0 where
  replayed :
      has_seen s.application_replay r.header.sequence_number ≡ true
      → open_application_data aead s r ≡ (s, ok none)
      → Outcome aead s r
  delivered :
      (plaintext : Bytes)
      → has_seen s.application_replay r.header.sequence_number ≡ false
      → open_record aead r (read_keys s.key_material s.role).0 (read_keys s.key_material s.role).1
        ≡ ok plaintext
      → open_application_data aead s r ≡ (
        record s { application_replay = mark_seen r.header.sequence_number s.application_replay },
        ok (some plaintext),
      )
      → Outcome aead s r
  refused :
      (e : Error)
      → has_seen s.application_replay r.header.sequence_number ≡ false
      → open_record aead r (read_keys s.key_material s.role).0 (read_keys s.key_material s.role).1
        ≡ err e
      → open_application_data aead s r ≡ (s, err e)
      → Outcome aead s r

open_record-ne-stuck :
    (aead : Aead) (r : DtlsRecord) (key iv : Bytes) → open_record aead r key iv ≢ stuck
unfolding open_record
open_record-ne-stuck aead r key iv = ground arith

pub open_application_data-Outcome :
    (aead : Aead) (s : SessionState) (r : DtlsRecord) → Outcome aead s r
unfolding open_application_data taken
open_application_data-Outcome aead s r =
    elim (Bool-cases (has_seen s.application_replay r.header.sequence_number)) [
      | inl old ↦ Outcome.replayed old (rw old)
      | inr fresh ↦
          let (key, iv) = read_keys s.key_material s.role in
          elim (Result-cases (open_record aead r key iv) (open_record-ne-stuck aead r key iv)) [
            | inl (p, e) ↦ Outcome.delivered p fresh e (rw (fresh, e) refl)
            | inr (x, e) ↦ Outcome.refused x fresh e (rw (fresh, e) refl)
          ]
    ]
