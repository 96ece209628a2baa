-- ===== src/Dtls/Session/Transfer.antt =====
-- What one role of a session sends, the other opens, once.
use ot_commissioner_rs.Base.{◌≡◌, refl, false, some, Bytes, ok, length}
use ot_commissioner_rs.Dtls.KeySchedule.{ThreadDtlsKeyMaterial}
use ot_commissioner_rs.Dtls.Protection.{Aead, protect, open_record}
use ot_commissioner_rs.Dtls.Protection.Opens.{open_record-protect}
use ot_commissioner_rs.Dtls.Record.{DtlsRecord, application_data}
use ot_commissioner_rs.Dtls.Replay.{has_seen, mark_seen}
use ot_commissioner_rs.Dtls.Session.{
  taken, SessionState, SessionRole, client, server, write_keys, read_keys, protect_application_data,
  open_application_data,
}
use ot_commissioner_rs.Dtls.Session.Runs.{sent-ok}

abbrev pub peer_of : SessionRole → SessionRole
peer_of client = server
peer_of server = client

write_keys-peer_of :
    (k : ThreadDtlsKeyMaterial) (role : SessionRole)
    → read_keys k (peer_of role) ≡ write_keys k role
write_keys-peer_of k client = refl
write_keys-peer_of k server = refl

module _ (aead : Aead) where
  open_application_data-fresh :
      (s : SessionState) (r : DtlsRecord) (plaintext : Bytes)
      → has_seen s.application_replay r.header.sequence_number ≡ false
      → open_record aead r (read_keys s.key_material s.role).0 (read_keys s.key_material s.role).1
        ≡ ok plaintext
      → open_application_data aead s r ≡ (
        record s { application_replay = mark_seen r.header.sequence_number s.application_replay },
        ok (some plaintext),
      )
  unfolding open_application_data taken
  open_application_data-fresh s r plaintext fresh e = rw (fresh, e) refl

  -- A record that one role of a session sends is opened by a session of the other role with the same
  -- keys, the sender's fixed IV having 4 bytes, whose window does not refuse its number: the result is
  -- the plaintext that was sent, and the window marks the number.
  pub open_application_data-protect_application_data :
      (s t : SessionState) (plaintext : Bytes) (r : DtlsRecord)
      → t.key_material ≡ s.key_material
      → t.role ≡ peer_of s.role
      → length (write_keys s.key_material s.role).1 ≡ 4
      → has_seen t.application_replay r.header.sequence_number ≡ false
      → (protect_application_data aead s plaintext).1 ≡ ok r
      → open_application_data aead t r ≡ (
        record t { application_replay = mark_seen r.header.sequence_number t.application_replay },
        ok (some plaintext),
      )
  unfolding protect_application_data
  open_application_data-protect_application_data s t plaintext r hk hr hi fresh e =
      let (key, iv) = write_keys s.key_material s.role in
      let (m, left) =
        sent-ok s (protect aead application_data 1 s.next_application_sequence key iv plaintext)
          e in
      let same : read_keys t.key_material t.role ≡ write_keys s.key_material s.role =
        rw (hk, hr) (write_keys-peer_of s.key_material s.role) in
      open_application_data-fresh t r plaintext fresh (
        rw same (
          open_record-protect aead application_data 1 s.next_application_sequence key iv plaintext r
            hi m))
