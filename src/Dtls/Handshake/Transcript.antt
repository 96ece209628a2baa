-- ===== src/Dtls/Handshake/Transcript.antt =====
-- `HandshakeTranscript` of crates/thread-dtls/src/handshake.rs. The digest is of an external crate.
use ot_commissioner_rs.Base.{
  subst, ◌++◌, ◌≡◌, List, [], ◌∷◌, Bytes, Result, ok, err, stuck, All, IsU16, append_assoc,
  append-nil, sym, ap, refl, ◌∙◌,
}
use ot_commissioner_rs.Dtls.{Error}
use ot_commissioner_rs.Dtls.Handshake.{HandshakeMessage, transcript_bytes}
use ot_commissioner_rs.Dtls.Handshake.Messages.{
  Packs, transcript_bytes-encode, parse_unfragmented_messages-encode,
}
use ot_commissioner_rs.Dtls.Handshake.Readers.{parse_unfragmented_messages}
use ot_commissioner_rs.Dtls.Record.{DtlsRecord, handshake}

pub record HandshakeTranscript : Type 0 where
  pub bytes : Bytes

-- `HandshakeTranscript::new`
abbrev pub new : HandshakeTranscript
new = record { bytes = [] }

-- The transcript it leaves, and its result.
unfoldable pub pushed :
    HandshakeTranscript → Result Error Bytes → HandshakeTranscript × Result Error (Unit {0})
pushed t (ok bytes) = (record { bytes = t.bytes ++ bytes }, ok tt)
pushed t (err e) = (t, err e)
pushed t stuck = (t, stuck)

-- `HandshakeTranscript::push`
unfoldable pub push :
    HandshakeTranscript → HandshakeMessage → HandshakeTranscript × Result Error (Unit {0})
unfolding pushed
push t m = pushed t (transcript_bytes m)

-- The messages are pushed in their order, and none is refused.
abbrev pub Entered : HandshakeTranscript → List HandshakeMessage → HandshakeTranscript → Type 0
Entered t [] end = t ≡ end
Entered t (m ∷ ms) end = ((push t m).1 ≡ ok tt) × Entered (push t m).0 ms end

pushed-ok :
    (t : HandshakeTranscript) (r : Result Error Bytes)
    → (pushed t r).1 ≡ ok tt
    → (bytes : Bytes) × (r ≡ ok bytes) × ((pushed t r).0 ≡ record { bytes = t.bytes ++ bytes })
unfolding pushed
pushed-ok t (ok bytes) h = (bytes, refl, refl)
pushed-ok t (err e) h = absurd (cc)
pushed-ok t stuck h = absurd (cc)

-- What is appended is the messages' form on the wire.
Entered-Packs :
    (t end : HandshakeTranscript) (ms : List HandshakeMessage)
    → Entered t ms end
    → (bytes : Bytes) × (end.bytes ≡ t.bytes ++ bytes) × Packs ms bytes
unfolding push
Entered-Packs t end [] h =
    ([], ap (λ (x : HandshakeTranscript). x.bytes) (sym h) ∙ sym (append-nil t.bytes), refl)
Entered-Packs t end (m ∷ ms) h =
    let (front, e, left) = pushed-ok t (transcript_bytes m) h.0 in
    let (back, split, packs) = Entered-Packs (push t m).0 end ms h.1 in
    (
      front ++ back,
      split
          ∙ ap (λ (x : HandshakeTranscript). x.bytes ++ back) left
          ∙ append_assoc t.bytes front back,
      (front, back, refl, (transcript_bytes-encode m front).0 e, packs),
    )

-- A transcript fixes the messages that entered it: a record with its bytes is read as those messages.
pub parse_unfragmented_messages-push :
    (r : DtlsRecord) (ms : List HandshakeMessage) (end : HandshakeTranscript)
    → r.header.content_type ≡ handshake
    → All (λ m. IsU16 m.message_seq) ms
    → Entered new ms end
    → r.payload ≡ end.bytes
    → parse_unfragmented_messages r ≡ ok ms
parse_unfragmented_messages-push r ms end t w h same =
    let (bytes, split, packs) = Entered-Packs new end ms h in
    parse_unfragmented_messages-encode r ms t w (subst (Packs ms) (sym (same ∙ split)) packs)
