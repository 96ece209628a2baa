-- ===== src/Dtls/Handshake/Messages.antt =====
-- Whole messages: one unfragmented encoding, which is also the transcript's form, and records that
-- pack several of them.
use ot_commissioner_rs.Base.{
  fail_if, bind-ne-stuck, length-drop, subst, sym, lt→ltb, true, not, drop-append_eq, fail_if-eq-ok,
  false, ◌==◌, ==_refl, ◌↔◌, bind-eq-ok, suc, ap, append-nil, ℕ, max, ◌+◌, ◌*◌, ◌≤◌, ◌^◌, ◌≡◌, ◌≢◌,
  refl, ◌∙◌, List, [], ◌∷◌, ◌++◌, arith, Bytes, IsU16, ok, stuck, length, All, take, drop, ltb,
}
use ot_commissioner_rs.Base.Loop.{Reads, Chunks, Consumes, decode_all-Chunks, decode_all-ne-stuck}
use ot_commissioner_rs.Dtls.Handshake.{
  type_code, encode_header, HandshakeType, HandshakeFragment, HandshakeMessage, encode_fragment,
  parse_fragment, fragment_at, chunks, fragment_loop, or_empty, first_of_fragments, fragment,
  encode, transcript_bytes, max_u24,
}
use ot_commissioner_rs.Dtls.Handshake.Readers.{
  is_whole, parse_message, parse_unfragmented_messages, parse_unfragmented_record,
}
use ot_commissioner_rs.Dtls.Handshake.Fragments.{
  encode_header-takes, Fits, header_bytes, encode_header-ok, encode_fragment-ok,
  parse_fragment-encode_fragment, parse_fragment-ne-stuck, parse_fragment-room,
}
use ot_commissioner_rs.Dtls.Record.{DtlsRecord, handshake}

abbrev whole : HandshakeMessage → HandshakeFragment
whole m = record {
  header = record {
    message_type = m.message_type;
    len = length m.payload;
    message_seq = m.message_seq;
    fragment_offset = 0;
    fragment_length = length m.payload;
  };
  fragment = m.payload;
}

abbrev message_bytes : HandshakeMessage → Bytes
message_bytes m = header_bytes (whole m).header ++ m.payload

take_all : (xs : Bytes) → take (length xs) xs ≡ xs
take_all [] = refl
take_all (x ∷ xs) = ap (◌∷◌ x) (take_all xs)

-- The first fragment of a message that is cut into pieces as long as itself.
first_whole :
    (t : HandshakeType) (seq : ℕ) (payload : Bytes)
    → let m : HandshakeMessage = record {
      message_type = t;
      message_seq = seq;
      payload = payload;
    } in
      let n = max (length payload) 1 in
      first_of_fragments (or_empty m (fragment_loop m n 0 (chunks (length payload) n payload)))
      ≡ ok (whole m)
unfolding first_of_fragments or_empty fragment_loop chunks fragment_at
first_whole t seq [] = refl
first_whole t seq (b ∷ bs) =
    let size : max (suc (length bs)) 1 ≡ suc (length bs) = omega arith in
    let start : 0 * suc (length bs) ≡ 0 = omega arith in
    let m : HandshakeMessage = record { message_type = t; message_seq = seq; payload = b ∷ bs } in
    rw (size, start) (ap (λ piece. ok (fragment_at m 0 piece)) (take_all (b ∷ bs)))

encode-whole :
    (m : HandshakeMessage) → length m.payload ≤ max_u24 → encode m ≡ encode_fragment (whole m)
unfolding encode fragment
encode-whole m h =
    let some_size : (max (length m.payload) 1 == 0) ≡ false = ground arith in
    let fits : ltb max_u24 (length m.payload) ≡ false = ground arith in
    rw (some_size, fits, first_whole m.message_type m.message_seq m.payload) refl

encode-fits :
    (m : HandshakeMessage) (bytes : Bytes) → encode m ≡ ok bytes → length m.payload ≤ max_u24
unfolding encode fragment
encode-fits m bytes e =
    let (fs, k, later) = bind-eq-ok (fragment m (max (length m.payload) 1)) _ e in
    let (some_size, k1) = fail_if-eq-ok (max (length m.payload) 1 == 0) _ _ k in
    let (fits, k2) = fail_if-eq-ok (ltb max_u24 (length m.payload)) _ _ k1 in ground arith

whole-Fits : (m : HandshakeMessage) → length m.payload ≤ max_u24 → Fits (whole m).header
whole-Fits m h = omega arith

encode-ok : (m : HandshakeMessage) → length m.payload ≤ max_u24 → encode m ≡ ok (message_bytes m)
encode-ok m h = encode-whole m h ∙ encode_fragment-ok (whole m) (whole-Fits m h) refl

-- The form that enters the transcript is the form on the wire of the message sent as one fragment,
-- for every message that has such a form; and both are refused for a longer one.
pub transcript_bytes-encode :
    (m : HandshakeMessage) (bytes : Bytes) → (transcript_bytes m ≡ ok bytes) ↔ (encode m ≡ ok bytes)
unfolding transcript_bytes
transcript_bytes-encode m bytes = (
  λ t.
      let (short, t1) = fail_if-eq-ok (not (ltb (length m.payload) (2 ^ 32))) _ _ t in
      let (head, k, t2) = bind-eq-ok (encode_header (whole m).header) _ t1 in
      let (fits, e) = encode_header-takes (whole m).header head k in encode-ok m fits.len ∙ cc,
  λ e.
      let h = encode-fits m bytes e in
      let short : ltb (length m.payload) (2 ^ 32) ≡ true = lt→ltb _ _ (omega arith) in
      rw (short, encode_header-ok (whole m).header (whole-Fits m h)) (sym (encode-ok m h) ∙ e),
)

encode-Reads :
    (m : HandshakeMessage) (bytes : Bytes)
    → IsU16 m.message_seq
    → encode m ≡ ok bytes
    → Reads parse_message m bytes
unfolding parse_message
encode-Reads m bytes w e =
    let h = encode-fits m bytes e in
    let same : bytes ≡ message_bytes m = cc (encode-ok m h) in
    rw same (record {
      reads = λ rest.
          let read =
            parse_fragment-encode_fragment (whole m) (message_bytes m) rest w
              (encode_fragment-ok (whole m) (whole-Fits m h) refl) in
          rw
            (
              read,
              ==_refl (length m.payload),
              drop-append_eq (12 + length m.payload) (message_bytes m) rest (omega arith),
            )
            refl;
      occupied = omega arith;
    })

-- `bytes` packs the encodings of the messages.
abbrev pub Packs : List HandshakeMessage → Bytes → Type 0
Packs [] bytes = bytes ≡ []
Packs (m ∷ ms) bytes =
    (front : Bytes) × (back : Bytes) × (bytes ≡ front ++ back)
    × (encode m ≡ ok front)
    × Packs ms back

Packs-Chunks :
    (ms : List HandshakeMessage) (bytes : Bytes)
    → All (λ m. IsU16 m.message_seq) ms
    → Packs ms bytes
    → Chunks parse_message ms bytes
Packs-Chunks [] bytes w e = e
Packs-Chunks (m ∷ ms) bytes w (front, back, split, e, more) =
    (front, back, split, encode-Reads m front w.0 e, Packs-Chunks ms back w.1 more)

-- A handshake record whose payload packs messages is read as those messages.
pub parse_unfragmented_messages-encode :
    (r : DtlsRecord) (ms : List HandshakeMessage)
    → r.header.content_type ≡ handshake
    → All (λ m. IsU16 m.message_seq) ms
    → Packs ms r.payload
    → parse_unfragmented_messages r ≡ ok ms
unfolding parse_unfragmented_messages
parse_unfragmented_messages-encode r ms t w p = rw t (
    decode_all-Chunks parse_message ms r.payload (length r.payload) []
      (Packs-Chunks ms r.payload w p) (omega arith))

-- A record with one message of the type expected is read as that message.
pub parse_unfragmented_record-encode :
    (r : DtlsRecord) (m : HandshakeMessage)
    → r.header.content_type ≡ handshake
    → IsU16 m.message_seq
    → encode m ≡ ok r.payload
    → parse_unfragmented_record r m.message_type ≡ ok m
unfolding parse_unfragmented_record
parse_unfragmented_record-encode r m t w e =
    let h = encode-fits m r.payload e in
    let same : r.payload ≡ message_bytes m = cc (encode-ok m h) in
    let read =
      parse_fragment-encode_fragment (whole m) (message_bytes m) [] w
        (encode_fragment-ok (whole m) (whole-Fits m h) refl) in
    let at_end : parse_fragment r.payload ≡ ok (whole m) =
      subst (λ b. parse_fragment b ≡ ok (whole m)) (append-nil (message_bytes m) ∙ sym same) read in
    let all_read : (12 + length m.payload == length r.payload) ≡ true =
      ground (arith, ap length same) in
    rw (t, at_end, all_read, ==_refl (type_code m.message_type), ==_refl (length m.payload)) refl

parse_message-shape :
    (bytes : Bytes) (m : HandshakeMessage) (rest : Bytes)
    → parse_message bytes ≡ ok (m, rest)
    → (f : HandshakeFragment) × (parse_fragment bytes ≡ ok f)
      × (rest ≡ drop (12 + length f.fragment) bytes)
unfolding parse_message
parse_message-shape bytes m rest e =
    let (f, k, later) = bind-eq-ok (parse_fragment bytes) _ e in
    let (unbroken, done) = fail_if-eq-ok (not (is_whole f.header)) _ _ later in (f, k, cc)

parse_message-Consumes : Consumes parse_message
parse_message-Consumes bytes m rest e =
    let (f, k, left) = parse_message-shape bytes m rest e in
    rw left
      (omega (arith, length-drop (12 + length f.fragment) bytes, parse_fragment-room bytes f k))

parse_message-ne-stuck : (bytes : Bytes) → parse_message bytes ≢ stuck
unfolding parse_message
parse_message-ne-stuck bytes =
    bind-ne-stuck (parse_fragment bytes) _ (parse_fragment-ne-stuck bytes) (λ f. ground arith)

-- Reading a record's messages ends on every record.
pub parse_unfragmented_messages-ne-stuck : (r : DtlsRecord) → parse_unfragmented_messages r ≢ stuck
unfolding parse_unfragmented_messages
parse_unfragmented_messages-ne-stuck r = bind-ne-stuck (fail_if _ _) _ (ground arith) (λ u.
    decode_all-ne-stuck parse_message parse_message-ne-stuck parse_message-Consumes
      (length r.payload) r.payload [] (omega arith))
