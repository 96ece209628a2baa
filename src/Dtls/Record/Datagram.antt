-- ===== src/Dtls/Record/Datagram.antt =====
-- Datagrams: sequences of records, encoded one after the other.
use ot_commissioner_rs.Base.{
  All-append, append-nil, bind-ne-stuck, take-append-drop, drop_add, append_assoc, ◌+◌, All-drop,
  length-drop, length-take, stuck, drop, ◌≢◌, take, ◌∙◌, sym, IsByte, All, fun_ext, ◌≡◌, refl, List,
  [], ◌∷◌, ◌++◌, Bytes, Result, ok, arith, length,
}
use ot_commissioner_rs.Base.Framed.{framed, framed-Reads, framed-IsLocal, framed-takes, HeadIsLocal}
use ot_commissioner_rs.Base.Loop.{
  decode_all-inv, IsLocal-Consumes, Reads, IsLocal, Chunks, decode_all-Chunks, decode_all-ne-stuck,
}
use ot_commissioner_rs.Dtls.{Error, crypto}
use ot_commissioner_rs.Dtls.Record.{
  DtlsRecord, parse_header, encode_header, encode, parse_record, parse_datagram,
}
use ot_commissioner_rs.Dtls.Record.Header.{
  length-encode_header, parse_header-ne-stuck, IsWire, parse_header-encode_header,
  encode_header-parse_header,
}

-- `parse_record` is a header with its payload.
abbrev frame_record : Bytes → Result Error (DtlsRecord × Bytes)
frame_record =
    framed parse_header (λ h. h.len) 13 (crypto "DTLS record payload is truncated")
      (λ h payload. record { header = h; payload = payload })

parse_record-framed : (bytes : Bytes) → parse_record bytes ≡ frame_record bytes
unfolding parse_record framed
parse_record-framed bytes = refl

parse_header-HeadIsLocal : HeadIsLocal parse_header 13
unfolding parse_header
parse_header-HeadIsLocal (b0 ∷ b1 ∷ b2 ∷ b3 ∷ b4 ∷ b5 ∷ b6 ∷ b7 ∷ b8 ∷ b9 ∷ b10 ∷ b11 ∷ b12 ∷ rest)
      h e =
    (omega arith, λ more. e)
parse_header-HeadIsLocal _ h e = absurd (cc)

-- Each record encodes to the next piece of the bytes.
abbrev pub EncodesTo : List DtlsRecord → Bytes → Type 0
EncodesTo [] bytes = bytes ≡ []
EncodesTo (r ∷ rs) bytes =
    (front : Bytes) × (back : Bytes) × (bytes ≡ front ++ back)
    × (encode r ≡ ok front)
    × EncodesTo rs back

encode-takes :
    (r : DtlsRecord) (bytes : Bytes)
    → encode r ≡ ok bytes
    → (length r.payload ≡ r.header.len) × (bytes ≡ encode_header r.header ++ r.payload)
unfolding encode
encode-takes r bytes h = ground arith

pub encode-ok :
    (r : DtlsRecord)
    → length r.payload ≡ r.header.len
    → encode r ≡ ok (encode_header r.header ++ r.payload)
unfolding encode
encode-ok r e = ground arith

encode-Reads :
    (r : DtlsRecord) (bytes : Bytes)
    → IsWire r.header
    → encode r ≡ ok bytes
    → Reads parse_record r bytes
encode-Reads r bytes w h =
    let (size, e) = encode-takes r bytes h in
    rw (fun_ext parse_record-framed, e)
      (framed-Reads parse_header _ 13 _ _ (encode_header r.header) r.payload r.header (omega arith)
        (length-encode_header r.header) size (λ more. parse_header-encode_header r.header more w))

EncodesTo-Chunks :
    (rs : List DtlsRecord) (bytes : Bytes)
    → All (λ r. IsWire r.header) rs
    → EncodesTo rs bytes
    → Chunks parse_record rs bytes
EncodesTo-Chunks [] bytes w e = e
EncodesTo-Chunks (r ∷ rs) bytes w (front, back, split, e, more) =
    (front, back, split, encode-Reads r front w.0 e, EncodesTo-Chunks rs back w.1 more)

-- A datagram of encoded records is parsed back into those records.
pub parse_datagram-encode :
    (rs : List DtlsRecord) (bytes : Bytes)
    → All (λ r. IsWire r.header) rs
    → EncodesTo rs bytes
    → parse_datagram bytes ≡ ok rs
unfolding parse_datagram
parse_datagram-encode rs bytes w e =
    decode_all-Chunks parse_record rs bytes (length bytes) [] (EncodesTo-Chunks rs bytes w e)
      (omega arith)

parse_record-IsLocal : IsLocal parse_record
parse_record-IsLocal =
    rw (fun_ext parse_record-framed)
      (framed-IsLocal parse_header _ 13 _ _ (omega arith) parse_header-HeadIsLocal)

-- One record read from bytes is a record that encodes to what was taken.
parse_record-encodes :
    (bytes : Bytes) (r : DtlsRecord) (rest : Bytes)
    → All IsByte bytes
    → parse_record bytes ≡ ok (r, rest)
    → IsWire r.header
      × All IsByte rest
      × ((front : Bytes) × (bytes ≡ front ++ rest) × (encode r ≡ ok front))
parse_record-encodes bytes r rest b e =
    let (h, k, room, made, left) =
      framed-takes parse_header (λ h. h.len) 13 _ _ bytes r rest
        (sym (parse_record-framed bytes) ∙ e) in
    let (wire, split) = encode_header-parse_header bytes h b k in
    let payload = take h.len (drop 13 bytes) in
    let size : length payload ≡ h.len =
      omega (arith, length-take h.len (drop 13 bytes), length-drop 13 bytes) in
    rw (made, left)
      (
        wire,
        All-drop IsByte (13 + h.len) bytes b,
        (
          encode_header h ++ payload,
          split
              ∙ rw
                  (
                    append_assoc (encode_header h) payload (drop (13 + h.len) bytes),
                    drop_add 13 h.len bytes,
                    take-append-drop h.len (drop 13 bytes),
                  )
                  refl,
          encode-ok (record { header = h; payload = payload }) size,
        ),
      )

parse_record-ne-stuck : (bytes : Bytes) → parse_record bytes ≢ stuck
unfolding parse_record
parse_record-ne-stuck bytes =
    bind-ne-stuck (parse_header bytes) _ (parse_header-ne-stuck bytes) (λ h. ground arith)

-- The parser of datagrams ends on every input.
pub parse_datagram-ne-stuck : (bytes : Bytes) → parse_datagram bytes ≢ stuck
unfolding parse_datagram
parse_datagram-ne-stuck bytes =
    decode_all-ne-stuck parse_record parse_record-ne-stuck
      (IsLocal-Consumes parse_record parse_record-IsLocal) (length bytes) bytes [] (omega arith)

EncodesTo-concat :
    (rs : List DtlsRecord) (r : DtlsRecord) (bytes front : Bytes)
    → EncodesTo rs bytes
    → encode r ≡ ok front
    → EncodesTo (rs ++ r ∷ []) (bytes ++ front)
EncodesTo-concat [] r bytes front e k = (front, [], rw (e, append-nil front) refl, k, refl)
EncodesTo-concat (x ∷ rs) r bytes front (first, back, split, j, more) k = (
  first,
  back ++ front,
  rw (split, append_assoc first back front) refl,
  j,
  EncodesTo-concat rs r back front more k,
)

-- What is read so far is written in front of what is left.
abbrev ReadSoFar : Bytes → List DtlsRecord → Bytes → Type 0
ReadSoFar bytes rs left =
    (read : Bytes) × (bytes ≡ read ++ left)
    × EncodesTo rs read
    × All (λ r. IsWire r.header) rs
    × All IsByte left

-- Every datagram that is accepted is, byte for byte, the encoding of the records returned.
pub encode-parse_datagram :
    (bytes : Bytes) (rs : List DtlsRecord)
    → All IsByte bytes
    → parse_datagram bytes ≡ ok rs
    → EncodesTo rs bytes × All (λ r. IsWire r.header) rs
unfolding parse_datagram
encode-parse_datagram bytes rs b e =
    let (read, split, written, wire, none_left) =
      decode_all-inv parse_record (ReadSoFar bytes) keep (length bytes) bytes [] rs
        ([], refl, refl, tt, b) e in
    (rw (split, append-nil read) written, wire)
  where
    keep :
        (out : List DtlsRecord) (bs : Bytes) (r : DtlsRecord) (rest : Bytes)
        → ReadSoFar bytes out bs
        → parse_record bs ≡ ok (r, rest)
        → ReadSoFar bytes (out ++ r ∷ []) rest
    keep out bs r rest (read, split, written, wire, byte) k =
        let (wire', byte', (front, split', written')) = parse_record-encodes bs r rest byte k in
        (
          read ++ front,
          rw (split, split', append_assoc read front rest) refl,
          EncodesTo-concat out r read front written written',
          All-append (λ r. IsWire r.header) out (r ∷ []) wire (wire', tt),
          byte',
        )
