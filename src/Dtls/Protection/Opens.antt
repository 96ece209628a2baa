-- ===== src/Dtls/Protection/Opens.antt =====
-- A protected record opens to its plaintext.
use ot_commissioner_rs.Base.{
  append-nil, sym, [], ◌∷◌, IsU16, lt→ltb, take-append_eq, drop-append_eq, ok_or-eq-ok, ◌∙◌,
  length-append, ltb, ap, le→ltb, not, ◌-◌, to_be_u16, fail_if-eq-ok, drop, ℕ, ◌≡◌, ◌<◌, ◌^◌, Bytes,
  ok, some, refl, arith, bind-eq-ok, length, ◌++◌, ◌+◌,
}
use ot_commissioner_rs.Dtls.Protection.{Aead, protect, open_record, dtls_ccm_nonce, encrypt}
use ot_commissioner_rs.Dtls.Protection.Nonce.{dtls_ccm_nonce-takes}
use ot_commissioner_rs.Dtls.Record.{
  encode, encode_header, parse_datagram, ContentType, RecordHeader, DtlsRecord, new,
  dtls_1_2_version, sequence_bytes, aead_additional_data,
}
use ot_commissioner_rs.Dtls.Record.Datagram.{encode-ok, parse_datagram-encode}
use ot_commissioner_rs.Dtls.Record.Header.{IsWire}

new-takes :
    (c : ContentType) (epoch seq : ℕ) (payload : Bytes) (r : DtlsRecord)
    → new c epoch seq payload ≡ ok r
    → (length payload < 2 ^ 16)
      × (r ≡ record {
        header = record {
          content_type = c;
          version = dtls_1_2_version;
          epoch = epoch;
          sequence_number = seq;
          len = length payload;
        };
        payload = payload;
      })
unfolding new
new-takes c epoch seq payload r h = ground arith

abbrev header_for : ContentType → ℕ → ℕ → RecordHeader
header_for c epoch seq = record {
  content_type = c;
  version = dtls_1_2_version;
  epoch = epoch;
  sequence_number = seq;
  len = 0;
}

module _ (aead : Aead) where
  protect-takes :
      (c : ContentType) (epoch seq : ℕ) (key iv plaintext : Bytes) (r : DtlsRecord)
      → protect aead c epoch seq key iv plaintext ≡ ok r
      → (nonce : Bytes) × (sealed : Bytes) × (length plaintext < 2 ^ 16)
        × (dtls_ccm_nonce iv epoch seq ≡ ok nonce)
        × (aead.encrypt key nonce
              (aead_additional_data (header_for c epoch seq) (length plaintext))
              plaintext
            ≡ some sealed)
        × (new c epoch seq (drop 4 nonce ++ sealed) ≡ ok r)
  unfolding protect
  protect-takes c epoch seq key iv plaintext r h =
      let (fits, h1) = fail_if-eq-ok (not (ltb (length plaintext) (2 ^ 16))) _ _ h in
      let (nonce, n, h2) = bind-eq-ok (dtls_ccm_nonce iv epoch seq) _ h1 in
      let (sealed, s, h3) = bind-eq-ok (encrypt aead key nonce _ plaintext) _ h2 in
      (nonce, sealed, ground arith, n, ok_or-eq-ok _ _ s, h3)

  -- Opening such a record hands the cipher the nonce and the associated data that it was given.
  open_record-sealed :
      (header : RecordHeader) (key iv suffix sealed plaintext : Bytes)
      → length suffix ≡ 8
      → length sealed ≡ length plaintext + 8
      → length plaintext < 2 ^ 16
      → aead.decrypt key (iv ++ suffix) (aead_additional_data header (length plaintext)) sealed
        ≡ some plaintext
      → open_record aead (record { header = header; payload = suffix ++ sealed }) key iv
        ≡ ok plaintext
  unfolding open_record
  open_record-sealed header key iv suffix sealed plaintext hs hc hp d =
      rw
        (
          le→ltb (length (suffix ++ sealed)) 16 (omega (arith, length-append suffix sealed)),
          drop-append_eq 8 suffix sealed hs,
          take-append_eq 8 suffix sealed hs,
          plain,
          lt→ltb (length plaintext) (2 ^ 16) hp,
          d,
        )
        refl
    where
      plain : length sealed - 8 ≡ length plaintext
      plain = omega arith

  -- What was protected under a key and an IV is opened with them to the same plaintext, whatever the
  -- epoch and the sequence number.
  pub open_record-protect :
      (c : ContentType) (epoch seq : ℕ) (key iv plaintext : Bytes) (r : DtlsRecord)
      → length iv ≡ 4
      → protect aead c epoch seq key iv plaintext ≡ ok r
      → open_record aead r key iv ≡ ok plaintext
  unfolding aead_additional_data
  open_record-protect c epoch seq key iv plaintext r hi h =
      let (nonce, sealed, fits, n, s, made) = protect-takes c epoch seq key iv plaintext r h in
      let (small, e) = dtls_ccm_nonce-takes iv epoch seq nonce n in
      let (room, built) = new-takes c epoch seq (drop 4 nonce ++ sealed) r made in
      let suffix : Bytes = to_be_u16 epoch ++ sequence_bytes seq in
      let tail : drop 4 nonce ≡ suffix = ap (drop 4) e ∙ drop-append_eq 4 iv suffix hi in
      rw (built, tail)
        (open_record-sealed
          (record {
            content_type = c;
            version = dtls_1_2_version;
            epoch = epoch;
            sequence_number = seq;
            len = length (suffix ++ sealed);
          })
          key iv suffix sealed plaintext refl (aead.length-encrypt key nonce _ plaintext s) fits
          (rw (← e) (aead.decrypt-encrypt key nonce _ plaintext s)))

  -- What is protected has a sequence number of 48 bits, in its header.
  pub protect-sequence :
      (c : ContentType) (epoch seq : ℕ) (key iv plaintext : Bytes) (r : DtlsRecord)
      → protect aead c epoch seq key iv plaintext ≡ ok r
      → (seq < 2 ^ 48) × (r.header.sequence_number ≡ seq)
  protect-sequence c epoch seq key iv plaintext r h =
      let (nonce, sealed, fits, n, s, made) = protect-takes c epoch seq key iv plaintext r h in
      let (room, built) = new-takes c epoch seq (drop 4 nonce ++ sealed) r made in
      (
        (dtls_ccm_nonce-takes iv epoch seq nonce n).0,
        ap (λ (x : DtlsRecord). x.header.sequence_number) built,
      )

  -- The whole path of a protected record: it encodes, the datagram is parsed to the same record, and
  -- that opens to the plaintext.
  pub open_record-parse_datagram-protect :
      (c : ContentType) (epoch seq : ℕ) (key iv plaintext : Bytes) (r : DtlsRecord)
      → length iv ≡ 4
      → IsU16 epoch
      → protect aead c epoch seq key iv plaintext ≡ ok r
      → (bytes : Bytes) × (encode r ≡ ok bytes)
        × (parse_datagram bytes ≡ ok (r ∷ []))
        × (open_record aead r key iv ≡ ok plaintext)
  open_record-parse_datagram-protect c epoch seq key iv plaintext r hi he h =
      let (nonce, sealed, fits, n, s, made) = protect-takes c epoch seq key iv plaintext r h in
      let (small, e) = dtls_ccm_nonce-takes iv epoch seq nonce n in
      let (room, built) = new-takes c epoch seq (drop 4 nonce ++ sealed) r made in
      let bytes = encode_header r.header ++ r.payload in
      let written : encode r ≡ ok bytes = encode-ok r (rw built refl) in
      let wire : IsWire r.header =
        rw built
          (record { version = omega arith; epoch = he; sequence_number = small; len = room }) in
      (
        bytes,
        written,
        parse_datagram-encode (r ∷ []) bytes (wire, tt)
            (bytes, [], sym (append-nil bytes), written, refl),
        open_record-protect c epoch seq key iv plaintext r hi h,
      )
