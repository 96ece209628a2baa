-- ===== src/Dtls/Record/Header.antt =====
-- Record headers and their 13 bytes stand for one another.
use ot_commissioner_rs.Base.{
  stuck, ◌≢◌, subst, bind-eq-ok, from_be_u16, ◌∙◌, ◌/◌, [], ◌∷◌, drop, length, from_be-to_be_u16,
  as_u8, ◌+◌, ◌^◌, ◌++◌, ◌*◌, ◌<◌, ok, ℕ, ◌≡◌, refl, Bytes, IsByte, IsU16, All, arith, bit_or_add,
}
use ot_commissioner_rs.Dtls.Record.{
  ContentType, try_from, to_u8, RecordHeader, sequence_of, sequence_bytes, parse_header,
  encode_header,
}

try_from-to_u8 : (c : ContentType) → try_from (to_u8 c) ≡ ok c
unfolding try_from
try_from-to_u8 c = ground arith

to_u8-try_from : (b : ℕ) (c : ContentType) → try_from b ≡ ok c → to_u8 c ≡ b
unfolding try_from
to_u8-try_from b c h = ground arith

sequence_of-sum :
    (b5 b6 b7 b8 b9 b10 : ℕ)
    → IsByte b5
    → IsByte b6
    → IsByte b7
    → IsByte b8
    → IsByte b9
    → IsByte b10
    → sequence_of b5 b6 b7 b8 b9 b10
      ≡ b5 * 2 ^ 40 + b6 * 2 ^ 32 + b7 * 2 ^ 24 + b8 * 2 ^ 16 + b9 * 2 ^ 8 + b10
unfolding sequence_of
sequence_of-sum b5 b6 b7 b8 b9 b10 h5 h6 h7 h8 h9 h10 =
    rw
      (
        bit_or_add 40 (b5 * 2 ^ 40) (b6 * 2 ^ 32) (omega arith) (omega arith),
        bit_or_add 32 (b5 * 2 ^ 40 + b6 * 2 ^ 32) (b7 * 2 ^ 24) (omega arith) (omega arith),
        bit_or_add 24 (b5 * 2 ^ 40 + b6 * 2 ^ 32 + b7 * 2 ^ 24) (b8 * 2 ^ 16) (omega arith)
            (omega arith),
        bit_or_add 16 (b5 * 2 ^ 40 + b6 * 2 ^ 32 + b7 * 2 ^ 24 + b8 * 2 ^ 16) (b9 * 2 ^ 8)
            (omega arith) (omega arith),
        bit_or_add 8 (b5 * 2 ^ 40 + b6 * 2 ^ 32 + b7 * 2 ^ 24 + b8 * 2 ^ 16 + b9 * 2 ^ 8) b10
            (omega arith) (omega arith),
      )
      refl

sequence_of-sequence_bytes :
    (n : ℕ)
    → n < 2 ^ 48
    → sequence_of
        (as_u8 (n / 2 ^ 40))
        (as_u8 (n / 2 ^ 32))
        (as_u8 (n / 2 ^ 24))
        (as_u8 (n / 2 ^ 16))
        (as_u8 (n / 2 ^ 8))
        (as_u8 n)
      ≡ n
sequence_of-sequence_bytes n h =
    sequence_of-sum _ _ _ _ _ _ (omega arith) (omega arith) (omega arith) (omega arith)
      (omega arith) (omega arith)
    ∙ omega arith

sequence_bytes-sequence_of :
    (b5 b6 b7 b8 b9 b10 : ℕ)
    → IsByte b5
    → IsByte b6
    → IsByte b7
    → IsByte b8
    → IsByte b9
    → IsByte b10
    → sequence_bytes (sequence_of b5 b6 b7 b8 b9 b10) ≡ b5 ∷ b6 ∷ b7 ∷ b8 ∷ b9 ∷ b10 ∷ []
sequence_bytes-sequence_of b5 b6 b7 b8 b9 b10 h5 h6 h7 h8 h9 h10 =
    rw (sequence_of-sum b5 b6 b7 b8 b9 b10 h5 h6 h7 h8 h9 h10) (ground arith)

-- The fields have the widths of their wire form; Rust's types say so of all but the sequence number.
pub record IsWire (h : RecordHeader) : Type 0 where
  pub version : IsU16 h.version
  pub epoch : IsU16 h.epoch
  pub sequence_number : h.sequence_number < 2 ^ 48
  pub len : IsU16 h.len

pub parse_header-encode_header :
    (h : RecordHeader) (rest : Bytes) → IsWire h → parse_header (encode_header h ++ rest) ≡ ok h
unfolding parse_header encode_header
parse_header-encode_header h rest w =
    rw
      (
        try_from-to_u8 h.content_type,
        from_be-to_be_u16 h.version w.version,
        from_be-to_be_u16 h.epoch w.epoch,
        from_be-to_be_u16 h.len w.len,
        sequence_of-sequence_bytes h.sequence_number w.sequence_number,
      )
      refl

pub length-encode_header : (h : RecordHeader) → length (encode_header h) ≡ 13
unfolding encode_header
length-encode_header h = refl

abbrev header_of : ContentType → ℕ → ℕ → ℕ → ℕ → ℕ → ℕ → ℕ → ℕ → ℕ → ℕ → ℕ → ℕ → RecordHeader
header_of c b1 b2 b3 b4 b5 b6 b7 b8 b9 b10 b11 b12 = record {
  content_type = c;
  version = from_be_u16 b1 b2;
  epoch = from_be_u16 b3 b4;
  sequence_number = sequence_of b5 b6 b7 b8 b9 b10;
  len = from_be_u16 b11 b12;
}

-- A header that was read is written back as the bytes that it was read from.
pub encode_header-parse_header :
    (bytes : Bytes) (h : RecordHeader)
    → All IsByte bytes
    → parse_header bytes ≡ ok h
    → IsWire h × (bytes ≡ encode_header h ++ drop 13 bytes)
unfolding parse_header encode_header
encode_header-parse_header
      (b0 ∷ b1 ∷ b2 ∷ b3 ∷ b4 ∷ b5 ∷ b6 ∷ b7 ∷ b8 ∷ b9 ∷ b10 ∷ b11 ∷ b12 ∷ rest) h b e =
    let (c, k, same) = bind-eq-ok (try_from b0) _ e in
    let t5 = b.1.1.1.1.1 in
    let read : RecordHeader = header_of c b1 b2 b3 b4 b5 b6 b7 b8 b9 b10 b11 b12 in
    let seq =
      sequence_of-sum b5 b6 b7 b8 b9 b10 t5.0 t5.1.0 t5.1.1.0 t5.1.1.1.0 t5.1.1.1.1.0
        t5.1.1.1.1.1.0 in
    subst
      (λ g.
        IsWire g
        × (b0 ∷ b1 ∷ b2 ∷ b3 ∷ b4 ∷ b5 ∷ b6 ∷ b7 ∷ b8 ∷ b9 ∷ b10 ∷ b11 ∷ b12 ∷ rest
            ≡ encode_header g ++ rest))
      {x = read} (cc)
      (
        record {
          version = omega arith;
          epoch = omega arith;
          sequence_number = omega (arith, seq);
          len = omega arith;
        },
        ground (
          arith,
          to_u8-try_from b0 c k,
          sequence_bytes-sequence_of b5 b6 b7 b8 b9 b10 t5.0 t5.1.0 t5.1.1.0 t5.1.1.1.0 t5.1.1.1.1.0
              t5.1.1.1.1.1.0,
        ),
      )
encode_header-parse_header _ h b e = absurd (cc)

pub parse_header-ne-stuck : (bytes : Bytes) → parse_header bytes ≢ stuck
unfolding parse_header
parse_header-ne-stuck (b0 ∷ _ ∷ _ ∷ _ ∷ _ ∷ _ ∷ _ ∷ _ ∷ _ ∷ _ ∷ _ ∷ _ ∷ _ ∷ _) = ground arith
parse_header-ne-stuck _ = λ p. cc
