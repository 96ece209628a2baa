-- ===== src/Dataset/ChannelMask/Entries.antt =====
-- Channel masks against their bytes.
use ot_commissioner_rs.Base.{
  All-drop, append_assoc, sym, stuck, ap, ◌≢◌, IsByte, All, append-nil, ◌∙◌, drop-length-append,
  take-length-append, length-take, length-append, take-append-drop, ltb→le, le→ltb, ℕ, ◌≤◌, ◌≡◌,
  refl, subst, List, [], ◌∷◌, ◌++◌, arith, Bytes, as_u8, ok, length, take, drop, ltb, bind-eq-ok,
  fail_if-eq-ok,
}
use ot_commissioner_rs.Base.Loop.{
  decode_all-ne-stuck, decode_all-inv, Consumes, Reads, Chunks, decode_all-Chunks,
}
use ot_commissioner_rs.Dataset.ChannelMask.{ChannelMaskEntry, parse_entry, parse_all, encode_all}

abbrev chunk_of : ChannelMaskEntry → Bytes
chunk_of e = e.page ∷ (as_u8 (length e.mask) ∷ e.mask)

abbrev Fits : ChannelMaskEntry → Type 0
Fits e = length e.mask ≤ 255

chunk_of-Reads : (e : ChannelMaskEntry) → Fits e → Reads parse_entry e (chunk_of e)
unfolding parse_entry
chunk_of-Reads e h = record {
  reads = λ rest.
      let size : as_u8 (length e.mask) ≡ length e.mask = omega arith in
      rw
        (
          size,
          le→ltb (length (e.mask ++ rest)) (length e.mask)
              (omega (arith, length-append e.mask rest)),
          take-length-append e.mask rest,
          drop-length-append e.mask rest,
        )
        refl;
  occupied = omega arith;
}

-- `bytes` is the encoding, and each entry fits its length byte.
encode_all-Chunks :
    (es : List ChannelMaskEntry) (bytes : Bytes)
    → encode_all es ≡ ok bytes
    → Chunks parse_entry es bytes
unfolding encode_all
encode_all-Chunks [] bytes h = cc
encode_all-Chunks (e ∷ es) bytes h =
    let (fits, h1) = fail_if-eq-ok (ltb 255 (length e.mask)) _ _ h in
    let (rest, k, h2) = bind-eq-ok (encode_all es) _ h1 in
    (chunk_of e, rest, cc, chunk_of-Reads e (ltb→le _ _ fits), encode_all-Chunks es rest k)

-- Entries that were encoded are read back.
pub parse_all-encode_all :
    (es : List ChannelMaskEntry) (bytes : Bytes)
    → encode_all es ≡ ok bytes
    → parse_all bytes ≡ ok es
unfolding parse_all
parse_all-encode_all es bytes h =
    decode_all-Chunks parse_entry es bytes (length bytes) [] (encode_all-Chunks es bytes h)
      (omega arith)

parse_entry-takes :
    (bs : Bytes) (e : ChannelMaskEntry) (rest : Bytes)
    → parse_entry bs ≡ ok (e, rest)
    → (len : ℕ) × (bs ≡ e.page ∷ (len ∷ (e.mask ++ rest))) × (length e.mask ≡ len)
unfolding parse_entry
parse_entry-takes [] e rest h = absurd (cc)
parse_entry-takes (page ∷ []) e rest h = absurd (cc)
parse_entry-takes (page ∷ len ∷ value) e rest h =
    let (fits, k) = fail_if-eq-ok (ltb (length value) len) _ _ h in
    subst
      (λ (p : ChannelMaskEntry × Bytes).
        (n : ℕ) × (page ∷ (len ∷ value) ≡ p.0.page ∷ (n ∷ (p.0.mask ++ p.1)))
        × (length p.0.mask ≡ n))
      {x = (record { page = page; mask = take len value }, drop len value)} (cc)
      (
        len,
        rw (take-append-drop len value) refl,
        omega (arith, length-take len value, ltb→le _ _ fits),
      )

encode_all-append :
    (xs ys : List ChannelMaskEntry) (a b : Bytes)
    → encode_all xs ≡ ok a
    → encode_all ys ≡ ok b
    → encode_all (xs ++ ys) ≡ ok (a ++ b)
unfolding encode_all
encode_all-append [] ys a b h k = k ∙ ap (λ c. ok (c ++ b)) {x = []} (cc)
encode_all-append (e ∷ es) ys a b h k =
    let (fits, h1) = fail_if-eq-ok (ltb 255 (length e.mask)) _ _ h in
    let (rest, r, h2) = bind-eq-ok (encode_all es) _ h1 in
    rw (fits, encode_all-append es ys rest b r k, sym (append_assoc e.mask rest b))
      (ap (λ c. ok (c ++ b)) {x = e.page ∷ (as_u8 (length e.mask) ∷ (e.mask ++ rest))} (cc))

encode_all-one : (e : ChannelMaskEntry) → Fits e → encode_all (e ∷ []) ≡ ok (chunk_of e)
unfolding encode_all
encode_all-one e h = rw (le→ltb 255 (length e.mask) h, append-nil e.mask) refl

-- What has been read is the encoding of the entries so far.
abbrev ReadSoFar : Bytes → List ChannelMaskEntry → Bytes → Type 0
ReadSoFar bytes es left =
    (read : Bytes) × (bytes ≡ read ++ left) × (encode_all es ≡ ok read) × All IsByte left

parse_entry-keeps :
    (bytes : Bytes) (out : List ChannelMaskEntry) (bs : Bytes) (e : ChannelMaskEntry) (rest : Bytes)
    → ReadSoFar bytes out bs
    → parse_entry bs ≡ ok (e, rest)
    → ReadSoFar bytes (out ++ e ∷ []) rest
parse_entry-keeps bytes out bs e rest (read, split, written, b) h =
    let (len, shape, size) = parse_entry-takes bs e rest h in
    let kept : IsByte e.page × (IsByte len × All IsByte (e.mask ++ rest)) =
      subst (All IsByte) shape b in
    let short : length e.mask ≤ 255 = omega (arith, kept.1.0, size) in
    let whole : as_u8 (length e.mask) ≡ len = omega (arith, kept.1.0, size) in
    (
      read ++ chunk_of e,
      split
          ∙ ap (λ c. read ++ c) (shape ∙ rw whole refl)
          ∙ sym (append_assoc read (chunk_of e) rest),
      encode_all-append out (e ∷ []) read (chunk_of e) written (encode_all-one e short),
      subst (All IsByte) (drop-length-append e.mask rest)
          (All-drop IsByte (length e.mask) (e.mask ++ rest) kept.1.1),
    )

-- A channel mask that is accepted of bytes is, byte for byte, the encoding of the entries returned.
pub encode_all-parse_all :
    (bytes : Bytes) (es : List ChannelMaskEntry)
    → All IsByte bytes
    → parse_all bytes ≡ ok es
    → encode_all es ≡ ok bytes
unfolding parse_all encode_all
encode_all-parse_all bytes es b h =
    let (read, split, written, none_left) =
      decode_all-inv parse_entry (ReadSoFar bytes) (parse_entry-keeps bytes) (length bytes) bytes []
        es ([], refl, refl, b) h in
    written ∙ ap ok (sym (split ∙ append-nil read))

parse_entry-ne-stuck : (bs : Bytes) → parse_entry bs ≢ stuck
unfolding parse_entry
parse_entry-ne-stuck [] = λ p. cc
parse_entry-ne-stuck (page ∷ []) = λ p. cc
parse_entry-ne-stuck (page ∷ len ∷ value) = ground arith

parse_entry-Consumes : Consumes parse_entry
parse_entry-Consumes bs e rest h =
    let (len, shape, size) = parse_entry-takes bs e rest h in
    omega (arith, ap length shape, length-append e.mask rest)

-- Reading a channel mask ends on every input.
pub parse_all-ne-stuck : (bytes : Bytes) → parse_all bytes ≢ stuck
unfolding parse_all
parse_all-ne-stuck bytes =
    decode_all-ne-stuck parse_entry parse_entry-ne-stuck parse_entry-Consumes (length bytes) bytes
      [] (omega arith)
