-- ===== src/Tlv/RoundTrip.antt =====
-- Encoding and parsing of tlv.rs are inverse.
use ot_commissioner_rs.Base.{
  ◌⊎◌, Result, ltb→le, subst, ltb→lt, ℕ, ◌%◌, ◌^◌, ◌≤◌, ◌<◌, ◌≡◌, refl, sym, ap, ◌∙◌, inl, inr,
  List, [], ◌∷◌, ◌++◌, append-nil, append_assoc, arith, ltb, leb, if◌then◌else◌, le→ltb, Bool-cases,
  length, length-append, take-length-append, drop-length-append, All, Bytes, to_be_u16, as_u8, ok,
  err,
}
use ot_commissioner_rs.Base.Loop.{Reads, Chunks, decode_all-Chunks}
use ot_commissioner_rs.Tlv.{
  TlvError, TlvEntry, TlvSet, value_too_large, encode_header, encode_entry, encode_loop, encode,
  take_value, extended, parse_one, parse,
}

pub take_value-append :
    (ty : ℕ) (v rest : Bytes)
    → take_value ty (length v) (v ++ rest) ≡ ok (record { ty = ty; value = v }, rest)
unfolding take_value
take_value-append ty v rest = rw (
  le→ltb (length (v ++ rest)) (length v) (omega (arith, length-append v rest)),
  take-length-append v rest,
  drop-length-append v rest,
)

-- The header that `encode_header` appends.
abbrev pub header : ℕ → ℕ → Bytes
header ty len = if leb len 254 then ty ∷ len ∷ [] else ty ∷ 255 ∷ to_be_u16 len

encode_header-ok :
    (ty len : ℕ) (out : Bytes) → len < 2 ^ 16 → encode_header ty len out ≡ ok (out ++ header ty len)
unfolding encode_header
encode_header-ok ty len out h = ground (
  arith,
  append_assoc out (ty ∷ []) (as_u8 len ∷ []),
  append_assoc out (ty ∷ []) (255 ∷ []),
  append_assoc out (ty ∷ 255 ∷ []) (to_be_u16 (len % 2 ^ 16)),
)

encode_header-err :
    (ty len : ℕ) (out : Bytes) → 2 ^ 16 ≤ len → encode_header ty len out ≡ err (value_too_large len)
unfolding encode_header
encode_header-err ty len out h = ground arith

parse_one-header :
    (ty len : ℕ) (after : Bytes)
    → len < 2 ^ 16
    → parse_one (header ty len ++ after) ≡ take_value ty len after
unfolding parse_one extended
parse_one-header ty len after h = ground arith

abbrev pub chunk_of : TlvEntry → Bytes
chunk_of e = header e.ty (length e.value) ++ e.value

encode_entry-ok :
    (e : TlvEntry) (out : Bytes)
    → length e.value < 2 ^ 16
    → encode_entry e out ≡ ok (out ++ chunk_of e)
unfolding encode_entry
encode_entry-ok e out h =
    rw (encode_header-ok e.ty (length e.value) out h)
      (ap ok (append_assoc out (header e.ty (length e.value)) e.value))

encode_entry-err :
    (e : TlvEntry) (out : Bytes)
    → 2 ^ 16 ≤ length e.value
    → encode_entry e out ≡ err (value_too_large (length e.value))
unfolding encode_entry
encode_entry-err e out h = rw (encode_header-err e.ty (length e.value) out h)

length-header : (ty len : ℕ) → 2 ≤ length (header ty len)
length-header ty len = ground arith

-- The parser reads an entry back from its chunk, whatever follows.
chunk_of-Reads : (e : TlvEntry) → length e.value < 2 ^ 16 → Reads parse_one e (chunk_of e)
chunk_of-Reads e h = record {
  reads = λ rest. rw (append_assoc (header e.ty (length e.value)) e.value rest) (
      parse_one-header e.ty (length e.value) (e.value ++ rest) h
      ∙ take_value-append e.ty e.value rest);
  occupied =
      rw (length-append (header e.ty (length e.value)) e.value)
        (omega (arith, length-header e.ty (length e.value)));
}

abbrev pub chunks : List TlvEntry → Bytes
chunks [] = []
chunks (e ∷ es) = chunk_of e ++ chunks es

abbrev pub Fits : TlvEntry → Type 0
Fits e = length e.value < 2 ^ 16

-- An entry that was written fits, and is behind what was there.
pub encode_entry-chunk_of :
    (e : TlvEntry) (out bytes : Bytes)
    → encode_entry e out ≡ ok bytes
    → Fits e × (bytes ≡ out ++ chunk_of e)
encode_entry-chunk_of e out bytes h = elim (Bool-cases (ltb (length e.value) (2 ^ 16))) [
  | inl small ↦ (ltb→lt _ _ small, cc (encode_entry-ok e out (ltb→lt _ _ small)))
  | inr large ↦ absurd (cc (encode_entry-err e out (ltb→le _ _ large)))
]

pub chunks-append : (xs ys : List TlvEntry) → chunks (xs ++ ys) ≡ chunks xs ++ chunks ys
chunks-append [] ys = refl
chunks-append (x ∷ xs) ys =
    ap (λ c. chunk_of x ++ c) (chunks-append xs ys)
    ∙ sym (append_assoc (chunk_of x) (chunks xs) (chunks ys))

encode_loop-ok :
    (es : List TlvEntry) (out : Bytes) → All Fits es → encode_loop es out ≡ ok (out ++ chunks es)
unfolding encode_loop
encode_loop-ok [] out h = rw (append-nil out) refl
encode_loop-ok (e ∷ es) out h =
    rw (encode_entry-ok e out h.0) (
      encode_loop-ok es (out ++ chunk_of e) h.1 ∙ ap ok (append_assoc out (chunk_of e) (chunks es)))

encode_loop-Fits :
    (es : List TlvEntry) (out bytes : Bytes) → encode_loop es out ≡ ok bytes → All Fits es
unfolding encode_loop
encode_loop-Fits [] out bytes h = tt
encode_loop-Fits (e ∷ es) out bytes h = elim (Bool-cases (ltb (length e.value) (2 ^ 16))) [
  | inl small ↦ (
    ltb→lt _ _ small,
    encode_loop-Fits es (out ++ chunk_of e) bytes
        (rw (encode_entry-ok e out (ltb→lt _ _ small)) at h),
  )
  | inr large ↦ absurd (cc (rw (encode_entry-err e out (ltb→le _ _ large)) at h))
]

pub chunks-Chunks : (es : List TlvEntry) → All Fits es → Chunks parse_one es (chunks es)
chunks-Chunks [] h = refl
chunks-Chunks (e ∷ es) h = (chunk_of e, chunks es, refl, chunk_of-Reads e h.0, chunks-Chunks es h.1)

-- Where every value fits 16 bits, encoding succeeds and gives the chunks in order.
pub encode-ok : (s : TlvSet) → All Fits s.entries → encode s ≡ ok (chunks s.entries)
unfolding encode
encode-ok s h = encode_loop-ok s.entries [] h

pub encode-chunks :
    (s : TlvSet) (bytes : Bytes)
    → encode s ≡ ok bytes
    → All Fits s.entries × (bytes ≡ chunks s.entries)
unfolding encode
encode-chunks s bytes h =
    let fits = encode_loop-Fits s.entries [] bytes h in
    (fits, cc (encode_loop-ok s.entries [] fits))

pub parse-Chunks :
    (s : TlvSet) (bytes : Bytes) → Chunks parse_one s.entries bytes → parse bytes ≡ ok s
unfolding parse
parse-Chunks s bytes c =
    rw (decode_all-Chunks parse_one s.entries bytes (length bytes) [] c (omega arith))

-- Parsing what `encode` wrote gives the set back, with its order and its duplicates.
pub parse-encode : (s : TlvSet) (bytes : Bytes) → encode s ≡ ok bytes → parse bytes ≡ ok s
parse-encode s bytes h =
    let (fits, e) = encode-chunks s bytes h in
    parse-Chunks s bytes (subst (Chunks parse_one s.entries) (sym e) (chunks-Chunks s.entries fits))

-- `es` has a first entry that is too long, and encoding fails with its length.
abbrev pub FailsAtFirst : List TlvEntry → Result TlvError Bytes → Type 0
FailsAtFirst es result =
    (before : List TlvEntry) × (e : TlvEntry) × (after : List TlvEntry) × (es ≡ before ++ e ∷ after)
    × All Fits before
    × (2 ^ 16 ≤ length e.value)
    × (result ≡ err (value_too_large (length e.value)))

encode_loop-cases :
    (es : List TlvEntry) (out : Bytes) → All Fits es ⊎ FailsAtFirst es (encode_loop es out)
unfolding encode_loop
encode_loop-cases [] out = inl tt
encode_loop-cases (e ∷ es) out = elim (Bool-cases (ltb (length e.value) (2 ^ 16))) [
  | inr large ↦
      inr ([], e, es, refl, tt, ltb→le _ _ large, rw (encode_entry-err e out (ltb→le _ _ large)))
  | inl small ↦ elim (encode_loop-cases es (out ++ chunk_of e)) [
    | inl fits ↦ inl (ltb→lt _ _ small, fits)
    | inr (before, x, after, split, fits, large, fails) ↦ inr (
      e ∷ before,
      x,
      after,
      ap (◌∷◌ e) split,
      (ltb→lt _ _ small, fits),
      large,
      rw (encode_entry-ok e out (ltb→lt _ _ small)) fails,
    )
  ]
]

-- Encoding succeeds exactly when every value has at most 65535 bytes; otherwise it fails with the
-- length of the first value that is longer.
pub encode_cases :
    (s : TlvSet)
    → (All Fits s.entries × ((bytes : Bytes) × (encode s ≡ ok bytes)))
      ⊎ FailsAtFirst s.entries (encode s)
unfolding encode
encode_cases s = elim (encode_loop-cases s.entries []) [
  | inl fits ↦ inl (fits, (chunks s.entries, encode_loop-ok s.entries [] fits))
  | inr fails ↦ inr fails
]
