-- ===== src/Tlv/Parsing.antt =====
-- `TlvSet::parse` on any input, well formed or not.
use ot_commissioner_rs.Base.{
  ◌⊎◌, All-append, length-drop, suc, All-drop, ◌+◌, bind-eq-ok, bind-eq-err, from_be_u16, true,
  ◌==◌, inr, inl, take-append-drop, Result-cases, append_assoc, Bool-cases, ◌<◌, subst,
  length-append, length-take, ap, ◌≤◌, ℕ, ◌≡◌, ◌≢◌, List, [], ◌∷◌, ◌++◌, arith, length, take, drop,
  Bytes, IsByte, All, ok, err, stuck,
}
use ot_commissioner_rs.Base.Loop.{
  decode_all-append, decode_all-inv, decode_all-err, decode_all, decode_all-ne-stuck, Reads,
  IsLocal, Consumes,
}
use ot_commissioner_rs.Tlv.{
  buffer_too_small, TlvError, TlvEntry, TlvSet, take_value, extended, parse_one, parse, encode,
}
use ot_commissioner_rs.Tlv.RoundTrip.{
  header, take_value-append, Fits, chunks, chunk_of, chunks-Chunks, parse-Chunks, encode-ok,
}

take_value-takes :
    (ty len : ℕ) (after : Bytes) (e : TlvEntry) (rest : Bytes)
    → take_value ty len after ≡ ok (e, rest)
    → (len ≤ length after)
      × (e ≡ record { ty = ty; value = take len after })
      × (rest ≡ drop len after)
unfolding take_value
take_value-takes ty len after e rest h = ground arith

-- Where an entry ends is settled by its own bytes.
take_value-take :
    (ty len : ℕ) (after more : Bytes)
    → len ≤ length after
    → take_value ty len (take len after ++ more)
      ≡ ok (record { ty = ty; value = take len after }, more)
take_value-take ty len after more h =
    let size : length (take len after) ≡ len = omega (arith, length-take len after) in
    subst
      (λ n.
        take_value ty n (take len after ++ more)
        ≡ ok (record { ty = ty; value = take len after }, more))
      size (take_value-append ty (take len after) more)

-- An entry behind a header that `parse_one` reads as the type `ty` and the length `len`.
entry_local :
    (head : Bytes) (ty len : ℕ) (after : Bytes) (e : TlvEntry) (rest : Bytes)
    → 0 < length head
    → ((more : Bytes) → parse_one (head ++ more) ≡ take_value ty len more)
    → take_value ty len after ≡ ok (e, rest)
    → (chunk : Bytes) × (head ++ after ≡ chunk ++ rest) × Reads parse_one e chunk
entry_local head ty len after e rest occupied opens h =
    let (room, entry, left) = take_value-takes ty len after e rest h in
    (
      head ++ take len after,
      rw (left, append_assoc head (take len after) (drop len after), take-append-drop len after),
      record {
        reads = λ more.
            rw (append_assoc head (take len after) more, opens (take len after ++ more), entry)
              (take_value-take ty len after more room);
        occupied = omega (arith, length-append head (take len after));
      },
    )

parse_one-IsLocal : IsLocal parse_one
unfolding parse_one extended
parse_one-IsLocal [] e rest h = cc
parse_one-IsLocal (ty ∷ []) e rest h = cc
parse_one-IsLocal (ty ∷ l ∷ after) e rest h = elim (Bool-cases (l == 255)) [
  | inl long ↦ extended_local after long (rw long at h)
  | inr short ↦
      entry_local (ty ∷ l ∷ []) ty l after e rest (omega arith) (λ more. rw short) (rw short at h)
]
  where
    extended_local :
        (after : Bytes)
        → (l == 255) ≡ true
        → extended ty after ≡ ok (e, rest)
        → (chunk : Bytes) × (ty ∷ l ∷ after ≡ chunk ++ rest) × Reads parse_one e chunk
    extended_local [] long k = cc
    extended_local (b2 ∷ []) long k = cc
    extended_local (b2 ∷ b3 ∷ after) long k =
        entry_local (ty ∷ l ∷ b2 ∷ b3 ∷ []) ty (from_be_u16 b2 b3) after e rest (omega arith)
          (λ more. rw long) k

parse_one-ne-stuck : (bs : Bytes) → parse_one bs ≢ stuck
unfolding parse_one extended take_value
parse_one-ne-stuck [] = λ p. cc
parse_one-ne-stuck (ty ∷ []) = λ p. cc
parse_one-ne-stuck (ty ∷ l ∷ []) = ground arith
parse_one-ne-stuck (ty ∷ l ∷ _ ∷ []) = ground arith
parse_one-ne-stuck (ty ∷ l ∷ _ ∷ _ ∷ after) = ground arith

parse_one-Consumes : Consumes parse_one
parse_one-Consumes bs e rest h =
    let (chunk, split, r) = parse_one-IsLocal bs e rest h in
    omega (arith, ap length split, length-append chunk rest, r.occupied)

-- The parser ends on every input.
parse-ne-stuck : (bytes : Bytes) → parse bytes ≢ stuck
unfolding parse
parse-ne-stuck bytes =
    let loop =
      decode_all-ne-stuck parse_one parse_one-ne-stuck parse_one-Consumes (length bytes) bytes []
        (omega arith) in
    elim (Result-cases _ loop) [ inl (es, e) ↦ rw e (λ p. cc) | inr (x, e) ↦ rw e (λ p. cc) ]

parse_one-err : (bs : Bytes) (x : TlvError) → parse_one bs ≡ err x → x ≡ buffer_too_small
unfolding parse_one extended take_value
parse_one-err [] x h = cc
parse_one-err (ty ∷ []) x h = cc
parse_one-err (ty ∷ l ∷ []) x h = ground arith
parse_one-err (ty ∷ l ∷ _ ∷ []) x h = ground arith
parse_one-err (ty ∷ l ∷ _ ∷ _ ∷ after) x h = ground arith

-- The one error of the parser is that the input ends too early.
parse-err : (bytes : Bytes) (x : TlvError) → parse bytes ≡ err x → x ≡ buffer_too_small
unfolding parse
parse-err bytes x h = elim (bind-eq-err (decode_all parse_one (length bytes) bytes []) _ h) [
  | inl e ↦ decode_all-err parse_one _ parse_one-err (length bytes) bytes [] x e
  | inr (es, e, bad) ↦ absurd (cc)
]

take_value-shape :
    (ty len : ℕ) (after : Bytes) (e : TlvEntry) (rest : Bytes)
    → All IsByte after
    → take_value ty len after ≡ ok (e, rest)
    → (length e.value ≡ len) × All IsByte rest × (len + length rest ≡ length after)
take_value-shape ty len after e rest b h =
    let (room, entry, left) = take_value-takes ty len after e rest h in
    (
      rw entry (omega (arith, length-take len after)),
      rw left (All-drop IsByte len after b),
      rw left (omega (arith, length-drop len after)),
    )

header_short : (ty len : ℕ) → len ≤ 254 → length (header ty len) ≡ 2
header_short ty len h = ground arith

header_at_most : (ty len : ℕ) → length (header ty len) ≤ 4
header_at_most ty len = ground arith

-- The entry that was read fits, and its canonical chunk is no longer than what was read.
parse_one-shape :
    (bs : Bytes) (e : TlvEntry) (rest : Bytes)
    → All IsByte bs
    → parse_one bs ≡ ok (e, rest)
    → Fits e × All IsByte rest × (length (chunk_of e) + length rest ≤ length bs)
unfolding parse_one extended
parse_one-shape [] e rest b h = absurd (cc)
parse_one-shape (ty ∷ []) e rest b h = absurd (cc)
parse_one-shape (ty ∷ l ∷ after) e rest b h = elim (Bool-cases (l == 255)) [
  | inl long ↦ long_shape after b.1.1 (rw long at h)
  | inr short ↦
      let (size, bytes, left) = take_value-shape ty l after e rest b.1.1 (rw short at h) in
      (
        omega (arith, b.1.0),
        bytes,
        rw (length-append (header e.ty (length e.value)) e.value)
            (omega (arith, header_short e.ty (length e.value) (rw size (ground arith)))),
      )
]
  where
    long_shape :
        (after : Bytes)
        → All IsByte after
        → extended ty after ≡ ok (e, rest)
        → Fits e × All IsByte rest × (length (chunk_of e) + length rest ≤ suc (suc (length after)))
    long_shape [] b k = absurd (cc)
    long_shape (b2 ∷ []) b k = absurd (cc)
    long_shape (b2 ∷ b3 ∷ after) b k =
        let (size, bytes, left) = take_value-shape ty (from_be_u16 b2 b3) after e rest b.1.1 k in
        (
          omega (arith, b.0, b.1.0),
          bytes,
          rw (length-append (header e.ty (length e.value)) e.value)
              (omega (arith, header_at_most e.ty (length e.value))),
        )

abbrev Reencodes : ℕ → List TlvEntry → Bytes → Type 0
Reencodes size es bs = All Fits es × All IsByte bs × (length (chunks es) + length bs ≤ size)

chunks-concat :
    (es : List TlvEntry) (e : TlvEntry)
    → length (chunks (es ++ e ∷ [])) ≡ length (chunks es) + length (chunk_of e)
chunks-concat [] e = rw (length-append (chunk_of e) []) (omega arith)
chunks-concat (x ∷ es) e = omega (
  arith,
  length-append (chunk_of x) (chunks (es ++ e ∷ [])),
  length-append (chunk_of x) (chunks es),
  chunks-concat es e,
)

parse-Reencodes :
    (bytes : Bytes) (s : TlvSet)
    → All IsByte bytes
    → parse bytes ≡ ok s
    → Reencodes (length bytes) s.entries []
unfolding parse
parse-Reencodes bytes s b h =
    let (es, e, done) = bind-eq-ok (decode_all parse_one (length bytes) bytes []) _ h in
    let kept =
      decode_all-inv parse_one (Reencodes (length bytes))
        (λ out bs e rest inv k.
          let (fits, left, size) = parse_one-shape bs e rest inv.1 k in
          (
            All-append Fits out (e ∷ []) inv.0 (fits, tt),
            left,
            omega (arith, chunks-concat out e, inv.2),
          ))
        (length bytes) bytes [] es (tt, b, omega arith) e in
    subst (λ (t : TlvSet). Reencodes (length bytes) t.entries []) (cc) kept

-- What the parser accepts can be encoded again: the result parses to the same set, and is no longer
-- than the input, since `encode` writes the shortest header.
pub encode-parse :
    (bytes : Bytes) (s : TlvSet)
    → All IsByte bytes
    → parse bytes ≡ ok s
    → (out : Bytes) × (encode s ≡ ok out) × (parse out ≡ ok s) × (length out ≤ length bytes)
encode-parse bytes s b h =
    let kept = parse-Reencodes bytes s b h in
    (
      chunks s.entries,
      encode-ok s kept.0,
      parse-Chunks s (chunks s.entries) (chunks-Chunks s.entries kept.0),
      omega (arith, kept.2),
    )

-- The sets of two inputs, one after the other, are the set of their concatenation.
pub parse-append :
    (xs ys : Bytes) (s t : TlvSet)
    → parse xs ≡ ok s
    → parse ys ≡ ok t
    → parse (xs ++ ys) ≡ ok (record { entries = s.entries ++ t.entries })
unfolding parse
parse-append xs ys s t e d =
    let (es, l, i) = bind-eq-ok (decode_all parse_one (length xs) xs []) _ e in
    let (ds, m, j) = bind-eq-ok (decode_all parse_one (length ys) ys []) _ d in
    rw (decode_all-append parse_one parse_one-IsLocal xs ys es ds l m) (cc)

-- Every input is either parsed or refused as too short: the parser always ends, and has no other
-- error.
pub parse_total :
    (bytes : Bytes) → ((s : TlvSet) × (parse bytes ≡ ok s)) ⊎ (parse bytes ≡ err buffer_too_small)
parse_total bytes = elim (Result-cases (parse bytes) (parse-ne-stuck bytes)) [
  | inl (s, e) ↦ inl (s, e)
  | inr (x, e) ↦ inr (subst (λ y. parse bytes ≡ err y) (parse-err bytes x e) e)
]
