-- ===== src/Dtls/Hello/Extensions.antt =====
-- The extensions of a hello message against their bytes.
use mathlib.Core.Path.{ap₂}
use ot_commissioner_rs.Base.{
  inr, inl, All-append_parts, ◌⊎◌, subst, append_right_injective, IsByte, append_assoc, ap, refl,
  sym, ◌∙◌, arith, le→ltb, ltb, append-nil, ◌^◌, ◌++◌, [], bind-eq-ok, fail_if-eq-ok, ◌<◌, ◌∷◌,
  from_be_u16, ok, All, IsU16, length, to_be_u16, ℕ, ◌≡◌, List, Bytes,
}
use ot_commissioner_rs.Base.Loop.{
  decode_all-inverse, decode_all, Reads, Chunks, IsLocal, decode_all-Chunks,
}
use ot_commissioner_rs.Dtls.Cursor.{
  read_vec_u16-Writes, read_u16-Writes, read_u16-takes, read_vec_u16-takes, read_u16-to_be_u16,
  read_vec_u16-append, read_exact-append, read_u16, read_vec_u16,
}
use ot_commissioner_rs.Dtls.Hello.{
  TlsExtension, encode_extensions, append_extensions, read_extension, read_extensions,
}

abbrev pub extension_bytes : TlsExtension → Bytes
extension_bytes e = to_be_u16 e.extension_type ++ (to_be_u16 (length e.body) ++ e.body)

abbrev pub extensions_bytes : List TlsExtension → Bytes
extensions_bytes [] = []
extensions_bytes (e ∷ es) = extension_bytes e ++ extensions_bytes es

-- A body that the length of an extension can tell.
abbrev pub HasLength : TlsExtension → Type 0
HasLength e = length e.body < 2 ^ 16

abbrev pub HasType : TlsExtension → Type 0
HasType e = IsU16 e.extension_type

-- The block of extensions: its length, and the extensions.
abbrev pub block : List TlsExtension → Bytes
block es = to_be_u16 (length (extensions_bytes es)) ++ extensions_bytes es

-- Extensions that can be written.
pub record CanWrite (es : List TlsExtension) : Type 0 where
  pub each : All HasLength es
  pub total : length (extensions_bytes es) < 2 ^ 16

encode_extensions-ok :
    (es : List TlsExtension) (encoded : Bytes)
    → All HasLength es
    → encode_extensions es encoded ≡ ok (encoded ++ extensions_bytes es)
unfolding encode_extensions
encode_extensions-ok [] encoded h = rw (append-nil encoded) refl
encode_extensions-ok (e ∷ es) encoded h = rw (le→ltb 65535 (length e.body) (omega arith)) (
    encode_extensions-ok es _ h.1
    ∙ ap ok (
        rw
          (
            append_assoc (encoded ++ to_be_u16 e.extension_type) (to_be_u16 (length e.body)) e.body,
            append_assoc encoded (to_be_u16 e.extension_type) (to_be_u16 (length e.body) ++ e.body),
            append_assoc encoded (extension_bytes e) (extensions_bytes es),
          )
          refl))

encode_extensions-HasLength :
    (es : List TlsExtension) (encoded bytes : Bytes)
    → encode_extensions es encoded ≡ ok bytes
    → All HasLength es
unfolding encode_extensions
encode_extensions-HasLength [] encoded bytes e = tt
encode_extensions-HasLength (x ∷ es) encoded bytes e =
    let (short, later) = fail_if-eq-ok (ltb 65535 (length x.body)) _ _ e in
    (ground arith, encode_extensions-HasLength es _ bytes later)

pub append_extensions-ok :
    (out : Bytes) (es : List TlsExtension)
    → CanWrite es
    → append_extensions out es ≡ ok (out ++ block es)
unfolding append_extensions
append_extensions-ok out es c =
    rw
      (
        encode_extensions-ok es [] c.each,
        le→ltb 65535 (length (extensions_bytes es)) (omega (arith, c.total)),
      )
      (ap ok (append_assoc out (to_be_u16 (length (extensions_bytes es))) (extensions_bytes es)))

pub append_extensions-CanWrite :
    (out : Bytes) (es : List TlsExtension) (bytes : Bytes)
    → append_extensions out es ≡ ok bytes
    → CanWrite es
unfolding append_extensions
append_extensions-CanWrite out es bytes e =
    let (encoded, k, later) = bind-eq-ok (encode_extensions es []) _ e in
    let each = encode_extensions-HasLength es [] encoded k in
    let same : encoded ≡ extensions_bytes es = cc (encode_extensions-ok es [] each) in
    let (short, done) = fail_if-eq-ok (ltb 65535 (length encoded)) _ _ later in
    record { each = each; total = rw (sym same) (ground arith) }

extension_bytes-Reads :
    (e : TlsExtension) → HasType e → HasLength e → Reads read_extension e (extension_bytes e)
unfolding read_extension
extension_bytes-Reads e t h = record {
  reads = λ rest.
      rw
        (
          read_u16-to_be_u16 e.extension_type ((to_be_u16 (length e.body) ++ e.body) ++ rest) t,
          read_vec_u16-append e.body rest h,
        )
        refl;
  occupied = omega arith;
}

extensions_bytes-Chunks :
    (es : List TlsExtension)
    → All HasType es
    → All HasLength es
    → Chunks read_extension es (extensions_bytes es)
extensions_bytes-Chunks [] t h = refl
extensions_bytes-Chunks (e ∷ es) t h = (
  extension_bytes e,
  extensions_bytes es,
  refl,
  extension_bytes-Reads e t.0 h.0,
  extensions_bytes-Chunks es t.1 h.1,
)

-- The block is read back, whatever follows.
pub read_extensions-block :
    (es : List TlsExtension) (rest : Bytes)
    → All HasType es
    → CanWrite es
    → read_extensions (block es ++ rest) ≡ ok (es, rest)
unfolding read_extensions
read_extensions-block es rest t c =
    rw
      (
        read_vec_u16-append (extensions_bytes es) rest c.total,
        decode_all-Chunks read_extension es (extensions_bytes es) (length (extensions_bytes es)) []
            (extensions_bytes-Chunks es t c.each) (omega arith),
      )
      refl

-- What one extension is read from.
read_extension-takes :
    (bytes : Bytes) (e : TlsExtension) (rest : Bytes)
    → read_extension bytes ≡ ok (e, rest)
    → (b0 : ℕ) × (b1 : ℕ) × (c0 : ℕ) × (c1 : ℕ) × (bytes ≡ b0 ∷ b1 ∷ c0 ∷ c1 ∷ (e.body ++ rest))
      × (e.extension_type ≡ from_be_u16 b0 b1)
      × (length e.body ≡ from_be_u16 c0 c1)
unfolding read_extension
read_extension-takes bytes e rest k =
    let ((ty, left), first, later) = bind-eq-ok (read_u16 bytes) _ k in
    let ((body, left'), second, done) = bind-eq-ok (read_vec_u16 left) _ later in
    let (b0, b1, split, word) = read_u16-takes bytes ty left first in
    let (c0, c1, split', size) = read_vec_u16-takes left body left' second in
    let ty' : e.extension_type ≡ ty = cc in
    let body' : e.body ≡ body = cc in
    let rest' : rest ≡ left' = cc in (b0, b1, c0, c1, cc, cc, ap length body' ∙ size)

read_extension-Reads :
    (b0 b1 c0 c1 : ℕ) (e : TlsExtension)
    → e.extension_type ≡ from_be_u16 b0 b1
    → length e.body ≡ from_be_u16 c0 c1
    → Reads read_extension e (b0 ∷ b1 ∷ c0 ∷ c1 ∷ e.body)
unfolding read_extension read_u16 read_vec_u16
read_extension-Reads b0 b1 c0 c1 e t h = record {
  reads = λ rest.
      rw
        (
          read_exact-append 2 (b0 ∷ b1 ∷ []) (c0 ∷ c1 ∷ (e.body ++ rest)) refl,
          read_exact-append 2 (c0 ∷ c1 ∷ []) (e.body ++ rest) refl,
          read_exact-append (from_be_u16 c0 c1) e.body rest h,
          sym t,
        )
        refl;
  occupied = omega arith;
}

read_extension-IsLocal : IsLocal read_extension
read_extension-IsLocal bytes e rest k =
    let (b0, b1, c0, c1, split, t, h) = read_extension-takes bytes e rest k in
    (b0 ∷ b1 ∷ c0 ∷ c1 ∷ e.body, split, read_extension-Reads b0 b1 c0 c1 e t h)

-- Over bytes, an extension that was read is written as the bytes that it was read from.
extension_bytes-takes :
    (chunk rest : Bytes) (e : TlsExtension)
    → All IsByte (chunk ++ rest)
    → read_extension (chunk ++ rest) ≡ ok (e, rest)
    → HasType e × HasLength e × (extension_bytes e ≡ chunk)
unfolding read_extension
extension_bytes-takes chunk rest e all k =
    let ((ty, left), first, later) = bind-eq-ok (read_u16 (chunk ++ rest)) _ k in
    let ((body, left'), second, done) = bind-eq-ok (read_vec_u16 left) _ later in
    let (w, t) = read_u16-Writes (chunk ++ rest) ty left all first in
    let (w', h, inner) = read_vec_u16-Writes left body left' w.later second in
    let read : e ≡ record { extension_type = ty; body = body } = cc in
    let split : chunk ++ rest ≡ to_be_u16 ty ++ ((to_be_u16 (length body) ++ body) ++ rest) =
      w.split ∙ ap (λ l. to_be_u16 ty ++ l) (w'.split ∙ cc) in
    subst (λ (x : TlsExtension). HasType x × HasLength x × (extension_bytes x ≡ chunk)) (sym read)
      (t, h, sym (append_right_injective chunk _ rest split))

Chunks-extensions_bytes :
    (es : List TlsExtension) (bytes : Bytes)
    → All IsByte bytes
    → Chunks read_extension es bytes
    → All HasType es × All HasLength es × (extensions_bytes es ≡ bytes)
Chunks-extensions_bytes [] bytes all e = (tt, tt, sym e)
Chunks-extensions_bytes (x ∷ es) bytes all (chunk, rest, e, r, c) =
    let parts : All IsByte (chunk ++ rest) = subst (All IsByte) e all in
    let back = (All-append_parts IsByte chunk rest parts).1 in
    let (t, h, same) = extension_bytes-takes chunk rest x parts (r.reads rest) in
    let (ts, hs, more) = Chunks-extensions_bytes es rest back c in
    ((t, ts), (h, hs), ap₂ ◌++◌ same more ∙ sym e)

-- A block that was read is the block that is written, unless it is absent.
pub read_extensions-takes :
    (bytes rest : Bytes) (es : List TlsExtension)
    → All IsByte bytes
    → read_extensions bytes ≡ ok (es, rest)
    → All HasType es
      × CanWrite es
      × (((bytes ≡ []) × (es ≡ []) × (rest ≡ [])) ⊎ (bytes ≡ block es ++ rest))
unfolding read_extensions
read_extensions-takes [] rest es all e =
    let none_read : es ≡ [] = cc in
    (
      rw none_read tt,
      rw none_read (record { each = tt; total = omega arith }),
      inl (refl, none_read, cc),
    )
read_extensions-takes (b ∷ bs) rest es all e =
    let ((body, left), k, later) = bind-eq-ok (read_vec_u16 (b ∷ bs)) _ e in
    let (read, loop, done) = bind-eq-ok (decode_all read_extension (length body) body []) _ later in
    let (w, size, inner) = read_vec_u16-Writes (b ∷ bs) body left all k in
    let (items, i, c) =
      decode_all-inverse read_extension read_extension-IsLocal (length body) body [] read loop in
    let (ts, hs, same) = Chunks-extensions_bytes items body inner c in
    let left' : rest ≡ left = cc in
    subst
      (λ (x : List TlsExtension).
        All HasType x
        × CanWrite x
        × (((b ∷ bs ≡ []) × (x ≡ []) × (rest ≡ [])) ⊎ (b ∷ bs ≡ block x ++ rest)))
      (sym (cc))
      (
        ts,
        record { each = hs; total = omega (arith, ap length same) },
        inr (w.split ∙ ap₂ (λ x y. (to_be_u16 (length x) ++ x) ++ y) (sym same) (sym left')),
      )
