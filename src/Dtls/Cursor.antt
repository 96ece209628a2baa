-- ===== src/Dtls/Cursor.antt =====
-- The `Cursor` of crates/thread-dtls/src/hello.rs. A cursor is the bytes from its offset on; an offset
-- that stays within a slice fits a usize, so `checked_add` does not fail.
use ot_commissioner_rs.Base.{
  subst, to_be-from_be_u16, All-append_parts, IsByte, All, ltb→le, length-take, take-append-drop,
  sym, from_be-to_be_u16, drop-append_eq, inr, ap, take-append_eq, bind-ne-stuck, ◌∙◌, inl, ◌^◌,
  as_u8, to_be_u16, length-append, refl, stuck, bind-eq-ok, Bool-cases, ◌<◌, IsU16, le→ltb,
  from_be_u16, ℕ, ◌≡◌, ◌≢◌, [], ◌∷◌, ◌++◌, arith, ltb, ◌==◌, if◌then◌else◌, length, take, drop,
  get_or, Bytes, Result, ok, err, ◌>>=◌,
}
use ot_commissioner_rs.Dtls.{Error, crypto}

unfoldable pub read_exact : ℕ → Bytes → Result Error (Bytes × Bytes)
read_exact len bytes =
    if ltb (length bytes) len
    then err (crypto "DTLS structure is truncated")
    else ok (take len bytes, drop len bytes)

unfoldable pub read_u8 : Bytes → Result Error (ℕ × Bytes)
unfolding read_exact
read_u8 bytes = do (read, rest) ← read_exact 1 bytes; ok (get_or read 0 0, rest)

unfoldable pub read_u16 : Bytes → Result Error (ℕ × Bytes)
unfolding read_exact
read_u16 bytes = do
  (read, rest) ← read_exact 2 bytes
  ok (from_be_u16 (get_or read 0 0) (get_or read 1 0), rest)

-- `read_array_32`
unfoldable pub read_array_32 : Bytes → Result Error (Bytes × Bytes)
unfolding read_exact
read_array_32 bytes = read_exact 32 bytes

unfoldable pub read_vec_u8 : Bytes → Result Error (Bytes × Bytes)
unfolding read_u8 read_exact
read_vec_u8 bytes = do (len, rest) ← read_u8 bytes; read_exact len rest

unfoldable pub read_vec_u16 : Bytes → Result Error (Bytes × Bytes)
unfolding read_u16 read_exact
read_vec_u16 bytes = do (len, rest) ← read_u16 bytes; read_exact len rest

unfoldable pub finish : Bytes → Result Error (Unit {0})
finish bytes =
    if length bytes == 0 then ok tt else err (crypto "trailing bytes after DTLS structure")

-- What a reader takes from the front of a slice, whatever follows.
pub read_exact-append :
    (n : ℕ) (v rest : Bytes) → length v ≡ n → read_exact n (v ++ rest) ≡ ok (v, rest)
unfolding read_exact
read_exact-append n v rest e =
    rw
      (
        le→ltb (length (v ++ rest)) n (omega (arith, length-append v rest)),
        take-append_eq n v rest e,
        drop-append_eq n v rest e,
      )
      refl

pub read_u8-cons : (b : ℕ) (rest : Bytes) → read_u8 (b ∷ rest) ≡ ok (b, rest)
unfolding read_u8
read_u8-cons b rest = rw (read_exact-append 1 (b ∷ []) rest refl) refl

pub read_u16-to_be_u16 :
    (v : ℕ) (rest : Bytes) → IsU16 v → read_u16 (to_be_u16 v ++ rest) ≡ ok (v, rest)
unfolding read_u16
read_u16-to_be_u16 v rest h =
    rw (read_exact-append 2 (to_be_u16 v) rest refl)
      (ap (λ w. ok (w, rest)) (from_be-to_be_u16 v h))

pub read_vec_u8-append :
    (v rest : Bytes) → length v < 256 → read_vec_u8 (as_u8 (length v) ∷ (v ++ rest)) ≡ ok (v, rest)
unfolding read_vec_u8
read_vec_u8-append v rest h =
    let size : as_u8 (length v) ≡ length v = omega arith in
    rw (size, read_u8-cons (length v) (v ++ rest)) (read_exact-append (length v) v rest refl)

pub read_vec_u16-append :
    (v rest : Bytes)
    → length v < 2 ^ 16
    → read_vec_u16 (to_be_u16 (length v) ++ (v ++ rest)) ≡ ok (v, rest)
unfolding read_vec_u16
read_vec_u16-append v rest h =
    rw (read_u16-to_be_u16 (length v) (v ++ rest) h) (read_exact-append (length v) v rest refl)

-- What a reader that succeeds has taken.
pub read_exact-takes :
    (n : ℕ) (bytes v rest : Bytes)
    → read_exact n bytes ≡ ok (v, rest)
    → (bytes ≡ v ++ rest) × (length v ≡ n)
unfolding read_exact
read_exact-takes n bytes v rest e = elim (Bool-cases (ltb (length bytes) n)) [
  | inl short ↦ absurd (cc (rw short at e))
  | inr room ↦
      let done = rw room at e in
      let front : v ≡ take n bytes = cc in
      let back : rest ≡ drop n bytes = cc in
      (
        rw (front, back) (sym (take-append-drop n bytes)),
        rw front (omega (arith, length-take n bytes, ltb→le _ _ room)),
      )
]

pub read_u8-takes :
    (bytes : Bytes) (b : ℕ) (rest : Bytes) → read_u8 bytes ≡ ok (b, rest) → bytes ≡ b ∷ rest
unfolding read_u8
read_u8-takes bytes b rest e =
    let ((v, left), k, done) = bind-eq-ok (read_exact 1 bytes) _ e in
    one v left (read_exact-takes 1 bytes v left k) done
  where
    one :
        (v left : Bytes)
        → (bytes ≡ v ++ left) × (length v ≡ 1)
        → ◌≡◌ {A = Result Error (ℕ × Bytes)} (ok (get_or v 0 0, left)) (ok (b, rest))
        → bytes ≡ b ∷ rest
    one [] left (split, size) d = absurd (omega arith)
    one (x ∷ []) left (split, size) d = cc
    one (x ∷ y ∷ v) left (split, size) d = absurd (omega arith)

pub read_u16-takes :
    (bytes : Bytes) (v : ℕ) (rest : Bytes)
    → read_u16 bytes ≡ ok (v, rest)
    → (b0 : ℕ) × (b1 : ℕ) × (bytes ≡ b0 ∷ b1 ∷ rest) × (v ≡ from_be_u16 b0 b1)
unfolding read_u16
read_u16-takes bytes v rest e =
    let ((w, left), k, done) = bind-eq-ok (read_exact 2 bytes) _ e in
    two w left (read_exact-takes 2 bytes w left k) done
  where
    two :
        (w left : Bytes)
        → (bytes ≡ w ++ left) × (length w ≡ 2)
        → ◌≡◌ {A = Result Error (ℕ × Bytes)}
            (ok (from_be_u16 (get_or w 0 0) (get_or w 1 0), left))
            (ok (v, rest))
        → (b0 : ℕ) × (b1 : ℕ) × (bytes ≡ b0 ∷ b1 ∷ rest) × (v ≡ from_be_u16 b0 b1)
    two [] left (split, size) d = absurd (omega arith)
    two (x ∷ []) left (split, size) d = absurd (omega arith)
    two (x ∷ y ∷ []) left (split, size) d = (x, y, cc, cc)
    two (x ∷ y ∷ z ∷ w) left (split, size) d = absurd (omega arith)

pub read_vec_u8-takes :
    (bytes v rest : Bytes) → read_vec_u8 bytes ≡ ok (v, rest) → bytes ≡ length v ∷ (v ++ rest)
unfolding read_vec_u8
read_vec_u8-takes bytes v rest e =
    let ((len, left), k, later) = bind-eq-ok (read_u8 bytes) _ e in
    let (split, size) = read_exact-takes len left v rest later in
    read_u8-takes bytes len left k ∙ rw (split, size) refl

pub read_vec_u16-takes :
    (bytes v rest : Bytes)
    → read_vec_u16 bytes ≡ ok (v, rest)
    → (b0 : ℕ) × (b1 : ℕ) × (bytes ≡ b0 ∷ b1 ∷ (v ++ rest)) × (length v ≡ from_be_u16 b0 b1)
unfolding read_vec_u16
read_vec_u16-takes bytes v rest e =
    let ((len, left), k, later) = bind-eq-ok (read_u16 bytes) _ e in
    let (b0, b1, first, word) = read_u16-takes bytes len left k in
    let (split, size) = read_exact-takes len left v rest later in
    (b0, b1, first ∙ rw split refl, size ∙ word)

pub finish-takes : (bytes : Bytes) → finish bytes ≡ ok tt → bytes ≡ []
unfolding finish
finish-takes [] e = refl
finish-takes (b ∷ bs) e = ground arith

-- Over bytes, what was read is written as the bytes that it was read from.
pub record Writes (front rest bytes : Bytes) : Type 0 where
  pub split : bytes ≡ front ++ rest
  pub here : All IsByte front
  pub later : All IsByte rest

writes :
    (front rest bytes : Bytes) → All IsByte bytes → bytes ≡ front ++ rest → Writes front rest bytes
writes front rest bytes all e =
    let (here, later) = All-append_parts IsByte front rest (subst (All IsByte) e all) in
    record { split = e; here = here; later = later }

pub read_exact-Writes :
    (n : ℕ) (bytes v rest : Bytes)
    → All IsByte bytes
    → read_exact n bytes ≡ ok (v, rest)
    → Writes v rest bytes × (length v ≡ n)
read_exact-Writes n bytes v rest all e =
    let (split, size) = read_exact-takes n bytes v rest e in (writes v rest bytes all split, size)

pub read_u8-Writes :
    (bytes : Bytes) (b : ℕ) (rest : Bytes)
    → All IsByte bytes
    → read_u8 bytes ≡ ok (b, rest)
    → Writes (b ∷ []) rest bytes
read_u8-Writes bytes b rest all e = writes (b ∷ []) rest bytes all (read_u8-takes bytes b rest e)

to_be_u16-bytes : (v a b : ℕ) → IsByte a → IsByte b → v ≡ from_be_u16 a b → to_be_u16 v ≡ a ∷ b ∷ []
to_be_u16-bytes v a b h k e = ap to_be_u16 e ∙ to_be-from_be_u16 a b h k

pub read_u16-Writes :
    (bytes : Bytes) (v : ℕ) (rest : Bytes)
    → All IsByte bytes
    → read_u16 bytes ≡ ok (v, rest)
    → Writes (to_be_u16 v) rest bytes × IsU16 v
read_u16-Writes bytes v rest all e =
    let (b0, b1, split, word) = read_u16-takes bytes v rest e in
    let (h0, (h1, more)) = subst (All IsByte) split all in
    let same = to_be_u16-bytes v b0 b1 h0 h1 word in
    (writes (to_be_u16 v) rest bytes all (split ∙ ap (λ w. w ++ rest) (sym same)), omega arith)

pub read_vec_u8-Writes :
    (bytes v rest : Bytes)
    → All IsByte bytes
    → read_vec_u8 bytes ≡ ok (v, rest)
    → Writes (as_u8 (length v) ∷ v) rest bytes × (length v < 256)
read_vec_u8-Writes bytes v rest all e =
    let split = read_vec_u8-takes bytes v rest e in
    let (small, more) = subst (All IsByte) split all in
    let same : length v ≡ as_u8 (length v) = omega arith in
    (
      writes (as_u8 (length v) ∷ v) rest bytes all (split ∙ ap (λ (n : ℕ). n ∷ (v ++ rest)) same),
      small,
    )

pub read_vec_u16-Writes :
    (bytes v rest : Bytes)
    → All IsByte bytes
    → read_vec_u16 bytes ≡ ok (v, rest)
    → Writes (to_be_u16 (length v) ++ v) rest bytes × (length v < 2 ^ 16) × All IsByte v
read_vec_u16-Writes bytes v rest all e =
    let (b0, b1, split, size) = read_vec_u16-takes bytes v rest e in
    let (h0, (h1, more)) = subst (All IsByte) split all in
    let same = to_be_u16-bytes (length v) b0 b1 h0 h1 size in
    (
      writes (to_be_u16 (length v) ++ v) rest bytes all
          (split ∙ ap (λ w. w ++ (v ++ rest)) (sym same)),
      omega arith,
      (All-append_parts IsByte v rest more).0,
    )

-- No reader is a loop.
pub read_exact-ne-stuck : (n : ℕ) (bytes : Bytes) → read_exact n bytes ≢ stuck
unfolding read_exact
read_exact-ne-stuck n bytes = ground arith

pub read_u16-ne-stuck : (bytes : Bytes) → read_u16 bytes ≢ stuck
unfolding read_u16
read_u16-ne-stuck bytes =
    bind-ne-stuck (read_exact 2 bytes) _ (read_exact-ne-stuck 2 bytes) (λ r p. cc)

pub read_vec_u16-ne-stuck : (bytes : Bytes) → read_vec_u16 bytes ≢ stuck
unfolding read_vec_u16
read_vec_u16-ne-stuck bytes =
    bind-ne-stuck (read_u16 bytes) _ (read_u16-ne-stuck bytes) (λ r. read_exact-ne-stuck r.0 r.1)
