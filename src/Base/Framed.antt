-- ===== src/Base/Framed.antt =====
-- A header of fixed size that gives the size of the payload behind it: the form of a DTLS record and
-- of a handshake fragment.
use ot_commissioner_rs.Base.{
  refl, length-drop, length-take, inr, take-append_eq, take-append-drop, inl, drop-append_eq,
  Bool-cases, drop_add, ℕ, ◌+◌, ◌≤◌, ◌<◌, ◌≡◌, sym, ◌++◌, arith, ltb, le→ltb, ltb→le, length, take,
  drop, length-append, Bytes, Result, ok, ◌>>=◌, ◌>>◌, fail_if, bind-eq-ok, append_assoc,
}
use ot_commissioner_rs.Base.Loop.{Reads, IsLocal}

module _ {E H : Type 0} (parse_head : Bytes → Result E H) (n : ℕ) where
  -- The header is settled by the first `n` bytes.
  abbrev pub HeadIsLocal : Type 0
  HeadIsLocal =
      (bytes : Bytes) (h : H)
      → parse_head bytes ≡ ok h
      → (n ≤ length bytes) × ((more : Bytes) → parse_head (take n bytes ++ more) ≡ ok h)

module _ {E H A : Type 0} (parse_head : Bytes → Result E H) (size : H → ℕ) (n : ℕ) (short : E)
    (make : H → Bytes → A) where
  unfoldable pub framed : Bytes → Result E (A × Bytes)
  framed bytes = do
    h ← parse_head bytes
    fail_if (ltb (length bytes) (n + size h)) short
    ok (make h (take (size h) (drop n bytes)), drop (n + size h) bytes)

  framed-append :
      (head payload rest : Bytes) (h : H)
      → length head ≡ n
      → length payload ≡ size h
      → parse_head (head ++ (payload ++ rest)) ≡ ok h
      → framed (head ++ (payload ++ rest)) ≡ ok (make h payload, rest)
  unfolding framed
  framed-append head payload rest h hn hs e =
      rw
        (
          e,
          le→ltb (length (head ++ (payload ++ rest))) (n + size h)
              (omega (arith, length-append head (payload ++ rest), length-append payload rest)),
          drop_add n (size h) (head ++ (payload ++ rest)),
          drop-append_eq n head (payload ++ rest) hn,
          take-append_eq (size h) payload rest hs,
          drop-append_eq (size h) payload rest hs,
        )
        refl

  pub framed-Reads :
      (head payload : Bytes) (h : H)
      → 0 < n
      → length head ≡ n
      → length payload ≡ size h
      → ((more : Bytes) → parse_head (head ++ more) ≡ ok h)
      → Reads framed (make h payload) (head ++ payload)
  framed-Reads head payload h pos hn hs heads = record {
    reads = λ rest.
        rw (append_assoc head payload rest)
          (framed-append head payload rest h hn hs (heads (payload ++ rest)));
    occupied = omega (arith, length-append head payload);
  }

  pub framed-takes :
      (bytes : Bytes) (a : A) (rest : Bytes)
      → framed bytes ≡ ok (a, rest)
      → (h : H) × (parse_head bytes ≡ ok h)
        × (n + size h ≤ length bytes)
        × (a ≡ make h (take (size h) (drop n bytes)))
        × (rest ≡ drop (n + size h) bytes)
  unfolding framed
  framed-takes bytes a rest e =
      let (h, k, later) = bind-eq-ok (parse_head bytes) _ e in
      elim (Bool-cases (ltb (length bytes) (n + size h))) [
        | inl small ↦ absurd (cc (rw small at later))
        | inr room ↦ let done = rw room at later in (h, k, ltb→le _ _ room, cc, cc)
      ]

  pub framed-IsLocal : 0 < n → HeadIsLocal parse_head n → IsLocal framed
  framed-IsLocal pos loc bytes a rest e =
      let (h, k, room, made, left) = framed-takes bytes a rest e in
      let (enough, heads) = loc bytes h k in
      (
        take n bytes ++ take (size h) (drop n bytes),
        sym (
            rw
              (
                left,
                drop_add n (size h) bytes,
                append_assoc (take n bytes),
                take-append-drop (size h) (drop n bytes),
                take-append-drop n bytes,
              )
              refl),
        rw made (
            framed-Reads (take n bytes) (take (size h) (drop n bytes)) h pos
              (omega (arith, length-take n bytes))
              (omega (arith, length-take (size h) (drop n bytes), length-drop n bytes)) heads),
      )
