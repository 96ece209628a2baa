-- ===== src/Base/Loop.antt =====
-- The loop `while !bytes.is_empty() { let (item, rest) = step(bytes)?; out.push(item); bytes = rest }`
-- that every decoder of a sequence is written as, over any step, with the laws that follow from a
-- step that consumes what it reads and reads back what an encoder wrote.
use ot_commissioner_rs.Base.{
  bind-eq-err, err, sym, subst, ℕ, zero, suc, ◌+◌, ◌≤◌, ◌<◌, ◌≡◌, ◌≢◌, refl, ap, ◌∙◌, inl, inr,
  List, [], ◌∷◌, ◌++◌, append-nil, append_assoc, arith, length, length-append, Result, ok, stuck,
  ◌>>=◌, bind-eq-ok, Result-cases, Bytes,
}

module _ {E A : Type 0} (step : Bytes → Result E (A × Bytes)) where
  unfoldable pub decode_all : ℕ → Bytes → List A → Result E (List A)
  decode_all fuel [] out = ok out
  decode_all zero (b ∷ bs) out = stuck
  decode_all (suc fuel) (b ∷ bs) out = step (b ∷ bs) >>= λ r. decode_all fuel r.1 (out ++ r.0 ∷ [])

  -- A step takes at least one byte.
  abbrev pub Consumes : Type 0
  Consumes = (bs : Bytes) (a : A) (rest : Bytes) → step bs ≡ ok (a, rest) → length rest < length bs

  -- Whatever follows it, `chunk` is read as `a` and no byte more.
  pub record Reads (a : A) (chunk : Bytes) : Type 0 where
    pub reads : (rest : Bytes) → step (chunk ++ rest) ≡ ok (a, rest)
    pub occupied : 0 < length chunk

  -- `bytes` is a chunk for each of the items, one after the other.
  abbrev pub Chunks : List A → Bytes → Type 0
  Chunks [] bytes = bytes ≡ []
  Chunks (a ∷ as') bytes =
      (chunk : Bytes) × (rest : Bytes) × (bytes ≡ chunk ++ rest) × Reads a chunk × Chunks as' rest

  -- A step reads its item from a chunk at the front, which it would read so before any other rest.
  abbrev pub IsLocal : Type 0
  IsLocal =
      (bs : Bytes) (a : A) (rest : Bytes)
      → step bs ≡ ok (a, rest)
      → (chunk : Bytes) × (bs ≡ chunk ++ rest) × Reads a chunk

  pub IsLocal-Consumes : IsLocal → Consumes
  IsLocal-Consumes loc bs a rest e =
      let (chunk, split, r) = loc bs a rest e in
      omega (arith, ap length split, length-append chunk rest, r.occupied)

  decode_all_step :
      (fuel : ℕ) (bs : Bytes) (out : List A) (a : A) (rest : Bytes)
      → 0 < length bs
      → step bs ≡ ok (a, rest)
      → decode_all (suc fuel) bs out ≡ decode_all fuel rest (out ++ a ∷ [])
  unfolding decode_all
  decode_all_step fuel [] out a rest h e = absurd (omega arith)
  decode_all_step fuel (b ∷ bs) out a rest h e = rw e

  -- With fuel for the bytes at hand the loop ends.
  pub decode_all-ne-stuck :
      ((bs : Bytes) → step bs ≢ stuck)
      → Consumes
      → (fuel : ℕ) (bs : Bytes) (out : List A) → length bs ≤ fuel
      → decode_all fuel bs out ≢ stuck
  unfolding decode_all
  decode_all-ne-stuck total eats fuel [] out h = λ e. cc
  decode_all-ne-stuck total eats zero (b ∷ bs) out h = absurd (omega arith)
  decode_all-ne-stuck total eats (suc fuel) (b ∷ bs) out h =
      elim (Result-cases (step (b ∷ bs)) (total (b ∷ bs))) [
        | inl ((a, rest), e) ↦ rw e (
            decode_all-ne-stuck total eats fuel rest (out ++ a ∷ [])
              (omega (arith, eats (b ∷ bs) a rest e)))
        | inr (x, e) ↦ rw e (λ p. cc)
      ]

  -- Chunks are read back as the items that they stand for.
  pub decode_all-Chunks :
      (items : List A) (bytes : Bytes) (fuel : ℕ) (out : List A)
      → Chunks items bytes
      → length bytes ≤ fuel
      → decode_all fuel bytes out ≡ ok (out ++ items)
  decode_all-Chunks [] bytes fuel out e h = rw (e, append-nil out) (unfold decode_all in refl)
  decode_all-Chunks (a ∷ items) bytes zero out (chunk, rest, e, r, c) h =
      absurd (omega (arith, r.occupied, ap length e, length-append chunk rest))
  decode_all-Chunks (a ∷ items) bytes (suc fuel) out (chunk, rest, e, r, c) h =
      let size : length bytes ≡ length chunk + length rest =
        ap length e ∙ length-append chunk rest in
      decode_all_step fuel bytes out a rest (omega (arith, r.occupied)) (rw e (r.reads rest))
      ∙ decode_all-Chunks items rest fuel (out ++ a ∷ []) c (omega (arith, r.occupied))
      ∙ ap ok (append_assoc out (a ∷ []) items)

  -- And what the loop reads is chunks.
  pub decode_all-inverse :
      IsLocal
      → (fuel : ℕ) (bytes : Bytes) (out result : List A) → decode_all fuel bytes out ≡ ok result
      → (items : List A) × (result ≡ out ++ items) × Chunks items bytes
  unfolding decode_all
  decode_all-inverse loc fuel [] out result e = ([], rw append-nil (cc), refl)
  decode_all-inverse loc zero (b ∷ bs) out result e = cc
  decode_all-inverse loc (suc fuel) (b ∷ bs) out result e =
      let ((a, rest), s, later) = bind-eq-ok (step (b ∷ bs)) _ e in
      let (chunk, split, r) = loc (b ∷ bs) a rest s in
      let (items, i, c) = decode_all-inverse loc fuel rest (out ++ a ∷ []) result later in
      (a ∷ items, i ∙ append_assoc out (a ∷ []) items, (chunk, rest, split, r, c))

  pub Chunks-append :
      (xs ys : List A) (bytes more : Bytes)
      → Chunks xs bytes
      → Chunks ys more
      → Chunks (xs ++ ys) (bytes ++ more)
  Chunks-append [] ys bytes more e d = subst (λ b. Chunks ys (b ++ more)) (sym e) d
  Chunks-append (x ∷ xs) ys bytes more (chunk, rest, e, r, c) d = (
    chunk,
    rest ++ more,
    ap (λ b. b ++ more) e ∙ append_assoc chunk rest more,
    r,
    Chunks-append xs ys rest more c d,
  )

  -- What two inputs hold is what their concatenation holds.
  pub decode_all-append :
      IsLocal
      → (bytes more : Bytes) (xs ys : List A) → decode_all (length bytes) bytes [] ≡ ok xs
      → decode_all (length more) more [] ≡ ok ys
      → decode_all (length (bytes ++ more)) (bytes ++ more) [] ≡ ok (xs ++ ys)
  decode_all-append loc bytes more xs ys e d =
      let (items, i, c) = decode_all-inverse loc (length bytes) bytes [] xs e in
      let (others, j, k) = decode_all-inverse loc (length more) more [] ys d in
      rw (i, j)
        (decode_all-Chunks (items ++ others) (bytes ++ more) _ []
          (Chunks-append items others bytes more c k) (omega arith))

  -- What holds of the items read and the bytes left, and survives a step, holds at the end.
  pub decode_all-inv {κ} :
      (Inv : List A → Bytes → Type κ)
      → ((out : List A) (bs : Bytes) (a : A) (rest : Bytes)
          → Inv out bs
          → step bs ≡ ok (a, rest)
          → Inv (out ++ a ∷ []) rest)
      → (fuel : ℕ) (bytes : Bytes) (out result : List A) → Inv out bytes
      → decode_all fuel bytes out ≡ ok result
      → Inv result []
  unfolding decode_all
  decode_all-inv Inv keep fuel [] out result h e = subst (λ r. Inv r []) (cc) h
  decode_all-inv Inv keep zero (b ∷ bs) out result h e = absurd (cc)
  decode_all-inv Inv keep (suc fuel) (b ∷ bs) out result h e =
      let ((a, rest), s, later) = bind-eq-ok (step (b ∷ bs)) _ e in
      decode_all-inv Inv keep fuel rest (out ++ a ∷ []) result (keep out (b ∷ bs) a rest h s) later

  -- An error of the loop is an error of one of its steps.
  pub decode_all-err {κ} :
      (P : E → Type κ)
      → ((bs : Bytes) (x : E) → step bs ≡ err x → P x)
      → (fuel : ℕ) (bytes : Bytes) (out : List A) (x : E) → decode_all fuel bytes out ≡ err x
      → P x
  unfolding decode_all
  decode_all-err P fails fuel [] out x e = absurd (cc)
  decode_all-err P fails zero (b ∷ bs) out x e = absurd (cc)
  decode_all-err P fails (suc fuel) (b ∷ bs) out x e = elim (bind-eq-err (step (b ∷ bs)) _ e) [
    | inl s ↦ fails (b ∷ bs) x s
    | inr ((a, rest), s, later) ↦ decode_all-err P fails fuel rest (out ++ a ∷ []) x later
  ]
