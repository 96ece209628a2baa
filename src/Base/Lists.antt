-- ===== src/Base/Lists.antt =====
-- Lists measured and indexed by native numbers, under the library's names.
use Prim.Native.Nat.{◌≤◌, ℕ, zero, suc, ◌+◌, ◌-◌, min}
use mathlib.Core.Bool.{◌&&◌, false, Bool, true}
use mathlib.Core.List.{List, [], ◌∷◌, ◌++◌, reverse, reverse-cons, append-nil}
use mathlib.Core.Logic.{inl, inr}
use mathlib.Core.Option.{Option, none, some}
use mathlib.Core.Path.{◌≡◌, refl, ap, sym, ◌∙◌, subst}
use native.Mathlib.Omega.{arith}
use ot_commissioner_rs.Base.Tests.{◌==◌, if◌then◌else◌, Bool-cases}

module _ {ℓ} {A : Type ℓ} where
  abbrev pub length : List A → ℕ
  length [] = 0
  length (x ∷ xs) = suc (length xs)

  abbrev pub take : ℕ → List A → List A
  take zero xs = []
  take (suc n) [] = []
  take (suc n) (x ∷ xs) = x ∷ take n xs

  abbrev pub drop : ℕ → List A → List A
  drop zero xs = xs
  drop (suc n) [] = []
  drop (suc n) (x ∷ xs) = drop n xs

  abbrev pub replicate : ℕ → A → List A
  replicate zero a = []
  replicate (suc n) a = a ∷ replicate n a

  abbrev pub get_elem? : List A → ℕ → Option A
  get_elem? [] i = none
  get_elem? (x ∷ xs) zero = some x
  get_elem? (x ∷ xs) (suc i) = get_elem? xs i

  -- A write out of bounds changes nothing.
  abbrev pub set : List A → ℕ → A → List A
  set [] i v = []
  set (x ∷ xs) zero v = v ∷ xs
  set (x ∷ xs) (suc i) v = x ∷ set xs i v

  abbrev pub get_or : List A → ℕ → A → A
  get_or [] i d = d
  get_or (x ∷ xs) zero d = x
  get_or (x ∷ xs) (suc i) d = get_or xs i d

  -- The entries that pass a test, in order: Rust's `retain`.
  unfoldable pub retain : (A → Bool) → List A → List A
  retain p [] = []
  retain p (x ∷ xs) = let rest = retain p xs in if p x then x ∷ rest else rest

  -- The first entry that passes a test: Rust's `Iterator::find`.
  unfoldable pub find : (A → Bool) → List A → Option A
  find p [] = none
  find p (x ∷ xs) = if p x then some x else find p xs

  abbrev pub All {κ} : (A → Type κ) → List A → Type κ
  All P [] = Unit
  All P (x ∷ xs) = P x × All P xs

  pub length-append : (xs ys : List A) → length (xs ++ ys) ≡ length xs + length ys
  length-append [] ys = omega arith
  length-append (x ∷ xs) ys = omega (arith, length-append xs ys)

  pub length-take : (n : ℕ) (xs : List A) → length (take n xs) ≡ min n (length xs)
  length-take zero xs = omega arith
  length-take (suc n) [] = omega arith
  length-take (suc n) (x ∷ xs) = omega (arith, length-take n xs)

  pub length-drop : (n : ℕ) (xs : List A) → length (drop n xs) ≡ length xs - n
  length-drop zero xs = omega arith
  length-drop (suc n) [] = omega arith
  length-drop (suc n) (x ∷ xs) = omega (arith, length-drop n xs)

  pub length-replicate : (n : ℕ) (a : A) → length (replicate n a) ≡ n
  length-replicate zero a = refl
  length-replicate (suc n) a = ap suc (length-replicate n a)

  pub take-append-drop : (n : ℕ) (xs : List A) → take n xs ++ drop n xs ≡ xs
  take-append-drop zero xs = refl
  take-append-drop (suc n) [] = refl
  take-append-drop (suc n) (x ∷ xs) = ap (◌∷◌ x) (take-append-drop n xs)

  -- A prefix is taken back from the front of a concatenation.
  pub take-length-append : (xs ys : List A) → take (length xs) (xs ++ ys) ≡ xs
  take-length-append [] ys = refl
  take-length-append (x ∷ xs) ys = ap (◌∷◌ x) (take-length-append xs ys)

  -- What stands behind a long enough front does not matter.
  pub take-append_le : (n : ℕ) (xs ys : List A) → n ≤ length xs → take n (xs ++ ys) ≡ take n xs
  take-append_le zero xs ys h = refl
  take-append_le (suc n) [] ys h = absurd (omega arith)
  take-append_le (suc n) (x ∷ xs) ys h = ap (◌∷◌ x) (take-append_le n xs ys (omega arith))

  pub drop-length-append : (xs ys : List A) → drop (length xs) (xs ++ ys) ≡ ys
  drop-length-append [] ys = refl
  drop-length-append (x ∷ xs) ys = drop-length-append xs ys

module _ {ℓ} {A : Type ℓ} where
  pub drop-nil : (n : ℕ) → drop {A = A} n [] ≡ []
  drop-nil zero = refl
  drop-nil (suc n) = refl

  -- The length of a prefix given as an equation.
  pub take-append_eq : (n : ℕ) (xs ys : List A) → length xs ≡ n → take n (xs ++ ys) ≡ xs
  take-append_eq n xs ys e = subst (λ k. take k (xs ++ ys) ≡ xs) e (take-length-append xs ys)

  pub drop-append_eq : (n : ℕ) (xs ys : List A) → length xs ≡ n → drop n (xs ++ ys) ≡ ys
  drop-append_eq n xs ys e = subst (λ k. drop k (xs ++ ys) ≡ ys) e (drop-length-append xs ys)

module _ {ℓ} {A : Type ℓ} where
  pub append_left_injective : (xs ys zs : List A) → xs ++ ys ≡ xs ++ zs → ys ≡ zs
  append_left_injective xs ys zs e =
      sym (drop-length-append xs ys) ∙ ap (drop (length xs)) e ∙ drop-length-append xs zs

module _ {ℓ} {A : Type ℓ} where
  -- A suffix is taken off both sides.
  pub append_right_injective : (xs ys zs : List A) → xs ++ zs ≡ ys ++ zs → xs ≡ ys
  append_right_injective xs ys zs e =
      sym (front xs) ∙ ap (λ l. take (length l - length zs) l) e ∙ front ys
    where
      front : (l : List A) → take (length (l ++ zs) - length zs) (l ++ zs) ≡ l
      front l = rw (length-append l zs) (take-append_eq _ l zs (omega arith))

module _ {ℓ κ} {A : Type ℓ} where
  pub All-append : (P : A → Type κ) (xs ys : List A) → All P xs → All P ys → All P (xs ++ ys)
  All-append P [] ys h k = k
  All-append P (x ∷ xs) ys h k = (h.0, All-append P xs ys h.1 k)

  pub All-append_parts : (P : A → Type κ) (xs ys : List A) → All P (xs ++ ys) → All P xs × All P ys
  All-append_parts P [] ys h = (tt, h)
  All-append_parts P (x ∷ xs) ys h =
      let (front, back) = All-append_parts P xs ys h.1 in ((h.0, front), back)

  pub All-take : (P : A → Type κ) (n : ℕ) (xs : List A) → All P xs → All P (take n xs)
  All-take P zero xs h = tt
  All-take P (suc n) [] h = tt
  All-take P (suc n) (x ∷ xs) h = (h.0, All-take P n xs h.1)

  pub All-drop : (P : A → Type κ) (n : ℕ) (xs : List A) → All P xs → All P (drop n xs)
  All-drop P zero xs h = h
  All-drop P (suc n) [] h = tt
  All-drop P (suc n) (x ∷ xs) h = All-drop P n xs h.1

module _ {ℓ} {A : Type ℓ} where
  pub retain-append :
      (q : A → Bool) (xs ys : List A) → retain q (xs ++ ys) ≡ retain q xs ++ retain q ys
  unfolding retain
  retain-append q [] ys = refl
  retain-append q (x ∷ xs) ys = elim (Bool-cases (q x)) [
    | inl e ↦ rw (e, retain-append q xs ys) refl
    | inr e ↦ rw (e, retain-append q xs ys) refl
  ]

  pub reverse-retain : (q : A → Bool) (xs : List A) → reverse (retain q xs) ≡ retain q (reverse xs)
  unfolding retain
  reverse-retain q [] = refl
  reverse-retain q (x ∷ xs) =
      both (reverse-retain q xs)
      ∙ sym (ap (retain q) (reverse-cons x xs) ∙ retain-append q (reverse xs) (x ∷ []))
    where
      both :
          reverse (retain q xs) ≡ retain q (reverse xs)
          → reverse (retain q (x ∷ xs)) ≡ retain q (reverse xs) ++ retain q (x ∷ [])
      both ih = elim (Bool-cases (q x)) [
        | inl e ↦ rw e (reverse-cons x (retain q xs) ∙ ap (λ l. l ++ x ∷ []) ih)
        | inr e ↦ rw e (ih ∙ sym (append-nil _))
      ]

  -- Dropping entries that the test would not find changes nothing for it.
  pub find-retain :
      (p q : A → Bool)
      → ((x : A) → p x ≡ true → q x ≡ true)
      → (xs : List A) → find p (retain q xs) ≡ find p xs
  unfolding find retain
  find-retain p q h [] = refl
  find-retain p q h (x ∷ xs) = elim (Bool-cases (p x)) [
    | inl e ↦ rw (h x e, e) refl
    | inr e ↦ ground (arith, find-retain p q h xs)
  ]

  pub All-retain {κ} :
      (P : A → Type κ) (q : A → Bool) (xs : List A) → All P xs → All P (retain q xs)
  unfolding retain
  All-retain P q [] h = tt
  All-retain P q (x ∷ xs) h = elim (Bool-cases (q x)) [
    | inl e ↦ rw e (h.0, All-retain P q xs h.1)
    | inr e ↦ rw e (All-retain P q xs h.1)
  ]

  pub All-retain_self : (q : A → Bool) (xs : List A) → All (λ x. q x ≡ true) (retain q xs)
  unfolding retain
  All-retain_self q [] = tt
  All-retain_self q (x ∷ xs) = elim (Bool-cases (q x)) [
    | inl e ↦ rw e (e, All-retain_self q xs)
    | inr e ↦ rw e (All-retain_self q xs)
  ]

  pub retain-eq_self : (q : A → Bool) (xs : List A) → All (λ x. q x ≡ true) xs → retain q xs ≡ xs
  unfolding retain
  retain-eq_self q [] h = refl
  retain-eq_self q (x ∷ xs) h = rw h.0 (ap (◌∷◌ x) (retain-eq_self q xs h.1))

  pub retain-eq-nil : (q : A → Bool) (xs : List A) → All (λ x. q x ≡ false) xs → retain q xs ≡ []
  unfolding retain
  retain-eq-nil q [] h = refl
  retain-eq-nil q (x ∷ xs) h = rw h.0 (retain-eq-nil q xs h.1)

  pub All-map {κ υ} :
      (P : A → Type κ) (Q : A → Type υ)
      → ((x : A) → P x → Q x)
      → (xs : List A) → All P xs
      → All Q xs
  All-map P Q f [] h = tt
  All-map P Q f (x ∷ xs) h = (f x h.0, All-map P Q f xs h.1)

  pub drop_add : (m n : ℕ) (xs : List A) → drop (m + n) xs ≡ drop n (drop m xs)
  drop_add zero n xs = ap (λ k. drop k xs) (omega arith)
  drop_add (suc m) zero [] = drop-nil (suc m + 0)
  drop_add (suc m) (suc n) [] = drop-nil (suc m + suc n)
  drop_add (suc m) n (x ∷ xs) = ap (λ k. drop k (x ∷ xs)) (suc_plus m n) ∙ drop_add m n xs
    where
      suc_plus : (m n : ℕ) → suc m + n ≡ suc (m + n)
      suc_plus m n = omega arith

-- Equality of two slices.
abbrev pub same_bytes : List ℕ → List ℕ → Bool
same_bytes [] [] = true
same_bytes [] (y ∷ ys) = false
same_bytes (x ∷ xs) [] = false
same_bytes (x ∷ xs) (y ∷ ys) = x == y && same_bytes xs ys

pub same_bytes_refl : (xs : List ℕ) → same_bytes xs xs ≡ true
same_bytes_refl [] = refl
same_bytes_refl (x ∷ xs) = rw (same_bytes_refl xs) (ground arith)

pub same_bytes-eq : (xs ys : List ℕ) → same_bytes xs ys ≡ true → xs ≡ ys
same_bytes-eq [] [] h = refl
same_bytes-eq [] (y ∷ ys) h = absurd (cc)
same_bytes-eq (x ∷ xs) [] h = absurd (cc)
same_bytes-eq (x ∷ xs) (y ∷ ys) h = ground (arith, same_bytes-eq xs ys)
