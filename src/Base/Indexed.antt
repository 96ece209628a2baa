-- ===== src/Base/Indexed.antt =====
-- Lists read and written by index.
use ot_commissioner_rs.Base.{
  ℕ, zero, suc, ◌+◌, ◌<◌, ◌≤◌, ◌≡◌, ◌≢◌, refl, ap, sym, ◌∙◌, List, [], ◌∷◌, some, none, Bool, true,
  false, ◌&&◌, arith, length, get_elem?, get_or, set, replicate, drop, take,
}

module _ {ℓ} {A : Type ℓ} where
  pub length-set : (xs : List A) (i : ℕ) (v : A) → length (set xs i v) ≡ length xs
  length-set [] i v = refl
  length-set (x ∷ xs) zero v = refl
  length-set (x ∷ xs) (suc i) v = ap suc (length-set xs i v)

  pub get_elem?-set_self :
      (xs : List A) (i : ℕ) (v : A) → i < length xs → get_elem? (set xs i v) i ≡ some v
  get_elem?-set_self [] i v h = elim h [ ]
  get_elem?-set_self (x ∷ xs) zero v h = refl
  get_elem?-set_self (x ∷ xs) (suc i) v h = get_elem?-set_self xs i v (omega arith)

  pub get_elem?-set_ne :
      (xs : List A) (i j : ℕ) (v : A) → i ≢ j → get_elem? (set xs i v) j ≡ get_elem? xs j
  get_elem?-set_ne [] i j v h = refl
  get_elem?-set_ne (x ∷ xs) zero zero v h = absurd (h refl)
  get_elem?-set_ne (x ∷ xs) zero (suc j) v h = refl
  get_elem?-set_ne (x ∷ xs) (suc i) zero v h = refl
  get_elem?-set_ne (x ∷ xs) (suc i) (suc j) v h = get_elem?-set_ne xs i j v (λ e. h (ap suc e))

  pub get_elem?-get_or :
      (xs : List A) (i : ℕ) (d : A) → i < length xs → get_elem? xs i ≡ some (get_or xs i d)
  get_elem?-get_or [] i d h = elim h [ ]
  get_elem?-get_or (x ∷ xs) zero d h = refl
  get_elem?-get_or (x ∷ xs) (suc i) d h = get_elem?-get_or xs i d (omega arith)

  pub get_elem?-beyond : (xs : List A) (i : ℕ) → length xs ≤ i → get_elem? xs i ≡ none
  get_elem?-beyond [] i h = refl
  get_elem?-beyond (x ∷ xs) zero h = absurd (omega arith)
  get_elem?-beyond (x ∷ xs) (suc i) h = get_elem?-beyond xs i (omega arith)

  -- Lists are equal when they are equal at each index.
  pub get_elem?_ext : (xs ys : List A) → ((i : ℕ) → get_elem? xs i ≡ get_elem? ys i) → xs ≡ ys
  get_elem?_ext [] [] h = refl
  get_elem?_ext [] (y ∷ ys) h = absurd (cc (h 0))
  get_elem?_ext (x ∷ xs) [] h = absurd (cc (h 0))
  get_elem?_ext (x ∷ xs) (y ∷ ys) h = cc (get_elem?_ext xs ys (λ i. h (suc i)), h 0)

  pub get_elem?-drop : (n i : ℕ) (xs : List A) → get_elem? (drop n xs) i ≡ get_elem? xs (n + i)
  get_elem?-drop zero i xs = ap (get_elem? xs) (omega arith)
  get_elem?-drop (suc n) i [] = refl
  get_elem?-drop (suc n) i (x ∷ xs) =
      let next : suc n + i ≡ suc (n + i) = omega arith in
      get_elem?-drop n i xs ∙ sym (ap (get_elem? (x ∷ xs)) next)

  pub get_elem?-take : (n i : ℕ) (xs : List A) → i < n → get_elem? (take n xs) i ≡ get_elem? xs i
  get_elem?-take zero i xs h = absurd (omega arith)
  get_elem?-take (suc n) i [] h = refl
  get_elem?-take (suc n) zero (x ∷ xs) h = refl
  get_elem?-take (suc n) (suc i) (x ∷ xs) h = get_elem?-take n i xs (omega arith)

-- `iter().all(|filled| *filled)`
unfoldable pub all_true : List Bool → Bool
all_true [] = true
all_true (b ∷ bs) = b && all_true bs

pub all_true-get_elem? :
    (bs : List Bool) (i : ℕ) → all_true bs ≡ true → i < length bs → get_elem? bs i ≡ some true
unfolding all_true
all_true-get_elem? [] i h k = elim k [ ]
all_true-get_elem? (true ∷ bs) zero h k = refl
all_true-get_elem? (true ∷ bs) (suc i) h k = all_true-get_elem? bs i h (omega arith)
all_true-get_elem? (false ∷ bs) i h k = absurd (cc)

pub get_elem?-all_true :
    (bs : List Bool) → ((i : ℕ) → i < length bs → get_elem? bs i ≡ some true) → all_true bs ≡ true
unfolding all_true
get_elem?-all_true [] h = refl
get_elem?-all_true (true ∷ bs) h = get_elem?-all_true bs (λ i k. h (suc i) (omega arith))
get_elem?-all_true (false ∷ bs) h = absurd (cc (h 0 (omega arith)))

pub get_elem?-replicate_ne : (n i : ℕ) → get_elem? (replicate n false) i ≢ some true
get_elem?-replicate_ne zero i e = cc
get_elem?-replicate_ne (suc n) zero e = cc
get_elem?-replicate_ne (suc n) (suc i) e = get_elem?-replicate_ne n i e
