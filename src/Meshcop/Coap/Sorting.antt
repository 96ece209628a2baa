-- ===== src/Meshcop/Coap/Sorting.antt =====
-- The order in which `encode` takes the options.
use ot_commissioner_rs.Base.{
  false, subst, ℕ, ◌+◌, ◌≤◌, ◌≡◌, refl, ap, ◌∙◌, inl, inr, List, [], ◌∷◌, map, arith, All, retain,
  leb, ◌==◌, if◌then◌else◌, Bool-cases, leb→le,
}
use ot_commissioner_rs.Meshcop.Coap.{CoapOption, enumerate, key_le, insert, sort_by_key, sorted}

-- Option numbers do not decrease, from `last` on.
abbrev pub Ascending : ℕ → List CoapOption → Type 0
Ascending last [] = Unit
Ascending last (o ∷ os) = (last ≤ o.number) × Ascending o.number os

-- Sorting by the number alone, each option before those that it was before.
insert_number : CoapOption → List CoapOption → List CoapOption
insert_number o [] = o ∷ []
insert_number o (p ∷ ps) =
    let rest = insert_number o ps in if leb o.number p.number then o ∷ (p ∷ ps) else p ∷ rest

by_number : List CoapOption → List CoapOption
by_number [] = []
by_number (o ∷ os) = insert_number o (by_number os)

abbrev From : ℕ → List (ℕ × CoapOption) → Type 0
From i xs = All (λ x. i ≤ x.0) xs

insert-From :
    (i : ℕ) (x : ℕ × CoapOption) (ys : List (ℕ × CoapOption))
    → i ≤ x.0
    → From i ys
    → From i (insert x ys)
unfolding insert
insert-From i x [] h k = (h, tt)
insert-From i x (y ∷ ys) h k = elim (Bool-cases (key_le x y)) [
  | inl e ↦ rw e (h, k)
  | inr e ↦ rw e (k.0, insert-From i x ys h k.1)
]

From-weaken : (i : ℕ) (xs : List (ℕ × CoapOption)) → From (i + 1) xs → From i xs
From-weaken i [] h = tt
From-weaken i (x ∷ xs) h = (omega (arith, h.0), From-weaken i xs h.1)

sort_by_key-From : (i : ℕ) (os : List CoapOption) → From i (sort_by_key (enumerate i os))
unfolding sort_by_key enumerate
sort_by_key-From i [] = tt
sort_by_key-From i (o ∷ os) =
    insert-From i (i, o) (sort_by_key (enumerate (i + 1) os)) (omega arith)
      (From-weaken i _ (sort_by_key-From (i + 1) os))

insert-insert_number :
    (i : ℕ) (o : CoapOption) (ys : List (ℕ × CoapOption))
    → From i ys
    → map (λ x. x.1) (insert (i, o) ys) ≡ insert_number o (map (λ x. x.1) ys)
unfolding insert insert_number key_le
insert-insert_number i o [] h = refl
insert-insert_number i o (y ∷ ys) h = ground (arith, insert-insert_number i o ys h.1, h.0)

sort_by_key-by_number :
    (i : ℕ) (os : List CoapOption) → map (λ x. x.1) (sort_by_key (enumerate i os)) ≡ by_number os
unfolding sort_by_key enumerate by_number
sort_by_key-by_number i [] = refl
sort_by_key-by_number i (o ∷ os) =
    insert-insert_number i o (sort_by_key (enumerate (i + 1) os))
      (From-weaken i _ (sort_by_key-From (i + 1) os))
    ∙ ap (insert_number o) (sort_by_key-by_number (i + 1) os)

sorted-by_number : (os : List CoapOption) → sorted os ≡ by_number os
unfolding sorted
sorted-by_number os = sort_by_key-by_number 0 os

insert_number-Ascending :
    (last : ℕ) (o : CoapOption) (ps : List CoapOption)
    → last ≤ o.number
    → Ascending last ps
    → Ascending last (insert_number o ps)
unfolding insert_number
insert_number-Ascending last o [] h k = (h, tt)
insert_number-Ascending last o (p ∷ ps) h k = elim (Bool-cases (leb o.number p.number)) [
  | inl e ↦ rw e (h, (leb→le _ _ e, k.1))
  | inr e ↦ rw e (k.0, insert_number-Ascending p.number o ps (ground arith) k.1)
]

by_number-Ascending : (os : List CoapOption) → Ascending 0 (by_number os)
unfolding by_number
by_number-Ascending [] = tt
by_number-Ascending (o ∷ os) =
    insert_number-Ascending 0 o (by_number os) (omega arith) (by_number-Ascending os)

insert_number-retain :
    (n : ℕ) (o : CoapOption) (ps : List CoapOption)
    → retain (λ (p : CoapOption). p.number == n) (insert_number o ps)
      ≡ retain (λ (p : CoapOption). p.number == n) (o ∷ ps)
unfolding insert_number retain
insert_number-retain n o [] = refl
insert_number-retain n o (p ∷ ps) = elim (Bool-cases (leb o.number p.number)) [
  | inl e ↦ rw e refl
  | inr e ↦ rw e (elim (Bool-cases (p.number == n)) [
    | inr there ↦ rw there (insert_number-retain n o ps)
    | inl here ↦
        let other : (o.number == n) ≡ false = ground arith in
        rw (here, other) (ap (◌∷◌ p) (insert_number-retain n o ps ∙ rw other refl))
  ])
]

by_number-retain :
    (n : ℕ) (os : List CoapOption)
    → retain (λ (p : CoapOption). p.number == n) (by_number os)
      ≡ retain (λ (p : CoapOption). p.number == n) os
unfolding by_number retain
by_number-retain n [] = refl
by_number-retain n (o ∷ os) =
    insert_number-retain n o (by_number os) ∙ elim (Bool-cases (o.number == n)) [
      | inl e ↦ rw e (ap (◌∷◌ o) (by_number-retain n os))
      | inr e ↦ rw e (by_number-retain n os)
    ]

-- The options are taken in the order of their numbers, and the options of one number in the order of
-- the message, none lost and none added.
pub sorted-retain :
    (os : List CoapOption)
    → Ascending 0 (sorted os)
      × ((n : ℕ)
          → retain (λ (p : CoapOption). p.number == n) (sorted os)
            ≡ retain (λ (p : CoapOption). p.number == n) os)
sorted-retain os = rw (sorted-by_number os) (by_number-Ascending os, λ n. by_number-retain n os)

insert_number-first :
    (last : ℕ) (o : CoapOption) (os : List CoapOption)
    → Ascending o.number os
    → insert_number o os ≡ o ∷ os
unfolding insert_number
insert_number-first last o [] h = refl
insert_number-first last o (p ∷ ps) h = ground (arith, h.0)

Ascending-by_number : (last : ℕ) (os : List CoapOption) → Ascending last os → by_number os ≡ os
unfolding by_number
Ascending-by_number last [] h = refl
Ascending-by_number last (o ∷ os) h =
    rw (Ascending-by_number o.number os h.1) (insert_number-first last o os h.1)

-- Options that are in order stay as they are.
pub sorted-eq_self : (os : List CoapOption) → Ascending 0 os → sorted os ≡ os
sorted-eq_self os h = sorted-by_number os ∙ Ascending-by_number 0 os h

insert_number-All :
    (P : CoapOption → Type 0) (o : CoapOption) (ps : List CoapOption)
    → P o
    → All P ps
    → All P (insert_number o ps)
unfolding insert_number
insert_number-All P o [] h k = (h, tt)
insert_number-All P o (p ∷ ps) h k = elim (Bool-cases (leb o.number p.number)) [
  | inl e ↦ rw e (h, k)
  | inr e ↦ rw e (k.0, insert_number-All P o ps h k.1)
]

by_number-All : (P : CoapOption → Type 0) (os : List CoapOption) → All P os → All P (by_number os)
unfolding by_number
by_number-All P [] h = tt
by_number-All P (o ∷ os) h = insert_number-All P o (by_number os) h.0 (by_number-All P os h.1)

pub sorted-All : (P : CoapOption → Type 0) (os : List CoapOption) → All P os → All P (sorted os)
sorted-All P os h = rw (sorted-by_number os) (by_number-All P os h)

All-insert_number :
    (P : CoapOption → Type 0) (o : CoapOption) (ps : List CoapOption)
    → All P (insert_number o ps)
    → P o × All P ps
unfolding insert_number
All-insert_number P o [] h = h
All-insert_number P o (p ∷ ps) h = elim (Bool-cases (leb o.number p.number)) [
  | inl e ↦ rw e at h
  | inr e ↦
      let (here, later) : P p × All P (insert_number o ps) = rw e at h in
      let (a, b) = All-insert_number P o ps later in (a, (here, b))
]

All-by_number : (P : CoapOption → Type 0) (os : List CoapOption) → All P (by_number os) → All P os
unfolding by_number
All-by_number P [] h = tt
All-by_number P (o ∷ os) h =
    let (a, b) = All-insert_number P o (by_number os) h in (a, All-by_number P os b)

pub All-sorted : (P : CoapOption → Type 0) (os : List CoapOption) → All P (sorted os) → All P os
All-sorted P os h = All-by_number P os (subst (All P) (sorted-by_number os) h)
