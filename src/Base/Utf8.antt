-- ===== src/Base/Utf8.antt =====
-- `core::str::from_utf8`: which bytes are UTF-8, by the table of well-formed sequences.
use ot_commissioner_rs.Base.{
  sym, Option-cases, ◌∙◌, ap, eq_of_==, inr, inl, Bool-cases, ◌++◌, ℕ, zero, suc, ◌≤◌, ◌≡◌, refl,
  Bool, true, false, ◌&&◌, Option, none, some, List, [], ◌∷◌, ltb, leb, ◌==◌, if◌then◌else◌, Bytes,
  arith, All,
}

-- How many bytes follow a first byte, and the range of the next one.
unfoldable pub lead : ℕ → Option (ℕ × ℕ × ℕ)
lead b =
    if ltb b 0x80
    then some (0, 0x80, 0xbf)
    else if ltb b 0xc2
    then none
    else if ltb b 0xe0
    then some (1, 0x80, 0xbf)
    else if b == 0xe0
    then some (2, 0xa0, 0xbf)
    else if b == 0xed
    then some (2, 0x80, 0x9f)
    else if ltb b 0xf0
    then some (2, 0x80, 0xbf)
    else if b == 0xf0
    then some (3, 0x90, 0xbf)
    else if ltb b 0xf4
    then some (3, 0x80, 0xbf)
    else if b == 0xf4
    then some (3, 0x80, 0x8f)
    else none

unfoldable pub utf8_from : ℕ → ℕ → ℕ → Bytes → Bool
unfolding lead
utf8_from zero low high [] = true
utf8_from (suc n) low high [] = false
utf8_from zero low high (b ∷ bs) = elim (lead b) [
  | none ↦ false
  | some (n, l, h) ↦ utf8_from n l h bs
]
utf8_from (suc n) low high (b ∷ bs) = (leb low b && leb b high) && utf8_from n 0x80 0xbf bs

abbrev pub is_utf8 : Bytes → Bool
is_utf8 bytes = utf8_from 0 0x80 0xbf bytes

-- `str::split('/')` on the bytes of a string: the slash stands only for itself in UTF-8.
abbrev pub slash : ℕ
slash = 47

abbrev pub cons_first : ℕ → List Bytes → List Bytes
cons_first b [] = (b ∷ []) ∷ []
cons_first b (s ∷ ss) = (b ∷ s) ∷ ss

unfoldable pub split : Bytes → List Bytes
split [] = [] ∷ []
split (b ∷ bs) = let rest = split bs in if b == slash then [] ∷ rest else cons_first b rest

-- `[..].join("/")`
abbrev pub join : List Bytes → Bytes
join [] = []
join (s ∷ []) = s
join (s ∷ (t ∷ ts)) = s ++ (slash ∷ join (t ∷ ts))

-- The first segment and the others.
pub split-cons : (bs : Bytes) → (s : Bytes) × (ss : List Bytes) × (split bs ≡ s ∷ ss)
unfolding split
split-cons [] = ([], [], refl)
split-cons (b ∷ bs) =
    let (s, ss, e) = split-cons bs in
    elim (Bool-cases (b == slash)) [
      | inl k ↦ ([], split bs, rw k refl)
      | inr k ↦ (b ∷ s, ss, rw (k, e) refl)
    ]

join-cons : (b : ℕ) (s : Bytes) (ss : List Bytes) → join ((b ∷ s) ∷ ss) ≡ b ∷ join (s ∷ ss)
join-cons b s [] = refl
join-cons b s (t ∷ ts) = refl

-- Joining what was split gives it back.
pub join-split : (bs : Bytes) → join (split bs) ≡ bs
unfolding split
join-split [] = refl
join-split (b ∷ bs) =
    let (s, ss, e) = split-cons bs in
    let rest = join-split bs in
    elim (Bool-cases (b == slash)) [
      | inl k ↦ rw (k, e) (rw (eq_of_== b slash k) (ap (◌∷◌ slash) (rw e at rest)))
      | inr k ↦ rw (k, e) (join-cons b s ss ∙ ap (◌∷◌ b) (rw e at rest))
    ]

lead_range : (b n low high : ℕ) → lead b ≡ some (n, low, high) → 128 ≤ low
unfolding lead
lead_range b n low high e = ground arith

lead-slash : lead slash ≡ some (0, 0x80, 0xbf)
unfolding lead
lead-slash = refl

-- The first part goes on where the string did, the others are UTF-8.
abbrev pub Parts : ℕ → ℕ → ℕ → List Bytes → Type 0
Parts n low high [] = Unit
Parts n low high (s ∷ ss) = (utf8_from n low high s ≡ true) × All (λ t. is_utf8 t ≡ true) ss

Parts-All : (ss : List Bytes) → Parts 0 0x80 0xbf ss → All (λ t. is_utf8 t ≡ true) ss
Parts-All [] p = tt
Parts-All (s ∷ ss) p = p

both : (a b : Bool) → (a && b) ≡ true → (a ≡ true) × (b ≡ true)
both true b h = (refl, h)
both false b h = absurd (cc)

utf8_from-lead :
    (low high b n l h : ℕ) (bs : Bytes)
    → lead b ≡ some (n, l, h)
    → utf8_from 0 low high (b ∷ bs) ≡ utf8_from n l h bs
unfolding utf8_from
utf8_from-lead low high b n l h bs e = rw (e, utf8_from) refl

-- A slash is whole by itself.
pub after_slash :
    (low high b : ℕ) (bs : Bytes)
    → (b == slash) ≡ true
    → utf8_from 0 low high (b ∷ bs) ≡ true
    → is_utf8 bs ≡ true
after_slash low high b bs e u =
    sym (utf8_from-lead low high b 0 0x80 0xbf bs (ap lead (eq_of_== b slash e) ∙ lead-slash)) ∙ u

-- Where a string is split, each part is UTF-8.
split-Parts :
    (n low high : ℕ) (bs : Bytes)
    → 128 ≤ low
    → utf8_from n low high bs ≡ true
    → Parts n low high (split bs)
unfolding split utf8_from
split-Parts zero low high [] h u = (refl, tt)
split-Parts (suc n) low high [] h u = absurd (cc)
split-Parts zero low high (b ∷ bs) h u = elim (Option-cases (lead b)) [
  | inl none_of ↦ absurd (let k = rw (none_of, utf8_from) at u in cc)
  | inr ((n, l, k), e) ↦
      let go_on = utf8_from-lead low high b n l k in
      let rest = split-Parts n l k bs (lead_range b n l k e) (sym (go_on bs e) ∙ u) in
      let (s, ss, parts) = split-cons bs in
      elim (Bool-cases (b == slash)) [
        | inl is ↦
            let after = split-Parts 0 0x80 0xbf bs (omega arith) (after_slash low high b bs is u) in
            rw is (refl, Parts-All (split bs) after)
        | inr other ↦
            let (first, others) : (utf8_from n l k s ≡ true) × All (λ t. is_utf8 t ≡ true) ss =
              rw parts at rest in
            rw (other, parts) (go_on s e ∙ first, others)
      ]
]
split-Parts (suc n) low high (b ∷ bs) h u =
    let (here, later) = both (leb low b && leb b high) (utf8_from n 0x80 0xbf bs) u in
    let rest = split-Parts n 0x80 0xbf bs (omega arith) later in
    let (s, ss, parts) = split-cons bs in
    let (first, others) : (utf8_from n 0x80 0xbf s ≡ true) × All (λ t. is_utf8 t ≡ true) ss =
      rw parts at rest in
    let other : (b == slash) ≡ false = ground arith in
    rw (other, parts) (rw (here, first) refl, others)

pub split-is_utf8 : (bs : Bytes) → is_utf8 bs ≡ true → All (λ t. is_utf8 t ≡ true) (split bs)
split-is_utf8 bs u = Parts-All (split bs) (split-Parts 0 0x80 0xbf bs (omega arith) u)
