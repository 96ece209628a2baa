-- ===== src/Commissioner/Joiners/Table.antt =====
-- The table of enabled joiners.
use ot_commissioner_rs.Base.{
  append-nil, ◌≡◌, refl, sym, ap, ◌∙◌, true, false, not, none, some, List, [], ◌∷◌, ◌++◌, retain,
  find, find-retain, if◌then◌else◌, Bytes, Bool-cases, inl, inr, arith, ==_refl,
}
use ot_commissioner_rs.Commissioner.Joiners.{
  StaticJoinerHandler, enable_joiner_id, disable_joiner_id, joiner_pskd, pskd_or,
}
use ot_commissioner_rs.Meshcop.Parsers.{same_string}

same_string_refl : (s : Bytes) → same_string s s ≡ true
unfolding same_string
same_string_refl [] = refl
same_string_refl (b ∷ bs) = rw (==_refl b) (same_string_refl bs)

same_string_sound : (s t : Bytes) → same_string s t ≡ true → s ≡ t
unfolding same_string
same_string_sound [] [] h = refl
same_string_sound [] (b ∷ bs) h = absurd (cc)
same_string_sound (a ∷ as') [] h = absurd (cc)
same_string_sound (a ∷ as') (b ∷ bs) h = ground (arith, same_string_sound as' bs)

-- Entries under another identifier do not hide those that are looked for.
same_string-other :
    (id other : Bytes)
    → same_string id other ≡ false
    → (e : Bytes × Bytes) → same_string e.0 other ≡ true
    → not (same_string e.0 id) ≡ true
same_string-other id other h e k = elim (Bool-cases (same_string e.0 id)) [
  | inr n ↦ rw n refl
  | inl y ↦
      absurd (cc (same_string_sound e.0 other k, same_string_sound e.0 id y, same_string_refl id))
]

-- The entries kept are under another identifier.
find-others :
    (id : Bytes) (es more : List (Bytes × Bytes))
    → find (λ e. same_string e.0 id) (retain (λ e. not (same_string e.0 id)) es ++ more)
      ≡ find (λ e. same_string e.0 id) more
unfolding find retain
find-others id [] more = refl
find-others id (e ∷ es) more = elim (Bool-cases (same_string e.0 id)) [
  | inl y ↦ rw y (find-others id es more)
  | inr n ↦ rw (n, n) (find-others id es more)
]

find-append_missing :
    (id : Bytes) (es : List (Bytes × Bytes)) (e : Bytes × Bytes)
    → same_string e.0 id ≡ false
    → find (λ f. same_string f.0 id) (es ++ e ∷ []) ≡ find (λ f. same_string f.0 id) es
unfolding find
find-append_missing id [] e h = rw h refl
find-append_missing id (f ∷ fs) e h = elim (Bool-cases (same_string f.0 id)) [
  | inl y ↦ rw y refl
  | inr n ↦ rw n (find-append_missing id fs e h)
]

find-others_nil :
    (id : Bytes) (es : List (Bytes × Bytes))
    → find (λ e. same_string e.0 id) (retain (λ e. not (same_string e.0 id)) es) ≡ none
unfolding find
find-others_nil id es =
    ap (find (λ e. same_string e.0 id))
      (sym (append-nil (retain (λ e. not (same_string e.0 id)) es)))
    ∙ find-others id es []

find-others_self :
    (id pskd : Bytes) (es : List (Bytes × Bytes))
    → find (λ e. same_string e.0 id) (retain (λ e. not (same_string e.0 id)) es ++ (id, pskd) ∷ [])
      ≡ some (id, pskd)
unfolding find
find-others_self id pskd es = find-others id es ((id, pskd) ∷ []) ∙ rw (same_string_refl id) refl

-- A joiner that was enabled has the credential it was enabled with, one that was disabled only the
-- wildcard's, and neither changes another joiner's.
pub joiner_pskd-enable_joiner_id :
    (id other pskd : Bytes) (h : StaticJoinerHandler)
    → (joiner_pskd other (enable_joiner_id id pskd h)
        ≡ (if same_string id other then some pskd else joiner_pskd other h))
      × (joiner_pskd other (disable_joiner_id id h)
          ≡ (if same_string id other then h.wildcard_pskd else joiner_pskd other h))
unfolding joiner_pskd enable_joiner_id disable_joiner_id pskd_or
joiner_pskd-enable_joiner_id id other pskd h = elim (Bool-cases (same_string id other)) [
  | inl y ↦
      rw (y, sym (same_string_sound id other y))
        (
          ap (λ f. pskd_or f h.wildcard_pskd) (find-others_self id pskd h.by_joiner_id),
          ap (λ f. pskd_or f h.wildcard_pskd) (find-others_nil id h.by_joiner_id),
        )
  | inr n ↦
      let kept =
        find-retain (λ e. same_string e.0 other) (λ e. not (same_string e.0 id))
          (same_string-other id other n) h.by_joiner_id in
      rw n (
        ap (λ f. pskd_or f h.wildcard_pskd)
            (find-append_missing other (retain (λ e. not (same_string e.0 id)) h.by_joiner_id)
                (id, pskd) n
              ∙ kept),
        ap (λ f. pskd_or f h.wildcard_pskd) kept,
      )
]
