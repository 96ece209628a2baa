-- ===== src/Tlv/Values.antt =====
-- The lookups and updates of `TlvSet`.
use mathlib.Core.List.{append-nil, reverse-append}
use ot_commissioner_rs.Base.{
  retain-eq_self, ==_refl, All-map, retain-eq-nil, retain-append, ℕ, ◌≡◌, refl, ap, ◌∙◌, inl, inr,
  false, not, List, [], ◌∷◌, ◌++◌, reverse, some, arith, ◌==◌, if◌then◌else◌, Bool-cases, retain,
  find, find-retain, reverse-retain, All-retain_self, Bytes,
}
use ot_commissioner_rs.Tlv.{TlvEntry, TlvSet, last_value, set_last, push}
use mathlib.Core.Option

-- The newest entry comes first in the search.
last_value-push :
    (ty : ℕ) (e : TlvEntry) (s : TlvSet)
    → last_value ty (push e s) ≡ (if e.ty == ty then some e.value else last_value ty s)
unfolding last_value push find
last_value-push ty e s = rw (reverse-append s.entries (e ∷ [])) (ground arith)

last_value-retain :
    (ty other : ℕ) (es : List TlvEntry)
    → (ty == other) ≡ false
    → last_value other (record { entries = retain (λ e. not (e.ty == ty)) es })
      ≡ last_value other (record { entries = es })
unfolding last_value
last_value-retain ty other es h = rw (reverse-retain (λ (e : TlvEntry). not (e.ty == ty)) es) (
    ap (Option.map (λ (e : TlvEntry). e.value))
      (find-retain (λ e. e.ty == other) (λ e. not (e.ty == ty)) (λ e k. ground arith) (reverse es)))

-- After `set_last` the value looked up is the one set, and every other type's value is as before.
pub last_value-set_last :
    (ty other : ℕ) (value : Bytes) (s : TlvSet)
    → last_value other (set_last ty value s)
      ≡ (if ty == other then some value else last_value other s)
unfolding set_last push
last_value-set_last ty other value s =
    let rest : TlvSet = record { entries = retain (λ e. not (e.ty == ty)) s.entries } in
    last_value-push other (record { ty = ty; value = value }) rest
    ∙ elim (Bool-cases (ty == other)) [
      | inl e ↦ rw e refl
      | inr e ↦ rw e (last_value-retain ty other s.entries e)
    ]

-- After `set_last` the set holds one entry of the type, with the value set, and the entries of other
-- types as they were, in their order.
pub set_last-entries :
    (ty : ℕ) (value : Bytes) (s : TlvSet)
    → (retain (λ (e : TlvEntry). e.ty == ty) (set_last ty value s).entries
        ≡ record { ty = ty; value = value } ∷ [])
      × (retain (λ (e : TlvEntry). not (e.ty == ty)) (set_last ty value s).entries
          ≡ retain (λ e. not (e.ty == ty)) s.entries)
unfolding set_last
set_last-entries ty value s =
    let one : List TlvEntry = record { ty = ty; value = value } ∷ [] in
    let others = All-retain_self (λ (e : TlvEntry). not (e.ty == ty)) s.entries in
    (
      retain-append (λ (e : TlvEntry). e.ty == ty) kept one
          ∙ rw
              (retain-eq-nil (λ (e : TlvEntry). e.ty == ty) kept
                (All-map _ _ (λ e k. ground arith) kept others))
              (unfold retain in rw (==_refl ty) refl),
      retain-append (λ (e : TlvEntry). not (e.ty == ty)) kept one
          ∙ rw (retain-eq_self (λ (e : TlvEntry). not (e.ty == ty)) kept others)
              (ap (λ r. kept ++ r) (unfold retain in rw (==_refl ty) refl) ∙ append-nil kept),
    )
  where
    kept : List TlvEntry
    kept = retain (λ e. not (e.ty == ty)) s.entries
