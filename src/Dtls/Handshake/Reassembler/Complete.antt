-- ===== src/Dtls/Handshake/Reassembler/Complete.antt =====
-- Fragments of one message in any order, with duplicates and overlaps.
use ot_commissioner_rs.Base.{
  ℕ, ◌≤◌, ◌<◌, ◌≡◌, refl, ◌∙◌, ◌⊎◌, inl, inr, ◌||◌, Bool, true, false, some, none, Option, List, [],
  ◌∷◌, arith, All, length, get_elem?, Result, ok, Bool-cases,
}
use ot_commissioner_rs.Base.Indexed.{all_true, get_elem?-all_true}
use ot_commissioner_rs.Dtls.{Error}
use ot_commissioner_rs.Dtls.Handshake.{HandshakeFragment, HandshakeMessage}
use ot_commissioner_rs.Dtls.Handshake.Reassembler.{
  HandshakeReassembler, empty, push, max_handshake_message_len,
}
use ot_commissioner_rs.Dtls.Handshake.Reassembler.Pieces.{
  IsPiece, Pushed, covers, blank, push-Pushed, push_first-Pushed,
}

abbrev Outcome : Type 0
Outcome = Result Error (Option HandshakeMessage)

-- The results of pushing the fragments one after the other, the first into an empty reassembler.
abbrev outcomes_from : HandshakeReassembler × Outcome → List HandshakeFragment → List Outcome
outcomes_from p [] = p.1 ∷ []
outcomes_from p (g ∷ gs) = p.1 ∷ outcomes_from (push p.0 g) gs

abbrev pub outcomes : HandshakeFragment → List HandshakeFragment → List Outcome
outcomes f fs = outcomes_from (push empty f) fs

abbrev last_from : HandshakeReassembler × Outcome → List HandshakeFragment → Outcome
last_from p [] = p.1
last_from p (g ∷ gs) = last_from (push p.0 g) gs

abbrev pub last_outcome : HandshakeFragment → List HandshakeFragment → Outcome
last_outcome f fs = last_from (push empty f) fs

-- Some fragment of the list has the position.
abbrev pub covered : List HandshakeFragment → ℕ → Bool
covered [] i = false
covered (f ∷ fs) i = covers f i || covered fs i

Pushed-outcome :
    (m : HandshakeMessage) (f : HandshakeFragment) (r : HandshakeReassembler)
    (p : HandshakeReassembler × Outcome)
    → Pushed m f r p
    → (p.1 ≡ ok none) ⊎ (p.1 ≡ ok (some m))
Pushed-outcome m f r p d = elim (Bool-cases (all_true p.0.filled)) [
  | inl full ↦ inr (d.answer ∙ rw full refl)
  | inr more ↦ inl (d.answer ∙ rw more refl)
]

-- A position that was marked, or that `f` or a later fragment has, is marked now or still to come.
Pushed-marks :
    (m : HandshakeMessage) (f : HandshakeFragment) (r : HandshakeReassembler)
    (p : HandshakeReassembler × Outcome) (i : ℕ) (later : Bool)
    → Pushed m f r p
    → i < length m.payload
    → (get_elem? r.filled i ≡ some true) ⊎ ((covers f i || later) ≡ true)
    → (get_elem? p.0.filled i ≡ some true) ⊎ (later ≡ true)
Pushed-marks m f r p i later d h c = elim (Bool-cases (covers f i)) [
  | inl here ↦ inl (d.marks i h ∙ rw here refl)
  | inr there ↦ elim c [ inl old ↦ inl (d.marks i h ∙ rw there old) | inr l ↦ inr (rw there at l) ]
]

outcomes_from-Pushed :
    (m : HandshakeMessage) (f : HandshakeFragment) (r : HandshakeReassembler)
    (p : HandshakeReassembler × Outcome) (fs : List HandshakeFragment)
    → Pushed m f r p
    → All (IsPiece m) fs
    → All (λ o. (o ≡ ok none) ⊎ (o ≡ ok (some m))) (outcomes_from p fs)
outcomes_from-Pushed m f r p [] d h = (Pushed-outcome m f r p d, tt)
outcomes_from-Pushed m f r p (g ∷ gs) d h = (
  Pushed-outcome m f r p d,
  outcomes_from-Pushed m g p.0 (push p.0 g) gs (push-Pushed m p.0 g d.holds h.0) h.1,
)

last_from_complete :
    (m : HandshakeMessage) (f : HandshakeFragment) (r : HandshakeReassembler)
    (p : HandshakeReassembler × Outcome) (fs : List HandshakeFragment)
    → Pushed m f r p
    → All (IsPiece m) fs
    → ((i : ℕ)
        → i < length m.payload
        → (get_elem? r.filled i ≡ some true) ⊎ (covered (f ∷ fs) i ≡ true))
    → last_from p fs ≡ ok (some m)
last_from_complete m f r p [] d h c = d.answer ∙ rw full refl
  where
    marked : (i : ℕ) → i < length p.0.filled → get_elem? p.0.filled i ≡ some true
    marked i k =
        let inside : i < length m.payload = omega (arith, d.holds.agrees.filled_len) in
        elim (Pushed-marks m f r p i false d inside (c i inside)) [
          | inl e ↦ e
          | inr e ↦ absurd (cc)
        ]

    full : all_true p.0.filled ≡ true
    full = get_elem?-all_true p.0.filled marked
last_from_complete m f r p (g ∷ gs) d h c =
    last_from_complete m g p.0 (push p.0 g) gs (push-Pushed m p.0 g d.holds h.0) h.1
      (λ i k. Pushed-marks m f r p i (covered (g ∷ gs) i) d k (c i k))

-- Fragments cut from one message of at most 64 KiB are never refused, in whatever order they come
-- and however they overlap, and no other message ever comes out.
pub outcomes-safe :
    (m : HandshakeMessage) (f : HandshakeFragment) (fs : List HandshakeFragment)
    → length m.payload ≤ max_handshake_message_len
    → All (IsPiece m) (f ∷ fs)
    → All (λ o. (o ≡ ok none) ⊎ (o ≡ ok (some m))) (outcomes f fs)
outcomes-safe m f fs h pieces =
    outcomes_from-Pushed m f (blank m) (push empty f) fs (push_first-Pushed m f h pieces.0) pieces.1

-- Once the fragments have every position of the message, the last push returns it.
pub last_outcome_complete :
    (m : HandshakeMessage) (f : HandshakeFragment) (fs : List HandshakeFragment)
    → length m.payload ≤ max_handshake_message_len
    → All (IsPiece m) (f ∷ fs)
    → ((i : ℕ) → i < length m.payload → covered (f ∷ fs) i ≡ true)
    → last_outcome f fs ≡ ok (some m)
last_outcome_complete m f fs h pieces all_there =
    last_from_complete m f (blank m) (push empty f) fs (push_first-Pushed m f h pieces.0) pieces.1
      (λ i k. inr (all_there i k))
