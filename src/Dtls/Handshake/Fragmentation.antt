-- ===== src/Dtls/Handshake/Fragmentation.antt =====
-- `HandshakeMessage::fragment` against the reassembler.
use ot_commissioner_rs.Base.{
  ok, false, fail_if-eq-ok, ◌==◌, subst, lt→ltb, ◌||◌, List, le→leb, ltb→lt, Bool, ltb→le, inr, inl,
  ltb, Bool-cases, refl, length-drop, ◌<◌, All, sym, length-take, ◌∙◌, arith, ◌*◌, drop-nil, ap, ℕ,
  zero, suc, ◌+◌, ◌≤◌, ◌≡◌, some, [], ◌∷◌, length, take, drop, get_elem?, Bytes, true,
}
use ot_commissioner_rs.Dtls.Handshake.{
  max_u24, or_empty, fragment, chunks, fragment_loop, fragment_at, HandshakeFragment,
  HandshakeMessage,
}
use ot_commissioner_rs.Dtls.Handshake.Reassembler.{max_handshake_message_len}
use ot_commissioner_rs.Dtls.Handshake.Reassembler.Complete.{
  last_outcome, last_outcome_complete, covered,
}
use ot_commissioner_rs.Dtls.Handshake.Reassembler.Pieces.{IsPiece}
use ot_commissioner_rs.Dtls.Handshake.Reassembler.Writes.{within, Slice}

drop_step :
    (payload : Bytes) (position : ℕ) (b : ℕ) (bs : Bytes)
    → drop position payload ≡ b ∷ bs
    → (get_elem? payload position ≡ some b) × (drop (suc position) payload ≡ bs)
drop_step [] zero b bs e = absurd (cc)
drop_step [] (suc p) b bs e = absurd (cc)
drop_step (x ∷ xs) zero b bs e = (cc, cc)
drop_step (x ∷ xs) (suc p) b bs e = drop_step xs p b bs e

take-Slice :
    (payload : Bytes) (n position : ℕ) (rest : Bytes)
    → drop position payload ≡ rest
    → Slice payload position (take n rest)
take-Slice payload zero position rest e = tt
take-Slice payload (suc n) position [] e = tt
take-Slice payload (suc n) position (b ∷ bs) e =
    let (here, later) = drop_step payload position b bs e in
    (
      here,
      take-Slice payload n (position + 1) bs
          (ap (λ k. drop k payload) {y = suc position} (omega arith) ∙ later),
    )

-- A fragment of the message that is no longer than the limit.
pub record IsCut (m : HandshakeMessage) (n : ℕ) (f : HandshakeFragment) : Type 0 where
  pub piece : IsPiece m f
  pub header_len : f.header.fragment_length ≡ length f.fragment
  pub short : length f.fragment ≤ n

fragment_at-IsCut :
    (m : HandshakeMessage) (n offset : ℕ) (b : ℕ) (bs : Bytes)
    → drop offset m.payload ≡ b ∷ bs
    → IsCut m n (fragment_at m offset (take n (b ∷ bs)))
unfolding fragment_at
fragment_at-IsCut m n offset b bs e = record {
  piece = record {
    message_type = refl;
    message_seq = refl;
    len = refl;
    fits = omega (arith, length-take n (b ∷ bs), length-drop offset m.payload, ap length e);
    slice = take-Slice m.payload n offset (b ∷ bs) e;
  };
  header_len = refl;
  short = omega (arith, length-take n (b ∷ bs));
}

drop-drop : (i n : ℕ) (xs : Bytes) → drop n (drop i xs) ≡ drop (i + n) xs
drop-drop zero n xs = ap (λ k. drop k xs) {x = n} (omega arith)
drop-drop (suc i) n [] = drop-nil n ∙ sym (drop-nil (suc i + n))
drop-drop (suc i) n (x ∷ xs) =
    drop-drop i n xs ∙ ap (λ k. drop k (x ∷ xs)) {x = suc (i + n)} (omega arith)

next_chunk :
    (n idx : ℕ) (payload rest : Bytes)
    → drop (idx * n) payload ≡ rest
    → drop ((idx + 1) * n) payload ≡ drop n rest
next_chunk n idx payload rest e =
    ap (λ k. drop k payload) (omega arith) ∙ sym (drop-drop (idx * n) n payload) ∙ ap (drop n) e

fragment_loop-IsCut :
    (m : HandshakeMessage) (fuel n idx : ℕ) (rest : Bytes)
    → drop (idx * n) m.payload ≡ rest
    → All (IsCut m n) (fragment_loop m n idx (chunks fuel n rest))
unfolding fragment_loop chunks
fragment_loop-IsCut m fuel n idx [] e = tt
fragment_loop-IsCut m zero n idx (b ∷ bs) e = tt
fragment_loop-IsCut m (suc fuel) n idx (b ∷ bs) e = (
  fragment_at-IsCut m n (idx * n) b bs e,
  fragment_loop-IsCut m fuel n (idx + 1) (drop n (b ∷ bs)) (next_chunk n idx m.payload (b ∷ bs) e),
)

within_range : (start len i : ℕ) → start ≤ i → i < start + len → within start len i ≡ true
within_range start len i lo hi = rw (le→leb start i lo) (lt→ltb i (start + len) hi)

or_true : (b : Bool) → (b || true) ≡ true
or_true true = refl
or_true false = refl

fragment_loop-covered :
    (m : HandshakeMessage) (fuel n idx : ℕ) (rest : Bytes) (i : ℕ)
    → 1 ≤ n
    → drop (idx * n) m.payload ≡ rest
    → length rest ≤ fuel
    → idx * n ≤ i
    → i < length m.payload
    → covered (fragment_loop m n idx (chunks fuel n rest)) i ≡ true
unfolding fragment_loop chunks fragment_at
fragment_loop-covered m fuel n idx [] i h e s lo hi =
    absurd (omega (arith, length-drop (idx * n) m.payload, ap length e))
fragment_loop-covered m zero n idx (b ∷ bs) i h e s lo hi = absurd (omega arith)
fragment_loop-covered m (suc fuel) n idx (b ∷ bs) i h e s lo hi =
    let size = length-drop (idx * n) m.payload in
    let some_size = ap length e in
    let cut = length-take n (b ∷ bs) in
    elim (Bool-cases (ltb i ((idx + 1) * n))) [
      | inl here ↦
          rw
            (within_range (idx * n) (length (take n (b ∷ bs))) i lo
              (omega (arith, ltb→lt _ _ here)))
            refl
      | inr there ↦
          rw
            (fragment_loop-covered m fuel n (idx + 1) (drop n (b ∷ bs)) i h
              (next_chunk n idx m.payload (b ∷ bs) e) (omega (arith, length-drop n (b ∷ bs)))
              (ltb→le _ _ there) hi)
            (or_true _)
    ]

or_empty_complete :
    (m : HandshakeMessage) (n : ℕ) (fs : List HandshakeFragment)
    → All (IsCut m n) fs
    → ((i : ℕ) → i < length m.payload → covered fs i ≡ true)
    → (f : HandshakeFragment) × (rest : List HandshakeFragment) × (or_empty m fs ≡ f ∷ rest)
      × All (IsCut m n) (f ∷ rest)
      × ((i : ℕ) → i < length m.payload → covered (f ∷ rest) i ≡ true)
unfolding or_empty fragment_at
or_empty_complete m n [] cuts all_there = (
  fragment_at m 0 [],
  [],
  refl,
  (
    record {
      piece = record {
        message_type = refl;
        message_seq = refl;
        len = refl;
        fits = omega arith;
        slice = tt;
      };
      header_len = refl;
      short = omega arith;
    },
    tt,
  ),
  λ i h. absurd (cc (all_there i h)),
)
or_empty_complete m n (f ∷ rest) cuts all_there = (f, rest, refl, cuts, all_there)

IsCut-IsPiece :
    (m : HandshakeMessage) (n : ℕ) (fs : List HandshakeFragment)
    → All (IsCut m n) fs
    → All (IsPiece m) fs
IsCut-IsPiece m n [] h = tt
IsCut-IsPiece m n (f ∷ fs) h = (h.0.piece, IsCut-IsPiece m n fs h.1)

-- The fragments that a message is cut into are pieces of it, none longer than the limit, and put
-- together in order they give the message back.
pub last_outcome-fragment :
    (m : HandshakeMessage) (n : ℕ) (fs : List HandshakeFragment)
    → length m.payload ≤ max_handshake_message_len
    → fragment m n ≡ ok fs
    → All (IsCut m n) fs
      × (f : HandshakeFragment) × (rest : List HandshakeFragment) × (fs ≡ f ∷ rest)
      × (last_outcome f rest ≡ ok (some m))
unfolding fragment
last_outcome-fragment m n fs h e =
    let (some_size, e1) = fail_if-eq-ok (n == 0) _ _ e in
    let (fits, e2) = fail_if-eq-ok (ltb max_u24 (length m.payload)) _ _ e1 in
    let start : drop (0 * n) m.payload ≡ m.payload =
      ap (λ k. drop k m.payload) {y = zero} (omega arith) in
    let (f, rest, split, cuts, all_there) =
      or_empty_complete m n (fragment_loop m n 0 (chunks (length m.payload) n m.payload))
        (fragment_loop-IsCut m (length m.payload) n 0 m.payload start)
        (λ i k.
          fragment_loop-covered m (length m.payload) n 0 m.payload i (ground arith) start
            (omega arith) (omega arith) k) in
    let same : fs ≡ f ∷ rest = cc in
    (
      subst (All (IsCut m n)) (sym same) cuts,
      f,
      rest,
      same,
      last_outcome_complete m f rest h (IsCut-IsPiece m n (f ∷ rest) cuts) all_there,
    )
