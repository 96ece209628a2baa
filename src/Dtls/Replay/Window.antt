-- ===== src/Dtls/Replay/Window.antt =====
-- The window is a set of sequence numbers of which those 64 or more behind the newest are forgotten.
use ot_commissioner_rs.Base.{
  ltb→le, bit_and_mask, inr, ltb→lt, inl, Bool-cases, ℕ, zero, suc, ◌+◌, ◌-◌, ◌*◌, ◌/◌, ◌%◌, ◌^◌,
  ◌≤◌, ◌<◌, ◌≡◌, refl, sym, ap, ◌∙◌, bit_or, Bool, true, false, ◌||◌, ◌==◌, ltb, leb, if◌then◌else◌,
  arith, List, [], ◌∷◌, Option, none, some,
}
use ot_commissioner_rs.Base.BitTests.{bit_at, bit_at-bit_or, bit_at-power, bit_at-shift, bit_at-mod}
use ot_commissioner_rs.Dtls.Replay.{DtlsReplayWindow, new, seen_under, has_seen, marked, mark_seen}

abbrev pub contains : List ℕ → ℕ → Bool
contains [] n = false
contains (m ∷ ms) n = m == n || contains ms n

-- The greatest number of a list and one more.
abbrev pub newer : ℕ → Option ℕ → ℕ
newer n none = n
newer n (some m) = if ltb m n then n else m

abbrev pub newest_of : List ℕ → Option ℕ
newest_of [] = none
newest_of (n ∷ ms) = some (newer n (newest_of ms))

-- What is refused: what is in the list, and what is 64 or more behind its greatest number.
abbrev pub refused_by : Option ℕ → Bool → ℕ → Bool
refused_by none found n = false
refused_by (some m) found n = found || leb (n + 64) m

abbrev pub is_refused : List ℕ → ℕ → Bool
is_refused ms n = refused_by (newest_of ms) (contains ms n) n

-- The window after the marks of a list, the last of which stands first.
abbrev pub marks : List ℕ → DtlsReplayWindow
marks [] = new
marks (n ∷ ms) = mark_seen n (marks ms)

-- Bit `i` of the bitmap stands for the number `i` behind the newest.
record Tracks (o : Option ℕ) (seen : ℕ) (ms : List ℕ) : Type 0 where
  newest : o ≡ newest_of ms
  bits : (m i : ℕ) → o ≡ some m → i < 64 → i ≤ m → (bit_at seen i == 1) ≡ contains ms (m - i)

contains-beyond : (ms : List ℕ) (m n : ℕ) → newest_of ms ≡ some m → m < n → contains ms n ≡ false
contains-beyond [] m n e h = absurd (cc)
contains-beyond (x ∷ []) m n e h = ground arith
contains-beyond (x ∷ y ∷ ms) m n e h =
    ground (arith, contains-beyond (y ∷ ms) (newer y (newest_of ms)) n refl)

newest_of-none : (ms : List ℕ) → none ≡ newest_of ms → ms ≡ []
newest_of-none [] e = refl
newest_of-none (x ∷ ms) e = absurd (cc)

seen_under-Tracks :
    (o : Option ℕ) (seen : ℕ) (ms : List ℕ) (n : ℕ)
    → Tracks o seen ms
    → seen_under o seen n ≡ is_refused ms n
unfolding seen_under
seen_under-Tracks none seen ms n t = rw (newest_of-none ms t.newest) refl
seen_under-Tracks (some m) seen ms n t =
    let at : newest_of ms ≡ some m = sym t.newest in
    let bit = bit_and_mask 1 (seen / 2 ^ (m - n)) in
    rw at (elim (Bool-cases (ltb m n)) [
      | inl above ↦ ground (arith, contains-beyond ms m n at (ltb→lt m n above))
      | inr below ↦ elim (Bool-cases (leb 64 (m - n))) [
        | inl far ↦ ground arith
        | inr near ↦
            let place : m - (m - n) ≡ n = omega (arith, ltb→le m n below) in
            let held : (bit_at seen (m - n) == 1) ≡ contains ms n =
              t.bits m (m - n) refl (ground arith) (omega arith) ∙ ap (contains ms) place in
            let late : leb (n + 64) m ≡ false = ground arith in
            rw (below, near, late, bit, held) (or_false (contains ms n))
      ]
    ])
  where
    or_false : (b : Bool) → b ≡ (b || false)
    or_false true = refl
    or_false false = refl

-- A single mark keeps the window in step with the list.
new-Tracks : Tracks none 0 []
new-Tracks = record { newest = refl; bits = λ m i e h k. absurd (cc) }

-- The bit of the newest number.
one_bits : (i : ℕ) → bit_at 1 i ≡ (if i == 0 then 1 else 0)
one_bits i = bit_at-power 0 i

mark_first : (n : ℕ) → Tracks (some n) 1 (n ∷ [])
mark_first n = record {
  newest = refl;
  bits = λ m i e h k. let same : n ≡ m = cc in rw (one_bits i) (ground arith);
}

-- The bits after a slide.
slid_bits :
    (seen s i : ℕ)
    → i < 64
    → bit_at (if leb 64 s then 1 else bit_or (seen * 2 ^ s % 2 ^ 64) 1) i
      ≡ (if i == 0 then 1 else if ltb i s then 0 else bit_at seen (i - s))
slid_bits seen s i h = elim (Bool-cases (leb 64 s)) [
  | inl far ↦ rw far (one_bits i ∙ ground arith)
  | inr near ↦
      let shifted = seen * 2 ^ s in
      let moved = bit_at-mod 64 i shifted h ∙ bit_at-shift s i seen in
      rw near (bit_at-bit_or i (shifted % 2 ^ 64) 1 ∙ rw (moved, one_bits i) (ground arith))
]

newer_bit :
    (m n seen : ℕ) (ms : List ℕ) (i : ℕ)
    → m < n
    → Tracks (some m) seen ms
    → i < 64
    → i ≤ n
    → ((if i == 0 then 1 else if ltb i (n - m) then 0 else bit_at seen (i - (n - m))) == 1)
      ≡ (n == n - i || contains ms (n - i))
newer_bit m n seen ms zero h t small le = ground arith
newer_bit m n seen ms (suc i) h t small le = elim (Bool-cases (ltb (suc i) (n - m))) [
  | inl gap ↦ ground (
    arith,
    contains-beyond ms m (n - suc i) (sym t.newest) (omega (arith, ltb→lt (suc i) (n - m) gap)),
  )
  | inr held ↦
      let back = suc i - (n - m) in
      let there = ltb→le (suc i) (n - m) held in
      let place : m - back ≡ n - suc i = omega arith in
      let bit : (bit_at seen back == 1) ≡ contains ms (n - suc i) =
        t.bits m back refl (omega arith) (omega arith) ∙ ap (contains ms) place in
      let other : (n == n - suc i) ≡ false = ground arith in
      let positive : (suc i == 0) ≡ false = ground arith in rw (positive, held, other) bit
]

mark_newer :
    (m n seen : ℕ) (ms : List ℕ)
    → m < n
    → Tracks (some m) seen ms
    → Tracks
        (some n)
        (if leb 64 (n - m) then 1 else bit_or (seen * 2 ^ (n - m) % 2 ^ 64) 1)
        (n ∷ ms)
mark_newer m n seen ms h t =
    let at : newest_of ms ≡ some m = sym t.newest in
    record {
      newest = rw at (ground arith);
      bits = λ k i e small le.
          let same : k ≡ n = cc in
          rw (same, slid_bits seen (n - m) i small)
            (newer_bit m n seen ms i h t small (omega arith));
    }

older_bit :
    (m n seen : ℕ) (ms : List ℕ) (i : ℕ)
    → n ≤ m
    → Tracks (some m) seen ms
    → i < 64
    → i ≤ m
    → (bit_at (if ltb (m - n) 64 then bit_or seen (2 ^ (m - n)) else seen) i == 1)
      ≡ (n == m - i || contains ms (m - i))
older_bit m n seen ms i h t small le =
    let bit = t.bits m i refl small le in
    elim (Bool-cases (ltb (m - n) 64)) [
      | inl near ↦
          rw (near, bit_at-bit_or i seen (2 ^ (m - n)), bit_at-power (m - n) i, sym bit)
            (ground arith)
      | inr far ↦ let other : (n == m - i) ≡ false = ground arith in rw (far, other) bit
    ]

mark_older :
    (m n seen : ℕ) (ms : List ℕ)
    → n ≤ m
    → Tracks (some m) seen ms
    → Tracks (some m) (if ltb (m - n) 64 then bit_or seen (2 ^ (m - n)) else seen) (n ∷ ms)
mark_older m n seen ms h t =
    let at : newest_of ms ≡ some m = sym t.newest in
    record {
      newest = rw at (ground arith);
      bits = λ k i e small le.
          let same : k ≡ m = cc in rw same (older_bit m n seen ms i h t small (omega arith));
    }

marked-Tracks :
    (o : Option ℕ) (seen n : ℕ) (ms : List ℕ)
    → Tracks o seen ms
    → Tracks (marked o seen n).newest_sequence (marked o seen n).seen (n ∷ ms)
unfolding marked
marked-Tracks none seen n ms t = rw (newest_of-none ms t.newest) (mark_first n)
marked-Tracks (some m) seen n ms t = elim (Bool-cases (ltb m n)) [
  | inl above ↦ rw above (mark_newer m n seen ms (ltb→lt m n above) t)
  | inr below ↦ rw below (mark_older m n seen ms (ltb→le m n below) t)
]

marks-Tracks : (ms : List ℕ) → Tracks (marks ms).newest_sequence (marks ms).seen ms
unfolding mark_seen
marks-Tracks [] = new-Tracks
marks-Tracks (n ∷ ms) = marked-Tracks _ _ n ms (marks-Tracks ms)

-- The window implements its specification: after any marks, in any order, a number is refused exactly
-- when it is one of them or is 64 or more behind the greatest of them.
pub has_seen-marks : (ms : List ℕ) (n : ℕ) → has_seen (marks ms) n ≡ is_refused ms n
unfolding has_seen
has_seen-marks ms n = seen_under-Tracks _ _ ms n (marks-Tracks ms)
