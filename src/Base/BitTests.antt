-- ===== src/Base/BitTests.antt =====
-- Single bits of numbers: what `>>`, `<<`, `|` and truncation do to them.
use native.Mathlib.Nat.{div-div-eq-div-mul, pow-suc}
use ot_commissioner_rs.Base.{
  lt→ltb, false, two_pow_pos, double_mod, bit_or_step, ℕ, zero, suc, ◌-◌, ◌*◌, ◌/◌, ◌%◌, ◌^◌, ◌<◌,
  ◌≡◌, refl, sym, ap, ◌∙◌, max, bit_or, ◌==◌, ltb, if◌then◌else◌, arith,
}

abbrev pub bit_at : ℕ → ℕ → ℕ
bit_at x i = x / 2 ^ i % 2

pub bit_at-zero : (x : ℕ) → bit_at x 0 ≡ x % 2
bit_at-zero x = omega arith

-- The next bit is a bit of the half.
pub bit_at-suc : (x i : ℕ) → bit_at x (suc i) ≡ bit_at (x / 2) i
bit_at-suc x i =
    let double : 2 ^ suc i ≡ 2 * 2 ^ i = omega (arith, pow-suc 2 i) in
    ap (λ p. x / p % 2) double ∙ ap (λ (q : ℕ). q % 2) (sym (div-div-eq-div-mul x 2 (2 ^ i)))

pub bit_at-bit_or : (i x y : ℕ) → bit_at (bit_or x y) i ≡ max (bit_at x i) (bit_at y i)
bit_at-bit_or zero x y = omega (arith, bit_or_step x y)
bit_at-bit_or (suc i) x y =
    let half : bit_or x y / 2 ≡ bit_or (x / 2) (y / 2) = omega (arith, bit_or_step x y) in
    rw (bit_at-suc (bit_or x y) i, bit_at-suc x i, bit_at-suc y i, half)
      (bit_at-bit_or i (x / 2) (y / 2))

pub bit_at-power : (j i : ℕ) → bit_at (2 ^ j) i ≡ (if i == j then 1 else 0)
bit_at-power zero zero = refl
bit_at-power zero (suc i) =
    let later : (suc i == 0) ≡ false = ground arith in rw later (bit_at-suc 1 i ∙ zero_bits i)
  where
    zero_bits : (i : ℕ) → bit_at 0 i ≡ 0
    zero_bits i = omega arith
bit_at-power (suc j) zero =
    let later : (0 == suc j) ≡ false = ground arith in
    rw later (bit_at-zero (2 ^ suc j) ∙ omega (arith, pow-suc 2 j))
bit_at-power (suc j) (suc i) =
    let half : 2 ^ suc j / 2 ≡ 2 ^ j = omega (arith, pow-suc 2 j) in
    bit_at-suc (2 ^ suc j) i ∙ ap (λ x. bit_at x i) half ∙ bit_at-power j i ∙ same i j
  where
    same : (i j : ℕ) → ◌≡◌ {A = ℕ} (if i == j then 1 else 0) (if suc i == suc j then 1 else 0)
    same i j = ground arith

-- `x << s`, before it is cut to the word.
pub bit_at-shift : (s i x : ℕ) → bit_at (x * 2 ^ s) i ≡ (if ltb i s then 0 else bit_at x (i - s))
bit_at-shift zero i x =
    let same : x * 2 ^ 0 ≡ x = omega arith in
    let at : i - 0 ≡ i = omega arith in rw (same, at) (ground arith)
bit_at-shift (suc s) zero x =
    let even : x * 2 ^ suc s ≡ 2 * (x * 2 ^ s) =
      omega (arith, ap (λ (p : ℕ). x * p) (pow-suc 2 s)) in
    rw (lt→ltb 0 (suc s) (omega arith)) (bit_at-zero (x * 2 ^ suc s) ∙ omega arith)
bit_at-shift (suc s) (suc i) x =
    let half : x * 2 ^ suc s / 2 ≡ x * 2 ^ s = omega (arith, ap (λ (p : ℕ). x * p) (pow-suc 2 s)) in
    bit_at-suc (x * 2 ^ suc s) i ∙ ap (λ y. bit_at y i) half ∙ bit_at-shift s i x ∙ same
  where
    same :
        (if ltb i s then 0 else bit_at x (i - s))
        ≡ (if ltb (suc i) (suc s) then 0 else bit_at x (suc i - suc s))
    same = let d : suc i - suc s ≡ i - s = omega arith in rw d (ground arith)

-- Truncation to `w` bits keeps the bits below `w`.
pub bit_at-mod : (w i x : ℕ) → i < w → bit_at (x % 2 ^ w) i ≡ bit_at x i
bit_at-mod zero i x h = absurd (omega arith)
bit_at-mod (suc w) zero x h = rw (double w) (omega (arith, double_mod x (2 ^ w) (two_pow_pos w)))
  where
    double : (w : ℕ) → 2 ^ suc w ≡ 2 * 2 ^ w
    double w = omega (arith, pow-suc 2 w)
bit_at-mod (suc w) (suc i) x h =
    let double : 2 ^ suc w ≡ 2 * 2 ^ w = omega (arith, pow-suc 2 w) in
    let half : x % 2 ^ suc w / 2 ≡ x / 2 % 2 ^ w =
      ap (λ p. x % p / 2) double ∙ omega (arith, double_mod x (2 ^ w) (two_pow_pos w)) in
    bit_at-suc (x % 2 ^ suc w) i
    ∙ ap (λ y. bit_at y i) half
    ∙ bit_at-mod w i (x / 2) (omega arith)
    ∙ sym (bit_at-suc x i)
