-- ===== src/Base/Bits.antt =====
-- Masks and fields: what `&` and `|` mean on numbers, for every width.
use Prim.Native.Nat.{
  ℕ, zero, suc, ◌+◌, ◌-◌, ◌*◌, ◌/◌, ◌%◌, ◌^◌, ◌≤◌, ◌<◌, min, max, bit_and, bit_or, digits,
  bit_and-bitwise, bit_or-bitwise,
}
use mathlib.Core.Path.{◌≡◌, refl, ap, ◌∙◌, ◌≡⟨◌⟩◌, ◌∎, subst, sym}
use native.Mathlib.Omega.{arith}
use native.Mathlib.Nat.{
  mod-lt, mod-eq_of_lt, mul-add-mod_self_left, div-add-mod, pow-suc, div-div-eq-div-mul,
}

-- Induction from the half of a number to the number.
module _ (P : ℕ → Type 0) (start : P 0) (double : (a : ℕ) → P (suc a / 2) → P (suc a)) where
  halving_below : (limit a : ℕ) → a < limit → P a
  halving_below zero a h = absurd (omega arith)
  halving_below (suc limit) zero h = start
  halving_below (suc limit) (suc a) h = double a (halving_below limit (suc a / 2) (omega arith))

  halving : (a : ℕ) → P a
  halving a = halving_below (suc a) a (omega arith)

module _ (z : ℕ → ℕ) (g : ℕ → ℕ → ℕ) where
  -- More fuel than the first number needs changes nothing.
  digits_settled :
      (need a b fuel : ℕ) → need ≤ fuel → a ≤ need → digits z g fuel a b ≡ digits z g need a b
  digits_settled need zero b zero h k = ground arith
  digits_settled zero zero b (suc fuel) h k = refl
  digits_settled (suc need) zero b (suc fuel) h k = refl
  digits_settled zero (suc a) b fuel h k = absurd (omega arith)
  digits_settled (suc need) (suc a) b zero h k = absurd (omega arith)
  digits_settled (suc need) (suc a) b (suc fuel) h k =
      ap (λ d. d * 2 + g (suc a % 2) (b % 2))
        (digits_settled need (suc a / 2) (b / 2) fuel (omega arith) (omega arith))

  -- The lowest digit, and the digits of the halves.
  lowest_digit :
      (a b : ℕ)
      → digits z g (suc a) (suc a) b
        ≡ digits z g (suc a / 2) (suc a / 2) (b / 2) * 2 + g (suc a % 2) (b % 2)
  lowest_digit a b =
      ap (λ d. d * 2 + g (suc a % 2) (b % 2))
        (digits_settled (suc a / 2) (suc a / 2) (b / 2) a (omega arith) (omega arith))

pub zero-bit_and : (b : ℕ) → bit_and 0 b ≡ 0
zero-bit_and b = bit_and-bitwise 0 b

pub zero-bit_or : (b : ℕ) → bit_or 0 b ≡ b
zero-bit_or b = bit_or-bitwise 0 b

pub bit_and_step : (a b : ℕ) → bit_and a b ≡ bit_and (a / 2) (b / 2) * 2 + min (a % 2) (b % 2)
bit_and_step (suc a) b =
    bit_and-bitwise (suc a) b
    ∙ lowest_digit (λ y. 0) min a b
    ∙ ap (λ d. d * 2 + min (suc a % 2) (b % 2)) (sym (bit_and-bitwise (suc a / 2) (b / 2)))
bit_and_step zero b = rw (zero-bit_and b, zero-bit_and (b / 2)) (omega arith)

pub bit_or_step : (a b : ℕ) → bit_or a b ≡ bit_or (a / 2) (b / 2) * 2 + max (a % 2) (b % 2)
bit_or_step (suc a) b =
    bit_or-bitwise (suc a) b
    ∙ lowest_digit (λ y. y) max a b
    ∙ ap (λ d. d * 2 + max (suc a % 2) (b % 2)) (sym (bit_or-bitwise (suc a / 2) (b / 2)))
bit_or_step zero b = rw (zero-bit_or b, zero-bit_or (b / 2)) (omega arith)

pub bit_and-zero : (a : ℕ) → bit_and a 0 ≡ 0
bit_and-zero = halving (λ a. bit_and a 0 ≡ 0) refl (λ a half. omega (arith, bit_and_step (suc a) 0))

pub bit_or-zero : (a : ℕ) → bit_or a 0 ≡ a
bit_or-zero = halving (λ a. bit_or a 0 ≡ a) refl (λ a half. omega (arith, bit_or_step (suc a) 0))

pub double_mod : (x m : ℕ) → 0 < m → x % (2 * m) ≡ x / 2 % m * 2 + x % 2
double_mod x m h =
    x % (2 * m)
    ≡⟨ ap (λ t. t % (2 * m)) parts ⟩ (2 * m * (x / 2 / m) + low) % (2 * m)
    ≡⟨ mul-add-mod_self_left (2 * m) (x / 2 / m) low ⟩ low % (2 * m)
    ≡⟨ mod-eq_of_lt (omega (arith, mod-lt (x / 2) h)) ⟩ low ∎
  where
    low : ℕ
    low = x / 2 % m * 2 + x % 2

    parts : x ≡ 2 * m * (x / 2 / m) + (x / 2 % m * 2 + x % 2)
    parts = omega (arith, div-add-mod (x / 2) m)

two_pow_suc : (k : ℕ) → 2 ^ suc k ≡ 2 * 2 ^ k
two_pow_suc k = omega (arith, pow-suc 2 k)

pub two_pow_pos : (k : ℕ) → 0 < 2 ^ k
two_pow_pos zero = omega arith
two_pow_pos (suc k) = rw (two_pow_suc k) (omega (arith, two_pow_pos k))

mask_step :
    (m x : ℕ) → 0 < m → bit_and (x / 2) (m - 1) ≡ x / 2 % m → bit_and x (2 * m - 1) ≡ x % (2 * m)
mask_step m x h e =
    let half : (2 * m - 1) / 2 ≡ m - 1 = omega arith in
    let odd : (2 * m - 1) % 2 ≡ 1 = omega arith in
    bit_and_step x (2 * m - 1) ∙ rw (half, odd, e, double_mod x m h) (omega arith)

-- `x & (2^k - 1)` keeps the low `k` bits.
pub bit_and_mask : (k x : ℕ) → bit_and x (2 ^ k - 1) ≡ x % 2 ^ k
bit_and_mask zero x = omega (arith, bit_and-zero x)
bit_and_mask (suc k) x =
    rw (two_pow_suc k) (mask_step (2 ^ k) x (two_pow_pos k) (bit_and_mask k (x / 2)))

fields_step :
    (m hi lo : ℕ)
    → bit_or (hi * m) (lo / 2) ≡ hi * m + lo / 2
    → bit_or (hi * (2 * m)) lo ≡ hi * (2 * m) + lo
fields_step m hi lo e =
    let half : hi * (2 * m) / 2 ≡ hi * m = omega arith in
    let even : hi * (2 * m) % 2 ≡ 0 = omega arith in
    bit_or_step (hi * (2 * m)) lo ∙ rw (half, even, e) (omega arith)

-- `hi << k | lo` joins two fields that do not overlap.
pub bit_or_fields : (k hi lo : ℕ) → lo < 2 ^ k → bit_or (hi * 2 ^ k) lo ≡ hi * 2 ^ k + lo
bit_or_fields zero hi zero h = omega (arith, bit_or-zero (hi * 1))
bit_or_fields zero hi (suc lo) h = absurd (omega arith)
bit_or_fields (suc k) hi lo h =
    rw (two_pow_suc k)
      (fields_step (2 ^ k) hi lo (bit_or_fields k hi (lo / 2) (omega (arith, two_pow_suc k))))

-- `|` adds where the low `k` bits of one number are clear and the other has no more than those.
pub bit_or_add : (k x lo : ℕ) → x % 2 ^ k ≡ 0 → lo < 2 ^ k → bit_or x lo ≡ x + lo
bit_or_add k x lo e h =
    let whole : x ≡ x / 2 ^ k * 2 ^ k = omega (arith, div-add-mod x (2 ^ k)) in
    subst (λ y. bit_or y lo ≡ y + lo) (sym whole) (bit_or_fields k (x / 2 ^ k) lo h)

double_div : (x m : ℕ) → 0 < m → x / (2 * m) ≡ x / 2 / m
double_div x m h = sym (div-div-eq-div-mul x 2 m)

split_step :
    (m x hi lo : ℕ)
    → 0 < m
    → bit_and (x / 2) (hi * m + lo / 2) ≡ bit_and (x / 2 / m) hi * m + bit_and (x / 2 % m) (lo / 2)
    → bit_and x (hi * (2 * m) + lo) ≡ bit_and (x / (2 * m)) hi * (2 * m) + bit_and (x % (2 * m)) lo
split_step m x hi lo h e =
    let half : (hi * (2 * m) + lo) / 2 ≡ hi * m + lo / 2 = omega arith in
    let low : (x / 2 % m * 2 + x % 2) / 2 ≡ x / 2 % m = omega arith in
    let step = bit_and_step (x / 2 % m * 2 + x % 2) lo in
    rw (double_div x m h, double_mod x m h)
      (bit_and_step x (hi * (2 * m) + lo)
        ∙ rw (half, e) (omega (arith, step, ap (λ y. bit_and y (lo / 2)) low)))

-- A mask in two parts takes the high and the low bits apart.
pub bit_and_split :
    (k x hi lo : ℕ)
    → lo < 2 ^ k
    → bit_and x (hi * 2 ^ k + lo) ≡ bit_and (x / 2 ^ k) hi * 2 ^ k + bit_and (x % 2 ^ k) lo
bit_and_split zero x hi lo h =
    let mask : hi * 2 ^ 0 + lo ≡ hi = omega arith in
    let high : x / 2 ^ 0 ≡ x = omega arith in
    let low : x % 2 ^ 0 ≡ 0 = omega arith in
    ap (bit_and x) mask
    ∙ omega (arith, ap (λ y. bit_and y hi) high, ap (λ y. bit_and y lo) low, zero-bit_and lo)
bit_and_split (suc k) x hi lo h = rw (two_pow_suc k) (
    split_step (2 ^ k) x hi lo (two_pow_pos k)
      (bit_and_split k (x / 2) hi (lo / 2) (omega (arith, two_pow_suc k))))

pub bit_or_comm : (a b : ℕ) → bit_or a b ≡ bit_or b a
bit_or_comm a =
    halving (λ c. (b : ℕ) → bit_or c b ≡ bit_or b c) (λ b. zero-bit_or b ∙ sym (bit_or-zero b))
      (λ c half b. omega (arith, bit_or_step (suc c) b, bit_or_step b (suc c), half (b / 2))) a
