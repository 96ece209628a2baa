-- ===== src/Dtls/EcJpake/Toy.antt =====
-- A toy curve that meets the assumptions: the field of three elements as its own group.
use ot_commissioner_rs.Base.{
  ℕ, zero, suc, arith, ◌≡◌, refl, Bool, true, false, ◌&&◌, ◌==◌, Option, none, some, [], ◌∷◌, ◌++◌,
  Bytes, length, replicate, take, get_or,
}
use ot_commissioner_rs.Dtls.EcJpake.Curve.{Curve}

pub data Three : Type 0 where
  o i t : Three

abbrev pub plus : Three → Three → Three
plus o y = y
plus i o = i
plus i i = t
plus i t = o
plus t o = t
plus t i = o
plus t t = i

abbrev pub opposite : Three → Three
opposite o = o
opposite i = t
opposite t = i

abbrev pub minus : Three → Three → Three
minus x y = plus x (opposite y)

abbrev pub times : Three → Three → Three
times o y = o
times i y = y
times t y = opposite y

abbrev pub is_o : Three → Bool
is_o o = true
is_o i = false
is_o t = false

abbrev pub code : Three → ℕ
code o = 0
code i = 1
code t = 2

abbrev pub of_code : ℕ → Option Three
of_code zero = some o
of_code (suc zero) = some i
of_code (suc (suc zero)) = some t
of_code (suc (suc (suc n))) = none

abbrev pub reduced : Option Three → Three
reduced none = i
reduced (some x) = x

abbrev same : Three → Three → Bool
same x y = code x == code y

same-eq : (x y : Three) → same x y ≡ true → x ≡ y
same-eq o o h = refl
same-eq i i h = refl
same-eq t t h = refl
same-eq o i h = absurd (cc)
same-eq o t h = absurd (cc)
same-eq i o h = absurd (cc)
same-eq i t h = absurd (cc)
same-eq t o h = absurd (cc)
same-eq t i h = absurd (cc)

abbrev every : (Three → Bool) → Bool
every f = f o && (f i && f t)

every-at : (f : Three → Bool) (x : Three) → every f ≡ true → f x ≡ true
every-at f o h = ground arith
every-at f i h = ground arith
every-at f t h = ground arith

-- An equation of three variables holds if it does at all of their values.
law3 :
    (f g : Three → Three → Three → Three)
    → every (λ x. every (λ y. every (λ z. same (f x y z) (g x y z)))) ≡ true
    → (x y z : Three) → f x y z ≡ g x y z
law3 f g h x y z = same-eq (f x y z) (g x y z) (
    every-at (λ w. same (f x y w) (g x y w)) z
      (every-at (λ v. every (λ w. same (f x v w) (g x v w))) y
        (every-at (λ u. every (λ v. every (λ w. same (f u v w) (g u v w)))) x h)))

pub is_o-times : (x y : Three) → is_o x ≡ false → is_o y ≡ false → is_o (times x y) ≡ false
is_o-times o y h k = absurd (cc)
is_o-times i y h k = k
is_o-times t o h k = absurd (cc)
is_o-times t i h k = refl
is_o-times t t h k = refl

pub times-is_o : (x y : Three) → is_o x ≡ true → is_o (times x y) ≡ true
times-is_o o y h = refl
times-is_o i y h = absurd (cc)
times-is_o t y h = absurd (cc)

pub of_code-code : (x : Three) → of_code (code x) ≡ some x
of_code-code o = refl
of_code-code i = refl
of_code-code t = refl

pub plus_assoc : (x y z : Three) → plus (plus x y) z ≡ plus x (plus y z)
plus_assoc = law3 (λ x y z. plus (plus x y) z) (λ x y z. plus x (plus y z)) refl

pub plus_comm : (x y : Three) → plus x y ≡ plus y x
plus_comm x y = law3 (λ u v w. plus u v) (λ u v w. plus v u) refl x y o

pub plus-minus : (x y : Three) → minus (plus x y) y ≡ x
plus-minus x y = law3 (λ u v w. minus (plus u v) v) (λ u v w. u) refl x y o

pub minus-plus : (x y : Three) → plus (minus x y) y ≡ x
minus-plus x y = law3 (λ u v w. plus (minus u v) v) (λ u v w. u) refl x y o

pub times-plus : (x y z : Three) → times (plus x y) z ≡ plus (times x z) (times y z)
times-plus = law3 (λ x y z. times (plus x y) z) (λ x y z. plus (times x z) (times y z)) refl

pub times-minus : (x y z : Three) → times x (minus y z) ≡ minus (times x y) (times x z)
times-minus = law3 (λ x y z. times x (minus y z)) (λ x y z. minus (times x y) (times x z)) refl

pub times_assoc : (x y z : Three) → times (times x y) z ≡ times x (times y z)
times_assoc = law3 (λ x y z. times (times x y) z) (λ x y z. times x (times y z)) refl

pub times_comm : (x y : Three) → times x y ≡ times y x
times_comm x y = law3 (λ u v w. times u v) (λ u v w. times v u) refl x y o

abbrev pub encoded : Three → Bytes
encoded x = code x ∷ replicate 64 4

abbrev encoded_x : Three → Bytes
encoded_x x = take 32 (encoded x)

abbrev pub repr : Three → Bytes
repr x = replicate 31 0 ++ (code x ∷ [])

abbrev pub toy : Curve
toy = record {
  Point = Three;
  Scalar = Three;
  generator = i;
  add = plus;
  sub = minus;
  mul = times;
  is_identity = is_o;
  one_scalar = i;
  sub_scalar = minus;
  mul_scalar = times;
  is_zero = is_o;
  encoded_point = encoded;
  from_bytes = λ bytes. length bytes == 65;
  from_encoded_point = λ bytes. of_code (get_or bytes 0 3);
  x_of = λ bytes. some (take 32 bytes);
  to_bytes = repr;
  from_repr = λ bytes. of_code (get_or bytes 31 3);
  reduce_bytes = λ bytes. reduced (of_code (get_or bytes 31 3));
  sha256 = λ bytes. replicate 32 (length bytes);
  add_comm = plus_comm;
  add_assoc = plus_assoc;
  add-sub = plus-minus;
  sub-add = minus-plus;
  mul-add = times-plus;
  mul-sub_scalar = times-minus;
  mul-mul = times_assoc;
  mul_scalar_comm = times_comm;
  mul_scalar_assoc = times_assoc;
  is_identity-generator = refl;
  is_identity-mul = is_o-times;
  is_identity-mul_identity = times-is_o;
  is_zero-mul_scalar = is_o-times;
  is_zero-one_scalar = refl;
  from_bytes-encoded_point = λ p h. refl;
  from_encoded_point-encoded_point = λ p h. of_code-code p;
  x_of-encoded_point = λ p h. (encoded_x p, refl);
  length-encoded_point = λ p h. refl;
  length-to_bytes = λ a. refl;
  from_repr-to_bytes = of_code-code;
}
