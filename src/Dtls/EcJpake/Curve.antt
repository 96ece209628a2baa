-- ===== src/Dtls/EcJpake/Curve.antt =====
-- P-256 and SHA-256 of the crates `p256` and `sha2`, as a parameter, and the points and scalars of
-- crates/thread-dtls/src/ecjpake/mod.rs.
use ot_commissioner_rs.Base.{
  arith, ◌-◌, refl, not, ◌≡◌, Bool, true, false, Option, some, List, [], ◌∷◌, ◌++◌, leb,
  if◌then◌else◌, length, replicate, Bytes, Result, ok, stuck, ◌>>=◌, ◌>>◌, ok_or, fail_if,
}
use ot_commissioner_rs.Dtls.{Error, crypto}

-- The curve as its crate documents it: a group of prime order with scalars in the field of that order,
-- and the encodings of both. `encoded_point` is `to_encoded_point(false)`, `from_bytes` the check of
-- `EncodedPoint::from_bytes`, `from_encoded_point` its decoding.
pub record Curve : Type 1 where
  pub Point : Type 0
  pub Scalar : Type 0
  pub generator : Point
  pub add : Point → Point → Point
  pub sub : Point → Point → Point
  pub mul : Point → Scalar → Point
  pub is_identity : Point → Bool
  pub one_scalar : Scalar
  pub sub_scalar : Scalar → Scalar → Scalar
  pub mul_scalar : Scalar → Scalar → Scalar
  pub is_zero : Scalar → Bool
  pub encoded_point : Point → Bytes
  pub from_bytes : Bytes → Bool
  pub from_encoded_point : Bytes → Option Point
  pub x_of : Bytes → Option Bytes
  pub to_bytes : Scalar → Bytes
  pub from_repr : Bytes → Option Scalar
  pub reduce_bytes : Bytes → Scalar
  pub sha256 : Bytes → Bytes
  pub add_comm : (p q : Point) → add p q ≡ add q p
  pub add_assoc : (p q r : Point) → add (add p q) r ≡ add p (add q r)
  pub add-sub : (p q : Point) → sub (add p q) q ≡ p
  pub sub-add : (p q : Point) → add (sub p q) q ≡ p
  pub mul-add : (p q : Point) (a : Scalar) → mul (add p q) a ≡ add (mul p a) (mul q a)
  pub mul-sub_scalar : (p : Point) (a b : Scalar) → mul p (sub_scalar a b) ≡ sub (mul p a) (mul p b)
  pub mul-mul : (p : Point) (a b : Scalar) → mul (mul p a) b ≡ mul p (mul_scalar a b)
  pub mul_scalar_comm : (a b : Scalar) → mul_scalar a b ≡ mul_scalar b a
  pub mul_scalar_assoc :
      (a b c : Scalar) → mul_scalar (mul_scalar a b) c ≡ mul_scalar a (mul_scalar b c)
  pub is_identity-generator : is_identity generator ≡ false
  pub is_identity-mul :
      (p : Point) (a : Scalar)
      → is_identity p ≡ false
      → is_zero a ≡ false
      → is_identity (mul p a) ≡ false
  pub is_identity-mul_identity :
      (p : Point) (a : Scalar) → is_identity p ≡ true → is_identity (mul p a) ≡ true
  pub is_zero-mul_scalar :
      (a b : Scalar) → is_zero a ≡ false → is_zero b ≡ false → is_zero (mul_scalar a b) ≡ false
  pub is_zero-one_scalar : is_zero one_scalar ≡ false
  pub from_bytes-encoded_point :
      (p : Point) → is_identity p ≡ false → from_bytes (encoded_point p) ≡ true
  pub from_encoded_point-encoded_point :
      (p : Point) → is_identity p ≡ false → from_encoded_point (encoded_point p) ≡ some p
  pub x_of-encoded_point :
      (p : Point) → is_identity p ≡ false → (x : Bytes) × (x_of (encoded_point p) ≡ some x)
  pub length-encoded_point : (p : Point) → is_identity p ≡ false → length (encoded_point p) ≡ 65
  pub length-to_bytes : (a : Scalar) → length (to_bytes a) ≡ 32
  pub from_repr-to_bytes : (a : Scalar) → from_repr (to_bytes a) ≡ some a

module _ (c : Curve) where
  unfoldable pub point_from_bytes : Bytes → Result Error c.Point
  point_from_bytes bytes = do
    fail_if (not (c.from_bytes bytes)) (crypto "invalid SEC1 point encoding")
    point ← ok_or (c.from_encoded_point bytes) (crypto "point is not on P-256")
    fail_if (c.is_identity point) (crypto "identity point is not allowed")
    ok point

  abbrev pub point_to_bytes : c.Point → Bytes
  point_to_bytes point = c.encoded_point point

  abbrev pub scalar_from_repr : Bytes → Result Error c.Scalar
  scalar_from_repr bytes = ok_or (c.from_repr bytes) (crypto "invalid scalar representation")

  -- The draws of the generator of random numbers, as `Scalar::random` gives them, are a list; one that
  -- ends too early gives `stuck`.
  unfoldable pub random_scalar : Bool → List c.Scalar → Result Error (c.Scalar × List c.Scalar)
  random_scalar allow_zero [] = stuck
  random_scalar allow_zero (scalar ∷ draws) =
      let again = random_scalar allow_zero draws in
      if allow_zero
      then ok (scalar, draws)
      else if c.is_zero scalar
      then again
      else ok (scalar, draws)

  -- The 32 bytes that the secret fills from the right, or its digest.
  abbrev pub secret_bytes : Bytes → Bytes
  secret_bytes secret =
      if leb (length secret) 32 then replicate (32 - length secret) 0 ++ secret else c.sha256 secret

  abbrev pub nonzero_or_one : c.Scalar → c.Scalar
  nonzero_or_one scalar = if c.is_zero scalar then c.one_scalar else scalar

  unfoldable pub scalar_from_secret : Bytes → c.Scalar
  scalar_from_secret secret = nonzero_or_one (c.reduce_bytes (secret_bytes secret))

  unfoldable pub point_x_bytes : c.Point → Result Error Bytes
  point_x_bytes point = do
    let bytes = point_to_bytes point
    fail_if (not (c.from_bytes bytes)) (crypto "invalid SEC1 point encoding")
    ok_or (c.x_of bytes) (crypto "SEC1 point has no X coordinate")

  -- `derive_session_key`, which ignores its other arguments
  unfoldable pub derive_session_key : c.Point → Result Error Bytes
  derive_session_key shared = do shared_x ← point_x_bytes shared; ok (c.sha256 shared_x)

  -- A point that is not the identity is read back from its encoding.
  pub point_from_bytes-point_to_bytes :
      (p : c.Point) → c.is_identity p ≡ false → point_from_bytes (point_to_bytes p) ≡ ok p
  unfolding point_from_bytes
  point_from_bytes-point_to_bytes p h =
      rw (c.from_bytes-encoded_point p h, c.from_encoded_point-encoded_point p h, h) refl

  pub random_scalar-nonzero :
      (draws rest : List c.Scalar) (a : c.Scalar)
      → random_scalar false draws ≡ ok (a, rest)
      → c.is_zero a ≡ false
  unfolding random_scalar
  random_scalar-nonzero [] rest a h = absurd (cc)
  random_scalar-nonzero (scalar ∷ draws) rest a h =
      ground (arith, random_scalar-nonzero draws rest a)

  pub scalar_from_secret-nonzero : (secret : Bytes) → c.is_zero (scalar_from_secret secret) ≡ false
  unfolding scalar_from_secret
  scalar_from_secret-nonzero secret = ground (arith, c.is_zero-one_scalar)
