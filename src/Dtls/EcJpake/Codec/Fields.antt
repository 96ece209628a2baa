-- ===== src/Dtls/EcJpake/Codec/Fields.antt =====
-- The fields of the rounds' TLS form are read back from what they are written as.
use ot_commissioner_rs.Base.{
  ℕ, suc, ◌-◌, ◌<◌, ◌≤◌, ◌≡◌, refl, sym, ap, ◌∙◌, false, ◌==◌, List, [], ◌∷◌, ◌++◌, ltb, length,
  replicate, Bytes, as_u8, ok, arith, length-append, take-append_eq, drop-append_eq, le→ltb,
  append_assoc, Bool-cases, inl, inr, eq_of_==, bind-eq-ok, ok-injective, some,
}
use ot_commissioner_rs.Dtls.EcJpake.{SchnorrProof}
use ot_commissioner_rs.Dtls.EcJpake.Codec.{
  trim_scalar_bytes, read_exact, read_u8, read_opaque_u8, write_tls_point, encode_tls, write_key_kp,
  read_tls_point, read_proof, read_key_kp,
}
use ot_commissioner_rs.Dtls.EcJpake.Curve.{
  Curve, point_to_bytes, point_from_bytes-point_to_bytes, random_scalar, random_scalar-nonzero,
}
use ot_commissioner_rs.Dtls.EcJpake.Schnorr.{generate, proof_with}

pub read_exact-append :
    (n : ℕ) (v rest : Bytes) → length v ≡ n → read_exact n (v ++ rest) ≡ ok (v, rest)
unfolding read_exact
read_exact-append n v rest e =
    rw
      (
        le→ltb (length (v ++ rest)) n (omega (arith, length-append v rest)),
        take-append_eq n v rest e,
        drop-append_eq n v rest e,
      )
      refl

nonzero : (n : ℕ) → 0 < n → (n == 0) ≡ false
nonzero n h = ground arith

read_opaque_u8-append :
    (message : _) (v rest : Bytes)
    → 0 < length v
    → length v < 256
    → read_opaque_u8 message (as_u8 (length v) ∷ (v ++ rest)) ≡ ok (v, rest)
unfolding read_opaque_u8 read_u8
read_opaque_u8-append message v rest some_left short =
    let small : as_u8 (length v) ≡ length v = omega arith in
    rw (small, read_exact-append 1 (length v ∷ []) (v ++ rest) refl, nonzero (length v) some_left)
      (read_exact-append (length v) v rest refl)

-- What is trimmed off is zeros.
trim_scalar_bytes-padded :
    (b : ℕ) (bytes : Bytes)
    → (0 < length (trim_scalar_bytes (b ∷ bytes)))
      × (length (trim_scalar_bytes (b ∷ bytes)) ≤ length (b ∷ bytes))
      × (replicate (length (b ∷ bytes) - length (trim_scalar_bytes (b ∷ bytes))) 0
            ++ trim_scalar_bytes (b ∷ bytes)
          ≡ b ∷ bytes)
unfolding trim_scalar_bytes
trim_scalar_bytes-padded b [] = (omega arith, omega arith, refl)
trim_scalar_bytes-padded b (b1 ∷ bytes) = elim (Bool-cases (b == 0)) [
  | inr kept ↦
      let none_cut : length (b ∷ b1 ∷ bytes) - length (b ∷ b1 ∷ bytes) ≡ 0 = omega arith in
      rw kept (omega arith, omega arith, ap (λ n. replicate n 0 ++ (b ∷ b1 ∷ bytes)) none_cut)
  | inl cut ↦
      let (some_left, short, same) = trim_scalar_bytes-padded b1 bytes in
      let one_more : suc (length (b1 ∷ bytes)) - length (trim_scalar_bytes (b1 ∷ bytes))
          ≡ suc (length (b1 ∷ bytes) - length (trim_scalar_bytes (b1 ∷ bytes))) =
        omega (arith, short) in
      let zeros =
        ap (λ n. replicate n 0 ++ trim_scalar_bytes (b1 ∷ bytes)) one_more
        ∙ ap (λ bs. 0 ∷ bs) same
        ∙ ap (λ x. x ∷ b1 ∷ bytes) (sym (eq_of_== b 0 cut)) in
      rw cut (some_left, omega (arith, short), zeros)
]

padded_back :
    (r : Bytes)
    → length r ≡ 32
    → (0 < length (trim_scalar_bytes r))
      × (length (trim_scalar_bytes r) ≤ 32)
      × (replicate (32 - length (trim_scalar_bytes r)) 0 ++ trim_scalar_bytes r ≡ r)
padded_back [] e = absurd (omega (arith, e))
padded_back (b ∷ bytes) e =
    let (some_left, short, same) = trim_scalar_bytes-padded b bytes in
    (
      some_left,
      omega (arith, short, e),
      ap
            (λ n.
              replicate (n - length (trim_scalar_bytes (b ∷ bytes))) 0
              ++ trim_scalar_bytes (b ∷ bytes))
            (sym e)
          ∙ same,
    )

module _ (c : Curve) where
  -- The encoding of a point that is not the identity.
  pub record IsPoint (bytes : Bytes) : Type 0 where
    pub point : c.Point
    pub some_point : c.is_identity point ≡ false
    pub is_bytes : bytes ≡ point_to_bytes c point

  -- A proof as its fields are encoded.
  pub record IsProof (prover_id : Bytes) (proof : SchnorrProof) : Type 0 where
    pub v : IsPoint proof.v
    pub scalar : c.Scalar
    pub r : proof.r ≡ c.to_bytes scalar
    pub prover : proof.prover_id ≡ prover_id

  pub IsPoint-mul :
      (p : c.Point) (a : c.Scalar)
      → c.is_identity p ≡ false
      → c.is_zero a ≡ false
      → IsPoint (point_to_bytes c (c.mul p a))
  IsPoint-mul p a hp ha = record {
    point = c.mul p a;
    some_point = c.is_identity-mul p a hp ha;
    is_bytes = refl;
  }

  pub generate-IsProof :
      (base : c.Point) (private : c.Scalar) (public : c.Point) (prover_id other_info : Bytes)
      (draws rest : List c.Scalar) (proof : SchnorrProof)
      → c.is_identity base ≡ false
      → generate c base private public prover_id other_info draws ≡ ok (proof, rest)
      → IsProof prover_id proof
  unfolding generate proof_with
  generate-IsProof base private public prover_id other_info draws rest proof hb h =
      let ((v, left), drawn, made) = bind-eq-ok (random_scalar c false draws) _ h in
      let is_made = sym (ap (λ (x : SchnorrProof × List c.Scalar). x.0) (ok-injective made)) in
      rw is_made (record {
        v = IsPoint-mul base v hb (random_scalar-nonzero c draws left v drawn);
        scalar = _;
        r = refl;
        prover = refl;
      })

  write_tls_point-Reads :
      (point : Bytes)
      → IsPoint point
      → (bytes : Bytes) × (write_tls_point c point ≡ ok bytes)
        × ((rest : Bytes) → read_tls_point c (bytes ++ rest) ≡ ok (point, rest))
  unfolding write_tls_point read_tls_point
  write_tls_point-Reads point w =
      let size = c.length-encoded_point w.point w.some_point in
      let read = point_from_bytes-point_to_bytes c w.point w.some_point in
      rw w.is_bytes (
        as_u8 (length (c.encoded_point w.point)) ∷ c.encoded_point w.point,
        rw (read, lt→le size) refl,
        λ rest.
            rw
              (
                read_opaque_u8-append _ (c.encoded_point w.point) rest (omega (arith, size))
                    (omega (arith, size)),
                read,
              )
              refl,
      )
    where
      lt→le : {n : ℕ} → n ≡ 65 → ltb 255 n ≡ false
      lt→le {n} e = le→ltb 255 n (omega arith)

  encode_tls-Reads :
      (prover_id : Bytes) (proof : SchnorrProof)
      → IsProof prover_id proof
      → (bytes : Bytes) × (encode_tls c proof ≡ ok bytes)
        × ((rest : Bytes) → read_proof c prover_id (bytes ++ rest) ≡ ok (proof, rest))
  unfolding encode_tls read_proof
  encode_tls-Reads prover_id proof w =
      let t = trim_scalar_bytes proof.r in
      let (out, written, reads) = write_tls_point-Reads proof.v w.v in
      let (some_left, short, padded) =
        padded_back proof.r (ap length w.r ∙ c.length-to_bytes w.scalar) in
      let scalar : c.from_repr proof.r ≡ some w.scalar =
        ap c.from_repr w.r ∙ c.from_repr-to_bytes w.scalar in
      (
        out ++ (as_u8 (length t) ∷ t),
        rw (written, le→ltb 255 (length t) (omega arith), nonzero (length t) some_left) refl,
        λ rest.
            rw
              (
                append_assoc out (as_u8 (length t) ∷ t) rest,
                reads (as_u8 (length t) ∷ (t ++ rest)),
                read_opaque_u8-append "Schnorr scalar is empty" t rest some_left (omega arith),
                nonzero (length t) some_left,
                le→ltb 32 (length t) short,
                padded,
                scalar,
              )
              (ap (λ id. ok (record { v = proof.v; r = proof.r; prover_id = id }, rest))
                (sym w.prover)),
      )

  pub write_key_kp-Reads :
      (prover_id point : Bytes) (proof : SchnorrProof)
      → IsPoint point
      → IsProof prover_id proof
      → (bytes : Bytes) × (write_key_kp c point proof ≡ ok bytes)
        × ((rest : Bytes) → read_key_kp c prover_id (bytes ++ rest) ≡ ok ((point, proof), rest))
  unfolding write_key_kp read_key_kp
  write_key_kp-Reads prover_id point proof wp w =
      let (out, written, reads) = write_tls_point-Reads point wp in
      let (more, written_more, reads_more) = encode_tls-Reads prover_id proof w in
      (
        out ++ more,
        rw (written, written_more) refl,
        λ rest. rw (append_assoc out more rest, reads (more ++ rest), reads_more rest) refl,
      )
