-- ===== src/Dtls/KeySchedule/Reference.antt =====
-- The pseudo-random function against P_hash of RFC 5246, and the keys as slices of it.
use ot_commissioner_rs.Base.{
  take-append-drop, append_assoc, drop_add, take-append_eq, length-take, length-append, length-drop,
  append-nil, inl, ltb→le, inr, ltb, Bool-cases, take-append_le, le→ltb, ℕ, zero, suc, ◌+◌, ◌*◌,
  ◌≤◌, ◌≡◌, refl, sym, ap, ◌∙◌, [], ◌++◌, length, take, drop, Bytes, ok, some, arith,
}
use ot_commissioner_rs.Dtls.KeySchedule.{
  Mac, Tls12Aes128Ccm8KeyBlock, hmac_sha256, prf_loop, tls12_prf, derive_aes_128_ccm_8_key_block,
  key_expansion_label,
}

take_all_of : (n : ℕ) (xs : Bytes) → length xs ≡ n → take n xs ≡ xs
take_all_of n xs e = ap (take n) (sym (append-nil xs)) ∙ take-append_eq n xs [] e

-- Slices that follow one another make up the whole.
joined :
    (bytes : Bytes)
    → length bytes ≡ 40
    → take 16 bytes
        ++ (take 16 (drop 16 bytes) ++ (take 4 (drop 32 bytes) ++ take 4 (drop 36 bytes)))
      ≡ bytes
joined bytes size =
    let last : take 4 (drop 36 bytes) ≡ drop 36 bytes =
      take_all_of 4 (drop 36 bytes) (omega (arith, size, length-drop 36 bytes)) in
    ap (λ b. take 16 bytes ++ (take 16 (drop 16 bytes) ++ (take 4 (drop 32 bytes) ++ b)))
      (last ∙ drop_add 32 4 bytes)
    ∙ ap (λ b. take 16 bytes ++ (take 16 (drop 16 bytes) ++ b))
        (take-append-drop 4 (drop 32 bytes) ∙ drop_add 16 16 bytes)
    ∙ ap (λ b. take 16 bytes ++ b) (take-append-drop 16 (drop 16 bytes))
    ∙ take-append-drop 16 bytes

module _ (h : Mac) (secret : Bytes) (tag : Bytes → Bytes)
    (accepts : (input : Bytes) → h.mac secret input ≡ some (tag input)) where
  -- HMAC(A(i) + seed) + HMAC(A(i + 1) + seed) + ..., `rounds` of them, from A(i) on.
  abbrev pub p_hash_from : ℕ → Bytes → Bytes → Bytes
  p_hash_from zero a seed = []
  p_hash_from (suc rounds) a seed = tag (a ++ seed) ++ p_hash_from rounds (tag a) seed

  -- P_hash(secret, seed), with A(1) = HMAC(secret, seed).
  abbrev pub p_hash : ℕ → Bytes → Bytes
  p_hash rounds seed = p_hash_from rounds (tag seed) seed

  length-tag : (input : Bytes) → length (tag input) ≡ 32
  length-tag input = h.length-mac secret input (tag input) (accepts input)

  hmac-ok : (input : Bytes) → hmac_sha256 h secret input ≡ ok (tag input)
  unfolding hmac_sha256
  hmac-ok input = rw (accepts input) refl

  -- The loop makes as many rounds as it needs; any number of rounds that is enough has the same front.
  prf_loop-p_hash :
      (fuel rounds : ℕ) (seed : Bytes) (n : ℕ) (a out : Bytes)
      → n ≤ length out + 32 * fuel
      → n ≤ length out + 32 * rounds
      → (r : Bytes) × (prf_loop h fuel secret seed n a out ≡ ok r)
        × (take n r ≡ take n (out ++ p_hash_from rounds a seed))
  unfolding prf_loop
  prf_loop-p_hash zero rounds seed n a out f g =
      rw (le→ltb (length out) n (omega arith))
        (out, refl, sym (take-append_le n out _ (omega arith)))
  prf_loop-p_hash (suc fuel) zero seed n a out f g =
      rw (le→ltb (length out) n (omega arith))
        (out, refl, sym (take-append_le n out _ (omega arith)))
  prf_loop-p_hash (suc fuel) (suc rounds) seed n a out f g =
      elim (Bool-cases (ltb (length out) n)) [
        | inr done ↦ rw done (out, refl, sym (take-append_le n out _ (ltb→le (length out) n done)))
        | inl more ↦
            let block = tag (a ++ seed) in
            let size : length (out ++ block) ≡ length out + 32 =
              length-append out block ∙ omega (arith, length-tag (a ++ seed)) in
            let (r, runs, same) =
              prf_loop-p_hash fuel rounds seed n (tag a) (out ++ block) (omega (arith, size))
                (omega (arith, size)) in
            rw (more, hmac-ok (a ++ seed), hmac-ok a)
              (
                r,
                runs,
                same ∙ ap (take n) (append_assoc out block (p_hash_from rounds (tag a) seed)),
              )
      ]

  -- Under a secret that the MAC accepts, the pseudo-random function succeeds and gives P_hash of RFC 5246
  -- over the label and the seed, cut to the length wanted, by any number of rounds that makes up the
  -- length.
  pub tls12_prf-p_hash :
      (rounds : ℕ) (label seed : Bytes) (n : ℕ)
      → n ≤ 32 * rounds
      → tls12_prf h secret label seed n ≡ ok (take n (p_hash rounds (label ++ seed)))
  unfolding tls12_prf
  tls12_prf-p_hash rounds label seed n g =
      let whole = label ++ seed in
      let (r, runs, same) =
        prf_loop-p_hash n rounds whole n (tag whole) [] (omega arith) (omega arith) in
      rw (hmac-ok whole, runs) (ap ok same)

  length-p_hash_from :
      (rounds : ℕ) (a seed : Bytes) → length (p_hash_from rounds a seed) ≡ 32 * rounds
  length-p_hash_from zero a seed = omega arith
  length-p_hash_from (suc rounds) a seed =
      length-append (tag (a ++ seed)) (p_hash_from rounds (tag a) seed)
      ∙ omega (arith, length-tag (a ++ seed), length-p_hash_from rounds (tag a) seed)

  -- Under a secret that the MAC accepts, the two keys of 16 bytes and the two fixed IVs of 4 bytes are,
  -- one after the other, the first 40 bytes of P_hash over the key expansion's label, the server's random
  -- and the client's.
  pub derive_aes_128_ccm_8_key_block-p_hash :
      (client_random server_random : Bytes)
      → (k : Tls12Aes128Ccm8KeyBlock) × (derive_aes_128_ccm_8_key_block h secret client_random
            server_random
          ≡ ok k)
        × (k.client_write_key ++ (k.server_write_key ++ (k.client_write_iv ++ k.server_write_iv))
            ≡ take 40 (p_hash 2 (key_expansion_label ++ (server_random ++ client_random))))
        × (length k.client_write_key ≡ 16)
        × (length k.server_write_key ≡ 16)
        × (length k.client_write_iv ≡ 4)
        × (length k.server_write_iv ≡ 4)
  unfolding derive_aes_128_ccm_8_key_block
  derive_aes_128_ccm_8_key_block-p_hash client_random server_random =
      let seed = key_expansion_label ++ (server_random ++ client_random) in
      let bytes = take 40 (p_hash 2 seed) in
      let size : length bytes ≡ 40 =
        length-take 40 (p_hash 2 seed) ∙ omega (arith, length-p_hash_from 2 (tag seed) seed) in
      rw (tls12_prf-p_hash 2 key_expansion_label (server_random ++ client_random) 40 (omega arith))
        (
          record {
            client_write_key = take 16 bytes;
            server_write_key = take 16 (drop 16 bytes);
            client_write_iv = take 4 (drop 32 bytes);
            server_write_iv = take 4 (drop 36 bytes);
          },
          refl,
          joined bytes size,
          length-take 16 bytes ∙ omega (arith, size),
          length-take 16 (drop 16 bytes) ∙ omega (arith, size, length-drop 16 bytes),
          length-take 4 (drop 32 bytes) ∙ omega (arith, size, length-drop 32 bytes),
          length-take 4 (drop 36 bytes) ∙ omega (arith, size, length-drop 36 bytes),
        )
