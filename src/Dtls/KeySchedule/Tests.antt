-- ===== src/Dtls/KeySchedule/Tests.antt =====
-- The theorems at a toy MAC.
use ot_commissioner_rs.Dtls.KeySchedule.Toy.{toy_tag, toy_mac}
use ot_commissioner_rs.Base.{◌≡◌, refl, [], ◌∷◌, Bytes, ok, take, replicate, length, ◌++◌, arith}
use ot_commissioner_rs.Dtls.KeySchedule.{
  tls12_prf, Tls12Aes128Ccm8KeyBlock, derive_aes_128_ccm_8_key_block, key_expansion_label,
}
use ot_commissioner_rs.Dtls.KeySchedule.Reference.{
  p_hash, tls12_prf-p_hash, derive_aes_128_ccm_8_key_block-p_hash,
}

abbrev secret : Bytes
secret = replicate 48 9

tls12_prf-p_hash_example :
    tls12_prf toy_mac secret (1 ∷ 2 ∷ []) (3 ∷ []) 40
    ≡ ok (take 40 (p_hash toy_mac secret toy_tag (λ input. refl) 2 (1 ∷ 2 ∷ 3 ∷ [])))
tls12_prf-p_hash_example =
    tls12_prf-p_hash toy_mac secret toy_tag (λ input. refl) 2 (1 ∷ 2 ∷ []) (3 ∷ []) 40 (omega arith)

derive_aes_128_ccm_8_key_block-p_hash_example :
    (k : Tls12Aes128Ccm8KeyBlock) × (derive_aes_128_ccm_8_key_block toy_mac secret
        (replicate 32 1)
        (replicate 32 2)
      ≡ ok k)
    × (k.client_write_key ++ (k.server_write_key ++ (k.client_write_iv ++ k.server_write_iv))
        ≡ take 40 (
            p_hash toy_mac secret toy_tag
              (λ input. refl)
              2
              (key_expansion_label ++ (replicate 32 2 ++ replicate 32 1))))
    × (length k.client_write_key ≡ 16)
    × (length k.server_write_key ≡ 16)
    × (length k.client_write_iv ≡ 4)
    × (length k.server_write_iv ≡ 4)
derive_aes_128_ccm_8_key_block-p_hash_example =
    derive_aes_128_ccm_8_key_block-p_hash toy_mac secret toy_tag (λ input. refl) (replicate 32 1)
      (replicate 32 2)
