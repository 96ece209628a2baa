-- ===== src/Dtls/Protection/Toy.antt =====
-- A toy cipher that meets the assumptions on AES-CCM-8.
use ot_commissioner_rs.Base.{
  subst, length-append, take-append_eq, ◌+◌, ◌-◌, ◌≡◌, ap, some, ◌++◌, Bytes, arith, length, take,
  replicate,
}
use ot_commissioner_rs.Dtls.Protection.{Aead}

abbrev pub toy_encrypt : Bytes → Bytes
toy_encrypt p = p ++ replicate 8 7

abbrev pub toy_decrypt : Bytes → Bytes
toy_decrypt c = take (length c - 8) c

pub toy_decrypt-toy_encrypt : (p : Bytes) → toy_decrypt (toy_encrypt p) ≡ p
toy_decrypt-toy_encrypt p =
    take-append_eq _ p (replicate 8 7) (omega (arith, length-append p (replicate 8 7)))

pub toy_opens :
    (key nonce aad p : Bytes) {c : Bytes}
    → some (toy_encrypt p) ≡ some c
    → some (toy_decrypt c) ≡ some p
toy_opens key nonce aad p e =
    subst (λ c. some (toy_decrypt c) ≡ some p) {x = toy_encrypt p} (cc)
      (ap some (toy_decrypt-toy_encrypt p))

pub toy_grows :
    (key nonce aad p : Bytes) {c : Bytes} → some (toy_encrypt p) ≡ some c → length c ≡ length p + 8
toy_grows key nonce aad p e =
    subst (λ c. length c ≡ length p + 8) {x = toy_encrypt p} (cc)
      (omega (arith, length-append p (replicate 8 7)))

abbrev pub toy : Aead
toy = record {
  encrypt = λ key nonce aad p. some (toy_encrypt p);
  decrypt = λ key nonce aad c. some (toy_decrypt c);
  decrypt-encrypt = toy_opens;
  length-encrypt = toy_grows;
}
