-- ===== src/Dtls/KeySchedule.antt =====
-- crates/thread-dtls/src/key_schedule.rs: the TLS 1.2 pseudo-random function and the keys derived with it.
-- HMAC-SHA-256 and SHA-256 are of the crates `hmac` and `sha2`, and are parameters.
pub mod Reference
pub mod Toy
mod Tests
use ot_commissioner_rs.Base.{
  ℕ, zero, suc, ◌+◌, ◌-◌, ◌≡◌, Option, none, some, List, [], ◌∷◌, ◌++◌, ltb, if◌then◌else◌, length,
  take, drop, Bytes, Result, ok, err, stuck, ◌>>=◌, ok_or,
}
use ot_commissioner_rs.Dtls.{Error, crypto}

pub record Tls12Aes128Ccm8KeyBlock : Type 0 where
  pub client_write_key : Bytes
  pub server_write_key : Bytes
  pub client_write_iv : Bytes
  pub server_write_iv : Bytes

pub record ThreadDtlsKeyMaterial : Type 0 where
  pub master_secret : Bytes
  pub key_block : Tls12Aes128Ccm8KeyBlock

-- `FinishedRole` of handshake.rs
pub data FinishedRole : Type 0 where
  client server : FinishedRole

-- HMAC-SHA-256 as its crate documents it: a tag of 32 bytes, unless the key is refused.
pub record Mac : Type 0 where
  pub mac : Bytes → Bytes → Option Bytes
  pub length-mac : (key input tag : Bytes) → mac key input ≡ some tag → length tag ≡ 32

-- The ASCII bytes of the labels.
abbrev pub master_secret_label : Bytes
master_secret_label =
    b'm' ∷ b'a' ∷ b's' ∷ b't' ∷ b'e' ∷ b'r' ∷ b' ' ∷ b's' ∷ b'e' ∷ b'c' ∷ b'r' ∷ b'e' ∷ b't' ∷ []

abbrev pub key_expansion_label : Bytes
key_expansion_label =
    b'k' ∷ b'e' ∷ b'y' ∷ b' ' ∷ b'e' ∷ b'x' ∷ b'p' ∷ b'a' ∷ b'n' ∷ b's' ∷ b'i' ∷ b'o' ∷ b'n' ∷ []

abbrev pub finished_label : FinishedRole → Bytes
finished_label client =
    b'c' ∷ b'l' ∷ b'i' ∷ b'e' ∷ b'n' ∷ b't' ∷ b' ' ∷ b'f' ∷ b'i' ∷ b'n' ∷ b'i' ∷ b's' ∷ b'h' ∷ b'e'
    ∷ b'd' ∷ []
finished_label server =
    b's' ∷ b'e' ∷ b'r' ∷ b'v' ∷ b'e' ∷ b'r' ∷ b' ' ∷ b'f' ∷ b'i' ∷ b'n' ∷ b'i' ∷ b's' ∷ b'h' ∷ b'e'
    ∷ b'd' ∷ []

module _ (h : Mac) where
  unfoldable pub hmac_sha256 : Bytes → Bytes → Result Error Bytes
  hmac_sha256 key input = ok_or (h.mac key input) (crypto "invalid HMAC key")

  -- The loop of `tls12_prf`. Each round adds 32 bytes, so the number of bytes wanted is fuel enough.
  unfoldable pub prf_loop : ℕ → Bytes → Bytes → ℕ → Bytes → Bytes → Result Error Bytes
  prf_loop zero secret label_seed out_len a out = if ltb (length out) out_len then stuck else ok out
  prf_loop (suc fuel) secret label_seed out_len a out =
      let round =
        (hmac_sha256 secret (a ++ label_seed) >>= λ block. hmac_sha256 secret a >>= λ next.
        prf_loop fuel secret label_seed out_len next (out ++ block)) in
      if ltb (length out) out_len then round else ok out

  unfoldable pub tls12_prf : Bytes → Bytes → Bytes → ℕ → Result Error Bytes
  unfolding prf_loop
  tls12_prf secret label seed out_len = do
    let label_seed = label ++ seed
    a ← hmac_sha256 secret label_seed
    out ← prf_loop out_len secret label_seed out_len a []
    ok (take out_len out)

  unfoldable pub derive_master_secret : Bytes → Bytes → Bytes → Result Error Bytes
  derive_master_secret pre_master_secret client_random server_random =
      tls12_prf pre_master_secret master_secret_label (client_random ++ server_random) 48

  unfoldable pub derive_aes_128_ccm_8_key_block :
      Bytes → Bytes → Bytes → Result Error Tls12Aes128Ccm8KeyBlock
  derive_aes_128_ccm_8_key_block master_secret client_random server_random = do
    bytes ← tls12_prf master_secret key_expansion_label (server_random ++ client_random) 40
    ok (record {
      client_write_key = take 16 bytes;
      server_write_key = take 16 (drop 16 bytes);
      client_write_iv = take 4 (drop 32 bytes);
      server_write_iv = take 4 (drop 36 bytes);
    })

  -- `sha256` is `Sha256::digest`.
  unfoldable pub derive_joiner_router_kek :
      (Bytes → Bytes) → Bytes → Bytes → Bytes → Result Error Bytes
  derive_joiner_router_kek sha256 master_secret client_random server_random = do
    key_block ← tls12_prf master_secret key_expansion_label (server_random ++ client_random) 40
    ok (take 16 (sha256 key_block))

  unfoldable pub finished_verify_data : Bytes → FinishedRole → Bytes → Result Error Bytes
  finished_verify_data master_secret role handshake_hash =
      tls12_prf master_secret (finished_label role) handshake_hash 12
