-- ===== src/Dtls/Protection.antt =====
-- crates/thread-dtls/src/ccm.rs and record_protection.rs: the AES-CCM-8 nonce and the protection of
-- records. The cipher of the crates `ccm` and `aes` is a parameter.
pub mod Nonce
pub mod Opens
pub mod Toy
mod Tests
use ot_commissioner_rs.Base.{
  ℕ, ◌+◌, ◌-◌, ◌≡◌, ◌^◌, not, Option, some, ◌++◌, ltb, if◌then◌else◌, length, take, drop, Bytes,
  to_be_u16, Result, ok, err, ◌>>=◌, ◌>>◌, fail_if, ok_or,
}
use ot_commissioner_rs.Dtls.{Error, crypto}
use ot_commissioner_rs.Dtls.Record.{
  ContentType, RecordHeader, DtlsRecord, dtls_1_2_version, sequence_bytes, aead_additional_data,
  new,
}

abbrev pub fixed_iv_len : ℕ
fixed_iv_len = 4

abbrev pub explicit_nonce_len : ℕ
explicit_nonce_len = 8

abbrev pub tag_len : ℕ
tag_len = 8

unfoldable pub dtls_ccm_nonce : Bytes → ℕ → ℕ → Result Error Bytes
dtls_ccm_nonce fixed_iv epoch sequence_number =
    if ltb 0x0000_ffff_ffff_ffff sequence_number
    then err (crypto "DTLS record sequence number exceeds 48 bits")
    else ok (fixed_iv ++ (to_be_u16 epoch ++ sequence_bytes sequence_number))

-- AES-128-CCM with an 8-byte tag over a key, a nonce and associated data, as the crate documents it:
-- what was encrypted is decrypted under the same three, and the ciphertext is the tag longer.
pub record Aead : Type 0 where
  pub encrypt : Bytes → Bytes → Bytes → Bytes → Option Bytes
  pub decrypt : Bytes → Bytes → Bytes → Bytes → Option Bytes
  pub decrypt-encrypt :
      (key nonce aad plaintext : Bytes) {c : Bytes}
      → encrypt key nonce aad plaintext ≡ some c
      → decrypt key nonce aad c ≡ some plaintext
  pub length-encrypt :
      (key nonce aad plaintext : Bytes) {c : Bytes}
      → encrypt key nonce aad plaintext ≡ some c
      → length c ≡ length plaintext + 8

module _ (aead : Aead) where
  -- `AesCcm8::encrypt` and `AesCcm8::decrypt`; a 16-byte key is never refused.
  abbrev pub encrypt : Bytes → Bytes → Bytes → Bytes → Result Error Bytes
  encrypt key nonce aad plaintext =
      ok_or (aead.encrypt key nonce aad plaintext) (crypto "AES-CCM encryption failed")

  abbrev pub decrypt : Bytes → Bytes → Bytes → Bytes → Result Error Bytes
  decrypt key nonce aad ciphertext =
      ok_or (aead.decrypt key nonce aad ciphertext) (crypto "AES-CCM authentication failed")

  -- `protect_aes_128_ccm_8_record`, less its traces
  unfoldable pub protect : ContentType → ℕ → ℕ → Bytes → Bytes → Bytes → Result Error DtlsRecord
  protect content_type epoch sequence_number key fixed_iv plaintext = do
    fail_if (not (ltb (length plaintext) (2 ^ 16))) (crypto "DTLS plaintext is too long")
    nonce ← dtls_ccm_nonce fixed_iv epoch sequence_number
    let header : RecordHeader = record {
      content_type = content_type;
      version = dtls_1_2_version;
      epoch = epoch;
      sequence_number = sequence_number;
      len = 0;
    }
    ciphertext ← encrypt key nonce (aead_additional_data header (length plaintext)) plaintext
    new content_type epoch sequence_number (drop fixed_iv_len nonce ++ ciphertext)

  -- `open_aes_128_ccm_8_record`. The tag is there after the first test, so `checked_sub` does not fail.
  unfoldable pub open_record : DtlsRecord → Bytes → Bytes → Result Error Bytes
  open_record r key fixed_iv = do
    fail_if (ltb (length r.payload) (explicit_nonce_len + tag_len))
        (crypto "DTLS AES-CCM record payload is too short")
    let encrypted = drop explicit_nonce_len r.payload
    let plaintext_len = length encrypted - tag_len
    fail_if (not (ltb plaintext_len (2 ^ 16))) (crypto "DTLS plaintext length exceeds 16 bits")
    let nonce = fixed_iv ++ take explicit_nonce_len r.payload
    decrypt key nonce (aead_additional_data r.header plaintext_len) encrypted
