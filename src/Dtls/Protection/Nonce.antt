-- ===== src/Dtls/Protection/Nonce.antt =====
-- Nonces and associated data tell records apart.
use ot_commissioner_rs.Base.{
  ◌∙◌, sym, append_left_injective, ◌++◌, to_be_u16, ℕ, ◌≡◌, ◌<◌, ◌^◌, IsU16, Bytes, ok, arith,
}
use ot_commissioner_rs.Dtls.Protection.{sequence_bytes, dtls_ccm_nonce}
use ot_commissioner_rs.Dtls.Record.{ContentType, to_u8, RecordHeader, aead_additional_data}
use ot_commissioner_rs.Dtls.Record.Header.{IsWire}

pub dtls_ccm_nonce-takes :
    (iv : Bytes) (epoch seq : ℕ) (nonce : Bytes)
    → dtls_ccm_nonce iv epoch seq ≡ ok nonce
    → (seq < 2 ^ 48) × (nonce ≡ iv ++ (to_be_u16 epoch ++ sequence_bytes seq))
unfolding dtls_ccm_nonce
dtls_ccm_nonce-takes iv epoch seq nonce h = ground arith

suffix_injective :
    (epoch seq epoch' seq' : ℕ)
    → IsU16 epoch
    → IsU16 epoch'
    → seq < 2 ^ 48
    → seq' < 2 ^ 48
    → to_be_u16 epoch ++ sequence_bytes seq ≡ to_be_u16 epoch' ++ sequence_bytes seq'
    → (epoch ≡ epoch') × (seq ≡ seq')
suffix_injective epoch seq epoch' seq' h h' k k' e = ground arith

-- Two records under one fixed IV have the same nonce only if they have the same epoch and sequence
-- number.
pub dtls_ccm_nonce_injective :
    (iv : Bytes) (epoch seq epoch' seq' : ℕ) (nonce : Bytes)
    → IsU16 epoch
    → IsU16 epoch'
    → dtls_ccm_nonce iv epoch seq ≡ ok nonce
    → dtls_ccm_nonce iv epoch' seq' ≡ ok nonce
    → (epoch ≡ epoch') × (seq ≡ seq')
dtls_ccm_nonce_injective iv epoch seq epoch' seq' nonce h h' k k' =
    let (b, n) = dtls_ccm_nonce-takes iv epoch seq nonce k in
    let (b', n') = dtls_ccm_nonce-takes iv epoch' seq' nonce k' in
    suffix_injective epoch seq epoch' seq' h h' b b' (append_left_injective iv _ _ (sym n ∙ n'))

to_u8_injective : (c d : ContentType) → to_u8 c ≡ to_u8 d → c ≡ d
to_u8_injective c d e = ground arith

-- The associated data fixes the header it was built from, its length field apart, and the plaintext's
-- length.
pub aead_additional_data_injective :
    (h g : RecordHeader) (l m : ℕ)
    → IsWire h
    → IsWire g
    → IsU16 l
    → IsU16 m
    → aead_additional_data h l ≡ aead_additional_data g m
    → (h.content_type ≡ g.content_type)
      × (h.version ≡ g.version)
      × (h.epoch ≡ g.epoch)
      × (h.sequence_number ≡ g.sequence_number)
      × (l ≡ m)
unfolding aead_additional_data
aead_additional_data_injective h g l m w v lm mm e =
    ground (arith, to_u8_injective h.content_type g.content_type)
