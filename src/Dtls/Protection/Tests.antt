-- ===== src/Dtls/Protection/Tests.antt =====
-- The theorems on protection at a toy cipher.
use ot_commissioner_rs.Base.{ℕ, ◌≡◌, refl, [], ◌∷◌, ok, err, Bytes, arith, replicate}
use ot_commissioner_rs.Dtls.{crypto}
use ot_commissioner_rs.Dtls.Protection.{protect, open_record, dtls_ccm_nonce}
use ot_commissioner_rs.Dtls.Protection.Nonce.{dtls_ccm_nonce_injective}
use ot_commissioner_rs.Dtls.Protection.Opens.{open_record-parse_datagram-protect}
use ot_commissioner_rs.Dtls.Protection.Toy.{toy}
use ot_commissioner_rs.Dtls.Record.{DtlsRecord, application_data, encode, new, parse_datagram}

abbrev iv : Bytes
iv = 0xaa ∷ 0xbb ∷ 0xcc ∷ 0xdd ∷ []

abbrev sealed : DtlsRecord
sealed = record {
  header = record {
    content_type = application_data;
    version = 0xfefd;
    epoch = 1;
    sequence_number = 5;
    len = 18;
  };
  payload = 0 ∷ 1 ∷ 0 ∷ 0 ∷ 0 ∷ 0 ∷ 0 ∷ 5 ∷ 0x68 ∷ 0x69 ∷ replicate 8 7;
}

protect-sealed : protect toy application_data 1 5 [] iv (0x68 ∷ 0x69 ∷ []) ≡ ok sealed
unfolding protect dtls_ccm_nonce new
protect-sealed = refl

open_record-parse_datagram-protect_example :
    (bytes : Bytes) × (encode sealed ≡ ok bytes)
    × (parse_datagram bytes ≡ ok (sealed ∷ []))
    × (open_record toy sealed [] iv ≡ ok (0x68 ∷ 0x69 ∷ []))
open_record-parse_datagram-protect_example =
    open_record-parse_datagram-protect toy application_data 1 5 [] iv (0x68 ∷ 0x69 ∷ []) sealed refl
      (omega arith) protect-sealed

-- The vector of the unit test in ccm.rs.
abbrev vector : Bytes
vector = 0xaa ∷ 0xbb ∷ 0xcc ∷ 0xdd ∷ 1 ∷ 2 ∷ 3 ∷ 4 ∷ 5 ∷ 6 ∷ 7 ∷ 8 ∷ []

dtls_ccm_nonce-vector : dtls_ccm_nonce iv 0x0102 0x0304_0506_0708 ≡ ok vector
unfolding dtls_ccm_nonce
dtls_ccm_nonce-vector = refl

too_large :
    dtls_ccm_nonce iv 0 0x0001_0000_0000_0000
    ≡ err (crypto "DTLS record sequence number exceeds 48 bits")
unfolding dtls_ccm_nonce
too_large = refl

dtls_ccm_nonce_injective_example :
    (◌≡◌ {A = ℕ} 0x0102 0x0102) × (◌≡◌ {A = ℕ} 0x0304_0506_0708 0x0304_0506_0708)
dtls_ccm_nonce_injective_example =
    dtls_ccm_nonce_injective iv 0x0102 0x0304_0506_0708 0x0102 0x0304_0506_0708 vector (omega arith)
      (omega arith) dtls_ccm_nonce-vector dtls_ccm_nonce-vector
