-- ===== src/Dtls/Hello/Client/RoundTrip.antt =====
-- A ClientHello is read back from what it is written as.
use mathlib.Core.Path.{ap, sym, subst, ap₂}
use ot_commissioner_rs.Base.{
  append-nil, refl, [], true, append_assoc, ◌==◌, ◌%◌, ◌∙◌, ltb→le, ltb, from_be-to_be_u16, arith,
  ◌^◌, ◌*◌, ◌++◌, ◌∷◌, fail_if-eq-ok, le→ltb, ◌<◌, IsU16, ok, All, to_be_u16, as_u8, length, ℕ, ◌≡◌,
  List, Bytes,
}
use ot_commissioner_rs.Dtls.Cursor.{
  read_array_32, read_exact-append, read_u16-to_be_u16, read_vec_u8-append, read_vec_u16-append,
  finish,
}
use ot_commissioner_rs.Dtls.Hello.{read_extensions, ClientHello}
use ot_commissioner_rs.Dtls.Hello.Client.{suite_bytes, suites_of, encode, decode}
use ot_commissioner_rs.Dtls.Hello.Extensions.{
  HasType, CanWrite, block, append_extensions-ok, append_extensions-CanWrite, read_extensions-block,
}
use ot_commissioner_rs.Dtls.Record.{dtls_1_2_version}

-- What the Rust types give: a random of 32 bytes, suites and extension types of 16 bits.
pub record IsTyped (h : ClientHello) : Type 0 where
  pub random : length h.random ≡ 32
  pub suites : All IsU16 h.cipher_suites
  pub types : All HasType h.extensions

-- What the lengths on the wire can tell.
pub record Fits (h : ClientHello) : Type 0 where
  pub session_id : length h.session_id < 256
  pub cookie : length h.cookie < 256
  pub methods : length h.compression_methods < 256
  pub suites : length h.cipher_suites * 2 < 2 ^ 16
  pub extensions : CanWrite h.extensions

-- The parts of the message from each field on.
abbrev pub from_methods : ClientHello → Bytes
from_methods h =
    as_u8 (length h.compression_methods) ∷ (h.compression_methods ++ block h.extensions)

abbrev pub from_suites : ClientHello → Bytes
from_suites h =
    to_be_u16 (length h.cipher_suites * 2) ++ (suite_bytes h.cipher_suites ++ from_methods h)

abbrev pub from_cookie : ClientHello → Bytes
from_cookie h = as_u8 (length h.cookie) ∷ (h.cookie ++ from_suites h)

abbrev pub from_session_id : ClientHello → Bytes
from_session_id h = as_u8 (length h.session_id) ∷ (h.session_id ++ from_cookie h)

abbrev pub message : ClientHello → Bytes
message h = to_be_u16 dtls_1_2_version ++ (h.random ++ from_session_id h)

pub length-suite_bytes : (ss : List ℕ) → length (suite_bytes ss) ≡ length ss * 2
unfolding suite_bytes
length-suite_bytes [] = refl
length-suite_bytes (s ∷ ss) = omega (arith, length-suite_bytes ss)

suites_of-suite_bytes : (ss : List ℕ) → All IsU16 ss → suites_of (suite_bytes ss) ≡ ss
unfolding suite_bytes suites_of
suites_of-suite_bytes [] h = refl
suites_of-suite_bytes (s ∷ ss) h = ap₂ ◌∷◌ (from_be-to_be_u16 s h.0) (suites_of-suite_bytes ss h.1)

pub encode-ok : (h : ClientHello) → Fits h → encode h ≡ ok (message h)
unfolding encode
encode-ok h f =
    rw
      (
        le→ltb 255 (length h.session_id) (omega (arith, f.session_id)),
        le→ltb 255 (length h.cookie) (omega (arith, f.cookie)),
        le→ltb 255 (length h.compression_methods) (omega (arith, f.methods)),
        le→ltb 65535 (length h.cipher_suites * 2) (omega (arith, f.suites)),
      )
      (append_extensions-ok _ h.extensions f.extensions ∙ ap ok (simp append_assoc))

pub encode-Fits : (h : ClientHello) (bytes : Bytes) → encode h ≡ ok bytes → Fits h
unfolding encode
encode-Fits h bytes e =
    let (a, e1) = fail_if-eq-ok (ltb 255 (length h.session_id)) _ _ e in
    let (b, e2) = fail_if-eq-ok (ltb 255 (length h.cookie)) _ _ e1 in
    let (c, e3) = fail_if-eq-ok (ltb 255 (length h.compression_methods)) _ _ e2 in
    let (d, e4) = fail_if-eq-ok (ltb 65535 (length h.cipher_suites * 2)) _ _ e3 in
    let small = ltb→le 255 (length h.session_id) a in
    let small' = ltb→le 255 (length h.cookie) b in
    let few = ltb→le 255 (length h.compression_methods) c in
    let few' = ltb→le 65535 (length h.cipher_suites * 2) d in
    record {
      session_id = omega arith;
      cookie = omega arith;
      methods = omega arith;
      suites = omega arith;
      extensions = append_extensions-CanWrite _ h.extensions bytes e4;
    }

pub decode-message : (h : ClientHello) → IsTyped h → Fits h → decode (message h) ≡ ok h
unfolding decode read_array_32 finish
decode-message h t f =
    let size : length h.cipher_suites * 2 ≡ length (suite_bytes h.cipher_suites) =
      sym (length-suite_bytes h.cipher_suites) in
    let even : (length (suite_bytes h.cipher_suites) % 2 == 0) ≡ true =
      ground (arith, length-suite_bytes h.cipher_suites) in
    let few : length (suite_bytes h.cipher_suites) < 2 ^ 16 =
      omega (arith, f.suites, length-suite_bytes h.cipher_suites) in
    let last = read_extensions-block h.extensions [] t.types f.extensions in
    let last' =
      subst (λ b. read_extensions b ≡ ok (h.extensions, [])) (append-nil (block h.extensions))
        last in
    rw
      (
        read_u16-to_be_u16 dtls_1_2_version (h.random ++ from_session_id h) (omega arith),
        read_exact-append 32 h.random (from_session_id h) t.random,
        read_vec_u8-append h.session_id (from_cookie h) f.session_id,
        read_vec_u8-append h.cookie (from_suites h) f.cookie,
        size,
        read_vec_u16-append (suite_bytes h.cipher_suites) (from_methods h) few,
        even,
        read_vec_u8-append h.compression_methods (block h.extensions) f.methods,
        last',
        suites_of-suite_bytes h.cipher_suites t.suites,
      )
      refl

-- A ClientHello with a random of 32 bytes and suites and extension types of 16 bits is read back from
-- what it was written as.
pub decode-encode_client :
    (h : ClientHello) (bytes : Bytes) → IsTyped h → encode h ≡ ok bytes → decode bytes ≡ ok h
decode-encode_client h bytes t e =
    let f = encode-Fits h bytes e in
    let same : message h ≡ bytes = cc (encode-ok h f) in
    subst (λ b. decode b ≡ ok h) same (decode-message h t f)
