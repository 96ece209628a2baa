-- ===== src/Dtls/Hello/Server/RoundTrip.antt =====
-- A ServerHello is read back from what it is written as.
use ot_commissioner_rs.Base.{
  append_assoc, refl, ap, append-nil, ltb→le, ◌∙◌, ltb, arith, All, ◌++◌, ◌∷◌, subst, [],
  fail_if-eq-ok, le→ltb, ◌<◌, IsU16, ok, as_u8, to_be_u16, length, ◌≡◌, Bytes,
}
use ot_commissioner_rs.Dtls.Cursor.{
  read_array_32, read_exact-append, read_u16-to_be_u16, read_vec_u8-append, finish, read_u8-cons,
}
use ot_commissioner_rs.Dtls.Hello.{read_extensions, ServerHello}
use ot_commissioner_rs.Dtls.Hello.Extensions.{
  HasType, CanWrite, block, append_extensions-ok, append_extensions-CanWrite, read_extensions-block,
}
use ot_commissioner_rs.Dtls.Hello.Server.{encode, decode}
use ot_commissioner_rs.Dtls.Record.{dtls_1_2_version}

-- What the Rust types give.
pub record IsTyped (h : ServerHello) : Type 0 where
  pub random : length h.random ≡ 32
  pub suite : IsU16 h.cipher_suite
  pub types : All HasType h.extensions

-- What the lengths on the wire can tell.
record Fits (h : ServerHello) : Type 0 where
  session_id : length h.session_id < 256
  extensions : CanWrite h.extensions

abbrev from_suite : ServerHello → Bytes
from_suite h = to_be_u16 h.cipher_suite ++ (h.compression_method ∷ block h.extensions)

abbrev from_session_id : ServerHello → Bytes
from_session_id h = as_u8 (length h.session_id) ∷ (h.session_id ++ from_suite h)

abbrev message : ServerHello → Bytes
message h = to_be_u16 dtls_1_2_version ++ (h.random ++ from_session_id h)

encode-ok : (h : ServerHello) → Fits h → encode h ≡ ok (message h)
unfolding encode
encode-ok h f =
    rw (le→ltb 255 (length h.session_id) (omega (arith, f.session_id)))
      (append_extensions-ok _ h.extensions f.extensions ∙ ap ok (simp append_assoc))

encode-Fits : (h : ServerHello) (bytes : Bytes) → encode h ≡ ok bytes → Fits h
unfolding encode
encode-Fits h bytes e =
    let (a, e1) = fail_if-eq-ok (ltb 255 (length h.session_id)) _ _ e in
    let small = ltb→le 255 (length h.session_id) a in
    record {
      session_id = omega arith;
      extensions = append_extensions-CanWrite _ h.extensions bytes e1;
    }

decode-message : (h : ServerHello) → IsTyped h → Fits h → decode (message h) ≡ ok h
unfolding decode read_array_32 finish
decode-message h t f =
    let last = read_extensions-block h.extensions [] t.types f.extensions in
    let last' =
      subst (λ b. read_extensions b ≡ ok (h.extensions, [])) (append-nil (block h.extensions))
        last in
    rw
      (
        read_u16-to_be_u16 dtls_1_2_version (h.random ++ from_session_id h) (omega arith),
        read_exact-append 32 h.random (from_session_id h) t.random,
        read_vec_u8-append h.session_id (from_suite h) f.session_id,
        read_u16-to_be_u16 h.cipher_suite (h.compression_method ∷ block h.extensions) t.suite,
        read_u8-cons h.compression_method (block h.extensions),
        last',
      )
      refl

-- A ServerHello with a random of 32 bytes and a suite and extension types of 16 bits is read back from
-- what it was written as.
pub decode-encode_server :
    (h : ServerHello) (bytes : Bytes) → IsTyped h → encode h ≡ ok bytes → decode bytes ≡ ok h
decode-encode_server h bytes t e =
    let f = encode-Fits h bytes e in
    let same : message h ≡ bytes = cc (encode-ok h f) in
    subst (λ b. decode b ≡ ok h) same (decode-message h t f)
