-- ===== src/Dtls/Hello/Verify.antt =====
-- `HelloVerifyRequest` of crates/thread-dtls/src/hello.rs.
use ot_commissioner_rs.Base.{
  arith, [], ltb, fail_if-eq-ok, ltb→le, append-nil, subst, ok-injective, IsU16, ◌≡◌, refl, ◌∷◌,
  ◌++◌, length, Bytes, as_u8, to_be_u16, Result, ok, ◌>>=◌, ◌>>◌,
}
use ot_commissioner_rs.Dtls.{Error}
use ot_commissioner_rs.Dtls.Cursor.{
  read_vec_u8-append, read_u16-to_be_u16, read_u16, read_vec_u8, finish,
}
use ot_commissioner_rs.Dtls.Hello.{HelloVerifyRequest, validate_u8_len}

-- `HelloVerifyRequest::encode`
unfoldable pub encode : HelloVerifyRequest → Result Error Bytes
encode h = do
  validate_u8_len (length h.cookie) "HelloVerifyRequest cookie exceeds 255 bytes"
  ok (to_be_u16 h.server_version ++ (as_u8 (length h.cookie) ∷ h.cookie))

-- `HelloVerifyRequest::decode`
unfoldable pub decode : Bytes → Result Error HelloVerifyRequest
decode bytes = do
  (server_version, bytes) ← read_u16 bytes
  (cookie, bytes) ← read_vec_u8 bytes
  finish bytes
  ok (record { server_version = server_version; cookie = cookie })

-- A HelloVerifyRequest is read back from what it was written as.
pub decode-encode :
    (h : HelloVerifyRequest) (bytes : Bytes)
    → IsU16 h.server_version
    → encode h ≡ ok bytes
    → decode bytes ≡ ok h
unfolding encode decode finish
decode-encode h bytes w e =
    let (small, done) = fail_if-eq-ok (ltb 255 (length h.cookie)) _ _ e in
    let fits = ltb→le 255 (length h.cookie) small in
    let cookie = read_vec_u8-append h.cookie [] (omega arith) in
    let cookie' =
      subst (λ b. read_vec_u8 (as_u8 (length h.cookie) ∷ b) ≡ ok (h.cookie, []))
        (append-nil h.cookie) cookie in
    subst (λ b. decode b ≡ ok h) (ok-injective done)
      (rw (read_u16-to_be_u16 h.server_version (as_u8 (length h.cookie) ∷ h.cookie) w, cookie')
        refl)
