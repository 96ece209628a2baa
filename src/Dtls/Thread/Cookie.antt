-- ===== src/Dtls/Thread/Cookie.antt =====
-- `DtlsCookieGenerator` of crates/thread-dtls/src/thread_server_handshake.rs.
use ot_commissioner_rs.Base.{
  ℕ, Bool, false, Bytes, take, same_bytes, Result, ok, err, stuck, ◌>>=◌, ok_or,
}
use ot_commissioner_rs.Dtls.{Error, crypto}
use ot_commissioner_rs.Dtls.KeySchedule.{Mac}

pub record DtlsCookieGenerator : Type 0 where
  pub key : Bytes

abbrev pub dtls_cookie_len : ℕ
dtls_cookie_len = 16

abbrev matches : Result Error Bytes → Bytes → Bool
matches (ok expected) cookie = same_bytes expected cookie
matches (err e) cookie = false
matches stuck cookie = false

module _ (h : Mac) where
  -- `DtlsCookieGenerator::cookie`
  unfoldable pub cookie : DtlsCookieGenerator → Bytes → Result Error Bytes
  cookie g client_random = do
    digest ← ok_or (h.mac g.key client_random) (crypto "invalid cookie HMAC key")
    ok (take dtls_cookie_len digest)

  -- `DtlsCookieGenerator::verify`
  unfoldable pub verify_cookie : DtlsCookieGenerator → Bytes → Bytes → Bool
  verify_cookie g client_random echoed = matches (cookie g client_random) echoed
