-- ===== src/Dtls/Thread/Steps.antt =====
-- How a method with `?` and a push gives a result.
use ot_commissioner_rs.Base.{◌≡◌, refl, sym, ap, ◌∙◌, Result, ok, err, stuck, ◌>>=◌, ok-injective}
use ot_commissioner_rs.Dtls.{Error}
use ot_commissioner_rs.Dtls.EcJpake.Curve.{Curve}
use ot_commissioner_rs.Dtls.Handshake.{HandshakeMessage}
use ot_commissioner_rs.Dtls.Handshake.Transcript.{push}
use ot_commissioner_rs.Dtls.Thread.{on_ok}
use ot_commissioner_rs.Dtls.Thread.Client.{ThreadDtlsHandshake, recorded as client_recorded}
use ot_commissioner_rs.Dtls.Thread.Server.{ThreadDtlsServerHandshake, recorded as server_recorded}

pub on_ok-eq :
    {S A B : Type 0} (s left : S) (r : Result Error A) (f : A → S × Result Error B) (b : B)
    → on_ok s r f ≡ (left, ok b)
    → (a : A) × (r ≡ ok a) × (f a ≡ (left, ok b))
on_ok-eq s left (ok a) f b h = (a, refl, h)
on_ok-eq {S} {A} {B} s left (err e) f b h =
    let no : ◌≡◌ {A = Result Error B} (err e) (ok b) = ap (λ (x : S × Result Error B). x.1) h in
    absurd (cc)
on_ok-eq {S} {A} {B} s left stuck f b h =
    let no : ◌≡◌ {A = Result Error B} stuck (ok b) = ap (λ (x : S × Result Error B). x.1) h in
    absurd (cc)

-- What follows a push that gave a result.
pub pushed_then :
    {A : Type 0} (r : Result Error (Unit {0})) (a b : A)
    → (r >>= λ _. ok a) ≡ ok b
    → (r ≡ ok tt) × (a ≡ b)
pushed_then (ok u) a b h = (refl, ok-injective h)
pushed_then (err e) a b h = absurd (cc)
pushed_then stuck a b h = absurd (cc)

pair_eq : {A B : Type 0} (x : A × B) (a : A) (b : B) → x.0 ≡ a → x.1 ≡ b → x ≡ (a, b)
pair_eq x a b p q = ap (λ y. (y, x.1)) p ∙ ap (λ y. (a, y)) q

module _ (c : Curve) where
  -- The message that was recorded is the one given, and it was pushed.
  pub server_recorded-eq :
      {A : Type 0} (s left : ThreadDtlsServerHandshake c) (m : HandshakeMessage) (a b : A)
      → server_recorded c s m a ≡ (left, ok b)
      → (push s.transcript m ≡ (left.transcript, ok tt))
        × (a ≡ b)
        × (left ≡ record s { transcript = left.transcript })
  server_recorded-eq {A} s left m a b h =
      let (done, same) =
        pushed_then (push s.transcript m).1 a b
          (ap (λ (x : ThreadDtlsServerHandshake c × Result Error A). x.1) h) in
      let is_left = ap (λ (x : ThreadDtlsServerHandshake c × Result Error A). x.0) h in
      let grown = ap (λ (x : ThreadDtlsServerHandshake c). x.transcript) is_left in
      (
        pair_eq (push s.transcript m) left.transcript (ok tt) grown done,
        same,
        sym is_left ∙ ap (λ t. record s { transcript = t }) grown,
      )

  pub client_recorded-eq :
      {A : Type 0} (s left : ThreadDtlsHandshake c) (m : HandshakeMessage) (a b : A)
      → client_recorded c s m a ≡ (left, ok b)
      → (push s.transcript m ≡ (left.transcript, ok tt))
        × (a ≡ b)
        × (left ≡ record s { transcript = left.transcript })
  client_recorded-eq {A} s left m a b h =
      let (done, same) =
        pushed_then (push s.transcript m).1 a b
          (ap (λ (x : ThreadDtlsHandshake c × Result Error A). x.1) h) in
      let is_left = ap (λ (x : ThreadDtlsHandshake c × Result Error A). x.0) h in
      let grown = ap (λ (x : ThreadDtlsHandshake c). x.transcript) is_left in
      (
        pair_eq (push s.transcript m) left.transcript (ok tt) grown done,
        same,
        sym is_left ∙ ap (λ t. record s { transcript = t }) grown,
      )
