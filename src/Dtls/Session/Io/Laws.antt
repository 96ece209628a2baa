-- ===== src/Dtls/Session/Io/Laws.antt =====
-- What is sent is received, and the timer waits as long as it was asked to.
use ot_commissioner_rs.Base.{
  ◌^◌, ℕ, zero, suc, ◌+◌, ◌-◌, ◌≤◌, ◌<◌, ◌≡◌, refl, sym, ap, subst, ◌∙◌, List, [], ◌∷◌, All, ltb,
  length, Bool-cases, inl, inr, Option, none, some, bind-eq-ok, Bytes, ok, map_err, ok-injective,
  map_err-eq-ok, le→ltb, ltb→lt, ltb→le, arith,
}
use ot_commissioner_rs.Dtls.Record.{DtlsRecord, encode}
use ot_commissioner_rs.Dtls.Record.Datagram.{EncodesTo, parse_datagram-encode}
use ot_commissioner_rs.Dtls.Record.Header.{IsWire}
use ot_commissioner_rs.Dtls.Session.{protocol, datagram, recv_records}
use ot_commissioner_rs.Dtls.Session.Io.{
  datagram_of, send_records, gone, delays, delay_duration, chunk_of,
}

abbrev pub total : List ℕ → ℕ
total [] = 0
total (n ∷ ns) = n + total ns

datagram_of-EncodesTo :
    (rs : List DtlsRecord) (bytes : Bytes) → datagram_of rs ≡ ok bytes → EncodesTo rs bytes
unfolding datagram_of
datagram_of-EncodesTo [] bytes h = sym (ok-injective h)
datagram_of-EncodesTo (r ∷ rs) bytes h =
    let (front, e, h1) = bind-eq-ok (encode r) _ h in
    let (back, more, h2) = bind-eq-ok (datagram_of rs) _ h1 in
    (front, back, sym (ok-injective h2), e, datagram_of-EncodesTo rs back more)

gone-ok :
    {E : Type 0} (bytes made : Bytes) (o : Option E)
    → gone made o ≡ ok bytes
    → (made ≡ bytes) × (o ≡ none)
unfolding gone
gone-ok bytes made none h = (ok-injective h, refl)
gone-ok bytes made (some e) h = absurd (cc)

-- The datagram that `send_records` sends for records with headers that the wire can hold, received
-- whole in the buffer of 4096 bytes, gives those records and the sender.
pub recv_records-send_records :
    {E : Type 0} (send : Bytes → Option E) (rs : List DtlsRecord) (bytes : Bytes) (source : ℕ)
    → All (λ r. IsWire r.header) rs
    → send_records send rs ≡ ok bytes
    → length bytes ≤ 4096
    → (send bytes ≡ none) × (recv_records {E = E} (datagram bytes source) ≡ ok (rs, source))
unfolding send_records recv_records
recv_records-send_records send rs bytes source wire h fits =
    let (made, e, h1) = bind-eq-ok (map_err protocol (datagram_of rs)) _ h in
    let (same, sent) = gone-ok bytes made (send made) h1 in
    let encodes =
      subst (EncodesTo rs) same
        (datagram_of-EncodesTo rs made (map_err-eq-ok protocol (datagram_of rs) e)) in
    (
      ap send (sym same) ∙ sent,
      rw (le→ltb 4096 (length bytes) fits, parse_datagram-encode rs bytes wire encodes) refl,
    )

chunk_of-bounds : (n : ℕ) → 0 < n → (0 < chunk_of n) × (chunk_of n ≤ n) × (chunk_of n < 2 ^ 32)
unfolding chunk_of
chunk_of-bounds n h = (ground arith, ground arith, ground arith)

delays-total :
    (fuel n : ℕ)
    → n ≤ fuel
    → (total (delays fuel n) ≡ n) × All (λ c. (0 < c) × (c < 2 ^ 32)) (delays fuel n)
unfolding delays
delays-total zero n h = (omega arith, tt)
delays-total (suc fuel) n h = elim (Bool-cases (ltb 0 n)) [
  | inr none_left ↦ rw none_left (omega (arith, ltb→le 0 n none_left), tt)
  | inl left ↦
      let (some_left, whole, fits) = chunk_of-bounds n (ltb→lt 0 n left) in
      let (t, b) = delays-total fuel (n - chunk_of n) (omega arith) in
      rw left (omega arith, ((some_left, fits), b))
]

-- The waits of the timer add up to the duration, and each fits in a u32 and is not zero.
pub delay_duration-total :
    (nanoseconds : ℕ)
    → (total (delay_duration nanoseconds) ≡ nanoseconds)
      × All (λ c. (0 < c) × (c < 2 ^ 32)) (delay_duration nanoseconds)
unfolding delay_duration
delay_duration-total nanoseconds = delays-total nanoseconds nanoseconds (omega arith)
