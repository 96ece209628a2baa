-- ===== src/Dtls/Session/Io.antt =====
-- The input and output of crates/thread-dtls/src/driver.rs: sending records, the race of a receive with
-- its timer, and the timer's chunks.
pub mod Laws
use ot_commissioner_rs.Base.{
  ℕ, zero, suc, ◌-◌, Bool, true, false, Option, none, some, List, [], ◌∷◌, ◌++◌, ltb, if◌then◌else◌,
  map_err, ok_or, Bytes, Result, ok, err, stuck, ◌>>=◌,
}
use ot_commissioner_rs.Dtls.{Error}
use ot_commissioner_rs.Dtls.Record.{DtlsRecord, encode}
use ot_commissioner_rs.Dtls.Session.{
  DriverError, protocol, transport, Received, failed, timed_out, datagram,
}

-- The loop of `send_records`.
unfoldable pub datagram_of : List DtlsRecord → Result Error Bytes
datagram_of [] = ok []
datagram_of (r ∷ rs) = do bytes ← encode r; rest ← datagram_of rs; ok (bytes ++ rest)

-- What the transport made of a datagram: its error, or that it was sent.
unfoldable pub gone : {E : Type 0} → Bytes → Option E → Result (DriverError E) Bytes
gone bytes none = ok bytes
gone bytes (some e) = err (transport e)

-- `send_records` over the send of a datagram. It gives the datagram that was sent, in place of the unit.
unfoldable pub send_records :
    {E : Type 0} → (Bytes → Option E) → List DtlsRecord → Result (DriverError E) Bytes
unfolding gone
send_records send rs = map_err protocol (datagram_of rs) >>= λ bytes. gone bytes (send bytes)

-- What one poll finds: the receive's result, if it is ready, and whether the timer is.
pub record Polled (E : Type 0) : Type 0 where
  pub receive : Option (Result E (Bytes × ℕ))
  pub timer_is_ready : Bool

-- The receive is asked first.
polled :
    {E : Type 0} → Option (Result E (Bytes × ℕ)) → Bool → Option (Received E) → Option (Received E)
polled (some (ok (bytes, source))) ready later = some (datagram bytes source)
polled (some (err e)) ready later = some (failed e)
polled (some stuck) ready later = none
polled none true later = some timed_out
polled none false later = later

-- `recv_with_timeout` over the polls, in their order; `none` waits for more.
unfoldable pub recv_with_timeout : {E : Type 0} → List (Polled E) → Option (Received E)
unfolding polled
recv_with_timeout [] = none
recv_with_timeout (p ∷ ps) = polled p.receive p.timer_is_ready (recv_with_timeout ps)

abbrev pub u32_max : ℕ
u32_max = 0xffff_ffff

unfoldable pub chunk_of : ℕ → ℕ
chunk_of nanoseconds = if ltb nanoseconds u32_max then nanoseconds else u32_max

-- `delay_duration`: the nanoseconds of each call of the timer. Each takes at least one, so the
-- duration is fuel enough.
unfoldable pub delays : ℕ → ℕ → List ℕ
delays zero nanoseconds = []
delays (suc fuel) nanoseconds =
    let rest = delays fuel (nanoseconds - chunk_of nanoseconds) in
    if ltb 0 nanoseconds then chunk_of nanoseconds ∷ rest else []

unfoldable pub delay_duration : ℕ → List ℕ
delay_duration nanoseconds = delays nanoseconds nanoseconds
