-- ===== src/Dtls/Session.antt =====
-- The established session of crates/thread-dtls/src/driver.rs: `SessionState`, and the records that it
-- receives. The transport and the timer are events: what each receive gives.
pub mod Io
pub mod Outcomes
pub mod Receive
pub mod Runs
pub mod Transfer
mod Tests
use ot_commissioner_rs.Base.{
  ℕ, ◌+◌, ◌%◌, ◌^◌, Bool, ◌&&◌, Option, none, some, List, [], ◌∷◌, ltb, leb, ◌==◌, if◌then◌else◌,
  length, get_or, Bytes, Result, ok, err, stuck, ◌>>=◌, map_err,
}
use ot_commissioner_rs.Dtls.{Error, crypto, crypto_format}
use ot_commissioner_rs.Dtls.KeySchedule.{ThreadDtlsKeyMaterial}
use ot_commissioner_rs.Dtls.Protection.{Aead, protect, open_record}
use ot_commissioner_rs.Dtls.Record.{
  ContentType, change_cipher_spec, alert, handshake, application_data, to_u8, DtlsRecord,
  parse_datagram,
}
use ot_commissioner_rs.Dtls.Replay.{DtlsReplayWindow, new as new_window, has_seen, mark_seen}

-- `E` is the transport's error.
pub data DriverError (E : Type 0) : Type 0 where
  protocol : Error → DriverError E
  transport : E → DriverError E
  timeout : DriverError E

pub data SessionRole : Type 0 where
  client server : SessionRole

pub record SessionState : Type 0 where
  pub key_material : ThreadDtlsKeyMaterial
  pub role : SessionRole
  pub next_application_sequence : ℕ
  pub application_replay : DtlsReplayWindow

-- `SessionState::new`
abbrev pub new : ThreadDtlsKeyMaterial → SessionRole → SessionState
new key_material role = record {
  key_material = key_material;
  role = role;
  next_application_sequence = 1;
  application_replay = new_window;
}

-- The key and the fixed IV that a role writes with, and those that its peer does.
abbrev pub write_keys : ThreadDtlsKeyMaterial → SessionRole → Bytes × Bytes
write_keys k client = (k.key_block.client_write_key, k.key_block.client_write_iv)
write_keys k server = (k.key_block.server_write_key, k.key_block.server_write_iv)

abbrev pub read_keys : ThreadDtlsKeyMaterial → SessionRole → Bytes × Bytes
read_keys k client = (k.key_block.server_write_key, k.key_block.server_write_iv)
read_keys k server = (k.key_block.client_write_key, k.key_block.client_write_iv)

-- The sequence advances only behind a record that was made.
pub sent : SessionState → Result Error DtlsRecord → SessionState × Result Error DtlsRecord
sent s (ok r) =
    (record s { next_application_sequence = (s.next_application_sequence + 1) % 2 ^ 64 }, ok r)
sent s (err e) = (s, err e)
sent s stuck = (s, stuck)

-- The window is marked only behind a record that was opened.
taken : SessionState → ℕ → Result Error Bytes → SessionState × Result Error (Option Bytes)
taken s sequence (ok plaintext) =
    (record s { application_replay = mark_seen sequence s.application_replay }, ok (some plaintext))
taken s sequence (err e) = (s, err e)
taken s sequence stuck = (s, stuck)

-- `decode_alert_error`
unfoldable pub decode_alert_error : DtlsRecord → Error
decode_alert_error r =
    if leb 2 (length r.payload)
    then crypto_format "DTLS alert epoch={} seq={} level={} description={}" (
        r.header.epoch
        ∷ r.header.sequence_number
        ∷ get_or r.payload 0 0
        ∷ get_or r.payload 1 0
        ∷ [])
    else crypto_format "DTLS alert epoch={} seq={} received"
        (r.header.epoch ∷ r.header.sequence_number ∷ [])

-- What a receive gives: the transport's error, the end of the timer, or a datagram with its sender.
pub data Received (E : Type 0) : Type 0 where
  failed : E → Received E
  timed_out : Received E
  datagram : Bytes → ℕ → Received E

abbrev pub max_datagram_size : ℕ
max_datagram_size = 4096

-- `recv_records`, less the local address
unfoldable pub recv_records :
    {E : Type 0} → Received E → Result (DriverError E) (List DtlsRecord × ℕ)
recv_records (failed e) = err (transport e)
recv_records timed_out = err timeout
recv_records (datagram bytes source) =
    if ltb max_datagram_size (length bytes)
    then err (protocol (crypto "DTLS datagram is too long"))
    else (map_err protocol (parse_datagram bytes) >>= λ parsed. ok (parsed, source))

-- What a record makes the loop do: go on, or return a result.
pub data Next : Type 0 where
  go_on : SessionState → Next
  give : SessionState → Result Error Bytes → Next

abbrev pub follow : Next → (SessionState → Next) → Next
follow (go_on s) rest = rest s
follow (give s result) rest = give s result

-- The end of a datagram's records: the next receive, or the result.
abbrev pub ends :
    {E : Type 0}
    → Next
    → (SessionState → SessionState × Result (DriverError E) Bytes)
    → SessionState × Result (DriverError E) Bytes
ends (go_on s) rest = rest s
ends (give s result) rest = (s, map_err protocol result)

module _ (aead : Aead) where
  -- `SessionState::protect_application_data`
  unfoldable pub protect_application_data :
      SessionState → Bytes → SessionState × Result Error DtlsRecord
  unfolding sent
  protect_application_data s plaintext =
      let (key, iv) = write_keys s.key_material s.role in
      sent s (protect aead application_data 1 s.next_application_sequence key iv plaintext)

  -- `SessionState::open_application_data`
  unfoldable pub open_application_data :
      SessionState → DtlsRecord → SessionState × Result Error (Option Bytes)
  unfolding taken
  open_application_data s r =
      let (key, iv) = read_keys s.key_material s.role in
      if has_seen s.application_replay r.header.sequence_number
      then (s, ok none)
      else taken s r.header.sequence_number (open_record aead r key iv)

  -- The arms of the match on a record of `recv_application_data`.
  abbrev pub is_application : DtlsRecord → Bool
  is_application r = r.header.epoch == 1 && to_u8 r.header.content_type == 23

  abbrev pub is_alert : DtlsRecord → Bool
  is_alert r = to_u8 r.header.content_type == 21

  from_open : SessionState × Result Error (Option Bytes) → Next
  from_open (s, ok none) = go_on s
  from_open (s, ok (some plaintext)) = give s (ok plaintext)
  from_open (s, err e) = give s (err e)
  from_open (s, stuck) = give s stuck

  -- One record of the loop of `recv_application_data`.
  unfoldable pub one_record : SessionState → DtlsRecord → Next
  unfolding from_open
  one_record s r =
      if is_application r
      then from_open (open_application_data s r)
      else if is_alert r
      then give s (err (decode_alert_error r))
      else go_on s

  -- The records of a datagram. Those behind the record that ends the loop are dropped.
  unfoldable pub records : SessionState → List DtlsRecord → Next
  unfolding one_record
  records s [] = go_on s
  records s (r ∷ rs) = follow (one_record s r) (λ t. records t rs)

  -- A datagram of another sender is passed over.
  received :
      {E : Type 0}
      → ℕ
      → SessionState
      → Result (DriverError E) (List DtlsRecord × ℕ)
      → (SessionState → SessionState × Result (DriverError E) Bytes)
      → SessionState × Result (DriverError E) Bytes
  received peer s (ok (parsed, source)) rest =
      if source == peer then ends (records s parsed) rest else rest s
  received peer s (err e) rest = (s, err e)
  received peer s stuck rest = (s, stuck)

  -- `recv_application_data` over what the receives give, in their order; `stuck` waits for more.
  unfoldable pub recv_application_data :
      {E : Type 0}
      → SessionState
      → ℕ
      → List (Received E)
      → SessionState × Result (DriverError E) Bytes
  unfolding received recv_records
  recv_application_data s peer [] = (s, stuck)
  recv_application_data s peer (e ∷ es) =
      received peer s (recv_records e) (λ t. recv_application_data t peer es)
