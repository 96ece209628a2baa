-- ===== src/Dtls/Session/Tests.antt =====
-- A session at a toy cipher, and the theorems at it.
use ot_commissioner_rs.Base.{
  none, List, ℕ, ◌≡◌, refl, false, some, [], ◌∷◌, Bytes, ok, replicate, ◌<◌, ◌^◌, All, Option,
  arith,
}
use ot_commissioner_rs.Base.Loop.{decode_all}
use ot_commissioner_rs.Dtls.KeySchedule.{ThreadDtlsKeyMaterial}
use ot_commissioner_rs.Dtls.Protection.{protect, open_record, dtls_ccm_nonce}
use ot_commissioner_rs.Dtls.Protection.Toy.{toy}
use ot_commissioner_rs.Dtls.Record.{
  DtlsRecord, application_data, new as new_record, encode, encode_header, parse_header,
  parse_record, parse_datagram,
}
use ot_commissioner_rs.Dtls.Record.Header.{IsWire}
use ot_commissioner_rs.Dtls.Replay.{has_seen, mark_seen}
use ot_commissioner_rs.Dtls.Replay.Window.{marks, is_refused, has_seen-marks}
use ot_commissioner_rs.Dtls.Session.{
  SessionState, client, server, new, protect_application_data, open_application_data, sent, taken,
  Received, datagram, timed_out, recv_records, recv_application_data, received, records, one_record,
  from_open,
}
use ot_commissioner_rs.Dtls.Session.Io.{datagram_of, gone, send_records, delay_duration}
use ot_commissioner_rs.Dtls.Session.Io.Laws.{total, recv_records-send_records, delay_duration-total}
use ot_commissioner_rs.Dtls.Session.Receive.{Leaves, recv_application_data-Leaves}
use ot_commissioner_rs.Dtls.Session.Runs.{Run, Holds, Run-Holds, start, sends, opens}
use ot_commissioner_rs.Dtls.Session.Transfer.{open_application_data-protect_application_data}

abbrev keys : ThreadDtlsKeyMaterial
keys = record {
  master_secret = [];
  key_block = record {
    client_write_key = replicate 16 1;
    server_write_key = replicate 16 2;
    client_write_iv = replicate 4 3;
    server_write_iv = replicate 4 4;
  };
}

abbrev hi : Bytes
hi = 0x68 ∷ 0x69 ∷ []

abbrev record_of : ℕ → DtlsRecord
record_of n = record {
  header = record {
    content_type = application_data;
    version = 0xfefd;
    epoch = 1;
    sequence_number = n;
    len = 18;
  };
  payload = 0 ∷ 1 ∷ 0 ∷ 0 ∷ 0 ∷ 0 ∷ 0 ∷ n ∷ 0x68 ∷ 0x69 ∷ replicate 8 7;
}

abbrev after_send : SessionState
after_send = record (new keys client) { next_application_sequence = 2 }

abbrev after_open : SessionState
after_open = record after_send {
  application_replay = mark_seen 5 (new keys client).application_replay;
}

first_send :
    protect_application_data toy (new keys client) hi
    ≡ (record (new keys client) { next_application_sequence = 2 }, ok (record_of 1))
unfolding protect_application_data sent protect dtls_ccm_nonce new_record
first_send = refl

first_sent : (protect_application_data toy (new keys client) hi).1 ≡ ok (record_of 1)
unfolding protect_application_data sent protect dtls_ccm_nonce new_record
first_sent = refl

first_opened :
    (open_application_data toy
      (protect_application_data toy (new keys client) hi).0
      (record_of 5)).1
    ≡ ok (some hi)
unfolding open_application_data taken protect_application_data sent protect dtls_ccm_nonce
    new_record has_seen open_record
first_opened = refl

first_run :
    Run toy keys client
      (open_application_data toy
        (protect_application_data toy (new keys client) hi).0
        (record_of 5)).0
      (1 ∷ [])
      (5 ∷ [])
first_run = opens (record_of 5) hi (sends hi (record_of 1) start first_sent) first_opened

Run-Holds_example :
    Holds keys client
      (open_application_data toy
        (protect_application_data toy (new keys client) hi).0
        (record_of 5)).0
      (1 ∷ [])
      (5 ∷ [])
Run-Holds_example = Run-Holds toy keys client first_run

unseen : has_seen (new keys server).application_replay 1 ≡ false
unfolding has_seen
unseen = refl

open_application_data-protect_application_data_example :
    open_application_data toy (new keys server) (record_of 1) ≡ (
      record (new keys server) {
        application_replay = mark_seen 1 (new keys server).application_replay;
      },
      ok (some hi),
    )
open_application_data-protect_application_data_example =
    open_application_data-protect_application_data toy (new keys client) (new keys server) hi
      (record_of 1) refl refl refl unseen first_sent

has_seen-marks_example : has_seen (marks (3 ∷ 90 ∷ 5 ∷ [])) 26 ≡ is_refused (3 ∷ 90 ∷ 5 ∷ []) 26
has_seen-marks_example = has_seen-marks (3 ∷ 90 ∷ 5 ∷ []) 26

abbrev datagram_bytes : Bytes
datagram_bytes = 23 ∷ 0xfe ∷ 0xfd ∷ 0 ∷ 1 ∷ 0 ∷ 0 ∷ 0 ∷ 0 ∷ 0 ∷ 1 ∷ 0 ∷ 18 ∷ (record_of 1).payload

abbrev first_events : List (Received ℕ)
first_events = datagram datagram_bytes 2 ∷ datagram datagram_bytes 1 ∷ timed_out ∷ []

abbrev channel : Bytes → Option ℕ
channel bytes = none

wire : IsWire (record_of 1).header
wire = record {
  version = omega arith;
  epoch = omega arith;
  sequence_number = omega arith;
  len = omega arith;
}

was_sent : send_records channel (record_of 1 ∷ []) ≡ ok datagram_bytes
unfolding send_records gone datagram_of encode encode_header
was_sent = refl

recv_application_data-Leaves_example :
    Leaves toy keys client [] []
      (recv_application_data toy (new keys client) 1 first_events).0
      (recv_application_data toy (new keys client) 1 first_events).1
recv_application_data-Leaves_example =
    recv_application_data-Leaves toy keys client [] (new keys client) [] 1 first_events start

-- A datagram of another sender is passed over.
received_once : (recv_application_data toy (new keys client) 1 first_events).1 ≡ ok hi
unfolding recv_application_data received recv_records records one_record from_open
    open_application_data taken has_seen open_record parse_datagram parse_record parse_header
    decode_all
received_once = refl

recv_records-send_records_example :
    (channel (datagram_bytes) ≡ none)
    × (recv_records {E = ℕ} (datagram datagram_bytes 1) ≡ ok (record_of 1 ∷ [], 1))
recv_records-send_records_example =
    recv_records-send_records channel (record_of 1 ∷ []) datagram_bytes 1 (wire, tt) was_sent
      (omega arith)

delay_duration-total_example :
    (total (delay_duration 5_000_000_000) ≡ 5_000_000_000)
    × All (λ c. (0 < c) × (c < 2 ^ 32)) (delay_duration 5_000_000_000)
delay_duration-total_example = delay_duration-total 5_000_000_000
