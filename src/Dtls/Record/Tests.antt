-- ===== src/Dtls/Record/Tests.antt =====
-- Concrete datagrams, and the theorems at them.
use ot_commissioner_rs.Base.{◌≡◌, refl, [], ◌∷◌, ◌++◌, ok, err, Bytes, All, arith}
use ot_commissioner_rs.Base.Loop.{decode_all}
use ot_commissioner_rs.Dtls.{crypto}
use ot_commissioner_rs.Dtls.Record.{
  DtlsRecord, handshake, change_cipher_spec, encode, encode_header, parse_header, parse_record,
  parse_datagram,
}
use ot_commissioner_rs.Dtls.Record.Header.{IsWire}
use ot_commissioner_rs.Dtls.Record.Datagram.{
  EncodesTo, parse_datagram-encode, encode-parse_datagram,
}

abbrev finished : DtlsRecord
finished = record {
  header = record {
    content_type = handshake;
    version = 0xfefd;
    epoch = 1;
    sequence_number = 0x0102_0304_0506;
    len = 2;
  };
  payload = 0xaa ∷ 0xbb ∷ [];
}

abbrev change : DtlsRecord
change = record {
  header = record {
    content_type = change_cipher_spec;
    version = 0xfefd;
    epoch = 0;
    sequence_number = 3;
    len = 1;
  };
  payload = 1 ∷ [];
}

abbrev change_bytes : Bytes
change_bytes = 20 ∷ 0xfe ∷ 0xfd ∷ 0 ∷ 0 ∷ 0 ∷ 0 ∷ 0 ∷ 0 ∷ 0 ∷ 3 ∷ 0 ∷ 1 ∷ 1 ∷ []

abbrev finished_bytes : Bytes
finished_bytes = 22 ∷ 0xfe ∷ 0xfd ∷ 0 ∷ 1 ∷ 1 ∷ 2 ∷ 3 ∷ 4 ∷ 5 ∷ 6 ∷ 0 ∷ 2 ∷ 0xaa ∷ 0xbb ∷ []

encode-change : encode change ≡ ok change_bytes
unfolding encode encode_header
encode-change = refl

encode-finished : encode finished ≡ ok finished_bytes
unfolding encode encode_header
encode-finished = refl

parse_cut : parse_datagram (20 ∷ 0xfe ∷ 0xfd ∷ []) ≡ err (crypto "DTLS record header is truncated")
unfolding parse_datagram parse_record parse_header decode_all
parse_cut = refl

both-EncodesTo : EncodesTo (change ∷ finished ∷ []) (change_bytes ++ finished_bytes)
both-EncodesTo = (
  change_bytes,
  finished_bytes,
  refl,
  encode-change,
  (finished_bytes, [], refl, encode-finished, refl),
)

both-IsWire : All (λ (r : DtlsRecord). IsWire r.header) (change ∷ finished ∷ [])
both-IsWire = omega arith

parse_datagram-encode_example :
    parse_datagram (change_bytes ++ finished_bytes) ≡ ok (change ∷ finished ∷ [])
parse_datagram-encode_example =
    parse_datagram-encode (change ∷ finished ∷ []) (change_bytes ++ finished_bytes) both-IsWire
      both-EncodesTo

encode-parse_datagram_example :
    EncodesTo (change ∷ finished ∷ []) (change_bytes ++ finished_bytes)
    × All (λ (r : DtlsRecord). IsWire r.header) (change ∷ finished ∷ [])
encode-parse_datagram_example =
    encode-parse_datagram (change_bytes ++ finished_bytes) (change ∷ finished ∷ []) (omega arith)
      parse_datagram-encode_example
