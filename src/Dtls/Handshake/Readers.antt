-- ===== src/Dtls/Handshake/Readers.antt =====
-- How crates/thread-dtls/src/handshake.rs reads a record's payload as unfragmented messages, and the
-- transcript that messages enter.
use ot_commissioner_rs.Base.{
  ◌+◌, Bool, not, ◌&&◌, List, [], ◌==◌, length, drop, Bytes, Result, ok, ◌>>=◌, ◌>>◌, fail_if,
}
use ot_commissioner_rs.Base.Loop.{decode_all}
use ot_commissioner_rs.Dtls.{Error, crypto}
use ot_commissioner_rs.Dtls.Record.{handshake, DtlsRecord}
use ot_commissioner_rs.Dtls.Handshake.{
  HandshakeType, HandshakeHeader, HandshakeFragment, HandshakeMessage, parse_fragment, same_content,
  same_type, handshake_header_len,
}

abbrev pub is_whole : HandshakeHeader → Bool
is_whole h = h.fragment_offset == 0 && h.fragment_length == h.len

abbrev pub message_of : HandshakeFragment → HandshakeMessage
message_of f = record {
  message_type = f.header.message_type;
  message_seq = f.header.message_seq;
  payload = f.fragment;
}

-- `parse_unfragmented_handshake_record`
unfoldable pub parse_unfragmented_record :
    DtlsRecord → HandshakeType → Result Error HandshakeMessage
parse_unfragmented_record r expected_type = do
  fail_if (not (same_content r.header.content_type handshake))
      (crypto "DTLS record is not a handshake record")
  f ← parse_fragment r.payload
  fail_if (not (handshake_header_len + length f.fragment == length r.payload))
      (crypto "DTLS record contains trailing handshake bytes")
  fail_if (not (same_type f.header.message_type expected_type))
      (crypto "unexpected DTLS handshake type")
  fail_if (not (is_whole f.header)) (crypto "DTLS handshake message is fragmented")
  ok (message_of f)

-- One round of the loop of `parse_unfragmented_handshake_messages`.
unfoldable pub parse_message : Bytes → Result Error (HandshakeMessage × Bytes)
parse_message bytes = do
  f ← parse_fragment bytes
  fail_if (not (is_whole f.header)) (crypto "DTLS handshake message is fragmented")
  ok (message_of f, drop (handshake_header_len + length f.fragment) bytes)

-- `parse_unfragmented_handshake_messages`
unfoldable pub parse_unfragmented_messages : DtlsRecord → Result Error (List HandshakeMessage)
parse_unfragmented_messages r = do
  fail_if (not (same_content r.header.content_type handshake))
      (crypto "DTLS record is not a handshake record")
  decode_all parse_message (length r.payload) r.payload []
