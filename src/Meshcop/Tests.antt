-- ===== src/Meshcop/Tests.antt =====
-- Concrete requests and notifications, and the theorems at them.
use ot_commissioner_rs.Base.{
  retain, replicate, ◌≡◌, refl, some, false, [], ◌∷◌, ok, err, Bytes, Result, arith,
}
use ot_commissioner_rs.Base.Utf8.{split, utf8_from, lead}
use ot_commissioner_rs.Dataset.ChannelMask.{encode_all}
use ot_commissioner_rs.Errors.{Error, dataset}
use ot_commissioner_rs.Meshcop.Builders.{
  append_tlv, append_kek, keep_alive_request, udp_tx_request, relay_tx_request_with_kek,
  channel_mask_value,
}
use ot_commissioner_rs.Meshcop.Coap.{CoapMessage, confirmable, non_confirmable}
use ot_commissioner_rs.Meshcop.Coap.UriPath.{
  path_option, uri_path, post_request, set_uri_path, trimmed, push_segments, segments,
}
use ot_commissioner_rs.Meshcop.Constants.{uri_udp_rx, uri_relay_rx}
use ot_commissioner_rs.Meshcop.Flags.{commissioner_dataset_tlv_types, flag_types}
use ot_commissioner_rs.Meshcop.Parsers.{parse_notification}
use ot_commissioner_rs.Meshcop.Parsers.Relays.{parse_notification-relay_tx_request}
use ot_commissioner_rs.Meshcop.Types.{relay_rx}
use ot_commissioner_rs.Tlv.{encode_entry, encode_header}

abbrev keep_alive : CoapMessage
keep_alive = record {
  ty = confirmable;
  code = 2;
  message_id = 7;
  token = [];
  options = path_option (99 ∷ []) ∷ path_option (99 ∷ 97 ∷ []) ∷ [];
  payload = 16 ∷ 1 ∷ 255 ∷ 11 ∷ 2 ∷ 0x12 ∷ 0x34 ∷ [];
}

keep_alive_request-keep_alive : keep_alive_request 7 [] 0x1234 false ≡ ok keep_alive
unfolding keep_alive_request append_tlv encode_entry encode_header post_request set_uri_path trimmed
    push_segments split retain
keep_alive_request-keep_alive = refl

-- fd00::1
abbrev address : Bytes
address = 0xfd ∷ 0 ∷ 0 ∷ 0 ∷ 0 ∷ 0 ∷ 0 ∷ 0 ∷ 0 ∷ 0 ∷ 0 ∷ 0 ∷ 0 ∷ 0 ∷ 0 ∷ 1 ∷ []

abbrev udp_payload : Bytes
udp_payload =
    49 ∷ 16 ∷ 0xfd ∷ 0 ∷ 0 ∷ 0 ∷ 0 ∷ 0 ∷ 0 ∷ 0 ∷ 0 ∷ 0 ∷ 0 ∷ 0 ∷ 0 ∷ 0 ∷ 0 ∷ 1 ∷ 48 ∷ 6 ∷ 0xf0
    ∷ 0xbf ∷ 0x16 ∷ 0x33 ∷ 8 ∷ 9 ∷ []

abbrev message : Bytes → Bytes → CoapMessage
message resource payload = record {
  ty = non_confirmable;
  code = 2;
  message_id = 1;
  token = [];
  options = path_option (99 ∷ []) ∷ path_option resource ∷ [];
  payload = payload;
}

udp_tx_request-message :
    udp_tx_request 1 [] address 5683 (8 ∷ 9 ∷ []) ≡ ok (message (117 ∷ 116 ∷ []) udp_payload)
unfolding udp_tx_request append_tlv encode_entry encode_header post_request set_uri_path trimmed
    push_segments split retain
udp_tx_request-message = refl

at_udp_rx : uri_path (message (117 ∷ 114 ∷ []) udp_payload) ≡ ok (some uri_udp_rx)
unfolding uri_path segments utf8_from lead
at_udp_rx = refl

abbrev iid : Bytes
iid = 1 ∷ 2 ∷ 3 ∷ 4 ∷ 5 ∷ 6 ∷ 7 ∷ 8 ∷ []

abbrev kek : Bytes
kek = replicate 16 9

abbrev relay_payload : Bytes
relay_payload =
    18 ∷ 2 ∷ 3 ∷ 0xe8 ∷ 20 ∷ 2 ∷ 0x5c ∷ 0 ∷ 19 ∷ 8 ∷ 1 ∷ 2 ∷ 3 ∷ 4 ∷ 5 ∷ 6 ∷ 7 ∷ 8 ∷ 17 ∷ 1 ∷ 22
    ∷ 21 ∷ 16 ∷ kek

relay_tx_request-message :
    relay_tx_request_with_kek 1 [] iid 1000 0x5c00 (22 ∷ []) (some kek)
    ≡ ok (message (116 ∷ 120 ∷ []) relay_payload)
unfolding relay_tx_request_with_kek append_kek append_tlv encode_entry encode_header post_request
    set_uri_path trimmed push_segments split retain
relay_tx_request-message = refl

at_relay_rx : uri_path (message (114 ∷ 120 ∷ []) relay_payload) ≡ ok (some uri_relay_rx)
unfolding uri_path segments utf8_from lead
at_relay_rx = refl

-- A decoder of diagnostics that refuses all.
abbrev refuse : Bytes → Result Error (Unit {0})
refuse bytes = err (dataset "no diagnostics")

parse_notification-relay_tx_request_example :
    parse_notification refuse (message (114 ∷ 120 ∷ []) relay_payload)
    ≡ ok (some (relay_rx 1000 0x5c00 iid (22 ∷ [])))
parse_notification-relay_tx_request_example =
    parse_notification-relay_tx_request refuse 1 [] iid 1000 0x5c00 (22 ∷ []) (some kek)
      (message (116 ∷ 120 ∷ []) relay_payload) (message (114 ∷ 120 ∷ []) relay_payload)
      (omega arith) (omega arith) relay_tx_request-message refl at_relay_rx

-- Channels 11 to 26.
channel_mask_value-channels : channel_mask_value 0x07ff_f800 ≡ ok (0 ∷ 4 ∷ 7 ∷ 0xff ∷ 0xf8 ∷ 0 ∷ [])
unfolding channel_mask_value encode_all
channel_mask_value-channels = refl

-- The flags for the border agent's locator and the steering data.
flags_chosen : commissioner_dataset_tlv_types 0xa000 ≡ 9 ∷ 8 ∷ []
unfolding commissioner_dataset_tlv_types flag_types
flags_chosen = refl
