-- ===== src/Meshcop/Builders.antt =====
-- crates/ot-commissioner-rs/src/meshcop/builders.rs and util.rs: the requests of the commissioner. A
-- string is its UTF-8 bytes, an IPv6 address its sixteen octets.
pub mod Payloads
use ot_commissioner_rs.Base.{
  ℕ, Bool, true, false, not, Option, none, some, List, [], ◌∷◌, ◌++◌, ◌==◌, if◌then◌else◌, length,
  Bytes, to_be_u16, to_be_u32, Result, ok, err, ◌>>=◌, ◌>>◌, fail_if, map_err,
}
use ot_commissioner_rs.Errors.{Error, tlv, dataset, dataset_format}
use ot_commissioner_rs.Tlv.{encode_entry}
use ot_commissioner_rs.Dataset.{Dataset, to_bytes, pending_timestamp}
use ot_commissioner_rs.Dataset.Values.{timestamp_value}
use ot_commissioner_rs.Dataset.ChannelMask.{encode_all}
use ot_commissioner_rs.Meshcop.Coap.{CoapType, CoapMessage, confirmable, non_confirmable, is_empty}
use ot_commissioner_rs.Meshcop.Coap.UriPath.{post_request}
use ot_commissioner_rs.Meshcop.Constants.{
  tlv_commissioner_id, tlv_state, tlv_commissioner_session_id, tlv_get, tlv_secure_dissemination,
  tlv_channel_mask, tlv_count, tlv_period, tlv_pan_id, tlv_scan_duration, tlv_network_name,
  network_diag_tlv_type_list, thread_tlv_commissioner_session_id, thread_tlv_timeout,
  thread_tlv_ipv6_addresses, tlv_joiner_udp_port, tlv_joiner_router_locator, tlv_joiner_iid,
  tlv_joiner_dtls_encapsulation, tlv_joiner_router_kek, tlv_ipv6_address, tlv_udp_encapsulation,
  default_mm_port, uri_petitioning, uri_keep_alive, uri_mgmt_sec_pending_set,
  uri_mgmt_announce_begin, uri_mgmt_panid_query, uri_mgmt_ed_scan, uri_mgmt_net_migrate, uri_mlr,
  uri_relay_tx, uri_udp_tx,
}
use ot_commissioner_rs.Meshcop.Flags.{network_diag_tlv_types}
use ot_commissioner_rs.Meshcop.Types.{CommissionerOperation, path_of, to_wire, accept, reject}

-- On an error the caller drops `out`, so only its final contents are returned.
unfoldable pub append_tlv : Bytes → ℕ → Bytes → Result Error Bytes
append_tlv out ty value = map_err tlv (encode_entry (record { ty = ty; value = value }) out)

abbrev pub append_u8 : Bytes → ℕ → ℕ → Result Error Bytes
append_u8 out ty value = append_tlv out ty (value ∷ [])

abbrev pub append_u16 : Bytes → ℕ → ℕ → Result Error Bytes
append_u16 out ty value = append_tlv out ty (to_be_u16 value)

abbrev pub append_u32 : Bytes → ℕ → ℕ → Result Error Bytes
append_u32 out ty value = append_tlv out ty (to_be_u32 value)

-- `if confirmable { Confirmable } else { NonConfirmable }`
abbrev pub coap_type : Bool → CoapType
coap_type true = confirmable
coap_type false = non_confirmable

unfoldable pub petition_request : ℕ → Bytes → Bytes → Result Error CoapMessage
petition_request message_id token commissioner_id = do
  payload ← append_tlv [] tlv_commissioner_id commissioner_id
  post_request confirmable message_id token uri_petitioning payload

unfoldable pub keep_alive_request : ℕ → Bytes → ℕ → Bool → Result Error CoapMessage
keep_alive_request message_id token session_id keep_alive = do
  let state = if keep_alive then accept else reject
  payload ← append_tlv [] tlv_state (to_wire state ∷ [])
  payload ← append_u16 payload tlv_commissioner_session_id session_id
  post_request confirmable message_id token uri_keep_alive payload

-- The Get TLV, when types are asked for.
get_payload : Bytes → Result Error Bytes
get_payload get_tlv_types =
    if not (is_empty get_tlv_types) then append_tlv [] tlv_get get_tlv_types else ok []

unfoldable pub dataset_get_request :
    CommissionerOperation → ℕ → Bytes → Bytes → Result Error CoapMessage
unfolding get_payload
dataset_get_request operation message_id token get_tlv_types = do
  payload ← get_payload get_tlv_types
  post_request confirmable message_id token (path_of operation) payload

unfoldable pub dataset_set_request :
    CommissionerOperation → ℕ → Bytes → ℕ → Dataset → Result Error CoapMessage
dataset_set_request operation message_id token session_id d = do
  payload ← append_u16 [] tlv_commissioner_session_id session_id
  bytes ← to_bytes d
  post_request confirmable message_id token (path_of operation) (payload ++ bytes)

-- The timestamp that a secure dissemination begins with, when the dataset has one.
timestamp_bytes : Dataset → Result Error Bytes
timestamp_bytes d = do
  found ← pending_timestamp d
  ok (elim found [ none ↦ [] | some t ↦ timestamp_value t ])

unfoldable pub secure_pending_set_request :
    ℕ → Bytes → ℕ → ℕ → Bytes → Dataset → Result Error CoapMessage
unfolding timestamp_bytes
secure_pending_set_request message_id token session_id max_retrieval_timer retrieval_uri d = do
  timestamp ← timestamp_bytes d
  let secure_dissemination = timestamp ++ (to_be_u32 max_retrieval_timer ++ retrieval_uri)
  payload ← append_u16 [] tlv_commissioner_session_id session_id
  payload ← append_tlv payload tlv_secure_dissemination secure_dissemination
  bytes ← to_bytes d
  post_request confirmable message_id token uri_mgmt_sec_pending_set (payload ++ bytes)

unfoldable pub channel_mask_value : ℕ → Result Error Bytes
channel_mask_value channel_mask = do
  fail_if (channel_mask == 0) (dataset "channel mask must not be zero")
  encode_all (record { page = 0; mask = to_be_u32 channel_mask } ∷ [])

unfoldable pub announce_begin_request : ℕ → Bytes → ℕ → ℕ → ℕ → ℕ → Bool → Result Error CoapMessage
announce_begin_request message_id token session_id channel_mask count period_ms is_confirmable = do
  payload ← append_u16 [] tlv_commissioner_session_id session_id
  mask ← channel_mask_value channel_mask
  payload ← append_tlv payload tlv_channel_mask mask
  payload ← append_u8 payload tlv_count count
  payload ← append_u16 payload tlv_period period_ms
  post_request (coap_type is_confirmable) message_id token uri_mgmt_announce_begin payload

unfoldable pub pan_id_query_request : ℕ → Bytes → ℕ → ℕ → ℕ → Bool → Result Error CoapMessage
pan_id_query_request message_id token session_id channel_mask pan_id is_confirmable = do
  payload ← append_u16 [] tlv_commissioner_session_id session_id
  mask ← channel_mask_value channel_mask
  payload ← append_tlv payload tlv_channel_mask mask
  payload ← append_u16 payload tlv_pan_id pan_id
  post_request (coap_type is_confirmable) message_id token uri_mgmt_panid_query payload

pub record EnergyScanRequest : Type 0 where
  pub channel_mask : ℕ
  pub count : ℕ
  pub period_ms : ℕ
  pub scan_duration_ms : ℕ
  pub is_confirmable : Bool

unfoldable pub energy_scan_request : ℕ → Bytes → ℕ → EnergyScanRequest → Result Error CoapMessage
energy_scan_request message_id token session_id scan = do
  payload ← append_u16 [] tlv_commissioner_session_id session_id
  mask ← channel_mask_value scan.channel_mask
  payload ← append_tlv payload tlv_channel_mask mask
  payload ← append_u8 payload tlv_count scan.count
  payload ← append_u16 payload tlv_period scan.period_ms
  payload ← append_u16 payload tlv_scan_duration scan.scan_duration_ms
  post_request (coap_type scan.is_confirmable) message_id token uri_mgmt_ed_scan payload

unfoldable pub session_command_request :
    CommissionerOperation → ℕ → Bytes → ℕ → Bool → Result Error CoapMessage
session_command_request operation message_id token session_id is_confirmable = do
  payload ← append_u16 [] tlv_commissioner_session_id session_id
  post_request (coap_type is_confirmable) message_id token (path_of operation) payload

unfoldable pub migrate_request : ℕ → Bytes → ℕ → Bytes → Bool → Result Error CoapMessage
migrate_request message_id token session_id designated_network is_confirmable = do
  payload ← append_u16 [] tlv_commissioner_session_id session_id
  payload ← append_tlv payload tlv_network_name designated_network
  post_request (coap_type is_confirmable) message_id token uri_mgmt_net_migrate payload

unfoldable pub diagnostic_request :
    CommissionerOperation → ℕ → Bytes → ℕ → Bool → Result Error CoapMessage
diagnostic_request operation message_id token diag_data_flags is_confirmable = do
  payload ← append_tlv [] network_diag_tlv_type_list (network_diag_tlv_types diag_data_flags)
  post_request (coap_type is_confirmable) message_id token (path_of operation) payload

-- `Ipv6Addr::is_multicast`
is_multicast : Bytes → Bool
is_multicast [] = false
is_multicast (octet ∷ octets) = octet == 0xff

-- The loop over the addresses, which gives the bytes that it appends.
raw_addresses : List Bytes → Result Error Bytes
raw_addresses [] = ok []
raw_addresses (a ∷ as') = do
  fail_if (not (is_multicast a)) (dataset_format "{address} is not an IPv6 multicast address" a)
  rest ← raw_addresses as'
  ok (a ++ rest)

unfoldable pub multicast_listener_request :
    ℕ → Bytes → ℕ → List Bytes → ℕ → Result Error CoapMessage
unfolding raw_addresses is_multicast
multicast_listener_request message_id token session_id addresses timeout = do
  fail_if (is_empty addresses) (dataset "multicast listener request needs at least one address")
  addresses ← raw_addresses addresses
  payload ← append_u16 [] thread_tlv_commissioner_session_id session_id
  payload ← append_u32 payload thread_tlv_timeout timeout
  payload ← append_tlv payload thread_tlv_ipv6_addresses addresses
  post_request confirmable message_id token uri_mlr payload

-- The Joiner Router KEK TLV, when there is a key.
unfoldable pub append_kek : Bytes → Option Bytes → Result Error Bytes
append_kek body none = ok body
append_kek body (some kek) = append_tlv body tlv_joiner_router_kek kek

unfoldable pub relay_tx_request_with_kek :
    ℕ → Bytes → Bytes → ℕ → ℕ → Bytes → Option Bytes → Result Error CoapMessage
unfolding append_kek
relay_tx_request_with_kek message_id token joiner_iid joiner_udp_port joiner_router_locator payload
      kek =
    do
      fail_if (not (length joiner_iid == 8)) (dataset "joiner IID must be 8 bytes")
      body ← append_u16 [] tlv_joiner_udp_port joiner_udp_port
      body ← append_u16 body tlv_joiner_router_locator joiner_router_locator
      body ← append_tlv body tlv_joiner_iid joiner_iid
      body ← append_tlv body tlv_joiner_dtls_encapsulation payload
      body ← append_kek body kek
      post_request non_confirmable message_id token uri_relay_tx body

abbrev pub relay_tx_request : ℕ → Bytes → Bytes → ℕ → ℕ → Bytes → Result Error CoapMessage
relay_tx_request message_id token joiner_iid joiner_udp_port joiner_router_locator payload =
    relay_tx_request_with_kek message_id token joiner_iid joiner_udp_port joiner_router_locator
      payload none

unfoldable pub udp_tx_request : ℕ → Bytes → Bytes → ℕ → Bytes → Result Error CoapMessage
udp_tx_request message_id token destination destination_port inner = do
  let encapsulation = to_be_u16 default_mm_port ++ (to_be_u16 destination_port ++ inner)
  payload ← append_tlv [] tlv_ipv6_address destination
  payload ← append_tlv payload tlv_udp_encapsulation encapsulation
  post_request non_confirmable message_id token uri_udp_tx payload
