-- ===== src/Meshcop/Parsers.antt =====
-- crates/ot-commissioner-rs/src/meshcop/parsers.rs: responses and notifications.
pub mod Masks
pub mod Relays
use ot_commissioner_rs.Base.{
  ℕ, Bool, true, false, not, ◌&&◌, Option, none, some, List, [], ◌∷◌, ◌==◌, if◌then◌else◌, bit_or,
  length, Bytes, String, from_be_u16, from_be_u32, Result, ok, err, ◌>>=◌, ◌>>◌, fail_if, ok_or,
  map_err, transpose, ltb, take, drop,
}
use ot_commissioner_rs.Base.Utf8.{is_utf8}
use ot_commissioner_rs.Errors.{Error, tlv, dataset, dataset_format}
use ot_commissioner_rs.Tlv.{TlvSet, parse, last_value, read_u16}
use ot_commissioner_rs.Dataset.{read_array}
use ot_commissioner_rs.Dataset.ChannelMask.{ChannelMaskEntry, parse_all}
use ot_commissioner_rs.Meshcop.Coap.{CoapMessage, changed}
use ot_commissioner_rs.Meshcop.Coap.UriPath.{uri_path}
use ot_commissioner_rs.Meshcop.Constants.{
  tlv_ipv6_address, tlv_udp_encapsulation, tlv_state, tlv_commissioner_session_id,
  tlv_commissioner_id, tlv_channel_mask, tlv_pan_id, tlv_energy_list, tlv_joiner_udp_port,
  tlv_joiner_router_locator, tlv_joiner_iid, tlv_joiner_dtls_encapsulation, uri_udp_rx,
  uri_mgmt_dataset_changed, uri_mgmt_panid_conflict, uri_mgmt_ed_report, uri_diag_get_answer,
  uri_relay_rx,
}
use ot_commissioner_rs.Meshcop.Types.{
  MeshcopState, from_wire, MeshcopPetitionResponse, MeshcopNotification, dataset_changed,
  diag_get_answer, pan_id_conflict, energy_report, relay_rx,
}

-- `==` on strings
unfoldable pub same_string : Bytes → Bytes → Bool
same_string [] [] = true
same_string [] (b ∷ bs) = false
same_string (a ∷ as') [] = false
same_string (a ∷ as') (b ∷ bs) = a == b && same_string as' bs

-- The message's name stands for the whole text, "missing {name} TLV".
unfoldable pub required_tlv : TlvSet → ℕ → String → Result Error Bytes
required_tlv tlvs ty missing = ok_or (last_value ty tlvs) (dataset missing)

pub record UdpRx : Type 0 where
  pub source_address : Bytes
  pub source_port : ℕ
  pub destination_port : ℕ
  pub payload : Bytes

-- The ports, and the datagram behind them.
ports : Bytes → Bytes → Result Error UdpRx
ports address (b0 ∷ b1 ∷ b2 ∷ b3 ∷ inner) = ok (record {
  source_address = address;
  source_port = from_be_u16 b0 b1;
  destination_port = from_be_u16 b2 b3;
  payload = inner;
})
ports address _ = err (dataset "UDP Encapsulation TLV must carry source and destination ports")

udp_rx : Bytes → Result Error (Option UdpRx)
unfolding ports
udp_rx payload = do
  tlvs ← map_err tlv (parse payload)
  address ← required_tlv tlvs tlv_ipv6_address "missing IPv6 Address TLV"
  fail_if (not (length address == 16)) (dataset "IPv6 Address TLV must be 16 bytes")
  encapsulation ← required_tlv tlvs tlv_udp_encapsulation "missing UDP Encapsulation TLV"
  found ← ports address encapsulation
  ok (some found)

-- A path is the one given.
is_at : Bytes → Option Bytes → Bool
is_at uri none = false
is_at uri (some path) = same_string path uri

unfoldable pub parse_udp_rx : CoapMessage → Result Error (Option UdpRx)
unfolding udp_rx is_at
parse_udp_rx m = uri_path m >>= λ path. if is_at uri_udp_rx path then udp_rx m.payload else ok none

state_of : Bytes → Result Error MeshcopState
state_of (b ∷ []) = from_wire b
state_of _ = err (dataset "State TLV must be 1 byte")

unfoldable pub parse_state : Bytes → Result Error (Option MeshcopState)
unfolding state_of
parse_state payload = do
  tlvs ← map_err tlv (parse payload)
  transpose state_of (last_value tlv_state tlvs)

is_none {ℓ} : {A : Type ℓ} → Option A → Bool
is_none none = true
is_none (some a) = false

unfoldable pub parse_state_response : CoapMessage → Bool → Result Error (Option MeshcopState)
unfolding is_none
parse_state_response response state_mandatory = do
  fail_if (not (response.code == changed))
      (dataset_format "expected CoAP Changed response, got 0x{:02x}" (response.code ∷ []))
  state ← parse_state response.payload
  fail_if (state_mandatory && is_none state) (dataset "missing MeshCoP State TLV")
  ok state

commissioner_id : Bytes → Result Error Bytes
commissioner_id value =
    if is_utf8 value then ok value else err (dataset "Commissioner ID TLV is not UTF-8")

unfoldable pub parse_petition_response : CoapMessage → Result Error MeshcopPetitionResponse
unfolding commissioner_id
parse_petition_response response = do
  checked ← parse_state_response response true
  tlvs ← map_err tlv (parse response.payload)
  state ← parse_state response.payload
  state ← ok_or state (dataset "missing petition State TLV")
  session_id ← map_err tlv (transpose read_u16 (last_value tlv_commissioner_session_id tlvs))
  existing ← transpose commissioner_id (last_value tlv_commissioner_id tlvs)
  ok (record { state = state; session_id = session_id; existing_commissioner_id = existing })

-- `page_zero_mask.unwrap_or(0) | mask`
joined : Option ℕ → ℕ → Option ℕ
joined none mask = some (bit_or 0 mask)
joined (some before) mask = some (bit_or before mask)

word_of : Bytes → Result Error ℕ
word_of (b0 ∷ b1 ∷ b2 ∷ b3 ∷ []) = ok (from_be_u32 b0 b1 b2 b3)
word_of _ = err (dataset "page-0 channel mask must be 4 bytes")

-- The loop over the entries, with `page_zero_mask`.
unfoldable pub page_zero_mask : List ChannelMaskEntry → Option ℕ → Result Error (Option ℕ)
unfolding joined word_of
page_zero_mask [] before = ok before
page_zero_mask (e ∷ es) before = elim (e.page == 0) [
  | true ↦ word_of e.mask >>= λ mask. page_zero_mask es (joined before mask)
  | false ↦ page_zero_mask es before
]

unfoldable pub channel_mask_from_value : Bytes → Result Error ℕ
channel_mask_from_value value = do
  entries ← parse_all value
  mask ← page_zero_mask entries none
  ok_or mask (dataset "no page-0 channel mask entry")

-- `unwrap_or`
or_else {ℓ} : {A : Type ℓ} → Option A → A → A
or_else none a = a
or_else (some b) a = b

-- `decode` is the decoder of network diagnostics, `NetDiagData::decode`.
module _ {D : Type 0} (decode : Bytes → Result Error D) where
  unfoldable pub panid_conflict : Bytes → Result Error (Option (MeshcopNotification D))
  panid_conflict payload = do
    tlvs ← map_err tlv (parse payload)
    value ← required_tlv tlvs tlv_channel_mask "missing Channel Mask TLV"
    channel_mask ← channel_mask_from_value value
    value ← required_tlv tlvs tlv_pan_id "missing PAN ID TLV"
    pan_id ← map_err tlv (read_u16 value)
    ok (some (pan_id_conflict channel_mask pan_id))

  unfoldable pub ed_report : Bytes → Result Error (Option (MeshcopNotification D))
  unfolding or_else
  ed_report payload = do
    tlvs ← map_err tlv (parse payload)
    channel_mask ← transpose channel_mask_from_value (last_value tlv_channel_mask tlvs)
    ok (
        some
          (energy_report (or_else channel_mask 0) (or_else (last_value tlv_energy_list tlvs) [])))

  unfoldable pub relayed : Bytes → Result Error (Option (MeshcopNotification D))
  relayed payload = do
    tlvs ← map_err tlv (parse payload)
    value ← required_tlv tlvs tlv_joiner_udp_port "missing Joiner UDP Port TLV"
    joiner_udp_port ← map_err tlv (read_u16 value)
    value ← required_tlv tlvs tlv_joiner_router_locator "missing Joiner Router Locator TLV"
    joiner_router_locator ← map_err tlv (read_u16 value)
    value ← required_tlv tlvs tlv_joiner_iid "missing Joiner IID TLV"
    joiner_iid ← read_array 8 value
    payload ←
        required_tlv tlvs tlv_joiner_dtls_encapsulation "missing Joiner DTLS Encapsulation TLV"
    ok (some (relay_rx joiner_udp_port joiner_router_locator joiner_iid payload))

  at_path : Bytes → Bytes → Result Error (Option (MeshcopNotification D))
  at_path path payload =
      if same_string path uri_mgmt_dataset_changed
      then ok (some dataset_changed)
      else if same_string path uri_mgmt_panid_conflict
      then panid_conflict payload
      else if same_string path uri_mgmt_ed_report
      then ed_report payload
      else if same_string path uri_diag_get_answer
      then (decode payload >>= λ data'. ok (some (diag_get_answer data')))
      else if same_string path uri_relay_rx
      then relayed payload
      else ok none

  notification_at : Option Bytes → Bytes → Result Error (Option (MeshcopNotification D))
  unfolding at_path
  notification_at none payload = ok none
  notification_at (some path) payload = at_path path payload

  unfoldable pub parse_notification : CoapMessage → Result Error (Option (MeshcopNotification D))
  unfolding notification_at
  parse_notification m = uri_path m >>= λ path. notification_at path m.payload
