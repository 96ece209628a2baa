-- ===== src/Commissioner/Joiners.antt =====
-- crates/ot-commissioner-rs/src/commissioner/joiner.rs: which joiners are enabled, and what a joiner
-- sends to be finalized. A string is its UTF-8 bytes.
pub mod Table
mod Tests
use ot_commissioner_rs.Base.{
  ℕ, bit_xor, not, Option, none, some, List, [], ◌∷◌, ◌++◌, retain, find, if◌then◌else◌, Bytes,
  String, Result, ok, err, ◌>>=◌, ok_or, map_err, transpose,
}
use ot_commissioner_rs.Base.Utf8.{is_utf8}
use ot_commissioner_rs.Errors.{Error, tlv, dataset}
use ot_commissioner_rs.Tlv.{parse, last_value}
use ot_commissioner_rs.Meshcop.Constants.{
  tlv_state, tlv_vendor_name, tlv_vendor_model, tlv_vendor_sw_version, tlv_vendor_stack_version,
  tlv_provisioning_url, tlv_vendor_data,
}
use ot_commissioner_rs.Meshcop.Parsers.{same_string, required_tlv}

abbrev pub local_external_addr_mask : ℕ
local_external_addr_mask = 2

unfoldable pub joiner_id_from_iid : Bytes → Bytes
joiner_id_from_iid [] = []
joiner_id_from_iid (b ∷ bs) = bit_xor b local_external_addr_mask ∷ bs

pub record StaticJoinerHandler : Type 0 where
  pub wildcard_pskd : Option Bytes
  pub by_joiner_id : List (Bytes × Bytes)

-- `StaticJoinerHandler::new`
abbrev pub new : StaticJoinerHandler
new = record { wildcard_pskd = none; by_joiner_id = [] }

unfoldable pub enable_all : Bytes → StaticJoinerHandler → StaticJoinerHandler
enable_all pskd h = record h { wildcard_pskd = some pskd }

unfoldable pub enable_joiner_id : Bytes → Bytes → StaticJoinerHandler → StaticJoinerHandler
enable_joiner_id joiner_id pskd h = record h {
  by_joiner_id =
      retain (λ e. not (same_string e.0 joiner_id)) h.by_joiner_id ++ (joiner_id, pskd) ∷ [];
}

unfoldable pub disable_joiner_id : Bytes → StaticJoinerHandler → StaticJoinerHandler
disable_joiner_id joiner_id h = record h {
  by_joiner_id = retain (λ e. not (same_string e.0 joiner_id)) h.by_joiner_id;
}

unfoldable pub disable_all : StaticJoinerHandler → StaticJoinerHandler
disable_all h = record h { wildcard_pskd = none }

-- `found.map(..).or_else(..)`
unfoldable pub pskd_or : Option (Bytes × Bytes) → Option Bytes → Option Bytes
pskd_or none wildcard = wildcard
pskd_or (some e) wildcard = some e.1

unfoldable pub joiner_pskd : Bytes → StaticJoinerHandler → Option Bytes
unfolding pskd_or
joiner_pskd joiner_id h =
    pskd_or (find (λ e. same_string e.0 joiner_id) h.by_joiner_id) h.wildcard_pskd

pub record JoinerFinalizeInfo : Type 0 where
  pub vendor_name : Bytes
  pub vendor_model : Bytes
  pub vendor_sw_version : Bytes
  pub vendor_stack_version : Bytes
  pub provisioning_url : Option Bytes
  pub vendor_data : Option Bytes

-- The closure `utf8`, with its whole text.
utf8 : String → Bytes → Result Error Bytes
utf8 message value = if is_utf8 value then ok value else err (dataset message)

-- `JoinerFinalizeInfo::from_payload`
unfoldable pub from_payload : Bytes → Result Error JoinerFinalizeInfo
unfolding utf8
from_payload payload = do
  tlvs ← map_err tlv (parse payload)
  state ← required_tlv tlvs tlv_state "JOIN_FIN.req missing State TLV"
  name ← required_tlv tlvs tlv_vendor_name "JOIN_FIN.req missing Vendor Name TLV"
  name ← utf8 "JOIN_FIN.req Vendor Name TLV is not UTF-8" name
  model ← required_tlv tlvs tlv_vendor_model "JOIN_FIN.req missing Vendor Model TLV"
  model ← utf8 "JOIN_FIN.req Vendor Model TLV is not UTF-8" model
  version ← required_tlv tlvs tlv_vendor_sw_version "JOIN_FIN.req missing Vendor SW Version TLV"
  version ← utf8 "JOIN_FIN.req Vendor SW Version TLV is not UTF-8" version
  stack ← required_tlv tlvs tlv_vendor_stack_version "JOIN_FIN.req missing Vendor Stack Version TLV"
  url ←
      transpose (utf8 "JOIN_FIN.req Provisioning URL TLV is not UTF-8")
        (last_value tlv_provisioning_url tlvs)
  ok (record {
    vendor_name = name;
    vendor_model = model;
    vendor_sw_version = version;
    vendor_stack_version = stack;
    provisioning_url = url;
    vendor_data = last_value tlv_vendor_data tlvs;
  })
