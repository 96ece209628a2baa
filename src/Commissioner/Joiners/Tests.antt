-- ===== src/Commissioner/Joiners/Tests.antt =====
-- A concrete table and request, and the theorem at them.
use ot_commissioner_rs.Base.{
  ◌≡◌, refl, some, none, [], ◌∷◌, ok, err, Bytes, if◌then◌else◌, find, retain,
}
use ot_commissioner_rs.Base.Loop.{decode_all}
use ot_commissioner_rs.Base.Utf8.{utf8_from, lead}
use ot_commissioner_rs.Errors.{dataset}
use ot_commissioner_rs.Tlv.{parse, parse_one, last_value}
use ot_commissioner_rs.Meshcop.Parsers.{same_string, required_tlv}
use ot_commissioner_rs.Commissioner.Joiners.{
  StaticJoinerHandler, new, enable_all, enable_joiner_id, disable_joiner_id, joiner_pskd,
  joiner_id_from_iid, from_payload,
}
use ot_commissioner_rs.Commissioner.Joiners.Table.{joiner_pskd-enable_joiner_id}

abbrev first : Bytes
first = 1 ∷ 2 ∷ 3 ∷ 4 ∷ 5 ∷ 6 ∷ 7 ∷ 8 ∷ []

abbrev second : Bytes
second = 1 ∷ 2 ∷ 3 ∷ 4 ∷ 5 ∷ 6 ∷ 7 ∷ 9 ∷ []

-- "J01" for all, "J02" for the second.
abbrev table : StaticJoinerHandler
table = record {
  wildcard_pskd = some (74 ∷ 48 ∷ 49 ∷ []);
  by_joiner_id = (second, 74 ∷ 48 ∷ 50 ∷ []) ∷ [];
}

table_enabled :
    enable_joiner_id second (74 ∷ 48 ∷ 50 ∷ []) (enable_all (74 ∷ 48 ∷ 49 ∷ []) new) ≡ table
unfolding enable_joiner_id enable_all retain
table_enabled = refl

joiner_pskd-first : joiner_pskd first table ≡ some (74 ∷ 48 ∷ 49 ∷ [])
unfolding joiner_pskd find same_string
joiner_pskd-first = refl

joiner_pskd-enable_joiner_id_example :
    (joiner_pskd second (enable_joiner_id first (88 ∷ []) table)
      ≡ (if same_string first second then some (88 ∷ []) else joiner_pskd second table))
    × (joiner_pskd second (disable_joiner_id first table)
        ≡ (if same_string first second then table.wildcard_pskd else joiner_pskd second table))
joiner_pskd-enable_joiner_id_example = joiner_pskd-enable_joiner_id first second (88 ∷ []) table

joiner_id_from_iid-first : joiner_id_from_iid first ≡ 3 ∷ 2 ∷ 3 ∷ 4 ∷ 5 ∷ 6 ∷ 7 ∷ 8 ∷ []
unfolding joiner_id_from_iid
joiner_id_from_iid-first = refl

from_payload-full :
    from_payload (16 ∷ 1 ∷ 1 ∷ 33 ∷ 1 ∷ 65 ∷ 34 ∷ 1 ∷ 66 ∷ 35 ∷ 1 ∷ 67 ∷ 37 ∷ 2 ∷ 9 ∷ 9 ∷ [])
    ≡ ok (record {
      vendor_name = 65 ∷ [];
      vendor_model = 66 ∷ [];
      vendor_sw_version = 67 ∷ [];
      vendor_stack_version = 9 ∷ 9 ∷ [];
      provisioning_url = none;
      vendor_data = none;
    })
unfolding from_payload parse parse_one decode_all last_value find required_tlv utf8_from lead
from_payload-full = refl

from_payload-nothing : from_payload [] ≡ err (dataset "JOIN_FIN.req missing State TLV")
unfolding from_payload parse parse_one decode_all last_value find required_tlv
from_payload-nothing = refl
