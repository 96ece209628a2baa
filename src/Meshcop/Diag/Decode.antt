-- ===== src/Meshcop/Diag/Decode.antt =====
-- `NetDiagData::decode` of diag/decode.rs, with the TLV types of `diag_tlv`.
use ot_commissioner_rs.Base.{
  ℕ, not, Option, none, some, List, [], ◌∷◌, ◌++◌, ◌==◌, if◌then◌else◌, length, Bytes, Result, ok,
  ◌>>=◌, ◌>>◌, fail_if, map_err,
}
use ot_commissioner_rs.Errors.{Error, tlv, dataset_format}
use ot_commissioner_rs.Tlv.{TlvEntry, parse}
use ot_commissioner_rs.Meshcop.Diag.{NetDiagData, ChildIpv6AddrInfo, empty}
use ot_commissioner_rs.Meshcop.Diag.Fields.{
  decode_mode, decode_connectivity, decode_route64, decode_leader_data, decode_ipv6_address_list,
  decode_mac_counters, decode_child_table, decode_child_ipv6_addresses, read_u8, read_u16, read_u32,
}
use ot_commissioner_rs.Meshcop.Diag.Network.{decode_network_data}

abbrev pub ext_mac_address : ℕ
ext_mac_address = 0

abbrev pub mac_address : ℕ
mac_address = 1

abbrev pub mode : ℕ
mode = 2

abbrev pub timeout : ℕ
timeout = 3

abbrev pub connectivity : ℕ
connectivity = 4

abbrev pub route64 : ℕ
route64 = 5

abbrev pub leader_data : ℕ
leader_data = 6

abbrev pub network_data : ℕ
network_data = 7

abbrev pub ipv6_addresses : ℕ
ipv6_addresses = 8

abbrev pub mac_counters : ℕ
mac_counters = 9

abbrev pub battery_level : ℕ
battery_level = 14

abbrev pub supply_voltage : ℕ
supply_voltage = 15

abbrev pub child_table : ℕ
child_table = 16

abbrev pub channel_pages : ℕ
channel_pages = 17

abbrev pub type_list : ℕ
type_list = 18

abbrev pub eui64 : ℕ
eui64 = 23

abbrev pub child_ipv6_addresses : ℕ
child_ipv6_addresses = 30

-- `value.try_into()` into `[u8; 8]`
unfoldable pub read_eui64 : Bytes → Result Error Bytes
read_eui64 value = do
  fail_if (not (length value == 8))
      (dataset_format "EUI-64 must be 8 bytes, got {}" (length value ∷ []))
  ok value

-- `get_or_insert_with(Vec::new).push(..)`
abbrev pub pushed : Option (List ChildIpv6AddrInfo) → ChildIpv6AddrInfo → List ChildIpv6AddrInfo
pushed none info = info ∷ []
pushed (some infos) info = infos ++ info ∷ []

-- The arms of the match from the battery level on; an unknown type is ignored.
unfoldable pub entry_high : ℕ → Bytes → NetDiagData → Result Error NetDiagData
unfolding read_eui64
entry_high ty value out =
    if ty == battery_level
    then (read_u8 value "Battery Level must be 1 byte, got {}" >>= λ x.
        ok (record out { battery_level = some x }))
    else if ty == supply_voltage
    then (read_u16 value "Supply Voltage must be 2 bytes, got {}" >>= λ x.
        ok (record out { supply_voltage = some x }))
    else if ty == child_table
    then (decode_child_table value >>= λ x. ok (record out { child_table = some x }))
    else if ty == channel_pages
    then ok (record out { channel_pages = some value })
    else if ty == type_list
    then ok (record out { type_list = some value })
    else if ty == eui64
    then (read_eui64 value >>= λ x. ok (record out { eui64 = some x }))
    else if ty == child_ipv6_addresses
    then (decode_child_ipv6_addresses value >>= λ x.
        ok (record out { child_ipv6_addresses = some (pushed out.child_ipv6_addresses x) }))
    else ok out

-- The arms from the route table to the counters.
unfoldable pub entry_mid : ℕ → Bytes → NetDiagData → Result Error NetDiagData
unfolding entry_high
entry_mid ty value out =
    if ty == route64
    then (decode_route64 value >>= λ x. ok (record out { route64 = some x }))
    else if ty == leader_data
    then (decode_leader_data value >>= λ x. ok (record out { leader_data = some x }))
    else if ty == network_data
    then (decode_network_data value >>= λ x. ok (record out { network_data = some x }))
    else if ty == ipv6_addresses
    then (decode_ipv6_address_list value >>= λ x. ok (record out { addresses = some x }))
    else if ty == mac_counters
    then (decode_mac_counters value >>= λ x. ok (record out { mac_counters = some x }))
    else entry_high ty value out

-- The body of the loop of `NetDiagData::decode`.
unfoldable pub decode_entry : ℕ → Bytes → NetDiagData → Result Error NetDiagData
unfolding entry_mid
decode_entry ty value out =
    if ty == ext_mac_address
    then ok (record out { ext_mac_addr = some value })
    else if ty == mac_address
    then (read_u16 value "MAC Address must be 2 bytes, got {}" >>= λ x.
        ok (record out { mac_addr = some x }))
    else if ty == mode
    then (decode_mode value >>= λ x. ok (record out { mode = some x }))
    else if ty == timeout
    then (read_u32 value "Timeout must be 4 bytes, got {}" >>= λ x.
        ok (record out { timeout = some x }))
    else if ty == connectivity
    then (decode_connectivity value >>= λ x. ok (record out { connectivity = some x }))
    else entry_mid ty value out

unfoldable pub decode_entries : List TlvEntry → NetDiagData → Result Error NetDiagData
decode_entries [] out = ok out
decode_entries (e ∷ es) out = decode_entry e.ty e.value out >>= λ next. decode_entries es next

-- `NetDiagData::decode`
unfoldable pub decode : Bytes → Result Error NetDiagData
unfolding decode_entries
decode payload = do tlvs ← map_err tlv (parse payload); decode_entries tlvs.entries empty
