-- ===== src/Meshcop/Diag/Tests.antt =====
-- Concrete diagnostic values, and the theorems at them.
use ot_commissioner_rs.Base.{
  ◌≡◌, ◌⊎◌, refl, true, false, [], ◌∷◌, ◌++◌, ok, err, some, Bytes, arith, length, map, retain,
  ◌==◌,
}
use ot_commissioner_rs.Base.Int.{pos, negsuc}
use ot_commissioner_rs.Errors.{Error}
use ot_commissioner_rs.Meshcop.Diag.{
  ModeData, ChildTableEntry, BorderRouterEntry, PrefixEntry, NetDiagData, RouteDataEntry, Route64,
  empty, timeout_seconds,
}
use ot_commissioner_rs.Meshcop.Diag.Children.{child_bytes, decode_child_table-bytes}
use ot_commissioner_rs.Meshcop.Diag.Decode.{decode, decode_entry}
use ot_commissioner_rs.Meshcop.Diag.Ends.{decode_ends}
use ot_commissioner_rs.Meshcop.Diag.Entries.{flat}
use ot_commissioner_rs.Meshcop.Diag.Fields.{
  decode_mode, decode_route64, decode_child_table, range_from, read_u16, router_ids, route_entries,
  assigned, parent_priority,
}
use ot_commissioner_rs.Meshcop.Diag.Network.{decode_network_data}
use ot_commissioner_rs.Meshcop.Diag.Prefixes.{network_bytes, PrefixFits, decode_network_data-bytes}
use ot_commissioner_rs.Meshcop.Diag.Routes.{decode_route64-inverse, route_byte, mask_bit}
use ot_commissioner_rs.Meshcop.Diag.Unknown.{is_known, decode-retain}
use ot_commissioner_rs.Tlv.{parse_one, TlvEntry, TlvSet, parse, encode, encode_entry}

priorities : map parent_priority (0 ∷ 1 ∷ 2 ∷ 3 ∷ []) ≡ pos 0 ∷ pos 1 ∷ negsuc 1 ∷ negsuc 0 ∷ []
unfolding parent_priority
priorities = refl

abbrev payload : Bytes
payload = 1 ∷ 2 ∷ 0x28 ∷ 0x01 ∷ 99 ∷ 1 ∷ 5 ∷ 2 ∷ 1 ∷ 0x0d ∷ []

abbrev known_payload : Bytes
known_payload = 1 ∷ 2 ∷ 0x28 ∷ 0x01 ∷ 2 ∷ 1 ∷ 0x0d ∷ []

abbrev tlvs : TlvSet
tlvs = record {
  entries =
      record { ty = 1; value = 0x28 ∷ 0x01 ∷ [] }
      ∷ record { ty = 99; value = 5 ∷ [] }
      ∷ record { ty = 2; value = 0x0d ∷ [] }
      ∷ [];
}

abbrev mode : ModeData
mode = record { rx_on_when_idle = true; is_mtd = true; requires_full_network_data = true }

payload_decodes : decode payload ≡ ok (record empty { mac_addr = some 0x2801; mode = some mode })
unfolding decode decode_entry parse parse_one decode_mode read_u16
payload_decodes = refl

decode_ends_example :
    ((d : NetDiagData) × (decode payload ≡ ok d)) ⊎ ((e : Error) × (decode payload ≡ err e))
decode_ends_example = decode_ends payload

tlvs_encode : encode tlvs ≡ ok payload
unfolding encode encode_entry
tlvs_encode = refl

known_encode :
    encode (record { entries = retain (λ (e : TlvEntry). is_known e.ty) tlvs.entries })
    ≡ ok known_payload
unfolding encode encode_entry retain
known_encode = refl

decode-retain_example : decode payload ≡ decode known_payload
decode-retain_example = decode-retain tlvs payload known_payload tlvs_encode known_encode

-- Routers 0 and 63.
abbrev route_value : Bytes
route_value = 7 ∷ 0x80 ∷ 0 ∷ 0 ∷ 0 ∷ 0 ∷ 0 ∷ 0 ∷ 0x01 ∷ 0xb1 ∷ 0x5f ∷ []

abbrev routes : Route64
routes = record {
  id_sequence = 7;
  mask = 0x80 ∷ 0 ∷ 0 ∷ 0 ∷ 0 ∷ 0 ∷ 0 ∷ 0x01 ∷ [];
  route_data =
      record { router_id = 0; outgoing_link_quality = 2; incoming_link_quality = 3; route_cost = 1 }
      ∷ record {
        router_id = 63;
        outgoing_link_quality = 1;
        incoming_link_quality = 1;
        route_cost = 15;
      }
      ∷ [];
}

routes_decode : decode_route64 route_value ≡ ok routes
unfolding decode_route64 router_ids route_entries retain range_from assigned
routes_decode = refl

decode_route64-inverse_example :
    (route_value ≡ 7 ∷ (routes.mask ++ map route_byte routes.route_data))
    × (length routes.mask ≡ 8)
    × (map (λ (e : RouteDataEntry). e.router_id) routes.route_data
        ≡ retain (λ id. mask_bit routes.mask id == 1) (range_from 64 0))
decode_route64-inverse_example =
    decode_route64-inverse route_value routes (omega arith) routes_decode

abbrev child : ChildTableEntry
child = record { timeout_exponent = 12; incoming_link_quality = 3; child_id = 0x1a5; mode = mode }

child_timeout : timeout_seconds child ≡ 256
unfolding timeout_seconds
child_timeout = refl

decode_child_table-bytes_example :
    decode_child_table (flat (map child_bytes (child ∷ child ∷ []))) ≡ ok (child ∷ child ∷ [])
decode_child_table-bytes_example = decode_child_table-bytes (child ∷ child ∷ []) (omega arith)

abbrev router : BorderRouterEntry
router = record {
  rloc16 = 0x0400;
  prefix_preference = 1;
  is_preferred = true;
  is_slaac = true;
  is_dhcp = false;
  is_configure = false;
  is_default_route = true;
  is_on_mesh = true;
  is_nd_dns = false;
  is_dp = true;
}

abbrev prefix : PrefixEntry
prefix = record {
  domain_id = 0;
  prefix_bit_length = 12;
  prefix = 0xfd ∷ 0x10 ∷ [];
  six_low_pan_context = some (record { is_compress = true; context_id = 1; context_length = 64 });
  has_route = record { rloc16 = 0x2800; router_preference = 3; is_nat64 = true } ∷ [];
  border_routers = router ∷ router ∷ [];
}

prefix_fits : PrefixFits prefix
prefix_fits = record {
  prefix = refl;
  routes = omega arith;
  routers = omega arith;
  context = omega arith;
}

decode_network_data-bytes_example :
    decode_network_data (network_bytes true (prefix ∷ prefix ∷ []))
    ≡ ok (record { prefixes = prefix ∷ prefix ∷ [] })
decode_network_data-bytes_example =
    decode_network_data-bytes true (prefix ∷ prefix ∷ []) (prefix_fits, (prefix_fits, tt))
