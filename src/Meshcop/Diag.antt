-- ===== src/Meshcop/Diag.antt =====
-- crates/ot-commissioner-rs/src/meshcop/diag/model.rs and the TLV types of diag/decode.rs: what a network
-- diagnostic answer holds. The decoders are in the child modules.
pub mod Fields
pub mod Network
pub mod Decode
pub mod Ends
pub mod Unknown
pub mod Entries
pub mod Children
pub mod Prefixes
pub mod Routes
mod Tests
use ot_commissioner_rs.Base.{ℕ, ◌-◌, ◌^◌, Bool, Option, none, List, ltb, if◌then◌else◌, Bytes}
use ot_commissioner_rs.Base.Int.{ℤ}

pub record ModeData : Type 0 where
  pub rx_on_when_idle : Bool
  pub is_mtd : Bool
  pub requires_full_network_data : Bool

pub record ChildTableEntry : Type 0 where
  pub timeout_exponent : ℕ
  pub incoming_link_quality : ℕ
  pub child_id : ℕ
  pub mode : ModeData

-- `ChildTableEntry::timeout_seconds`. The exponent has five bits, so the shift stays within a u32.
unfoldable pub timeout_seconds : ChildTableEntry → ℕ
timeout_seconds e = if ltb e.timeout_exponent 4 then 0 else 2 ^ (e.timeout_exponent - 4)

pub record LeaderData : Type 0 where
  pub partition_id : ℕ
  pub weighting : ℕ
  pub data_version : ℕ
  pub stable_data_version : ℕ
  pub router_id : ℕ

pub record RouteDataEntry : Type 0 where
  pub router_id : ℕ
  pub outgoing_link_quality : ℕ
  pub incoming_link_quality : ℕ
  pub route_cost : ℕ

pub record Route64 : Type 0 where
  pub id_sequence : ℕ
  pub mask : Bytes
  pub route_data : List RouteDataEntry

-- An IPv6 address is its 16 octets.
pub record ChildIpv6AddrInfo : Type 0 where
  pub rloc16 : ℕ
  pub child_id : ℕ
  pub addresses : List Bytes

pub record MacCounters : Type 0 where
  pub if_in_unknown_protos : ℕ
  pub if_in_errors : ℕ
  pub if_out_errors : ℕ
  pub if_in_ucast_pkts : ℕ
  pub if_in_broadcast_pkts : ℕ
  pub if_in_discards : ℕ
  pub if_out_ucast_pkts : ℕ
  pub if_out_broadcast_pkts : ℕ
  pub if_out_discards : ℕ

pub record Connectivity : Type 0 where
  pub parent_priority : ℤ
  pub link_quality_3 : ℕ
  pub link_quality_2 : ℕ
  pub link_quality_1 : ℕ
  pub leader_cost : ℕ
  pub id_sequence : ℕ
  pub active_routers : ℕ
  pub rx_off_child_buffer_size : Option ℕ
  pub rx_off_child_datagram_count : Option ℕ

pub record HasRouteEntry : Type 0 where
  pub rloc16 : ℕ
  pub router_preference : ℕ
  pub is_nat64 : Bool

pub record BorderRouterEntry : Type 0 where
  pub rloc16 : ℕ
  pub prefix_preference : ℕ
  pub is_preferred : Bool
  pub is_slaac : Bool
  pub is_dhcp : Bool
  pub is_configure : Bool
  pub is_default_route : Bool
  pub is_on_mesh : Bool
  pub is_nd_dns : Bool
  pub is_dp : Bool

pub record SixLowPanContext : Type 0 where
  pub is_compress : Bool
  pub context_id : ℕ
  pub context_length : ℕ

pub record PrefixEntry : Type 0 where
  pub domain_id : ℕ
  pub prefix_bit_length : ℕ
  pub prefix : Bytes
  pub six_low_pan_context : Option SixLowPanContext
  pub has_route : List HasRouteEntry
  pub border_routers : List BorderRouterEntry

pub record NetworkData : Type 0 where
  pub prefixes : List PrefixEntry

pub record NetDiagData : Type 0 where
  pub ext_mac_addr : Option Bytes
  pub mac_addr : Option ℕ
  pub mode : Option ModeData
  pub timeout : Option ℕ
  pub connectivity : Option Connectivity
  pub route64 : Option Route64
  pub leader_data : Option LeaderData
  pub network_data : Option NetworkData
  pub addresses : Option (List Bytes)
  pub mac_counters : Option MacCounters
  pub battery_level : Option ℕ
  pub supply_voltage : Option ℕ
  pub child_table : Option (List ChildTableEntry)
  pub channel_pages : Option Bytes
  pub type_list : Option Bytes
  pub eui64 : Option Bytes
  pub child_ipv6_addresses : Option (List ChildIpv6AddrInfo)

-- `NetDiagData::default`
abbrev pub empty : NetDiagData
empty = record {
  ext_mac_addr = none;
  mac_addr = none;
  mode = none;
  timeout = none;
  connectivity = none;
  route64 = none;
  leader_data = none;
  network_data = none;
  addresses = none;
  mac_counters = none;
  battery_level = none;
  supply_voltage = none;
  child_table = none;
  channel_pages = none;
  type_list = none;
  eui64 = none;
  child_ipv6_addresses = none;
}
