-- ===== src/Meshcop/Diag/Fields.antt =====
-- The decoders of diag/decode.rs for the values of single TLVs, less the network data.
use ot_commissioner_rs.Base.{
  ℕ, zero, suc, ◌+◌, ◌-◌, ◌*◌, ◌/◌, ◌%◌, ◌^◌, Bool, not, ◌||◌, none, some, List, [], ◌∷◌, ltb, leb,
  ◌==◌, if◌then◌else◌, bit_and, bit_or, length, take, drop, get_or, retain, Bytes, from_be_u16,
  from_be_u32, String, Result, ok, err, ◌>>=◌, ◌>>◌, fail_if,
}
use ot_commissioner_rs.Base.Int.{ℤ, pos, negsuc}
use ot_commissioner_rs.Errors.{Error, dataset, dataset_format}
use ot_commissioner_rs.Meshcop.Diag.{
  ModeData, ChildTableEntry, LeaderData, RouteDataEntry, Route64, ChildIpv6AddrInfo, MacCounters,
  Connectivity,
}

-- `b & mask != 0`
abbrev pub has_bits : ℕ → ℕ → Bool
has_bits b mask = not (bit_and b mask == 0)

-- `chunks_exact`: so many chunks of `n` bytes.
unfoldable pub exact_rounds : ℕ → ℕ → Bytes → List Bytes
exact_rounds zero n bytes = []
exact_rounds (suc k) n bytes = take n bytes ∷ exact_rounds k n (drop n bytes)

unfoldable pub chunks_exact : ℕ → Bytes → List Bytes
unfolding exact_rounds
chunks_exact n bytes = exact_rounds (length bytes / n) n bytes

-- `value[i]`, where the length was checked.
abbrev pub at : Bytes → ℕ → ℕ
at value i = get_or value i 0

abbrev pub u16_at : Bytes → ℕ → ℕ
u16_at value i = from_be_u16 (at value i) (at value (i + 1))

abbrev pub u32_at : Bytes → ℕ → ℕ
u32_at value i = from_be_u32 (at value i) (at value (i + 1)) (at value (i + 2)) (at value (i + 3))

-- `ModeData::decode`
unfoldable pub decode_mode : Bytes → Result Error ModeData
decode_mode (mode ∷ []) = ok (record {
  rx_on_when_idle = has_bits mode 0x08;
  is_mtd = not (has_bits mode 0x02);
  requires_full_network_data = has_bits mode 0x01;
})
decode_mode value = err (dataset_format "Mode value must be 1 byte, got {}" (length value ∷ []))

-- `match value[0] >> 6`
unfoldable pub parent_priority : ℕ → ℤ
parent_priority top =
    if top == 1 then pos 1 else if top == 0 then pos 0 else if top == 3 then negsuc 0 else negsuc 1

unfoldable pub decode_connectivity : Bytes → Result Error Connectivity
unfolding parent_priority
decode_connectivity value = do
  fail_if (ltb (length value) 7)
      (dataset_format "Connectivity must be at least 7 bytes, got {}" (length value ∷ []))
  let long = leb 10 (length value)
  ok (record {
    parent_priority = parent_priority (at value 0 / 2 ^ 6);
    link_quality_3 = at value 1;
    link_quality_2 = at value 2;
    link_quality_1 = at value 3;
    leader_cost = at value 4;
    id_sequence = at value 5;
    active_routers = at value 6;
    rx_off_child_buffer_size = if long then some (u16_at value 7) else none;
    rx_off_child_datagram_count = if long then some (at value 9) else none;
  })

abbrev pub router_id_mask_len : ℕ
router_id_mask_len = 8

-- `start..start + n`
unfoldable pub range_from : ℕ → ℕ → List ℕ
range_from zero start = []
range_from (suc n) start = start ∷ range_from n (start + 1)

-- `mask[bit / 8] & (0x80 >> (bit % 8)) != 0`
unfoldable pub assigned : Bytes → ℕ → Bool
assigned mask bit = has_bits (at mask (bit / 8)) (0x80 / 2 ^ (bit % 8))

unfoldable pub router_ids : Bytes → List ℕ
unfolding retain range_from assigned
router_ids mask = retain (assigned mask) (range_from (router_id_mask_len * 8) 0)

-- `into_iter().zip(route_bytes).map(..)`
unfoldable pub route_entries : List ℕ → Bytes → List RouteDataEntry
route_entries [] bytes = []
route_entries (router_id ∷ ids) [] = []
route_entries (router_id ∷ ids) (byte ∷ bytes) =
    record {
      router_id = router_id;
      outgoing_link_quality = bit_and (byte / 2 ^ 6) 0x03;
      incoming_link_quality = bit_and (byte / 2 ^ 4) 0x03;
      route_cost = bit_and byte 0x0f;
    }
    ∷ route_entries ids bytes

unfoldable pub decode_route64 : Bytes → Result Error Route64
unfolding router_ids route_entries
decode_route64 value = do
  fail_if (ltb (length value) (router_id_mask_len + 1))
      (dataset_format "Route64 must be at least {} bytes, got {}" (9 ∷ length value ∷ []))
  let mask = take router_id_mask_len (drop 1 value)
  let ids = router_ids mask
  let route_bytes = drop (1 + router_id_mask_len) value
  fail_if (not (length route_bytes == length ids)) (
      dataset_format "Route64 route data has {} entries but the mask assigns {} router IDs"
        (length route_bytes ∷ length ids ∷ []))
  ok (record { id_sequence = at value 0; mask = mask; route_data = route_entries ids route_bytes })

unfoldable pub decode_leader_data : Bytes → Result Error LeaderData
decode_leader_data value = do
  fail_if (not (length value == 8))
      (dataset_format "Leader Data must be 8 bytes, got {}" (length value ∷ []))
  ok (record {
    partition_id = u32_at value 0;
    weighting = at value 4;
    data_version = at value 5;
    stable_data_version = at value 6;
    router_id = at value 7;
  })

unfoldable pub decode_ipv6_address_list : Bytes → Result Error (List Bytes)
unfolding chunks_exact
decode_ipv6_address_list value = do
  fail_if (not (length value % 16 == 0))
      (dataset_format "IPv6 address list length {} is not a multiple of 16" (length value ∷ []))
  ok (chunks_exact 16 value)

unfoldable pub decode_mac_counters : Bytes → Result Error MacCounters
decode_mac_counters value = do
  fail_if (not (length value == 36))
      (dataset_format "MAC Counters must be 36 bytes, got {}" (length value ∷ []))
  ok (record {
    if_in_unknown_protos = u32_at value 0;
    if_in_errors = u32_at value 4;
    if_out_errors = u32_at value 8;
    if_in_ucast_pkts = u32_at value 12;
    if_in_broadcast_pkts = u32_at value 16;
    if_in_discards = u32_at value 20;
    if_out_ucast_pkts = u32_at value 24;
    if_out_broadcast_pkts = u32_at value 28;
    if_out_discards = u32_at value 32;
  })

-- The closure of `decode_child_table` on one chunk. The nine bits of the id do not overlap.
unfoldable pub child_entry : Bytes → Result Error ChildTableEntry
child_entry chunk = do
  mode ← decode_mode (take 1 (drop 2 chunk))
  ok (record {
    timeout_exponent = at chunk 0 / 2 ^ 3;
    incoming_link_quality = bit_and (at chunk 0 / 2) 0x03;
    child_id = bit_or (bit_and (at chunk 0) 0x01 * 2 ^ 8) (at chunk 1);
    mode = mode;
  })

-- `collect` into a result: the first error ends it.
unfoldable pub child_entries : List Bytes → Result Error (List ChildTableEntry)
child_entries [] = ok []
child_entries (chunk ∷ chunks) = do
  entry ← child_entry chunk
  entries ← child_entries chunks
  ok (entry ∷ entries)

unfoldable pub decode_child_table : Bytes → Result Error (List ChildTableEntry)
unfolding chunks_exact child_entries
decode_child_table value = do
  fail_if (not (length value % 3 == 0)) (
      dataset_format "Child Table length {} is not a multiple of {CHILD_ENTRY_LEN}"
        (length value ∷ []))
  child_entries (chunks_exact 3 value)

unfoldable pub decode_child_ipv6_addresses : Bytes → Result Error ChildIpv6AddrInfo
decode_child_ipv6_addresses value = do
  fail_if (ltb (length value) 2 || not ((length value - 2) % 16 == 0))
      (dataset "Child IPv6 Address List must be an RLOC16 followed by whole addresses")
  let rloc16 = u16_at value 0
  addresses ← decode_ipv6_address_list (drop 2 value)
  ok (record { rloc16 = rloc16; child_id = bit_and rloc16 0x01ff; addresses = addresses })

-- `name` stands for the whole text, "{name} must be 1 byte, got {}", and so for the others.
unfoldable pub read_u8 : Bytes → String → Result Error ℕ
read_u8 (byte ∷ []) name = ok byte
read_u8 value name = err (dataset_format name (length value ∷ []))

unfoldable pub read_u16 : Bytes → String → Result Error ℕ
read_u16 (b0 ∷ b1 ∷ []) name = ok (from_be_u16 b0 b1)
read_u16 value name = err (dataset_format name (length value ∷ []))

unfoldable pub read_u32 : Bytes → String → Result Error ℕ
read_u32 (b0 ∷ b1 ∷ b2 ∷ b3 ∷ []) name = ok (from_be_u32 b0 b1 b2 b3)
read_u32 value name = err (dataset_format name (length value ∷ []))
