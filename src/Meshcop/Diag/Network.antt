-- ===== src/Meshcop/Diag/Network.antt =====
-- The decoders of diag/decode.rs for network data: its sub-TLVs and the prefix entries.
use ot_commissioner_rs.Base.{
  zero, suc, ℕ, ◌+◌, ◌/◌, ◌%◌, ◌^◌, not, none, some, List, [], ◌∷◌, ◌++◌, map, ltb, ◌==◌,
  if◌then◌else◌, bit_and, length, take, drop, Bytes, Result, ok, err, stuck, ◌>>=◌, ◌>>◌, fail_if,
}
use ot_commissioner_rs.Errors.{Error, dataset, dataset_format}
use ot_commissioner_rs.Meshcop.Diag.{
  HasRouteEntry, BorderRouterEntry, SixLowPanContext, PrefixEntry, NetworkData,
}
use ot_commissioner_rs.Meshcop.Diag.Fields.{has_bits, chunks_exact, at, u16_at}

-- `NetworkDataTlvIter::next` on bytes that are left: a type with its value, and the bytes behind. An
-- error ends the iterator, and the caller returns it.
unfoldable pub next_tlv : Bytes → Result Error ((ℕ × Bytes) × Bytes)
next_tlv (b0 ∷ b1 ∷ after_header) =
    if ltb (length after_header) b1
    then err (dataset "network data TLV value is truncated")
    else ok ((b0 / 2, take b1 after_header), drop b1 after_header)
next_tlv _ = err (dataset "network data TLV header is truncated")

-- The loop `for (ty, value) in NetworkDataTlvIter::new(value)` with a body that changes a state. Each
-- round takes two bytes at least, so the bytes' length is fuel enough.
unfoldable pub for_each_tlv :
    {S : Type 0} → (ℕ × Bytes → S → Result Error S) → ℕ → Bytes → S → Result Error S
for_each_tlv body fuel [] s = ok s
for_each_tlv body zero (b ∷ bs) s = stuck
for_each_tlv body (suc fuel) (b ∷ bs) s =
    next_tlv (b ∷ bs) >>= λ r. body r.0 s >>= λ t. for_each_tlv body fuel r.1 t

unfoldable pub has_route_entry : Bytes → HasRouteEntry
has_route_entry chunk = record {
  rloc16 = u16_at chunk 0;
  router_preference = bit_and (at chunk 2 / 2 ^ 6) 0x03;
  is_nat64 = has_bits (at chunk 2 / 2 ^ 5) 0x01;
}

unfoldable pub decode_has_route : Bytes → Result Error (List HasRouteEntry)
unfolding chunks_exact has_route_entry
decode_has_route value = do
  fail_if (not (length value % 3 == 0)) (
      dataset_format "HasRoute length {} is not a multiple of {HAS_ROUTE_ENTRY_LEN}"
        (length value ∷ []))
  ok (map has_route_entry (chunks_exact 3 value))

unfoldable pub border_router_entry : Bytes → BorderRouterEntry
border_router_entry chunk = record {
  rloc16 = u16_at chunk 0;
  prefix_preference = bit_and (at chunk 2 / 2 ^ 6) 0x03;
  is_preferred = has_bits (at chunk 2 / 2 ^ 5) 0x01;
  is_slaac = has_bits (at chunk 2 / 2 ^ 4) 0x01;
  is_dhcp = has_bits (at chunk 2 / 2 ^ 3) 0x01;
  is_configure = has_bits (at chunk 2 / 2 ^ 2) 0x01;
  is_default_route = has_bits (at chunk 2 / 2 ^ 1) 0x01;
  is_on_mesh = has_bits (at chunk 2) 0x01;
  is_nd_dns = has_bits (at chunk 3 / 2 ^ 7) 0x01;
  is_dp = has_bits (at chunk 3 / 2 ^ 6) 0x01;
}

unfoldable pub decode_border_router : Bytes → Result Error (List BorderRouterEntry)
unfolding chunks_exact border_router_entry
decode_border_router value = do
  fail_if (not (length value % 4 == 0)) (
      dataset_format "BorderRouter length {} is not a multiple of {BORDER_ROUTER_ENTRY_LEN}"
        (length value ∷ []))
  ok (map border_router_entry (chunks_exact 4 value))

unfoldable pub decode_six_low_pan_context : Bytes → Result Error SixLowPanContext
decode_six_low_pan_context (flags ∷ context_length ∷ []) = ok (record {
  is_compress = has_bits (flags / 2 ^ 4) 0x01;
  context_id = bit_and flags 0x0f;
  context_length = context_length;
})
decode_six_low_pan_context value =
    err (dataset_format "6LoWPAN context must be 2 bytes, got {}" (length value ∷ []))

-- The body of the loop of `decode_prefix_entry`.
unfoldable pub prefix_sub_tlv : ℕ × Bytes → PrefixEntry → Result Error PrefixEntry
prefix_sub_tlv (ty, value) entry =
    if ty == 0
    then (decode_has_route value >>= λ routes.
        ok (record entry { has_route = entry.has_route ++ routes }))
    else if ty == 2
    then (decode_border_router value >>= λ routers.
        ok (record entry { border_routers = entry.border_routers ++ routers }))
    else if ty == 3
    then (decode_six_low_pan_context value >>= λ context.
        ok (record entry { six_low_pan_context = some context }))
    else ok entry

-- `div_ceil(8)`
abbrev pub prefix_bytes : ℕ → ℕ
prefix_bytes bits = (bits + 7) / 8

-- The entry whose sub-TLVs follow.
abbrev pub bare_prefix : ℕ → ℕ → Bytes → PrefixEntry
bare_prefix domain_id prefix_bit_length prefix = record {
  domain_id = domain_id;
  prefix_bit_length = prefix_bit_length;
  prefix = prefix;
  six_low_pan_context = none;
  has_route = [];
  border_routers = [];
}

unfoldable pub decode_prefix_entry : Bytes → Result Error PrefixEntry
unfolding prefix_sub_tlv
decode_prefix_entry (domain_id ∷ prefix_bit_length ∷ more) =
    let len = prefix_bytes prefix_bit_length in
    if ltb (length more) len
    then err (dataset "Prefix bytes are truncated")
    else for_each_tlv prefix_sub_tlv (length (drop len more)) (drop len more)
        (bare_prefix domain_id prefix_bit_length (take len more))
decode_prefix_entry _ = err (dataset "Prefix entry is truncated")

-- The body of the loop of `NetworkData::decode`.
unfoldable pub network_sub_tlv : ℕ × Bytes → List PrefixEntry → Result Error (List PrefixEntry)
network_sub_tlv (ty, value) prefixes =
    if ty == 1
    then (decode_prefix_entry value >>= λ entry. ok (prefixes ++ entry ∷ []))
    else ok prefixes

-- `NetworkData::decode`
unfoldable pub decode_network_data : Bytes → Result Error NetworkData
unfolding network_sub_tlv
decode_network_data value = do
  prefixes ← for_each_tlv network_sub_tlv (length value) value []
  ok (record { prefixes = prefixes })
