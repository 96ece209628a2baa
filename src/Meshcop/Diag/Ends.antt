-- ===== src/Meshcop/Diag/Ends.antt =====
-- Decoding a diagnostic answer ends on every input.
use ot_commissioner_rs.Base.{
  take, drop, ◌/◌, inl, err, ◌+◌, inr, length-drop, ◌⊎◌, ltb, Result-cases, ◌<◌, String, Bool-cases,
  bind-ne-stuck, length, ok, ℕ, zero, suc, ◌≡◌, ◌≢◌, ◌≤◌, List, [], ◌∷◌, Bytes, Result, stuck,
  arith,
}
use ot_commissioner_rs.Errors.{Error}
use ot_commissioner_rs.Meshcop.Diag.{NetDiagData, PrefixEntry, empty}
use ot_commissioner_rs.Meshcop.Diag.Decode.{
  read_eui64, entry_high, entry_mid, decode_entry, decode_entries, decode,
}
use ot_commissioner_rs.Meshcop.Diag.Fields.{
  chunks_exact, decode_mode, decode_connectivity, decode_route64, decode_leader_data,
  decode_ipv6_address_list, decode_mac_counters, child_entry, child_entries, decode_child_table,
  decode_child_ipv6_addresses, read_u8, read_u16, read_u32,
}
use ot_commissioner_rs.Meshcop.Diag.Network.{
  next_tlv, for_each_tlv, decode_has_route, decode_border_router, decode_six_low_pan_context,
  prefix_sub_tlv, decode_prefix_entry, network_sub_tlv, decode_network_data,
}
use ot_commissioner_rs.Tlv.{TlvEntry}
use ot_commissioner_rs.Tlv.Parsing.{parse_total}

next_tlv-ne-stuck : (bytes : Bytes) → next_tlv bytes ≢ stuck
unfolding next_tlv
next_tlv-ne-stuck (b0 ∷ b1 ∷ bs) = ground arith
next_tlv-ne-stuck _ = λ p. cc

next_tlv-shorter :
    (bytes : Bytes) (item : ℕ × Bytes) (rest : Bytes)
    → next_tlv bytes ≡ ok (item, rest)
    → length rest < length bytes
unfolding next_tlv
next_tlv-shorter (b0 ∷ b1 ∷ bs) item rest e = ground (arith, length-drop b1 bs)
next_tlv-shorter _ item rest e = absurd (cc)

for_each_tlv-ne-stuck :
    {S : Type 0} (body : ℕ × Bytes → S → Result Error S)
    → ((item : ℕ × Bytes) (s : S) → body item s ≢ stuck)
    → (fuel : ℕ) (bytes : Bytes) (s : S) → length bytes ≤ fuel
    → for_each_tlv body fuel bytes s ≢ stuck
unfolding for_each_tlv
for_each_tlv-ne-stuck body total fuel [] s h = λ p. cc
for_each_tlv-ne-stuck body total zero (b ∷ bs) s h = absurd (omega arith)
for_each_tlv-ne-stuck body total (suc fuel) (b ∷ bs) s h =
    elim (Result-cases (next_tlv (b ∷ bs)) (next_tlv-ne-stuck (b ∷ bs))) [
      | inr (x, e) ↦ rw e (λ p. cc)
      | inl ((item, rest), e) ↦ rw e (
          bind-ne-stuck (body item s) _ (total item s) (λ t.
            for_each_tlv-ne-stuck body total fuel rest t
              (omega (arith, next_tlv-shorter (b ∷ bs) item rest e))))
    ]

decode_has_route-ne-stuck : (v : Bytes) → decode_has_route v ≢ stuck
unfolding decode_has_route
decode_has_route-ne-stuck v = ground arith

decode_border_router-ne-stuck : (v : Bytes) → decode_border_router v ≢ stuck
unfolding decode_border_router
decode_border_router-ne-stuck v = ground arith

decode_six_low_pan_context-ne-stuck : (v : Bytes) → decode_six_low_pan_context v ≢ stuck
unfolding decode_six_low_pan_context
decode_six_low_pan_context-ne-stuck (a ∷ b ∷ []) = λ p. cc
decode_six_low_pan_context-ne-stuck _ = λ p. cc

prefix_sub_tlv-ne-stuck : (item : ℕ × Bytes) (s : PrefixEntry) → prefix_sub_tlv item s ≢ stuck
unfolding prefix_sub_tlv
prefix_sub_tlv-ne-stuck (ty, v) s = ground (
  arith,
  decode_has_route-ne-stuck v,
  decode_border_router-ne-stuck v,
  decode_six_low_pan_context-ne-stuck v,
)

decode_prefix_entry-ne-stuck : (v : Bytes) → decode_prefix_entry v ≢ stuck
unfolding decode_prefix_entry
decode_prefix_entry-ne-stuck (domain ∷ bits ∷ more) =
    elim (Bool-cases (ltb (length more) ((bits + 7) / 8))) [
      | inl short ↦ rw short (λ p. cc)
      | inr room ↦ rw room (
          for_each_tlv-ne-stuck prefix_sub_tlv prefix_sub_tlv-ne-stuck _
            (drop ((bits + 7) / 8) more) _ (omega arith))
    ]
decode_prefix_entry-ne-stuck _ = λ p. cc

network_sub_tlv-ne-stuck :
    (item : ℕ × Bytes) (s : List PrefixEntry) → network_sub_tlv item s ≢ stuck
unfolding network_sub_tlv
network_sub_tlv-ne-stuck (ty, v) s = ground (arith, decode_prefix_entry-ne-stuck v)

decode_network_data-ne-stuck : (v : Bytes) → decode_network_data v ≢ stuck
unfolding decode_network_data
decode_network_data-ne-stuck v =
    bind-ne-stuck (for_each_tlv network_sub_tlv (length v) v []) _
      (for_each_tlv-ne-stuck network_sub_tlv network_sub_tlv-ne-stuck (length v) v [] (omega arith))
      (λ s p. cc)

decode_mode-ne-stuck : (v : Bytes) → decode_mode v ≢ stuck
unfolding decode_mode
decode_mode-ne-stuck (b ∷ []) = λ p. cc
decode_mode-ne-stuck _ = λ p. cc

read_u8-ne-stuck : (v : Bytes) (name : String) → read_u8 v name ≢ stuck
unfolding read_u8
read_u8-ne-stuck (b ∷ []) name = λ p. cc
read_u8-ne-stuck _ name = λ p. cc

read_u16-ne-stuck : (v : Bytes) (name : String) → read_u16 v name ≢ stuck
unfolding read_u16
read_u16-ne-stuck (b0 ∷ b1 ∷ []) name = λ p. cc
read_u16-ne-stuck _ name = λ p. cc

read_u32-ne-stuck : (v : Bytes) (name : String) → read_u32 v name ≢ stuck
unfolding read_u32
read_u32-ne-stuck (b0 ∷ b1 ∷ b2 ∷ b3 ∷ []) name = λ p. cc
read_u32-ne-stuck _ name = λ p. cc

decode_connectivity-ne-stuck : (v : Bytes) → decode_connectivity v ≢ stuck
unfolding decode_connectivity
decode_connectivity-ne-stuck v = ground arith

decode_route64-ne-stuck : (v : Bytes) → decode_route64 v ≢ stuck
unfolding decode_route64
decode_route64-ne-stuck v = ground arith

decode_leader_data-ne-stuck : (v : Bytes) → decode_leader_data v ≢ stuck
unfolding decode_leader_data
decode_leader_data-ne-stuck v = ground arith

decode_ipv6_address_list-ne-stuck : (v : Bytes) → decode_ipv6_address_list v ≢ stuck
unfolding decode_ipv6_address_list
decode_ipv6_address_list-ne-stuck v = ground arith

decode_mac_counters-ne-stuck : (v : Bytes) → decode_mac_counters v ≢ stuck
unfolding decode_mac_counters
decode_mac_counters-ne-stuck v = ground arith

child_entry-ne-stuck : (c : Bytes) → child_entry c ≢ stuck
unfolding child_entry
child_entry-ne-stuck c = ground (arith, decode_mode-ne-stuck (take 1 (drop 2 c)))

child_entries-ne-stuck : (chunks : List Bytes) → child_entries chunks ≢ stuck
unfolding child_entries
child_entries-ne-stuck [] = λ p. cc
child_entries-ne-stuck (c ∷ cs) = ground (arith, child_entry-ne-stuck c, child_entries-ne-stuck cs)

decode_child_table-ne-stuck : (v : Bytes) → decode_child_table v ≢ stuck
unfolding decode_child_table
decode_child_table-ne-stuck v = ground (arith, child_entries-ne-stuck (chunks_exact 3 v))

decode_child_ipv6_addresses-ne-stuck : (v : Bytes) → decode_child_ipv6_addresses v ≢ stuck
unfolding decode_child_ipv6_addresses
decode_child_ipv6_addresses-ne-stuck v =
    ground (arith, decode_ipv6_address_list-ne-stuck (drop 2 v))

read_eui64-ne-stuck : (v : Bytes) → read_eui64 v ≢ stuck
unfolding read_eui64
read_eui64-ne-stuck v = ground arith

entry_high-ne-stuck : (ty : ℕ) (v : Bytes) (out : NetDiagData) → entry_high ty v out ≢ stuck
unfolding entry_high
entry_high-ne-stuck ty v out = ground (
  arith,
  read_u8-ne-stuck v "Battery Level must be 1 byte, got {}",
  read_u16-ne-stuck v "Supply Voltage must be 2 bytes, got {}",
  decode_child_table-ne-stuck v,
  read_eui64-ne-stuck v,
  decode_child_ipv6_addresses-ne-stuck v,
)

entry_mid-ne-stuck : (ty : ℕ) (v : Bytes) (out : NetDiagData) → entry_mid ty v out ≢ stuck
unfolding entry_mid
entry_mid-ne-stuck ty v out = ground (
  arith,
  decode_route64-ne-stuck v,
  decode_leader_data-ne-stuck v,
  decode_network_data-ne-stuck v,
  decode_ipv6_address_list-ne-stuck v,
  decode_mac_counters-ne-stuck v,
  entry_high-ne-stuck ty v out,
)

decode_entry-ne-stuck : (ty : ℕ) (v : Bytes) (out : NetDiagData) → decode_entry ty v out ≢ stuck
unfolding decode_entry
decode_entry-ne-stuck ty v out = ground (
  arith,
  read_u16-ne-stuck v "MAC Address must be 2 bytes, got {}",
  decode_mode-ne-stuck v,
  read_u32-ne-stuck v "Timeout must be 4 bytes, got {}",
  decode_connectivity-ne-stuck v,
  entry_mid-ne-stuck ty v out,
)

decode_entries-ne-stuck : (es : List TlvEntry) (out : NetDiagData) → decode_entries es out ≢ stuck
unfolding decode_entries
decode_entries-ne-stuck [] out = λ p. cc
decode_entries-ne-stuck (e ∷ es) out =
    bind-ne-stuck (decode_entry e.ty e.value out) _ (decode_entry-ne-stuck e.ty e.value out)
      (decode_entries-ne-stuck es)

-- Decoding a diagnostic answer ends on every payload, nested network data included: it gives the data
-- or an error.
pub decode_ends :
    (payload : Bytes)
    → ((d : NetDiagData) × (decode payload ≡ ok d)) ⊎ ((e : Error) × (decode payload ≡ err e))
unfolding decode
decode_ends payload = Result-cases (decode payload) (elim (parse_total payload) [
  | inl (s, e) ↦ rw e (decode_entries-ne-stuck s.entries empty)
  | inr e ↦ rw e (λ p. cc)
])
