-- ===== src/Meshcop/Flags.antt =====
-- crates/ot-commissioner-rs/src/meshcop/flags.rs: which TLVs a word of flags asks for.
use ot_commissioner_rs.Base.{
  true, false, ℕ, ◌^◌, Bool, not, List, [], ◌∷◌, ◌++◌, bit_and, ◌==◌, if◌then◌else◌, Bytes,
}
use ot_commissioner_rs.Meshcop.Constants.{
  tlv_ae_steering_data, tlv_ae_udp_port, tlv_border_agent_locator, tlv_commissioner_session_id,
  tlv_joiner_udp_port, tlv_nmkp_steering_data, tlv_nmkp_udp_port, tlv_steering_data,
}
use ot_commissioner_rs.Dataset as Set

-- `flag_types`
unfoldable pub flag_types : ℕ → List (ℕ × ℕ) → Bytes
flag_types flags [] = []
flag_types flags ((bit, ty) ∷ mappings) =
    let rest = flag_types flags mappings in if not (bit_and flags bit == 0) then ty ∷ rest else rest

abbrev pub commissioner_types : List (ℕ × ℕ)
commissioner_types =
    (2 ^ 15, tlv_border_agent_locator)
    ∷ (2 ^ 14, tlv_commissioner_session_id)
    ∷ (2 ^ 13, tlv_steering_data)
    ∷ (2 ^ 12, tlv_ae_steering_data)
    ∷ (2 ^ 11, tlv_nmkp_steering_data)
    ∷ (2 ^ 10, tlv_joiner_udp_port)
    ∷ (2 ^ 9, tlv_ae_udp_port)
    ∷ (2 ^ 8, tlv_nmkp_udp_port)
    ∷ []

abbrev pub network_diag_types : List (ℕ × ℕ)
network_diag_types =
    (2 ^ 0, 0)
    ∷ (2 ^ 1, 1)
    ∷ (2 ^ 2, 2)
    ∷ (2 ^ 3, 5)
    ∷ (2 ^ 4, 6)
    ∷ (2 ^ 5, 8)
    ∷ (2 ^ 8, 9)
    ∷ (2 ^ 6, 16)
    ∷ (2 ^ 7, 23)
    ∷ (2 ^ 9, 30)
    ∷ (2 ^ 10, 7)
    ∷ (2 ^ 11, 3)
    ∷ (2 ^ 12, 4)
    ∷ (2 ^ 13, 14)
    ∷ (2 ^ 14, 15)
    ∷ (2 ^ 15, 17)
    ∷ (2 ^ 16, 18)
    ∷ []

abbrev pub active_types : List (ℕ × ℕ)
active_types =
    (2 ^ 15, Set.tlv_active_timestamp)
    ∷ (2 ^ 14, Set.tlv_channel)
    ∷ (2 ^ 13, Set.tlv_channel_mask)
    ∷ (2 ^ 12, Set.tlv_extended_pan_id)
    ∷ (2 ^ 11, Set.tlv_mesh_local_prefix)
    ∷ (2 ^ 10, Set.tlv_network_key)
    ∷ (2 ^ 9, Set.tlv_network_name)
    ∷ (2 ^ 8, Set.tlv_pan_id)
    ∷ (2 ^ 7, Set.tlv_pskc)
    ∷ (2 ^ 6, Set.tlv_security_policy)
    ∷ []

abbrev pub pending_types : List (ℕ × ℕ)
pending_types = (2 ^ 5, Set.tlv_delay_timer) ∷ (2 ^ 4, Set.tlv_pending_timestamp) ∷ []

unfoldable pub commissioner_dataset_tlv_types : ℕ → Bytes
commissioner_dataset_tlv_types flags = flag_types flags commissioner_types

unfoldable pub network_diag_tlv_types : ℕ → Bytes
network_diag_tlv_types flags = flag_types flags network_diag_types

unfoldable pub dataset_tlv_types : ℕ → Bool → Bytes
dataset_tlv_types flags is_pending =
    let types = flag_types flags active_types in
    if is_pending then types ++ flag_types flags pending_types else types

abbrev pub active_dataset_tlv_types : ℕ → Bytes
active_dataset_tlv_types flags = dataset_tlv_types flags false

abbrev pub pending_dataset_tlv_types : ℕ → Bytes
pending_dataset_tlv_types flags = dataset_tlv_types flags true
