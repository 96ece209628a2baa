-- ===== src/Meshcop/Types.antt =====
-- crates/ot-commissioner-rs/src/meshcop/types.rs: operations, states and notifications.
use ot_commissioner_rs.Base.{ℕ, Option, ◌==◌, if◌then◌else◌, Bytes, Result, ok, err}
use ot_commissioner_rs.Errors.{Error, dataset}
use ot_commissioner_rs.Meshcop.Constants.{
  uri_diag_get_query, uri_diag_get_request, uri_diag_reset, uri_keep_alive, uri_mgmt_active_get,
  uri_mgmt_active_set, uri_mgmt_announce_begin, uri_mgmt_bbr_get, uri_mgmt_bbr_set,
  uri_mgmt_commissioner_get, uri_mgmt_commissioner_set, uri_mgmt_domain_reset, uri_mgmt_ed_scan,
  uri_mgmt_net_migrate, uri_mgmt_panid_query, uri_mgmt_pending_get, uri_mgmt_pending_set,
  uri_mgmt_reenroll, uri_mgmt_sec_pending_set, uri_mlr, uri_petitioning, uri_relay_tx,
}

pub data CommissionerOperation : Type 0 where
  petition keep_alive get_commissioner_dataset set_commissioner_dataset : CommissionerOperation
  get_active_dataset set_active_dataset get_pending_dataset set_pending_dataset :
      CommissionerOperation
  set_secure_pending_dataset get_bbr_dataset set_bbr_dataset announce_begin : CommissionerOperation
  pan_id_query energy_scan register_multicast_listener reenroll : CommissionerOperation
  domain_reset migrate diagnostic_get diagnostic_get_unicast : CommissionerOperation
  diagnostic_reset send_to_joiner : CommissionerOperation

-- `CommissionerOperation::uri_path`
abbrev pub path_of : CommissionerOperation → Bytes
path_of petition = uri_petitioning
path_of keep_alive = uri_keep_alive
path_of get_commissioner_dataset = uri_mgmt_commissioner_get
path_of set_commissioner_dataset = uri_mgmt_commissioner_set
path_of get_active_dataset = uri_mgmt_active_get
path_of set_active_dataset = uri_mgmt_active_set
path_of get_pending_dataset = uri_mgmt_pending_get
path_of set_pending_dataset = uri_mgmt_pending_set
path_of set_secure_pending_dataset = uri_mgmt_sec_pending_set
path_of get_bbr_dataset = uri_mgmt_bbr_get
path_of set_bbr_dataset = uri_mgmt_bbr_set
path_of announce_begin = uri_mgmt_announce_begin
path_of pan_id_query = uri_mgmt_panid_query
path_of energy_scan = uri_mgmt_ed_scan
path_of register_multicast_listener = uri_mlr
path_of reenroll = uri_mgmt_reenroll
path_of domain_reset = uri_mgmt_domain_reset
path_of migrate = uri_mgmt_net_migrate
path_of diagnostic_get = uri_diag_get_query
path_of diagnostic_get_unicast = uri_diag_get_request
path_of diagnostic_reset = uri_diag_reset
path_of send_to_joiner = uri_relay_tx

pub data MeshcopState : Type 0 where
  reject pending accept : MeshcopState

abbrev pub to_wire : MeshcopState → ℕ
to_wire reject = 0xff
to_wire pending = 0x00
to_wire accept = 0x01

unfoldable pub from_wire : ℕ → Result Error MeshcopState
from_wire value =
    if value == 0xff
    then ok reject
    else if value == 0x00
    then ok pending
    else if value == 0x01
    then ok accept
    else err (dataset "invalid MeshCoP State TLV value")

pub record MeshcopPetitionResponse : Type 0 where
  pub state : MeshcopState
  pub session_id : Option ℕ
  pub existing_commissioner_id : Option Bytes

-- `D` is the type of the decoded network diagnostics.
pub data MeshcopNotification (D : Type 0) : Type 0 where
  dataset_changed : MeshcopNotification D
  diag_get_answer : D → MeshcopNotification D
  pan_id_conflict : (channel_mask pan_id : ℕ) → MeshcopNotification D
  energy_report : (channel_mask : ℕ) (energy_list : Bytes) → MeshcopNotification D
  relay_rx :
      (joiner_udp_port joiner_router_locator : ℕ) (joiner_iid payload : Bytes)
      → MeshcopNotification D
