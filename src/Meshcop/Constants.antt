-- ===== src/Meshcop/Constants.antt =====
-- crates/ot-commissioner-rs/src/meshcop/constants.rs: TLV types, ports and resource paths. A path is
-- the bytes of its string.
use ot_commissioner_rs.Base.{ℕ, [], ◌∷◌, Bytes}

abbrev pub coap_option_content_format : ℕ
coap_option_content_format = 12

abbrev pub tlv_border_agent_locator : ℕ
tlv_border_agent_locator = 9

abbrev pub tlv_commissioner_id : ℕ
tlv_commissioner_id = 10

abbrev pub tlv_commissioner_session_id : ℕ
tlv_commissioner_session_id = 11

abbrev pub tlv_get : ℕ
tlv_get = 13

abbrev pub tlv_commissioner_udp_port : ℕ
tlv_commissioner_udp_port = 15

abbrev pub tlv_state : ℕ
tlv_state = 16

abbrev pub tlv_joiner_dtls_encapsulation : ℕ
tlv_joiner_dtls_encapsulation = 17

abbrev pub tlv_joiner_udp_port : ℕ
tlv_joiner_udp_port = 18

abbrev pub tlv_joiner_iid : ℕ
tlv_joiner_iid = 19

abbrev pub tlv_joiner_router_locator : ℕ
tlv_joiner_router_locator = 20

abbrev pub tlv_joiner_router_kek : ℕ
tlv_joiner_router_kek = 21

abbrev pub tlv_provisioning_url : ℕ
tlv_provisioning_url = 32

abbrev pub tlv_vendor_name : ℕ
tlv_vendor_name = 33

abbrev pub tlv_vendor_model : ℕ
tlv_vendor_model = 34

abbrev pub tlv_vendor_sw_version : ℕ
tlv_vendor_sw_version = 35

abbrev pub tlv_vendor_data : ℕ
tlv_vendor_data = 36

abbrev pub tlv_vendor_stack_version : ℕ
tlv_vendor_stack_version = 37

abbrev pub tlv_udp_encapsulation : ℕ
tlv_udp_encapsulation = 48

abbrev pub tlv_ipv6_address : ℕ
tlv_ipv6_address = 49

abbrev pub tlv_network_name : ℕ
tlv_network_name = 3

abbrev pub tlv_pan_id : ℕ
tlv_pan_id = 1

abbrev pub tlv_steering_data : ℕ
tlv_steering_data = 8

abbrev pub tlv_channel_mask : ℕ
tlv_channel_mask = 53

abbrev pub tlv_count : ℕ
tlv_count = 54

abbrev pub tlv_period : ℕ
tlv_period = 55

abbrev pub tlv_scan_duration : ℕ
tlv_scan_duration = 56

abbrev pub tlv_energy_list : ℕ
tlv_energy_list = 57

abbrev pub tlv_secure_dissemination : ℕ
tlv_secure_dissemination = 58

abbrev pub tlv_ae_steering_data : ℕ
tlv_ae_steering_data = 61

abbrev pub tlv_nmkp_steering_data : ℕ
tlv_nmkp_steering_data = 62

abbrev pub tlv_ae_udp_port : ℕ
tlv_ae_udp_port = 65

abbrev pub tlv_nmkp_udp_port : ℕ
tlv_nmkp_udp_port = 66

abbrev pub thread_tlv_status : ℕ
thread_tlv_status = 4

abbrev pub thread_tlv_timeout : ℕ
thread_tlv_timeout = 11

abbrev pub thread_tlv_ipv6_addresses : ℕ
thread_tlv_ipv6_addresses = 14

abbrev pub thread_tlv_commissioner_session_id : ℕ
thread_tlv_commissioner_session_id = 15

abbrev pub network_diag_tlv_type_list : ℕ
network_diag_tlv_type_list = 18

abbrev pub default_mm_port : ℕ
default_mm_port = 61631

abbrev pub leader_aloc16 : ℕ
leader_aloc16 = 0xfc00

abbrev pub primary_bbr_aloc16 : ℕ
primary_bbr_aloc16 = 0xfc38

-- "/c/cp"
abbrev pub uri_petitioning : Bytes
uri_petitioning = 47 ∷ 99 ∷ 47 ∷ 99 ∷ 112 ∷ []

-- "/c/ca"
abbrev pub uri_keep_alive : Bytes
uri_keep_alive = 47 ∷ 99 ∷ 47 ∷ 99 ∷ 97 ∷ []

-- "/c/cg"
abbrev pub uri_mgmt_commissioner_get : Bytes
uri_mgmt_commissioner_get = 47 ∷ 99 ∷ 47 ∷ 99 ∷ 103 ∷ []

-- "/c/cs"
abbrev pub uri_mgmt_commissioner_set : Bytes
uri_mgmt_commissioner_set = 47 ∷ 99 ∷ 47 ∷ 99 ∷ 115 ∷ []

-- "/c/bg"
abbrev pub uri_mgmt_bbr_get : Bytes
uri_mgmt_bbr_get = 47 ∷ 99 ∷ 47 ∷ 98 ∷ 103 ∷ []

-- "/c/bs"
abbrev pub uri_mgmt_bbr_set : Bytes
uri_mgmt_bbr_set = 47 ∷ 99 ∷ 47 ∷ 98 ∷ 115 ∷ []

-- "/c/ag"
abbrev pub uri_mgmt_active_get : Bytes
uri_mgmt_active_get = 47 ∷ 99 ∷ 47 ∷ 97 ∷ 103 ∷ []

-- "/c/as"
abbrev pub uri_mgmt_active_set : Bytes
uri_mgmt_active_set = 47 ∷ 99 ∷ 47 ∷ 97 ∷ 115 ∷ []

-- "/c/pg"
abbrev pub uri_mgmt_pending_get : Bytes
uri_mgmt_pending_get = 47 ∷ 99 ∷ 47 ∷ 112 ∷ 103 ∷ []

-- "/c/ps"
abbrev pub uri_mgmt_pending_set : Bytes
uri_mgmt_pending_set = 47 ∷ 99 ∷ 47 ∷ 112 ∷ 115 ∷ []

-- "/c/dc"
abbrev pub uri_mgmt_dataset_changed : Bytes
uri_mgmt_dataset_changed = 47 ∷ 99 ∷ 47 ∷ 100 ∷ 99 ∷ []

-- "/c/ab"
abbrev pub uri_mgmt_announce_begin : Bytes
uri_mgmt_announce_begin = 47 ∷ 99 ∷ 47 ∷ 97 ∷ 98 ∷ []

-- "/c/pq"
abbrev pub uri_mgmt_panid_query : Bytes
uri_mgmt_panid_query = 47 ∷ 99 ∷ 47 ∷ 112 ∷ 113 ∷ []

-- "/c/pc"
abbrev pub uri_mgmt_panid_conflict : Bytes
uri_mgmt_panid_conflict = 47 ∷ 99 ∷ 47 ∷ 112 ∷ 99 ∷ []

-- "/c/es"
abbrev pub uri_mgmt_ed_scan : Bytes
uri_mgmt_ed_scan = 47 ∷ 99 ∷ 47 ∷ 101 ∷ 115 ∷ []

-- "/c/er"
abbrev pub uri_mgmt_ed_report : Bytes
uri_mgmt_ed_report = 47 ∷ 99 ∷ 47 ∷ 101 ∷ 114 ∷ []

-- "/c/re"
abbrev pub uri_mgmt_reenroll : Bytes
uri_mgmt_reenroll = 47 ∷ 99 ∷ 47 ∷ 114 ∷ 101 ∷ []

-- "/c/rt"
abbrev pub uri_mgmt_domain_reset : Bytes
uri_mgmt_domain_reset = 47 ∷ 99 ∷ 47 ∷ 114 ∷ 116 ∷ []

-- "/c/nm"
abbrev pub uri_mgmt_net_migrate : Bytes
uri_mgmt_net_migrate = 47 ∷ 99 ∷ 47 ∷ 110 ∷ 109 ∷ []

-- "/c/sp"
abbrev pub uri_mgmt_sec_pending_set : Bytes
uri_mgmt_sec_pending_set = 47 ∷ 99 ∷ 47 ∷ 115 ∷ 112 ∷ []

-- "/c/tx"
abbrev pub uri_relay_tx : Bytes
uri_relay_tx = 47 ∷ 99 ∷ 47 ∷ 116 ∷ 120 ∷ []

-- "/c/rx"
abbrev pub uri_relay_rx : Bytes
uri_relay_rx = 47 ∷ 99 ∷ 47 ∷ 114 ∷ 120 ∷ []

-- "/c/ut"
abbrev pub uri_udp_tx : Bytes
uri_udp_tx = 47 ∷ 99 ∷ 47 ∷ 117 ∷ 116 ∷ []

-- "/c/ur"
abbrev pub uri_udp_rx : Bytes
uri_udp_rx = 47 ∷ 99 ∷ 47 ∷ 117 ∷ 114 ∷ []

-- "/c/jf"
abbrev pub uri_join_fin : Bytes
uri_join_fin = 47 ∷ 99 ∷ 47 ∷ 106 ∷ 102 ∷ []

-- "/d/dg"
abbrev pub uri_diag_get_request : Bytes
uri_diag_get_request = 47 ∷ 100 ∷ 47 ∷ 100 ∷ 103 ∷ []

-- "/d/dq"
abbrev pub uri_diag_get_query : Bytes
uri_diag_get_query = 47 ∷ 100 ∷ 47 ∷ 100 ∷ 113 ∷ []

-- "/d/da"
abbrev pub uri_diag_get_answer : Bytes
uri_diag_get_answer = 47 ∷ 100 ∷ 47 ∷ 100 ∷ 97 ∷ []

-- "/d/dr"
abbrev pub uri_diag_reset : Bytes
uri_diag_reset = 47 ∷ 100 ∷ 47 ∷ 100 ∷ 114 ∷ []

-- "/n/mr"
abbrev pub uri_mlr : Bytes
uri_mlr = 47 ∷ 110 ∷ 47 ∷ 109 ∷ 114 ∷ []
