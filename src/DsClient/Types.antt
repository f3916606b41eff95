-- ===== src/DsClient/Types.antt =====
-- The state of gps/loc_api/ds_api/ds_client.c, and what QMI and the data layer answer.
use android_device_lenovo_a.Base.{ℕ, Bool, Option, List}

-- ds_client_status_enum_type
pub data Status : Type 0 where
  success failure_general failure_unsupported failure_invalid_parameter failure_engine_busy
        failure_phone_offline failure_timeout failure_service_not_present
        failure_service_version_unsupported failure_client_version_unsupported
        failure_invalid_handle failure_internal failure_not_initialized failure_not_enough_memory
        service_already_started data_call_connected data_call_disconnected retry_later :
      Status

-- What is in use: QMI clients and notifiers, handles of the data layer, and blocks of memory.
pub record Res : Type 0 where
  pub clients : ℕ
  pub notifiers : ℕ
  pub handles : ℕ
  pub blocks : ℕ

-- ds_client_session_data
pub record Session : Type 0 where
  pub dsi_net_handle : Option ℕ
  pub event_cb : ℕ
  pub caller_cookie : ℕ

pub data IpVersion : Type 0 where
  ip_version_4 ip_version_6 ip_version_4_6 : IpVersion

-- One round of the wait for the service: what qmi_client_get_service_list finds, `none` for an
-- error, whether the wait for the signal times out, and what a second look finds.
pub record Poll : Type 0 where
  pub first_look : Option ℕ
  pub timed_out : Bool
  pub second_look : Option ℕ

-- The answer to a request: no answer, one with an error, or one with its data.
pub data Reply (A : Type 0) : Type 0 where
  no_reply : Reply A
  error_reply : Reply A
  reply : A → Reply A

pub record Profile : Type 0 where
  pub profile_type : ℕ
  pub profile_index : ℕ

-- WDS_PDP_TYPE_PDP_IPV4_V01, _IPV6_V01, _IPV4V6_V01, or another.
pub data PdpType : Type 0 where
  pdp_ipv4 pdp_ipv6 pdp_ipv4v6 pdp_other : PdpType

pub record Settings : Type 0 where
  pub support_emergency_calls_valid : Bool
  pub support_emergency_calls : Bool
  pub pdp_type_valid : Bool
  pub pdp_type : PdpType

-- What the calls of ds_client_open_call answer.
pub record Platform : Type 0 where
  pub service_object : Bool
  pub first_look : Option ℕ
  pub notifier_init : Bool
  pub poll : ℕ → Poll
  pub malloc_services : Bool
  pub list_services : Bool
  pub client_init : Bool
  pub calloc_list_resp : Bool
  pub calloc_list_req : Bool
  pub profile_list : Reply (List Profile)
  pub calloc_settings_resp : Bool
  pub settings : Profile → Reply Settings
  pub client_release : Bool
  pub calloc_session : Bool
  pub data_srvc_hndl : Option ℕ
