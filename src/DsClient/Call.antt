-- ===== src/DsClient/Call.antt =====
-- Opening, starting, stopping and closing a data call: gps/loc_api/ds_api/ds_client.c.
use android_device_lenovo_a.Base.{
  ℕ, ◌+◌, ◌-◌, Bool, true, false, not, Option, none, some, List, [], ◌∷◌, if◌then◌else◌,
}
use android_device_lenovo_a.DsClient.Types.{
  Status, success, failure_general, failure_not_enough_memory, retry_later, data_call_connected,
  data_call_disconnected, Res, Session, IpVersion, Platform, Profile,
}
use android_device_lenovo_a.DsClient.Service.{ctrl_point_init, released_if}
use android_device_lenovo_a.DsClient.Profiles.{
  Search, aborted, chosen, not_found, get_profile_list, find_profile,
}

-- What the caller sees: the status, `*client_handle`, `*profile_index` and `*pdp_type`; `none` is
-- NULL, or what was there before.
pub record Opened : Type 0 where
  pub status : Status
  pub client_handle : Option Session
  pub profile_index : Option ℕ
  pub pdp_type : Option IpVersion
  pub res : Res

abbrev pub failed : Status → Res → Opened
failed st r = record {
  status = st;
  client_handle = none;
  profile_index = none;
  pdp_type = none;
  res = r;
}

abbrev pub new_session : ℕ → ℕ → Session
new_session event_cb cookie = record {
  dsi_net_handle = none;
  event_cb = event_cb;
  caller_cookie = cookie;
}

-- dsi_get_data_srvc_hndl, and what is stored of it.
abbrev pub with_handle : Option ℕ → Status → Session → ℕ → IpVersion → Res → Opened
with_handle none st s i v r = record {
  status = retry_later;
  client_handle = some s;
  profile_index = some i;
  pdp_type = some v;
  res = r;
}
with_handle (some h) st s i v r = record {
  status = st;
  client_handle = some (record s { dsi_net_handle = some h });
  profile_index = some i;
  pdp_type = some v;
  res = record r { handles = r.handles + 1 };
}

-- What follows the search for a profile; `st` is the status when the client has been released.
abbrev pub concluded : Platform → ℕ → ℕ → Search → Status → Res → Opened
concluded p event_cb cookie (aborted e) st r = failed e r
concluded p event_cb cookie not_found st r = failed failure_general r
concluded p event_cb cookie (chosen i v) st r =
    if p.calloc_session
    then with_handle p.data_srvc_hndl st (new_session event_cb cookie) i v
        (record r { blocks = r.blocks + 1 })
    else record (failed failure_not_enough_memory r) { profile_index = some i; pdp_type = some v }

abbrev pub release_status : Platform → Status
release_status p = if p.client_release then success else failure_general

abbrev pub client_given_back : Platform → Res → Res
client_given_back p r = record r { clients = released_if p.client_release r.clients }

-- The search, and the release of the client of QMI where the search was not aborted.
abbrev pub released : Platform → ℕ → ℕ → Search → Res → Opened
released p event_cb cookie (aborted e) r = concluded p event_cb cookie (aborted e) e r
released p event_cb cookie s r =
    concluded p event_cb cookie s (release_status p) (client_given_back p r)

abbrev pub is_success : Status → Bool
is_success success = true
is_success _ = false

-- The two blocks for the responses are freed at the end.
abbrev pub with_list : Platform → ℕ → ℕ → Status × List Profile → Res → Opened
with_list p event_cb cookie (st, profiles) r =
    if not (is_success st)
    then failed st r
    else if not p.calloc_settings_resp
    then failed failure_not_enough_memory r
    else released p event_cb cookie (find_profile p.settings profiles) r

abbrev pub with_client : Platform → ℕ → ℕ → Status × Res → Opened
with_client p event_cb cookie (st, r) =
    if not (is_success st)
    then failed st r
    else if not p.calloc_list_resp
    then failed failure_not_enough_memory r
    else with_list p event_cb cookie (get_profile_list p) r

-- ds_client_open_call; `callback` is the event_cb of a callback table, or NULL.
unfoldable pub open_call :
    Platform → (client_handle : Bool) (callback : Option ℕ) (cookie : ℕ) → Res → Opened
unfolding ctrl_point_init get_profile_list find_profile
open_call p false callback cookie r = failed failure_general r
open_call p true none cookie r = failed failure_general r
open_call p true (some event_cb) cookie r = with_client p event_cb cookie (ctrl_point_init p r)

abbrev pub handle_released : Option ℕ → Res → Res
handle_released none r = r
handle_released (some h) r = record r { handles = r.handles - 1 }

-- ds_client_close_call on `*client_handle`, which is NULL afterwards.
unfoldable pub close_call : Option Session → Res → Option Session × Res
close_call none r = (none, r)
close_call (some s) r =
    let r' = handle_released s.dsi_net_handle r in (none, record r' { blocks = r'.blocks - 1 })

-- The parameters of a data call, and the requests for it.
pub data DsiCall : Type 0 where
  umts_profile_idx : ℕ → DsiCall
  ip_version : IpVersion → DsiCall
  start_data_call stop_data_call : DsiCall

-- ds_client_start_call: the status, and the calls of the data layer.
unfoldable pub start_call :
    (is_started : Bool) → Option Session → ℕ → IpVersion → Status × List DsiCall
start_call is_started none i v = (failure_general, [])
start_call is_started (some s) i v = (
  if is_started then success else failure_general,
  umts_profile_idx i ∷ ip_version v ∷ start_data_call ∷ [],
)

-- ds_client_stop_call
unfoldable pub stop_call : (is_stopped : Bool) → Option Session → Status × List DsiCall
stop_call is_stopped none = (failure_general, [])
stop_call is_stopped (some s) =
    (if is_stopped then success else failure_general, stop_data_call ∷ [])

-- ds_client_init
unfoldable pub init : (is_initialised : Bool) → Status
init is_initialised = if is_initialised then success else failure_general

-- dsi_net_evt_t: the events between DSI_EVT_INVALID and DSI_EVT_MAX, and those outside.
pub data NetEvent : Type 0 where
  net_is_conn net_no_net physlink_down physlink_up net_reconfigured wds_connected outside : NetEvent

-- net_ev_cb: what the callback of the session is called with.
unfoldable pub net_ev_cb : Session → NetEvent → Option (ℕ × Status × ℕ)
net_ev_cb s net_is_conn = some (s.event_cb, data_call_connected, s.caller_cookie)
net_ev_cb s wds_connected = some (s.event_cb, data_call_connected, s.caller_cookie)
net_ev_cb s net_no_net = some (s.event_cb, data_call_disconnected, s.caller_cookie)
net_ev_cb s _ = none
