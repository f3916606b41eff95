-- ===== src/DsClient/Profiles.antt =====
-- The requests of gps/loc_api/ds_api/ds_client.c to the WDS service, and the search for a profile.
use android_device_lenovo_a.Base.{ℕ, Bool, true, false, ◌&&◌, List, [], ◌∷◌, if◌then◌else◌}
use android_device_lenovo_a.DsClient.Types.{
  Status, success, failure_general, failure_internal, failure_invalid_parameter, IpVersion,
  ip_version_4, ip_version_6, ip_version_4_6, PdpType, pdp_ipv4, pdp_ipv6, pdp_ipv4v6, pdp_other,
  Reply, no_reply, error_reply, reply, Profile, Settings, Platform,
}

-- The messages that ds_client_send_qmi_sync_req knows, and any other.
pub data ReqId : Type 0 where
  get_profile_list_req get_profile_settings_req other_req : ReqId

-- ds_client_convert_qmi_response on an answer with or without an error.
abbrev pub convert_qmi_response : ReqId → (is_error : Bool) → Status
convert_qmi_response get_profile_list_req is_error = if is_error then failure_general else success
convert_qmi_response get_profile_settings_req is_error =
    if is_error then failure_general else success
convert_qmi_response other_req is_error = failure_general

abbrev pub reply_status : {A : Type 0} → ReqId → Reply A → Status
reply_status req no_reply = failure_internal
reply_status req error_reply = convert_qmi_response req true
reply_status req (reply a) = convert_qmi_response req false

-- ds_client_send_qmi_sync_req
abbrev pub send_qmi_sync_req : {A : Type 0} → ReqId → Reply A → Status
send_qmi_sync_req get_profile_list_req r = reply_status get_profile_list_req r
send_qmi_sync_req get_profile_settings_req r = reply_status get_profile_settings_req r
send_qmi_sync_req other_req r = failure_invalid_parameter

abbrev pub content : {A : Type 0} → A → Reply A → A
content a no_reply = a
content a error_reply = a
content a (reply b) = b

-- ds_client_get_profile_list: the status and the list. Without memory for the request the status is
-- still that of the start, and the response is as calloc left it.
unfoldable pub get_profile_list : Platform → Status × List Profile
get_profile_list p =
    if p.calloc_list_req
    then (send_qmi_sync_req get_profile_list_req p.profile_list, content [] p.profile_list)
    else (success, [])

abbrev pub version_of : PdpType → IpVersion
version_of pdp_ipv4 = ip_version_4
version_of pdp_ipv6 = ip_version_6
version_of pdp_ipv4v6 = ip_version_4_6
version_of pdp_other = ip_version_4

abbrev pub pdp_type_of : Settings → IpVersion
pdp_type_of s = if s.pdp_type_valid then version_of s.pdp_type else ip_version_4

abbrev pub is_emergency : Settings → Bool
is_emergency s = s.support_emergency_calls_valid && s.support_emergency_calls

-- How the loop over the profiles ends: at a request that fails, at a profile for emergency calls, or
-- at the end of the list.
pub data Search : Type 0 where
  aborted : Status → Search
  chosen : (profile_index : ℕ) (pdp_type : IpVersion) → Search
  not_found : Search

-- ds_client_get_profile_settings
abbrev pub get_profile_settings : Reply Settings → Status
get_profile_settings r = send_qmi_sync_req get_profile_settings_req r

abbrev pub examined : Profile → Reply Settings → Search → Search
examined p no_reply rest = aborted (get_profile_settings no_reply)
examined p error_reply rest = aborted (get_profile_settings error_reply)
examined p (reply s) rest = if is_emergency s then chosen p.profile_index (pdp_type_of s) else rest

unfoldable pub find_profile : (Profile → Reply Settings) → List Profile → Search
find_profile settings [] = not_found
find_profile settings (p ∷ ps) = examined p (settings p) (find_profile settings ps)
