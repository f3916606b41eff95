-- ===== src/LocClient/Requests.antt =====
-- Requests to the location engine (loc_api_v02_client.c). The answers of the QMI framework are
-- arguments, and so is the table of requests, with the size of the payload of each that has one.
use android_device_lenovo_a.Base.{
  ℕ, Bool, true, false, ◌&&◌, Option, none, some, List, [], ◌∷◌, ◌==◌, if◌then◌else◌,
}
use android_device_lenovo_a.Base.Run.{Cmd, pure, ◌>>=◌, ◌>>◌}
use android_device_lenovo_a.LocClient.State.{
  Ptr, Status, success, failure_unsupported, failure_invalid_parameter, failure_engine_busy,
  failure_phone_offline, failure_invalid_handle, failure_internal, is_success, CallbackData, World,
  store, sane,
}

-- The error code of a response.
pub data QmiError : Type 0 where
  malformed_msg invalid_arg device_in_use not_supported other_error : QmiError

-- What qmi_client_send_msg_sync returns: QMI_SERVICE_ERR, another error, or QMI_NO_ERR and a
-- response, with its result and error code.
pub data Reply : Type 0 where
  service_err other_err : Reply
  response : (result_success : Bool) → QmiError → Reply

unfoldable pub convert_qmi_response_to_loc_status : Bool → QmiError → Status
convert_qmi_response_to_loc_status true error = success
convert_qmi_response_to_loc_status false malformed_msg = failure_invalid_parameter
convert_qmi_response_to_loc_status false invalid_arg = failure_invalid_parameter
convert_qmi_response_to_loc_status false device_in_use = failure_engine_busy
convert_qmi_response_to_loc_status false not_supported = failure_unsupported
convert_qmi_response_to_loc_status false other_error = failure_internal

-- A request of the table: no payload, or one of a size.
abbrev pub RequestTable : Type 0
RequestTable = List (ℕ × Option ℕ)

-- The length that is sent; `none` for an unknown request.
unfoldable pub validate_request : RequestTable → (req_id : ℕ) → Option (Option ℕ)
validate_request [] req_id = none
validate_request ((id, size) ∷ table) req_id =
    if req_id == id then some size else validate_request table req_id

abbrev pub reg_events_req : ℕ
reg_events_req = 33

abbrev pub status_of : Reply → Status
status_of service_err = failure_phone_offline
status_of other_err = failure_internal
status_of (response result error) = convert_qmi_response_to_loc_status result error

-- The client's copy of the registered events. `mask` is that of the payload, `none` for NULL.
unfoldable pub noted :
    (handle : Ptr) (req_id : ℕ) (mask : Option ℕ) → CallbackData → Status → Cmd World Status
noted handle req_id none d status = pure status
noted handle req_id (some mask) d status =
    if is_success status && (req_id == reg_events_req)
    then (do store handle (some (record d { event_reg_mask = mask })); pure status)
    else pure status

unfoldable pub send_valid :
    Option (Option ℕ)
    → Reply
    → (handle : Ptr) (req_id : ℕ) (mask : Option ℕ) → CallbackData
    → Cmd World Status
send_valid none reply handle req_id mask d = pure failure_invalid_parameter
send_valid (some size) reply handle req_id mask d = noted handle req_id mask d (status_of reply)

unfoldable pub send_sane :
    RequestTable
    → Reply
    → (handle : Ptr) (req_id : ℕ) (mask : Option ℕ) → Option CallbackData
    → Cmd World Status
send_sane table reply handle req_id mask none = pure failure_invalid_handle
send_sane table reply handle req_id mask (some d) =
    send_valid (validate_request table req_id) reply handle req_id mask d

-- locClientSendReq
unfoldable pub send_req :
    RequestTable → Reply → (handle : Ptr) (req_id : ℕ) (mask : Option ℕ) → Cmd World Status
send_req table reply handle req_id mask = do
  d ← sane handle
  send_sane table reply handle req_id mask d

-- locClientRegisterEventMask
unfoldable pub register_event_mask :
    RequestTable → Reply → (handle : Ptr) (mask : ℕ) → Cmd World Bool
register_event_mask table reply handle mask = do
  status ← send_req table reply handle reg_events_req (some mask)
  pure (is_success status)
