-- ===== src/LocClient/Indications.antt =====
-- The callbacks that the QMI framework makes: indications and errors (loc_api_v02_client.c).
use android_device_lenovo_a.Base.{
  ℕ, Bool, not, ◌||◌, ◌&&◌, Option, none, some, List, [], ◌∷◌, ◌++◌, ◌==◌, if◌then◌else◌,
}
use android_device_lenovo_a.SyncReq.Ops.{get_size_by_resp_ind_id}
use android_device_lenovo_a.LocClient.State.{Ptr, null, CallbackData}

-- A row of the table of events: the id, its size, and the mask that enables it.
abbrev pub EventTable : Type 0
EventTable = List (ℕ × ℕ × ℕ)

unfoldable pub get_size_by_event_ind_id : EventTable → ℕ → Option ℕ
get_size_by_event_ind_id [] ind = none
get_size_by_event_ind_id ((id, size, mask) ∷ table) ind =
    if ind == id then some size else get_size_by_event_ind_id table ind

pub data IndType : Type 0 where
  event_ind resp_ind : IndType

abbrev pub size_and_type : Option ℕ → Option ℕ → Option (ℕ × IndType)
size_and_type (some size) resp = some (size, event_ind)
size_and_type none (some size) = some (size, resp_ind)
size_and_type none none = none

unfoldable pub get_size_and_type_by_ind_id : EventTable → List (ℕ × ℕ) → ℕ → Option (ℕ × IndType)
get_size_and_type_by_ind_id events resps ind =
    size_and_type (get_size_by_event_ind_id events ind) (get_size_by_resp_ind_id resps ind)

-- A call of a client's callback: the function, the handle, the indication or the error, the buffer
-- with the decoded indication, and the cookie.
pub record Invocation : Type 0 where
  pub callback : Ptr
  pub handle : Ptr
  pub ind : ℕ
  pub buffer : Ptr
  pub cookie : Ptr

-- What a callback of the framework does: it makes a buffer, calls the client, frees the buffer.
pub data Act : Type 0 where
  malloc : (size : ℕ) → Act
  invoke : Invocation → Act
  free : (buffer : Ptr) → Act

abbrev pub callback_of : IndType → CallbackData → Ptr
callback_of event_ind d = d.event_callback
callback_of resp_ind d = d.resp_callback

-- The call, once the indication is decoded; `now` is the callback data when the pointer is tested
-- again, and `last` when the cookie is read.
unfoldable pub deliver :
    IndType → (handle : Ptr) (ind : ℕ) (buffer : Ptr) → (d now last : CallbackData) → List Act
deliver type handle ind buffer d now last =
    if not (callback_of type d == null) && not (callback_of type now == null)
    then invoke (record {
      callback = callback_of type d;
      handle = handle;
      ind = ind;
      buffer = buffer;
      cookie = last.client_cookie;
    })
      ∷ []
    else []

-- `buffer` is what malloc returns. An empty indication is not decoded.
unfoldable pub decoded :
    Option (ℕ × IndType)
    → (buffer : Ptr) (len : ℕ) (decode_ok : Bool) → (handle : Ptr) (ind : ℕ)
    → (d now last : CallbackData) → List Act
decoded none buffer len decode_ok handle ind d now last = []
decoded (some (size, type)) buffer len decode_ok handle ind d now last =
    if buffer == null
    then malloc size ∷ []
    else malloc size
      ∷ ((if (len == 0) || decode_ok then deliver type handle ind buffer d now last else [])
          ++ free buffer ∷ [])

-- locClientIndCb on callback data that is there; `none` for NULL.
unfoldable pub ind_cb :
    EventTable
    → List (ℕ × ℕ)
    → (user_handle : Ptr) (ind : ℕ) → (buffer : Ptr) (len : ℕ) (decode_ok : Bool) → (cb_data : Ptr)
    → (d now last : CallbackData) → List Act
ind_cb events resps user_handle ind buffer len decode_ok cb_data d now last =
    if (cb_data == null) || not (cb_data == d.me)
    then []
    else if not (d.user_handle == user_handle)
    then []
    else decoded (get_size_and_type_by_ind_id events resps ind) buffer len decode_ok cb_data ind d
        now last

-- Every error is reported as eLOC_CLIENT_ERROR_SERVICE_UNAVAILABLE.
abbrev pub error_service_unavailable : ℕ
error_service_unavailable = 1

unfoldable pub convert_qmi_error_to_loc_error : (error : ℕ) → ℕ
convert_qmi_error_to_loc_error error = error_service_unavailable

-- locClientErrorCb
unfoldable pub error_cb : (error : ℕ) (cb_data : Ptr) → (d now last : CallbackData) → List Act
error_cb error cb_data d now last =
    if not (cb_data == null)
      && (not (d.error_callback == null)
          && (not (now.error_callback == null) && (cb_data == now.me)))
    then invoke (record {
      callback = d.error_callback;
      handle = cb_data;
      ind = convert_qmi_error_to_loc_error error;
      buffer = null;
      cookie = last.client_cookie;
    })
      ∷ []
    else []
