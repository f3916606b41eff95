-- ===== src/LocClient/Open.antt =====
-- Opening and closing a client (loc_api_v02_client.c). What the platform and the QMI framework do
-- in one attempt is an argument.
use android_device_lenovo_a.Base.{
  ℕ, zero, suc, ◌+◌, ◌-◌, Bool, true, false, not, ◌&&◌, Option, none, some, List, [], ◌∷◌, ◌==◌,
  if◌then◌else◌,
}
use android_device_lenovo_a.Base.Run.{ok, out_of_fuel, Cmd, pure, ◌>>=◌, ◌>>◌}
use android_device_lenovo_a.LocClient.State.{
  Ptr, null, Status, success, failure_invalid_parameter, failure_invalid_handle, failure_internal,
  is_success, CallbackData, zeroed, World, store, load, sane,
}
use android_device_lenovo_a.LocClient.Requests.{RequestTable, Reply, register_event_mask}

-- locClientCallbacksType; `right_size` says that its field `size` is its size.
pub record Callbacks : Type 0 where
  pub right_size : Bool
  pub event_ind_cb : Ptr
  pub resp_ind_cb : Ptr
  pub error_cb : Ptr

pub record Attempt : Type 0 where
  -- What calloc returns.
  pub calloc : Ptr
  pub service_object : Bool
  -- Whether qmi_client_notifier_init makes a notifier, and whether it returns QMI_NO_ERR.
  pub notifier : Bool
  pub notifier_ok : Bool
  -- Whether the lookups of the service find it, one after the other.
  pub lookups : List Bool
  -- The handle of qmi_client_init; NULL stands for an error.
  pub client : Ptr
  pub error_cb_ok : Bool
  -- What the registration of the events is answered.
  pub reply : Reply
  -- Whether qmi_client_release of the client returns QMI_NO_ERR.
  pub release_ok : Bool

abbrev pub add_client : Cmd World (Unit {0})
add_client w = ok tt (record w { clients = w.clients + 1 })

abbrev pub release_client : Cmd World (Unit {0})
release_client w = ok tt (record w { clients = w.clients - 1 })

abbrev pub add_notifier : Cmd World (Unit {0})
add_notifier w = ok tt (record w { notifiers = w.notifiers + 1 })

abbrev pub release_notifier : Cmd World (Unit {0})
release_notifier w = ok tt (record w { notifiers = w.notifiers - 1 })

-- The wait for the service, which has no bound: while all lookups so far have failed, it goes on.
unfoldable pub await_lookup : List Bool → Cmd World (Unit {0})
await_lookup [] = λ w. out_of_fuel
await_lookup (true ∷ lookups) = pure tt
await_lookup (false ∷ lookups) = await_lookup lookups

-- The initialisation of the client, once the service is up.
unfoldable pub client_init : Attempt → (cb_data : Ptr) → Cmd World Status
client_init at cb_data = if at.client == null then pure failure_internal else (do
  add_client
  if not at.error_cb_ok then pure failure_internal else (do
    d ← load cb_data
    store cb_data (some (record d { user_handle = at.client }))
    pure success))

-- locClientQmiCtrlPointInit
unfoldable pub qmi_ctrl_point_init : Attempt → (cb_data : Ptr) → Cmd World Status
qmi_ctrl_point_init at cb_data = if not at.service_object then pure failure_internal else (do
  if at.notifier then add_notifier else pure tt
  status ←
      if not at.notifier_ok
      then pure failure_internal
      else (do await_lookup at.lookups; client_init at cb_data)
  if at.notifier then release_notifier else pure tt
  pure status)

-- locClientClose. `none` is a NULL pointer to the handle.
unfoldable pub close_sane :
    (release_ok : Bool) (handle : Ptr) → Option CallbackData → Cmd World (Status × Ptr)
close_sane release_ok handle none = pure (failure_invalid_handle, handle)
close_sane false handle (some d) = pure (failure_internal, handle)
close_sane true handle (some d) = do release_client; store handle none; pure (success, null)

unfoldable pub close : (release_ok : Bool) → Option Ptr → Cmd World (Status × Option Ptr)
close release_ok none = pure (failure_invalid_parameter, none)
close release_ok (some handle) = do
  d ← sane handle
  (status, handle') ← close_sane release_ok handle d
  pure (status, some handle')

-- The callback data of a client that is open.
abbrev pub filled : Callbacks → (mask : ℕ) (cookie : Ptr) → CallbackData → CallbackData
filled cbs mask cookie d = record d {
  event_callback = cbs.event_ind_cb;
  resp_callback = cbs.resp_ind_cb;
  error_callback = cbs.error_cb;
  event_reg_mask = mask;
  client_cookie = cookie;
}

-- The rest of an attempt, once the control point is there.
unfoldable pub register_client :
    RequestTable → Attempt → (mask : ℕ) → Callbacks → (cookie cb_data : Ptr) → Cmd World Status
register_client table at mask cbs cookie cb_data = do
  d ← load cb_data
  store cb_data (some (record d { me = cb_data }))
  registered ← register_event_mask table at.reply cb_data mask
  if not registered
      then (do _ ← close at.release_ok (some cb_data); pure failure_internal)
      else (do e ← load cb_data; store cb_data (some (filled cbs mask cookie e)); pure success)

-- The body of the `do` block of locClientOpenInstance.
unfoldable pub open_client :
    RequestTable → Attempt → (mask : ℕ) → Callbacks → (cookie : Ptr) → Cmd World Status
open_client table at mask cbs cookie = if at.calloc == null then pure failure_internal else (do
  store at.calloc (some zeroed)
  status ← qmi_ctrl_point_init at at.calloc
  if not (is_success status)
      then (do store at.calloc none; pure status)
      else register_client table at mask cbs cookie at.calloc)

abbrev pub valid_callbacks : Callbacks → Bool
valid_callbacks cbs = not (cbs.resp_ind_cb == null) && cbs.right_size

-- locClientOpenInstance; `none` for a NULL argument. The instance id only says which service is
-- waited for.
unfoldable pub open_instance :
    RequestTable
    → Attempt
    → (mask : ℕ) → Option Callbacks
    → (handle : Option Ptr) (cookie : Ptr) → Cmd World (Status × Option Ptr)
open_instance table at mask none handle cookie = pure (failure_invalid_parameter, handle)
open_instance table at mask (some cbs) none cookie = pure (failure_invalid_parameter, none)
open_instance table at mask (some cbs) (some handle) cookie =
    if not (valid_callbacks cbs) then pure (failure_invalid_parameter, some handle) else (do
      status ← open_client table at mask cbs cookie
      pure (status, some (if is_success status then at.calloc else null)))

-- The loop of locClientOpen: `retries` more attempts are made, numbered from `n` on.
unfoldable pub open_loop :
    RequestTable
    → (ℕ → Attempt)
    → (mask : ℕ) → Option Callbacks
    → (cookie : Ptr) → (retries n : ℕ) → Option Ptr
    → Cmd World (Status × Option Ptr)
open_loop table at mask cbs cookie zero n handle = open_instance table (at n) mask cbs handle cookie
open_loop table at mask cbs cookie (suc retries) n handle = do
  (status, handle') ← open_instance table (at n) mask cbs handle cookie
  if is_success status
      then pure (status, handle')
      else open_loop table at mask cbs cookie retries (n + 1) handle'

abbrev pub max_open_retries : ℕ
max_open_retries = 20

-- locClientOpen
unfoldable pub open_ :
    RequestTable
    → (ℕ → Attempt)
    → (mask : ℕ) → Option Callbacks
    → (handle : Option Ptr) (cookie : Ptr) → Cmd World (Status × Option Ptr)
open_ table at mask cbs handle cookie = open_loop table at mask cbs cookie max_open_retries 0 handle
