-- ===== src/LocClient/State.antt =====
-- The callback data of the clients of gps/loc_api/loc_api_v02/loc_api_v02_client.c, on the heap, and
-- what the QMI framework holds for them.
use android_device_lenovo_a.Base.{
  ℕ, Bool, true, false, not, ◌||◌, Option, none, some, ◌==◌, if◌then◌else◌,
}
use android_device_lenovo_a.Base.Run.{ok, fault, Cmd, pure, ◌>>=◌}

abbrev pub Ptr : Type 0
Ptr = ℕ

-- NULL, which is LOC_CLIENT_INVALID_HANDLE_VALUE too.
abbrev pub null : Ptr
null = 0

pub data Status : Type 0 where
  success failure_general failure_unsupported failure_invalid_parameter : Status
  failure_engine_busy failure_phone_offline failure_invalid_handle failure_internal : Status

abbrev pub is_success : Status → Bool
is_success success = true
is_success _ = false

-- A callback is the address of its function, or NULL.
pub record CallbackData : Type 0 where
  pub client_cookie : Ptr
  pub user_handle : Ptr
  pub event_callback : Ptr
  pub resp_callback : Ptr
  pub error_callback : Ptr
  pub event_reg_mask : ℕ
  pub me : Ptr

-- What calloc and memset leave.
abbrev pub zeroed : CallbackData
zeroed = record {
  client_cookie = null;
  user_handle = null;
  event_callback = null;
  resp_callback = null;
  error_callback = null;
  event_reg_mask = 0;
  me = null;
}

-- The callback data, and how many clients and notifiers of QMI are not released.
pub record World : Type 0 where
  pub cells : Ptr → Option CallbackData
  pub clients : ℕ
  pub notifiers : ℕ

unfoldable pub write :
    (Ptr → Option CallbackData) → Ptr → Option CallbackData → Ptr → Option CallbackData
write h p c a = if a == p then c else h a

abbrev pub store : Ptr → Option CallbackData → Cmd World (Unit {0})
store p c w = ok tt (record w { cells = write w.cells p c })

abbrev pub deref : Option CallbackData → Cmd World CallbackData
deref none = λ w. fault
deref (some d) = pure d

-- `*p`
unfoldable pub load : Ptr → Cmd World CallbackData
load p w = if p == null then fault else deref (w.cells p) w

-- The test of a handle for sanity: `none` if it is invalid. A handle that is not NULL is followed.
unfoldable pub sane : Ptr → Cmd World (Option CallbackData)
sane handle = if handle == null then pure none else do
  d ← load handle
  pure (if (d.user_handle == null) || not (handle == d.me) then none else some d)
