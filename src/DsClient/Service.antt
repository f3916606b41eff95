-- ===== src/DsClient/Service.antt =====
-- ds_client_qmi_ctrl_point_init of gps/loc_api/ds_api/ds_client.c.
use android_device_lenovo_a.Base.{
  ℕ, zero, suc, ◌+◌, ◌-◌, Bool, true, false, ◌&&◌, ◌||◌, not, Option, none, some, is_some, ◌==◌,
  if◌then◌else◌,
}
use android_device_lenovo_a.DsClient.Types.{
  Status, success, failure_internal, failure_timeout, Res, Poll, Platform,
}

-- `ret == QMI_NO_ERR`, num_services and no_signal.
pub record Service : Type 0 where
  pub is_up : Bool
  pub num_services : ℕ
  pub no_signal : Bool

abbrev pub num_of : Option ℕ → ℕ → ℕ
num_of none n = n
num_of (some m) n = m

-- The body of the loop.
abbrev pub look : Poll → Service → Service
look p s =
    if is_some p.first_look
    then record s { is_up = true; num_services = num_of p.first_look s.num_services }
    else if p.timed_out
    then record s { is_up = false; no_signal = true }
    else record {
      is_up = is_some p.second_look;
      num_services = num_of p.second_look s.num_services;
      no_signal = false;
    }

-- The loop, which runs while there is time (`rounds` of DS_CLIENT_SERVICE_TIMEOUT are left).
unfoldable pub await_service : (rounds round : ℕ) → (ℕ → Poll) → Service → Service
await_service zero round poll s = s
await_service (suc rounds) round poll s =
    let s' = look (poll round) s in
    let rest = await_service rounds (round + 1) poll s' in
    if s'.no_signal && not s'.is_up then rest else s'

-- DS_CLIENT_SERVICE_TIMEOUT_TOTAL / DS_CLIENT_SERVICE_TIMEOUT
abbrev pub max_rounds : ℕ
max_rounds = 10

abbrev pub released_if : Bool → ℕ → ℕ
released_if b n = if b then n - 1 else n

-- What follows when the service was looked for. The block of p_service_info is freed at the end.
unfoldable pub connect : Platform → (notifier : Bool) → Service → Res → Status × Res
connect p notifier s r =
    if s.num_services == 0 || not s.is_up
    then (if s.no_signal then failure_timeout else failure_internal, r)
    else if not (p.malloc_services && (p.list_services && p.client_init))
    then (failure_internal, r)
    else (
      success,
      record r { clients = r.clients + 1; notifiers = released_if notifier r.notifiers },
    )

abbrev pub new_service : Service
new_service = record { is_up = false; num_services = 0; no_signal = false }

abbrev pub seen : Option ℕ → Service
seen look = record { is_up = true; num_services = num_of look 0; no_signal = false }

unfoldable pub ctrl_point_init : Platform → Res → Status × Res
unfolding await_service connect
ctrl_point_init p r =
    if not p.service_object
    then (failure_internal, r)
    else if is_some p.first_look
    then connect p false (seen p.first_look) r
    else if not p.notifier_init
    then (failure_internal, r)
    else connect p true (await_service max_rounds 0 p.poll new_service)
        (record r { notifiers = r.notifiers + 1 })
