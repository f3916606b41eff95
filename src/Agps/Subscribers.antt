-- ===== src/Agps/Subscribers.antt =====
-- The subscribers of gps/loc_api/libloc_api_50001/loc_eng_agps.cpp.
use android_device_lenovo_a.Base.{
  ℕ, zero, suc, ◌-◌, ◌^◌, Bool, true, false, ◌&&◌, ◌||◌, not, Option, none, some, List, [], ◌∷◌,
  ◌==◌, if◌then◌else◌,
}
use android_device_lenovo_a.Base.Int.{ℤ, negsuc}
use android_device_lenovo_a.Agps.Types.{
  Status, subscribe, unsubscribe, granted, released, denied, status_max, Kind, bit, atl, wifi, ds,
  Subscriber, Receiver, rcver, broadcast_all, broadcast_active, broadcast_inactive, Notification,
  request_success, release_success, failure, Call, data_conn, atl_open_status, atl_close_status,
  request_atl, close_data_call, Env, Nif,
}

abbrev pub inaddr_none : ℕ
inaddr_none = 2 ^ 32 - 1

-- `0 == strncmp(a, b, n)`
abbrev pub strncmp_eq : ℕ → List ℕ → List ℕ → Bool
strncmp_eq zero a b = true
strncmp_eq (suc n) (x ∷ a) (y ∷ b) = x == y && (x == 0 || strncmp_eq n a b)
strncmp_eq (suc n) _ _ = true

-- The bytes that BITSubscriber::equals reads of a subscriber, which it takes for one of its class.
abbrev pub ipv6_of : Kind → List ℕ
ipv6_of (bit v6) = v6
ipv6_of _ = []

abbrev pub equals_kind : ℕ → Kind → Kind → Bool
equals_kind id (bit v6) k = not (id == inaddr_none) || strncmp_eq 16 v6 (ipv6_of k)
equals_kind id _ k = true

-- Subscriber::equals and BITSubscriber::equals
abbrev pub equals : Subscriber → Subscriber → Bool
equals s t = s.id == t.id && equals_kind s.id s.kind t.kind

-- Subscriber::forMe
abbrev pub for_receiver : Receiver → Subscriber → Bool
for_receiver (rcver t) s = equals s t
for_receiver broadcast_all s = true
for_receiver broadcast_active s = not s.is_inactive
for_receiver broadcast_inactive s = s.is_inactive

abbrev pub called : Call → Env → Option Env
called c e = some (record e { calls = c ∷ e.calls })

-- BITSubscriber: `sender` is LOC_ENG_IF_REQUEST_SENDER_ID_GPSONE_DAEMON.
abbrev pub gpsone_daemon : ℕ
gpsone_daemon = 3

-- The type that a backward compatible client is told.
abbrev pub told_type : Bool → ℤ → ℤ
told_type true type = negsuc 0
told_type false type = type

-- DSStateMachine::informStatus. A denied data call is asked for as a normal one.
abbrev pub inform_status : Status → ℕ → Env → Env
inform_status unsubscribe id e = record e { calls = atl_close_status id ∷ e.calls }
inform_status released id e = record e { calls = close_data_call ∷ e.calls }
inform_status denied id e = record { calls = request_atl id ∷ e.calls; retries = 0 }
inform_status granted id e = record e {
  calls = atl_open_status id true none (negsuc 0) (negsuc 0) ∷ e.calls;
}
inform_status _ id e = e

-- What each class does in notifyRsrcStatus with a notification for it; `none` is the default case.
abbrev pub notified : Nif → Kind → Status → ℕ → Env → Option Env
notified n (bit v6) unsubscribe id = called (data_conn gpsone_daemon release_success)
notified n (bit v6) released id = called (data_conn gpsone_daemon release_success)
notified n (bit v6) denied id = called (data_conn gpsone_daemon failure)
notified n (bit v6) granted id = called (data_conn gpsone_daemon request_success)
notified n (atl mode) unsubscribe id = called (atl_close_status id)
notified n (atl mode) released id = called (atl_close_status id)
notified n (atl mode) denied id =
    called (atl_open_status id false n.apn n.bearer (told_type mode n.type))
notified n (atl mode) granted id =
    called (atl_open_status id true n.apn n.bearer (told_type mode n.type))
notified n (wifi s p) unsubscribe id = some
notified n (wifi s p) released id = called (data_conn id release_success)
notified n (wifi s p) denied id = called (data_conn id failure)
notified n (wifi s p) granted id = called (data_conn id request_success)
notified n ds unsubscribe id = λ e. some (inform_status unsubscribe id e)
notified n ds released id = λ e. some (inform_status released id e)
notified n ds denied id = λ e. some (inform_status denied id e)
notified n ds granted id = λ e. some (inform_status granted id e)
notified n k subscribe id = λ e. none
notified n k status_max id = λ e. none

abbrev pub or_not : Env → Option Env → Bool × Env
or_not e none = (false, e)
or_not e (some e') = (true, e')

-- notifyRsrcStatus
unfoldable pub notify_rsrc_status : Nif → Notification → Subscriber → Env → Bool × Env
notify_rsrc_status n notification s e =
    if for_receiver notification.receiver s
    then or_not e (notified n s.kind notification.rsrc_status s.id e)
    else (false, e)

-- waitForCloseComplete
abbrev pub wait_for_close_complete : Kind → Bool
wait_for_close_complete (bit v6) = false
wait_for_close_complete (atl mode) = false
wait_for_close_complete (wifi s p) = true
wait_for_close_complete ds = true

-- setInactive: of the subscriber, and what else it does.
abbrev pub set_inactive : Subscriber → Subscriber
set_inactive s = if wait_for_close_complete s.kind then record s { is_inactive = true } else s

abbrev pub inactive_call : Kind → ℕ → Env → Env
inactive_call ds id e = inform_status unsubscribe id e
inactive_call _ id e = e

-- clone
abbrev pub clone : Subscriber → Subscriber
clone s = record s { is_inactive = false }
