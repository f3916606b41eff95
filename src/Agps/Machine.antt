-- ===== src/Agps/Machine.antt =====
-- AgpsStateMachine, DSStateMachine and their states, of
-- gps/loc_api/libloc_api_50001/loc_eng_agps.cpp. The list of subscribers is that of linked_list.c, from
-- its head on.
use android_device_lenovo_a.Base.{
  ℕ, zero, suc, ◌+◌, ◌%◌, Bool, true, false, ◌&&◌, not, Option, none, some, List, [], ◌∷◌, ltb,
  length, is_some, if◌then◌else◌,
}
use android_device_lenovo_a.Agps.Types.{
  Status, unsubscribe, denied, Action, request_conn, release_conn, State, released_state,
  releasing_state, wifi, Subscriber, rcver, broadcast_active, Receiver, Notification, request_rsrc,
  request_data_call, start_timer, Env, Class, agps_class, ds_class, Nif, Machine, Answer, success,
  engine_busy, unsupported, failed, other,
}
use android_device_lenovo_a.Agps.Subscribers.{
  equals, for_receiver, notify_rsrc_status, wait_for_close_complete, set_inactive, inactive_call,
  clone, inform_status,
}

-- linked_list_search with hasSubscriber, which removes nothing.
abbrev pub search : Receiver → List Subscriber → Option Subscriber
search r [] = none
search r (s ∷ ss) = if for_receiver r s then some s else search r ss

-- What linked_list_search with notifySubscriber returns where it may remove an element: `*data_p`
-- and the list.
pub record Removal : Type 0 where
  pub hit : Option Subscriber
  pub left : List Subscriber
  pub env : Env

unfoldable pub notify_search : Nif → Notification → List Subscriber → Env → Removal
unfolding notify_rsrc_status
notify_search n notification [] e = record { hit = none; left = []; env = e }
notify_search n notification (s ∷ ss) e =
    let (notified, e') = notify_rsrc_status n notification s e in
    let rest = notify_search n notification ss e' in
    if notified && notification.post_notify_delete
    then record { hit = some s; left = ss; env = e' }
    else record rest { left = s ∷ rest.left }

-- The loop of AgpsStateMachine::notifySubscribers.
unfoldable pub notify_loop :
    (fuel : ℕ) → Nif → Notification → List Subscriber → Env → List Subscriber × Env
unfolding notify_search
notify_loop zero n notification ss e = (ss, e)
notify_loop (suc fuel) n notification ss e =
    let r = notify_search n notification ss e in
    let rest = notify_loop fuel n notification r.left r.env in
    if is_some r.hit then rest else (r.left, r.env)

-- A list of so many subscribers is searched once more than it has elements, at most.
unfoldable pub notify_subscribers : Notification → Machine → Machine
unfolding notify_loop
notify_subscribers notification m =
    let (ss, e) =
      if notification.post_notify_delete
      then notify_loop (length m.subscribers + 1) m.nif notification m.subscribers m.env
      else let r = notify_search m.nif notification m.subscribers m.env in (r.left, r.env) in
    record m { subscribers = ss; env = e }

-- `!linked_list_empty(mSubscribers)`
abbrev pub is_inhabited : List Subscriber → Bool
is_inhabited [] = false
is_inhabited (s ∷ ss) = true

abbrev pub has_subscribers : Machine → Bool
has_subscribers m = is_inhabited m.subscribers

abbrev pub has_active_subscribers : Machine → Bool
has_active_subscribers m = is_some (search broadcast_active m.subscribers)

abbrev pub add_subscriber : Subscriber → Machine → Machine
add_subscriber s m =
    if is_some (search (rcver s) m.subscribers)
    then m
    else record m { subscribers = clone s ∷ m.subscribers }

-- `subscriber->setInactive()` on the element that a search for `s` found.
abbrev pub mark_inactive : Subscriber → List Subscriber → List Subscriber
mark_inactive s [] = []
mark_inactive s (t ∷ ts) = if equals t s then set_inactive t ∷ ts else t ∷ mark_inactive s ts

abbrev pub ssid_of : Option Subscriber → List ℕ
ssid_of (some s) = elim s.kind [ wifi (some ssid) p ↦ ssid | _ ↦ [] ]
ssid_of none = []

abbrev pub password_of : Option Subscriber → List ℕ
password_of (some s) = elim s.kind [ wifi ssid (some p) ↦ p | _ ↦ [] ]
password_of none = []

-- `(NULL == s) == (GPS_RELEASE_AGPS_DATA_CONN == action)`
abbrev pub is_due : Option Subscriber → Action → Bool
is_due none release_conn = true
is_due none request_conn = false
is_due (some s) release_conn = false
is_due (some s) request_conn = true

-- AgpsStateMachine::sendRsrcRequest, which returns 0.
abbrev pub agps_send : Action → Machine → Machine
agps_send action m =
    let s = search broadcast_active m.subscribers in
    if is_due s action
    then record m {
      env = record (m.env) {
        calls = request_rsrc action m.nif.type (ssid_of s) (password_of s) ∷ m.env.calls;
      };
    }
    else m

abbrev pub max_start_data_call_retries : ℕ
max_start_data_call_retries = 4

-- `-1` stands for the connection handle where no subscriber is active.
abbrev pub handle_of : Option Subscriber → ℕ
handle_of (some s) = s.id
handle_of none = 4294967295

-- What the callback of the servicer answers, and whether a timer can be started.
pub record Io : Type 0 where
  pub requested : Action → Env → Answer
  pub timer_starts : Env → Bool

-- The switch of DSStateMachine::sendRsrcRequest on the answer: whether it returns 0.
abbrev pub ds_answer : Io → ℕ → Answer → Env → Bool × Env
ds_answer io handle success e = (true, e)
ds_answer io handle engine_busy e =
    let e' = record e { retries = (e.retries + 1) % 256 } in
    (
      false,
      if ltb max_start_data_call_retries e'.retries
          then inform_status denied handle e'
          else if io.timer_starts e'
          then record e' { calls = start_timer ∷ e'.calls }
          else e',
    )
ds_answer io handle unsupported e = (false, inform_status denied handle e)
ds_answer io handle failed e = (false, inform_status denied handle e)
ds_answer io handle other e = (false, e)

abbrev pub ds_send : Io → Action → Machine → Bool × Machine
ds_send io action m =
    let s = search broadcast_active m.subscribers in
    let e = record (m.env) { calls = request_data_call action ∷ m.env.calls } in
    let (is_sent, e') = ds_answer io (handle_of s) (io.requested action e) e in
    (is_sent, record m { env = e' })

-- sendRsrcRequest: whether it returns 0.
abbrev pub send_as : Class → Io → Action → Machine → Bool × Machine
send_as agps_class io action m = (true, agps_send action m)
send_as ds_class io action m = ds_send io action m

unfoldable pub send_rsrc_request : Io → Action → Machine → Bool × Machine
send_rsrc_request io action m = send_as m.nif.class io action m

abbrev pub notification : Receiver → Status → Bool → Notification
notification r status delete = record {
  receiver = r;
  rsrc_status = status;
  post_notify_delete = delete;
}

abbrev pub go_to : State → Machine → Machine
go_to st m = record m { state = st }

-- The unsubscription of a subscriber of the list, as in the states pending, acquired and releasing.
unfoldable pub unsubscribed : Subscriber → Machine → Machine
unfolding notify_subscribers
unsubscribed s m =
    if wait_for_close_complete s.kind
    then record m {
      subscribers = mark_inactive s m.subscribers;
      env = inactive_call s.kind s.id m.env;
    }
    else notify_subscribers (notification (rcver s) unsubscribe true) m

-- What the states pending and acquired do after it.
unfoldable pub left_over : Io → Machine → Machine
unfolding send_rsrc_request
left_over io m =
    if not (has_subscribers m)
    then go_to released_state (send_rsrc_request io release_conn m).1
    else if not (has_active_subscribers m)
    then go_to releasing_state (send_rsrc_request io release_conn m).1
    else m
