-- ===== src/Agps/States.antt =====
-- The states of AgpsStateMachine and its operations, of
-- gps/loc_api/libloc_api_50001/loc_eng_agps.cpp.
use android_device_lenovo_a.Base.{
  Bool, true, false, ◌&&◌, Option, none, some, List, [], ◌∷◌, if◌then◌else◌,
}
use android_device_lenovo_a.Agps.Types.{
  Status, unsubscribe, granted, released, denied, request_conn, State, released_state,
  pending_state, acquired_state, releasing_state, Subscriber, rcver, broadcast_all,
  broadcast_active, broadcast_inactive, request_supl_es, Class, agps_class, ds_class, Nif, Machine,
}
use android_device_lenovo_a.Agps.Subscribers.{notify_rsrc_status}
use android_device_lenovo_a.Agps.Machine.{
  search, notify_subscribers, has_subscribers, has_active_subscribers, add_subscriber, Io,
  send_rsrc_request, notification, go_to, unsubscribed, left_over,
}

-- The event with its data: a subscriber, or NULL.
pub data Event : Type 0 where
  subscribes : Subscriber → Event
  unsubscribes : Subscriber → Event
  grants releases denies : Event

-- `subscriber->notifyRsrcStatus(notification)`, the result of which is ignored.
unfoldable pub tell : Subscriber → Status → Machine → Machine
unfolding notify_rsrc_status
tell s status m = record m {
  env = (notify_rsrc_status m.nif (notification (rcver s) status false) s m.env).1;
}

abbrev pub pending_if_sent : Bool × Machine → Machine
pending_if_sent (is_sent, m) = if is_sent then go_to pending_state m else m

-- AgpsReleasedState::onRsrcEvent
unfoldable pub on_released : Io → Event → Machine → Machine
unfolding tell send_rsrc_request
on_released io (subscribes s) m =
    pending_if_sent (send_rsrc_request io request_conn (add_subscriber s m))
on_released io (unsubscribes s) m = tell s unsubscribe m
on_released io _ m = m

-- AgpsPendingState::onRsrcEvent
unfoldable pub on_pending : Io → Event → Machine → Machine
unfolding unsubscribed left_over notify_subscribers
on_pending io (subscribes s) m = add_subscriber s m
on_pending io (unsubscribes s) m = left_over io (unsubscribed s m)
on_pending io grants m =
    go_to acquired_state (notify_subscribers (notification broadcast_active granted false) m)
on_pending io releases m = m
on_pending io denies m =
    go_to released_state (notify_subscribers (notification broadcast_all denied true) m)

-- AgpsAcquiredState::onRsrcEvent
unfoldable pub on_acquired : Io → Event → Machine → Machine
unfolding tell unsubscribed left_over notify_subscribers
on_acquired io (subscribes s) m = add_subscriber s (tell s granted m)
on_acquired io (unsubscribes s) m = left_over io (unsubscribed s m)
on_acquired io grants m = m
on_acquired io releases m =
    go_to released_state (notify_subscribers (notification broadcast_all released true) m)
on_acquired io denies m = m

-- What AgpsReleasingState does when the connection is released or denied.
unfoldable pub restart : Io → Machine → Machine
unfolding send_rsrc_request
restart io m =
    if has_active_subscribers m
    then go_to pending_state (send_rsrc_request io request_conn m).1
    else go_to released_state m

-- AgpsReleasingState::onRsrcEvent
unfoldable pub on_releasing : Io → Event → Machine → Machine
unfolding unsubscribed restart notify_subscribers
on_releasing io (subscribes s) m = add_subscriber s m
on_releasing io (unsubscribes s) m =
    let m' = unsubscribed s m in if has_subscribers m' then m' else go_to released_state m'
on_releasing io grants m = m
on_releasing io releases m =
    restart io (notify_subscribers (notification broadcast_inactive released true) m)
on_releasing io denies m =
    restart io (notify_subscribers (notification broadcast_inactive denied true) m)

-- mStatePtr->onRsrcEvent
abbrev pub dispatch : State → Io → Event → Machine → Machine
dispatch released_state = on_released
dispatch pending_state = on_pending
dispatch acquired_state = on_acquired
dispatch releasing_state = on_releasing

-- AgpsStateMachine::subscribeRsrc
unfoldable pub subscribe_rsrc : Io → Subscriber → Machine → Machine
unfolding notify_rsrc_status
subscribe_rsrc io s m =
    if m.nif.enforce_single_subscriber && has_subscribers m
    then record m {
      env = (notify_rsrc_status m.nif (notification broadcast_all denied true) s m.env).1;
    }
    else dispatch m.state io (subscribes s) m

abbrev pub unsubscribe_found : Io → Option Subscriber → Machine → Bool × Machine
unsubscribe_found io none m = (false, m)
unsubscribe_found io (some s) m = (true, dispatch m.state io (unsubscribes s) m)

-- AgpsStateMachine::unsubscribeRsrc
unfoldable pub unsubscribe_rsrc : Io → Subscriber → Machine → Bool × Machine
unsubscribe_rsrc io s m = unsubscribe_found io (search (rcver s) m.subscribers) m

-- What the network reports: RSRC_GRANTED, RSRC_RELEASED or RSRC_DENIED.
pub data Report : Type 0 where
  is_granted is_released is_denied : Report

abbrev pub event_of : Report → Event
event_of is_granted = grants
event_of is_released = releases
event_of is_denied = denies

abbrev pub same_state : State → State → Bool
same_state released_state released_state = true
same_state pending_state pending_state = true
same_state acquired_state acquired_state = true
same_state releasing_state releasing_state = true
same_state _ _ = false

-- DSStateMachine::onRsrcEvent: a release that changes no state is taken for a denial.
abbrev pub ds_event : Io → Report → Machine → Machine
ds_event io is_granted m = dispatch m.state io grants m
ds_event io is_released m =
    let m' = dispatch m.state io releases m in
    if same_state m'.state m.state then dispatch m'.state io denies m' else m'
ds_event io is_denied m = dispatch m.state io denies m

-- AgpsStateMachine::onRsrcEvent and that of DSStateMachine.
abbrev pub event_as : Class → Io → Report → Machine → Machine
event_as agps_class io r m = dispatch m.state io (event_of r) m
event_as ds_class io r m = ds_event io r m

unfoldable pub on_rsrc_event : Io → Report → Machine → Machine
on_rsrc_event io r m = event_as m.nif.class io r m

-- DSStateMachine::retryCallback
unfoldable pub retry_callback : Machine → Machine
retry_callback m = elim (search broadcast_active m.subscribers) [
  | none ↦ m
  | some s ↦ record m { env = record (m.env) { calls = request_supl_es s.id ∷ m.env.calls } }
]

-- AgpsStateMachine's constructor.
abbrev pub new_machine : Nif → Machine
new_machine n = record {
  nif = n;
  state = released_state;
  subscribers = [];
  env = record { calls = []; retries = 0 };
}

pub data Op : Type 0 where
  subscribe_op : Subscriber → Op
  unsubscribe_op : Subscriber → Op
  report_op : Report → Op

unfoldable pub run_op : Io → Op → Machine → Machine
run_op io (subscribe_op s) m = subscribe_rsrc io s m
run_op io (unsubscribe_op s) m = (unsubscribe_rsrc io s m).1
run_op io (report_op r) m = on_rsrc_event io r m

unfoldable pub run_ops : Io → List Op → Machine → Machine
run_ops io [] m = m
run_ops io (o ∷ os) m = run_ops io os (run_op io o m)
