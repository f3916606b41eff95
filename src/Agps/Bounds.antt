-- ===== src/Agps/Bounds.antt =====
-- mRetries of DSStateMachine, and its failed data calls
-- (gps/loc_api/libloc_api_50001/loc_eng_agps.cpp).
use android_device_lenovo_a.Base.{
  ℕ, ◌≡◌, ◌≢◌, refl, ap, ◌∙◌, Bool, true, false, ◌&&◌, inl, inr, Option, none, some, List, [], ◌∷◌,
  Bool-cases,
}
use android_device_lenovo_a.Agps.Types.{
  Status, granted, released, denied, unsubscribe, request_conn, State, released_state,
  pending_state, acquired_state, releasing_state, Subscriber, rcver, broadcast_all,
  broadcast_active, broadcast_inactive, Class, agps_class, ds_class, Nif, Machine, Env, Answer,
  success, engine_busy, unsupported, failed, other, request_data_call,
}
use android_device_lenovo_a.Agps.Machine.{
  search, has_subscribers, has_active_subscribers, add_subscriber, ds_answer, handle_of, send_as,
  Io, send_rsrc_request, notification, notify_subscribers, unsubscribed,
}
use android_device_lenovo_a.Agps.States.{
  Event, subscribes, unsubscribes, grants, releases, denies, tell, pending_if_sent, on_released,
  on_pending, on_acquired, restart, on_releasing, dispatch, subscribe_rsrc, unsubscribe_found,
  unsubscribe_rsrc, Report, is_granted, is_released, is_denied, same_state, event_as, on_rsrc_event,
  Op, subscribe_op, unsubscribe_op, report_op, run_op, run_ops,
}
use android_device_lenovo_a.Agps.Protocol.{add_subscriber-Kept}
use android_device_lenovo_a.Agps.Retries.{
  IsLow, notify_rsrc_status-IsLow, notify_subscribers-IsLow, unsubscribed-IsLow, send-IsLow,
  left_over-IsLow, add_subscriber-IsLow,
}

module _ (io : Io) where
  tell-IsLow : (s : Subscriber) (st : Status) (m : Machine) → IsLow m.env → IsLow (tell s st m).env
  unfolding tell
  tell-IsLow s st m h = notify_rsrc_status-IsLow m.nif (rcver s) st false s m.env h

  pending_if_sent-IsLow : (r : Bool × Machine) → IsLow r.1.env → IsLow (pending_if_sent r).env
  pending_if_sent-IsLow (true, m) h = h
  pending_if_sent-IsLow (false, m) h = h

  on_released-IsLow : (ev : Event) (m : Machine) → IsLow m.env → IsLow (on_released io ev m).env
  unfolding on_released
  on_released-IsLow (subscribes s) m h =
      pending_if_sent-IsLow _
        (send-IsLow io request_conn (add_subscriber s m) (add_subscriber-IsLow io s m h))
  on_released-IsLow (unsubscribes s) m h = tell-IsLow s unsubscribe m h
  on_released-IsLow grants m h = h
  on_released-IsLow releases m h = h
  on_released-IsLow denies m h = h

  on_pending-IsLow : (ev : Event) (m : Machine) → IsLow m.env → IsLow (on_pending io ev m).env
  unfolding on_pending
  on_pending-IsLow (subscribes s) m h = add_subscriber-IsLow io s m h
  on_pending-IsLow (unsubscribes s) m h =
      left_over-IsLow io (unsubscribed s m) (unsubscribed-IsLow s m h)
  on_pending-IsLow grants m h = notify_subscribers-IsLow broadcast_active granted false m refl h
  on_pending-IsLow releases m h = h
  on_pending-IsLow denies m h = notify_subscribers-IsLow broadcast_all denied true m refl h

  on_acquired-IsLow : (ev : Event) (m : Machine) → IsLow m.env → IsLow (on_acquired io ev m).env
  unfolding on_acquired
  on_acquired-IsLow (subscribes s) m h =
      add_subscriber-IsLow io s (tell s granted m) (tell-IsLow s granted m h)
  on_acquired-IsLow (unsubscribes s) m h =
      left_over-IsLow io (unsubscribed s m) (unsubscribed-IsLow s m h)
  on_acquired-IsLow grants m h = h
  on_acquired-IsLow releases m h = notify_subscribers-IsLow broadcast_all released true m refl h
  on_acquired-IsLow denies m h = h

  restart-IsLow : (m : Machine) → IsLow m.env → IsLow (restart io m).env
  unfolding restart
  restart-IsLow m h = elim (Bool-cases (has_active_subscribers m)) [
    | inl active ↦ rw active (send-IsLow io request_conn m h)
    | inr inactive ↦ rw inactive h
  ]

  on_releasing-IsLow : (ev : Event) (m : Machine) → IsLow m.env → IsLow (on_releasing io ev m).env
  unfolding on_releasing
  on_releasing-IsLow (subscribes s) m h = add_subscriber-IsLow io s m h
  on_releasing-IsLow (unsubscribes s) m h =
      let h' = unsubscribed-IsLow s m h in
      elim (Bool-cases (has_subscribers (unsubscribed s m))) [
        | inl some_ ↦ rw some_ h'
        | inr empty ↦ rw empty h'
      ]
  on_releasing-IsLow grants m h = h
  on_releasing-IsLow releases m h =
      restart-IsLow (notify_subscribers (notification broadcast_inactive released true) m)
        (notify_subscribers-IsLow broadcast_inactive released true m refl h)
  on_releasing-IsLow denies m h =
      restart-IsLow (notify_subscribers (notification broadcast_inactive denied true) m)
        (notify_subscribers-IsLow broadcast_inactive denied true m refl h)

  dispatch-IsLow :
      (st : State) (ev : Event) (m : Machine) → IsLow m.env → IsLow (dispatch st io ev m).env
  dispatch-IsLow released_state = on_released-IsLow
  dispatch-IsLow pending_state = on_pending-IsLow
  dispatch-IsLow acquired_state = on_acquired-IsLow
  dispatch-IsLow releasing_state = on_releasing-IsLow

  event_as-IsLow :
      (class : Class) (r : Report) (m : Machine) → IsLow m.env → IsLow (event_as class io r m).env
  event_as-IsLow agps_class is_granted m h = dispatch-IsLow m.state grants m h
  event_as-IsLow agps_class is_released m h = dispatch-IsLow m.state releases m h
  event_as-IsLow agps_class is_denied m h = dispatch-IsLow m.state denies m h
  event_as-IsLow ds_class is_granted m h = dispatch-IsLow m.state grants m h
  event_as-IsLow ds_class is_denied m h = dispatch-IsLow m.state denies m h
  event_as-IsLow ds_class is_released m h =
      let m' = dispatch m.state io releases m in
      let h' = dispatch-IsLow m.state releases m h in
      elim (Bool-cases (same_state m'.state m.state)) [
        | inl same ↦ rw same (dispatch-IsLow m'.state denies m' h')
        | inr other_ ↦ rw other_ h'
      ]

  unsubscribe_found-IsLow :
      (s : Option Subscriber) (m : Machine) → IsLow m.env → IsLow (unsubscribe_found io s m).1.env
  unsubscribe_found-IsLow none m h = h
  unsubscribe_found-IsLow (some s) m h = dispatch-IsLow m.state (unsubscribes s) m h

  subscribe_rsrc-IsLow :
      (s : Subscriber) (m : Machine) → IsLow m.env → IsLow (subscribe_rsrc io s m).env
  unfolding subscribe_rsrc
  subscribe_rsrc-IsLow s m h =
      elim (Bool-cases (m.nif.enforce_single_subscriber && has_subscribers m)) [
        | inl refused ↦
            rw refused (notify_rsrc_status-IsLow m.nif broadcast_all denied true s m.env h)
        | inr allowed ↦ rw allowed (dispatch-IsLow m.state (subscribes s) m h)
      ]

  run_op-IsLow : (o : Op) (m : Machine) → IsLow m.env → IsLow (run_op io o m).env
  unfolding run_op unsubscribe_rsrc on_rsrc_event
  run_op-IsLow (subscribe_op s) m h = subscribe_rsrc-IsLow s m h
  run_op-IsLow (unsubscribe_op s) m h = unsubscribe_found-IsLow (search (rcver s) m.subscribers) m h
  run_op-IsLow (report_op r) m h = event_as-IsLow m.nif.class r m h

  -- Whatever the servicer and the timer answer, no operation brings mRetries above
  -- MAX_START_DATA_CALL_RETRIES, so that the unsigned char does not wrap around.
  pub run_ops-IsLow : (os : List Op) (m : Machine) → IsLow m.env → IsLow (run_ops io os m).env
  unfolding run_ops
  run_ops-IsLow [] m h = h
  run_ops-IsLow (o ∷ os) m h = run_ops-IsLow os (run_op io o m) (run_op-IsLow o m h)

  abbrev pub answer : Machine → Answer
  answer m =
      io.requested request_conn
        (record (m.env) { calls = request_data_call request_conn ∷ m.env.calls })

  not_answered :
      (handle : ℕ) (m : Machine) (e : Env) (a : Answer)
      → a ≢ success
      → (ds_answer io handle a e).0 ≡ false
  not_answered handle m e success h = absurd (h refl)
  not_answered handle m e engine_busy h = refl
  not_answered handle m e unsupported h = refl
  not_answered handle m e failed h = refl
  not_answered handle m e other h = refl

  not_sent :
      (m : Machine) (class : Class)
      → class ≡ ds_class
      → answer m ≢ success
      → ((pending_if_sent (send_as class io request_conn m)).state ≡ m.state)
        × ((pending_if_sent (send_as class io request_conn m)).subscribers ≡ m.subscribers)
  not_sent m agps_class e h = absurd (cc)
  not_sent m ds_class e h =
      rw
        (not_answered (handle_of (search broadcast_active m.subscribers)) m
          (record (m.env) { calls = request_data_call request_conn ∷ m.env.calls }) (answer m) h)
        (refl, refl)

  -- Where the servicer does not start the data call of a released DSStateMachine, the machine stays
  -- released and yet keeps the subscriber on its list, also where a normal call has been asked for in
  -- its place.
  pub on_released-stale :
      (s : Subscriber) (m : Machine)
      → m.nif.class ≡ ds_class
      → answer (add_subscriber s m) ≢ success
      → ((on_released io (subscribes s) m).state ≡ m.state)
        × ((on_released io (subscribes s) m).subscribers ≡ (add_subscriber s m).subscribers)
  unfolding on_released send_rsrc_request
  on_released-stale s m c h =
      let m' = add_subscriber s m in
      let k = add_subscriber-Kept s m in
      let (st, ss) = not_sent m' m'.nif.class (ap (λ (n : Nif). n.class) k.nif ∙ c) h in
      (st ∙ k.state, ss)
