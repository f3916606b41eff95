-- ===== src/Agps/Operations.antt =====
-- Every operation on an AgpsStateMachine (gps/loc_api/libloc_api_50001/loc_eng_agps.cpp).
use android_device_lenovo_a.Base.{
  ◌≡◌, refl, Bool, true, false, ◌&&◌, inl, inr, Option, none, some, List, [], ◌∷◌, Bool-cases,
}
use android_device_lenovo_a.Agps.Types.{
  denied, Subscriber, rcver, broadcast_all, agps_class, Class, ds_class, Machine,
}
use android_device_lenovo_a.Agps.Machine.{search, has_subscribers, Io}
use android_device_lenovo_a.Agps.States.{
  Event, subscribes, unsubscribes, grants, releases, denies, dispatch, subscribe_rsrc,
  unsubscribe_rsrc, unsubscribe_found, Report, is_granted, is_released, is_denied, event_as,
  on_rsrc_event, Op, subscribe_op, unsubscribe_op, report_op, run_op, run_ops,
}
use android_device_lenovo_a.Agps.Consistent.{IsConsistent}
use android_device_lenovo_a.Agps.Requests.{notify_rsrc_status-actions}
use android_device_lenovo_a.Agps.Steps.{holds, Steps, stays}
use android_device_lenovo_a.Agps.Protocol.{is_unsubscribe, Kept-refl, dispatch_in}

abbrev pub is_unsubscribe_op : Op → Bool
is_unsubscribe_op (unsubscribe_op s) = true
is_unsubscribe_op _ = false

module _ (io : Io) (m : Machine) (is : IsConsistent m) where
  dispatch-Steps :
      (ev : Event) → Steps (is_unsubscribe ev) (holds m.state) m (dispatch m.state io ev m)
  dispatch-Steps ev = dispatch_in io m is.class ev m.state refl is.fits

  unsubscribe_found-Steps :
      (s : Option Subscriber) → Steps true (holds m.state) m (unsubscribe_found io s m).1
  unsubscribe_found-Steps none = stays true m is.class m (Kept-refl m) is.fits
  unsubscribe_found-Steps (some s) = dispatch-Steps (unsubscribes s)

  subscribe_rsrc-Steps : (s : Subscriber) → Steps false (holds m.state) m (subscribe_rsrc io s m)
  unfolding subscribe_rsrc
  subscribe_rsrc-Steps s =
      elim (Bool-cases (m.nif.enforce_single_subscriber && has_subscribers m)) [
        | inl refused ↦ rw refused (
            stays false m is.class _
              (record {
                nif = refl;
                state = refl;
                asked = notify_rsrc_status-actions m.nif broadcast_all denied true s m.env;
              })
              is.fits)
        | inr allowed ↦ rw allowed (dispatch-Steps (subscribes s))
      ]

  report-Steps :
      (class : Class) (r : Report)
      → class ≡ agps_class
      → Steps false (holds m.state) m (event_as class io r m)
  report-Steps agps_class is_granted e = dispatch-Steps grants
  report-Steps agps_class is_released e = dispatch-Steps releases
  report-Steps agps_class is_denied e = dispatch-Steps denies
  report-Steps ds_class r e = cc

  -- On a consistent AgpsStateMachine every operation leaves a consistent one: released exactly if it
  -- has no subscribers, pending or acquired only with an active one. The servicer is asked for the
  -- connection when the machine leaves a state where it holds none for one where it does, for its
  -- release when an unsubscription makes it leave such a state, and else for nothing.
  pub run_op-Steps : (o : Op) → Steps (is_unsubscribe_op o) (holds m.state) m (run_op io o m)
  unfolding run_op unsubscribe_rsrc on_rsrc_event
  run_op-Steps (subscribe_op s) = subscribe_rsrc-Steps s
  run_op-Steps (unsubscribe_op s) = unsubscribe_found-Steps (search (rcver s) m.subscribers)
  run_op-Steps (report_op r) = report-Steps m.nif.class r is.class

-- A consistent AgpsStateMachine is consistent after any operations.
pub run_ops-IsConsistent :
    (io : Io) (os : List Op) (m : Machine) → IsConsistent m → IsConsistent (run_ops io os m)
unfolding run_ops
run_ops-IsConsistent io [] m is = is
run_ops-IsConsistent io (o ∷ os) m is =
    run_ops-IsConsistent io os (run_op io o m) ((run_op-Steps io m is o).consistent)
