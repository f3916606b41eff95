-- ===== src/Tests/Nifs.antt =====
-- gps/loc_api/libloc_api_50001/loc_eng_agps.cpp on a few subscribers.
use android_device_lenovo_a.Base.{
  ℕ, ◌≡◌, ◌≢◌, refl, Bool, true, false, some, none, List, [], ◌∷◌, arith,
}
use android_device_lenovo_a.Base.Int.{pos}
use android_device_lenovo_a.Agps.Types.{
  denied, request_conn, pending_state, releasing_state, atl, wifi, ds, Subscriber, broadcast_all,
  Class, agps_class, ds_class, Nif, Machine, Env, success, engine_busy, unsupported,
  atl_open_status, atl_close_status, request_rsrc, release_conn,
}
use android_device_lenovo_a.Agps.Machine.{Io, notification, notify_subscribers, add_subscriber}
use android_device_lenovo_a.Agps.Notify.{keep, told, notify_subscribers_lem}
use android_device_lenovo_a.Agps.States.{
  Op, subscribe_op, unsubscribe_op, report_op, is_granted, is_released, run_op, run_ops,
  new_machine, on_released, subscribe_rsrc, unsubscribe_rsrc, on_rsrc_event, on_pending,
  on_acquired,
}
use android_device_lenovo_a.Agps.Steps.{Steps}
use android_device_lenovo_a.Agps.Operations.{run_op-Steps}
use android_device_lenovo_a.Agps.Lost.{Gone, resubscribe-lost}
use android_device_lenovo_a.Agps.Retries.{IsLow}
use android_device_lenovo_a.Agps.Bounds.{answer, run_ops-IsLow}

abbrev supl : Class → Nif
supl c = record {
  class = c;
  type = pos 1;
  apn = some (105 ∷ 109 ∷ 115 ∷ []);
  bearer = pos 0;
  enforce_single_subscriber = false;
}

abbrev client : ℕ → Subscriber
client id = record { id = id; kind = atl false; is_inactive = false }

abbrev hotspot : Bool → Subscriber
hotspot gone = record { id = 1; kind = wifi (some (65 ∷ [])) none; is_inactive = gone }

abbrev emergency : Subscriber
emergency = record { id = 9; kind = ds; is_inactive = false }

abbrev quiet : Env
quiet = record { calls = []; retries = 0 }

abbrev pending_two : Machine
pending_two = record {
  nif = supl agps_class;
  state = pending_state;
  subscribers = client 5 ∷ client 4 ∷ [];
  env = quiet;
}

abbrev busy : Io
busy = record { requested = λ a e. engine_busy; timer_starts = λ e. true }

abbrev no_profile : Io
no_profile = record { requested = λ a e. unsupported; timer_starts = λ e. true }

-- Two clients share a connection.
abbrev session : List Op
session =
    subscribe_op (client 4)
    ∷ subscribe_op (client 5)
    ∷ report_op is_granted
    ∷ unsubscribe_op (client 4)
    ∷ unsubscribe_op (client 5)
    ∷ []

session_calls :
    (run_ops busy session (new_machine (supl agps_class))).env.calls
    ≡ request_rsrc release_conn (pos 1) [] []
      ∷ atl_close_status 5
      ∷ atl_close_status 4
      ∷ atl_open_status 4 true (supl agps_class).apn (pos 0) (pos 1)
      ∷ atl_open_status 5 true (supl agps_class).apn (pos 0) (pos 1)
      ∷ request_rsrc request_conn (pos 1) [] []
      ∷ []
unfolding run_ops run_op subscribe_rsrc unsubscribe_rsrc on_rsrc_event on_released on_pending
    on_acquired
session_calls = refl

notify_subscribers_lem_example :
    notify_subscribers (notification broadcast_all denied true) pending_two ≡ record pending_two {
      subscribers = keep broadcast_all (client 5 ∷ client 4 ∷ []);
      env = told (supl agps_class) broadcast_all denied (client 5 ∷ client 4 ∷ []) quiet;
    }
notify_subscribers_lem_example =
    notify_subscribers_lem (supl agps_class) broadcast_all denied refl true pending_two refl

run_op-Steps_example :
    Steps true true pending_two (run_op busy (unsubscribe_op (client 4)) pending_two)
run_op-Steps_example =
    run_op-Steps busy pending_two (record { class = refl; fits = refl }) (unsubscribe_op (client 4))

abbrev closing : Machine
closing = record {
  nif = supl agps_class;
  state = releasing_state;
  subscribers = hotspot true ∷ [];
  env = quiet;
}

resubscribe-lost_example :
    Gone closing (run_ops busy (subscribe_op (hotspot false) ∷ report_op is_released ∷ []) closing)
resubscribe-lost_example = resubscribe-lost busy closing refl (hotspot false) refl refl refl refl

run_ops-IsLow_example :
    IsLow
      (run_ops busy
        (subscribe_op emergency ∷ subscribe_op emergency ∷ [])
        (new_machine (supl ds_class))).env
run_ops-IsLow_example =
    run_ops-IsLow busy (subscribe_op emergency ∷ subscribe_op emergency ∷ [])
      (new_machine (supl ds_class)) (omega arith)

unsupported_ne :
    answer no_profile (add_subscriber emergency (new_machine (supl ds_class))) ≢ success
unsupported_ne e = cc
