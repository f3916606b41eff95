-- ===== src/Tests/NetworkRequests.antt =====
-- gps/loc_api/libloc_api_50001/loc_eng_ni.cpp on a few requests.
use android_device_lenovo_a.Base.{ℕ, ◌≡◌, refl, true, false, some, none, List, [], ◌∷◌, arith}
use android_device_lenovo_a.Ni.Types.{
  unset, accept, no_response, NiSession, supl_es, NiNotification, Time, mute_none, not_resetting,
  Engine,
}
use android_device_lenovo_a.Ni.Thread.{ni_thread_step, run_nth, run_thread}
use android_device_lenovo_a.Ni.Requests.{
  init, respond, Op, requests, responds, restarts, resets, steps, run_ops,
}
use android_device_lenovo_a.Ni.Watched.{raw}
use android_device_lenovo_a.Ni.Guarded.{none_left, and_then}
use android_device_lenovo_a.Ni.Answers.{run_ops-freed}
use android_device_lenovo_a.Ni.Races.{
  both_pending, crossed, steps_in, ends, accept-emergency, leaving_late, pending, late_end-respond,
  restart-answers, whole_reset, restart-sends_freed,
}

abbrev idle : NiSession
idle = record {
  resp_time_left = 0;
  resp_recvd = false;
  raw_request = none;
  req_id = 0;
  resp = unset;
}

-- The engine as it is loaded, and with a callback.
abbrev loaded : Engine
loaded = record {
  shared = record {
    ni = record { session = idle; session_es = idle; req_id_counter = 0 };
    sent = [];
    freed = [];
  };
  ni_notify_cb = false;
  mute_session_state = mute_none;
  reset_at = not_resetting;
  threads = [];
  notified = [];
}

abbrev ready : Engine
ready = init (some true) loaded

abbrev voice : NiNotification
voice = record { ni_type = 1; privacy_override = false; timeout = 0 }

abbrev emergency : NiNotification
emergency = record { ni_type = 4; privacy_override = true; timeout = 30 }

abbrev noon : Time
noon = record { sec = 1000; usec = 5 }

-- A request, a second one that is refused, an emergency request, and the user's answers.
abbrev calls : List Op
calls =
    requests voice (some 7) true
    ∷ requests voice (some 8) true
    ∷ requests emergency (some 9) true
    ∷ steps 0 noon false
    ∷ responds 2 accept
    ∷ steps 0 noon false
    ∷ steps 0 noon false
    ∷ []

calls_freed : (run_ops calls ready).shared.freed ≡ 7 ∷ 8 ∷ []
unfolding run_ops run_nth ni_thread_step
calls_freed = refl

calls_notified : (run_ops calls ready).notified ≡ 2 ∷ 1 ∷ []
unfolding run_ops run_nth ni_thread_step
calls_notified = refl

run_ops-freed_example :
    let e' = run_ops calls (init (some true) loaded) in
    (n : ℕ) × (raw supl_es (run_thread n noon true (run_thread n noon true e')).shared ≡ none)
run_ops-freed_example = run_ops-freed calls loaded supl_es noon refl (
    and_then refl (
      and_then refl
        (and_then refl (and_then refl (and_then refl (and_then refl (and_then refl none_left)))))))

accept-emergency_example :
    let e' =
      run_ops
        (responds 2 accept ∷ steps_in (crossed false) noon)
        (both_pending ready 7 9 2 noon noon) in
    (e'.shared.sent ≡ record { response = accept; payload = 9 } ∷ [])
    × (e'.shared.freed ≡ 7 ∷ [])
    × (e'.shared.ni.session.raw_request ≡ none)
    × (e'.shared.ni.session_es.raw_request ≡ none)
    × (e'.threads ≡ [])
accept-emergency_example = accept-emergency ready 7 9 2 noon noon noon (crossed false)

late_end-respond_example :
    let e' =
      run_ops (requests voice (some 8) true ∷ steps 0 noon false ∷ []) (leaving_late ready none) in
    (e'.notified ≡ 1 ∷ [])
    × (e'.shared.ni.session.raw_request ≡ some 8)
    × (respond 1 accept e' ≡ e')
late_end-respond_example =
    late_end-respond ready none voice 8 noon accept (λ e. omega (arith, e)) (λ e. omega (arith, e))

restart-answers_example :
    let e' =
      run_ops
        (restarts ∷ whole_reset (requests voice (some 8) true ∷ ends noon))
        (pending ready 7 accept noon) in
    (e'.shared.sent ≡ record { response = accept; payload = 8 } ∷ [])
    × (e'.shared.freed ≡ 7 ∷ [])
    × (e'.shared.ni.session.raw_request ≡ none)
restart-answers_example =
    restart-answers ready 7 8 accept voice noon noon (λ e. omega (arith, e)) (λ e. cc)

restart-sends_freed_example :
    let e' =
      run_ops
        (restarts ∷ resets ∷ resets ∷ steps 0 noon true ∷ steps 0 noon true ∷ [])
        (pending ready 7 accept noon) in
    (e'.shared.freed ≡ 7 ∷ [])
    × (e'.shared.sent ≡ record { response = no_response; payload = 7 } ∷ [])
restart-sends_freed_example = restart-sends_freed ready 7 accept noon noon
