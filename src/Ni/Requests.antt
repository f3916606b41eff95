-- ===== src/Ni/Requests.antt =====
-- The operations of gps/loc_api/libloc_api_50001/loc_eng_ni.cpp on the engine's data. A call is one step
-- with respect to the helper threads, but for that of loc_eng_ni_reset_on_engine_restart.
use android_device_lenovo_a.Base.{
  ℕ, ◌+◌, ◌%◌, ◌^◌, Bool, true, false, ◌&&◌, ◌||◌, Option, none, some, List, [], ◌∷◌, ◌++◌, is_some,
  if◌then◌else◌, ◌==◌,
}
use android_device_lenovo_a.Ni.Types.{
  Response, accept, ignore, NiSession, NiData, Which, supl, supl_es, NiNotification, Time, starting,
  Shared, ResetAt, not_resetting, testing, clearing, signalling, MuteState, mute_wait, Engine,
}
use android_device_lenovo_a.Ni.Thread.{get, put, run_thread}

abbrev pub gps_ni_type_emergency_supl : ℕ
gps_ni_type_emergency_supl = 4

abbrev pub loc_ni_no_response_time : ℕ
loc_ni_no_response_time = 20

abbrev pub in_session : NiSession → Bool
in_session s = is_some s.raw_request

-- The session for a new request, if it is free.
abbrev pub choose_session : NiNotification → NiData → Option Which
choose_session notif d =
    if notif.ni_type == gps_ni_type_emergency_supl
    then if in_session d.session_es then none else some supl_es
    else if in_session d.session || in_session d.session_es
    then none
    else some supl

abbrev pub free_payload : Option ℕ → List ℕ → List ℕ
free_payload none freed = freed
free_payload (some p) freed = p ∷ freed

abbrev pub next_id : NiData → ℕ
next_id d = (d.req_id_counter + 1) % 2 ^ 32

abbrev pub time_left : NiNotification → ℕ
time_left notif =
    (5 + (if notif.timeout == 0 then loc_ni_no_response_time else notif.timeout)) % 2 ^ 32

abbrev pub mute_one_session : Bool → MuteState → MuteState
mute_one_session privacy_override m = if privacy_override then mute_wait else m

-- What the handler does with the session that it chose. `created` is whether pthread_create succeeds.
abbrev pub start_session : NiNotification → Option ℕ → Bool → Option Which → Engine → Engine
start_session notif pass_through created none e = record e {
  shared = record e.shared { freed = free_payload pass_through e.shared.freed };
}
start_session notif pass_through created (some w) e =
    let d = e.shared.ni in
    let s = record (get w d) {
      resp_time_left = time_left notif;
      raw_request = pass_through;
      req_id = next_id d;
    } in
    record {
      shared = record e.shared { ni = put w s (record d { req_id_counter = next_id d }) };
      ni_notify_cb = e.ni_notify_cb;
      mute_session_state = mute_one_session notif.privacy_override e.mute_session_state;
      reset_at = e.reset_at;
      threads =
          if created
          then e.threads ++ record { which = w; position = starting } ∷ []
          else e.threads;
      notified = next_id d ∷ e.notified;
    }

abbrev pub request_handler : NiNotification → Option ℕ → Bool → Engine → Engine
request_handler notif pass_through created e =
    if e.ni_notify_cb
    then start_session notif pass_through created (choose_session notif e.shared.ni) e
    else e

-- What the code does under the lock of a session to hand its thread a response.
abbrev pub record_response : Which → Response → Shared → Shared
record_response w r sh = record sh {
  ni = put w (record (get w sh.ni) { resp_recvd = true; resp = r }) sh.ni;
}

-- The emergency session comes first.
abbrev pub next_session : Which → ResetAt
next_session supl_es = testing supl
next_session supl = not_resetting

-- The test of a session, and the free of its request.
abbrev pub test_session : Which → Option ℕ → Shared → ResetAt × Shared
test_session w none sh = (next_session w, sh)
test_session w (some p) sh = (clearing w, record sh { freed = p ∷ sh.freed })

-- A step of loc_eng_ni_reset_on_engine_restart. It holds the lock in the last step for a session alone,
-- so that the helper threads may take theirs before each.
abbrev pub reset_step : ResetAt → Shared → ResetAt × Shared
reset_step not_resetting sh = (not_resetting, sh)
reset_step (testing w) sh = test_session w (get w sh.ni).raw_request sh
reset_step (clearing w) sh =
    (signalling w, record sh { ni = put w (record (get w sh.ni) { raw_request = none }) sh.ni })
reset_step (signalling w) sh =
    (next_session w, record sh { ni = put w (record (get w sh.ni) { resp_recvd = true }) sh.ni })

abbrev pub run_reset : Engine → Engine
run_reset e = let r = reset_step e.reset_at e.shared in record e { reset_at = r.0; shared = r.1 }

abbrev pub begin_reset : ResetAt → ResetAt
begin_reset not_resetting = testing supl_es
begin_reset at = at

-- The call; its steps are those of run_reset.
abbrev pub reset_on_engine_restart : Engine → Engine
reset_on_engine_restart e =
    if e.ni_notify_cb then record e { reset_at = begin_reset e.reset_at } else e

abbrev pub is_accept : Response → Bool
is_accept accept = true
is_accept _ = false

-- Whether a session is active and has the given number.
abbrev pub answers : ℕ → NiSession → Bool
answers notif_id s = notif_id == s.req_id && in_session s

-- An emergency request that is accepted makes the other one ignored.
abbrev pub ignore_other : Response → Shared → Shared
ignore_other user_response sh =
    if is_accept user_response && in_session sh.ni.session
    then record_response supl ignore sh
    else sh

abbrev pub respond_shared : ℕ → Response → Shared → Shared
respond_shared notif_id user_response sh =
    if answers notif_id sh.ni.session_es
    then record_response supl_es user_response (ignore_other user_response sh)
    else if answers notif_id sh.ni.session
    then record_response supl user_response sh
    else sh

abbrev pub respond : ℕ → Response → Engine → Engine
respond notif_id user_response e =
    if e.ni_notify_cb
    then record e { shared = respond_shared notif_id user_response e.shared }
    else e

abbrev pub clear_session : NiSession → NiSession
clear_session s = record s {
  resp_time_left = 0;
  resp_recvd = false;
  raw_request = none;
  req_id = 0;
}

-- loc_eng_ni_init; the argument is what `callbacks` points to, and in it whether there is a notify_cb.
abbrev pub init : Option Bool → Engine → Engine
init none e = e
init (some false) e = e
init (some true) e = if e.ni_notify_cb then e else record e {
  shared = record e.shared {
    ni = record e.shared.ni {
      session_es = clear_session e.shared.ni.session_es;
      session = clear_session e.shared.ni.session;
    };
  };
  ni_notify_cb = true;
}

-- A call, or a step of loc_eng_ni_reset_on_engine_restart or of a helper thread.
pub data Op : Type 0 where
  requests : NiNotification → (pass_through : Option ℕ) → (created : Bool) → Op
  responds : (notif_id : ℕ) → Response → Op
  restarts resets : Op
  inits : (callbacks : Option Bool) → Op
  steps : (n : ℕ) → Time → (timed_out : Bool) → Op

abbrev pub run_op : Op → Engine → Engine
run_op (requests notif p created) e = request_handler notif p created e
run_op (responds notif_id r) e = respond notif_id r e
run_op restarts e = reset_on_engine_restart e
run_op resets e = run_reset e
run_op (inits callbacks) e = init callbacks e
run_op (steps n now timed_out) e = run_thread n now timed_out e

unfoldable pub run_ops : List Op → Engine → Engine
run_ops [] e = e
run_ops (o ∷ os) e = run_ops os (run_op o e)
