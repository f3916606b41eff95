-- ===== src/Ni/Races.antt =====
-- What becomes of an answer when the helper threads take their steps late
-- (gps/loc_api/libloc_api_50001/loc_eng_ni.cpp).
use android_device_lenovo_a.Base.{
  ℕ, ◌≡◌, ◌≢◌, refl, Bool, true, false, ◌&&◌, Option, none, some, List, [], ◌∷◌, ◌==◌, ==-refl,
  ==-false, if◌then◌else◌,
}
use android_device_lenovo_a.Ni.Types.{
  Response, unset, deny, no_response, accept, ignore, supl, supl_es, NiNotification, Message, Time,
  waiting, leaving, not_resetting, Engine,
}
use android_device_lenovo_a.Ni.Thread.{ni_thread_step, run_nth, take_request}
use android_device_lenovo_a.Ni.Requests.{
  answers, respond_shared, respond, Op, requests, responds, restarts, resets, steps, run_ops,
  next_id, gps_ni_type_emergency_supl,
}

module _ (e : Engine) where
  -- The engine with a request in each session, and their threads, which wait.
  abbrev pub both_pending : (p q id : ℕ) (t t_es : Time) → Engine
  both_pending p q id t t_es = record e {
    shared = record e.shared {
      ni = record e.shared.ni {
        session = record e.shared.ni.session { raw_request = some p; resp_recvd = false };
        session_es = record e.shared.ni.session_es {
          raw_request = some q;
          resp_recvd = false;
          req_id = id;
        };
      };
    };
    ni_notify_cb = true;
    threads =
        record { which = supl; position = waiting t.sec t.usec }
        ∷ record { which = supl_es; position = waiting t_es.sec t_es.usec }
        ∷ [];
  }

-- The orders in which two threads, the first and the second of the list, may each take two steps: to
-- the unlock, and to the end.
pub data Order : Type 0 where
  one_by_one crossed nested : (first_begins : Bool) → Order

-- The steps in an order. When the first thread is at its end, the second is the first of the list.
abbrev pub steps_in : Order → Time → List Op
steps_in (one_by_one true) now =
    steps 0 now false ∷ steps 0 now false ∷ steps 0 now false ∷ steps 0 now false ∷ []
steps_in (crossed true) now =
    steps 0 now false ∷ steps 1 now false ∷ steps 0 now false ∷ steps 0 now false ∷ []
steps_in (nested true) now =
    steps 0 now false ∷ steps 1 now false ∷ steps 1 now false ∷ steps 0 now false ∷ []
steps_in (one_by_one false) now =
    steps 1 now false ∷ steps 1 now false ∷ steps 0 now false ∷ steps 0 now false ∷ []
steps_in (crossed false) now =
    steps 1 now false ∷ steps 0 now false ∷ steps 1 now false ∷ steps 0 now false ∷ []
steps_in (nested false) now =
    steps 1 now false ∷ steps 0 now false ∷ steps 0 now false ∷ steps 0 now false ∷ []

-- The steps of a restart that finds a request in the first session alone.
abbrev pub whole_reset : List Op → List Op
whole_reset os = resets ∷ resets ∷ resets ∷ resets ∷ os

abbrev pub ends : Time → List Op
ends now = steps 0 now false ∷ steps 0 now false ∷ []

-- Once there is a callback, a request is in each session, the threads of both are the only ones and
-- at their waits, and no response has been recorded, and then the user accepts the emergency
-- request: if neither wait runs out, then in whatever order the two threads wake up and end, just
-- the acceptance of the emergency request is sent, the memory of the other request is freed, both
-- sessions are free, and no thread is left.
pub accept-emergency :
    (e : Engine) (p q id : ℕ) (t t_es now : Time) (order : Order)
    → let e' = run_ops (responds id accept ∷ steps_in order now) (both_pending e p q id t t_es) in
      (e'.shared.sent ≡ record { response = accept; payload = q } ∷ e.shared.sent)
      × (e'.shared.freed ≡ p ∷ e.shared.freed)
      × (e'.shared.ni.session.raw_request ≡ none)
      × (e'.shared.ni.session_es.raw_request ≡ none)
      × (e'.threads ≡ [])
unfolding run_ops ni_thread_step run_nth
accept-emergency e p q id t t_es now (one_by_one true) =
    simp (==-refl id) (refl, refl, refl, refl, refl)
accept-emergency e p q id t t_es now (one_by_one false) =
    simp (==-refl id) (refl, refl, refl, refl, refl)
accept-emergency e p q id t t_es now (crossed true) =
    simp (==-refl id) (refl, refl, refl, refl, refl)
accept-emergency e p q id t t_es now (crossed false) =
    simp (==-refl id) (refl, refl, refl, refl, refl)
accept-emergency e p q id t t_es now (nested true) =
    simp (==-refl id) (refl, refl, refl, refl, refl)
accept-emergency e p q id t t_es now (nested false) =
    simp (==-refl id) (refl, refl, refl, refl, refl)

module _ (e : Engine) where
  -- The engine with both sessions free, and a thread of the first that is behind the unlock.
  abbrev pub leaving_late : Option Message → Engine
  leaving_late msg = record e {
    shared = record e.shared {
      ni = record e.shared.ni {
        session = record e.shared.ni.session { raw_request = none };
        session_es = record e.shared.ni.session_es { raw_request = none };
      };
    };
    ni_notify_cb = true;
    threads = record { which = supl; position = leaving msg } ∷ [];
  }

  -- The engine with a request in the first session, and its thread, which waits.
  abbrev pub pending : (p : ℕ) (r : Response) (t : Time) → Engine
  pending p r t = record e {
    shared = record e.shared {
      ni = record e.shared.ni {
        session = record e.shared.ni.session { raw_request = some p; resp = r };
        session_es = record e.shared.ni.session_es { raw_request = none };
      };
    };
    ni_notify_cb = true;
    reset_at = not_resetting;
    threads = record { which = supl; position = waiting t.sec t.usec } ∷ [];
  }

and_false : (b : Bool) → (b && false) ≡ false
and_false true = refl
and_false false = refl

-- A response with a number that no session has does nothing.
respond_unknown :
    (id : ℕ) (r : Response) (e : Engine)
    → answers id e.shared.ni.session_es ≡ false
    → answers id e.shared.ni.session ≡ false
    → respond id r e ≡ e
respond_unknown id r e es mine = go e.ni_notify_cb
  where
    go : (b : Bool) → (if b then record e { shared = respond_shared id r e.shared } else e) ≡ e
    go true = simp (es, mine) refl
    go false = refl

take_request_lem :
    (q : ℕ) (r : Response)
    → r ≢ ignore
    → take_request (some q) r ≡ (some (record { response = r; payload = q }), [])
take_request_lem q unset i = refl
take_request_lem q accept i = refl
take_request_lem q deny i = refl
take_request_lem q no_response i = refl
take_request_lem q ignore i = absurd (i refl)

-- Once there is a callback, both sessions are free, the only thread is one of the first session,
-- behind the unlock and not yet at its end, a request that is not an emergency one comes,
-- pthread_create succeeds, and the next number, the counter plus one modulo 2 ^ 32, is not 0: the
-- request is notified to the user under that number, and is in the first session; but when the old
-- thread has then come to its end, before the new one takes a step, an answer with that number has
-- no effect.
pub late_end-respond :
    (e : Engine) (msg : Option Message) (notif : NiNotification) (p : ℕ) (now : Time) (r : Response)
    → notif.ni_type ≢ gps_ni_type_emergency_supl
    → next_id e.shared.ni ≢ 0
    → let e' =
        run_ops (requests notif (some p) true ∷ steps 0 now false ∷ []) (leaving_late e msg) in
      (e'.notified ≡ next_id e.shared.ni ∷ e.notified)
      × (e'.shared.ni.session.raw_request ≡ some p)
      × (respond (next_id e.shared.ni) r e' ≡ e')
unfolding run_ops ni_thread_step run_nth
late_end-respond e msg notif p now r other id =
    simp (==-false notif.ni_type gps_ni_type_emergency_supl other) (
      refl,
      refl,
      respond_unknown (next_id e.shared.ni) r _ (and_false _)
          (simp (==-false (next_id e.shared.ni) 0 id) refl),
    )

-- Once there is a callback, a request is in the first session, its thread is the only one and waits,
-- the emergency session is free, and the session's last response is not the one to be ignored: if
-- the modem restarts, then a request that is not an emergency one comes, pthread_create succeeds,
-- and the old thread wakes up, not because its wait has run out, and ends before the new one takes a
-- step, the old thread sends that last response as the answer to the new request, the memory of the
-- old request is freed, and the session is free again.
pub restart-answers :
    (e : Engine) (p q : ℕ) (r : Response) (notif : NiNotification) (t now : Time)
    → notif.ni_type ≢ gps_ni_type_emergency_supl
    → r ≢ ignore
    → let e' =
        run_ops
          (restarts ∷ whole_reset (requests notif (some q) true ∷ ends now))
          (pending e p r t) in
      (e'.shared.sent ≡ record { response = r; payload = q } ∷ e.shared.sent)
      × (e'.shared.freed ≡ p ∷ e.shared.freed)
      × (e'.shared.ni.session.raw_request ≡ none)
unfolding run_ops ni_thread_step run_nth
restart-answers e p q r notif t now other not_ignored =
    simp (==-false notif.ni_type gps_ni_type_emergency_supl other, take_request_lem q r not_ignored)
      (refl, refl, refl)

-- An answer of the user that comes while the request waits, but before the thread has the lock again
-- after its wait has run out, is lost: the modem is told that there was no response.
pub late_answer :
    (e : Engine) (p : ℕ) (r answer : Response) (t now : Time)
    → let id = e.shared.ni.session.req_id in
      let e' =
        run_ops (responds id answer ∷ steps 0 now true ∷ steps 0 now true ∷ []) (pending e p r t) in
      (e'.shared.sent ≡ record { response = no_response; payload = p } ∷ e.shared.sent)
      × (e'.shared.ni.session.raw_request ≡ none)
unfolding run_ops ni_thread_step run_nth
late_answer e p r answer t now =
    let id = e.shared.ni.session.req_id in
    simp (and_false (id == e.shared.ni.session_es.req_id), ==-refl id) (refl, refl)

-- Once there is a callback, a request is in the first session, its thread is the only one and waits,
-- and the emergency session is free: if the modem restarts, the wait runs out when
-- loc_eng_ni_reset_on_engine_restart has freed the request and has not yet cleared the pointer, and
-- the thread then comes to its end, it sends the answer that there was no response with the memory
-- of the request, which was freed.
pub restart-sends_freed :
    (e : Engine) (p : ℕ) (r : Response) (t now : Time)
    → let e' =
        run_ops
          (restarts ∷ resets ∷ resets ∷ steps 0 now true ∷ steps 0 now true ∷ [])
          (pending e p r t) in
      (e'.shared.freed ≡ p ∷ e.shared.freed)
      × (e'.shared.sent ≡ record { response = no_response; payload = p } ∷ e.shared.sent)
unfolding run_ops ni_thread_step run_nth
restart-sends_freed e p r t now = (refl, refl)
