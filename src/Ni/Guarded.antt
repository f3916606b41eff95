-- ===== src/Ni/Guarded.antt =====
-- The operations leave every request in a session a helper thread that will take it
-- (gps/loc_api/libloc_api_50001/loc_eng_ni.cpp).
use android_device_lenovo_a.Base.{
  ℕ, ◌≡◌, refl, inl, inr, Bool, true, false, ◌&&◌, Option, none, some, List, [], ◌∷◌, Bool-cases,
}
use android_device_lenovo_a.Ni.Types.{
  Response, ignore, Which, supl, supl_es, NiNotification, Time, Thread, Shared, ResetAt,
  not_resetting, testing, clearing, signalling, Engine,
}
use android_device_lenovo_a.Ni.Thread.{get, run_nth}
use android_device_lenovo_a.Ni.Requests.{
  in_session, choose_session, start_session, record_response, test_session, reset_step, is_accept,
  answers, ignore_other, respond_shared, Op, requests, responds, restarts, resets, inits, steps,
  run_op, run_ops,
}
use android_device_lenovo_a.Ni.Watched.{
  here, IsServed, IsGuarded, Keeps, Watches-append, Watches-behind, put-Keeps, run_nth-Keeps,
  run_nth-IsServed,
}
use android_device_lenovo_a.Ni.Balance.{run_op-up}

-- Whether pthread_create succeeds, where the operation calls it.
abbrev pub creates : Op → Bool
creates (requests notif pass_through created) = created
creates _ = true

pub data AllCreated : List Op → Type 0 where
  none_left : AllCreated []
  and_then : {o : Op} {os : List Op} → creates o ≡ true → AllCreated os → AllCreated (o ∷ os)

served :
    (sh sh' : Shared) (ts : List Thread) (w : Which)
    → Keeps sh sh'
    → IsServed w sh ts
    → IsServed w sh' ts
served sh sh' ts w keeps (inl taken) = inl (keeps w taken)
served sh sh' ts w keeps (inr h) = inr h

record_response-Keeps : (w : Which) (r : Response) (sh : Shared) → Keeps sh (record_response w r sh)
record_response-Keeps w r sh =
    put-Keeps w (record (get w sh.ni) { resp_recvd = true; resp = r }) sh (λ e. e)

test_session-Keeps : (w : Which) (o : Option ℕ) (sh : Shared) → Keeps sh (test_session w o sh).1
test_session-Keeps w none sh v e = e
test_session-Keeps w (some p) sh v e = e

reset_step-Keeps : (at : ResetAt) (sh : Shared) → Keeps sh (reset_step at sh).1
reset_step-Keeps not_resetting sh v e = e
reset_step-Keeps (testing w) sh v e = test_session-Keeps w (get w sh.ni).raw_request sh v e
reset_step-Keeps (clearing w) sh v e =
    put-Keeps w (record (get w sh.ni) { raw_request = none }) sh (λ x. refl) v e
reset_step-Keeps (signalling w) sh v e =
    put-Keeps w (record (get w sh.ni) { resp_recvd = true }) sh (λ x. x) v e

ignore_other-Keeps : (r : Response) (sh : Shared) → Keeps sh (ignore_other r sh)
ignore_other-Keeps r sh v e = elim (Bool-cases (is_accept r && in_session sh.ni.session)) [
  | inl accepted ↦ rw accepted (record_response-Keeps supl ignore sh v e)
  | inr not_accepted ↦ rw not_accepted e
]

respond_shared-Keeps : (id : ℕ) (r : Response) (sh : Shared) → Keeps sh (respond_shared id r sh)
respond_shared-Keeps id r sh v e = elim (Bool-cases (answers id sh.ni.session_es)) [
  | inl es ↦
      rw es (record_response-Keeps supl_es r (ignore_other r sh) v (ignore_other-Keeps r sh v e))
  | inr other ↦ elim (Bool-cases (answers id sh.ni.session)) [
    | inl mine ↦ rw (other, mine) (record_response-Keeps supl r sh v e)
    | inr unknown ↦ rw (other, unknown) e
  ]
]

-- The session that is chosen gets a thread, and the other one stays as it is.
start_session-IsGuarded :
    (notif : NiNotification) (pass : Option ℕ) (w : Option Which) (e : Engine)
    → IsGuarded e
    → IsGuarded (start_session notif pass true w e)
start_session-IsGuarded notif pass none e g v = g v
start_session-IsGuarded notif pass (some supl) e g supl =
    inr (Watches-behind supl e.threads _ (here refl))
start_session-IsGuarded notif pass (some supl) e g supl_es = elim (g supl_es) [
  | inl taken ↦ inl taken
  | inr h ↦ inr (Watches-append supl_es e.threads _ h)
]
start_session-IsGuarded notif pass (some supl_es) e g supl_es =
    inr (Watches-behind supl_es e.threads _ (here refl))
start_session-IsGuarded notif pass (some supl_es) e g supl = elim (g supl) [
  | inl taken ↦ inl taken
  | inr h ↦ inr (Watches-append supl e.threads _ h)
]

run_thread-IsServed :
    (n : ℕ) (now : Time) (timed_out : Bool) (e : Engine) (w : Which)
    → IsServed w e.shared e.threads
    → let r = run_nth n now timed_out e.threads e.shared in IsServed w r.0 r.1
run_thread-IsServed n now timed_out e w (inl taken) =
    inl (run_nth-Keeps n now timed_out e.threads e.shared w taken)
run_thread-IsServed n now timed_out e w (inr h) =
    run_nth-IsServed n now timed_out e.threads e.shared w h

run_op-IsGuarded :
    (o : Op) (e : Engine)
    → e.ni_notify_cb ≡ true
    → creates o ≡ true
    → IsGuarded e
    → IsGuarded (run_op o e)
run_op-IsGuarded (requests notif pass created) e up c g w =
    simp (up, c) (start_session-IsGuarded notif pass (choose_session notif e.shared.ni) e g w)
run_op-IsGuarded (responds id r) e up c g w = simp up (
    served e.shared (respond_shared id r e.shared) e.threads w (respond_shared-Keeps id r e.shared)
      (g w))
run_op-IsGuarded restarts e up c g w = simp up (g w)
run_op-IsGuarded resets e up c g w =
    served e.shared (reset_step e.reset_at e.shared).1 e.threads w
      (reset_step-Keeps e.reset_at e.shared) (g w)
run_op-IsGuarded (inits none) e up c g w = g w
run_op-IsGuarded (inits (some false)) e up c g w = g w
run_op-IsGuarded (inits (some true)) e up c g w = simp up (g w)
run_op-IsGuarded (steps n now timed_out) e up c g w = run_thread-IsServed n now timed_out e w (g w)

pub run_ops-IsGuarded :
    (os : List Op) (e : Engine)
    → e.ni_notify_cb ≡ true
    → AllCreated os
    → IsGuarded e
    → IsGuarded (run_ops os e)
unfolding run_ops
run_ops-IsGuarded [] e up c g = g
run_ops-IsGuarded (o ∷ os) e up (and_then c cs) g =
    run_ops-IsGuarded os (run_op o e) (run_op-up o e up) cs (run_op-IsGuarded o e up c g)
