-- ===== src/Ni/Balance.antt =====
-- Every operation accounts for the memory that requests come in
-- (gps/loc_api/libloc_api_50001/loc_eng_ni.cpp).
use android_device_lenovo_a.Base.{
  ℕ, ◌≡◌, refl, Bool, true, false, inl, inr, Option, none, some, List, [], ◌∷◌, ◌∙◌, is_some,
  Bool-cases, ◌==◌,
}
use android_device_lenovo_a.Ni.Types.{
  NiSession, NiData, Which, NiNotification, Thread, ResetAt, not_resetting, clearing, Engine,
}
use android_device_lenovo_a.Ni.Thread.{get}
use android_device_lenovo_a.Ni.Requests.{
  gps_ni_type_emergency_supl, in_session, choose_session, start_session, Op, requests, responds,
  restarts, resets, inits, steps, run_op,
}

-- The session that the handler chooses has no request.
pub data Chosen (d : NiData) : Option Which → Type 0 where
  refused : Chosen d none
  free : {w : Which} → (get w d).raw_request ≡ none → Chosen d (some w)

is_free : (s : NiSession) → in_session s ≡ false → s.raw_request ≡ none
is_free s e = go s.raw_request e
  where
    go : (raw : Option ℕ) → is_some raw ≡ false → raw ≡ none
    go none e = refl
    go (some p) e = cc

pub choose_session-Chosen :
    (notif : NiNotification) (d : NiData) → Chosen d (choose_session notif d)
choose_session-Chosen notif d = elim (Bool-cases (notif.ni_type == gps_ni_type_emergency_supl)) [
  | inl es ↦ elim (Bool-cases (in_session d.session_es)) [
    | inl busy ↦ rw (es, busy) refused
    | inr idle ↦ rw (es, idle) (free (is_free d.session_es idle))
  ]
  | inr other ↦ elim (Bool-cases (in_session d.session)) [
    | inl busy ↦ rw (other, busy) refused
    | inr idle ↦ elim (Bool-cases (in_session d.session_es)) [
      | inl busy ↦ rw (other, idle, busy) refused
      | inr idle_es ↦ rw (other, idle, idle_es) (free (is_free d.session idle))
    ]
  ]
]

-- Whether an operation may come while the restart is at a place. The handler runs on the thread of the
-- restart, and not within its call. That no helper thread takes a step between the free of a request
-- and the clearing of its pointer is a premise, which the code does not ensure.
abbrev pub is_calm : Op → ResetAt → Bool
is_calm (requests notif pass created) not_resetting = true
is_calm (requests notif pass created) at = false
is_calm (steps n now timed_out) (clearing w) = false
is_calm o at = true

pub data Calm : List Op → Engine → Type 0 where
  at_end : {e : Engine} → Calm [] e
  calm :
      {o : Op} {os : List Op} {e : Engine}
      → is_calm o e.reset_at ≡ true
      → Calm os (run_op o e)
      → Calm (o ∷ os) e

pub start_session-up :
    (notif : NiNotification) (pass : Option ℕ) (created : Bool) (w : Option Which) (e : Engine)
    → (start_session notif pass created w e).ni_notify_cb ≡ e.ni_notify_cb
start_session-up notif pass created none e = refl
start_session-up notif pass created (some w) e = refl

pub run_op-up : (o : Op) (e : Engine) → e.ni_notify_cb ≡ true → (run_op o e).ni_notify_cb ≡ true
run_op-up (requests notif pass created) e up =
    simp up (start_session-up notif pass created _ e ∙ up)
run_op-up (responds id r) e up = rw up refl
run_op-up restarts e up = rw up refl
run_op-up resets e up = up
run_op-up (inits none) e up = up
run_op-up (inits (some false)) e up = up
run_op-up (inits (some true)) e up = rw up refl
run_op-up (steps n now timed_out) e up = up
