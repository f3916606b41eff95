-- ===== src/Ni/Answers.antt =====
-- Every request that the handler takes into a session leaves it again
-- (gps/loc_api/libloc_api_50001/loc_eng_ni.cpp).
use android_device_lenovo_a.Base.{
  ℕ, zero, suc, ◌≡◌, refl, inl, inr, true, false, none, some, List, [], ◌∷◌, Bool-cases,
}
use android_device_lenovo_a.Ni.Types.{
  no_response, Which, supl, supl_es, Time, Position, starting, waiting, leaving, Thread, Shared,
  Engine,
}
use android_device_lenovo_a.Ni.Thread.{
  get, take_request, end_wait, ni_thread_step, run_nth, run_thread,
}
use android_device_lenovo_a.Ni.Requests.{init, Op, run_ops}
use android_device_lenovo_a.Ni.Watched.{
  raw, will_take, Watches, here, there, IsGuarded, end_wait-takes, step-Keeps, run_nth-Keeps,
}
use android_device_lenovo_a.Ni.Guarded.{AllCreated, run_ops-IsGuarded}

-- Two steps take a thread behind the lock, if its wait times out.
first_takes :
    (w : Which) (at : Position) (ts : List Thread) (sh : Shared) (t : Time)
    → will_take at ≡ true
    → let r = run_nth zero t true (record { which = w; position = at } ∷ ts) sh in
      raw w (run_nth zero t true r.1 r.0).0 ≡ none
unfolding run_nth ni_thread_step
first_takes w starting ts sh t e = elim (Bool-cases (get w sh.ni).resp_recvd) [
  | inl arrived ↦
      let r = end_wait w (get w sh.ni).resp sh in
      rw arrived (
        step-Keeps w (leaving (take_request (raw w sh) (get w sh.ni).resp).0) t true r.0 w
          (end_wait-takes w (get w sh.ni).resp sh))
  | inr waits ↦ rw waits (end_wait-takes w no_response sh)
]
first_takes w (waiting s n) ts sh t e =
    step-Keeps w (leaving (take_request (raw w sh) no_response).0) t true
      (end_wait w no_response sh).0 w (end_wait-takes w no_response sh)
first_takes w (leaving msg) ts sh t e = cc

taker :
    (w : Which) (ts : List Thread) (sh : Shared) (t : Time)
    → Watches w ts
    → (n : ℕ) × (let r = run_nth n t true ts sh in raw w (run_nth n t true r.1 r.0).0 ≡ none)
unfolding run_nth
taker w [] sh t h = elim h [ ]
taker w (_ ∷ ts) sh t (here {at} e) = (zero, first_takes w at ts sh t e)
taker w (_ ∷ ts) sh t (there h) = let found = taker w ts sh t h in (suc found.0, found.1)

-- After a first loc_eng_ni_init no session has a request.
init-IsGuarded : (e : Engine) → e.ni_notify_cb ≡ false → IsGuarded (init (some true) e)
init-IsGuarded e down supl = simp down (inl refl)
init-IsGuarded e down supl_es = simp down (inl refl)

init-up : (e : Engine) → e.ni_notify_cb ≡ false → (init (some true) e).ni_notify_cb ≡ true
init-up e down = simp down refl

-- From the first loc_eng_ni_init on, whatever calls are made and whatever steps the helper threads
-- take, if every pthread_create succeeds, no session is stuck: it is free, or becomes free when a
-- certain thread takes two steps, the second of them at the end of its wait.
pub run_ops-freed :
    (os : List Op) (e : Engine) (w : Which) (t : Time)
    → e.ni_notify_cb ≡ false
    → AllCreated os
    → let e' = run_ops os (init (some true) e) in
      (n : ℕ) × (raw w (run_thread n t true (run_thread n t true e')).shared ≡ none)
run_ops-freed os e w t down cs =
    let e' = run_ops os (init (some true) e) in
    elim (run_ops-IsGuarded os (init (some true) e) (init-up e down) cs (init-IsGuarded e down) w) [
      | inl taken ↦ (
        zero,
        run_nth-Keeps zero t true (run_thread zero t true e').threads
            (run_thread zero t true e').shared w
            (run_nth-Keeps zero t true e'.threads e'.shared w taken),
      )
      | inr h ↦ taker w e'.threads e'.shared t h
    ]
