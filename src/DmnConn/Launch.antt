-- ===== src/DmnConn/Launch.antt =====
-- What the thread that launches a helper of loc_eng_dmn_conn_thread_helper.c learns, when the helper
-- ends, and what is live then.
use android_device_lenovo_a.Base.{
  ℕ, zero, suc, ◌+◌, ◌≤◌, ◌≡◌, inl, inr, refl, sym, ap, subst, true, false, not, ◌||◌, ◌&&◌, some,
  List, [], ◌∷◌, arith, Bool-cases,
}
use android_device_lenovo_a.Base.Int.{ℤ, pos, negsuc, is_negative, truth}
use android_device_lenovo_a.DmnConn.Lifecycle.{called-cases}
use android_device_lenovo_a.DmnConn.Thread.{
  Procs, Place, at_init, at_failed, at_ready, at_pre, at_proc, at_test, at_post, done, init, pre,
  proc, post, Helper, signal_ready, unblock, step_at, step, Turn, helper, unblocker, turn, run,
  new_helper, flag, waited, launch, Live, join, signal_init, signal_destroy,
}

module _ {S : Type 0} (ps : Procs S) where
  -- Steps of the helper until it is done, once it is to exit.
  abbrev steps_left : Place → ℕ
  steps_left at_init = 6
  steps_left at_failed = 1
  steps_left at_ready = 5
  steps_left at_pre = 4
  steps_left at_proc = 3
  steps_left at_test = 2
  steps_left at_post = 1
  steps_left done = 0

  abbrev Exiting : ℕ → Helper S → Type 0
  Exiting n h = (h.thread_exit ≡ true) × (steps_left h.place ≤ n)

  step_at-Exiting :
      (n : ℕ) (p : Place) (h : Helper S)
      → h.place ≡ p
      → h.thread_exit ≡ true
      → steps_left p ≤ suc n
      → Exiting n (step_at ps p h)
  unfolding step_at signal_ready
  step_at-Exiting n at_init h e x le =
      called-cases ps (Exiting n) init ps.thread_proc_init _ _ h (λ s r. (x, omega arith))
        (λ s r o. (refl, omega arith))
  step_at-Exiting n at_failed h e x le = (x, omega arith)
  step_at-Exiting n at_ready h e x le = (x, omega arith)
  step_at-Exiting n at_pre h e x le =
      called-cases ps (Exiting n) pre ps.thread_proc_pre _ _ h (λ s r. (x, omega arith))
        (λ s r o. (refl, omega arith))
  step_at-Exiting n at_proc h e x le =
      called-cases ps (Exiting n) proc ps.thread_proc _ _ h (λ s r. (x, omega arith))
        (λ s r o. (refl, omega arith))
  step_at-Exiting n at_test h e x le = simp x (refl, omega arith)
  step_at-Exiting n at_post h e x le =
      called-cases ps (Exiting n) post ps.thread_proc_post _ _ h (λ s r. (x, omega arith))
        (λ s r o. (x, omega arith))
  step_at-Exiting n done h e x le = (x, rw e (omega arith))

  abbrev pub helper_turns : ℕ → List Turn
  helper_turns zero = []
  helper_turns (suc n) = helper ∷ helper_turns n

  run-Exiting :
      (n : ℕ) (h : Helper S)
      → h.thread_exit ≡ true
      → steps_left h.place ≤ n
      → (run ps (helper_turns n) h).place ≡ done
  unfolding run turn step
  run-Exiting zero h x le = is_done h.place le
    where
      is_done : (p : Place) → steps_left p ≤ 0 → p ≡ done
      is_done at_init le = absurd (omega arith)
      is_done at_failed le = absurd (omega arith)
      is_done at_ready le = absurd (omega arith)
      is_done at_pre le = absurd (omega arith)
      is_done at_proc le = absurd (omega arith)
      is_done at_test le = absurd (omega arith)
      is_done at_post le = absurd (omega arith)
      is_done done le = refl
  run-Exiting (suc n) h x le =
      let (x', le') = step_at-Exiting n h.place h refl x le in run-Exiting n (step ps h) x' le'

  steps_left-le : (p : Place) → steps_left p ≤ 6
  steps_left-le at_init = omega arith
  steps_left-le at_failed = omega arith
  steps_left-le at_ready = omega arith
  steps_left-le at_pre = omega arith
  steps_left-le at_proc = omega arith
  steps_left-le at_test = omega arith
  steps_left-le at_post = omega arith
  steps_left-le done = omega arith

  -- Once loc_eng_dmn_conn_unblock_thelper was called the helper, wherever it stands, ends within six
  -- steps of its own, provided that its procedures return.
  pub unblock-done : (h : Helper S) → (run ps (unblocker ∷ helper_turns 6) h).place ≡ done
  unfolding run turn unblock
  unblock-done h = run-Exiting 6 (record h { thread_exit = true }) refl (steps_left-le h.place)

-- The helper's initialisation fails on this state.
abbrev pub Fails : {S : Type 0} → Procs S → S → Type 0
Fails {S} ps s = (f : S → ℤ × S) × (ps.thread_proc_init ≡ some f) × (is_negative (f s).0 ≡ true)

module _ {S : Type 0} (ps : Procs S) (s : S) (fails : Fails ps s) where
  -- Before its failed initialisation is noted the helper is not ready, and behind it it exits.
  abbrev Failing : Place → Helper S → Type 0
  Failing at_init h = (h.context ≡ s) × (h.thread_ready ≡ false)
  Failing at_failed h = h.thread_exit ≡ true
  Failing done h = h.thread_exit ≡ true
  Failing _ h = ⊥

  step_at-Failing :
      (p : Place) (h : Helper S)
      → h.place ≡ p
      → Failing p h
      → Failing (step_at ps p h).place (step_at ps p h)
  unfolding step_at signal_ready
  step_at-Failing at_init h e a = let (f, is, neg) = fails in rw (is, a.0, neg) refl
  step_at-Failing at_failed h e a = a
  step_at-Failing at_ready h e a = absurd a
  step_at-Failing at_pre h e a = absurd a
  step_at-Failing at_proc h e a = absurd a
  step_at-Failing at_test h e a = absurd a
  step_at-Failing at_post h e a = absurd a
  step_at-Failing done h e a = subst (λ q. Failing q h) (sym e) a

  unblock-Failing :
      (p : Place) (h : Helper S) → Failing p h → Failing p (record h { thread_exit = true })
  unblock-Failing at_init h a = a
  unblock-Failing at_failed h a = refl
  unblock-Failing at_ready h a = a
  unblock-Failing at_pre h a = a
  unblock-Failing at_proc h a = a
  unblock-Failing at_test h a = a
  unblock-Failing at_post h a = a
  unblock-Failing done h a = refl

  run-Failing :
      (ts : List Turn) (h : Helper S)
      → Failing h.place h
      → Failing (run ps ts h).place (run ps ts h)
  unfolding run turn step unblock
  run-Failing [] h a = a
  run-Failing (helper ∷ ts) h a = run-Failing ts (step ps h) (step_at-Failing h.place h refl a)
  run-Failing (unblocker ∷ ts) h a =
      run-Failing ts (record h { thread_exit = true }) (unblock-Failing h.place h a)

  exits :
      (p : Place) (h : Helper S)
      → Failing p h
      → h.thread_ready || h.thread_exit ≡ true
      → h.thread_exit ≡ true
  exits at_init h a over = ground arith
  exits at_failed h a over = a
  exits at_ready h a over = absurd a
  exits at_pre h a over = absurd a
  exits at_proc h a over = absurd a
  exits at_test h a over = absurd a
  exits at_post h a over = absurd a
  exits done h a over = a

  run-exit :
      (ts : List Turn) (h : Helper S) → h.thread_exit ≡ true → (run ps ts h).thread_exit ≡ true
  unfolding run turn step unblock
  run-exit [] h x = x
  run-exit (helper ∷ ts) h x =
      run-exit ts (step ps h)
        (step_at-Exiting ps 6 h.place h refl x (omega (arith, steps_left-le ps h.place))).0
  run-exit (unblocker ∷ ts) h x = run-exit ts (record h { thread_exit = true }) refl

  waited-Failing :
      (before during : List Turn)
      → Failing (waited ps before during s).place (waited ps before during s)
  unfolding waited
  waited-Failing before during =
      let entry = run ps before (new_helper s) in
      let first = run-Failing before (new_helper s) (refl, refl) in
      elim (Bool-cases (not entry.thread_ready && not entry.thread_exit)) [
        | inl w ↦ rw w (run-Failing during entry first)
        | inr n ↦ rw n first
      ]

  -- If the initialisation of the helper fails, and the launcher did not wake for no reason, then
  -- loc_eng_dmn_conn_launch_thelper reports it, whatever turns the threads take.
  pub launch-Fails :
      (cond mutex : ℤ) (before during after : List Turn) (l : Live)
      → (waited ps before during s).thread_ready || (waited ps before during s).thread_exit ≡ true
      → (launch ps cond mutex (pos 0) before during after s l).0 ≡ pos 1
  unfolding launch
  launch-Fails cond mutex before during after l over =
      let w = waited ps before during s in
      ap flag (run-exit after w (exits w.place w (waited-Failing before during) over))

-- A helper that could be launched and joined leaves as many condition variables and mutexes behind
-- as there were.
pub join-launch :
    {S : Type 0} (ps : Procs S) (before during after : List Turn) (s : S) (l : Live)
    → join (pos 0) (pos 0) (pos 0) (launch ps (pos 0) (pos 0) (pos 0) before during after s l).2
      ≡ (pos 0, l)
unfolding join signal_destroy launch signal_init
join-launch ps before during after s l = ground arith

-- When pthread_create fails loc_eng_dmn_conn_launch_thelper returns -1 and leaves the condition
-- variable and the mutex that it made.
pub launch_leaks :
    {S : Type 0} (ps : Procs S) (created : ℤ) (before during after : List Turn) (s : S) (l : Live)
    → truth created ≡ true
    → launch ps (pos 0) (pos 0) created before during after s l
      ≡ (negsuc 0, new_helper s, record { conds = l.conds + 1; mutexes = l.mutexes + 1 })
unfolding launch signal_init
launch_leaks ps created before during after s l failed = rw failed refl
