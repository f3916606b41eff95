-- ===== src/DmnConn/Thread.antt =====
-- gps/loc_api/libloc_api_50001/loc_eng_dmn_conn_thread_helper.c: the helper thread, statement by
-- statement, next to the threads that launch it and unblock it. `S` is the state behind
-- `thread_context`, on which the four procedures of the client act.
use android_device_lenovo_a.Base.{
  ℕ, ◌+◌, ◌-◌, Bool, true, false, not, ◌&&◌, Option, none, some, List, [], ◌∷◌, ◌++◌, if◌then◌else◌,
}
use android_device_lenovo_a.Base.Int.{ℤ, pos, negsuc, is_negative, truth}

abbrev pub Proc : Type 0 → Type 0
Proc S = Option (S → ℤ × S)

pub record Procs (S : Type 0) : Type 0 where
  pub thread_proc_init : Proc S
  pub thread_proc_pre : Proc S
  pub thread_proc : Proc S
  pub thread_proc_post : Proc S

-- Where thelper_main stands: before the call of a procedure, before thelper_signal_ready (after a
-- failed or a successful initialisation), before the test of the loop, or at its end.
pub data Place : Type 0 where
  at_init at_failed at_ready at_pre at_proc at_test at_post done : Place

-- The calls of thelper_main.
pub data Call : Type 0 where
  init pre proc post : Call

pub record Helper (S : Type 0) : Type 0 where
  pub thread_exit : Bool
  pub thread_ready : Bool
  pub context : S
  pub place : Place
  pub calls : List Call

module _ {S : Type 0} where
  abbrev pub go_to : Place → Helper S → Helper S
  go_to p h = record h { place = p }

  -- What a procedure leaves; one that is NULL is not called. A negative result leads to `bad`.
  abbrev pub called : Call → Proc S → (good bad : Helper S → Helper S) → Helper S → Helper S
  called c none good bad h = good h
  called c (some f) good bad h =
      let h' : Helper S = record h { context = (f h.context).1; calls = h.calls ++ c ∷ [] } in
      if is_negative (f h.context).0 then bad h' else good h'

  abbrev pub fail_to : Place → Helper S → Helper S
  fail_to p h = record h { thread_exit = true; place = p }

  unfoldable pub signal_ready : Helper S → Helper S
  signal_ready h = record h { thread_ready = true }

  -- thelper_signal_block returns the old flag.
  unfoldable pub signal_block : Helper S → Bool × Helper S
  signal_block h = (h.thread_ready, record h { thread_ready = false })

  -- loc_eng_dmn_conn_unblock_thelper
  unfoldable pub unblock : Helper S → ℤ × Helper S
  unblock h = (pos 0, record h { thread_exit = true })

  -- One step of thelper_main.
  unfoldable pub step_at : Procs S → Place → Helper S → Helper S
  step_at ps at_init h = called init ps.thread_proc_init (go_to at_ready) (fail_to at_failed) h
  step_at ps at_failed h = go_to done (signal_ready h)
  step_at ps at_ready h = go_to at_pre (signal_ready h)
  step_at ps at_pre h = called pre ps.thread_proc_pre (go_to at_proc) (fail_to done) h
  step_at ps at_proc h = called proc ps.thread_proc (go_to at_test) (fail_to at_test) h
  step_at ps at_test h = if h.thread_exit then go_to at_post h else go_to at_proc h
  step_at ps at_post h = called post ps.thread_proc_post (go_to done) (go_to done) h
  step_at ps done h = h

  unfoldable pub step : Procs S → Helper S → Helper S
  step ps h = step_at ps h.place h

-- Who runs next.
pub data Turn : Type 0 where
  helper unblocker : Turn

module _ {S : Type 0} (ps : Procs S) where
  unfoldable pub turn : Turn → Helper S → Helper S
  turn helper h = step ps h
  turn unblocker h = (unblock h).1

  unfoldable pub run : List Turn → Helper S → Helper S
  run [] h = h
  run (t ∷ ts) h = run ts (turn t h)

-- thelper_signal_wait, where the flags are as they are on entry and, if it waits, on waking;
-- `woken` is what pthread_cond_wait returns.
unfoldable pub signal_wait : {S : Type 0} → (woken : ℤ) (entry waking : Helper S) → ℤ
signal_wait woken entry waking =
    if not entry.thread_ready && not entry.thread_exit
    then (if waking.thread_exit then negsuc 0 else woken)
    else if entry.thread_exit
    then negsuc 0
    else pos 0

-- How many condition variables and mutexes are live.
pub record Live : Type 0 where
  pub conds : ℕ
  pub mutexes : ℕ

-- thelper_signal_init, where the two initialisations return these.
unfoldable pub signal_init : (cond mutex : ℤ) → Live → ℤ × Live
signal_init cond mutex l =
    if truth cond
    then (cond, l)
    else if truth mutex
    then (mutex, record l { conds = l.conds + 1 - 1 })
    else (mutex, record { conds = l.conds + 1; mutexes = l.mutexes + 1 })

-- thelper_signal_destroy, where the two calls return these.
unfoldable pub signal_destroy : (cond mutex : ℤ) → Live → ℤ × Live
signal_destroy cond mutex l = (
  (if truth mutex then mutex else if truth cond then cond else pos 0),
  record {
    conds = if truth cond then l.conds else l.conds - 1;
    mutexes = if truth mutex then l.mutexes else l.mutexes - 1;
  },
)

abbrev pub new_helper : {S : Type 0} → S → Helper S
new_helper s = record {
  thread_exit = false;
  thread_ready = false;
  context = s;
  place = at_init;
  calls = [];
}

abbrev pub flag : Bool → ℤ
flag b = if b then pos 1 else pos 0

-- The helper when the wait of the launcher is over: it took the turns `before` until the flags were
-- tested, and `during` until the launcher woke, if it had to wait.
unfoldable pub waited : {S : Type 0} → Procs S → (before during : List Turn) → S → Helper S
waited ps before during s =
    let entry = run ps before (new_helper s) in
    if not entry.thread_ready && not entry.thread_exit then run ps during entry else entry

-- loc_eng_dmn_conn_launch_thelper. `created` is the result of pthread_create, or 0 where the client
-- creates the thread. After the wait the helper takes the turns `after` until its flag is read. The
-- result, the helper, and what is live.
unfoldable pub launch :
    {S : Type 0}
    → Procs S
    → (cond mutex created : ℤ) (before during after : List Turn) → S
    → Live
    → ℤ × Helper S × Live
launch ps cond mutex created before during after s l =
    let l' = (signal_init cond mutex l).1 in
    if truth created
    then (negsuc 0, new_helper s, l')
    else (let h = run ps after (waited ps before during s) in (flag h.thread_exit, h, l'))

-- loc_eng_dmn_conn_join_thelper, where pthread_join returns `joined`.
unfoldable pub join : (joined cond mutex : ℤ) → Live → ℤ × Live
join joined cond mutex l = (joined, (signal_destroy cond mutex l).1)
