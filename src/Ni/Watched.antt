-- ===== src/Ni/Watched.antt =====
-- Every request in a session has a helper thread that will take it
-- (gps/loc_api/libloc_api_50001/loc_eng_ni.cpp).
use android_device_lenovo_a.Base.{
  ℕ, zero, suc, ◌≡◌, refl, ◌⊎◌, inl, inr, Bool, true, false, Option, none, List, [], ◌∷◌, ◌++◌,
  Bool-cases,
}
use android_device_lenovo_a.Ni.Types.{
  Response, no_response, NiSession, Which, supl, supl_es, Time, Position, starting, waiting,
  leaving, Thread, Shared, Engine,
}
use android_device_lenovo_a.Ni.Thread.{get, put, end_wait, await_response, ni_thread_step, run_nth}

abbrev pub raw : Which → Shared → Option ℕ
raw w sh = (get w sh.ni).raw_request

-- Whether a thread is yet to take the request of its session.
abbrev pub will_take : Position → Bool
will_take starting = true
will_take (waiting tv_sec tv_nsec) = true
will_take (leaving msg) = false

pub data Watches (w : Which) : List Thread → Type 0 where
  here :
      {at : Position} {ts : List Thread}
      → will_take at ≡ true
      → Watches w (record { which = w; position = at } ∷ ts)
  there : {t : Thread} {ts : List Thread} → Watches w ts → Watches w (t ∷ ts)

abbrev pub IsServed : Which → Shared → List Thread → Type 0
IsServed w sh ts = (raw w sh ≡ none) ⊎ Watches w ts

abbrev pub IsGuarded : Engine → Type 0
IsGuarded e = (w : Which) → (raw w e.shared ≡ none) ⊎ Watches w e.threads

-- A session that has no request gets none.
abbrev pub Keeps : Shared → Shared → Type 0
Keeps sh sh' = (w : Which) → raw w sh ≡ none → raw w sh' ≡ none

pub Watches-append : (w : Which) (ts us : List Thread) → Watches w ts → Watches w (ts ++ us)
Watches-append w [] us h = elim h [ ]
Watches-append w (_ ∷ ts) us (here e) = here e
Watches-append w (t ∷ ts) us (there h) = there (Watches-append w ts us h)

pub Watches-behind : (w : Which) (ts us : List Thread) → Watches w us → Watches w (ts ++ us)
Watches-behind w [] us h = h
Watches-behind w (t ∷ ts) us h = there (Watches-behind w ts us h)

pub put-Keeps :
    (w : Which) (s : NiSession) (sh : Shared)
    → (raw w sh ≡ none → s.raw_request ≡ none)
    → (v : Which) → raw v sh ≡ none
    → (get v (put w s sh.ni)).raw_request ≡ none
put-Keeps supl s sh keeps supl e = keeps e
put-Keeps supl s sh keeps supl_es e = e
put-Keeps supl_es s sh keeps supl e = e
put-Keeps supl_es s sh keeps supl_es e = keeps e

end_wait-Keeps : (w : Which) (r : Response) (sh : Shared) → Keeps sh (end_wait w r sh).0
end_wait-Keeps w r sh =
    put-Keeps w (record (get w sh.ni) { resp_recvd = false; raw_request = none; resp = r }) sh
      (λ e. refl)

pub end_wait-takes : (w : Which) (r : Response) (sh : Shared) → raw w (end_wait w r sh).0 ≡ none
end_wait-takes supl r sh = refl
end_wait-takes supl_es r sh = refl

await-Keeps :
    (w : Which) (tv_sec tv_nsec : ℕ) (sh : Shared) → Keeps sh (await_response w tv_sec tv_nsec sh).0
await-Keeps w tv_sec tv_nsec sh v e = elim (Bool-cases (get w sh.ni).resp_recvd) [
  | inl arrived ↦ rw arrived (end_wait-Keeps w (get w sh.ni).resp sh v e)
  | inr waits ↦ rw waits e
]

pub step-Keeps :
    (w : Which) (at : Position) (now : Time) (timed_out : Bool) (sh : Shared)
    → Keeps sh (ni_thread_step w at now timed_out sh).0
unfolding ni_thread_step
step-Keeps w starting now timed_out sh = await-Keeps w _ _ sh
step-Keeps w (waiting s n) now true sh = end_wait-Keeps w no_response sh
step-Keeps w (waiting s n) now false sh = await-Keeps w s n sh
step-Keeps w (leaving msg) now timed_out sh =
    put-Keeps w (record (get w sh.ni) { resp_time_left = 0; req_id = 0 }) sh (λ e. e)

await-IsServed :
    (w : Which) (tv_sec tv_nsec : ℕ) (sh : Shared)
    → let r = await_response w tv_sec tv_nsec sh in IsServed w r.0 r.1
await-IsServed w tv_sec tv_nsec sh = elim (Bool-cases (get w sh.ni).resp_recvd) [
  | inl arrived ↦ rw arrived (inl (end_wait-takes w (get w sh.ni).resp sh))
  | inr waits ↦ rw waits (inr (here refl))
]

step-IsServed :
    (w : Which) (at : Position) (now : Time) (timed_out : Bool) (sh : Shared)
    → will_take at ≡ true
    → let r = ni_thread_step w at now timed_out sh in IsServed w r.0 r.1
unfolding ni_thread_step
step-IsServed w starting now timed_out sh e = await-IsServed w _ _ sh
step-IsServed w (waiting s n) now true sh e = inl (end_wait-takes w no_response sh)
step-IsServed w (waiting s n) now false sh e = await-IsServed w s n sh
step-IsServed w (leaving msg) now timed_out sh e = cc

IsServed-append :
    (w : Which) (sh : Shared) (ts us : List Thread) → IsServed w sh ts → IsServed w sh (ts ++ us)
IsServed-append w sh ts us (inl taken) = inl taken
IsServed-append w sh ts us (inr h) = inr (Watches-append w ts us h)

IsServed-there :
    (w : Which) (sh : Shared) (t : Thread) (ts : List Thread)
    → IsServed w sh ts
    → IsServed w sh (t ∷ ts)
IsServed-there w sh t ts (inl taken) = inl taken
IsServed-there w sh t ts (inr h) = inr (there h)

pub run_nth-Keeps :
    (n : ℕ) (now : Time) (timed_out : Bool) (ts : List Thread) (sh : Shared)
    → Keeps sh (run_nth n now timed_out ts sh).0
unfolding run_nth
run_nth-Keeps n now timed_out [] sh w e = e
run_nth-Keeps zero now timed_out (t ∷ ts) sh w e =
    step-Keeps t.which t.position now timed_out sh w e
run_nth-Keeps (suc n) now timed_out (t ∷ ts) sh w e = run_nth-Keeps n now timed_out ts sh w e

pub run_nth-IsServed :
    (n : ℕ) (now : Time) (timed_out : Bool) (ts : List Thread) (sh : Shared) (w : Which)
    → Watches w ts
    → let r = run_nth n now timed_out ts sh in IsServed w r.0 r.1
unfolding run_nth
run_nth-IsServed zero now timed_out [] sh w h = elim h [ ]
run_nth-IsServed (suc n) now timed_out [] sh w h = elim h [ ]
run_nth-IsServed zero now timed_out (_ ∷ ts) sh w (here {at} e) =
    IsServed-append w (ni_thread_step w at now timed_out sh).0
      (ni_thread_step w at now timed_out sh).1 ts (step-IsServed w at now timed_out sh e)
run_nth-IsServed zero now timed_out (t ∷ ts) sh w (there h) =
    inr (Watches-behind w (ni_thread_step t.which t.position now timed_out sh).1 ts h)
run_nth-IsServed (suc n) now timed_out (_ ∷ ts) sh w (here {at} e) = inr (here e)
run_nth-IsServed (suc n) now timed_out (t ∷ ts) sh w (there h) =
    IsServed-there w (run_nth n now timed_out ts sh).0 t (run_nth n now timed_out ts sh).1
      (run_nth-IsServed n now timed_out ts sh w h)
