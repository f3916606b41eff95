-- ===== src/Ni/Account.antt =====
-- What becomes of the memory that requests come in (gps/loc_api/libloc_api_50001/loc_eng_ni.cpp).
use android_device_lenovo_a.Base.{
  ℕ, zero, suc, ◌+◌, ◌≡◌, refl, Bool, true, false, inl, inr, Option, none, some, List, [], ◌∷◌,
  ◌++◌, Bool-cases, if◌then◌else◌, ◌==◌, arith,
}
use android_device_lenovo_a.Ni.Types.{
  Response, unset, accept, deny, no_response, ignore, Which, supl, supl_es, Message, Time, Position,
  starting, waiting, leaving, Thread, Shared, ResetAt, not_resetting, testing, clearing, signalling,
  Engine,
}
use android_device_lenovo_a.Ni.Thread.{
  get, take_request, end_wait, await_response, send_msg, ni_thread_step, run_nth,
}
use android_device_lenovo_a.Ni.Requests.{Op, requests}

module _ (p : ℕ) where
  abbrev pub one : ℕ → ℕ
  one q = if p == q then 1 else 0

  abbrev pub in_request : Option ℕ → ℕ
  in_request none = 0
  in_request (some q) = one q

  abbrev pub in_message : Option Message → ℕ
  in_message none = 0
  in_message (some msg) = one msg.payload

  abbrev pub in_sent : List Message → ℕ
  in_sent [] = 0
  in_sent (msg ∷ ms) = one msg.payload + in_sent ms

  abbrev pub in_freed : List ℕ → ℕ
  in_freed [] = 0
  in_freed (q ∷ qs) = one q + in_freed qs

  abbrev pub in_position : Position → ℕ
  in_position starting = 0
  in_position (waiting tv_sec tv_nsec) = 0
  in_position (leaving msg) = in_message msg

  abbrev pub in_threads : List Thread → ℕ
  in_threads [] = 0
  in_threads (t ∷ ts) = in_position t.position + in_threads ts

  abbrev pub in_shared : Shared → ℕ
  in_shared sh =
      in_request sh.ni.session.raw_request
      + in_request sh.ni.session_es.raw_request
      + (in_sent sh.sent + in_freed sh.freed)

  -- While a request is freed and its pointer not yet cleared, the session does not hold it any more.
  abbrev pub in_use : ResetAt → Shared → ℕ
  in_use (clearing supl) sh =
      in_request sh.ni.session_es.raw_request + (in_sent sh.sent + in_freed sh.freed)
  in_use (clearing supl_es) sh =
      in_request sh.ni.session.raw_request + (in_sent sh.sent + in_freed sh.freed)
  in_use not_resetting sh = in_shared sh
  in_use (testing w) sh = in_shared sh
  in_use (signalling w) sh = in_shared sh

  -- How often the block is in a session, in a message that is to be sent or was sent, or was freed.
  abbrev pub owned : Engine → ℕ
  owned e = in_use e.reset_at e.shared + in_threads e.threads

  abbrev pub given : Op → ℕ
  given (requests notif pass_through created) = in_request pass_through
  given _ = 0

  abbrev pub all_given : List Op → ℕ
  all_given [] = 0
  all_given (o ∷ os) = given o + all_given os

  in_freed-append : (qs rs : List ℕ) → in_freed (qs ++ rs) ≡ in_freed qs + in_freed rs
  in_freed-append [] rs = omega arith
  in_freed-append (q ∷ qs) rs = omega (arith, in_freed-append qs rs)

  pub in_threads-append :
      (ts us : List Thread) → in_threads (ts ++ us) ≡ in_threads ts + in_threads us
  in_threads-append [] us = omega arith
  in_threads-append (t ∷ ts) us = omega (arith, in_threads-append ts us)

  in_sent-send_msg :
      (msg : Option Message) (ms : List Message)
      → in_sent (send_msg msg ms) ≡ in_message msg + in_sent ms
  in_sent-send_msg none ms = omega arith
  in_sent-send_msg (some msg) ms = omega arith

  take_request_lem :
      (raw : Option ℕ) (r : Response)
      → in_message (take_request raw r).0 + in_freed (take_request raw r).1 ≡ in_request raw
  take_request_lem none r = refl
  take_request_lem (some q) unset = omega arith
  take_request_lem (some q) accept = omega arith
  take_request_lem (some q) deny = omega arith
  take_request_lem (some q) no_response = omega arith
  take_request_lem (some q) ignore = omega arith

  end_wait-owned :
      (w : Which) (r : Response) (sh : Shared)
      → in_shared (end_wait w r sh).0 + in_threads (end_wait w r sh).1 ≡ in_shared sh
  end_wait-owned supl r sh =
      let taken = take_request sh.ni.session.raw_request r in
      omega (arith, take_request_lem sh.ni.session.raw_request r, in_freed-append taken.1 sh.freed)
  end_wait-owned supl_es r sh =
      let taken = take_request sh.ni.session_es.raw_request r in
      omega
        (arith, take_request_lem sh.ni.session_es.raw_request r, in_freed-append taken.1 sh.freed)

  await-owned :
      (w : Which) (tv_sec tv_nsec : ℕ) (sh : Shared)
      → in_shared (await_response w tv_sec tv_nsec sh).0
          + in_threads (await_response w tv_sec tv_nsec sh).1
        ≡ in_shared sh
  await-owned w tv_sec tv_nsec sh = elim (Bool-cases (get w sh.ni).resp_recvd) [
    | inl arrived ↦ rw arrived (end_wait-owned w (get w sh.ni).resp sh)
    | inr waits ↦ rw waits (omega arith)
  ]

  step-owned :
      (w : Which) (at : Position) (now : Time) (timed_out : Bool) (sh : Shared)
      → in_shared (ni_thread_step w at now timed_out sh).0
          + in_threads (ni_thread_step w at now timed_out sh).1
        ≡ in_shared sh + in_position at
  unfolding ni_thread_step
  step-owned w starting now timed_out sh = omega (arith, await-owned w _ _ sh)
  step-owned w (waiting s n) now true sh = omega (arith, end_wait-owned w no_response sh)
  step-owned w (waiting s n) now false sh = omega (arith, await-owned w s n sh)
  step-owned supl (leaving msg) now timed_out sh = omega (arith, in_sent-send_msg msg sh.sent)
  step-owned supl_es (leaving msg) now timed_out sh = omega (arith, in_sent-send_msg msg sh.sent)

  pub run_nth-owned :
      (n : ℕ) (now : Time) (timed_out : Bool) (ts : List Thread) (sh : Shared)
      → in_shared (run_nth n now timed_out ts sh).0 + in_threads (run_nth n now timed_out ts sh).1
        ≡ in_shared sh + in_threads ts
  unfolding run_nth
  run_nth-owned n now timed_out [] sh = omega arith
  run_nth-owned zero now timed_out (t ∷ ts) sh =
      let r = ni_thread_step t.which t.position now timed_out sh in
      omega (arith, step-owned t.which t.position now timed_out sh, in_threads-append r.1 ts)
  run_nth-owned (suc n) now timed_out (t ∷ ts) sh =
      omega (arith, run_nth-owned n now timed_out ts sh)
