-- ===== src/Ni/Thread.antt =====
-- ni_thread_proc of gps/loc_api/libloc_api_50001/loc_eng_ni.cpp, in the steps between which other
-- threads may run: the lock keeps them out but for the wait.
use android_device_lenovo_a.Base.{
  ℕ, zero, suc, ◌+◌, ◌-◌, ◌*◌, ◌^◌, ltb, Bool, true, false, Option, none, some, List, [], ◌∷◌, ◌++◌,
  if◌then◌else◌,
}
use android_device_lenovo_a.Ni.Types.{
  Response, no_response, ignore, NiSession, NiData, Which, supl, supl_es, Message, Time, Position,
  starting, waiting, leaving, Thread, Shared, Engine,
}

abbrev pub get : Which → NiData → NiSession
get supl d = d.session
get supl_es d = d.session_es

abbrev pub put : Which → NiSession → NiData → NiData
put supl s d = record d { session = s }
put supl_es s d = record d { session_es = s }

-- The message for an answer, and the memory that is freed when the request is ignored.
abbrev pub take_request : Option ℕ → Response → Option Message × List ℕ
take_request none r = (none, [])
take_request (some p) ignore = (none, p ∷ [])
take_request (some p) r = (some (record { response = r; payload = p }), [])

-- The code behind the loop, up to the unlock, when `resp` is the response of the session.
abbrev pub end_wait : Which → Response → Shared → Shared × List Thread
end_wait w r sh =
    let s = get w sh.ni in
    let taken = take_request s.raw_request r in
    (
      record sh {
        ni = put w (record s { resp_recvd = false; raw_request = none; resp = r }) sh.ni;
        freed = taken.1 ++ sh.freed;
      },
      record { which = w; position = leaving taken.0 } ∷ [],
    )

-- The test of the loop.
abbrev pub await_response : Which → (tv_sec tv_nsec : ℕ) → Shared → Shared × List Thread
await_response w tv_sec tv_nsec sh =
    if (get w sh.ni).resp_recvd
    then end_wait w (get w sh.ni).resp sh
    else (sh, record { which = w; position = waiting tv_sec tv_nsec } ∷ [])

abbrev pub send_msg : Option Message → List Message → List Message
send_msg none ms = ms
send_msg (some msg) ms = msg ∷ ms

-- The seconds of a time and a number of seconds, which is an int.
abbrev pub expire_sec : ℕ → ℕ → ℕ
expire_sec tv_sec left = if ltb left (2 ^ 31) then tv_sec + left else tv_sec - (2 ^ 32 - left)

-- A step of a thread that is at a position. `timed_out` is whether the wait returns ETIMEDOUT; it
-- also returns when it is signalled or for no reason.
unfoldable pub ni_thread_step : Which → Position → Time → Bool → Shared → Shared × List Thread
ni_thread_step w starting now timed_out sh =
    await_response w (expire_sec now.sec (get w sh.ni).resp_time_left) (now.usec * 1000) sh
ni_thread_step w (waiting tv_sec tv_nsec) now true sh = end_wait w no_response sh
ni_thread_step w (waiting tv_sec tv_nsec) now false sh = await_response w tv_sec tv_nsec sh
ni_thread_step w (leaving msg) now timed_out sh = (
  record sh {
    ni = put w (record (get w sh.ni) { resp_time_left = 0; req_id = 0 }) sh.ni;
    sent = send_msg msg sh.sent;
  },
  [],
)

-- A step of the thread with a number, if there is one.
unfoldable pub run_nth : ℕ → Time → Bool → List Thread → Shared → Shared × List Thread
run_nth n now timed_out [] sh = (sh, [])
run_nth zero now timed_out (t ∷ ts) sh =
    let r = ni_thread_step t.which t.position now timed_out sh in (r.0, r.1 ++ ts)
run_nth (suc n) now timed_out (t ∷ ts) sh = let r = run_nth n now timed_out ts sh in (r.0, t ∷ r.1)

abbrev pub run_thread : ℕ → Time → Bool → Engine → Engine
run_thread n now timed_out e =
    let r = run_nth n now timed_out e.threads e.shared in record e { shared = r.0; threads = r.1 }
