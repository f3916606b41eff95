-- ===== src/SyncReq/Calls.antt =====
-- loc_sync_wait_for_ind and loc_sync_send_req of gps/loc_api/loc_api_v02/loc_api_sync_req.c, with
-- what other threads do to the slots between their steps.
use android_device_lenovo_a.Base.{
  ℕ, Bool, true, false, not, Option, none, some, List, [], ◌∷◌, if◌then◌else◌, get_elem?,
}
use android_device_lenovo_a.SyncReq.Ops.{
  Ptr, Entry, SyncArray, modify, process_ind, free_slot, select_ind,
}

-- What another thread does between two steps of this one.
pub data Op : Type 0 where
  indication : Ptr → ℕ → Ptr → Op
  select : Ptr → ℕ → ℕ → Ptr → Op
  release : ℕ → Op
  set_waiting : ℕ → Bool → Op

abbrev pub with_waiting : Bool → Entry → Entry
with_waiting b e = record e { slot = record (e.slot) { ind_is_waiting = b } }

-- `slot->ind_is_waiting = b`
abbrev pub mark_waiting : ℕ → Bool → SyncArray → SyncArray
mark_waiting i b s = record s { entries = modify i (with_waiting b) s.entries }

unfoldable pub run_op : List (ℕ × ℕ) → Op → SyncArray → SyncArray
unfolding process_ind select_ind free_slot
run_op table (indication handle ind payload) s = (process_ind table handle ind payload s).0
run_op table (select handle ind req payload) s = (select_ind handle ind req payload s).1
run_op table (release i) s = free_slot i s
run_op table (set_waiting i b) s = mark_waiting i b s

unfoldable pub run_ops : List (ℕ × ℕ) → List Op → SyncArray → SyncArray
unfolding run_op
run_ops table [] s = s
run_ops table (o ∷ os) s = run_ops table os (run_op table o s)

-- The result of loc_sync_wait_for_ind: 0, -EINVAL, -EBUSY, -ETIMEDOUT.
pub data WaitResult : Type 0 where
  arrived einval ebusy etimedout : WaitResult

-- The body of the `do` block on slot `i`: `during` is what other threads do while it waits, and
-- `timed_out` whether pthread_cond_timedwait returns ETIMEDOUT.
unfoldable pub wait_body :
    List (ℕ × ℕ)
    → ℕ
    → (during : List Op) (timed_out : Bool) → Entry
    → SyncArray
    → WaitResult × SyncArray
unfolding run_ops
wait_body table i during timed_out e s =
    if e.slot.ind_has_arrived then (arrived, s) else if e.slot.ind_is_waiting then (ebusy, s) else (
      (if timed_out then etimedout else arrived),
      mark_waiting i false (run_ops table during (mark_waiting i true s)),
    )

unfoldable pub wait_entry :
    List (ℕ × ℕ)
    → ℕ
    → (during : List Op) (timed_out : Bool) → Option Entry
    → SyncArray
    → WaitResult × SyncArray
unfolding wait_body free_slot
wait_entry table i during timed_out none s = (einval, s)
wait_entry table i during timed_out (some e) s =
    if not e.slot_in_use
    then (einval, s)
    else (let (r, s') = wait_body table i during timed_out e s in (r, free_slot i s'))

-- A slot number out of range, and a slot that is not taken, are refused.
unfoldable pub wait_for_ind :
    List (ℕ × ℕ) → ℕ → (during : List Op) (timed_out : Bool) → SyncArray → WaitResult × SyncArray
unfolding wait_entry
wait_for_ind table i during timed_out s =
    wait_entry table i during timed_out (get_elem? s.entries i) s

-- locClientStatusEnumType, as far as it is distinguished here.
pub data Status : Type 0 where
  success failure_timeout failure_internal : Status
  failure : (code : ℕ) → Status

abbrev pub is_success : Status → Bool
is_success success = true
is_success _ = false

abbrev pub status_of : WaitResult → Status
status_of arrived = success
status_of etimedout = failure_timeout
status_of einval = failure_internal
status_of ebusy = failure_internal

-- What the platform and the other threads contribute to a request: what they do after the slot is
-- taken and before the wait, what locClientSendReq returns, and the wait.
pub record Course : Type 0 where
  pub before : List Op
  pub sent : Status
  pub during : List Op
  pub timed_out : Bool

abbrev pub send_selected : List (ℕ × ℕ) → Course → Option ℕ × SyncArray → Status × Bool × SyncArray
send_selected table c (none, s) = (success, false, s)
send_selected table c (some i, s) =
    let s₁ = run_ops table c.before s in
    if not (is_success c.sent)
    then (c.sent, true, free_slot i s₁)
    else (let (r, s₂) = wait_for_ind table i c.during c.timed_out s₁ in (status_of r, true, s₂))

-- The Boolean says whether the request was handed to locClientSendReq.
unfoldable pub send_req :
    List (ℕ × ℕ)
    → Course
    → (handle : Ptr) (req ind : ℕ) (payload : Ptr) → SyncArray
    → Status × Bool × SyncArray
unfolding select_ind run_ops free_slot wait_for_ind
send_req table c handle req ind payload s =
    send_selected table c (select_ind handle ind req payload s)
