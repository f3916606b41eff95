-- ===== src/MsgQ/Init.antt =====
-- msg_q_init, msg_q_init2 and msg_q_destroy of gps/utils/msg_q.c, with the resources that they take
-- and give back.
use android_device_lenovo_a.Base.{
  ℕ, ◌+◌, ◌-◌, ◌<◌, ◌≡◌, refl, Bool, true, false, ◌&&◌, not, Option, none, some, List, [], arith,
  length, if◌then◌else◌,
}
use android_device_lenovo_a.Base.Run.{fault, Cmd, pure, ◌>>◌, Returns, returns, Returns-bind}
use android_device_lenovo_a.LinkedList.Memory.{null, Memory}
use android_device_lenovo_a.LinkedList.Ops as LinkedList
use android_device_lenovo_a.LinkedList.Ops.{ListState, list_state}
use android_device_lenovo_a.LinkedList.Flush.{Flushed, destroy-Flushed}
use android_device_lenovo_a.LinkedList.Spec.{Item}
use android_device_lenovo_a.MsgQ.Ops.{
  Err, success, failure_general, invalid_parameter, invalid_handle, MsgQ,
}
use android_device_lenovo_a.MsgQ.Spec.{IsQueue, reversed, length-reversed}

-- Which calls of the platform succeed.
pub record Platform : Type 0 where
  pub calloc_queue : Bool
  pub calloc_list : Bool
  pub mutex_init : Bool
  pub cond_init : Bool

-- How many of each are live.
pub record Resources : Type 0 where
  pub queues : ℕ
  pub lists : ℕ
  pub mutexes : ℕ
  pub conds : ℕ

abbrev is_success : LinkedList.Err → Bool
is_success LinkedList.success = true
is_success _ = false

abbrev handle_of : Option (Option ListState) → Option ListState
handle_of none = none
handle_of (some l) = l

-- The list is destroyed while it is still empty, which frees its `list_state`.
unfoldable pub init :
    Platform → Option (Option MsgQ) → Resources → Err × Option (Option MsgQ) × Resources
unfolding LinkedList.init
init p none r = (invalid_parameter, none, r)
init p (some h) r =
    if not p.calloc_queue
    then (failure_general, some h, r)
    else let r₁ : Resources = record r { queues = r.queues + 1 } in
      let (err, list) = LinkedList.init p.calloc_list (some none) in
      if not (is_success err)
      then (failure_general, some h, record r₁ { queues = r₁.queues - 1 })
      else let r₂ : Resources = record r₁ { lists = r₁.lists + 1 } in
        if not p.mutex_init
        then (failure_general, some h, record r₂ { lists = r₂.lists - 1; queues = r₂.queues - 1 })
        else let r₃ : Resources = record r₂ { mutexes = r₂.mutexes + 1 } in
          if not p.cond_init
          then (
            failure_general,
            some h,
            record r₃ { lists = r₃.lists - 1; mutexes = r₃.mutexes - 1; queues = r₃.queues - 1 },
          )
          else (
            success,
            some (some (record { msg_list = handle_of list; list_cond = []; unblocked = false })),
            record r₃ { conds = r₃.conds + 1 },
          )

-- `q` is set to NULL again unless the initialisation succeeded.
abbrev created : Err × Option (Option MsgQ) × Resources → Option MsgQ × Resources
created (success, some q, r) = (q, r)
created (_, _, r) = (none, r)

-- msg_q_init2 returns the new queue, or NULL.
unfoldable pub init2 : Platform → Resources → Option MsgQ × Resources
unfolding init
init2 p r = created (init p (some none) r)

module _ {S : Type 0} where
  -- A NULL queue behind the handle is a fault: its mutex is destroyed.
  unfoldable pub destroy :
      (fuel : ℕ)
      → Option (Option MsgQ)
      → Resources
      → Cmd (Memory S) (Err × Option (Option MsgQ) × Resources)
  destroy fuel none r = pure (invalid_handle, none, r)
  destroy fuel (some none) r = λ m. fault
  destroy fuel (some (some q)) r = do
    LinkedList.destroy fuel (some q.msg_list)
    pure (
      success,
      some none,
      record {
        queues = r.queues - 1;
        lists = r.lists - 1;
        mutexes = r.mutexes - 1;
        conds = r.conds - 1;
      },
    )

abbrev pub new_queue : MsgQ
new_queue = record { msg_list = some (list_state null null); list_cond = []; unblocked = false }

abbrev pub all_succeed : Platform → Bool
all_succeed p = p.calloc_queue && (p.calloc_list && (p.mutex_init && p.cond_init))

abbrev pub with_queue : Resources → Resources
with_queue r = record {
  queues = r.queues + 1;
  lists = r.lists + 1;
  mutexes = r.mutexes + 1;
  conds = r.conds + 1;
}

-- msg_q_init succeeds exactly if all its calls do, and then holds one of each resource and hands
-- out a new queue that is not unblocked. Otherwise it has given back all that it took, and leaves
-- the caller's handle alone.
pub init-balanced :
    (p : Platform) (h : Option MsgQ) (r : Resources)
    → init p (some h) r ≡ (
        if all_succeed p
        then (success, some (some new_queue), with_queue r)
        else (failure_general, some h, r))
unfolding init
init-balanced p h r = ground arith

-- The new queue holds no message, whatever the heap.
pub new_queue-IsQueue : {S : Type 0} (m : Memory S) → IsQueue m new_queue []
new_queue-IsQueue m = record {
  list = list_state null null;
  at = refl;
  is = record { chain = tt; ends = refl };
}

-- With fuel for every message, msg_q_destroy gives back the four resources of a queue, deallocates
-- every message that still waits, frees the elements that held them, and clears the handle.
pub destroy-releases :
    {S : Type 0} (fuel : ℕ) (m : Memory S) (q : MsgQ) (ws : List (Item S)) (r : Resources)
    → IsQueue m q ws
    → length ws < fuel
    → Returns
        (λ (err, h, r') m'.
          (err ≡ success) × (h ≡ some none) × (r' ≡ r) × Flushed m (reversed ws) m')
        (destroy fuel (some (some q)) (with_queue r) m)
unfolding destroy
destroy-releases fuel m q ws r is enough = rw is.at (
    Returns-bind _
      (destroy-Flushed fuel m is.list (reversed ws) is.is (omega (arith, length-reversed ws)))
      λ x m' post. returns (refl, refl, ground arith, post.2))
