-- ===== src/MsgQ/Ops.antt =====
-- The functions of gps/utils/msg_q.c on a queue and the heap. A mutex makes each of them one step,
-- but for the waits of msg_q_rcv: at a wait the other threads run. `none` for a queue is a `NULL`
-- handle, `none` for an out-parameter a `NULL` address.
use android_device_lenovo_a.Base.{
  ℕ, Bool, true, false, Option, none, some, List, [], ◌∷◌, ◌==◌, if◌then◌else◌, ◌&&◌, not,
}
use android_device_lenovo_a.Base.Int.{truth}
use android_device_lenovo_a.Base.Run.{Cmd, pure, ◌>>=◌}
use android_device_lenovo_a.LinkedList.Memory.{Ptr, null, DeallocFunc, Cells, Memory}
use android_device_lenovo_a.LinkedList.Ops as LinkedList
use android_device_lenovo_a.LinkedList.Ops.{ListState}

pub data Err : Type 0 where
  success failure_general invalid_parameter invalid_handle : Err
  unavailable_resource insufficient_buffer : Err

unfoldable pub convert_linked_list_err_type : LinkedList.Err → Err
convert_linked_list_err_type LinkedList.success = success
convert_linked_list_err_type LinkedList.invalid_parameter = invalid_parameter
convert_linked_list_err_type LinkedList.invalid_handle = invalid_handle
convert_linked_list_err_type LinkedList.unavailable_resource = unavailable_resource
convert_linked_list_err_type LinkedList.insufficient_buffer = insufficient_buffer
convert_linked_list_err_type LinkedList.failure_general = failure_general

-- What was done to the condition variable `list_cond`.
pub data Wake : Type 0 where
  signal broadcast : Wake

pub record MsgQ : Type 0 where
  pub msg_list : Option ListState
  pub list_cond : List Wake
  pub unblocked : Bool

unfoldable pub unblock : Option MsgQ → Err × Option MsgQ
unblock none = (invalid_handle, none)
unblock (some q) =
    if q.unblocked
    then (unavailable_resource, some q)
    else (success, some (record q { unblocked = true; list_cond = broadcast ∷ q.list_cond }))

-- `!(linked_list_empty(list) && !unblocked)`: the test that ends the wait of a receiver.
unfoldable pub is_ready : MsgQ → Bool
unfolding LinkedList.empty
is_ready q = not (truth (LinkedList.empty q.msg_list) && not q.unblocked)

module _ {S : Type 0} where
  unfoldable pub flush : (fuel : ℕ) → Option MsgQ → Cmd (Memory S) (Err × Option MsgQ)
  unfolding convert_linked_list_err_type
  flush fuel none = pure (invalid_handle, none)
  flush fuel (some q) = do
    (err, list) ← LinkedList.flush fuel q.msg_list
    pure (convert_linked_list_err_type err, some (record q { msg_list = list }))

  -- What msg_q_rcv does once it need not wait.
  unfoldable pub take : MsgQ → (msg_obj : Ptr) → Cmd (Memory S) (Err × Ptr × MsgQ)
  unfolding convert_linked_list_err_type
  take q v = do
    (err, out, list) ← LinkedList.remove q.msg_list (some v)
    pure (
      convert_linked_list_err_type err,
      (elim out [ none ↦ v | some d ↦ d ]),
      record q { msg_list = list },
    )

  -- The end of msg_q_rcv; `none` for the error says that the receiver still waits.
  unfoldable pub finish :
      (msg_obj : Ptr) → Bool → MsgQ → Cmd (Memory S) (Option Err × Option Ptr × Option MsgQ)
  finish v false q' = pure (none, some v, some q')
  finish v true q' = do (err, v', q'') ← take q' v; pure (some err, some v', some q'')

-- What another thread does to the queue while a receiver waits.
pub data Op (S : Type 0) : Type 0 where
  send : Ptr → DeallocFunc S → Op S
  receive : Op S
  flush_all : Op S
  unblock_all : Op S

abbrev pub or_else : Option MsgQ → MsgQ → MsgQ
or_else none q = q
or_else (some q') q = q'

module _ {S : Type 0} (malloc : Cells S → Ptr) where
  unfoldable pub snd :
      Option MsgQ → (msg_obj : Ptr) → DeallocFunc S → Cmd (Memory S) (Err × Option MsgQ)
  unfolding convert_linked_list_err_type
  snd none msg_obj dealloc = pure (invalid_handle, none)
  snd (some q) msg_obj dealloc =
      if msg_obj == null
      then pure (invalid_parameter, some q)
      else if q.unblocked
      then pure (unavailable_resource, some q)
      else λ m.
          (do
            (err, list) ← LinkedList.add (malloc m.cells) q.msg_list msg_obj dealloc
            pure (
              convert_linked_list_err_type err,
              some (record q { msg_list = list; list_cond = signal ∷ q.list_cond }),
            ))
            m

module _ {S : Type 0} (malloc : Cells S → Ptr) (fuel : ℕ) where
  -- A receiver that is not ready goes on waiting.
  unfoldable pub run_op : Op S → MsgQ → Cmd (Memory S) MsgQ
  run_op (send d f) q = do (_, q') ← snd malloc (some q) d f; pure (or_else q' q)
  run_op receive q = if is_ready q then (do (_, _, q') ← take q null; pure q') else pure q
  run_op flush_all q = do (_, q') ← flush fuel (some q); pure (or_else q' q)
  run_op unblock_all q = pure (or_else (unblock (some q)).1 q)

  unfoldable pub run_ops : List (Op S) → MsgQ → Cmd (Memory S) MsgQ
  run_ops [] q = pure q
  run_ops (o ∷ os) q = do q' ← run_op o q; run_ops os q'

  -- The loop of msg_q_rcv: at each wait other threads run some operations, and the receiver wakes,
  -- for whatever reason. The Boolean says whether the wait is over when the schedule `waits` ends.
  unfoldable pub wait_loop : List (List (Op S)) → MsgQ → Cmd (Memory S) (Bool × MsgQ)
  wait_loop [] q = pure (is_ready q, q)
  wait_loop (os ∷ waits) q =
      if is_ready q then pure (true, q) else do q' ← run_ops os q; wait_loop waits q'

  unfoldable pub rcv :
      (waits : List (List (Op S)))
      → Option MsgQ
      → (msg_obj : Option Ptr) → Cmd (Memory S) (Option Err × Option Ptr × Option MsgQ)
  unfolding wait_loop finish
  rcv waits none out = pure (some invalid_handle, out, none)
  rcv waits (some q) none = pure (some invalid_parameter, none, some q)
  rcv waits (some q) (some v) =
      if q.unblocked
      then pure (some unavailable_resource, some v, some q)
      else do (ready, q') ← wait_loop waits q; finish v ready q'
