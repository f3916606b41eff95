-- ===== src/MsgQ/Receive.antt =====
-- msg_q_rcv of gps/utils/msg_q.c: the oldest message first, and what a wait comes to.
use android_device_lenovo_a.Base.{
  ◌≡◌, refl, true, false, Option, none, some, List, [], ◌∷◌, arith, if◌then◌else◌,
}
use android_device_lenovo_a.Base.Run.{Returns, returns, Returns-bind}
use android_device_lenovo_a.LinkedList.Memory.{Ptr, null, Memory}
use android_device_lenovo_a.LinkedList.Memory.Laws.{ne_null}
use android_device_lenovo_a.LinkedList.Chains.{first-snoc-ne}
use android_device_lenovo_a.LinkedList.Remove.{remove-snoc, remove-nil}
use android_device_lenovo_a.LinkedList.Spec.{Item}
use android_device_lenovo_a.MsgQ.Ops.{Err, success, unavailable_resource, MsgQ, is_ready, take}
use android_device_lenovo_a.MsgQ.Spec.{reversed, IsQueue, IsQueue-of_Listed, is_nil}

module _ {S : Type 0} where
  -- A receiver takes the oldest message.
  pub record Taken (c : Item S) (ws : List (Item S)) (m : Memory S) (q : MsgQ)
      (r : Err × Ptr × MsgQ) (m' : Memory S) : Type 0 where
    pub err : r.0 ≡ success
    pub msg : r.1 ≡ c.data_ptr
    pub queue : IsQueue m' r.2 ws
    pub unblocked : r.2.unblocked ≡ q.unblocked
    pub env : m'.env ≡ m.env

  pub take-cons :
      (m : Memory S) (q : MsgQ) (c : Item S) (ws : List (Item S)) (v : Ptr)
      → IsQueue m q (c ∷ ws)
      → Returns (Taken c ws m q) (take q v m)
  unfolding take
  take-cons m q c ws v is = rw is.at (
      Returns-bind _ (remove-snoc m is.list (reversed ws) c v is.is) λ r m' post. returns (record {
        err = rw post.err refl;
        msg = rw post.data_obj refl;
        queue = IsQueue-of_Listed m' _ ws post.outcome.listed;
        unblocked = refl;
        env = post.outcome.env;
      }))

  pub take-nil :
      (m : Memory S) (q : MsgQ) (v : Ptr)
      → IsQueue m q []
      → Returns
          (λ (err, v', q') m'.
            (err ≡ unavailable_resource)
            × (v' ≡ v)
            × IsQueue m' q' []
            × (q'.unblocked ≡ q.unblocked))
          (take q v m)
  unfolding take
  take-nil m q v is =
      rw (is.at, remove-nil m is.list v is.is)
        (returns (refl, refl, record { list = is.list; at = refl; is = is.is }, refl))

  -- A receiver need not wait exactly if a message is there or the queue is unblocked.
  pub is_ready-IsQueue :
      (m : Memory S) (q : MsgQ) (ws : List (Item S))
      → IsQueue m q ws
      → is_ready q ≡ (if is_nil ws then q.unblocked else true)
  unfolding is_ready
  is_ready-IsQueue m q [] is = rw (is.at, is.is.ends) (ground arith)
  is_ready-IsQueue m q (c ∷ ws) is =
      rw
        (is.at, is.is.ends, ne_null _ (first-snoc-ne m.cells null null (reversed ws) c is.is.chain))
        refl

  -- What a receiver that finds `ws` in the queue comes to; `v` is what `*msg_obj` was.
  pub data Received (v : Ptr)
      : List (Item S)
        → MsgQ
        → Memory S
        → Option Err × Option Ptr × Option MsgQ
        → Memory S
        → Type 0 where
    got :
        {c : Item S} {ws : List (Item S)} {m m' : Memory S} {q q' : MsgQ} {v' : Ptr} {e : Err}
        → Taken c ws m q (e, v', q') m'
        → Received v (c ∷ ws) q m (some e, some v', some q') m'
    none_left :
        {m m' : Memory S} {q q' : MsgQ}
        → q.unblocked ≡ true
        → IsQueue m' q' []
        → q'.unblocked ≡ true
        → Received v [] q m (some unavailable_resource, some v, some q') m'
    still_waits :
        {m : Memory S} {q : MsgQ} → q.unblocked ≡ false → Received v [] q m (none, some v, some q) m
