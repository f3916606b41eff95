-- ===== src/MsgQ/Fifo.antt =====
-- The queue of gps/utils/msg_q.c as its clients see it.
use android_device_lenovo_a.Base.{
  ℕ, ◌+◌, ◌<◌, ◌≤◌, suc, ◌≡◌, refl, sym, ap, ◌∙◌, Bool, true, false, Option, some, List, [], ◌∷◌,
  ◌++◌, map, ◌==◌, ◌||◌, not, if◌then◌else◌, arith, length, length-append, Bool-cases, inl, inr,
}
use android_device_lenovo_a.Base.Run.{Returns, returns, Returns-bind, Returns-mono}
use android_device_lenovo_a.LinkedList.Memory.{Ptr, null, DeallocFunc, Cells, Memory}
use android_device_lenovo_a.LinkedList.Spec.{Item, item}
use android_device_lenovo_a.MsgQ.Ops.{
  Err, MsgQ, Op, send, receive, flush_all, unblock_all, run_op, run_ops, is_ready, unblock, snd,
}
use android_device_lenovo_a.MsgQ.Spec.{IsQueue, Allocates, sends, sends-cons}
use android_device_lenovo_a.MsgQ.Send.{
  Sent, queued, no_memory, snd-Sent, snd-unblocked, flush-IsQueue,
}
use android_device_lenovo_a.MsgQ.Receive.{take-cons, take-nil, is_ready-IsQueue}

-- The messages that wait, the oldest first, and whether the queue is unblocked.
pub record View (S : Type 0) : Type 0 where
  pub messages : List (Ptr × DeallocFunc S)
  pub shut : Bool

module _ {S : Type 0} where
  abbrev pub message : Item S → Ptr × DeallocFunc S
  message c = (c.data_ptr, c.dealloc_func)

  abbrev pub behind_first : List (Ptr × DeallocFunc S) → List (Ptr × DeallocFunc S)
  behind_first [] = []
  behind_first (w ∷ ws) = ws

  -- What an operation does to the view. `memory` says whether there is memory for a message.
  abbrev pub view_op : (memory : Bool) → Op S → View S → View S
  view_op memory (send d f) v =
      if (d == null) || (v.shut || not memory)
      then v
      else record v { messages = v.messages ++ (d, f) ∷ [] }
  view_op memory receive v = record v { messages = behind_first v.messages }
  view_op memory flush_all v = record v { messages = [] }
  view_op memory unblock_all v = record v { shut = true }

  abbrev pub view_ops : List (Bool × Op S) → View S → View S
  view_ops [] v = v
  view_ops ((memory, o) ∷ os) v = view_ops os (view_op memory o v)

  -- The operations, with what memory there was.
  abbrev pub operations : List (Bool × Op S) → List (Op S)
  operations [] = []
  operations ((memory, o) ∷ os) = o ∷ operations os

  pub record Shows (v : View S) (q : MsgQ) (m : Memory S) : Type 0 where
    pub items : List (Item S)
    pub queue : IsQueue m q items
    pub messages : map message items ≡ v.messages
    pub shut : q.unblocked ≡ v.shut

module _ {S : Type 0} (malloc : Cells S → Ptr) (alloc : Allocates malloc) (fuel : ℕ) where
  length-map : (xs : List (Item S)) → length xs ≡ length (map message xs)
  length-map [] = refl
  length-map (x ∷ xs) = ap suc (length-map xs)

  map_append : (xs ys : List (Item S)) → map message (xs ++ ys) ≡ map message xs ++ map message ys
  map_append [] ys = refl
  map_append (x ∷ xs) ys = ap (λ zs. message x ∷ zs) (map_append xs ys)

  Sent-Shows :
      (d : Ptr) (f : DeallocFunc S) (v : View S) (m : Memory S) (q : MsgQ) (items : List (Item S))
      {r : Err × Option MsgQ} {m' : Memory S}
      → map message items ≡ v.messages
      → (d == null) ≡ false
      → v.shut ≡ false
      → Sent items d f m q r m'
      → (memory : Bool) × (q' : MsgQ) × (r.1 ≡ some q') × Shows (view_op memory (send d f) v) q' m'
  Sent-Shows d f v m q items e live open_ (queued a {m'} {q'} is u c env) = (
    true,
    q',
    refl,
    simp (live, open_)
        (record {
          items = items ++ item a d f ∷ [];
          queue = is;
          messages = map_append items (item a d f ∷ []) ∙ ap (λ ws. ws ++ (d, f) ∷ []) e;
          shut = u;
        }),
  )
  Sent-Shows d f v m q items e live open_ (no_memory {q'} is u c) = (
    false,
    q',
    refl,
    simp (live, open_) (record { items = items; queue = is; messages = e; shut = u ∙ sym open_ }),
  )

  -- The view after an operation, for some answer of malloc.
  abbrev pub Shown : Op S → View S → MsgQ → Memory S → Type 0
  Shown o v q m = (memory : Bool) × Shows (view_op memory o v) q m

  run_send-Shown :
      (d : Ptr) (f : DeallocFunc S) (m : Memory S) (q : MsgQ) (v : View S)
      → Shows v q m
      → Returns (Shown (send d f) v) (run_op malloc fuel (send d f) q m)
  unfolding run_op
  run_send-Shown d f m q v s = elim (Bool-cases (d == null)) [
    | inl z ↦ unfold snd in (rw z (returns (true, simp z s)))
    | inr nz ↦ elim (Bool-cases v.shut) [
      | inl shut ↦
          rw (snd-unblocked malloc m q d f (s.shut ∙ shut) (ground arith))
            (returns (true, simp (nz, shut) s))
      | inr open_ ↦
          Returns-bind _
            (snd-Sent malloc m q s.items d f alloc s.queue (s.shut ∙ open_) (ground arith))
            λ r m' post.
              let (memory, q', e, sh) = Sent-Shows d f v m q s.items s.messages nz open_ post in
              rw e (returns (memory, sh))
    ]
  ]

  run_receive-Shown :
      (m : Memory S) (q : MsgQ) (v : View S) (items : List (Item S))
      → IsQueue m q items
      → map message items ≡ v.messages
      → q.unblocked ≡ v.shut
      → Returns (Shown receive v) (run_op malloc fuel receive q m)
  unfolding run_op
  run_receive-Shown m q v [] is e shut = elim (Bool-cases (is_ready q)) [
    | inl r ↦ rw r (
        Returns-bind _ (take-nil m q null is) λ x m' post. returns (
          true,
          record { items = []; queue = post.2; messages = ap behind_first e; shut = post.3 ∙ shut },
        ))
    | inr n ↦ rw n (
        returns
          (true, record { items = []; queue = is; messages = ap behind_first e; shut = shut }))
  ]
  run_receive-Shown m q v (c ∷ ws) is e shut = rw (is_ready-IsQueue m q (c ∷ ws) is) (
      Returns-bind _ (take-cons m q c ws null is) λ x m' post. returns (
        true,
        record {
          items = ws;
          queue = post.queue;
          messages = ap behind_first e;
          shut = post.unblocked ∙ shut;
        },
      ))

  run_op-Shown :
      (o : Op S) (m : Memory S) (q : MsgQ) (v : View S)
      → Shows v q m
      → length v.messages < fuel
      → Returns (Shown o v) (run_op malloc fuel o q m)
  unfolding run_op
  run_op-Shown (send d f) m q v s enough = run_send-Shown d f m q v s
  run_op-Shown receive m q v s enough = run_receive-Shown m q v s.items s.queue s.messages s.shut
  run_op-Shown flush_all m q v s enough =
      let same : length s.items ≡ length v.messages = length-map s.items ∙ ap length s.messages in
      Returns-bind _ (flush-IsQueue fuel m q s.items s.queue (omega arith)) λ r m' post.
        let (q', e, empty, u, gone) = post.1 in
        rw e
          (returns (true, record { items = []; queue = empty; messages = refl; shut = u ∙ s.shut }))
  run_op-Shown unblock_all m q v s enough =
      unfold unblock in
      (elim (Bool-cases q.unblocked) [
        | inl shut ↦ simp shut (
            returns (
              true,
              record { items = s.items; queue = s.queue; messages = s.messages; shut = shut },
            ))
        | inr open_ ↦ simp open_ (
            returns (
              true,
              record {
                items = s.items;
                queue = record { list = s.queue.list; at = s.queue.at; is = s.queue.is };
                messages = s.messages;
                shut = refl;
              },
            ))
      ])

  view_op-le :
      (memory : Bool) (o : Op S) (v : View S)
      → length (view_op memory o v).messages ≤ sends (o ∷ []) + length v.messages
  view_op-le memory (send d f) v = ground (arith, length-append v.messages ((d, f) ∷ []))
  view_op-le memory receive v = shorter v.messages
    where
      shorter : (ws : List (Ptr × DeallocFunc S)) → length (behind_first ws) ≤ 0 + length ws
      shorter [] = omega arith
      shorter (w ∷ ws) = omega arith
  view_op-le memory flush_all v = omega arith
  view_op-le memory unblock_all v = omega arith

  -- With fuel for every message, any operations on a queue end without a fault and do to it what
  -- `view_ops` does to a list of messages, for some answers of malloc: a send appends behind, unless
  -- the message is NULL, the queue is unblocked or there is no memory; a receiver that need not wait
  -- takes the first; a flush takes all; and an unblocked queue stays so.
  pub run_ops-Shows :
      (os : List (Op S)) (m : Memory S) (q : MsgQ) (v : View S)
      → Shows v q m
      → sends os + length v.messages < fuel
      → Returns
          (λ q' m'.
            (with_memory : List (Bool × Op S)) × (operations with_memory ≡ os)
            × Shows (view_ops with_memory v) q' m')
          (run_ops malloc fuel os q m)
  unfolding run_ops
  run_ops-Shows [] m q v s enough = returns ([], refl, s)
  run_ops-Shows (o ∷ os) m q v s enough =
      Returns-bind _ (run_op-Shown o m q v s (omega (arith, sends-cons o os))) λ q' m' (memory, s').
        Returns-mono
          (run_ops-Shows os m' q' (view_op memory o v) s'
            (omega (arith, view_op-le memory o v, sends-cons o os)))
          λ q'' m'' (rest, same, s''). ((memory, o) ∷ rest, ap (λ xs. o ∷ xs) same, s'')
