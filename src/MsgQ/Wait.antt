-- ===== src/MsgQ/Wait.antt =====
-- The waits of msg_q_rcv of gps/utils/msg_q.c, with other threads at work meanwhile.
use android_device_lenovo_a.Base.{
  ℕ, ◌+◌, ◌<◌, ◌≤◌, ◌≡◌, ◌⊎◌, inl, inr, refl, Bool, true, false, Option, some, List, [], ◌∷◌, arith,
  length, length-append, Bool-cases, ◌==◌, sym, ◌∙◌, ap,
}
use android_device_lenovo_a.Base.Run.{Run, ok, Returns, returns, Returns-bind, Returns-mono}
use android_device_lenovo_a.LinkedList.Memory.{Ptr, null, DeallocFunc, Cells, Memory}
use android_device_lenovo_a.LinkedList.Spec.{Item, item}
use android_device_lenovo_a.MsgQ.Ops.{
  Err, success, MsgQ, is_ready, snd, unblock, Op, send, receive, flush_all, unblock_all, run_op,
  run_ops, wait_loop, finish, rcv,
}
use android_device_lenovo_a.MsgQ.Spec.{is_nil, IsQueue, Allocates, sends, sends-cons, sends_all}
use android_device_lenovo_a.MsgQ.Send.{
  Sent, queued, no_memory, snd-Sent, snd-unblocked, flush-IsQueue,
}
use android_device_lenovo_a.MsgQ.Receive.{
  take-cons, take-nil, is_ready-IsQueue, Received, got, none_left, still_waits,
}

Returns-cases :
    {W A : Type 0} {P : A → W → Type 0} {r : Run W A}
    → Returns P r
    → (a : A) × (w : W) × (r ≡ ok a w) × P a w
Returns-cases (returns p) = (_, _, refl, p)

module _ {S : Type 0} where
  -- The queue is still one, with at most `bound` messages.
  record Kept (bound : ℕ) (q : MsgQ) (m : Memory S) : Type 0 where
    left : List (Item S)
    queue : IsQueue m q left
    few : length left ≤ bound

  Kept-snd :
      (ws : List (Item S)) (d : Ptr) (f : DeallocFunc S) (m : Memory S) (q : MsgQ)
      {r : Err × Option MsgQ} {m' : Memory S}
      → Sent ws d f m q r m'
      → (q' : MsgQ) × (r.1 ≡ some q') × Kept (1 + length ws) q' m'
  Kept-snd ws d f m q (queued a {q'} is u c e) = (
    q',
    refl,
    record { left = _; queue = is; few = omega (arith, length-append ws (item a d f ∷ [])) },
  )
  Kept-snd ws d f m q (no_memory {q'} is u c) =
      (q', refl, record { left = ws; queue = is; few = omega arith })

module _ {S : Type 0} (malloc : Cells S → Ptr) (alloc : Allocates malloc) (fuel : ℕ) where
  run_op-Kept :
      (o : Op S) (m : Memory S) (q : MsgQ) (ws : List (Item S))
      → IsQueue m q ws
      → length ws < fuel
      → Returns (Kept (sends (o ∷ []) + length ws)) (run_op malloc fuel o q m)
  unfolding run_op
  run_op-Kept (send d f) m q ws is enough = elim (Bool-cases (d == null)) [
    | inl z ↦ unfold snd in (rw z (returns (record { left = ws; queue = is; few = omega arith })))
    | inr nz ↦ elim (Bool-cases q.unblocked) [
      | inl shut ↦
          rw (snd-unblocked malloc m q d f shut (ground arith))
            (returns (record { left = ws; queue = is; few = omega arith }))
      | inr open_ ↦
          Returns-bind _ (snd-Sent malloc m q ws d f alloc is open_ (ground arith))
            λ r m' post. let (q', e, kept) = Kept-snd ws d f m q post in rw e (returns kept)
    ]
  ]
  run_op-Kept receive m q [] is enough = elim (Bool-cases (is_ready q)) [
    | inl r ↦ rw r (
        Returns-bind _ (take-nil m q null is)
          λ x m' post. returns (record { left = []; queue = post.2; few = omega arith }))
    | inr n ↦ rw n (returns (record { left = []; queue = is; few = omega arith }))
  ]
  run_op-Kept receive m q (c ∷ ws) is enough = rw (is_ready-IsQueue m q (c ∷ ws) is) (
      Returns-bind _ (take-cons m q c ws null is)
        λ x m' post. returns (record { left = ws; queue = post.queue; few = omega arith }))
  run_op-Kept flush_all m q ws is enough =
      Returns-bind _ (flush-IsQueue fuel m q ws is enough) λ r m' post.
        let (q', e, empty, u, gone) = post.1 in
        rw e (returns (record { left = []; queue = empty; few = omega arith }))
  run_op-Kept unblock_all m q ws is enough =
      unfold unblock in
      (elim (Bool-cases q.unblocked) [
        | inl shut ↦ simp shut (returns (record { left = ws; queue = is; few = omega arith }))
        | inr open_ ↦ simp open_ (
            returns (record {
              left = ws;
              queue = record { list = is.list; at = is.at; is = is.is };
              few = omega arith;
            }))
      ])

  run_ops-Kept :
      (os : List (Op S)) (m : Memory S) (q : MsgQ) (ws : List (Item S))
      → IsQueue m q ws
      → sends os + length ws < fuel
      → Returns (Kept (sends os + length ws)) (run_ops malloc fuel os q m)
  unfolding run_ops
  run_ops-Kept [] m q ws is enough = returns (record { left = ws; queue = is; few = omega arith })
  run_ops-Kept (o ∷ os) m q ws is enough =
      Returns-bind _ (run_op-Kept o m q ws is (omega (arith, sends-cons o os))) λ q' m' kept.
        Returns-mono
          (run_ops-Kept os m' q' kept.left kept.queue (omega (arith, kept.few, sends-cons o os)))
          λ q'' m'' kept'. record {
            left = kept'.left;
            queue = kept'.queue;
            few = omega (arith, kept'.few, kept.few, sends-cons o os);
          }

  -- The queue and its messages that a receiver finds when it stops to wait, with the operations that
  -- run at its waits: it waits exactly while the queue is empty and not unblocked.
  pub data Woken
      : List (List (Op S)) → MsgQ → Memory S → List (Item S) → MsgQ → Memory S → Type 0 where
    over :
        {waits : List (List (Op S))} {m : Memory S} {q : MsgQ} {ws : List (Item S)}
        → IsQueue m q ws
        → (is_nil ws ≡ false) ⊎ (q.unblocked ≡ true)
        → Woken waits q m ws q m
    asleep : {m : Memory S} {q : MsgQ} → IsQueue m q [] → q.unblocked ≡ false → Woken [] q m [] q m
    wakes :
        {os : List (Op S)} {waits : List (List (Op S))} {m m' m'' : Memory S} {q q' q'' : MsgQ}
        {ws : List (Item S)}
        → IsQueue m q []
        → q.unblocked ≡ false
        → run_ops malloc fuel os q m ≡ ok q' m'
        → Woken waits q' m' ws q'' m''
        → Woken (os ∷ waits) q m ws q'' m''

  is_over :
      (m : Memory S) (q : MsgQ) (ws : List (Item S))
      → IsQueue m q ws
      → is_ready q ≡ true
      → (is_nil ws ≡ false) ⊎ (q.unblocked ≡ true)
  is_over m q [] is r = inr (sym (is_ready-IsQueue m q [] is) ∙ r)
  is_over m q (c ∷ ws) is r = inl refl

  not_over :
      (m : Memory S) (q : MsgQ) (ws : List (Item S))
      → IsQueue m q ws
      → is_ready q ≡ false
      → IsQueue m q [] × (q.unblocked ≡ false)
  not_over m q [] is r = (is, sym (is_ready-IsQueue m q [] is) ∙ r)
  not_over m q (c ∷ ws) is r = absurd (cc (is_ready-IsQueue m q (c ∷ ws) is))

  -- What the wait leaves.
  record Waited (waits : List (List (Op S))) (m : Memory S) (q : MsgQ) (r : Bool × MsgQ)
      (m' : Memory S) : Type 0 where
    messages : List (Item S)
    ready : r.0 ≡ is_ready r.1
    queue : IsQueue m' r.1 messages
    woken : Woken waits q m messages r.1 m'

  wait_loop-Waited :
      (waits : List (List (Op S))) (m : Memory S) (q : MsgQ) (ws : List (Item S))
      → IsQueue m q ws
      → sends_all waits + length ws < fuel
      → Returns (Waited waits m q) (wait_loop malloc fuel waits q m)
  unfolding wait_loop
  wait_loop-Waited [] m q ws is enough = elim (Bool-cases (is_ready q)) [
    | inl r ↦
        returns (record {
          messages = ws;
          ready = refl;
          queue = is;
          woken = over is (is_over m q ws is r);
        })
    | inr n ↦
        let (empty, open_) = not_over m q ws is n in
        returns (record { messages = []; ready = refl; queue = empty; woken = asleep empty open_ })
  ]
  wait_loop-Waited (os ∷ waits) m q ws is enough = elim (Bool-cases (is_ready q)) [
    | inl r ↦ rw r (
        returns (record {
          messages = ws;
          ready = sym r;
          queue = is;
          woken = over is (is_over m q ws is r);
        }))
    | inr n ↦
        let (empty, open_) = not_over m q ws is n in
        let (q', m', ran, kept) = Returns-cases (run_ops-Kept os m q ws is (omega arith)) in
        rw (n, ran)
          (Returns-mono
            (wait_loop-Waited waits m' q' kept.left kept.queue (omega (arith, kept.few)))
            λ r m'' w. record {
              messages = w.messages;
              ready = w.ready;
              queue = w.queue;
              woken = wakes empty open_ ran w.woken;
            })
  ]

  wait_loop-ready :
      (waits : List (List (Op S))) (m : Memory S) (q : MsgQ)
      → is_ready q ≡ true
      → wait_loop malloc fuel waits q m ≡ ok (true, q) m
  unfolding wait_loop
  wait_loop-ready [] m q r = rw r refl
  wait_loop-ready (os ∷ waits) m q r = rw r refl

  finish-Received :
      (v : Ptr) (m : Memory S) (q : MsgQ) (ws : List (Item S))
      → IsQueue m q ws
      → Returns (Received v ws q m) (finish v (is_ready q) q m)
  unfolding finish
  finish-Received v m q [] is = elim (Bool-cases (is_ready q)) [
    | inl r ↦
        let shut : q.unblocked ≡ true = sym (is_ready-IsQueue m q [] is) ∙ r in
        rw r (
          Returns-bind _ (take-nil m q v is)
            λ x m' post. rw (post.0, post.1) (returns (none_left shut post.2 (post.3 ∙ shut))))
    | inr n ↦ rw n (returns (still_waits (sym (is_ready-IsQueue m q [] is) ∙ n)))
  ]
  finish-Received v m q (c ∷ ws) is =
      rw (is_ready-IsQueue m q (c ∷ ws) is)
        (Returns-bind _ (take-cons m q c ws v is) λ r m' post. returns (got post))

  -- Where malloc returns NULL or unused memory, on a queue that is not unblocked, with fuel for
  -- every message that is in it or sent, whatever the other threads do while a receiver waits,
  -- msg_q_rcv ends without a fault, or still waits. It waits exactly while the queue is empty and
  -- not unblocked; from the queue that it then finds it takes the oldest message, or, if there is
  -- none and the queue is unblocked, reports that and leaves `*msg_obj` as it was.
  pub rcv-Received :
      (waits : List (List (Op S))) (m : Memory S) (q : MsgQ) (ws : List (Item S)) (v : Ptr)
      → IsQueue m q ws
      → q.unblocked ≡ false
      → sends_all waits + length ws < fuel
      → Returns
          (λ r m'.
            (found : List (Item S)) × (q₁ : MsgQ) × (m₁ : Memory S) × Woken waits q m found q₁ m₁
            × Received v found q₁ m₁ r m')
          (rcv malloc fuel waits (some q) (some v) m)
  unfolding rcv
  rcv-Received waits m q ws v is open_ enough = simp open_ (
      Returns-bind _ (wait_loop-Waited waits m q ws is enough) λ r m' w. rw w.ready (
        Returns-mono (finish-Received v m' r.1 w.messages w.queue)
          λ out m'' post. (w.messages, r.1, m', w.woken, post)))

  -- If a message is there, msg_q_rcv takes the oldest at once, and leaves the others in their order.
  pub rcv-oldest :
      (waits : List (List (Op S))) (m : Memory S) (q : MsgQ) (c : Item S) (ws : List (Item S))
      (v : Ptr)
      → IsQueue m q (c ∷ ws)
      → q.unblocked ≡ false
      → Returns
          (λ (err, out, q') m'.
            (err ≡ some success)
            × (out ≡ some c.data_ptr)
            × ((q'' : MsgQ) × (q' ≡ some q'') × IsQueue m' q'' ws × (q''.unblocked ≡ false))
            × (m'.env ≡ m.env))
          (rcv malloc fuel waits (some q) (some v) m)
  unfolding rcv finish
  rcv-oldest waits m q c ws v is open_ =
      simp (open_, wait_loop-ready waits m q (rw (is_ready-IsQueue m q (c ∷ ws) is) refl))
        (Returns-bind _ (take-cons m q c ws v is) λ r m' post. returns (
          ap some post.err,
          ap some post.msg,
          (r.2, refl, post.queue, post.unblocked ∙ open_),
          post.env,
        ))
