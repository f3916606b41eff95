-- ===== src/MsgQ/Send.antt =====
-- msg_q_snd, msg_q_flush and msg_q_unblock of gps/utils/msg_q.c.
use android_device_lenovo_a.Base.{
  ℕ, ◌<◌, ◌≡◌, ◌≢◌, ◌⊎◌, inl, inr, refl, true, false, Option, none, some, List, [], ◌∷◌, ◌++◌,
  arith, length, Bool-cases, ◌==◌,
}
use android_device_lenovo_a.Base.Run.{ok, Returns, returns, Returns-bind}
use android_device_lenovo_a.LinkedList.Memory.{Ptr, null, DeallocFunc, Cells, Memory}
use android_device_lenovo_a.LinkedList.Memory.Laws.{ne_null}
use android_device_lenovo_a.LinkedList.Add.{add-cons, add-null}
use android_device_lenovo_a.LinkedList.Flush.{Flushed, flush-Flushed}
use android_device_lenovo_a.LinkedList.Spec.{Item, item}
use android_device_lenovo_a.MsgQ.Ops.{
  Err, success, failure_general, unavailable_resource, MsgQ, signal, snd, flush,
  convert_linked_list_err_type,
}
use android_device_lenovo_a.MsgQ.Spec.{
  reversed, reversed-snoc, length-reversed, IsQueue, IsQueue-of_Listed, Allocates,
}

module _ {S : Type 0} where
  -- What msg_q_snd leaves behind on a queue that is not unblocked.
  pub data Sent (ws : List (Item S)) (d : Ptr) (f : DeallocFunc S) (m : Memory S) (q : MsgQ)
      : Err × Option MsgQ → Memory S → Type 0 where
    queued :
        (a : Ptr) {m' : Memory S} {q' : MsgQ}
        → IsQueue m' q' (ws ++ item a d f ∷ [])
        → q'.unblocked ≡ false
        → q'.list_cond ≡ signal ∷ q.list_cond
        → m'.env ≡ m.env
        → Sent ws d f m q (success, some q') m'
    no_memory :
        {q' : MsgQ}
        → IsQueue m q' ws
        → q'.unblocked ≡ false
        → q'.list_cond ≡ signal ∷ q.list_cond
        → Sent ws d f m q (failure_general, some q') m

  malloc-cases :
      (malloc : Cells S → Ptr) (h : Cells S)
      → Allocates malloc
      → (malloc h ≡ null) ⊎ ((malloc h ≢ null) × (h (malloc h) ≡ none))
  malloc-cases malloc h alloc = elim (Bool-cases (malloc h == null)) [
    | inl z ↦ inl (ground arith)
    | inr nz ↦ inr (ground arith, ground (arith, alloc h))
  ]

  -- On a queue that is not unblocked msg_q_snd puts the message behind all others, or reports that
  -- memory has run out and leaves the messages and the heap as they are; it signals the condition
  -- variable either way.
  pub snd-Sent :
      (malloc : Cells S → Ptr) (m : Memory S) (q : MsgQ) (ws : List (Item S)) (d : Ptr)
      (f : DeallocFunc S)
      → Allocates malloc
      → IsQueue m q ws
      → q.unblocked ≡ false
      → d ≢ null
      → Returns (Sent ws d f m q) (snd malloc (some q) d f m)
  unfolding snd
  snd-Sent malloc m q ws d f alloc is open_ dn = elim (malloc-cases malloc m.cells alloc) [
    | inl out ↦
        simp (ne_null d dn, open_, is.at, out, add-null m is.list d f dn)
          (returns (no_memory (record { list = is.list; at = refl; is = is.is }) refl refl))
    | inr (fn, unused) ↦
        simp (ne_null d dn, open_, is.at)
          (Returns-bind _ (add-cons m is.list (reversed ws) (malloc m.cells) d f is.is dn fn unused)
            λ r m' post. rw post.0 (
              returns (
                queued (malloc m.cells)
                  (IsQueue-of_Listed m' _ _ (rw (reversed-snoc ws) post.1.listed)) refl refl
                  post.1.env)))
  ]

  -- Once the queue is unblocked msg_q_snd refuses every message, and changes nothing.
  pub snd-unblocked :
      (malloc : Cells S → Ptr) (m : Memory S) (q : MsgQ) (d : Ptr) (f : DeallocFunc S)
      → q.unblocked ≡ true
      → d ≢ null
      → snd malloc (some q) d f m ≡ ok (unavailable_resource, some q) m
  unfolding snd
  snd-unblocked malloc m q d f shut dn = rw (ne_null d dn, shut) refl

  -- msg_q_flush empties the queue and deallocates every message once, the youngest first; it does
  -- not change whether the queue is unblocked.
  pub flush-IsQueue :
      (fuel : ℕ) (m : Memory S) (q : MsgQ) (ws : List (Item S))
      → IsQueue m q ws
      → length ws < fuel
      → Returns
          (λ (err, q') m'.
            (err ≡ success)
            × ((q'' : MsgQ) × (q' ≡ some q'')
                × IsQueue m' q'' []
                × (q''.unblocked ≡ q.unblocked)
                × Flushed m (reversed ws) m'))
          (flush fuel (some q) m)
  unfolding flush convert_linked_list_err_type
  flush-IsQueue fuel m q ws is enough = rw is.at (
      Returns-bind _
        (flush-Flushed fuel m is.list (reversed ws) is.is (omega (arith, length-reversed ws)))
        λ r m' post.
          rw post.0 (returns (refl, (_, refl, IsQueue-of_Listed m' _ [] post.1, refl, post.2))))
