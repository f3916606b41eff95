-- ===== src/MsgQ/Spec.antt =====
-- What a queue of gps/utils/msg_q.c stands for: the messages that wait, the oldest first.
use android_device_lenovo_a.Base.{
  ℕ, ◌+◌, ◌≡◌, ◌⊎◌, refl, Bool, true, false, Option, none, some, List, [], ◌∷◌, ◌++◌, arith, length,
  length-append,
}
use android_device_lenovo_a.LinkedList.Memory.{Ptr, null, Cells, Memory}
use android_device_lenovo_a.LinkedList.Ops.{ListState}
use android_device_lenovo_a.LinkedList.Spec.{Item, IsList, Listed}
use android_device_lenovo_a.MsgQ.Ops.{MsgQ, Op, send, receive, flush_all, unblock_all}

module _ {ℓ} {A : Type ℓ} where
  -- The list of linked_list.c has the youngest item at its head.
  abbrev pub reversed : List A → List A
  reversed [] = []
  reversed (c ∷ ws) = reversed ws ++ c ∷ []

  pub reversed-snoc : (ws : List A) (c : A) → reversed (ws ++ c ∷ []) ≡ c ∷ reversed ws
  reversed-snoc [] c = refl
  reversed-snoc (w ∷ ws) c = rw (reversed-snoc ws c) refl

  pub length-reversed : (ws : List A) → length (reversed ws) ≡ length ws
  length-reversed [] = refl
  length-reversed (w ∷ ws) = omega (arith, length-append (reversed ws) (w ∷ []), length-reversed ws)

  abbrev pub is_nil : List A → Bool
  is_nil [] = true
  is_nil (w ∷ ws) = false

module _ {S : Type 0} where
  -- The messages `ws` wait in `q`.
  pub record IsQueue (m : Memory S) (q : MsgQ) (ws : List (Item S)) : Type 0 where
    pub list : ListState
    pub at : q.msg_list ≡ some list
    pub is : IsList m.cells list (reversed ws)

  pub IsQueue-of_Listed :
      (m : Memory S) (q : MsgQ) (ws : List (Item S))
      → Listed m.cells q.msg_list (reversed ws)
      → IsQueue m q ws
  IsQueue-of_Listed m q ws h = go q.msg_list refl h
    where
      go : (l : Option ListState) → q.msg_list ≡ l → Listed m.cells l (reversed ws) → IsQueue m q ws
      go none e h = absurd h
      go (some l) e h = record { list = l; at = e; is = h }

  -- The documented behaviour of malloc: NULL, or memory that nothing uses.
  abbrev pub Allocates : (Cells S → Ptr) → Type 0
  Allocates malloc = (h : Cells S) → (malloc h ≡ null) ⊎ (h (malloc h) ≡ none)

  -- How many messages some operations put in at most.
  abbrev pub sends : List (Op S) → ℕ
  sends [] = 0
  sends (send d f ∷ os) = 1 + sends os
  sends (o ∷ os) = sends os

  pub sends-cons : (o : Op S) (os : List (Op S)) → sends (o ∷ os) ≡ sends (o ∷ []) + sends os
  sends-cons (send d f) os = refl
  sends-cons receive os = omega arith
  sends-cons flush_all os = omega arith
  sends-cons unblock_all os = omega arith

  -- The same for all that happens during the waits of a receiver.
  abbrev pub sends_all : List (List (Op S)) → ℕ
  sends_all [] = 0
  sends_all (os ∷ waits) = sends os + sends_all waits
