-- ===== src/LocHeap/Bag.antt =====
-- The heap of gps/utils/LocHeap.cpp as its clients see it: a bag of objects, from which a pop takes
-- one that no other outranks.
use android_device_lenovo_a.Base.{
  ℕ, ◌+◌, ◌<◌, ◌≡◌, refl, Bool, true, false, Option, none, some, List, [], ◌∷◌, arith,
}
use android_device_lenovo_a.LocHeap.Node.{
  Rankable, Tree, nil, node, Op, push_op, pop_op, peek_op, remove_op, check_nodes, run_op, run_ops,
}
use android_device_lenovo_a.LocHeap.Order.{
  IsRanking, one, times, IsHeap, IsHeap-Tops, IsHeap-check_nodes, check_nodes-IsHeap, irreflexive,
}
use android_device_lenovo_a.LocHeap.Push.{times-push_node, push_node-IsHeap}
use android_device_lenovo_a.LocHeap.Pop.{popped-pop_node, times-pop_node, pop_node-IsHeap}
use android_device_lenovo_a.LocHeap.Remove.{
  Removed, found, absent, remove_node-Removed, remove_node-IsHeap,
}

-- How often each object is in the bag.
abbrev pub Bag : Type 0
Bag = Rankable → ℕ

abbrev pub contents : Tree → Bag
contents t = λ y. times y t

abbrev pub Same : Bag → Bag → Type 0
Same b b' = (y : Rankable) → b y ≡ b' y

-- `b'` and one `x` more.
abbrev pub With : Rankable → Bag → Bag → Type 0
With x b' b = (y : Rankable) → b y ≡ b' y + one y x

module _ (out_ranks : Rankable → Rankable → Bool) where
  -- No object of the bag outranks `x`.
  abbrev pub Highest : Rankable → Bag → Type 0
  Highest x b = (y : Rankable) → 0 < b y → out_ranks y x ≡ false

  -- What an operation may return on a bag, and the bag that it may leave.
  pub data Serves (b b' : Bag) : Op → Option Rankable → Type 0 where
    pushed : {x : Rankable} → With x b b' → Serves b b' (push_op x) none
    popped : {x : Rankable} → With x b' b → Highest x b → Serves b b' pop_op (some x)
    pop_empty : Same b (λ y. 0) → Same b' b → Serves b b' pop_op none
    peeked : {x : Rankable} → 0 < b x → Highest x b → Same b' b → Serves b b' peek_op (some x)
    peek_empty : Same b (λ y. 0) → Same b' b → Serves b b' peek_op none
    removed : {x : Rankable} → With x b' b → Serves b b' (remove_op x) (some x)
    not_there : {x : Rankable} → b x ≡ 0 → Same b' b → Serves b b' (remove_op x) none

  pub data Served : Bag → List Op → List (Option Rankable) → Bag → Type 0 where
    done : {b : Bag} → Served b [] [] b
    next :
        {b b' b'' : Bag} {o : Op} {os : List Op} {r : Option Rankable} {rs : List (Option Rankable)}
        → Serves b b' o r
        → Served b' os rs b''
        → Served b (o ∷ os) (r ∷ rs) b''

  module _ (rank : IsRanking out_ranks) where
    top-Highest :
        (s : ℕ) (l r : Tree) (d : Rankable)
        → IsHeap out_ranks (node s l r d)
        → Highest d (contents (node s l r d))
    top-Highest s l r d h =
        IsHeap-Tops out_ranks rank (node s l r d) d h (irreflexive out_ranks rank d)

    removed-Serves :
        {x : Rankable} {t : Tree} {result : Option Rankable × Tree}
        → Removed x t result
        → Serves (contents t) (contents result.1) (remove_op x) result.0
    removed-Serves (found w z) = removed w
    removed-Serves (absent a) = not_there a (λ y. refl)

    run_op-Serves :
        (o : Op) (t : Tree)
        → IsHeap out_ranks t
        → Serves (contents t) (contents (run_op out_ranks o t).1) o (run_op out_ranks o t).0
    unfolding run_op
    run_op-Serves (push_op x) t h = pushed (λ y. times-push_node out_ranks y t x)
    run_op-Serves pop_op nil h = pop_empty (λ y. refl) (λ y. refl)
    run_op-Serves pop_op (node s l r d) h = rw (popped-pop_node out_ranks d (node s l r d)) (
        popped (λ y. omega (arith, times-pop_node out_ranks y d (node s l r d)))
          (top-Highest s l r d h))
    run_op-Serves peek_op nil h = peek_empty (λ y. refl) (λ y. refl)
    run_op-Serves peek_op (node s l r d) h =
        peeked (ground arith) (top-Highest s l r d h) (λ y. refl)
    run_op-Serves (remove_op x) t h = removed-Serves (remove_node-Removed out_ranks rank x t h)

    run_op-IsHeap :
        (o : Op) (t : Tree) → IsHeap out_ranks t → IsHeap out_ranks (run_op out_ranks o t).1
    unfolding run_op
    run_op-IsHeap (push_op x) t h = push_node-IsHeap out_ranks rank t x h
    run_op-IsHeap pop_op nil h = h
    run_op-IsHeap pop_op (node s l r d) h = pop_node-IsHeap out_ranks rank d (node s l r d) h
    run_op-IsHeap peek_op t h = h
    run_op-IsHeap (remove_op x) t h = remove_node-IsHeap out_ranks rank x t h

    -- On a heap whose objects are ranked by a strict weak order, any calls do what a bag allows: a
    -- push adds the object; pop takes one that no other outranks, and peek shows one; both return
    -- NULL if and only if the bag is empty; and remove takes the given object, once, if it is there,
    -- and else returns NULL and changes nothing.
    pub run_ops-Served :
        (os : List Op) (t : Tree)
        → IsHeap out_ranks t
        → Served (contents t) os (run_ops out_ranks os t).0 (contents (run_ops out_ranks os t).1)
    unfolding run_ops
    run_ops-Served [] t h = done
    run_ops-Served (o ∷ os) t h =
        next (run_op-Serves o t h)
          (run_ops-Served os (run_op out_ranks o t).1 (run_op-IsHeap o t h))

    run_ops-IsHeap :
        (os : List Op) (t : Tree) → IsHeap out_ranks t → IsHeap out_ranks (run_ops out_ranks os t).1
    unfolding run_ops
    run_ops-IsHeap [] t h = h
    run_ops-IsHeap (o ∷ os) t h = run_ops-IsHeap os (run_op out_ranks o t).1 (run_op-IsHeap o t h)

    -- Where checkNodes accepts the tree and the ranking is a strict weak order, it accepts the tree
    -- after any calls: no node outranks its parent, and every mSize counts the nodes of its subtree.
    pub run_ops-check_nodes :
        (os : List Op) (t : Tree)
        → check_nodes out_ranks t ≡ true
        → check_nodes out_ranks (run_ops out_ranks os t).1 ≡ true
    run_ops-check_nodes os t e =
        check_nodes-IsHeap out_ranks (run_ops out_ranks os t).1
          (run_ops-IsHeap os t (IsHeap-check_nodes out_ranks t e))
