-- ===== src/LocHeap/Remove.antt =====
-- LocHeapNode::remove of gps/utils/LocHeap.cpp.
use android_device_lenovo_a.Base.{
  ℕ, ◌+◌, ◌≡◌, refl, Bool, true, false, inl, inr, arith, Bool-cases, Option, none, some, ◌==◌,
}
use android_device_lenovo_a.LocHeap.Node.{
  Rankable, Tree, nil, node, size, out_ranked, remove_node, searched,
}
use android_device_lenovo_a.LocHeap.Order.{
  IsRanking, one, times, IsHeap, IsHeap-Tops, irreflexive, out_ranked_up,
}
use android_device_lenovo_a.LocHeap.Pop.{
  popped-pop_node, times-pop_node, out_ranked-pop_node, size-pop_node, pop_node-IsHeap,
}

-- The two outcomes of a removal: `x` leaves, or it is not there and nothing changes.
pub data Removed (x : Rankable) (t : Tree) : Option Rankable × Tree → Type 0 where
  found :
      {t' : Tree}
      → ((y : Rankable) → times y t ≡ times y t' + one y x)
      → size t ≡ size t' + 1
      → Removed x t (some x, t')
  absent : times x t ≡ 0 → Removed x t (none, t)

module _ (out_ranks : Rankable → Rankable → Bool) (rank : IsRanking out_ranks) where
  -- A heap does not hold what outranks its top.
  outranking-absent :
      (x : Rankable) (s : ℕ) (l r : Tree) (d : Rankable)
      → IsHeap out_ranks (node s l r d)
      → out_ranks x d ≡ true
      → times x (node s l r d) ≡ 0
  outranking-absent x s l r d h e = elim (Bool-cases (times x (node s l r d) == 0)) [
    | inl absent_ ↦ ground arith
    | inr present ↦
        let low : out_ranks x d ≡ false =
          IsHeap-Tops out_ranks rank (node s l r d) d h (irreflexive out_ranks rank d) x
            (ground arith) in
        cc
  ]

  searched-Removed :
      (x : Rankable) (s : ℕ) (l r : Tree) (d : Rankable) {left right : Option Rankable × Tree}
      → IsHeap out_ranks (node s l r d)
      → one x d ≡ 0
      → Removed x l left
      → Removed x r right
      → Removed x (node s l r d) (searched s r d left right)
  searched-Removed x s l r d h other (found t z) right =
      found (λ y. omega (arith, t y)) (omega arith)
  searched-Removed x s l r d h other (absent a) (found t z) =
      found (λ y. omega (arith, t y)) (omega arith)
  searched-Removed x s l r d h other (absent a) (absent b) = absent (omega arith)

  -- On a heap, remove finds the object by its address wherever it is, and takes it once; an object
  -- that is not there changes nothing.
  pub remove_node-Removed :
      (x : Rankable) (t : Tree) → IsHeap out_ranks t → Removed x t (remove_node out_ranks x t)
  unfolding remove_node
  remove_node-Removed x nil h = absent refl
  remove_node-Removed x (node s l r d) h = elim (Bool-cases (x == d)) [
    | inl here ↦
        let same : x ≡ d = ground arith in
        rw (here, popped-pop_node out_ranks d (node s l r d), same)
          (found (λ y. omega (arith, times-pop_node out_ranks y d (node s l r d)))
            (omega (arith, size-pop_node out_ranks d s l r d h)))
    | inr below ↦ rw below (elim (Bool-cases (out_ranks x d)) [
      | inl higher ↦ rw higher (absent (outranking-absent x s l r d h higher))
      | inr lower ↦ rw lower (
          searched-Removed x s l r d h (rw below refl) (remove_node-Removed x l h.3)
            (remove_node-Removed x r h.4))
    ])
  ]

  searched-out_ranked :
      (p : Rankable) (s : ℕ) (r : Tree) (d : Rankable) (left right : Option Rankable × Tree)
      → out_ranks d p ≡ false
      → out_ranked out_ranks (searched s r d left right).1 p ≡ false
  searched-out_ranked p s r d (some q, l') right h = h
  searched-out_ranked p s r d (none, l') (some q, r') h = h
  searched-out_ranked p s r d (none, l') (none, r') h = h

  out_ranked-remove_node :
      (p x : Rankable) (t : Tree)
      → IsHeap out_ranks t
      → out_ranked out_ranks t p ≡ false
      → out_ranked out_ranks (remove_node out_ranks x t).1 p ≡ false
  unfolding remove_node
  out_ranked-remove_node p x nil h k = refl
  out_ranked-remove_node p x (node s l r d) h k = elim (Bool-cases (x == d)) [
    | inl here ↦ rw here (
        out_ranked-pop_node out_ranks p d s l r d (out_ranked_up out_ranks rank l d p h.0 k)
          (out_ranked_up out_ranks rank r d p h.1 k))
    | inr below ↦ rw below (elim (Bool-cases (out_ranks x d)) [
      | inl higher ↦ rw higher k
      | inr lower ↦
          rw lower
            (searched-out_ranked p s r d (remove_node out_ranks x l) (remove_node out_ranks x r) k)
    ])
  ]

  searched-IsHeap :
      (x : Rankable) (s : ℕ) (l r : Tree) (d : Rankable) {left right : Option Rankable × Tree}
      → IsHeap out_ranks (node s l r d)
      → Removed x l left
      → Removed x r right
      → (out_ranked out_ranks left.1 d ≡ false) × IsHeap out_ranks left.1
      → (out_ranked out_ranks right.1 d ≡ false) × IsHeap out_ranks right.1
      → IsHeap out_ranks (searched s r d left right).1
  searched-IsHeap x s l r d h (found t z) right (ol, il) (or_, ir) = (ol, h.1, omega arith, il, h.4)
  searched-IsHeap x s l r d h (absent a) (found t z) (ol, il) (or_, ir) =
      (h.0, or_, omega arith, h.3, ir)
  searched-IsHeap x s l r d h (absent a) (absent b) (ol, il) (or_, ir) = h

  pub remove_node-IsHeap :
      (x : Rankable) (t : Tree)
      → IsHeap out_ranks t
      → IsHeap out_ranks (remove_node out_ranks x t).1
  unfolding remove_node
  remove_node-IsHeap x nil h = tt
  remove_node-IsHeap x (node s l r d) h = elim (Bool-cases (x == d)) [
    | inl here ↦ rw here (pop_node-IsHeap out_ranks rank d (node s l r d) h)
    | inr below ↦ rw below (elim (Bool-cases (out_ranks x d)) [
      | inl higher ↦ rw higher h
      | inr lower ↦ rw lower (
          searched-IsHeap x s l r d h (remove_node-Removed x l h.3) (remove_node-Removed x r h.4)
            (out_ranked-remove_node d x l h.3 h.0, remove_node-IsHeap x l h.3)
            (out_ranked-remove_node d x r h.4 h.1, remove_node-IsHeap x r h.4))
    ])
  ]
