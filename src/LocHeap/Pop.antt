-- ===== src/LocHeap/Pop.antt =====
-- LocHeapNode::pop of gps/utils/LocHeap.cpp.
use android_device_lenovo_a.Base.{ℕ, ◌+◌, ◌≡◌, refl, Bool, false, inl, inr, arith, Bool-cases}
use android_device_lenovo_a.LocHeap.Node.{Rankable, Tree, nil, node, size, out_ranked, pop_node}
use android_device_lenovo_a.LocHeap.Order.{IsRanking, times, IsHeap}

abbrev pub left_of : Tree → Tree
left_of nil = nil
left_of (node s l r d) = l

abbrev pub right_of : Tree → Tree
right_of nil = nil
right_of (node s l r d) = r

module _ (out_ranks : Rankable → Rankable → Bool) where
  -- The data of the top goes down to the node that is popped out.
  pub popped-pop_node : (d : Rankable) (t : Tree) → (pop_node out_ranks d t).0 ≡ d
  unfolding pop_node
  popped-pop_node d nil = refl
  popped-pop_node d (node s nil nil e) = refl
  popped-pop_node d (node s nil (node sr rl rr b) e) = popped-pop_node d (node sr rl rr b)
  popped-pop_node d (node s (node sl ll lr a) nil e) = popped-pop_node d (node sl ll lr a)
  popped-pop_node d (node s (node sl ll lr a) (node sr rl rr b) e) =
      elim (Bool-cases (out_ranks a b)) [
        | inl left ↦ rw left (popped-pop_node d (node sl ll lr a))
        | inr right ↦ rw right (popped-pop_node d (node sr rl rr b))
      ]

  -- A pop takes the data of the top and no other.
  pub times-pop_node :
      (y d : Rankable) (t : Tree)
      → times y (pop_node out_ranks d t).1 ≡ times y (left_of t) + times y (right_of t)
  unfolding pop_node
  times-pop_node y d nil = refl
  times-pop_node y d (node s nil nil e) = refl
  times-pop_node y d (node s nil (node sr rl rr b) e) =
      omega (arith, times-pop_node y d (node sr rl rr b))
  times-pop_node y d (node s (node sl ll lr a) nil e) =
      omega (arith, times-pop_node y d (node sl ll lr a))
  times-pop_node y d (node s (node sl ll lr a) (node sr rl rr b) e) =
      elim (Bool-cases (out_ranks a b)) [
        | inl left ↦ rw left (omega (arith, times-pop_node y d (node sl ll lr a)))
        | inr right ↦ rw right (omega (arith, times-pop_node y d (node sr rl rr b)))
      ]

  pub out_ranked-pop_node :
      (p d : Rankable) (s : ℕ) (l r : Tree) (e : Rankable)
      → out_ranked out_ranks l p ≡ false
      → out_ranked out_ranks r p ≡ false
      → out_ranked out_ranks (pop_node out_ranks d (node s l r e)).1 p ≡ false
  unfolding pop_node
  out_ranked-pop_node p d s nil nil e hl hr = refl
  out_ranked-pop_node p d s nil (node sr rl rr b) e hl hr = hr
  out_ranked-pop_node p d s (node sl ll lr a) nil e hl hr = hl
  out_ranked-pop_node p d s (node sl ll lr a) (node sr rl rr b) e hl hr =
      elim (Bool-cases (out_ranks a b)) [ inl left ↦ rw left hl | inr right ↦ rw right hr ]

  pub size-pop_node :
      (d : Rankable) (s : ℕ) (l r : Tree) (e : Rankable)
      → IsHeap out_ranks (node s l r e)
      → size (pop_node out_ranks d (node s l r e)).1 + 1 ≡ s
  unfolding pop_node
  size-pop_node d s nil nil e h = omega arith
  size-pop_node d s nil (node sr rl rr b) e h = omega arith
  size-pop_node d s (node sl ll lr a) nil e h = omega arith
  size-pop_node d s (node sl ll lr a) (node sr rl rr b) e h = elim (Bool-cases (out_ranks a b)) [
    | inl left ↦ rw left (omega arith)
    | inr right ↦ rw right (omega arith)
  ]

  module _ (rank : IsRanking out_ranks) where
    pub pop_node-IsHeap :
        (d : Rankable) (t : Tree) → IsHeap out_ranks t → IsHeap out_ranks (pop_node out_ranks d t).1
    unfolding pop_node
    pop_node-IsHeap d nil h = tt
    pop_node-IsHeap d (node s nil nil e) h = tt
    pop_node-IsHeap d (node s nil (node sr rl rr b) e) (hl, hr, hs, il, ir) = (
      refl,
      out_ranked-pop_node b d sr rl rr b ir.0 ir.1,
      omega (arith, size-pop_node d sr rl rr b ir),
      tt,
      pop_node-IsHeap d (node sr rl rr b) ir,
    )
    pop_node-IsHeap d (node s (node sl ll lr a) nil e) (hl, hr, hs, il, ir) = (
      out_ranked-pop_node a d sl ll lr a il.0 il.1,
      refl,
      omega (arith, size-pop_node d sl ll lr a il),
      pop_node-IsHeap d (node sl ll lr a) il,
      tt,
    )
    pop_node-IsHeap d (node s (node sl ll lr a) (node sr rl rr b) e) (hl, hr, hs, il, ir) =
        elim (Bool-cases (out_ranks a b)) [
          | inl left ↦ rw left (
            out_ranked-pop_node a d sl ll lr a il.0 il.1,
            rank.asym a b left,
            omega (arith, size-pop_node d sl ll lr a il),
            pop_node-IsHeap d (node sl ll lr a) il,
            ir,
          )
          | inr right ↦ rw right (
            right,
            out_ranked-pop_node b d sr rl rr b ir.0 ir.1,
            omega (arith, size-pop_node d sr rl rr b ir),
            il,
            pop_node-IsHeap d (node sr rl rr b) ir,
          )
        ]
