-- ===== src/LocHeap/Push.antt =====
-- LocHeap::push of gps/utils/LocHeap.cpp.
use android_device_lenovo_a.Base.{
  ℕ, ◌+◌, ◌≡◌, refl, Bool, false, inl, inr, leb, if◌then◌else◌, arith, Bool-cases,
}
use android_device_lenovo_a.LocHeap.Node.{
  Rankable, Tree, nil, node, size, is_null, new_node, out_ranked, push_node,
}
use android_device_lenovo_a.LocHeap.Order.{
  IsRanking, one, times, IsHeap, irreflexive, out_ranked_up,
}

module _ (out_ranks : Rankable → Rankable → Bool) where
  pub size-push_node : (t : Tree) (n : Rankable) → size (push_node out_ranks t n) ≡ size t + 1
  unfolding push_node
  size-push_node nil n = refl
  size-push_node (node s l r d) n = ground arith

  -- A push adds the one object.
  pub times-push_node :
      (y : Rankable) (t : Tree) (n : Rankable)
      → times y (push_node out_ranks t n) ≡ times y t + one y n
  unfolding push_node
  times-push_node y nil n = omega arith
  times-push_node y (node s l r d) n = ground (
    arith,
    times-push_node y l (if out_ranks n d then d else n),
    times-push_node y r (if out_ranks n d then d else n),
  )

  module _ (rank : IsRanking out_ranks) where
    -- What is pushed below `top` does not outrank it.
    out_ranked-push_node :
        (t : Tree) (n top : Rankable)
        → out_ranked out_ranks t top ≡ false
        → out_ranks n top ≡ false
        → out_ranked out_ranks (push_node out_ranks t n) top ≡ false
    unfolding push_node
    out_ranked-push_node nil n top h k = k
    out_ranked-push_node (node s l r d) n top h k = ground arith

    -- The node that LocHeapNode::push chooses to push on.
    pub placed :
        (P : Tree → Type 0) (s : ℕ) (l r : Tree) (low top : Rankable)
        → P (node (s + 1) (push_node out_ranks l low) r top)
        → P (node (s + 1) l (push_node out_ranks r low) top)
        → P (
            if is_null l
            then node (s + 1) (new_node low) r top
            else if is_null r
            then node (s + 1) l (new_node low) top
            else if leb (size l) (size r)
            then node (s + 1) (push_node out_ranks l low) r top
            else node (s + 1) l (push_node out_ranks r low) top)
    unfolding push_node
    placed P s nil r low top left right = left
    placed P s (node sl ll rl a) nil low top left right = right
    placed P s (node sl ll rl a) (node sr lr rr b) low top left right =
        elim (Bool-cases (leb sl sr)) [ inl le ↦ rw le left | inr gt ↦ rw gt right ]

    -- The data that stays and the data that goes down, of a node and a new object.
    record Split (n d low top : Rankable) : Type 0 where
      below : out_ranks low top ≡ false
      above : out_ranks d top ≡ false

    split :
        (n d : Rankable)
        → Split n d (if out_ranks n d then d else n) (if out_ranks n d then n else d)
    split n d = elim (Bool-cases (out_ranks n d)) [
      | inl higher ↦
          rw higher (record { below = rank.asym n d higher; above = rank.asym n d higher })
      | inr lower ↦ rw lower (record { below = lower; above = irreflexive out_ranks rank d })
    ]

    pub push_node-IsHeap :
        (t : Tree) (n : Rankable) → IsHeap out_ranks t → IsHeap out_ranks (push_node out_ranks t n)
    unfolding push_node
    push_node-IsHeap nil n h = (refl, refl, refl, tt, tt)
    push_node-IsHeap (node s l r d) n (hl, hr, hs, il, ir) =
        let low = if out_ranks n d then d else n in
        let top = if out_ranks n d then n else d in
        let sp = split n d in
        let hl' = out_ranked_up out_ranks rank l d top hl sp.above in
        let hr' = out_ranked_up out_ranks rank r d top hr sp.above in
        let left : IsHeap out_ranks (node (s + 1) (push_node out_ranks l low) r top) = (
          out_ranked-push_node l low top hl' sp.below,
          hr',
          omega (arith, size-push_node l low),
          push_node-IsHeap l low il,
          ir,
        ) in
        let right : IsHeap out_ranks (node (s + 1) l (push_node out_ranks r low) top) = (
          hl',
          out_ranked-push_node r low top hr' sp.below,
          omega (arith, size-push_node r low),
          il,
          push_node-IsHeap r low ir,
        ) in
        placed (λ t. IsHeap out_ranks t) s l r low top left right
