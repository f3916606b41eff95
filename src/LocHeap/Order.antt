-- ===== src/LocHeap/Order.antt =====
-- The order of a heap, and what its nodes hold, for gps/utils/LocHeap.cpp.
use android_device_lenovo_a.Base.{
  ℕ, ◌+◌, ◌<◌, ◌≡◌, refl, Bool, true, false, ◌⊎◌, inl, inr, ◌==◌, if◌then◌else◌, arith, Bool-cases,
}
use android_device_lenovo_a.LocHeap.Node.{Rankable, Tree, nil, node, size, out_ranked, check_nodes}

-- What LocRankable::ranks has to be: a strict weak order.
pub record IsRanking (out_ranks : Rankable → Rankable → Bool) : Type 0 where
  pub asym : (a b : Rankable) → out_ranks a b ≡ true → out_ranks b a ≡ false
  pub weak :
      (a b c : Rankable) → out_ranks a b ≡ false → out_ranks b c ≡ false → out_ranks a c ≡ false

-- How often a node of the tree has the data `x`.
abbrev pub one : Rankable → Rankable → ℕ
one x y = if x == y then 1 else 0

abbrev pub times : Rankable → Tree → ℕ
times x nil = 0
times x (node s l r d) = one x d + (times x l + times x r)

pub times_cases :
    (y : Rankable) (s : ℕ) (l r : Tree) (d : Rankable)
    → 0 < times y (node s l r d)
    → (y ≡ d) ⊎ ((0 < times y l) ⊎ (0 < times y r))
times_cases y s l r d m = elim (Bool-cases (y == d)) [
  | inl same ↦ inl (ground arith)
  | inr other ↦ elim (Bool-cases (times y l == 0)) [
    | inl none_ ↦ inr (inr (ground arith))
    | inr some_ ↦ inr (inl (ground arith))
  ]
]

module _ (out_ranks : Rankable → Rankable → Bool) where
  -- No node has children that rank higher, and the sizes are right.
  abbrev pub IsHeap : Tree → Type 0
  IsHeap nil = Unit
  IsHeap (node s l r d) =
      (out_ranked out_ranks l d ≡ false)
      × (out_ranked out_ranks r d ≡ false)
      × (s ≡ size l + size r + 1)
      × IsHeap l
      × IsHeap r

  -- `x` ranks no lower than any node.
  abbrev pub Tops : Rankable → Tree → Type 0
  Tops x t = (y : Rankable) → 0 < times y t → out_ranks y x ≡ false

  -- checkNodes says whether a tree is a heap.
  pub check_nodes-IsHeap : (t : Tree) → IsHeap t → check_nodes out_ranks t ≡ true
  unfolding check_nodes
  check_nodes-IsHeap nil h = refl
  check_nodes-IsHeap (node s l r d) (hl, hr, hs, il, ir) =
      ground (arith, check_nodes-IsHeap l il, check_nodes-IsHeap r ir)

  pub IsHeap-check_nodes : (t : Tree) → check_nodes out_ranks t ≡ true → IsHeap t
  unfolding check_nodes
  IsHeap-check_nodes nil e = tt
  IsHeap-check_nodes (node s l r d) e = (
    ground arith,
    ground arith,
    ground arith,
    IsHeap-check_nodes l (ground arith),
    IsHeap-check_nodes r (ground arith),
  )

  module _ (rank : IsRanking out_ranks) where
    pub Tops-up : (x d : Rankable) (t : Tree) → out_ranks d x ≡ false → Tops d t → Tops x t
    Tops-up x d t h tops y m = rank.weak y d x (tops y m) h

    -- The top of a heap ranks no lower than any other.
    pub IsHeap-Tops :
        (t : Tree) (d : Rankable) → IsHeap t → out_ranked out_ranks t d ≡ false → Tops d t
    IsHeap-Tops nil d h e y m = absurd (omega arith)
    IsHeap-Tops (node s l r a) d (hl, hr, hs, il, ir) e y m = elim (times_cases y s l r a m) [
      | inl same ↦ rw same e
      | inr (inl left) ↦ Tops-up d a l e (IsHeap-Tops l a il hl) y left
      | inr (inr right) ↦ Tops-up d a r e (IsHeap-Tops r a ir hr) y right
    ]

    pub irreflexive : (a : Rankable) → out_ranks a a ≡ false
    irreflexive a = elim (Bool-cases (out_ranks a a)) [ inl e ↦ rank.asym a a e | inr e ↦ e ]

    -- The same for the tops of trees.
    pub out_ranked_up :
        (t : Tree) (d top : Rankable)
        → out_ranked out_ranks t d ≡ false
        → out_ranks d top ≡ false
        → out_ranked out_ranks t top ≡ false
    out_ranked_up nil d top h k = refl
    out_ranked_up (node s l r a) d top h k = rank.weak a d top h k
