-- ===== src/LocHeap/Node.antt =====
-- LocHeapNode and LocHeap of gps/utils/LocHeap.cpp. A node belongs to one tree, so a tree is a value.
use android_device_lenovo_a.Base.{
  ℕ, ◌+◌, ◌-◌, Bool, true, false, ◌&&◌, not, Option, none, some, List, [], ◌∷◌, leb, ◌==◌,
  if◌then◌else◌,
}

-- The address of a LocRankable.
abbrev pub Rankable : Type 0
Rankable = ℕ

-- `nil` is NULL; the members of a node are mSize, mLeft, mRight and mData.
pub data Tree : Type 0 where
  nil : Tree
  node : (size : ℕ) (left right : Tree) (ranked : Rankable) → Tree

abbrev pub size : Tree → ℕ
size nil = 0
size (node s l r d) = s

abbrev pub is_null : Tree → Bool
is_null nil = true
is_null (node s l r d) = false

-- `new LocHeapNode(data)`
abbrev pub new_node : Rankable → Tree
new_node d = node 1 nil nil d

-- What LocHeapNode::remove has found: the data of the node that left the tree, and the tree.
abbrev pub in_left : ℕ → Tree → Rankable → Rankable → Tree → Option Rankable × Tree
in_left s r d p l = (some p, node (s - 1) l r d)

abbrev pub in_right : ℕ → Tree → Tree → Rankable → Option Rankable × Tree → Option Rankable × Tree
in_right s l r d (some p, r') = (some p, node (s - 1) l r' d)
in_right s l r d (none, r') = (none, node s l r' d)

abbrev pub searched :
    ℕ → Tree → Rankable → Option Rankable × Tree → Option Rankable × Tree → Option Rankable × Tree
searched s r d (some p, l) right = in_left s r d p l
searched s r d (none, l) right = in_right s l r d right

-- `out_ranks a b` is `a->outRanks(*b)`, which the client implements.
module _ (out_ranks : Rankable → Rankable → Bool) where
  -- LocHeapNode::push, and the allocation of a node where there is none.
  unfoldable pub push_node : Tree → Rankable → Tree
  push_node nil n = new_node n
  push_node (node s l r d) n =
      let swapped = out_ranks n d in
      let top = if swapped then n else d in
      let low = if swapped then d else n in
      let left = node (s + 1) (push_node l low) r top in
      let right = node (s + 1) l (push_node r low) top in
      if is_null l
      then node (s + 1) (new_node low) r top
      else if is_null r
      then node (s + 1) l (new_node low) top
      else if leb (size l) (size r)
      then left
      else right

  -- LocHeapNode::pop on a tree whose top has been given the data `d` by a swap. The result is the
  -- data of the node that is popped out, and the tree without it.
  unfoldable pub pop_node : Rankable → Tree → Rankable × Tree
  pop_node d nil = (d, nil)
  pop_node d (node s nil nil _) = (d, nil)
  pop_node d (node s nil (node sr rl rr b) _) =
      let (popped, right) = pop_node d (node sr rl rr b) in (popped, node (s - 1) nil right b)
  pop_node d (node s (node sl ll lr a) nil _) =
      let (popped, left) = pop_node d (node sl ll lr a) in (popped, node (s - 1) left nil a)
  pop_node d (node s (node sl ll lr a) (node sr rl rr b) _) =
      let from_left : Rankable × Tree =
        let (popped, left) = pop_node d (node sl ll lr a) in
        (popped, node (s - 1) left (node sr rl rr b) a) in
      let from_right : Rankable × Tree =
        let (popped, right) = pop_node d (node sr rl rr b) in
        (popped, node (s - 1) (node sl ll lr a) right b) in
      if out_ranks a b then from_left else from_right

  -- LocHeapNode::remove
  unfoldable pub remove_node : Rankable → Tree → Option Rankable × Tree
  unfolding pop_node
  remove_node x nil = (none, nil)
  remove_node x (node s l r d) =
      let (popped, rest) = pop_node d (node s l r d) in
      let below = searched s r d (remove_node x l) (remove_node x r) in
      if x == d then (some popped, rest) else if out_ranks x d then (none, node s l r d) else below

  abbrev pub out_ranked : Tree → Rankable → Bool
  out_ranked nil d = false
  out_ranked (node s l r a) d = out_ranks a d

  -- LocHeapNode::checkNodes, and true for no node. The size that is left is 1.
  unfoldable pub check_nodes : Tree → Bool
  check_nodes nil = true
  check_nodes (node s l r d) =
      (not (out_ranked l d) && check_nodes l)
      && ((not (out_ranked r d) && check_nodes r) && s == size l + (size r + 1))

  -- LocHeap::push, ::peek, ::pop and ::remove.
  unfoldable pub push : Rankable → Tree → Tree
  unfolding push_node
  push x t = push_node t x

  unfoldable pub pop : Tree → Option Rankable × Tree
  unfolding pop_node
  pop nil = (none, nil)
  pop (node s l r d) = let (popped, t) = pop_node d (node s l r d) in (some popped, t)

  unfoldable pub remove : Rankable → Tree → Option Rankable × Tree
  unfolding remove_node
  remove x t = remove_node x t

abbrev pub peek : Tree → Option Rankable
peek nil = none
peek (node s l r d) = some d

pub data Op : Type 0 where
  push_op : Rankable → Op
  pop_op : Op
  peek_op : Op
  remove_op : Rankable → Op

-- What a call returns, and the tree that it leaves.
unfoldable pub run_op : (Rankable → Rankable → Bool) → Op → Tree → Option Rankable × Tree
unfolding push pop remove
run_op out_ranks (push_op x) t = (none, push out_ranks x t)
run_op out_ranks pop_op t = pop out_ranks t
run_op out_ranks peek_op t = (peek t, t)
run_op out_ranks (remove_op x) t = remove out_ranks x t

-- The results of some calls, and the tree that they leave.
unfoldable pub run_ops :
    (Rankable → Rankable → Bool) → List Op → Tree → List (Option Rankable) × Tree
run_ops out_ranks [] t = ([], t)
run_ops out_ranks (o ∷ os) t =
    let (result, t') = run_op out_ranks o t in
    let (results, t'') = run_ops out_ranks os t' in (result ∷ results, t'')
