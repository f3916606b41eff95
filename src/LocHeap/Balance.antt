-- ===== src/LocHeap/Balance.antt =====
-- The balance of a heap that is built by pushes alone, for gps/utils/LocHeap.cpp.
use native.Mathlib.Nat.{pow-suc}
use android_device_lenovo_a.Base.{
  ℕ, suc, ◌+◌, ◌*◌, ◌^◌, ◌≤◌, ◌≡◌, refl, Bool, inl, inr, List, [], ◌∷◌, map, length, leb,
  if◌then◌else◌, arith, Bool-cases,
}
use android_device_lenovo_a.LocHeap.Node.{
  Rankable, Tree, nil, node, size, push_node, run_op, run_ops, push_op,
}
use android_device_lenovo_a.LocHeap.Push.{size-push_node}

abbrev pub larger : ℕ → ℕ → ℕ
larger a b = if leb a b then b else a

-- The nodes on the longest path, which bounds the recursion of push.
abbrev pub height : Tree → ℕ
height nil = 0
height (node s l r d) = suc (larger (height l) (height r))

-- Every left subtree has as many nodes as the right one, or one more.
abbrev IsEven : Tree → Type 0
IsEven nil = Unit
IsEven (node s l r d) =
    (size r ≤ size l) × (size l ≤ size r + 1) × (s ≡ size l + size r + 1) × IsEven l × IsEven r

larger-pow : (a b n : ℕ) → 2 ^ a ≤ n → 2 ^ b ≤ n → 2 ^ larger a b ≤ n
larger-pow a b n p q = elim (Bool-cases (leb a b)) [ inl le ↦ rw le q | inr gt ↦ rw gt p ]

-- Twice the size, or 1 where there is no node.
abbrev bound : Tree → ℕ
bound nil = 1
bound (node s l r d) = 2 * s

bound_left : (s : ℕ) (l r : Tree) (d : Rankable) → IsEven (node s l r d) → bound l ≤ s
bound_left s nil r d h = omega arith
bound_left s (node sl ll lr a) r d h = omega arith

bound_right : (s : ℕ) (l r : Tree) (d : Rankable) → IsEven (node s l r d) → bound r ≤ s
bound_right s l nil d h = omega arith
bound_right s l (node sr rl rr b) d h = omega arith

double_pow : (n : ℕ) → 2 ^ suc n ≡ 2 * 2 ^ n
double_pow n = omega (arith, pow-suc 2 n)

IsEven-height : (t : Tree) → IsEven t → 2 ^ height t ≤ bound t
IsEven-height nil h = omega arith
IsEven-height (node s l r d) h =
    let left : 2 ^ height l ≤ s = omega (arith, IsEven-height l h.3, bound_left s l r d h) in
    let right : 2 ^ height r ≤ s = omega (arith, IsEven-height r h.4, bound_right s l r d h) in
    omega (
      arith,
      double_pow (larger (height l) (height r)),
      larger-pow (height l) (height r) s left right,
    )

module _ (out_ranks : Rankable → Rankable → Bool) where
  push_node-IsEven : (t : Tree) (n : Rankable) → IsEven t → IsEven (push_node out_ranks t n)
  unfolding push_node
  push_node-IsEven nil n h = (omega arith, omega arith, refl, tt, tt)
  push_node-IsEven (node s nil r d) n h =
      (omega arith, omega arith, omega arith, (omega arith, omega arith, refl, tt, tt), h.4)
  push_node-IsEven (node s (node sl ll lr a) nil d) n h =
      (omega arith, omega arith, omega arith, h.3, (omega arith, omega arith, refl, tt, tt))
  push_node-IsEven (node s (node sl ll lr a) (node sr rl rr b) d) n h =
      let low = if out_ranks n d then d else n in
      elim (Bool-cases (leb sl sr)) [
        | inl le ↦ rw le (
          omega (arith, size-push_node out_ranks (node sl ll lr a) low),
          ground (arith, size-push_node out_ranks (node sl ll lr a) low),
          omega (arith, size-push_node out_ranks (node sl ll lr a) low),
          push_node-IsEven (node sl ll lr a) low h.3,
          h.4,
        )
        | inr gt ↦ rw gt (
          ground (arith, size-push_node out_ranks (node sr rl rr b) low),
          omega (arith, size-push_node out_ranks (node sr rl rr b) low),
          omega (arith, size-push_node out_ranks (node sr rl rr b) low),
          h.3,
          push_node-IsEven (node sr rl rr b) low h.4,
        )
      ]

  pushes-IsEven :
      (xs : List Rankable) (t : Tree) → IsEven t → IsEven (run_ops out_ranks (map push_op xs) t).1
  unfolding run_ops run_op push_node
  pushes-IsEven [] t h = h
  pushes-IsEven (x ∷ xs) t h = pushes-IsEven xs (push_node out_ranks t x) (push_node-IsEven t x h)

  pub size-pushes :
      (xs : List Rankable) (t : Tree)
      → size (run_ops out_ranks (map push_op xs) t).1 ≡ size t + length xs
  unfolding run_ops run_op push_node
  size-pushes [] t = omega arith
  size-pushes (x ∷ xs) t =
      omega (arith, size-push_node out_ranks t x, size-pushes xs (push_node out_ranks t x))

  bound-le : (t : Tree) → bound t ≤ 2 * size t + 1
  bound-le nil = omega arith
  bound-le (node s l r d) = omega arith

  -- A heap that is built by pushes alone has logarithmic height: 2 ^ height is at most twice the
  -- number of pushes and one.
  pub height-pushes :
      (xs : List Rankable)
      → 2 ^ height (run_ops out_ranks (map push_op xs) nil).1 ≤ 2 * length xs + 1
  height-pushes xs =
      let t = (run_ops out_ranks (map push_op xs) nil).1 in
      omega (arith, IsEven-height t (pushes-IsEven xs nil tt), bound-le t, size-pushes xs nil)
