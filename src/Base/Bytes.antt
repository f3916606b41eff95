-- ===== src/Base/Bytes.antt =====
-- Bytes in memory: prefixes and suffixes, little-endian words, writes into a buffer.
use android_device_lenovo_a.Base.Lists.{length, length-append}
use Prim.Native.Nat.{ℕ, zero, suc, ◌+◌, ◌-◌, ◌*◌, ◌/◌, ◌%◌, ◌^◌, ◌≤◌, ◌<◌}
use mathlib.Core.Path.{◌≡◌, refl, sym, ap}
use mathlib.Core.Option.{Option, none, some}
use mathlib.Core.List.{List, [], ◌∷◌, ◌++◌}
use native.Mathlib.Omega.{arith}

module _ {ℓ} {A : Type ℓ} where
  abbrev pub take : ℕ → List A → List A
  take zero xs = []
  take (suc n) [] = []
  take (suc n) (x ∷ xs) = x ∷ take n xs

  abbrev pub drop : ℕ → List A → List A
  drop zero xs = xs
  drop (suc n) [] = []
  drop (suc n) (x ∷ xs) = drop n xs

  abbrev pub put_before : A → Option (List A) → Option (List A)
  put_before x none = none
  put_before x (some xs) = some (x ∷ xs)

  abbrev pub overlay : List A → List A → Option (List A)
  overlay [] xs = some xs
  overlay (y ∷ ys) [] = none
  overlay (y ∷ ys) (x ∷ xs) = put_before y (overlay ys xs)

  -- A write of some elements from an index on; `none` where it runs past the end.
  abbrev pub blit : ℕ → List A → List A → Option (List A)
  blit zero ys xs = overlay ys xs
  blit (suc i) [] xs = some xs
  blit (suc i) (y ∷ ys) [] = none
  blit (suc i) (y ∷ ys) (x ∷ xs) = put_before x (blit i (y ∷ ys) xs)

  overlay-some :
      (ys xs : List A) → length ys ≤ length xs → overlay ys xs ≡ some (ys ++ drop (length ys) xs)
  overlay-some [] xs le = refl
  overlay-some (y ∷ ys) [] le = absurd (omega arith)
  overlay-some (y ∷ ys) (x ∷ xs) le = ap (put_before y) (overlay-some ys xs (omega arith))

  take-drop : (i : ℕ) (xs : List A) → take i xs ++ drop i xs ≡ xs
  take-drop zero xs = refl
  take-drop (suc i) [] = refl
  take-drop (suc i) (x ∷ xs) = ap (λ zs. x ∷ zs) (take-drop i xs)

  -- A write that fits changes just those elements.
  pub blit-some :
      (i : ℕ) (ys xs : List A)
      → i + length ys ≤ length xs
      → blit i ys xs ≡ some (take i xs ++ (ys ++ drop (length ys) (drop i xs)))
  blit-some zero ys xs le = overlay-some ys xs (omega arith)
  blit-some (suc i) [] xs le = ap some (sym (take-drop (suc i) xs))
  blit-some (suc i) (y ∷ ys) [] le = absurd (omega arith)
  blit-some (suc i) (y ∷ ys) (x ∷ xs) le = ap (put_before x) (blit-some i (y ∷ ys) xs (omega arith))

  pub length-drop : (n : ℕ) (xs : List A) → length (drop n xs) ≡ length xs - n
  length-drop zero xs = omega arith
  length-drop (suc n) [] = omega arith
  length-drop (suc n) (x ∷ xs) = omega (arith, length-drop n xs)

  pub length-blit :
      (i : ℕ) (ys xs : List A)
      → i + length ys ≤ length xs
      → (zs : List A) × (blit i ys xs ≡ some zs) × (length zs ≡ length xs)
  length-blit i ys xs le = (
    _,
    blit-some i ys xs le,
    omega (
      arith,
      ap length (take-drop i xs),
      length-append (take i xs) (drop i xs),
      length-append (take i xs) (ys ++ drop (length ys) (drop i xs)),
      length-append ys (drop (length ys) (drop i xs)),
      length-drop (length ys) (drop i xs),
      length-drop i xs,
    ),
  )

  pub take-append : (xs ys : List A) → take (length xs) (xs ++ ys) ≡ xs
  take-append [] ys = refl
  take-append (x ∷ xs) ys = ap (λ zs. x ∷ zs) (take-append xs ys)

  pub drop-append : (xs ys : List A) → drop (length xs) (xs ++ ys) ≡ ys
  drop-append [] ys = refl
  drop-append (x ∷ xs) ys = drop-append xs ys

  pub length-take_le :
      (n : ℕ) (xs : List A) → (length (take n xs) ≤ n) × (length (take n xs) ≤ length xs)
  length-take_le zero xs = (omega arith, omega arith)
  length-take_le (suc n) [] = (omega arith, omega arith)
  length-take_le (suc n) (x ∷ xs) =
      (omega (arith, (length-take_le n xs).0), omega (arith, (length-take_le n xs).1))

  pub take_all : (n : ℕ) (xs : List A) → length xs ≤ n → take n xs ≡ xs
  take_all zero [] le = refl
  take_all zero (x ∷ xs) le = absurd (omega arith)
  take_all (suc n) [] le = refl
  take_all (suc n) (x ∷ xs) le = ap (λ zs. x ∷ zs) (take_all n xs (omega arith))

-- The low `k` bytes of a number, the least first.
abbrev pub word : ℕ → ℕ → List ℕ
word zero n = []
word (suc k) n = n % 256 ∷ word k (n / 256)

abbrev pub value : List ℕ → ℕ
value [] = 0
value (b ∷ bs) = b + 256 * value bs

pub length-word : (k n : ℕ) → length (word k n) ≡ k
length-word zero n = refl
length-word (suc k) n = ap suc (length-word k (n / 256))

pub value-word : (k n : ℕ) → n < 256 ^ k → value (word k n) ≡ n
value-word zero n lt = omega arith
value-word (suc k) n lt = omega (arith, value-word k (n / 256) (omega arith))
