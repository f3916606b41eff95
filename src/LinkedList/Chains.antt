-- ===== src/LinkedList/Chains.antt =====
-- Laws of chains: when a change of the heap keeps one, and how one is cut and joined.
use mathlib.Core.Bool.{or_assoc}
use android_device_lenovo_a.Base.{
  ◌≡◌, ◌≢◌, refl, true, false, ◌||◌, Option, none, Bool-cases, inl, inr, some, List, [], ◌∷◌, ◌++◌,
  arith, ap, sym, ◌∙◌,
}
use android_device_lenovo_a.LinkedList.Memory.{Ptr, null, Element, Cells, element, write}
use android_device_lenovo_a.LinkedList.Spec.{Item, first, last, has, Chain}

module _ {S : Type 0} where
  pub has-append : (a : Ptr) (xs ys : List (Item S)) → has a (xs ++ ys) ≡ (has a xs || has a ys)
  has-append a [] ys = refl
  has-append a (x ∷ xs) ys = rw (has-append a xs ys, or_assoc)

  pub first-append :
      (stop : Ptr) (xs ys : List (Item S)) → first stop (xs ++ ys) ≡ first (first stop ys) xs
  first-append stop [] ys = refl
  first-append stop (x ∷ xs) ys = refl

  pub last-append :
      (prev : Ptr) (xs ys : List (Item S)) → last prev (xs ++ ys) ≡ last (last prev xs) ys
  last-append prev [] ys = refl
  last-append prev (x ∷ xs) ys = last-append x.addr xs ys

  -- A chain survives any change that spares its own addresses.
  pub frame :
      (h g : Cells S) (prev stop : Ptr) (xs : List (Item S))
      → Chain h prev stop xs
      → ((a : Ptr) → has a xs ≡ true → g a ≡ h a)
      → Chain g prev stop xs
  frame h g prev stop [] ch same = tt
  frame h g prev stop (c ∷ xs) ch same = (
    ch.0,
    ground (arith, same c.addr),
    ch.2,
    frame h g c.addr stop xs ch.3 λ a i. same a (ground arith),
  )

  pub frame-write :
      (h : Cells S) (prev stop : Ptr) (xs : List (Item S)) (a : Ptr) (e : Option (Element S))
      → Chain h prev stop xs
      → has a xs ≡ false
      → Chain (write h a e) prev stop xs
  unfolding write
  frame-write h prev stop xs a e ch out = frame h (write h a e) prev stop xs ch λ b i. ground arith

  abbrev pub Apart : List (Item S) → List (Item S) → Type 0
  Apart xs ys = (a : Ptr) → has a xs ≡ true → has a ys ≡ false

  pub cut :
      (h : Cells S) (prev stop : Ptr) (xs ys : List (Item S))
      → Chain h prev stop (xs ++ ys)
      → Chain h prev (first stop ys) xs × Chain h (last prev xs) stop ys × Apart xs ys
  cut h prev stop [] ys ch = (tt, ch, λ a i. cc)
  cut h prev stop (c ∷ xs) ys ch =
      let (front, back, apart) = cut h c.addr stop xs ys ch.3 in
      (
        (
          ch.0,
          ch.1
              ∙ ap (λ p. some (element p prev c.data_ptr c.dealloc_func)) (first-append stop xs ys),
          ground (arith, has-append c.addr xs ys),
          front,
        ),
        back,
        λ a i. ground (arith, has-append c.addr xs ys, apart a),
      )

  pub join :
      (h : Cells S) (prev stop : Ptr) (xs ys : List (Item S))
      → Chain h prev (first stop ys) xs
      → Chain h (last prev xs) stop ys
      → Apart xs ys
      → Chain h prev stop (xs ++ ys)
  join h prev stop [] ys front back apart = back
  join h prev stop (c ∷ xs) ys front back apart = (
    front.0,
    front.1
        ∙ ap (λ p. some (element p prev c.data_ptr c.dealloc_func)) (sym (first-append stop xs ys)),
    ground (arith, has-append c.addr xs ys, apart c.addr),
    join h c.addr stop xs ys front.3 back λ a i. apart a (ground arith),
  )

  -- An address that holds no element is not in a chain.
  pub not-has_of_none :
      (h : Cells S) (prev stop : Ptr) (xs : List (Item S)) (a : Ptr)
      → Chain h prev stop xs
      → h a ≡ none
      → has a xs ≡ false
  not-has_of_none h prev stop [] a ch e = refl
  not-has_of_none h prev stop (c ∷ xs) a ch e =
      ground (arith, not-has_of_none h c.addr stop xs a ch.3)

  -- No element lies at NULL.
  pub not-has-null :
      (h : Cells S) (prev stop : Ptr) (xs : List (Item S))
      → Chain h prev stop xs
      → has null xs ≡ false
  not-has-null h prev stop [] ch = refl
  not-has-null h prev stop (c ∷ xs) ch = ground (arith, not-has-null h c.addr stop xs ch.3)

  pub ne_of_has : (a p : Ptr) (xs : List (Item S)) → has a xs ≡ false → has p xs ≡ true → a ≢ p
  ne_of_has a p xs out inside e = cc (ap (λ x. has x xs) e)

  pub write-other :
      (h : Cells S) (p : Ptr) (e : Option (Element S)) (a : Ptr) → a ≢ p → write h p e a ≡ h a
  unfolding write
  write-other h p e a ne = ground arith

  pub not-has-append :
      (a : Ptr) (xs ys : List (Item S))
      → has a (xs ++ ys) ≡ false
      → (has a xs ≡ false) × (has a ys ≡ false)
  not-has-append a xs ys out =
      (ground (arith, has-append a xs ys), ground (arith, has-append a xs ys))

  pub not-has-cons :
      (a : Ptr) (c : Item S) (xs : List (Item S))
      → has a (c ∷ xs) ≡ false
      → (a ≢ c.addr) × (has a xs ≡ false)
  not-has-cons a c xs out = (ground arith, ground arith)

  pub not-has_of_Apart :
      (xs ys : List (Item S)) → Apart xs ys → (a : Ptr) → has a ys ≡ true → has a xs ≡ false
  not-has_of_Apart xs ys apart a i = elim (Bool-cases (has a xs)) [
    | inl j ↦ cc (apart a j)
    | inr o ↦ o
  ]

  pub not-has-append_of :
      (a : Ptr) (xs ys : List (Item S))
      → has a xs ≡ false
      → has a ys ≡ false
      → has a (xs ++ ys) ≡ false
  not-has-append_of a xs ys u v = ground (arith, has-append a xs ys)

  pub write-other₂ :
      (h : Cells S) (p q : Ptr) (e e' : Option (Element S)) (a : Ptr)
      → a ≢ p
      → a ≢ q
      → write (write h p e) q e' a ≡ h a
  write-other₂ h p q e e' a np nq = write-other (write h p e) q e' a nq ∙ write-other h p e a np

  -- What the last element of a chain holds.
  pub last-holds :
      (h : Cells S) (prev stop : Ptr) (c : Item S) (xs : List (Item S))
      → Chain h prev stop (c ∷ xs)
      → (e : Element S) × (h (last prev (c ∷ xs)) ≡ some e)
        × (e.next ≡ stop)
        × (has (last prev (c ∷ xs)) (c ∷ xs) ≡ true)
        × (last prev (c ∷ xs) ≢ null)
  last-holds h prev stop c [] ch =
      (element stop prev c.data_ptr c.dealloc_func, ch.1, refl, ground arith, ch.0)
  last-holds h prev stop c (d ∷ xs) ch =
      let (e, at, next, inside, ne) = last-holds h c.addr stop d xs ch.3 in
      (e, at, next, ground arith, ne)

  -- `last->next = q` makes `q` follow the chain.
  pub relink_next :
      (h : Cells S) (prev stop q : Ptr) (c : Item S) (xs : List (Item S)) (e : Element S)
      → Chain h prev stop (c ∷ xs)
      → h (last prev (c ∷ xs)) ≡ some e
      → Chain (write h (last prev (c ∷ xs)) (some (record e { next = q }))) prev q (c ∷ xs)
  unfolding write
  relink_next h prev stop q c [] e ch at = ground arith
  relink_next h prev stop q c (d ∷ xs) e ch at =
      let (e', at', next, inside, ne) = last-holds h c.addr stop d xs ch.3 in
      let other = ne_of_has c.addr (last c.addr (d ∷ xs)) (d ∷ xs) ch.2 inside in
      (ch.0, write-other h _ _ _ other ∙ ch.1, ch.2, relink_next h c.addr stop q d xs e ch.3 at)

  -- `first->prev = q` makes `q` precede the chain.
  pub relink_prev :
      (h : Cells S) (prev stop q : Ptr) (c : Item S) (xs : List (Item S))
      → Chain h prev stop (c ∷ xs)
      → Chain
          (write h c.addr (some (element (first stop xs) q c.data_ptr c.dealloc_func)))
          q
          stop
          (c ∷ xs)
  unfolding write
  relink_prev h prev stop q c xs ch =
      (ch.0, ground arith, ch.2, frame-write h c.addr stop xs c.addr _ ch.3 ch.2)

  pub first-snoc-ne :
      (h : Cells S) (prev stop : Ptr) (xs : List (Item S)) (c : Item S)
      → Chain h prev stop (xs ++ c ∷ [])
      → first stop (xs ++ c ∷ []) ≢ null
  first-snoc-ne h prev stop [] c ch = ch.0
  first-snoc-ne h prev stop (x ∷ xs) c ch = ch.0
