-- ===== src/LinkedList/Search.antt =====
-- linked_list_search of gps/utils/linked_list.c against `find` on the items.
use mathlib.Core.List.{append_assoc, append-nil}
use android_device_lenovo_a.Base.{
  ℕ, zero, suc, ◌≡◌, refl, Bool, true, false, Option, none, some, List, [], ◌∷◌, ◌++◌, arith, subst,
  if◌then◌else◌, is_some, Bool-cases, inl, inr, length, ◌<◌,
}
use android_device_lenovo_a.Base.Run.{ok, Returns, returns, Returns-bind}
use android_device_lenovo_a.LinkedList.Memory.{Ptr, null, Cells, Memory, element}
use android_device_lenovo_a.LinkedList.Memory.Laws.{ne_null, load-ok}
use android_device_lenovo_a.LinkedList.Ops.{
  success, unavailable_resource, ListState, assign, found, search_loop, search,
}
use android_device_lenovo_a.LinkedList.Spec.{
  Item, first, last, Chain, IsList, ends_of, SameOutside, dealloc, Found, find,
}
use android_device_lenovo_a.LinkedList.Chains.{cut, last-holds}
use android_device_lenovo_a.LinkedList.Unlink.{remove_found-Taken}

module _ {S : Type 0} where
  -- The items that are left: with `rm`, all but the one that was found.
  abbrev pub left : Bool → Option (Item S) → (before all behind : List (Item S)) → List (Item S)
  left rm none before all behind = all
  left false (some c) before all behind = all
  left true (some c) before all behind = before ++ behind

  -- `*data_p` after the search.
  abbrev pub copied : Option Ptr → Option (Item S) → Option Ptr
  copied data_p none = data_p
  copied data_p (some c) = assign data_p c.data_ptr

  -- The data of an item that leaves is deallocated, unless it was copied out.
  abbrev pub disposed : Bool → Option Ptr → Option (Item S) → S → S
  disposed rm data_p none s = s
  disposed false data_p (some c) s = s
  disposed true data_p (some c) s =
      dealloc (if is_some data_p then none else c.dealloc_func) c.data_ptr s

  -- The outcome of a search of `xs`, where `data_p` was set to NULL before.
  pub record Searched (h : Cells S) (xs : List (Item S)) (rm : Bool) (data_p : Option Ptr)
      (r : Found S) (out : Option Ptr × ListState) (m' : Memory S) : Type 0 where
    pub copy : out.0 ≡ copied data_p r.hit
    pub listed : IsList m'.cells out.1 (left rm r.hit r.before xs r.behind)
    pub env : m'.env ≡ disposed rm data_p r.hit r.env
    pub same : SameOutside xs h m'.cells
    pub freed : (c : Item S) → rm ≡ true → r.hit ≡ some c → m'.cells c.addr ≡ none

  -- `ys` are the items that were compared and refused.
  abbrev behind_of : List (Item S) → Found S → Found S
  behind_of ys r = record r { before = ys ++ r.before }

  found-Searched :
      (rm : Bool) (m : Memory S) (data_p : Option Ptr) (ys : List (Item S)) (c : Item S)
      (zs : List (Item S))
      → Chain m.cells null null (ys ++ c ∷ zs)
      → Returns
          (Searched m.cells
            (ys ++ c ∷ zs)
            rm
            data_p
            (record { before = ys; hit = some c; behind = zs; env = m.env }))
          (found rm data_p
            (ends_of (ys ++ c ∷ zs))
            c.addr
            (element (first null zs) (last null ys) c.data_ptr c.dealloc_func)
            m)
  unfolding found
  found-Searched false m data_p ys c zs ch = returns (record {
    copy = refl;
    listed = record { chain = ch; ends = refl };
    env = refl;
    same = λ a away. refl;
    freed = λ d e h. cc;
  })
  found-Searched true m data_p ys c zs ch =
      Returns-bind _ (remove_found-Taken m data_p ys c zs ch) λ l m' post. returns (record {
        copy = refl;
        listed = post.listed;
        env = post.env;
        same = post.same;
        freed =
            λ d e h. let same : c ≡ d = cc in subst (λ x. m'.cells x.addr ≡ none) same post.freed;
      })

  search_loop-Searched :
      (equal : Ptr → S → Bool × S) (rm : Bool) (k : ℕ) (m : Memory S) (data_p : Option Ptr)
      (ys zs : List (Item S))
      → Chain m.cells null null (ys ++ zs)
      → length zs < k
      → Returns
          (Searched m.cells (ys ++ zs) rm data_p (behind_of ys (find equal zs m.env)))
          (search_loop equal rm k (first null zs) data_p (ends_of (ys ++ zs)) m)
  unfolding search_loop find
  search_loop-Searched equal rm zero m data_p ys zs ch fuel = absurd (omega arith)
  search_loop-Searched equal rm (suc k) m data_p ys [] ch fuel = returns (record {
    copy = refl;
    listed = record { chain = ch; ends = refl };
    env = refl;
    same = λ a away. refl;
    freed = λ c e h. cc;
  })
  search_loop-Searched equal rm (suc k) m data_p ys (c ∷ zs) ch fuel =
      let (front, back, apart) = cut m.cells null null ys (c ∷ zs) ch in
      let m₁ : Memory S = record m { env = (equal c.data_ptr m.env).1 } in
      rw (ne_null c.addr back.0, load-ok c.addr m _ back.0 back.1)
        (elim (Bool-cases (equal c.data_ptr m.env).0) [
          | inl hit ↦ rw (hit, append-nil) (found-Searched rm m₁ data_p ys c zs ch)
          | inr miss ↦ rw miss (
              simp append_assoc at (
                search_loop-Searched equal rm k m₁ data_p (ys ++ c ∷ []) zs
                  (rw (append_assoc ys (c ∷ []) zs) ch) (omega arith)))
        ])

  -- On a well-formed list that is not empty, with fuel for every item, linked_list_search reports
  -- success and does what `find` says: `*data_p` is the data of the first item that `equal` accepts,
  -- or NULL; with `rm_if_found` that item and no other leaves the list, its element is freed, and its
  -- data is deallocated exactly when it was not copied out.
  pub search-find :
      (fuel : ℕ) (m : Memory S) (l : ListState) (c : Item S) (xs : List (Item S))
      (data_p : Option Ptr) (equal : Ptr → Ptr → S → Bool × S) (data_0 : Ptr) (rm : Bool)
      → IsList m.cells l (c ∷ xs)
      → length (c ∷ xs) < fuel
      → Returns
          (λ (err, out, l') m'.
            (err ≡ success)
            × ((l'' : ListState) × (l' ≡ some l'')
                × Searched m.cells
                    (c ∷ xs)
                    rm
                    (assign data_p null)
                    (find (equal data_0) (c ∷ xs) m.env)
                    (out, l'')
                    m'))
          (search fuel (some l) data_p (some equal) data_0 rm m)
  unfolding search
  search-find fuel m l c xs data_p equal data_0 rm is enough =
      rw (is.ends, ne_null (last c.addr xs) (last-holds m.cells null null c xs is.chain).4)
        (Returns-bind _
          (search_loop-Searched (equal data_0) rm fuel m (assign data_p null) [] (c ∷ xs) is.chain
            enough)
          λ r m' post. returns (refl, (r.1, refl, post)))

  -- On an empty list it reports that there is nothing, and calls nothing.
  pub search-nil :
      (fuel : ℕ) (m : Memory S) (l : ListState) (data_p : Option Ptr)
      (equal : Ptr → Ptr → S → Bool × S) (data_0 : Ptr) (rm : Bool)
      → IsList m.cells l []
      → search fuel (some l) data_p (some equal) data_0 rm m
        ≡ ok (unavailable_resource, data_p, some l) m
  unfolding search
  search-nil fuel m l data_p equal data_0 rm is = rw is.ends refl
