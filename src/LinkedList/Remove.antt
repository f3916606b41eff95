-- ===== src/LinkedList/Remove.antt =====
-- linked_list_remove of gps/utils/linked_list.c takes the last item.
use android_device_lenovo_a.Base.{
  ◌≡◌, refl, false, Option, none, some, List, [], ◌∷◌, ◌++◌, arith, ◌∙◌,
}
use android_device_lenovo_a.Base.Run.{ok, Returns, returns}
use android_device_lenovo_a.LinkedList.Memory.{Ptr, null, Memory, write}
use android_device_lenovo_a.LinkedList.Memory.Laws.{
  write_self, ne_null, load-ok, set_next-ok, free-ok,
}
use android_device_lenovo_a.LinkedList.Ops.{Err, success, unavailable_resource, ListState, remove}
use android_device_lenovo_a.LinkedList.Spec.{Item, last, has, Chain, IsList, ends_of}
use android_device_lenovo_a.LinkedList.Chains.{
  cut, not-has-append, not-has-cons, not-has_of_Apart, write-other₂, frame-write, last-append,
  last-holds, ne_of_has, relink_next, write-other,
}
use android_device_lenovo_a.LinkedList.Outcome.{Outcome}

module _ {S : Type 0} where
  -- What linked_list_remove returns with the last item `c` of `xs ++ c ∷ []`.
  pub record Removed (m : Memory S) (xs : List (Item S)) (c : Item S)
      (r : Err × Option Ptr × Option ListState) (m' : Memory S) : Type 0 where
    pub err : r.0 ≡ success
    pub data_obj : r.1 ≡ some c.data_ptr
    pub outcome : Outcome m xs (xs ++ c ∷ []) r.2 m'
    pub freed : m'.cells c.addr ≡ none

  remove_ends :
      (m : Memory S) (xs : List (Item S)) (c : Item S) (v : Ptr)
      → Chain m.cells null null (xs ++ c ∷ [])
      → Returns (Removed m xs c) (remove (some (ends_of (xs ++ c ∷ []))) (some v) m)
  unfolding remove
  remove_ends m [] c v ch =
      rw (ne_null c.addr ch.0, load-ok c.addr m _ ch.0 ch.1, free-ok c.addr m _ ch.0 ch.1)
        (returns (record {
          err = refl;
          data_obj = refl;
          outcome = record {
            listed = record { chain = tt; ends = refl };
            env = refl;
            same = λ a away. write-other m.cells c.addr _ a (ground arith);
          };
          freed = write_self m.cells c.addr none;
        }))
  remove_ends m (b ∷ ys) c v ch =
      let (front, back, apart) = cut m.cells null null (b ∷ ys) (c ∷ []) ch in
      let (e, at, next, inside, ne) = last-holds m.cells null c.addr b ys front in
      let p = last b.addr ys in
      let h₁ = write m.cells p (some (record e { next = null })) in
      let out : has c.addr (b ∷ ys) ≡ false =
        not-has_of_Apart (b ∷ ys) (c ∷ []) apart c.addr (ground arith) in
      let other : h₁ c.addr ≡ m.cells c.addr =
        write-other m.cells p _ c.addr (ne_of_has c.addr p (b ∷ ys) out inside) in
      let chain = relink_next m.cells null c.addr null b ys e front at in
      rw
        (
          last-append b.addr ys (c ∷ []),
          ne_null c.addr back.0,
          load-ok c.addr m _ back.0 back.1,
          ne_null p ne,
          set_next-ok p m e ne at null,
          free-ok c.addr (record m { cells = h₁ }) _ back.0 (other ∙ back.1),
        )
        (returns (record {
          err = refl;
          data_obj = refl;
          outcome = record {
            listed = record {
              chain = frame-write h₁ null null (b ∷ ys) c.addr none chain out;
              ends = refl;
            };
            env = refl;
            same = λ a away.
                let (away₁, away₂) = not-has-append a (b ∷ ys) (c ∷ []) away in
                write-other₂ m.cells p c.addr _ none a (ne_of_has a p (b ∷ ys) away₁ inside)
                  (not-has-cons a c [] away₂).0;
          };
          freed = write_self h₁ c.addr none;
        }))

  -- On a well-formed list that is not empty, linked_list_remove reports success, hands out the data
  -- of the last item, takes the item off the list and frees its element; it changes no element
  -- outside the list.
  pub remove-snoc :
      (m : Memory S) (l : ListState) (xs : List (Item S)) (c : Item S) (v : Ptr)
      → IsList m.cells l (xs ++ c ∷ [])
      → Returns (Removed m xs c) (remove (some l) (some v) m)
  remove-snoc m l xs c v is = rw is.ends (remove_ends m xs c v is.chain)

  -- On an empty list linked_list_remove reports that there is nothing, and changes nothing.
  pub remove-nil :
      (m : Memory S) (l : ListState) (v : Ptr)
      → IsList m.cells l []
      → remove (some l) (some v) m ≡ ok (unavailable_resource, some v, some l) m
  unfolding remove
  remove-nil m l v is = rw is.ends refl
