-- ===== src/LinkedList/Flush.antt =====
-- linked_list_flush and linked_list_destroy of gps/utils/linked_list.c.
use android_device_lenovo_a.Base.{
  ℕ, zero, suc, ◌≡◌, refl, Option, none, some, List, [], ◌∷◌, arith, if◌then◌else◌, length, ◌<◌,
}
use android_device_lenovo_a.Base.Run.{ok, Returns, returns, Returns-bind, Returns-mono}
use android_device_lenovo_a.LinkedList.Memory.{
  Ptr, null, DeallocFunc, Element, Cells, Memory, write, call_dealloc,
}
use android_device_lenovo_a.LinkedList.Memory.Laws.{ne_null, load-ok, free-ok}
use android_device_lenovo_a.LinkedList.Ops.{success, ListState, flush_loop, flush, destroy}
use android_device_lenovo_a.LinkedList.Spec.{
  Item, first, has, Chain, IsList, Listed, dealloc, dealloc_all,
}
use android_device_lenovo_a.LinkedList.Chains.{frame-write}

module _ {S : Type 0} where
  pub call_dealloc-ok :
      (f : DeallocFunc S) (d : Ptr) (m : Memory S)
      → call_dealloc f d m ≡ ok tt (record m { env = dealloc f d m.env })
  unfolding call_dealloc
  call_dealloc-ok none d m = refl
  call_dealloc-ok (some f) d m = refl

  -- Every element of `xs` is freed and no other, and the data of each is deallocated, head first.
  pub record Flushed (m : Memory S) (xs : List (Item S)) (m' : Memory S) : Type 0 where
    pub env : m'.env ≡ dealloc_all xs m.env
    pub cells : (a : Ptr) → m'.cells a ≡ (if has a xs then none else m.cells a)

  gone :
      (h : Cells S) (c : Item S) (xs : List (Item S)) (a : Ptr) {v : Option (Element S)}
      → v ≡ (if has a xs then none else write h c.addr none a)
      → v ≡ (if has a (c ∷ xs) then none else h a)
  unfolding write
  gone h c xs a e = ground arith

  flush_loop-Flushed :
      (k : ℕ) (m : Memory S) (prev : Ptr) (xs : List (Item S))
      → Chain m.cells prev null xs
      → length xs < k
      → Returns (λ _. Flushed m xs) (flush_loop k (first null xs) m)
  unfolding flush_loop dealloc_all
  flush_loop-Flushed zero m prev xs ch fuel = absurd (omega arith)
  flush_loop-Flushed (suc k) m prev [] ch fuel = returns (record { env = refl; cells = λ a. refl })
  flush_loop-Flushed (suc k) m prev (c ∷ xs) ch fuel =
      let m₁ : Memory S = record m { env = dealloc c.dealloc_func c.data_ptr m.env } in
      let m₂ : Memory S = record m₁ { cells = write m.cells c.addr none } in
      let rest =
        flush_loop-Flushed k m₂ c.addr xs (frame-write m.cells c.addr null xs c.addr none ch.3 ch.2)
          (omega arith) in
      rw
        (
          ne_null c.addr ch.0,
          load-ok c.addr m _ ch.0 ch.1,
          call_dealloc-ok c.dealloc_func c.data_ptr m,
          free-ok c.addr m₁ _ ch.0 ch.1,
        )
        (Returns-mono rest
          λ _ m' post. record { env = post.env; cells = λ a. gone m.cells c xs a (post.cells a) })

  -- With fuel for every item, linked_list_flush of a well-formed list reports success, leaves the
  -- empty list, deallocates the data of each item once, head first, and frees exactly the items'
  -- elements.
  pub flush-Flushed :
      (k : ℕ) (m : Memory S) (l : ListState) (xs : List (Item S))
      → IsList m.cells l xs
      → length xs < k
      → Returns
          (λ (err, l') m'. (err ≡ success) × Listed m'.cells l' [] × Flushed m xs m')
          (flush k (some l) m)
  unfolding flush
  flush-Flushed k m l xs is fuel = rw is.ends (
      Returns-bind _ (flush_loop-Flushed k m null xs is.chain fuel)
        λ _ m' post. returns (refl, record { chain = tt; ends = refl }, post))

  -- linked_list_destroy does the same, and clears the caller's handle.
  pub destroy-Flushed :
      (k : ℕ) (m : Memory S) (l : ListState) (xs : List (Item S))
      → IsList m.cells l xs
      → length xs < k
      → Returns
          (λ (err, h) m'. (err ≡ success) × (h ≡ some none) × Flushed m xs m')
          (destroy k (some (some l)) m)
  unfolding destroy
  destroy-Flushed k m l xs is fuel =
      Returns-bind _ (flush-Flushed k m l xs is fuel) λ r m' post. returns (refl, refl, post.2)
