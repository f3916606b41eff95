-- ===== src/LinkedList/Unlink.antt =====
-- linked_list_search of gps/utils/linked_list.c takes an item out of the middle of a list.
use android_device_lenovo_a.Base.{
  ◌≡◌, ◌≢◌, refl, false, Option, none, some, List, [], ◌∷◌, ◌++◌, arith, ap, ◌∙◌, ◌==◌,
  if◌then◌else◌, is_some,
}
use android_device_lenovo_a.Base.Run.{Returns, returns, Returns-bind, Returns-mono, pure, ◌>>◌}
use android_device_lenovo_a.LinkedList.Memory.{
  Ptr, null, DeallocFunc, Element, Memory, element, write, set_next, set_prev, free, call_dealloc,
}
use android_device_lenovo_a.LinkedList.Memory.Laws.{
  write_self, ne_null, set_next-ok, set_prev-ok, free-ok,
}
use android_device_lenovo_a.LinkedList.Ops.{ListState, unlink, remove_found}
use android_device_lenovo_a.LinkedList.Spec.{
  Item, first, last, has, Chain, IsList, ends_of, SameOutside, dealloc,
}
use android_device_lenovo_a.LinkedList.Flush.{call_dealloc-ok}
use android_device_lenovo_a.LinkedList.Chains.{
  Apart, cut, join, frame, first-append, last-append, last-holds, ne_of_has, not-has-append,
  not-has-append_of, not-has-cons, not-has_of_Apart, relink_next, relink_prev, write-other,
  write-other₂,
}

module _ {S : Type 0} where
  -- A link of `xs` is changed, and nothing but elements of `xs`.
  record Linked (m : Memory S) (xs : List (Item S)) (prev stop end : Ptr) (r : Ptr) (m' : Memory S)
      : Type 0 where
    chain : Chain m'.cells prev stop xs
    value : r ≡ end
    env : m'.env ≡ m.env
    same : SameOutside xs m.cells m'.cells

  -- `p` is to follow the items before the one that leaves.
  front-Linked :
      (m : Memory S) (p stop : Ptr) (xs : List (Item S))
      → Chain m.cells null stop xs
      → Returns (Linked m xs null p (first p xs)) (
          (if last null xs == null
              then pure p
              else (set_next (last null xs) p >> pure (first stop xs)))
            m)
  front-Linked m p stop [] ch =
      returns (record { chain = tt; value = refl; env = refl; same = λ a away. refl })
  front-Linked m p stop (c ∷ xs) ch =
      let (e, at, next, inside, ne) = last-holds m.cells null stop c xs ch in
      rw (ne_null (last c.addr xs) ne, set_next-ok (last c.addr xs) m e ne at p)
        (returns (record {
          chain = relink_next m.cells null stop p c xs e ch at;
          value = refl;
          env = refl;
          same = λ a away. write-other m.cells _ _ a (ne_of_has a _ (c ∷ xs) away inside);
        }))

  -- `p` is to precede the items behind it.
  back-Linked :
      (m : Memory S) (p prev : Ptr) (xs : List (Item S))
      → Chain m.cells prev null xs
      → Returns (Linked m xs p null (last p xs)) (
          (if first null xs == null
              then pure p
              else (set_prev (first null xs) p >> pure (last prev xs)))
            m)
  back-Linked m p prev [] ch =
      returns (record { chain = tt; value = refl; env = refl; same = λ a away. refl })
  back-Linked m p prev (c ∷ xs) ch =
      rw (ne_null c.addr ch.0, set_prev-ok c.addr m _ ch.0 ch.1 p)
        (returns (record {
          chain = relink_prev m.cells prev null p c xs ch;
          value = refl;
          env = refl;
          same = λ a away. write-other m.cells _ _ a (not-has-cons a c xs away).0;
        }))

  -- The item `c` between `ys` and `zs` has left, but its element is still as it was.
  record Unlinked (m : Memory S) (ys : List (Item S)) (c : Item S) (zs : List (Item S))
      (l : ListState) (m' : Memory S) : Type 0 where
    chain : Chain m'.cells null null (ys ++ zs)
    ends : l ≡ ends_of (ys ++ zs)
    env : m'.env ≡ m.env
    same : SameOutside (ys ++ zs) m.cells m'.cells

  unlink-Unlinked :
      (m : Memory S) (ys : List (Item S)) (c : Item S) (zs : List (Item S))
      → Chain m.cells null null (ys ++ c ∷ zs)
      → Returns (Unlinked m ys c zs) (
          unlink
            (ends_of (ys ++ c ∷ zs))
            (element (first null zs) (last null ys) c.data_ptr c.dealloc_func)
            m)
  unfolding unlink
  unlink-Unlinked m ys c zs ch =
      let (front, back, apart) = cut m.cells null null ys (c ∷ zs) ch in
      let beside : Apart ys zs = λ a i. (not-has-cons a c zs (apart a i)).1 in
      let aside = not-has_of_Apart ys zs beside in
      rw (first-append null ys (c ∷ zs), last-append null ys (c ∷ zs))
        (Returns-bind _ (front-Linked m (first null zs) c.addr ys front) λ head m₁ p₁.
          Returns-bind _
            (back-Linked m₁ (last null ys) c.addr zs
              (frame m.cells m₁.cells c.addr null zs back.3 λ a i. p₁.same a (aside a i)))
            λ tail m₂ p₂. returns (record {
              chain =
                  join m₂.cells null null ys zs
                    (frame m₁.cells m₂.cells null (first null zs) ys p₁.chain
                      λ a i. p₂.same a (beside a i))
                    p₂.chain beside;
              ends = rw (p₁.value, p₂.value, first-append null ys zs, last-append null ys zs) refl;
              env = p₂.env ∙ p₁.env;
              same = λ a away.
                  let (away₁, away₂) = not-has-append a ys zs away in
                  p₂.same a away₂ ∙ p₁.same a away₁;
            }))

  -- The outcome of the removal of `c` from between `ys` and `zs`.
  pub record Taken (m : Memory S) (ys : List (Item S)) (c : Item S) (zs : List (Item S))
      (f : DeallocFunc S) (l : ListState) (m' : Memory S) : Type 0 where
    pub listed : IsList m'.cells l (ys ++ zs)
    pub env : m'.env ≡ dealloc f c.data_ptr m.env
    pub freed : m'.cells c.addr ≡ none
    pub same : SameOutside (ys ++ c ∷ zs) m.cells m'.cells

  -- What the last steps of a removal do to the element at `p`.
  record Erased (m : Memory S) (p : Ptr) (f : DeallocFunc S) (d : Ptr) (l l' : ListState)
      (m' : Memory S) : Type 0 where
    list : l' ≡ l
    env : m'.env ≡ dealloc f d m.env
    freed : m'.cells p ≡ none
    same : (a : Ptr) → a ≢ p → m'.cells a ≡ m.cells a

  erase-Erased :
      (m : Memory S) (p : Ptr) (e : Element S) (f : DeallocFunc S) (d : Ptr) (l : ListState)
      → p ≢ null
      → m.cells p ≡ some e
      → Returns
          (Erased m p f d l)
          ((set_next p null >> (set_prev p null >> (call_dealloc f d >> (free p >> pure l)))) m)
  erase-Erased m p e f d l ne at =
      let e₁ : Element S = record e { next = null } in
      let e₂ : Element S = record e₁ { prev = null } in
      let h₁ = write m.cells p (some e₁) in
      let h₂ = write h₁ p (some e₂) in
      let m₁ : Memory S = record m { cells = h₁ } in
      let m₂ : Memory S = record m { cells = h₂ } in
      let m₃ : Memory S = record m₂ { env = dealloc f d m.env } in
      rw
        (
          set_next-ok p m e ne at null,
          set_prev-ok p m₁ e₁ ne (write_self m.cells p _) null,
          call_dealloc-ok f d m₂,
          free-ok p m₃ e₂ ne (write_self h₁ p _),
        )
        (returns (record {
          list = refl;
          env = refl;
          freed = write_self h₂ p none;
          same = λ a far. write-other h₂ p none a far ∙ write-other₂ m.cells p p _ _ a far far;
        }))

  pub remove_found-Taken :
      (m : Memory S) (data_p : Option Ptr) (ys : List (Item S)) (c : Item S) (zs : List (Item S))
      → Chain m.cells null null (ys ++ c ∷ zs)
      → Returns (Taken m ys c zs (if is_some data_p then none else c.dealloc_func)) (
          remove_found data_p
            (ends_of (ys ++ c ∷ zs))
            c.addr
            (element (first null zs) (last null ys) c.data_ptr c.dealloc_func)
            m)
  unfolding remove_found
  remove_found-Taken m data_p ys c zs ch =
      let (front, back, apart) = cut m.cells null null ys (c ∷ zs) ch in
      let out : has c.addr (ys ++ zs) ≡ false =
        not-has-append_of c.addr ys zs (not-has_of_Apart ys (c ∷ zs) apart c.addr (ground arith))
          back.2 in
      Returns-bind _ (unlink-Unlinked m ys c zs ch) λ l m₂ p.
        let at = p.same c.addr out ∙ back.1 in
        let e : Element S = element (first null zs) (last null ys) c.data_ptr c.dealloc_func in
        let f : DeallocFunc S = if is_some data_p then none else c.dealloc_func in
        Returns-mono (erase-Erased m₂ c.addr e f c.data_ptr l back.0 at) λ l' m' post. record {
          listed = record {
            chain =
                frame m₂.cells m'.cells null null (ys ++ zs) p.chain
                  λ a i. post.same a (λ eq. cc (ap (λ x. has x (ys ++ zs)) eq));
            ends = post.list ∙ p.ends;
          };
          env = post.env ∙ ap (dealloc f c.data_ptr) p.env;
          freed = post.freed;
          same = λ a away.
              let (away₁, away₂) = not-has-append a ys (c ∷ zs) away in
              let (ne, away₃) = not-has-cons a c zs away₂ in
              post.same a ne ∙ p.same a (not-has-append_of a ys zs away₁ away₃);
        }
