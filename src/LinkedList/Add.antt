-- ===== src/LinkedList/Add.antt =====
-- linked_list_add of gps/utils/linked_list.c puts an item in front.
use android_device_lenovo_a.Base.{◌≡◌, ◌≢◌, refl, none, some, List, [], ◌∷◌, arith, ◌∙◌}
use android_device_lenovo_a.Base.Run.{ok, Returns, returns}
use android_device_lenovo_a.LinkedList.Memory.{Ptr, null, DeallocFunc, Memory, element, write}
use android_device_lenovo_a.LinkedList.Memory.Laws.{write_self, ne_null, set_next-ok, set_prev-ok}
use android_device_lenovo_a.LinkedList.Ops.{success, failure_general, ListState, add}
use android_device_lenovo_a.LinkedList.Spec.{Item, item, Chain, IsList, ends_of}
use android_device_lenovo_a.LinkedList.Chains.{
  write-other₂, frame-write, not-has_of_none, relink_prev, write-other,
}
use android_device_lenovo_a.LinkedList.Outcome.{Outcome}

module _ {S : Type 0} where
  add_ends :
      (m : Memory S) (xs : List (Item S)) (fresh d : Ptr) (f : DeallocFunc S)
      → Chain m.cells null null xs
      → d ≢ null
      → fresh ≢ null
      → m.cells fresh ≡ none
      → Returns
          (λ (err, l) m'.
            (err ≡ success) × Outcome m (item fresh d f ∷ xs) (item fresh d f ∷ xs) l m')
          (add fresh (some (ends_of xs)) d f m)
  unfolding add
  add_ends m [] fresh d f ch dn fn unused =
      let m₁ : Memory S = record m { cells = write m.cells fresh (some (element null null d f)) } in
      let e₁ = set_next-ok fresh m₁ (element null null d f) fn (write_self m.cells fresh _) null in
      rw (ne_null d dn, ne_null fresh fn, e₁)
        (returns (
          refl,
          record {
            listed = record { chain = (fn, write_self _ _ _, refl, tt); ends = refl };
            env = refl;
            same = λ a out. write-other₂ m.cells _ _ _ _ a (ground arith) (ground arith);
          },
        ))
  add_ends m (c ∷ xs) fresh d f ch dn fn unused =
      let h₁ = write m.cells fresh (some (element null null d f)) in
      let h₂ = write h₁ fresh (some (element c.addr null d f)) in
      let out = not-has_of_none m.cells null null (c ∷ xs) fresh ch unused in
      let ch₁ =
        frame-write m.cells null null (c ∷ xs) fresh (some (element null null d f)) ch out in
      let ch₂ = frame-write h₁ null null (c ∷ xs) fresh (some (element c.addr null d f)) ch₁ out in
      let e₁ =
        set_next-ok fresh (record m { cells = h₁ }) (element null null d f) fn
          (write_self m.cells fresh _) c.addr in
      let e₂ = set_prev-ok c.addr (record m { cells = h₂ }) _ ch.0 ch₂.1 fresh in
      let apart : fresh ≢ c.addr = ground arith in
      rw (ne_null d dn, ne_null fresh fn, e₁, ne_null c.addr ch.0, e₂)
        (returns (
          refl,
          record {
            listed = record {
              chain = (
                fn,
                write-other h₂ c.addr _ fresh apart ∙ write_self h₁ fresh _,
                out,
                relink_prev h₂ null null fresh c xs ch₂,
              );
              ends = refl;
            };
            env = refl;
            same = λ a away.
                write-other h₂ c.addr _ a (ground arith)
                ∙ write-other₂ m.cells fresh fresh _ _ a (ground arith) (ground arith);
          },
        ))

  -- On a well-formed list, with a NULL-free item and memory at hand, linked_list_add reports success
  -- and puts the item in front; it changes no element outside the new list.
  pub add-cons :
      (m : Memory S) (l : ListState) (xs : List (Item S)) (fresh d : Ptr) (f : DeallocFunc S)
      → IsList m.cells l xs
      → d ≢ null
      → fresh ≢ null
      → m.cells fresh ≡ none
      → Returns
          (λ (err, l') m'.
            (err ≡ success) × Outcome m (item fresh d f ∷ xs) (item fresh d f ∷ xs) l' m')
          (add fresh (some l) d f m)
  add-cons m l xs fresh d f is dn fn unused =
      rw is.ends (add_ends m xs fresh d f is.chain dn fn unused)

  -- When malloc fails linked_list_add says so, and changes nothing.
  pub add-null :
      (m : Memory S) (l : ListState) (d : Ptr) (f : DeallocFunc S)
      → d ≢ null
      → add null (some l) d f m ≡ ok (failure_general, some l) m
  unfolding add
  add-null m l d f dn = rw (ne_null d dn) refl
