-- ===== src/LinkedList/Memory/Laws.antt =====
-- What the accesses of gps/utils/linked_list.c do at an address that holds an element.
use android_device_lenovo_a.Base.{◌≡◌, ◌≢◌, false, none, some, arith, ◌==◌, Option}
use android_device_lenovo_a.Base.Run.{ok}
use android_device_lenovo_a.LinkedList.Memory.{
  Ptr, null, Element, Cells, Memory, write, load, set_next, set_prev, free,
}

pub ne_null : (p : Ptr) → p ≢ null → (p == null) ≡ false
ne_null p h = ground arith

module _ {S : Type 0} where
  pub write_self : (h : Cells S) (p : Ptr) (c : Option (Element S)) → write h p c p ≡ c
  unfolding write
  write_self h p c = ground arith

  module _ (p : Ptr) (m : Memory S) (e : Element S) (ne : p ≢ null) (at : m.cells p ≡ some e) where
    pub load-ok : load p m ≡ ok e m
    unfolding load
    load-ok = rw (ne_null p ne, at)

    pub set_next-ok :
        (q : Ptr)
        → set_next p q m
          ≡ ok tt (record m { cells = write m.cells p (some (record e { next = q })) })
    unfolding set_next
    set_next-ok q = rw (ne_null p ne, at)

    pub set_prev-ok :
        (q : Ptr)
        → set_prev p q m
          ≡ ok tt (record m { cells = write m.cells p (some (record e { prev = q })) })
    unfolding set_prev
    set_prev-ok q = rw (ne_null p ne, at)

    pub free-ok : free p m ≡ ok tt (record m { cells = write m.cells p none })
    unfolding free
    free-ok = rw (ne_null p ne, at)
