-- ===== src/Tests/LinkedLists.antt =====
-- gps/utils/linked_list.c on a list of two items.
use android_device_lenovo_a.Base.{
  ℕ, ◌≡◌, refl, Bool, true, none, some, List, [], ◌∷◌, ◌==◌, arith, if◌then◌else◌,
}
use android_device_lenovo_a.Base.Run.{Returns}
use android_device_lenovo_a.LinkedList.Memory.{Ptr, DeallocFunc, Cells, Memory, element}
use android_device_lenovo_a.LinkedList.Ops.{success, ListState, list_state, destroy, search}
use android_device_lenovo_a.LinkedList.Spec.{Item, item, IsList, ends_of, find}
use android_device_lenovo_a.LinkedList.Flush.{Flushed, destroy-Flushed}
use android_device_lenovo_a.LinkedList.Search.{Searched, search-find}

-- The data that was deallocated, the last first.
abbrev Log : Type 0
Log = List ℕ

abbrev logging : DeallocFunc Log
logging = some (λ d log. d ∷ log)

abbrev a : Item Log
a = item 10 100 logging

abbrev b : Item Log
b = item 20 200 none

abbrev two : List (Item Log)
two = a ∷ b ∷ []

abbrev two_cells : Cells Log
two_cells p =
    if p == 10
    then some (element 20 0 100 logging)
    else if p == 20
    then some (element 0 10 200 none)
    else none

abbrev memory : Memory Log
memory = record { cells = two_cells; env = [] }

two-IsList : IsList two_cells (ends_of two) two
two-IsList = record {
  chain = ((λ e. omega arith), refl, refl, ((λ e. omega arith), refl, refl, tt));
  ends = refl;
}

nil-IsList : IsList two_cells (list_state 0 0) []
nil-IsList = record { chain = tt; ends = refl }

-- Compares the data with `data_0` and logs the call.
abbrev equal : Ptr → Ptr → Log → Bool × Log
equal x y log = (x == y, y ∷ log)

destroy-Flushed_example :
    Returns
      (λ (err, h) m'. (err ≡ success) × (h ≡ some none) × Flushed memory two m')
      (destroy 3 (some (some (ends_of two))) memory)
destroy-Flushed_example = destroy-Flushed 3 memory (ends_of two) two two-IsList (omega arith)

search-find_example :
    Returns
      (λ (err, out, l') m'.
        (err ≡ success)
        × ((l'' : ListState) × (l' ≡ some l'')
            × Searched two_cells two true (some 0) (find (equal 200) two []) (out, l'') m'))
      (search 3 (some (ends_of two)) (some 7) (some equal) 200 true memory)
search-find_example =
    search-find 3 memory (ends_of two) a (b ∷ []) (some 7) equal 200 true two-IsList (omega arith)
