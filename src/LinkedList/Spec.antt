-- ===== src/LinkedList/Spec.antt =====
-- What a list of gps/utils/linked_list.c stands for: its items from head to tail, and the shape of
-- the heap that holds them.
use android_device_lenovo_a.Base.{
  ◌≡◌, ◌≢◌, Bool, false, ◌||◌, Option, none, some, List, [], ◌∷◌, ◌==◌, if◌then◌else◌,
}
use android_device_lenovo_a.LinkedList.Memory.{Ptr, null, DeallocFunc, Cells, element}
use android_device_lenovo_a.LinkedList.Ops.{ListState, list_state}

pub record Item (S : Type 0) : Type 0 where
  pub addr : Ptr
  pub data_ptr : Ptr
  pub dealloc_func : DeallocFunc S

-- The first item that `equal` accepts, the items before it, and those behind it. The comparisons
-- up to it act on the state.
pub record Found (S : Type 0) : Type 0 where
  pub before : List (Item S)
  pub hit : Option (Item S)
  pub behind : List (Item S)
  pub env : S

module _ {S : Type 0} where
  abbrev pub item : Ptr → Ptr → DeallocFunc S → Item S
  item a d f = record { addr = a; data_ptr = d; dealloc_func = f }

  -- The address of the first item, or what follows an empty list.
  abbrev pub first : Ptr → List (Item S) → Ptr
  first stop [] = stop
  first stop (c ∷ xs) = c.addr

  -- The address of the last item, or what precedes an empty list.
  abbrev pub last : Ptr → List (Item S) → Ptr
  last prev [] = prev
  last prev (c ∷ xs) = last c.addr xs

  abbrev pub has : Ptr → List (Item S) → Bool
  has a [] = false
  has a (c ∷ xs) = (a == c.addr) || has a xs

  -- The items lie in the heap one after the other, at distinct addresses, linked both ways; `prev`
  -- precedes the first and `stop` follows the last.
  abbrev pub Chain : Cells S → Ptr → Ptr → List (Item S) → Type 0
  Chain h prev stop [] = Unit {0}
  Chain h prev stop (c ∷ xs) =
      (c.addr ≢ null)
      × (h c.addr ≡ some (element (first stop xs) prev c.data_ptr c.dealloc_func))
      × (has c.addr xs ≡ false)
      × Chain h c.addr stop xs

  -- The handle of a list: NULL twice if the list is empty.
  abbrev pub ends_of : List (Item S) → ListState
  ends_of xs = list_state (first null xs) (last null xs)

  pub record IsList (h : Cells S) (l : ListState) (xs : List (Item S)) : Type 0 where
    pub chain : Chain h null null xs
    pub ends : l ≡ ends_of xs

  -- `IsList` at a handle that is not NULL.
  abbrev pub Listed : Cells S → Option ListState → List (Item S) → Type 0
  Listed h none xs = ⊥
  Listed h (some l) xs = IsList h l xs

  -- `g` differs from `h` at most at the addresses of `xs`.
  abbrev pub SameOutside : List (Item S) → Cells S → Cells S → Type 0
  SameOutside xs h g = (a : Ptr) → has a xs ≡ false → g a ≡ h a

  -- The state after the items' data is deallocated, from the head on.
  abbrev pub dealloc : DeallocFunc S → Ptr → S → S
  dealloc none d s = s
  dealloc (some f) d s = f d s

  unfoldable pub dealloc_all : List (Item S) → S → S
  dealloc_all [] s = s
  dealloc_all (c ∷ xs) s = dealloc_all xs (dealloc c.dealloc_func c.data_ptr s)

  unfoldable pub find : (Ptr → S → Bool × S) → List (Item S) → S → Found S
  find equal [] s = record { before = []; hit = none; behind = []; env = s }
  find equal (c ∷ xs) s =
      let (same, s') = equal c.data_ptr s in
      let rest = find equal xs s' in
      if same
      then record { before = []; hit = some c; behind = xs; env = s' }
      else record rest { before = c ∷ rest.before }
