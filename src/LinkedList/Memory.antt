-- ===== src/LinkedList/Memory.antt =====
-- The heap of gps/utils/linked_list.c: the elements, and the rest of the program's state `S`,
-- which the callbacks (dealloc functions and comparisons) act on. A callback does not touch the
-- elements, which are private to linked_list.c.
pub mod Laws
use android_device_lenovo_a.Base.{ℕ, Option, none, some, ◌==◌, if◌then◌else◌}
use android_device_lenovo_a.Base.Run.{ok, fault, Cmd, pure, ◌>>=◌, ◌>>◌}

abbrev pub Ptr : Type 0
Ptr = ℕ

abbrev pub null : Ptr
null = 0

-- `void (*)(void*)`: what the call does to the state, given the data pointer.
abbrev pub DeallocFunc : Type 0 → Type 0
DeallocFunc S = Option (Ptr → S → S)

pub record Element (S : Type 0) : Type 0 where
  pub next : Ptr
  pub prev : Ptr
  pub data_ptr : Ptr
  pub dealloc_func : DeallocFunc S

abbrev pub Cells : Type 0 → Type 0
Cells S = Ptr → Option (Element S)

pub record Memory (S : Type 0) : Type 0 where
  pub cells : Cells S
  pub env : S

module _ {S : Type 0} where
  unfoldable pub write : Cells S → Ptr → Option (Element S) → Cells S
  write h p c a = if a == p then c else h a

  abbrev pub element : Ptr → Ptr → Ptr → DeallocFunc S → Element S
  element n p d f = record { next = n; prev = p; data_ptr = d; dealloc_func = f }

  abbrev pub store : Ptr → Option (Element S) → Cmd (Memory S) (Unit {0})
  store p c m = ok tt (record m { cells = write m.cells p c })

  -- `*p`: a fault at `NULL` and at an address that holds no element.
  unfoldable pub load : Ptr → Cmd (Memory S) (Element S)
  load p m = if p == null then fault else elim (m.cells p) [ none ↦ fault | some e ↦ ok e m ]

  -- `p->next = q`
  unfoldable pub set_next : Ptr → Ptr → Cmd (Memory S) (Unit {0})
  unfolding load
  set_next p q = do e ← load p; store p (some (record e { next = q }))

  -- `p->prev = q`
  unfoldable pub set_prev : Ptr → Ptr → Cmd (Memory S) (Unit {0})
  unfolding load
  set_prev p q = do e ← load p; store p (some (record e { prev = q }))

  unfoldable pub free : Ptr → Cmd (Memory S) (Unit {0})
  unfolding load
  free p = load p >> store p none

  -- A call of a function that acts on the rest of the state.
  abbrev pub call : {A : Type 0} → (S → A × S) → Cmd (Memory S) A
  call f m = let (a, s) = f m.env in ok a (record m { env = s })

  -- `if (f != NULL) f(data)`
  unfoldable pub call_dealloc : DeallocFunc S → Ptr → Cmd (Memory S) (Unit {0})
  call_dealloc none d = pure tt
  call_dealloc (some f) d = call (λ s. (tt, f d s))
