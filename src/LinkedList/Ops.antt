-- ===== src/LinkedList/Ops.antt =====
-- The functions of gps/utils/linked_list.c. `list_data` is `none` where the handle is `NULL`; a
-- function that updates the `list_state` behind it returns the new one. An out-parameter is `none`
-- where its address is `NULL`, and otherwise the value that it holds. Loops run on fuel.
use android_device_lenovo_a.Base.{
  ℕ, zero, suc, Bool, true, false, Option, none, some, ◌==◌, if◌then◌else◌, is_some,
}
use android_device_lenovo_a.Base.Int.{ℤ, pos, negsuc}
use android_device_lenovo_a.Base.Run.{out_of_fuel, Cmd, pure, ◌>>=◌, ◌>>◌}
use android_device_lenovo_a.LinkedList.Memory.{
  Ptr, null, DeallocFunc, Element, Memory, element, store, load, set_next, set_prev, free, call,
  call_dealloc,
}

pub data Err : Type 0 where
  success failure_general invalid_parameter invalid_handle : Err
  unavailable_resource insufficient_buffer : Err

pub record ListState : Type 0 where
  pub p_head : Ptr
  pub p_tail : Ptr

abbrev pub list_state : Ptr → Ptr → ListState
list_state h t = record { p_head = h; p_tail = t }

-- `calloced` says whether `calloc` succeeds. The outer `Option` is the address `list_data`, the
-- inner one the handle at it.
unfoldable pub init :
    (calloced : Bool) → Option (Option ListState) → Err × Option (Option ListState)
init calloced none = (invalid_parameter, none)
init false (some h) = (failure_general, some h)
init true (some h) = (success, some (some (list_state null null)))

-- The handle error is the number -3.
unfoldable pub empty : Option ListState → ℤ
empty none = negsuc 2
empty (some l) = if l.p_head == null then pos 1 else pos 0

-- `*data_p = v`, where `data_p` is not `NULL`.
abbrev pub assign : Option Ptr → Ptr → Option Ptr
assign none v = none
assign (some _) v = some v

module _ {S : Type 0} where
  -- `fresh` is what `malloc` returns.
  unfoldable pub add :
      (fresh : Ptr)
      → Option ListState
      → Ptr
      → DeallocFunc S
      → Cmd (Memory S) (Err × Option ListState)
  add fresh none data_obj dealloc = pure (invalid_handle, none)
  add fresh (some l) data_obj dealloc =
      if data_obj == null
      then pure (invalid_parameter, some l)
      else if fresh == null
      then pure (failure_general, some l)
      else do
        store fresh (some (element null null data_obj dealloc))
        set_next fresh l.p_head
        if l.p_head == null
            then pure (success, some (list_state fresh fresh))
            else do set_prev l.p_head fresh; pure (success, some (list_state fresh l.p_tail))

  -- `p_tail = tmp->prev`, and what follows from it for the new tail or the head.
  unfoldable pub drop_tail : ListState → Element S → Cmd (Memory S) ListState
  drop_tail l tmp =
      if tmp.prev == null
      then pure (list_state null null)
      else do set_next tmp.prev null; pure (list_state l.p_head tmp.prev)

  unfoldable pub remove :
      Option ListState
      → (data_obj : Option Ptr) → Cmd (Memory S) (Err × Option Ptr × Option ListState)
  unfolding drop_tail
  remove none out = pure (invalid_handle, out, none)
  remove (some l) none = pure (invalid_parameter, none, some l)
  remove (some l) (some v) =
      if l.p_tail == null then pure (unavailable_resource, some v, some l) else do
        tmp ← load l.p_tail
        l' ← drop_tail l tmp
        free l.p_tail
        pure (success, some tmp.data_ptr, some l')

  unfoldable pub flush_loop : ℕ → (p_head : Ptr) → Cmd (Memory S) (Unit {0})
  flush_loop zero p = λ _. out_of_fuel
  flush_loop (suc k) p =
      if p == null
      then pure tt
      else do e ← load p; call_dealloc e.dealloc_func e.data_ptr; free p; flush_loop k e.next

  unfoldable pub flush : (fuel : ℕ) → Option ListState → Cmd (Memory S) (Err × Option ListState)
  unfolding flush_loop
  flush fuel none = pure (invalid_handle, none)
  flush fuel (some l) = do flush_loop fuel l.p_head; pure (success, some (list_state null null))

  -- `linked_list_destroy` flushes, frees the `list_state` and clears the handle.
  unfoldable pub destroy :
      (fuel : ℕ) → Option (Option ListState) → Cmd (Memory S) (Err × Option (Option ListState))
  unfolding flush
  destroy fuel none = pure (invalid_handle, none)
  destroy fuel (some h) = do flush fuel h; pure (success, some none)

  -- The element `tmp` leaves the list: its neighbours, or the ends of the list, are joined.
  unfoldable pub unlink : ListState → Element S → Cmd (Memory S) ListState
  unlink l e = do
    head ← if e.prev == null then pure e.next else do set_next e.prev e.next; pure l.p_head
    tail ← if e.next == null then pure e.prev else do set_prev e.next e.prev; pure l.p_tail
    pure (list_state head tail)

  -- The body of `if (rm_if_found)`: the data is deallocated only if it is not copied out.
  unfoldable pub remove_found :
      (data_p : Option Ptr) → ListState → (tmp : Ptr) → Element S → Cmd (Memory S) ListState
  unfolding unlink call_dealloc
  remove_found data_p l tmp e = do
    l' ← unlink l e
    set_next tmp null
    set_prev tmp null
    call_dealloc (if is_some data_p then none else e.dealloc_func) e.data_ptr
    free tmp
    pure l'

  -- The body of `if (equal(...))`, which ends the loop.
  unfoldable pub found :
      (rm_if_found : Bool) (data_p : Option Ptr)
      → ListState
      → (tmp : Ptr) → Element S
      → Cmd (Memory S) (Option Ptr × ListState)
  unfolding remove_found
  found false data_p l tmp e = pure (assign data_p e.data_ptr, l)
  found true data_p l tmp e = do
    l' ← remove_found data_p l tmp e
    pure (assign data_p e.data_ptr, l')

  unfoldable pub search_loop :
      (equal : Ptr → S → Bool × S) (rm_if_found : Bool)
      → ℕ
      → (tmp : Ptr) (data_p : Option Ptr) → ListState
      → Cmd (Memory S) (Option Ptr × ListState)
  unfolding found
  search_loop equal rm zero tmp data_p l = λ _. out_of_fuel
  search_loop equal rm (suc k) tmp data_p l = if tmp == null then pure (data_p, l) else do
    e ← load tmp
    hit ← call (equal e.data_ptr)
    if hit then found rm data_p l tmp e else search_loop equal rm k e.next data_p l

  unfoldable pub search :
      (fuel : ℕ)
      → Option ListState
      → (data_p : Option Ptr)
      → (equal : Option (Ptr → Ptr → S → Bool × S)) (data_0 : Ptr) (rm_if_found : Bool)
      → Cmd (Memory S) (Err × Option Ptr × Option ListState)
  unfolding search_loop
  search fuel none data_p equal data_0 rm = pure (invalid_handle, data_p, none)
  search fuel (some l) data_p none data_0 rm = pure (invalid_handle, data_p, some l)
  search fuel (some l) data_p (some equal) data_0 rm =
      if l.p_tail == null then pure (unavailable_resource, data_p, some l) else do
        (out, l') ← search_loop (equal data_0) rm fuel l.p_head (assign data_p null) l
        pure (success, out, some l')
