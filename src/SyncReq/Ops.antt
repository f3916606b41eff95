-- ===== src/SyncReq/Ops.antt =====
-- The functions of gps/loc_api/loc_api_v02/loc_api_sync_req.c on the global `loc_sync_array`. The
-- mutexes make each a step, but for the wait of loc_sync_wait_for_ind, where other threads run.
-- A slot and its `slot_in_use` flag stand together.
use android_device_lenovo_a.Base.{
  ℕ, zero, suc, ◌+◌, Bool, true, false, ◌&&◌, ◌||◌, not, Option, none, some, List, [], ◌∷◌, ◌++◌,
  ◌==◌, if◌then◌else◌, is_some,
}

-- `none` is NULL, which LOC_CLIENT_INVALID_HANDLE_VALUE is too.
abbrev pub Ptr : Type 0
Ptr = ℕ

abbrev pub null : Ptr
null = 0

pub record Slot : Type 0 where
  pub client_handle : Ptr
  pub ind_is_selected : Bool
  pub ind_is_waiting : Bool
  pub ind_has_arrived : Bool
  pub req_id : ℕ
  pub recv_ind_payload_ptr : Ptr
  pub recv_ind_id : ℕ

pub record Entry : Type 0 where
  pub slot_in_use : Bool
  pub slot : Slot

pub record SyncArray : Type 0 where
  pub initialized : Bool
  pub in_use : Bool
  pub entries : List Entry

abbrev pub blank : Slot
blank = record {
  client_handle = null;
  ind_is_selected = false;
  ind_is_waiting = false;
  ind_has_arrived = false;
  req_id = 0;
  recv_ind_payload_ptr = null;
  recv_ind_id = 0;
}

abbrev pub free_entry : Entry
free_entry = record { slot_in_use = false; slot = blank }

abbrev pub buffer_size : ℕ
buffer_size = 8

module _ {ℓ} {A : Type ℓ} where
  abbrev pub replicate : ℕ → A → List A
  replicate zero a = []
  replicate (suc n) a = a ∷ replicate n a

  -- A write through a pointer to an element.
  abbrev pub modify : ℕ → (A → A) → List A → List A
  modify i f [] = []
  modify zero f (x ∷ xs) = f x ∷ xs
  modify (suc i) f (x ∷ xs) = x ∷ modify i f xs

unfoldable pub init : SyncArray → SyncArray
init s =
    if s.initialized
    then s
    else record { initialized = true; in_use = false; entries = replicate buffer_size free_entry }

-- What loc_sync_process_ind does besides: a memcpy to a payload pointer, a signal to a slot's waiter.
pub data Event : Type 0 where
  copy : (to from size : ℕ) → Event
  signal : (slot : ℕ) → Event

-- locClientGetSizeByRespIndId, a lookup in the table of indication ids and sizes.
unfoldable pub get_size_by_resp_ind_id : List (ℕ × ℕ) → ℕ → Option ℕ
get_size_by_resp_ind_id [] ind = none
get_size_by_resp_ind_id ((id, size) ∷ table) ind =
    if ind == id then some size else get_size_by_resp_ind_id table ind

-- The condition under which a slot takes an indication.
abbrev pub is_match : Ptr → ℕ → Entry → Bool
is_match handle ind e =
    e.slot_in_use
    && ((e.slot.client_handle == handle)
        && ((ind == e.slot.recv_ind_id) && not e.slot.ind_has_arrived))

-- The copy to a slot, if there is one.
unfoldable pub copy_to : Option ℕ → (payload : Ptr) → Slot → Option Event
copy_to none payload t = none
copy_to (some size) payload t =
    if (t.recv_ind_payload_ptr == null) || (payload == null)
    then none
    else some (copy t.recv_ind_payload_ptr payload size)

abbrev pub to_list : Option Event → List Event
to_list none = []
to_list (some e) = e ∷ []

-- A slot that is not waited for remembers the arrival.
abbrev pub notified : ℕ → Slot → Slot
notified ind t =
    if t.ind_is_waiting then record t { recv_ind_id = ind } else record t { ind_has_arrived = true }

-- A waiter is woken.
abbrev pub signalled : ℕ → Slot → List Event
signalled i t = if t.ind_is_waiting then signal i ∷ [] else []

-- The loop over the slots, from slot `i`, until the indication is consumed.
unfoldable pub process_loop :
    List (ℕ × ℕ)
    → (handle : Ptr) (ind : ℕ) (payload : Ptr) → (i : ℕ) (in_use consumed : Bool) → List Entry
    → Bool × List Entry × List Event
unfolding copy_to get_size_by_resp_ind_id
process_loop table handle ind payload i in_use consumed [] = (in_use, [], [])
process_loop table handle ind payload i in_use true (e ∷ es) = (in_use, e ∷ es, [])
process_loop table handle ind payload i in_use false (e ∷ es) =
    if is_match handle ind e
    then (let copied = copy_to (get_size_by_resp_ind_id table ind) payload e.slot in
        let (used, es', events) =
          process_loop table handle ind payload (i + 1) (in_use || e.slot_in_use) (is_some copied)
            es in
        (
          used,
          record e { slot = notified ind e.slot } ∷ es',
          to_list copied ++ (signalled i e.slot ++ events),
        ))
    else (let (used, es', events) =
          process_loop table handle ind payload (i + 1) (in_use || e.slot_in_use) false es in
        (used, e ∷ es', events))

unfoldable pub process_ind : List (ℕ × ℕ) → Ptr → ℕ → Ptr → SyncArray → SyncArray × List Event
unfolding process_loop
process_ind table handle ind payload s =
    if not s.in_use
    then (s, [])
    else (let (used, es, events) = process_loop table handle ind payload 0 false false s.entries in
        (record s { in_use = if not used then false else s.in_use; entries = es }, events))

unfoldable pub find_free : ℕ → List Entry → Option ℕ
find_free i [] = none
find_free i (e ∷ es) = if not e.slot_in_use then some i else find_free (i + 1) es

abbrev pub take_slot : Option ℕ → SyncArray → Option ℕ × SyncArray
take_slot none s = (none, s)
take_slot (some i) s = (
  some i,
  record s { entries = modify i (λ e. record e { slot_in_use = true }) s.entries; in_use = true },
)

-- `none` is -1: the buffer is full.
unfoldable pub alloc_slot : SyncArray → Option ℕ × SyncArray
unfolding find_free
alloc_slot s = take_slot (find_free 0 s.entries) s

unfoldable pub any_in_use : List Entry → Bool
any_in_use [] = false
any_in_use (e ∷ es) = e.slot_in_use || any_in_use es

unfoldable pub free_slot : ℕ → SyncArray → SyncArray
unfolding any_in_use
free_slot i s =
    let es = modify i (λ _. free_entry) s.entries in
    record s { entries = es; in_use = if any_in_use es then s.in_use else false }

-- The request of a caller, written to its slot.
abbrev pub selected : Ptr → ℕ → ℕ → Ptr → Slot
selected handle ind req payload = record {
  client_handle = handle;
  ind_is_selected = true;
  ind_is_waiting = false;
  ind_has_arrived = false;
  recv_ind_id = ind;
  req_id = req;
  recv_ind_payload_ptr = payload;
}

abbrev pub fill_slot : Slot → Option ℕ × SyncArray → Option ℕ × SyncArray
fill_slot t (none, s) = (none, s)
fill_slot t (some i, s) =
    (some i, record s { entries = modify i (λ e. record e { slot = t }) s.entries })

-- `none` is -ENOMEM.
unfoldable pub select_ind : Ptr → ℕ → ℕ → Ptr → SyncArray → Option ℕ × SyncArray
unfolding alloc_slot
select_ind handle ind req payload s = fill_slot (selected handle ind req payload) (alloc_slot s)
