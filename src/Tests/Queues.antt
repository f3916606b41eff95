-- ===== src/Tests/Queues.antt =====
-- gps/utils/msg_q.c on a queue of two messages.
use android_device_lenovo_a.Base.{
  ℕ, ◌≡◌, ◌⊎◌, inl, inr, refl, true, false, Option, none, some, List, [], ◌∷◌, ◌==◌, arith,
  if◌then◌else◌, subst, sym, ap, Bool,
}
use android_device_lenovo_a.Base.Run.{Returns}
use android_device_lenovo_a.LinkedList.Memory.{
  Ptr, null, DeallocFunc, Element, Cells, Memory, element,
}
use android_device_lenovo_a.LinkedList.Ops.{list_state}
use android_device_lenovo_a.LinkedList.Spec.{Item, item}
use android_device_lenovo_a.LinkedList.Flush.{Flushed}
use android_device_lenovo_a.MsgQ.Ops.{
  success, failure_general, MsgQ, Op, send, receive, unblock_all, run_ops, snd, rcv,
}
use android_device_lenovo_a.MsgQ.Spec.{IsQueue, Allocates, reversed}
use android_device_lenovo_a.MsgQ.Init.{
  Platform, Resources, init, destroy, with_queue, init-balanced, destroy-releases,
}
use android_device_lenovo_a.MsgQ.Send.{Sent, snd-Sent}
use android_device_lenovo_a.MsgQ.Receive.{Received}
use android_device_lenovo_a.MsgQ.Fifo.{View, Shows, operations, view_ops, run_ops-Shows}
use android_device_lenovo_a.MsgQ.Wait.{Woken, rcv-Received}

abbrev Log : Type 0
Log = List ℕ

abbrev logging : DeallocFunc Log
logging = some (λ d log. d ∷ log)

abbrev older : Item Log
older = item 10 100 logging

abbrev younger : Item Log
younger = item 20 200 none

abbrev two : List (Item Log)
two = older ∷ younger ∷ []

abbrev two_cells : Cells Log
two_cells p =
    if p == 20
    then some (element 10 0 200 none)
    else if p == 10
    then some (element 0 20 100 logging)
    else none

abbrev memory : Memory Log
memory = record { cells = two_cells; env = [] }

abbrev queue : MsgQ
queue = record { msg_list = some (list_state 20 10); list_cond = []; unblocked = false }

abbrev empty_queue : MsgQ
empty_queue = record { msg_list = some (list_state 0 0); list_cond = []; unblocked = false }

two-IsQueue : IsQueue memory queue two
two-IsQueue = record {
  list = list_state 20 10;
  at = refl;
  is = record {
    chain = ((λ e. omega arith), refl, refl, ((λ e. omega arith), refl, refl, tt));
    ends = refl;
  };
}

nil-IsQueue : IsQueue memory empty_queue []
nil-IsQueue = record { list = list_state 0 0; at = refl; is = record { chain = tt; ends = refl } }

abbrev choose : Option (Element Log) → Ptr
choose none = 30
choose (some c) = 0

-- One piece of memory is all there is.
abbrev malloc : Cells Log → Ptr
malloc h = choose (h 30)

malloc-Allocates : Allocates malloc
malloc-Allocates h = go (h 30) refl
  where
    go : (c : Option (Element Log)) → h 30 ≡ c → (malloc h ≡ null) ⊎ (h (malloc h) ≡ none)
    go none e = inr (subst (λ c. h (choose c) ≡ none) (sym e) e)
    go (some c) e = inl (ap choose e)

abbrev no_mutex : Platform
no_mutex = record { calloc_queue = true; calloc_list = true; mutex_init = false; cond_init = true }

abbrev nothing : Resources
nothing = record { queues = 0; lists = 0; mutexes = 0; conds = 0 }

init-balanced_example : init no_mutex (some none) nothing ≡ (failure_general, some none, nothing)
init-balanced_example = init-balanced no_mutex none nothing

destroy-releases_example :
    Returns
      (λ (err, h, r') m'.
        (err ≡ success) × (h ≡ some none) × (r' ≡ nothing) × Flushed memory (reversed two) m')
      (destroy 3 (some (some queue)) (with_queue nothing) memory)
destroy-releases_example = destroy-releases 3 memory queue two nothing two-IsQueue (omega arith)

snd-Sent_example :
    Returns (Sent two 300 none memory queue) (snd malloc (some queue) 300 none memory)
snd-Sent_example =
    snd-Sent malloc memory queue two 300 none malloc-Allocates two-IsQueue refl (λ e. omega arith)

abbrev waits : List (List (Op Log))
waits = (receive ∷ []) ∷ (send 300 none ∷ []) ∷ []

rcv-Received_example :
    Returns
      (λ r m'.
        (found : List (Item Log)) × (q₁ : MsgQ) × (m₁ : Memory Log) × Woken malloc malloc-Allocates
          5 waits empty_queue memory found q₁ m₁
        × Received 0 found q₁ m₁ r m')
      (rcv malloc 5 waits (some empty_queue) (some 0) memory)
rcv-Received_example =
    rcv-Received malloc malloc-Allocates 5 waits memory empty_queue [] 0 nil-IsQueue refl
      (omega arith)

-- The queue as its clients see it.
abbrev two_messages : View Log
two_messages = record { messages = (100, logging) ∷ (200, none) ∷ []; shut = false }

two-Shows : Shows two_messages queue memory
two-Shows = record { items = two; queue = two-IsQueue; messages = refl; shut = refl }

abbrev busy : List (Op Log)
busy = send 300 none ∷ receive ∷ send 0 none ∷ receive ∷ unblock_all ∷ send 400 none ∷ receive ∷ []

run_ops-Shows_example :
    Returns
      (λ q' m'.
        (with_memory : List (Bool × Op Log)) × (operations with_memory ≡ busy)
        × Shows (view_ops with_memory two_messages) q' m')
      (run_ops malloc 6 busy queue memory)
run_ops-Shows_example =
    run_ops-Shows malloc malloc-Allocates 6 busy memory queue two_messages two-Shows (omega arith)
