-- ===== src/SyncReq/Outcomes.antt =====
-- What a call of loc_sync_send_req of loc_api_sync_req.c comes to.
use android_device_lenovo_a.Base.{
  ℕ, zero, suc, ◌≡◌, refl, Bool, true, false, Option, none, some, List, [], ◌∷◌, arith, get_elem?,
  length, Bool-cases, inl, inr, sym, ◌∙◌, subst, ap,
}
use android_device_lenovo_a.SyncReq.Ops.{
  Ptr, Entry, SyncArray, free_entry, free_slot, select_ind, selected, is_match,
}
use android_device_lenovo_a.SyncReq.Calls.{
  Op, indication, run_op, run_ops, wait_entry, wait_for_ind, success, is_success, Course,
  send_selected, send_req,
}
use android_device_lenovo_a.SyncReq.Slots.{
  IsSync, get_elem?-modify_self, Selected, select_ind-Selected, select_ind-IsSync,
}
use android_device_lenovo_a.SyncReq.Process.{process_ind-first}
use android_device_lenovo_a.SyncReq.Requests.{run_ops-IsSync, wait_body-IsSync}

get_elem?-exists :
    {A : Type 0} (i : ℕ) (xs ys : List A) (x : A)
    → get_elem? xs i ≡ some x
    → length ys ≡ length xs
    → (y : A) × (get_elem? ys i ≡ some y)
get_elem?-exists i [] ys x at same = cc
get_elem?-exists i (z ∷ xs) [] x at same = absurd (omega arith)
get_elem?-exists zero (z ∷ xs) (y ∷ ys) x at same = (y, refl)
get_elem?-exists (suc i) (z ∷ xs) (y ∷ ys) x at same = get_elem?-exists i xs ys x at (omega arith)

-- Slot `i` is there and free.
abbrev pub IsFree : SyncArray → ℕ → Type 0
IsFree s i = (e : Entry) × (get_elem? s.entries i ≡ some e) × (e.slot_in_use ≡ false)

free_slot-IsFree :
    (i : ℕ) (s s' : SyncArray) (e : Entry)
    → get_elem? s.entries i ≡ some e
    → IsSync s
    → IsSync s'
    → IsFree (free_slot i s') i
unfolding free_slot
free_slot-IsFree i s s' e at is is' =
    let (y, at') = get_elem?-exists i s.entries s'.entries e at (is'.eight ∙ sym is.eight) in
    (free_entry, get_elem?-modify_self i _ s'.entries y at', refl)

module _ (table : List (ℕ × ℕ)) where
  wait_entry-IsFree :
      (i : ℕ) (during : List Op) (timed_out : Bool) (e : Entry) (s : SyncArray)
      → get_elem? s.entries i ≡ some e
      → IsSync s
      → IsFree (wait_entry table i during timed_out (some e) s).1 i
  unfolding wait_entry
  wait_entry-IsFree i during timed_out e s at is = elim (Bool-cases e.slot_in_use) [
    | inl u ↦
        rw u (free_slot-IsFree i s _ e at is (wait_body-IsSync table i during timed_out e s is))
    | inr f ↦ simp f (e, at, f)
  ]

  send_selected-IsFree :
      (c : Course) (i : ℕ) (e : Entry) (s : SyncArray)
      → get_elem? s.entries i ≡ some e
      → IsSync s
      → IsFree (send_selected table c (some i, s)).2 i
  send_selected-IsFree c i e s at is =
      let is' = run_ops-IsSync table c.before s is in
      let (y, at') =
        get_elem?-exists i s.entries (run_ops table c.before s).entries e at
          (is'.eight ∙ sym is.eight) in
      elim (Bool-cases (is_success c.sent)) [
        | inl ok ↦
            rw ok (
              unfold wait_for_ind in
              (rw at' (wait_entry-IsFree i c.during c.timed_out y _ at' is')))
        | inr ko ↦ rw ko (free_slot-IsFree i s _ e at is is')
      ]

  -- A request that got slot `i` has given it back when it returns, on every path.
  pub send_req-IsFree :
      (c : Course) (handle : Ptr) (req ind : ℕ) (payload : Ptr) (s : SyncArray) (i : ℕ)
      → IsSync s
      → (select_ind handle ind req payload s).0 ≡ some i
      → IsFree (send_req table c handle req ind payload s).2 i
  unfolding send_req
  send_req-IsFree c handle req ind payload s i is got =
      go (select_ind handle ind req payload s) got (select_ind-Selected handle ind req payload s)
        (select_ind-IsSync handle ind req payload s is)
    where
      go :
          (r : Option ℕ × SyncArray)
          → r.0 ≡ some i
          → Selected s (selected handle ind req payload) r
          → IsSync r.1
          → IsFree (send_selected table c r).2 i
      go (none, s') e sel is' = cc
      go (some k, s') e sel is' =
          let same : k ≡ i = cc in
          subst (λ x. IsFree (send_selected table c (some k, s')).2 x) same
            (send_selected-IsFree c k _ s' sel.1 is')

  -- When every slot is taken loc_sync_send_req reports success, though it sent nothing.
  pub send_req-full :
      (c : Course) (handle : Ptr) (req ind : ℕ) (payload : Ptr) (s : SyncArray)
      → ((j : ℕ) (e : Entry) → get_elem? s.entries j ≡ some e → e.slot_in_use ≡ true)
      → send_req table c handle req ind payload s ≡ (success, false, s)
  unfolding send_req
  send_req-full c handle req ind payload s full =
      go (select_ind handle ind req payload s) (select_ind-Selected handle ind req payload s)
    where
      go :
          (r : Option ℕ × SyncArray)
          → Selected s (selected handle ind req payload) r
          → send_selected table c r ≡ (success, false, s)
      go (none, s') sel = ap (λ x. (success, false, x)) sel.0
      go (some k, s') sel = let ((e, at, free), rest, others, on) = sel in cc (full k e at)

  -- An indication that arrives after the request is sent and before the wait is not lost: if no
  -- other request waits for the same, the request succeeds without waiting.
  pub send_req-early :
      (c : Course) (handle from : Ptr) (req ind : ℕ) (payload : Ptr) (s : SyncArray) (i : ℕ)
      → (select_ind handle ind req payload s).0 ≡ some i
      → c.before ≡ indication handle ind from ∷ []
      → c.sent ≡ success
      → ((j : ℕ) (e : Entry) → get_elem? s.entries j ≡ some e → is_match handle ind e ≡ false)
      → ((send_req table c handle req ind payload s).0 ≡ success)
        × ((send_req table c handle req ind payload s).1 ≡ true)
  unfolding send_req run_ops
  send_req-early c handle from req ind payload s i got before sent alone =
      go (select_ind handle ind req payload s) got (select_ind-Selected handle ind req payload s)
    where
      go :
          (r : Option ℕ × SyncArray)
          → r.0 ≡ some i
          → Selected s (selected handle ind req payload) r
          → ((send_selected table c r).0 ≡ success) × ((send_selected table c r).1 ≡ true)
      go (none, s') e sel = cc
      go (some k, s') e sel =
          simp (before, sent)
            (unfold run_op wait_entry in
              (let (was, now, others, on) = sel in
                rw
                  (process_ind-first table handle ind from s' k _ on now (ground arith)
                    (λ j d lt at. alone j d (sym (others j (omega arith)) ∙ at)))
                  (refl, refl)))
