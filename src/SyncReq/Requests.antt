-- ===== src/SyncReq/Requests.antt =====
-- loc_sync_wait_for_ind and loc_sync_send_req of loc_api_sync_req.c.
use android_device_lenovo_a.Base.{
  ℕ, ◌≡◌, refl, Bool, true, false, Option, none, some, List, [], ◌∷◌, Bool-cases, inl, inr,
}
use android_device_lenovo_a.SyncReq.Ops.{
  Ptr, null, Slot, Entry, SyncArray, blank, free_entry, buffer_size, replicate, modify, init,
  process_ind, free_slot, select_ind, selected, is_match,
}
use android_device_lenovo_a.SyncReq.Calls.{
  Op, indication, select, release, set_waiting, run_op, run_ops, wait_body, wait_entry,
  wait_for_ind, is_success, Course, send_selected, send_req,
}
use android_device_lenovo_a.SyncReq.Slots.{
  IsSync, select_ind-IsSync, free_slot-IsSync, mark_waiting-IsSync,
}
use android_device_lenovo_a.SyncReq.Process.{process_ind-IsSync}

-- Initialisation, also a repeated one, leaves a consistent array.
pub init-IsSync : (s : SyncArray) → (s.initialized ≡ true → IsSync s) → IsSync (init s)
unfolding init
init-IsSync s is = elim (Bool-cases s.initialized) [
  | inl on ↦ simp on (is on)
  | inr off ↦ simp off (record {
    eight = refl;
    flag = unfold android_device_lenovo_a.SyncReq.Ops.any_in_use in refl;
  })
]

module _ (table : List (ℕ × ℕ)) where
  run_op-IsSync : (o : Op) (s : SyncArray) → IsSync s → IsSync (run_op table o s)
  unfolding run_op
  run_op-IsSync (indication handle ind payload) s is =
      process_ind-IsSync table handle ind payload s is
  run_op-IsSync (select handle ind req payload) s is = select_ind-IsSync handle ind req payload s is
  run_op-IsSync (release i) s is = free_slot-IsSync i s is
  run_op-IsSync (set_waiting i b) s is = mark_waiting-IsSync i b s is

  pub run_ops-IsSync : (os : List Op) (s : SyncArray) → IsSync s → IsSync (run_ops table os s)
  unfolding run_ops
  run_ops-IsSync [] s is = is
  run_ops-IsSync (o ∷ os) s is = run_ops-IsSync os (run_op table o s) (run_op-IsSync o s is)

  pub wait_body-IsSync :
      (i : ℕ) (during : List Op) (timed_out : Bool) (e : Entry) (s : SyncArray)
      → IsSync s
      → IsSync (wait_body table i during timed_out e s).1
  unfolding wait_body
  wait_body-IsSync i during timed_out e s is = elim (Bool-cases e.slot.ind_has_arrived) [
    | inl a ↦ rw a is
    | inr na ↦ rw na (elim (Bool-cases e.slot.ind_is_waiting) [
      | inl w ↦ rw w is
      | inr nw ↦ rw nw (
          mark_waiting-IsSync i false _ (run_ops-IsSync during _ (mark_waiting-IsSync i true s is)))
    ])
  ]

  wait_entry-IsSync :
      (i : ℕ) (during : List Op) (timed_out : Bool) (o : Option Entry) (s : SyncArray)
      → IsSync s
      → IsSync (wait_entry table i during timed_out o s).1
  unfolding wait_entry
  wait_entry-IsSync i during timed_out none s is = is
  wait_entry-IsSync i during timed_out (some e) s is = elim (Bool-cases e.slot_in_use) [
    | inl u ↦ rw u (free_slot-IsSync i _ (wait_body-IsSync i during timed_out e s is))
    | inr f ↦ rw f is
  ]

  send_selected-IsSync :
      (c : Course) (r : Option ℕ × SyncArray) → IsSync r.1 → IsSync (send_selected table c r).2
  send_selected-IsSync c (none, s) is = is
  send_selected-IsSync c (some i, s) is = elim (Bool-cases (is_success c.sent)) [
    | inl ok ↦ rw ok (
        unfold wait_for_ind in
        (wait_entry-IsSync i c.during c.timed_out _ _ (run_ops-IsSync c.before s is)))
    | inr ko ↦ rw ko (free_slot-IsSync i _ (run_ops-IsSync c.before s is))
  ]

  -- Whatever the other threads and the platform do, a request keeps the array consistent.
  pub send_req-IsSync :
      (c : Course) (handle : Ptr) (req ind : ℕ) (payload : Ptr) (s : SyncArray)
      → IsSync s
      → IsSync (send_req table c handle req ind payload s).2
  unfolding send_req
  send_req-IsSync c handle req ind payload s is =
      send_selected-IsSync c _ (select_ind-IsSync handle ind req payload s is)
