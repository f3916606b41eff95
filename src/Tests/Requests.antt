-- ===== src/Tests/Requests.antt =====
-- gps/loc_api/loc_api_v02/loc_api_sync_req.c with one request under way.
use android_device_lenovo_a.Base.{
  ℕ, zero, suc, ◌≡◌, refl, true, false, some, List, [], ◌∷◌, get_elem?, subst, sym, ap,
}
use android_device_lenovo_a.SyncReq.Ops.{
  Entry, SyncArray, free_entry, replicate, process_ind, select_ind, selected, is_match, any_in_use,
}
use android_device_lenovo_a.SyncReq.Calls.{indication, success, Course, send_req}
use android_device_lenovo_a.SyncReq.Slots.{IsSync}
use android_device_lenovo_a.SyncReq.Process.{process_ind-IsSync, Processed, process_ind-Processed}
use android_device_lenovo_a.SyncReq.Requests.{send_req-IsSync}
use android_device_lenovo_a.SyncReq.Outcomes.{IsFree, send_req-IsFree, send_req-early}

abbrev table : List (ℕ × ℕ)
table = (36, 12) ∷ (37, 24) ∷ []

-- A request of client 5 for indication 36, to be copied to 700.
abbrev busy : Entry
busy = record { slot_in_use = true; slot = selected 5 36 1 700 }

abbrev one : SyncArray
one = record { initialized = true; in_use = true; entries = busy ∷ replicate 7 free_entry }

abbrev full : SyncArray
full = record { initialized = true; in_use = true; entries = replicate 8 busy }

one-IsSync : IsSync one
unfolding any_in_use
one-IsSync = record { eight = refl; flag = refl }

-- An indication arrives before the wait.
abbrev early : Course
early = record { before = indication 6 40 900 ∷ []; sent = success; during = []; timed_out = true }

abbrev late : Course
late = record { before = []; sent = success; during = indication 5 36 900 ∷ []; timed_out = false }

process_ind-IsSync_example : IsSync (process_ind table 5 36 900 one).0
process_ind-IsSync_example = process_ind-IsSync table 5 36 900 one one-IsSync

process_ind-Processed_example :
    let r = process_ind table 5 36 900 one in Processed table 5 36 900 one r.0 r.1
process_ind-Processed_example = process_ind-Processed table 5 36 900 one one-IsSync

send_req-IsSync_example : IsSync (send_req table late 6 2 40 800 one).2
send_req-IsSync_example = send_req-IsSync table late 6 2 40 800 one one-IsSync

send_req-IsFree_example : IsFree (send_req table late 6 2 40 800 one).2 1
send_req-IsFree_example =
    send_req-IsFree table late 6 2 40 800 one 1 one-IsSync (unfold select_ind in refl)

get_elem?-replicate :
    {A : Type 0} (n : ℕ) (a : A) (j : ℕ) (x : A) → get_elem? (replicate n a) j ≡ some x → x ≡ a
get_elem?-replicate zero a j x at = cc
get_elem?-replicate (suc n) a zero x at = cc
get_elem?-replicate (suc n) a (suc j) x at = get_elem?-replicate n a j x at

full-in_use : (j : ℕ) (e : Entry) → get_elem? full.entries j ≡ some e → e.slot_in_use ≡ true
full-in_use j e at = ap (λ x. x.slot_in_use) (get_elem?-replicate 8 busy j e at)

one-is_match : (j : ℕ) (e : Entry) → get_elem? one.entries j ≡ some e → is_match 6 40 e ≡ false
one-is_match zero e at = let same : busy ≡ e = cc in subst (λ x. is_match 6 40 x ≡ false) same refl
one-is_match (suc j) e at =
    subst (λ x. is_match 6 40 x ≡ false) (sym (get_elem?-replicate 7 free_entry j e at)) refl

send_req-early_example :
    ((send_req table early 6 2 40 800 one).0 ≡ success)
    × ((send_req table early 6 2 40 800 one).1 ≡ true)
send_req-early_example =
    send_req-early table early 6 900 2 40 800 one 1 (unfold select_ind in refl) refl refl
      one-is_match
