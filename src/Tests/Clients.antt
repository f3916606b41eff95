-- ===== src/Tests/Clients.antt =====
-- A client of loc_api_v02_client.c on an empty heap.
use android_device_lenovo_a.Base.{
  ℕ, ltb, get_elem?, ◌≤◌, ◌≡◌, inr, refl, true, false, none, some, List, [], ◌∷◌, arith, ◌==◌,
  if◌then◌else◌,
}
use android_device_lenovo_a.Base.Run.{Returns, ◌>>=◌}
use android_device_lenovo_a.LocClient.State.{null, CallbackData, World}
use android_device_lenovo_a.LocClient.Requests.{RequestTable, response, other_err, other_error}
use android_device_lenovo_a.LocClient.Open.{Callbacks, Attempt, open_instance, open_, close}
use android_device_lenovo_a.LocClient.Attempts.{Same, Attempted, IsSound}
use android_device_lenovo_a.LocClient.Lifetime.{close-open_instance, open-Attempted}
use android_device_lenovo_a.LocClient.Registering.{client_data}
use android_device_lenovo_a.LocClient.Indications.{
  EventTable, resp_ind, get_size_and_type_by_ind_id, get_size_by_event_ind_id,
}
use android_device_lenovo_a.LocClient.Supported.{bit, check_qmi_msgs_supported}
use android_device_lenovo_a.LocClient.Bits.{supported_at, bit-check_qmi_msgs_supported}
use android_device_lenovo_a.LocClient.Tables.{Struct, ind_msg, req_msg, event_table, resp_table}
use android_device_lenovo_a.SyncReq.Ops.{get_size_by_resp_ind_id}

abbrev world : World
world = record { cells = λ a. none; clients = 3; notifiers = 0 }

abbrev cbs : Callbacks
cbs = record { right_size = true; event_ind_cb = 1000; resp_ind_cb = 2000; error_cb = 0 }

abbrev table : RequestTable
table = (33, some 16) ∷ (30, none) ∷ []

abbrev attempt : Attempt
attempt = record {
  calloc = 64;
  service_object = true;
  notifier = true;
  notifier_ok = true;
  lookups = false ∷ true ∷ [];
  client = 7;
  error_cb_ok = true;
  reply = response true other_error;
  release_ok = true;
}

attempt-IsSound : IsSound world attempt
attempt-IsSound = record { fresh = inr refl; up = refl; error_cb_ok = refl; release_ok = refl }

-- The service refuses the events at first.
abbrev refused_first : ℕ → Attempt
refused_first k = record attempt { reply = if k == 0 then other_err else response true other_error }

refused_first-IsSound : (k : ℕ) → IsSound world (refused_first k)
refused_first-IsSound k = record {
  fresh = inr refl;
  up = refl;
  error_cb_ok = refl;
  release_ok = refl;
}

open-Attempted_example :
    Returns
      (λ r w'. (k : ℕ) × (k ≤ 20) × Attempted world (refused_first k) cbs 5 99 r w')
      (open_ table refused_first 5 (some cbs) (some 0) 99 world)
open-Attempted_example =
    open-Attempted table refused_first 5 cbs 99 0 world refused_first-IsSound refl

close-open_instance_example :
    Returns
      (λ (status, h) w'. (h ≡ some null) × Same world w')
      ((do (_, h) ← open_instance table attempt 5 (some cbs) (some 0) 99; close true h) world)
close-open_instance_example =
    close-open_instance table attempt 5 cbs 99 world 0 attempt-IsSound refl

abbrev events : EventTable
events = (36, 120, 1) ∷ []

abbrev resps : List (ℕ × ℕ)
resps = (33, 8) ∷ []

abbrev client : CallbackData
client = client_data 7 64 cbs 5 99

abbrev size_of : Struct → ℕ
size_of (ind_msg id) = 2
size_of (req_msg id) = 1

-- The answer that sets the premium services is decoded into a buffer for the request.
premium_size :
    get_size_and_type_by_ind_id (event_table size_of) (resp_table size_of) 132 ≡ some (1, resp_ind)
unfolding get_size_and_type_by_ind_id get_size_by_event_ind_id get_size_by_resp_ind_id event_table
    resp_table
premium_size = refl

-- A bitmap of one byte with message 3, and a request for messages 3 and 30.
bit-check_qmi_msgs_supported_example :
    (r : ℕ) × (check_qmi_msgs_supported (3 ∷ 30 ∷ []) (some (8 ∷ [])) ≡ some r)
    × ((i : ℕ)
        → bit r i ≡ (if ltb i 1 then supported_at (8 ∷ []) (get_elem? (3 ∷ 30 ∷ []) i) else false))
bit-check_qmi_msgs_supported_example =
    bit-check_qmi_msgs_supported (3 ∷ 30 ∷ []) (8 ∷ []) (omega arith)
