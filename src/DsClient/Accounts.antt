-- ===== src/DsClient/Accounts.antt =====
-- What ds_client_open_call and ds_client_close_call (gps/loc_api/ds_api/ds_client.c) leave in use.
use android_device_lenovo_a.Base.{
  ℕ, ◌+◌, ◌-◌, ◌≡◌, refl, Bool, true, false, inl, inr, Option, none, some, List, is_some, arith,
  Bool-cases,
}
use android_device_lenovo_a.DsClient.Types.{
  Status, failure_general, failure_not_enough_memory, Res, Session, IpVersion, Platform, Profile,
}
use android_device_lenovo_a.DsClient.Service.{
  Service, connect, await_service, max_rounds, new_service, ctrl_point_init, seen,
}
use android_device_lenovo_a.DsClient.Profiles.{
  Search, aborted, chosen, not_found, get_profile_list, find_profile,
}
use android_device_lenovo_a.DsClient.Call.{
  Opened, failed, with_handle, concluded, released, is_success, with_list, with_client, open_call,
  close_call, release_status, client_given_back, handle_released, new_session,
}

abbrev pub blocks_of : Option Session → ℕ
blocks_of none = 0
blocks_of (some s) = 1

abbrev pub handles_in : Option ℕ → ℕ
handles_in none = 0
handles_in (some h) = 1

abbrev pub handles_of : Option Session → ℕ
handles_of none = 0
handles_of (some s) = handles_in s.dsi_net_handle

-- The memory and the handles in use are those of the session that the caller gets.
abbrev pub Accounts : Res → Opened → Type 0
Accounts r o =
    (o.res.blocks ≡ r.blocks + blocks_of o.client_handle)
    × (o.res.handles ≡ r.handles + handles_of o.client_handle)

-- Another set of clients and notifiers.
abbrev pub SameMemory : Res → Res → Type 0
SameMemory r r' = (r'.blocks ≡ r.blocks) × (r'.handles ≡ r.handles)

failed-Accounts : (st : Status) (r r' : Res) → SameMemory r r' → Accounts r (failed st r')
failed-Accounts st r r' h = omega arith

connect-SameMemory :
    (p : Platform) (notifier : Bool) (s : Service) (r : Res)
    → SameMemory r (connect p notifier s r).1
unfolding connect
connect-SameMemory p notifier s r = ground arith

ctrl_point_init-SameMemory : (p : Platform) (r : Res) → SameMemory r (ctrl_point_init p r).1
unfolding ctrl_point_init
ctrl_point_init-SameMemory p r = elim (Bool-cases p.service_object) [
  | inr gone ↦ rw gone (refl, refl)
  | inl there ↦ elim (Bool-cases (is_some p.first_look)) [
    | inl up ↦ rw (there, up) (connect-SameMemory p false (seen p.first_look) r)
    | inr down ↦ elim (Bool-cases p.notifier_init) [
      | inr none_ ↦ rw (there, down, none_) (refl, refl)
      | inl waits ↦
          rw (there, down, waits)
            (connect-SameMemory p true (await_service max_rounds 0 p.poll new_service)
              (record r { notifiers = r.notifiers + 1 }))
    ]
  ]
]

with_handle-Accounts :
    (h : Option ℕ) (st : Status) (p : Platform) (event_cb cookie i : ℕ) (v : IpVersion) (r r' : Res)
    → SameMemory r r'
    → Accounts r
        (with_handle h st (new_session event_cb cookie) i v (record r' { blocks = r'.blocks + 1 }))
with_handle-Accounts none st p event_cb cookie i v r r' h = omega arith
with_handle-Accounts (some x) st p event_cb cookie i v r r' h = omega arith

concluded-Accounts :
    (p : Platform) (event_cb cookie : ℕ) (s : Search) (st : Status) (r r' : Res)
    → SameMemory r r'
    → Accounts r (concluded p event_cb cookie s st r')
concluded-Accounts p event_cb cookie (aborted e) st r r' h = failed-Accounts e r r' h
concluded-Accounts p event_cb cookie not_found st r r' h = failed-Accounts st r r' h
concluded-Accounts p event_cb cookie (chosen i v) st r r' h = elim (Bool-cases p.calloc_session) [
  | inl memory ↦ rw memory (with_handle-Accounts p.data_srvc_hndl st p event_cb cookie i v r r' h)
  | inr none_ ↦ rw none_ (omega arith)
]

released-Accounts :
    (p : Platform) (event_cb cookie : ℕ) (s : Search) (r r' : Res)
    → SameMemory r r'
    → Accounts r (released p event_cb cookie s r')
released-Accounts p event_cb cookie (aborted e) r r' h = failed-Accounts e r r' h
released-Accounts p event_cb cookie not_found r r' h =
    concluded-Accounts p event_cb cookie not_found (release_status p) r (client_given_back p r') h
released-Accounts p event_cb cookie (chosen i v) r r' h =
    concluded-Accounts p event_cb cookie (chosen i v) (release_status p) r (client_given_back p r')
      h

with_client-Accounts :
    (p : Platform) (event_cb cookie : ℕ) (c : Status × Res) (r : Res)
    → SameMemory r c.1
    → Accounts r (with_client p event_cb cookie c)
with_client-Accounts p event_cb cookie (st, r') r h = elim (Bool-cases (is_success st)) [
  | inr bad ↦ simp bad (failed-Accounts st r r' h)
  | inl good ↦ elim (Bool-cases p.calloc_list_resp) [
    | inr none_ ↦ simp (good, none_) (failed-Accounts failure_not_enough_memory r r' h)
    | inl memory ↦ simp (good, memory) (listed (get_profile_list p))
  ]
]
  where
    listed : (l : Status × List Profile) → Accounts r (with_list p event_cb cookie l r')
    listed (st', ps) = elim (Bool-cases (is_success st')) [
      | inr bad ↦ simp bad (failed-Accounts st' r r' h)
      | inl good ↦ elim (Bool-cases p.calloc_settings_resp) [
        | inr none_ ↦ simp (good, none_) (failed-Accounts failure_not_enough_memory r r' h)
        | inl memory ↦
            simp (good, memory)
              (released-Accounts p event_cb cookie (find_profile p.settings ps) r r' h)
      ]
    ]

open_call-Accounts :
    (p : Platform) (client_handle : Bool) (callback : Option ℕ) (cookie : ℕ) (r : Res)
    → Accounts r (open_call p client_handle callback cookie r)
unfolding open_call
open_call-Accounts p false callback cookie r = failed-Accounts failure_general r r (refl, refl)
open_call-Accounts p true none cookie r = failed-Accounts failure_general r r (refl, refl)
open_call-Accounts p true (some event_cb) cookie r =
    with_client-Accounts p event_cb cookie (ctrl_point_init p r) r (ctrl_point_init-SameMemory p r)

close_call_lem :
    (s : Option Session) (r : Res)
    → ((close_call s r).0 ≡ none)
      × ((close_call s r).1.blocks ≡ r.blocks - blocks_of s)
      × ((close_call s r).1.handles ≡ r.handles - handles_of s)
unfolding close_call
close_call_lem none r = (refl, omega arith, omega arith)
close_call_lem (some s) r = (refl, by_handle s.dsi_net_handle, by_handle' s.dsi_net_handle)
  where
    by_handle : (h : Option ℕ) → (handle_released h r).blocks - 1 ≡ r.blocks - 1
    by_handle none = refl
    by_handle (some h) = refl

    by_handle' : (h : Option ℕ) → (handle_released h r).handles ≡ r.handles - handles_in h
    by_handle' none = omega arith
    by_handle' (some h) = refl

-- Whatever ds_client_open_call comes to, ds_client_close_call on the handle that it leaves gives back
-- all memory and all handles of the data layer, and clears the handle.
pub close_call-open_call :
    (p : Platform) (client_handle : Bool) (callback : Option ℕ) (cookie : ℕ) (r : Res)
    → let o = open_call p client_handle callback cookie r in
      let (s, r') = close_call o.client_handle o.res in
      (s ≡ none) × (r'.blocks ≡ r.blocks) × (r'.handles ≡ r.handles)
close_call-open_call p client_handle callback cookie r =
    let o = open_call p client_handle callback cookie r in
    let (cleared, blocks, handles) = close_call_lem o.client_handle o.res in
    let a = open_call-Accounts p client_handle callback cookie r in
    (cleared, omega (arith, blocks, a.0), omega (arith, handles, a.1))
