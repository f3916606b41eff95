-- ===== src/DsClient/Choice.antt =====
-- The profile that ds_client_open_call (gps/loc_api/ds_api/ds_client.c) chooses, and the client of QMI
-- that it loses.
use android_device_lenovo_a.Base.{
  ℕ, ◌+◌, ◌≡◌, true, false, Option, none, some, List, [], ◌∷◌, if◌then◌else◌, ◌==◌,
}
use android_device_lenovo_a.DsClient.Types.{
  success, failure_general, Res, Platform, Profile, Settings, reply,
}
use android_device_lenovo_a.DsClient.Profiles.{Search, chosen, not_found, is_emergency, pdp_type_of}
use android_device_lenovo_a.DsClient.Call.{Opened, failed}

-- The first profile whose settings allow emergency calls.
abbrev pub first_emergency : (Profile → Settings) → List Profile → Option Profile
first_emergency f [] = none
first_emergency f (p ∷ ps) = if is_emergency (f p) then some p else first_emergency f ps

abbrev pub as_search : (Profile → Settings) → Option Profile → Search
as_search f none = not_found
as_search f (some p) = chosen p.profile_index (pdp_type_of (f p))

-- Everything that the call asks for is there.
pub record Cooperates (p : Platform) (n : ℕ) (ps : List Profile) (f : Profile → Settings)
    (handle : ℕ) : Type 0 where
  pub service_object : p.service_object ≡ true
  pub services : p.first_look ≡ some n
  pub not_none : (n == 0) ≡ false
  pub memory :
      (p.malloc_services ≡ true)
      × (p.calloc_list_resp ≡ true)
      × (p.calloc_list_req ≡ true)
      × (p.calloc_settings_resp ≡ true)
      × (p.calloc_session ≡ true)
  pub service : (p.list_services ≡ true) × (p.client_init ≡ true) × (p.client_release ≡ true)
  pub profiles : p.profile_list ≡ reply ps
  pub settings : (x : Profile) → p.settings x ≡ reply (f x)
  pub data_srvc_hndl : p.data_srvc_hndl ≡ some handle

-- What the caller gets.
abbrev pub opened :
    (Profile → Settings) → (event_cb cookie handle : ℕ) → Res → Option Profile → Opened
opened f event_cb cookie handle r none = failed failure_general r
opened f event_cb cookie handle r (some x) = record {
  status = success;
  client_handle =
      some (record { dsi_net_handle = some handle; event_cb = event_cb; caller_cookie = cookie });
  profile_index = some x.profile_index;
  pdp_type = some (pdp_type_of (f x));
  res = record r { handles = r.handles + 1; blocks = r.blocks + 1 };
}
