-- ===== src/Tests/DataCalls.antt =====
-- gps/loc_api/ds_api/ds_client.c with three profiles, of which the second allows emergency calls.
use android_device_lenovo_a.Base.{
  ℕ, zero, suc, ◌+◌, ◌<◌, ◌≡◌, refl, true, Option, some, none, List, [], ◌∷◌, arith, ◌==◌,
  if◌then◌else◌,
}
use android_device_lenovo_a.DsClient.Types.{
  success, failure_internal, Res, pdp_ipv6, Poll, Reply, reply, no_reply, Profile, Settings,
  Platform,
}
use android_device_lenovo_a.DsClient.Service.{ctrl_point_init}
use android_device_lenovo_a.DsClient.Profiles.{get_profile_list, find_profile}
use android_device_lenovo_a.DsClient.Call.{open_call, close_call}
use android_device_lenovo_a.DsClient.Accounts.{close_call-open_call}
use android_device_lenovo_a.DsClient.Leaks.{open_call-aborted, IsSilent, ctrl_point_init-answers}

abbrev profile : ℕ → Profile
profile i = record { profile_type = 0; profile_index = i }

abbrev settings_of : Profile → Settings
settings_of p = record {
  support_emergency_calls_valid = true;
  support_emergency_calls = p.profile_index == 2;
  pdp_type_valid = true;
  pdp_type = pdp_ipv6;
}

abbrev profiles : List Profile
profiles = profile 1 ∷ profile 2 ∷ profile 3 ∷ []

abbrev silent : Poll
silent = record { first_look = none; timed_out = true; second_look = none }

abbrev platform : Option ℕ → (Profile → Reply Settings) → Platform
platform look settings = record {
  service_object = true;
  first_look = look;
  notifier_init = true;
  poll = λ j. if j == 2 then record silent { first_look = some 1 } else silent;
  malloc_services = true;
  list_services = true;
  client_init = true;
  calloc_list_resp = true;
  calloc_list_req = true;
  profile_list = reply profiles;
  calloc_settings_resp = true;
  settings = settings;
  client_release = true;
  calloc_session = true;
  data_srvc_hndl = some 70;
}

abbrev ready : Platform
ready = platform (some 1) (λ p. reply (settings_of p))

abbrev unused : Res
unused = record { clients = 0; notifiers = 0; handles = 0; blocks = 0 }

close_call-open_call_example :
    ((close_call
        (open_call ready true (some 9) 8 unused).client_handle
        (open_call ready true (some 9) 8 unused).res).0
      ≡ none)
    × ((close_call
          (open_call ready true (some 9) 8 unused).client_handle
          (open_call ready true (some 9) 8 unused).res).1.blocks
        ≡ 0)
    × ((close_call
          (open_call ready true (some 9) 8 unused).client_handle
          (open_call ready true (some 9) 8 unused).res).1.handles
        ≡ 0)
close_call-open_call_example = close_call-open_call ready true (some 9) 8 unused

abbrev mute : Platform
mute = platform (some 1) (λ p. no_reply)

mute_starts : (ctrl_point_init mute unused).0 ≡ success
unfolding ctrl_point_init
mute_starts = refl

open_call-aborted_example :
    ((open_call mute true (some 9) 8 unused).status ≡ failure_internal)
    × ((open_call mute true (some 9) 8 unused).res.clients ≡ 0 + 1)
unfolding ctrl_point_init get_profile_list find_profile
open_call-aborted_example =
    open_call-aborted mute 9 8 unused profiles failure_internal refl refl refl refl refl

abbrev late : Platform
late = platform none (λ p. reply (settings_of p))

quiet_before : (j : ℕ) → j < 2 → IsSilent (late.poll j)
quiet_before zero h = record { first = refl; late = refl }
quiet_before (suc zero) h = record { first = refl; late = refl }
quiet_before (suc (suc j)) h = absurd (omega arith)

ctrl_point_init-answers_example :
    ctrl_point_init late unused ≡ (success, record unused { clients = 0 + 1 })
ctrl_point_init-answers_example =
    ctrl_point_init-answers late unused 2 1 refl refl refl (omega arith) quiet_before refl refl
      (refl, refl, refl)
