-- ===== src/DsClient/Leaks.antt =====
-- How ds_client_open_call (gps/loc_api/ds_api/ds_client.c) loses its client of QMI, and how long it
-- waits for the service.
use android_device_lenovo_a.Base.{
  ℕ, zero, suc, ◌+◌, ◌<◌, ◌≡◌, refl, ap, ◌∙◌, subst, Bool, true, false, inl, inr, none, some, List,
  arith, Bool-cases, ◌==◌,
}
use android_device_lenovo_a.DsClient.Types.{Status, success, Res, Poll, Platform, Profile}
use android_device_lenovo_a.DsClient.Service.{
  Service, connect, look, await_service, max_rounds, new_service, ctrl_point_init, seen,
  released_if,
}
use android_device_lenovo_a.DsClient.Profiles.{aborted, get_profile_list, find_profile}
use android_device_lenovo_a.DsClient.Call.{is_success, open_call}

connect-clients :
    (p : Platform) (notifier : Bool) (s : Service) (r : Res)
    → is_success (connect p notifier s r).0 ≡ true
    → (connect p notifier s r).1.clients ≡ r.clients + 1
unfolding connect
connect-clients p notifier s r h = ground arith

ctrl_point_init-clients :
    (p : Platform) (r : Res)
    → is_success (ctrl_point_init p r).0 ≡ true
    → (ctrl_point_init p r).1.clients ≡ r.clients + 1
unfolding ctrl_point_init
ctrl_point_init-clients p r h = ground (
  arith,
  connect-clients p false (seen p.first_look) r,
  connect-clients p true (await_service max_rounds 0 p.poll new_service)
      (record r { notifiers = r.notifiers + 1 }),
)

-- Where the settings of a profile cannot be had, ds_client_open_call fails with that status and
-- keeps the client of QMI that it got: one more is in use.
pub open_call-aborted :
    (p : Platform) (event_cb cookie : ℕ) (r : Res) (ps : List Profile) (e : Status)
    → is_success (ctrl_point_init p r).0 ≡ true
    → p.calloc_list_resp ≡ true
    → get_profile_list p ≡ (success, ps)
    → p.calloc_settings_resp ≡ true
    → find_profile p.settings ps ≡ aborted e
    → ((open_call p true (some event_cb) cookie r).status ≡ e)
      × ((open_call p true (some event_cb) cookie r).res.clients ≡ r.clients + 1)
unfolding open_call
open_call-aborted p event_cb cookie r ps e up memory list memory' stop =
    simp (up, memory, list, memory', stop) (refl, ctrl_point_init-clients p r up)

-- A round in which the service does not show.
pub record IsSilent (p : Poll) : Type 0 where
  pub first : p.first_look ≡ none
  pub late : p.timed_out ≡ true

silent_look :
    (p : Poll) (s : Service) → IsSilent p → look p s ≡ record s { is_up = false; no_signal = true }
silent_look p s q = simp (q.first, q.late) refl

-- The wait for the service finds it in the first round in which it shows, if there is time for so
-- many rounds.
await_service-answers :
    (rounds k i : ℕ) (poll : ℕ → Poll) (s : Service) (n : ℕ)
    → k < rounds
    → ((j : ℕ) → j < k → IsSilent (poll (i + j)))
    → (poll (i + k)).first_look ≡ some n
    → ((await_service rounds i poll s).is_up ≡ true)
      × ((await_service rounds i poll s).num_services ≡ n)
unfolding await_service
await_service-answers zero k i poll s n h silent shows = absurd (omega arith)
await_service-answers (suc rounds) zero i poll s n h silent shows =
    let here : (poll i).first_look ≡ some n =
      subst (λ x. (poll x).first_look ≡ some n) (omega arith) shows in
    simp here
      (elim (Bool-cases s.no_signal) [ inl a ↦ rw a (refl, refl) | inr b ↦ rw b (refl, refl) ])
await_service-answers (suc rounds) (suc k) i poll s n h silent shows =
    let quiet : IsSilent (poll i) =
      subst (λ x. IsSilent (poll x)) (omega arith) (silent 0 (omega arith)) in
    let s' = record s { is_up = false; no_signal = true } in
    rw (silent_look (poll i) s quiet) (
      await_service-answers rounds k (i + 1) poll s' n (omega arith)
        (λ j below. subst (λ x. IsSilent (poll x)) (omega arith) (silent (suc j) (omega arith)))
        (subst (λ x. (poll x).first_look ≡ some n) (omega arith) shows))

connect-success :
    (p : Platform) (notifier : Bool) (s : Service) (r : Res) (n : ℕ)
    → s.is_up ≡ true
    → s.num_services ≡ n
    → (n == 0) ≡ false
    → (p.malloc_services ≡ true) × (p.list_services ≡ true) × (p.client_init ≡ true)
    → connect p notifier s r ≡ (
      success,
      record r { clients = r.clients + 1; notifiers = released_if notifier r.notifiers },
    )
unfolding connect
connect-success p notifier s r n up num some_ (a, b, c) = simp (up, num, some_, a, b, c) refl

-- When there is a service object, the service is not up at the first look, the notifier can be made,
-- the service is up, with a number of services that is not 0, at the first look of one of the ten rounds
-- of the wait, the rounds before it have run out, and malloc, the list of services and qmi_client_init
-- succeed: ds_client_qmi_ctrl_point_init succeeds with one client of QMI more, and releases the notifier.
pub ctrl_point_init-answers :
    (p : Platform) (r : Res) (k n : ℕ)
    → p.service_object ≡ true
    → p.first_look ≡ none
    → p.notifier_init ≡ true
    → k < max_rounds
    → ((j : ℕ) → j < k → IsSilent (p.poll j))
    → (p.poll k).first_look ≡ some n
    → (n == 0) ≡ false
    → (p.malloc_services ≡ true) × (p.list_services ≡ true) × (p.client_init ≡ true)
    → ctrl_point_init p r ≡ (success, record r { clients = r.clients + 1 })
unfolding ctrl_point_init
ctrl_point_init-answers p r k n there down waits h silent shows some_ ok =
    let found =
      await_service-answers max_rounds k 0 p.poll new_service n h
        (λ j below. subst (λ x. IsSilent (p.poll x)) (omega arith) (silent j below))
        (subst (λ x. (p.poll x).first_look ≡ some n) (omega arith) shows) in
    let r' = record r { notifiers = r.notifiers + 1 } in
    simp (there, down, waits)
      (connect-success p true (await_service max_rounds 0 p.poll new_service) r' n found.0 found.1
          some_ ok
        ∙ ap (λ (m : ℕ). (success, record r { clients = r.clients + 1; notifiers = m }))
            (omega arith))
