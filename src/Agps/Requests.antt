-- ===== src/Agps/Requests.antt =====
-- What AgpsStateMachine asks of the connectivity service
-- (gps/loc_api/libloc_api_50001/loc_eng_agps.cpp).
use android_device_lenovo_a.Base.{
  ℕ, ◌≡◌, refl, ◌∙◌, Bool, true, false, inl, inr, Option, none, some, List, [], ◌∷◌, if◌then◌else◌,
  Bool-cases, is_some,
}
use android_device_lenovo_a.Agps.Types.{
  Status, unsubscribe, Action, request_conn, release_conn, Kind, bit, atl, wifi, ds, Subscriber,
  Receiver, rcver, broadcast_active, Call, request_rsrc, Env, Class, agps_class, ds_class, Nif,
  Machine,
}
use android_device_lenovo_a.Agps.Subscribers.{
  notified, notify_rsrc_status, or_not, for_receiver, inactive_call, wait_for_close_complete,
}
use android_device_lenovo_a.Agps.Machine.{
  search, is_due, agps_send, Io, send_as, send_rsrc_request, notification, notify_subscribers,
  unsubscribed,
}
use android_device_lenovo_a.Agps.Notify.{is_told, effect, told, notify_subscribers_lem}
use android_device_lenovo_a.Agps.Consistent.{has_active}

-- The requests to the servicer among the calls.
abbrev pub actions : List Call → List Action
actions [] = []
actions (request_rsrc action type ssid p ∷ cs) = action ∷ actions cs
actions (_ ∷ cs) = actions cs

notified-actions :
    (n : Nif) (k : Kind) (st : Status) (id : ℕ) (e : Env)
    → actions (or_not e (notified n k st id e)).1.calls ≡ actions e.calls
notified-actions n (bit v6) unsubscribe id e = refl
notified-actions n (bit v6) _ id e = refl
notified-actions n (atl mode) unsubscribe id e = refl
notified-actions n (atl mode) _ id e = refl
notified-actions n (wifi ssid p) unsubscribe id e = refl
notified-actions n (wifi ssid p) _ id e = refl
notified-actions n ds unsubscribe id e = refl
notified-actions n ds _ id e = refl

told-actions :
    (n : Nif) (r : Receiver) (st : Status) (ss : List Subscriber) (e : Env)
    → actions (told n r st ss e).calls ≡ actions e.calls
told-actions n r st [] e = refl
told-actions n r st (s ∷ ss) e =
    told-actions n r st ss (if for_receiver r s then effect n st s e else e)
    ∙ one (for_receiver r s)
  where
    one : (b : Bool) → actions (if b then effect n st s e else e).calls ≡ actions e.calls
    one true = notified-actions n s.kind st s.id e
    one false = refl

-- `m'` has the members, the state and the requests of `m`.
pub record Kept (m m' : Machine) : Type 0 where
  pub nif : m'.nif ≡ m.nif
  pub state : m'.state ≡ m.state
  pub asked : actions m'.env.calls ≡ actions m.env.calls

pub notify_subscribers-Kept :
    (r : Receiver) (st : Status) (delete : Bool) (m : Machine)
    → is_told st ≡ true
    → Kept m (notify_subscribers (notification r st delete) m)
notify_subscribers-Kept r st delete m h =
    rw (notify_subscribers_lem m.nif r st h delete m refl)
      (record { nif = refl; state = refl; asked = told-actions m.nif r st m.subscribers m.env })

pub notify_rsrc_status-actions :
    (n : Nif) (r : Receiver) (st : Status) (delete : Bool) (s : Subscriber) (e : Env)
    → actions (notify_rsrc_status n (notification r st delete) s e).1.calls ≡ actions e.calls
unfolding notify_rsrc_status
notify_rsrc_status-actions n r st delete s e = elim (Bool-cases (for_receiver r s)) [
  | inl is_for ↦ rw is_for (notified-actions n s.kind st s.id e)
  | inr not_for ↦ rw not_for refl
]

inactive_call-actions :
    (k : Kind) (id : ℕ) (e : Env) → actions (inactive_call k id e).calls ≡ actions e.calls
inactive_call-actions (bit v6) id e = refl
inactive_call-actions _ id e = refl

pub unsubscribed-Kept : (s : Subscriber) (m : Machine) → Kept m (unsubscribed s m)
unfolding unsubscribed
unsubscribed-Kept s m = elim (Bool-cases (wait_for_close_complete s.kind)) [
  | inl waits ↦
      rw waits
        (record { nif = refl; state = refl; asked = inactive_call-actions s.kind s.id m.env })
  | inr now ↦ rw now (notify_subscribers-Kept (rcver s) unsubscribe true m refl)
]

pub send-agps :
    (io : Io) (action : Action) (m : Machine)
    → m.nif.class ≡ agps_class
    → send_rsrc_request io action m ≡ (true, agps_send action m)
unfolding send_rsrc_request
send-agps io action m c = by_class m.nif.class c
  where
    by_class :
        (class : Class)
        → class ≡ agps_class
        → send_as class io action m ≡ (true, agps_send action m)
    by_class agps_class h = refl
    by_class ds_class h = cc

agps_send-due :
    (action : Action) (m : Machine)
    → is_due (search broadcast_active m.subscribers) action ≡ true
    → actions (agps_send action m).env.calls ≡ action ∷ actions m.env.calls
agps_send-due action m due = rw (due, actions)

is_due_active : (s : Option Subscriber) → is_some s ≡ true → is_due s request_conn ≡ true
is_due_active none h = h
is_due_active (some s) h = refl

is_due_inactive : (s : Option Subscriber) → is_some s ≡ false → is_due s release_conn ≡ true
is_due_inactive none h = refl
is_due_inactive (some s) h = cc

-- A request for the connection is made where a subscriber is active, a release where none is.
pub agps_send-request :
    (m : Machine)
    → has_active m.subscribers ≡ true
    → actions (agps_send request_conn m).env.calls ≡ request_conn ∷ actions m.env.calls
agps_send-request m h =
    agps_send-due request_conn m (is_due_active (search broadcast_active m.subscribers) h)

pub agps_send-release :
    (m : Machine)
    → has_active m.subscribers ≡ false
    → actions (agps_send release_conn m).env.calls ≡ release_conn ∷ actions m.env.calls
agps_send-release m h =
    agps_send-due release_conn m (is_due_inactive (search broadcast_active m.subscribers) h)

pub agps_send-nif : (a : Action) (m : Machine) → (agps_send a m).nif ≡ m.nif
agps_send-nif a m = elim (Bool-cases (is_due (search broadcast_active m.subscribers) a)) [
  | inl due ↦ rw due refl
  | inr not_due ↦ rw not_due refl
]
