-- ===== src/Agps/Retries.antt =====
-- What the parts of the state machines do to mRetries
-- (gps/loc_api/libloc_api_50001/loc_eng_agps.cpp).
use android_device_lenovo_a.Base.{
  ℕ, ◌≤◌, ◌≡◌, refl, sym, subst, Bool, true, false, inl, inr, List, [], ◌∷◌, if◌then◌else◌, arith,
  Bool-cases, is_some,
}
use android_device_lenovo_a.Agps.Types.{
  Status, denied, unsubscribe, Action, release_conn, Kind, bit, atl, wifi, ds, Subscriber, Receiver,
  rcver, broadcast_active, Class, agps_class, ds_class, Nif, Machine, Env, Answer, success,
  engine_busy, unsupported, failed, other,
}
use android_device_lenovo_a.Agps.Subscribers.{
  for_receiver, notified, or_not, notify_rsrc_status, inactive_call, wait_for_close_complete,
}
use android_device_lenovo_a.Agps.Machine.{
  search, has_subscribers, has_active_subscribers, add_subscriber, is_due, ds_answer, send_as,
  max_start_data_call_retries, Io, send_rsrc_request, notification, notify_subscribers,
  unsubscribed, left_over,
}
use android_device_lenovo_a.Agps.Notify.{is_told, effect, told, notify_subscribers_lem}

-- mRetries is at most MAX_START_DATA_CALL_RETRIES.
abbrev pub IsLow : Env → Type 0
IsLow e = e.retries ≤ max_start_data_call_retries

notified-IsLow :
    (n : Nif) (k : Kind) (st : Status) (id : ℕ) (e : Env)
    → IsLow e
    → IsLow (or_not e (notified n k st id e)).1
notified-IsLow n (bit v6) unsubscribe id e h = h
notified-IsLow n (bit v6) _ id e h = h
notified-IsLow n (atl mode) unsubscribe id e h = h
notified-IsLow n (atl mode) _ id e h = h
notified-IsLow n (wifi ssid p) unsubscribe id e h = h
notified-IsLow n (wifi ssid p) _ id e h = h
notified-IsLow n ds denied id e h = omega arith
notified-IsLow n ds _ id e h = h

told-IsLow :
    (n : Nif) (r : Receiver) (st : Status) (ss : List Subscriber) (e : Env)
    → IsLow e
    → IsLow (told n r st ss e)
told-IsLow n r st [] e h = h
told-IsLow n r st (s ∷ ss) e h = told-IsLow n r st ss _ (one (for_receiver r s))
  where
    one : (b : Bool) → IsLow (if b then effect n st s e else e)
    one true = notified-IsLow n s.kind st s.id e h
    one false = h

pub notify_rsrc_status-IsLow :
    (n : Nif) (r : Receiver) (st : Status) (delete : Bool) (s : Subscriber) (e : Env)
    → IsLow e
    → IsLow (notify_rsrc_status n (notification r st delete) s e).1
unfolding notify_rsrc_status
notify_rsrc_status-IsLow n r st delete s e h = elim (Bool-cases (for_receiver r s)) [
  | inl is_for ↦ rw is_for (notified-IsLow n s.kind st s.id e h)
  | inr not_for ↦ rw not_for h
]

pub notify_subscribers-IsLow :
    (r : Receiver) (st : Status) (delete : Bool) (m : Machine)
    → is_told st ≡ true
    → IsLow m.env
    → IsLow (notify_subscribers (notification r st delete) m).env
notify_subscribers-IsLow r st delete m t h =
    subst (λ (x : Machine). IsLow x.env) (sym (notify_subscribers_lem m.nif r st t delete m refl))
      (told-IsLow m.nif r st m.subscribers m.env h)

inactive_call-IsLow : (k : Kind) (id : ℕ) (e : Env) → IsLow e → IsLow (inactive_call k id e)
inactive_call-IsLow (bit v6) id e h = h
inactive_call-IsLow _ id e h = h

pub unsubscribed-IsLow : (s : Subscriber) (m : Machine) → IsLow m.env → IsLow (unsubscribed s m).env
unfolding unsubscribed
unsubscribed-IsLow s m h = elim (Bool-cases (wait_for_close_complete s.kind)) [
  | inl waits ↦ rw waits (inactive_call-IsLow s.kind s.id m.env h)
  | inr now ↦ rw now (notify_subscribers-IsLow (rcver s) unsubscribe true m refl h)
]

module _ (io : Io) where
  ds_answer-IsLow :
      (handle : ℕ) (a : Answer) (e : Env) → IsLow e → IsLow (ds_answer io handle a e).1
  ds_answer-IsLow handle success e h = h
  ds_answer-IsLow handle engine_busy e h = ground arith
  ds_answer-IsLow handle unsupported e h = omega arith
  ds_answer-IsLow handle failed e h = omega arith
  ds_answer-IsLow handle other e h = h

  send_as-IsLow :
      (class : Class) (action : Action) (m : Machine)
      → IsLow m.env
      → IsLow (send_as class io action m).1.env
  send_as-IsLow agps_class action m h =
      elim (Bool-cases (is_due (search broadcast_active m.subscribers) action)) [
        | inl due ↦ rw due h
        | inr not_due ↦ rw not_due h
      ]
  send_as-IsLow ds_class action m h = ds_answer-IsLow _ _ _ h

  pub send-IsLow :
      (action : Action) (m : Machine) → IsLow m.env → IsLow (send_rsrc_request io action m).1.env
  unfolding send_rsrc_request
  send-IsLow action m h = send_as-IsLow m.nif.class action m h

  pub left_over-IsLow : (m : Machine) → IsLow m.env → IsLow (left_over io m).env
  unfolding left_over
  left_over-IsLow m h = elim (Bool-cases (has_subscribers m)) [
    | inr empty ↦ rw empty (send-IsLow release_conn m h)
    | inl some_ ↦ elim (Bool-cases (has_active_subscribers m)) [
      | inr inactive ↦ rw (some_, inactive) (send-IsLow release_conn m h)
      | inl active ↦ rw (some_, active) h
    ]
  ]

  pub add_subscriber-IsLow :
      (s : Subscriber) (m : Machine) → IsLow m.env → IsLow (add_subscriber s m).env
  add_subscriber-IsLow s m h = elim (Bool-cases (is_some (search (rcver s) m.subscribers))) [
    | inl old ↦ rw old h
    | inr new ↦ rw new h
  ]
