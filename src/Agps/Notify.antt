-- ===== src/Agps/Notify.antt =====
-- AgpsStateMachine::notifySubscribers of gps/loc_api/libloc_api_50001/loc_eng_agps.cpp.
use android_device_lenovo_a.Base.{
  ℕ, zero, suc, ◌+◌, ◌<◌, ◌≡◌, refl, ap, Bool, true, false, inl, inr, none, some, List, [], ◌∷◌,
  length, if◌then◌else◌, arith, Bool-cases, is_some,
}
use android_device_lenovo_a.Agps.Types.{
  Status, subscribe, unsubscribe, granted, released, denied, status_max, Kind, bit, atl, wifi, ds,
  Subscriber, Receiver, Env, Nif, Machine,
}
use android_device_lenovo_a.Agps.Subscribers.{for_receiver, notified, or_not, notify_rsrc_status}
use android_device_lenovo_a.Agps.Machine.{
  Removal, notify_search, notify_loop, notify_subscribers, notification,
}

-- The subscribers that a notification is not for.
abbrev pub keep : Receiver → List Subscriber → List Subscriber
keep r [] = []
keep r (s ∷ ss) = if for_receiver r s then keep r ss else s ∷ keep r ss

-- The effect of telling one subscriber, and of telling in order each that a notification is for.
abbrev pub effect : Nif → Status → Subscriber → Env → Env
effect n st s e = (or_not e (notified n s.kind st s.id e)).1

abbrev pub told : Nif → Receiver → Status → List Subscriber → Env → Env
told n r st [] e = e
told n r st (s ∷ ss) e = told n r st ss (if for_receiver r s then effect n st s e else e)

-- The statuses that every class of subscribers is told.
abbrev pub is_told : Status → Bool
is_told subscribe = false
is_told status_max = false
is_told _ = true

is_told-notified :
    (n : Nif) (st : Status) (s : Subscriber) (e : Env)
    → is_told st ≡ true
    → or_not e (notified n s.kind st s.id e) ≡ (true, effect n st s e)
is_told-notified n st s e h = by_kind st s.kind h
  where
    by_kind :
        (st : Status) (k : Kind)
        → is_told st ≡ true
        → or_not e (notified n k st s.id e) ≡ (true, (or_not e (notified n k st s.id e)).1)
    by_kind subscribe k h = cc
    by_kind status_max k h = cc
    by_kind unsubscribe (bit v6) h = refl
    by_kind unsubscribe (atl mode) h = refl
    by_kind unsubscribe (wifi ssid p) h = refl
    by_kind unsubscribe ds h = refl
    by_kind granted (bit v6) h = refl
    by_kind granted (atl mode) h = refl
    by_kind granted (wifi ssid p) h = refl
    by_kind granted ds h = refl
    by_kind released (bit v6) h = refl
    by_kind released (atl mode) h = refl
    by_kind released (wifi ssid p) h = refl
    by_kind released ds h = refl
    by_kind denied (bit v6) h = refl
    by_kind denied (atl mode) h = refl
    by_kind denied (wifi ssid p) h = refl
    by_kind denied ds h = refl

module _ (n : Nif) (r : Receiver) (st : Status) (h : is_told st ≡ true) where
  notify-keep :
      (s : Subscriber) (e : Env) (delete : Bool)
      → for_receiver r s ≡ false
      → notify_rsrc_status n (notification r st delete) s e ≡ (false, e)
  unfolding notify_rsrc_status
  notify-keep s e delete not_for = rw not_for

  notify-tell :
      (s : Subscriber) (e : Env) (delete : Bool)
      → for_receiver r s ≡ true
      → notify_rsrc_status n (notification r st delete) s e ≡ (true, effect n st s e)
  unfolding notify_rsrc_status
  notify-tell s e delete is_for = rw is_for (is_told-notified n st s e h)

  -- A search that may remove finds the first that the notification is for.
  data Searched (ss : List Subscriber) (e : Env) : Removal → Type 0 where
    nobody :
        keep r ss ≡ ss
        → told n r st ss e ≡ e
        → Searched ss e (record { hit = none; left = ss; env = e })
    somebody :
        {s : Subscriber} {left : List Subscriber} {e' : Env}
        → length left < length ss
        → keep r left ≡ keep r ss
        → told n r st left e' ≡ told n r st ss e
        → Searched ss e (record { hit = some s; left = left; env = e' })

  notify_search-Searched :
      (ss : List Subscriber) (e : Env)
      → Searched ss e (notify_search n (notification r st true) ss e)
  unfolding notify_search
  notify_search-Searched [] e = nobody refl refl
  notify_search-Searched (s ∷ ss) e = elim (Bool-cases (for_receiver r s)) [
    | inl is_for ↦
        rw (notify-tell s e true is_for) (somebody (omega arith) (rw is_for refl) (rw is_for refl))
    | inr not_for ↦ rw (notify-keep s e true not_for) (later (notify_search-Searched ss e) not_for)
  ]
    where
      later :
          {rm : Removal}
          → Searched ss e rm
          → for_receiver r s ≡ false
          → Searched (s ∷ ss) e (record rm { left = s ∷ rm.left })
      later (nobody k t) not_for = nobody (rw not_for (ap (λ xs. s ∷ xs) k)) (rw not_for t)
      later (somebody l k t) not_for =
          somebody (omega arith) (rw not_for (ap (λ xs. s ∷ xs) k)) (rw not_for t)

  looped :
      (fuel : ℕ) (ss : List Subscriber) (e : Env) {rm : Removal}
      → Searched ss e rm
      → ((ss' : List Subscriber) (e' : Env)
          → length ss' < length ss
          → notify_loop fuel n (notification r st true) ss' e' ≡ (keep r ss', told n r st ss' e'))
      → (if is_some rm.hit
          then notify_loop fuel n (notification r st true) rm.left rm.env
          else (rm.left, rm.env))
        ≡ (keep r ss, told n r st ss e)
  looped fuel ss e (nobody k t) ih = cc
  looped fuel ss e (somebody {left} {e'} l k t) ih = cc (ih left e' l)

  notify_loop_lem :
      (fuel : ℕ) (ss : List Subscriber) (e : Env)
      → length ss < fuel
      → notify_loop fuel n (notification r st true) ss e ≡ (keep r ss, told n r st ss e)
  unfolding notify_loop
  notify_loop_lem zero ss e enough = absurd (omega arith)
  notify_loop_lem (suc fuel) ss e enough =
      looped fuel ss e (notify_search-Searched ss e)
        λ ss' e' shorter. notify_loop_lem fuel ss' e' (omega arith)

  notify_search_all :
      (ss : List Subscriber) (e : Env)
      → notify_search n (notification r st false) ss e
        ≡ record { hit = none; left = ss; env = told n r st ss e }
  unfolding notify_search
  notify_search_all [] e = refl
  notify_search_all (s ∷ ss) e = elim (Bool-cases (for_receiver r s)) [
    | inl is_for ↦
        rw (notify-tell s e false is_for, is_for) (rw (notify_search_all ss (effect n st s e)))
    | inr not_for ↦ rw (notify-keep s e false not_for, not_for) (rw (notify_search_all ss e))
  ]

  -- notifySubscribers with a status that every class is told tells the subscribers that the
  -- notification is for, in the order of the list and each once; with postNotifyDelete it removes
  -- these and no other from the list, and else none.
  pub notify_subscribers_lem :
      (delete : Bool) (m : Machine)
      → m.nif ≡ n
      → notify_subscribers (notification r st delete) m ≡ record m {
        subscribers = if delete then keep r m.subscribers else m.subscribers;
        env = told n r st m.subscribers m.env;
      }
  unfolding notify_subscribers
  notify_subscribers_lem true m same =
      rw (same, notify_loop_lem (length m.subscribers + 1) m.subscribers m.env (omega arith))
  notify_subscribers_lem false m same = rw (same, notify_search_all m.subscribers m.env)
