-- ===== src/Agps/Protocol.antt =====
-- The events of each state of AgpsStateMachine
-- (gps/loc_api/libloc_api_50001/loc_eng_agps.cpp).
use android_device_lenovo_a.Base.{
  ◌≡◌, refl, sym, ap, ◌∙◌, subst, Bool, true, false, inl, inr, List, [], if◌then◌else◌, Bool-cases,
  is_some,
}
use android_device_lenovo_a.Agps.Types.{
  Status, granted, released, denied, unsubscribe, request_conn, State, released_state,
  pending_state, acquired_state, releasing_state, Subscriber, Receiver, rcver, broadcast_all,
  broadcast_active, broadcast_inactive, agps_class, Nif, Machine,
}
use android_device_lenovo_a.Agps.Machine.{
  search, is_inhabited, add_subscriber, Io, notification, notify_subscribers, unsubscribed,
  left_over,
}
use android_device_lenovo_a.Agps.Notify.{is_told, keep, notify_subscribers_lem}
use android_device_lenovo_a.Agps.States.{
  Event, subscribes, unsubscribes, grants, releases, denies, tell, on_released, on_pending,
  on_acquired, restart, on_releasing, dispatch,
}
use android_device_lenovo_a.Agps.Consistent.{
  has_active, Fits, keep_all, keep_inactive, is_inhabited-nil, search-is_inhabited,
  add_subscriber-inhabited, add_subscriber-active,
}
use android_device_lenovo_a.Agps.Requests.{
  Kept, notify_subscribers-Kept, notify_rsrc_status-actions, unsubscribed-Kept, send-agps,
}
use android_device_lenovo_a.Agps.Steps.{holds, Steps, stays, moves, requests, left_over-Steps}

abbrev pub is_unsubscribe : Event → Bool
is_unsubscribe (unsubscribes s) = true
is_unsubscribe _ = false

pub add_subscriber-Kept : (s : Subscriber) (m : Machine) → Kept m (add_subscriber s m)
add_subscriber-Kept s m = elim (Bool-cases (is_some (search (rcver s) m.subscribers))) [
  | inl old ↦ rw old (record { nif = refl; state = refl; asked = refl })
  | inr new ↦ rw new (record { nif = refl; state = refl; asked = refl })
]

tell-Kept : (s : Subscriber) (st : Status) (m : Machine) → Kept m (tell s st m)
unfolding tell
tell-Kept s st m = record {
  nif = refl;
  state = refl;
  asked = notify_rsrc_status-actions m.nif (rcver s) st false s m.env;
}

Kept-trans : {m m' m'' : Machine} → Kept m m' → Kept m' m'' → Kept m m''
Kept-trans k l = record {
  nif = l.nif ∙ k.nif;
  state = l.state ∙ k.state;
  asked = l.asked ∙ k.asked;
}

pub Kept-refl : (m : Machine) → Kept m m
Kept-refl m = record { nif = refl; state = refl; asked = refl }

notify-left :
    (r : Receiver) (st : Status) (delete : Bool) (m : Machine)
    → is_told st ≡ true
    → (notify_subscribers (notification r st delete) m).subscribers
      ≡ (if delete then keep r m.subscribers else m.subscribers)
notify-left r st delete m h =
    ap (λ (x : Machine). x.subscribers) (notify_subscribers_lem m.nif r st h delete m refl)

module _ (io : Io) (m : Machine) (c : m.nif.class ≡ agps_class) where
  stays_in :
      (u : Bool) (st : State) (m' : Machine)
      → m.state ≡ st
      → Kept m m'
      → Fits st m'.subscribers
      → Steps u (holds st) m m'
  stays_in u st m' e k f =
      let same : m'.state ≡ st = k.state ∙ e in
      subst (λ s. Steps u (holds s) m m') same
        (stays u m c m' k (subst (λ s. Fits s m'.subscribers) (sym same) f))

  -- The unsubscription in the states pending and acquired.
  unsubscribed-Steps :
      (s : Subscriber) (st : State)
      → m.state ≡ st
      → holds st ≡ true
      → ((ss : List Subscriber) → has_active ss ≡ true → Fits st ss)
      → Steps true true m (left_over io (unsubscribed s m))
  unsubscribed-Steps s st e held fit =
      let k = unsubscribed-Kept s m in
      let same : (unsubscribed s m).state ≡ st = k.state ∙ e in
      left_over-Steps io m (unsubscribed s m) c k (ap holds same ∙ held)
        λ active. subst (λ x. Fits x (unsubscribed s m).subscribers) (sym same) (fit _ active)

  on_pending-Steps :
      (ev : Event)
      → m.state ≡ pending_state
      → has_active m.subscribers ≡ true
      → Steps (is_unsubscribe ev) true m (on_pending io ev m)
  unfolding on_pending
  on_pending-Steps (subscribes s) e f =
      stays_in false pending_state (add_subscriber s m) e (add_subscriber-Kept s m)
        (add_subscriber-active s m f)
  on_pending-Steps (unsubscribes s) e f = unsubscribed-Steps s pending_state e refl (λ ss h. h)
  on_pending-Steps grants e f =
      moves false m c true acquired_state _
        (notify_subscribers-Kept broadcast_active granted false m refl)
        (rw (notify-left broadcast_active granted false m refl) f) refl
  on_pending-Steps releases e f = stays_in false pending_state m e (Kept-refl m) f
  on_pending-Steps denies e f =
      moves false m c true released_state _
        (notify_subscribers-Kept broadcast_all denied true m refl)
        (notify-left broadcast_all denied true m refl ∙ keep_all m.subscribers) refl

  on_acquired-Steps :
      (ev : Event)
      → m.state ≡ acquired_state
      → has_active m.subscribers ≡ true
      → Steps (is_unsubscribe ev) true m (on_acquired io ev m)
  unfolding on_acquired
  on_acquired-Steps (subscribes s) e f =
      stays_in false acquired_state (add_subscriber s (tell s granted m)) e
        (Kept-trans (tell-Kept s granted m) (add_subscriber-Kept s (tell s granted m)))
        (add_subscriber-active s (tell s granted m) f)
  on_acquired-Steps (unsubscribes s) e f = unsubscribed-Steps s acquired_state e refl (λ ss h. h)
  on_acquired-Steps grants e f = stays_in false acquired_state m e (Kept-refl m) f
  on_acquired-Steps releases e f =
      moves false m c true released_state _
        (notify_subscribers-Kept broadcast_all released true m refl)
        (notify-left broadcast_all released true m refl ∙ keep_all m.subscribers) refl
  on_acquired-Steps denies e f = stays_in false acquired_state m e (Kept-refl m) f

  add-first :
      (s : Subscriber) → m.subscribers ≡ [] → has_active (add_subscriber s m).subscribers ≡ true
  add-first s e = elim (Bool-cases (is_some (search (rcver s) m.subscribers))) [
    | inl old ↦
        let some_ = search-is_inhabited (rcver s) m.subscribers old in
        let none_ : is_inhabited m.subscribers ≡ false = ap is_inhabited e in absurd (cc)
    | inr new ↦ rw new refl
  ]

  on_released-Steps :
      (ev : Event)
      → m.state ≡ released_state
      → m.subscribers ≡ []
      → Steps (is_unsubscribe ev) false m (on_released io ev m)
  unfolding on_released
  on_released-Steps (subscribes s) e f =
      let m' = add_subscriber s m in
      let k = add_subscriber-Kept s m in
      let sent = requests false m c io pending_state m' k (add-first s f) (λ ss h. h) refl in
      let same = send-agps io request_conn m' (ap (λ (n : Nif). n.class) k.nif ∙ c) in
      rw same (rw same at sent)
  on_released-Steps (unsubscribes s) e f =
      stays_in true released_state (tell s unsubscribe m) e (tell-Kept s unsubscribe m) f
  on_released-Steps grants e f = stays_in false released_state m e (Kept-refl m) f
  on_released-Steps releases e f = stays_in false released_state m e (Kept-refl m) f
  on_released-Steps denies e f = stays_in false released_state m e (Kept-refl m) f

  restart-Steps :
      (m' : Machine)
      → Kept m m'
      → (has_active m'.subscribers ≡ false → m'.subscribers ≡ [])
      → Steps false false m (restart io m')
  unfolding restart
  restart-Steps m' k gone = elim (Bool-cases (has_active m'.subscribers)) [
    | inl active ↦ rw active (requests false m c io pending_state m' k active (λ ss h. h) refl)
    | inr inactive ↦ rw inactive (moves false m c false released_state m' k (gone inactive) refl)
  ]

  after_notify :
      (st : Status)
      → is_told st ≡ true
      → Steps false false m
          (restart io (notify_subscribers (notification broadcast_inactive st true) m))
  after_notify st h =
      restart-Steps _ (notify_subscribers-Kept broadcast_inactive st true m h) λ inactive.
        let left = notify-left broadcast_inactive st true m h in
        left ∙ keep_inactive m.subscribers (sym (ap has_active left) ∙ inactive)

  on_releasing-Steps :
      (ev : Event)
      → m.state ≡ releasing_state
      → is_inhabited m.subscribers ≡ true
      → Steps (is_unsubscribe ev) false m (on_releasing io ev m)
  unfolding on_releasing
  on_releasing-Steps (subscribes s) e f =
      stays_in false releasing_state (add_subscriber s m) e (add_subscriber-Kept s m)
        (add_subscriber-inhabited s m)
  on_releasing-Steps (unsubscribes s) e f =
      let m' = unsubscribed s m in
      let k = unsubscribed-Kept s m in
      elim (Bool-cases (is_inhabited m'.subscribers)) [
        | inl some_ ↦ rw some_ (stays_in true releasing_state m' e k some_)
        | inr empty ↦
            rw empty (
              moves true m c false released_state m' k (is_inhabited-nil m'.subscribers empty) refl)
      ]
  on_releasing-Steps grants e f = stays_in false releasing_state m e (Kept-refl m) f
  on_releasing-Steps releases e f = after_notify released refl
  on_releasing-Steps denies e f = after_notify denied refl

  -- The state that the machine is in handles an event.
  pub dispatch_in :
      (ev : Event) (st : State)
      → m.state ≡ st
      → Fits st m.subscribers
      → Steps (is_unsubscribe ev) (holds st) m (dispatch st io ev m)
  dispatch_in ev released_state e f = on_released-Steps ev e f
  dispatch_in ev pending_state e f = on_pending-Steps ev e f
  dispatch_in ev acquired_state e f = on_acquired-Steps ev e f
  dispatch_in ev releasing_state e f = on_releasing-Steps ev e f
