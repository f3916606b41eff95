-- ===== src/Agps/Lost.antt =====
-- Where a subscriber of gps/loc_api/libloc_api_50001/loc_eng_agps.cpp waits in vain.
use android_device_lenovo_a.Base.{
  ◌≡◌, refl, sym, ap, ◌∙◌, subst, true, false, inl, inr, List, [], ◌∷◌, Bool-cases, is_some,
}
use android_device_lenovo_a.Agps.Types.{
  released, State, released_state, pending_state, acquired_state, releasing_state, Subscriber,
  rcver, broadcast_inactive, agps_class, ds_class, Class, Machine,
}
use android_device_lenovo_a.Agps.Machine.{
  search, add_subscriber, notification, notify_subscribers, go_to, Io,
}
use android_device_lenovo_a.Agps.Notify.{keep, told, notify_subscribers_lem}
use android_device_lenovo_a.Agps.States.{
  subscribe_rsrc, on_rsrc_event, on_releasing, restart, is_released, dispatch, subscribe_op,
  report_op, run_op, run_ops, Event, subscribes, releases, event_as,
}
use android_device_lenovo_a.Agps.Consistent.{has_active, keep_inactive}

has_active-keep_inactive :
    (ss : List Subscriber) → has_active ss ≡ false → has_active (keep broadcast_inactive ss) ≡ false
has_active-keep_inactive [] h = refl
has_active-keep_inactive (s ∷ ss) h = elim (Bool-cases s.is_inactive) [
  | inl gone ↦ rw gone (has_active-keep_inactive ss (rw gone at h))
  | inr stays ↦ absurd (cc)
]

abbrev pub Gone : Machine → Machine → Type 0
Gone m m' =
    (m'.state ≡ released_state)
    × (m'.subscribers ≡ [])
    × (m'.env ≡ told m.nif broadcast_inactive released m.subscribers m.env)

dispatch-releasing :
    (io : Io) (ev : Event) (m : Machine) (st : State)
    → st ≡ releasing_state
    → dispatch st io ev m ≡ on_releasing io ev m
dispatch-releasing io ev m releasing_state e = refl
dispatch-releasing io ev m released_state e = absurd (cc)
dispatch-releasing io ev m pending_state e = absurd (cc)
dispatch-releasing io ev m acquired_state e = absurd (cc)

restart_idle :
    (io : Io) (m : Machine)
    → has_active m.subscribers ≡ false
    → restart io m ≡ go_to released_state m
unfolding restart
restart_idle io m h = rw h refl

module _ (io : Io) (m : Machine) where
  -- The subscription of one that is in the list changes nothing.
  subscribe_rsrc-old :
      (s : Subscriber)
      → m.state ≡ releasing_state
      → m.nif.enforce_single_subscriber ≡ false
      → is_some (search (rcver s) m.subscribers) ≡ true
      → subscribe_rsrc io s m ≡ m
  unfolding subscribe_rsrc on_releasing
  subscribe_rsrc-old s st single found =
      let old : add_subscriber s m ≡ m = rw found refl in
      simp single (dispatch-releasing io (subscribes s) m m.state st ∙ old)

  on_rsrc_event-releases :
      m.state ≡ releasing_state
      → m.nif.class ≡ agps_class
      → on_rsrc_event io is_released m ≡ on_releasing io releases m
  unfolding on_rsrc_event
  on_rsrc_event-releases st c = by_class m.nif.class c
    where
      by_class :
          (class : Class)
          → class ≡ agps_class
          → event_as class io is_released m ≡ on_releasing io releases m
      by_class agps_class e = dispatch-releasing io releases m m.state st
      by_class ds_class e = absurd (cc)

  module _ (idle : has_active m.subscribers ≡ false) where
    released-Gone : Gone m (on_releasing io releases m)
    unfolding on_releasing
    released-Gone =
        let none_ = has_active-keep_inactive m.subscribers idle in
        let n = notify_subscribers (notification broadcast_inactive released true) m in
        let told_ = notify_subscribers_lem m.nif broadcast_inactive released refl true m refl in
        let idle' : has_active n.subscribers ≡ false =
          ap (λ (x : Machine). has_active x.subscribers) told_ ∙ none_ in
        subst (λ x. Gone m x) (sym (restart_idle io n idle' ∙ ap (go_to released_state) told_))
          (refl, keep_inactive m.subscribers none_, refl)

    -- When an AgpsStateMachine, not a DSStateMachine and without the single-subscriber mode, is in the
    -- releasing state and no subscriber of its list is active, and a client that the search finds in
    -- the list subscribes again, and then the release is reported: the client is told of the release
    -- and taken off the list with all others, and no connection is asked for.
    pub resubscribe-lost :
        (s : Subscriber)
        → m.state ≡ releasing_state
        → m.nif.class ≡ agps_class
        → m.nif.enforce_single_subscriber ≡ false
        → is_some (search (rcver s) m.subscribers) ≡ true
        → Gone m (run_ops io (subscribe_op s ∷ report_op is_released ∷ []) m)
    unfolding run_ops run_op
    resubscribe-lost s st c single found =
        subst (λ x. Gone m x)
          (sym (
            ap (on_rsrc_event io is_released) (subscribe_rsrc-old s st single found)
            ∙ on_rsrc_event-releases st c))
          released-Gone
