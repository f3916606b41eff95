-- ===== src/Agps/Consistent.antt =====
-- The states of AgpsStateMachine fit its list of subscribers
-- (gps/loc_api/libloc_api_50001/loc_eng_agps.cpp).
use android_device_lenovo_a.Base.{
  ◌≡◌, refl, Bool, true, false, inl, inr, List, [], ◌∷◌, Bool-cases, is_some,
}
use android_device_lenovo_a.Agps.Types.{
  Action, State, released_state, pending_state, acquired_state, releasing_state, Subscriber,
  Receiver, rcver, broadcast_all, broadcast_active, broadcast_inactive, agps_class, Machine,
}
use android_device_lenovo_a.Agps.Machine.{search, is_inhabited, add_subscriber, is_due, agps_send}
use android_device_lenovo_a.Agps.Notify.{keep}

abbrev pub has_active : List Subscriber → Bool
has_active ss = is_some (search broadcast_active ss)

-- Released without subscribers; pending and acquired with one that is active; releasing with one.
abbrev pub Fits : State → List Subscriber → Type 0
Fits released_state ss = ss ≡ []
Fits pending_state ss = has_active ss ≡ true
Fits acquired_state ss = has_active ss ≡ true
Fits releasing_state ss = is_inhabited ss ≡ true

pub record IsConsistent (m : Machine) : Type 0 where
  pub class : m.nif.class ≡ agps_class
  pub fits : Fits m.state m.subscribers

pub keep_all : (ss : List Subscriber) → keep broadcast_all ss ≡ []
keep_all [] = refl
keep_all (s ∷ ss) = keep_all ss

-- After the inactive ones are gone, all are active.
pub keep_inactive :
    (ss : List Subscriber)
    → has_active (keep broadcast_inactive ss) ≡ false
    → keep broadcast_inactive ss ≡ []
keep_inactive [] h = refl
keep_inactive (s ∷ ss) h = elim (Bool-cases s.is_inactive) [
  | inl gone ↦ rw gone (keep_inactive ss (rw gone at h))
  | inr stays ↦ absurd (cc)
]

pub has_active-is_inhabited : (ss : List Subscriber) → has_active ss ≡ true → is_inhabited ss ≡ true
has_active-is_inhabited [] h = h
has_active-is_inhabited (s ∷ ss) h = refl

pub is_inhabited-nil : (ss : List Subscriber) → is_inhabited ss ≡ false → ss ≡ []
is_inhabited-nil [] h = refl
is_inhabited-nil (s ∷ ss) h = cc

pub search-is_inhabited :
    (r : Receiver) (ss : List Subscriber) → is_some (search r ss) ≡ true → is_inhabited ss ≡ true
search-is_inhabited r [] h = h
search-is_inhabited r (s ∷ ss) h = refl

pub add_subscriber-inhabited :
    (s : Subscriber) (m : Machine) → is_inhabited (add_subscriber s m).subscribers ≡ true
add_subscriber-inhabited s m = elim (Bool-cases (is_some (search (rcver s) m.subscribers))) [
  | inl old ↦ rw old (search-is_inhabited (rcver s) m.subscribers old)
  | inr new ↦ rw new refl
]

pub add_subscriber-active :
    (s : Subscriber) (m : Machine)
    → has_active m.subscribers ≡ true
    → has_active (add_subscriber s m).subscribers ≡ true
add_subscriber-active s m h = elim (Bool-cases (is_some (search (rcver s) m.subscribers))) [
  | inl old ↦ rw old h
  | inr new ↦ rw new refl
]

pub agps_send-subscribers : (a : Action) (m : Machine) → (agps_send a m).subscribers ≡ m.subscribers
agps_send-subscribers a m = elim (Bool-cases (is_due (search broadcast_active m.subscribers) a)) [
  | inl due ↦ rw due refl
  | inr not_due ↦ rw not_due refl
]
