-- ===== src/Agps/Steps.antt =====
-- The events of AgpsStateMachine keep its states consistent and its requests balanced
-- (gps/loc_api/libloc_api_50001/loc_eng_agps.cpp).
use android_device_lenovo_a.Base.{
  ◌≡◌, refl, ap, ◌∙◌, subst, Bool, true, false, inl, inr, List, [], ◌∷◌, ◌++◌, Bool-cases,
}
use android_device_lenovo_a.Agps.Types.{
  Action, request_conn, release_conn, State, released_state, pending_state, acquired_state,
  releasing_state, Subscriber, agps_class, Nif, Machine,
}
use android_device_lenovo_a.Agps.Machine.{is_inhabited, Io, send_rsrc_request, left_over}
use android_device_lenovo_a.Agps.Consistent.{
  has_active, Fits, IsConsistent, is_inhabited-nil, agps_send-subscribers,
}
use android_device_lenovo_a.Agps.Requests.{
  actions, Kept, send-agps, agps_send-request, agps_send-release, agps_send-nif,
}

-- Whether the machine has asked for the connection, and not for its release.
abbrev pub holds : State → Bool
holds released_state = false
holds pending_state = true
holds acquired_state = true
holds releasing_state = false

-- What is asked of the connectivity service when `holds` changes. A connection that the network
-- takes away is not released.
abbrev pub expected : (is_unsubscribe before after : Bool) → List Action
expected u false true = request_conn ∷ []
expected true true false = release_conn ∷ []
expected false true false = []
expected u true true = []
expected u false false = []

pub record Steps (is_unsubscribe before : Bool) (m m' : Machine) : Type 0 where
  pub consistent : IsConsistent m'
  pub asked :
      actions m'.env.calls ≡ expected is_unsubscribe before (holds m'.state) ++ actions m.env.calls

expected_same : (u b : Bool) → expected u b b ≡ []
expected_same u true = refl
expected_same u false = refl

module _ (u : Bool) (m : Machine) (c : m.nif.class ≡ agps_class) where
  -- An event that changes no state asks for nothing.
  pub stays :
      (m' : Machine) → Kept m m' → Fits m'.state m'.subscribers → Steps u (holds m'.state) m m'
  stays m' k f = record {
    consistent = record { class = ap (λ (n : Nif). n.class) k.nif ∙ c; fits = f };
    asked = rw (expected_same u (holds m'.state)) k.asked;
  }

  -- Nor does one that goes to a state where nothing changes for the service.
  pub moves :
      (before : Bool) (st : State) (m' : Machine)
      → Kept m m'
      → Fits st m'.subscribers
      → expected u before (holds st) ≡ []
      → Steps u before m (record m' { state = st })
  moves before st m' k f nothing = record {
    consistent = record { class = ap (λ (n : Nif). n.class) k.nif ∙ c; fits = f };
    asked = rw nothing k.asked;
  }

  Kept-class : (m' : Machine) → Kept m m' → m'.nif.class ≡ agps_class
  Kept-class m' k = ap (λ (n : Nif). n.class) k.nif ∙ c

  pub requests :
      (io : Io) (st : State) (m' : Machine)
      → Kept m m'
      → has_active m'.subscribers ≡ true
      → ((ss : List Subscriber) → has_active ss ≡ true → Fits st ss)
      → holds st ≡ true
      → Steps u false m (record ((send_rsrc_request io request_conn m').1) { state = st })
  requests io st m' k active fit held =
      rw (send-agps io request_conn m' (Kept-class m' k)) (record {
        consistent = record {
          class = ap (λ (n : Nif). n.class) (agps_send-nif request_conn m') ∙ Kept-class m' k;
          fits = fit _ (ap has_active (agps_send-subscribers request_conn m') ∙ active);
        };
        asked = rw held (agps_send-request m' active ∙ ap (λ cs. request_conn ∷ cs) k.asked);
      })

releases_conn :
    (io : Io) (st : State) (m m' : Machine)
    → m.nif.class ≡ agps_class
    → Kept m m'
    → has_active m'.subscribers ≡ false
    → Fits st m'.subscribers
    → holds st ≡ false
    → Steps true true m (record ((send_rsrc_request io release_conn m').1) { state = st })
releases_conn io st m m' c k inactive fit held =
    rw (send-agps io release_conn m' (Kept-class true m c m' k)) (record {
      consistent = record {
        class =
            ap (λ (n : Nif). n.class) (agps_send-nif release_conn m') ∙ Kept-class true m c m' k;
        fits = rw (agps_send-subscribers release_conn m') fit;
      };
      asked = rw held (agps_send-release m' inactive ∙ ap (λ cs. release_conn ∷ cs) k.asked);
    })

pub left_over-Steps :
    (io : Io) (m m' : Machine)
    → m.nif.class ≡ agps_class
    → Kept m m'
    → holds m'.state ≡ true
    → (has_active m'.subscribers ≡ true → Fits m'.state m'.subscribers)
    → Steps true true m (left_over io m')
unfolding left_over
left_over-Steps io m m' c k held fit = elim (Bool-cases (is_inhabited m'.subscribers)) [
  | inr empty ↦
      let nil_ = is_inhabited-nil m'.subscribers empty in
      rw empty (releases_conn io released_state m m' c k (rw nil_ refl) nil_ refl)
  | inl some_ ↦ elim (Bool-cases (has_active m'.subscribers)) [
    | inr inactive ↦
        rw (some_, inactive) (releases_conn io releasing_state m m' c k inactive some_ refl)
    | inl active ↦
        rw (some_, active) (subst (λ b. Steps true b m m') held (stays true m c m' k (fit active)))
  ]
]
