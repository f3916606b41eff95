-- ===== src/LocClient/Opening.antt =====
-- What locClientOpenInstance and locClientOpen (loc_api_v02_client.c) leave behind.
use android_device_lenovo_a.Base.{
  ◌+◌, ◌-◌, ◌≡◌, ◌≢◌, inl, inr, refl, ap, ◌∙◌, true, false, not, ◌||◌, Bool, Option, some, List, [],
  ◌∷◌, ◌==◌, if◌then◌else◌, arith, Bool-cases,
}
use android_device_lenovo_a.Base.Run.{ok, pure, ◌>>◌, Returns, returns, Returns-bind}
use android_device_lenovo_a.LocClient.State.{
  Ptr, null, Status, success, failure_internal, CallbackData, zeroed, World, write, load, sane,
}
use android_device_lenovo_a.LocClient.Open.{Attempt, await_lookup, client_init, qmi_ctrl_point_init}

pub write_self :
    (h : Ptr → Option CallbackData) (p : Ptr) (c : Option CallbackData) → write h p c p ≡ c
unfolding write
write_self h p c = ground arith

pub write_other :
    (h : Ptr → Option CallbackData) (p : Ptr) (c : Option CallbackData) (a : Ptr)
    → a ≢ p
    → write h p c a ≡ h a
unfolding write
write_other h p c a ne = ground arith

pub load-some :
    (p : Ptr) (w : World) (d : CallbackData) → p ≢ null → w.cells p ≡ some d → load p w ≡ ok d w
unfolding load
load-some p w d ne e = let live : (p == null) ≡ false = ground arith in rw (live, e) refl

-- A client that is there: its data points to itself, and has a handle of QMI.
pub sane-some :
    (p : Ptr) (w : World) (d : CallbackData)
    → p ≢ null
    → w.cells p ≡ some d
    → d.user_handle ≢ null
    → d.me ≡ p
    → sane p w ≡ ok (some d) w
unfolding sane
sane-some p w d ne e user me =
    let live : (p == null) ≡ false = ground arith in
    let good : (d.user_handle == null) || not (p == d.me) ≡ false = ground arith in
    rw (live, load-some p w d ne e, good) refl

-- The control point of a new client is initialised, or nothing is left of the attempt.
pub data Inited (at : Attempt) (p : Ptr) (w : World) : Status → World → Type 0 where
  inited :
      {w' : World}
      → at.client ≢ null
      → w' ≡ record w {
        cells = write w.cells p (some (record zeroed { user_handle = at.client }));
        clients = w.clients + 1;
      }
      → Inited at p w success w'
  not_inited : {w' : World} → w' ≡ w → Inited at p w failure_internal w'

client_init-Inited :
    (at : Attempt) (p : Ptr) (w : World)
    → at.error_cb_ok ≡ true
    → p ≢ null
    → w.cells p ≡ some zeroed
    → Returns (Inited at p w) (client_init at p w)
unfolding client_init
client_init-Inited at p w no_error ne e = elim (Bool-cases (at.client == null)) [
  | inl z ↦ rw z (returns (not_inited refl))
  | inr c ↦
      rw (c, no_error, load-some p (record w { clients = w.clients + 1 }) zeroed ne e)
        (returns (inited (ground arith) refl))
]

-- The notifier is given back on every path.
abbrev released : World → World
released w = record w { notifiers = w.notifiers - 1 }

released-Inited :
    (at : Attempt) (p : Ptr) (w w' : World) (status : Status)
    → Inited at p (record w { notifiers = w.notifiers + 1 }) status w'
    → Inited at p w status (released w')
released-Inited at p w w' status (inited c e) =
    let back : w.notifiers + 1 - 1 ≡ w.notifiers = omega arith in
    inited c (
      ap released e
      ∙ ap
          (λ n. record {
            cells = write w.cells p (some (record zeroed { user_handle = at.client }));
            clients = w.clients + 1;
            notifiers = n;
          })
          back)
released-Inited at p w w' status (not_inited e) =
    let back : w.notifiers + 1 - 1 ≡ w.notifiers = omega arith in
    not_inited (ap released e ∙ ap (λ n. record w { notifiers = n }) back)

-- Whether the service is found.
abbrev pub comes_up : List Bool → Bool
comes_up [] = false
comes_up (true ∷ lookups) = true
comes_up (false ∷ lookups) = comes_up lookups

await_lookup-up :
    (lookups : List Bool) (w : World) → comes_up lookups ≡ true → await_lookup lookups w ≡ ok tt w
unfolding await_lookup
await_lookup-up [] w up = cc
await_lookup-up (true ∷ lookups) w up = refl
await_lookup-up (false ∷ lookups) w up = await_lookup-up lookups w up

connected-Inited :
    (at : Attempt) (p : Ptr) (w : World)
    → comes_up at.lookups ≡ true
    → at.error_cb_ok ≡ true
    → p ≢ null
    → w.cells p ≡ some zeroed
    → Returns (Inited at p w) (
        (if not at.notifier_ok
            then pure failure_internal
            else (do await_lookup at.lookups; client_init at p))
          w)
connected-Inited at p w up no_error ne e = elim (Bool-cases at.notifier_ok) [
  | inl k ↦ simp (k, await_lookup-up at.lookups w up) (client_init-Inited at p w no_error ne e)
  | inr k ↦ simp k (returns (not_inited refl))
]

pub qmi_ctrl_point_init-Inited :
    (at : Attempt) (p : Ptr) (w : World)
    → comes_up at.lookups ≡ true
    → at.error_cb_ok ≡ true
    → p ≢ null
    → w.cells p ≡ some zeroed
    → Returns (Inited at p w) (qmi_ctrl_point_init at p w)
unfolding qmi_ctrl_point_init
qmi_ctrl_point_init-Inited at p w up no_error ne e = elim (Bool-cases at.service_object) [
  | inl s ↦ simp s (elim (Bool-cases at.notifier) [
    | inl n ↦ simp n (
        Returns-bind _
          (connected-Inited at p (record w { notifiers = w.notifiers + 1 }) up no_error ne e)
          λ r w' post. returns (released-Inited at p w w' r post))
    | inr n ↦
        simp n (Returns-bind _ (connected-Inited at p w up no_error ne e) λ r w' post. returns post)
  ])
  | inr s ↦ simp s (returns (not_inited refl))
]
