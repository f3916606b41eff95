-- ===== src/LocClient/Attempts.antt =====
-- An attempt of locClientOpenInstance (loc_api_v02_client.c).
use android_device_lenovo_a.Base.{
  ℕ, ◌+◌, ◌≡◌, ◌≢◌, ◌⊎◌, inl, inr, refl, sym, ap, ◌∙◌, true, false, not, Option, none, some, ◌==◌,
  if◌then◌else◌, arith, Bool-cases,
}
use android_device_lenovo_a.Base.Run.{pure, Returns, returns, Returns-bind, Returns-mono, ◌>>◌}
use android_device_lenovo_a.LocClient.State.{
  Ptr, null, Status, success, is_success, CallbackData, zeroed, World, write, store,
}
use android_device_lenovo_a.LocClient.Requests.{RequestTable}
use android_device_lenovo_a.LocClient.Open.{
  Callbacks, Attempt, valid_callbacks, open_client, register_client, open_instance,
}
use android_device_lenovo_a.LocClient.Opening.{
  write_self, write_other, comes_up, Inited, inited, not_inited, qmi_ctrl_point_init-Inited,
}
use android_device_lenovo_a.LocClient.Registering.{
  IsClient, SameBut, client_data, Registered, registered, refused, register_client-Registered,
}

-- Nothing is left of a failed attempt.
pub record Same (w w' : World) : Type 0 where
  pub cells : (a : Ptr) → w'.cells a ≡ w.cells a
  pub clients : w'.clients ≡ w.clients
  pub notifiers : w'.notifiers ≡ w.notifiers

-- An attempt to open a client: the client is there, and the handle is its address; or the attempt
-- failed, nothing is left, and the handle is NULL.
pub data Attempted (w : World) (at : Attempt) (cbs : Callbacks) (mask : ℕ) (cookie : Ptr)
    : Status × Option Ptr → World → Type 0 where
  opened :
      {w' : World}
      → IsClient w' at.calloc (client_data at.client at.calloc cbs mask cookie)
      → SameBut at.calloc w.cells w'.cells
      → w'.clients ≡ w.clients + 1
      → w'.notifiers ≡ w.notifiers
      → Attempted w at cbs mask cookie (success, some at.calloc) w'
  failed :
      {w' : World} {status : Status}
      → is_success status ≡ false
      → Same w w'
      → Attempted w at cbs mask cookie (status, some null) w'

-- The platform's part in an attempt: calloc returns NULL or memory that nothing uses, the service comes
-- up, and QMI accepts an error callback and releases a client when it is asked to.
pub record IsSound (w : World) (at : Attempt) : Type 0 where
  pub fresh : (at.calloc ≡ null) ⊎ (w.cells at.calloc ≡ none)
  pub up : comes_up at.lookups ≡ true
  pub error_cb_ok : at.error_cb_ok ≡ true
  pub release_ok : at.release_ok ≡ true

pub restored :
    (h g : Ptr → Option CallbackData) (p : Ptr)
    → h p ≡ none
    → g p ≡ none
    → SameBut p h g
    → (a : Ptr) → g a ≡ h a
restored h g p e empty same a = elim (Bool-cases (a == p)) [
  | inl y ↦ let at : a ≡ p = ground arith in ap g at ∙ empty ∙ sym (ap h at ∙ e)
  | inr n ↦ let away : a ≢ p = ground arith in same a away
]

abbrev result : Attempt → Status → Status × Option Ptr
result at status = (status, some (if is_success status then at.calloc else null))

module _ (table : RequestTable) (at : Attempt) (mask : ℕ) (cbs : Callbacks) (cookie : Ptr)
    (w : World) where
  abbrev started : World
  started = record w { cells = write w.cells at.calloc (some zeroed) }

  of_Registered :
      (c : Ptr) (status : Status) (w' : World)
      → c ≡ at.client
      → at.calloc ≢ null
      → c ≢ null
      → w.cells at.calloc ≡ none
      → Registered
          (record started {
            cells = write started.cells at.calloc (some (record zeroed { user_handle = c }));
            clients = w.clients + 1;
          })
          at.calloc
          (client_data c at.calloc cbs mask cookie)
          status
          w'
      → Attempted w at cbs mask cookie (result at status) w'
  of_Registered c status w' ce ne cn empty (registered e same cl nt) =
      opened
        (record {
          live = ne;
          at = e ∙ ap (λ u. some (client_data u at.calloc cbs mask cookie)) ce;
          user = λ z. cn (ce ∙ z);
          me = refl;
        })
        (λ a away.
          same a away
          ∙ write_other started.cells at.calloc _ a away
          ∙ write_other w.cells at.calloc _ a away)
        cl nt
  of_Registered c status w' ce ne cn empty (refused e same cl nt) = failed refl (record {
    cells = restored w.cells w'.cells at.calloc empty e (λ a away.
        same a away
        ∙ write_other started.cells at.calloc _ a away
        ∙ write_other w.cells at.calloc _ a away);
    clients = omega (arith, cl);
    notifiers = nt;
  })

  open_rest :
      (status : Status) (w' : World)
      → IsSound w at
      → at.calloc ≢ null
      → w.cells at.calloc ≡ none
      → Inited at at.calloc started status w'
      → Returns
          (λ s w''. Attempted w at cbs mask cookie (result at s) w'')
          ((if not (is_success status)
              then (do store at.calloc none; pure status)
              else register_client table at mask cbs cookie at.calloc)
            w')
  open_rest status w' sound ne empty (inited c e) = rw e (
      Returns-mono
        (register_client-Registered table at mask cbs cookie at.calloc _ at.client sound.release_ok
          ne c (write_self started.cells at.calloc _))
        λ s w'' post. of_Registered at.client s w'' refl ne c empty post)
  open_rest status w' sound ne empty (not_inited e) = rw e (
      returns (
        failed refl (record {
          cells =
              restored w.cells _ at.calloc empty (write_self started.cells at.calloc none)
                (λ a away.
                  write_other started.cells at.calloc none a away
                  ∙ write_other w.cells at.calloc _ a away);
          clients = refl;
          notifiers = refl;
        })))

  open_client-Attempted :
      IsSound w at
      → Returns
          (λ status w'. Attempted w at cbs mask cookie (result at status) w')
          (open_client table at mask cbs cookie w)
  unfolding open_client
  open_client-Attempted sound = elim (Bool-cases (at.calloc == null)) [
    | inl z ↦
        simp z
          (returns (failed refl (record { cells = λ a. refl; clients = refl; notifiers = refl })))
    | inr nz ↦
        let ne : at.calloc ≢ null = ground arith in
        let empty : w.cells at.calloc ≡ none = ground (arith, sound.fresh) in
        simp nz (
          Returns-bind _
            (qmi_ctrl_point_init-Inited at at.calloc started sound.up sound.error_cb_ok ne
              (write_self w.cells at.calloc (some zeroed)))
            λ status w' post. open_rest status w' sound ne empty post)
  ]

  -- An attempt of locClientOpenInstance with valid arguments, on a platform that is sound, leaves an
  -- open client behind, with everything that the caller passed, or nothing at all: then the handle
  -- is NULL, and neither callback data nor a client or a notifier of QMI is left.
  pub open_instance-Attempted :
      (handle : Ptr)
      → IsSound w at
      → valid_callbacks cbs ≡ true
      → Returns
          (Attempted w at cbs mask cookie)
          (open_instance table at mask (some cbs) (some handle) cookie w)
  unfolding open_instance
  open_instance-Attempted handle sound valid =
      simp valid (Returns-bind _ (open_client-Attempted sound) λ status w' post. returns post)
