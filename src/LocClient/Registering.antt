-- ===== src/LocClient/Registering.antt =====
-- The registration of a new client's events in locClientOpenInstance (loc_api_v02_client.c), and
-- locClientClose.
use android_device_lenovo_a.Base.{
  ℕ, ◌-◌, ◌≡◌, ◌≢◌, ◌⊎◌, inl, inr, refl, ◌∙◌, true, false, Option, none, some, Bool-cases,
}
use android_device_lenovo_a.Base.Run.{ok, pure, and_then, Returns, returns, Returns-bind}
use android_device_lenovo_a.LocClient.State.{
  Ptr, null, Status, success, failure_internal, is_success, CallbackData, zeroed, World, write,
  sane,
}
use android_device_lenovo_a.LocClient.Requests.{
  RequestTable, Reply, register_event_mask, send_req, send_sane, send_valid, noted,
  validate_request, reg_events_req, status_of,
}
use android_device_lenovo_a.LocClient.Open.{Callbacks, Attempt, close, close_sane, register_client}
use android_device_lenovo_a.LocClient.Opening.{write_self, write_other, load-some, sane-some}

-- `d` is the data of an open client at `p`.
pub record IsClient (w : World) (p : Ptr) (d : CallbackData) : Type 0 where
  pub live : p ≢ null
  pub at : w.cells p ≡ some d
  pub user : d.user_handle ≢ null
  pub me : d.me ≡ p

pub sane-IsClient :
    (w : World) (p : Ptr) (d : CallbackData) → IsClient w p d → sane p w ≡ ok (some d) w
sane-IsClient w p d is = sane-some p w d is.live is.at is.user is.me

-- locClientClose of a client frees its data and releases its client of QMI, and clears the handle.
pub close-IsClient :
    (w : World) (p : Ptr) (d : CallbackData)
    → IsClient w p d
    → close true (some p) w
      ≡ ok (success, some null) (record w { cells = write w.cells p none; clients = w.clients - 1 })
unfolding close close_sane
close-IsClient w p d is = rw (sane-IsClient w p d is) refl

noted-cases :
    (w : World) (p : Ptr) (mask : ℕ) (d : CallbackData) (status : Status)
    → Returns
        (λ s w'.
          ((is_success s ≡ true)
            × (w'
                ≡ record w { cells = write w.cells p (some (record d { event_reg_mask = mask })) }))
          ⊎ ((is_success s ≡ false) × (w' ≡ w)))
        (noted p reg_events_req (some mask) d status w)
unfolding noted
noted-cases w p mask d status = elim (Bool-cases (is_success status)) [
  | inl y ↦ rw y (returns (inl (y, refl)))
  | inr n ↦ rw n (returns (inr (n, refl)))
]

-- The events of a client are registered and noted, or nothing changes.
register_event_mask-cases :
    (table : RequestTable) (reply : Reply) (w : World) (p : Ptr) (mask : ℕ) (d : CallbackData)
    → IsClient w p d
    → Returns
        (λ b w'.
          ((b ≡ true)
            × (w'
                ≡ record w { cells = write w.cells p (some (record d { event_reg_mask = mask })) }))
          ⊎ ((b ≡ false) × (w' ≡ w)))
        (register_event_mask table reply p mask w)
unfolding register_event_mask send_req send_sane
register_event_mask-cases table reply w p mask d is =
    rw (sane-IsClient w p d is) (go (validate_request table reg_events_req))
  where
    go :
        (size : Option (Option ℕ))
        → Returns
            (λ b w'.
              ((b ≡ true)
                × (w' ≡ record w {
                  cells = write w.cells p (some (record d { event_reg_mask = mask }));
                }))
              ⊎ ((b ≡ false) × (w' ≡ w)))
            (and_then
              (send_valid size reply p reg_events_req (some mask) d w)
              (λ status. pure (is_success status)))
    go none = unfold send_valid in (returns (inr (refl, refl)))
    go (some size) =
        unfold send_valid in
        (Returns-bind _ (noted-cases w p mask d (status_of reply)) λ s w' post. returns post)

-- `g` is `h` but for the address `p`.
abbrev pub SameBut : Ptr → (Ptr → Option CallbackData) → (Ptr → Option CallbackData) → Type 0
SameBut p h g = (a : Ptr) → a ≢ p → g a ≡ h a

-- The data of a client once it is open.
abbrev pub client_data :
    (user_handle p : Ptr) → Callbacks → (mask : ℕ) → (cookie : Ptr) → CallbackData
client_data user_handle p cbs mask cookie = record {
  client_cookie = cookie;
  user_handle = user_handle;
  event_callback = cbs.event_ind_cb;
  resp_callback = cbs.resp_ind_cb;
  error_callback = cbs.error_cb;
  event_reg_mask = mask;
  me = p;
}

-- What is left of a client whose control point was there: an open client, or nothing at all.
pub data Registered (w : World) (p : Ptr) (opened : CallbackData) : Status → World → Type 0 where
  registered :
      {w' : World}
      → w'.cells p ≡ some opened
      → SameBut p w.cells w'.cells
      → w'.clients ≡ w.clients
      → w'.notifiers ≡ w.notifiers
      → Registered w p opened success w'
  refused :
      {w' : World}
      → w'.cells p ≡ none
      → SameBut p w.cells w'.cells
      → w'.clients ≡ w.clients - 1
      → w'.notifiers ≡ w.notifiers
      → Registered w p opened failure_internal w'

pub register_client-Registered :
    (table : RequestTable) (at : Attempt) (mask : ℕ) (cbs : Callbacks) (cookie p : Ptr) (w : World)
    (c : Ptr)
    → at.release_ok ≡ true
    → p ≢ null
    → c ≢ null
    → w.cells p ≡ some (record zeroed { user_handle = c })
    → Returns
        (Registered w p (client_data c p cbs mask cookie))
        (register_client table at mask cbs cookie p w)
unfolding register_client
register_client-Registered table at mask cbs cookie p w c release_ok ne cn e =
    let d₀ : CallbackData = record zeroed { user_handle = c; me = p } in
    let w₁ : World = record w { cells = write w.cells p (some d₀) } in
    let is : IsClient w₁ p d₀ = record {
      live = ne;
      at = write_self w.cells p (some d₀);
      user = cn;
      me = refl;
    } in
    let d₁ : CallbackData = record d₀ { event_reg_mask = mask } in
    let w₂ : World = record w₁ { cells = write w₁.cells p (some d₁) } in
    rw (load-some p w _ ne e) (
      Returns-bind _ (register_event_mask-cases table at.reply w₁ p mask d₀ is) λ b w' post.
        elim post [
          | inl (y, e') ↦
              rw (y, e', load-some p w₂ d₁ ne (write_self w₁.cells p (some d₁)))
                (returns (
                  registered (write_self w₂.cells p _)
                    (λ a away.
                      write_other w₂.cells p _ a away
                      ∙ write_other w₁.cells p _ a away
                      ∙ write_other w.cells p _ a away)
                    refl refl))
          | inr (n, e') ↦
              rw (n, e')
                (simp release_ok (
                  rw (close-IsClient w₁ p d₀ is) (
                    returns (
                      refused (write_self w₁.cells p none)
                        (λ a away.
                          write_other w₁.cells p none a away ∙ write_other w.cells p _ a away)
                        refl refl))))
        ])
