-- ===== src/LocClient/Lifetime.antt =====
-- The life of a client of loc_api_v02_client.c, from locClientOpen to locClientClose.
use android_device_lenovo_a.Base.{
  ℕ, zero, suc, ◌+◌, ◌≤◌, ◌≡◌, ◌≢◌, inl, inr, refl, ◌∙◌, true, Option, none, some, if◌then◌else◌,
  arith,
}
use android_device_lenovo_a.Base.Run.{pure, Returns, returns, Returns-bind, Returns-mono, ◌>>=◌}
use android_device_lenovo_a.LocClient.State.{Ptr, null, Status, is_success, World, sane}
use android_device_lenovo_a.LocClient.Requests.{RequestTable}
use android_device_lenovo_a.LocClient.Open.{
  Callbacks, Attempt, valid_callbacks, open_instance, open_loop, open_, close, close_sane,
  max_open_retries,
}
use android_device_lenovo_a.LocClient.Opening.{write_self, write_other}
use android_device_lenovo_a.LocClient.Registering.{close-IsClient}
use android_device_lenovo_a.LocClient.Attempts.{
  Same, Attempted, opened, failed, IsSound, restored, open_instance-Attempted,
}

module _ (table : RequestTable) (at : Attempt) (mask : ℕ) (cbs : Callbacks) (cookie : Ptr)
    (w : World) where
  -- Closing whatever handle an attempt left restores the state before the attempt: no callback data
  -- and no client or notifier of QMI is left, and the handle is NULL.
  pub close-open_instance :
      (handle : Ptr)
      → IsSound w at
      → valid_callbacks cbs ≡ true
      → Returns
          (λ (status, h) w'. (h ≡ some null) × Same w w')
          ((do (_, h) ← open_instance table at mask (some cbs) (some handle) cookie; close true h)
            w)
  close-open_instance handle sound valid =
      Returns-bind _ (open_instance-Attempted table at mask cbs cookie w handle sound valid)
        λ r w' post. closed r w' post
    where
      unused : at.calloc ≢ null → w.cells at.calloc ≡ none
      unused ne = ground (arith, sound.fresh)

      closed :
          (r : Status × Option Ptr) (w' : World)
          → Attempted w at cbs mask cookie r w'
          → Returns (λ (status, h) w''. (h ≡ some null) × Same w w'') (close true r.1 w')
      closed r w' (opened is same cl nt) = rw (close-IsClient w' at.calloc _ is) (
          returns (
            refl,
            record {
              cells =
                  restored w.cells _ at.calloc (unused is.live) (write_self w'.cells at.calloc none)
                    (λ a away. write_other w'.cells at.calloc none a away ∙ same a away);
              clients = omega (arith, cl);
              notifiers = nt;
            },
          ))
      closed r w' (failed bad same) = unfold close close_sane sane in (returns (refl, same))

Same-trans : (w w' w'' : World) → Same w w' → Same w' w'' → Same w w''
Same-trans w w' w'' s t = record {
  cells = λ a. t.cells a ∙ s.cells a;
  clients = t.clients ∙ s.clients;
  notifiers = t.notifiers ∙ s.notifiers;
}

-- What an attempt leaves, told from a state before that is the same.
Attempted-Same :
    (w w₁ : World) (at : Attempt) (cbs : Callbacks) (mask : ℕ) (cookie : Ptr)
    (r : Status × Option Ptr) (w' : World)
    → Same w w₁
    → Attempted w₁ at cbs mask cookie r w'
    → Attempted w at cbs mask cookie r w'
Attempted-Same w w₁ at cbs mask cookie r w' s (opened is same cl nt) =
    opened is (λ a away. same a away ∙ s.cells a) (omega (arith, cl, s.clients)) (nt ∙ s.notifiers)
Attempted-Same w w₁ at cbs mask cookie r w' s (failed bad same) =
    failed bad (Same-trans w w₁ w' s same)

IsSound-Same : (w w' : World) (at : Attempt) → Same w w' → IsSound w at → IsSound w' at
IsSound-Same w w' at s sound = record {
  fresh = elim sound.fresh [ inl z ↦ inl z | inr e ↦ inr (s.cells at.calloc ∙ e) ];
  up = sound.up;
  error_cb_ok = sound.error_cb_ok;
  release_ok = sound.release_ok;
}

module _ (table : RequestTable) (at : ℕ → Attempt) (mask : ℕ) (cbs : Callbacks) (cookie : Ptr) where
  open_loop-Attempted :
      (retries n : ℕ) (handle : Ptr) (w : World)
      → ((k : ℕ) → IsSound w (at k))
      → valid_callbacks cbs ≡ true
      → Returns
          (λ r w'. (k : ℕ) × (k ≤ n + retries) × Attempted w (at k) cbs mask cookie r w')
          (open_loop table at mask (some cbs) cookie retries n (some handle) w)
  unfolding open_loop
  open_loop-Attempted zero n handle w sound valid =
      Returns-mono (open_instance-Attempted table (at n) mask cbs cookie w handle (sound n) valid)
        λ r w' post. (n, omega arith, post)
  open_loop-Attempted (suc retries) n handle w sound valid =
      Returns-bind _ (open_instance-Attempted table (at n) mask cbs cookie w handle (sound n) valid)
        (next λ w' same.
          open_loop-Attempted retries (n + 1) null w' (λ k. IsSound-Same w w' (at k) same (sound k))
            valid)
    where
      next :
          ((w' : World)
            → Same w w'
            → Returns
                (λ r w''.
                  (k : ℕ) × (k ≤ (n + 1) + retries) × Attempted w' (at k) cbs mask cookie r w'')
                (open_loop table at mask (some cbs) cookie retries (n + 1) (some null) w'))
          → (r : Status × Option Ptr) (w' : World) → Attempted w (at n) cbs mask cookie r w'
          → Returns
              (λ r' w''.
                (k : ℕ) × (k ≤ n + suc retries) × Attempted w (at k) cbs mask cookie r' w'')
              ((if is_success r.0
                  then pure r
                  else open_loop table at mask (some cbs) cookie retries (n + 1) r.1)
                w')
      next rest r w' (opened is same cl nt) = returns (n, omega arith, opened is same cl nt)
      next rest r w' (failed bad same) = simp bad (
          Returns-mono (rest w' same) λ r' w'' post.
            let (k, le, a) = post in
            (k, omega arith, Attempted-Same w w' (at k) cbs mask cookie r' w'' same a))

  -- locClientOpen makes at most 21 attempts. With valid arguments, and where in each attempt the service
  -- is found after some lookups, calloc returns NULL or unused memory, and QMI accepts an error callback
  -- and releases a client when asked to, it returns, and leaves what one of the attempts left: an open
  -- client, with everything that the caller passed and its address in the handle, or nothing at all:
  -- then the handle is NULL, and neither callback data nor a client or a notifier of QMI is left.
  pub open-Attempted :
      (handle : Ptr) (w : World)
      → ((k : ℕ) → IsSound w (at k))
      → valid_callbacks cbs ≡ true
      → Returns
          (λ r w'. (k : ℕ) × (k ≤ 20) × Attempted w (at k) cbs mask cookie r w')
          (open_ table at mask (some cbs) (some handle) cookie w)
  unfolding open_
  open-Attempted handle w sound valid =
      Returns-mono (open_loop-Attempted max_open_retries 0 handle w sound valid)
        λ r w' post. let (k, le, a) = post in (k, omega arith, a)
