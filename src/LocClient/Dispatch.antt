-- ===== src/LocClient/Dispatch.antt =====
-- Which callback an indication leads to (locClientIndCb of loc_api_v02_client.c).
use android_device_lenovo_a.Base.{ℕ, ◌≡◌, ◌≢◌, Option, some, List, [], ◌∷◌}
use android_device_lenovo_a.LocClient.State.{Ptr, null, CallbackData}
use android_device_lenovo_a.LocClient.Indications.{
  IndType, Invocation, Act, malloc, invoke, free, callback_of,
}

abbrev pub call :
    IndType → (cb_data : Ptr) (ind : ℕ) (buffer : Ptr) → (d now last : CallbackData) → Invocation
call type cb_data ind buffer d now last = record {
  callback = callback_of type d;
  handle = cb_data;
  ind = ind;
  buffer = buffer;
  cookie = last.client_cookie;
}

-- What an indication comes to. `type` is what the tables say of it.
pub data Dispatched (found : Option (ℕ × IndType)) (user_handle : Ptr) (ind : ℕ)
    (buffer cb_data : Ptr) (d now last : CallbackData) : List Act → Type 0 where
  ignored : Dispatched found user_handle ind buffer cb_data d now last []
  no_memory :
      {size : ℕ}
      → buffer ≡ null
      → Dispatched found user_handle ind buffer cb_data d now last (malloc size ∷ [])
  dropped :
      {size : ℕ}
      → buffer ≢ null
      → Dispatched found user_handle ind buffer cb_data d now last (malloc size ∷ free buffer ∷ [])
  delivered :
      {size : ℕ} (type : IndType)
      → found ≡ some (size, type)
      → buffer ≢ null
      → d.me ≡ cb_data
      → d.user_handle ≡ user_handle
      → callback_of type d ≢ null
      → callback_of type now ≢ null
      → Dispatched found user_handle ind buffer cb_data d now last
          (malloc size ∷ invoke (call type cb_data ind buffer d now last) ∷ free buffer ∷ [])
