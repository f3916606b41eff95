-- ===== src/Lights/Open.antt =====
-- open_lights of liblight/lights.c, and the calls of an opened device.
use android_device_lenovo_a.Base.{
  ℕ, Bool, true, false, Option, none, some, ◌-◌, ◌+◌, ◌≡◌, refl, ap, sym, ◌∙◌, arith, is_some, List,
  [], ◌∷◌, if◌then◌else◌,
}
use android_device_lenovo_a.Base.Int.{ℤ, pos, negsuc}
use android_device_lenovo_a.Lights.Files.{Failures}
use android_device_lenovo_a.Lights.Show.{Works, leds, handle-leds}
use android_device_lenovo_a.Lights.Device.{
  LightState, Globals, set_light_backlight, set_light_battery, set_light_notifications,
  set_light_attention, set_light_buttons, handle_speaker_battery_locked,
}

-- The names of hardware/lights.h that open_lights tests.
pub data LightId : Type 0 where
  backlight battery notifications buttons attention : LightId

abbrev pub set_light : LightId → Failures → (dev : Bool) → LightState → Globals → ℤ × Globals
set_light backlight = set_light_backlight
set_light battery = set_light_battery
set_light notifications = set_light_notifications
set_light buttons = set_light_buttons
set_light attention = set_light_attention

-- `is_name id` is `0 == strcmp(id, name)`.
unfoldable pub selected : (is_name : LightId → Bool) → Option LightId
selected is_name =
    if is_name backlight
    then some backlight
    else if is_name battery
    then some battery
    else if is_name notifications
    then some notifications
    else if is_name buttons
    then some buttons
    else if is_name attention
    then some attention
    else none

-- EINVAL is 22, ENOMEM 12. The result, what `*device` gets (its set_light), and how many
-- devices are allocated.
abbrev pub allocated : Bool → Option LightId → ℕ → ℤ × Option LightId × ℕ
allocated malloc_ok none live = (negsuc 21, none, live)
allocated false (some id) live = (negsuc 11, none, live)
allocated true (some id) live = (pos 0, some id, live + 1)

unfoldable pub open_lights :
    (is_name : LightId → Bool) (malloc_ok : Bool) → ℕ → ℤ × Option LightId × ℕ
open_lights is_name malloc_ok live = allocated malloc_ok (selected is_name) live

unfoldable pub close_lights : (dev : Bool) → ℕ → ℤ × ℕ
close_lights dev live = (pos 0, if dev then live - 1 else live)

-- strcmp on the five names.
abbrev pub same : LightId → LightId → Bool
same backlight backlight = true
same battery battery = true
same notifications notifications = true
same buttons buttons = true
same attention attention = true
same _ _ = false

unfoldable pub open_result : Bool → LightId → ℕ → ℤ × Option LightId × ℕ
open_result true id live = (pos 0, some id, live + 1)
open_result false id live = (negsuc 11, none, live)

-- open_lights opens the light that the name names, where malloc succeeds; else it returns -ENOMEM
-- and no device.
pub open_lights-same :
    (id : LightId) (malloc_ok : Bool) (live : ℕ)
    → open_lights (same id) malloc_ok live ≡ open_result malloc_ok id live
unfolding open_lights selected open_result
open_lights-same backlight true live = refl
open_lights-same backlight false live = refl
open_lights-same battery true live = refl
open_lights-same battery false live = refl
open_lights-same notifications true live = refl
open_lights-same notifications false live = refl
open_lights-same buttons true live = refl
open_lights-same buttons false live = refl
open_lights-same attention true live = refl
open_lights-same attention false live = refl

allocated-balanced :
    (malloc_ok : Bool) (id : Option LightId) (live : ℕ)
    → close_lights (is_some (allocated malloc_ok id live).1) (allocated malloc_ok id live).2
      ≡ (pos 0, live)
unfolding close_lights
allocated-balanced malloc_ok none live = refl
allocated-balanced false (some id) live = refl
allocated-balanced true (some id) live = ap (λ n. (pos 0, n)) (omega arith)

-- Whatever the name and whether malloc succeeds, closing what open_lights left in `*device`, NULL
-- included, leaves the allocated devices as they were.
pub close_lights-open_lights :
    (is_name : LightId → Bool) (malloc_ok : Bool) (live : ℕ)
    → close_lights
        (is_some (open_lights is_name malloc_ok live).1)
        (open_lights is_name malloc_ok live).2
      ≡ (pos 0, live)
unfolding open_lights
close_lights-open_lights is_name malloc_ok live =
    allocated-balanced malloc_ok (selected is_name) live

-- Any requests that clients make of opened devices, in order.
unfoldable pub requests : Failures → List (LightId × LightState) → Globals → Globals
requests io [] g = g
requests io ((id, state) ∷ rs) g = requests io rs (set_light id io true state g).1

-- The state that was last requested for a light, or the first one.
abbrev pub last_state : LightId → List (LightId × LightState) → LightState → LightState
last_state light [] first = first
last_state light ((id, state) ∷ rs) first =
    last_state light rs (if same id light then state else first)

module _ (io : Failures) (w : Works io) where
  -- The order of a battery and a notification request does not matter for the four LED files.
  pub battery-notifications_comm :
      (b n : LightState) (g : Globals)
      → leds (requests io ((battery, b) ∷ (notifications, n) ∷ []) g).sysfs.files
        ≡ leds (requests io ((notifications, n) ∷ (battery, b) ∷ []) g).sysfs.files
  unfolding requests set_light_battery set_light_notifications handle_speaker_battery_locked
  battery-notifications_comm b n g =
      handle-leds io w (record (handle_speaker_battery_locked io true (record g { battery = b })) {
        notification = n;
      })
      ∙ sym (
          handle-leds io w
            (record (handle_speaker_battery_locked io true (record g { notification = n })) {
              battery = b;
            }))
