-- ===== src/Lights/Show.antt =====
-- What the LEDs show after a call of liblight/lights.c, where no write fails.
use android_device_lenovo_a.Base.{
  ℕ, ◌+◌, ◌*◌, ◌^◌, ◌≤◌, ◌<◌, ◌≡◌, Bool, true, false, ◌&&◌, if◌then◌else◌, arith, refl, ap, none,
  Bool-cases, inl, inr,
}
use android_device_lenovo_a.Base.Int.{ℤ, pos, is_positive}
use android_device_lenovo_a.Lights.Files.{LedFile, Files, Failures, Sysfs, write_int, put}
use android_device_lenovo_a.Lights.Device.{
  LightState, Globals, is_lit, rgb_to_brightness, on_ms, off_ms, handle_speaker_battery_locked,
  set_light_battery, set_light_notifications, set_light_attention, attention_of,
  set_light_backlight, set_light_buttons, set_speaker_light_locked, reset_leds, write_to,
}

-- The brightness fits the file's range.
pub rgb_to_brightness-le : (s : LightState) → rgb_to_brightness s ≤ 255
unfolding rgb_to_brightness
rgb_to_brightness-le s = omega arith

-- A grey of level `v` has that brightness, whatever the top byte of the colour.
pub rgb_to_brightness-grey :
    (s : LightState) (a v : ℕ)
    → v < 256
    → s.color ≡ a * 2 ^ 24 + v * 2 ^ 16 + v * 2 ^ 8 + v
    → rgb_to_brightness s ≡ v
unfolding rgb_to_brightness
rgb_to_brightness-grey s a v lt e = rw e (omega arith)

-- No `open` and no `write` fails.
pub record Works (io : Failures) : Type 0 where
  pub opens : (f : LedFile) → io.open_errno f ≡ none
  pub writes : (f : LedFile) → io.write_errno f ≡ none

pub data Mode : Type 0 where
  dark steady blinking : Mode

unfoldable pub mode_of : LightState → Mode
mode_of s =
    if is_positive (on_ms s s.flash_mode) && is_positive (off_ms s s.flash_mode)
    then blinking
    else if is_lit s
    then steady
    else dark

abbrev pub brightness : Mode → ℤ
brightness steady = pos 255
brightness _ = pos 0

abbrev pub blink : Mode → ℤ
blink blinking = pos 1
blink _ = pos 0

-- The files of the two LEDs show these modes.
pub record Shows (fs : Files) (red green : Mode) : Type 0 where
  pub red_led : fs.red_led_value ≡ brightness red
  pub red_blink : fs.red_blink_value ≡ blink red
  pub green_led : fs.green_led_value ≡ brightness green
  pub green_blink : fs.green_blink_value ≡ blink green

abbrev pub leds : Files → ℤ × ℤ × ℤ × ℤ
leds fs = (fs.red_led_value, fs.red_blink_value, fs.green_led_value, fs.green_blink_value)

pub leds_of :
    (fs : Files) (red green : Mode)
    → Shows fs red green
    → leds fs ≡ (brightness red, blink red, brightness green, blink green)
leds_of fs red green sh = rw (sh.red_led, sh.red_blink, sh.green_led, sh.green_blink) refl

-- A lit battery has the red LED; else the notification has the green one.
abbrev pub red_of : LightState → LightState → Mode
red_of battery notification = if is_lit battery then mode_of battery else dark

abbrev pub green_of : LightState → LightState → Mode
green_of battery notification = if is_lit battery then dark else mode_of notification

abbrev pub shown : LightState → LightState → ℤ × ℤ × ℤ × ℤ
shown b n =
    (brightness (red_of b n), blink (red_of b n), brightness (green_of b n), blink (green_of b n))

unfoldable pub IsShown : Globals → Type 0
IsShown g =
    Shows g.sysfs.files (red_of g.battery g.notification) (green_of g.battery g.notification)

module _ (io : Failures) (w : Works io) where
  write_int-works :
      (path : LedFile) (v : ℤ) (s : Sysfs)
      → write_int io path v s ≡ (pos 0, record s { files = put path v s.files })
  unfolding write_int
  write_int-works path v s = rw (w.opens path, w.writes path) refl

  write_to-works :
      (path : LedFile) (v : ℤ) (s : Sysfs)
      → write_to io path v s ≡ record s { files = put path v s.files }
  unfolding write_to
  write_to-works path v s = ap (λ r. r.1) (write_int-works path v s)

  speaker-Shows :
      (state : LightState) (s : Sysfs) (batt_light : Bool)
      → Shows
          (set_speaker_light_locked io true state batt_light s).1.files
          (if batt_light then mode_of state else dark)
          (if batt_light then dark else mode_of state)
  unfolding set_speaker_light_locked reset_leds mode_of
  speaker-Shows state s true =
      elim (Bool-cases (
        is_positive (on_ms state state.flash_mode)
        && is_positive (off_ms state state.flash_mode))) [
          | inl b ↦ rw b (
              simp write_to-works
                (record { red_led = refl; red_blink = refl; green_led = refl; green_blink = refl }))
          | inr b ↦ elim (Bool-cases (is_lit state)) [
            | inl l ↦
                rw (b, l)
                  (simp write_to-works (record {
                    red_led = refl;
                    red_blink = refl;
                    green_led = refl;
                    green_blink = refl;
                  }))
            | inr l ↦
                rw (b, l)
                  (simp write_to-works (record {
                    red_led = refl;
                    red_blink = refl;
                    green_led = refl;
                    green_blink = refl;
                  }))
          ]
        ]
  speaker-Shows state s false =
      elim (Bool-cases (
        is_positive (on_ms state state.flash_mode)
        && is_positive (off_ms state state.flash_mode))) [
          | inl b ↦ rw b (
              simp write_to-works
                (record { red_led = refl; red_blink = refl; green_led = refl; green_blink = refl }))
          | inr b ↦ elim (Bool-cases (is_lit state)) [
            | inl l ↦
                rw (b, l)
                  (simp write_to-works (record {
                    red_led = refl;
                    red_blink = refl;
                    green_led = refl;
                    green_blink = refl;
                  }))
            | inr l ↦
                rw (b, l)
                  (simp write_to-works (record {
                    red_led = refl;
                    red_blink = refl;
                    green_led = refl;
                    green_blink = refl;
                  }))
          ]
        ]

  handle-IsShown : (g : Globals) → IsShown (handle_speaker_battery_locked io true g)
  unfolding handle_speaker_battery_locked IsShown
  handle-IsShown g = elim (Bool-cases (is_lit g.battery)) [
    | inl l ↦ simp l (speaker-Shows g.battery g.sysfs true)
    | inr l ↦ simp l (speaker-Shows g.notification g.sysfs false)
  ]

  pub handle-leds :
      (g : Globals)
      → leds (handle_speaker_battery_locked io true g).sysfs.files ≡ shown g.battery g.notification
  unfolding IsShown handle_speaker_battery_locked
  handle-leds g = leds_of _ _ _ (handle-IsShown g)

  -- Where no write fails, the LEDs show the battery's state after set_light_battery, or the
  -- notification's where the battery is not lit, whatever they showed before.
  pub set_light_battery-IsShown :
      (state : LightState) (g : Globals) → IsShown (set_light_battery io true state g).1
  unfolding set_light_battery
  set_light_battery-IsShown state g = handle-IsShown (record g { battery = state })

  pub set_light_notifications-IsShown :
      (state : LightState) (g : Globals) → IsShown (set_light_notifications io true state g).1
  unfolding set_light_notifications
  set_light_notifications-IsShown state g = handle-IsShown (record g { notification = state })

  pub set_light_attention-IsShown :
      (state : LightState) (g : Globals) → IsShown (set_light_attention io true state g).1
  unfolding set_light_attention
  set_light_attention-IsShown state g =
      handle-IsShown (record g { attention = attention_of state.flash_mode state g.attention })

  pub set_light_backlight-IsShown :
      (state : LightState) (g : Globals)
      → IsShown g
      → IsShown (set_light_backlight io true state g).1
  unfolding set_light_backlight IsShown
  set_light_backlight-IsShown state g sh = simp write_int-works (record {
    red_led = sh.red_led;
    red_blink = sh.red_blink;
    green_led = sh.green_led;
    green_blink = sh.green_blink;
  })

  pub set_light_buttons-IsShown :
      (state : LightState) (g : Globals) → IsShown g → IsShown (set_light_buttons io true state g).1
  unfolding set_light_buttons IsShown
  set_light_buttons-IsShown state g sh = simp write_int-works (record {
    red_led = sh.red_led;
    red_blink = sh.red_blink;
    green_led = sh.green_led;
    green_blink = sh.green_blink;
  })
