-- ===== src/Lights/Device.antt =====
-- The lights of liblight/lights.c. `&` with a mask of low bits and `>>` on an unsigned colour are
-- written by `%` and `/`.
use android_device_lenovo_a.Base.{
  ℕ, ◌+◌, ◌*◌, ◌/◌, ◌%◌, ◌^◌, Bool, true, false, ◌&&◌, not, ◌==◌, if◌then◌else◌,
}
use android_device_lenovo_a.Base.Int.{ℤ, pos, negsuc, is_positive}
use android_device_lenovo_a.Lights.Files.{
  LedFile, red_led, green_led, lcd, button, red_blink, green_blink, red_delay_on, green_delay_on,
  red_delay_off, green_delay_off, Failures, Sysfs, write_int,
}

pub data FlashMode : Type 0 where
  none timed hardware other : FlashMode

-- `color` is an unsigned int of 32 bits.
pub record LightState : Type 0 where
  pub color : ℕ
  pub flash_mode : FlashMode
  pub flash_on_ms : ℤ
  pub flash_off_ms : ℤ

-- The globals, and the files behind them.
pub record Globals : Type 0 where
  pub notification : LightState
  pub battery : LightState
  pub attention : ℤ
  pub sysfs : Sysfs

-- `color & 0x00ffffff`, as a condition.
unfoldable pub is_lit : LightState → Bool
is_lit state = not (state.color % 2 ^ 24 == 0)

unfoldable pub rgb_to_brightness : LightState → ℕ
rgb_to_brightness state =
    let color : ℕ = state.color % 2 ^ 24 in
    (77 * (color / 2 ^ 16 % 256) + 150 * (color / 2 ^ 8 % 256) + 29 * (color % 256)) / 2 ^ 8

abbrev pub to_file : Failures → LedFile → ℤ → Globals → ℤ × Globals
to_file io path value g =
    let (err, s) = write_int io path value g.sysfs in (err, record g { sysfs = s })

-- A write whose result is ignored.
unfoldable pub write_to : Failures → LedFile → ℤ → Sysfs → Sysfs
write_to io path value s = (write_int io path value s).1

-- `dev` is false for NULL.
unfoldable pub set_light_backlight : Failures → (dev : Bool) → LightState → Globals → ℤ × Globals
set_light_backlight io dev state g =
    if not dev then (negsuc 0, g) else to_file io lcd (pos (rgb_to_brightness state)) g

abbrev pub on_ms : LightState → FlashMode → ℤ
on_ms state timed = state.flash_on_ms
on_ms state _ = pos 0

abbrev pub off_ms : LightState → FlashMode → ℤ
off_ms state timed = state.flash_off_ms
off_ms state _ = pos 0

-- The files of the battery light are the red ones, the others the green ones.
abbrev pub blink_file : Bool → LedFile
blink_file true = red_blink
blink_file false = green_blink

abbrev pub led_file : Bool → LedFile
led_file true = red_led
led_file false = green_led

abbrev pub delay_on_file : Bool → LedFile
delay_on_file true = red_delay_on
delay_on_file false = green_delay_on

abbrev pub delay_off_file : Bool → LedFile
delay_off_file true = red_delay_off
delay_off_file false = green_delay_off

-- Both LEDs are reset, green first.
unfoldable pub reset_leds : Failures → Sysfs → Sysfs
reset_leds io s = write_to io red_led (pos 0) (
    write_to io red_blink (pos 0)
      (write_to io green_led (pos 0) (write_to io green_blink (pos 0) s)))

unfoldable pub set_speaker_light_locked :
    Failures → (dev : Bool) → LightState → (batt_light : Bool) → Sysfs → ℤ × Sysfs
set_speaker_light_locked io dev state batt_light s =
    if not dev
    then (negsuc 0, s)
    else (let on : ℤ = on_ms state state.flash_mode in
        let off : ℤ = off_ms state state.flash_mode in
        let s₁ = reset_leds io s in
        let s₂ =
          if is_positive on && is_positive off
          then write_to io (blink_file batt_light) (pos 1) (
              write_to io (delay_off_file batt_light) off
                (write_to io (delay_on_file batt_light) on s₁))
          else if is_lit state
          then write_to io (led_file batt_light) (pos 255) s₁
          else s₁ in
        (pos 0, s₂))

unfoldable pub handle_speaker_battery_locked : Failures → (dev : Bool) → Globals → Globals
handle_speaker_battery_locked io dev g = record g {
  sysfs =
      if is_lit g.battery
      then (set_speaker_light_locked io dev g.battery true g.sysfs).1
      else (set_speaker_light_locked io dev g.notification false g.sysfs).1;
}

unfoldable pub set_light_battery : Failures → (dev : Bool) → LightState → Globals → ℤ × Globals
set_light_battery io dev state g =
    (pos 0, handle_speaker_battery_locked io dev (record g { battery = state }))

unfoldable pub set_light_notifications :
    Failures → (dev : Bool) → LightState → Globals → ℤ × Globals
set_light_notifications io dev state g =
    (pos 0, handle_speaker_battery_locked io dev (record g { notification = state }))

abbrev pub attention_of : FlashMode → LightState → ℤ → ℤ
attention_of hardware state old = state.flash_on_ms
attention_of none state old = pos 0
attention_of _ state old = old

unfoldable pub set_light_attention : Failures → (dev : Bool) → LightState → Globals → ℤ × Globals
set_light_attention io dev state g = (
  pos 0,
  handle_speaker_battery_locked io dev
      (record g { attention = attention_of state.flash_mode state g.attention }),
)

unfoldable pub set_light_buttons : Failures → (dev : Bool) → LightState → Globals → ℤ × Globals
set_light_buttons io dev state g =
    if not dev then (negsuc 0, g) else to_file io button (pos (state.color % 256)) g
