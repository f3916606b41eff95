-- ===== src/Tests/Leds.antt =====
-- liblight/lights.c on a full battery and a blinking notification.
use android_device_lenovo_a.Base.{
  List, [], ◌∷◌, ◌+◌, ◌*◌, ◌^◌, ◌≡◌, ◌≤◌, refl, true, false, none, [], ◌∷◌,
}
use android_device_lenovo_a.Base.Int.{pos}
use android_device_lenovo_a.Lights.Files.{Files, Failures}
use android_device_lenovo_a.Lights.Device.{
  FlashMode, timed, LightState, Globals, rgb_to_brightness, set_light_battery,
}
use android_device_lenovo_a.Lights.Show.{
  Works, IsShown, set_light_battery-IsShown, rgb_to_brightness-le,
}
use android_device_lenovo_a.Lights.Open.{
  battery, notifications, backlight, same, open_lights, open_result, open_lights-same, LightId,
}

abbrev io : Failures
io = record { open_errno = λ f. none; write_errno = λ f. none }

io-Works : Works io
io-Works = record { opens = λ f. refl; writes = λ f. refl }

-- A dark light, a green one and one that blinks.
abbrev off : LightState
off = record {
  color = 255 * 2 ^ 24;
  flash_mode = FlashMode.none;
  flash_on_ms = pos 0;
  flash_off_ms = pos 0;
}

abbrev full : LightState
full = record {
  color = 2 ^ 16 + 2 ^ 8 + 1;
  flash_mode = FlashMode.none;
  flash_on_ms = pos 0;
  flash_off_ms = pos 0;
}

abbrev mail : LightState
mail = record { color = 255; flash_mode = timed; flash_on_ms = pos 500; flash_off_ms = pos 2000 }

abbrev zeros : Files
zeros = record {
  red_led_value = pos 0;
  green_led_value = pos 0;
  lcd_value = pos 0;
  button_value = pos 0;
  red_blink_value = pos 0;
  green_blink_value = pos 0;
  red_delay_on_value = pos 0;
  green_delay_on_value = pos 0;
  red_delay_off_value = pos 0;
  green_delay_off_value = pos 0;
}

abbrev start : Globals
start = record {
  notification = off;
  battery = off;
  attention = pos 0;
  sysfs = record { files = zeros; already_warned = false };
}

set_light_battery-IsShown_example : IsShown (set_light_battery io true full start).1
set_light_battery-IsShown_example = set_light_battery-IsShown io io-Works full start

rgb_to_brightness-le_example : rgb_to_brightness full ≤ 255
rgb_to_brightness-le_example = rgb_to_brightness-le full

open_lights-same_example : open_lights (same battery) true 3 ≡ open_result true battery 3
open_lights-same_example = open_lights-same battery true 3

abbrev wishes : List (LightId × LightState)
wishes = (notifications, mail) ∷ (backlight, full) ∷ (battery, full) ∷ []
