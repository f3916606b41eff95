-- ===== src/Lights/Files.antt =====
-- The files that liblight/lights.c writes, and write_int.
use android_device_lenovo_a.Base.{ℕ, ◌-◌, Bool, true, Option, none, some}
use android_device_lenovo_a.Base.Int.{ℤ, pos, negsuc}

pub data LedFile : Type 0 where
  red_led green_led lcd button red_blink green_blink : LedFile
  red_delay_on green_delay_on red_delay_off green_delay_off : LedFile

-- The value that each file holds.
pub record Files : Type 0 where
  pub red_led_value : ℤ
  pub green_led_value : ℤ
  pub lcd_value : ℤ
  pub button_value : ℤ
  pub red_blink_value : ℤ
  pub green_blink_value : ℤ
  pub red_delay_on_value : ℤ
  pub green_delay_on_value : ℤ
  pub red_delay_off_value : ℤ
  pub green_delay_off_value : ℤ

abbrev pub put : LedFile → ℤ → Files → Files
put red_led v fs = record fs { red_led_value = v }
put green_led v fs = record fs { green_led_value = v }
put lcd v fs = record fs { lcd_value = v }
put button v fs = record fs { button_value = v }
put red_blink v fs = record fs { red_blink_value = v }
put green_blink v fs = record fs { green_blink_value = v }
put red_delay_on v fs = record fs { red_delay_on_value = v }
put green_delay_on v fs = record fs { green_delay_on_value = v }
put red_delay_off v fs = record fs { red_delay_off_value = v }
put green_delay_off v fs = record fs { green_delay_off_value = v }

-- Where `open` or `write` fails, with its errno.
pub record Failures : Type 0 where
  pub open_errno : LedFile → Option ℕ
  pub write_errno : LedFile → Option ℕ

pub record Sysfs : Type 0 where
  pub files : Files
  pub already_warned : Bool

-- `-errno`, where errno is positive.
abbrev pub minus : ℕ → ℤ
minus e = negsuc (e - 1)

abbrev pub written : Option ℕ → LedFile → ℤ → Sysfs → ℤ × Sysfs
written (some e) path value s = (minus e, s)
written none path value s = (pos 0, record s { files = put path value s.files })

abbrev pub opened : Option ℕ → Option ℕ → LedFile → ℤ → Sysfs → ℤ × Sysfs
opened (some e) w path value s = (minus e, record s { already_warned = true })
opened none w path value s = written w path value s

unfoldable pub write_int : Failures → LedFile → ℤ → Sysfs → ℤ × Sysfs
write_int io path value s = opened (io.open_errno path) (io.write_errno path) path value s
