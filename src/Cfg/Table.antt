-- ===== src/Cfg/Table.antt =====
-- The tables of parameters of gps/utils/loc_cfg.cpp, and what a line of a file does to one. A double is
-- any type, and atof a parameter.
use android_device_lenovo_a.Base.{
  ℕ, suc, Bool, true, false, ◌&&◌, ◌||◌, Option, none, some, List, [], ◌∷◌, if◌then◌else◌, ◌==◌,
  is_some,
}
use android_device_lenovo_a.Base.Bytes.{take}
use android_device_lenovo_a.Cfg.Text.{strtok, trim_space, strtol, equal}

-- 's', 'n' and 'f', and any other character.
pub data ParamType : Type 0 where
  of_string of_number of_float of_other : ParamType

-- What a variable of the program holds.
pub data Value (D : Type 0) : Type 0 where
  str : List ℕ → Value D
  num : ℕ → Value D
  dbl : D → Value D

-- `param_ptr` and `param_set` have what the pointers point to; NULL is `none`.
pub record Param (D : Type 0) : Type 0 where
  pub param_name : List ℕ
  pub param_ptr : Option (Value D)
  pub param_set : Option Bool
  pub param_type : ParamType

pub record ParamValue (D : Type 0) : Type 0 where
  pub param_name : List ℕ
  pub param_str_value : List ℕ
  pub param_int_value : ℕ
  pub param_double_value : D

pub record Doubles (D : Type 0) : Type 0 where
  pub atof : List ℕ → D
  pub zero_double : D

abbrev pub loc_max_param_string : ℕ
loc_max_param_string = 80

abbrev pub loc_max_param_line : ℕ
loc_max_param_line = 160

-- "NULL"
abbrev pub null_word : List ℕ
null_word = 78 ∷ 85 ∷ 76 ∷ 76 ∷ []

abbrev pub mark : Option Bool → Option Bool
mark none = none
mark (some b) = some true

abbrev pub string_for : List ℕ → List ℕ
string_for s = if equal s null_word then [] else take loc_max_param_string s

abbrev pub is_hex : List ℕ → Bool
is_hex (z ∷ x ∷ d ∷ s) = z == 48 && (x == 120 || x == 88)
is_hex _ = false

abbrev pub hex_digits : List ℕ → List ℕ
hex_digits (z ∷ x ∷ s) = s
hex_digits s = s

module _ {D : Type 0} where
  -- The value for a type, if there is one.
  abbrev pub value_for : ParamType → ParamValue D → Option (Value D)
  value_for of_string v = some (str (string_for v.param_str_value))
  value_for of_number v = some (num v.param_int_value)
  value_for of_float v = some (dbl v.param_double_value)
  value_for of_other v = none

  abbrev pub store : Param D → Option (Value D) → Option (Param D)
  store e none = none
  store e (some x) = some (record e { param_ptr = some x; param_set = mark e.param_set })

  -- The changed entry where the code returns 0, and `none` where it returns -1.
  abbrev pub set_config_entry : Param D → ParamValue D → Option (Param D)
  set_config_entry e v =
      if equal e.param_name v.param_name && is_some e.param_ptr
      then store e (value_for e.param_type v)
      else none

  abbrev pub put_entry : Param D → Option (Param D) → ℕ × List (Param D) → ℕ × List (Param D)
  put_entry e none (n, es) = (n, e ∷ es)
  put_entry e (some e') (n, es) = (suc n, e' ∷ es)

  -- The loop over the table.
  abbrev pub set_entries : ParamValue D → List (Param D) → ℕ × List (Param D)
  set_entries v [] = (0, [])
  set_entries v (e ∷ es) = put_entry e (set_config_entry e v) (set_entries v es)

  abbrev pub fill_parsed : Option (ParamValue D) → List (Param D) → ℕ × List (Param D)
  fill_parsed none table = (0, table)
  fill_parsed (some v) table = set_entries v table

  module _ (f : Doubles D) where
    abbrev pub numbers : List ℕ → List ℕ → ParamValue D
    numbers name s =
        if is_hex s
        then record {
          param_name = name;
          param_str_value = s;
          param_int_value = strtol 16 (hex_digits s);
          param_double_value = f.zero_double;
        }
        else record {
          param_name = name;
          param_str_value = s;
          param_int_value = strtol 10 s;
          param_double_value = f.atof s;
        }

    abbrev pub second_operand : List ℕ → Option (List ℕ × List ℕ) → Option (ParamValue D)
    second_operand name none = none
    second_operand name (some (s, rest)) = some (numbers (trim_space name) (trim_space s))

    abbrev pub first_operand : Option (List ℕ × List ℕ) → Option (ParamValue D)
    first_operand none = none
    first_operand (some (name, rest)) = second_operand name (strtok 61 rest)

    -- The variable and the value of a line, if it has two operands.
    abbrev pub parse_line : List ℕ → Option (ParamValue D)
    parse_line line = first_operand (strtok 61 line)

    unfoldable pub fill_conf_item : List ℕ → List (Param D) → ℕ × List (Param D)
    fill_conf_item input_buf table = fill_parsed (parse_line input_buf) table
