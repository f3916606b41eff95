-- ===== src/Tests/Configs.antt =====
-- gps/utils/loc_cfg.cpp on small files, with whole numbers for doubles.
use android_device_lenovo_a.Base.{ℕ, ◌≡◌, refl, true, false, some, List, [], ◌∷◌, ◌++◌, arith}
use android_device_lenovo_a.Cfg.Text.{strtol}
use android_device_lenovo_a.Cfg.Table.{
  of_string, of_number, str, num, Param, Doubles, fill_conf_item,
}
use android_device_lenovo_a.Cfg.Config.{read_loop, read_conf_r, update_conf}
use android_device_lenovo_a.Cfg.Fit.{
  AllFit, no_entry, fit, a_string, a_number, Reads, read_conf_r-Reads,
}
use android_device_lenovo_a.Cfg.Lines.{no_byte, another, no_space, a_space, word}
use android_device_lenovo_a.Cfg.Settings.{AllSet, fill_conf_item-AllSet}
use android_device_lenovo_a.Cfg.Update.{update_conf-single}

abbrev doubles : Doubles ℕ
doubles = record { atof = strtol 10; zero_double = 0 }

abbrev param_a : Param ℕ
param_a = record {
  param_name = 65 ∷ [];
  param_ptr = some (num 7);
  param_set = some true;
  param_type = of_number;
}

abbrev param_b : Param ℕ
param_b = record {
  param_name = 66 ∷ [];
  param_ptr = some (str (120 ∷ []));
  param_set = some false;
  param_type = of_string;
}

abbrev table : List (Param ℕ)
table = param_a ∷ param_b ∷ []

-- "A = 0x1f\n"
abbrev line_a : List ℕ
line_a = 65 ∷ 32 ∷ 61 ∷ 32 ∷ 48 ∷ 120 ∷ 49 ∷ 102 ∷ 10 ∷ []

-- "A=2\n"
abbrev line_again : List ℕ
line_again = 65 ∷ 61 ∷ 50 ∷ 10 ∷ []

-- "B=yes\n"
abbrev line_b : List ℕ
line_b = 66 ∷ 61 ∷ 121 ∷ 101 ∷ 115 ∷ 10 ∷ []

abbrev set_a : ℕ → Param ℕ
set_a n = record param_a { param_ptr = some (num n); param_set = some true }

abbrev set_b : Param ℕ
set_b = record param_b { param_ptr = some (str (121 ∷ 101 ∷ 115 ∷ [])); param_set = some true }

both_read :
    read_conf_r doubles (some (line_a ++ line_b)) table ≡ some (true, [], set_a 31 ∷ set_b ∷ [])
unfolding read_conf_r read_loop fill_conf_item
both_read = refl

-- A name that the file repeats counts twice, and the reading stops before the line of the other.
repeated_stops :
    read_conf_r doubles (some (line_a ++ line_again ++ line_b)) table
    ≡ some (true, line_b, set_a 2 ∷ param_b ∷ [])
unfolding read_conf_r read_loop fill_conf_item
repeated_stops = refl

table-AllFit : AllFit table
table-AllFit = fit a_number (fit (a_string (omega arith)) no_entry)

read_conf_r-Reads_example : Reads table (read_conf_r doubles (some (line_a ++ line_b)) table)
read_conf_r-Reads_example = read_conf_r-Reads doubles (line_a ++ line_b) table table-AllFit

-- " B=y z\n"
abbrev padded : List ℕ
padded = 32 ∷ 66 ∷ 61 ∷ 121 ∷ 32 ∷ 122 ∷ 10 ∷ []

fill_conf_item-AllSet_example :
    let r = fill_conf_item doubles padded table in
    AllSet doubles (66 ∷ []) (121 ∷ 32 ∷ 122 ∷ []) table r.1 r.0
fill_conf_item-AllSet_example =
    fill_conf_item-AllSet doubles (32 ∷ []) (66 ∷ []) [] [] (121 ∷ 32 ∷ 122 ∷ []) (10 ∷ [])
      (a_space refl no_space) (word refl refl (another refl no_byte)) no_space no_space
      (word refl refl (another refl (another refl (another refl no_byte)))) (a_space refl no_space)
      table

update_conf-single_example :
    update_conf doubles true (some (65 ∷ 61 ∷ 50 ∷ 10 ∷ [])) (param_a ∷ [])
    ≡ some (some 0, param_a ∷ [])
update_conf-single_example = update_conf-single doubles 65 (61 ∷ 50 ∷ 10 ∷ []) param_a
