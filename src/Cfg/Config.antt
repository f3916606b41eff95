-- ===== src/Cfg/Config.antt =====
-- Reading a configuration file, or the text of one: gps/utils/loc_cfg.cpp.
use android_device_lenovo_a.Base.{
  ℕ, zero, suc, ◌+◌, ◌-◌, ◌%◌, ◌^◌, Bool, true, false, ◌||◌, not, Option, none, some, List, [], ◌∷◌,
  map, if◌then◌else◌, ◌==◌, length,
}
use android_device_lenovo_a.Cfg.Text.{until, strtok, is_empty, fgets}
use android_device_lenovo_a.Cfg.Table.{
  of_number, num, Param, Doubles, loc_max_param_line, fill_conf_item,
}

-- An unsigned counter less a number.
abbrev pub less : ℕ → ℕ → ℕ
less n k = (n + (2 ^ 32 - k % 2 ^ 32)) % 2 ^ 32

abbrev pub unset : Option Bool → Option Bool
unset none = none
unset (some b) = some false

-- The result of the code that reads a file: whether it returns 0, not -1, what is left of the file,
-- and the table.
abbrev pub Result : Type 0 → Type 0
Result D = Bool × List ℕ × List (Param D)

module _ {D : Type 0} where
  abbrev pub clear_entry : Param D → Param D
  clear_entry e = record e { param_set = unset e.param_set }

  abbrev pub returned : Option (ℕ × List (Param D)) → Option (Option ℕ × List (Param D))
  returned none = none
  returned (some (ret, table)) = some (some ret, table)

  module _ (f : Doubles D) where
    -- The loop of loc_read_conf_r; `none` is no fuel.
    unfoldable pub read_loop : ℕ → ℕ → List ℕ → List (Param D) → Option (Result D)
    read_loop zero num_params file table = none
    read_loop (suc fuel) num_params [] table = some (true, [], table)
    read_loop (suc fuel) num_params (c ∷ file) table =
        let line = fgets (loc_max_param_line - 1) (c ∷ file) in
        let filled = fill_conf_item f (until 0 line.0) table in
        let rest = read_loop fuel (less num_params filled.0) line.1 filled.1 in
        if num_params == 0 then some (true, c ∷ file, table) else rest

    -- The file pointer may be NULL; the fuel is one unit more than the file has bytes.
    unfoldable pub read_conf_r : Option (List ℕ) → List (Param D) → Option (Result D)
    read_conf_r none table = some (false, [], table)
    read_conf_r (some file) table =
        read_loop (suc (length file)) (length table) file (map clear_entry table)

    -- A turn of the loop of loc_update_conf for a line, if there is one, and the turns behind it.
    abbrev pub update_line :
        (ℕ → ℕ → List ℕ → List (Param D) → Option (ℕ × List (Param D)))
        → ℕ
        → ℕ
        → List (Param D)
        → Option (List ℕ × List ℕ)
        → Option (ℕ × List (Param D))
    update_line others num_params ret table none = some (ret, table)
    update_line others num_params ret table (some line) =
        let filled = fill_conf_item f line.0 table in
        if num_params == 0
        then some (ret, table)
        else others (less num_params filled.0) (suc ret) line.1 filled.1

    -- The loop: the number that the function returns, and the table.
    unfoldable pub update_loop : ℕ → ℕ → ℕ → List ℕ → List (Param D) → Option (ℕ × List (Param D))
    update_loop zero num_params ret s table = none
    update_loop (suc fuel) num_params ret s table =
        update_line (update_loop fuel) num_params ret table (strtok 10 s)

    -- `conf_data` is the bytes that it points to, as many as `length` says, or NULL. The outer `none`
    -- is no fuel, the inner one -1.
    unfoldable pub update_conf :
        (malloc : Bool) → Option (List ℕ) → List (Param D) → Option (Option ℕ × List (Param D))
    update_conf malloc none table = some (none, table)
    update_conf malloc (some conf_data) [] = some (none, [])
    update_conf malloc (some conf_data) (e ∷ table) =
        let copy = until 0 conf_data in
        let updated = update_loop (suc (length copy)) (length table) 0 copy (e ∷ table) in
        if is_empty conf_data || not malloc then some (none, e ∷ table) else returned updated

    -- loc_param_table, with the values of DEBUG_LEVEL and TIMESTAMP.
    abbrev pub loc_param_table : ℕ → ℕ → List (Param D)
    loc_param_table debug_level timestamp =
        record {
          param_name = 68 ∷ 69 ∷ 66 ∷ 85 ∷ 71 ∷ 95 ∷ 76 ∷ 69 ∷ 86 ∷ 69 ∷ 76 ∷ [];
          param_ptr = some (num debug_level);
          param_set = none;
          param_type = of_number;
        }
        ∷ record {
          param_name = 84 ∷ 73 ∷ 77 ∷ 69 ∷ 83 ∷ 84 ∷ 65 ∷ 77 ∷ 80 ∷ [];
          param_ptr = some (num timestamp);
          param_set = none;
          param_type = of_number;
        }
        ∷ []

    abbrev pub table_of : List (Param D) → Option (Result D) → List (Param D)
    table_of table none = table
    table_of table (some (ok, file, table')) = table'

    -- The tables of the caller and of the log's parameters, which loc_logger_init gets, after
    -- loc_read_conf; the file is `none` where it cannot be opened. The caller's table may be empty.
    abbrev pub read_conf :
        Option (List ℕ) → List (Param D) → List (Param D) → List (Param D) × List (Param D)
    read_conf none table params = (table, params)
    read_conf (some file) [] params = ([], table_of params (read_conf_r (some file) params))
    read_conf (some file) (e ∷ table) params = (
      table_of (e ∷ table) (read_conf_r (some file) (e ∷ table)),
      table_of params (read_conf_r (some file) params),
    )
