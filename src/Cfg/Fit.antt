-- ===== src/Cfg/Fit.antt =====
-- Reading a file ends, and keeps every string within its buffer (gps/utils/loc_cfg.cpp).
use android_device_lenovo_a.Base.{
  ℕ, zero, suc, ◌-◌, ◌≤◌, ◌<◌, ◌≡◌, refl, subst, Bool, true, false, ◌&&◌, inl, inr, Option, none,
  some, List, [], ◌∷◌, map, Bool-cases, ◌==◌, length, is_some, arith,
}
use android_device_lenovo_a.Base.Bytes.{take}
use android_device_lenovo_a.Cfg.Text.{until, equal, fgets}
use android_device_lenovo_a.Cfg.Table.{
  ParamType, of_string, of_number, of_float, of_other, Value, str, num, dbl, Param, ParamValue,
  Doubles, loc_max_param_string, loc_max_param_line, null_word, mark, string_for, value_for, store,
  put_entry, set_entries, parse_line, fill_parsed, fill_conf_item,
}
use android_device_lenovo_a.Cfg.Config.{less, Result, clear_entry, read_loop, read_conf_r}

-- A string of the variable, if it has one, fits into a buffer of loc_max_param_string and a zero.
pub data Fits {D : Type 0} : Option (Value D) → Type 0 where
  no_variable : Fits none
  a_string : {s : List ℕ} → length s ≤ loc_max_param_string → Fits (some (str s))
  a_number : {n : ℕ} → Fits (some (num n))
  a_double : {x : D} → Fits (some (dbl x))

-- What reading may do to an entry: its string fits, and if its flag is clear it holds what it held.
pub record Tracks {D : Type 0} (e e' : Param D) : Type 0 where
  pub name : e'.param_name ≡ e.param_name
  pub type : e'.param_type ≡ e.param_type
  pub fits : Fits e'.param_ptr
  pub kept : e'.param_set ≡ some false → e'.param_ptr ≡ e.param_ptr

pub data Tracked {D : Type 0} : List (Param D) → List (Param D) → Type 0 where
  no_more : Tracked [] []
  entry :
      {e e' : Param D} {es es' : List (Param D)}
      → Tracks e e'
      → Tracked es es'
      → Tracked (e ∷ es) (e' ∷ es')

pub data AllFit {D : Type 0} : List (Param D) → Type 0 where
  no_entry : AllFit []
  fit : {e : Param D} {es : List (Param D)} → Fits e.param_ptr → AllFit es → AllFit (e ∷ es)

length-take_le : (n : ℕ) (s : List ℕ) → length (take n s) ≤ n
length-take_le zero s = omega arith
length-take_le (suc n) [] = omega arith
length-take_le (suc n) (x ∷ s) = omega (arith, length-take_le n s)

length-string_for : (s : List ℕ) → length (string_for s) ≤ loc_max_param_string
length-string_for s = elim (Bool-cases (equal s null_word)) [
  | inl null_ ↦ rw null_ (omega arith)
  | inr other ↦ rw other (length-take_le loc_max_param_string s)
]

length-fgets : (n : ℕ) (s : List ℕ) → length (fgets n s).1 ≤ length s
length-fgets zero s = omega arith
length-fgets (suc n) [] = omega arith
length-fgets (suc n) (c ∷ s) = elim (Bool-cases (c == 10)) [
  | inl end ↦ rw end (omega arith)
  | inr inside ↦ rw inside (omega (arith, length-fgets n s))
]

length-fgets_lt : (n : ℕ) (c : ℕ) (s : List ℕ) → length (fgets (suc n) (c ∷ s)).1 ≤ length s
length-fgets_lt n c s = elim (Bool-cases (c == 10)) [
  | inl end ↦ rw end (omega arith)
  | inr inside ↦ rw inside (length-fgets n s)
]

mark-true : (o : Option Bool) → mark o ≡ some false → ⊥
mark-true none e = cc
mark-true (some b) e = cc

module _ {D : Type 0} where
  put_entry-Tracked :
      (e0 e : Param D) (o : Option (Value D)) (n : ℕ × List (Param D)) (es : List (Param D))
      → Tracks e0 e
      → ((x : Value D) → o ≡ some x → Fits (some x))
      → Tracked es n.1
      → Tracked (e0 ∷ es) (put_entry e (store e o) n).1
  put_entry-Tracked e0 e none n es t fit_ ts = entry t ts
  put_entry-Tracked e0 e (some x) n es t fit_ ts =
      entry
        (record {
          name = t.name;
          type = t.type;
          fits = fit_ x refl;
          kept = λ clear. absurd (mark-true e.param_set clear);
        })
        ts

  value_for-Fits :
      (t : ParamType) (v : ParamValue D) (x : Value D) → value_for t v ≡ some x → Fits (some x)
  value_for-Fits of_string v x e =
      subst (λ o. Fits o) e (a_string (length-string_for v.param_str_value))
  value_for-Fits of_number v x e = subst (λ o. Fits o) e a_number
  value_for-Fits of_float v x e = subst (λ o. Fits o) e a_double
  value_for-Fits of_other v x e = cc

  set_entries-Tracked :
      (v : ParamValue D) (es es' : List (Param D))
      → Tracked es es'
      → Tracked es (set_entries v es').1
  set_entries-Tracked v [] [] no_more = no_more
  set_entries-Tracked v [] (e' ∷ es') ts = elim ts [ ]
  set_entries-Tracked v (e ∷ es) [] ts = elim ts [ ]
  set_entries-Tracked v (e ∷ es) (e' ∷ es') (entry t ts) =
      elim (Bool-cases (equal e'.param_name v.param_name && is_some e'.param_ptr)) [
        | inl mine ↦ rw mine (
            put_entry-Tracked e e' (value_for e'.param_type v) (set_entries v es') es t
              (value_for-Fits e'.param_type v) (set_entries-Tracked v es es' ts))
        | inr other ↦ rw other (entry t (set_entries-Tracked v es es' ts))
      ]

  fill_parsed-Tracked :
      (o : Option (ParamValue D)) (es es' : List (Param D))
      → Tracked es es'
      → Tracked es (fill_parsed o es').1
  fill_parsed-Tracked none es es' ts = ts
  fill_parsed-Tracked (some v) es es' ts = set_entries-Tracked v es es' ts

  clear-Tracked : (es : List (Param D)) → AllFit es → Tracked es (map clear_entry es)
  clear-Tracked [] no_entry = no_more
  clear-Tracked (e ∷ es) (fit f fs) =
      entry (record { name = refl; type = refl; fits = f; kept = λ clear. refl })
        (clear-Tracked es fs)

  -- What the loop comes to from a table.
  abbrev pub Reads : List (Param D) → Option (Result D) → Type 0
  Reads es o =
      (left : List ℕ) × (es' : List (Param D)) × (o ≡ some (true, left, es')) × Tracked es es'

  module _ (f : Doubles D) where
    pub fill-Tracked :
        (line : List ℕ) (es es' : List (Param D))
        → Tracked es es'
        → Tracked es (fill_conf_item f line es').1
    unfolding fill_conf_item
    fill-Tracked line = fill_parsed-Tracked (parse_line f line)

    read_loop-Reads :
        (fuel num_params : ℕ) (file : List ℕ) (es es' : List (Param D))
        → length file < fuel
        → Tracked es es'
        → Reads es (read_loop f fuel num_params file es')
    unfolding read_loop
    read_loop-Reads zero num_params file es es' lt ts = absurd (omega arith)
    read_loop-Reads (suc fuel) num_params [] es es' lt ts = ([], es', refl, ts)
    read_loop-Reads (suc fuel) num_params (c ∷ file) es es' lt ts =
        let line = fgets (loc_max_param_line - 1) (c ∷ file) in
        let filled = fill_conf_item f (until 0 line.0) es' in
        elim (Bool-cases (num_params == 0)) [
          | inl full ↦ rw full ((c ∷ file), es', refl, ts)
          | inr more ↦ rw more (
              read_loop-Reads fuel (less num_params filled.0) line.1 es filled.1
                (omega (arith, length-fgets_lt 158 c file))
                (fill-Tracked (until 0 line.0) es es' ts))
        ]

    -- Where every string of the table fits into its buffer, whatever is in the file,
    -- loc_read_conf_r ends and returns 0; the table has the same names and types as before, its
    -- strings still fit, and an entry whose flag is clear has the value that it had before.
    pub read_conf_r-Reads :
        (file : List ℕ) (es : List (Param D)) → AllFit es → Reads es (read_conf_r f (some file) es)
    unfolding read_conf_r
    read_conf_r-Reads file es fs =
        read_loop-Reads (suc (length file)) (length es) file es (map clear_entry es) (omega arith)
          (clear-Tracked es fs)
