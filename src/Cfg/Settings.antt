-- ===== src/Cfg/Settings.antt =====
-- What a line of a configuration file does to the entries of a table, told from the name and the value
-- that it gives (gps/utils/loc_cfg.cpp).
use android_device_lenovo_a.Base.{
  ℕ, suc, ◌+◌, ◌*◌, ◌^◌, ◌<◌, ◌≡◌, ◌≢◌, ◌⊎◌, inl, inr, refl, sym, ap, subst, ◌∙◌, Bool, true, false,
  Option, none, some, List, [], ◌∷◌, ◌++◌, ◌==◌, length, is_some, arith, Bool-cases, ltb, ==-refl,
}
use android_device_lenovo_a.Base.Bytes.{take}
use android_device_lenovo_a.Cfg.Text.{
  equal, is_space, digit_of, digits, skip_prefix, strtol, to_int,
}
use android_device_lenovo_a.Cfg.Table.{
  ParamType, of_string, of_number, of_float, of_other, Value, str, num, dbl, Param, ParamValue,
  Doubles, null_word, mark, string_for, value_for, store, put_entry, set_entries, is_hex, numbers,
  fill_conf_item,
}
use android_device_lenovo_a.Cfg.Lines.{IsWord, Spaces, fill_conf_item-padded}

-- A decimal numeral: its digits, the highest first, as bytes, and what it says.
pub data Digits : List ℕ → Type 0 where
  no_digit : Digits []
  a_digit : {d : ℕ} {ds : List ℕ} → d < 10 → Digits ds → Digits (d ∷ ds)

abbrev pub numeral : List ℕ → List ℕ
numeral [] = []
numeral (d ∷ ds) = (48 + d) ∷ numeral ds

abbrev pub decimal : List ℕ → ℕ
decimal [] = 0
decimal (d ∷ ds) = d * 10 ^ length ds + decimal ds

-- A string that does not start like a hexadecimal number.
pub data NotHex : List ℕ → Type 0 where
  short : {c : ℕ} → NotHex (c ∷ [])
  other_first : {c : ℕ} {s : List ℕ} → c ≢ 48 → NotHex (c ∷ s)
  other_second : {c d : ℕ} {s : List ℕ} → d ≢ 120 → d ≢ 88 → NotHex (c ∷ d ∷ s)

-- The flag behind param_set, if there is one, is set.
abbrev pub flagged : Option Bool → Option Bool
flagged none = none
flagged (some b) = some true

module _ {D : Type 0} where
  abbrev pub written : Param D → Value D → Param D
  written e x = record e { param_ptr = some x; param_set = flagged e.param_set }

  -- What a setting writes, by the type of the entry: for a string the value, up to 80 bytes of it, or
  -- nothing for NULL; for a number what a decimal numeral says, and for a float what atof says.
  pub data Writes (f : Doubles D) (s : List ℕ) : ParamType → Value D → Type 0 where
    null_string : s ≡ null_word → Writes f s of_string (str [])
    a_string : s ≢ null_word → Writes f s of_string (str (take 80 s))
    a_number :
        {n : ℕ}
        → ((ds : List ℕ) → Digits ds → s ≡ numeral ds → decimal ds < 2 ^ 31 → n ≡ decimal ds)
        → Writes f s of_number (num n)
    a_float : {x : D} → (NotHex s → x ≡ f.atof s) → Writes f s of_float (dbl x)

  -- The entries of the name that have a variable and a type are set, and no other; `n` is their number.
  pub data AllSet (f : Doubles D) (name s : List ℕ)
      : List (Param D) → List (Param D) → ℕ → Type 0 where
    no_entry : AllSet f name s [] [] 0
    sets :
        {e : Param D} {es es' : List (Param D)} {n : ℕ} {x : Value D}
        → e.param_name ≡ name
        → is_some e.param_ptr ≡ true
        → Writes f s e.param_type x
        → AllSet f name s es es' n
        → AllSet f name s (e ∷ es) (written e x ∷ es') (suc n)
    keeps :
        {e : Param D} {es es' : List (Param D)} {n : ℕ}
        → (e.param_name ≢ name) ⊎ (is_some e.param_ptr ≡ false) ⊎ (e.param_type ≡ of_other)
        → AllSet f name s es es' n
        → AllSet f name s (e ∷ es) (e ∷ es') n

equal_refl : (xs : List ℕ) → equal xs xs ≡ true
equal_refl [] = refl
equal_refl (x ∷ xs) = rw (==-refl x) (equal_refl xs)

equal_sound : (xs ys : List ℕ) → equal xs ys ≡ true → xs ≡ ys
equal_sound [] [] e = refl
equal_sound [] (y ∷ ys) e = cc
equal_sound (x ∷ xs) [] e = cc
equal_sound (x ∷ xs) (y ∷ ys) e =
    let same : x ≡ y = ground arith in let rest = equal_sound xs ys (ground arith) in cc

equal-false : (xs ys : List ℕ) → equal xs ys ≡ false → xs ≢ ys
equal-false xs ys e same =
    let yes_ = equal_refl ys in
    let at : equal ys ys ≡ false = subst (λ z. equal z ys ≡ false) same e in cc

mark-flagged : (o : Option Bool) → mark o ≡ flagged o
mark-flagged none = refl
mark-flagged (some b) = refl

digit_of-char : (d : ℕ) → d < 10 → digit_of (48 + d) ≡ d
digit_of-char d lt = ground arith

shift_sum : (acc d t u r : ℕ) → u ≡ 10 * t → (acc * 10 + d) * t + r ≡ acc * u + (d * t + r)
shift_sum acc d t u r e = rw e (grind arith)

digits-numeral :
    (acc : ℕ) (ds : List ℕ)
    → Digits ds
    → digits 10 acc (numeral ds) ≡ acc * 10 ^ length ds + decimal ds
digits-numeral acc [] no_digit = omega arith
digits-numeral acc (d ∷ ds) (a_digit lt ls) =
    let less : ltb d 10 ≡ true = ground arith in
    rw (digit_of-char d lt, less)
      (digits-numeral (acc * 10 + d) ds ls
        ∙ shift_sum acc d (10 ^ length ds) (10 ^ suc (length ds)) (decimal ds) (omega arith))

skip_prefix-10 : (s : List ℕ) → skip_prefix 10 s ≡ s
skip_prefix-10 [] = refl
skip_prefix-10 (a ∷ []) = refl
skip_prefix-10 (a ∷ b ∷ []) = refl
skip_prefix-10 (a ∷ b ∷ c ∷ s) = refl

to_int-small : (m : ℕ) → m < 2 ^ 31 → to_int false m ≡ m
to_int-small m lt = ground arith

strtol-numeral :
    (ds : List ℕ) → Digits ds → decimal ds < 2 ^ 31 → strtol 10 (numeral ds) ≡ decimal ds
strtol-numeral [] no_digit lt = refl
strtol-numeral (d ∷ ds) (a_digit less ls) lt =
    let no_space_ : is_space (48 + d) ≡ false = ground arith in
    let no_minus : (48 + d == 45) ≡ false = ground arith in
    let no_plus : (48 + d == 43) ≡ false = ground arith in
    let all = digits-numeral 0 (d ∷ ds) (a_digit less ls) in
    let none_before : 0 * 10 ^ length (d ∷ ds) + decimal (d ∷ ds) ≡ decimal (d ∷ ds) =
      omega arith in
    rw (no_space_, no_minus, no_plus, skip_prefix-10 ((48 + d) ∷ numeral ds), all, none_before)
      (to_int-small (decimal (d ∷ ds)) lt)

is_hex-NotHex : (s : List ℕ) → NotHex s → is_hex s ≡ false
is_hex-NotHex [] n = elim n [ ]
is_hex-NotHex (c ∷ []) n = refl
is_hex-NotHex (c ∷ d ∷ []) n = refl
is_hex-NotHex (c ∷ d ∷ x ∷ s) (other_first ne) = ground arith
is_hex-NotHex (c ∷ d ∷ x ∷ s) (other_second ne ne') = ground arith

is_hex-numeral : (ds : List ℕ) → Digits ds → is_hex (numeral ds) ≡ false
is_hex-numeral [] ls = refl
is_hex-numeral (a ∷ []) ls = refl
is_hex-numeral (a ∷ b ∷ []) ls = refl
is_hex-numeral (a ∷ b ∷ c ∷ ds) (a_digit la (a_digit lb ls)) = ground arith

module _ {D : Type 0} (f : Doubles D) (name s : List ℕ) where
  -- What the code makes of a name and a value.
  record Parsed (v : ParamValue D) : Type 0 where
    name_is : v.param_name ≡ name
    value_is : v.param_str_value ≡ s
    int_is :
        (ds : List ℕ)
        → Digits ds
        → s ≡ numeral ds
        → decimal ds < 2 ^ 31
        → v.param_int_value ≡ decimal ds
    double_is : NotHex s → v.param_double_value ≡ f.atof s

  numbers-Parsed : Parsed (numbers f name s)
  numbers-Parsed = elim (Bool-cases (is_hex s)) [
    | inl hex ↦ rw hex (record {
      name_is = refl;
      value_is = refl;
      int_is = λ ds ls e lt.
          let no_hex : is_hex s ≡ false = ap is_hex e ∙ is_hex-numeral ds ls in absurd (cc);
      double_is = λ n. let no_hex = is_hex-NotHex s n in absurd (cc);
    })
    | inr plain ↦ rw plain (record {
      name_is = refl;
      value_is = refl;
      int_is = λ ds ls e lt. ap (strtol 10) e ∙ strtol-numeral ds ls lt;
      double_is = λ n. refl;
    })
  ]

  string_for-Writes : Writes f s of_string (str (string_for s))
  string_for-Writes = elim (Bool-cases (equal s null_word)) [
    | inl n ↦ rw n (null_string (equal_sound s null_word n))
    | inr o ↦ rw o (a_string (equal-false s null_word o))
  ]

  module _ (v : ParamValue D) (is : Parsed v) where
    stored-AllSet :
        (e : Param D) (t : ParamType) (r : ℕ × List (Param D)) (es : List (Param D))
        → e.param_type ≡ t
        → e.param_name ≡ name
        → is_some e.param_ptr ≡ true
        → AllSet f name s es r.1 r.0
        → let r' = put_entry e (store e (value_for t v)) r in AllSet f name s (e ∷ es) r'.1 r'.0
    stored-AllSet e t r es type named there rest = by_type t type
      where
        set_to :
            (x : Value D)
            → Writes f s e.param_type x
            → AllSet f name s
                (e ∷ es)
                (record e { param_ptr = some x; param_set = mark e.param_set } ∷ r.1)
                (suc r.0)
        set_to x w =
            subst
              (λ o.
                AllSet f name s (e ∷ es) (record e { param_ptr = some x; param_set = o } ∷ r.1)
                  (suc r.0))
              (sym (mark-flagged e.param_set)) (sets named there w rest)

        by_type :
            (u : ParamType)
            → e.param_type ≡ u
            → let r' = put_entry e (store e (value_for u v)) r in AllSet f name s (e ∷ es) r'.1 r'.0
        by_type of_string eq = set_to (str (string_for v.param_str_value)) (
            subst (λ u. Writes f s u (str (string_for v.param_str_value))) (sym eq)
              (subst (λ z. Writes f s of_string (str (string_for z))) (sym is.value_is)
                string_for-Writes))
        by_type of_number eq =
            set_to (num v.param_int_value)
              (subst (λ u. Writes f s u (num v.param_int_value)) (sym eq) (a_number is.int_is))
        by_type of_float eq =
            set_to (dbl v.param_double_value)
              (subst (λ u. Writes f s u (dbl v.param_double_value)) (sym eq) (a_float is.double_is))
        by_type of_other eq = keeps (inr (inr eq)) rest

    set_entries-AllSet :
        (es : List (Param D)) → let r = set_entries v es in AllSet f name s es r.1 r.0
    set_entries-AllSet [] = no_entry
    set_entries-AllSet (e ∷ es) =
        let rest = set_entries-AllSet es in
        elim (Bool-cases (equal e.param_name v.param_name)) [
          | inl same ↦ elim (Bool-cases (is_some e.param_ptr)) [
            | inl there ↦
                rw (same, there)
                  (stored-AllSet e e.param_type (set_entries v es) es refl
                    (equal_sound e.param_name v.param_name same ∙ is.name_is) there rest)
            | inr absent ↦ rw (same, absent) (keeps (inr (inl absent)) rest)
          ]
          | inr other ↦ rw other (
              keeps
                (inl (
                  subst (λ z. e.param_name ≢ z) is.name_is
                    (equal-false e.param_name v.param_name other)))
                rest)
        ]

-- A line of a name, '=' and a value, neither of them empty nor with an '=' in it or white space at
-- its ends, with any white space before and behind each of them, as also the end of the line is,
-- sets the entries of just that name that have a variable and a type, and loc_fill_conf_item
-- returns their number. A string gets the value without the white space around it, at most 80
-- bytes of it, and nothing for NULL; a number gets what a decimal numeral says that is below 2 ^
-- 31; a float gets what atof says, unless the value starts like a hexadecimal number.
pub fill_conf_item-AllSet :
    {D : Type 0} (f : Doubles D) (a name b c value d : List ℕ)
    → Spaces a
    → IsWord name
    → Spaces b
    → Spaces c
    → IsWord value
    → Spaces d
    → (table : List (Param D))
    → let r = fill_conf_item f ((a ++ (name ++ b)) ++ 61 ∷ (c ++ (value ++ d))) table in
      AllSet f name value table r.1 r.0
fill_conf_item-AllSet f a name b c value d as_ wn bs cs wv ds table =
    subst (λ r. AllSet f name value table r.1 r.0)
      (sym (fill_conf_item-padded f a name b c value d as_ wn bs cs wv ds table))
      (set_entries-AllSet f name value (numbers f name value) (numbers-Parsed f name value) table)
