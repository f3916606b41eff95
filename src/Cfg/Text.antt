-- ===== src/Cfg/Text.antt =====
-- Strings as gps/utils/loc_cfg.cpp takes them apart: what it calls of the C library, and
-- loc_util_trim_space of gps/utils/loc_misc_utils.cpp. A string is the list of its bytes before the
-- zero.
use android_device_lenovo_a.Base.{
  ℕ, zero, suc, ◌+◌, ◌-◌, ◌*◌, ◌%◌, ◌^◌, Bool, true, false, ◌&&◌, ◌||◌, Option, none, some, List,
  [], ◌∷◌, if◌then◌else◌, ltb, leb, ◌==◌,
}

-- What stands before the first `c`, and behind it.
abbrev pub until : ℕ → List ℕ → List ℕ
until c [] = []
until c (x ∷ xs) = let rest = until c xs in if x == c then [] else x ∷ rest

abbrev pub behind : ℕ → List ℕ → List ℕ
behind c [] = []
behind c (x ∷ xs) = let rest = behind c xs in if x == c then xs else rest

abbrev pub skip : ℕ → List ℕ → List ℕ
skip c [] = []
skip c (x ∷ xs) = let rest = skip c xs in if x == c then rest else x ∷ xs

-- strtok_r with one delimiter: the token, and where it goes on.
abbrev pub token : ℕ → List ℕ → Option (List ℕ × List ℕ)
token c [] = none
token c (x ∷ xs) = some (until c (x ∷ xs), behind c (x ∷ xs))

abbrev pub strtok : ℕ → List ℕ → Option (List ℕ × List ℕ)
strtok c s = token c (skip c s)

-- isspace
abbrev pub is_space : ℕ → Bool
is_space c = c == 32 || (leb 9 c && leb c 13)

abbrev pub skip_space : List ℕ → List ℕ
skip_space [] = []
skip_space (x ∷ xs) = let rest = skip_space xs in if is_space x then rest else x ∷ xs

abbrev pub is_empty : List ℕ → Bool
is_empty [] = true
is_empty (x ∷ xs) = false

-- The string up to its last byte that is no space.
abbrev pub drop_trailing : List ℕ → List ℕ
drop_trailing [] = []
drop_trailing (x ∷ xs) =
    let rest = drop_trailing xs in if is_empty rest && is_space x then [] else x ∷ rest

-- A string of spaces alone stays as it is.
abbrev pub trim_space : List ℕ → List ℕ
trim_space s = let t = drop_trailing (skip_space s) in if is_empty t then s else t

abbrev pub digit_of : ℕ → ℕ
digit_of c =
    if leb 48 c && leb c 57
    then c - 48
    else if leb 97 c && leb c 122
    then c - 87
    else if leb 65 c && leb c 90
    then c - 55
    else 36

abbrev pub digits : ℕ → ℕ → List ℕ → ℕ
digits base acc [] = acc
digits base acc (c ∷ s) =
    let more = digits base (acc * base + digit_of c) s in
    if ltb (digit_of c) base then more else acc

-- A magnitude that is too large for a long of 64 bits is the largest long, or the smallest.
abbrev pub to_int : Bool → ℕ → ℕ
to_int true m = (2 ^ 32 - (if ltb m (2 ^ 63) then m else 2 ^ 63) % 2 ^ 32) % 2 ^ 32
to_int false m = (if ltb m (2 ^ 63) then m else 2 ^ 63 - 1) % 2 ^ 32

-- The prefix that strtol skips for base 16, if a digit follows it.
abbrev pub skip_prefix : ℕ → List ℕ → List ℕ
skip_prefix base (z ∷ x ∷ d ∷ s) =
    if base == 16 && z == 48 && (x == 120 || x == 88) && ltb (digit_of d) 16
    then d ∷ s
    else z ∷ x ∷ d ∷ s
skip_prefix base s = s

abbrev pub signed : ℕ → List ℕ → ℕ
signed base [] = 0
signed base (c ∷ s) =
    if c == 45
    then to_int true (digits base 0 (skip_prefix base s))
    else if c == 43
    then to_int false (digits base 0 (skip_prefix base s))
    else to_int false (digits base 0 (skip_prefix base (c ∷ s)))

-- (int) strtol(s, NULL, base), as a number below 2 ^ 32; atoi is that for base 10.
abbrev pub strtol : ℕ → List ℕ → ℕ
strtol base s = signed base (skip_space s)

abbrev pub equal : List ℕ → List ℕ → Bool
equal [] [] = true
equal [] (y ∷ ys) = false
equal (x ∷ xs) [] = false
equal (x ∷ xs) (y ∷ ys) = x == y && equal xs ys

-- fgets on a file that is not at its end: at most so many bytes, up to the end of a line.
abbrev pub fgets : ℕ → List ℕ → List ℕ × List ℕ
fgets zero s = ([], s)
fgets (suc n) [] = ([], [])
fgets (suc n) (c ∷ s) = let r = fgets n s in if c == 10 then (c ∷ [], s) else (c ∷ r.0, r.1)
