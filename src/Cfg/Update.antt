-- ===== src/Cfg/Update.antt =====
-- loc_update_conf of gps/utils/loc_cfg.cpp, which takes the text of a file.
use android_device_lenovo_a.Base.{
  ℕ, zero, suc, ◌≤◌, ◌<◌, ◌≡◌, refl, ap, Bool, true, ◌||◌, not, inl, inr, Option, none, some, List,
  [], ◌∷◌, Bool-cases, ◌==◌, length, arith,
}
use android_device_lenovo_a.Cfg.Text.{until, behind, skip, token, strtok, is_empty}
use android_device_lenovo_a.Cfg.Table.{Param, Doubles, fill_conf_item}
use android_device_lenovo_a.Cfg.Config.{less, update_line, update_loop, returned, update_conf}
use android_device_lenovo_a.Cfg.Fit.{Tracked, no_more, entry, AllFit, no_entry, fit, fill-Tracked}

length-behind : (c : ℕ) (s : List ℕ) → length (behind c s) ≤ length s
length-behind c [] = omega arith
length-behind c (x ∷ s) = elim (Bool-cases (x == c)) [
  | inl found ↦ rw found (omega arith)
  | inr other ↦ rw other (omega (arith, length-behind c s))
]

length-skip : (c : ℕ) (s : List ℕ) → length (skip c s) ≤ length s
length-skip c [] = omega arith
length-skip c (x ∷ s) = elim (Bool-cases (x == c)) [
  | inl found ↦ rw found (omega (arith, length-skip c s))
  | inr other ↦ rw other (omega arith)
]

-- A token takes something off the string, if it does not end with it.
data Shorter (s : List ℕ) : Option (List ℕ × List ℕ) → Type 0 where
  at_end : Shorter s none
  taken : {t rest : List ℕ} → length rest < length s → Shorter s (some (t, rest))

length-behind_lt : (c x : ℕ) (s : List ℕ) → length (behind c (x ∷ s)) ≤ length s
length-behind_lt c x s = elim (Bool-cases (x == c)) [
  | inl found ↦ rw found (omega arith)
  | inr other ↦ rw other (length-behind c s)
]

token-Shorter : (c : ℕ) (s t : List ℕ) → length t ≤ length s → Shorter s (token c t)
token-Shorter c s [] le = at_end
token-Shorter c s (x ∷ t) le = taken (omega (arith, length-behind_lt c x t))

strtok-Shorter : (c : ℕ) (s : List ℕ) → Shorter s (strtok c s)
strtok-Shorter c s = token-Shorter c s (skip c s) (length-skip c s)

unchanged : {D : Type 0} (es : List (Param D)) → AllFit es → Tracked es es
unchanged [] no_entry = no_more
unchanged (e ∷ es) (fit f fs) =
    entry (record { name = refl; type = refl; fits = f; kept = λ clear. refl }) (unchanged es fs)

module _ {D : Type 0} (f : Doubles D) where
  abbrev pub Loops : List (Param D) → Option (ℕ × List (Param D)) → Type 0
  Loops es o = (ret : ℕ) × (es' : List (Param D)) × (o ≡ some (ret, es')) × Tracked es es'

  update_line-Loops :
      (fuel : ℕ) (others : ℕ → ℕ → List ℕ → List (Param D) → Option (ℕ × List (Param D)))
      (num_params ret : ℕ) (s : List ℕ) (es es' : List (Param D)) (line : Option (List ℕ × List ℕ))
      → ((n k : ℕ) (rest : List ℕ) (es'' : List (Param D))
          → length rest < fuel
          → Tracked es es''
          → Loops es (others n k rest es''))
      → length s < suc fuel
      → Tracked es es'
      → Shorter s line
      → Loops es (update_line f others num_params ret es' line)
  update_line-Loops fuel others n ret s es es' none loops lt ts at_end = (ret, es', refl, ts)
  update_line-Loops fuel others n ret s es es' (some (line, rest)) loops lt ts (taken shorter) =
      let filled = fill_conf_item f line es' in
      elim (Bool-cases (n == 0)) [
        | inl full ↦ rw full (ret, es', refl, ts)
        | inr more ↦ rw more (
            loops (less n filled.0) (suc ret) rest filled.1 (omega arith)
              (fill-Tracked f line es es' ts))
      ]

  update_loop-Loops :
      (fuel num_params ret : ℕ) (s : List ℕ) (es es' : List (Param D))
      → length s < fuel
      → Tracked es es'
      → Loops es (update_loop f fuel num_params ret s es')
  unfolding update_loop
  update_loop-Loops zero num_params ret s es es' lt ts = absurd (omega arith)
  update_loop-Loops (suc fuel) num_params ret s es es' lt ts =
      update_line-Loops fuel (update_loop f fuel) num_params ret s es es' (strtok 10 s)
        (λ n k rest es''. update_loop-Loops fuel n k rest es es'') lt ts (strtok-Shorter 10 s)

  abbrev pub Updates : List (Param D) → Option (Option ℕ × List (Param D)) → Type 0
  Updates es o = (ret : Option ℕ) × (es' : List (Param D)) × (o ≡ some (ret, es')) × Tracked es es'

  returned-Updates :
      (es : List (Param D)) (o : Option (ℕ × List (Param D))) → Loops es o → Updates es (returned o)
  returned-Updates es o (ret, es', is, ts) = (some ret, es', ap returned is, ts)

  -- Where every string of the table fits into its buffer, whatever the text is, and whether or
  -- not malloc succeeds, loc_update_conf ends; the table has the same names and types as before,
  -- its strings still fit, and an entry whose flag is clear has the value that it had before.
  pub update_conf-Updates :
      (malloc : Bool) (text : Option (List ℕ)) (es : List (Param D))
      → AllFit es
      → Updates es (update_conf f malloc text es)
  unfolding update_conf
  update_conf-Updates malloc none es fs = (none, es, refl, unchanged es fs)
  update_conf-Updates malloc (some text) [] fs = (none, [], refl, no_more)
  update_conf-Updates malloc (some text) (e ∷ es) fs =
      elim (Bool-cases (is_empty text || not malloc)) [
        | inl refused ↦ rw refused (none, e ∷ es, refl, unchanged (e ∷ es) fs)
        | inr taken_ ↦ rw taken_ (
            returned-Updates (e ∷ es) _ (
              update_loop-Loops (suc (length (until 0 text))) (length es) 0 (until 0 text) (e ∷ es)
                (e ∷ es) (omega arith) (unchanged (e ∷ es) fs)))
      ]

  update_line-done :
      (others : ℕ → ℕ → List ℕ → List (Param D) → Option (ℕ × List (Param D))) (ret : ℕ)
      (es : List (Param D)) (line : Option (List ℕ × List ℕ))
      → update_line f others 0 ret es line ≡ some (ret, es)
  update_line-done others ret es none = refl
  update_line-done others ret es (some line) = refl

  -- A table of one entry is never filled: where there is text and memory, loc_update_conf returns 0
  -- and leaves the entry as it was, whatever the text says.
  pub update_conf-single :
      (c : ℕ) (text : List ℕ) (e : Param D)
      → update_conf f true (some (c ∷ text)) (e ∷ []) ≡ some (some 0, e ∷ [])
  unfolding update_conf update_loop
  update_conf-single c text e = ap returned (
      update_line-done (update_loop f (length (until 0 (c ∷ text)))) 0 (e ∷ [])
        (strtok 10 (until 0 (c ∷ text))))
