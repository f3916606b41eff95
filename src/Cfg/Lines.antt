-- ===== src/Cfg/Lines.antt =====
-- A line of a configuration file, as it is written and as gps/utils/loc_cfg.cpp reads it.
use android_device_lenovo_a.Base.{
  ℕ, ◌≡◌, refl, ◌∙◌, ap, true, false, some, List, [], ◌∷◌, ◌++◌, ◌==◌, ==-refl, arith,
}
use android_device_lenovo_a.Cfg.Text.{
  until, behind, strtok, is_space, skip_space, is_empty, drop_trailing, trim_space,
}
use android_device_lenovo_a.Cfg.Table.{
  Param, Doubles, numbers, second_operand, first_operand, set_entries, fill_conf_item, fill_parsed,
}

pub data Lacks (c : ℕ) : List ℕ → Type 0 where
  no_byte : Lacks c []
  another : {x : ℕ} {s : List ℕ} → (x == c) ≡ false → Lacks c s → Lacks c (x ∷ s)

pub data Spaces : List ℕ → Type 0 where
  no_space : Spaces []
  a_space : {x : ℕ} {s : List ℕ} → is_space x ≡ true → Spaces s → Spaces (x ∷ s)

-- A name or a value: it does not start or end with a space, and has no '='.
pub data IsWord : List ℕ → Type 0 where
  word :
      {x : ℕ} {s : List ℕ}
      → is_space x ≡ false
      → drop_trailing (x ∷ s) ≡ x ∷ s
      → Lacks 61 (x ∷ s)
      → IsWord (x ∷ s)

space-other : (x : ℕ) → is_space x ≡ true → (x == 61) ≡ false
space-other x e = ground arith

Spaces-Lacks : (s : List ℕ) → Spaces s → Lacks 61 s
Spaces-Lacks [] no_space = no_byte
Spaces-Lacks (x ∷ s) (a_space e es) = another (space-other x e) (Spaces-Lacks s es)

IsWord-Lacks : (s : List ℕ) → IsWord s → Lacks 61 s
IsWord-Lacks [] w = elim w [ ]
IsWord-Lacks (x ∷ s) (word starts ends lacks) = lacks

Lacks-append : (c : ℕ) (s t : List ℕ) → Lacks c s → Lacks c t → Lacks c (s ++ t)
Lacks-append c [] t l k = k
Lacks-append c (x ∷ s) t (another e l) k = another e (Lacks-append c s t l k)

until-append : (c : ℕ) (s t : List ℕ) → Lacks c s → until c (s ++ c ∷ t) ≡ s
until-append c [] t l = simp (==-refl c) refl
until-append c (x ∷ s) t (another e l) = rw e (ap (λ r. x ∷ r) (until-append c s t l))

behind-append : (c : ℕ) (s t : List ℕ) → Lacks c s → behind c (s ++ c ∷ t) ≡ t
behind-append c [] t l = simp (==-refl c) refl
behind-append c (x ∷ s) t (another e l) = rw e (behind-append c s t l)

until-all : (c : ℕ) (s : List ℕ) → Lacks c s → until c s ≡ s
until-all c [] l = refl
until-all c (x ∷ s) (another e l) = rw e (ap (λ r. x ∷ r) (until-all c s l))

behind-all : (c : ℕ) (s : List ℕ) → Lacks c s → behind c s ≡ []
behind-all c [] l = refl
behind-all c (x ∷ s) (another e l) = rw e (behind-all c s l)

strtok-append :
    (c : ℕ) (s t : List ℕ) → Lacks c s → is_empty s ≡ false → strtok c (s ++ c ∷ t) ≡ some (s, t)
strtok-append c [] t l n = cc
strtok-append c (x ∷ s) t (another e l) n =
    simp (e, until-append c s t l, behind-append c s t l) refl

strtok-all : (c : ℕ) (s : List ℕ) → Lacks c s → is_empty s ≡ false → strtok c s ≡ some (s, [])
strtok-all c [] l n = cc
strtok-all c (x ∷ s) (another e l) n = simp (e, until-all c s l, behind-all c s l) refl

skip_space-append : (pad s : List ℕ) → Spaces pad → skip_space (pad ++ s) ≡ skip_space s
skip_space-append [] s no_space = refl
skip_space-append (x ∷ pad) s (a_space e es) = rw e (skip_space-append pad s es)

drop_trailing-Spaces : (pad : List ℕ) → Spaces pad → drop_trailing pad ≡ []
drop_trailing-Spaces [] no_space = refl
drop_trailing-Spaces (x ∷ pad) (a_space e es) = rw (drop_trailing-Spaces pad es, e) refl

drop_trailing-append : (s pad : List ℕ) → Spaces pad → drop_trailing (s ++ pad) ≡ drop_trailing s
drop_trailing-append [] pad es = drop_trailing-Spaces pad es
drop_trailing-append (x ∷ s) pad es = rw (drop_trailing-append s pad es) refl

-- Padding is trimmed off a word.
trim_space-word :
    (before s after : List ℕ)
    → Spaces before
    → IsWord s
    → Spaces after
    → trim_space (before ++ (s ++ after)) ≡ s
trim_space-word before [] after bs w as_ = elim w [ ]
trim_space-word before (x ∷ s) after bs (word starts ends lacks) as_ =
    rw
      (
        skip_space-append before (x ∷ (s ++ after)) bs,
        starts,
        drop_trailing-append (x ∷ s) after as_,
        ends,
      )
      refl

padded-Lacks :
    (before s after : List ℕ)
    → Spaces before
    → IsWord s
    → Spaces after
    → Lacks 61 (before ++ (s ++ after))
padded-Lacks before s after bs w as_ =
    Lacks-append 61 before (s ++ after) (Spaces-Lacks before bs)
      (Lacks-append 61 s after (IsWord-Lacks s w) (Spaces-Lacks after as_))

padded-nonempty : (before s after : List ℕ) → IsWord s → is_empty (before ++ (s ++ after)) ≡ false
padded-nonempty [] [] after w = elim w [ ]
padded-nonempty [] (x ∷ s) after w = refl
padded-nonempty (y ∷ before) s after w = refl

module _ {D : Type 0} (f : Doubles D) where
  -- A line of a name, '=' and a value, with any white space before and behind each of them, as also
  -- the end of the line is, sets the entries of that name to just that value, without the white space.
  pub fill_conf_item-padded :
      (a name b c value d : List ℕ)
      → Spaces a
      → IsWord name
      → Spaces b
      → Spaces c
      → IsWord value
      → Spaces d
      → (table : List (Param D))
      → fill_conf_item f ((a ++ (name ++ b)) ++ 61 ∷ (c ++ (value ++ d))) table
        ≡ set_entries (numbers f name value) table
  unfolding fill_conf_item
  fill_conf_item-padded a name b c value d as_ wn bs cs wv ds table =
      let left = a ++ (name ++ b) in
      let right = c ++ (value ++ d) in
      ap (λ o. fill_parsed (first_operand f o) table)
        (strtok-append 61 left right (padded-Lacks a name b as_ wn bs)
          (padded-nonempty a name b wn))
      ∙ ap (λ o. fill_parsed (second_operand f left o) table)
          (strtok-all 61 right (padded-Lacks c value d cs wv ds) (padded-nonempty c value d wv))
      ∙ ap (λ (n : List ℕ). set_entries (numbers f n (trim_space right)) table)
          (trim_space-word a name b as_ wn bs)
      ∙ ap (λ (v : List ℕ). set_entries (numbers f name v) table)
          (trim_space-word c value d cs wv ds)
