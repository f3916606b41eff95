-- ===== src/DmnConn/Lifecycle.antt =====
-- The life of a helper thread of loc_eng_dmn_conn_thread_helper.c, whatever turns it and the thread
-- that unblocks it take.
use android_device_lenovo_a.Base.{
  ℕ, zero, suc, ◌≡◌, ◌⊎◌, inl, inr, refl, ap, subst, Bool, true, false, not, none, some, List, [],
  ◌∷◌, ◌++◌, Bool-cases,
}
use android_device_lenovo_a.Base.Int.{ℤ, is_negative}
use android_device_lenovo_a.DmnConn.Thread.{
  Proc, Procs, Place, at_init, at_failed, at_ready, at_pre, at_proc, at_test, at_post, done, Call,
  init, pre, proc, post, Helper, called,
}

-- The calls of a procedure that is called `n` times.
abbrev pub repeat : ℕ → Call → List Call
repeat zero c = []
repeat (suc n) c = c ∷ repeat n c

abbrev pub times : {S : Type 0} → ℕ → Call → Proc S → List Call
times n c none = []
times n c (some f) = repeat n c

-- What a procedure does to the context, and whether it succeeds: one that is NULL does nothing, and a
-- negative result is a failure.
pub data Ran {S : Type 0} : Proc S → S → Bool → S → Type 0 where
  not_there : {s : S} → Ran none s true s
  succeeds : {f : S → ℤ × S} {s : S} → is_negative (f s).0 ≡ false → Ran (some f) s true (f s).1
  fails : {f : S → ℤ × S} {s : S} → is_negative (f s).0 ≡ true → Ran (some f) s false (f s).1

-- What a procedure that is called `n` times does to the context, and whether its last call failed.
pub data Loops {S : Type 0} (o : Proc S) (s : S) : ℕ → S → Bool → Type 0 where
  not_yet : Loops o s zero s false
  again :
      {n : ℕ} {s' s'' : S} {failed ok : Bool}
      → Loops o s n s' failed
      → Ran o s' ok s''
      → Loops o s (suc n) s'' (not ok)

module _ {S : Type 0} (ps : Procs S) where
  abbrev pub started : List Call
  started = times 1 init ps.thread_proc_init ++ times 1 pre ps.thread_proc_pre

  -- Both calls before the loop succeeded, and led from the first context to this one.
  abbrev pub Prepared : S → S → Type 0
  Prepared s₀ s = (s₁ : S) × Ran ps.thread_proc_init s₀ true s₁ × Ran ps.thread_proc_pre s₁ true s

  -- The procedure of the loop was called `n` times, and after a failure the thread is to exit.
  abbrev pub Looped : S → ℕ → Helper S → Type 0
  Looped s₀ n h =
      (s : S) × (failed : Bool) × Prepared s₀ s
      × Loops ps.thread_proc s n h.context failed
      × (failed ≡ true → h.thread_exit ≡ true)

  -- The calls that the helper has made and how they went, by where it stands, and its flags; it
  -- started with the context `s₀`.
  abbrev pub At : S → Place → Helper S → Type 0
  At s₀ at_init h = (h.calls ≡ []) × (h.thread_ready ≡ false) × (h.context ≡ s₀)
  At s₀ at_failed h =
      (h.calls ≡ init ∷ [])
      × (h.thread_ready ≡ false)
      × (h.thread_exit ≡ true)
      × Ran ps.thread_proc_init s₀ false h.context
  At s₀ at_ready h =
      (h.calls ≡ times 1 init ps.thread_proc_init)
      × (h.thread_ready ≡ false)
      × Ran ps.thread_proc_init s₀ true h.context
  At s₀ at_pre h =
      (h.calls ≡ times 1 init ps.thread_proc_init)
      × (h.thread_ready ≡ true)
      × Ran ps.thread_proc_init s₀ true h.context
  At s₀ at_proc h =
      ((n : ℕ) × (h.calls ≡ started ++ times n proc ps.thread_proc) × Looped s₀ n h)
      × (h.thread_ready ≡ true)
  At s₀ at_test h =
      ((n : ℕ) × (h.calls ≡ started ++ times (suc n) proc ps.thread_proc) × Looped s₀ (suc n) h)
      × (h.thread_ready ≡ true)
  At s₀ at_post h =
      ((n : ℕ) × (h.calls ≡ started ++ times (suc n) proc ps.thread_proc) × Looped s₀ (suc n) h)
      × (h.thread_ready ≡ true)
      × (h.thread_exit ≡ true)
  At s₀ done h =
      (((h.calls ≡ init ∷ []) × Ran ps.thread_proc_init s₀ false h.context)
        ⊎ ((h.calls ≡ times 1 init ps.thread_proc_init ++ pre ∷ [])
            × ((s₁ : S) × Ran ps.thread_proc_init s₀ true s₁
                × Ran ps.thread_proc_pre s₁ false h.context))
        ⊎ ((n : ℕ) × (h.calls
              ≡ (started ++ times (suc n) proc ps.thread_proc) ++ times 1 post ps.thread_proc_post)
            × ((s : S) × Prepared s₀ s)))
      × (h.thread_ready ≡ true)
      × (h.thread_exit ≡ true)

  append_nil : (xs : List Call) → xs ++ [] ≡ xs
  append_nil [] = refl
  append_nil (x ∷ xs) = ap (λ ys. x ∷ ys) (append_nil xs)

  -- What a call leaves: it continues with one more call noted, or fails with it noted.
  pub called-cases :
      (Q : Helper S → Type 0) (c : Call) (o : Proc S) (good bad : Helper S → Helper S)
      (h : Helper S)
      → ((s : S)
          → Ran o h.context true s
          → Q (good (record h { context = s; calls = h.calls ++ times 1 c o })))
      → ((s : S)
          → Ran o h.context false s
          → times 1 c o ≡ c ∷ []
          → Q (bad (record h { context = s; calls = h.calls ++ times 1 c o })))
      → Q (called c o good bad h)
  called-cases Q c none good bad h goes_on stops =
      subst (λ cs. Q (good (record h { calls = cs }))) (append_nil h.calls)
        (goes_on h.context not_there)
  called-cases Q c (some f) good bad h goes_on stops =
      elim (Bool-cases (is_negative (f h.context).0)) [
        | inl n ↦ rw n (stops (f h.context).1 (fails n) refl)
        | inr p ↦ rw p (goes_on (f h.context).1 (succeeds p))
      ]

  abbrev pub IsAt : S → Helper S → Type 0
  IsAt s₀ h = At s₀ h.place h
