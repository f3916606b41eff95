-- ===== src/SyncReq/Slots.antt =====
-- The slots of loc_api_sync_req.c: which operation takes and gives back which.
use android_device_lenovo_a.Base.{
  ℕ, zero, suc, ◌+◌, ◌≡◌, ◌≢◌, ◌⊎◌, refl, Bool, true, false, Option, none, some, List, [], ◌∷◌,
  arith, get_elem?, length, Bool-cases, inl, inr, sym, ◌∙◌, subst,
}
use android_device_lenovo_a.SyncReq.Ops.{
  Ptr, Slot, Entry, SyncArray, free_entry, buffer_size, modify, find_free, any_in_use, free_slot,
  select_ind, selected,
}
use android_device_lenovo_a.SyncReq.Calls.{with_waiting, mark_waiting}

-- `in_use` says whether any slot is taken, and there are eight slots.
pub record IsSync (s : SyncArray) : Type 0 where
  pub eight : length s.entries ≡ buffer_size
  pub flag : s.in_use ≡ any_in_use s.entries

module _ {ℓ} {A : Type ℓ} where
  pub length-modify : (i : ℕ) (f : A → A) (xs : List A) → length (modify i f xs) ≡ length xs
  length-modify i f [] = refl
  length-modify zero f (x ∷ xs) = refl
  length-modify (suc i) f (x ∷ xs) = omega (arith, length-modify i f xs)

  pub get_elem?-modify_self :
      (i : ℕ) (f : A → A) (xs : List A) (x : A)
      → get_elem? xs i ≡ some x
      → get_elem? (modify i f xs) i ≡ some (f x)
  get_elem?-modify_self i f [] x e = cc
  get_elem?-modify_self zero f (y ∷ xs) x e = cc
  get_elem?-modify_self (suc i) f (y ∷ xs) x e = get_elem?-modify_self i f xs x e

  pub get_elem?-modify_ne :
      (i j : ℕ) (f : A → A) (xs : List A) → i ≢ j → get_elem? (modify i f xs) j ≡ get_elem? xs j
  get_elem?-modify_ne i j f [] ne = refl
  get_elem?-modify_ne zero zero f (x ∷ xs) ne = absurd (ne refl)
  get_elem?-modify_ne zero (suc j) f (x ∷ xs) ne = refl
  get_elem?-modify_ne (suc i) zero f (x ∷ xs) ne = refl
  get_elem?-modify_ne (suc i) (suc j) f (x ∷ xs) ne = get_elem?-modify_ne i j f xs (omega arith)

-- A change of a slot that keeps its flag does not change whether any is taken.
pub any_in_use-modify :
    (i : ℕ) (f : Entry → Entry) (es : List Entry)
    → ((e : Entry) → (f e).slot_in_use ≡ e.slot_in_use)
    → any_in_use (modify i f es) ≡ any_in_use es
unfolding any_in_use
any_in_use-modify i f [] same = refl
any_in_use-modify zero f (e ∷ es) same = ground (arith, same e)
any_in_use-modify (suc i) f (e ∷ es) same = ground (arith, any_in_use-modify i f es same)

pub any_in_use-take :
    (i : ℕ) (es : List Entry) (e : Entry)
    → get_elem? es i ≡ some e
    → any_in_use (modify i (λ d. record d { slot_in_use = true }) es) ≡ true
unfolding any_in_use
any_in_use-take i [] e at = cc
any_in_use-take zero (d ∷ es) e at = refl
any_in_use-take (suc i) (d ∷ es) e at = ground (arith, any_in_use-take i es e at)

pub any_in_use-free :
    (i : ℕ) (es : List Entry)
    → any_in_use (modify i (λ _. free_entry) es) ≡ true
    → any_in_use es ≡ true
unfolding any_in_use
any_in_use-free i [] h = h
any_in_use-free zero (d ∷ es) h = ground arith
any_in_use-free (suc i) (d ∷ es) h = ground (arith, any_in_use-free i es)

-- What the search for a free slot finds.
find_free-some :
    (i k : ℕ) (es : List Entry)
    → find_free i es ≡ some k
    → (j : ℕ) × (e : Entry) × (k ≡ i + j) × (get_elem? es j ≡ some e) × (e.slot_in_use ≡ false)
unfolding find_free
find_free-some i k [] h = cc
find_free-some i k (e ∷ es) h = elim (Bool-cases e.slot_in_use) [
  | inl u ↦
      let (j, d, eq, at, free) = find_free-some (i + 1) k es (ground arith) in
      (suc j, d, omega (arith, eq), at, free)
  | inr f ↦ (0, e, ground arith, refl, f)
]

find_free-at :
    (i : ℕ) (es : List Entry)
    → find_free 0 es ≡ some i
    → (e : Entry) × (get_elem? es i ≡ some e) × (e.slot_in_use ≡ false)
find_free-at i es h =
    let (j, e, eq, at, free) = find_free-some 0 i es h in
    let same : j ≡ i = omega (arith, eq) in (e, subst (λ k. get_elem? es k ≡ some e) same at, free)

find_free-none :
    (i : ℕ) (es : List Entry)
    → find_free i es ≡ none
    → (j : ℕ) (e : Entry) → get_elem? es j ≡ some e
    → e.slot_in_use ≡ true
unfolding find_free
find_free-none i [] h j e at = cc
find_free-none i (d ∷ es) h zero e at = let same : d ≡ e = cc in rw (← same) (ground arith)
find_free-none i (d ∷ es) h (suc j) e at = find_free-none (i + 1) es (ground arith) j e at

-- The outcome of a selection: the buffer is full and nothing changes, or a slot that was free is
-- taken for the request and no other slot changes.
abbrev pub Selected : SyncArray → Slot → Option ℕ × SyncArray → Type 0
Selected s t (none, s') =
    (s' ≡ s) × ((j : ℕ) (e : Entry) → get_elem? s.entries j ≡ some e → e.slot_in_use ≡ true)
Selected s t (some i, s') =
    ((e : Entry) × (get_elem? s.entries i ≡ some e) × (e.slot_in_use ≡ false))
    × (get_elem? s'.entries i ≡ some (record { slot_in_use = true; slot = t }))
    × ((j : ℕ) → i ≢ j → get_elem? s'.entries j ≡ get_elem? s.entries j)
    × (s'.in_use ≡ true)

pub Option-cases : {A : Type 0} (o : Option A) → (o ≡ none) ⊎ ((a : A) × (o ≡ some a))
Option-cases none = inl refl
Option-cases (some a) = inr (a, refl)

-- loc_sync_select_ind takes a free slot and fills it with the request, or finds every slot taken.
pub select_ind-Selected :
    (handle : Ptr) (ind req : ℕ) (payload : Ptr) (s : SyncArray)
    → Selected s (selected handle ind req payload) (select_ind handle ind req payload s)
unfolding select_ind
select_ind-Selected handle ind req payload s = elim (Option-cases (find_free 0 s.entries)) [
  | inl full ↦ rw full (refl, find_free-none 0 s.entries full)
  | inr (i, found) ↦
      let (e, at, free) = find_free-at i s.entries found in
      rw found (
        (e, at, free),
        get_elem?-modify_self i _ _ _ (get_elem?-modify_self i _ s.entries e at),
        (λ k ne. get_elem?-modify_ne i k _ _ ne ∙ get_elem?-modify_ne i k _ s.entries ne),
        refl,
      )
]

pub select_ind-IsSync :
    (handle : Ptr) (ind req : ℕ) (payload : Ptr) (s : SyncArray)
    → IsSync s
    → IsSync (select_ind handle ind req payload s).1
unfolding select_ind
select_ind-IsSync handle ind req payload s is = elim (Option-cases (find_free 0 s.entries)) [
  | inl full ↦ rw full is
  | inr (i, found) ↦ rw found (record {
    eight = length-modify i _ _ ∙ length-modify i _ s.entries ∙ is.eight;
    flag =
        let (e, at, free) = find_free-at i s.entries found in
        sym (any_in_use-modify i _ _ (λ d. refl) ∙ any_in_use-take i s.entries e at);
  })
]

pub free_slot-IsSync : (i : ℕ) (s : SyncArray) → IsSync s → IsSync (free_slot i s)
unfolding free_slot
free_slot-IsSync i s is = record {
  eight = length-modify i _ s.entries ∙ is.eight;
  flag = elim (Bool-cases (any_in_use (modify i (λ _. free_entry) s.entries))) [
    | inl some_ ↦ rw (some_, is.flag) (any_in_use-free i s.entries some_)
    | inr none_ ↦ rw none_ refl
  ];
}

pub mark_waiting-IsSync :
    (i : ℕ) (b : Bool) (s : SyncArray) → IsSync s → IsSync (mark_waiting i b s)
mark_waiting-IsSync i b s is = record {
  eight = length-modify i (with_waiting b) s.entries ∙ is.eight;
  flag = is.flag ∙ sym (any_in_use-modify i (with_waiting b) s.entries (λ e. refl));
}
