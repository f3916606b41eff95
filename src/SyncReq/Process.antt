-- ===== src/SyncReq/Process.antt =====
-- loc_sync_process_ind of loc_api_sync_req.c.
use android_device_lenovo_a.Base.{
  ℕ, zero, suc, ◌+◌, ◌≤◌, ◌<◌, ◌≡◌, ◌⊎◌, refl, ap, Bool, true, false, not, ◌||◌, Option, none, some,
  List, [], ◌∷◌, ◌++◌, arith, if◌then◌else◌, get_elem?, is_some, length, Bool-cases, ==-refl, inl,
  inr, sym, ◌∙◌, subst,
}
use android_device_lenovo_a.SyncReq.Ops.{
  Ptr, Slot, Entry, SyncArray, process_loop, process_ind, any_in_use, is_match, copy_to,
  get_size_by_resp_ind_id,
}
use android_device_lenovo_a.SyncReq.Ops.{Event, copy, signal, notified, signalled, to_list}
use android_device_lenovo_a.SyncReq.Slots.{IsSync}

is_match_in_use :
    (handle : Ptr) (ind : ℕ) (e : Entry) → is_match handle ind e ≡ true → e.slot_in_use ≡ true
is_match_in_use handle ind e m = ground arith

-- The slot is taken by a request of this client for this indication, which has not arrived yet.
pub record Awaits (handle : Ptr) (ind : ℕ) (e : Entry) : Type 0 where
  pub taken : e.slot_in_use ≡ true
  pub client : e.slot.client_handle ≡ handle
  pub indication : e.slot.recv_ind_id ≡ ind
  pub no_arrival : e.slot.ind_has_arrived ≡ false

-- The arrival is noted in the slot, unless its request waits, and is told.
abbrev pub noted : Slot → Slot
noted t = record t { ind_has_arrived = not t.ind_is_waiting }

is_match-Awaits :
    (handle : Ptr) (ind : ℕ) (e : Entry) → is_match handle ind e ≡ true → Awaits handle ind e
is_match-Awaits handle ind e m = record {
  taken = ground arith;
  client = ground arith;
  indication = ground arith;
  no_arrival = ground arith;
}

Awaits-is_match :
    (handle : Ptr) (ind : ℕ) (e : Entry) → Awaits handle ind e → is_match handle ind e ≡ true
Awaits-is_match handle ind e a =
    rw (a.taken, a.client, a.indication, a.no_arrival, ==-refl handle, ==-refl ind) refl

not-Awaits :
    (handle : Ptr) (ind : ℕ) (e : Entry) → ¬ Awaits handle ind e → is_match handle ind e ≡ false
not-Awaits handle ind e n = elim (Bool-cases (is_match handle ind e)) [
  | inl m ↦ absurd (n (is_match-Awaits handle ind e m))
  | inr f ↦ f
]

module _ (table : List (ℕ × ℕ)) (handle : Ptr) (ind : ℕ) (payload : Ptr) where
  -- The loop keeps the flags of the slots.
  process_loop-flags :
      (i : ℕ) (u c : Bool) (es : List Entry)
      → let es' = (process_loop table handle ind payload i u c es).1 in
        (length es' ≡ length es) × (any_in_use es' ≡ any_in_use es)
  unfolding process_loop any_in_use
  process_loop-flags i u c [] = (refl, refl)
  process_loop-flags i u true (e ∷ es) = (refl, refl)
  process_loop-flags i u false (e ∷ es) = elim (Bool-cases (is_match handle ind e)) [
    | inl m ↦
        let ih =
          process_loop-flags (i + 1) (u || e.slot_in_use)
            (is_some (copy_to (get_size_by_resp_ind_id table ind) payload e.slot)) es in
        rw m (omega (arith, ih.0), ground (arith, ih.1, (is_match_in_use handle ind e m)))
    | inr n ↦
        let ih = process_loop-flags (i + 1) (u || e.slot_in_use) false es in
        rw n (omega (arith, ih.0), ground (arith, ih.1))
  ]

  -- If it saw no slot taken, none is: it stops early only at a slot that is taken.
  process_loop-used :
      (i : ℕ) (u c : Bool) (es : List Entry)
      → (c ≡ true → u ≡ true)
      → (process_loop table handle ind payload i u c es).0 ≡ false
      → (u ≡ false) × (any_in_use es ≡ false)
  unfolding process_loop any_in_use
  process_loop-used i u c [] seen h = (h, refl)
  process_loop-used i u true (e ∷ es) seen h = cc (seen refl)
  process_loop-used i u false (e ∷ es) seen h = elim (Bool-cases (is_match handle ind e)) [
    | inl m ↦
        let used = is_match_in_use handle ind e m in
        let ih =
          process_loop-used (i + 1) (u || e.slot_in_use)
            (is_some (copy_to (get_size_by_resp_ind_id table ind) payload e.slot)) es
            (λ _. ground arith) (rw m at h) in
        absurd (ground (arith, ih.0))
    | inr n ↦
        let ih = process_loop-used (i + 1) (u || e.slot_in_use) false es (λ x. cc) (rw n at h) in
        (ground (arith, ih.0), ground (arith, ih.0, ih.1))
  ]

  -- loc_sync_process_ind keeps the array consistent.
  pub process_ind-IsSync :
      (s : SyncArray) → IsSync s → IsSync (process_ind table handle ind payload s).0
  unfolding process_ind
  process_ind-IsSync s is = elim (Bool-cases s.in_use) [
    | inl on ↦
        let kept = process_loop-flags 0 false false s.entries in
        simp on (record {
          eight = kept.0 ∙ is.eight;
          flag =
              elim (Bool-cases (process_loop table handle ind payload 0 false false s.entries).0) [
                | inl u ↦ rw u (sym (kept.1 ∙ sym is.flag ∙ on))
                | inr n ↦
                    rw n (sym (kept.1 ∙ (process_loop-used 0 false false s.entries (λ x. cc) n).1))
              ];
        })
    | inr off ↦ simp off is
  ]

  -- How often the payload is copied.
  abbrev pub copies : List Event → ℕ
  copies [] = 0
  copies (copy to from size ∷ events) = 1 + copies events
  copies (signal i ∷ events) = copies events

  copies-append : (xs ys : List Event) → copies (xs ++ ys) ≡ copies xs + copies ys
  copies-append [] ys = omega arith
  copies-append (copy a b c ∷ xs) ys = omega (arith, copies-append xs ys)
  copies-append (signal i ∷ xs) ys = copies-append xs ys

  counted :
      (o : Option Event) (i : ℕ) (t : Slot) (events : List Event)
      → copies events ≤ (if is_some o then 0 else 1)
      → copies (to_list o ++ (signalled i t ++ events)) ≤ 1
  counted none i t events few = ground (arith, copies-append (signalled i t) events)
  counted (some (copy a b c)) i t events few = ground (arith, copies-append (signalled i t) events)
  counted (some (signal k)) i t events few = ground (arith, copies-append (signalled i t) events)

  process_loop-copies :
      (i : ℕ) (u c : Bool) (es : List Entry)
      → copies (process_loop table handle ind payload i u c es).2 ≤ (if c then 0 else 1)
  unfolding process_loop
  process_loop-copies i u true [] = omega arith
  process_loop-copies i u false [] = omega arith
  process_loop-copies i u true (e ∷ es) = omega arith
  process_loop-copies i u false (e ∷ es) = elim (Bool-cases (is_match handle ind e)) [
    | inl m ↦
        let o = copy_to (get_size_by_resp_ind_id table ind) payload e.slot in
        rw m
          (counted o i e.slot _ (process_loop-copies (i + 1) (u || e.slot_in_use) (is_some o) es))
    | inr n ↦ rw n (process_loop-copies (i + 1) (u || e.slot_in_use) false es)
  ]

  -- One indication is copied to at most one request.
  pub process_ind-copies : (s : SyncArray) → copies (process_ind table handle ind payload s).1 ≤ 1
  unfolding process_ind
  process_ind-copies s = ground (arith, process_loop-copies 0 false false s.entries)

  -- An entry of the array after the loop, told from the entry before.
  abbrev pub Notified : Entry → List Entry → ℕ → Type 0
  Notified e es' j =
      (get_elem? es' j ≡ some e)
      ⊎ (Awaits handle ind e × (get_elem? es' j ≡ some (record e { slot = notified ind e.slot })))

  abbrev pub Noted : Entry → List Entry → ℕ → Type 0
  Noted e es' j =
      (get_elem? es' j ≡ some e)
      ⊎ (Awaits handle ind e × (get_elem? es' j ≡ some (record e { slot = noted e.slot })))

  process_loop-Notified :
      (i : ℕ) (u c : Bool) (es : List Entry) (j : ℕ) (e : Entry)
      → get_elem? es j ≡ some e
      → Notified e (process_loop table handle ind payload i u c es).1 j
  unfolding process_loop
  process_loop-Notified i u c [] j e at = cc
  process_loop-Notified i u true (d ∷ es) j e at = inl at
  process_loop-Notified i u false (d ∷ es) zero e at =
      let same : d ≡ e = cc in
      subst (λ x. Notified x (process_loop table handle ind payload i u false (d ∷ es)).1 zero) same
        (elim (Bool-cases (is_match handle ind d)) [
          | inl m ↦ rw m (inr (is_match-Awaits handle ind d m, refl))
          | inr n ↦ rw n (inl refl)
        ])
  process_loop-Notified i u false (d ∷ es) (suc j) e at =
      elim (Bool-cases (is_match handle ind d)) [
        | inl m ↦ rw m (
            process_loop-Notified (i + 1) (u || d.slot_in_use)
              (is_some (copy_to (get_size_by_resp_ind_id table ind) payload d.slot)) es j e at)
        | inr n ↦ rw n (process_loop-Notified (i + 1) (u || d.slot_in_use) false es j e at)
      ]

  loop_Notified :
      (s : SyncArray) (j : ℕ) (e : Entry)
      → get_elem? s.entries j ≡ some e
      → Notified e (process_ind table handle ind payload s).0.entries j
  unfolding process_ind
  loop_Notified s j e at = elim (Bool-cases s.in_use) [
    | inl on ↦ simp on (process_loop-Notified 0 false false s.entries j e at)
    | inr off ↦ simp off (inl at)
  ]

  process_loop-first :
      (i : ℕ) (u : Bool) (es : List Entry) (j : ℕ) (e : Entry)
      → get_elem? es j ≡ some e
      → is_match handle ind e ≡ true
      → ((k : ℕ) (d : Entry) → k < j → get_elem? es k ≡ some d → is_match handle ind d ≡ false)
      → get_elem? (process_loop table handle ind payload i u false es).1 j
        ≡ some (record e { slot = notified ind e.slot })
  unfolding process_loop
  process_loop-first i u [] j e at m none_before = cc
  process_loop-first i u (d ∷ es) zero e at m none_before =
      let same : d ≡ e = cc in
      subst
        (λ x.
          get_elem? (process_loop table handle ind payload i u false (x ∷ es)).1 zero
          ≡ some (record e { slot = notified ind e.slot }))
        (sym same) (rw m refl)
  process_loop-first i u (d ∷ es) (suc j) e at m none_before =
      rw (none_before zero d (omega arith) refl) (
        process_loop-first (i + 1) (u || d.slot_in_use) es j e at m
          λ k x lt. none_before (suc k) x (omega arith))

  -- The first slot that waits for an indication gets it.
  pub process_ind-first :
      (s : SyncArray) (j : ℕ) (e : Entry)
      → s.in_use ≡ true
      → get_elem? s.entries j ≡ some e
      → is_match handle ind e ≡ true
      → ((k : ℕ) (d : Entry)
          → k < j
          → get_elem? s.entries k ≡ some d
          → is_match handle ind d ≡ false)
      → get_elem? (process_ind table handle ind payload s).0.entries j
        ≡ some (record e { slot = notified ind e.slot })
  unfolding process_ind
  process_ind-first s j e on at m none_before =
      simp on (process_loop-first 0 false s.entries j e at m none_before)

  any_in_use-at :
      (es : List Entry) (j : ℕ) (e : Entry)
      → get_elem? es j ≡ some e
      → e.slot_in_use ≡ true
      → any_in_use es ≡ true
  unfolding any_in_use
  any_in_use-at [] j e at used = cc
  any_in_use-at (d ∷ es) zero e at used =
      let same : d ≡ e = cc in
      subst (λ x. x.slot_in_use || any_in_use es ≡ true) (sym same) (rw used refl)
  any_in_use-at (d ∷ es) (suc j) e at used =
      let rest = any_in_use-at es j e at used in ground (arith, rest)

  notified-noted : (e : Entry) → Awaits handle ind e → notified ind e.slot ≡ noted e.slot
  notified-noted e a = go e.slot.ind_is_waiting
    where
      go :
          (b : Bool)
          → (if b
              then record e.slot { recv_ind_id = ind }
              else record e.slot { ind_has_arrived = true })
            ≡ record e.slot { ind_has_arrived = not b }
      go true =
          ap (λ i. record e.slot { recv_ind_id = i }) (sym a.indication)
          ∙ ap (λ b. record e.slot { ind_has_arrived = b }) a.no_arrival
      go false = refl

  Notified-Noted : (e : Entry) (es' : List Entry) (j : ℕ) → Notified e es' j → Noted e es' j
  Notified-Noted e es' j (inl same) = inl same
  Notified-Noted e es' j (inr (a, at)) =
      inr (a, at ∙ ap (λ t. some (record e { slot = t })) (notified-noted e a))

  -- What an indication does to an array.
  pub record Processed (s s' : SyncArray) (events : List Event) : Type 0 where
    pub sync : IsSync s'
    pub few : copies events ≤ 1
    pub only : (j : ℕ) (e : Entry) → get_elem? s.entries j ≡ some e → Noted e s'.entries j
    pub first :
        (j : ℕ) (e : Entry)
        → get_elem? s.entries j ≡ some e
        → Awaits handle ind e
        → ((k : ℕ) (d : Entry) → k < j → get_elem? s.entries k ≡ some d → ¬ Awaits handle ind d)
        → get_elem? s'.entries j ≡ some (record e { slot = noted e.slot })

  -- On a consistent array an indication changes nothing but slots that await it, which are taken by a
  -- request of this client for this indication with no arrival noted yet: there the arrival is
  -- noted if the request does not wait for it yet, and nothing else is changed. The first slot that
  -- awaits it is among the changed ones, its payload is copied at most once, and the array is still
  -- consistent.
  pub process_ind-Processed :
      (s : SyncArray)
      → IsSync s
      → let r = process_ind table handle ind payload s in Processed s r.0 r.1
  process_ind-Processed s is = record {
    sync = process_ind-IsSync s is;
    few = process_ind-copies s;
    only = λ j e at.
        Notified-Noted e (process_ind table handle ind payload s).0.entries j
          (loop_Notified s j e at);
    first = λ j e at awaits others.
        process_ind-first s j e (is.flag ∙ any_in_use-at s.entries j e at awaits.taken) at
          (Awaits-is_match handle ind e awaits)
          (λ k d lt at'. not-Awaits handle ind d (others k d lt at'))
        ∙ ap (λ t. some (record e { slot = t })) (notified-noted e awaits);
  }
