-- ===== src/DmnConn/Sequence.antt =====
-- Several messages through loc_eng_dmn_conn_glue_msg.c, and its flush.
use android_device_lenovo_a.Base.{
  ℕ, zero, suc, ◌-◌, ◌^◌, ◌≤◌, ◌<◌, ◌≡◌, refl, sym, ap, subst, ◌∙◌, none, some, List, [], ◌∷◌, ◌++◌,
  map, length, arith, length-append,
}
use android_device_lenovo_a.Base.Bytes.{
  take, drop, blit, blit-some, length-drop, take-append, length-take_le,
}
use android_device_lenovo_a.Base.Int.{ℤ, pos, negsuc}
use android_device_lenovo_a.Base.Run.{
  out_of_fuel, Cmd, pure, ◌>>=◌, ◌>>◌, Returns, returns, Returns-bind,
}
use android_device_lenovo_a.DmnConn.Kernel.{Kernel, IsPipe}
use android_device_lenovo_a.DmnConn.Messages.{piperead, msgsnd, msgrcv, flush_loop, msgflush}
use android_device_lenovo_a.DmnConn.Exchange.{
  IsMessage, framed, length-framed, to_int-pos, msgsnd-framed, msgrcv-framed,
}

-- The bytes that a receiver finds in its buffer.
abbrev pub message : ℤ → List ℕ → List ℕ
message (pos n) buf = take n buf
message (negsuc n) buf = []

module _ {P : Type 0} (k : Kernel P) where
  unfoldable pub send_all : List (List ℕ) → Cmd P (Unit {0})
  send_all [] = pure tt
  send_all (msg ∷ msgs) = do _ ← msgsnd k msg (length msg); send_all msgs

  -- The same buffer is used again.
  unfoldable pub receive_all : ℕ → (buf : List ℕ) → Cmd P (List (List ℕ))
  receive_all zero buf = pure []
  receive_all (suc n) buf = do
    (r, buf') ← msgrcv k buf (length buf)
    msgs ← receive_all n buf'
    pure (message r buf' ∷ msgs)

-- Messages that fit a buffer of `size` bytes.
abbrev pub Fit : ℕ → List (List ℕ) → Type 0
Fit size [] = Unit {0}
Fit size (msg ∷ msgs) = IsMessage msg × (length msg ≤ size) × Fit size msgs

abbrev pub frames : List (List ℕ) → List ℕ
frames [] = []
frames (msg ∷ msgs) = framed msg ++ frames msgs

take-framed : (msg ys : List ℕ) → 8 ≤ length msg → take (length msg) (framed msg ++ ys) ≡ framed msg
take-framed msg ys le =
    subst (λ n. take n (framed msg ++ ys) ≡ framed msg) (length-framed msg le)
      (take-append (framed msg) ys)

append_assoc : {A : Type 0} (xs ys zs : List A) → (xs ++ ys) ++ zs ≡ xs ++ (ys ++ zs)
append_assoc [] ys zs = refl
append_assoc (x ∷ xs) ys zs = ap (λ ws. x ∷ ws) (append_assoc xs ys zs)

append_nil : {A : Type 0} (xs : List A) → xs ++ [] ≡ xs
append_nil [] = refl
append_nil (x ∷ xs) = ap (λ ws. x ∷ ws) (append_nil xs)

module _ {P : Type 0} (k : Kernel P) (contents : P → List ℕ) (is : IsPipe k contents) where
  send_all-frames :
      (size : ℕ) (msgs : List (List ℕ)) (p : P)
      → Fit size msgs
      → Returns (λ _ p'. contents p' ≡ contents p ++ frames msgs) (send_all k msgs p)
  unfolding send_all
  send_all-frames size [] p fit = returns (sym (append_nil (contents p)))
  send_all-frames size (msg ∷ msgs) p fit =
      Returns-bind _ (msgsnd-framed k contents is p msg fit.0) λ r p' post.
        subst (λ c. Returns (λ _ p''. contents p'' ≡ c) (send_all k msgs p'))
          (ap (λ c. c ++ frames msgs) post.2 ∙ append_assoc (contents p) (framed msg) (frames msgs))
          (send_all-frames size msgs p' fit.2)

  receive_all-frames :
      (msgs : List (List ℕ)) (p : P) (buf : List ℕ)
      → Fit (length buf) msgs
      → contents p ≡ frames msgs
      → Returns
          (λ got p'. (got ≡ map framed msgs) × (contents p' ≡ []))
          (receive_all k (length msgs) buf p)
  unfolding receive_all
  receive_all-frames [] p buf fit e = returns (refl, e)
  receive_all-frames (msg ∷ msgs) p buf fit e =
      Returns-bind _ (msgrcv-framed k contents is p msg (frames msgs) buf fit.0 fit.1 e)
        λ r p' post.
          let len = length-framed msg fit.0.least in
          let kept : length r.1 ≡ length buf =
            ap length post.1
            ∙ omega (
              arith,
              fit.0.least,
              len,
              length-append (framed msg) (drop (length msg - 8) (drop 8 buf)),
              length-drop (length msg - 8) (drop 8 buf),
              length-drop 8 buf,
            ) in
          Returns-bind _
            (receive_all-frames msgs p' r.1 (subst (λ n. Fit n msgs) (sym kept) fit.2) post.2)
            λ got p'' rest. returns (
              rw
                  (
                    post.0,
                    post.1,
                    rest.0,
                    take-framed msg (drop (length msg - 8) (drop 8 buf)) fit.0.least,
                  )
                  refl,
              rest.1,
            )

  -- Any messages that are at least as long as their size field, and no longer than the buffer and
  -- what is written at once, arrive complete and in their order on a pipe that was empty, and leave
  -- it empty; in the size field of each stands its size.
  pub receive_all-send_all :
      (msgs : List (List ℕ)) (p : P) (buf : List ℕ)
      → Fit (length buf) msgs
      → contents p ≡ []
      → Returns
          (λ got p'. (got ≡ map framed msgs) × (contents p' ≡ []))
          ((send_all k msgs >> receive_all k (length msgs) buf) p)
  receive_all-send_all msgs p buf fit empty =
      Returns-bind _ (send_all-frames (length buf) msgs p fit)
        λ _ p' sent. receive_all-frames msgs p' buf fit (sent ∙ ap (λ c. c ++ frames msgs) empty)

  -- A read of at most 128 bytes into the buffer of msgflush.
  flush_read :
      (buf c : List ℕ)
      → length buf ≡ 128
      → (buf' : List ℕ) × (blit 0 (take 128 c) buf ≡ some buf') × (length buf' ≡ 128)
  flush_read buf c e =
      let short = length-take_le 128 c in
      (
        _,
        blit-some 0 (take 128 c) buf (omega arith),
        omega (
          arith,
          short,
          length-append (take 128 c) (drop (length (take 128 c)) buf),
          length-drop (length (take 128 c)) buf,
        ),
      )

  flush_loop-drains :
      (fuel : ℕ) (p : P) (buf c : List ℕ)
      → ((q : P)
          → contents q ≡ []
          → ((k.read 128 q).0 ≡ some []) × (contents (k.read 128 q).1 ≡ []))
      → contents p ≡ c
      → length buf ≡ 128
      → length c < fuel
      → Returns (λ r p'. (r ≡ pos 0) × (contents p' ≡ [])) (flush_loop k fuel buf p)
  unfolding flush_loop piperead
  flush_loop-drains zero p buf c at_end e size enough = absurd (omega arith)
  flush_loop-drains (suc fuel) p buf [] at_end e size enough =
      let got = at_end p e in rw (got.0, to_int-pos 0 (omega arith)) (returns (refl, got.1))
  flush_loop-drains (suc fuel) p buf (b ∷ c) at_end e size enough =
      let got = is.read_some 128 p (λ z. cc) in
      let small : length (take 128 (b ∷ c)) < 2 ^ 31 =
        omega (arith, (length-take_le 128 (b ∷ c)).0) in
      let (buf', fits, size') = flush_read buf (b ∷ c) size in
      rw (got.0, e, fits, to_int-pos (length (take 128 (b ∷ c))) small)
        (flush_loop-drains fuel (k.read 128 p).1 buf' (drop 128 (b ∷ c)) at_end
          (got.1 ∙ ap (drop 128) e) size' (omega (arith, length-drop 128 (b ∷ c))))

  -- Where a read from the empty pipe returns 0, loc_eng_dmn_conn_glue_msgflush ends with fuel
  -- for one read more than the pipe holds bytes, leaves the pipe empty, and returns 0.
  pub msgflush-drains :
      (fuel : ℕ) (p : P) (buf : List ℕ)
      → ((q : P)
          → contents q ≡ []
          → ((k.read 128 q).0 ≡ some []) × (contents (k.read 128 q).1 ≡ []))
      → length buf ≡ 128
      → length (contents p) < fuel
      → Returns (λ r p'. (r ≡ pos 0) × (contents p' ≡ [])) (msgflush k fuel buf p)
  unfolding msgflush
  msgflush-drains fuel p buf at_end size enough =
      flush_loop-drains fuel p buf (contents p) at_end refl size enough

-- A read that keeps failing keeps loc_eng_dmn_conn_glue_msgflush in its loop for ever.
pub msgflush_fails :
    {P : Type 0} (k : Kernel P) (fuel : ℕ) (p : P) (buf : List ℕ)
    → ((q : P) → (k.read 128 q).0 ≡ none)
    → msgflush k fuel buf p ≡ out_of_fuel
unfolding msgflush flush_loop piperead
msgflush_fails k zero p buf broken = refl
msgflush_fails k (suc fuel) p buf broken =
    rw (broken p) (msgflush_fails k fuel (k.read 128 p).1 buf broken)
