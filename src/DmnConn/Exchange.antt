-- ===== src/DmnConn/Exchange.antt =====
-- What arrives of the messages that are sent through loc_eng_dmn_conn_glue_msg.c.
use android_device_lenovo_a.Base.{
  ℕ, ◌+◌, ◌-◌, ◌%◌, ◌^◌, ◌≤◌, ◌<◌, ◌≡◌, ◌≢◌, refl, sym, ap, subst, ◌∙◌, true, false, some, List, [],
  ◌∷◌, ◌++◌, ltb, length, arith,
}
use android_device_lenovo_a.Base.Bytes.{
  take, drop, blit, word, blit-some, take_all, length-drop, take-append, drop-append, value-word,
}
use android_device_lenovo_a.Base.Int.{pos}
use android_device_lenovo_a.Base.Run.{Returns, returns, Returns-bind}
use android_device_lenovo_a.DmnConn.Kernel.{Kernel, IsPipe, pipe_buf}
use android_device_lenovo_a.DmnConn.Messages.{
  size_bytes, to_int, is_equal, msgsz_of, body_size, pipewrite, piperead, msgsnd, msgrcv,
  msgrcv_header, msgrcv_body,
}

-- The bytes on the pipe for a message: its size, and what stands behind that field.
unfoldable pub framed : List ℕ → List ℕ
framed msg = word size_bytes (length msg) ++ drop size_bytes msg

pub length-framed : (msg : List ℕ) → 8 ≤ length msg → length (framed msg) ≡ length msg
unfolding framed
length-framed msg le = omega (arith, length-drop 8 msg)

blit-framed :
    (msg : List ℕ) → 8 ≤ length msg → blit 0 (word size_bytes (length msg)) msg ≡ some (framed msg)
unfolding framed
blit-framed msg le = blit-some 0 (word size_bytes (length msg)) msg (omega (arith, le))

-- A message that msgsnd can send: at least its size field, at most what is written at once.
pub record IsMessage (msg : List ℕ) : Type 0 where
  pub least : 8 ≤ length msg
  pub most : length msg ≤ pipe_buf

pub to_int-pos : (n : ℕ) → n < 2 ^ 31 → to_int n ≡ pos n
unfolding to_int
to_int-pos n lt =
    let same : n % 2 ^ 32 ≡ n = omega arith in
    let small : ltb n (2 ^ 31) ≡ true = ground arith in rw (same, small) refl

is_equal_refl : (n : ℕ) → is_equal (pos n) (pos n) ≡ true
is_equal_refl n = ground arith

pub body_size-eq : (n : ℕ) → 8 ≤ n → n < 2 ^ 31 → body_size n ≡ n - 8
unfolding body_size
body_size-eq n le lt = omega arith

pub msgsz_of-word : (n : ℕ) (ys : List ℕ) → n < 2 ^ 31 → msgsz_of (word size_bytes n ++ ys) ≡ n
unfolding msgsz_of
msgsz_of-word n ys lt = value-word 8 n (omega arith)

module _ {P : Type 0} (k : Kernel P) (contents : P → List ℕ) (is : IsPipe k contents) where
  -- loc_eng_dmn_conn_glue_msgsnd of a whole message returns its size, and appends the message to
  -- the bytes in the pipe, with the size in its first field.
  pub msgsnd-framed :
      (p : P) (msg : List ℕ)
      → IsMessage msg
      → Returns
          (λ (r, msg') p'.
            (r ≡ pos (length msg)) × (msg' ≡ framed msg) × (contents p' ≡ contents p ++ framed msg))
          (msgsnd k msg (length msg) p)
  unfolding msgsnd pipewrite
  msgsnd-framed p msg m =
      let len = length-framed msg m.least in
      let whole = take_all (length msg) (framed msg) (omega (arith, len)) in
      let sent = is.write_all (framed msg) p (omega (arith, len, m.most)) in
      let short : ltb (length (framed msg)) (length msg) ≡ false = ground (arith, len) in
      rw
        (
          blit-framed msg m.least,
          short,
          whole,
          sent.0,
          to_int-pos (length msg) (omega (arith, m.most)),
          len,
          is_equal_refl (length msg),
        )
        (returns (refl, refl, sent.1))

  read-exact :
      (p : P) (bs rest : List ℕ)
      → contents p ≡ bs ++ rest
      → ((k.read (length bs) p).0 ≡ some bs) × (contents (k.read (length bs) p).1 ≡ rest)
  read-exact p [] rest e = ((is.read_zero p).0, (is.read_zero p).1 ∙ e)
  read-exact p (b ∷ bs) rest e =
      let some_ : contents p ≢ [] = λ z. cc in
      let got = is.read_some (length (b ∷ bs)) p some_ in
      (
        got.0 ∙ ap (λ c. some (take (length (b ∷ bs)) c)) e ∙ ap some (take-append (b ∷ bs) rest),
        got.1 ∙ ap (drop (length (b ∷ bs))) e ∙ drop-append (b ∷ bs) rest,
      )

  -- A read of bytes that are there.
  piperead-append :
      (p : P) (buf : List ℕ) (offset : ℕ) (bs rest : List ℕ)
      → contents p ≡ bs ++ rest
      → offset + length bs ≤ length buf
      → length bs < 2 ^ 31
      → Returns
          (λ (r, buf') p'.
            (r ≡ pos (length bs))
            × (buf' ≡ take offset buf ++ (bs ++ drop (length bs) (drop offset buf)))
            × (contents p' ≡ rest))
          (piperead k buf offset (length bs) p)
  unfolding piperead
  piperead-append p buf offset bs rest e fits small =
      let got = read-exact p bs rest e in
      rw (got.0, blit-some offset bs buf fits, to_int-pos (length bs) small)
        (returns (refl, refl, got.1))

  -- The second read of a message whose size field has been read.
  msgrcv_body-framed :
      (p : P) (msg tail rest : List ℕ)
      → IsMessage msg
      → length msg ≤ 8 + length tail
      → contents p ≡ drop 8 msg ++ rest
      → Returns
          (λ (r, buf') p'.
            (r ≡ pos (length msg))
            × (buf' ≡ framed msg ++ drop (length msg - 8) tail)
            × (contents p' ≡ rest))
          (msgrcv_body k (word size_bytes (length msg) ++ tail) (length msg) p)
  unfolding msgrcv_body framed
  msgrcv_body-framed p msg tail rest m fits e =
      let body : length (drop 8 msg) ≡ length msg - 8 = length-drop 8 msg in
      let size : body_size (length msg) ≡ length (drop 8 msg) =
        body_size-eq (length msg) m.least (omega (arith, m.most)) ∙ sym body in
      let small : length msg < 2 ^ 31 = omega (arith, m.most) in
      rw size (
        Returns-bind _
          (piperead-append p (word size_bytes (length msg) ++ tail) 8 (drop 8 msg) rest e
            (omega (arith, m.least)) (omega (arith, m.most)))
          λ r p' post.
            let header : msgsz_of r.1 ≡ length msg =
              ap msgsz_of post.1 ∙ msgsz_of-word (length msg) _ small in
            rw
              (
                header,
                post.0,
                size,
                to_int-pos (length (drop 8 msg)) (omega (arith, m.most)),
                is_equal_refl (length (drop 8 msg)),
                to_int-pos (length msg) small,
              )
              (returns (refl, subst (λ n. r.1 ≡ framed msg ++ drop n tail) body post.1, post.2)))

  framed_append :
      (msg rest : List ℕ)
      → framed msg ++ rest ≡ word size_bytes (length msg) ++ (drop 8 msg ++ rest)
  unfolding framed
  framed_append msg rest = refl

  -- loc_eng_dmn_conn_glue_msgrcv with a buffer that is large enough takes the first message off the
  -- pipe: it returns its size and leaves it at the front of the buffer, whose size does not change.
  pub msgrcv-framed :
      (p : P) (msg rest buf : List ℕ)
      → IsMessage msg
      → length msg ≤ length buf
      → contents p ≡ framed msg ++ rest
      → Returns
          (λ (r, buf') p'.
            (r ≡ pos (length msg))
            × (buf' ≡ framed msg ++ drop (length msg - 8) (drop 8 buf))
            × (contents p' ≡ rest))
          (msgrcv k buf (length buf) p)
  unfolding msgrcv msgrcv_header
  msgrcv-framed p msg rest buf m fits e =
      let small : length msg < 2 ^ 31 = omega (arith, m.most) in
      let big_enough : ltb (length buf) (length msg) ≡ false = ground arith in
      let tail : 8 + length (drop 8 buf) ≡ length buf = omega (arith, length-drop 8 buf, m.least) in
      Returns-bind _
        (piperead-append p buf 0 (word size_bytes (length msg)) (drop 8 msg ++ rest)
          (e ∙ framed_append msg rest) (omega (arith, m.least)) (omega arith))
        λ r p' post.
          let header : msgsz_of r.1 ≡ length msg =
            ap msgsz_of post.1 ∙ msgsz_of-word (length msg) _ small in
          rw (post.0, header, big_enough)
            (rw post.1 (msgrcv_body-framed p' msg (drop 8 buf) rest m (omega (arith, tail)) post.2))
