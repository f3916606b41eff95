-- ===== src/DmnConn/Hostile.antt =====
-- loc_eng_dmn_conn_glue_msgrcv on a pipe that holds anything.
use android_device_lenovo_a.Base.{
  ℕ, ◌+◌, ◌^◌, ◌≤◌, ◌<◌, ◌≡◌, refl, ap, subst, ◌∙◌, Option, none, some, List, ◌++◌, ltb, ◌==◌,
  length, arith, length-append, inl, inr, Bool-cases,
}
use android_device_lenovo_a.Base.Bytes.{
  take, drop, value, blit-some, length-drop, length-blit, take-append,
}
use android_device_lenovo_a.Base.Run.{Returns, returns, Returns-bind, Returns-mono, and_then}
use android_device_lenovo_a.DmnConn.Kernel.{Kernel, Bounded}
use android_device_lenovo_a.DmnConn.Exchange.{to_int-pos}
use android_device_lenovo_a.DmnConn.Messages.{
  to_int, msgsz_of, body_size, stored, piperead, msgrcv, msgrcv_header, msgrcv_body,
}

msgsz_of-append : (bs d : List ℕ) → length bs ≡ 8 → msgsz_of (bs ++ d) ≡ value bs
unfolding msgsz_of
msgsz_of-append bs d eight = ap value (subst (λ n. take n (bs ++ d) ≡ bs) eight (take-append bs d))

module _ {P : Type 0} (k : Kernel P) (bounded : Bounded k) where
  -- A read that fits the buffer keeps its size.
  stored-length :
      (buf : List ℕ) (offset : ℕ) (r : Option (List ℕ) × P)
      → ((bs : List ℕ) → r.0 ≡ some bs → offset + length bs ≤ length buf)
      → Returns (λ (n, buf') p'. length buf' ≡ length buf) (stored offset buf r)
  stored-length buf offset (none, p) fits = returns refl
  stored-length buf offset (some bs, p) fits =
      let (zs, e, len) = length-blit offset bs buf (fits bs refl) in rw e (returns len)

  msgrcv_body-length :
      (p : P) (buf : List ℕ) (msgsz : ℕ)
      → 8 ≤ msgsz
      → msgsz ≤ length buf
      → length buf < 2 ^ 63
      → Returns (λ (r, buf') p'. length buf' ≡ length buf) (msgrcv_body k buf msgsz p)
  unfolding msgrcv_body piperead body_size
  msgrcv_body-length p buf msgsz least most small =
      let n = body_size msgsz in
      Returns-bind _ (stored-length buf 8 (k.read n p) λ bs e. omega (arith, bounded n p bs e))
        λ r p' post. returns post

  msgrcv_header-length :
      (p : P) (buf bs : List ℕ)
      → 8 ≤ length buf
      → length buf < 2 ^ 63
      → length bs ≤ 8
      → (length bs ≡ 8 → 8 ≤ value bs)
      → Returns
          (λ (r, buf') p'. length buf' ≡ length buf)
          (msgrcv_header k (length buf) (to_int (length bs), bs ++ drop (length bs) buf) p)
  unfolding msgrcv_header
  msgrcv_header-length p buf bs least small few size =
      let d = drop (length bs) buf in
      let len : length (bs ++ d) ≡ length buf =
        omega (arith, length-append bs d, length-drop (length bs) buf) in
      rw (to_int-pos (length bs) (omega arith)) (elim (Bool-cases (length bs == 8)) [
        | inl whole ↦
            let eight : length bs ≡ 8 = ground arith in
            rw (whole, msgsz_of-append bs d eight)
              (elim (Bool-cases (ltb (length buf) (value bs))) [
                | inl much ↦ rw much (returns len)
                | inr fits ↦ rw fits (
                    Returns-mono
                      (msgrcv_body-length p (bs ++ d) (value bs) (size eight) (ground (arith, len))
                        (omega (arith, len)))
                      λ r p' e. e ∙ len)
              ])
        | inr part ↦ rw part (returns len)
      ])

  -- Whatever a pipe holds, loc_eng_dmn_conn_glue_msgrcv writes nothing outside its buffer, as long
  -- as the size field that it reads is not less than its own size. No more is asked of read than
  -- that it gives at most what it was asked for.
  pub msgrcv-Bounded :
      (p : P) (buf : List ℕ)
      → 8 ≤ length buf
      → length buf < 2 ^ 63
      → ((bs : List ℕ) → (k.read 8 p).0 ≡ some bs → length bs ≡ 8 → 8 ≤ value bs)
      → Returns (λ (r, buf') p'. length buf' ≡ length buf) (msgrcv k buf (length buf) p)
  unfolding msgrcv piperead
  msgrcv-Bounded p buf least small size = go (k.read 8 p) (λ bs e. bounded 8 p bs e) size
    where
      go :
          (r : Option (List ℕ) × P)
          → ((bs : List ℕ) → r.0 ≡ some bs → length bs ≤ 8)
          → ((bs : List ℕ) → r.0 ≡ some bs → length bs ≡ 8 → 8 ≤ value bs)
          → Returns
              (λ (n, buf') p'. length buf' ≡ length buf)
              (and_then (stored 0 buf r) (msgrcv_header k (length buf)))
      go (none, p') few size = unfold msgrcv_header in (returns refl)
      go (some bs, p') few size =
          rw (blit-some 0 bs buf (omega (arith, few bs refl)))
            (msgrcv_header-length p' buf bs least small (few bs refl) (size bs refl))
