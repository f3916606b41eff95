-- ===== src/DmnConn/Messages.antt =====
-- gps/loc_api/libloc_api_50001/loc_eng_dmn_conn_glue_msg.c, and the reads and writes of
-- loc_eng_dmn_conn_glue_pipe.c. A buffer is its bytes, and starts with the field `msgsz`, a size_t
-- of 8 bytes; an access past its end is a fault.
use android_device_lenovo_a.Base.{
  ℕ, zero, suc, ◌+◌, ◌-◌, ◌%◌, ◌^◌, Bool, false, not, Option, none, some, List, ◌==◌, if◌then◌else◌,
  ltb, length,
}
use android_device_lenovo_a.Base.Bytes.{take, blit, word, value}
use android_device_lenovo_a.Base.Int.{ℤ, pos, negsuc, truth}
use android_device_lenovo_a.Base.Run.{Run, ok, fault, out_of_fuel, Cmd, pure, ◌>>=◌}
use android_device_lenovo_a.DmnConn.Kernel.{Kernel}

abbrev pub size_bytes : ℕ
size_bytes = 8

-- The conversion of a size to a 32-bit int.
unfoldable pub to_int : ℕ → ℤ
to_int n = let k : ℕ = n % 2 ^ 32 in if ltb k (2 ^ 31) then pos k else negsuc (2 ^ 32 - k - 1)

abbrev pub is_equal : ℤ → ℤ → Bool
is_equal (pos a) (pos b) = a == b
is_equal (negsuc a) (negsuc b) = a == b
is_equal _ _ = false

unfoldable pub msgsz_of : List ℕ → ℕ
msgsz_of buf = value (take size_bytes buf)

-- `pmsg->msgsz - sizeof(pmsg->msgsz)` on a size_t.
unfoldable pub body_size : ℕ → ℕ
body_size msgsz = (msgsz + 2 ^ 64 - size_bytes) % 2 ^ 64

abbrev pub within : {P A : Type 0} → Option A → Cmd P A
within none = λ p. fault
within (some a) = pure a

abbrev pub stored : {P : Type 0} → ℕ → List ℕ → Option (List ℕ) × P → Run P (ℤ × List ℕ)
stored offset buf (none, p) = ok (negsuc 0, buf) p
stored offset buf (some bs, p) =
    (do buf' ← within (blit offset bs buf); pure (to_int (length bs), buf')) p

-- The bytes that a write of `n` bytes takes from a buffer.
abbrev pub bytes_of : ℕ → List ℕ → Option (List ℕ)
bytes_of n buf = if ltb (length buf) n then none else some (take n buf)

module _ {P : Type 0} (k : Kernel P) where
  unfoldable pub pipewrite : List ℕ → (n : ℕ) → Cmd P ℤ
  pipewrite buf n = do bs ← within (bytes_of n buf); λ p. let (r, p') = k.write bs p in ok r p'

  -- Reads into a buffer from an offset on.
  unfoldable pub piperead : List ℕ → (offset n : ℕ) → Cmd P (ℤ × List ℕ)
  piperead buf offset n p = stored offset buf (k.read n p)

  unfoldable pub msgsnd : (msg : List ℕ) (msgsz : ℕ) → Cmd P (ℤ × List ℕ)
  msgsnd msg msgsz = do
    msg' ← within (blit 0 (word size_bytes msgsz) msg)
    r ← pipewrite msg' msgsz
    pure ((if is_equal r (to_int msgsz) then r else negsuc 0), msg')

  -- The second read, and the result.
  unfoldable pub msgrcv_body : (buf : List ℕ) (msgsz : ℕ) → Cmd P (ℤ × List ℕ)
  msgrcv_body buf msgsz = do
    (r, buf') ← piperead buf size_bytes (body_size msgsz)
    pure (
      (if is_equal r (to_int (body_size (msgsz_of buf')))
          then to_int (msgsz_of buf')
          else negsuc 0),
      buf',
    )

  unfoldable pub msgrcv_header : (msgbufsz : ℕ) → ℤ × List ℕ → Cmd P (ℤ × List ℕ)
  msgrcv_header msgbufsz (r, buf) =
      if not (is_equal r (pos size_bytes))
      then pure (negsuc 0, buf)
      else if ltb msgbufsz (msgsz_of buf)
      then pure (negsuc 0, buf)
      else msgrcv_body buf (msgsz_of buf)

  unfoldable pub msgrcv : (buf : List ℕ) (msgbufsz : ℕ) → Cmd P (ℤ × List ℕ)
  msgrcv buf msgbufsz = do first ← piperead buf 0 size_bytes; msgrcv_header msgbufsz first

  -- `do ... while (length)` with a local buffer of 128 bytes.
  unfoldable pub flush_loop : ℕ → (buf : List ℕ) → Cmd P ℤ
  flush_loop zero buf = λ p. out_of_fuel
  flush_loop (suc fuel) buf = do
    (len, buf') ← piperead buf 0 128
    if truth len then flush_loop fuel buf' else pure len

  unfoldable pub msgflush : (fuel : ℕ) (buf : List ℕ) → Cmd P ℤ
  msgflush fuel buf = flush_loop fuel buf
