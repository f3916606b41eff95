-- ===== src/Tests/Daemon.antt =====
-- The daemon connection on a pipe that is its bytes, and on a helper thread that counts.
use android_device_lenovo_a.Base.{
  ℕ, zero, suc, ◌+◌, ◌≤◌, ◌≡◌, refl, none, some, List, [], ◌∷◌, ◌++◌, map, length, arith, subst,
}
use android_device_lenovo_a.Base.Bytes.{take, drop, word, value, length-take_le}
use android_device_lenovo_a.Base.Int.{pos, negsuc}
use android_device_lenovo_a.Base.Run.{Returns, ◌>>◌}
use android_device_lenovo_a.DmnConn.Kernel.{Kernel, IsPipe, Bounded}
use android_device_lenovo_a.DmnConn.Messages.{msgrcv}
use android_device_lenovo_a.DmnConn.Exchange.{IsMessage, framed}
use android_device_lenovo_a.DmnConn.Sequence.{send_all, receive_all, receive_all-send_all}
use android_device_lenovo_a.DmnConn.Hostile.{msgrcv-Bounded}
use android_device_lenovo_a.DmnConn.Thread.{
  Procs, Turn, helper, unblocker, run, new_helper, Live, done,
}
use android_device_lenovo_a.DmnConn.Launch.{helper_turns, unblock-done}

-- The pipe is its contents. A read from the empty pipe returns 0, as when no writer is left.
abbrev pipe : Kernel (List ℕ)
pipe = record {
  read = λ n p. (some (take n p), drop n p);
  write = λ bs p. (pos (length bs), p ++ bs);
}

abbrev all_bytes : List ℕ → List ℕ
all_bytes p = p

pipe-IsPipe : IsPipe pipe all_bytes
pipe-IsPipe = record {
  read_zero = λ p. (refl, refl);
  read_some = λ n p ne. (refl, refl);
  write_all = λ bs p le. (refl, refl);
}

abbrev first_msg : List ℕ
first_msg = 0 ∷ 0 ∷ 0 ∷ 0 ∷ 0 ∷ 0 ∷ 0 ∷ 0 ∷ 11 ∷ 12 ∷ []

abbrev second_msg : List ℕ
second_msg = 0 ∷ 0 ∷ 0 ∷ 0 ∷ 0 ∷ 0 ∷ 0 ∷ 0 ∷ []

abbrev zeros : ℕ → List ℕ
zeros zero = []
zeros (suc n) = 0 ∷ zeros n

abbrev buffer : List ℕ
buffer = zeros 12

first_msg-IsMessage : IsMessage first_msg
first_msg-IsMessage = record { least = omega arith; most = omega arith }

second_msg-IsMessage : IsMessage second_msg
second_msg-IsMessage = record { least = omega arith; most = omega arith }

receive_all-send_all_example :
    Returns
      (λ got p'. (got ≡ map framed (first_msg ∷ second_msg ∷ [])) × (p' ≡ []))
      ((send_all pipe (first_msg ∷ second_msg ∷ []) >> receive_all pipe 2 buffer) [])
receive_all-send_all_example =
    receive_all-send_all pipe all_bytes pipe-IsPipe (first_msg ∷ second_msg ∷ []) [] buffer
      (first_msg-IsMessage, omega arith, (second_msg-IsMessage, omega arith, tt)) refl

nil_at_end : (q : List ℕ) → q ≡ [] → ((pipe.read 128 q).0 ≡ some []) × ((pipe.read 128 q).1 ≡ [])
nil_at_end [] e = (refl, refl)
nil_at_end (b ∷ q) e = cc

-- A pipe whose reads fail.
abbrev broken : Kernel (List ℕ)
broken = record { read = λ n p. (none, p); write = λ bs p. (negsuc 0, p) }

pipe-Bounded : Bounded pipe
pipe-Bounded n p bs e =
    let same : take n p ≡ bs = cc in subst (λ x. length x ≤ n) same (length-take_le n p).0

-- A message of nine bytes.
abbrev nine : List ℕ
nine = word 8 9 ++ 5 ∷ []

nine-value : (bs : List ℕ) → (pipe.read 8 nine).0 ≡ some bs → length bs ≡ 8 → 8 ≤ value bs
nine-value bs e eight = let same : word 8 9 ≡ bs = cc in subst (λ x. 8 ≤ value x) same (omega arith)

msgrcv-Bounded_example : Returns (λ (r, buf') p'. length buf' ≡ 12) (msgrcv pipe buffer 12 nine)
msgrcv-Bounded_example =
    msgrcv-Bounded pipe pipe-Bounded nine buffer (omega arith) (omega arith) nine-value

-- A helper whose loop counts, and one whose initialisation fails.
abbrev counting : Procs ℕ
counting = record {
  thread_proc_init = none;
  thread_proc_pre = some (λ n. (pos 0, 10));
  thread_proc = some (λ n. (pos 0, n + 1));
  thread_proc_post = some (λ n. (pos 0, 0));
}

abbrev failing : Procs ℕ
failing = record counting { thread_proc_init = some (λ n. (negsuc 4, n)) }

abbrev turns : List Turn
turns = helper ∷ helper ∷ helper ∷ helper ∷ unblocker ∷ helper ∷ []

unblock-done_example :
    (run counting (unblocker ∷ helper_turns counting 6) (new_helper 0)).place ≡ done
unblock-done_example = unblock-done counting (new_helper 0)

abbrev no_live : Live
no_live = record { conds = 0; mutexes = 0 }
