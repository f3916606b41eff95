-- ===== src/DmnConn/Kernel.antt =====
-- The system calls under gps/loc_api/libloc_api_50001/loc_eng_dmn_conn_glue_pipe.c, on the pipe
-- behind one descriptor. `P` is the pipe's state, and -1 stands for every failure.
use android_device_lenovo_a.Base.{ℕ, ◌≤◌, ◌≡◌, ◌≢◌, Option, some, List, [], ◌++◌, length}
use android_device_lenovo_a.Base.Bytes.{take, drop}
use android_device_lenovo_a.Base.Int.{ℤ, pos}

pub record Kernel (P : Type 0) : Type 0 where
  -- `none` is -1.
  pub read : ℕ → P → Option (List ℕ) × P
  pub write : List ℕ → P → ℤ × P

-- Linux' PIPE_BUF: a write of at most so many bytes is atomic.
abbrev pub pipe_buf : ℕ
pipe_buf = 4096

-- The documented behaviour of a pipe with a blocking descriptor. `contents` are the bytes in it.
-- Nothing is asked of a read from an empty pipe.
pub record IsPipe {P : Type 0} (k : Kernel P) (contents : P → List ℕ) : Type 0 where
  pub read_zero : (p : P) → ((k.read 0 p).0 ≡ some []) × (contents (k.read 0 p).1 ≡ contents p)
  pub read_some :
      (n : ℕ) (p : P)
      → contents p ≢ []
      → ((k.read n p).0 ≡ some (take n (contents p)))
        × (contents (k.read n p).1 ≡ drop n (contents p))
  pub write_all :
      (bs : List ℕ) (p : P)
      → length bs ≤ pipe_buf
      → ((k.write bs p).0 ≡ pos (length bs)) × (contents (k.write bs p).1 ≡ contents p ++ bs)

-- All that is asked where nothing is known of the pipe: a read gives at most what it was asked for.
abbrev pub Bounded : {P : Type 0} → Kernel P → Type 0
Bounded {P} k = (n : ℕ) (p : P) (bs : List ℕ) → (k.read n p).0 ≡ some bs → length bs ≤ n
