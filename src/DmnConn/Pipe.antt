-- ===== src/DmnConn/Pipe.antt =====
-- Opening and removing a named pipe (loc_eng_dmn_conn_glue_pipe.c, loc_eng_dmn_conn_glue_msg.c).
use android_device_lenovo_a.Base.{ℕ, Bool, Option, none, some, List, [], ◌∷◌, ◌==◌, if◌then◌else◌}
use android_device_lenovo_a.Base.Int.{ℤ, pos, negsuc}

-- What the system calls return: the errno of mkfifo, if it fails, the descriptor that open returns,
-- and the result of fcntl.
pub record Results : Type 0 where
  pub mkfifo_errno : Option ℕ
  pub chmod_result : ℤ
  pub open_fd : ℤ
  pub fcntl_result : ℤ

pub data Syscall : Type 0 where
  mkfifo chmod open_ unlink set_lock : Syscall
  close : (fd : ℤ) → Syscall

abbrev pub eexist : ℕ
eexist = 17

abbrev pub pipe_opened : Results → ℤ × List Syscall
pipe_opened io = (io.open_fd, mkfifo ∷ chmod ∷ open_ ∷ [])

abbrev pub pipe_made : Option ℕ → Results → ℤ × List Syscall
pipe_made none io = pipe_opened io
pipe_made (some errno) io = if errno == eexist then pipe_opened io else (negsuc 0, mkfifo ∷ [])

-- The result, and the system calls. A chmod that fails is only logged.
unfoldable pub pipeget : Results → ℤ × List Syscall
pipeget io = pipe_made io.mkfifo_errno io

-- `named` is false for a NULL name.
unfoldable pub piperemove : (named : Bool) (fd : ℤ) → ℤ × List Syscall
piperemove named fd = (pos 0, close fd ∷ (if named then unlink ∷ [] else []))

unfoldable pub pipeunblock : Results → ℤ × List Syscall
pipeunblock io = (io.fcntl_result, set_lock ∷ [])

unfoldable pub msgget : Results → ℤ × List Syscall
msgget io = pipeget io

unfoldable pub msgremove : (named : Bool) (fd : ℤ) → ℤ × List Syscall
msgremove named fd = piperemove named fd

unfoldable pub msgunblock : Results → ℤ × List Syscall
msgunblock io = pipeunblock io
