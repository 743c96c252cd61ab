-- ===== src/Fifo.antt =====
-- study-linux-kernel/ipc-pipe/fifo-common.h, and what its client and its server make of its structures.
pub mod Client
pub mod Server
pub mod Answering
pub mod Leaving
use study_linux_kernel.Base.{
  ℕ, suc, ◌-◌, List, [], ◌∷◌, ◌++◌, leb, if◌then◌else◌, length, take, drop, replicate, has_nul,
  c_string, utf8,
}
use study_linux_kernel.Base.Run.{Run, ok, fault, indeterminate, out_of_bounds}
use study_linux_kernel.Sys.Calls.{Text}
use study_linux_kernel.Inotify.Encoding.{bytes_of}

abbrev pub server_pipe_path : Text
server_pipe_path = utf8 "./fifo-server-pipe"

abbrev pub client_pipe_path : Text
client_pipe_path = utf8 "./fifo-client-pipe"

abbrev pub msg_len : ℕ
msg_len = 16

-- `strncpy(dest, s, n)`: what it stores in `dest`.
unfoldable pub strncpy : ℕ → Text → Text
strncpy n s = take n s ++ replicate (n - length s) 0

-- The bytes of a `struct request` that the client filled.
unfoldable pub request : ℕ → Text → Text
request pid msg = bytes_of pid ++ strncpy msg_len (c_string msg)

-- `snprintf(path, MAX_PATH, "%s-%ld", CLIENT_PIPE_PATH, pid)`; `decimal` prints a number. The
-- argument is a `pid_t`, an `int`, for the `long` that `%ld` reads. That C leaves this undefined for
-- every pid is not counted: the bits above the 32 passed are taken to be zero, as a register leaves
-- them, and only a negative pid, for which the text then depends on them, is a fault.
unfoldable pub path_of : (ℕ → Text) → ℕ → Run Text
path_of decimal pid =
    if leb 2147483648 pid
    then fault indeterminate
    else ok (take 259 (client_pipe_path ++ (b'-' ∷ decimal pid)))

-- `snprintf(resp.msg, MSG_LEN, "%s", msg)` for the 16 bytes of `req.msg`; `old` is what `resp.msg`
-- holds before, which nothing has set.
unfoldable pub response : Text → Text → Run Text
response old msg =
    if has_nul msg
    then ok (take 15 (c_string msg) ++ (0 ∷ drop (suc (length (take 15 (c_string msg)))) old))
    else fault out_of_bounds
