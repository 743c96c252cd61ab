-- ===== src/Terminal/Padding.antt =====
-- What the programs of terminal-io-poll.c and terminal-io-select.c in study-linux-kernel/io-model have
-- in common.
use study_linux_kernel.Base.{◌-◌, ◌++◌, length, replicate}
use study_linux_kernel.Sys.Calls.{Text, fcntl}
use study_linux_kernel.Sys.Monad.{M, ◌>>◌, run}

-- `char msg[1024] = {0}` behind a `read` into it.
unfoldable pub padded : Text → Text
padded bytes = bytes ++ replicate (1024 - length bytes) 0

unfoldable pub set_nonblocking : M (Unit {0})
set_nonblocking = do run (fcntl 0 "F_GETFL"); run (fcntl 0 "F_SETFL O_NONBLOCK")
