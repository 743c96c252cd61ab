-- ===== src/Terminal/Select.antt =====
-- study-linux-kernel/io-model/terminal-io-select.c
use study_linux_kernel.Base.{
  ℕ, zero, suc, ◌==◌, List, [], ◌∷◌, Option, none, some, if◌then◌else◌, length, mem,
}
use study_linux_kernel.Sys.Calls.{Text, error, select, read, write}
use study_linux_kernel.Sys.Monad.{M, pure, ◌>>=◌, ◌>>◌, exit, sys, input, run, say, lift, string_in}
use study_linux_kernel.Sys.Loops.{Next, again, loop}
use study_linux_kernel.Terminal.Padding.{padded, set_nonblocking}

-- At descriptor 1: `writefds` is not given to `select`, so it has 1 as it was set.
unfoldable pub put : Text → M (Next (Unit {0}) (Unit {0}))
put bytes = do
  line ← lift (string_in 1024 bytes)
  if length line == 0 then pure (again tt) else (do run (write 1 (padded bytes)); pure (again tt))

-- At descriptor 0; a `read` that fails leaves the array as it is.
unfoldable pub on_bytes : Option Text → M (Next (Unit {0}) (Unit {0}))
on_bytes none = do say "error:%s\n" (error ∷ []); put []
on_bytes (some bytes) = put bytes

unfoldable pub on_ready : Option ℕ → List ℕ → M (Next (Unit {0}) (Unit {0}))
on_ready none fds = do say "error: %s\n" (error ∷ []); exit 1
on_ready (some zero) fds = do say "error: timeout.\n" []; pure (again tt)
on_ready (some (suc n)) fds = if mem 0 fds then (input 1024 (read 0 1024) >>= on_bytes) else put []

unfoldable pub round : Unit {0} → M (Next (Unit {0}) (Unit {0}))
round _ = do r ← sys (select (0 ∷ []) []); on_ready r.result r.readable

unfoldable pub main : ℕ → M (Unit {0})
main fuel = do set_nonblocking; loop fuel round tt
