-- ===== src/Terminal/Poll.antt =====
-- study-linux-kernel/io-model/terminal-io-poll.c
use study_linux_kernel.Base.{ℕ, zero, suc, List, [], ◌∷◌, Option, none, some, if◌then◌else◌, mem}
use study_linux_kernel.Sys.Calls.{Text, error, poll, read, write}
use study_linux_kernel.Sys.Monad.{M, pure, ◌>>=◌, ◌>>◌, exit, sys, input, run, say}
use study_linux_kernel.Sys.Loops.{Next, again, loop}
use study_linux_kernel.Terminal.Padding.{padded, set_nonblocking}

-- The result of `write` is not looked at.
unfoldable pub on_bytes : Option Text → M (Next (Unit {0}) (Unit {0}))
on_bytes none = do say "error:%s\n" (error ∷ []); pure (again tt)
on_bytes (some bytes) = do run (write 1 (padded bytes)); pure (again tt)

unfoldable pub on_ready : Option ℕ → List ℕ → M (Next (Unit {0}) (Unit {0}))
on_ready none fds = exit 1
on_ready (some zero) fds = do say "error: timeout.\n" []; pure (again tt)
on_ready (some (suc n)) fds =
    if mem 0 fds then (input 1024 (read 0 1024) >>= on_bytes) else pure (again tt)

unfoldable pub round : Unit {0} → M (Next (Unit {0}) (Unit {0}))
round _ = do r ← sys (poll (0 ∷ [])); on_ready r.result r.readable

unfoldable pub main : ℕ → M (Unit {0})
main fuel = do set_nonblocking; loop fuel round tt
