-- ===== src/Datagram/EchoServer.antt =====
-- study-linux-kernel/socket/echo_dgram_server.c
pub mod Repeating
use study_linux_kernel.Base.{ℕ, List, [], ◌∷◌, Option, none, some}
use study_linux_kernel.Sys.Calls.{
  Text, Reply, Address, any_host, received, socket, bind, recvfrom, sendto, close,
}
use study_linux_kernel.Sys.Monad.{M, pure, ◌>>=◌, ◌>>◌, exit, sys, number, run, say}
use study_linux_kernel.Sys.Loops.{Next, again, finish, loop}

unfoldable pub after_sendto : Option ℕ → M (Next (Unit {0}) (Unit {0}))
after_sendto none = pure (finish tt)
after_sendto (some _) = pure (again tt)

unfoldable pub on_message : ℕ → Address → Option Text → M (Next (Unit {0}) (Unit {0}))
on_message sock from none = pure (finish tt)
on_message sock from (some bytes) = number (sendto sock bytes from) >>= after_sendto

unfoldable pub round : ℕ → Unit {0} → M (Next (Unit {0}) (Unit {0}))
round sock _ = do r ← sys (recvfrom sock 1024); on_message sock r.sender (received 1024 r)

-- `exit:`
unfoldable pub leave : ℕ → M (Unit {0})
leave sock = do run (close sock); exit 0

unfoldable pub echo_all : ℕ → ℕ → M (Unit {0})
echo_all fuel sock = do loop fuel (round sock) tt; leave sock

unfoldable pub after_bind : ℕ → ℕ → Option ℕ → M (Unit {0})
after_bind fuel sock none = leave sock
after_bind fuel sock (some _) = echo_all fuel sock

unfoldable pub after_socket : ℕ → ℕ → Option ℕ → M (Unit {0})
after_socket fuel port none = exit 1
after_socket fuel port (some sock) = number (bind sock (any_host port)) >>= after_bind fuel sock

-- `argv` holds the arguments behind the program's name.
unfoldable pub main : (Text → ℕ) → ℕ → List Text → M (Unit {0})
main atoi fuel [] = do say "invalid parameter.\nUsage: %s [PORT]" []; exit 1
main atoi fuel (port ∷ _) = number (socket "AF_INET SOCK_DGRAM") >>= after_socket fuel (atoi port)
