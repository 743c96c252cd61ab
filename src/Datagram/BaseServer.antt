-- ===== src/Datagram/BaseServer.antt =====
-- study-linux-kernel/socket/socket_dgram_base_server_v1.c
use study_linux_kernel.Base.{ℕ, List, [], ◌∷◌, Option, none, some, c_string}
use study_linux_kernel.Sys.Calls.{
  Text, Address, any_host, str, peer, error, received, socket, bind, recvfrom, sendto, close,
}
use study_linux_kernel.Sys.Monad.{
  M, pure, ◌>>=◌, ◌>>◌, exit, sys, number, run, say, lift, string_in,
}
use study_linux_kernel.Sys.Loops.{Next, again, loop}

unfoldable pub after_sendto : Text → Option ℕ → M (Next (Unit {0}) (Unit {0}))
after_sendto msg none = do say "call sendto failed: %s.\n" (error ∷ []); pure (again tt)
after_sendto msg (some _) = do say "sendto msg succeed: %s\n" (str msg ∷ []); pure (again tt)

unfoldable pub on_message : ℕ → Address → Option Text → M (Next (Unit {0}) (Unit {0}))
on_message sock from none = do say "call recvfrom failed: %s.\n" (error ∷ []); pure (again tt)
on_message sock from (some bytes) = do
  msg ← lift (string_in 1024 bytes)
  say "recv msg: %s\n" (str msg ∷ [])
  number (sendto sock bytes from) >>= after_sendto msg

unfoldable pub round : ℕ → Unit {0} → M (Next (Unit {0}) (Unit {0}))
round sock _ = do r ← sys (recvfrom sock 1024); on_message sock r.sender (received 1024 r)

-- The loop is left by nothing, so `exit:` stands behind a failed `bind` only.
unfoldable pub after_bind : ℕ → ℕ → ℕ → Text → Option ℕ → M (Unit {0})
after_bind fuel sock port text none = do
  say "call bind failed: %s.\n" (error ∷ [])
  run (close sock)
  exit 0
after_bind fuel sock port text (some _) = do
  say "binded address %s:%s..." (peer (any_host port) ∷ str text ∷ [])
  loop fuel (round sock) tt

unfoldable pub after_socket : ℕ → ℕ → Text → Option ℕ → M (Unit {0})
after_socket fuel port text none = do say "call socket failed: %s.\n" (error ∷ []); exit 1
after_socket fuel port text (some sock) =
    number (bind sock (any_host port)) >>= after_bind fuel sock port text

-- `argv` holds the arguments behind the program's name.
unfoldable pub main : (Text → ℕ) → ℕ → List Text → M (Unit {0})
main atoi fuel (port ∷ []) =
    number (socket "AF_INET SOCK_DGRAM IPPROTO_UDP")
    >>= after_socket fuel (atoi port) (c_string port)
main atoi fuel argv = do say "Invalid input parameter.\n Usage: %s [PORT]\n\n" []; exit 1
