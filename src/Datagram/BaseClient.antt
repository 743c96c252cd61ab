-- ===== src/Datagram/BaseClient.antt =====
-- study-linux-kernel/socket/socket_dgram_base_client_v1.c, as built there: with VER_2, so with `send` and
-- `recv` on a connected socket.
use study_linux_kernel.Base.{ℕ, List, [], ◌∷◌, Option, none, some}
use study_linux_kernel.Sys.Calls.{
  Text, inet, int, str, peer, error, socket, connect, send, recv, read, close,
}
use study_linux_kernel.Sys.Monad.{
  M, pure, ◌>>=◌, ◌>>◌, exit, number, input, run, say, lift, string_in,
}
use study_linux_kernel.Sys.Loops.{Next, again, loop}

unfoldable pub on_reply : Text → ℕ → Option Text → M (Next (Unit {0}) (Unit {0}))
on_reply host port none = do say "call __recv failed: %s.\n" (error ∷ []); pure (again tt)
on_reply host port (some bytes) = do
  msg ← lift (string_in 1024 bytes)
  say "recv msg %s from %s:%d\n" (str msg ∷ peer (inet host port) ∷ int port ∷ [])
  pure (again tt)

unfoldable pub after_send : ℕ → Text → ℕ → Option ℕ → M (Next (Unit {0}) (Unit {0}))
after_send sock host port none = do say "call __send failed: %s.\n" (error ∷ []); pure (again tt)
after_send sock host port (some _) = input 1024 (recv sock 1024) >>= on_reply host port

unfoldable pub retry : M (Next (Unit {0}) (Unit {0}))
retry = do say "call read failed: %s.\n" (error ∷ []); pure (again tt)

unfoldable pub on_typed : ℕ → Text → ℕ → Option Text → M (Next (Unit {0}) (Unit {0}))
on_typed sock host port none = retry
on_typed sock host port (some []) = retry
on_typed sock host port (some (b ∷ bs)) = number (send sock (b ∷ bs)) >>= after_send sock host port

unfoldable pub round : ℕ → Text → ℕ → Unit {0} → M (Next (Unit {0}) (Unit {0}))
round sock host port _ = do
  say "please input any character: " []
  typed ← input 1024 (read 0 1024)
  on_typed sock host port typed

-- The loop is left by nothing, so `exit:` stands behind a failed `connect` only.
unfoldable pub after_connect : ℕ → ℕ → Text → ℕ → Option ℕ → M (Unit {0})
after_connect fuel sock host port none = do
  say "call connect failed: %s.\n" (error ∷ [])
  run (close sock)
  exit 1
after_connect fuel sock host port (some _) = loop fuel (round sock host port) tt

unfoldable pub after_socket : ℕ → Text → ℕ → Option ℕ → M (Unit {0})
after_socket fuel host port none = do say "call socket failed: %s.\n" (error ∷ []); exit 1
after_socket fuel host port (some sock) =
    number (connect sock (inet host port)) >>= after_connect fuel sock host port

-- `argv` holds the arguments behind the program's name.
unfoldable pub main : (Text → ℕ) → ℕ → List Text → M (Unit {0})
main atoi fuel (host ∷ port ∷ []) =
    number (socket "AF_INET SOCK_DGRAM IPPROTO_UDP") >>= after_socket fuel host (atoi port)
main atoi fuel argv = do say "Invalid input parameter.\nUsage:%s [IP] [PORT]" []; exit 1
