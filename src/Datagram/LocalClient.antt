-- ===== src/Datagram/LocalClient.antt =====
-- study-linux-kernel/socket/socket_unixdomain_dgram_client.c
use study_linux_kernel.Base.{ℕ, List, [], ◌∷◌, Option, none, some, if◌then◌else◌, length, c_string}
use study_linux_kernel.Sys.Calls.{
  Text, Address, str, peer, received, socket, bind, recvfrom, sendto, read,
}
use study_linux_kernel.Sys.Monad.{
  M, pure, ◌>>=◌, ◌>>◌, exit, sys, number, input, say, lift, string_in,
}
use study_linux_kernel.Sys.Loops.{Next, again, finish, loop}
use study_linux_kernel.Pipe.Primer.{differs}
use study_linux_kernel.Datagram.Names.{name_of, path_of, leave}

unfoldable pub on_reply : Address → Option Text → M (Next (Unit {0}) (Unit {0}))
on_reply from none = pure (finish tt)
on_reply from (some []) = pure (finish tt)
on_reply from (some (b ∷ bs)) = do
  msg ← lift (string_in 1024 (b ∷ bs))
  say "recv message from (%s): %s\n" (peer from ∷ str msg ∷ [])
  pure (again tt)

unfoldable pub hear : ℕ → M (Next (Unit {0}) (Unit {0}))
hear sock = do r ← sys (recvfrom sock 1024); on_reply r.sender (received 1024 r)

-- `num_read != sendto(...)`
unfoldable pub after_sendto : ℕ → Text → Option ℕ → M (Next (Unit {0}) (Unit {0}))
after_sendto sock bytes put = if differs put (length bytes) then pure (finish tt) else hear sock

unfoldable pub on_typed : ℕ → Text → Option Text → M (Next (Unit {0}) (Unit {0}))
on_typed sock server none = pure (again tt)
on_typed sock server (some []) = pure (again tt)
on_typed sock server (some (b ∷ bs)) =
    number (sendto sock (b ∷ bs) (path_of server)) >>= after_sendto sock (b ∷ bs)

unfoldable pub round : ℕ → Text → Unit {0} → M (Next (Unit {0}) (Unit {0}))
round sock server _ = do
  say "Please input msg:" []
  typed ← input 1024 (read 0 1024)
  on_typed sock server typed

unfoldable pub after_bind : ℕ → ℕ → Text → Text → Option ℕ → M (Unit {0})
after_bind fuel sock server text none = leave sock
after_bind fuel sock server text (some _) = do
  say "bind to %s...\n" (str (c_string text) ∷ [])
  loop fuel (round sock server) tt
  leave sock

unfoldable pub after_socket : ℕ → Text → Text → Text → Option ℕ → M (Unit {0})
after_socket fuel server name text none = exit 1
after_socket fuel server name text (some sock) = do
  say "UNIX domain use abstract name.\n" []
  number (bind sock (path_of name)) >>= after_bind fuel sock server text

unfoldable pub usage : M (Unit {0})
usage = do
  say "Invalid input parameter.\nUsage: %s [UNIX domain pair end path] [UNIX domain path].\n" []
  exit 1

-- `argv` holds the arguments behind the program's name.
unfoldable pub main : ℕ → List Text → M (Unit {0})
main fuel (other_end ∷ own ∷ _) = do
  server ← lift (name_of 256 other_end)
  name ← lift (name_of 256 own)
  number (socket "AF_UNIX SOCK_DGRAM") >>= after_socket fuel server name own
main fuel argv = usage
