-- ===== src/Datagram/LocalServer.antt =====
-- study-linux-kernel/socket/socket_unixdomain_dgram_server.c
use study_linux_kernel.Base.{ℕ, List, [], ◌∷◌, Option, none, some, if◌then◌else◌, length, c_string}
use study_linux_kernel.Sys.Calls.{
  Text, Address, str, peer, error, received, socket, bind, recvfrom, sendto,
}
use study_linux_kernel.Sys.Monad.{M, pure, ◌>>=◌, ◌>>◌, exit, sys, number, say, lift, string_in}
use study_linux_kernel.Sys.Loops.{Next, again, finish, loop}
use study_linux_kernel.Pipe.Primer.{differs}
use study_linux_kernel.Datagram.Names.{name_of, path_of, leave}

-- `num_read != sendto(...)`
unfoldable pub after_sendto : Text → Option ℕ → M (Next (Unit {0}) (Unit {0}))
after_sendto bytes put =
    if differs put (length bytes)
    then (do say "sendto failed: %s" (error ∷ []); pure (again tt))
    else pure (again tt)

-- Four bytes are received at most, in an array of five.
unfoldable pub on_message : ℕ → Address → Option Text → M (Next (Unit {0}) (Unit {0}))
on_message sock from none = pure (finish tt)
on_message sock from (some []) = pure (finish tt)
on_message sock from (some (b ∷ bs)) = do
  msg ← lift (string_in 5 (b ∷ bs))
  say "recv message from (%s): %s\n" (peer from ∷ str msg ∷ [])
  number (sendto sock (b ∷ bs) from) >>= after_sendto (b ∷ bs)

unfoldable pub round : ℕ → Unit {0} → M (Next (Unit {0}) (Unit {0}))
round sock _ = do r ← sys (recvfrom sock 4); on_message sock r.sender (received 4 r)

unfoldable pub after_bind : ℕ → ℕ → Text → Option ℕ → M (Unit {0})
after_bind fuel sock text none = leave sock
after_bind fuel sock text (some _) = do
  say "bind to %s...\n" (str (c_string text) ∷ [])
  loop fuel (round sock) tt
  leave sock

unfoldable pub after_socket : ℕ → Text → Text → Option ℕ → M (Unit {0})
after_socket fuel name text none = exit 1
after_socket fuel name text (some sock) = do
  say "UNIX domain use abstract name.\n" []
  number (bind sock (path_of name)) >>= after_bind fuel sock text

-- `argv` holds the arguments behind the program's name.
unfoldable pub main : ℕ → List Text → M (Unit {0})
main fuel [] = do say "Invalid input parameter.\nUsage: %s [UNIX domain path].\n" []; exit 1
main fuel (text ∷ _) = do
  name ← lift (name_of 256 text)
  number (socket "AF_UNIX SOCK_DGRAM") >>= after_socket fuel name text
