-- ===== src/Datagram/Overlong.antt =====
-- The names of socket_unixdomain_dgram_server.c and socket_unixdomain_dgram_client.c in
-- study-linux-kernel/socket/.
use study_linux_kernel.Base.{ℕ, ◌≡◌, refl, List, ◌∷◌}
use study_linux_kernel.Base.Run.{fault, buffer_overflow}
use study_linux_kernel.Sys.Calls.{Text}
use study_linux_kernel.Sys.Monad.{World, faulted}
use study_linux_kernel.Datagram.Names
use study_linux_kernel.Datagram.LocalServer
use study_linux_kernel.Datagram.LocalClient

strncpy_out : (s : Text) → Names.name_of 256 s ≡ fault buffer_overflow
unfolding Names.name_of
strncpy_out s = refl

-- Where there are names on their command lines, the server and the client with abstract names store one
-- byte past the end of an array before they do anything else.
pub overlong_names :
    (fuel : ℕ) (server own : Text) (more : List Text) (w : World)
    → (LocalServer.main fuel (server ∷ more) w ≡ faulted buffer_overflow w)
      × (LocalClient.main fuel (server ∷ own ∷ more) w ≡ faulted buffer_overflow w)
unfolding LocalServer.main LocalClient.main
overlong_names fuel server own more w = (rw (strncpy_out server) refl, rw (strncpy_out server) refl)
