-- ===== src/Datagram/Names.antt =====
-- The abstract names of socket_unixdomain_dgram_server.c and socket_unixdomain_dgram_client.c in
-- study-linux-kernel/socket/, as built there: with USE_ABSTRACT_NAME.
use study_linux_kernel.Base.{ℕ, ◌+◌, [], ◌∷◌, leb, if◌then◌else◌, drop, c_string}
use study_linux_kernel.Base.Run.{Run, ok, fault, buffer_overflow}
use study_linux_kernel.Sys.Calls.{Text, Address, local, error, close}
use study_linux_kernel.Sys.Monad.{M, ◌>>◌, exit, run, say}
use study_linux_kernel.Fifo.{strncpy}

-- `strncpy(&name[1], s, sizeof name)`, which stores as many bytes as it is told, into a zeroed array of
-- `size` bytes.
unfoldable pub name_of : ℕ → Text → Run Text
name_of size s =
    if leb (1 + size) size then ok (0 ∷ strncpy size (c_string s)) else fault buffer_overflow

-- `strncpy(&un.sun_path[1], &name[1], sizeof(un.sun_path) - 2)` for the 108 bytes of `sun_path`.
unfoldable pub path_of : Text → Address
path_of name = local (0 ∷ strncpy 106 (c_string (drop 1 name)))

-- `exit:`
unfoldable pub leave : ℕ → M (Unit {0})
leave sock = do say "exit: %s\n" (error ∷ []); run (close sock); exit 0
