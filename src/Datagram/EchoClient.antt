-- ===== src/Datagram/EchoClient.antt =====
-- study-linux-kernel/socket/echo_dgram_client.c
pub mod Talking
use study_linux_kernel.Base.{ℕ, List, [], ◌∷◌, Option, none, some, c_string}
use study_linux_kernel.Sys.Calls.{Text, str, error, inet, socket, connect, send, recv, close}
use study_linux_kernel.Sys.Monad.{
  M, pure, ◌>>=◌, ◌>>◌, exit, number, input, run, say, lift, string_in,
}

-- `exit:`
unfoldable pub leave : ℕ → M (Unit {0})
leave sock = do run (close sock); exit 0

-- Behind the loop, and where it is left by `break`.
unfoldable pub finish_line : ℕ → M (Unit {0})
finish_line sock = do say "\n" []; leave sock

unfoldable pub on_reply : ℕ → M (Unit {0}) → Option Text → M (Unit {0})
on_reply sock later none = finish_line sock
on_reply sock later (some bytes) = do
  message ← lift (string_in 1024 bytes)
  say "%s " (str message ∷ [])
  later

unfoldable pub after_send : ℕ → M (Unit {0}) → Option ℕ → M (Unit {0})
after_send sock later none = do
  say "error: message not sendto successfully! %s\n" (error ∷ [])
  finish_line sock
after_send sock later (some _) = input 1024 (recv sock 1024) >>= on_reply sock later

-- The loop over the arguments; `sendto` and `recvfrom` without an address are `send` and `recv`.
unfoldable pub talk : ℕ → List Text → M (Unit {0})
talk sock [] = finish_line sock
talk sock (m ∷ ms) =
    let later : M (Unit {0}) = talk sock ms in
    number (send sock (c_string m)) >>= after_send sock later

unfoldable pub after_connect : ℕ → List Text → Option ℕ → M (Unit {0})
after_connect sock ms none = leave sock
after_connect sock ms (some _) = talk sock ms

unfoldable pub after_socket : Text → ℕ → List Text → Option ℕ → M (Unit {0})
after_socket host port ms none = exit 1
after_socket host port ms (some sock) =
    number (connect sock (inet host port)) >>= after_connect sock ms

unfoldable pub usage : M (Unit {0})
usage = do say "invalid input parameter!\nUsage: %s [host] [port] [message]\n" []; exit 1

-- `argv` holds the arguments behind the program's name.
unfoldable pub main : (Text → ℕ) → List Text → M (Unit {0})
main atoi (host ∷ port ∷ m ∷ ms) =
    number (socket "AF_INET SOCK_DGRAM") >>= after_socket host (atoi port) (m ∷ ms)
main atoi argv = usage
