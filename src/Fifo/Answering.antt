-- ===== src/Fifo/Answering.antt =====
-- A request of study-linux-kernel/ipc-pipe/fifo-client.cpp at fifo-server.cpp, and its response at the
-- client.
use study_linux_kernel.Base.{
  ℕ, zero, suc, ◌-◌, ◌<◌, ◌≤◌, ◌≡◌, refl, List, [], ◌∷◌, ◌++◌, append-nil, some, false, length,
  take, take_all, drop, replicate, length-append, length-take, length-replicate, length-drop,
  has_nul, c_string, c_string_ended, has_nul_ended, has_nul-c_string, arith,
}
use study_linux_kernel.Base.Run.{ok, fault, out_of_bounds}
use study_linux_kernel.Sys.Calls.{Text, Reply, answer, made, printed, str, open_file, write, close}
use study_linux_kernel.Sys.Monad.{World, done, faulted, string_in}
use study_linux_kernel.Sys.Loops.{again}
use study_linux_kernel.Inotify.Encoding.{bytes_of, word-bytes_of}
use study_linux_kernel.Fifo.{client_pipe_path, strncpy, request, path_of, response}
use study_linux_kernel.Fifo.Client.{print_msg}
use study_linux_kernel.Fifo.Server
use study_linux_kernel.Fifo.Server.{on_request}

length-strncpy : (n : ℕ) (s : Text) → length (strncpy n s) ≡ n
unfolding strncpy
length-strncpy n s = omega (
  arith,
  length-append (take n s) (replicate (n - length s) 0),
  length-take n s,
  length-replicate {A = ℕ} (n - length s) 0,
)

length-request : (pid : ℕ) (msg : Text) → length (request pid msg) ≡ 20
unfolding request bytes_of
length-request pid msg = omega (arith, length-strncpy 16 (c_string msg))

-- The rest of the array behind a string that fits.
abbrev padding : Text → Text
padding s = replicate (15 - length s) 0

replicate_one : (n : ℕ) → replicate {A = ℕ} (suc n) 0 ≡ 0 ∷ replicate n 0
unfolding replicate
replicate_one n = refl

strncpy_fits : (s : Text) → length s < 16 → strncpy 16 s ≡ s ++ (0 ∷ padding s)
unfolding strncpy
strncpy_fits s h =
    let e : 16 - length s ≡ suc (15 - length s) = omega arith in
    rw (take_all 16 s (omega arith), e, replicate_one) refl

path_of-ok :
    (decimal : ℕ → Text) (pid : ℕ)
    → pid < 2147483648
    → path_of decimal pid ≡ ok (take 259 (client_pipe_path ++ (b'-' ∷ decimal pid)))
unfolding path_of
path_of-ok decimal pid h = ground arith

-- The bytes of a response to a text that fits.
abbrev answer_to : Text → Text → Text
answer_to old s = s ++ (0 ∷ drop (suc (length s)) old)

response_fits :
    (old msg : Text)
    → length (c_string msg) < 16
    → response old (c_string msg ++ (0 ∷ padding (c_string msg)))
      ≡ ok (answer_to old (c_string msg))
unfolding response
response_fits old msg h =
    rw
      (
        has_nul_ended (c_string msg) (padding (c_string msg)),
        c_string_ended msg (padding (c_string msg)),
        take_all 15 (c_string msg) (omega arith),
      )
      refl

string_in-answer_to :
    (old msg : Text) → string_in 16 (answer_to old (c_string msg)) ≡ ok (c_string msg)
unfolding string_in
string_in-answer_to old msg =
    rw
      (
        c_string_ended msg (drop (suc (length (c_string msg))) old),
        has_nul_ended (c_string msg) (drop (suc (length (c_string msg))) old),
      )
      (ground arith)

length-answer_to : (old s : Text) → length old ≡ 16 → length s < 16 → length (answer_to old s) ≡ 16
length-answer_to old s h k =
    omega (arith, length-append s (0 ∷ drop (suc (length s)) old), length-drop (suc (length s)) old)

print_msg-answer_to :
    (path old msg : Text) (v : World)
    → length old ≡ 16
    → length (c_string msg) < 16
    → print_msg path (some (answer_to old (c_string msg))) v
      ≡ done tt (record v { trace = printed "%s\n" (str (c_string msg) ∷ []) ∷ v.trace })
unfolding print_msg
print_msg-answer_to path old msg v h k =
    rw (length-answer_to old (c_string msg) h k, string_in-answer_to old msg) refl

-- A pid below 2^31 and a message that with its NUL fits in the 16 bytes of a request, whatever
-- stands in the 16 bytes of the response before: where the server can open, write whole and close,
-- it opens for the request that the client makes of them the path that the client names its own
-- FIFO by, writes there once and closes it, and the client prints of what was written its message
-- up to the NUL.
pub echoed :
    (decimal : ℕ → Text) (old : ℕ → Text) (n pid fd : ℕ) (msg : Text) (w : World)
    (rest : List Reply)
    → pid < 2147483648
    → length (c_string msg) < 16
    → length (old n) ≡ 16
    → w.replies ≡ answer fd ∷ answer 16 ∷ answer 0 ∷ rest
    → (path : Text) × (resp : Text) × (path_of decimal pid ≡ ok path)
      × (on_request decimal old n (some (request pid msg)) w
          ≡ done (again (suc n)) (record {
            replies = rest;
            trace =
                made (close fd) (answer 0)
                ∷ made (write fd resp) (answer 16)
                ∷ made (open_file path "O_WRONLY") (answer fd)
                ∷ w.trace;
            errno = w.errno;
          }))
      × ((v : World)
          → print_msg path (some resp) v
            ≡ done tt (record v { trace = printed "%s\n" (str (c_string msg) ∷ []) ∷ v.trace }))
unfolding on_request Server.answer Server.after_open Server.after_write Server.after_close request
echoed decimal old n pid fd msg w rest p f o e = (
  _,
  answer_to (old n) (c_string msg),
  path_of-ok decimal pid p,
  rw (length-request pid msg) (
      rw
        (
          strncpy_fits (c_string msg) f,
          word-bytes_of pid (c_string msg ++ (0 ∷ padding (c_string msg))) (omega (arith, p)),
          path_of-ok decimal pid p,
          e,
          response_fits (old n) msg f,
        )
        refl),
  λ v. print_msg-answer_to _ (old n) msg v o f,
)

has_nul-take : (n : ℕ) (s : Text) → has_nul s ≡ false → has_nul (take n s) ≡ false
unfolding has_nul take
has_nul-take zero s h = refl
has_nul-take (suc n) [] h = refl
has_nul-take (suc n) (b ∷ bs) h = ground (arith, has_nul-take n bs)

strncpy_full : (s : Text) → 16 ≤ length s → strncpy 16 s ≡ take 16 s
unfolding strncpy replicate
strncpy_full s h = let e : 16 - length s ≡ 0 = omega arith in rw (e, append-nil) refl

response_unended : (old msg : Text) → response old (take 16 (c_string msg)) ≡ fault out_of_bounds
unfolding response
response_unended old msg = rw (has_nul-take 16 (c_string msg) (has_nul-c_string msg)) refl

-- A pid that fits, and a message of 16 bytes or more: once the server has opened the path of the
-- request that the client makes of them, it reads past the end of the request.
pub overread :
    (decimal : ℕ → Text) (old : ℕ → Text) (n pid fd : ℕ) (msg : Text) (w : World)
    (rest : List Reply)
    → pid < 2147483648
    → 16 ≤ length (c_string msg)
    → w.replies ≡ answer fd ∷ rest
    → (path : Text) × (path_of decimal pid ≡ ok path)
      × (on_request decimal old n (some (request pid msg)) w
          ≡ faulted out_of_bounds (record {
            replies = rest;
            trace = made (open_file path "O_WRONLY") (answer fd) ∷ w.trace;
            errno = w.errno;
          }))
unfolding on_request Server.answer Server.after_open request
overread decimal old n pid fd msg w rest p f e = (
  _,
  path_of-ok decimal pid p,
  rw (length-request pid msg) (
      rw
        (
          strncpy_full (c_string msg) f,
          word-bytes_of pid (take 16 (c_string msg)) (omega (arith, p)),
          path_of-ok decimal pid p,
          e,
          response_unended (old n) msg,
        )
        refl),
)
