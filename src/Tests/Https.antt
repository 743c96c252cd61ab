-- ===== src/Tests/Https.antt =====
-- The servers over `select`, and the texts that one of them reads and writes.
use study_linux_kernel.Base.{ℕ, ◌<◌, ◌≡◌, refl, [], ◌∷◌, Option, none, some, true, ◌⊎◌, mem, arith}
use study_linux_kernel.Sys.Calls.{Text, Reply, Address, answer, arrival}
use study_linux_kernel.Sys.Monad.{World}
use study_linux_kernel.Sys.Loops.{Ends}
use study_linux_kernel.SelectServer.{max_fd}
use study_linux_kernel.SelectServer.Watching
use study_linux_kernel.SelectServer.Safety.{stops}
use study_linux_kernel.Http.Text.{strip, splitstr, is_empty_char}
use study_linux_kernel.Http.Text.Trimming
use study_linux_kernel.Http.Text.Rejoining.{join}
use study_linux_kernel.Http.Text.Pieces
use study_linux_kernel.Http.Request.{get, HttpRequest}
use study_linux_kernel.Http.Request.Parsing.{Request}
use study_linux_kernel.Http.Response.{new_request}
use study_linux_kernel.Http.Response.Messages
use study_linux_kernel.Http.Request.Whole
use study_linux_kernel.Http.Response.Answering.{Answers}
use study_linux_kernel.Http.Server
use study_linux_kernel.Http.Server.Known
use study_linux_kernel.Http.Server.Serving
use study_linux_kernel.Broadcast.{thread_func}
use study_linux_kernel.Broadcast.Serving.{Lines, broadcast-Uses}

strip_lem_example :
    (strip (b' ' ∷ b'a' ∷ b'x' ∷ b'c' ∷ 10 ∷ []) true ≡ b'a' ∷ b'x' ∷ b'c' ∷ [])
    × (strip (b' ' ∷ b'a' ∷ 10 ∷ []) true ≡ b'a' ∷ 10 ∷ [])
    × (strip (b' ' ∷ []) true ≡ [])
unfolding is_empty_char
strip_lem_example =
    Trimming.strip_lem (b' ' ∷ []) (b'x' ∷ []) (10 ∷ []) b'a' b'c' (refl, tt) (refl, tt) refl refl
      (omega arith)

splitstr-join_example :
    splitstr (join (b' ' ∷ []) ((b'G' ∷ []) ∷ (b'/' ∷ []) ∷ (b'1' ∷ []) ∷ [])) (b' ' ∷ []) none
    ≡ (b'G' ∷ []) ∷ (b'/' ∷ []) ∷ (b'1' ∷ []) ∷ []
unfolding join
splitstr-join_example =
    Pieces.splitstr-join [] b' ' (b'G' ∷ []) ((b'/' ∷ []) ∷ (b'1' ∷ []) ∷ []) tt
      ((refl, tt), refl, ((tt), refl, tt)) (omega arith)

max_fd_lem_example :
    ((5 < max_fd 0 (4 ∷ 5 ∷ [])) ⊎ ((max_fd 0 (4 ∷ 5 ∷ []) ≡ 5) × (mem 4 (4 ∷ 5 ∷ []) ≡ true)))
    × (max_fd 0 (5 ∷ 6 ∷ []) ≡ 6)
unfolding mem
max_fd_lem_example = Watching.max_fd_lem (4 ∷ 5 ∷ []) 5 (omega arith, (omega arith, tt)) refl

abbrev digits : ℕ → Text
digits n = n ∷ []

abbrev no_files : Text → Option Text
no_files path = none

abbrev page_request : HttpRequest
page_request = record new_request {
  header = record (new_request.header) { method = some get; resource = b'/' ∷ b'a' ∷ [] };
}

-- "GET / 1" with the line "Host: ab".
abbrev plain_request : Request
plain_request = record {
  method_text = b'G' ∷ b'E' ∷ b'T' ∷ [];
  resource = b'/' ∷ [];
  query = none;
  version = b'1' ∷ [];
  first_line = record {
    name = record { first = b'H'; inner = b'o' ∷ b's' ∷ []; last = b't' };
    value = record { first = b'a'; inner = []; last = b'b' };
  };
  lines = [];
}

-- Descriptor 4 arrives, is found readable, and sends `bytes`.
abbrev arriving : Reply
arriving = record (answer 0) { readable = 4 ∷ [] }

abbrev ready_to_read : Reply
ready_to_read = record (answer 1) { readable = 4 ∷ [] }

abbrev one_request : World
one_request = record {
  replies =
      arriving
      ∷ ready_to_read
      ∷ answer 0
      ∷ arrival (b'G' ∷ b'E' ∷ b'T' ∷ [])
      ∷ answer 0
      ∷ answer 0
      ∷ [];
  trace = [];
  errno = 0;
}

abbrev address_text : Address → Text
address_text a = b'7' ∷ []

thread_func-Uses_example :
    Ends
      (λ _ _. ⊥)
      (stops (Known.Answers digits no_files))
      (Server.thread_func digits no_files address_text address_text 7 one_request)
thread_func-Uses_example =
    Serving.thread_func-Uses digits no_files address_text address_text 7 one_request (omega arith)
      refl

-- A line goes to descriptor 4.
abbrev one_line_typed : World
one_line_typed = record {
  replies =
      arriving
      ∷ record (answer 2) { readable = 0 ∷ []; writable = 4 ∷ [] }
      ∷ arrival (b'h' ∷ b'i' ∷ [])
      ∷ answer 0
      ∷ answer 2
      ∷ answer 0
      ∷ [];
  trace = [];
  errno = 0;
}

broadcast-Uses_example : Ends (λ _ _. ⊥) (stops Lines) (thread_func 7 one_line_typed)
broadcast-Uses_example = broadcast-Uses 7 one_line_typed (omega arith) refl
