-- ===== src/Tests/Stale.antt =====
-- Runs of the two servers over `select` that send what was not meant for the receiver.
use study_linux_kernel.Base.{
  ℕ, ◌≡◌, refl, List, [], ◌∷◌, none, mem, c_string, take, has_nul, str_eq, utf8, utf8_char, drop,
}
use study_linux_kernel.Sys.Calls.{
  Text, Reply, Address, Trace, made, send, close, answer, failure, arrival,
}
use study_linux_kernel.Sys.Monad.{World, Outcome, done, exited, blocked, faulted, unfinished}
use study_linux_kernel.Sys.Loops.{loop}
use study_linux_kernel.SelectServer.{
  round_of, insert_all, insert_fd, watch, set_all, fd_index, on_selected, serve_locked, serve_each,
  keep_or_close, max_fd,
}
use study_linux_kernel.Sys.Monad.{string_in}
use study_linux_kernel.Broadcast
use study_linux_kernel.Http.Text.{
  substr, is_empty_char, note, find_edges, count_of, start_of, strip_ends, strip, spend, found,
  slide, cut, push_char, split_loop, splitstr,
}
use study_linux_kernel.Http.Request.{
  starts_nocase, method_of, find, insert, value_at, insert_pair, add_stripped, add_line, add_lines,
  set_url, set_host, read_lines, parse_request_info, parse_lines, parse_http_request_header,
  body_of, parse_parts, parse_http_request,
}
use study_linux_kernel.Http.Response.{
  get_code_desc, welcome_page, response_text, finish_response, page, get_page, answer_method,
  make_http_response, respond,
}
use study_linux_kernel.Http.Server

-- The `send` and `close` calls of a run that waits, the newest first.
abbrev outputs : Trace → List (ℕ × Text)
outputs [] = []
outputs (made (send fd text) r ∷ past) = (fd, text) ∷ outputs past
outputs (x ∷ past) = outputs past

abbrev outputs_of : Outcome (Unit {0}) → List (ℕ × Text)
outputs_of (blocked c w) = outputs w.trace
outputs_of (done a w) = []
outputs_of (exited n w) = []
outputs_of (faulted e w) = []
outputs_of (unfinished w) = []

abbrev ready : List ℕ → List ℕ → Reply
ready rs ws = record (answer 1) { readable = rs; writable = ws }

-- Descriptors 4 and 6 are accepted, and only 4 is writable.
abbrev one_slow : World
one_slow = record {
  replies =
      ready (4 ∷ 6 ∷ []) []
      ∷ ready (0 ∷ []) (4 ∷ [])
      ∷ arrival (b'h' ∷ b'i' ∷ [])
      ∷ answer 0
      ∷ answer 2
      ∷ answer 0
      ∷ ready [] (4 ∷ [])
      ∷ answer 0
      ∷ answer 2
      ∷ answer 0
      ∷ ready [] (6 ∷ [])
      ∷ answer 0
      ∷ answer 0
      ∷ [];
  trace = [];
  errno = 0;
}

-- The line goes to 4 twice, and to 6 never.
line_twice :
    outputs_of (Broadcast.thread_func 20 one_slow)
    ≡ (4, b'h' ∷ b'i' ∷ []) ∷ (4, b'h' ∷ b'i' ∷ []) ∷ []
unfolding Broadcast.thread_func loop round_of insert_all insert_fd watch set_all fd_index
    on_selected Broadcast.on_ready Broadcast.take_line mem serve_locked serve_each
    Broadcast.serve_one Broadcast.send_all Broadcast.send_last Broadcast.after_send
    Broadcast.line_of Broadcast.purge keep_or_close max_fd c_string take
line_twice = refl

-- Descriptors that were written to, as (0, fd), or closed, as (1, fd), the newest first.
abbrev marks : Trace → List (ℕ × ℕ)
marks [] = []
marks (made (send fd text) r ∷ past) = (0, fd) ∷ marks past
marks (made (close fd) r ∷ past) = (1, fd) ∷ marks past
marks (x ∷ past) = marks past

abbrev marks_of : Outcome (Unit {0}) → List (ℕ × ℕ)
marks_of (blocked c w) = marks w.trace
marks_of (done a w) = []
marks_of (exited n w) = []
marks_of (faulted e w) = []
marks_of (unfinished w) = []

-- "GET / 1", "A: b", and a blank line, on a connection that is closed by its peer before the answer
-- can be sent; then descriptor 4 is a new connection, which asks nothing.
abbrev second_visitor : World
second_visitor = record {
  replies =
      ready (4 ∷ []) []
      ∷ ready (4 ∷ []) []
      ∷ answer 0
      ∷ arrival (
          b'G' ∷ b'E' ∷ b'T' ∷ b' ' ∷ b'/' ∷ b' ' ∷ b'1' ∷ 13 ∷ 10 ∷ b'A' ∷ b':' ∷ b' ' ∷ b'b'
          ∷ b'c' ∷ 13 ∷ 10 ∷ 13 ∷ 10 ∷ [])
      ∷ answer 0
      ∷ answer 0
      ∷ ready (4 ∷ []) []
      ∷ answer 0
      ∷ failure 104
      ∷ answer 0
      ∷ answer 0
      ∷ ready (4 ∷ []) []
      ∷ ready [] (4 ∷ [])
      ∷ answer 0
      ∷ answer 1
      ∷ answer 0
      ∷ answer 0
      ∷ [];
  trace = [];
  errno = 0;
}

abbrev any_text : Address → Text
any_text a = b'7' ∷ []

-- The new connection is sent the answer to the old one's request.
stale_answer :
    marks_of (Server.thread_func (λ n. n ∷ []) (λ path. none) any_text any_text 20 second_visitor)
    ≡ (1, 4) ∷ (0, 4) ∷ (1, 4) ∷ []
unfolding Server.thread_func loop round_of insert_all insert_fd watch set_all fd_index on_selected
    Server.on_ready mem serve_locked serve_each Server.serve_one Server.send_all Server.after_send
    Server.receive Server.on_received Server.get_remote_host Server.host_text keep_or_close max_fd
    c_string take has_nul str_eq string_in utf8 utf8_char drop substr is_empty_char note find_edges
    count_of start_of strip_ends strip spend found slide cut push_char split_loop splitstr
    starts_nocase method_of find insert value_at insert_pair add_stripped add_line add_lines set_url
    set_host read_lines parse_request_info parse_lines parse_http_request_header body_of parse_parts
    parse_http_request get_code_desc welcome_page response_text finish_response page get_page
    answer_method make_http_response respond
stale_answer = refl
