-- ===== src/Sys/Calls.antt =====
-- The calls that the programs under study-linux-kernel/ make, and the replies to them.
-- A descriptor, a process or a thread is its number. A text is its bytes.
use Prim.Native.String.{String}
use study_linux_kernel.Base.{ℕ, List, [], Option, none, some, take}

abbrev pub Text : Type 0
Text = List ℕ

-- `struct sockaddr_in` as an IP address, as text or as a number, with a port, or a path.
pub data Address : Type 0 where
  any_host : ℕ → Address
  inet : Text → ℕ → Address
  local : Text → Address

-- An argument of a printed line; `error` is `strerror(errno)`.
pub data Arg : Type 0 where
  int : ℕ → Arg
  str : Text → Arg
  peer : Address → Arg
  error : Arg

-- Flags, modes and handlers are named as in the source.
pub data Call : Type 0 where
  open_file : Text → String → Call
  read : ℕ → ℕ → Call
  write : ℕ → Text → Call
  close : ℕ → Call
  unlink : Text → Call
  pipe : Call
  fork : Call
  wait : Call
  execute : String → Call
  sleep : ℕ → Call
  fcntl : ℕ → String → Call
  sigaction : ℕ → String → Call
  sigprocmask : String → Call
  raise : ℕ → Call
  socket : String → Call
  bind : ℕ → Address → Call
  listen : ℕ → ℕ → Call
  accept : ℕ → Call
  connect : ℕ → Address → Call
  recv : ℕ → ℕ → Call
  send : ℕ → Text → Call
  recvfrom : ℕ → ℕ → Call
  sendto : ℕ → Text → Address → Call
  select : List ℕ → List ℕ → Call
  poll : List ℕ → Call
  epoll_create : Call
  epoll_add : ℕ → ℕ → Call
  epoll_wait : ℕ → Option ℕ → Call
  lock : Call
  unlock : Call
  spawn : ℕ → Call
  getpeername : ℕ → Call
  getpid : Call
  mkfifo : Text → Call
  dup2 : ℕ → ℕ → Call
  socketpair : String → Call
  mq_open : Text → List String → Option ℕ → Option (ℕ × ℕ) → Call
  mq_send : ℕ → Text → ℕ → Call
  inotify_init : Call
  inotify_add_watch : ℕ → Text → String → Call
  popen : Text → Call
  fgets : ℕ → ℕ → Call
  pclose : ℕ → Call
  other : String → Call

-- The answer: -1 with `errno`, which is `none`, or a number. With it come the bytes and the sender
-- that a reading call stores, and the descriptors that a waiting call finds ready.
pub record Reply : Type 0 where
  pub result : Option ℕ
  pub errno : ℕ
  pub bytes : Text
  pub sender : Address
  pub readable : List ℕ
  pub writable : List ℕ

-- What a reading call with room for `n` bytes stores. The number that it returns is their count.
abbrev pub received : ℕ → Reply → Option Text
received n r = elim r.result [ none ↦ none | some _ ↦ some (take n r.bytes) ]

-- A call with its reply, or a line printed on a stream.
pub data Event : Type 0 where
  made : Call → Reply → Event
  printed : String → List Arg → Event

-- The events so far, the newest first.
abbrev pub Trace : Type 0
Trace = List Event

-- Replies to write in tests.
abbrev pub answer : ℕ → Reply
answer n = record {
  result = some n;
  errno = 0;
  bytes = [];
  sender = any_host 0;
  readable = [];
  writable = [];
}

abbrev pub failure : ℕ → Reply
failure e = record (answer 0) { result = none; errno = e }

abbrev pub arrival : Text → Reply
arrival bs = record (answer 0) { bytes = bs }
