-- ===== src/PosixQueue/Send.antt =====
-- study-linux-kernel/ipc-posix-queue/pmsg_send.cpp
use Prim.Native.String.{String}
use study_linux_kernel.Base.{
  ℕ, List, [], ◌∷◌, Option, none, some, Bool, true, false, ◌==◌, if◌then◌else◌, c_string,
}
use study_linux_kernel.Base.Run.{null_pointer}
use study_linux_kernel.Sys.Calls.{Text, mq_open, mq_send}
use study_linux_kernel.Sys.Monad.{M, pure, ◌>>=◌, ◌>>◌, exit, undefined, number, say}

-- `Usage`
unfoldable pub usage : {A : Type 0} → M A
usage = do say "Usage: %s [-n] name msg [prio]\n" []; say "\t-n\t Use O_NONBLOCK flag\n" []; exit 1

-- The loop over the options; the flag says whether O_NONBLOCK is set so far.
unfoldable pub read_options : Bool → List (ℕ × Text) → M Bool
read_options nonblock [] = pure nonblock
read_options nonblock (opt ∷ opts) =
    let later : M Bool = read_options true opts in if opt.0 == b'n' then later else usage

unfoldable pub flags_of : Bool → List String
flags_of true = "O_NONBLOCK" ∷ "O_WRONLY" ∷ []
flags_of false = "O_WRONLY" ∷ []

-- `(argc > optind + 2) ? atoi(argv[optind + 2]): 0`
unfoldable pub prio_of : (Text → ℕ) → List Text → ℕ
prio_of atoi [] = 0
prio_of atoi (prio ∷ _) = atoi prio

unfoldable pub after_send : Option ℕ → M (Unit {0})
after_send none = exit 1
after_send (some _) = exit 0

-- Behind the name; with no message `argv[optind + 1]` is NULL.
unfoldable pub after_open : (Text → ℕ) → List Text → Option ℕ → M (Unit {0})
after_open atoi args none = exit 1
after_open atoi [] (some mqd) = undefined null_pointer
after_open atoi (msg ∷ args) (some mqd) =
    number (mq_send mqd (c_string msg) (prio_of atoi args)) >>= after_send

unfoldable pub open_queue : (Text → ℕ) → List Text → Bool → M (Unit {0})
open_queue atoi [] nonblock = usage
open_queue atoi (name ∷ args) nonblock =
    number (mq_open (c_string name) (flags_of nonblock) none none) >>= after_open atoi args

unfoldable pub main : (Text → ℕ) → List (ℕ × Text) → List Text → M (Unit {0})
main atoi opts args = read_options false opts >>= open_queue atoi args
