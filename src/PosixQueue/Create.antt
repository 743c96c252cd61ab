-- ===== src/PosixQueue/Create.antt =====
-- study-linux-kernel/ipc-posix-queue/pmsg_create.cpp
use Prim.Native.String.{String}
use study_linux_kernel.Base.{
  ℕ, List, [], ◌∷◌, Option, none, some, Bool, true, false, ◌==◌, if◌then◌else◌, c_string,
}
use study_linux_kernel.Base.Run.{Run, ok, fault, indeterminate}
use study_linux_kernel.Sys.Calls.{Text, mq_open}
use study_linux_kernel.Sys.Monad.{M, pure, ◌>>=◌, ◌>>◌, exit, number, say, lift}

-- Whether the flags have O_CREAT and O_EXCL, and `attr` and `attrp`, which nothing sets before the loop.
pub record Options : Type 0 where
  pub create : Bool
  pub excl : Bool
  pub maxmsg : Option ℕ
  pub msgsize : Option ℕ
  pub attrp : Bool

abbrev pub no_options : Options
no_options = record { create = false; excl = false; maxmsg = none; msgsize = none; attrp = false }

-- `Usage`
unfoldable pub usage : {A : Type 0} → M A
usage = do
  say "Usage: %s [-cx] [-m maxmsg] [-s msgsize] mq-name [octal-perms]\n" []
  say "\t-c\tCreate queue (O_CREAT)\n" []
  say "\t-m maxmsg\tSet maximum # of message\n" []
  say "\t-s msgsize\t Set maximum message size\n" []
  say "\t-x\tCreate exclusively (O_EXCL)\n" []
  exit 1

-- An option of the `switch`; another one is `none`.
unfoldable pub take_option : (Text → ℕ) → Options → ℕ → Text → Option Options
take_option atoi o c optarg =
    if c == b'c'
    then some (record o { create = true })
    else if c == b'm'
    then some (record o { maxmsg = some (atoi optarg); attrp = true })
    else if c == b's'
    then some (record o { msgsize = some (atoi optarg); attrp = true })
    else if c == b'x'
    then some (record o { excl = true })
    else none

unfoldable pub read_options : (Text → ℕ) → Options → List (ℕ × Text) → M Options
read_options atoi o [] = pure o
read_options atoi o (opt ∷ opts) = elim (take_option atoi o opt.0 opt.1) [
  | none ↦ usage
  | some o' ↦ read_options atoi o' opts
]

-- `attrp` is passed on unset where neither -m nor -s is given, and `mq_open` reads both fields of `attr`
-- where the flags have O_CREAT.
unfoldable pub fields : Option ℕ → Option ℕ → Run (Option (ℕ × ℕ))
fields (some m) (some s) = ok (some (m, s))
fields (some m) none = fault indeterminate
fields none msgsize = fault indeterminate

unfoldable pub attributes : Options → Run (Option (ℕ × ℕ))
attributes o =
    if o.attrp
    then (if o.create then fields o.maxmsg o.msgsize else ok none)
    else fault indeterminate

unfoldable pub flags_of : Bool → Bool → List String
flags_of true true = "O_EXCL" ∷ "O_CREAT" ∷ "O_RDWR" ∷ []
flags_of true false = "O_CREAT" ∷ "O_RDWR" ∷ []
flags_of false true = "O_EXCL" ∷ "O_RDWR" ∷ []
flags_of false false = "O_RDWR" ∷ []

-- `(argc <= optind + 1) ? (S_IRUSR | S_IWUSR) : strtol(argv[optind + 1], &endptr, 8)`
unfoldable pub perms_of : (Text → ℕ) → List Text → ℕ
perms_of octal [] = 384
perms_of octal (perms ∷ _) = octal perms

unfoldable pub after_open : Option ℕ → M (Unit {0})
after_open none = exit 1
after_open (some _) = exit 0

unfoldable pub open_queue : (Text → ℕ) → List Text → Options → M (Unit {0})
open_queue octal [] o = usage
open_queue octal (name ∷ args) o = do
  attr ← lift (attributes o)
  number (mq_open (c_string name) (flags_of o.create o.excl) (some (perms_of octal args)) attr)
      >>= after_open

unfoldable pub main : (Text → ℕ) → (Text → ℕ) → List (ℕ × Text) → List Text → M (Unit {0})
main atoi octal opts args = read_options atoi no_options opts >>= open_queue octal args
