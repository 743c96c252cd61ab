-- ===== src/PosixQueue/Calling.antt =====
-- How the programs of study-linux-kernel/ipc-posix-queue/ end.
use study_linux_kernel.Base.{ℕ, ◌≡◌, refl, List, [], ◌∷◌, Option, none, some, true, c_string, arith}
use study_linux_kernel.Base.Run.{ok, null_pointer}
use study_linux_kernel.Sys.Calls.{Text, Reply, made, mq_open, answer}
use study_linux_kernel.Sys.Monad.{World, faulted}
use study_linux_kernel.PosixQueue.Send
use study_linux_kernel.PosixQueue.Create.{Options, attributes, fields}

-- A queue that is opened with no message to send: the message is read through NULL.
pub no_message :
    (atoi : Text → ℕ) (name : Text) (mqd : ℕ) (w : World) (rest : List Reply)
    → w.replies ≡ answer mqd ∷ rest
    → Send.main atoi [] (name ∷ []) w
      ≡ faulted null_pointer (record {
        replies = rest;
        trace = made (mq_open (c_string name) ("O_WRONLY" ∷ []) none none) (answer mqd) ∷ w.trace;
        errno = w.errno;
      })
unfolding Send.main Send.read_options Send.open_queue Send.after_open Send.flags_of
no_message atoi name mqd w rest e = rw e refl

-- Without both -m and -s a queue cannot be created, and without either it cannot be opened: `attr` or
-- `attrp` is used unset.
pub unset_attributes :
    (o : Options) (a : Option (ℕ × ℕ))
    → attributes o ≡ ok a
    → (o.attrp ≡ true)
      × (o.create ≡ true
          → (m : ℕ) × (s : ℕ) × (a ≡ some (m, s)) × (o.maxmsg ≡ some m) × (o.msgsize ≡ some s))
unfolding attributes fields
unset_attributes o a e = ground arith
