-- ===== src/Tests/Pipes.antt =====
-- The programs of study-linux-kernel/ipc-pipe, against concrete replies.
use Prim.Native.String.{String}
use study_linux_kernel.Base.{◌≡◌, refl, List, [], ◌∷◌, ℕ, Option, some, arith, c_string, replicate}
use study_linux_kernel.Base.Run.{ok}
use study_linux_kernel.Sys.Calls.{
  Text, Reply, answer, failure, made, printed, str, open_file, write, close, pipe,
}
use study_linux_kernel.Sys.Monad.{World, done}
use study_linux_kernel.Sys.Loops.{Never, again, Ends}
use study_linux_kernel.Sys.Exchange.{history}
use study_linux_kernel.Sys.Discipline.{Keeps}
use study_linux_kernel.Fifo.{request, path_of}
use study_linux_kernel.Fifo.Client
use study_linux_kernel.Fifo.Server
use study_linux_kernel.Fifo.Answering
use study_linux_kernel.Fifo.Leaving
use study_linux_kernel.Pipe.Sync
use study_linux_kernel.Pipe.Sync.Seen.{children, EachOf}
use study_linux_kernel.Pipe.Sync.Sleeping.{Woke}
use study_linux_kernel.Pipe.Sync.Ready
use study_linux_kernel.Pipe.Filter
use study_linux_kernel.Pipe.Filter.Ends

abbrev hi : Text
hi = b'h' ∷ b'i' ∷ []

abbrev fresh : List Reply → World
fresh rs = record { replies = rs; trace = []; errno = 0 }

-- One digit.
abbrev digit : ℕ → Text
digit n = b'7' ∷ []

abbrev stack : ℕ → Text
stack n = replicate 16 255

echoed_example :
    (path : Text) × (resp : Text) × (path_of digit 7 ≡ ok path)
    × (Server.on_request digit stack 0
          (some (request 7 hi))
          (fresh (answer 5 ∷ answer 16 ∷ answer 0 ∷ []))
        ≡ done (again 1) (record {
          replies = [];
          trace =
              made (close 5) (answer 0)
              ∷ made (write 5 resp) (answer 16)
              ∷ made (open_file path "O_WRONLY") (answer 5)
              ∷ [];
          errno = 0;
        }))
    × ((v : World)
        → Client.print_msg path (some resp) v
          ≡ done tt (record v { trace = printed "%s\n" (str (c_string hi) ∷ []) ∷ v.trace }))
unfolding c_string replicate
echoed_example =
    Answering.echoed digit stack 0 7 5 hi (fresh (answer 5 ∷ answer 16 ∷ answer 0 ∷ [])) []
      (omega arith) (omega arith) refl refl

-- The server's FIFO is not there.
abbrev no_server : World
no_server = fresh (answer 0 ∷ answer 7 ∷ answer 0 ∷ answer 0 ∷ failure 2 ∷ answer 0 ∷ [])

main-Cleared_example : Ends Never Leaving.exits (Client.main digit (hi ∷ []) no_server)
main-Cleared_example = Leaving.main-Cleared digit (hi ∷ []) no_server refl

abbrev day : ℕ → Option ℕ
day t = some t

abbrev clock : ℕ → String → ℕ → Text
clock size format tm = b'9' ∷ []

abbrev five : Text → ℕ
five text = 5

-- One child, which sleeps, tells the time and closes its end; then the parent's `read` returns 0.
abbrev sleeper : ℕ → World
sleeper i = fresh (answer 0 ∷ answer 0 ∷ answer 1 ∷ answer 8 ∷ answer 0 ∷ [])

abbrev waiter : World
waiter = fresh (answer 8 ∷ answer 0 ∷ answer 0 ∷ answer 0 ∷ answer 1 ∷ [])

ready_last_example :
    (children (history (Sync.spawn day clock five 1 (hi ∷ []) 3 4 waiter)) ≡ 1)
    × EachOf
        (λ i arg.
          Woke day clock five 3 4 arg (history (Sync.child day clock five i arg 3 4 (sleeper i))))
        1
        (hi ∷ [])
unfolding Sync.spawn Sync.branch Sync.wait_for_all Sync.after_close Sync.after_read Sync.ready
    Sync.curr_time Sync.said Sync.format_time Sync.stored Sync.child Sync.child_works Sync.announce
    Sync.child_done
ready_last_example =
    Ready.ready_last day clock five 3 4 (hi ∷ []) sleeper waiter _ refl (λ i. refl) (ground arith)
      refl refl (λ seen. (refl, tt))

-- The first child, at the call that replaces it.
abbrev lister : World
lister = record {
  replies = answer 0 ∷ answer 0 ∷ answer 1 ∷ answer 0 ∷ [];
  trace = made pipe (answer 0) ∷ [];
  errno = 0;
}

after_pipe-Keeps_example : Keeps (Ends.Allowed 3 4) Never (Filter.after_pipe 3 4 (some 0) lister)
after_pipe-Keeps_example = Ends.after_pipe-Keeps 3 4 (some 0) lister (tt, tt)
