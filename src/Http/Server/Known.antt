-- ===== src/Http/Server/Known.antt =====
-- The answers that the serving thread of study-linux-kernel/socket/socket-server-http-select.cpp may send.
use study_linux_kernel.Base.{ℕ, ◌≡◌, [], ◌∷◌, ◌++◌, Option, some, inr, c_string}
use study_linux_kernel.Base.Run.{ok}
use study_linux_kernel.Sys.Calls.{Event, Reply, Text, Trace, made, recv, received}
use study_linux_kernel.Sys.Monad.{string_in}
use study_linux_kernel.SelectServer.Safety.{Happened}
use study_linux_kernel.Http.Response.{respond}
use study_linux_kernel.Http.Server.{Messages}

module _ (decimal : ℕ → Text) (file_at : Text → Option Text) where
  -- The answer to a request that was received on the descriptor.
  pub record AnswerTo (fd : ℕ) (text : Text) (past : Trace) : Type 0 where
    pub msg : Text
    pub host : Text
    pub reply : Reply
    pub bytes : Text
    pub heard : Happened (made (recv fd 4096) reply) past
    pub stored : received 4096 reply ≡ some bytes
    pub ended : string_in 4096 bytes ≡ ok msg
    pub made_by : respond decimal file_at msg host ≡ ok text

  -- What is sent is such an answer, up to its first NUL.
  abbrev pub Answers : ℕ → Text → Trace → Type 0
  Answers fd sent past = (text : Text) × AnswerTo fd text past × (sent ≡ c_string text)

  -- The messages that may be sent.
  abbrev pub Known : Messages → Trace → Type 0
  Known [] past = Unit {0}
  Known ((to, text) ∷ more) past = AnswerTo to text past × Known more past

  -- A longer history allows no less.
  pub grow : (q : Messages) (x : Event) (past : Trace) → Known q past → Known q (x ∷ past)
  grow [] x past k = tt
  grow ((to, text) ∷ more) x past (a, k) = (
    record {
      msg = a.msg;
      host = a.host;
      reply = a.reply;
      bytes = a.bytes;
      heard = inr a.heard;
      stored = a.stored;
      ended = a.ended;
      made_by = a.made_by;
    },
    grow more x past k,
  )

  pub Known-head :
      (kept : Messages) (to : ℕ) (text : Text) (more : Messages) (past : Trace)
      → Known (kept ++ ((to, text) ∷ more)) past
      → AnswerTo to text past
  Known-head [] to text more past k = k.0
  Known-head (_ ∷ kept) to text more past k = Known-head kept to text more past k.1

  pub Known-rest :
      (kept : Messages) (to : ℕ) (text : Text) (more : Messages) (past : Trace)
      → Known (kept ++ ((to, text) ∷ more)) past
      → Known (kept ++ more) past
  Known-rest [] to text more past k = k.1
  Known-rest (_ ∷ kept) to text more past k = (k.0, Known-rest kept to text more past k.1)

  pub Known-snoc :
      (q : Messages) (to : ℕ) (text : Text) (past : Trace)
      → Known q past
      → AnswerTo to text past
      → Known (q ++ ((to, text) ∷ [])) past
  Known-snoc [] to text past k a = (a, tt)
  Known-snoc (_ ∷ q) to text past k a = (k.0, Known-snoc q to text past k.1 a)
