-- ===== src/Sys/Exchange.antt =====
-- Messages between two processes: what each has sent, received and printed, the oldest first.
use study_linux_kernel.Base.{
  ℕ, ◌≡◌, refl, ap, sym, ◌∙◌, List, [], ◌∷◌, ◌++◌, append_assoc, Option, none, some, Bool, true,
  false, if◌then◌else◌,
}
use study_linux_kernel.Sys.Calls.{
  Reply, Arg, str, Text, Trace, made, printed, received, read, write, send, sendto, recv, recvfrom,
}
use study_linux_kernel.Sys.Monad.{Outcome, done, exited, blocked, faulted, unfinished}
use study_linux_kernel.Sys.Loops.{Stops, Ends}

abbrev pub append_some : List Text → Option Text → List Text
append_some ms none = ms
append_some ms (some m) = ms ++ (m ∷ [])

-- A message leaves where the call that sends it returns a number.
abbrev pub left_by : Text → Option ℕ → Option Text
left_by m none = none
left_by m (some _) = some m

-- `own` says on which descriptors.
abbrev pub sent_on : (ℕ → Bool) → Trace → List Text
sent_on own [] = []
sent_on own (printed format args ∷ past) = sent_on own past
sent_on own (made (write f m) r ∷ past) =
    let before = sent_on own past in
    if own f then append_some before (left_by m r.result) else before
sent_on own (made (send f m) r ∷ past) =
    let before = sent_on own past in
    if own f then append_some before (left_by m r.result) else before
sent_on own (made (sendto f m to) r ∷ past) =
    let before = sent_on own past in
    if own f then append_some before (left_by m r.result) else before
sent_on own (made c r ∷ past) = sent_on own past

abbrev pub got_on : (ℕ → Bool) → Trace → List Text
got_on own [] = []
got_on own (printed format args ∷ past) = got_on own past
got_on own (made (read f n) r ∷ past) =
    let before = got_on own past in if own f then append_some before (received n r) else before
got_on own (made (recv f n) r ∷ past) =
    let before = got_on own past in if own f then append_some before (received n r) else before
got_on own (made (recvfrom f n) r ∷ past) =
    let before = got_on own past in if own f then append_some before (received n r) else before
got_on own (made c r ∷ past) = got_on own past

-- What `write` is called with, whether it succeeds or not.
abbrev pub handed : Trace → List Text
handed [] = []
handed (printed format args ∷ past) = handed past
handed (made (write f m) r ∷ past) = handed past ++ (m ∷ [])
handed (made c r ∷ past) = handed past

abbrev pub any_fd : ℕ → Bool
any_fd fd = true

pub got_on_read :
    (own : ℕ → Bool) (f n : ℕ) (r : Reply) (t : Trace)
    → own f ≡ true
    → got_on own (made (read f n) r ∷ t) ≡ append_some (got_on own t) (received n r)
got_on_read own f n r t e = rw e refl

pub got_on_other :
    (own : ℕ → Bool) (f n : ℕ) (r : Reply) (t : Trace)
    → own f ≡ false
    → got_on own (made (read f n) r ∷ t) ≡ got_on own t
got_on_other own f n r t e = rw e refl

pub sent_on_write :
    (own : ℕ → Bool) (f : ℕ) (m : Text) (r : Reply) (t : Trace)
    → own f ≡ true
    → sent_on own (made (write f m) r ∷ t) ≡ append_some (sent_on own t) (left_by m r.result)
sent_on_write own f m r t e = rw e refl

-- The messages that are not empty.
abbrev pub filled : List Text → List Text
filled [] = []
filled ([] ∷ ms) = filled ms
filled ((b ∷ bs) ∷ ms) = (b ∷ bs) ∷ filled ms

pub filled_append : (xs ys : List Text) → filled (xs ++ ys) ≡ filled xs ++ filled ys
filled_append [] ys = refl
filled_append ([] ∷ xs) ys = filled_append xs ys
filled_append ((b ∷ bs) ∷ xs) ys = ap (λ (ms : List Text). (b ∷ bs) ∷ ms) (filled_append xs ys)

-- The first text in a printed line.
abbrev pub first_text : List Arg → Option Text
first_text [] = none
first_text (str s ∷ args) = some s
first_text (a ∷ args) = first_text args

abbrev pub shown : Trace → List Text
shown [] = []
shown (printed format args ∷ past) = append_some (shown past) (first_text args)
shown (made c r ∷ past) = shown past

-- `xs` begins `ys`.
abbrev pub Begins : {A : Type 0} → List A → List A → Type 0
Begins [] ys = Unit {0}
Begins (x ∷ xs) [] = ⊥
Begins (x ∷ xs) (y ∷ ys) = (x ≡ y) × Begins xs ys

pub Begins-refl : {A : Type 0} (xs : List A) → Begins xs xs
Begins-refl [] = tt
Begins-refl (x ∷ xs) = (refl, Begins-refl xs)

pub Begins-trans : {A : Type 0} (xs ys zs : List A) → Begins xs ys → Begins ys zs → Begins xs zs
Begins-trans [] ys zs h k = tt
Begins-trans (x ∷ xs) [] zs h k = absurd h
Begins-trans (x ∷ xs) (y ∷ ys) [] h k = absurd k
Begins-trans (x ∷ xs) (y ∷ ys) (z ∷ zs) h k = (h.0 ∙ k.0, Begins-trans xs ys zs h.1 k.1)

pub Begins-append : {A : Type 0} (xs ys zs : List A) → Begins xs ys → Begins xs (ys ++ zs)
Begins-append [] ys zs h = tt
Begins-append (x ∷ xs) [] zs h = absurd h
Begins-append (x ∷ xs) (y ∷ ys) zs h = (h.0, Begins-append xs ys zs h.1)

pub Begins-behind : {A : Type 0} (zs xs ys : List A) → Begins xs ys → Begins (zs ++ xs) (zs ++ ys)
Begins-behind [] xs ys h = h
Begins-behind (z ∷ zs) xs ys h = (refl, Begins-behind zs xs ys h)

pub Begins-eq : {A : Type 0} (xs ys : List A) → xs ≡ ys → Begins xs ys
Begins-eq xs ys e = rw e (Begins-refl ys)

pub Begins-one_more : {A : Type 0} (xs ys : List A) (m : A) → xs ≡ ys → Begins xs (ys ++ (m ∷ []))
Begins-one_more xs ys m e = rw e (Begins-append ys ys (m ∷ []) (Begins-refl ys))

-- The bytes of a stream.
abbrev pub joined : List Text → Text
joined [] = []
joined (m ∷ ms) = m ++ joined ms

pub joined-append : (xs ys : List Text) → joined (xs ++ ys) ≡ joined xs ++ joined ys
joined-append [] ys = refl
joined-append (x ∷ xs) ys = rw (joined-append xs ys) (sym (append_assoc x (joined xs) (joined ys)))

pub joined-filled : (xs : List Text) → joined (filled xs) ≡ joined xs
joined-filled [] = refl
joined-filled ([] ∷ xs) = joined-filled xs
joined-filled ((b ∷ bs) ∷ xs) = ap (λ (ms : Text). (b ∷ bs) ++ ms) (joined-filled xs)

pub Begins-joined : (xs ys : List Text) → Begins xs ys → Begins (joined xs) (joined ys)
Begins-joined [] ys h = tt
Begins-joined (x ∷ xs) [] h = absurd h
Begins-joined (x ∷ xs) (y ∷ ys) h =
    rw h.0 (Begins-behind y (joined xs) (joined ys) (Begins-joined xs ys h.1))

-- The same done to each message.
abbrev pub each : (Text → Text) → List Text → List Text
each f [] = []
each f (m ∷ ms) = f m ∷ each f ms

pub each-append : (f : Text → Text) (xs ys : List Text) → each f (xs ++ ys) ≡ each f xs ++ each f ys
each-append f [] ys = refl
each-append f (x ∷ xs) ys = ap (λ (ms : List Text). f x ∷ ms) (each-append f xs ys)

pub Begins-each :
    (f : Text → Text) (xs ys : List Text) → Begins xs ys → Begins (each f xs) (each f ys)
Begins-each f [] ys h = tt
Begins-each f (x ∷ xs) [] h = absurd h
Begins-each f (x ∷ xs) (y ∷ ys) h = (ap f h.0, Begins-each f xs ys h.1)

-- A further message on both sides.
pub Begins-snoc :
    (xs ys : List Text) (m : Text) → xs ≡ ys → Begins (xs ++ (m ∷ [])) (ys ++ (m ∷ []))
Begins-snoc xs ys m e = rw e (Begins-refl (ys ++ (m ∷ [])))

-- The history of a run, however it stopped.
abbrev pub history : {A : Type 0} → Outcome A → Trace
history (done a w) = w.trace
history (exited n w) = w.trace
history (blocked c w) = w.trace
history (faulted e w) = w.trace
history (unfinished w) = w.trace

-- A run that is not out of fuel has a history of which everything holds that holds wherever it stops.
abbrev pub everywhere : (Trace → Type 0) → Stops
everywhere K = record {
  status = λ n w. K w.trace;
  waits = λ w. K w.trace;
  faults = λ _ w. K w.trace;
}

pub history-Ends :
    {A : Type 0} (K : Trace → Type 0) (o : Outcome A)
    → Ends (λ _ w. K w.trace) (everywhere K) o
    → K (history o)
history-Ends K (done a w) e = e
history-Ends K (exited n w) e = e
history-Ends K (blocked c w) e = e
history-Ends K (faulted x w) e = e
history-Ends K (unfinished w) e = absurd e
