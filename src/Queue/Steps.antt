-- ===== src/Queue/Steps.antt =====
-- The broker as a state machine: one constructor for each critical section that a goroutine runs.
-- A history of the relay is a list of these, in the order in which they took the mutex.
use relayent.Base.{ℕ, Text, ◌≡◌, ◌≢◌, true, false, List, [], ◌∷◌, none}
use relayent.Api.{Job, ResultRequest, BridgeCapabilities}
use relayent.Queue.Defs.{Queue, enqueue, claim_start, claim_woken, claim_timeout}
use relayent.Queue.Jobs.{set_result, cancel, report_capabilities, sweep, has}

pub data Op : Type 0 where
  enqueues : Text → Text → Job → ℕ → Op
  claims wakes : Text → ℕ → Op
  gives_up : Text → ℕ → Op
  results : Text → Text → ResultRequest → Op
  cancels : Text → Text → Op
  reports : Text → BridgeCapabilities → ℕ → Op
  sweeps : ℕ → Op

unfoldable pub step : Op → Queue → Queue
step (enqueues user id job now) q = enqueue user id job now q
step (claims user now) q = (claim_start user now q).1
step (wakes user now) q = (claim_woken user now q).1
step (gives_up user ch) q = (claim_timeout user ch q).1
step (results user id res) q = (set_result user id res q).1
step (cancels user id) q = (cancel user id q).1
step (reports user caps now) q = report_capabilities user caps now q
step (sweeps now) q = sweep now q

unfoldable pub run : List Op → Queue → Queue
run [] q = q
run (op ∷ ops) q = run ops (step op q)

-- Job ids are 128 random bits: a new one names no job and stands in no queue.
pub record IsFresh (id : Text) (q : Queue) : Type 0 where
  pub no_job : q.jobs id ≡ none
  pub not_queued : (user : Text) → has id (q.pending user) ≡ false

abbrev pub Allowed : Op → Queue → Type 0
Allowed (enqueues user id job now) q = IsFresh id q
Allowed _ q = Unit

-- Every id that the history enqueues is new when it is enqueued.
abbrev pub AllAllowed : List Op → Queue → Type 0
AllAllowed [] q = Unit
AllAllowed (op ∷ ops) q = Allowed op q × AllAllowed ops (step op q)

abbrev pub NoRepeat : List Text → Type 0
NoRepeat [] = Unit
NoRepeat (x ∷ xs) = (has x xs ≡ false) × NoRepeat xs

pub record Inv (q : Queue) : Type 0 where
  pub owned :
      (user id : Text) → has id (q.pending user) ≡ true → q.jobs id ≢ none → q.job_user id ≡ user
  pub unowned : (id : Text) → q.jobs id ≡ none → q.job_user id ≡ []
  pub no_repeat : (user : Text) → NoRepeat (q.pending user)
