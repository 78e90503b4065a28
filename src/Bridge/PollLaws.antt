-- ===== src/Bridge/PollLaws.antt =====
-- The loop of the bridge: no claimed job is dropped, waits are bounded, and recovery is reported.
use relayent.Base.{
  ℕ, zero, suc, ◌-◌, ◌*◌, ◌^◌, ◌≤◌, ◌≡◌, refl, sym, ap, ◌∙◌, true, List, [], ◌∷◌, ◌++◌, arith, ltb,
  if◌then◌else◌, ◌⊎◌, inl, inr, Bool-cases,
}
use mathlib.Core.List.{append_assoc}
use relayent.Api.{Job}
use relayent.Bridge.Poll.{
  Claimed, claimed, no_job, poll_error, second, Poll, start, caps_every, Turn, Action, sleep,
  report, run_job, next_backoff, is_due, answered, turn_of, poll_turn, poll_loop, job_actions,
}

abbrev pub claimed_job : Claimed → List Job
claimed_job (claimed job) = job ∷ []
claimed_job no_job = []
claimed_job (poll_error message) = []

-- The jobs that the relay handed over, and those that the loop processed, in order.
abbrev pub claimed_jobs : List Turn → List Job
claimed_jobs [] = []
claimed_jobs (t ∷ turns) = claimed_job t.claim ++ claimed_jobs turns

abbrev pub job_of : Action → List Job
job_of (run_job job) = job ∷ []
job_of (sleep d) = []
job_of report = []

abbrev pub processed_jobs : List Action → List Job
processed_jobs [] = []
processed_jobs (a ∷ actions) = job_of a ++ processed_jobs actions

processed_jobs-append :
    (xs ys : List Action) → processed_jobs (xs ++ ys) ≡ processed_jobs xs ++ processed_jobs ys
processed_jobs-append [] ys = refl
processed_jobs-append (x ∷ xs) ys =
    ap (◌++◌ (job_of x)) (processed_jobs-append xs ys)
    ∙ sym (append_assoc (job_of x) (processed_jobs xs) (processed_jobs ys))

answered-jobs :
    (p : Poll) (t : Turn) (actions : List Action)
    → processed_jobs (answered p t actions).1 ≡ processed_jobs actions
answered-jobs p t actions = elim (Bool-cases (is_due p t.now)) [
  | inl y ↦ rw y refl
  | inr n ↦ rw n refl
]

turn_of-jobs :
    (p : Poll) (t : Turn) (c : Claimed) → processed_jobs (turn_of p t c).1 ≡ claimed_job c
turn_of-jobs p t (claimed job) = answered-jobs p t (run_job job ∷ [])
turn_of-jobs p t no_job = answered-jobs p t []
turn_of-jobs p t (poll_error message) = refl

-- Every job that the relay hands over is processed once, in the order in which they came, whatever
-- errors, empty polls and reports come between them.
pub poll_loop-jobs :
    (p : Poll) (turns : List Turn) → processed_jobs (poll_loop p turns).1 ≡ claimed_jobs turns
unfolding poll_loop
poll_loop-jobs p [] = refl
poll_loop-jobs p (t ∷ turns) =
    processed_jobs-append (turn_of p t t.claim).1 _
    ∙ ap (λ js. js ++ processed_jobs (poll_loop (poll_turn p t).0 turns).1)
        (turn_of-jobs p t t.claim)
    ∙ ap (◌++◌ (claimed_job t.claim)) (poll_loop-jobs (poll_turn p t).0 turns)

-- The wait after so many errors in a row: doubled from one second up to 32.
abbrev pub delay : ℕ → ℕ
delay n = if ltb n 5 then 2 ^ n * second else 32 * second

next_backoff-delay : (n : ℕ) → next_backoff (delay n) ≡ delay (suc n)
next_backoff-delay zero = refl
next_backoff-delay (suc zero) = refl
next_backoff-delay (suc (suc zero)) = refl
next_backoff-delay (suc (suc (suc zero))) = refl
next_backoff-delay (suc (suc (suc (suc zero)))) = refl
next_backoff-delay (suc (suc (suc (suc (suc n))))) = ground arith

abbrev pub slept : Action → List ℕ
slept (sleep d) = d ∷ []
slept report = []
slept (run_job job) = []

abbrev pub sleeps : List Action → List ℕ
sleeps [] = []
sleeps (a ∷ actions) = slept a ++ sleeps actions

-- The errors in a row after one more answer of the relay, and the waits that the answers call for.
abbrev pub errors_after : ℕ → Claimed → ℕ
errors_after n (claimed job) = 0
errors_after n no_job = 0
errors_after n (poll_error message) = suc n

abbrev pub wait_for : ℕ → Claimed → List ℕ
wait_for n (claimed job) = []
wait_for n no_job = []
wait_for n (poll_error message) = delay n ∷ []

abbrev pub waits : ℕ → List Turn → List ℕ
waits n [] = []
waits n (t ∷ turns) = wait_for n t.claim ++ waits (errors_after n t.claim) turns

sleeps-append : (xs ys : List Action) → sleeps (xs ++ ys) ≡ sleeps xs ++ sleeps ys
sleeps-append [] ys = refl
sleeps-append (x ∷ xs) ys =
    ap (◌++◌ (slept x)) (sleeps-append xs ys) ∙ sym (append_assoc (slept x) (sleeps xs) (sleeps ys))

answered-backoff :
    (p : Poll) (t : Turn) (actions : List Action)
    → ((answered p t actions).0.backoff ≡ second)
      × (sleeps (answered p t actions).1 ≡ sleeps actions)
answered-backoff p t actions = elim (Bool-cases (is_due p t.now)) [
  | inl y ↦ rw y (refl, refl)
  | inr n ↦ rw n (refl, refl)
]

turn_of-waits :
    (p : Poll) (t : Turn) (c : Claimed) (n : ℕ)
    → p.backoff ≡ delay n
    → ((turn_of p t c).0.backoff ≡ delay (errors_after n c))
      × (sleeps (turn_of p t c).1 ≡ wait_for n c)
turn_of-waits p t (claimed job) n h = answered-backoff p t (run_job job ∷ [])
turn_of-waits p t no_job n h = answered-backoff p t []
turn_of-waits p t (poll_error message) n h =
    (ap next_backoff h ∙ next_backoff-delay n, ap (λ d. d ∷ []) h)

poll_loop-waits_from :
    (p : Poll) (turns : List Turn) (n : ℕ)
    → p.backoff ≡ delay n
    → sleeps (poll_loop p turns).1 ≡ waits n turns
unfolding poll_loop poll_turn
poll_loop-waits_from p [] n h = refl
poll_loop-waits_from p (t ∷ turns) n h =
    let (b, s) = turn_of-waits p t t.claim n h in
    sleeps-append (turn_of p t t.claim).1 _
    ∙ ap (λ ds. ds ++ sleeps (poll_loop (turn_of p t t.claim).0 turns).1) s
    ∙ ap (◌++◌ (wait_for n t.claim))
        (poll_loop-waits_from (turn_of p t t.claim).0 turns (errors_after n t.claim) b)

-- The bridge sleeps after every error and at no other time: for 1, 2, 4, 8 and 16 seconds and then for
-- 32 seconds each time, counted from the last answer of the relay that was no error.
pub poll_loop-waits : (turns : List Turn) → sleeps (poll_loop start turns).1 ≡ waits 0 turns
poll_loop-waits turns = poll_loop-waits_from start turns 0 refl

-- The first action after an error that is followed by an answer is a report of the capabilities.
abbrev pub AnswersWell : Claimed → Type 0
AnswersWell (claimed job) = Unit
AnswersWell no_job = Unit
AnswersWell (poll_error message) = ⊥

answered-report :
    (p : Poll) (t : Turn) (actions : List Action)
    → is_due p t.now ≡ true
    → (answered p t actions).1 ≡ report ∷ actions
answered-report p t actions h = rw h refl

report_first :
    (p : Poll) (t : Turn) (c : Claimed)
    → AnswersWell c
    → is_due p t.now ≡ true
    → (turn_of p t c).1 ≡ report ∷ job_actions c
report_first p t (claimed job) a h = answered-report p t (run_job job ∷ []) h
report_first p t no_job a h = answered-report p t [] h
report_first p t (poll_error message) a h = elim a [ ]

-- When the relay answers again after an error, and when the last report is 15 seconds old or older, the
-- bridge reports its capabilities before it processes the job that it was handed, if any.
pub poll_turn-reports :
    (p : Poll) (t : Turn)
    → AnswersWell t.claim
    → (p.poll_failed ≡ true) ⊎ (caps_every ≤ t.now - p.last_caps)
    → (poll_turn p t).1 ≡ report ∷ job_actions t.claim
unfolding poll_turn
poll_turn-reports p t a (inl f) = report_first p t t.claim a (ground arith)
poll_turn-reports p t a (inr l) = report_first p t t.claim a (ground arith)
