-- ===== src/Bridge/Poll.antt =====
-- bridge/main.go: claimNext and the loop `run`.
use relayent.Base.{
  ℕ, ◌-◌, ◌*◌, ◌/◌, Text, codes, ◌==ℕ◌, ◌||◌, ltb, leb, Bool, true, false, List, [], ◌∷◌, ◌++◌,
  Option, none, some, take, if◌then◌else◌,
}
use relayent.Api.{Job}
use relayent.Strings.{trim_space}
use relayent.Strings.Search.{drop_trailing}
use relayent.Strings.Decimal.{itoa}

-- What http.Client.Do gives: an error, or a status and a body.
pub data Reply : Type 0 where
  no_reply : Text → Reply
  reply : ℕ → Text → Reply

-- What claimNext returns.
pub data Claimed : Type 0 where
  claimed : Job → Claimed
  no_job : Claimed
  poll_error : Text → Claimed

abbrev decoded_job : Option Job → Text → Claimed
decoded_job none err = poll_error (codes "decode job: " ++ err)
decoded_job (some job) err = claimed job

abbrev relay_error : ℕ → Text → Text
relay_error status body =
    codes "relay returned " ++ (itoa status ++ (codes ": " ++ trim_space (take 4096 body)))

-- The decoder is given with the text of its error.
unfoldable pub claim_next : (Text → Option Job) → Text → Reply → Claimed
claim_next decode err (no_reply message) = poll_error message
claim_next decode err (reply status body) =
    if status ==ℕ 204
    then no_job
    else if status ==ℕ 200
    then decoded_job (decode body) err
    else poll_error (relay_error status body)

-- The URL that is polled; the wait is in nanoseconds.
unfoldable pub claim_url : Text → ℕ → Text
claim_url relay_url poll_wait =
    drop_trailing b'/' relay_url
    ++ (codes "/v1/jobs/next?wait=" ++ itoa (poll_wait / 1_000_000_000))

abbrev pub second : ℕ
second = 1_000_000_000

-- The variables of the loop; `last_caps` is a time.
pub record Poll : Type 0 where
  pub backoff : ℕ
  pub poll_failed : Bool
  pub last_caps : ℕ

abbrev pub start : Poll
start = record { backoff = second; poll_failed = false; last_caps = 0 }

abbrev pub caps_every : ℕ
caps_every = 15 * second

-- One round: what was claimed, the time after that, and the time after a report.
pub record Turn : Type 0 where
  pub claim : Claimed
  pub now : ℕ
  pub reported : ℕ

-- What the loop does: sleep, report the capabilities, process a job.
pub data Action : Type 0 where
  sleep : ℕ → Action
  report : Action
  run_job : Job → Action

abbrev pub next_backoff : ℕ → ℕ
next_backoff backoff = if ltb backoff (30 * second) then backoff * 2 else backoff

abbrev pub job_actions : Claimed → List Action
job_actions (claimed job) = run_job job ∷ []
job_actions no_job = []
job_actions (poll_error message) = []

abbrev pub is_due : Poll → ℕ → Bool
is_due p now = p.poll_failed || leb caps_every (now - p.last_caps)

abbrev pub answered : Poll → Turn → List Action → Poll × List Action
answered p t actions =
    if is_due p t.now
    then (
      record { backoff = second; poll_failed = false; last_caps = t.reported },
      report ∷ actions,
    )
    else (record p { backoff = second }, actions)

abbrev pub turn_of : Poll → Turn → Claimed → Poll × List Action
turn_of p t (poll_error message) =
    (record p { backoff = next_backoff p.backoff; poll_failed = true }, sleep p.backoff ∷ [])
turn_of p t (claimed job) = answered p t (job_actions (claimed job))
turn_of p t no_job = answered p t []

unfoldable pub poll_turn : Poll → Turn → Poll × List Action
poll_turn p t = turn_of p t t.claim

-- The loop until its context is cancelled, which is at the top of a round or in a sleep.
unfoldable pub poll_loop : Poll → List Turn → Poll × List Action
unfolding poll_turn
poll_loop p [] = (p, [])
poll_loop p (t ∷ turns) =
    let (q, actions) = poll_turn p t in
    let (last, more) = poll_loop q turns in (last, actions ++ more)
