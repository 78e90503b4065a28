-- ===== src/Queue/Defs.antt =====
-- relay/queue.go: the job broker, its state and its critical sections. Each definition is what one
-- call does between taking and releasing the mutex. The maps are functions with the zero value at a
-- missing key; the clock is the argument `now`; a channel is a number, and `signalled` says which
-- of them are closed.
use relayent.Base.{
  ℕ, suc, Text, ◌==◌, ◌==ℕ◌, ◌||◌, if◌then◌else◌, Bool, false, List, [], ◌∷◌, ◌++◌, Option, none,
  some,
}
use relayent.Api.{Job, Job, Status, pending, ResultRequest, BridgeCapabilities}

pub record JobEntry : Type 0 where
  pub job : Job
  pub status : Status
  pub result : ResultRequest
  pub created_at : ℕ
  pub finished : Bool

pub record CapsEntry : Type 0 where
  pub caps : BridgeCapabilities
  pub reported_at : ℕ

pub record Queue : Type 0 where
  pub pending : Text → List Text
  pub jobs : Text → Option JobEntry
  pub job_user : Text → Text
  pub waiters : Text → List ℕ
  pub signalled : ℕ → Bool
  pub next_channel : ℕ
  pub last_poll : Text → Option ℕ
  pub caps : Text → Option CapsEntry
  pub ttl : ℕ
  pub online_window : ℕ

-- m[k] = v
abbrev pub update {ℓ} : {V : Type ℓ} → (Text → V) → Text → V → Text → V
update m k v j = if k == j then v else m j

abbrev pub no_result : ResultRequest
no_result = record { ok = false; json = none; text = []; error = [] }

unfoldable pub new_queue : ℕ → ℕ → Queue
new_queue ttl online_window = record {
  pending = λ _. [];
  jobs = λ _. none;
  job_user = λ _. [];
  waiters = λ _. [];
  signalled = λ _. false;
  next_channel = 0;
  last_poll = λ _. none;
  caps = λ _. none;
  ttl = ttl;
  online_window = online_window;
}

-- Closes the channel of the longest waiting bridge, if there is one.
unfoldable pub wake : Text → List ℕ → Queue → Queue
wake user [] q = q
wake user (w ∷ ws) q = record q {
  waiters = update q.waiters user ws;
  signalled = λ c. w ==ℕ c || q.signalled c;
}

unfoldable pub enqueue : Text → Text → Job → ℕ → Queue → Queue
enqueue user id job now q = wake user (q.waiters user) (record q {
  jobs = update q.jobs id (some entry);
  job_user = update q.job_user id user;
  pending = update q.pending user (q.pending user ++ id ∷ []);
})
  where
    entry : JobEntry
    entry = record {
      job = job;
      status = pending;
      result = no_result;
      created_at = now;
      finished = false;
    }

-- The loop of `popLocked`: ids whose job is gone are skipped for good.
unfoldable pub pop_ids : (Text → Option JobEntry) → List Text → Option (Text × JobEntry) × List Text
pop_ids jobs [] = (none, [])
pop_ids jobs (id ∷ ids) =
    let rest = pop_ids jobs ids in elim (jobs id) [ some e ↦ (some (id, e), ids) | none ↦ rest ]

unfoldable pub pop_locked : Text → Queue → Option (Text × JobEntry) × Queue
pop_locked user q =
    let (found, rest) = pop_ids q.jobs (q.pending user) in
    (found, record q { pending = update q.pending user rest })

pub data Claim : Type 0 where
  claimed : Text → Job → Claim
  blocked : ℕ → Claim
  nothing : Claim

-- A job if there is one, else a new channel at the end of the user's waiters.
unfoldable pub claim_or_wait : Text → Option (Text × JobEntry) × Queue → Claim × Queue
claim_or_wait user (some (id, e), q) = (claimed id e.job, q)
claim_or_wait user (none, q) = (
  blocked q.next_channel,
  record q {
    waiters = update q.waiters user (q.waiters user ++ q.next_channel ∷ []);
    next_channel = suc q.next_channel;
  },
)

abbrev pub polled : Text → ℕ → Queue → Queue
polled user now q = record q { last_poll = update q.last_poll user (some now) }

-- `ClaimNext` up to its `select`.
unfoldable pub claim_start : Text → ℕ → Queue → Claim × Queue
claim_start user now q = claim_or_wait user (pop_locked user (polled user now q))

abbrev pub claim_found : Option (Text × JobEntry) × Queue → Claim × Queue
claim_found (some (id, e), q) = (claimed id e.job, q)
claim_found (none, q) = (nothing, q)

-- `ClaimNext` after its channel was closed.
unfoldable pub claim_woken : Text → ℕ → Queue → Claim × Queue
claim_woken user now q = claim_found (pop_locked user (polled user now q))

unfoldable pub drop_channel : ℕ → List ℕ → List ℕ
drop_channel ch [] = []
drop_channel ch (w ∷ ws) = let rest = drop_channel ch ws in if w ==ℕ ch then ws else w ∷ rest

unfoldable pub remove_waiter : Text → ℕ → Queue → Queue
remove_waiter user ch q = record q {
  waiters = update q.waiters user (drop_channel ch (q.waiters user));
}

-- `ClaimNext` after its timer fired.
unfoldable pub claim_timeout : Text → ℕ → Queue → Claim × Queue
unfolding remove_waiter
claim_timeout user ch q = (nothing, remove_waiter user ch q)
