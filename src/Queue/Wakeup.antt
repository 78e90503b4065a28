-- ===== src/Queue/Wakeup.antt =====
-- Bridges blocked in `ClaimNext` of relay/queue.go, and whom an enqueue wakes.
use relayent.Base.{
  ℕ, Text, ◌≡◌, ◌==ℕ◌, ◌||◌, ◌≢◌, refl, ◌∙◌, true, false, List, [], ◌∷◌, Option, arith, eq_refl,
}
use relayent.Api.{Job, pending}
use relayent.Queue.Defs.{
  Queue, JobEntry, Claim, claimed, nothing, enqueue, wake, pop_ids, pop_locked, claim_woken,
  claim_found, claim_timeout, remove_waiter, drop_channel,
}
use relayent.Queue.Backlog.{Waiting, listing, backlog}
use relayent.Queue.Refinement.{enqueue-backlog}
use relayent.Queue.Steps.{IsFresh}

abbrev pub woken_claim : List Waiting → Claim
woken_claim [] = nothing
woken_claim (w ∷ ws) = claimed w.id w.job

pop_ids-woken :
    (jobs : Text → Option JobEntry) (q : Queue) (xs : List Text)
    → (claim_found ((pop_ids jobs xs).0, q)).0 ≡ woken_claim (listing jobs xs)
unfolding pop_ids listing
pop_ids-woken jobs q [] = refl
pop_ids-woken jobs q (x ∷ xs) = ground (arith, pop_ids-woken jobs q xs)

-- A woken claim hands out the oldest job of the backlog, and nothing when there is none.
claim_woken-first :
    (user : Text) (now : ℕ) (q : Queue) → (claim_woken user now q).0 ≡ woken_claim (backlog user q)
unfolding claim_woken pop_locked backlog
claim_woken-first user now q = pop_ids-woken q.jobs _ (q.pending user)

-- When a user has no waiting job and a bridge of his is blocked, an enqueue closes the channel of
-- the bridge that waits longest, closes no other, takes it off the waiters, and the woken bridge
-- is handed exactly the new job.
pub enqueue-wakes :
    (user id : Text) (job : Job) (now later w c : ℕ) (ws : List ℕ) (q : Queue)
    → IsFresh id q
    → backlog user q ≡ []
    → q.waiters user ≡ w ∷ ws
    → let q' = enqueue user id job now q in
      (q'.signalled w ≡ true)
      × (q'.signalled c ≡ (w ==ℕ c || q.signalled c))
      × (q'.waiters user ≡ ws)
      × ((claim_woken user later q').0 ≡ claimed id job)
unfolding enqueue wake
enqueue-wakes user id job now later w c ws q f b h = (
  rw (h, wake) (ground arith),
  rw (h, wake) (ground arith),
  rw (h, wake) (ground (arith, eq_refl user)),
  claim_woken-first user later (enqueue user id job now q)
      ∙ ground (arith, enqueue-backlog user id job now q user f, eq_refl user, b),
)

backlog-timeout :
    (user : Text) (ch : ℕ) (q : Queue) → backlog user (claim_timeout user ch q).1 ≡ backlog user q
unfolding claim_timeout backlog
backlog-timeout user ch q = refl

-- The race of `select`: the woken bridge's timer may fire as well, and then it leaves without a job.
-- The job stays in the backlog while the next bridge is still blocked and was not signalled.
pub lost_wakeup :
    (user id : Text) (job : Job) (now w w' : ℕ) (ws : List ℕ) (q : Queue)
    → IsFresh id q
    → backlog user q ≡ []
    → q.waiters user ≡ w ∷ w' ∷ ws
    → w ≢ w'
    → q.signalled w' ≡ false
    → let r = claim_timeout user w (enqueue user id job now q) in
      (r.0 ≡ nothing)
      × (backlog user r.1 ≡ record { id = id; job = job; status = pending; created_at = now } ∷ [])
      × (r.1.waiters user ≡ w' ∷ drop_channel w ws)
      × (r.1.signalled w' ≡ false)
unfolding claim_timeout backlog
lost_wakeup user id job now w w' ws q f b h n s = (
  refl,
  backlog-timeout user w (enqueue user id job now q)
      ∙ ground (arith, enqueue-backlog user id job now q user f, eq_refl user, b),
  unfold enqueue wake remove_waiter drop_channel in rw (h, wake) (ground (arith, eq_refl user)),
  unfold enqueue wake in rw (h, wake) (ground arith),
)
