-- ===== src/Queue/Refinement.antt =====
-- Every critical section of relay/queue.go does to the backlogs what the contract says.
use relayent.Base.{
  eq_refl, ℕ, Text, ◌==◌, ◌≡◌, ◌≢◌, refl, ◌∙◌, true, false, List, [], ◌∷◌, ◌++◌, map, Option, none,
  some, arith, eq_iff, eq-false_of_ne, Bool-cases, Option-cases, inl, inr, length,
}
use relayent.Api.{Job, Status, pending, done, error, ResultRequest}
use relayent.Queue.Defs.{
  Queue, JobEntry, Claim, claimed, blocked, enqueue, wake, pop_ids, pop_locked, claim_start,
  claim_woken, claim_found, claim_or_wait, claim_timeout, polled, update, no_result,
}
use relayent.Queue.Jobs.{
  has, drop_id, set_result, record_result, cancel, cancel_entry, cancel_at, remove_from_pending,
  report_capabilities, sweep, pending_count, outcome,
}
use relayent.Queue.Steps.{
  Op, enqueues, claims, wakes, gives_up, results, cancels, reports, sweeps, step, Allowed, IsFresh,
  NoRepeat, Inv,
}
use relayent.Queue.Ids.{drop_id_absent}
use relayent.Queue.Invariant.{jobs-remove_from_pending}
use relayent.Queue.Backlog.{
  Waiting, listing, backlog, tail, at, spec_step, finish, withdraw, listing-append, listing-pop_ids,
  listing-update, listing-result, listing-finish_absent, listing-withdraw_absent,
  listing-withdraw_finished, listing-withdraw, listing-sweep, count_live-listing,
}

-- Closing a channel is invisible in the backlogs.
wake-backlog :
    (user : Text) (ws : List ℕ) (q : Queue) (v : Text) → backlog v (wake user ws q) ≡ backlog v q
unfolding wake backlog
wake-backlog user [] q v = refl
wake-backlog user (w ∷ ws) q v = refl

pub enqueue-backlog :
    (user id : Text) (job : Job) (now : ℕ) (q : Queue) (v : Text)
    → IsFresh id q
    → backlog v (enqueue user id job now q)
      ≡ at user v
          (backlog v q ++ record { id = id; job = job; status = pending; created_at = now } ∷ [])
          (backlog v q)
unfolding enqueue
enqueue-backlog user id job now q v f =
    wake-backlog user (q.waiters user) _ v ∙ unfold backlog in appended
  where
    entry : JobEntry
    entry = record {
      job = job;
      status = pending;
      result = no_result;
      created_at = now;
      finished = false;
    }

    jobs : Text → Option JobEntry
    jobs = update q.jobs id (some entry)

    appended :
        listing jobs (update q.pending user (q.pending user ++ id ∷ []) v)
        ≡ at user v
            (listing q.jobs (q.pending v)
              ++ record { id = id; job = job; status = pending; created_at = now } ∷ [])
            (listing q.jobs (q.pending v))
    appended = ground (
      arith,
      eq_iff user v,
      eq_refl id,
      listing-append jobs (q.pending v) id entry,
      listing-update q.jobs id (some entry) (q.pending v) (f.not_queued v),
    )

pop_locked-backlog :
    (user : Text) (q : Queue) (v : Text)
    → backlog v (pop_locked user q).1 ≡ at user v (tail (backlog v q)) (backlog v q)
unfolding pop_locked backlog
pop_locked-backlog user q v = ground (arith, eq_iff user v, listing-pop_ids q.jobs (q.pending v))

claim_or_wait-backlog :
    (user : Text) (r : Option (Text × JobEntry) × Queue) (v : Text)
    → backlog v (claim_or_wait user r).1 ≡ backlog v r.1
unfolding claim_or_wait backlog
claim_or_wait-backlog user (some (id, e), q) v = refl
claim_or_wait-backlog user (none, q) v = refl

claim_found-backlog :
    (r : Option (Text × JobEntry) × Queue) (v : Text) → backlog v (claim_found r).1 ≡ backlog v r.1
claim_found-backlog (some (id, e), q) v = refl
claim_found-backlog (none, q) v = refl

-- A queued id that is somebody's job is its owner's.
foreign :
    (q : Queue) (v id : Text)
    → Inv q
    → q.job_user id ≢ v
    → has id (q.pending v) ≡ true
    → q.jobs id ≡ none
foreign q v id i n h = elim (Option-cases (q.jobs id)) [
  | inl e ↦ e
  | inr (e, k) ↦ absurd (n (i.owned v id h (λ z. cc)))
]

record_result-backlog :
    (user id : Text) (res : ResultRequest) (o : Option JobEntry) (q : Queue) (v : Text)
    → q.jobs id ≡ o
    → q.job_user id ≡ user
    → Inv q
    → backlog v (record_result id res o q).1
      ≡ at user v (map (finish id (outcome res)) (backlog v q)) (backlog v q)
unfolding record_result backlog
record_result-backlog user id res none q v h m i =
    ground (arith, listing-finish_absent q.jobs id (outcome res) (q.pending v) (λ k. h))
record_result-backlog user id res (some e) q v h m i = elim (Bool-cases (user == v)) [
  | inl y ↦ rw y (listing-result q.jobs id e res (q.pending v) h)
  | inr n ↦ rw n (elim (Bool-cases (has id (q.pending v))) [
    | inl k ↦ ground (arith, foreign q v id i (ground (arith, eq_iff user v)) k)
    | inr k ↦ listing-update q.jobs id _ (q.pending v) k
  ])
]

set_result-backlog :
    (user id : Text) (res : ResultRequest) (q : Queue) (v : Text)
    → Inv q
    → backlog v (set_result user id res q).1
      ≡ at user v (map (finish id (outcome res)) (backlog v q)) (backlog v q)
unfolding set_result
set_result-backlog user id res q v i = elim (Bool-cases (q.job_user id == user)) [
  | inl y ↦ rw y (record_result-backlog user id res (q.jobs id) q v refl ((eq_iff _ _).0 y) i)
  | inr n ↦ rw n (
      unfold backlog in
      ground (
        arith,
        eq_iff user v,
        listing-finish_absent q.jobs id (outcome res) (q.pending user)
            (foreign q user id i (ground (arith, eq_iff (q.job_user id) user))),
      ))
]

remove_from_pending-queue :
    (user id : Text) (q : Queue)
    → NoRepeat (q.pending user)
    → (remove_from_pending user id q).1.pending user ≡ drop_id id (q.pending user)
unfolding remove_from_pending
remove_from_pending-queue user id q r =
    ground (arith, eq_refl user, drop_id_absent id (q.pending user))

remove_from_pending-other :
    (user id : Text) (q : Queue) (v : Text)
    → user ≢ v
    → (remove_from_pending user id q).1.pending v ≡ q.pending v
unfolding remove_from_pending
remove_from_pending-other user id q v n = ground (arith, eq-false_of_ne user v n)

cancel_at-backlog :
    (s : Status) (user id : Text) (e : JobEntry) (q : Queue) (v : Text)
    → e.status ≡ s
    → q.jobs id ≡ some e
    → q.job_user id ≡ user
    → Inv q
    → backlog v (cancel_at s user id e q).1 ≡ at user v (withdraw id (backlog v q)) (backlog v q)
unfolding cancel_at backlog
cancel_at-backlog done user id e q v z h m i =
    ground (arith, listing-withdraw_finished q.jobs id e (q.pending v) h (λ k. cc))
cancel_at-backlog error user id e q v z h m i =
    ground (arith, listing-withdraw_finished q.jobs id e (q.pending v) h (λ k. cc))
cancel_at-backlog pending user id e q v z h m i = elim (Bool-cases (user == v)) [
  | inl y ↦
      let same = (eq_iff user v).0 y in
      rw
        (
          y,
          jobs-remove_from_pending user id q,
          ← same,
          remove_from_pending-queue user id q (i.no_repeat user),
        )
        (listing-withdraw q.jobs id e _ (q.pending user) (i.no_repeat user) h z)
  | inr n ↦
      let other : user ≢ v = ground (arith, eq_iff user v) in
      rw (n, jobs-remove_from_pending user id q, remove_from_pending-other user id q v other)
        (elim (Bool-cases (has id (q.pending v))) [
          | inl k ↦ ground (arith, foreign q v id i (ground (arith)) k)
          | inr k ↦ listing-update q.jobs id _ (q.pending v) k
        ])
]

cancel_entry-backlog :
    (user id : Text) (o : Option JobEntry) (q : Queue) (v : Text)
    → q.jobs id ≡ o
    → q.job_user id ≡ user
    → Inv q
    → backlog v (cancel_entry user id o q).1 ≡ at user v (withdraw id (backlog v q)) (backlog v q)
unfolding cancel_entry backlog
cancel_entry-backlog user id none q v h m i =
    ground (arith, listing-withdraw_absent q.jobs id (q.pending v) (λ k. h))
cancel_entry-backlog user id (some e) q v h m i =
    cancel_at-backlog e.status user id e q v refl h m i

cancel-backlog :
    (user id : Text) (q : Queue) (v : Text)
    → Inv q
    → backlog v (cancel user id q).1 ≡ at user v (withdraw id (backlog v q)) (backlog v q)
unfolding cancel
cancel-backlog user id q v i = elim (Bool-cases (q.job_user id == user)) [
  | inl y ↦ rw y (cancel_entry-backlog user id (q.jobs id) q v refl ((eq_iff _ _).0 y) i)
  | inr n ↦ rw n (
      unfold backlog in
      ground (
        arith,
        eq_iff user v,
        listing-withdraw_absent q.jobs id (q.pending user)
            (foreign q user id i (ground (arith, eq_iff (q.job_user id) user))),
      ))
]

-- Refinement: each critical section does to everybody's backlog exactly what the contract says. An
-- enqueue appends to its user's list, a claim takes the oldest job, a cancel takes out the job if no
-- result is there, a result marks it, and the janitor drops what is older than the TTL.
pub step-backlog :
    (op : Op) (q : Queue) (v : Text)
    → Allowed op q
    → Inv q
    → backlog v (step op q) ≡ spec_step q.ttl op (λ u. backlog u q) v
unfolding step
step-backlog (enqueues user id job now) q v a i = enqueue-backlog user id job now q v a
step-backlog (claims user now) q v a i =
    unfold claim_start backlog in
    claim_or_wait-backlog user (pop_locked user (polled user now q)) v
    ∙ pop_locked-backlog user (polled user now q) v
step-backlog (wakes user now) q v a i =
    unfold claim_woken backlog in
    claim_found-backlog (pop_locked user (polled user now q)) v
    ∙ pop_locked-backlog user (polled user now q) v
step-backlog (gives_up user ch) q v a i = unfold claim_timeout backlog in refl
step-backlog (results user id res) q v a i = set_result-backlog user id res q v i
step-backlog (cancels user id) q v a i = cancel-backlog user id q v i
step-backlog (reports user caps now) q v a i = unfold report_capabilities backlog in refl
step-backlog (sweeps now) q v a i =
    unfold sweep backlog in listing-sweep q.jobs q.ttl now (q.pending v)

-- What a claim answers: the job of the oldest entry, or the number of a new channel to wait on.
abbrev pub first_claim : ℕ → List Waiting → Claim
first_claim ch [] = blocked ch
first_claim ch (w ∷ ws) = claimed w.id w.job

pop_ids-claim :
    (jobs : Text → Option JobEntry) (user : Text) (q : Queue) (xs : List Text)
    → (claim_or_wait user ((pop_ids jobs xs).0, q)).0 ≡ first_claim q.next_channel (listing jobs xs)
unfolding pop_ids listing claim_or_wait
pop_ids-claim jobs user q [] = refl
pop_ids-claim jobs user q (x ∷ xs) = ground (arith, pop_ids-claim jobs user q xs)

-- A claim hands out the job of the oldest live entry of the user's backlog and blocks exactly when
-- the backlog is empty; the number of pending jobs that the relay reports is the backlog's length.
pub claim_start-first :
    (user : Text) (now : ℕ) (q : Queue)
    → ((claim_start user now q).0 ≡ first_claim q.next_channel (backlog user q))
      × (pending_count user q ≡ length (backlog user q))
unfolding claim_start pop_locked backlog pending_count
claim_start-first user now q =
    (pop_ids-claim q.jobs user _ (q.pending user), count_live-listing q.jobs (q.pending user))
