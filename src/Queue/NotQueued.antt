-- ===== src/Queue/NotQueued.antt =====
-- An id that stands in no queue of relay/queue.go stays out until it is enqueued again.
use relayent.Base.{
  ℕ, Text, ◌==◌, ◌≡◌, ◌≢◌, false, List, [], ◌∷◌, Option, none, some, arith, eq_iff, Bool-cases, inl,
  inr,
}
use relayent.Api.{Job, Status, pending, done, error, ResultRequest}
use relayent.Queue.Defs.{
  Queue, JobEntry, enqueue, wake, pop_ids, pop_locked, claim_start, claim_woken, claim_found,
  claim_or_wait, claim_timeout, polled,
}
use relayent.Queue.Jobs.{
  has, drop_id, set_result, record_result, cancel, cancel_entry, cancel_at, remove_from_pending,
  report_capabilities, sweep,
}
use relayent.Queue.Ids.{has-append, has-drop_id, has-pop_ids}
use relayent.Queue.Steps.{
  Op, enqueues, claims, wakes, gives_up, results, cancels, reports, sweeps, step, run,
}

-- The history enqueues nothing under this id again.
abbrev pub Avoids : Text → List Op → Type 0
Avoids id [] = Unit
Avoids id (enqueues user j job now ∷ ops) = (j ≢ id) × Avoids id ops
Avoids id (op ∷ ops) = Avoids id ops

pub record NotQueued (id : Text) (q : Queue) : Type 0 where
  pub nowhere : (user : Text) → has id (q.pending user) ≡ false

wake-NotQueued :
    (id user : Text) (ws : List ℕ) (q : Queue) → NotQueued id q → NotQueued id (wake user ws q)
unfolding wake
wake-NotQueued id user [] q n = n
wake-NotQueued id user (w ∷ ws) q n = record { nowhere = n.nowhere }

enqueue-NotQueued :
    (id user j : Text) (job : Job) (now : ℕ) (q : Queue)
    → j ≢ id
    → NotQueued id q
    → NotQueued id (enqueue user j job now q)
unfolding enqueue
enqueue-NotQueued id user j job now q d n = wake-NotQueued id user (q.waiters user) _ (record {
  nowhere = λ u.
      ground (arith, n.nowhere u, n.nowhere user, has-append id j (q.pending user), eq_iff j id, d);
})

pop_locked-NotQueued :
    (id user : Text) (q : Queue) → NotQueued id q → NotQueued id (pop_locked user q).1
unfolding pop_locked
pop_locked-NotQueued id user q n = record {
  nowhere = λ u. elim (Bool-cases (has id (pop_ids q.jobs (q.pending user)).1)) [
    | inl y ↦ ground (arith, n.nowhere u, n.nowhere user, has-pop_ids q.jobs id (q.pending user) y)
    | inr y ↦ ground (arith, n.nowhere u, y)
  ];
}

claim_or_wait-NotQueued :
    (id user : Text) (r : Option (Text × JobEntry) × Queue)
    → NotQueued id r.1
    → NotQueued id (claim_or_wait user r).1
unfolding claim_or_wait
claim_or_wait-NotQueued id user (some (j, e), q) n = n
claim_or_wait-NotQueued id user (none, q) n = record { nowhere = n.nowhere }

claim_found-NotQueued :
    (id : Text) (r : Option (Text × JobEntry) × Queue)
    → NotQueued id r.1
    → NotQueued id (claim_found r).1
claim_found-NotQueued id (some (j, e), q) n = n
claim_found-NotQueued id (none, q) n = n

record_result-NotQueued :
    (id j : Text) (res : ResultRequest) (o : Option JobEntry) (q : Queue)
    → NotQueued id q
    → NotQueued id (record_result j res o q).1
unfolding record_result
record_result-NotQueued id j res none q n = n
record_result-NotQueued id j res (some e) q n = record { nowhere = n.nowhere }

pub remove_from_pending-NotQueued :
    (id user j : Text) (q : Queue) → NotQueued id q → NotQueued id (remove_from_pending user j q).1
unfolding remove_from_pending
remove_from_pending-NotQueued id user j q n = elim (Bool-cases (has j (q.pending user))) [
  | inr k ↦ rw k n
  | inl k ↦ rw k (record {
    nowhere = λ u. elim (Bool-cases (has id (drop_id j (q.pending user)))) [
      | inl y ↦ ground (arith, n.nowhere u, n.nowhere user, has-drop_id j id (q.pending user) y)
      | inr y ↦ ground (arith, n.nowhere u, y)
    ];
  })
]

cancel_at-NotQueued :
    (s : Status) (id user j : Text) (e : JobEntry) (q : Queue)
    → NotQueued id q
    → NotQueued id (cancel_at s user j e q).1
unfolding cancel_at
cancel_at-NotQueued done id user j e q n = n
cancel_at-NotQueued error id user j e q n = n
cancel_at-NotQueued pending id user j e q n = record {
  nowhere = (remove_from_pending-NotQueued id user j q n).nowhere;
}

cancel_entry-NotQueued :
    (id user j : Text) (o : Option JobEntry) (q : Queue)
    → NotQueued id q
    → NotQueued id (cancel_entry user j o q).1
unfolding cancel_entry
cancel_entry-NotQueued id user j none q n = n
cancel_entry-NotQueued id user j (some e) q n = cancel_at-NotQueued e.status id user j e q n

set_result-NotQueued :
    (id user j : Text) (res : ResultRequest) (q : Queue)
    → NotQueued id q
    → NotQueued id (set_result user j res q).1
unfolding set_result
set_result-NotQueued id user j res q n = elim (Bool-cases (q.job_user j == user)) [
  | inl y ↦ rw y (record_result-NotQueued id j res (q.jobs j) q n)
  | inr y ↦ rw y n
]

cancel-NotQueued :
    (id user j : Text) (q : Queue) → NotQueued id q → NotQueued id (cancel user j q).1
unfolding cancel
cancel-NotQueued id user j q n = elim (Bool-cases (q.job_user j == user)) [
  | inl y ↦ rw y (cancel_entry-NotQueued id user j (q.jobs j) q n)
  | inr y ↦ rw y n
]

pub run-NotQueued :
    (id : Text) (ops : List Op) (q : Queue)
    → Avoids id ops
    → NotQueued id q
    → NotQueued id (run ops q)
unfolding run step
run-NotQueued id [] q a n = n
run-NotQueued id (enqueues user j job now ∷ ops) q a n =
    run-NotQueued id ops _ a.1 (enqueue-NotQueued id user j job now q a.0 n)
run-NotQueued id (claims user now ∷ ops) q a n = run-NotQueued id ops _ a (
    unfold claim_start in
    claim_or_wait-NotQueued id user (pop_locked user (polled user now q))
      (pop_locked-NotQueued id user _ (record { nowhere = n.nowhere })))
run-NotQueued id (wakes user now ∷ ops) q a n = run-NotQueued id ops _ a (
    unfold claim_woken in
    claim_found-NotQueued id (pop_locked user (polled user now q))
      (pop_locked-NotQueued id user _ (record { nowhere = n.nowhere })))
run-NotQueued id (gives_up user ch ∷ ops) q a n =
    run-NotQueued id ops _ a (unfold claim_timeout in record { nowhere = n.nowhere })
run-NotQueued id (results user j res ∷ ops) q a n =
    run-NotQueued id ops _ a (set_result-NotQueued id user j res q n)
run-NotQueued id (cancels user j ∷ ops) q a n =
    run-NotQueued id ops _ a (cancel-NotQueued id user j q n)
run-NotQueued id (reports user caps now ∷ ops) q a n =
    run-NotQueued id ops _ a (unfold report_capabilities in record { nowhere = n.nowhere })
run-NotQueued id (sweeps now ∷ ops) q a n =
    run-NotQueued id ops _ a (unfold sweep in record { nowhere = n.nowhere })
