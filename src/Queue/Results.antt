-- ===== src/Queue/Results.antt =====
-- What fetches answer after results, cancels and sweeps (relay/queue.go).
use relayent.Base.{
  ℕ, ◌+◌, Text, ◌==◌, ◌≡◌, ◌≢◌, refl, ap, sym, subst, ◌∙◌, true, false, List, none, some, arith,
  eq_iff, eq_refl, eq-false_of_ne, if◌then◌else◌,
}
use relayent.Api.{pending, done, error, ResultRequest}
use relayent.Queue.Defs.{Queue, JobEntry}
use relayent.Queue.Jobs.{
  set_result, cancel, cancel_entry, cancel_at, fetch_start, fetch_finish, Fetched, found, unknown,
  with_result, cancelled_result,
}
use relayent.Queue.Invariant.{job_user-remove_from_pending}
use relayent.Queue.Steps.{Op, run}
use relayent.Queue.Lifetime.{AllInTime, ttl-cancel, ttl-run}
use relayent.Queue.Ownership.{AllQuiet, run-stays}

-- What a fetch answers once the result is there.
abbrev pub reported : Text → ResultRequest → Fetched
reported id res = found (record {
  id = id;
  status = if res.ok then done else error;
  json = res.json;
  text = res.text;
  error = res.error;
})

with_result-final : (res : ResultRequest) (e : JobEntry) → (with_result res e).status ≢ pending
with_result-final res e h = ground (arith, h)

fetch-reported :
    (user id : Text) (res : ResultRequest) (wait : ℕ) (e : JobEntry) (q : Queue)
    → q.jobs id ≡ some (with_result res e)
    → q.job_user id ≡ user
    → (fetch_start user id wait q ≡ reported id res) × (fetch_finish id q ≡ reported id res)
unfolding fetch_start fetch_finish
fetch-reported user id res wait e q k m =
    (ground (arith, k, m, eq_iff (q.job_user id) user), ground (arith, k))

set_result-stored :
    (user id : Text) (res : ResultRequest) (e : JobEntry) (q : Queue)
    → q.job_user id ≡ user
    → q.jobs id ≡ some e
    → ((set_result user id res q).0 ≡ true)
      × ((set_result user id res q).1.jobs id ≡ some (with_result res e))
      × ((set_result user id res q).1.job_user id ≡ user)
      × ((set_result user id res q).1.ttl ≡ q.ttl)
unfolding set_result
set_result-stored user id res e q m h =
    let y : (q.job_user id == user) ≡ true = (eq_iff (q.job_user id) user).1 m in
    rw (y, h) (refl, rw (eq_refl id) refl, m, refl)

-- A result that the user posts for a job of its own that has none yet is accepted. From then on, whatever
-- is called, every fetch of that user returns it, at once or after waiting, with its payload and the
-- status of its `ok` flag: until the user posts another result for the job, or its TTL is over (or its id
-- is enqueued again).
pub set_result-fetch :
    (user id : Text) (res : ResultRequest) (wait : ℕ) (e : JobEntry) (q : Queue) (ops : List Op)
    → q.job_user id ≡ user
    → q.jobs id ≡ some e
    → e.status ≡ pending
    → AllInTime id (e.created_at + q.ttl) ops
    → AllQuiet user id ops
    → ((set_result user id res q).0 ≡ true)
      × (fetch_start user id wait (run ops (set_result user id res q).1) ≡ reported id res)
      × (fetch_finish id (run ops (set_result user id res q).1) ≡ reported id res)
set_result-fetch user id res wait e q ops m h p t quiet =
    let (ok, k, n, l) = set_result-stored user id res e q m h in
    let (k', n') =
      run-stays user id (with_result res e) (with_result-final res e) ops
        (set_result user id res q).1 (subst (λ c. AllInTime id (e.created_at + c) ops) (sym l) t)
        quiet n k in
    let (now, later) =
      fetch-reported user id res wait e (run ops (set_result user id res q).1) k' n' in
    (ok, now, later)

-- A caller that is not the job's user changes nothing and learns nothing: its result is refused, its
-- cancel and its fetch find no such job.
pub foreign_job :
    (user id : Text) (res : ResultRequest) (wait : ℕ) (q : Queue)
    → q.job_user id ≢ user
    → (set_result user id res q ≡ (false, q))
      × (cancel user id q ≡ (none, q))
      × (fetch_start user id wait q ≡ unknown)
unfolding set_result cancel fetch_start
foreign_job user id res wait q n = ground (arith, eq-false_of_ne (q.job_user id) user n)

cancel_at-jobs :
    (user id : Text) (e : JobEntry) (q : Queue)
    → ((cancel_at pending user id e q).1.jobs id ≡ some (with_result cancelled_result e))
      × ((cancel_at pending user id e q).1.job_user ≡ q.job_user)
unfolding cancel_at
cancel_at-jobs user id e q = (ground (arith, eq_refl id), job_user-remove_from_pending user id q)

cancel-jobs :
    (user id : Text) (e : JobEntry) (q : Queue)
    → q.job_user id ≡ user
    → q.jobs id ≡ some e
    → e.status ≡ pending
    → ((cancel user id q).1.jobs id ≡ some (with_result cancelled_result e))
      × ((cancel user id q).1.job_user ≡ q.job_user)
unfolding cancel cancel_entry
cancel-jobs user id e q m h p =
    rw ((eq_iff _ _).1 m, h, p, cancel_entry) (cancel_at-jobs user id e q)

-- A cancelled job is not protected against a late result. After a cancellation, whatever is called, every
-- fetch of the user returns the cancellation; but a bridge of the user may still post a result, which is
-- accepted, and from then on, whatever is called, every fetch returns it in place of the cancellation:
-- until the user posts another result for the job, or its TTL is over (or its id is enqueued again).
pub late_result :
    (user id : Text) (res : ResultRequest) (wait : ℕ) (e : JobEntry) (q : Queue)
    (between after : List Op)
    → q.job_user id ≡ user
    → q.jobs id ≡ some e
    → e.status ≡ pending
    → AllInTime id (e.created_at + q.ttl) between
    → AllQuiet user id between
    → AllInTime id (e.created_at + q.ttl) after
    → AllQuiet user id after
    → let cancelled = run between (cancel user id q).1 in
      let late = set_result user id res cancelled in
      (fetch_start user id wait cancelled ≡ reported id cancelled_result)
      × (fetch_finish id cancelled ≡ reported id cancelled_result)
      × (late.0 ≡ true)
      × (fetch_start user id wait (run after late.1) ≡ reported id res)
      × (fetch_finish id (run after late.1) ≡ reported id res)
late_result user id res wait e q between after m h p t quiet u silent =
    let e' = with_result cancelled_result e in
    let (c, o) = cancel-jobs user id e q m h p in
    let cancelled = run between (cancel user id q).1 in
    let (k, n) =
      run-stays user id e' (with_result-final cancelled_result e) between (cancel user id q).1
        (subst (λ l. AllInTime id (e.created_at + l) between) (sym (ttl-cancel user id q)) t) quiet
        (ap (λ (f : Text → Text). f id) o ∙ m) c in
    let (ok, k', n', l) = set_result-stored user id res e' cancelled n k in
    let (k'', n'') =
      run-stays user id (with_result res e') (with_result-final res e') after
        (set_result user id res cancelled).1
        (subst (λ x. AllInTime id (e.created_at + x) after)
          (sym (l ∙ ttl-run between (cancel user id q).1 ∙ ttl-cancel user id q)) u)
        silent n' k' in
    let (now, later) =
      fetch-reported user id res wait e' (run after (set_result user id res cancelled).1) k'' n'' in
    let (gone, still) = fetch-reported user id cancelled_result wait e cancelled k n in
    (gone, still, ok, now, later)
