-- ===== src/Queue/Ownership.antt =====
-- relay/queue.go: a job that is kept keeps its owner, and a result that was posted stays.
use relayent.Base.{
  ℕ, ◌+◌, Text, ◌==◌, ◌≡◌, ◌≢◌, refl, ap, sym, subst, ◌∙◌, false, List, [], ◌∷◌, Option, none, some,
  arith, eq_iff, Bool-cases, inl, inr, ◌⊎◌,
}
use relayent.Api.{Job, Status, pending, done, error, ResultRequest}
use relayent.Queue.Defs.{
  Queue, JobEntry, enqueue, wake, pop_locked, claim_start, claim_woken, claim_found, claim_or_wait,
  claim_timeout, polled,
}
use relayent.Queue.Jobs.{
  set_result, record_result, cancel, cancel_entry, cancel_at, report_capabilities, sweep, Fetched,
  found, fetch_start, fetch_finish,
}
use relayent.Queue.Invariant.{job_user-remove_from_pending, jobs-remove_from_pending}
use relayent.Queue.Steps.{
  Op, enqueues, claims, wakes, gives_up, results, cancels, reports, sweeps, step, run,
}
use relayent.Queue.Lifetime.{
  InTime, AllInTime, Follows, step-Kept, ttl-step, run-Follows, Follows-refl, Follows-trans,
  jobs-enqueue, jobs-claim_or_wait, jobs-claim_found,
}

owner-wake : (user : Text) (ws : List ℕ) (q : Queue) → (wake user ws q).job_user ≡ q.job_user
unfolding wake
owner-wake user [] q = refl
owner-wake user (w ∷ ws) q = refl

owner-claim_or_wait :
    (user : Text) (r : Option (Text × JobEntry) × Queue)
    → (claim_or_wait user r).1.job_user ≡ r.1.job_user
unfolding claim_or_wait
owner-claim_or_wait user (none, q) = refl
owner-claim_or_wait user (some (id, e), q) = refl

owner-claim_found :
    (r : Option (Text × JobEntry) × Queue) → (claim_found r).1.job_user ≡ r.1.job_user
owner-claim_found (none, q) = refl
owner-claim_found (some (id, e), q) = refl

owner-enqueue :
    (user j : Text) (job : Job) (now : ℕ) (q : Queue) (id : Text)
    → j ≢ id
    → (enqueue user j job now q).job_user id ≡ q.job_user id
unfolding enqueue
owner-enqueue user j job now q id n =
    ap (λ (f : Text → Text). f id) (owner-wake user (q.waiters user) _)
    ∙ ground (arith, eq_iff j id, n)

owner-cancel_at :
    (s : Status) (user id : Text) (e : JobEntry) (q : Queue)
    → (cancel_at s user id e q).1.job_user ≡ q.job_user
unfolding cancel_at
owner-cancel_at done user id e q = refl
owner-cancel_at error user id e q = refl
owner-cancel_at pending user id e q = job_user-remove_from_pending user id q

owner-cancel_entry :
    (user id : Text) (o : Option JobEntry) (q : Queue)
    → (cancel_entry user id o q).1.job_user ≡ q.job_user
unfolding cancel_entry
owner-cancel_entry user id none q = refl
owner-cancel_entry user id (some e) q = owner-cancel_at e.status user id e q

owner-cancel : (user id : Text) (q : Queue) → (cancel user id q).1.job_user ≡ q.job_user
unfolding cancel
owner-cancel user id q = elim (Bool-cases (q.job_user id == user)) [
  | inl y ↦ rw y (owner-cancel_entry user id (q.jobs id) q)
  | inr n ↦ rw n refl
]

owner-set_result :
    (user id : Text) (res : ResultRequest) (q : Queue)
    → (set_result user id res q).1.job_user ≡ q.job_user
unfolding set_result record_result
owner-set_result user id res q = ground arith

-- A call in time leaves a job that is there to its owner.
pub step-owner :
    (op : Op) (id : Text) (e : JobEntry) (q : Queue)
    → InTime id (e.created_at + q.ttl) op
    → q.jobs id ≡ some e
    → (step op q).job_user id ≡ q.job_user id
unfolding step
step-owner (enqueues user j job now) id e q a k = owner-enqueue user j job now q id a
step-owner (claims user now) id e q a k =
    unfold claim_start pop_locked in
    ap (λ (f : Text → Text). f id) (owner-claim_or_wait user (pop_locked user (polled user now q)))
step-owner (wakes user now) id e q a k =
    unfold claim_woken pop_locked in
    ap (λ (f : Text → Text). f id) (owner-claim_found (pop_locked user (polled user now q)))
step-owner (gives_up user ch) id e q a k = unfold claim_timeout in refl
step-owner (results user j res) id e q a k =
    ap (λ (f : Text → Text). f id) (owner-set_result user j res q)
step-owner (cancels user j) id e q a k = ap (λ (f : Text → Text). f id) (owner-cancel user j q)
step-owner (reports user caps now) id e q a k = unfold report_capabilities in refl
step-owner (sweeps now) id e q a k = unfold sweep in rw k (ground arith)

run-owner :
    (ops : List Op) (id : Text) (a e : JobEntry) (q : Queue)
    → AllInTime id (a.created_at + q.ttl) ops
    → q.jobs id ≡ some e
    → Follows a e
    → (run ops q).job_user id ≡ q.job_user id
unfolding run
run-owner [] id a e q t k f = refl
run-owner (op ∷ ops) id a e q t k f =
    let at_e = subst (λ n. InTime id (n + q.ttl) op) (sym f.created_at) t.0 in
    let next = step-Kept op id e q at_e k in
    run-owner ops id a next.0 (step op q)
      (subst (λ n. AllInTime id (a.created_at + n) ops) (sym (ttl-step op q)) t.1) next.1
      (Follows-trans a e next.0 f next.2)
    ∙ step-owner op id e q at_e k

-- What a fetch answers for an entry.
abbrev pub shows : Text → JobEntry → Fetched
shows id e = found (record {
  id = id;
  status = e.status;
  json = e.result.json;
  text = e.result.text;
  error = e.result.error;
})

fetch-shows :
    (user id : Text) (e : JobEntry) (q : Queue)
    → q.job_user id ≡ user
    → q.jobs id ≡ some e
    → (fetch_start user id 0 q ≡ shows id e) × (fetch_finish id q ≡ shows id e)
unfolding fetch_start fetch_finish
fetch-shows user id e q m k = elim (status_cases e.status) [
  | inl p ↦ (ground (arith, eq_iff (q.job_user id) user, m, k, p), ground (arith, k))
  | inr (inl p) ↦ (ground (arith, eq_iff (q.job_user id) user, m, k, p), ground (arith, k))
  | inr (inr p) ↦ (ground (arith, eq_iff (q.job_user id) user, m, k, p), ground (arith, k))
]
  where
    status_cases : (s : Status) → (s ≡ pending) ⊎ ((s ≡ done) ⊎ (s ≡ error))
    status_cases pending = inl refl
    status_cases done = inr (inl refl)
    status_cases error = inr (inr refl)

-- Until its TTL is over a job stays fetchable by its user, whatever is called (as long as its id is not
-- enqueued again): a fetch that does not wait, or has waited, shows its present entry, which has the
-- job's content and its time of creation; and once it has the status "done" or "error" it never has the
-- status "pending" again.
pub run-Kept :
    (ops : List Op) (user id : Text) (e : JobEntry) (q : Queue)
    → AllInTime id (e.created_at + q.ttl) ops
    → q.job_user id ≡ user
    → q.jobs id ≡ some e
    → (e' : JobEntry) × ((run ops q).jobs id ≡ some e')
      × Follows e e'
      × (fetch_start user id 0 (run ops q) ≡ shows id e')
      × (fetch_finish id (run ops q) ≡ shows id e')
run-Kept ops user id e q t m k =
    let (e', k', f) = run-Follows ops id e e q t k (Follows-refl e) in
    let (s, d) =
      fetch-shows user id e' (run ops q) (run-owner ops id e e q t k (Follows-refl e) ∙ m) k' in
    (e', k', f, s, d)

-- The user posts no result for the job.
abbrev pub IsQuiet : Text → Text → Op → Type 0
IsQuiet user id (results u j res) = (j ≢ id) ⊎ (u ≢ user)
IsQuiet user id _ = Unit

abbrev pub AllQuiet : Text → Text → List Op → Type 0
AllQuiet user id [] = Unit
AllQuiet user id (op ∷ ops) = IsQuiet user id op × AllQuiet user id ops

module _ (user id : Text) (e : JobEntry) (final : e.status ≢ pending) where
  set_result-stays :
      (u j : Text) (res : ResultRequest) (q : Queue)
      → (j ≢ id) ⊎ (u ≢ user)
      → q.job_user id ≡ user
      → q.jobs id ≡ some e
      → (set_result u j res q).1.jobs id ≡ some e
  unfolding set_result record_result
  set_result-stays u j res q quiet m k = elim (Bool-cases (q.job_user j == u)) [
    | inr n ↦ rw n k
    | inl y ↦ elim (Bool-cases (j == id)) [
      | inr n ↦ rw y (other (q.jobs j) n)
      | inl s ↦
          let same : j ≡ id = (eq_iff j id).0 s in
          let own : u ≡ user = sym ((eq_iff (q.job_user j) u).0 y) ∙ ap q.job_user same ∙ m in
          elim quiet [ inl n ↦ absurd (n same) | inr n ↦ absurd (n own) ]
    ]
  ]
    where
      other :
          (o : Option JobEntry) → (j == id) ≡ false → (record_result j res o q).1.jobs id ≡ some e
      other none n = k
      other (some x) n = ground (arith, n, k)

  cancel_at-stays :
      (s : Status) (u j : Text) (x : JobEntry) (q : Queue)
      → x.status ≡ s
      → q.jobs j ≡ some x
      → q.jobs id ≡ some e
      → (cancel_at s u j x q).1.jobs id ≡ some e
  unfolding cancel_at
  cancel_at-stays done u j x q p h k = k
  cancel_at-stays error u j x q p h k = k
  cancel_at-stays pending u j x q p h k = elim (Bool-cases (j == id)) [
    | inr n ↦ rw (jobs-remove_from_pending u j q) (ground (arith, n, k))
    | inl y ↦
        let same : x ≡ e = ground (arith, eq_iff j id, y, h, k) in
        absurd (final (ap (λ (z : JobEntry). z.status) (sym same) ∙ p))
  ]

  cancel-stays : (u j : Text) (q : Queue) → q.jobs id ≡ some e → (cancel u j q).1.jobs id ≡ some e
  unfolding cancel cancel_entry
  cancel-stays u j q k = elim (Bool-cases (q.job_user j == u)) [
    | inr n ↦ rw n k
    | inl y ↦ rw y (entry (q.jobs j) refl)
  ]
    where
      entry : (o : Option JobEntry) → q.jobs j ≡ o → (cancel_entry u j o q).1.jobs id ≡ some e
      entry none h = k
      entry (some x) h = cancel_at-stays x.status u j x q refl h k

  step-stays :
      (op : Op) (q : Queue)
      → InTime id (e.created_at + q.ttl) op
      → IsQuiet user id op
      → q.job_user id ≡ user
      → q.jobs id ≡ some e
      → (step op q).jobs id ≡ some e
  unfolding step
  step-stays (enqueues u j job now) q a quiet m k = jobs-enqueue u j job now q id a ∙ k
  step-stays (claims u now) q a quiet m k =
      unfold claim_start pop_locked in rw (jobs-claim_or_wait u (pop_locked u (polled u now q))) k
  step-stays (wakes u now) q a quiet m k =
      unfold claim_woken pop_locked in rw (jobs-claim_found (pop_locked u (polled u now q))) k
  step-stays (gives_up u ch) q a quiet m k = unfold claim_timeout in k
  step-stays (results u j res) q a quiet m k = set_result-stays u j res q quiet m k
  step-stays (cancels u j) q a quiet m k = cancel-stays u j q k
  step-stays (reports u caps now) q a quiet m k = unfold report_capabilities in k
  step-stays (sweeps now) q a quiet m k = unfold sweep in ground arith

  -- A final entry stays as it is until its user posts a result for it.
  pub run-stays :
      (ops : List Op) (q : Queue)
      → AllInTime id (e.created_at + q.ttl) ops
      → AllQuiet user id ops
      → q.job_user id ≡ user
      → q.jobs id ≡ some e
      → ((run ops q).jobs id ≡ some e) × ((run ops q).job_user id ≡ user)
  unfolding run
  run-stays [] q t quiet m k = (k, m)
  run-stays (op ∷ ops) q t quiet m k =
      run-stays ops (step op q)
        (subst (λ n. AllInTime id (e.created_at + n) ops) (sym (ttl-step op q)) t.1) quiet.1
        (step-owner op id e q t.0 k ∙ m) (step-stays op q t.0 quiet.0 m k)
