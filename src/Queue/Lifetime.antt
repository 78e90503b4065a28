-- ===== src/Queue/Lifetime.antt =====
-- How long relay/queue.go keeps a job, and that a final status stays final.
use relayent.Base.{
  ℕ, ◌+◌, ◌≤◌, Text, ◌==◌, ◌≡◌, ◌≢◌, ◌⊎◌, refl, ap, sym, subst, ◌∙◌, List, [], ◌∷◌, Option, none,
  some, arith, eq_iff, Bool-cases, inl, inr,
}
use relayent.Api.{Job, Status, pending, done, error, ResultRequest}
use relayent.Queue.Defs.{
  Queue, JobEntry, enqueue, wake, pop_locked, claim_start, claim_woken, claim_found, claim_or_wait,
  claim_timeout, polled, update,
}
use relayent.Queue.Jobs.{
  set_result, record_result, cancel, cancel_entry, cancel_at, report_capabilities, sweep,
  with_result, cancelled_result,
}
use relayent.Queue.Invariant.{jobs-remove_from_pending}
use relayent.Queue.Steps.{
  Op, enqueues, claims, wakes, gives_up, results, cancels, reports, sweeps, step, run,
}

-- The same job at a later time: a status other than "pending" is not taken back.
pub record Follows (e e' : JobEntry) : Type 0 where
  pub job : e'.job ≡ e.job
  pub created_at : e'.created_at ≡ e.created_at
  pub settled : (e.status ≡ pending) ⊎ (e'.status ≢ pending)

abbrev pub Kept : JobEntry → Option JobEntry → Type 0
Kept e o = (e' : JobEntry) × (o ≡ some e') × Follows e e'

settled_of_status : (s : Status) → (s ≡ pending) ⊎ (s ≢ pending)
settled_of_status pending = inl refl
settled_of_status done = inr (λ h. cc h)
settled_of_status error = inr (λ h. cc h)

pub Follows-refl : (e : JobEntry) → Follows e e
Follows-refl e = record { job = refl; created_at = refl; settled = settled_of_status e.status }

Follows-result : (res : ResultRequest) (e : JobEntry) → Follows e (with_result res e)
Follows-result res e = record { job = refl; created_at = refl; settled = inr (λ h. ground arith) }

pub Follows-trans : (a b c : JobEntry) → Follows a b → Follows b c → Follows a c
Follows-trans a b c h k = record {
  job = cc (h.job, k.job);
  created_at = cc (h.created_at, k.created_at);
  settled = elim h.settled [
    | inl p ↦ inl p
    | inr n ↦ elim k.settled [ inl p ↦ elim (n p) [ ] | inr m ↦ inr m ]
  ];
}

jobs-wake : (user : Text) (ws : List ℕ) (q : Queue) → (wake user ws q).jobs ≡ q.jobs
unfolding wake
jobs-wake user [] q = refl
jobs-wake user (w ∷ ws) q = refl

pub jobs-claim_or_wait :
    (user : Text) (r : Option (Text × JobEntry) × Queue) → (claim_or_wait user r).1.jobs ≡ r.1.jobs
unfolding claim_or_wait
jobs-claim_or_wait user (none, q) = refl
jobs-claim_or_wait user (some (id, e), q) = refl

pub jobs-claim_found : (r : Option (Text × JobEntry) × Queue) → (claim_found r).1.jobs ≡ r.1.jobs
jobs-claim_found (none, q) = refl
jobs-claim_found (some (id, e), q) = refl

pub jobs-enqueue :
    (user j : Text) (job : Job) (now : ℕ) (q : Queue) (id : Text)
    → j ≢ id
    → (enqueue user j job now q).jobs id ≡ q.jobs id
unfolding enqueue
jobs-enqueue user j job now q id n =
    ap (λ (f : Text → Option JobEntry). f id) (jobs-wake user (q.waiters user) _) ∙ skipped _
  where
    skipped : (o : Option JobEntry) → update q.jobs j o id ≡ q.jobs id
    skipped o = ground (arith, eq_iff j id, n)

module _ (id : Text) (e : JobEntry) where
  same-Kept : (o : Option JobEntry) → o ≡ some e → Kept e o
  same-Kept o h = (e, h, Follows-refl e)

  write-Kept :
      (j : Text) (x x' : JobEntry) (q : Queue)
      → q.jobs j ≡ some x
      → q.jobs id ≡ some e
      → Follows x x'
      → Kept e (update q.jobs j (some x') id)
  write-Kept j x x' q h k f = elim (Bool-cases (j == id)) [
    | inl y ↦
        let same : x ≡ e = ground (arith, eq_iff j id) in
        (x', ground (arith, y), subst (λ z. Follows z x') same f)
    | inr n ↦ (e, ground (arith, n), Follows-refl e)
  ]

  record_result-Kept :
      (j : Text) (res : ResultRequest) (o : Option JobEntry) (q : Queue)
      → q.jobs j ≡ o
      → q.jobs id ≡ some e
      → Kept e ((record_result j res o q).1.jobs id)
  unfolding record_result
  record_result-Kept j res none q h k = same-Kept _ k
  record_result-Kept j res (some x) q h k = write-Kept j x _ q h k (Follows-result res x)

  set_result-Kept :
      (user j : Text) (res : ResultRequest) (q : Queue)
      → q.jobs id ≡ some e
      → Kept e ((set_result user j res q).1.jobs id)
  unfolding set_result
  set_result-Kept user j res q k = elim (Bool-cases (q.job_user j == user)) [
    | inl y ↦ rw y (record_result-Kept j res (q.jobs j) q refl k)
    | inr n ↦ rw n (same-Kept _ k)
  ]

  cancel_at-Kept :
      (s : Status) (user j : Text) (x : JobEntry) (q : Queue)
      → q.jobs j ≡ some x
      → q.jobs id ≡ some e
      → Kept e ((cancel_at s user j x q).1.jobs id)
  unfolding cancel_at
  cancel_at-Kept done user j x q h k = same-Kept _ k
  cancel_at-Kept error user j x q h k = same-Kept _ k
  cancel_at-Kept pending user j x q h k =
      rw (jobs-remove_from_pending user j q)
        (write-Kept j x _ q h k (Follows-result cancelled_result x))

  cancel_entry-Kept :
      (user j : Text) (o : Option JobEntry) (q : Queue)
      → q.jobs j ≡ o
      → q.jobs id ≡ some e
      → Kept e ((cancel_entry user j o q).1.jobs id)
  unfolding cancel_entry
  cancel_entry-Kept user j none q h k = same-Kept _ k
  cancel_entry-Kept user j (some x) q h k = cancel_at-Kept x.status user j x q h k

  cancel-Kept :
      (user j : Text) (q : Queue) → q.jobs id ≡ some e → Kept e ((cancel user j q).1.jobs id)
  unfolding cancel
  cancel-Kept user j q k = elim (Bool-cases (q.job_user j == user)) [
    | inl y ↦ rw y (cancel_entry-Kept user j (q.jobs j) q refl k)
    | inr n ↦ rw n (same-Kept _ k)
  ]

-- The janitor runs no later than `limit`, and the id is not enqueued again.
abbrev pub InTime : Text → ℕ → Op → Type 0
InTime id limit (enqueues user j job now) = j ≢ id
InTime id limit (sweeps now) = now ≤ limit
InTime id limit _ = Unit

abbrev pub AllInTime : Text → ℕ → List Op → Type 0
AllInTime id limit [] = Unit
AllInTime id limit (op ∷ ops) = InTime id limit op × AllInTime id limit ops

pub step-Kept :
    (op : Op) (id : Text) (e : JobEntry) (q : Queue)
    → InTime id (e.created_at + q.ttl) op
    → q.jobs id ≡ some e
    → Kept e ((step op q).jobs id)
unfolding step
step-Kept (enqueues user j job now) id e q a k =
    same-Kept id e _ (jobs-enqueue user j job now q id a ∙ k)
step-Kept (claims user now) id e q a k =
    unfold claim_start pop_locked in
    rw (jobs-claim_or_wait user (pop_locked user (polled user now q))) (same-Kept id e _ k)
step-Kept (wakes user now) id e q a k =
    unfold claim_woken pop_locked in
    rw (jobs-claim_found (pop_locked user (polled user now q))) (same-Kept id e _ k)
step-Kept (gives_up user ch) id e q a k = unfold claim_timeout in same-Kept id e _ k
step-Kept (results user j res) id e q a k = set_result-Kept id e user j res q k
step-Kept (cancels user j) id e q a k = cancel-Kept id e user j q k
step-Kept (reports user caps now) id e q a k = unfold report_capabilities in same-Kept id e _ k
step-Kept (sweeps now) id e q a k = unfold sweep in same-Kept id e _ (ground arith)

ttl-wake : (user : Text) (ws : List ℕ) (q : Queue) → (wake user ws q).ttl ≡ q.ttl
unfolding wake
ttl-wake user [] q = refl
ttl-wake user (w ∷ ws) q = refl

ttl-claim_or_wait :
    (user : Text) (r : Option (Text × JobEntry) × Queue) → (claim_or_wait user r).1.ttl ≡ r.1.ttl
unfolding claim_or_wait
ttl-claim_or_wait user (none, q) = refl
ttl-claim_or_wait user (some (id, e), q) = refl

ttl-claim_found : (r : Option (Text × JobEntry) × Queue) → (claim_found r).1.ttl ≡ r.1.ttl
ttl-claim_found (none, q) = refl
ttl-claim_found (some (id, e), q) = refl

ttl-cancel_at :
    (s : Status) (user id : Text) (e : JobEntry) (q : Queue)
    → (cancel_at s user id e q).1.ttl ≡ q.ttl
unfolding cancel_at
ttl-cancel_at done user id e q = refl
ttl-cancel_at error user id e q = refl
ttl-cancel_at pending user id e q = ground arith

ttl-cancel_entry :
    (user id : Text) (o : Option JobEntry) (q : Queue) → (cancel_entry user id o q).1.ttl ≡ q.ttl
unfolding cancel_entry
ttl-cancel_entry user id none q = refl
ttl-cancel_entry user id (some e) q = ttl-cancel_at e.status user id e q

pub ttl-cancel : (user id : Text) (q : Queue) → (cancel user id q).1.ttl ≡ q.ttl
unfolding cancel
ttl-cancel user id q = elim (Bool-cases (q.job_user id == user)) [
  | inl y ↦ rw y (ttl-cancel_entry user id (q.jobs id) q)
  | inr n ↦ rw n
]

pub ttl-step : (op : Op) (q : Queue) → (step op q).ttl ≡ q.ttl
unfolding step
ttl-step (enqueues user id job now) q = unfold enqueue in ttl-wake user (q.waiters user) _
ttl-step (claims user now) q =
    unfold claim_start pop_locked in ttl-claim_or_wait user (pop_locked user (polled user now q))
ttl-step (wakes user now) q =
    unfold claim_woken pop_locked in ttl-claim_found (pop_locked user (polled user now q))
ttl-step (gives_up user ch) q = unfold claim_timeout in refl
ttl-step (results user id res) q = unfold set_result record_result in ground arith
ttl-step (cancels user id) q = ttl-cancel user id q
ttl-step (reports user caps now) q = unfold report_capabilities in refl
ttl-step (sweeps now) q = unfold sweep in refl

pub run-Follows :
    (ops : List Op) (id : Text) (a e : JobEntry) (q : Queue)
    → AllInTime id (a.created_at + q.ttl) ops
    → q.jobs id ≡ some e
    → Follows a e
    → Kept a ((run ops q).jobs id)
unfolding run
run-Follows [] id a e q t k f = (e, k, f)
run-Follows (op ∷ ops) id a e q t k f =
    let at_e = subst (λ n. InTime id (n + q.ttl) op) (sym f.created_at) t.0 in
    let next = step-Kept op id e q at_e k in
    run-Follows ops id a next.0 (step op q)
      (subst (λ n. AllInTime id (a.created_at + n) ops) (sym (ttl-step op q)) t.1) next.1
      (Follows-trans a e next.0 f next.2)

pub ttl-run : (ops : List Op) (q : Queue) → (run ops q).ttl ≡ q.ttl
unfolding run
ttl-run [] q = refl
ttl-run (op ∷ ops) q = ttl-run ops (step op q) ∙ ttl-step op q
