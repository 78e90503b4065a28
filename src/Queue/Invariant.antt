-- ===== src/Queue/Invariant.antt =====
-- The invariant of the broker (relay/queue.go) and that every critical section keeps it.
use relayent.Base.{
  Bool-cases, Option-cases, inl, inr, ℕ, Text, ◌==◌, ◌≡◌, refl, Bool, List, [], ◌∷◌, Option, none,
  some, arith, eq_iff,
}
use relayent.Api.{Status, pending, done, error, Job, ResultRequest}
use relayent.Queue.Defs.{
  Queue, JobEntry, new_queue, wake, enqueue, pop_locked, claim_or_wait, claim_start, claim_woken,
  claim_timeout, polled, claim_found, update,
}
use relayent.Queue.Jobs.{
  set_result, record_result, cancel, cancel_entry, remove_from_pending, cancel_at, mark_cancelled,
  report_capabilities, sweep, has,
}
use relayent.Queue.Ids.{
  has-append, NoRepeat-append, has-drop_id, NoRepeat-drop_id, has-pop_ids, NoRepeat-pop_ids,
}
use relayent.Queue.Steps.{
  Op, enqueues, claims, wakes, gives_up, results, cancels, reports, sweeps, step, run, Allowed,
  AllAllowed, IsFresh, Inv,
}

-- Only these three maps matter to the invariant.
pub Inv-same :
    (p q : Queue)
    → q.pending ≡ p.pending
    → q.jobs ≡ p.jobs
    → q.job_user ≡ p.job_user
    → Inv p
    → Inv q
Inv-same p q a b c v = record {
  owned = rw (a, b, c) v.owned;
  unowned = rw (b, c) v.unowned;
  no_repeat = rw a v.no_repeat;
}

wake-Inv : (user : Text) (ws : List ℕ) (q : Queue) → Inv q → Inv (wake user ws q)
unfolding wake
wake-Inv user [] q v = v
wake-Inv user (w ∷ ws) q v = Inv-same q _ refl refl refl v

enqueue-Inv :
    (user id : Text) (job : Job) (now : ℕ) (q : Queue)
    → IsFresh id q
    → Inv q
    → Inv (enqueue user id job now q)
unfolding enqueue
enqueue-Inv user id job now q f v = wake-Inv user _ _ (record {
  owned = λ u j h n. ground (
    arith,
    eq_iff id j,
    eq_iff user u,
    v.owned u j,
    has-append j id (q.pending user),
    f.not_queued u,
  );
  unowned = λ j h. ground (arith, v.unowned j);
  no_repeat = λ u. ground (
    arith,
    eq_iff user u,
    v.no_repeat u,
    NoRepeat-append id (q.pending user) (v.no_repeat user) (f.not_queued user),
  );
})

pop_locked-Inv : (user : Text) (q : Queue) → Inv q → Inv (pop_locked user q).1
unfolding pop_locked
pop_locked-Inv user q v = record {
  owned =
      λ u j h n. ground (arith, eq_iff user u, v.owned u j, has-pop_ids q.jobs j (q.pending user));
  unowned = v.unowned;
  no_repeat = λ u. ground (
    arith,
    eq_iff user u,
    v.no_repeat u,
    NoRepeat-pop_ids q.jobs (q.pending user) (v.no_repeat user),
  );
}

polled-Inv : (user : Text) (now : ℕ) (q : Queue) → Inv q → Inv (polled user now q)
polled-Inv user now q v = Inv-same q _ refl refl refl v

claim_or_wait-Inv :
    (user : Text) (r : Option (Text × JobEntry) × Queue) → Inv r.1 → Inv (claim_or_wait user r).1
unfolding claim_or_wait
claim_or_wait-Inv user (some (id, e), q) v = v
claim_or_wait-Inv user (none, q) v = Inv-same q _ refl refl refl v

claim_found-Inv : (r : Option (Text × JobEntry) × Queue) → Inv r.1 → Inv (claim_found r).1
claim_found-Inv (some (id, e), q) v = v
claim_found-Inv (none, q) v = v

-- A write to an entry that is there keeps who owns it.
rewrite-Inv :
    (id : Text) (e e' : JobEntry) (q : Queue)
    → q.jobs id ≡ some e
    → Inv q
    → Inv (record q { jobs = update q.jobs id (some e') })
rewrite-Inv id e e' q h v = record {
  owned = λ u j k n. ground (arith, eq_iff id j, v.owned u j);
  unowned = λ j k. ground (arith, eq_iff id j, v.unowned j);
  no_repeat = v.no_repeat;
}

record_result-Inv :
    (id : Text) (res : ResultRequest) (o : Option JobEntry) (q : Queue)
    → q.jobs id ≡ o
    → Inv q
    → Inv (record_result id res o q).1
unfolding record_result
record_result-Inv id res none q h v = v
record_result-Inv id res (some e) q h v = rewrite-Inv id e _ q h v

pub remove_from_pending-Inv :
    (user id : Text) (q : Queue) → Inv q → Inv (remove_from_pending user id q).1
unfolding remove_from_pending
remove_from_pending-Inv user id q v = elim (Bool-cases (has id (q.pending user))) [
  | inl y ↦ rw y (record {
    owned =
        λ u j h n. ground (arith, eq_iff user u, v.owned u j, has-drop_id id j (q.pending user));
    unowned = v.unowned;
    no_repeat = λ u. ground (
      arith,
      eq_iff user u,
      v.no_repeat u,
      NoRepeat-drop_id id (q.pending user) (v.no_repeat user),
    );
  })
  | inr n ↦ rw n v
]

pub jobs-remove_from_pending :
    (user id : Text) (q : Queue) → (remove_from_pending user id q).1.jobs ≡ q.jobs
unfolding remove_from_pending
jobs-remove_from_pending user id q = ground arith

pub job_user-remove_from_pending :
    (user id : Text) (q : Queue) → (remove_from_pending user id q).1.job_user ≡ q.job_user
unfolding remove_from_pending
job_user-remove_from_pending user id q = ground arith

mark_cancelled-Inv :
    (id : Text) (e : JobEntry) (r : Bool × Queue)
    → r.1.jobs id ≡ some e
    → Inv r.1
    → Inv (mark_cancelled id e r).1
mark_cancelled-Inv id e (queued, q) h v = rewrite-Inv id e _ q h v

cancel_at-Inv :
    (s : Status) (user id : Text) (e : JobEntry) (q : Queue)
    → q.jobs id ≡ some e
    → Inv q
    → Inv (cancel_at s user id e q).1
unfolding cancel_at
cancel_at-Inv done user id e q h v = v
cancel_at-Inv error user id e q h v = v
cancel_at-Inv pending user id e q h v =
    mark_cancelled-Inv id e (remove_from_pending user id q)
      (cc (h, jobs-remove_from_pending user id q)) (remove_from_pending-Inv user id q v)

cancel_entry-Inv :
    (user id : Text) (o : Option JobEntry) (q : Queue)
    → q.jobs id ≡ o
    → Inv q
    → Inv (cancel_entry user id o q).1
unfolding cancel_entry
cancel_entry-Inv user id none q h v = v
cancel_entry-Inv user id (some e) q h v = cancel_at-Inv e.status user id e q h v

sweep-Inv : (now : ℕ) (q : Queue) → Inv q → Inv (sweep now q)
unfolding sweep
sweep-Inv now q v = record {
  owned = λ u j h n. elim (Option-cases (q.jobs j)) [
    | inl e ↦ absurd (n (ground arith))
    | inr (e, k) ↦ ground (arith, v.owned u j)
  ];
  unowned = λ j h. ground (arith, v.unowned j);
  no_repeat = v.no_repeat;
}

set_result-Inv :
    (user id : Text) (res : ResultRequest) (q : Queue) → Inv q → Inv (set_result user id res q).1
unfolding set_result
set_result-Inv user id res q v = elim (Bool-cases (q.job_user id == user)) [
  | inl y ↦ rw y (record_result-Inv id res (q.jobs id) q refl v)
  | inr n ↦ rw n v
]

cancel-Inv : (user id : Text) (q : Queue) → Inv q → Inv (cancel user id q).1
unfolding cancel
cancel-Inv user id q v = elim (Bool-cases (q.job_user id == user)) [
  | inl y ↦ rw y (cancel_entry-Inv user id (q.jobs id) q refl v)
  | inr n ↦ rw n v
]

-- Every critical section keeps the invariant; an enqueued id must be new.
pub step-Inv : (op : Op) (q : Queue) → Allowed op q → Inv q → Inv (step op q)
unfolding step
step-Inv (enqueues user id job now) q a v = enqueue-Inv user id job now q a v
step-Inv (claims user now) q a v =
    unfold claim_start in claim_or_wait-Inv user _ (pop_locked-Inv user _ (polled-Inv user now q v))
step-Inv (wakes user now) q a v =
    unfold claim_woken in claim_found-Inv _ (pop_locked-Inv user _ (polled-Inv user now q v))
step-Inv (gives_up user ch) q a v = unfold claim_timeout in Inv-same q _ refl refl refl v
step-Inv (results user id res) q a v = set_result-Inv user id res q v
step-Inv (cancels user id) q a v = cancel-Inv user id q v
step-Inv (reports user caps now) q a v = unfold report_capabilities in Inv-same q _ refl refl refl v
step-Inv (sweeps now) q a v = sweep-Inv now q v

pub run-Inv : (ops : List Op) (q : Queue) → AllAllowed ops q → Inv q → Inv (run ops q)
unfolding run
run-Inv [] q a v = v
run-Inv (op ∷ ops) q a v = run-Inv ops (step op q) a.1 (step-Inv op q a.0 v)

pub new_queue-Inv : (ttl online_window : ℕ) → Inv (new_queue ttl online_window)
unfolding new_queue has
new_queue-Inv ttl online_window = record {
  owned = λ u id h n. cc;
  unowned = λ id h. refl;
  no_repeat = λ u. tt;
}

-- In every history of a new broker whose job ids are new when they are enqueued: a queued id whose
-- job is there belongs to the user in whose queue it stands, an id without a job belongs to
-- nobody, and no queue holds an id twice.
pub run-new_queue-Inv :
    (ttl online_window : ℕ) (ops : List Op)
    → AllAllowed ops (new_queue ttl online_window)
    → Inv (run ops (new_queue ttl online_window))
run-new_queue-Inv ttl online_window ops a = run-Inv ops _ a (new_queue-Inv ttl online_window)
