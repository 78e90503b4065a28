-- ===== src/Queue/Cancel.antt =====
-- What `Cancel` of relay/queue.go prevents, and what it does not.
use relayent.Base.{
  ℕ, Text, ◌==◌, ◌≡◌, ◌≢◌, refl, Bool, true, false, List, [], ◌∷◌, Option, none, some, arith,
  eq_iff, Bool-cases, inl, inr, if◌then◌else◌,
}
use relayent.Api.{Job, Status, pending, done, error}
use relayent.Queue.Defs.{
  Queue, JobEntry, Claim, claimed, pop_ids, pop_locked, claim_start, claim_woken, claim_found,
  claim_or_wait,
}
use relayent.Queue.Jobs.{
  has, cancel, cancel_entry, cancel_at, mark_cancelled, was_pending, was_running,
  remove_from_pending,
}
use relayent.Queue.Ids.{has-drop_id_self}
use relayent.Queue.Steps.{Op, run, Inv}
use relayent.Queue.NotQueued.{NotQueued, Avoids, run-NotQueued}

mark_cancelled-jobs :
    (id : Text) (e : JobEntry) (r : Bool × Queue)
    → ((mark_cancelled id e r).1.pending ≡ r.1.pending)
      × ((mark_cancelled id e r).0 ≡ some (if r.0 then was_pending else was_running))
mark_cancelled-jobs id e (b, q) = (refl, refl)

remove-NotQueued :
    (user id : Text) (e : JobEntry) (q : Queue)
    → Inv q
    → q.jobs id ≡ some e
    → q.job_user id ≡ user
    → (remove_from_pending user id q).0 ≡ true
    → NotQueued id (remove_from_pending user id q).1
unfolding remove_from_pending
remove-NotQueued user id e q i h m t = record {
  nowhere = λ u. ground (
    arith,
    eq_iff user u,
    has-drop_id_self id (q.pending user) (i.no_repeat user),
    i.owned u id,
    Bool-cases (has id (q.pending u)),
  );
}

cancel_at-was_pending :
    (s : Status) (user id : Text) (e : JobEntry) (q : Queue)
    → Inv q
    → q.jobs id ≡ some e
    → q.job_user id ≡ user
    → (cancel_at s user id e q).0 ≡ some was_pending
    → NotQueued id (cancel_at s user id e q).1
unfolding cancel_at
cancel_at-was_pending done user id e q i h m c = cc
cancel_at-was_pending error user id e q i h m c = cc
cancel_at-was_pending pending user id e q i h m c =
    elim (Bool-cases (remove_from_pending user id q).0) [
      | inl y ↦ record { nowhere = (remove-NotQueued user id e q i h m y).nowhere }
      | inr y ↦ cc (y, c, (mark_cancelled-jobs id e (remove_from_pending user id q)).1)
    ]

cancel_entry-was_pending :
    (o : Option JobEntry) (user id : Text) (q : Queue)
    → Inv q
    → q.jobs id ≡ o
    → q.job_user id ≡ user
    → (cancel_entry user id o q).0 ≡ some was_pending
    → NotQueued id (cancel_entry user id o q).1
unfolding cancel_entry
cancel_entry-was_pending none user id q i h m c = cc
cancel_entry-was_pending (some e) user id q i h m c =
    cancel_at-was_pending e.status user id e q i h m c

cancel-NotQueued_after :
    (user id : Text) (q : Queue)
    → Inv q
    → (cancel user id q).0 ≡ some was_pending
    → NotQueued id (cancel user id q).1
unfolding cancel
cancel-NotQueued_after user id q i = elim (Bool-cases (q.job_user id == user)) [
  | inl y ↦ rw y (cancel_entry-was_pending (q.jobs id) user id q i refl ((eq_iff _ _).0 y))
  | inr n ↦ rw n (λ c. cc)
]

-- The claim does not hand out the job `id`.
abbrev pub Spares : Text → Claim → Type 0
Spares id c = (job : Job) → c ≢ claimed id job

pop_ids-spares :
    (jobs : Text → Option JobEntry) (xs : List Text) (id : Text) (e : JobEntry)
    → has id xs ≡ false
    → (pop_ids jobs xs).0 ≢ some (id, e)
unfolding pop_ids has
pop_ids-spares jobs [] id e n h = cc
pop_ids-spares jobs (x ∷ xs) id e n h = ground (arith, pop_ids-spares jobs xs id e, eq_iff x id)

claim_or_wait-Spares :
    (user id : Text) (r : Option (Text × JobEntry) × Queue)
    → ((e : JobEntry) → r.0 ≢ some (id, e))
    → Spares id (claim_or_wait user r).0
unfolding claim_or_wait
claim_or_wait-Spares user id (none, q) s job h = cc
claim_or_wait-Spares user id (some (j, e), q) s job h = s e (ground (arith, h))

claim_found-Spares :
    (id : Text) (r : Option (Text × JobEntry) × Queue)
    → ((e : JobEntry) → r.0 ≢ some (id, e))
    → Spares id (claim_found r).0
claim_found-Spares id (none, q) s job h = cc
claim_found-Spares id (some (j, e), q) s job h = s e (ground (arith, h))

NotQueued-Spares :
    (id v : Text) (now : ℕ) (q : Queue)
    → NotQueued id q
    → Spares id (claim_start v now q).0 × Spares id (claim_woken v now q).0
unfolding claim_start claim_woken pop_locked
NotQueued-Spares id v now q n = (
  claim_or_wait-Spares v id _ (λ e. pop_ids-spares q.jobs (q.pending v) id e (n.nowhere v)),
  claim_found-Spares id _ (λ e. pop_ids-spares q.jobs (q.pending v) id e (n.nowhere v)),
)

-- If `Cancel` answers "pending", no bridge of any user is handed that job later, neither at once nor
-- after waiting, whatever calls come in between (as long as the id is not enqueued again).
pub cancel_pending-Spares :
    (user id : Text) (q : Queue) (ops : List Op) (v : Text) (now : ℕ)
    → Inv q
    → (cancel user id q).0 ≡ some was_pending
    → Avoids id ops
    → Spares id (claim_start v now (run ops (cancel user id q).1)).0
      × Spares id (claim_woken v now (run ops (cancel user id q).1)).0
cancel_pending-Spares user id q ops v now i c a =
    NotQueued-Spares id v now _ (run-NotQueued id ops _ a (cancel-NotQueued_after user id q i c))
