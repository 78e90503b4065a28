-- ===== src/Queue/Isolation.antt =====
-- Tenants of the broker (relay/queue.go) do not see one another.
use relayent.Base.{ℕ, Text, ◌≡◌, ◌≢◌, refl, true, List, [], ◌∷◌, Option, arith, eq_iff, eq_refl}
use relayent.Queue.Defs.{
  Queue, JobEntry, pop_ids, pop_locked, claim_start, claim_woken, claim_timeout,
}
use relayent.Queue.Jobs.{
  report_capabilities, has, fetch_start, pending_count, count_live, capabilities, bridge_online,
}
use relayent.Queue.Steps.{
  Op, enqueues, claims, wakes, gives_up, results, cancels, reports, sweeps, step, run, Allowed,
  AllAllowed, Inv,
}
use relayent.Queue.Invariant.{step-Inv}
use relayent.Queue.SameFor.{
  ForOther, AllForOther, SameFor, SameFor-refl, SameFor-trans, differs, enqueue-SameFor,
  pop_locked-SameFor, polled-SameFor, claim_or_wait-SameFor, claim_found-SameFor,
  set_result-SameFor, cancel-SameFor,
}

-- A call for one user leaves what belongs to any other (named) user as it was.
pub step-SameFor :
    (op : Op) (v : Text) (q : Queue)
    → v ≢ []
    → Allowed op q
    → Inv q
    → ForOther v op
    → SameFor v q (step op q)
unfolding step
step-SameFor (enqueues user id job now) v q named a i o =
    enqueue-SameFor user v o id job now q named a i
step-SameFor (claims user now) v q named a i o =
    unfold claim_start in
    claim_or_wait-SameFor user v o q _
      (SameFor-trans v q _ _ (polled-SameFor user v o now q) (pop_locked-SameFor user v o _))
step-SameFor (wakes user now) v q named a i o =
    unfold claim_woken in
    claim_found-SameFor user v o q _
      (SameFor-trans v q _ _ (polled-SameFor user v o now q) (pop_locked-SameFor user v o _))
step-SameFor (gives_up user ch) v q named a i o =
    unfold claim_timeout in
    record {
      pending = refl;
      waiters = ground (arith, differs user v o);
      last_poll = refl;
      caps = refl;
      window = refl;
      queued = λ j h. refl;
      owned = λ j h. refl;
      owner = λ j. refl;
    }
step-SameFor (results user id res) v q named a i o = set_result-SameFor user v o id res q i
step-SameFor (cancels user id) v q named a i o = cancel-SameFor user v o id q i
step-SameFor (reports user caps now) v q named a i o =
    unfold report_capabilities in
    record {
      pending = refl;
      waiters = refl;
      last_poll = refl;
      caps = ground (arith, differs user v o);
      window = refl;
      queued = λ j h. refl;
      owned = λ j h. refl;
      owner = λ j. refl;
    }
step-SameFor (sweeps now) v q named a i o = absurd o

run-SameFor :
    (ops : List Op) (v : Text) (q : Queue)
    → v ≢ []
    → AllAllowed ops q
    → Inv q
    → AllForOther v ops
    → SameFor v q (run ops q)
unfolding run
run-SameFor [] v q named a i o = SameFor-refl v q
run-SameFor (op ∷ ops) v q named a i o =
    SameFor-trans v q (step op q) _ (step-SameFor op v q named a.0 i o.0)
      (run-SameFor ops v (step op q) named a.1 (step-Inv op q a.0 i) o.1)

module _ (p q : Text → Option JobEntry) where
  pop_ids-same :
      (xs : List Text)
      → ((id : Text) → has id xs ≡ true → q id ≡ p id)
      → pop_ids q xs ≡ pop_ids p xs
  unfolding pop_ids has
  pop_ids-same [] h = refl
  pop_ids-same (x ∷ xs) h =
      ground
        (arith, h x (ground (arith, eq_refl x)), pop_ids-same xs (λ id k. h id (ground (arith, k))))

  count_live-same :
      (xs : List Text)
      → ((id : Text) → has id xs ≡ true → q id ≡ p id)
      → count_live q xs ≡ count_live p xs
  unfolding count_live has
  count_live-same [] h = refl
  count_live-same (x ∷ xs) h = ground (
    arith,
    h x (ground (arith, eq_refl x)),
    count_live-same xs (λ id k. h id (ground (arith, k))),
  )

-- What a user can find out from the broker: the answer to a fetch, the job that the next claim
-- gets, the number of queued jobs, the capabilities and the presence of a bridge.
pub record SameAnswers (v : Text) (p q : Queue) : Type 0 where
  pub fetched : (id : Text) (wait : ℕ) → fetch_start v id wait q ≡ fetch_start v id wait p
  pub next : (pop_locked v q).0 ≡ (pop_locked v p).0
  pub count : pending_count v q ≡ pending_count v p
  pub reported : (now : ℕ) → capabilities v now q ≡ capabilities v now p
  pub online : (now : ℕ) → bridge_online v now q ≡ bridge_online v now p

SameFor-answers : (v : Text) (p q : Queue) → SameFor v p q → SameAnswers v p q
unfolding fetch_start pop_locked pending_count capabilities
SameFor-answers v p q s = record {
  fetched = λ id wait. ground (arith, s.owner id, s.owned id, eq_iff (p.job_user id) v);
  next = ground (arith, s.pending, pop_ids-same p.jobs q.jobs (p.pending v) s.queued);
  count = ground (arith, s.pending, count_live-same p.jobs q.jobs (p.pending v) s.queued);
  reported = λ now. ground (arith, s.caps, s.last_poll, s.window);
  online = λ now. ground (arith, s.last_poll, s.window);
}

-- Whatever sequence of calls is made for other users (no sweep of the janitor among them, and with
-- new job ids), the broker's answers to a named user stay the same.
pub run-SameAnswers :
    (ops : List Op) (v : Text) (q : Queue)
    → v ≢ []
    → AllAllowed ops q
    → Inv q
    → AllForOther v ops
    → SameAnswers v q (run ops q)
run-SameAnswers ops v q named a i o = SameFor-answers v q _ (run-SameFor ops v q named a i o)
