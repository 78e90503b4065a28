-- ===== src/Queue/SameFor.antt =====
-- What a call to the broker (relay/queue.go) for one user leaves as it was for another.
use relayent.Base.{
  ℕ, Text, ◌==◌, ◌≡◌, ◌≢◌, refl, ap, Bool, true, false, List, [], ◌∷◌, Option, none, some, arith,
  eq_iff, eq-false_of_ne, Bool-cases, inl, inr,
}
use relayent.Api.{Status, pending, done, error, Job, ResultRequest}
use relayent.Queue.Defs.{
  Queue, JobEntry, wake, enqueue, pop_locked, claim_or_wait, polled, claim_found, update,
}
use relayent.Queue.Jobs.{
  set_result, record_result, cancel, cancel_entry, cancel_at, mark_cancelled, remove_from_pending,
  has,
}
use relayent.Queue.Steps.{
  Op, enqueues, claims, wakes, gives_up, results, cancels, reports, sweeps, IsFresh, Inv,
}
use relayent.Queue.Invariant.{
  jobs-remove_from_pending, job_user-remove_from_pending, remove_from_pending-Inv,
}

-- The call is made for another user. The janitor serves all and is left out.
abbrev pub ForOther : Text → Op → Type 0
ForOther v (enqueues user id job now) = user ≢ v
ForOther v (claims user now) = user ≢ v
ForOther v (wakes user now) = user ≢ v
ForOther v (gives_up user ch) = user ≢ v
ForOther v (results user id res) = user ≢ v
ForOther v (cancels user id) = user ≢ v
ForOther v (reports user caps now) = user ≢ v
ForOther v (sweeps now) = ⊥

abbrev pub AllForOther : Text → List Op → Type 0
AllForOther v [] = Unit
AllForOther v (op ∷ ops) = ForOther v op × AllForOther v ops

-- What belongs to the user `v` is the same in both states.
pub record SameFor (v : Text) (p q : Queue) : Type 0 where
  pub pending : q.pending v ≡ p.pending v
  pub waiters : q.waiters v ≡ p.waiters v
  pub last_poll : q.last_poll v ≡ p.last_poll v
  pub caps : q.caps v ≡ p.caps v
  pub window : q.online_window ≡ p.online_window
  pub queued : (id : Text) → has id (p.pending v) ≡ true → q.jobs id ≡ p.jobs id
  pub owned : (id : Text) → p.job_user id ≡ v → q.jobs id ≡ p.jobs id
  pub owner : (id : Text) → (q.job_user id == v) ≡ (p.job_user id == v)

pub SameFor-refl : (v : Text) (q : Queue) → SameFor v q q
SameFor-refl v q = record {
  pending = refl;
  waiters = refl;
  last_poll = refl;
  caps = refl;
  window = refl;
  queued = λ id h. refl;
  owned = λ id h. refl;
  owner = λ id. refl;
}

pub SameFor-trans : (v : Text) (p q r : Queue) → SameFor v p q → SameFor v q r → SameFor v p r
SameFor-trans v p q r a b = record {
  pending = cc;
  waiters = cc;
  last_poll = cc;
  caps = cc;
  window = cc;
  queued = λ id h. cc (b.queued id (rw a.pending h), a.queued id h);
  owned =
      λ id h. cc (b.owned id ((eq_iff _ _).0 (cc (a.owner id, (eq_iff _ _).1 h))), a.owned id h);
  owner = λ id. cc (a.owner id, b.owner id);
}

module _ (user v : Text) (other : user ≢ v) where
  pub differs : (user == v) ≡ false
  differs = eq-false_of_ne user v other

  pub wake-SameFor :
      (p : Queue) (ws : List ℕ) (q : Queue) → SameFor v p q → SameFor v p (wake user ws q)
  unfolding wake
  wake-SameFor p [] q s = s
  wake-SameFor p (w ∷ ws) q s = record {
    pending = s.pending;
    waiters = ground (arith, differs, s.waiters);
    last_poll = s.last_poll;
    caps = s.caps;
    window = s.window;
    queued = s.queued;
    owned = s.owned;
    owner = s.owner;
  }

  pub enqueue-SameFor :
      (id : Text) (job : Job) (now : ℕ) (q : Queue)
      → v ≢ []
      → IsFresh id q
      → Inv q
      → SameFor v q (enqueue user id job now q)
  unfolding enqueue
  enqueue-SameFor id job now q named f i = wake-SameFor q _ _ (record {
    pending = ground (arith, differs);
    waiters = refl;
    last_poll = refl;
    caps = refl;
    window = refl;
    queued = λ j h. ground (arith, eq_iff id j, f.not_queued v);
    owned = λ j h. ground (arith, eq_iff id j, i.unowned id f.no_job, named);
    owner = λ j.
        ground (arith, eq_iff id j, differs, i.unowned id f.no_job, eq_iff (q.job_user j) v, named);
  })

  pub pop_locked-SameFor : (q : Queue) → SameFor v q (pop_locked user q).1
  unfolding pop_locked
  pop_locked-SameFor q = record {
    pending = ground (arith, differs);
    waiters = refl;
    last_poll = refl;
    caps = refl;
    window = refl;
    queued = λ id h. refl;
    owned = λ id h. refl;
    owner = λ id. refl;
  }

  pub polled-SameFor : (now : ℕ) (q : Queue) → SameFor v q (polled user now q)
  polled-SameFor now q = record {
    pending = refl;
    waiters = refl;
    last_poll = ground (arith, differs);
    caps = refl;
    window = refl;
    queued = λ id h. refl;
    owned = λ id h. refl;
    owner = λ id. refl;
  }

  pub claim_or_wait-SameFor :
      (p : Queue) (r : Option (Text × JobEntry) × Queue)
      → SameFor v p r.1
      → SameFor v p (claim_or_wait user r).1
  unfolding claim_or_wait
  claim_or_wait-SameFor p (some (id, e), q) s = s
  claim_or_wait-SameFor p (none, q) s = record {
    pending = s.pending;
    waiters = ground (arith, differs, s.waiters);
    last_poll = s.last_poll;
    caps = s.caps;
    window = s.window;
    queued = s.queued;
    owned = s.owned;
    owner = s.owner;
  }

  pub claim_found-SameFor :
      (p : Queue) (r : Option (Text × JobEntry) × Queue)
      → SameFor v p r.1
      → SameFor v p (claim_found r).1
  claim_found-SameFor p (some (id, e), q) s = s
  claim_found-SameFor p (none, q) s = s

  -- A write to a live entry of another user.
  pub rewrite-SameFor :
      (id : Text) (o : Option JobEntry) (p q : Queue)
      → q.job_user id ≡ user
      → q.jobs id ≢ none
      → Inv q
      → SameFor v p q
      → SameFor v p (record q { jobs = update q.jobs id o })
  rewrite-SameFor id o p q mine live i s = record {
    pending = s.pending;
    waiters = s.waiters;
    last_poll = s.last_poll;
    caps = s.caps;
    window = s.window;
    queued =
        λ j h. ground (arith, eq_iff id j, s.queued j, other, ap (has j) s.pending, i.owned v id);
    owned = λ j h. ground (
      arith,
      eq_iff id j,
      s.owned j,
      other,
      s.owner j,
      eq_iff (q.job_user j) v,
      eq_iff (p.job_user j) v,
    );
    owner = s.owner;
  }

  pub record_result-SameFor :
      (id : Text) (res : ResultRequest) (o : Option JobEntry) (q : Queue)
      → q.jobs id ≡ o
      → q.job_user id ≡ user
      → Inv q
      → SameFor v q (record_result id res o q).1
  unfolding record_result
  record_result-SameFor id res none q h mine i = SameFor-refl v q
  record_result-SameFor id res (some e) q h mine i =
      rewrite-SameFor id _ q q mine (λ n. cc) i (SameFor-refl v q)

  pub remove_from_pending-SameFor :
      (id : Text) (q : Queue) → SameFor v q (remove_from_pending user id q).1
  unfolding remove_from_pending
  remove_from_pending-SameFor id q = elim (Bool-cases (has id (q.pending user))) [
    | inl y ↦ rw y (record {
      pending = ground (arith, differs);
      waiters = refl;
      last_poll = refl;
      caps = refl;
      window = refl;
      queued = λ j h. refl;
      owned = λ j h. refl;
      owner = λ j. refl;
    })
    | inr n ↦ rw n (SameFor-refl v q)
  ]

  pub mark_cancelled-SameFor :
      (id : Text) (e : JobEntry) (p : Queue) (r : Bool × Queue)
      → r.1.job_user id ≡ user
      → r.1.jobs id ≢ none
      → Inv r.1
      → SameFor v p r.1
      → SameFor v p (mark_cancelled id e r).1
  mark_cancelled-SameFor id e p (queued, q) mine live i s = rewrite-SameFor id _ p q mine live i s

  pub cancel_at-SameFor :
      (s : Status) (id : Text) (e : JobEntry) (q : Queue)
      → q.job_user id ≡ user
      → q.jobs id ≢ none
      → Inv q
      → SameFor v q (cancel_at s user id e q).1
  unfolding cancel_at
  cancel_at-SameFor done id e q mine live i = SameFor-refl v q
  cancel_at-SameFor error id e q mine live i = SameFor-refl v q
  cancel_at-SameFor pending id e q mine live i =
      mark_cancelled-SameFor id e q (remove_from_pending user id q)
        (cc (mine, job_user-remove_from_pending user id q))
        (λ n. live (cc (n, jobs-remove_from_pending user id q)))
        (remove_from_pending-Inv user id q i) (remove_from_pending-SameFor id q)

  pub cancel_entry-SameFor :
      (id : Text) (o : Option JobEntry) (q : Queue)
      → q.jobs id ≡ o
      → q.job_user id ≡ user
      → Inv q
      → SameFor v q (cancel_entry user id o q).1
  unfolding cancel_entry
  cancel_entry-SameFor id none q h mine i = SameFor-refl v q
  cancel_entry-SameFor id (some e) q h mine i = cancel_at-SameFor e.status id e q mine (λ n. cc) i

  pub set_result-SameFor :
      (id : Text) (res : ResultRequest) (q : Queue)
      → Inv q
      → SameFor v q (set_result user id res q).1
  unfolding set_result
  set_result-SameFor id res q i = elim (Bool-cases (q.job_user id == user)) [
    | inl y ↦ rw y (record_result-SameFor id res (q.jobs id) q refl ((eq_iff _ _).0 y) i)
    | inr n ↦ rw n (SameFor-refl v q)
  ]

  pub cancel-SameFor : (id : Text) (q : Queue) → Inv q → SameFor v q (cancel user id q).1
  unfolding cancel
  cancel-SameFor id q i = elim (Bool-cases (q.job_user id == user)) [
    | inl y ↦ rw y (cancel_entry-SameFor id (q.jobs id) q refl ((eq_iff _ _).0 y) i)
    | inr n ↦ rw n (SameFor-refl v q)
  ]
