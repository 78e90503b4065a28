-- ===== src/Server/Enqueue.antt =====
-- relay/main.go: what an enqueue and a result leave in the queue.
use relayent.Base.{
  ℕ, Text, ◌==◌, ◌&&◌, ◌≡◌, ◌≢◌, refl, ap, Bool, true, false, [], ◌⊎◌, arith, Bool-cases, inl, inr,
}
use relayent.Api.{EnqueueRequest}
use relayent.Strings.{trim_space}
use relayent.Security.Limiter.{Limiter, allow}
use relayent.Queue.Defs.{enqueue}
use relayent.Bolt.{Bolt}
use relayent.Store.Records.{Principal, can, scope_enqueue}
use relayent.Server.Defs.{Decoded, decode_or, decoded, empty_body, invalid_json, Response, Server}
use relayent.Server.Broker.{
  Routed, routes, refuses, route_target, handle_enqueue, enqueue_body, enqueue_routed,
  enqueue_limited, job_of, backend_off, is_nil, appended, audit_enqueue,
}
use relayent.Server.Routing.{MayActFor, routed-MayActFor}

module _ (bolt : Bolt) where
  -- What holds of an enqueue that was accepted, and the server that it leaves.
  pub record Accepted (body : Decoded EnqueueRequest) (id : Text) (now : ℕ) (p : Principal)
      (s s' : Server bolt) : Type 0 where
    pub request : EnqueueRequest
    pub user : Text
    pub read : body ≡ decoded request
    pub permitted : can p scope_enqueue ≡ true
    pub backend-on : backend_off bolt request.backend s ≡ false
    pub within_rate : (allow user now s.job_limit).0 ≡ true
    pub acts_for : MayActFor bolt p request.target_user user s
    pub queued : s'.q ≡ enqueue user id (job_of id request) now s.q
    pub audited : s'.store ≡ appended bolt (audit_enqueue bolt p id user request) now s.store

  -- Refused without a trace in the queue and the store, or accepted.
  abbrev pub Outcome :
      Decoded EnqueueRequest → Text → ℕ → Principal → Server bolt → Response × Server bolt → Type 0
  Outcome body id now p s (res, s') =
      (res.status ≢ 202) × (s'.q ≡ s.q) × (s'.store ≡ s.store)
      ⊎ (res.status ≡ 202) × Accepted body id now p s s'

  limited-Outcome :
      (req : EnqueueRequest) (id : Text) (now : ℕ) (p : Principal) (s : Server bolt) (user : Text)
      (o : Bool × Limiter)
      → allow user now s.job_limit ≡ o
      → MayActFor bolt p req.target_user user s
      → can p scope_enqueue ≡ true
      → backend_off bolt req.backend s ≡ false
      → Outcome (decoded req) id now p s (enqueue_limited bolt p id now req user o s)
  limited-Outcome req id now p s user (false, l) e m c b = inl (λ h. omega arith, refl, refl)
  limited-Outcome req id now p s user (true, l) e m c b = inr (
    refl,
    record {
      request = req;
      user = user;
      read = refl;
      permitted = c;
      backend-on = b;
      within_rate = ap (λ (o : Bool × Limiter). o.0) e;
      acts_for = m;
      queued = refl;
      audited = refl;
    },
  )

  routed-Outcome :
      (req : EnqueueRequest) (id : Text) (now : ℕ) (p : Principal) (s : Server bolt) (to : Routed)
      → route_target bolt p req.target_user s ≡ to
      → can p scope_enqueue ≡ true
      → backend_off bolt req.backend s ≡ false
      → Outcome (decoded req) id now p s (enqueue_routed bolt p id now req to s)
  routed-Outcome req id now p s (refuses f) e c b = inl (λ h. omega arith, refl, refl)
  routed-Outcome req id now p s (routes user) e c b =
      limited-Outcome req id now p s user (allow user now s.job_limit) refl
        (routed-MayActFor bolt p req.target_user user s e) c b

  body-Outcome :
      (req : EnqueueRequest) (id : Text) (now : ℕ) (p : Principal) (s : Server bolt)
      → can p scope_enqueue ≡ true
      → Outcome (decoded req) id now p s (enqueue_body bolt p id now req s)
  body-Outcome req id now p s c = elim (Bool-cases (trim_space req.backend == [])) [
    | inl y ↦ rw y (inl (λ h. omega arith, refl, refl))
    | inr n ↦ elim (Bool-cases (trim_space req.prompt == [] && is_nil req.messages)) [
      | inl y ↦ rw (n, y) (inl (λ h. omega arith, refl, refl))
      | inr m ↦ elim (Bool-cases (backend_off bolt req.backend s)) [
        | inl y ↦ rw (n, m, y) (inl (λ h. omega arith, refl, refl))
        | inr b ↦
            rw (n, m, b)
              (routed-Outcome req id now p s (route_target bolt p req.target_user s) refl c b)
      ]
    ]
  ]

  decoded-Outcome :
      (body : Decoded EnqueueRequest) (id : Text) (now : ℕ) (p : Principal) (s : Server bolt)
      → can p scope_enqueue ≡ true
      → Outcome body id now p s
          (decode_or body (λ r. (r, s)) (λ req. enqueue_body bolt p id now req s))
  decoded-Outcome empty_body id now p s c = inl (λ h. omega arith, refl, refl)
  decoded-Outcome invalid_json id now p s c = inl (λ h. omega arith, refl, refl)
  decoded-Outcome (decoded req) id now p s c = body-Outcome req id now p s c

  -- Either an enqueue is refused, and then the queue and the store are as before, or it is answered
  -- with 202, and then the principal has the scope and acts for itself or, as an app, for the active
  -- user that it names, the backend is not switched off, that user is within its rate, and the job is
  -- enqueued for that user and audited.
  pub handle_enqueue-Outcome :
      (body : Decoded EnqueueRequest) (id : Text) (now : ℕ) (p : Principal) (s : Server bolt)
      → Outcome body id now p s (handle_enqueue bolt body id now p s)
  unfolding handle_enqueue
  handle_enqueue-Outcome body id now p s = elim (Bool-cases (can p scope_enqueue)) [
    | inr n ↦ rw n (inl (λ h. omega arith, refl, refl))
    | inl c ↦ rw c (decoded-Outcome body id now p s c)
  ]
