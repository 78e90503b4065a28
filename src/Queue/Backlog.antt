-- ===== src/Queue/Backlog.antt =====
-- The contract of the broker (relay/queue.go): each user has a first-in first-out list of waiting
-- jobs, in which no id of a lost job shows. `spec_step` says what each call does to these lists.
use relayent.Base.{
  ℕ, ◌-◌, Text, ◌==◌, ◌&&◌, not, ltb, if◌then◌else◌, ◌≡◌, ◌≢◌, refl, Bool, true, false, List, [],
  ◌∷◌, ◌++◌, map, Option, none, some, arith, eq_iff, length, keep,
}
use relayent.Api.{Job, Status, pending, ResultRequest}
use relayent.Queue.Defs.{Queue, JobEntry, pop_ids, update}
use relayent.Queue.Jobs.{has, drop_id, with_result, outcome, evict, count_live}
use relayent.Queue.Steps.{
  Op, enqueues, claims, wakes, gives_up, results, cancels, reports, sweeps, NoRepeat,
}

pub record Waiting : Type 0 where
  pub id : Text
  pub job : Job
  pub status : Status
  pub created_at : ℕ

abbrev pub waiting : Text → JobEntry → Waiting
waiting id e = record { id = id; job = e.job; status = e.status; created_at = e.created_at }

unfoldable pub listing : (Text → Option JobEntry) → List Text → List Waiting
listing jobs [] = []
listing jobs (id ∷ ids) =
    let rest = listing jobs ids in elim (jobs id) [ some e ↦ waiting id e ∷ rest | none ↦ rest ]

-- The waiting jobs of a user, oldest first.
unfoldable pub backlog : Text → Queue → List Waiting
backlog user q = listing q.jobs (q.pending user)

abbrev pub tail : List Waiting → List Waiting
tail [] = []
tail (w ∷ ws) = ws

abbrev pub finish : Text → Status → Waiting → Waiting
finish id s w = if w.id == id then record w { status = s } else w

abbrev is_pending : Status → Bool
is_pending pending = true
is_pending _ = false

-- Takes out the entry with this id unless its result is already there.
unfoldable pub withdraw : Text → List Waiting → List Waiting
withdraw id [] = []
withdraw id (w ∷ ws) =
    let rest = withdraw id ws in if w.id == id && is_pending w.status then ws else w ∷ rest

abbrev pub at {ℓ} : {A : Type ℓ} → Text → Text → A → A → A
at user v new old = if user == v then new else old

-- The abstract transition, on the backlogs of all users; `ttl` is how long a job is kept.
abbrev pub spec_step : ℕ → Op → (Text → List Waiting) → Text → List Waiting
spec_step ttl (enqueues user id job now) b v =
    at user v (b v ++ record { id = id; job = job; status = pending; created_at = now } ∷ []) (b v)
spec_step ttl (claims user now) b v = at user v (tail (b v)) (b v)
spec_step ttl (wakes user now) b v = at user v (tail (b v)) (b v)
spec_step ttl (gives_up user ch) b v = b v
spec_step ttl (results user id res) b v = at user v (map (finish id (outcome res)) (b v)) (b v)
spec_step ttl (cancels user id) b v = at user v (withdraw id (b v)) (b v)
spec_step ttl (reports user caps now) b v = b v
spec_step ttl (sweeps now) b v = keep (λ w. not (ltb ttl (now - w.created_at))) (b v)

module _ (jobs : Text → Option JobEntry) where
  pub listing-append :
      (xs : List Text) (id : Text) (e : JobEntry)
      → jobs id ≡ some e
      → listing jobs (xs ++ id ∷ []) ≡ listing jobs xs ++ waiting id e ∷ []
  unfolding listing
  listing-append [] id e h = ground arith
  listing-append (x ∷ xs) id e h = ground (arith, listing-append xs id e h)

  pub listing-pop_ids : (xs : List Text) → listing jobs (pop_ids jobs xs).1 ≡ tail (listing jobs xs)
  unfolding listing pop_ids
  listing-pop_ids [] = refl
  listing-pop_ids (x ∷ xs) = ground (arith, listing-pop_ids xs)

  -- Ids that are written elsewhere do not count.
  pub listing-update :
      (id : Text) (o : Option JobEntry) (xs : List Text)
      → has id xs ≡ false
      → listing (update jobs id o) xs ≡ listing jobs xs
  unfolding listing has
  listing-update id o [] h = refl
  listing-update id o (x ∷ xs) h = ground (arith, listing-update id o xs, eq_iff id x, eq_iff x id)

  pub listing-result :
      (id : Text) (e : JobEntry) (res : ResultRequest) (xs : List Text)
      → jobs id ≡ some e
      → listing (update jobs id (some (with_result res e))) xs
        ≡ map (finish id (outcome res)) (listing jobs xs)
  unfolding listing
  listing-result id e res [] h = refl
  listing-result id e res (x ∷ xs) h =
      ground (arith, listing-result id e res xs h, eq_iff id x, eq_iff x id)

  pub listing-finish_absent :
      (id : Text) (s : Status) (xs : List Text)
      → (has id xs ≡ true → jobs id ≡ none)
      → map (finish id s) (listing jobs xs) ≡ listing jobs xs
  unfolding listing has
  listing-finish_absent id s [] h = refl
  listing-finish_absent id s (x ∷ xs) h =
      ground (arith, listing-finish_absent id s xs (λ k. h (ground (arith, k))), h, eq_iff x id)

  pub listing-withdraw_absent :
      (id : Text) (xs : List Text)
      → (has id xs ≡ true → jobs id ≡ none)
      → withdraw id (listing jobs xs) ≡ listing jobs xs
  unfolding listing has withdraw
  listing-withdraw_absent id [] h = refl
  listing-withdraw_absent id (x ∷ xs) h =
      ground (arith, listing-withdraw_absent id xs (λ k. h (ground (arith, k))), h, eq_iff x id)

  pub listing-withdraw_finished :
      (id : Text) (e : JobEntry) (xs : List Text)
      → jobs id ≡ some e
      → e.status ≢ pending
      → withdraw id (listing jobs xs) ≡ listing jobs xs
  unfolding listing withdraw
  listing-withdraw_finished id e [] h n = refl
  listing-withdraw_finished id e (x ∷ xs) h n =
      ground (arith, listing-withdraw_finished id e xs h n, eq_iff x id)

  pub listing-withdraw :
      (id : Text) (e : JobEntry) (o : Option JobEntry) (xs : List Text)
      → NoRepeat xs
      → jobs id ≡ some e
      → e.status ≡ pending
      → listing (update jobs id o) (drop_id id xs) ≡ withdraw id (listing jobs xs)
  unfolding listing drop_id withdraw
  listing-withdraw id e o [] r h n = refl
  listing-withdraw id e o (x ∷ xs) r h n =
      ground (
        arith,
        listing-withdraw id e o xs r.1 h n,
        listing-update id o xs,
        eq_iff x id,
        eq_iff id x,
      )

  pub listing-sweep :
      (ttl now : ℕ) (xs : List Text)
      → listing (λ id. evict ttl now (jobs id)) xs
        ≡ keep (λ w. not (ltb ttl (now - w.created_at))) (listing jobs xs)
  unfolding listing
  listing-sweep ttl now [] = refl
  listing-sweep ttl now (x ∷ xs) = ground (arith, listing-sweep ttl now xs)

  pub count_live-listing : (xs : List Text) → count_live jobs xs ≡ length (listing jobs xs)
  unfolding listing count_live
  count_live-listing [] = refl
  count_live-listing (x ∷ xs) = ground (arith, count_live-listing xs)
