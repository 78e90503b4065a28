-- ===== src/Security/LimiterBounds.antt =====
-- relay/security.go: how many requests the limiter lets through.
use native.Mathlib.Nat.{add-mul}
use relayent.Base.{
  ◌&&◌, ℕ, ◌+◌, ◌-◌, ◌*◌, ◌≤◌, zero, suc, Text, ◌==◌, leb, if◌then◌else◌, ◌≡◌, refl, subst, Bool,
  true, false, Option, none, some, List, [], ◌∷◌, arith, eq_iff, eq_refl, Bool-cases, Option-cases,
  inl, inr,
}
use relayent.Security.Limiter.{Limiter, Bucket, capacity, capped, allow, sweep_buckets, idle_limit}

-- The amount that a caller has at a time, refill included.
abbrev pub level_of : ℕ → Option Bucket → ℕ → ℕ
level_of cap none now = cap
level_of cap (some b) now = capped cap (b.tokens + (now - b.last))

unfoldable pub level : Limiter → Text → ℕ → ℕ
level l id now = level_of (capacity l) (l.buckets id) now

one_less : (b p : ℕ) → 1 ≤ b → (b - 1) * p + p ≡ b * p
one_less zero p h = elim h [ ]
one_less (suc b) p h = let e : suc b - 1 ≡ b = omega arith in rw e (omega arith)

-- A request is let through exactly when its caller has at least the amount of one token, and then it
-- costs exactly one token; a refused request costs nothing.
allow-level :
    (id : Text) (now : ℕ) (l : Limiter)
    → 1 ≤ l.burst
    → ((allow id now l).0 ≡ leb l.period (level l id now))
      × (level (allow id now l).1 id now + (if (allow id now l).0 then l.period else 0)
          ≡ level l id now)
unfolding allow level
allow-level id now l h = elim (Option-cases (l.buckets id)) [
  | inl e ↦ (
    rw (e, allow) (ground (arith, one_less l.burst l.period h)),
    rw (e, allow) (ground (arith, one_less l.burst l.period h, eq_refl id)),
  )
  | inr (b, e) ↦ (rw (e, allow) (ground arith), rw (e, allow) (ground (arith, eq_refl id)))
]

-- Other callers keep what they have.
allow-other :
    (id other : Text) (now : ℕ) (l : Limiter)
    → (id == other) ≡ false
    → level (allow id now l).1 other now ≡ level l other now
unfolding allow level
allow-other id other now l n = elim (Option-cases (l.buckets id)) [
  | inl e ↦ rw (e, allow) (ground (arith, n))
  | inr (b, e) ↦ rw (e, allow) (ground (arith, n))
]

-- What happens to a limiter: a request of a caller, or a round of the janitor.
pub data Event : Type 0 where
  requests : Text → ℕ → Event
  janitor : ℕ → Event

abbrev pub time_of : Event → ℕ
time_of (requests id now) = now
time_of (janitor now) = now

pub handle : Event → Limiter → Limiter
handle (requests id now) l = (allow id now l).1
handle (janitor now) l = sweep_buckets now l

-- The number of requests of `id` that the event lets through.
pub granted : Text → Event → Limiter → ℕ
granted id (requests j now) l = if j == id && (allow j now l).0 then 1 else 0
granted id (janitor now) l = 0

pub granted_in : Text → List Event → Limiter → ℕ
granted_in id [] l = 0
granted_in id (e ∷ es) l = granted id e l + granted_in id es (handle e l)

-- The events are in order of time, none before `start` and none after `end`.
abbrev pub InOrder : ℕ → List Event → ℕ → Type 0
InOrder start [] end = start ≤ end
InOrder start (e ∷ es) end = (start ≤ time_of e) × InOrder (time_of e) es end

pub record IsSound (l : Limiter) : Type 0 where
  pub some_burst : 1 ≤ l.burst
  pub soon_full : capacity l ≤ idle_limit

allow-config :
    (id : Text) (now : ℕ) (l : Limiter)
    → ((allow id now l).1.period ≡ l.period) × ((allow id now l).1.burst ≡ l.burst)
unfolding allow
allow-config id now l = ground arith

handle-config :
    (e : Event) (l : Limiter) → ((handle e l).period ≡ l.period) × ((handle e l).burst ≡ l.burst)
unfolding handle
handle-config (requests id now) l = allow-config id now l
handle-config (janitor now) l = unfold sweep_buckets in (refl, refl)

-- As time passes a caller gains at most one unit per nanosecond.
level-later : (l : Limiter) (id : Text) (a b : ℕ) → a ≤ b → level l id b ≤ level l id a + (b - a)
unfolding level
level-later l id a b h = elim (Option-cases (l.buckets id)) [
  | inl e ↦ rw e (omega arith)
  | inr (c, e) ↦ rw e (ground arith)
]

-- The janitor only drops buckets that are full again.
sweep-level :
    (now : ℕ) (l : Limiter) (id : Text)
    → capacity l ≤ idle_limit
    → level (sweep_buckets now l) id now ≡ level l id now
unfolding sweep_buckets level
sweep-level now l id h = elim (Option-cases (l.buckets id)) [
  | inl e ↦ rw e
  | inr (c, e) ↦ rw e (ground arith)
]

times_one : (b : Bool) (p : ℕ) → (if b then 1 else 0) * p ≡ (if b then p else 0)
times_one true p = omega arith
times_one false p = omega arith

handle-level :
    (e : Event) (l : Limiter) (id : Text)
    → IsSound l
    → granted id e l * l.period + level (handle e l) id (time_of e) ≡ level l id (time_of e)
unfolding handle granted
handle-level (janitor now) l id s = omega (arith, sweep-level now l id s.soon_full)
handle-level (requests j now) l id s = elim (Bool-cases (j == id)) [
  | inl y ↦
      let same : j ≡ id = (eq_iff j id).0 y in
      let cost = allow-level id now l s.some_burst in
      rw (same, eq_refl id) (omega (arith, times_one (allow id now l).0 l.period, cost.1))
  | inr n ↦ rw n (omega (arith, allow-other j id now l n))
]

InOrder-le : (es : List Event) (start end : ℕ) → InOrder start es end → start ≤ end
InOrder-le [] start end o = o
InOrder-le (e ∷ es) start end o = omega (arith, InOrder-le es (time_of e) end o.1)

add_step :
    (g r p after before start since rest all : ℕ)
    → g * p + after ≡ before
    → r * p ≤ after + rest
    → before ≤ start + since
    → since + rest ≤ all
    → (g + r) * p ≤ start + all
add_step g r p after before start since rest all a b c d = rw add-mul (omega arith)

granted_in-level :
    (es : List Event) (l : Limiter) (id : Text) (start end : ℕ)
    → IsSound l
    → InOrder start es end
    → granted_in id es l * l.period ≤ level l id start + (end - start)
unfolding granted_in
granted_in-level [] l id start end s o = omega arith
granted_in-level (e ∷ es) l id start end s o =
    let config = handle-config e l in
    let sound : IsSound (handle e l) = record {
      some_burst = rw config.1 s.some_burst;
      soon_full = rw (config.0, config.1) s.soon_full;
    } in
    let rest = granted_in-level es (handle e l) id (time_of e) end sound o.1 in
    let later = level-later l id start (time_of e) o.0 in
    let now = handle-level e l id s in
    let kept =
      subst
        (λ p.
          granted_in id es (handle e l) * p ≤ level (handle e l) id (time_of e) + (end - time_of e))
        config.0 rest in
    add_step (granted id e l) (granted_in id es (handle e l)) l.period
      (level (handle e l) id (time_of e)) _ (level l id start) _ _ _ now kept later
      (omega (arith, InOrder-le es (time_of e) end o.1))

level-le-capacity : (l : Limiter) (id : Text) (now : ℕ) → level l id now ≤ capacity l
unfolding level
level-le-capacity l id now = elim (Option-cases (l.buckets id)) [
  | inl e ↦ rw e (omega arith)
  | inr (c, e) ↦ rw e (ground arith)
]

-- In any stretch of time, whatever other callers and the janitor do, a caller gets no more requests
-- through than the burst and one for each `period` of that time.
pub granted_in-bound :
    (es : List Event) (l : Limiter) (id : Text) (start end : ℕ)
    → IsSound l
    → InOrder start es end
    → granted_in id es l * l.period ≤ l.burst * l.period + (end - start)
granted_in-bound es l id start end s o =
    omega (arith, granted_in-level es l id start end s o, level-le-capacity l id start)
