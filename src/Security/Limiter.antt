-- ===== src/Security/Limiter.antt =====
-- relay/security.go: the token-bucket limiter. Amounts of tokens are counted in nanoseconds of
-- refill: `period` is the time in which one token comes back (1 / rate), so that a bucket gains one
-- unit per nanosecond and a request costs `period` units. The source computes the same amounts as
-- floats; their rounding is not modelled. The clock is monotonic, so no time runs backwards.
use relayent.Base.{
  ℕ, ◌+◌, ◌-◌, ◌*◌, Text, ltb, if◌then◌else◌, Bool, true, false, Option, none, some,
}
use relayent.Queue.Defs.{update}

pub record Bucket : Type 0 where
  pub tokens : ℕ
  pub last : ℕ

pub record Limiter : Type 0 where
  pub buckets : Text → Option Bucket
  pub period : ℕ
  pub burst : ℕ

abbrev pub capacity : Limiter → ℕ
capacity l = l.burst * l.period

unfoldable pub new_limiter : ℕ → ℕ → Limiter
new_limiter period burst = record { buckets = λ _. none; period = period; burst = burst }

-- authRatePerSec = 0.2 with authBurst = 8, jobRatePerSec = 1 with jobBurst = 30
abbrev pub auth_limiter : Limiter
auth_limiter = new_limiter 5_000_000_000 8

abbrev pub job_limiter : Limiter
job_limiter = new_limiter 1_000_000_000 30

abbrev pub put_bucket : Text → ℕ → ℕ → Limiter → Limiter
put_bucket id tokens now l = record l {
  buckets = update l.buckets id (some (record { tokens = tokens; last = now }));
}

abbrev pub capped : ℕ → ℕ → ℕ
capped cap n = if ltb cap n then cap else n

-- Spends a token if there is one; the refill is kept either way.
abbrev pub spend : Text → ℕ → ℕ → Limiter → Bool × Limiter
spend id tokens now l =
    if ltb tokens l.period
    then (false, put_bucket id tokens now l)
    else (true, put_bucket id (tokens - l.period) now l)

unfoldable pub allow : Text → ℕ → Limiter → Bool × Limiter
allow id now l = elim (l.buckets id) [
  | none ↦ (true, put_bucket id ((l.burst - 1) * l.period) now l)
  | some b ↦ spend id (capped (capacity l) (b.tokens + (now - b.last))) now l
]

-- 15 minutes
abbrev pub idle_limit : ℕ
idle_limit = 900_000_000_000

-- One round of the limiter's janitor.
abbrev pub drop_idle : ℕ → Option Bucket → Option Bucket
drop_idle now none = none
drop_idle now (some b) = if ltb idle_limit (now - b.last) then none else some b

unfoldable pub sweep_buckets : ℕ → Limiter → Limiter
sweep_buckets now l = record l { buckets = λ id. drop_idle now (l.buckets id) }
