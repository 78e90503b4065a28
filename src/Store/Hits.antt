-- ===== src/Store/Hits.antt =====
-- relay/demostats.go: AppendDemoHit.
use relayent.Base.{
  ℕ, zero, suc, ◌+◌, Text, ltb, if◌then◌else◌, List, [], ◌∷◌, Option, none, some, length,
}
use relayent.Bolt.{Bolt}
use relayent.Store.Records.{DemoHit}
use relayent.Store.Users.{Result, ok, ◌>>=◌, or_io, or_now, Store, StoreError, update_store}
use relayent.Store.Audit.{itob}

-- demoHitsCap
abbrev pub demo_hits_cap : ℕ
demo_hits_cap = 50_000

module _ (bolt : Bolt) where
  open bolt use {Bucket, put, delete, entries, sequence, advance}

  abbrev pub trim_first :
      (Bucket DemoHit → Option (Bucket DemoHit))
      → Bucket DemoHit
      → List (Text × DemoHit)
      → Option (Bucket DemoHit)
  trim_first again b [] = some b
  trim_first again b ((k, h) ∷ rows) = elim (delete k b) [ none ↦ none | some c ↦ again c ]

  -- The loop that trims the oldest hits, on fuel. `key_n` is KeyN of the bucket's statistics, of a bucket
  -- as it was committed and as it is in the transaction.
  unfoldable pub trim_loop : ℕ → (Bucket DemoHit → ℕ) → ℕ → Bucket DemoHit → Option (Bucket DemoHit)
  trim_loop zero key_n cap b = some b
  trim_loop (suc fuel) key_n cap b =
      let round = trim_first (trim_loop fuel key_n cap) b (entries b) in
      if ltb cap (key_n b) then round else some b

  -- AppendDemoHit for any cap. A round removes an entry, so one more round than there are entries ends
  -- the loop.
  unfoldable pub append_capped :
      ℕ → (Bucket DemoHit → Bucket DemoHit → ℕ) → DemoHit → ℕ → Store bolt → Result (Store bolt)
  unfolding trim_loop
  append_capped cap key_n h now s =
      let log = advance s.demo_hits in
      do
        added ← or_io (put (itob (sequence log)) (record h { ts = or_now h.ts now }) log)
        trimmed ← or_io (trim_loop (length (entries added) + 1) (key_n s.demo_hits) cap added)
        ok (record s { demo_hits = trimmed })

  -- AppendDemoHit; a nil store is left alone.
  unfoldable pub append_demo_hit :
      (Bucket DemoHit → Bucket DemoHit → ℕ)
      → DemoHit
      → ℕ
      → Option (Store bolt)
      → Option StoreError × Option (Store bolt)
  unfolding append_capped
  append_demo_hit key_n h now = update_store bolt (append_capped demo_hits_cap key_n h now)
