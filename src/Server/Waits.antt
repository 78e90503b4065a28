-- ===== src/Server/Waits.antt =====
-- relay/main.go: how long a poll may ask to be held.
use relayent.Base.{ℕ, ◌≤◌, ◌*◌, ltb, if◌then◌else◌, ◌≡◌, ◌≢◌, some, arith, eq-false_of_ne, []}
use relayent.Bolt.{Bolt}
use relayent.Server.Defs.{Externals, Request}
use relayent.Server.Broker.{next_wait}

module _ (bolt : Bolt) (ext : Externals) where
  -- A poll that asks for some seconds, too few to overflow the 64-bit product, is held for that time but
  -- for no longer than 55 seconds.
  pub next_wait-capped :
      (r : Request) (secs : ℕ)
      → r.wait ≢ []
      → ext.parse_number r.wait ≡ some secs
      → secs ≤ 9_223_372_036
      → next_wait bolt ext r ≡ (if ltb 55 secs then 55_000_000_000 else secs * 1_000_000_000)
  unfolding next_wait
  next_wait-capped r secs n e h = rw (eq-false_of_ne r.wait [] n, e) (ground arith)
