-- ===== src/Queue/Jobs.antt =====
-- relay/queue.go: what is done with a job that is known, presence, capabilities and the janitor.
use relayent.Base.{
  ℕ, ◌+◌, ◌-◌, Text, codes, ◌==◌, ◌||◌, ltb, leb, if◌then◌else◌, Bool, true, false, List, [], ◌∷◌,
  Option, none, some,
}
use relayent.Api.{Status, pending, done, error, ResultRequest, JobResult, BridgeCapabilities}
use relayent.Queue.Defs.{Queue, JobEntry, update}

-- The status and the result that `SetResult` stores.
abbrev pub outcome : ResultRequest → Status
outcome res = if res.ok then done else error

-- Writes a result into an entry; closing a closed channel is skipped by the source's `select`.
abbrev pub with_result : ResultRequest → JobEntry → JobEntry
with_result res e = record e { status = outcome res; result = res; finished = true }

unfoldable pub record_result : Text → ResultRequest → Option JobEntry → Queue → Bool × Queue
record_result id res none q = (false, q)
record_result id res (some e) q =
    (true, record q { jobs = update q.jobs id (some (with_result res e)) })

unfoldable pub set_result : Text → Text → ResultRequest → Queue → Bool × Queue
unfolding record_result
set_result user id res q =
    if q.job_user id == user then record_result id res (q.jobs id) q else (false, q)

-- What `Cancel` reports: the final status of a finished job, or whether it was still queued.
pub data CancelState : Type 0 where
  was_pending was_running was_done was_error : CancelState

abbrev pub cancelled_result : ResultRequest
cancelled_result = record {
  ok = false;
  json = none;
  text = [];
  error = codes "job cancelled by the caller";
}

unfoldable pub has : Text → List Text → Bool
has id [] = false
has id (x ∷ xs) = x == id || has id xs

unfoldable pub drop_id : Text → List Text → List Text
drop_id id [] = []
drop_id id (x ∷ xs) = let rest = drop_id id xs in if x == id then xs else x ∷ rest

-- Whether the id was queued, and the queue without it.
unfoldable pub remove_from_pending : Text → Text → Queue → Bool × Queue
unfolding has drop_id
remove_from_pending user id q =
    if has id (q.pending user)
    then (true, record q { pending = update q.pending user (drop_id id (q.pending user)) })
    else (false, q)

abbrev pub mark_cancelled : Text → JobEntry → Bool × Queue → Option CancelState × Queue
mark_cancelled id e (queued, q) = (
  some (if queued then was_pending else was_running),
  record q { jobs = update q.jobs id (some (with_result cancelled_result e)) },
)

-- The rest of `Cancel`, by the status of the entry.
unfoldable pub cancel_at : Status → Text → Text → JobEntry → Queue → Option CancelState × Queue
unfolding remove_from_pending
cancel_at done user id e q = (some was_done, q)
cancel_at error user id e q = (some was_error, q)
cancel_at pending user id e q = mark_cancelled id e (remove_from_pending user id q)

unfoldable pub cancel_entry : Text → Text → Option JobEntry → Queue → Option CancelState × Queue
unfolding cancel_at
cancel_entry user id none q = (none, q)
cancel_entry user id (some e) q = cancel_at e.status user id e q

unfoldable pub cancel : Text → Text → Queue → Option CancelState × Queue
unfolding cancel_entry
cancel user id q = if q.job_user id == user then cancel_entry user id (q.jobs id) q else (none, q)

abbrev pub snapshot : Text → JobEntry → JobResult
snapshot id e = record {
  id = id;
  status = e.status;
  json = e.result.json;
  text = e.result.text;
  error = e.result.error;
}

pub data Fetched : Type 0 where
  unknown : Fetched
  found : JobResult → Fetched
  waiting : Fetched

-- `Fetch` up to its `select`; a wait of 0 does not block.
unfoldable pub fetch_entry : Text → ℕ → Option JobEntry → Fetched
fetch_entry id wait none = unknown
fetch_entry id wait (some e) = elim e.status [
  | pending ↦ if ltb 0 wait then waiting else found (snapshot id e)
  | _ ↦ found (snapshot id e)
]

unfoldable pub fetch_start : Text → Text → ℕ → Queue → Fetched
unfolding fetch_entry
fetch_start user id wait q =
    if q.job_user id == user then fetch_entry id wait (q.jobs id) else unknown

-- `Fetch` after the result arrived or the timer fired: it reads the entry anew.
unfoldable pub fetch_finish : Text → Queue → Fetched
fetch_finish id q = elim (q.jobs id) [ none ↦ unknown | some e ↦ found (snapshot id e) ]

unfoldable pub bridge_online : Text → ℕ → Queue → Bool
bridge_online user now q = elim (q.last_poll user) [
  | none ↦ false
  | some last ↦ leb (now - last) q.online_window
]

unfoldable pub report_capabilities : Text → BridgeCapabilities → ℕ → Queue → Queue
report_capabilities user caps now q = record q {
  caps = update q.caps user (some (record { caps = caps; reported_at = now }));
}

abbrev pub no_capabilities : BridgeCapabilities
no_capabilities = record { version = []; hostname = []; backends = [] }

-- The last report, its time (0 for the zero time) and the presence of a bridge.
unfoldable pub capabilities : Text → ℕ → Queue → BridgeCapabilities × ℕ × Bool
unfolding bridge_online
capabilities user now q = elim (q.caps user) [
  | none ↦ (no_capabilities, 0, bridge_online user now q)
  | some c ↦ (c.caps, c.reported_at, bridge_online user now q)
]

unfoldable pub count_live : (Text → Option JobEntry) → List Text → ℕ
count_live jobs [] = 0
count_live jobs (id ∷ ids) = (elim (jobs id) [ some e ↦ 1 | none ↦ 0 ]) + count_live jobs ids

unfoldable pub pending_count : Text → Queue → ℕ
unfolding count_live
pending_count user q = count_live q.jobs (q.pending user)

-- One round of the janitor; the queues of ids are left alone.
abbrev pub is_expired : ℕ → ℕ → JobEntry → Bool
is_expired ttl now e = ltb ttl (now - e.created_at)

abbrev pub evict : ℕ → ℕ → Option JobEntry → Option JobEntry
evict ttl now none = none
evict ttl now (some e) = if is_expired ttl now e then none else some e

abbrev pub disown : ℕ → ℕ → Option JobEntry → Text → Text
disown ttl now none user = user
disown ttl now (some e) user = if is_expired ttl now e then [] else user

unfoldable pub sweep : ℕ → Queue → Queue
sweep now q = record q {
  jobs = λ id. evict q.ttl now (q.jobs id);
  job_user = λ id. disown q.ttl now (q.jobs id) (q.job_user id);
}
