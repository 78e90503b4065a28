-- ===== src/Queue/Tests.antt =====
-- The theorems on relay/queue.go at concrete histories.
use relayent.Base.{Text, codes, ◌==◌, ◌≡◌, ◌≢◌, refl, true, false, List, [], ◌∷◌, none, some, arith}
use relayent.Api.{Job, pending, ResultRequest}
use relayent.Queue.Defs.{
  Queue, JobEntry, claimed, new_queue, enqueue, wake, claim_start, claim_woken, claim_timeout,
}
use relayent.Queue.Jobs.{set_result, cancel, cancel_entry, has, was_pending}
use relayent.Queue.Steps.{Op, enqueues, claims, results, cancels, sweeps, step, run, IsFresh, Inv}
use relayent.Queue.Invariant.{run-new_queue-Inv, new_queue-Inv, step-Inv}
use relayent.Queue.Isolation.{SameAnswers, run-SameAnswers}
use relayent.Queue.Backlog.{backlog, spec_step, listing}
use relayent.Queue.Refinement.{step-backlog}
use relayent.Queue.Cancel.{Spares, cancel_pending-Spares}
use relayent.Base.{◌≢◌, List, ◌+◌, inr}
use relayent.Queue.Defs.{JobEntry}
use relayent.Queue.Jobs.{fetch_start, fetch_finish}
use relayent.Queue.Lifetime.{AllInTime, Follows}
use relayent.Queue.Ownership.{AllQuiet, shows, run-Kept}
use relayent.Queue.Results.{reported, set_result-fetch, late_result}
use relayent.Queue.Wakeup.{enqueue-wakes, lost_wakeup}

abbrev alice : Text
alice = codes "alice"

abbrev bob : Text
bob = codes "bob"

abbrev job_id : Text
job_id = codes "j1"

abbrev sample_job : Job
sample_job = record {
  id = job_id;
  backend = codes "cursor";
  model = [];
  prompt = codes "hi";
  system = [];
  json_schema = none;
  messages = [];
  effort = [];
  attachments = [];
}

abbrev sample_result : ResultRequest
sample_result = record { ok = true; json = none; text = codes "hello"; error = [] }

abbrev idle : Queue
idle = new_queue 600 40

abbrev loaded : Queue
loaded = enqueue alice job_id sample_job 5 idle

abbrev stored : JobEntry
stored = record {
  job = sample_job;
  status = pending;
  result = record { ok = false; json = none; text = []; error = [] };
  created_at = 5;
  finished = false;
}

idle-IsFresh : IsFresh job_id idle
unfolding new_queue has
idle-IsFresh = record { no_job = refl; not_queued = λ u. refl }

idle-Inv : Inv idle
idle-Inv = new_queue-Inv 600 40

loaded-Inv : Inv loaded
unfolding step
loaded-Inv = step-Inv (enqueues alice job_id sample_job 5) idle idle-IsFresh idle-Inv

alice-named : alice ≢ []
alice-named h = cc

bob-alice : bob ≢ alice
bob-alice h = cc

-- the history: enqueue, claim, result, sweep
abbrev served : List Op
served =
    enqueues alice job_id sample_job 5
    ∷ claims alice 6
    ∷ results alice job_id sample_result
    ∷ sweeps 700
    ∷ []

run-new_queue-Inv_example : Inv (run served (new_queue 600 40))
run-new_queue-Inv_example = run-new_queue-Inv 600 40 served (idle-IsFresh, (tt, (tt, (tt, tt))))

abbrev bobs : List Op
bobs = claims bob 7 ∷ cancels bob job_id ∷ results bob job_id sample_result ∷ []

run-SameAnswers_example : SameAnswers alice loaded (run bobs loaded)
run-SameAnswers_example =
    run-SameAnswers bobs alice loaded alice-named (tt, (tt, (tt, tt))) loaded-Inv
      (bob-alice, (bob-alice, (bob-alice, tt)))

step-backlog_example :
    backlog alice (step (cancels alice job_id) loaded)
    ≡ spec_step loaded.ttl (cancels alice job_id) (λ u. backlog u loaded) alice
step-backlog_example = step-backlog (cancels alice job_id) loaded alice tt loaded-Inv

cancelled-pending : (cancel alice job_id loaded).0 ≡ some was_pending
unfolding cancel cancel_entry enqueue new_queue wake has ◌==◌
cancelled-pending = refl

cancel_pending-Spares_example :
    Spares job_id (claim_start alice 9 (run bobs (cancel alice job_id loaded).1)).0
    × Spares job_id (claim_woken alice 9 (run bobs (cancel alice job_id loaded).1)).0
cancel_pending-Spares_example =
    cancel_pending-Spares alice job_id loaded bobs alice 9 loaded-Inv cancelled-pending tt

loaded-owner : loaded.job_user job_id ≡ alice
unfolding enqueue new_queue wake ◌==◌
loaded-owner = refl

loaded-job : loaded.jobs job_id ≡ some stored
unfolding enqueue new_queue wake ◌==◌
loaded-job = refl

abbrev later : List Op
later = sweeps 600 ∷ bobs

later-AllInTime : AllInTime job_id (stored.created_at + loaded.ttl) later
unfolding enqueue new_queue wake
later-AllInTime = (omega arith, (tt, (tt, (tt, tt))))

later-AllQuiet : AllQuiet alice job_id later
later-AllQuiet = (tt, (tt, (tt, (inr bob-alice, tt))))

set_result-fetch_example :
    ((set_result alice job_id sample_result loaded).0 ≡ true)
    × (fetch_start alice job_id 90 (run later (set_result alice job_id sample_result loaded).1)
        ≡ reported job_id sample_result)
    × (fetch_finish job_id (run later (set_result alice job_id sample_result loaded).1)
        ≡ reported job_id sample_result)
set_result-fetch_example =
    set_result-fetch alice job_id sample_result 90 stored loaded later loaded-owner loaded-job refl
      later-AllInTime later-AllQuiet

late_result_example :
    (set_result alice job_id sample_result (run later (cancel alice job_id loaded).1)).0 ≡ true
late_result_example =
    (late_result alice job_id sample_result 90 stored loaded later later loaded-owner loaded-job
      refl later-AllInTime later-AllQuiet later-AllInTime later-AllQuiet).2

run-Kept_example :
    (e : JobEntry) × ((run later loaded).jobs job_id ≡ some e)
    × Follows stored e
    × (fetch_start alice job_id 0 (run later loaded) ≡ shows job_id e)
    × (fetch_finish job_id (run later loaded) ≡ shows job_id e)
run-Kept_example = run-Kept later alice job_id stored loaded later-AllInTime loaded-owner loaded-job

abbrev watched : Queue
watched = record idle { waiters = λ u. 0 ∷ 1 ∷ []; next_channel = 2 }

watched-IsFresh : IsFresh job_id watched
unfolding new_queue has
watched-IsFresh = record { no_job = refl; not_queued = λ u. refl }

watched-backlog : backlog alice watched ≡ []
unfolding backlog new_queue listing
watched-backlog = refl

enqueue-wakes_example :
    (claim_woken alice 9 (enqueue alice job_id sample_job 5 watched)).0 ≡ claimed job_id sample_job
enqueue-wakes_example =
    (enqueue-wakes alice job_id sample_job 5 9 0 1 (1 ∷ []) watched watched-IsFresh watched-backlog
      refl).3

lost_wakeup_example :
    (claim_timeout alice 0 (enqueue alice job_id sample_job 5 watched)).1.signalled 1 ≡ false
unfolding new_queue
lost_wakeup_example =
    (lost_wakeup alice job_id sample_job 5 0 1 [] watched watched-IsFresh watched-backlog refl
      (omega arith) refl).3
