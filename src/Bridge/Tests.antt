-- ===== src/Bridge/Tests.antt =====
-- The theorems on the bridge at concrete jobs, polls and files.
use relayent.Base.{
  ℕ, zero, suc, Text, codes, ◌==◌, eq_refl, ◌≡◌, refl, true, false, List, [], ◌∷◌, ◌++◌, none, some,
  inr, arith, length,
}
use relayent.Strings.{split, join}
use relayent.Strings.Split.{occurs}
use relayent.Strings.Decimal.{itoa, digits}
use relayent.Api.{Job}
use relayent.Adapters.Json.{finalize}
use relayent.Adapters.Defs.{exited, Tools}
use relayent.Adapters.Run.{run, read_output}
use relayent.Adapters.Backends.{codex}
use relayent.Adapters.Models.{no_models}
use relayent.Bridge.Paths.{
  slash, abs_path, clean, clean_elements, clean_step, leave, join_path, attachment_file,
  attachment_path, path_ext,
}
use relayent.Bridge.PathLaws.{IsPlain, ArePlain, attachment_path-inside}
use relayent.Bridge.Attachments.{Disk, put, done, Machine, write_attachments, write_loop}
use relayent.Bridge.AttachmentLaws.{IsTidy}
use relayent.Bridge.Registry.{Registry, get_backend}
use relayent.Bridge.Process.{Settings, World, process, run_adapter}
use relayent.Bridge.ProcessLaws.{
  IsContained, Untouched, IsGrounded, process-IsContained, process-IsGrounded,
}
use relayent.Bridge.Poll.{claimed, no_job, poll_error, second, start, Turn, poll_loop}
use relayent.Bridge.PollLaws.{processed_jobs, sleeps, poll_loop-jobs, poll_loop-waits}
use relayent.Bridge.Logs.{Faults, rotate_if_large, rotated, max_log_bytes, generation}
use relayent.Bridge.LogSafety.{IsSafe, rotate_if_large-IsSafe}
use relayent.Bridge.LogLaws.{no_faults, after_rotation, rotate_if_large-shifts}

-- A job with an attachment, for a tool that answers in text

abbrev sample_job : Job
sample_job = record {
  id = codes "ab12";
  backend = codes "codex";
  model = [];
  prompt = codes "hi";
  system = [];
  json_schema = none;
  messages = [];
  effort = [];
  attachments = record { name = codes "../x.png"; payload = codes "aGk="; mime = [] } ∷ [];
}

abbrev machine : Machine
machine = record {
  touch = λ before c disk. put (codes "/ws/notes") (some (codes "hello")) disk;
  write_file = λ disk path payload. done;
  removable = λ p. true;
  decode = λ t. inr t;
}

machine-IsTidy : IsTidy machine
machine-IsTidy = record { removable = λ p. refl; leaves_none = λ disk path payload err left h. cc }

abbrev tools : Disk → Tools
tools disk = record {
  execute = λ log c. exited (codes "hello");
  unmarshal = λ t. none;
  unmarshal_envelope = λ t. none;
  unmarshal_response = λ t. none;
  marshal = λ s. inr s;
}

abbrev settings : Settings
settings = record { relay_url = codes "https://relay"; workspace = codes "/ws"; quote = λ t. t }

abbrev registry : Registry
registry =
    record {
      adapter = codex (codes "codex");
      available = true;
      logged_in = (true, true);
      listing = no_models;
    }
    ∷ []

abbrev world : World
world = record { log = []; disk = λ p. none }

plan-Untouched : Untouched machine (codes "/ws/plan")
unfolding ◌==◌
plan-Untouched before c disk = refl

process-IsContained_example :
    let after = (process machine tools settings registry sample_job world).1 in
    IsContained (codes "/ws") world after × (after.disk (codes "/ws/plan") ≡ none)
process-IsContained_example =
    process-IsContained machine tools settings registry sample_job world (codes "/ws/plan")
      machine-IsTidy (refl, tt) (inr plan-Untouched)

process_ok : (process machine tools settings registry sample_job world).0.ok ≡ true
unfolding process run_adapter run read_output get_backend write_attachments write_loop finalize ◌==◌
process_ok = refl

process-IsGrounded_example :
    IsGrounded machine tools settings registry sample_job world
      (process machine tools settings registry sample_job world).0
      (process machine tools settings registry sample_job world).1
process-IsGrounded_example =
    process-IsGrounded machine tools settings registry sample_job world process_ok

-- Polls

abbrev turns : List Turn
turns =
    record { claim = poll_error (codes "down"); now = 1; reported = 1 }
    ∷ record { claim = poll_error (codes "down"); now = 2; reported = 2 }
    ∷ record { claim = claimed sample_job; now = 3; reported = 3 }
    ∷ record { claim = no_job; now = 4; reported = 4 }
    ∷ []

poll_loop-jobs_example : processed_jobs (poll_loop start turns).1 ≡ sample_job ∷ []
poll_loop-jobs_example = poll_loop-jobs start turns

poll_loop-waits_example : sleeps (poll_loop start turns).1 ≡ second ∷ 2_000_000_000 ∷ []
poll_loop-waits_example = poll_loop-waits turns

-- Paths

no_slash : occurs slash (codes "ab12") ≡ false
unfolding occurs
no_slash = refl

attachment_path-inside_example :
    (cs : List Text) × (clean (codes "/home/ann/../w") ≡ abs_path cs)
    × ArePlain cs
    × IsPlain (attachment_file (codes "ab12") 0 (codes "../../x.png"))
    × (attachment_path (clean (codes "/home/ann/../w")) (codes "ab12") 0 (codes "../../x.png")
        ≡ abs_path (cs ++ attachment_file (codes "ab12") 0 (codes "../../x.png") ∷ []))
attachment_path-inside_example =
    attachment_path-inside (codes "home/ann/../w") (codes "ab12") 0 (codes "../../x.png") no_slash

attachment_path_of_sample :
    attachment_path (codes "/ws") (codes "ab12") 10 (codes "../../x.png")
    ≡ codes "/ws/attachment-ab12-10.png"
unfolding attachment_path attachment_file join_path clean clean_elements clean_step leave split join
    path_ext occurs itoa digits ◌==◌
attachment_path_of_sample = refl

-- Logs

abbrev log_path : Text
log_path = codes "err.log"

abbrev full_disk : Faults
full_disk = record no_faults { write = λ p t. some (codes "no space left", some (codes "pa")) }

abbrev short_logs : Disk
short_logs = put log_path (some (codes "part")) (λ p. none)

rotate_if_large-IsSafe_example :
    IsSafe log_path (short_logs log_path) (rotate_if_large full_disk log_path short_logs).1
rotate_if_large-IsSafe_example = rotate_if_large-IsSafe full_disk log_path short_logs

filled : ℕ → Text
filled zero = []
filled (suc n) = 0 ∷ filled n

length-filled : (n : ℕ) → length (filled n) ≡ n
unfolding filled
length-filled zero = refl
length-filled (suc n) = omega (arith, length-filled n)

large_logs : Disk
large_logs = put log_path (some (filled max_log_bytes)) (λ p. none)

large_log : large_logs log_path ≡ some (filled max_log_bytes)
unfolding large_logs
large_log = rw (eq_refl log_path) refl

rotate_if_large-shifts_example :
    ((rotate_if_large no_faults log_path large_logs).0 ≡ rotated)
    × ((rotate_if_large no_faults log_path large_logs).1 (generation log_path 1)
        ≡ after_rotation log_path large_logs (generation log_path 1))
rotate_if_large-shifts_example =
    rotate_if_large-shifts log_path (filled max_log_bytes) large_logs (generation log_path 1)
      large_log (omega (arith, length-filled max_log_bytes))
