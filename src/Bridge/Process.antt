-- ===== src/Bridge/Process.antt =====
-- bridge/main.go: process, which runs a job and posts its result.
use relayent.Base.{Text, codes, true, false, List, [], ◌∷◌, ◌++◌, Option, none, some, if◌then◌else◌}
use relayent.Api.{Job, ResultRequest}
use relayent.Strings.Search.{drop_trailing}
use relayent.Adapters.Defs.{Request, Command, Tools, Answer, answer, failure}
use relayent.Adapters.Run.{Adapter, Outcome, run}
use relayent.Bridge.Attachments.{
  Disk, Machine, Written, written, refused, cleanup, write_attachments,
}
use relayent.Bridge.Messages.{flatten_messages}
use relayent.Bridge.Registry.{Backend, Registry, get_backend}

-- Config, as far as jobs depend on it, and fmt's "%q".
pub record Settings : Type 0 where
  pub relay_url : Text
  pub workspace : Text
  pub quote : Text → Text

-- What a job changes on the machine: the processes that have run, and the files.
pub record World : Type 0 where
  pub log : List Command
  pub disk : Disk

abbrev pub error_result : Text → ResultRequest
error_result message = record { ok = false; json = none; text = []; error = message }

unfoldable pub unavailable_reason : Settings → Text → Text
unavailable_reason settings name =
    codes "backend " ++ (settings.quote name ++ codes " CLI not installed on this machine")

abbrev pub result_of : Answer → ResultRequest
result_of (failure message) = error_result message
result_of (answer res) =
    if res.is_json
    then record { ok = true; json = res.json; text = []; error = [] }
    else record { ok = true; json = none; text = res.text; error = [] }

abbrev pub prompt_of_job : Job → Text
prompt_of_job job = elim job.messages [ [] ↦ job.prompt | m ∷ ms ↦ flatten_messages (m ∷ ms) ]

abbrev pub request_of : Settings → Job → List Text → Request
request_of settings job paths = record {
  model = job.model;
  prompt = prompt_of_job job;
  system = job.system;
  json_schema = job.json_schema;
  effort = job.effort;
  attachment_paths = paths;
  work_dir = settings.workspace;
}

-- The answer of a run with two nested calls at most, which always ends.
abbrev pub ended : List Command → Outcome → List Command × Answer
ended log none = (log, failure [])
ended log (some out) = out

unfoldable pub run_adapter : Tools → Adapter → List Command → Request → List Command × Answer
run_adapter tools a log req = ended log (run 2 tools a false log req)

-- The processes of the second log that are not in the first, which it extends.
abbrev pub new_ones : List Command → List Command → List Command
new_ones [] log = log
new_ones (b ∷ before) [] = []
new_ones (b ∷ before) (c ∷ log) = new_ones before log

-- The files after some processes, given the processes before them.
abbrev pub touched : Machine → List Command → List Command → Disk → Disk
touched m before [] disk = disk
touched m before (c ∷ cs) disk = touched m (before ++ c ∷ []) cs (m.touch before c disk)

abbrev pub finish :
    Machine → List Command → List Text → Disk → List Command × Answer → ResultRequest × World
finish m before paths disk (log, ans) = (
  result_of ans,
  record { log = log; disk = cleanup m paths (touched m before (new_ones before log) disk) },
)

-- The tools answer by the files as they are when the attachments have been written, and by the processes
-- that have run.
abbrev pub run_written :
    Machine
    → (Disk → Tools)
    → Settings
    → Adapter
    → Job
    → List Command
    → Written
    → ResultRequest × World
run_written m tools settings a job log (refused message disk) =
    (error_result message, record { log = log; disk = disk })
run_written m tools settings a job log (written paths disk) =
    finish m log paths disk (run_adapter (tools disk) a log (request_of settings job paths))

abbrev pub run_backend :
    Machine → (Disk → Tools) → Settings → Job → World → Option Backend → ResultRequest × World
run_backend m tools settings job w none =
    (error_result (codes "unknown backend " ++ settings.quote job.backend), w)
run_backend m tools settings job w (some b) =
    if b.available
    then run_written m tools settings b.adapter job w.log
        (write_attachments m settings.workspace job.id job.attachments w.disk)
    else (error_result (unavailable_reason settings job.backend), w)

-- The result that `process` posts, and the machine after it.
unfoldable pub process :
    Machine → (Disk → Tools) → Settings → Registry → Job → World → ResultRequest × World
unfolding run_adapter
process m tools settings r job w = run_backend m tools settings job w (get_backend r job.backend)

-- postResult: where the result is sent
unfoldable pub result_url : Settings → Text → Text
result_url settings id =
    drop_trailing b'/' settings.relay_url ++ (codes "/v1/jobs/" ++ (id ++ codes "/result"))
