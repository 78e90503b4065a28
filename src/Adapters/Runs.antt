-- ===== src/Adapters/Runs.antt =====
-- An adapter's `run` ends, and which processes it starts.
use relayent.Base.{
  ℕ, suc, ◌≤◌, Text, ◌≡◌, refl, sym, ap, ◌∙◌, true, false, List, [], ◌∷◌, ◌++◌, Option, none, some,
  arith, length, ◌⊎◌, inl, inr, Bool-cases,
}
use mathlib.Core.List.{append_assoc, append-nil}
use relayent.Api.{Json}
use relayent.Adapters.Json.{Result}
use relayent.Adapters.Defs.{Request, Command, Exit, failed, exited, Tools, Answer, answer, failure}
use relayent.Adapters.Run.{
  Adapter, command_of, retry_request, schema_text, marshalled, Outcome, conclude, read_text,
  read_output, execute_once, refuses, run_once, run,
}

-- The processes are the adapter's tool, started in one directory.
abbrev pub AllIn : Text → Text → List Command → Type 0
AllIn bin dir [] = Unit
AllIn bin dir (c ∷ cs) = (c.bin ≡ bin) × (c.dir ≡ dir) × AllIn bin dir cs

-- The call returns an answer, after at most so many new processes.
abbrev pub Ends : Adapter → Text → List Command → ℕ → Outcome → Type 0
Ends a dir log max out =
    (cs : List Command) × (ans : Answer) × (out ≡ some (log ++ cs, ans))
    × (length cs ≤ max)
    × AllIn a.bin dir cs

abbrev pub limit : Json → ℕ
limit none = 1
limit (some _) = 2

-- The call has returned an answer, after no further process.
Ends-here :
    (a : Adapter) (dir : Text) (log : List Command) (max : ℕ) (out : Outcome) (ans : Answer)
    → out ≡ some (log, ans)
    → Ends a dir log max out
Ends-here a dir log max out ans e =
    ([], ans, e ∙ ap (λ l. some (l, ans)) (sym (append-nil log)), omega arith, tt)

-- One more process before.
Ends-after :
    (a : Adapter) (dir : Text) (log : List Command) (c : Command) (max : ℕ) (out : Outcome)
    → c.bin ≡ a.bin
    → c.dir ≡ dir
    → Ends a dir (log ++ c ∷ []) max out
    → Ends a dir log (suc max) out
Ends-after a dir log c max out b d (cs, ans, e, l, all) = (
  c ∷ cs,
  ans,
  e ∙ ap (λ l. some (l, ans)) (append_assoc log (c ∷ []) cs),
  omega arith,
  (b, d, all),
)

abbrev second_runs : Option Text → ℕ
second_runs none = 0
second_runs (some _) = 1

module _ (again : List Command → Request → Outcome) (tools : Tools) (a : Adapter)
    (req : Request) where
  -- A second run makes no further call.
  conclude-retry :
      (schema : Option Text) (log : List Command) (text : Text) (res : Result)
      → conclude again a req schema true log text res ≡ some (log, answer res)
  conclude-retry none log text res = refl
  conclude-retry (some schema) log text res = ground arith

  read_text-retry :
      (schema : Option Text) (log : List Command) (u : Text ⊎ Text)
      → (ans : Answer) × (read_text again tools a req schema true log u ≡ some (log, ans))
  read_text-retry schema log (inl message) = (failure message, refl)
  read_text-retry schema log (inr text) = (answer _, conclude-retry schema log text _)

  read_output-retry :
      (schema : Option Text) (log : List Command) (e : Exit)
      → (ans : Answer) × (read_output again tools a req schema true log e ≡ some (log, ans))
  unfolding read_output
  read_output-retry schema log (failed err stderr) = (failure _, refl)
  read_output-retry schema log (exited stdout) = read_text-retry schema log (a.unwrap tools stdout)

  execute_once-retry :
      (log : List Command) (s : Text ⊎ Option Text)
      → Ends a req.work_dir log 1 (execute_once again tools a req true log s)
  unfolding command_of
  execute_once-retry log (inl message) = Ends-here a req.work_dir log 1 _ (failure message) refl
  execute_once-retry log (inr schema) =
      let c = command_of a req schema in
      let (ans, e) = read_output-retry schema (log ++ c ∷ []) (tools.execute log c) in
      Ends-after a req.work_dir log c 0 _ refl refl
        (Ends-here a req.work_dir (log ++ c ∷ []) 0 _ ans e)

  run_once-retry :
      (log : List Command) (r : Option Text)
      → Ends a req.work_dir log 1 (run_once again tools a req true log r)
  run_once-retry log (some message) = Ends-here a req.work_dir log 1 _ (failure message) refl
  run_once-retry log none = execute_once-retry log (schema_text tools req.json_schema)

  module _
      (second : (log : List Command) (schema text : Text)
        → Ends a req.work_dir log 1 (again log (retry_request a req schema text))) where
    conclude-first :
        (schema : Option Text) (log : List Command) (text : Text) (res : Result)
        → Ends a req.work_dir log
            (second_runs schema)
            (conclude again a req schema false log text res)
    conclude-first none log text res = Ends-here a req.work_dir log 0 _ (answer res) refl
    conclude-first (some schema) log text res = elim (Bool-cases res.is_json) [
      | inl y ↦ Ends-here a req.work_dir log 1 _ (answer res) (ground arith)
      | inr n ↦ rw n (second log schema text)
    ]

    read_text-first :
        (schema : Option Text) (log : List Command) (u : Text ⊎ Text)
        → Ends a req.work_dir log
            (second_runs schema)
            (read_text again tools a req schema false log u)
    read_text-first schema log (inl message) =
        Ends-here a req.work_dir log (second_runs schema) _ (failure message) refl
    read_text-first schema log (inr text) = conclude-first schema log text _

    read_output-first :
        (schema : Option Text) (log : List Command) (e : Exit)
        → Ends a req.work_dir log
            (second_runs schema)
            (read_output again tools a req schema false log e)
    unfolding read_output
    read_output-first schema log (failed err stderr) =
        Ends-here a req.work_dir log (second_runs schema) _ (failure _) refl
    read_output-first schema log (exited stdout) =
        read_text-first schema log (a.unwrap tools stdout)

    execute_once-first :
        (log : List Command) (schema : Option Text)
        → Ends a req.work_dir log
            (suc (second_runs schema))
            (execute_once again tools a req false log (inr schema))
    unfolding command_of
    execute_once-first log schema =
        let c = command_of a req schema in
        Ends-after a req.work_dir log c (second_runs schema) _ refl refl
          (read_output-first schema (log ++ c ∷ []) (tools.execute log c))

    marshalled-first :
        (log : List Command) (m : Text ⊎ Text)
        → Ends a req.work_dir log 2 (execute_once again tools a req false log (marshalled m))
    marshalled-first log (inl message) = Ends-here a req.work_dir log 2 _ (failure _) refl
    marshalled-first log (inr encoded) = execute_once-first log (some encoded)

    schema_text-first :
        (log : List Command) (json : Json)
        → Ends a req.work_dir log
            (limit json)
            (execute_once again tools a req false log (schema_text tools json))
    schema_text-first log none = execute_once-first log none
    schema_text-first log (some schema) = marshalled-first log (tools.marshal schema)

    run_once-first :
        (log : List Command) (r : Option Text)
        → Ends a req.work_dir log (limit req.json_schema) (run_once again tools a req false log r)
    run_once-first log (some message) =
        Ends-here a req.work_dir log (limit req.json_schema) _ (failure message) refl
    run_once-first log none = schema_text-first log req.json_schema

run-retry :
    (fuel : ℕ) (tools : Tools) (a : Adapter) (log : List Command) (req : Request)
    → Ends a req.work_dir log 1 (run (suc fuel) tools a true log req)
unfolding run
run-retry fuel tools a log req =
    run_once-retry (run fuel tools a true) tools a req log
      (refuses a.no_attachments req.attachment_paths)

-- An adapter's run ends for whatever its tool does, and with an answer: it starts at most one process
-- for a request without a schema and at most two for one with a schema, each of them the adapter's tool
-- in the request's working directory. No call is nested deeper than two.
pub run-Ends :
    (fuel : ℕ) (tools : Tools) (a : Adapter) (log : List Command) (req : Request)
    → Ends a req.work_dir log (limit req.json_schema) (run (suc (suc fuel)) tools a false log req)
unfolding run retry_request
run-Ends fuel tools a log req =
    run_once-first (run (suc fuel) tools a true) tools a req
      (λ l schema text. run-retry fuel tools a l (retry_request a req schema text)) log
      (refuses a.no_attachments req.attachment_paths)
