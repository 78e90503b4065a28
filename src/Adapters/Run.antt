-- ===== src/Adapters/Run.antt =====
-- The course of `run`, which the four adapters share: claude.go, codex.go, cursor.go, gemini.go.
use relayent.Base.{
  ℕ, zero, suc, Text, codes, Bool, true, false, not, ◌&&◌, List, [], ◌∷◌, ◌++◌, Option, none, some,
  if◌then◌else◌, ◌⊎◌, inl, inr,
}
use relayent.Api.{Json}
use relayent.Strings.{trim_space}
use relayent.Adapters.Json.{Result, finalize}
use relayent.Adapters.Defs.{Request, Command, Exit, failed, exited, Tools, Answer, answer, failure}

-- What differs between the adapters.
pub record Adapter : Type 0 where
  pub name : Text
  -- the error for attachments, of an adapter that has no way to pass them
  pub no_attachments : Option Text
  -- arguments and prompt, by the request and the JSON text of its schema
  pub arguments : Request → Option Text → List Text
  pub prompt_of : Request → Text
  -- from stdout to the text of the answer, or an error
  pub unwrap : Tools → Text → Text ⊎ Text
  -- whether the system instruction is passed again on the second run
  pub keeps_system : Bool
  pub bin : Text

-- U+2014 in UTF-8
abbrev pub em_dash : Text
em_dash = 0xe2 ∷ 0x80 ∷ 0x94 ∷ []

unfoldable pub schema_note : Text
schema_note =
    codes "\n\nYou MUST reply with ONLY a single valid JSON object that conforms"
    ++ (codes " to this JSON Schema. No prose, no explanation, no markdown code fences "
        ++ (em_dash ++ codes " output raw JSON and nothing else.\nJSON Schema:\n"))

unfoldable pub convert_note : Text
convert_note =
    codes "Convert the following into a single raw JSON object matching this"
    ++ codes " schema and output ONLY that JSON (no prose, no fences).\nSchema:\n"

abbrev pub content_note : Text
content_note = codes "\n\nContent:\n"

unfoldable pub with_schema : Option Text → Text → Text
unfolding schema_note
with_schema none prompt = prompt
with_schema (some schema) prompt = prompt ++ (schema_note ++ schema)

unfoldable pub command_of : Adapter → Request → Option Text → Command
command_of a req schema = record {
  bin = a.bin;
  args = a.arguments req schema;
  stdin = with_schema schema (a.prompt_of req);
  dir = req.work_dir;
}

unfoldable pub retry_request : Adapter → Request → Text → Text → Request
unfolding convert_note
retry_request a req schema text = record req {
  system = if a.keeps_system then req.system else [];
  prompt = convert_note ++ (schema ++ (content_note ++ text));
}

abbrev pub is_some : Option Text → Bool
is_some none = false
is_some (some _) = true

abbrev pub marshalled : Text ⊎ Text → Text ⊎ Option Text
marshalled (inl message) = inl (codes "marshal json schema: " ++ message)
marshalled (inr encoded) = inr (some encoded)

-- The schema's JSON text: nothing without a schema, and an error that json.Marshal returns.
abbrev pub schema_text : Tools → Json → Text ⊎ Option Text
schema_text tools none = inr none
schema_text tools (some schema) = marshalled (tools.marshal schema)

-- The answers, with the runs so far. `again` is the call for the one second run.
abbrev pub Outcome : Type 0
Outcome = Option (List Command × Answer)

abbrev pub conclude :
    (List Command → Request → Outcome)
    → Adapter
    → Request
    → Option Text
    → Bool
    → List Command
    → Text
    → Result
    → Outcome
conclude again a req none retry log text res = some (log, answer res)
conclude again a req (some schema) retry log text res =
    let second = again log (retry_request a req schema text) in
    if not res.is_json && not retry then second else some (log, answer res)

abbrev pub read_text :
    (List Command → Request → Outcome)
    → Tools
    → Adapter
    → Request
    → Option Text
    → Bool
    → List Command
    → Text ⊎ Text
    → Outcome
read_text again tools a req schema retry log (inl message) = some (log, failure message)
read_text again tools a req schema retry log (inr text) =
    conclude again a req schema retry log text (finalize tools.unmarshal text (is_some schema))

unfoldable pub read_output :
    (List Command → Request → Outcome)
    → Tools
    → Adapter
    → Request
    → Option Text
    → Bool
    → List Command
    → Exit
    → Outcome
read_output again tools a req schema retry log (failed err stderr) =
    some (log, failure (a.name ++ (codes " cli: " ++ (err ++ (codes ": " ++ trim_space stderr)))))
read_output again tools a req schema retry log (exited stdout) =
    read_text again tools a req schema retry log (a.unwrap tools stdout)

abbrev pub execute_once :
    (List Command → Request → Outcome)
    → Tools
    → Adapter
    → Request
    → Bool
    → List Command
    → Text ⊎ Option Text
    → Outcome
execute_once again tools a req retry log (inl message) = some (log, failure message)
execute_once again tools a req retry log (inr schema) =
    let c = command_of a req schema in
    read_output again tools a req schema retry (log ++ c ∷ []) (tools.execute log c)

-- len(req.AttachmentPaths) > 0, for an adapter that refuses attachments
abbrev pub refuses : Option Text → List Text → Option Text
refuses none paths = none
refuses (some message) [] = none
refuses (some message) (p ∷ paths) = some message

abbrev pub run_once :
    (List Command → Request → Outcome)
    → Tools
    → Adapter
    → Request
    → Bool
    → List Command
    → Option Text
    → Outcome
run_once again tools a req retry log (some message) = some (log, failure message)
run_once again tools a req retry log none =
    execute_once again tools a req retry log (schema_text tools req.json_schema)

-- run, which calls itself with retry = true; `none` is for fuel that does not suffice.
unfoldable pub run : ℕ → Tools → Adapter → Bool → List Command → Request → Outcome
run zero tools a retry log req = none
run (suc fuel) tools a retry log req =
    run_once (run fuel tools a true) tools a req retry log
      (refuses a.no_attachments req.attachment_paths)
