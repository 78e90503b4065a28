-- ===== src/Adapters/Defs.antt =====
-- bridge/adapters/adapter.go: requests; and what a run of a tool's process needs and gives.
use relayent.Base.{Text, Bool, List, Option, ◌⊎◌}
use relayent.Api.{Json}
use relayent.Adapters.Json.{Result}

-- Request
pub record Request : Type 0 where
  pub model : Text
  pub prompt : Text
  pub system : Text
  pub json_schema : Json
  pub effort : Text
  pub attachment_paths : List Text
  pub work_dir : Text

-- The fields of exec.Cmd that the adapters set, the environment aside, which is the bridge's own.
pub record Command : Type 0 where
  pub bin : Text
  pub args : List Text
  pub stdin : Text
  pub dir : Text

-- cmd.Run: an error with what the process wrote to stderr, or its stdout.
pub data Exit : Type 0 where
  failed : Text → Text → Exit
  exited : Text → Exit

-- The envelope that claude and cursor print: `result` and `is_error`.
pub record Envelope : Type 0 where
  pub result : Text
  pub is_error : Bool

-- What the adapters use and do not implement. A tool's answer may depend on all the runs before, and a
-- bridge has one of these for each state of the files, since the tools read and write files.
pub record Tools : Type 0 where
  pub execute : List Command → Command → Exit
  -- json.Unmarshal into `any`, into the envelope, and into a struct with the field `response`
  pub unmarshal : Text → Option Json
  pub unmarshal_envelope : Text → Option Envelope
  pub unmarshal_response : Text → Option Text
  -- json.Marshal of a schema, or the text of its error
  pub marshal : Text → Text ⊎ Text

-- What Run returns: a result, or the text of an error.
pub data Answer : Type 0 where
  answer : Result → Answer
  failure : Text → Answer
