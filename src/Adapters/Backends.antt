-- ===== src/Adapters/Backends.antt =====
-- The four adapters: claude.go, codex.go, cursor.go, gemini.go.
use relayent.Base.{
  Text, codes, ◌==◌, true, false, List, [], ◌∷◌, ◌++◌, Option, none, some, if◌then◌else◌, ◌⊎◌, inl,
  inr,
}
use relayent.Strings.{trim_space, after_prefix}
use relayent.Adapters.Defs.{Request, Tools, Envelope}
use relayent.Adapters.Run.{Adapter}

-- Appends a flag with its value, unless the value is empty.
unfoldable pub option_args : Text → Text → List Text
option_args flag value = if value == [] then [] else flag ∷ value ∷ []

unfoldable pub system_prompt : Request → Text
system_prompt req =
    if req.system == [] then req.prompt else req.system ++ (codes "\n\n" ++ req.prompt)

-- The envelope of claude and cursor: its `result`, unless it is empty or is no envelope.
abbrev envelope_text : Text → Text → Option Envelope → Text ⊎ Text
envelope_text name stdout none = inr stdout
envelope_text name stdout (some env) =
    if env.result == []
    then inr stdout
    else if env.is_error
    then inl (name ++ (codes " cli reported error: " ++ env.result))
    else inr env.result

unfoldable pub unwrap_envelope : Text → Tools → Text → Text ⊎ Text
unwrap_envelope name tools stdout = envelope_text name stdout (tools.unmarshal_envelope stdout)

-- ClaudeAdapter
abbrev claude_schema : Option Text → List Text
claude_schema none = []
claude_schema (some schema) = codes "--json-schema" ∷ schema ∷ []

unfoldable pub claude_args : Request → Option Text → List Text
unfolding option_args
claude_args req schema =
    codes "-p"
    ∷ codes "--output-format"
    ∷ codes "json"
    ∷ (option_args (codes "--model") req.model
        ++ (option_args (codes "--effort") req.effort
            ++ (claude_schema schema ++ option_args (codes "--append-system-prompt") req.system)))

abbrev pub claude : Text → Adapter
claude bin = record {
  name = codes "claude";
  no_attachments = some (
      codes
        "claude adapter does not support attachments (no local-file mechanism in headless mode)");
  arguments = claude_args;
  prompt_of = λ req. req.prompt;
  unwrap = unwrap_envelope (codes "claude");
  keeps_system = true;
  bin = bin;
}

-- CodexAdapter
unfoldable pub config_args : Text → Text → List Text
config_args key value = if value == [] then [] else codes "-c" ∷ (key ++ value) ∷ []

unfoldable pub image_args : List Text → List Text
image_args [] = []
image_args (p ∷ paths) = codes "-i" ∷ p ∷ image_args paths

unfoldable pub codex_args : Request → Option Text → List Text
unfolding config_args image_args
codex_args req schema =
    codes "exec"
    ∷ (config_args (codes "model=") req.model
        ++ (config_args (codes "model_reasoning_effort=") req.effort
            ++ (image_args req.attachment_paths ++ codes "-" ∷ [])))

abbrev pub codex : Text → Adapter
codex bin = record {
  name = codes "codex";
  no_attachments = none;
  arguments = codex_args;
  prompt_of = system_prompt;
  unwrap = λ tools stdout. inr stdout;
  keeps_system = false;
  bin = bin;
}

-- CursorAdapter
unfoldable pub cursor_model : Request → Text
cursor_model req =
    if req.effort == []
    then req.model
    else req.model ++ (codes "[effort=" ++ (req.effort ++ codes "]"))

unfoldable pub cursor_args : Request → Option Text → List Text
unfolding cursor_model
cursor_args req schema =
    codes "-p"
    ∷ codes "--output-format"
    ∷ codes "json"
    ∷ codes "--mode"
    ∷ codes "ask"
    ∷ codes "--trust"
    ∷ (if req.model == [] then [] else codes "--model" ∷ cursor_model req ∷ [])

abbrev pub cursor : Text → Adapter
cursor bin = record {
  name = codes "cursor";
  no_attachments =
      some (codes "cursor adapter does not support attachments (no attach mechanism in the CLI)");
  arguments = cursor_args;
  prompt_of = system_prompt;
  unwrap = unwrap_envelope (codes "cursor");
  keeps_system = false;
  bin = bin;
}

-- GeminiAdapter
unfoldable pub gemini_args : Request → Option Text → List Text
unfolding option_args
gemini_args req schema = codes "--output-format" ∷ codes "json" ∷ option_args (codes "-m") req.model

unfoldable pub mention_paths : Text → List Text → Text
mention_paths prompt [] = prompt
mention_paths prompt (p ∷ paths) = mention_paths (prompt ++ (codes " @" ++ p)) paths

unfoldable pub gemini_prompt : Request → Text
unfolding system_prompt mention_paths
gemini_prompt req = mention_paths (system_prompt req) req.attachment_paths

abbrev response_or : Text → Option Text → Text
response_or out none = out
response_or out (some response) = if response == [] then out else response

unfoldable pub unwrap_gemini_json : Tools → Text → Text
unwrap_gemini_json tools out = elim (after_prefix (codes "{") (trim_space out)) [
  | none ↦ out
  | some _ ↦ response_or out (tools.unmarshal_response (trim_space out))
]

abbrev pub gemini : Text → Adapter
gemini bin = record {
  name = codes "gemini";
  no_attachments = none;
  arguments = gemini_args;
  prompt_of = gemini_prompt;
  unwrap = λ tools stdout. inr (unwrap_gemini_json tools stdout);
  keeps_system = false;
  bin = bin;
}
