-- ===== src/Adapters/Tests.antt =====
-- The theorems on the adapters at a concrete tool, which answers in prose first and in JSON then.
use relayent.Base.{
  Text, codes, ◌==◌, if◌then◌else◌, ◌≡◌, ◌↔◌, refl, true, false, List, [], ◌∷◌, none, some, inr,
}
use relayent.Strings.{
  trim_space, trim_left, trim_right, strip, space_width, space_width_back, after_prefix,
}
use relayent.Strings.Search.{contains, cut_at}
use relayent.Adapters.Json.{
  strip_fences, from_brace, close_span, balanced_span, parse_json, finalize, json_result,
}
use relayent.Adapters.Defs.{Request, Command, exited, Tools, answer}
use relayent.Adapters.Run.{command_of, retry_request, read_output, run}
use relayent.Adapters.Backends.{codex}
use relayent.Adapters.SpanLaws.{IsFirstBlock, balanced_span_iff}
use relayent.Adapters.Runs.{Ends, run-Ends}
use relayent.Adapters.Outcomes.{FromLast, run-FromLast}

abbrev json_text : Text
json_text = codes "{1}"

abbrev workspace : Text
workspace = codes "/ws"

abbrev reply_after : List Command → Text
reply_after [] = codes "well"
reply_after (c ∷ log) = json_text

abbrev tools : Tools
tools = record {
  execute = λ log c. exited (reply_after log);
  unmarshal = λ t. if t == json_text then some (some t) else none;
  unmarshal_envelope = λ t. none;
  unmarshal_response = λ t. none;
  marshal = λ s. inr s;
}

abbrev sample : Request
sample = record {
  model = [];
  prompt = codes "hi";
  system = codes "be brief";
  json_schema = some (codes "{}");
  effort = [];
  attachment_paths = [];
  work_dir = workspace;
}

abbrev bin : Text
bin = codes "codex"

run-Ends_example : Ends (codex bin) workspace [] 2 (run 2 tools (codex bin) false [] sample)
run-Ends_example = run-Ends 0 tools (codex bin) [] sample

abbrev first_run : Command
first_run = command_of (codex bin) sample (some (codes "{}"))

abbrev second_run : Command
second_run =
    command_of (codex bin) (retry_request (codex bin) sample (codes "{}") (codes "well"))
      (some (codes "{}"))

two_runs :
    run 2 tools (codex bin) false [] sample
    ≡ some (first_run ∷ second_run ∷ [], answer (json_result (some json_text)))
unfolding run read_output retry_request finalize parse_json strip_fences contains cut_at
    after_prefix balanced_span from_brace close_span trim_space trim_left trim_right strip
    space_width space_width_back ◌==◌
two_runs = refl

run-FromLast_example :
    FromLast tools (codex bin) true (first_run ∷ second_run ∷ []) (json_result (some json_text))
run-FromLast_example =
    run-FromLast 2 tools (codex bin) false [] sample (first_run ∷ second_run ∷ [])
      (json_result (some json_text)) two_runs

balanced_span_iff_example :
    (balanced_span (codes "so {{}} }") ≡ some (codes "{{}}"))
    ↔ IsFirstBlock (codes "so {{}} }") (codes "{{}}")
balanced_span_iff_example = balanced_span_iff (codes "so {{}} }") (codes "{{}}")

span_of_sample : balanced_span (codes "so {{}} }") ≡ some (codes "{{}}")
unfolding balanced_span from_brace close_span
span_of_sample = refl
