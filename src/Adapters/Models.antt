-- ===== src/Adapters/Models.antt =====
-- Models and LoggedIn of the adapters: claude.go, codex.go, cursor.go, gemini.go.
use relayent.Base.{
  ℕ, ◌-◌, Text, codes, ◌==◌, ◌==ℕ◌, ◌&&◌, ◌||◌, not, ltb, leb, Bool, true, false, List, [], ◌∷◌,
  ◌++◌, Option, none, some, if◌then◌else◌,
}
use relayent.Strings.{trim_space, split, to_lower}
use relayent.Strings.Search.{contains}

-- What Models returns: the names, the default, and whether the tool itself was asked.
pub record Listing : Type 0 where
  pub models : List Text
  pub default_model : Text
  pub probed : Bool

abbrev pub claude_models : Listing
claude_models = record {
  models = codes "fable" ∷ codes "opus" ∷ codes "sonnet" ∷ codes "haiku" ∷ [];
  default_model = [];
  probed = false;
}

-- CodexAdapter and GeminiAdapter
abbrev pub no_models : Listing
no_models = record { models = []; default_model = []; probed = false }

-- modelLineRE: a name, white space, a dash, white space, and the rest.
abbrev pub is_model_char : ℕ → Bool
is_model_char c =
    leb b'a' c && leb c b'z'
    || (leb b'A' c && leb c b'Z'
        || (leb b'0' c && leb c b'9' || (c ==ℕ b'.' || (c ==ℕ b'_' || c ==ℕ b'-'))))

-- `\s` of RE2
abbrev is_regex_space : ℕ → Bool
is_regex_space c = c ==ℕ 9 || (c ==ℕ 10 || (c ==ℕ 12 || (c ==ℕ 13 || c ==ℕ 32)))

-- The longest piece at the front all of whose bytes pass, and what follows it.
unfoldable pub span : (ℕ → Bool) → Text → Text × Text
span p [] = ([], [])
span p (c ∷ s) = let (front, rest) = span p s in if p c then (c ∷ front, rest) else ([], c ∷ s)

-- `\s+` and what follows it
skip_spaces : Text → Option Text
skip_spaces s =
    let (spaces, rest) = span is_regex_space s in if spaces == [] then none else some rest

after_dash : Text → Option Text
after_dash [] = none
after_dash (c ∷ s) = if c ==ℕ b'-' then skip_spaces s else none

model_rest : Text → Text → Option (Text × Text)
model_rest name rest = elim (skip_spaces rest) [
  | none ↦ none
  | some dash ↦ elim (after_dash dash) [ none ↦ none | some label ↦ some (name, label) ]
]

unfoldable pub model_line : Text → Option (Text × Text)
unfolding model_rest skip_spaces after_dash span
model_line line =
    let (name, rest) = span is_model_char line in if name == [] then none else model_rest name rest

-- The loop over the lines: the names so far and the first that is marked as the default.
abbrev pub choose_default : Text → Text → Text → Text
choose_default found name label =
    if found == [] && contains (codes "default") (to_lower label) then name else found

abbrev pub add_line : Option (Text × Text) → List Text × Text → List Text × Text
add_line none (models, found) = (models, found)
add_line (some (name, label)) (models, found) =
    (models ++ name ∷ [], choose_default found name label)

unfoldable pub read_lines : List Text → List Text × Text → List Text × Text
read_lines [] acc = acc
read_lines (line ∷ lines) acc = read_lines lines (add_line (model_line (trim_space line)) acc)

-- modelCache; `models` is nil as long as it is empty, since only lists that are not empty are stored.
pub record ModelCache : Type 0 where
  pub models : List Text
  pub default_model : Text
  pub fetched : ℕ

abbrev pub no_cache : ModelCache
no_cache = record { models = []; default_model = []; fetched = 0 }

-- 30 minutes in nanoseconds
abbrev pub model_ttl : ℕ
model_ttl = 1_800_000_000_000

abbrev pub is_empty_list : List Text → Bool
is_empty_list [] = true
is_empty_list (x ∷ xs) = false

abbrev pub cached : ModelCache → Listing
cached cache = record {
  models = cache.models;
  default_model = cache.default_model;
  probed = not (is_empty_list cache.models);
}

abbrev pub store_listing : ModelCache → ℕ → List Text × Text → Listing × ModelCache
store_listing cache now ([], found) = (cached cache, cache)
store_listing cache now (m ∷ models, found) = (
  record { models = m ∷ models; default_model = found; probed = true },
  record { models = m ∷ models; default_model = found; fetched = now },
)

abbrev pub refresh : ModelCache → ℕ → Option Text → Listing × ModelCache
refresh cache now none = (cached cache, cache)
refresh cache now (some out) = store_listing cache now (read_lines (split 10 out) ([], []))

-- CursorAdapter.Models at a time that is not before the last probe; `out` is what --list-models prints,
-- or an error.
unfoldable pub cursor_models : ModelCache → ℕ → Option Text → Listing × ModelCache
cursor_models cache now out =
    if ltb (now - cache.fetched) model_ttl && not (is_empty_list cache.models)
    then (cached cache, cache)
    else refresh cache now out

-- LoggedIn: (signed in, whether the check could be made). claude and cursor ask the tool: the output of
-- its status command, or an error, and the field that json.Unmarshal finds in it, or an error.
unfoldable pub status_logged_in : (Text → Option Bool) → Option Text → Bool × Bool
status_logged_in unmarshal none = (false, false)
status_logged_in unmarshal (some out) = elim (unmarshal out) [
  | none ↦ (false, false)
  | some b ↦ (b, true)
]

-- os.Stat
pub data FileCheck : Type 0 where
  present absent unreadable : FileCheck

abbrev pub file_logged_in : FileCheck → Bool × Bool
file_logged_in present = (true, true)
file_logged_in absent = (false, true)
file_logged_in unreadable = (false, false)

-- CodexAdapter.LoggedIn: CODEX_HOME, the home directory or an error, and os.Stat
unfoldable pub codex_logged_in : Text → Option Text → (Text → FileCheck) → Bool × Bool
codex_logged_in [] none check = (false, false)
codex_logged_in [] (some home) check =
    file_logged_in (check ((home ++ codes "/.codex") ++ codes "/auth.json"))
codex_logged_in (c ∷ dir) home check = file_logged_in (check ((c ∷ dir) ++ codes "/auth.json"))

-- GeminiAdapter.LoggedIn
unfoldable pub gemini_logged_in : Option Text → (Text → FileCheck) → Bool × Bool
gemini_logged_in none check = (false, false)
gemini_logged_in (some home) check =
    file_logged_in (check (home ++ codes "/.gemini/oauth_creds.json"))
