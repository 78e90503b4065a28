-- ===== src/Bridge/ConfigFile.antt =====
-- The file ~/.relayent/config.env: LoadFileConfig of bridge/setup.go, writeSetting of
-- bridge/config_cmd.go.
use mathlib.Core.List.{reverse}
use relayent.Base.{
  Text, codes, ◌==◌, ◌==ℕ◌, ◌||◌, ltb, Bool, true, false, List, [], ◌∷◌, ◌++◌, Option, none, some,
  length, if◌then◌else◌,
}
use relayent.Strings.{trim_space, cut, split, join}

-- bufio.ScanLines: the lines without their end, a carriage return before it dropped; a text that ends
-- with a line end has no further line.
unfoldable pub drop_cr : Text → Text
drop_cr [] = []
drop_cr (c ∷ []) = if c ==ℕ 13 then [] else c ∷ []
drop_cr (c ∷ d ∷ s) = c ∷ drop_cr (d ∷ s)

unfoldable pub drop_last_empty : List Text → List Text
drop_last_empty [] = []
drop_last_empty (t ∷ []) = if t == [] then [] else t ∷ []
drop_last_empty (t ∷ u ∷ ts) = t ∷ drop_last_empty (u ∷ ts)

unfoldable pub map_lines : List Text → List Text
unfolding drop_cr
map_lines [] = []
map_lines (t ∷ ts) = drop_cr t ∷ map_lines ts

unfoldable pub any_too_long : List Text → Bool
any_too_long [] = false
any_too_long (t ∷ ts) = ltb 65_535 (length t) || any_too_long ts

-- bufio.Scanner: the lines, or the error for a line that its buffer does not hold.
unfoldable pub scan_lines : Text → Option (List Text)
unfolding drop_last_empty map_lines any_too_long
scan_lines content =
    if any_too_long (split 10 content)
    then none
    else some (map_lines (drop_last_empty (split 10 content)))

-- A line that is neither empty nor a comment and has a `=`: its key, and what follows the `=`.
abbrev pub is_comment : Text → Bool
is_comment [] = false
is_comment (c ∷ t) = c ==ℕ b'#'

abbrev pub keyed : Option (Text × Text) → Option (Text × Text)
keyed none = none
keyed (some (k, v)) = some (trim_space k, v)

unfoldable pub entry : Text → Option (Text × Text)
entry line =
    if trim_space line == [] || is_comment (trim_space line)
    then none
    else keyed (cut b'=' (trim_space line))

-- strings.Trim with both quotes as the cut set
unfoldable pub drop_quotes : Text → Text
drop_quotes [] = []
drop_quotes (c ∷ s) = if c ==ℕ b'"' || c ==ℕ 39 then drop_quotes s else c ∷ s

unfoldable pub trim_quotes : Text → Text
unfolding drop_quotes
trim_quotes s = reverse (drop_quotes (reverse (drop_quotes s)))

-- The map that LoadFileConfig builds; a key that is missing reads as the empty text.
abbrev pub FileConfig : Type 0
FileConfig = Text → Text

abbrev pub no_config : FileConfig
no_config k = []

abbrev pub record_entry : Option (Text × Text) → FileConfig → FileConfig
record_entry none m = m
record_entry (some (k, v)) m = λ j. if j == k then trim_quotes (trim_space v) else m j

unfoldable pub load_lines : List Text → FileConfig → FileConfig
load_lines [] m = m
load_lines (line ∷ lines) m = load_lines lines (record_entry (entry line) m)

-- LoadFileConfig: the map, or an error. No file is an empty map.
unfoldable pub load_file_config : Option Text → Option FileConfig
unfolding load_lines scan_lines
load_file_config none = some no_config
load_file_config (some content) = elim (scan_lines content) [
  | none ↦ none
  | some lines ↦ some (load_lines lines no_config)
]

-- The loop of writeSetting: the lines that are written, and whether the key was met.
abbrev pub setting_line : Text → Text → Text
setting_line key value = key ++ b'=' ∷ value

abbrev pub matches : Text → Option (Text × Text) → Bool
matches key none = false
matches key (some (k, v)) = k == key

abbrev pub replacement : Text → Text → List Text
replacement key value = if value == [] then [] else setting_line key value ∷ []

unfoldable pub rewrite_lines : Text → Text → List Text → List Text × Bool
rewrite_lines key value [] = ([], false)
rewrite_lines key value (line ∷ lines) =
    let (rest, replaced) = rewrite_lines key value lines in
    if matches key (entry line)
    then (replacement key value ++ rest, true)
    else (line ∷ rest, replaced)

abbrev pub appended : Text → Text → List Text × Bool → List Text
appended key value (lines, replaced) = if replaced then lines else lines ++ replacement key value

unfoldable pub set_lines : Text → Text → List Text → List Text
unfolding rewrite_lines
set_lines key value lines = appended key value (rewrite_lines key value lines)

-- What is written for the lines: a line end after each but for a last one that is empty.
abbrev pub with_end : Text → Text → Text
with_end content [] = 10 ∷ []
with_end content (c ∷ s) = if c ==ℕ 10 then content else content ++ 10 ∷ []

unfoldable pub render_lines : List Text → Text
render_lines lines = with_end (join 10 lines) (reverse (join 10 lines))

-- The lines of a new file; the time is RFC 3339 text.
unfoldable pub new_file_lines : Text → List Text
new_file_lines time =
    codes "# Relayent bridge configuration"
    ∷ (codes "# Written by 'relayent-bridge config' on " ++ time)
    ∷ codes "#"
    ∷ (codes "# Contains your pairing key "
        ++ (0xe2 ∷ 0x80 ∷ 0x94 ∷ codes " a credential. Anyone who reads it can route"))
    ∷ codes "# AI jobs to this machine and spend your CLI subscription. Keep it 0600;"
    ∷ codes "# do not commit or share it."
    ∷ []
    ∷ []

-- writeSetting: the new content of the file, or the error of the scanner, which leaves it as it is.
unfoldable pub write_setting : Text → Text → Text → Option Text → Option Text
unfolding scan_lines set_lines new_file_lines render_lines
write_setting time key value none = some (render_lines (set_lines key value (new_file_lines time)))
write_setting time key value (some content) = elim (scan_lines content) [
  | none ↦ none
  | some lines ↦ some (render_lines (set_lines key value lines))
]

-- The settings, by the keys of their table.
pub data Setting : Type 0 where
  relay_url pairing_key workspace poll_wait job_timeout : Setting

abbrev pub env_of : Setting → Text
env_of relay_url = codes "RELAYENT_RELAY_URL"
env_of pairing_key = codes "RELAYENT_PAIRING_KEY"
env_of workspace = codes "RELAYENT_WORKSPACE"
env_of poll_wait = codes "RELAYENT_POLL_WAIT"
env_of job_timeout = codes "RELAYENT_JOB_TIMEOUT"
