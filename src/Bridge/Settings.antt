-- ===== src/Bridge/Settings.antt =====
-- `relayent-bridge config`: the settings and the commands of bridge/config_cmd.go, and maskKey of
-- bridge/setup.go.
use relayent.Base.{
  ℕ, zero, suc, ◌+◌, ◌-◌, Text, codes, ◌==◌, ◌==ℕ◌, ◌&&◌, ◌||◌, not, leb, Bool, true, false, List,
  [], ◌∷◌, ◌++◌, Option, none, some, length, take, drop, if◌then◌else◌,
}
use relayent.Strings.{trim_space, to_lower}
use relayent.Bridge.ConfigFile.{
  FileConfig, load_file_config, write_setting, Setting, relay_url, pairing_key, workspace,
  poll_wait, job_timeout, env_of,
}
use relayent.Bridge.Config.{
  Setup, ConfigError, validate_relay_url, default_workspace, resolve_workspace,
}

-- The table of the settings
abbrev pub name_of : Setting → Text
name_of relay_url = codes "relay-url"
name_of pairing_key = codes "pairing-key"
name_of workspace = codes "workspace"
name_of poll_wait = codes "poll-wait"
name_of job_timeout = codes "job-timeout"

abbrev pub settings : List Setting
settings = relay_url ∷ pairing_key ∷ workspace ∷ poll_wait ∷ job_timeout ∷ []

abbrev pub is_secret : Setting → Bool
is_secret pairing_key = true
is_secret relay_url = false
is_secret workspace = false
is_secret poll_wait = false
is_secret job_timeout = false

abbrev or_empty : Option Text → Text
or_empty none = []
or_empty (some t) = t

abbrev pub default_of : Setup → Setting → Option Text
default_of s relay_url = none
default_of s pairing_key = none
default_of s workspace = some (or_empty (default_workspace s.home))
default_of s poll_wait = some (codes "25")
default_of s job_timeout = some (codes "180")

-- Why a command fails. The two errors of positiveSeconds are one, as are those of writeSetting.
pub data SettingError : Type 0 where
  unknown_setting unreadable_file not_set empty_key bad_workspace bad_seconds unwritable :
      SettingError
  bad_relay : ConfigError → SettingError

-- positiveSeconds
abbrev seconds_of : Option ℕ → Option SettingError
seconds_of none = some bad_seconds
seconds_of (some n) = if n ==ℕ 0 then some bad_seconds else none

unfoldable pub positive_seconds : Setup → Text → Option SettingError
positive_seconds s v = seconds_of (s.parse_number (trim_space v))

abbrev url_error : Option ConfigError → Option SettingError
url_error none = none
url_error (some e) = some (bad_relay e)

abbrev workspace_error : Option Text → Option SettingError
workspace_error none = some bad_workspace
workspace_error (some ws) = none

-- `valid` of a setting
unfoldable pub check_value : Setup → Setting → Text → Option SettingError
unfolding positive_seconds
check_value s relay_url v = url_error (validate_relay_url s v)
check_value s pairing_key v = if trim_space v == [] then some empty_key else none
check_value s workspace v = workspace_error (resolve_workspace s v)
check_value s poll_wait v = positive_seconds s v
check_value s job_timeout v = positive_seconds s v

-- strings.EqualFold with a text of ASCII: the two letters outside of ASCII that fold to one of it are
-- U+017F and U+212A.
unfoldable pub fold : Text → Text
fold [] = []
fold (c ∷ []) = if leb 65 c && leb c 90 then (c + 32) ∷ [] else c ∷ []
fold (c ∷ d ∷ []) =
    if leb 65 c && leb c 90
    then (c + 32) ∷ fold (d ∷ [])
    else if c ==ℕ 0xc5 && d ==ℕ 0xbf
    then b's' ∷ []
    else c ∷ fold (d ∷ [])
fold (c ∷ d ∷ e ∷ s) =
    let one = fold (d ∷ e ∷ s) in
    let two = fold (e ∷ s) in
    let three = fold s in
    if leb 65 c && leb c 90
    then (c + 32) ∷ one
    else if c ==ℕ 0xc5 && d ==ℕ 0xbf
    then b's' ∷ two
    else if c ==ℕ 0xe2 && (d ==ℕ 0x84 && e ==ℕ 0xaa)
    then b'k' ∷ three
    else c ∷ one

-- findSetting
unfoldable pub find_among : Text → List Setting → Option Setting
unfolding fold
find_among name [] = none
find_among name (x ∷ xs) =
    let rest = find_among name xs in
    if name_of x == name || fold (env_of x) == fold name then some x else rest

unfoldable pub find_setting : Text → Option Setting
unfolding find_among
find_setting name = find_among (to_lower (trim_space name)) settings

-- resolveValue: the value in effect, and where it is from.
pub data Source : Type 0 where
  from_env from_file from_default from_nowhere : Source

abbrev pub value_or_default : Option Text → Text × Source
value_or_default none = ([], from_nowhere)
value_or_default (some v) = (v, from_default)

unfoldable pub resolve_value : Setup → FileConfig → Setting → Text × Source
resolve_value s file x =
    if not (s.env (env_of x) == [])
    then (s.env (env_of x), from_env)
    else if not (file (env_of x) == [])
    then (file (env_of x), from_file)
    else value_or_default (default_of s x)

-- maskKey, tailOf and truncate
unfoldable pub stars : ℕ → Text
stars zero = []
stars (suc n) = b'*' ∷ stars n

unfoldable pub mask_key : Text → Text
unfolding stars
mask_key key =
    if leb (length key) 8
    then codes "********"
    else take 4 key ++ (stars (length key - 8) ++ drop (length key - 4) key)

unfoldable pub tail_of : Text → ℕ → Text
tail_of s n = if leb (length s) n then s else drop (length s - n) s

unfoldable pub truncate : Text → ℕ → Text
truncate s max =
    if leb (length s) max
    then s
    else if leb max 1
    then take max s
    else take (max - 1) s ++ 0xe2 ∷ 0x80 ∷ 0xa6 ∷ []

-- configList: a row of its table; the fingerprint of a key is an argument.
unfoldable pub shown_value : (Text → Text) → Setting → Text → Text
unfolding tail_of truncate
shown_value fingerprint x v =
    if v == []
    then 0xe2 ∷ 0x80 ∷ 0x94 ∷ []
    else if is_secret x
    then codes "****" ++ (tail_of v 4 ++ (codes "  (fp " ++ (fingerprint v ++ codes ")")))
    else truncate v 42

abbrev row_of : (Text → Text) → Setting → Text × Source → Text × Text × Source
row_of fingerprint x (v, source) = (name_of x, shown_value fingerprint x v, source)

unfoldable pub list_rows :
    (Text → Text) → Setup → FileConfig → List Setting → List (Text × Text × Source)
unfolding shown_value resolve_value
list_rows fingerprint s file [] = []
list_rows fingerprint s file (x ∷ xs) =
    row_of fingerprint x (resolve_value s file x) ∷ list_rows fingerprint s file xs

unfoldable pub config_list : (Text → Text) → Setup → Option (List (Text × Text × Source))
unfolding list_rows
config_list fingerprint s = elim (load_file_config s.file) [
  | none ↦ none
  | some file ↦ some (list_rows fingerprint s file settings)
]

-- configGet: what is printed.
pub data Printed : Type 0 where
  printed : Text → Printed
  refused_get : SettingError → Printed

abbrev pub print_value : Setting → Bool → Text × Source → Printed
print_value x reveal (v, source) =
    if v == []
    then refused_get not_set
    else if is_secret x && not reveal
    then printed (mask_key v)
    else printed v

abbrev pub get_from : Setup → Setting → Bool → Option FileConfig → Printed
get_from s x reveal none = refused_get unreadable_file
get_from s x reveal (some file) = print_value x reveal (resolve_value s file x)

abbrev pub get_found : Setup → Bool → Option Setting → Printed
get_found s reveal none = refused_get unknown_setting
get_found s reveal (some x) = get_from s x reveal (load_file_config s.file)

unfoldable pub config_get : Setup → Text → Bool → Printed
unfolding find_setting resolve_value mask_key
config_get s name reveal = get_found s reveal (find_setting name)

-- configSet and configUnset: the file that is left, or an error, which leaves the file as it is.
pub data Stored : Type 0 where
  stored : Text → Stored
  refused_set : SettingError → Stored

abbrev pub store_value : Option Text → Stored
store_value none = refused_set unwritable
store_value (some content) = stored content

abbrev pub set_checked : Setup → Text → Setting → Text → Option SettingError → Stored
set_checked s time x v (some e) = refused_set e
set_checked s time x v none = store_value (write_setting time (env_of x) v s.file)

abbrev pub set_found : Setup → Text → Text → Option Setting → Stored
set_found s time v none = refused_set unknown_setting
set_found s time v (some x) = set_checked s time x v (check_value s x v)

unfoldable pub config_set : Setup → Text → Text → Text → Stored
unfolding find_setting check_value
config_set s time name value = set_found s time (trim_space value) (find_setting name)

abbrev pub unset_found : Setup → Text → Option Setting → Stored
unset_found s time none = refused_set unknown_setting
unset_found s time (some x) = store_value (write_setting time (env_of x) [] s.file)

unfoldable pub config_unset : Setup → Text → Text → Stored
unfolding find_setting
config_unset s time name = unset_found s time (find_setting name)
