-- ===== src/Bridge/Config.antt =====
-- bridge/config.go, and validateRelayURL of bridge/setup.go.
use relayent.Base.{
  ℕ, ◌*◌, ◌%◌, ◌^◌, Text, codes, ◌==◌, ◌==ℕ◌, ◌||◌, ltb, Bool, [], ◌∷◌, Option, none, some,
  if◌then◌else◌,
}
use relayent.Strings.{trim_space}
use relayent.Strings.Search.{drop_trailing}
use relayent.Bridge.Paths.{slash, clean, join_path}
use relayent.Bridge.ConfigFile.{FileConfig, load_file_config, Setting, env_of}

-- url.Parse: the scheme and the host name.
pub record Url : Type 0 where
  pub scheme : Text
  pub hostname : Text

-- What the configuration is read from: the environment, in which a variable that is not set is empty,
-- the directories that the system names, and the packages that the code calls.
pub record Setup : Type 0 where
  pub env : Text → Text
  pub home : Option Text
  pub cwd : Option Text
  -- the content of the configuration file; `none` if there is none
  pub file : Option Text
  -- whether os.MkdirAll succeeds
  pub can_create : Text → Bool
  pub parse_url : Text → Option Url
  -- strconv.Atoi, with `none` for an error or a negative number
  pub parse_number : Text → Option ℕ

pub data ConfigError : Type 0 where
  unreadable no_relay no_key bad_url plain_http no_scheme bad_scheme no_workspace : ConfigError

-- validateRelayURL: `none` for a URL that may be used
abbrev pub is_local : Text → Bool
is_local host = host == codes "localhost" || (host == codes "127.0.0.1" || host == codes "::1")

abbrev pub check_url : Option Url → Option ConfigError
check_url none = some bad_url
check_url (some u) =
    if u.scheme == codes "https"
    then none
    else if u.scheme == codes "http"
    then (if is_local u.hostname then none else some plain_http)
    else if u.scheme == []
    then some no_scheme
    else some bad_scheme

unfoldable pub validate_relay_url : Setup → Text → Option ConfigError
validate_relay_url s raw = check_url (s.parse_url raw)

-- resolveWorkspace, with DefaultWorkspace and filepath.Abs
abbrev pub default_workspace : Option Text → Option Text
default_workspace none = none
default_workspace (some home) =
    some (join_path (join_path home (codes ".relayent")) (codes "workspace"))

abbrev pub chosen_workspace : Setup → Text → Option Text
chosen_workspace s [] = default_workspace s.home
chosen_workspace s (c ∷ t) = some (c ∷ t)

abbrev pub from_cwd : Option Text → Text → Option Text
from_cwd none path = none
from_cwd (some cwd) path = some (join_path cwd path)

unfoldable pub abs : Setup → Text → Option Text
abs s [] = from_cwd s.cwd []
abs s (c ∷ path) = if c ==ℕ slash then some (clean (c ∷ path)) else from_cwd s.cwd (c ∷ path)

abbrev pub created : Setup → Option Text → Option Text
created s none = none
created s (some path) = if s.can_create path then some path else none

abbrev pub absolute : Setup → Option Text → Option Text
absolute s none = none
absolute s (some path) = created s (abs s path)

unfoldable pub resolve_workspace : Setup → Text → Option Text
unfolding abs
resolve_workspace s configured = absolute s (chosen_workspace s (trim_space configured))

-- durEnv, in nanoseconds as a 64-bit number, of which those from 2 ^ 63 on are negative.
abbrev pub seconds_or : ℕ → Option ℕ → ℕ
seconds_or def none = def
seconds_or def (some secs) = if ltb 0 secs then secs * 1_000_000_000 % 2 ^ 64 else def

unfoldable pub dur_env : Setup → Text → ℕ → ℕ
dur_env s key def = if s.env key == [] then def else seconds_or def (s.parse_number (s.env key))

-- Config
pub record Config : Type 0 where
  pub relay_url : Text
  pub pairing_key : Text
  pub poll_wait : ℕ
  pub job_timeout : ℕ
  pub workspace : Text

pub data Loaded : Type 0 where
  loaded : Config → Loaded
  config_error : ConfigError → Loaded

-- The environment before the file
abbrev pub pick : Setup → FileConfig → Setting → Text
pick s file x = if s.env (env_of x) == [] then file (env_of x) else s.env (env_of x)

abbrev pub with_workspace : Config → Option Text → Loaded
with_workspace c none = config_error no_workspace
with_workspace c (some ws) = loaded (record c { workspace = ws })

abbrev pub with_url : Setup → FileConfig → Config → Option ConfigError → Loaded
with_url s file c (some e) = config_error e
with_url s file c none = with_workspace c (resolve_workspace s (pick s file Setting.workspace))

abbrev pub checked : Setup → FileConfig → Config → Loaded
checked s file c =
    if c.relay_url == []
    then config_error no_relay
    else if c.pairing_key == []
    then config_error no_key
    else with_url s file c (validate_relay_url s c.relay_url)

abbrev pub read_config : Setup → FileConfig → Config
read_config s file = record {
  relay_url = drop_trailing slash (pick s file Setting.relay_url);
  pairing_key = pick s file Setting.pairing_key;
  poll_wait = dur_env s (env_of Setting.poll_wait) 25_000_000_000;
  job_timeout = dur_env s (env_of Setting.job_timeout) 180_000_000_000;
  workspace = [];
}

abbrev pub with_file : Setup → Option FileConfig → Loaded
with_file s none = config_error unreadable
with_file s (some file) = checked s file (read_config s file)

-- LoadConfig
unfoldable pub load_config : Setup → Loaded
unfolding validate_relay_url resolve_workspace dur_env
load_config s = with_file s (load_file_config s.file)
