-- ===== src/Bridge/ConfigTests.antt =====
-- The theorems on the configuration of the bridge at concrete files and settings.
use relayent.Base.{Text, codes, ◌==◌, if◌then◌else◌, ◌≡◌, refl, true, false, [], none, some, inr}
use relayent.Strings.{
  trim_space, trim_left, trim_right, strip, space_width, space_width_back, split, cut, join,
}
use relayent.Strings.Search.{drop_trailing}
use relayent.Bridge.Paths.{clean, clean_elements, clean_step, leave, join_path}
use relayent.Bridge.ConfigFile.{
  Setting, env_of, load_lines, no_config, trim_quotes, drop_quotes, load_file_config, scan_lines,
  entry, any_too_long, drop_last_empty, map_lines, drop_cr,
}
use relayent.Strings.{to_lower}
use relayent.Bridge.Settings.{fold, find_among, find_setting, resolve_value, from_env, config_get}
use relayent.Bridge.SettingLaws.{config_get-masked}
use relayent.Bridge.Config.{
  Setup, Config, loaded, load_config, validate_relay_url, resolve_workspace, abs, dur_env,
}
use relayent.Bridge.ConfigLaws.{IsChecked, load_config-IsChecked, load_config-file_waits}

abbrev old_file : Text
old_file = codes "RELAYENT_POLL_WAIT=10\n"

abbrev filed : Setup
filed = record {
  env = λ k. [];
  home = some (codes "/h");
  cwd = some (codes "/");
  file = some old_file;
  can_create = λ p. true;
  parse_url = λ t. none;
  parse_number = λ t. if t == codes "30" then some 30 else none;
}

abbrev with_key : Text → Setup
with_key key = record filed {
  env = λ k. if k == env_of Setting.pairing_key then key else [];
  file = none;
}

pairing_key-found : find_setting (codes "pairing-key") ≡ some Setting.pairing_key
unfolding find_setting find_among fold to_lower trim_space trim_left trim_right strip space_width
    space_width_back ◌==◌
pairing_key-found = refl

no_file : load_file_config none ≡ some no_config
unfolding load_file_config
no_file = refl

config_get-masked_example :
    config_get (with_key (codes "abcd-one-wxyz")) (codes "pairing-key") false
    ≡ config_get (with_key (codes "abcd-two-wxyz")) (codes "pairing-key") false
unfolding resolve_value ◌==◌
config_get-masked_example =
    config_get-masked (with_key (codes "abcd-one-wxyz")) (with_key (codes "abcd-two-wxyz"))
      no_config no_config (codes "pairing-key") (codes "abcd-one-wxyz") (codes "abcd-two-wxyz")
      from_env from_env pairing_key-found no_file no_file refl refl (λ e. cc) (λ e. cc)
      (inr (refl, refl, refl))

abbrev setup : Setup
setup = record {
  env = λ k.
      if k == codes "RELAYENT_RELAY_URL"
      then codes "https://r/"
      else if k == codes "RELAYENT_PAIRING_KEY"
      then codes "key"
      else [];
  home = some (codes "/h");
  cwd = some (codes "/");
  file = none;
  can_create = λ p. true;
  parse_url = λ t. some (record { scheme = codes "https"; hostname = codes "r" });
  parse_number = λ t. some 9;
}

abbrev config : Config
config = record {
  relay_url = codes "https://r";
  pairing_key = codes "key";
  poll_wait = 25_000_000_000;
  job_timeout = 180_000_000_000;
  workspace = codes "/h/.relayent/workspace";
}

load_config_loads : load_config setup ≡ loaded config
unfolding load_config load_file_config validate_relay_url resolve_workspace dur_env abs join_path
    clean clean_elements clean_step leave split join drop_trailing trim_space trim_left trim_right
    strip space_width space_width_back ◌==◌
load_config_loads = refl

load_config-IsChecked_example : IsChecked setup config
load_config-IsChecked_example = load_config-IsChecked setup config ([], refl) load_config_loads

-- A file with another poll wait
abbrev wait_file : Text
wait_file = codes "RELAYENT_POLL_WAIT=9\n"

load_config_with_file : load_config (record setup { file = some wait_file }) ≡ loaded config
unfolding load_config load_file_config scan_lines load_lines entry cut trim_quotes drop_quotes
    any_too_long drop_last_empty map_lines drop_cr validate_relay_url resolve_workspace dur_env abs
    join_path clean clean_elements clean_step leave split join drop_trailing trim_space trim_left
    trim_right strip space_width space_width_back ◌==◌
load_config_with_file = refl

load_config-file_waits_example :
    (config.poll_wait ≡ config.poll_wait) × (config.job_timeout ≡ config.job_timeout)
load_config-file_waits_example =
    load_config-file_waits setup (some wait_file) config config load_config_loads
      load_config_with_file
