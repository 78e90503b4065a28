-- ===== src/Bridge/ConfigLaws.antt =====
-- What a configuration that has been loaded is sure of.
use relayent.Base.{
  Text, codes, ◌==◌, ◌==ℕ◌, eq_iff, ◌≡◌, ◌≢◌, refl, sym, ap, ◌∙◌, true, false, List, [], ◌∷◌, ◌++◌,
  Option, none, some, arith, ◌⊎◌, inl, inr, Bool-cases,
}
use relayent.Strings.{trim_space}
use relayent.Bridge.Paths.{slash, clean, join_path, abs_path}
use relayent.Bridge.PathLaws.{ArePlain, clean-abs_path}
use relayent.Bridge.ConfigFile.{FileConfig, load_file_config, Setting, env_of}
use relayent.Bridge.Config.{
  Url, Setup, ConfigError, is_local, check_url, validate_relay_url, chosen_workspace, from_cwd, abs,
  created, absolute, resolve_workspace, dur_env, Config, loaded, pick, with_workspace, with_url,
  checked, read_config, with_file, load_config,
}

-- The host is this machine.
abbrev pub IsLoopback : Text → Type 0
IsLoopback host = (host ≡ codes "localhost") ⊎ ((host ≡ codes "127.0.0.1") ⊎ (host ≡ codes "::1"))

is_local-IsLoopback : (host : Text) → is_local host ≡ true → IsLoopback host
is_local-IsLoopback host h = elim (Bool-cases (host == codes "localhost")) [
  | inl y ↦ inl ((eq_iff host (codes "localhost")).0 y)
  | inr a ↦ elim (Bool-cases (host == codes "127.0.0.1")) [
    | inl y ↦ inr (inl ((eq_iff host (codes "127.0.0.1")).0 y))
    | inr b ↦ inr (inr ((eq_iff host (codes "::1")).0 (ground (arith, h, a, b))))
  ]
]

-- The URL is one of https, or one of http to this machine.
abbrev pub IsPrivate : Setup → Text → Type 0
IsPrivate s raw =
    (u : Url) × (s.parse_url raw ≡ some u)
    × ((u.scheme ≡ codes "https") ⊎ ((u.scheme ≡ codes "http") × IsLoopback u.hostname))

-- The path is a clean absolute one.
abbrev pub IsAbsolute : Text → Type 0
IsAbsolute path = (cs : List Text) × (path ≡ abs_path cs) × ArePlain cs

check_url-IsPrivate :
    (s : Setup) (raw : Text) (o : Option Url)
    → s.parse_url raw ≡ o
    → check_url o ≡ none
    → IsPrivate s raw
check_url-IsPrivate s raw none e h = cc
check_url-IsPrivate s raw (some u) e h = elim (Bool-cases (u.scheme == codes "https")) [
  | inl y ↦ (u, e, inl ((eq_iff u.scheme (codes "https")).0 y))
  | inr n ↦ elim (Bool-cases (u.scheme == codes "http")) [
    | inl y ↦ elim (Bool-cases (is_local u.hostname)) [
      | inl l ↦ (u, e, inr ((eq_iff u.scheme (codes "http")).0 y, is_local-IsLoopback u.hostname l))
      | inr r ↦ absurd (refused u n y r h)
    ]
    | inr m ↦ absurd (unsupported u n m h)
  ]
]
  where
    refused :
        (v : Url)
        → (v.scheme == codes "https") ≡ false
        → (v.scheme == codes "http") ≡ true
        → is_local v.hostname ≡ false
        → check_url (some v) ≢ none
    refused v n y r k = ground arith

    unsupported :
        (v : Url)
        → (v.scheme == codes "https") ≡ false
        → (v.scheme == codes "http") ≡ false
        → check_url (some v) ≢ none
    unsupported v n m k = ground arith

-- The working directory is an absolute path, as os.Getwd gives it.
abbrev pub HasCwd : Setup → Type 0
HasCwd s = (t : Text) × (s.cwd ≡ some (slash ∷ t))

cleaned : (t ws : Text) → clean (slash ∷ t) ≡ ws → IsAbsolute ws
cleaned t ws e = let (cs, q, plain) = clean-abs_path t in (cs, sym e ∙ q, plain)

from_cwd-IsAbsolute :
    (s : Setup) (path ws : Text) → HasCwd s → from_cwd s.cwd path ≡ some ws → IsAbsolute ws
unfolding join_path
from_cwd-IsAbsolute s path ws (t, c) e =
    let q : some (join_path (slash ∷ t) path) ≡ some ws = ap (λ w. from_cwd w path) (sym c) ∙ e in
    cleaned (t ++ slash ∷ path) ws (cc)

abs-IsAbsolute : (s : Setup) (path ws : Text) → HasCwd s → abs s path ≡ some ws → IsAbsolute ws
unfolding abs
abs-IsAbsolute s [] ws h e = from_cwd-IsAbsolute s [] ws h e
abs-IsAbsolute s (c ∷ path) ws h e = elim (Bool-cases (c ==ℕ slash)) [
  | inl y ↦
      let q : c ≡ slash = ground arith in
      let r : some (clean (c ∷ path)) ≡ some ws = ground arith in
      cleaned path ws (ap (λ d. clean (d ∷ path)) (sym q) ∙ cc)
  | inr n ↦ from_cwd-IsAbsolute s (c ∷ path) ws h (rw n at e)
]

absolute-IsAbsolute :
    (s : Setup) (o : Option Text) (ws : Text) → HasCwd s → absolute s o ≡ some ws → IsAbsolute ws
absolute-IsAbsolute s none ws h e = cc
absolute-IsAbsolute s (some path) ws h e = abs-IsAbsolute s path ws h (created-some (abs s path) e)
  where
    created-some : (o : Option Text) → created s o ≡ some ws → o ≡ some ws
    created-some none k = cc
    created-some (some p) k = ground arith

-- What a configuration that has been loaded is sure of: a relay over https or on this machine, a key,
-- and a clean absolute path to run jobs in.
abbrev pub IsChecked : Setup → Config → Type 0
IsChecked s c =
    IsPrivate s c.relay_url × (c.relay_url ≢ []) × (c.pairing_key ≢ []) × IsAbsolute c.workspace

ne_of_test : (t : Text) → (t == []) ≡ false → t ≢ []
ne_of_test t h e = let q : (t == []) ≡ true = (eq_iff t []).1 e in cc

loaded-inj : {a b : Config} → loaded a ≡ loaded b → a ≡ b
loaded-inj h = cc

module _ (s : Setup) (cwd : HasCwd s) (file : FileConfig) where
  with_workspace-IsChecked :
      (c d : Config) (o : Option Text)
      → resolve_workspace s (pick s file Setting.workspace) ≡ o
      → IsPrivate s c.relay_url
      → c.relay_url ≢ []
      → c.pairing_key ≢ []
      → with_workspace c o ≡ loaded d
      → IsChecked s d
  unfolding resolve_workspace
  with_workspace-IsChecked c d none e p r k h = cc
  with_workspace-IsChecked c d (some ws) e p r k h = rw (← (loaded-inj h)) (
    p,
    r,
    k,
    absolute-IsAbsolute s (chosen_workspace s (trim_space (pick s file Setting.workspace))) ws cwd
        e,
  )

  with_url-IsChecked :
      (c d : Config) (o : Option ConfigError)
      → validate_relay_url s c.relay_url ≡ o
      → c.relay_url ≢ []
      → c.pairing_key ≢ []
      → with_url s file c o ≡ loaded d
      → IsChecked s d
  unfolding validate_relay_url
  with_url-IsChecked c d (some e) v r k h = cc
  with_url-IsChecked c d none v r k h =
      with_workspace-IsChecked c d (resolve_workspace s (pick s file Setting.workspace)) refl
        (check_url-IsPrivate s c.relay_url (s.parse_url c.relay_url) refl v) r k h

  checked-IsChecked : (c d : Config) → checked s file c ≡ loaded d → IsChecked s d
  checked-IsChecked c d h = elim (Bool-cases (c.relay_url == [])) [
    | inl y ↦ ground arith
    | inr n ↦ elim (Bool-cases (c.pairing_key == [])) [
      | inl y ↦ ground arith
      | inr m ↦
          with_url-IsChecked c d (validate_relay_url s c.relay_url) refl (ne_of_test c.relay_url n)
            (ne_of_test c.pairing_key m) (rw m at (rw n at h))
    ]
  ]

-- A configuration is loaded only with a relay URL of https, or of http to localhost, 127.0.0.1 or ::1,
-- with a key that is not empty, and with a workspace that is a clean absolute path, where the system's
-- working directory is absolute.
pub load_config-IsChecked :
    (s : Setup) (c : Config) → HasCwd s → load_config s ≡ loaded c → IsChecked s c
unfolding load_config
load_config-IsChecked s c cwd h = by_file (load_file_config s.file) h
  where
    by_file : (f : Option FileConfig) → with_file s f ≡ loaded c → IsChecked s c
    by_file none k = cc
    by_file (some file) k = checked-IsChecked s cwd file (read_config s file) c k

-- The waits of a loaded configuration

checked-with_url :
    (s : Setup) (file : FileConfig) (c d : Config)
    → checked s file c ≡ loaded d
    → with_url s file c (validate_relay_url s c.relay_url) ≡ loaded d
checked-with_url s file c d h = elim (Bool-cases (c.relay_url == [])) [
  | inl y ↦ ground arith
  | inr n ↦ elim (Bool-cases (c.pairing_key == [])) [
    | inl y ↦ ground arith
    | inr m ↦ rw m at (rw n at h)
  ]
]

abbrev HasWaits : Setup → Config → Type 0
HasWaits s c =
    (c.poll_wait ≡ dur_env s (env_of Setting.poll_wait) 25_000_000_000)
    × (c.job_timeout ≡ dur_env s (env_of Setting.job_timeout) 180_000_000_000)

checked-HasWaits :
    (s : Setup) (file : FileConfig) (d : Config)
    → checked s file (read_config s file) ≡ loaded d
    → HasWaits s d
checked-HasWaits s file d h =
    by_url (validate_relay_url s (read_config s file).relay_url)
      (checked-with_url s file (read_config s file) d h)
  where
    by_workspace :
        (o : Option Text) → with_workspace (read_config s file) o ≡ loaded d → HasWaits s d
    by_workspace none k = cc
    by_workspace (some ws) k = rw (← (loaded-inj k)) (refl, refl)

    by_url :
        (o : Option ConfigError) → with_url s file (read_config s file) o ≡ loaded d → HasWaits s d
    by_url (some e) k = cc
    by_url none k = by_workspace (resolve_workspace s (pick s file Setting.workspace)) k

load_config-HasWaits : (s : Setup) (c : Config) → load_config s ≡ loaded c → HasWaits s c
unfolding load_config
load_config-HasWaits s c h = by_file (load_file_config s.file) h
  where
    by_file : (f : Option FileConfig) → with_file s f ≡ loaded c → HasWaits s c
    by_file none k = cc
    by_file (some file) k = checked-HasWaits s file c k

-- The poll wait and the job timeout of a loaded configuration do not depend on the configuration file:
-- two files with which it loads give the same, whatever values for them the files hold.
pub load_config-file_waits :
    (s : Setup) (f : Option Text) (c d : Config)
    → load_config s ≡ loaded c
    → load_config (record s { file = f }) ≡ loaded d
    → (c.poll_wait ≡ d.poll_wait) × (c.job_timeout ≡ d.job_timeout)
unfolding dur_env
load_config-file_waits s f c d h k =
    let (p, t) = load_config-HasWaits s c h in
    let (q, u) = load_config-HasWaits (record s { file = f }) d k in (p ∙ sym q, t ∙ sym u)
