-- ===== src/Bridge/SettingLaws.antt =====
-- `relayent-bridge config set` followed by `config get`, and what `config get` shows of the key.
use relayent.Base.{
  ◌-◌, ◌≤◌, Text, ◌==◌, eq_iff, ◌≡◌, ◌≢◌, refl, sym, ap, ◌∙◌, Bool, false, [], Option, some, arith,
  if◌then◌else◌, ◌⊎◌, inl, inr, Bool-cases, length, take, drop,
}
use relayent.Bridge.ConfigFile.{
  FileConfig, load_file_config, Setting, relay_url, pairing_key, workspace, poll_wait, job_timeout,
  env_of,
}
use relayent.Bridge.Config.{Setup}
use relayent.Bridge.Settings.{
  default_of, find_setting, Source, from_file, value_or_default, resolve_value, mask_key, printed,
  print_value, get_from, get_found, config_get,
}

-- The settings have different keys.
setting_at : Text → Setting
setting_at t =
    if t == env_of relay_url
    then relay_url
    else if t == env_of pairing_key
    then pairing_key
    else if t == env_of workspace
    then workspace
    else if t == env_of poll_wait
    then poll_wait
    else job_timeout

-- What is in effect without a variable in the environment, when the file has the value.
abbrev pub in_effect : Setup → Setting → Text → Text × Source
in_effect s x v = if v == [] then value_or_default (default_of s x) else (v, from_file)

get-found :
    (s : Setup) (t : Option Text) (n : FileConfig) (name : Text) (r : Bool) (x : Setting)
    → find_setting name ≡ some x
    → load_file_config t ≡ some n
    → config_get (record s { file = t }) name r
      ≡ print_value x r (resolve_value (record s { file = t }) n x)
unfolding config_get
get-found s t n name r x f e =
    ap (get_found (record s { file = t }) r) f ∙ ap (get_from (record s { file = t }) x r) e

-- Two keys that `config get` may not tell apart: both of at most eight bytes, or of one length with the
-- same first and last four bytes.
abbrev pub AreAlike : Text → Text → Type 0
AreAlike v w =
    ((length v ≤ 8) × (length w ≤ 8))
    ⊎ ((length v ≡ length w)
        × (take 4 v ≡ take 4 w)
        × (drop (length v - 4) v ≡ drop (length w - 4) w))

mask_key-alike : (v w : Text) → AreAlike v w → mask_key v ≡ mask_key w
unfolding mask_key
mask_key-alike v w (inl (h, k)) = ground (arith, h, k)
mask_key-alike v w (inr (l, h, k)) = ground (arith, l, h, k)

-- Without `--reveal`, `config get` prints the same for two pairing keys in effect that are both of at
-- most eight bytes, or of one length with the same first and last four bytes: nothing else of the key
-- is shown.
pub config_get-masked :
    (s s' : Setup) (m m' : FileConfig) (name v v' : Text) (src src' : Source)
    → find_setting name ≡ some pairing_key
    → load_file_config s.file ≡ some m
    → load_file_config s'.file ≡ some m'
    → resolve_value s m pairing_key ≡ (v, src)
    → resolve_value s' m' pairing_key ≡ (v', src')
    → v ≢ []
    → v' ≢ []
    → AreAlike v v'
    → config_get s name false ≡ config_get s' name false
config_get-masked s s' m m' name v v' src src' f e e' r r' ne ne' a =
    shown s m v src e r ne
    ∙ ap (λ t. printed t) (mask_key-alike v v' a)
    ∙ sym (shown s' m' v' src' e' r' ne')
  where
    shown :
        (t : Setup) (n : FileConfig) (w : Text) (from : Source)
        → load_file_config t.file ≡ some n
        → resolve_value t n pairing_key ≡ (w, from)
        → w ≢ []
        → config_get t name false ≡ printed (mask_key w)
    shown t n w from g q k =
        get-found t t.file n name false pairing_key f g
        ∙ ap (print_value pairing_key false) q
        ∙ rw (not_empty w k) refl
      where
        not_empty : (u : Text) → u ≢ [] → (u == []) ≡ false
        not_empty u h = elim (Bool-cases (u == [])) [
          | inl y ↦ absurd (h ((eq_iff u []).0 y))
          | inr z ↦ z
        ]
