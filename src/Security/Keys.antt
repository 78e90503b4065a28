-- ===== src/Security/Keys.antt =====
-- relay/security.go: the set of pairing keys and the start-up policy.
use relayent.Base.{
  ℕ, Text, codes, ◌==◌, ◌==ℕ◌, ◌&&◌, ◌||◌, ltb, if◌then◌else◌, Bool, true, false, List, [], ◌∷◌,
  ◌++◌, Option, none, some, length,
}
use relayent.Strings.{split, trim_space}

-- subtle.ConstantTimeCompare(a, b) == 1 is equality; its timing is not modelled.
unfoldable pub check_key : Text → Text → Bool
check_key presented configured = presented == configured

pub record KeySet : Type 0 where
  pub primary : Text
  pub retiring : List Text

abbrev pub no_keys : KeySet
no_keys = record { primary = []; retiring = [] }

-- One round of the loop of `ParseKeySet`.
unfoldable pub add_key : KeySet → Text → KeySet
add_key ks k =
    if k == []
    then ks
    else if ks.primary == []
    then record ks { primary = k }
    else record ks { retiring = ks.retiring ++ k ∷ [] }

unfoldable pub add_keys : KeySet → List Text → KeySet
unfolding add_key
add_keys ks [] = ks
add_keys ks (part ∷ parts) = add_keys (add_key ks (trim_space part)) parts

unfoldable pub parse_key_set : Text → KeySet
parse_key_set raw = add_keys no_keys (split b',' raw)

unfoldable pub is_empty : KeySet → Bool
is_empty ks = ks.primary == []

-- `All`, primary first.
unfoldable pub all_keys : KeySet → List Text
all_keys ks = if ks.primary == [] then [] else ks.primary ∷ ks.retiring

-- The loop of `Accepts` goes through every candidate.
unfoldable pub match_any : Text → List Text → Bool → Bool
unfolding check_key
match_any presented [] matched = matched
match_any presented (k ∷ ks) matched =
    match_any presented ks (if check_key presented k then true else matched)

unfoldable pub accepts : KeySet → Text → Bool
accepts ks presented = if presented == [] then false else match_any presented (all_keys ks) false

unfoldable pub match_first : Text → List Text → Bool
unfolding check_key
match_first presented [] = false
match_first presented (k ∷ ks) =
    let rest = match_first presented ks in if check_key presented k then true else rest

unfoldable pub is_retiring : KeySet → Text → Bool
is_retiring ks presented = match_first presented ks.retiring

abbrev pub min_key_len : ℕ
min_key_len = 24

-- Why the relay refuses to start.
pub data PolicyError : Type 0 where
  key_missing : PolicyError
  key_too_short : ℕ → PolicyError

-- `loopback` is what `isLoopbackAddr` says of the listen address; `none` is a nil error.
unfoldable pub validate_key_policy : Text → Bool → Bool → Option PolicyError
validate_key_policy pair_key loopback allow_insecure =
    if loopback
    then none
    else if allow_insecure
    then none
    else if pair_key == []
    then some key_missing
    else if ltb (length pair_key) min_key_len
    then some (key_too_short (length pair_key))
    else none

unfoldable pub validate_each : List Text → Bool → Bool → Option PolicyError
validate_each [] loopback allow_insecure = none
validate_each (k ∷ ks) loopback allow_insecure =
    let rest = validate_each ks loopback allow_insecure in
    elim (validate_key_policy k loopback allow_insecure) [ some e ↦ some e | none ↦ rest ]

unfoldable pub validate_key_set_policy : KeySet → Bool → Bool → Option PolicyError
validate_key_set_policy ks loopback allow_insecure =
    if is_empty ks
    then validate_key_policy [] loopback allow_insecure
    else validate_each (all_keys ks) loopback allow_insecure

-- The functions of package `net` that `isLoopbackAddr` calls: the host of `SplitHostPort`, if it
-- succeeds, and `IsLoopback` of the address that `ParseIP` reads, if it reads one.
pub record Net : Type 0 where
  pub split_host_port : Text → Option Text
  pub ip_is_loopback : Text → Option Bool

-- strings.TrimSuffix(addr, ":")
unfoldable pub trim_colon : Text → Text
trim_colon [] = []
trim_colon (c ∷ []) = if c ==ℕ b':' then [] else c ∷ []
trim_colon (c ∷ d ∷ s) = c ∷ trim_colon (d ∷ s)

abbrev is_bracket : ℕ → Bool
is_bracket c = c ==ℕ b'[' || c ==ℕ b']'

-- strings.Trim(host, "[]")
unfoldable pub trim_brackets_left : Text → Text
trim_brackets_left [] = []
trim_brackets_left (c ∷ s) = let rest = trim_brackets_left s in if is_bracket c then rest else c ∷ s

unfoldable pub trim_brackets_right : Text → Text
trim_brackets_right [] = []
trim_brackets_right (c ∷ s) =
    let rest = trim_brackets_right s in if is_bracket c && rest == [] then [] else c ∷ rest

abbrev host_of : Text → Option Text → Text
host_of addr none = trim_colon addr
host_of addr (some host) = host

abbrev is_any_host : Text → Bool
is_any_host host =
    host == [] || (host == codes "0.0.0.0" || (host == codes "::" || host == codes "[::]"))

unfoldable pub is_loopback_addr : Net → Text → Bool
unfolding trim_colon trim_brackets_left trim_brackets_right
is_loopback_addr net addr =
    let host : Text = host_of addr (net.split_host_port addr) in
    if host == codes "localhost"
    then true
    else if is_any_host host
    then false
    else elim (net.ip_is_loopback (trim_brackets_right (trim_brackets_left host))) [
      | none ↦ false
      | some loopback ↦ loopback
    ]
