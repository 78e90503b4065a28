-- ===== src/Security/Sanitize.antt =====
-- relay/security.go: what the relay keeps of a bridge's report of its capabilities.
use relayent.Base.{
  ℕ, Text, codes, ◌==◌, ◌==ℕ◌, ◌||◌, not, ltb, leb, if◌then◌else◌, Bool, false, List, [], ◌∷◌, ◌++◌,
  keep, take, length,
}
use relayent.Strings.{trim_space, to_lower}
use relayent.Api.{BackendInfo, BridgeCapabilities}

-- The bytes that `clampString` drops: below 0x20, and 0x7f. In UTF-8 they are characters of their own.
abbrev pub is_control : ℕ → Bool
is_control c = ltb c 0x20 || c ==ℕ 0x7f

abbrev pub cut_off : ℕ → Text → Text
cut_off max s = if ltb max (length s) then take max s else s

-- The texts come out of encoding/json, which leaves valid UTF-8 only, and strings.Map keeps the bytes of it.
unfoldable pub clamp_string : Text → ℕ → Text
clamp_string s max = cut_off max (keep (λ c. not (is_control c)) (trim_space s))

-- The loop of `clampStrings`, which stops when `max_count` entries are kept.
unfoldable pub clamp_loop : ℕ → ℕ → List Text → List Text → List Text
clamp_loop max_len max_count [] out = out
clamp_loop max_len max_count (v ∷ vs) out =
    let c = clamp_string v max_len in
    let longer = clamp_loop max_len max_count vs (out ++ c ∷ []) in
    let same = clamp_loop max_len max_count vs out in
    if c == []
    then same
    else if leb max_count (length (out ++ c ∷ []))
    then out ++ c ∷ []
    else longer

unfoldable pub clamp_strings : List Text → ℕ → ℕ → List Text
unfolding clamp_loop
clamp_strings texts max_len max_count = clamp_loop max_len max_count texts []

abbrev pub known_backend_list : List Text
known_backend_list = codes "claude" ∷ codes "codex" ∷ codes "gemini" ∷ codes "cursor" ∷ []

-- The map `knownBackends`
unfoldable pub is_known_backend : Text → Bool
is_known_backend name =
    name == codes "claude"
    || (name == codes "codex" || (name == codes "gemini" || name == codes "cursor"))

-- The map `supportedBackends`
unfoldable pub is_supported_backend : Text → Bool
is_supported_backend name =
    name == codes "claude"
    || (name == codes "codex" || (name == codes "cursor" || name == codes "gemini"))

unfoldable pub clean_backend : Text → BackendInfo → BackendInfo
clean_backend name b = record {
  name = name;
  installed = b.installed;
  supported = b.supported;
  ready = b.ready;
  model = clamp_string b.model 64;
  models = clamp_strings b.models 64 64;
  default_model = clamp_string b.default_model 64;
  models_probed = b.models_probed;
}

abbrev pub mark : Text → (Text → Bool) → Text → Bool
mark name seen n = name == n || seen n

-- The loop over the reported backends; `seen` are the names that were kept.
unfoldable pub clean_backends : List BackendInfo → (Text → Bool) → List BackendInfo
unfolding clean_backend is_known_backend
clean_backends [] seen = []
clean_backends (b ∷ bs) seen =
    let name = to_lower (trim_space b.name) in
    let skipped = clean_backends bs seen in
    let rest = clean_backends bs (mark name seen) in
    if not (is_known_backend name) || seen name then skipped else clean_backend name b ∷ rest

unfoldable pub sanitize_capabilities : BridgeCapabilities → BridgeCapabilities
sanitize_capabilities caps = record {
  version = clamp_string caps.version 64;
  hostname = clamp_string caps.hostname 253;
  backends = clean_backends caps.backends (λ _. false);
}
