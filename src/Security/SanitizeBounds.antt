-- ===== src/Security/SanitizeBounds.antt =====
-- relay/security.go: what is stored of a report is bounded, printable and names known backends only.
use relayent.Base.{
  ℕ, ◌≤◌, ◌<◌, zero, suc, Text, codes, ◌⊎◌, ◌==◌, ◌||◌, not, ltb, leb, ◌≡◌, ◌≢◌, Bool, true, false,
  List, [], ◌∷◌, ◌++◌, keep, take, length, arith, Bool-cases, inl, inr, length-take-le,
  length-append, eq_iff, eq_refl, ap, ◌∙◌,
}
use relayent.Strings.{trim_space, to_lower}
use relayent.Api.{BackendInfo, BridgeCapabilities}
use relayent.Security.Sanitize.{
  is_control, cut_off, clamp_string, clamp_loop, clamp_strings, is_known_backend, clean_backend,
  clean_backends, sanitize_capabilities, mark,
}

-- No byte is a control character of ASCII: below 0x20, or 0x7f.
abbrev pub AllPrintable : Text → Type 0
AllPrintable [] = Unit
AllPrintable (c ∷ s) = ((0x20 ≤ c) × (c ≢ 0x7f)) × AllPrintable s

printable : (c : ℕ) → is_control c ≡ false → (0x20 ≤ c) × (c ≢ 0x7f)
printable c h = (ground (arith, h), λ e. ground (arith, h, e))

-- At most `max` bytes and no control character.
abbrev pub IsClean : ℕ → Text → Type 0
IsClean max s = (length s ≤ max) × AllPrintable s

keep-AllPrintable : (s : Text) → AllPrintable (keep (λ c. not (is_control c)) s)
keep-AllPrintable [] = tt
keep-AllPrintable (c ∷ s) = elim (Bool-cases (is_control c)) [
  | inl y ↦ rw y (keep-AllPrintable s)
  | inr n ↦ rw n (printable c n, keep-AllPrintable s)
]

take-AllPrintable : (n : ℕ) (s : Text) → AllPrintable s → AllPrintable (take n s)
take-AllPrintable zero s p = tt
take-AllPrintable (suc n) [] p = tt
take-AllPrintable (suc n) (c ∷ s) p = (p.0, take-AllPrintable n s p.1)

cut_off-IsClean : (max : ℕ) (s : Text) → AllPrintable s → IsClean max (cut_off max s)
cut_off-IsClean max s p = elim (Bool-cases (ltb max (length s))) [
  | inl y ↦ rw y (length-take-le max s, take-AllPrintable max s p)
  | inr n ↦ rw n (ground (arith, n), p)
]

clamp_string-IsClean : (s : Text) (max : ℕ) → IsClean max (clamp_string s max)
unfolding clamp_string
clamp_string-IsClean s max = cut_off-IsClean max _ (keep-AllPrintable (trim_space s))

abbrev pub AllClean : ℕ → List Text → Type 0
AllClean max [] = Unit
AllClean max (t ∷ ts) = IsClean max t × (t ≢ []) × AllClean max ts

AllClean-append :
    (max : ℕ) (t : Text) (ts : List Text)
    → AllClean max ts
    → IsClean max t
    → t ≢ []
    → AllClean max (ts ++ t ∷ [])
AllClean-append max t [] a c n = (c, n, tt)
AllClean-append max t (u ∷ ts) a c n = (a.0, a.1, AllClean-append max t ts a.2 c n)

clamp_loop-AllClean :
    (max_len max_count : ℕ) (vs out : List Text)
    → AllClean max_len out
    → length out < max_count
    → AllClean max_len (clamp_loop max_len max_count vs out)
      × (length (clamp_loop max_len max_count vs out) ≤ max_count)
unfolding clamp_loop
clamp_loop-AllClean max_len max_count [] out a h = (a, omega arith)
clamp_loop-AllClean max_len max_count (v ∷ vs) out a h =
    elim (Bool-cases (clamp_string v max_len == [])) [
      | inl y ↦ rw y (clamp_loop-AllClean max_len max_count vs out a h)
      | inr n ↦
          let more =
            AllClean-append max_len (clamp_string v max_len) out a (clamp_string-IsClean v max_len)
              (ground (arith, eq_iff (clamp_string v max_len) [])) in
          rw n (elim (Bool-cases (leb max_count (length (out ++ clamp_string v max_len ∷ [])))) [
            | inl y ↦ rw y (more, omega (arith, length-append out (clamp_string v max_len ∷ [])))
            | inr k ↦ rw k (
                clamp_loop-AllClean max_len max_count vs (out ++ clamp_string v max_len ∷ []) more
                  (ground (arith, k)))
          ])
    ]

-- The four backends
abbrev pub IsKnown : Text → Type 0
IsKnown name =
    (name ≡ codes "claude")
    ⊎ ((name ≡ codes "codex") ⊎ ((name ≡ codes "gemini") ⊎ (name ≡ codes "cursor")))

is_known_backend-IsKnown : (name : Text) → is_known_backend name ≡ true → IsKnown name
unfolding is_known_backend
is_known_backend-IsKnown name h = elim (Bool-cases (name == codes "claude")) [
  | inl y ↦ inl ((eq_iff name (codes "claude")).0 y)
  | inr a ↦ elim (Bool-cases (name == codes "codex")) [
    | inl y ↦ inr (inl ((eq_iff name (codes "codex")).0 y))
    | inr b ↦ elim (Bool-cases (name == codes "gemini")) [
      | inl y ↦ inr (inr (inl ((eq_iff name (codes "gemini")).0 y)))
      | inr c ↦ inr (inr (inr ((eq_iff name (codes "cursor")).0 (ground (arith, h, a, b, c)))))
    ]
  ]
]

-- A stored backend: one of the four names, every text bounded and printable, at most 64 models.
pub record IsCleanBackend (b : BackendInfo) : Type 0 where
  pub known : IsKnown b.name
  pub model : IsClean 64 b.model
  pub default_model : IsClean 64 b.default_model
  pub models : AllClean 64 b.models
  pub model_count : length b.models ≤ 64

clean_backend-IsClean :
    (name : Text) (b : BackendInfo)
    → is_known_backend name ≡ true
    → IsCleanBackend (clean_backend name b)
unfolding clean_backend clamp_strings
clean_backend-IsClean name b k =
    let m = clamp_loop-AllClean 64 64 b.models [] tt (omega arith) in
    record {
      known = is_known_backend-IsKnown name k;
      model = clamp_string-IsClean b.model 64;
      default_model = clamp_string-IsClean b.default_model 64;
      models = m.0;
      model_count = m.1;
    }

abbrev pub NoneNamed : Text → List BackendInfo → Type 0
NoneNamed name [] = Unit
NoneNamed name (b ∷ bs) = (b.name ≢ name) × NoneNamed name bs

-- Every entry is clean, and no name occurs twice.
abbrev pub CleanList : List BackendInfo → Type 0
CleanList [] = Unit
CleanList (b ∷ bs) = IsCleanBackend b × NoneNamed b.name bs × CleanList bs

reported_name : BackendInfo → Text
reported_name b = to_lower (trim_space b.name)

-- A name that was seen is not kept again.
clean_backends-NoneNamed :
    (bs : List BackendInfo) (seen : Text → Bool) (name : Text)
    → seen name ≡ true
    → NoneNamed name (clean_backends bs seen)
unfolding clean_backends reported_name clean_backend
clean_backends-NoneNamed [] seen name h = tt
clean_backends-NoneNamed (b ∷ bs) seen name h =
    elim (Bool-cases (not (is_known_backend (reported_name b)) || seen (reported_name b))) [
      | inl y ↦ rw y (clean_backends-NoneNamed bs seen name h)
      | inr n ↦ rw n (
        λ e. let q : seen (reported_name b) ≡ true = ap seen e ∙ h in ground (arith, n, q),
        clean_backends-NoneNamed bs (mark (reported_name b) seen) name (ground (arith, h)),
      )
    ]

clean_backends-CleanList :
    (bs : List BackendInfo) (seen : Text → Bool) → CleanList (clean_backends bs seen)
unfolding clean_backends reported_name clean_backend
clean_backends-CleanList [] seen = tt
clean_backends-CleanList (b ∷ bs) seen =
    elim (Bool-cases (not (is_known_backend (reported_name b)) || seen (reported_name b))) [
      | inl y ↦ rw y (clean_backends-CleanList bs seen)
      | inr n ↦ rw n (
        clean_backend-IsClean (reported_name b) b (ground (arith, n)),
        clean_backends-NoneNamed bs (mark (reported_name b) seen) (reported_name b)
            (ground (arith, eq_refl (reported_name b))),
        clean_backends-CleanList bs (mark (reported_name b) seen),
      )
    ]

-- Whatever a bridge reports, what is stored of it is bounded and has no ASCII control character (version,
-- host name and every model name), names only claude, codex, gemini and cursor, and each of them once.
pub sanitize_capabilities-IsClean :
    (caps : BridgeCapabilities)
    → IsClean 64 (sanitize_capabilities caps).version
      × IsClean 253 (sanitize_capabilities caps).hostname
      × CleanList (sanitize_capabilities caps).backends
unfolding sanitize_capabilities
sanitize_capabilities-IsClean caps = (
  clamp_string-IsClean caps.version 64,
  clamp_string-IsClean caps.hostname 253,
  clean_backends-CleanList caps.backends (λ _. false),
)
