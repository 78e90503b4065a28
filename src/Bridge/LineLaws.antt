-- ===== src/Bridge/LineLaws.antt =====
-- A line of the configuration file that was written for a setting is read as its entry.
use mathlib.Core.List.{reverse, reverse-cons, reverse-append, append_assoc}
use relayent.Base.{
  ℕ, Text, ◌==◌, ◌≡◌, ◌≢◌, refl, sym, ap, ◌∙◌, false, [], ◌∷◌, ◌++◌, some, arith, ◌⊎◌, inl, inr,
}
use relayent.Strings.{trim_space, trim_left, trim_right, strip, cut, space_width, space_width_back}
use relayent.Strings.Trim.{trim_space-id, trim_space-done}
use relayent.Strings.Split.{cut-append, occurs}
use relayent.Bridge.ConfigFile.{
  is_comment, entry, setting_line, Setting, relay_url, pairing_key, workspace, poll_wait,
  job_timeout, env_of,
}

-- The entry of a written line

pub empty_or : (t : Text) → (t ≡ []) ⊎ (t ≢ [])
empty_or [] = inl refl
empty_or (c ∷ t) = inr (cc)

space_width_back-append :
    (c : ℕ) (r t : Text) → space_width_back (c ∷ r) ≡ 0 → space_width_back ((c ∷ r) ++ b'=' ∷ t) ≡ 0
unfolding space_width_back
space_width_back-append c [] [] h = ground arith
space_width_back-append c [] (d ∷ t) h = ground arith
space_width_back-append c (b ∷ []) t h = ground arith
space_width_back-append c (b ∷ a ∷ r) t h = h

env-head : (s : Setting) (t : Text) → space_width (env_of s ++ t) ≡ 0
unfolding space_width
env-head relay_url t = refl
env-head pairing_key t = refl
env-head workspace t = refl
env-head poll_wait t = refl
env-head job_timeout t = refl

is_empty-false : (c : ℕ) (s : Text) → (c ∷ s == []) ≡ false
unfolding ◌==◌
is_empty-false c s = refl

pub reverse-cases : (t : Text) → (t ≡ []) ⊎ ((c : ℕ) × (r : Text) × (reverse t ≡ c ∷ r))
reverse-cases [] = inl refl
reverse-cases (c ∷ t) = elim (reverse-cases t) [
  | inl e ↦ inr (c, [], reverse-cons c t ∙ ap (λ (r : Text). reverse r ++ c ∷ []) e)
  | inr (d, r, e) ↦ inr (d, r ++ c ∷ [], reverse-cons c t ∙ ap (λ (q : Text). q ++ c ∷ []) e)
]

reverse-line :
    (key value : Text) → reverse (setting_line key value) ≡ reverse value ++ b'=' ∷ reverse key
reverse-line key value =
    reverse-append key (b'=' ∷ value)
    ∙ ap (λ (r : Text). r ++ reverse key) (reverse-cons b'=' value)
    ∙ append_assoc (reverse value) (b'=' ∷ []) (reverse key)

line-back :
    (key value : Text)
    → value ≢ []
    → space_width_back (reverse value) ≡ 0
    → space_width_back (reverse (setting_line key value)) ≡ 0
line-back key value ne h = elim (reverse-cases value) [
  | inl e ↦ absurd (ne e)
  | inr (c, r, e) ↦
      ap space_width_back (reverse-line key value ∙ ap (λ (q : Text). q ++ b'=' ∷ reverse key) e)
      ∙ space_width_back-append c r (reverse key) (ap space_width_back (sym e) ∙ h)
]

line-trimmed :
    (s : Setting) (value : Text)
    → value ≢ []
    → trim_space value ≡ value
    → trim_space (setting_line (env_of s) value) ≡ setting_line (env_of s) value
line-trimmed s value ne h =
    trim_space-id (setting_line (env_of s) value) (env-head s (b'=' ∷ value)) (
      line-back (env_of s) value ne
        (ap (λ v. space_width_back (reverse v)) (sym h) ∙ (trim_space-done value).1))

-- Without white space at its ends, a line is read as the key and the value that it was made of.
plain_entry :
    (line k v : Text)
    → trim_space line ≡ line
    → (line == []) ≡ false
    → is_comment line ≡ false
    → cut b'=' line ≡ some (k, v)
    → trim_space k ≡ k
    → entry line ≡ some (k, v)
unfolding entry
plain_entry line k v t e c q r = rw t (rw e (rw c (rw q (rw r refl))))

pub entry-setting_line :
    (s : Setting) (value : Text)
    → value ≢ []
    → trim_space value ≡ value
    → entry (setting_line (env_of s) value) ≡ some (env_of s, value)
unfolding occurs ◌==◌ trim_space trim_left trim_right strip space_width space_width_back
entry-setting_line s value ne h =
    plain_entry (setting_line (env_of s) value) (env_of s) value (line-trimmed s value ne h)
      (head s) (comment s) (cut-append b'=' (env_of s) value (no_equals s)) (trimmed s)
  where
    head : (u : Setting) → (setting_line (env_of u) value == []) ≡ false
    head relay_url = refl
    head pairing_key = refl
    head workspace = refl
    head poll_wait = refl
    head job_timeout = refl

    comment : (u : Setting) → is_comment (setting_line (env_of u) value) ≡ false
    comment relay_url = refl
    comment pairing_key = refl
    comment workspace = refl
    comment poll_wait = refl
    comment job_timeout = refl

    no_equals : (u : Setting) → occurs b'=' (env_of u) ≡ false
    no_equals relay_url = refl
    no_equals pairing_key = refl
    no_equals workspace = refl
    no_equals poll_wait = refl
    no_equals job_timeout = refl

    trimmed : (u : Setting) → trim_space (env_of u) ≡ env_of u
    trimmed relay_url = refl
    trimmed pairing_key = refl
    trimmed workspace = refl
    trimmed poll_wait = refl
    trimmed job_timeout = refl
