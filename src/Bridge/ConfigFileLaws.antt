-- ===== src/Bridge/ConfigFileLaws.antt =====
-- Setting a value in the configuration file, and reading it back.
use relayent.Base.{
  Text, ◌==◌, eq_iff, eq_refl, eq-false_of_ne, ◌&&◌, not, ◌≡◌, ◌≢◌, refl, sym, ap, ◌∙◌, Bool, true,
  false, List, [], ◌∷◌, ◌++◌, Option, none, some, arith, if◌then◌else◌, ◌⊎◌, inl, inr, Bool-cases,
}
use relayent.Strings.{trim_space}
use relayent.Bridge.ConfigFile.{
  entry, trim_quotes, drop_quotes, FileConfig, no_config, record_entry, load_lines, setting_line,
  matches, replacement, rewrite_lines, appended, set_lines, Setting, env_of,
}
use relayent.Bridge.LineLaws.{empty_or, entry-setting_line}

-- Reading lines

load_lines-cong :
    (lines : List Text) (m n : FileConfig) (j : Text)
    → m j ≡ n j
    → load_lines lines m j ≡ load_lines lines n j
unfolding load_lines
load_lines-cong [] m n j h = h
load_lines-cong (line ∷ lines) m n j h = load_lines-cong lines _ _ j (same (entry line))
  where
    same : (e : Option (Text × Text)) → record_entry e m j ≡ record_entry e n j
    same none = h
    same (some (k, v)) = ground arith

pub load_lines-append :
    (xs ys : List Text) (m : FileConfig) → load_lines (xs ++ ys) m ≡ load_lines ys (load_lines xs m)
unfolding load_lines
load_lines-append [] ys m = refl
load_lines-append (x ∷ xs) ys m = load_lines-append xs ys (record_entry (entry x) m)

-- An entry for another key changes nothing.
record_entry-other :
    (key j : Text) (e : Option (Text × Text)) (m : FileConfig)
    → matches key e ≡ true
    → j ≢ key
    → record_entry e m j ≡ m j
record_entry-other key j none m h ne = cc
record_entry-other key j (some (k, v)) m h ne =
    let e : k ≡ key = (eq_iff k key).0 h in rw (eq-false_of_ne j k (λ q. ne (q ∙ e))) refl

record_entry-unmatched :
    (key : Text) (e : Option (Text × Text)) (m : FileConfig)
    → matches key e ≡ false
    → record_entry e m key ≡ m key
record_entry-unmatched key none m h = refl
record_entry-unmatched key (some (k, v)) m h =
    let ne : (key == k) ≡ false = eq-false_of_ne key k (λ q. ground (arith, eq_iff k key)) in
    rw ne refl

abbrev shown : Text → Text
shown value = trim_quotes (trim_space value)

-- The written entry for `key` is read as that of a line.
abbrev ReadsBack : Text → Text → Type 0
ReadsBack key value = (value ≡ []) ⊎ (entry (setting_line key value) ≡ some (key, value))

load-replacement :
    (key value : Text) (m : FileConfig) (j : Text)
    → ReadsBack key value
    → load_lines (replacement key value) m j
      ≡ (if j == key && not (value == []) then shown value else m j)
unfolding load_lines ◌==◌
load-replacement key value m j (inl e) = rw e (ground arith)
load-replacement key [] m j (inr e) = ground arith
load-replacement key (c ∷ value) m j (inr e) = rw e (ground arith)

module _ (key value : Text) (back : ReadsBack key value) where
  -- Another key reads as before.
  load-rewrite_other :
      (lines : List Text) (m : FileConfig) (j : Text)
      → j ≢ key
      → load_lines (rewrite_lines key value lines).0 m j ≡ load_lines lines m j
  unfolding rewrite_lines load_lines
  load-rewrite_other [] m j ne = refl
  load-rewrite_other (line ∷ lines) m j ne = elim (Bool-cases (matches key (entry line))) [
    | inl y ↦ rw y (
        ap (λ (g : FileConfig). g j)
          (load_lines-append (replacement key value) (rewrite_lines key value lines).0 m)
        ∙ load-rewrite_other lines (load_lines (replacement key value) m) j ne
        ∙ load_lines-cong lines _ _ j (
            load-replacement key value m j back
            ∙ ap (λ b. if b && not (value == []) then shown value else m j)
                (eq-false_of_ne j key ne)
            ∙ sym (record_entry-other key j (entry line) m y ne)))
    | inr n ↦ rw n (load-rewrite_other lines (record_entry (entry line) m) j ne)
  ]

  -- The key itself reads as the value, or as nothing, if a line was rewritten.
  load-rewrite_self :
      (lines : List Text) (m : FileConfig)
      → load_lines (rewrite_lines key value lines).0 m key
        ≡ (if (rewrite_lines key value lines).1 && not (value == []) then shown value else m key)
  unfolding rewrite_lines load_lines
  load-rewrite_self [] m = refl
  load-rewrite_self (line ∷ lines) m = elim (Bool-cases (matches key (entry line))) [
    | inl y ↦ rw y (
        ap (λ (g : FileConfig). g key)
          (load_lines-append (replacement key value) (rewrite_lines key value lines).0 m)
        ∙ load-rewrite_self lines (load_lines (replacement key value) m)
        ∙ ground (arith, load-replacement key value m key back, eq_refl key))
    | inr n ↦ rw n (
        load-rewrite_self lines (record_entry (entry line) m)
        ∙ ap
            (λ v. if (rewrite_lines key value lines).1 && not (value == []) then shown value else v)
            (record_entry-unmatched key (entry line) m n))
  ]

  load-appended :
      (out : List Text × Bool) (m : FileConfig) (j : Text)
      → load_lines (appended key value out) m j ≡ (
          if j == key && (not out.1 && not (value == []))
          then shown value
          else load_lines out.0 m j)
  load-appended (lines, true) m j = ground arith
  load-appended (lines, false) m j =
      ap (λ (g : FileConfig). g j) (load_lines-append lines (replacement key value) m)
      ∙ load-replacement key value (load_lines lines m) j back
      ∙ ground arith

  load-set_other :
      (lines : List Text) (m : FileConfig) (j : Text)
      → j ≢ key
      → load_lines (set_lines key value lines) m j ≡ load_lines lines m j
  unfolding set_lines
  load-set_other lines m j ne =
      load-appended (rewrite_lines key value lines) m j
      ∙ ap
          (λ b.
            if b && (not (rewrite_lines key value lines).1 && not (value == []))
            then shown value
            else load_lines (rewrite_lines key value lines).0 m j)
          (eq-false_of_ne j key ne)
      ∙ load-rewrite_other lines m j ne

  load-set_self :
      (lines : List Text)
      → load_lines (set_lines key value lines) no_config key
        ≡ (if value == [] then [] else shown value)
  unfolding set_lines
  load-set_self lines =
      load-appended (rewrite_lines key value lines) no_config key
      ∙ ground (arith, load-rewrite_self lines no_config, eq_refl key)

shown-plain :
    (value : Text)
    → trim_space value ≡ value
    → (if value == [] then [] else shown value) ≡ trim_quotes value
unfolding ◌==◌ trim_quotes drop_quotes
shown-plain [] h = refl
shown-plain (c ∷ value) h = ap trim_quotes h

-- Setting a trimmed value, or unsetting it by the empty one, and reading the file again: the setting
-- reads as the value without the quotes at its ends, and every other key as before, whatever lines,
-- comments and repeated keys the file had.
pub set_lines-load :
    (s : Setting) (value : Text) (lines : List Text) (j : Text)
    → trim_space value ≡ value
    → load_lines (set_lines (env_of s) value lines) no_config j
      ≡ (if j == env_of s then trim_quotes value else load_lines lines no_config j)
set_lines-load s value lines j h = elim (Bool-cases (j == env_of s)) [
  | inl y ↦ rw y (
      ap (load_lines (set_lines (env_of s) value lines) no_config) ((eq_iff j (env_of s)).0 y)
      ∙ load-set_self (env_of s) value back lines
      ∙ shown-plain value h)
  | inr n ↦ rw n (
      load-set_other (env_of s) value back lines no_config j
        (λ e. let q : (j == env_of s) ≡ true = (eq_iff j (env_of s)).1 e in cc))
]
  where
    back : ReadsBack (env_of s) value
    back = elim (empty_or value) [ inl e ↦ inl e | inr ne ↦ inr (entry-setting_line s value ne h) ]
