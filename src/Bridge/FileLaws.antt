-- ===== src/Bridge/FileLaws.antt =====
-- Setting a value in the configuration file: the file that is written reads back.
use relayent.Base.{
  ℕ, ◌+◌, ◌≤◌, Text, ◌==◌, ltb, ◌≡◌, refl, sym, ap, subst, ◌∙◌, Bool, true, false, List, [], ◌∷◌,
  Option, none, some, arith, if◌then◌else◌, inl, inr, Bool-cases, length, length-append,
}
use relayent.Strings.{trim_space, space_width, split}
use relayent.Strings.Split.{occurs, occurs-append_left, split-NoneHas}
use relayent.Strings.TrimEnd.{trim_space-head}
use relayent.Bridge.ConfigFile.{
  drop_cr, drop_last_empty, map_lines, any_too_long, entry, trim_quotes, FileConfig, no_config,
  load_lines, load_file_config, setting_line, matches, replacement, rewrite_lines, appended,
  set_lines, render_lines, new_file_lines, write_setting, Setting, relay_url, pairing_key,
  workspace, poll_wait, job_timeout, env_of,
}
use relayent.Bridge.ConfigFileLaws.{set_lines-load}
use relayent.Bridge.FileLines.{
  drop_cr-cases, entry-nil, scanned, load-scanned, scan-some, scan-none, load_file-scanned, IsLine,
  AreLines, AreLines-short, AreLines-of, AreLines-append, render_lines-RendersAs,
}

-- The lines that are read, and those that are written, are lines.

IsLine-drop_cr : (t : Text) → IsLine t → IsLine (drop_cr t)
IsLine-drop_cr t (n, h) = elim (drop_cr-cases t) [
  | inl e ↦ rw e (n, h)
  | inr e ↦ (
    occurs-append_left 10 (drop_cr t) (13 ∷ []) (ap (occurs 10) (sym e) ∙ n),
    shorter (length t) (length (drop_cr t)) (ap length e ∙ length-append (drop_cr t) (13 ∷ [])) h,
  )
]
  where
    shorter : (m n : ℕ) → m ≡ n + 1 → ltb 65_535 m ≡ false → ltb 65_535 n ≡ false
    shorter m n e h = ground arith

AreLines-map_lines : (ts : List Text) → AreLines ts → AreLines (map_lines ts)
unfolding map_lines
AreLines-map_lines [] h = tt
AreLines-map_lines (t ∷ ts) (h, hs) = (IsLine-drop_cr t h, AreLines-map_lines ts hs)

AreLines-drop_last_empty : (ts : List Text) → AreLines ts → AreLines (drop_last_empty ts)
unfolding drop_last_empty
AreLines-drop_last_empty [] h = tt
AreLines-drop_last_empty (t ∷ []) h = elim (Bool-cases (t == [])) [
  | inl y ↦ rw y tt
  | inr n ↦ rw n h
]
AreLines-drop_last_empty (t ∷ u ∷ ts) (h, hs) = (h, AreLines-drop_last_empty (u ∷ ts) hs)

scanned-AreLines :
    (content : Text) → any_too_long (split 10 content) ≡ false → AreLines (scanned content)
scanned-AreLines content h = AreLines-map_lines (drop_last_empty (split 10 content)) (
    AreLines-drop_last_empty (split 10 content)
      (AreLines-of (split 10 content) (split-NoneHas 10 content) h))

module _ (key value : Text) (own : AreLines (replacement key value)) where
  AreLines-rewrite : (ts : List Text) → AreLines ts → AreLines (rewrite_lines key value ts).0
  unfolding rewrite_lines
  AreLines-rewrite [] h = tt
  AreLines-rewrite (t ∷ ts) (h, hs) = elim (Bool-cases (matches key (entry t))) [
    | inl y ↦ rw y (
        AreLines-append (replacement key value) (rewrite_lines key value ts).0 own
          (AreLines-rewrite ts hs))
    | inr n ↦ rw n (h, AreLines-rewrite ts hs)
  ]

  AreLines-appended : (out : List Text × Bool) → AreLines out.0 → AreLines (appended key value out)
  AreLines-appended (ts, true) h = h
  AreLines-appended (ts, false) h = AreLines-append ts (replacement key value) h own

  AreLines-set_lines : (ts : List Text) → AreLines ts → AreLines (set_lines key value ts)
  unfolding set_lines
  AreLines-set_lines ts h = AreLines-appended (rewrite_lines key value ts) (AreLines-rewrite ts h)

setting_line-IsLine :
    (s : Setting) (value : Text)
    → occurs 10 value ≡ false
    → length value ≤ 65_000
    → IsLine (setting_line (env_of s) value)
unfolding occurs
setting_line-IsLine relay_url value h l = (h, ground arith)
setting_line-IsLine pairing_key value h l = (h, ground arith)
setting_line-IsLine workspace value h l = (h, ground arith)
setting_line-IsLine poll_wait value h l = (h, ground arith)
setting_line-IsLine job_timeout value h l = (h, ground arith)

replacement-AreLines :
    (key value : Text) → IsLine (setting_line key value) → AreLines (replacement key value)
replacement-AreLines key value h = elim (Bool-cases (value == [])) [
  | inl y ↦ rw y tt
  | inr n ↦ rw n (h, tt)
]

-- The lines of a new file have no entry.

hash-width : (t : Text) → space_width (b'#' ∷ t) ≡ 0
unfolding space_width
hash-width [] = refl
hash-width (a ∷ []) = refl
hash-width (a ∷ b ∷ t) = refl

comment-none : (t : Text) → entry (b'#' ∷ t) ≡ none
unfolding entry ◌==◌
comment-none t = elim (trim_space-head b'#' t (hash-width t)) [
  | inl e ↦ rw e refl
  | inr (r, e) ↦ rw e refl
]

new_file_lines-AreLines :
    (time : Text) → occurs 10 time ≡ false → length time ≤ 65_000 → AreLines (new_file_lines time)
unfolding new_file_lines occurs
new_file_lines-AreLines time h l = (
  (refl, refl),
  (
    (h, ground arith),
    ((refl, refl), ((refl, refl), ((refl, refl), ((refl, refl), ((refl, refl), tt))))),
  ),
)

load-new_file_lines : (time : Text) (m : FileConfig) → load_lines (new_file_lines time) m ≡ m
unfolding new_file_lines load_lines
load-new_file_lines time m = simp (comment-none, entry-nil)

-- The file reads as `m`, with the value in the place of what the setting was.
abbrev pub HoldsSetting : Setting → Text → FileConfig → Option Text → Type 0
HoldsSetting s value m file =
    (n : FileConfig) × (load_file_config file ≡ some n)
    × ((j : Text) → n j ≡ (if j == env_of s then trim_quotes value else m j))

module _ (s : Setting) (value : Text) (trimmed : trim_space value ≡ value)
    (one_line : occurs 10 value ≡ false) (short : length value ≤ 65_000) where
  lines-HoldsSetting :
      (lines : List Text)
      → AreLines lines
      → HoldsSetting s value
          (load_lines lines no_config)
          (some (render_lines (set_lines (env_of s) value lines)))
  lines-HoldsSetting lines h =
      let out = set_lines (env_of s) value lines in
      let (are, same) = render_lines-RendersAs out (
        AreLines-set_lines (env_of s) value
          (replacement-AreLines (env_of s) value (setting_line-IsLine s value one_line short)) lines
          h) in
      (
        load_lines (scanned (render_lines out)) no_config,
        load_file-scanned (render_lines out) (AreLines-short (split 10 (render_lines out)) are),
        λ j.
            ap (λ (g : FileConfig). g j)
              (load-scanned (render_lines out) no_config ∙ same no_config)
            ∙ set_lines-load s value lines j trimmed,
      )

  -- A setting is written into a file that can be read, or into a new one: the value, with no white space
  -- around it and on one line, is at most 65,000 bytes long, as is the time. The write then succeeds, and
  -- the file that it leaves can be read; the setting reads as the value without the quotes at its ends,
  -- or as nothing where the value is empty, and every other key reads as before.
  pub write_setting-load :
      (time : Text) (file : Option Text) (m : FileConfig)
      → occurs 10 time ≡ false
      → length time ≤ 65_000
      → load_file_config file ≡ some m
      → (new : Text) × (write_setting time (env_of s) value file ≡ some new)
        × HoldsSetting s value m (some new)
  unfolding write_setting load_file_config
  write_setting-load time none m t l e =
      let q : no_config ≡ m = cc in
      (
        render_lines (set_lines (env_of s) value (new_file_lines time)),
        refl,
        subst
            (λ g.
              HoldsSetting s value g
                (some (render_lines (set_lines (env_of s) value (new_file_lines time)))))
            (load-new_file_lines time no_config ∙ q)
            (lines-HoldsSetting (new_file_lines time) (new_file_lines-AreLines time t l)),
      )
  write_setting-load time (some old) m t l e = elim (Bool-cases (any_too_long (split 10 old))) [
    | inl y ↦ let r : none ≡ some m = rw (scan-none old y, load_file_config) at e in cc
    | inr n ↦
        let q : load_lines (scanned old) no_config ≡ m =
          (let r : some (load_lines (scanned old) no_config) ≡ some m =
              sym (load_file-scanned old n) ∙ e in
            cc) in
        (
          render_lines (set_lines (env_of s) value (scanned old)),
          rw (scan-some old n, write_setting) refl,
          subst
              (λ g.
                HoldsSetting s value g
                  (some (render_lines (set_lines (env_of s) value (scanned old)))))
              q (lines-HoldsSetting (scanned old) (scanned-AreLines old n)),
        )
  ]
