-- ===== src/Bridge/FileLines.antt =====
-- The configuration file and its lines: what is written for some lines is read as the lines.
use mathlib.Core.List.{reverse}
use relayent.Base.{
  ℕ, Text, ◌==◌, ◌==ℕ◌, eq_iff, ◌||◌, ltb, ◌≡◌, refl, sym, ap, subst, ◌∙◌, true, false, List, [],
  ◌∷◌, ◌++◌, none, some, arith, if◌then◌else◌, ◌⊎◌, inl, inr, Bool-cases, length,
}
use relayent.Strings.{trim_space, strip, cut, split, join, cons_head}
use relayent.Strings.Split.{occurs, NoneHas, split-join}
use relayent.Strings.TrimEnd.{trim_space-cr}
use relayent.Bridge.ConfigFile.{
  drop_cr, drop_last_empty, map_lines, any_too_long, scan_lines, is_comment, keyed, entry,
  FileConfig, no_config, record_entry, load_lines, load_file_config, with_end, render_lines,
}
use relayent.Bridge.ConfigFileLaws.{load_lines-append}
use relayent.Bridge.LineLaws.{reverse-cases}

-- What is read of a file is read of the parts between its line ends.

entry-cong : (s t : Text) → trim_space s ≡ trim_space t → entry s ≡ entry t
unfolding entry
entry-cong s t h = ap (λ (u : Text). if u == [] || is_comment u then none else keyed (cut b'=' u)) h

pub drop_cr-cases : (t : Text) → (drop_cr t ≡ t) ⊎ (t ≡ drop_cr t ++ 13 ∷ [])
unfolding drop_cr
drop_cr-cases [] = inl refl
drop_cr-cases (c ∷ []) = elim (Bool-cases (c ==ℕ 13)) [
  | inl y ↦ inr (rw y (ground arith))
  | inr n ↦ inl (rw n refl)
]
drop_cr-cases (c ∷ d ∷ s) = elim (drop_cr-cases (d ∷ s)) [
  | inl e ↦ inl (ap (◌∷◌ c) e)
  | inr e ↦ inr (ap (◌∷◌ c) e)
]

entry-drop_cr : (t : Text) → entry (drop_cr t) ≡ entry t
entry-drop_cr t = elim (drop_cr-cases t) [
  | inl e ↦ ap entry e
  | inr e ↦ entry-cong (drop_cr t) t (sym (trim_space-cr (drop_cr t)) ∙ ap trim_space (sym e))
]

pub entry-nil : entry [] ≡ none
unfolding entry trim_space ◌==◌ strip
entry-nil = refl

load-map_lines : (ts : List Text) (m : FileConfig) → load_lines (map_lines ts) m ≡ load_lines ts m
unfolding load_lines map_lines
load-map_lines [] m = refl
load-map_lines (t ∷ ts) m =
    load-map_lines ts (record_entry (entry (drop_cr t)) m)
    ∙ ap (λ e. load_lines ts (record_entry e m)) (entry-drop_cr t)

load-drop_last_empty :
    (ts : List Text) (m : FileConfig) → load_lines (drop_last_empty ts) m ≡ load_lines ts m
unfolding load_lines drop_last_empty
load-drop_last_empty [] m = refl
load-drop_last_empty (t ∷ []) m = elim (Bool-cases (t == [])) [
  | inl y ↦ rw y (
      sym (
        ap (λ u. record_entry (entry u) m) ((eq_iff t []).0 y)
        ∙ ap (λ e. record_entry e m) entry-nil))
  | inr n ↦ rw n refl
]
load-drop_last_empty (t ∷ u ∷ ts) m = load-drop_last_empty (u ∷ ts) (record_entry (entry t) m)

abbrev pub scanned : Text → List Text
scanned content = map_lines (drop_last_empty (split 10 content))

pub load-scanned :
    (content : Text) (m : FileConfig)
    → load_lines (scanned content) m ≡ load_lines (split 10 content) m
load-scanned content m =
    load-map_lines (drop_last_empty (split 10 content)) m
    ∙ load-drop_last_empty (split 10 content) m

pub scan-some :
    (content : Text)
    → any_too_long (split 10 content) ≡ false
    → scan_lines content ≡ some (scanned content)
unfolding scan_lines
scan-some content h = rw h refl

pub scan-none :
    (content : Text) → any_too_long (split 10 content) ≡ true → scan_lines content ≡ none
unfolding scan_lines
scan-none content h = rw h refl

pub load_file-scanned :
    (content : Text)
    → any_too_long (split 10 content) ≡ false
    → load_file_config (some content) ≡ some (load_lines (scanned content) no_config)
unfolding load_file_config
load_file-scanned content h = rw (scan-some content h, load_file_config) refl

-- What is written for some lines is read as the lines.

split-cons : (c : ℕ) (s : Text) → (t : Text) × (ts : List Text) × (split c s ≡ t ∷ ts)
unfolding split
split-cons c [] = ([], [], refl)
split-cons c (x ∷ s) = elim (Bool-cases (x ==ℕ c)) [
  | inl y ↦ ([], split c s, rw y refl)
  | inr n ↦ let (t, ts, e) = split-cons c s in (x ∷ t, ts, rw n (rw e refl))
]

split-snoc : (c : ℕ) (s : Text) → split c (s ++ c ∷ []) ≡ split c s ++ [] ∷ []
unfolding split
split-snoc c [] = ground arith
split-snoc c (x ∷ s) = elim (Bool-cases (x ==ℕ c)) [
  | inl y ↦ rw y (ap (◌∷◌ []) (split-snoc c s))
  | inr n ↦ let (t, ts, e) = split-cons c s in rw n (ap (cons_head x) (split-snoc c s) ∙ rw e refl)
]

-- A line of the file: it holds no line end, and the scanner's buffer holds it.
abbrev pub IsLine : Text → Type 0
IsLine t = (occurs 10 t ≡ false) × (ltb 65_535 (length t) ≡ false)

abbrev pub AreLines : List Text → Type 0
AreLines [] = Unit
AreLines (t ∷ ts) = IsLine t × AreLines ts

AreLines-NoneHas : (ts : List Text) → AreLines ts → NoneHas 10 ts
AreLines-NoneHas [] h = tt
AreLines-NoneHas (t ∷ ts) (h, hs) = (h.0, AreLines-NoneHas ts hs)

pub AreLines-short : (ts : List Text) → AreLines ts → any_too_long ts ≡ false
unfolding any_too_long
AreLines-short [] h = refl
AreLines-short (t ∷ ts) (h, hs) = ground (arith, AreLines-short ts hs)

pub AreLines-of : (ts : List Text) → NoneHas 10 ts → any_too_long ts ≡ false → AreLines ts
unfolding any_too_long
AreLines-of [] n h = tt
AreLines-of (t ∷ ts) (n, ns) h = ((n, ground arith), AreLines-of ts ns (ground arith))

pub AreLines-append : (ts us : List Text) → AreLines ts → AreLines us → AreLines (ts ++ us)
AreLines-append [] us h k = k
AreLines-append (t ∷ ts) us (h, hs) k = (h, AreLines-append ts us hs k)

split-join_lines :
    (t : Text) (ts : List Text) → AreLines (t ∷ ts) → split 10 (join 10 (t ∷ ts)) ≡ t ∷ ts
split-join_lines t ts (h, hs) = split-join 10 t ts h.0 (AreLines-NoneHas ts hs)

-- Read again, the lines are there, with empty ones behind them at most.
abbrev RendersAs : List Text → Text → Type 0
RendersAs ts content =
    AreLines (split 10 content)
    × ((m : FileConfig) → load_lines (split 10 content) m ≡ load_lines ts m)

load-empty_last : (ts : List Text) (m : FileConfig) → load_lines (ts ++ [] ∷ []) m ≡ load_lines ts m
unfolding load_lines
load-empty_last ts m =
    load_lines-append ts ([] ∷ []) m ∙ ap (λ e. record_entry e (load_lines ts m)) entry-nil

empty-IsLine : IsLine []
unfolding occurs
empty-IsLine = (refl, refl)

one_end-RendersAs :
    (ts : List Text) → ((m : FileConfig) → load_lines ts m ≡ m) → RendersAs ts (10 ∷ [])
unfolding split load_lines occurs
one_end-RendersAs ts h = (
  (empty-IsLine, (empty-IsLine, tt)),
  λ m. ap (λ e. record_entry e (record_entry e m)) entry-nil ∙ sym (h m),
)

lines-RendersAs :
    (t : Text) (ts : List Text) (content : Text)
    → AreLines (t ∷ ts)
    → split 10 content ≡ t ∷ ts
    → RendersAs (t ∷ ts) content
lines-RendersAs t ts content h e = rw e (h, λ m. refl)

ended-RendersAs :
    (t : Text) (ts : List Text) (content : Text)
    → AreLines (t ∷ ts)
    → split 10 content ≡ t ∷ ts
    → RendersAs (t ∷ ts) (content ++ 10 ∷ [])
ended-RendersAs t ts content h e =
    rw (split-snoc 10 content ∙ ap (λ us. us ++ [] ∷ []) e)
      (AreLines-append (t ∷ ts) ([] ∷ []) h (empty-IsLine, tt), load-empty_last (t ∷ ts))

with_end-RendersAs :
    (t : Text) (ts : List Text) (content : Text)
    → AreLines (t ∷ ts)
    → split 10 content ≡ t ∷ ts
    → RendersAs (t ∷ ts) (with_end content (reverse content))
unfolding load_lines split
with_end-RendersAs t ts content h e = elim (reverse-cases content) [
  | inl n ↦
      subst (λ s. RendersAs (t ∷ ts) (with_end s (reverse s))) (sym n)
        (one_end-RendersAs (t ∷ ts) (λ m.
          ap (λ us. load_lines us m) (sym e ∙ ap (split 10) n)
          ∙ ap (λ o. record_entry o m) entry-nil))
  | inr (c, r, q) ↦ rw q (elim (Bool-cases (c ==ℕ 10)) [
    | inl y ↦ rw y (lines-RendersAs t ts content h e)
    | inr n ↦ rw n (ended-RendersAs t ts content h e)
  ])
]

pub render_lines-RendersAs : (ts : List Text) → AreLines ts → RendersAs ts (render_lines ts)
unfolding render_lines join load_lines
render_lines-RendersAs [] h = one_end-RendersAs [] (λ m. refl)
render_lines-RendersAs (t ∷ ts) h =
    with_end-RendersAs t ts (join 10 (t ∷ ts)) h (split-join_lines t ts h)
