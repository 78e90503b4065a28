-- ===== src/Bridge/LogLaws.antt =====
-- What a rotation leaves of a log when nothing is refused.
use relayent.Base.{
  ℕ, ◌≤◌, Text, codes, ◌==◌, ◌≡◌, refl, sym, ◌∙◌, true, false, [], ◌∷◌, ◌++◌, Option, none, some,
  arith, length, ltb, if◌then◌else◌, ◌⊎◌, inl, inr, Bool-cases, Option-cases,
}
use relayent.Strings.Decimal.{itoa, digits}
use relayent.Bridge.Attachments.{Disk, put}
use relayent.Bridge.Logs.{
  Stat, size, not_exist, Faults, stat_file, Rotation, rotated, generation, rename_file, shifted,
  shift_loop, read_log, copy_truncate, rotate, rotate_size, rotate_if_large, max_log_bytes,
}
use relayent.Bridge.LogSafety.{put-path}

-- Nothing is refused.
abbrev pub no_faults : Faults
no_faults = record {
  stat = λ p. none;
  removable = λ p. true;
  rename = λ p q. none;
  read = λ p. none;
  write = λ p t. none;
  truncate = λ p. none;
}

eq-append_left : (s t u : Text) → (s ++ t == s ++ u) ≡ (t == u)
unfolding ◌==◌
eq-append_left [] t u = refl
eq-append_left (c ∷ s) t u = ground (arith, eq-append_left s t u)

first-ne-second : (path : Text) → (generation path 1 == generation path 2) ≡ false
unfolding itoa digits ◌==◌
first-ne-second path = eq-append_left path (codes ".1") (codes ".2")

read_log-copies :
    (path contents : Text) (disk : Disk) (c : Option Text)
    → c ≡ some contents
    → read_log no_faults disk path none c
      ≡ (rotated, put path (some []) (put (generation path 1) (some contents) disk))
read_log-copies path contents disk none h = cc
read_log-copies path contents disk (some text) h = let e : text ≡ contents = cc in rw e refl

copy_truncate-copies :
    (path contents : Text) (disk : Disk)
    → disk path ≡ some contents
    → copy_truncate no_faults path disk
      ≡ (rotated, put path (some []) (put (generation path 1) (some contents) disk))
unfolding copy_truncate
copy_truncate-copies path contents disk h = read_log-copies path contents disk (disk path) h

-- A log that has reached the limit
abbrev pub after_rotation : Text → Disk → Text → Option Text
after_rotation path disk p =
    if p == path
    then some []
    else if p == generation path 1
    then disk path
    else if p == generation path 2
    then disk (generation path 1)
    else disk p

-- The files after the shift, before the log is copied.
abbrev AreShifted : Text → Disk → Disk → Type 0
AreShifted path disk d =
    (p : Text)
    → (p == generation path 1) ≡ false
    → d p ≡ (if p == generation path 2 then disk (generation path 1) else disk p)

abbrev without_oldest : Text → Disk → Disk
without_oldest path disk = put (generation path 2) none disk

not_shifted :
    (path : Text) (disk : Disk)
    → disk (generation path 1) ≡ none
    → AreShifted path disk (without_oldest path disk)
not_shifted path disk h p n = rw h refl

renamed-AreShifted :
    (path : Text) (disk : Disk)
    → AreShifted path disk
        (rename_file (without_oldest path disk) (generation path 1) (generation path 2))
renamed-AreShifted path disk p n = elim (Bool-cases (p == generation path 2)) [
  | inl y ↦ rw n (rw y (rw (first-ne-second path) refl))
  | inr k ↦ rw n (rw k refl)
]

copied-shifted :
    (path contents : Text) (disk d : Disk) (p : Text)
    → disk path ≡ some contents
    → AreShifted path disk d
    → put path (some []) (put (generation path 1) (some contents) d) p ≡ after_rotation path disk p
copied-shifted path contents disk d p h s = elim (Bool-cases (p == path)) [
  | inl y ↦ rw y refl
  | inr n ↦ elim (Bool-cases (p == generation path 1)) [
    | inl y ↦ rw n (rw y (sym h))
    | inr k ↦ rw n (rw k (s p k))
  ]
]

-- The outcome of a rotation: what it returns, and a file after it.
abbrev Rotates : Text → Disk → Text → Rotation × Disk → Type 0
Rotates path disk p out = (out.0 ≡ rotated) × (out.1 p ≡ after_rotation path disk p)

copied-Rotates :
    (path contents : Text) (disk d : Disk) (p : Text)
    → disk path ≡ some contents
    → d path ≡ some contents
    → AreShifted path disk d
    → Rotates path disk p (copy_truncate no_faults path d)
copied-Rotates path contents disk d p h k s =
    rw (copy_truncate-copies path contents d k) (refl, copied-shifted path contents disk d p h s)

shifted-Rotates :
    (path contents : Text) (disk : Disk) (p : Text) (s : Stat)
    → disk path ≡ some contents
    → (s ≡ not_exist) × (disk (generation path 1) ≡ none) ⊎ ((n : ℕ) × (s ≡ size n))
    → Rotates path disk p (
        shifted no_faults
          (copy_truncate no_faults path)
          (without_oldest path disk)
          (generation path 1)
          (generation path 2)
          s)
shifted-Rotates path contents disk p s h (inl (e, none_there)) = rw e (
    copied-Rotates path contents disk (without_oldest path disk) p h (put-path path 2 none disk ∙ h)
      (not_shifted path disk none_there))
shifted-Rotates path contents disk p s h (inr (n, e)) = rw e (
    copied-Rotates path contents disk
      (rename_file (without_oldest path disk) (generation path 1) (generation path 2)) p h
      (put-path path 1 none (
          put (generation path 2) (without_oldest path disk (generation path 1))
            (without_oldest path disk))
        ∙ put-path path 2 (without_oldest path disk (generation path 1)) (without_oldest path disk)
        ∙ put-path path 2 none disk
        ∙ h)
      (renamed-AreShifted path disk))

stat_cases :
    (disk : Disk) (q : Text)
    → (stat_file no_faults disk q ≡ not_exist) × (disk q ≡ none)
      ⊎ ((n : ℕ) × (stat_file no_faults disk q ≡ size n))
unfolding stat_file
stat_cases disk q = elim (Option-cases (disk q)) [
  | inl n ↦ inl (rw (n, stat_file) refl, n)
  | inr (t, e) ↦ inr (length t, rw (e, stat_file) refl)
]

stat_present :
    (disk : Disk) (q contents : Text)
    → disk q ≡ some contents
    → stat_file no_faults disk q ≡ size (length contents)
unfolding stat_file
stat_present disk q contents h = rw (h, stat_file) refl

without_oldest-first :
    (path : Text) (disk : Disk)
    → without_oldest path disk (generation path 1) ≡ disk (generation path 1)
without_oldest-first path disk = rw (first-ne-second path) refl

stat_first :
    (path : Text) (disk : Disk)
    → (stat_file no_faults (without_oldest path disk) (generation path 1) ≡ not_exist)
        × (disk (generation path 1) ≡ none)
      ⊎ ((n : ℕ) × (stat_file no_faults (without_oldest path disk) (generation path 1) ≡ size n))
stat_first path disk = elim (stat_cases (without_oldest path disk) (generation path 1)) [
  | inl (e, n) ↦ inl (e, sym (without_oldest-first path disk) ∙ n)
  | inr (n, e) ↦ inr (n, e)
]

rotate-Rotates :
    (path contents : Text) (disk : Disk) (p : Text)
    → disk path ≡ some contents
    → Rotates path disk p (rotate no_faults path disk)
unfolding rotate shift_loop
rotate-Rotates path contents disk p h =
    shifted-Rotates path contents disk p
      (stat_file no_faults (without_oldest path disk) (generation path 1)) h (stat_first path disk)

rotate_size-Rotates :
    (path contents : Text) (disk : Disk) (p : Text)
    → disk path ≡ some contents
    → max_log_bytes ≤ length contents
    → Rotates path disk p (rotate_size no_faults path disk (stat_file no_faults disk path))
rotate_size-Rotates path contents disk p h l =
    let large : ltb (length contents) max_log_bytes ≡ false = ground arith in
    rw (stat_present disk path contents h) (rw large (rotate-Rotates path contents disk p h))

-- When nothing is refused, a log of 5 MiB or more is rotated: the log is empty, its first generation is
-- what it held, the second is what the first one held, if there was one, and is gone otherwise, and
-- every other file is as it was.
pub rotate_if_large-shifts :
    (path contents : Text) (disk : Disk) (p : Text)
    → disk path ≡ some contents
    → max_log_bytes ≤ length contents
    → ((rotate_if_large no_faults path disk).0 ≡ rotated)
      × ((rotate_if_large no_faults path disk).1 p ≡ after_rotation path disk p)
unfolding rotate_if_large
rotate_if_large-shifts path contents disk p h l = rotate_size-Rotates path contents disk p h l
