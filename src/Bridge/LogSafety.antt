-- ===== src/Bridge/LogSafety.antt =====
-- What a rotation leaves of a log, whatever the operating system refuses.
use relayent.Base.{
  ℕ, zero, suc, ◌<◌, Text, codes, ◌==◌, eq_iff, eq_refl, ◌≡◌, refl, ap, ◌∙◌, true, false, [], ◌++◌,
  Option, none, some, arith, length, ltb, ◌⊎◌, inl, inr, Bool-cases, length-append,
}
use relayent.Strings.Decimal.{itoa}
use relayent.Bridge.Attachments.{Disk, put}
use relayent.Bridge.Logs.{
  Stat, size, not_exist, stat_error, Faults, stat_file, Rotation, generation, rename_file, renamed,
  shifted, shift_loop, truncated, copied, read_log, copy_truncate, remove_file, rotate, rotate_size,
  rotate_if_large, max_log_bytes,
}

-- The log is as it was, or it is empty and its first generation holds what it held.
abbrev pub IsSafe : Text → Option Text → Disk → Type 0
IsSafe path contents disk =
    (disk path ≡ contents) ⊎ ((disk path ≡ some []) × (disk (generation path 1) ≡ contents))

append-ne : (s t : Text) → 0 < length t → (s == s ++ t) ≡ false
append-ne s t h = elim (Bool-cases (s == s ++ t)) [
  | inl y ↦
      let e : s ≡ s ++ t = (eq_iff s (s ++ t)).0 y in
      absurd (omega (arith, ap length e, length-append s t))
  | inr n ↦ n
]

path-ne-generation : (path : Text) (i : ℕ) → (path == generation path i) ≡ false
path-ne-generation path i = append-ne path (codes "." ++ itoa i) (omega arith)

generation-ne-path : (path : Text) (i : ℕ) → (generation path i == path) ≡ false
generation-ne-path path i = elim (Bool-cases (generation path i == path)) [
  | inl y ↦
      let e : generation path i ≡ path = (eq_iff (generation path i) path).0 y in
      let q : (path == generation path i) ≡ true = rw e (eq_refl path) in
      let n = path-ne-generation path i in cc
  | inr n ↦ n
]

pub put-path :
    (path : Text) (i : ℕ) (entry : Option Text) (disk : Disk)
    → put (generation path i) entry disk path ≡ disk path
put-path path i entry disk = rw (path-ne-generation path i) refl

module _ (f : Faults) (path : Text) (contents : Option Text) where
  truncated-IsSafe :
      (disk : Disk) (t : Option Text)
      → disk path ≡ contents
      → disk (generation path 1) ≡ contents
      → IsSafe path contents (truncated disk path t).1
  truncated-IsSafe disk none h k = inr (rw (eq_refl path) refl, other)
    where
      other : put path (some []) disk (generation path 1) ≡ contents
      other = rw (generation-ne-path path 1) k
  truncated-IsSafe disk (some err) h k = inl h

  read_log-IsSafe :
      (disk : Disk) (r c : Option Text)
      → disk path ≡ contents
      → c ≡ contents
      → IsSafe path contents (read_log f disk path r c).1
  read_log-IsSafe disk (some err) c h e = inl h
  read_log-IsSafe disk none none h e = inl h
  read_log-IsSafe disk none (some text) h e = copied-IsSafe (f.write (generation path 1) text)
    where
      copied-IsSafe :
          (w : Option (Text × Option Text)) → IsSafe path contents (copied f disk path text w).1
      copied-IsSafe none =
          truncated-IsSafe (put (generation path 1) (some text) disk) (f.truncate path)
            (put-path path 1 (some text) disk ∙ h) (rw (eq_refl (generation path 1)) e)
      copied-IsSafe (some (err, left)) = inl (put-path path 1 left disk ∙ h)

  copy_truncate-IsSafe :
      (disk : Disk) → disk path ≡ contents → IsSafe path contents (copy_truncate f path disk).1
  unfolding copy_truncate
  copy_truncate-IsSafe disk h = read_log-IsSafe disk (f.read path) (disk path) h h

  module _ (next : Disk → Rotation × Disk)
      (safe : (disk : Disk) → disk path ≡ contents → IsSafe path contents (next disk).1) where
    renamed-IsSafe :
        (disk : Disk) (i j : ℕ) (r : Option Text)
        → disk path ≡ contents
        → IsSafe path contents (renamed next disk (generation path i) (generation path j) r).1
    renamed-IsSafe disk i j none h =
        safe (rename_file disk (generation path i) (generation path j)) (
          put-path path i none (put (generation path j) (disk (generation path i)) disk)
          ∙ put-path path j (disk (generation path i)) disk
          ∙ h)
    renamed-IsSafe disk i j (some err) h = inl h

    shifted-IsSafe :
        (disk : Disk) (i j : ℕ) (s : Stat)
        → disk path ≡ contents
        → IsSafe path contents (shifted f next disk (generation path i) (generation path j) s).1
    shifted-IsSafe disk i j (size n) h =
        renamed-IsSafe disk i j (f.rename (generation path i) (generation path j)) h
    shifted-IsSafe disk i j not_exist h = safe disk h
    shifted-IsSafe disk i j (stat_error err) h = safe disk h

  shift_loop-IsSafe :
      (i : ℕ) (disk : Disk)
      → disk path ≡ contents
      → IsSafe path contents (shift_loop f path (copy_truncate f path) i disk).1
  unfolding shift_loop
  shift_loop-IsSafe zero disk h = copy_truncate-IsSafe disk h
  shift_loop-IsSafe (suc i) disk h =
      shifted-IsSafe (shift_loop f path (copy_truncate f path) i) (λ d k. shift_loop-IsSafe i d k)
        disk (suc i) (suc (suc i)) (stat_file f disk (generation path (suc i))) h

  remove_file-path :
      (disk : Disk) (i : ℕ)
      → disk path ≡ contents
      → remove_file f disk (generation path i) path ≡ contents
  remove_file-path disk i h = elim (Bool-cases (f.removable (generation path i))) [
    | inl y ↦ rw y (put-path path i none disk ∙ h)
    | inr n ↦ rw n h
  ]

  rotate_size-IsSafe :
      (disk : Disk) (s : Stat)
      → disk path ≡ contents
      → IsSafe path contents (rotate_size f path disk s).1
  unfolding rotate
  rotate_size-IsSafe disk (stat_error err) h = inl h
  rotate_size-IsSafe disk not_exist h = inl h
  rotate_size-IsSafe disk (size n) h = elim (Bool-cases (ltb n max_log_bytes)) [
    | inl y ↦ rw y (inl h)
    | inr k ↦
        rw k
          (shift_loop-IsSafe 1 (remove_file f disk (generation path 2)) (remove_file-path disk 2 h))
  ]

-- Whatever the operating system refuses, a check of a log's size does not lose what the log held: the
-- log is as it was, or it is empty and its first generation holds all of it.
pub rotate_if_large-IsSafe :
    (f : Faults) (path : Text) (disk : Disk)
    → IsSafe path (disk path) (rotate_if_large f path disk).1
unfolding rotate_if_large
rotate_if_large-IsSafe f path disk =
    rotate_size-IsSafe f path (disk path) disk (stat_file f disk path) refl
