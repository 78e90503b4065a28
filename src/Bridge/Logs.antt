-- ===== src/Bridge/Logs.antt =====
-- bridge/logrotate.go
use relayent.Base.{
  ℕ, zero, suc, ◌-◌, ◌*◌, Text, codes, ltb, Bool, [], ◌++◌, Option, none, some, length,
  if◌then◌else◌,
}
use relayent.Strings.Decimal.{itoa}
use relayent.Bridge.Attachments.{Disk, put}

-- 5 MiB
abbrev pub max_log_bytes : ℕ
max_log_bytes = 5 * 1_048_576

abbrev pub max_log_files : ℕ
max_log_files = 3

-- os.Stat: the size, no file, or an error.
pub data Stat : Type 0 where
  size : ℕ → Stat
  not_exist : Stat
  stat_error : Text → Stat

-- What the operating system can refuse; `none` is for success. A write that fails may leave a part of
-- the data.
pub record Faults : Type 0 where
  pub stat : Text → Option Text
  pub removable : Text → Bool
  pub rename : Text → Text → Option Text
  pub read : Text → Option Text
  pub write : Text → Text → Option (Text × Option Text)
  pub truncate : Text → Option Text

unfoldable pub stat_file : Faults → Disk → Text → Stat
stat_file f disk path = elim (f.stat path) [
  | some err ↦ stat_error err
  | none ↦ elim (disk path) [ none ↦ not_exist | some contents ↦ size (length contents) ]
]

-- Whether it rotated, or the text of an error.
pub data Rotation : Type 0 where
  rotated : Rotation
  kept : Rotation
  rotate_error : Text → Rotation

abbrev pub generation : Text → ℕ → Text
generation path i = path ++ (codes "." ++ itoa i)

abbrev pub rename_file : Disk → Text → Text → Disk
rename_file disk from to = put from none (put to (disk from) disk)

-- The loop that shifts the generations up, from the highest that is kept; `next` is what follows it.
abbrev pub renamed : (Disk → Rotation × Disk) → Disk → Text → Text → Option Text → Rotation × Disk
renamed next disk from to none = next (rename_file disk from to)
renamed next disk from to (some err) =
    (rotate_error (codes "rotate " ++ (from ++ (codes ": " ++ err))), disk)

abbrev pub shifted : Faults → (Disk → Rotation × Disk) → Disk → Text → Text → Stat → Rotation × Disk
shifted f next disk from to (size n) = renamed next disk from to (f.rename from to)
shifted f next disk from to not_exist = next disk
shifted f next disk from to (stat_error err) = next disk

unfoldable pub shift_loop : Faults → Text → (Disk → Rotation × Disk) → ℕ → Disk → Rotation × Disk
shift_loop f path next zero disk = next disk
shift_loop f path next (suc i) disk =
    shifted f (shift_loop f path next i) disk (generation path (suc i))
      (generation path (suc (suc i))) (stat_file f disk (generation path (suc i)))

abbrev pub truncated : Disk → Text → Option Text → Rotation × Disk
truncated disk path none = (rotated, put path (some []) disk)
truncated disk path (some err) =
    (rotate_error (codes "truncate " ++ (path ++ (codes ": " ++ err))), disk)

abbrev pub copied : Faults → Disk → Text → Text → Option (Text × Option Text) → Rotation × Disk
copied f disk path contents none =
    truncated (put (generation path 1) (some contents) disk) path (f.truncate path)
copied f disk path contents (some (err, left)) =
    (rotate_error (codes "write rotated log: " ++ err), put (generation path 1) left disk)

abbrev pub read_log : Faults → Disk → Text → Option Text → Option Text → Rotation × Disk
read_log f disk path (some err) contents =
    (rotate_error (codes "read " ++ (path ++ (codes ": " ++ err))), disk)
read_log f disk path none none =
    (rotate_error (codes "read " ++ (path ++ codes ": no such file or directory")), disk)
read_log f disk path none (some contents) =
    copied f disk path contents (f.write (generation path 1) contents)

-- Copies the log to the first generation and truncates it.
unfoldable pub copy_truncate : Faults → Text → Disk → Rotation × Disk
copy_truncate f path disk = read_log f disk path (f.read path) (disk path)

abbrev pub remove_file : Faults → Disk → Text → Disk
remove_file f disk path = if f.removable path then put path none disk else disk

unfoldable pub rotate : Faults → Text → Disk → Rotation × Disk
unfolding shift_loop copy_truncate
rotate f path disk =
    shift_loop f path (copy_truncate f path) (max_log_files - 2)
      (remove_file f disk (generation path (max_log_files - 1)))

abbrev pub rotate_size : Faults → Text → Disk → Stat → Rotation × Disk
rotate_size f path disk (stat_error err) = (rotate_error err, disk)
rotate_size f path disk not_exist = (kept, disk)
rotate_size f path disk (size n) = if ltb n max_log_bytes then (kept, disk) else rotate f path disk

-- rotateIfLarge
unfoldable pub rotate_if_large : Faults → Text → Disk → Rotation × Disk
unfolding rotate stat_file
rotate_if_large f path disk = rotate_size f path disk (stat_file f disk path)
