-- ===== src/Bridge/Attachments.antt =====
-- writeAttachments of bridge/main.go, on the files of the machine.
use relayent.Base.{
  ℕ, suc, Text, codes, ◌==◌, Bool, List, [], ◌∷◌, ◌++◌, Option, none, some, if◌then◌else◌, ◌⊎◌, inl,
  inr,
}
use relayent.Strings.Decimal.{itoa}
use relayent.Api.{Attachment}
use relayent.Adapters.Defs.{Command}
use relayent.Bridge.Paths.{attachment_path}

-- The contents of the files by their paths.
abbrev pub Disk : Type 0
Disk = Text → Option Text

abbrev pub put : Text → Option Text → Disk → Disk
put path entry disk p = if p == path then entry else disk p

-- os.WriteFile: done, or an error and what it leaves at the path, which may be a part of the data.
pub data Wrote : Type 0 where
  done : Wrote
  broken : Text → Option Text → Wrote

-- The operating system, and base64.StdEncoding.DecodeString: data, or the text of an error.
pub record Machine : Type 0 where
  -- what a process, after the ones before it, makes of the files
  pub touch : List Command → Command → Disk → Disk
  pub write_file : Disk → Text → Text → Wrote
  -- whether os.Remove succeeds on a file
  pub removable : Text → Bool
  pub decode : Text → Text ⊎ Text

-- The closure `cleanup`, which ignores the errors of os.Remove.
unfoldable pub cleanup : Machine → List Text → Disk → Disk
cleanup m [] disk = disk
cleanup m (p ∷ paths) disk = cleanup m paths (if m.removable p then put p none disk else disk)

-- The paths, or the text of an error.
pub data Written : Type 0 where
  written : List Text → Disk → Written
  refused : Text → Disk → Written

abbrev attachment_error : ℕ → Text → Text → Text → Text
attachment_error i name what err =
    codes "attachment " ++ (itoa i ++ (codes " (" ++ (name ++ (codes "): " ++ (what ++ err)))))

-- One round of the loop; `next` is the rest of the loop.
abbrev pub wrote :
    Machine
    → (List Text → Disk → Written)
    → ℕ
    → Text
    → Text
    → Text
    → List Text
    → Disk
    → Wrote
    → Written
wrote m next i name path payload paths disk done =
    next (paths ++ path ∷ []) (put path (some payload) disk)
wrote m next i name path payload paths disk (broken err left) =
    refused (attachment_error i name (codes "write failed: ") err)
      (cleanup m paths (put path left disk))

abbrev pub decoded :
    Machine
    → (List Text → Disk → Written)
    → ℕ
    → Text
    → Text
    → List Text
    → Disk
    → Text ⊎ Text
    → Written
decoded m next i name path paths disk (inl err) =
    refused (attachment_error i name (codes "invalid base64: ") err) (cleanup m paths disk)
decoded m next i name path paths disk (inr payload) =
    wrote m next i name path payload paths disk (m.write_file disk path payload)

unfoldable pub write_loop : Machine → Text → Text → ℕ → List Attachment → List Text → Disk → Written
write_loop m workspace job i [] paths disk = written paths disk
write_loop m workspace job i (a ∷ attachments) paths disk =
    decoded m (write_loop m workspace job (suc i) attachments) i a.name
      (attachment_path workspace job i a.name) paths disk (m.decode a.payload)

unfoldable pub write_attachments : Machine → Text → Text → List Attachment → Disk → Written
unfolding write_loop
write_attachments m workspace job attachments disk =
    write_loop m workspace job 0 attachments [] disk
