-- ===== src/Bridge/AttachmentLaws.antt =====
-- Which files `writeAttachments` and its cleanup leave.
use mathlib.Core.List.{append_assoc, append-nil}
use relayent.Base.{
  ℕ, suc, Text, ◌==◌, eq_iff, ◌||◌, ◌≡◌, refl, sym, ap, subst, ◌∙◌, Bool, true, false, List, [],
  ◌∷◌, ◌++◌, Option, none, some, arith, if◌then◌else◌, ◌⊎◌, inl, inr, Bool-cases,
}
use relayent.Api.{Attachment}
use relayent.Bridge.Paths.{attachment_path}
use relayent.Bridge.Attachments.{
  Disk, put, Wrote, done, broken, Machine, cleanup, Written, written, refused, wrote, decoded,
  write_loop, write_attachments,
}

-- The paths of the attachments from an index on, in their order.
abbrev pub paths_of : Text → Text → ℕ → List Attachment → List Text
paths_of workspace job i [] = []
paths_of workspace job i (a ∷ attachments) =
    attachment_path workspace job i a.name ∷ paths_of workspace job (suc i) attachments

abbrev pub listed : Text → List Text → Bool
listed p [] = false
listed p (q ∷ paths) = p == q || listed p paths

listed-snoc :
    (p q : Text) (paths : List Text) → listed p (paths ++ q ∷ []) ≡ (listed p paths || p == q)
listed-snoc p q [] = ground arith
listed-snoc p q (r ∷ paths) = ground (arith, listed-snoc p q paths)

-- Every file can be removed, and a write that fails leaves no file.
pub record IsTidy (m : Machine) : Type 0 where
  pub removable : (p : Text) → m.removable p ≡ true
  pub leaves_none :
      (disk : Disk) (path payload err : Text) (left : Option Text)
      → m.write_file disk path payload ≡ broken err left
      → left ≡ none

-- There is no file at the paths.
abbrev pub AreFree : Disk → List Text → Type 0
AreFree disk [] = Unit
AreFree disk (p ∷ paths) = (disk p ≡ none) × AreFree disk paths

abbrev pub after_cleanup : Machine → Written → Disk
after_cleanup m (written paths disk) = cleanup m paths disk
after_cleanup m (refused err disk) = disk

module _ (m : Machine) (tidy : IsTidy m) where
  pub cleanup_lem :
      (paths : List Text) (disk : Disk) (p : Text)
      → cleanup m paths disk p ≡ (if listed p paths then none else disk p)
  unfolding cleanup
  cleanup_lem [] disk p = refl
  cleanup_lem (q ∷ paths) disk p =
      rw (tidy.removable q) (cleanup_lem paths (put q none disk) p ∙ ground arith)

  module _ (base : Disk) where
    -- The files so far are those that there were, and the ones at paths that were free.
    abbrev Added : List Text → Disk → Type 0
    Added paths disk =
        (p : Text)
        → ((listed p paths ≡ true) × (base p ≡ none))
          ⊎ ((listed p paths ≡ false) × (disk p ≡ base p))

    cleanup-Added :
        (paths : List Text) (disk : Disk) (p : Text)
        → Added paths disk
        → cleanup m paths disk p ≡ base p
    cleanup-Added paths disk p h = cleanup_lem paths disk p ∙ split (h p)
      where
        split :
            ((listed p paths ≡ true) × (base p ≡ none))
              ⊎ ((listed p paths ≡ false) × (disk p ≡ base p))
            → (if listed p paths then none else disk p) ≡ base p
        split (inl (l, e)) = rw l (sym e)
        split (inr (l, e)) = rw l e

    put-Added :
        (paths : List Text) (disk : Disk) (path : Text) (entry : Option Text)
        → base path ≡ none
        → Added paths disk
        → Added (paths ++ path ∷ []) (put path entry disk)
    put-Added paths disk path entry f h p = elim (Bool-cases (p == path)) [
      | inl y ↦
          let e : p ≡ path = (eq_iff p path).0 y in
          inl (rw listed-snoc (ground arith), ap base e ∙ f)
      | inr n ↦ elim (h p) [
        | inl (l, e) ↦ inl (rw listed-snoc (ground arith), e)
        | inr (l, e) ↦ inr (rw listed-snoc (ground arith), ground arith)
      ]
    ]

    put_none-Added :
        (paths : List Text) (disk : Disk) (path : Text)
        → base path ≡ none
        → Added paths disk
        → Added paths (put path none disk)
    put_none-Added paths disk path f h p = elim (h p) [
      | inl (l, e) ↦ inl (l, e)
      | inr (l, e) ↦ elim (Bool-cases (p == path)) [
        | inl y ↦ inr (l, rw y (sym (ap base ((eq_iff p path).0 y) ∙ f)))
        | inr n ↦ inr (l, rw n e)
      ]
    ]

    module _ (next : List Text → Disk → Written)
        (rest : (paths : List Text) (disk : Disk)
          → Added paths disk
          → (p : Text) → after_cleanup m (next paths disk) p ≡ base p) where
      wrote-tidy :
          (i : ℕ) (name path payload : Text) (paths : List Text) (disk : Disk) (w : Wrote)
          (p : Text)
          → base path ≡ none
          → m.write_file disk path payload ≡ w
          → Added paths disk
          → after_cleanup m (wrote m next i name path payload paths disk w) p ≡ base p
      wrote-tidy i name path payload paths disk done p f e h =
          rest (paths ++ path ∷ []) (put path (some payload) disk)
            (put-Added paths disk path (some payload) f h) p
      wrote-tidy i name path payload paths disk (broken err left) p f e h =
          rw (tidy.leaves_none disk path payload err left e)
            (cleanup-Added paths (put path none disk) p (put_none-Added paths disk path f h))

      decoded-tidy :
          (i : ℕ) (name path : Text) (paths : List Text) (disk : Disk) (d : Text ⊎ Text) (p : Text)
          → base path ≡ none
          → Added paths disk
          → after_cleanup m (decoded m next i name path paths disk d) p ≡ base p
      decoded-tidy i name path paths disk (inl err) p f h = cleanup-Added paths disk p h
      decoded-tidy i name path paths disk (inr payload) p f h =
          wrote-tidy i name path payload paths disk (m.write_file disk path payload) p f refl h

    write_loop-tidy :
        (workspace job : Text) (i : ℕ) (attachments : List Attachment) (paths : List Text)
        (disk : Disk) (p : Text)
        → AreFree base (paths_of workspace job i attachments)
        → Added paths disk
        → after_cleanup m (write_loop m workspace job i attachments paths disk) p ≡ base p
    unfolding write_loop
    write_loop-tidy workspace job i [] paths disk p f h = cleanup-Added paths disk p h
    write_loop-tidy workspace job i (a ∷ attachments) paths disk p f h =
        decoded-tidy (write_loop m workspace job (suc i) attachments)
          (λ ps d k q. write_loop-tidy workspace job (suc i) attachments ps d q f.1 k) i a.name
          (attachment_path workspace job i a.name) paths disk (m.decode a.payload) p f.0 h

  -- Where no files are in the way, files can be removed, and a failed write leaves none: whether the
  -- attachments are written and cleaned up or refused, every file is then as it was before.
  pub write_attachments-tidy :
      (workspace job : Text) (attachments : List Attachment) (disk : Disk) (p : Text)
      → AreFree disk (paths_of workspace job 0 attachments)
      → after_cleanup m (write_attachments m workspace job attachments disk) p ≡ disk p
  unfolding write_attachments
  write_attachments-tidy workspace job attachments disk p f =
      write_loop-tidy disk workspace job 0 attachments [] disk p f (λ q. inr (refl, refl))

-- A successful call returns one path for each attachment, in their order.
abbrev pub Paths : List Text → Written → Type 0
Paths expected (written paths disk) = paths ≡ expected
Paths expected (refused err disk) = Unit

module _ (m : Machine) (workspace job : Text) where
  decoded-Paths :
      (next : List Text → Disk → Written) (i : ℕ) (name path : Text) (paths expected : List Text)
      (disk : Disk) (d : Text ⊎ Text)
      → ((e : Disk) → Paths expected (next (paths ++ path ∷ []) e))
      → Paths expected (decoded m next i name path paths disk d)
  decoded-Paths next i name path paths expected disk (inl err) h = tt
  decoded-Paths next i name path paths expected disk (inr payload) h =
      wrote-Paths (m.write_file disk path payload)
    where
      wrote-Paths : (w : Wrote) → Paths expected (wrote m next i name path payload paths disk w)
      wrote-Paths done = h (put path (some payload) disk)
      wrote-Paths (broken err left) = tt

  write_loop-Paths :
      (i : ℕ) (attachments : List Attachment) (paths : List Text) (disk : Disk)
      → Paths
          (paths ++ paths_of workspace job i attachments)
          (write_loop m workspace job i attachments paths disk)
  unfolding write_loop
  write_loop-Paths i [] paths disk = sym (append-nil paths)
  write_loop-Paths i (a ∷ attachments) paths disk =
      decoded-Paths (write_loop m workspace job (suc i) attachments) i a.name
        (attachment_path workspace job i a.name) paths
        (paths ++ paths_of workspace job i (a ∷ attachments)) disk (m.decode a.payload)
        (λ e.
          subst
            (λ x. Paths x (
              write_loop m workspace job (suc i) attachments
                (paths ++ attachment_path workspace job i a.name ∷ []) e))
            (append_assoc paths (attachment_path workspace job i a.name ∷ [])
              (paths_of workspace job (suc i) attachments))
            (write_loop-Paths (suc i) attachments
              (paths ++ attachment_path workspace job i a.name ∷ []) e))

  pub write_attachments-Paths :
      (attachments : List Attachment) (disk : Disk)
      → Paths
          (paths_of workspace job 0 attachments)
          (write_attachments m workspace job attachments disk)
  unfolding write_attachments
  write_attachments-Paths attachments disk = write_loop-Paths 0 attachments [] disk
