-- ===== src/Bridge/ProcessLaws.antt =====
-- What running a job does to the machine, and what a success that is posted rests on.
use mathlib.Core.List.{append-nil}
use relayent.Base.{
  ℕ, ◌≤◌, Text, ◌≡◌, refl, sym, ap, true, false, List, [], ◌∷◌, ◌++◌, Option, none, some, arith,
  length, inl, inr, Bool-cases, ◌==◌, eq_iff, ◌∙◌, ◌⊎◌, if◌then◌else◌,
}
use relayent.Api.{Json, Job, ResultRequest}
use relayent.Adapters.Json.{Result}
use relayent.Adapters.Defs.{Request, Command, Tools, answer, failure}
use relayent.Adapters.Run.{Adapter, Outcome, run}
use relayent.Adapters.Runs.{AllIn, limit, run-Ends}
use relayent.Adapters.Outcomes.{FromLast, wants, run-FromLast}
use relayent.Bridge.Attachments.{
  Disk, Machine, Written, written, refused, cleanup, write_attachments,
}
use relayent.Bridge.AttachmentLaws.{
  IsTidy, AreFree, paths_of, after_cleanup, write_attachments-tidy, listed, cleanup_lem, Paths,
  write_attachments-Paths,
}
use relayent.Bridge.Registry.{Backend, Registry, get_backend}
use relayent.Bridge.Process.{
  new_ones, Settings, World, result_of, request_of, ended, touched, run_adapter, finish,
  run_written, run_backend, process,
}

-- At most two processes are new, and all started in the workspace.
abbrev pub IsContained : Text → World → World → Type 0
IsContained workspace before after =
    (cs : List Command) × (bin : Text) × (after.log ≡ before.log ++ cs)
    × (length cs ≤ 2)
    × AllIn bin workspace cs

-- No process changes the file at the path.
abbrev pub Untouched : Machine → Text → Type 0
Untouched m p =
    (before : List Command) (c : Command) (disk : Disk) → m.touch before c disk p ≡ disk p

touched-Untouched :
    (m : Machine) (p : Text) (before cs : List Command) (disk : Disk)
    → Untouched m p
    → touched m before cs disk p ≡ disk p
touched-Untouched m p before [] disk h = refl
touched-Untouched m p before (c ∷ cs) disk h =
    touched-Untouched m p (before ++ c ∷ []) cs (m.touch before c disk) h ∙ h before c disk

AreFree-listed :
    (p : Text) (disk : Disk) (paths : List Text)
    → AreFree disk paths
    → listed p paths ≡ true
    → disk p ≡ none
AreFree-listed p disk [] f l = cc
AreFree-listed p disk (q ∷ paths) f l = elim (Bool-cases (p == q)) [
  | inl y ↦ ap disk ((eq_iff p q).0 y) ∙ f.0
  | inr n ↦ AreFree-listed p disk paths f.1 (ground (arith, n, l))
]

limit-le : (json : Json) (n : ℕ) → n ≤ limit json → n ≤ 2
limit-le none n h = omega arith
limit-le (some s) n h = h

run_adapter-log :
    (tools : Tools) (a : Adapter) (log : List Command) (req : Request)
    → (cs : List Command) × ((run_adapter tools a log req).0 ≡ log ++ cs)
      × (length cs ≤ 2)
      × AllIn a.bin req.work_dir cs
unfolding run_adapter
run_adapter-log tools a log req =
    let (cs, ans, e, l, all) = run-Ends 0 tools a log req in
    (cs, ap (λ o. (ended log o).0) e, limit-le req.json_schema (length cs) l, all)

module _ (m : Machine) (tools : Disk → Tools) (settings : Settings) (job : Job) (w : World)
    (tidy : IsTidy m) (free : AreFree w.disk (paths_of settings.workspace job.id 0 job.attachments))
    (p : Text)
    (kept : (listed p (paths_of settings.workspace job.id 0 job.attachments) ≡ true)
      ⊎ Untouched m p) where
  unchanged-IsContained : IsContained settings.workspace w w
  unchanged-IsContained = ([], [], sym (append-nil w.log), omega arith, tt)

  cleanup-kept :
      (paths : List Text) (disk : Disk) (cs : List Command)
      → paths ≡ paths_of settings.workspace job.id 0 job.attachments
      → cleanup m paths disk p ≡ w.disk p
      → cleanup m paths (touched m w.log cs disk) p ≡ w.disk p
  cleanup-kept paths disk cs e h = elim kept [
    | inl l ↦
        cleanup_lem m tidy paths (touched m w.log cs disk) p
        ∙ rw e (rw l (sym (AreFree-listed p w.disk _ free l)))
    | inr u ↦
        cleanup_lem m tidy paths (touched m w.log cs disk) p
        ∙ ap (λ d. if listed p paths then none else d) (touched-Untouched m p w.log cs disk u)
        ∙ sym (cleanup_lem m tidy paths disk p)
        ∙ h
  ]

  run_written-IsContained :
      (a : Adapter) (out : Written)
      → Paths (paths_of settings.workspace job.id 0 job.attachments) out
      → after_cleanup m out p ≡ w.disk p
      → let after = (run_written m tools settings a job w.log out).1 in
        IsContained settings.workspace w after × (after.disk p ≡ w.disk p)
  run_written-IsContained a (refused message disk) e h =
      (([], [], sym (append-nil w.log), omega arith, tt), h)
  run_written-IsContained a (written paths disk) e h =
      let (cs, grown, l, all) =
        run_adapter-log (tools disk) a w.log (request_of settings job paths) in
      (
        (cs, a.bin, grown, l, all),
        cleanup-kept paths disk
            (new_ones w.log (run_adapter (tools disk) a w.log (request_of settings job paths)).0) e
            h,
      )

  run_backend-IsContained :
      (b : Option Backend)
      → let after = (run_backend m tools settings job w b).1 in
        IsContained settings.workspace w after × (after.disk p ≡ w.disk p)
  run_backend-IsContained none = (unchanged-IsContained, refl)
  run_backend-IsContained (some b) = elim (Bool-cases b.available) [
    | inl y ↦ rw y (
        run_written-IsContained b.adapter
          (write_attachments m settings.workspace job.id job.attachments w.disk)
          (write_attachments-Paths m settings.workspace job.id job.attachments w.disk)
          (write_attachments-tidy m tidy settings.workspace job.id job.attachments w.disk p free))
    | inr n ↦ rw n (unchanged-IsContained, refl)
  ]

-- Running a job starts at most two processes, all in the workspace. A file that no process changes is
-- afterwards as it was, and so is each path of an attachment, whatever the processes make of it: for any
-- job, where no files are in the way of the attachments, files can be removed, and a failed write leaves
-- none.
pub process-IsContained :
    (m : Machine) (tools : Disk → Tools) (settings : Settings) (r : Registry) (job : Job)
    (w : World) (p : Text)
    → IsTidy m
    → AreFree w.disk (paths_of settings.workspace job.id 0 job.attachments)
    → (listed p (paths_of settings.workspace job.id 0 job.attachments) ≡ true) ⊎ Untouched m p
    → let after = (process m tools settings r job w).1 in
      IsContained settings.workspace w after × (after.disk p ≡ w.disk p)
unfolding process
process-IsContained m tools settings r job w p t f k =
    run_backend-IsContained m tools settings job w t f p k (get_backend r job.backend)

-- The JSON of a result that has one, and its text otherwise.
abbrev pub Posts : Result → ResultRequest → Type 0
Posts res out =
    (out.ok ≡ true)
    × (out.error ≡ [])
    × (((res.is_json ≡ true) × (out.json ≡ res.json) × (out.text ≡ []))
        ⊎ ((res.is_json ≡ false) × (out.json ≡ none) × (out.text ≡ res.text)))

result_of-Posts : (res : Result) → Posts res (result_of (answer res))
result_of-Posts res = elim (Bool-cases res.is_json) [
  | inl y ↦ rw y (refl, refl, inl (refl, refl, refl))
  | inr n ↦ rw n (refl, refl, inr (refl, refl, refl))
]

-- A success rests on a backend that is known and installed, on all attachments, and on the output of
-- the last process, which ended without an error.
abbrev pub IsGrounded :
    Machine → (Disk → Tools) → Settings → Registry → Job → World → ResultRequest → World → Type 0
IsGrounded m tools settings r job w out after =
    (b : Backend) × (paths : List Text) × (disk : Disk) × (res : Result) × (get_backend r
        job.backend
      ≡ some b)
    × (b.available ≡ true)
    × (write_attachments m settings.workspace job.id job.attachments w.disk ≡ written paths disk)
    × Posts res out
    × FromLast (tools disk) b.adapter (wants job.json_schema) after.log res

module _ (m : Machine) (tools : Disk → Tools) (settings : Settings) (r : Registry) (job : Job)
    (w : World) where
  finish-IsGrounded :
      (b : Backend) (paths : List Text) (disk : Disk) (o : Outcome)
      → get_backend r job.backend ≡ some b
      → b.available ≡ true
      → write_attachments m settings.workspace job.id job.attachments w.disk ≡ written paths disk
      → run 2 (tools disk) b.adapter false w.log (request_of settings job paths) ≡ o
      → (finish m w.log paths disk (ended w.log o)).0.ok ≡ true
      → IsGrounded m tools settings r job w
          (finish m w.log paths disk (ended w.log o)).0
          (finish m w.log paths disk (ended w.log o)).1
  finish-IsGrounded b paths disk none g a e o h = cc
  finish-IsGrounded b paths disk (some (log, failure message)) g a e o h = cc
  finish-IsGrounded b paths disk (some (log, answer res)) g a e o h = (
    b,
    paths,
    disk,
    res,
    g,
    a,
    e,
    result_of-Posts res,
    run-FromLast 2 (tools disk) b.adapter false w.log (request_of settings job paths) log res o,
  )

  run_written-IsGrounded :
      (b : Backend) (out : Written)
      → get_backend r job.backend ≡ some b
      → b.available ≡ true
      → write_attachments m settings.workspace job.id job.attachments w.disk ≡ out
      → (run_written m tools settings b.adapter job w.log out).0.ok ≡ true
      → IsGrounded m tools settings r job w
          (run_written m tools settings b.adapter job w.log out).0
          (run_written m tools settings b.adapter job w.log out).1
  unfolding run_adapter
  run_written-IsGrounded b (refused message disk) g a e h = cc
  run_written-IsGrounded b (written paths disk) g a e h =
      finish-IsGrounded b paths disk
        (run 2 (tools disk) b.adapter false w.log (request_of settings job paths)) g a e refl h

  run_backend-IsGrounded :
      (b : Option Backend)
      → get_backend r job.backend ≡ b
      → (run_backend m tools settings job w b).0.ok ≡ true
      → IsGrounded m tools settings r job w
          (run_backend m tools settings job w b).0
          (run_backend m tools settings job w b).1
  run_backend-IsGrounded none g h = cc
  run_backend-IsGrounded (some b) g h = elim (Bool-cases b.available) [
    | inl y ↦ rw y (
        run_written-IsGrounded b
          (write_attachments m settings.workspace job.id job.attachments w.disk) g y refl
          (rw y at h))
    | inr n ↦ cc
  ]

-- A success is posted only for a backend that is known and installed, after all attachments have been
-- written; it has no error text, and the JSON or else the text that the adapter reads in the output of the
-- last process, which ended without an error: JSON only for a job with a schema.
pub process-IsGrounded :
    (m : Machine) (tools : Disk → Tools) (settings : Settings) (r : Registry) (job : Job)
    (w : World)
    → (process m tools settings r job w).0.ok ≡ true
    → IsGrounded m tools settings r job w
        (process m tools settings r job w).0
        (process m tools settings r job w).1
unfolding process
process-IsGrounded m tools settings r job w h =
    run_backend-IsGrounded m tools settings r job w (get_backend r job.backend) refl h
