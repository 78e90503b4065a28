-- ===== src/Server/Policy.antt =====
-- relay/admin.go, relay/main.go: a backend that an administrator switched off.
use relayent.Base.{
  ℕ, Text, codes, ◌==◌, not, if◌then◌else◌, ◌≡◌, ◌≢◌, refl, ap, sym, ◌∙◌, subst, true, false, List,
  [], ◌∷◌, Option, none, some, arith, eq_iff, eq_refl, Bool-cases, inl, inr, keep,
}
use relayent.Api.{EnqueueRequest, BackendInfo}
use relayent.Strings.{
  trim_space, to_lower, trim_left, trim_right, strip, space_width, space_width_back,
}
use relayent.Bolt.{Bolt, BoltLaws}
use relayent.Store.Records.{Principal}
use relayent.Store.Users.{Result, ok, err, Store, StoreError, settle, update_store}
use relayent.Store.Audit.{set_backend_enabled, disabled_backends, has_name}
use relayent.Store.Policy.{set_backend_enabled-has_name}
use relayent.Security.Sanitize.{is_known_backend, is_supported_backend}
use relayent.Server.Defs.{
  Externals, Request, Body, capabilities_body, decoded, Response, Server, write_err,
  policy_not_updated,
}
use relayent.Queue.Jobs.{capabilities}
use relayent.Server.Auth.{principal_from_session}
use relayent.Server.Views.{
  Me, not_available, sign_in_required, own_status, of_session, with_session, me,
}
use relayent.Server.Broker.{
  Routed, routes, refuses, handle_enqueue, backend_off, filter_disabled_backends, is_nil,
  resolve_read_target, capabilities_routed, handle_get_capabilities,
}
use relayent.Server.Admin.{written, admin_set_backend}
use relayent.Server.Enqueue.{handle_enqueue-Outcome}

-- No entry of the list has the name.
abbrev pub NoneNamed : Text → List BackendInfo → Type 0
NoneNamed name [] = Unit
NoneNamed name (b ∷ bs) = ((b.name == name) ≡ false) × NoneNamed name bs

keep-NoneNamed :
    (name : Text) (disabled : List Text) (bs : List BackendInfo)
    → has_name name disabled ≡ true
    → NoneNamed name (keep (λ b. not (has_name b.name disabled)) bs)
keep-NoneNamed name disabled [] h = tt
keep-NoneNamed name disabled (b ∷ bs) h = elim (Bool-cases (has_name b.name disabled)) [
  | inl y ↦ rw y (keep-NoneNamed name disabled bs h)
  | inr n ↦ rw n (elim (Bool-cases (b.name == name)) [
    | inl y ↦
        let same : b.name ≡ name = (eq_iff b.name name).0 y in
        ground (arith, n, h, ap (λ t. has_name t disabled) same)
    | inr m ↦ (m, keep-NoneNamed name disabled bs h)
  ])
]

filtered :
    (name : Text) (disabled : List Text) (bs : List BackendInfo)
    → has_name name disabled ≡ true
    → NoneNamed name (if is_nil disabled then bs else keep (λ b. not (has_name b.name disabled)) bs)
unfolding has_name
filtered name [] bs h = cc
filtered name (d ∷ ds) bs h = keep-NoneNamed name (d ∷ ds) bs h

absurd {ℓ} : {A : Type ℓ} → ⊥ → A
absurd h = elim h [ ]

known_name :
    (name known : Text) → trim_space known ≡ known → (name == known) ≡ true → trim_space name ≡ name
known_name name known t y =
    let same : name ≡ known = (eq_iff name known).0 y in ap trim_space same ∙ t ∙ sym same

module _ (bolt : Bolt) (laws : BoltLaws bolt) where
  -- The backend is off in the server's policy.
  abbrev pub IsOff : Text → Server bolt → Type 0
  IsOff name s = has_name name (disabled_backends bolt s.store) ≡ true

  written-ok :
      (failed done : Response) (s : Server bolt) (o : Option StoreError × Option (Store bolt))
      → failed.status ≢ 200
      → (written bolt failed done s o).0.status ≡ 200
      → (o.0 ≡ none) × ((written bolt failed done s o).1.store ≡ o.1)
  written-ok failed done s (none, store) f h = (refl, refl)
  written-ok failed done s (some e, store) f h = elim (f h) [ ]

  settle-ok :
      (st : Store bolt) (res : Result (Store bolt))
      → (settle bolt st res).0 ≡ none
      → (st' : Store bolt) × (res ≡ ok st') × ((settle bolt st res).1 ≡ some st')
  settle-ok st (ok st') h = (st', refl, refl)
  settle-ok st (err e) h = cc

  known-trim_space : (name : Text) → is_known_backend name ≡ true → trim_space name ≡ name
  unfolding is_known_backend trim_space trim_left trim_right strip space_width space_width_back
  known-trim_space name h = elim (Bool-cases (name == codes "claude")) [
    | inl y ↦ known_name name (codes "claude") refl y
    | inr a ↦ elim (Bool-cases (name == codes "codex")) [
      | inl y ↦ known_name name (codes "codex") refl y
      | inr b ↦ elim (Bool-cases (name == codes "gemini")) [
        | inl y ↦ known_name name (codes "gemini") refl y
        | inr c ↦ elim (Bool-cases (name == codes "cursor")) [
          | inl y ↦ known_name name (codes "cursor") refl y
          | inr d ↦ ground (arith, h, a, b, c, d)
        ]
      ]
    ]
  ]

  switched-IsOff :
      (name : Text) (st : Store bolt) (s : Server bolt) (done : Response)
      → trim_space name ≡ name
      → let (res, s') =
          written bolt
            (write_err 500 policy_not_updated)
            done
            s
            (update_store bolt (set_backend_enabled bolt name false) (some st)) in
        res.status ≡ 200 → IsOff name s'
  unfolding update_store
  switched-IsOff name st s done t h =
      let (fine, kept) =
        written-ok (write_err 500 policy_not_updated) done s
          (settle bolt st (set_backend_enabled bolt name false st)) (λ e. omega (arith, e)) h in
      let (st', wrote, is) = settle-ok st (set_backend_enabled bolt name false st) fine in
      ap (λ o. has_name name (disabled_backends bolt o)) (kept ∙ is)
      ∙ set_backend_enabled-has_name bolt laws name false st st' name wrote
      ∙ ground (arith, t, eq_refl name)

  write_store-IsOff :
      (name : Text) (st : Store bolt) (store : Option (Store bolt)) (s : Server bolt)
      (done : Response)
      → store ≡ some st
      → trim_space name ≡ name
      → let (res, s') =
          written bolt
            (write_err 500 policy_not_updated)
            done
            s
            (update_store bolt (set_backend_enabled bolt name false) store) in
        res.status ≡ 200 → IsOff name s'
  unfolding update_store
  write_store-IsOff name st store s done there t =
      subst
        (λ o.
          (written bolt (write_err 500 policy_not_updated) done s
              (update_store bolt (set_backend_enabled bolt name false) o)).0.status
            ≡ 200
          → IsOff name
              (written bolt (write_err 500 policy_not_updated) done s
                (update_store bolt (set_backend_enabled bolt name false) o)).1)
        (sym there) (switched-IsOff name st s done t)

  admin_set_backend-IsOff :
      (raw : Text) (st : Store bolt) (s : Server bolt)
      → s.store ≡ some st
      → let (res, s') = admin_set_backend bolt (decoded false) raw s in
        res.status ≡ 200 → IsOff (to_lower (trim_space raw)) s'
  unfolding admin_set_backend
  admin_set_backend-IsOff raw st s there =
      let name : Text = to_lower (trim_space raw) in
      elim (Bool-cases (is_known_backend name)) [
        | inr n ↦ rw n (λ h. absurd (omega (arith, h)))
        | inl k ↦ elim (Bool-cases (is_supported_backend name)) [
          | inr n ↦ rw (k, n) (λ h. absurd (omega (arith, h)))
          | inl y ↦
              rw (k, y) (write_store-IsOff name st s.store s _ there (known-trim_space name k))
        ]
      ]

  no_names : (name : Text) → has_name name (disabled_backends bolt none) ≡ false
  unfolding disabled_backends has_name
  no_names name = refl

  off-unlisted :
      (name : Text) (store : Option (Store bolt)) (s : Server bolt) (bs : List BackendInfo)
      → s.store ≡ store
      → has_name name (disabled_backends bolt store) ≡ true
      → NoneNamed name (filter_disabled_backends bolt s bs)
  unfolding filter_disabled_backends
  off-unlisted name none s bs e h = cc (h, no_names name)
  off-unlisted name (some st) s bs e h =
      rw e (filtered name (disabled_backends bolt (some st)) bs h)

  -- No list of backends in an answer has the name.
  abbrev pub Unlisted : Text → Body → Type 0
  Unlisted name (capabilities_body caps reported_at online) = NoneNamed name caps.backends
  Unlisted name body = Unit

  abbrev pub UnlistedMe : Text → Me → Type 0
  UnlistedMe name (own_status m) = NoneNamed name m.capabilities.backends
  UnlistedMe name not_available = Unit
  UnlistedMe name sign_in_required = Unit

  capabilities_routed-Unlisted :
      (name : Text) (now : ℕ) (to : Routed) (s : Server bolt)
      → IsOff name s
      → Unlisted name (capabilities_routed bolt now to s).body
  capabilities_routed-Unlisted name now (refuses f) s h = tt
  capabilities_routed-Unlisted name now (routes target) s h =
      off-unlisted name s.store s (capabilities target now s.q).0.backends refl h

  of_session-UnlistedMe :
      (ext : Externals) (name : Text) (now : ℕ) (o : Option Principal) (s : Server bolt)
      → IsOff name s
      → UnlistedMe name (of_session bolt ext s now o)
  of_session-UnlistedMe ext name now none s h = tt
  of_session-UnlistedMe ext name now (some p) s h =
      off-unlisted name s.store s (capabilities p.user_id now s.q).0.backends refl h

  with_session-UnlistedMe :
      (ext : Externals) (name : Text) (r : Request) (now : ℕ) (store : Option (Store bolt))
      (key : Option Text) (s : Server bolt)
      → IsOff name s
      → UnlistedMe name (with_session bolt ext s r now store key)
  with_session-UnlistedMe ext name r now none key s h = tt
  with_session-UnlistedMe ext name r now (some st) none s h = tt
  with_session-UnlistedMe ext name r now (some st) (some key) s h =
      of_session-UnlistedMe ext name now (principal_from_session bolt ext key now (some st) r) s h

  -- On the server as it is after an administrator has switched a backend off, no enqueue that names it is
  -- accepted, in whatever case and with whatever space around it, and neither the capabilities that the
  -- relay answers with nor the status of the signed-in user lists it.
  pub admin_set_backend-enforced :
      (ext : Externals) (raw id : Text) (now : ℕ) (st : Store bolt) (s s' : Server bolt)
      (res : Response) (req : EnqueueRequest) (p : Principal) (r : Request)
      → s.store ≡ some st
      → admin_set_backend bolt (decoded false) raw s ≡ (res, s')
      → res.status ≡ 200
      → to_lower (trim_space req.backend) ≡ to_lower (trim_space raw)
      → ((handle_enqueue bolt (decoded req) id now p s').0.status ≢ 202)
        × Unlisted (to_lower (trim_space raw)) (handle_get_capabilities bolt r now p s').body
        × UnlistedMe (to_lower (trim_space raw)) (me bolt ext s' r now)
  unfolding handle_get_capabilities me
  admin_set_backend-enforced ext raw id now st s s' res req p r there done fine same =
      let off : IsOff (to_lower (trim_space raw)) s' =
        subst
          (λ (a : Response × Server bolt). a.0.status ≡ 200 → IsOff (to_lower (trim_space raw)) a.1)
          done (admin_set_backend-IsOff raw st s there) fine in
      (
        λ h. elim (handle_enqueue-Outcome bolt (decoded req) id now p s') [
          | inl (n, q, t) ↦ n h
          | inr (c, a) ↦
              let read : req ≡ a.request = cc a.read in
              let clash : true ≡ false =
                sym off
                ∙ ap (λ n. has_name n (disabled_backends bolt s'.store)) (sym same)
                ∙ ap (λ (x : EnqueueRequest). backend_off bolt x.backend s') read
                ∙ a.backend-on in
              cc clash
        ],
        capabilities_routed-Unlisted (to_lower (trim_space raw)) now
            (resolve_read_target bolt p r s') s' off,
        with_session-UnlistedMe ext (to_lower (trim_space raw)) r now s'.store s'.session_key s'
            off,
      )
