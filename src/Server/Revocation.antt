-- ===== src/Server/Revocation.antt =====
-- relay/main.go: credentials that were revoked, and those of users who were disabled, on the next
-- request.
use relayent.Base.{
  ℕ, Text, ◌≡◌, ◌≢◌, refl, ap, sym, ◌∙◌, subst, true, none, some, arith, eq_refl, Option-cases, inl,
  inr,
}
use relayent.Bolt.{Bolt, BoltLaws}
use relayent.Store.Records.{User, AppCred, BridgeBinding, Principal}
use relayent.Store.Users.{ok, or_io-ok, or_not_found, Store, get_user, set_user_disabled}
use relayent.Store.Credentials.{revoke_app_cred, delete_binding}
use relayent.Store.Laws.{found-ok}
use relayent.Server.Defs.{Externals, Request}
use relayent.Server.Auth.{machine_principal, principal_from_session}
use relayent.Server.Grounds.{Machine, by_bridge, by_app, machine_principal-Machine}
use relayent.Server.Sessions.{principal_from_session-Signed}

module _ (bolt : Bolt) (laws : BoltLaws bolt) (ext : Externals) where
  open bolt use {get, put, delete}
  open laws use {get-put, get-delete}

  none_of_refused :
      (id secret : Text) (now : ℕ) (st : Store bolt)
      → ((p : Principal) → Machine bolt ext id secret st p → ⊥)
      → (machine_principal bolt ext id secret now st).0 ≡ none
  none_of_refused id secret now st f =
      elim (Option-cases ((machine_principal bolt ext id secret now st).0)) [
        | inl e ↦ e
        | inr (p, e) ↦ elim (f p (machine_principal-Machine bolt ext id secret now st p e)) [ ]
      ]

  revoked-refused :
      (id secret : Text) (st : Store bolt) (c : AppCred) (p : Principal)
      → get st.bindings id ≡ none
      → get st.app_creds id ≡ some c
      → c.revoked ≡ true
      → Machine bolt ext id secret st p
      → ⊥
  revoked-refused id secret st c p nb there r (by_bridge b u e s k d) = cc
  revoked-refused id secret st c p nb there r (by_app d e f n s) =
      let same : c ≡ d = cc (there, f) in cc (r, n, same)

  -- Once an app's credential is revoked, no secret authenticates with its id, provided that no bridge
  -- has the same id.
  pub revoke_app_cred-refused :
      (id secret : Text) (now : ℕ) (st st' : Store bolt)
      → get st.bindings id ≡ none
      → revoke_app_cred bolt id st ≡ ok st'
      → (machine_principal bolt ext id secret now st').0 ≡ none
  unfolding revoke_app_cred
  revoke_app_cred-refused id secret now st st' nb h =
      let (c, there, rest) = found-ok (get st.app_creds id) _ st' h in
      let (creds, done, e) =
        or_io-ok (put id (record c { revoked = true }) st.app_creds)
          (λ creds. record st { app_creds = creds }) st' rest in
      let stored : get creds id ≡ some (record c { revoked = true }) =
        get-put id id (record c { revoked = true }) st.app_creds creds done
        ∙ rw (eq_refl id) refl in
      none_of_refused id secret now st' (λ p.
        revoked-refused id secret st' (record c { revoked = true }) p
          (ap (λ (t : Store bolt). get t.bindings id) (sym e) ∙ nb)
          (ap (λ (t : Store bolt). get t.app_creds id) (sym e) ∙ stored) refl)

  disabled-refused :
      (id secret : Text) (st : Store bolt) (b : BridgeBinding) (u : User) (p : Principal)
      → get st.bindings id ≡ some b
      → get st.users b.user_sub ≡ some u
      → u.disabled ≡ true
      → Machine bolt ext id secret st p
      → ⊥
  disabled-refused id secret st b u p there known d (by_app c e f n s) = cc
  disabled-refused id secret st b u p there known d (by_bridge c v e s k n) =
      let same : b ≡ c = cc (there, e) in
      let user : get st.users b.user_sub ≡ some v =
        subst (λ x. get st.users x.user_sub ≡ some v) (sym same) k in
      let same_user : u ≡ v = cc (known, user) in cc (d, n, same_user)

  -- Once a user is disabled, no secret authenticates with the id of a bridge that is bound to the user,
  -- and no session cookie stands for the user.
  pub set_user_disabled-refused :
      (sub id secret session_key : Text) (now : ℕ) (st st' : Store bolt) (b : BridgeBinding)
      (r : Request) (p : Principal)
      → get st.bindings id ≡ some b
      → b.user_sub ≡ sub
      → set_user_disabled bolt sub true st ≡ ok st'
      → ((machine_principal bolt ext id secret now st').0 ≡ none)
        × (principal_from_session bolt ext session_key now (some st') r
            ≢ some (record p { user_id = sub }))
  unfolding set_user_disabled get_user principal_from_session
  set_user_disabled-refused sub id secret session_key now st st' b r p there is h =
      let (u, known, rest) = found-ok (get st.users sub) _ st' h in
      let (users, done, e) =
        or_io-ok (put sub (record u { disabled = true }) st.users)
          (λ users. record st { users = users }) st' rest in
      let stored : get users sub ≡ some (record u { disabled = true }) =
        get-put sub sub (record u { disabled = true }) st.users users done
        ∙ rw (eq_refl sub) refl in
      let found : get st'.users sub ≡ some (record u { disabled = true }) =
        ap (λ (t : Store bolt). get t.users sub) (sym e) ∙ stored in
      (
        none_of_refused id secret now st' (λ p.
            disabled-refused id secret st' b (record u { disabled = true }) p
              (ap (λ (t : Store bolt). get t.bindings id) (sym e) ∙ there)
              (subst (λ t. get st'.users t ≡ some (record u { disabled = true })) (sym is) found)
              refl),
        λ s. elim (Option-cases r.session_cookie) [
          | inl c ↦ ground (arith, s, c)
          | inr (value, c) ↦
              let signed =
                principal_from_session-Signed ext bolt session_key now (some st') r value
                  (record p { user_id = sub }) c s in
              let known : or_not_found (get st'.users sub) ≡ ok signed.user = signed.known in
              let same : ok (record u { disabled = true }) ≡ ok signed.user =
                subst (λ o. or_not_found o ≡ ok signed.user) found known in
              cc (signed.enabled, same)
        ],
      )

  absent-refused :
      (id secret : Text) (st : Store bolt) (p : Principal)
      → get st.bindings id ≡ none
      → get st.app_creds id ≡ none
      → Machine bolt ext id secret st p
      → ⊥
  absent-refused id secret st p nb na (by_bridge b u e s k d) = cc
  absent-refused id secret st p nb na (by_app c e f n s) = cc

  -- Once a binding is deleted, no secret authenticates with the bridge's id, provided that no app
  -- credential has the same id.
  pub delete_binding-refused :
      (id secret : Text) (now : ℕ) (st st' : Store bolt)
      → get st.app_creds id ≡ none
      → delete_binding bolt id st ≡ ok st'
      → (machine_principal bolt ext id secret now st').0 ≡ none
  unfolding delete_binding
  delete_binding-refused id secret now st st' na h =
      let (b, there, rest) = found-ok (get st.bindings id) _ st' h in
      let (bindings, done, e) =
        or_io-ok (delete id st.bindings) (λ bindings. record st { bindings = bindings }) st' rest in
      let gone : get bindings id ≡ none =
        get-delete id id st.bindings bindings done ∙ rw (eq_refl id) refl in
      none_of_refused id secret now st' (λ p.
        absent-refused id secret st' p (ap (λ (t : Store bolt). get t.bindings id) (sym e) ∙ gone)
          (ap (λ (t : Store bolt). get t.app_creds id) (sym e) ∙ na))
