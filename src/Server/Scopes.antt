-- ===== src/Server/Scopes.antt =====
-- relay/main.go, relay/admin.go: the scopes that the stored app credentials carry.
use relayent.Base.{
  ℕ, Text, ◌==◌, ◌==ℕ◌, ltb, if◌then◌else◌, ◌≡◌, refl, sym, ◌∙◌, subst, Bool, true, false, [],
  Option, none, some, Bool-cases, Option-cases, inl, inr,
}
use relayent.Strings.{trim_space}
use relayent.Bolt.{Bolt, BoltLaws}
use relayent.Store.Records.{User, AppCred, BridgeBinding, EnrollToken, AuditEvent, is_role}
use relayent.Store.Users.{
  invalid_role, name_required, Result, ok, err, ◌>>=◌, or_io, or_not_found, Store, StoreError,
  put_user, upsert_user, set_user_disabled, set_user_role, delete_user,
}
use relayent.Store.Credentials.{
  put_app_cred, revoke_app_cred, delete_app_cred, put_binding, touch_binding, touch, delete_binding,
  put_enroll_token, redeem, redeemed,
}
use relayent.Store.Audit.{append, set_backend_enabled, disabled_key}
use relayent.Server.Admin.{all_app_scopes}

module _ (bolt : Bolt) (laws : BoltLaws bolt) where
  open bolt use {Bucket, get, put, delete, advance}
  open laws use {get-put, get-delete}

  -- Every stored app credential has scopes of the app vocabulary only.
  unfoldable pub Tame : Bucket AppCred → Type 0
  Tame creds = (id : Text) (c : AppCred) → get creds id ≡ some c → all_app_scopes c.scopes ≡ true

  abbrev pub TameStore : Option (Store bolt) → Type 0
  TameStore none = Unit
  TameStore (some st) = Tame st.app_creds

  -- The outcome of a write.
  unfoldable pub TameResult : Result (Store bolt) → Type 0
  TameResult (ok st) = Tame st.app_creds
  TameResult (err e) = Unit

  io-Tame :
      {A : Type 0} (o : Option A) (f : A → Store bolt)
      → ((a : A) → o ≡ some a → Tame (f a).app_creds)
      → TameResult (do a ← or_io o; ok (f a))
  unfolding TameResult
  io-Tame none f h = tt
  io-Tame (some a) f h = h a refl

  found-Tame :
      {A : Type 0} (o : Option A) (f : A → Result (Store bolt))
      → ((a : A) → o ≡ some a → TameResult (f a))
      → TameResult (do a ← or_not_found o; f a)
  unfolding TameResult
  found-Tame none f h = tt
  found-Tame (some a) f h = h a refl

  err-Tame : (e : StoreError) → TameResult (err e)
  unfolding TameResult
  err-Tame e = tt

  if-Tame :
      (b : Bool) (f g : Result (Store bolt))
      → TameResult f
      → TameResult g
      → TameResult (if b then f else g)
  if-Tame true f g x y = x
  if-Tame false f g x y = y

  put-Tame :
      (k : Text) (c : AppCred) (creds creds' : Bucket AppCred)
      → put k c creds ≡ some creds'
      → all_app_scopes c.scopes ≡ true
      → Tame creds
      → Tame creds'
  unfolding Tame
  put-Tame k c creds creds' w a t id d h = elim (Bool-cases (k == id)) [
    | inl y ↦
        let same : some c ≡ some d = sym (get-put k id c creds creds' w ∙ rw y refl) ∙ h in
        subst (λ (e : AppCred). all_app_scopes e.scopes ≡ true) {x = c} {y = d} (cc same) a
    | inr n ↦ t id d (sym (get-put k id c creds creds' w ∙ rw n refl) ∙ h)
  ]

  delete-Tame :
      (k : Text) (creds creds' : Bucket AppCred)
      → delete k creds ≡ some creds'
      → Tame creds
      → Tame creds'
  unfolding Tame
  delete-Tame k creds creds' w t id d h = elim (Bool-cases (k == id)) [
    | inl y ↦
        let gone : get creds' id ≡ none = get-delete k id creds creds' w ∙ rw y refl in cc (gone, h)
    | inr n ↦ t id d (sym (get-delete k id creds creds' w ∙ rw n refl) ∙ h)
  ]

  module _ (st : Store bolt) (t : Tame st.app_creds) where
    put_user-Tame : (u : User) → TameResult (put_user bolt u st)
    put_user-Tame u = io-Tame (put u.sub u st.users) _ (λ b h. t)

    pub upsert_user-Tame : (u : User) (now : ℕ) → TameResult (upsert_user bolt u now st)
    unfolding upsert_user
    upsert_user-Tame u now = put_user-Tame _

    pub set_user_disabled-Tame :
        (sub : Text) (d : Bool) → TameResult (set_user_disabled bolt sub d st)
    unfolding set_user_disabled
    set_user_disabled-Tame sub d =
        found-Tame (get st.users sub) _
          (λ u k. io-Tame (put sub (record u { disabled = d }) st.users) _ (λ b h. t))

    pub set_user_role-Tame : (sub role : Text) → TameResult (set_user_role bolt sub role st)
    unfolding set_user_role
    set_user_role-Tame sub role =
        if-Tame (is_role role) _ _
          (found-Tame (get st.users sub) _
            (λ u k. io-Tame (put sub (record u { role = role }) st.users) _ (λ b h. t)))
          (err-Tame invalid_role)

    pub delete_user-Tame : (sub : Text) → TameResult (delete_user bolt sub st)
    unfolding delete_user
    delete_user-Tame sub =
        found-Tame (get st.users sub) _ (λ u k. io-Tame (delete sub st.users) _ (λ b h. t))

    pub put_enroll_token-Tame :
        (h : Text) (tok : EnrollToken) → TameResult (put_enroll_token bolt h tok st)
    unfolding put_enroll_token
    put_enroll_token-Tame h tok = io-Tame (put h tok st.enroll_tokens) _ (λ b h. t)

    pub put_binding-Tame : (b : BridgeBinding) (now : ℕ) → TameResult (put_binding bolt b now st)
    unfolding put_binding
    put_binding-Tame b now = io-Tame (put b.bridge_id _ st.bindings) _ (λ b h. t)

    touch-Tame :
        (id : Text) (now : ℕ) (b : Option BridgeBinding) → TameResult (touch bolt id now b st)
    unfolding TameResult
    touch-Tame id now none = t
    touch-Tame id now (some b) = io-Tame (put id _ st.bindings) _ (λ b h. t)

    pub touch_binding-Tame : (id : Text) (now : ℕ) → TameResult (touch_binding bolt id now st)
    unfolding touch_binding
    touch_binding-Tame id now = touch-Tame id now (get st.bindings id)

    pub redeem-Tame : (h : Text) (now : ℕ) → TameStore (redeemed bolt st (redeem bolt h now st)).1
    unfolding redeem
    redeem-Tame h now = elim (Option-cases (get st.enroll_tokens h)) [
      | inl e ↦ rw e t
      | inr (tok, e) ↦ elim (Bool-cases (tok.redeemed_at ==ℕ 0)) [
        | inr n ↦ rw (e, n) t
        | inl z ↦ elim (Bool-cases (ltb tok.expires_at now)) [
          | inl y ↦ rw (e, z, y) t
          | inr n ↦
              elim (Option-cases (put h (record tok { redeemed_at = now }) st.enroll_tokens)) [
                | inl w ↦ rw (e, z, n, w) t
                | inr (b, w) ↦ rw (e, z, n, w) t
              ]
        ]
      ]
    ]

    pub delete_binding-Tame : (id : Text) → TameResult (delete_binding bolt id st)
    unfolding delete_binding
    delete_binding-Tame id =
        found-Tame (get st.bindings id) _ (λ u k. io-Tame (delete id st.bindings) _ (λ b h. t))

    pub append-Tame : (e : AuditEvent) (now : ℕ) → TameResult (append bolt e now st)
    unfolding append
    append-Tame e now = io-Tame (put _ _ (advance st.audit)) _ (λ b h. t)

    pub set_backend_enabled-Tame :
        (name : Text) (on : Bool) → TameResult (set_backend_enabled bolt name on st)
    unfolding set_backend_enabled
    set_backend_enabled-Tame name on =
        if-Tame (trim_space name == []) _ _ (err-Tame name_required)
          (io-Tame (put disabled_key _ st.settings) _ (λ b h. t))

    pub put_app_cred-Tame :
        (c : AppCred) (now : ℕ)
        → all_app_scopes c.scopes ≡ true
        → TameResult (put_app_cred bolt c now st)
    unfolding put_app_cred
    put_app_cred-Tame c now a =
        io-Tame (put c.id _ st.app_creds) _ (λ b h. put-Tame c.id _ st.app_creds b h a t)

    tame_at :
        (id : Text) (c : AppCred) → get st.app_creds id ≡ some c → all_app_scopes c.scopes ≡ true
    unfolding Tame
    tame_at id c k = t id c k

    pub revoke_app_cred-Tame : (id : Text) → TameResult (revoke_app_cred bolt id st)
    unfolding revoke_app_cred
    revoke_app_cred-Tame id = found-Tame (get st.app_creds id) _ (λ c k.
        io-Tame (put id _ st.app_creds) _
          (λ b h. put-Tame id (record c { revoked = true }) st.app_creds b h (tame_at id c k) t))

    pub delete_app_cred-Tame : (id : Text) → TameResult (delete_app_cred bolt id st)
    unfolding delete_app_cred
    delete_app_cred-Tame id =
        found-Tame (get st.app_creds id) _
          (λ c k. io-Tame (delete id st.app_creds) _ (λ b h. delete-Tame id st.app_creds b h t))
