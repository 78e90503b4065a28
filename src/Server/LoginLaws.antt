-- ===== src/Server/LoginLaws.antt =====
-- relay/oidc.go: what a login that succeeds has required, and what it leaves in the store.
use relayent.Base.{
  ℕ, Text, codes, List, ◌∷◌, length, ap, ◌∙◌, false, ◌==ℕ◌, ◌==◌, ◌&&◌, not, if◌then◌else◌, ◌≡◌,
  ◌≢◌, refl, subst, true, [], Option, none, some, ◌⊎◌, arith, eq_iff, Bool-cases, inl, inr,
}
use relayent.Bolt.{Bolt, BoltLaws}
use relayent.Store.Records.{User}
use relayent.Store.Users.{Result, ok, err, Store, upsert_user, count_users}
use relayent.Store.Laws.{stored_user, upsert_user-get}
use relayent.Server.Defs.{Externals, Response, Server}
use relayent.Server.Auth.{sign, verify_state}
use relayent.Server.Login.{
  Claims, Identity, not_exchanged, without_token, not_verified, not_readable, verified,
  state_matches, login_user, recorded_login, record_login, identified, handle_callback,
}

absurd {ℓ} : {A : Type ℓ} → ⊥ → A
absurd h = elim h [ ]

module _ (bolt : Bolt) (laws : BoltLaws bolt) (ext : Externals) where
  open bolt use {get, entries}

  -- The role of a user who is new to a store with these users.
  abbrev pub first_role : List (Text × User) → Text
  first_role [] = codes "admin"
  first_role (row ∷ rows) = codes "user"

  -- What a login at `now` records of a user, by what was recorded before.
  abbrev pub record_of : Text → Claims → ℕ → List (Text × User) → Option User → User
  record_of sub claims now users none = record {
    sub = sub;
    email = claims.email;
    display_name = claims.name;
    role = first_role users;
    disabled = false;
    created_at = now;
  }
  record_of sub claims now users (some prev) = record {
    sub = sub;
    email = claims.email;
    display_name = claims.name;
    role = prev.role;
    disabled = false;
    created_at = if prev.created_at ==ℕ 0 then now else prev.created_at;
  }

  login_user-record_of :
      (sub : Text) (claims : Claims) (now : ℕ) (st : Store bolt) (prev : Option User)
      → stored_user (login_user bolt ext sub claims (count_users bolt (some st))) now prev
        ≡ record_of sub claims now (entries st.users) prev
  unfolding count_users ◌==◌
  login_user-record_of sub claims now st none = new_role (entries st.users)
    where
      new_role :
          (rows : List (Text × User))
          → stored_user (login_user bolt ext sub claims (length rows)) now none
            ≡ record_of sub claims now rows none
      new_role [] = refl
      new_role (row ∷ rows) = ground arith
  login_user-record_of sub claims now st (some prev) = refl

  -- A login that was let in, on a store `st`, and the record of any user `j` after it.
  pub record LoggedIn (hosted : Text) (identity : Identity) (now : ℕ) (st : Store bolt) (j : Text)
      (s' : Server bolt) : Type 0 where
    pub sub : Text
    pub claims : Claims
    pub after : Store bolt
    pub provided : identity ≡ verified sub claims
    pub in_domain : (hosted ≡ []) ⊎ (claims.hosted_domain ≡ hosted)
    pub kept : s'.store ≡ some after
    pub records : get after.users j ≡ (
        if sub == j
        then some (record_of sub claims now (entries st.users) (get st.users sub))
        else get st.users j)

  abbrev IfLoggedIn : Text → Identity → ℕ → Store bolt → Text → Response × Server bolt → Type 0
  IfLoggedIn hosted identity now st j (res, s') =
      res.status ≡ 302 → LoggedIn hosted identity now st j s'

  recorded_login-LoggedIn :
      (session_key hosted sub : Text) (claims : Claims) (now : ℕ) (st : Store bolt) (j : Text)
      (s : Server bolt) (o : Result (Store bolt))
      → (hosted ≡ []) ⊎ (claims.hosted_domain ≡ hosted)
      → upsert_user bolt (login_user bolt ext sub claims (count_users bolt (some st))) now st ≡ o
      → IfLoggedIn hosted
          (verified sub claims)
          now
          st
          j
          (recorded_login bolt ext session_key sub now o s)
  recorded_login-LoggedIn session_key hosted sub claims now st j s (err e) d u h =
      absurd (omega (arith, h))
  recorded_login-LoggedIn session_key hosted sub claims now st j s (ok after) d u h = record {
    sub = sub;
    claims = claims;
    after = after;
    provided = refl;
    in_domain = d;
    kept = refl;
    records =
        upsert_user-get bolt laws (login_user bolt ext sub claims (count_users bolt (some st))) now
          st after j u
        ∙ ap (λ v. if sub == j then some v else get st.users j)
            (login_user-record_of sub claims now st (get st.users sub));
  }

  record_login-LoggedIn :
      (session_key hosted sub : Text) (claims : Claims) (now : ℕ) (st : Store bolt) (j : Text)
      (s : Server bolt) (store : Option (Store bolt))
      → store ≡ some st
      → (hosted ≡ []) ⊎ (claims.hosted_domain ≡ hosted)
      → IfLoggedIn hosted
          (verified sub claims)
          now
          st
          j
          (record_login bolt ext session_key sub claims now store s)
  record_login-LoggedIn session_key hosted sub claims now st j s none e d = λ h. cc e
  record_login-LoggedIn session_key hosted sub claims now st j s (some st') e d =
      let same : st' ≡ st = cc e in
      subst
        (λ (t : Store bolt).
          IfLoggedIn hosted (verified sub claims) now t j
            (record_login bolt ext session_key sub claims now (some st') s))
        same (recorded_login-LoggedIn session_key hosted sub claims now st' j s _ d refl)

  identified-LoggedIn :
      (session_key hosted : Text) (identity : Identity) (now : ℕ) (st : Store bolt) (j : Text)
      (s : Server bolt)
      → s.store ≡ some st
      → IfLoggedIn hosted identity now st j (identified bolt ext session_key hosted now identity s)
  identified-LoggedIn session_key hosted not_exchanged now st j s e = λ h. absurd (omega (arith, h))
  identified-LoggedIn session_key hosted without_token now st j s e = λ h. absurd (omega (arith, h))
  identified-LoggedIn session_key hosted not_verified now st j s e = λ h. absurd (omega (arith, h))
  identified-LoggedIn session_key hosted not_readable now st j s e = λ h. absurd (omega (arith, h))
  identified-LoggedIn session_key hosted (verified sub claims) now st j s e =
      elim (Bool-cases (not (hosted == []) && not (claims.hosted_domain == hosted))) [
        | inl y ↦ rw y (λ h. absurd (omega (arith, h)))
        | inr n ↦ rw n (
            record_login-LoggedIn session_key hosted sub claims now st j s s.store e
              (ground (arith, n, eq_iff hosted [], eq_iff claims.hosted_domain hosted)))
      ]

  state_matches-signed :
      (session_key state : Text) (cookie : Option Text)
      → state_matches ext session_key cookie state ≡ true
      → (cookie ≡ some (sign ext session_key state)) × (state ≢ [])
  unfolding verify_state
  state_matches-signed session_key state none h = cc
  state_matches-signed session_key state (some c) h = (
    ap (λ t. some t) (ground (arith, h, eq_iff c (sign ext session_key state))),
    λ e. ground (arith, h, eq_iff state [], e),
  )

  -- A login that ends in a redirection had a state that its cookie has the signature of, a verified identity
  -- and, where one is required, the permitted domain. A user who is new to the store is recorded as
  -- administrator if the store was empty and as a plain user otherwise; a known user keeps the role; and
  -- the user's record is enabled afterwards, though an administrator may have disabled it. No other
  -- user's record changes.
  pub handle_callback-LoggedIn :
      (session_key hosted : Text) (cookie : Option Text) (state : Text) (identity : Identity)
      (now : ℕ) (st : Store bolt) (j : Text) (s s' : Server bolt) (res : Response)
      → s.store ≡ some st
      → handle_callback bolt ext session_key hosted cookie state identity now s ≡ (res, s')
      → res.status ≡ 302
      → (cookie ≡ some (sign ext session_key state))
        × (state ≢ [])
        × LoggedIn hosted identity now st j s'
  unfolding handle_callback
  handle_callback-LoggedIn session_key hosted cookie state identity now st j s s' res e h done =
      elim (Bool-cases (state_matches ext session_key cookie state)) [
        | inr n ↦
            let bad : 400 ≡ res.status = ground (arith, h, n) in absurd (omega (arith, done, bad))
        | inl y ↦
            let same : identified bolt ext session_key hosted now identity s ≡ (res, s') =
              ground (arith, h, y) in
            let (signed, some_state) = state_matches-signed session_key state cookie y in
            (
              signed,
              some_state,
              subst (IfLoggedIn hosted identity now st j) same
                  (identified-LoggedIn session_key hosted identity now st j s e) done,
            )
      ]
