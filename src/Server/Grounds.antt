-- ===== src/Server/Grounds.antt =====
-- relay/main.go: on what grounds a request is authenticated.
use relayent.Base.{
  ℕ, Text, ◌==◌, ◌&&◌, not, ◌≡◌, ◌≢◌, refl, ◌∙◌, subst, ◌⊎◌, true, false, [], Option, none, some,
  arith, eq_iff, Bool-cases, Option-cases, inl, inr,
}
use relayent.Security.Keys.{check_key, is_empty, accepts}
use relayent.Bolt.{Bolt}
use relayent.Store.Records.{User, AppCred, BridgeBinding, Principal, legacy_principal}
use relayent.Store.Users.{ok, or_not_found, Store, get_user}
use relayent.Store.Credentials.{get_binding, get_app_cred}
use relayent.Server.Defs.{Externals, Request, Server, verify_secret, hash_secret, key_fingerprint}
use relayent.Server.Auth.{
  key_from_request, split_credential, session_of, machine_principal, bridge_principal,
  app_principal, bridge_of, app_of, pairing_principal, authenticate_token, authenticate_bearer,
  authenticate, bootstrap_admin,
}

module _ (bolt : Bolt) (ext : Externals) where
  open bolt use {get}

  -- Why a machine credential of this id and secret stands for a principal.
  pub data Machine (id secret : Text) (st : Store bolt) : Principal → Type 0 where
    by_bridge :
        (b : BridgeBinding) (u : User)
        → get st.bindings id ≡ some b
        → ext.digest secret ≡ b.cred_hash
        → get st.users b.user_sub ≡ some u
        → u.disabled ≡ false
        → Machine id secret st (bridge_of bolt ext id b)
    by_app :
        (c : AppCred)
        → get st.bindings id ≡ none
        → get st.app_creds id ≡ some c
        → c.revoked ≡ false
        → ext.digest secret ≡ c.key_hash
        → Machine id secret st (app_of bolt ext id c)

  -- The token cannot be read as a machine credential.
  abbrev pub IsPlain : Text → Server bolt → Type 0
  IsPlain bearer s = (s.store ≡ none) ⊎ (split_credential bearer ≡ none)

  -- Why a bearer token stands for a principal.
  pub data Bearer (bearer : Text) (s : Server bolt) : Principal → Type 0 where
    by_admin_token :
        s.admin_token ≢ []
        → bearer ≡ s.admin_token
        → Bearer bearer s (bootstrap_admin bolt ext bearer)
    by_machine :
        {p : Principal} (st : Store bolt) (id secret : Text)
        → s.store ≡ some st
        → split_credential bearer ≡ some (id, secret)
        → Machine id secret st p
        → Bearer bearer s p
    by_open_key :
        IsPlain bearer s
        → is_empty s.keys ≡ true
        → Bearer bearer s
            (record (legacy_principal (key_fingerprint ext bearer)) { user_id = bearer })
    by_pairing_key :
        IsPlain bearer s
        → accepts s.keys bearer ≡ true
        → Bearer bearer s (legacy_principal (key_fingerprint ext bearer))

  app_principal-Machine :
      (id secret : Text) (st : Store bolt) (p : Principal)
      → get st.bindings id ≡ none
      → (app_principal bolt ext id secret (get_app_cred bolt (some st) id) st).0 ≡ some p
      → Machine id secret st p
  unfolding get_app_cred verify_secret hash_secret
  app_principal-Machine id secret st p nb h = elim (Option-cases (get st.app_creds id)) [
    | inl e ↦ cc (h, e)
    | inr (c, e) ↦ elim (Bool-cases c.revoked) [
      | inl y ↦ ground (arith, h, e, y)
      | inr n ↦ elim (Bool-cases (ext.digest secret == c.key_hash)) [
        | inr m ↦ ground (arith, h, e, n, m)
        | inl y ↦
            subst (Machine id secret st) (ground (arith, h, e, n, y))
              (by_app c nb e n ((eq_iff (ext.digest secret) c.key_hash).0 y))
      ]
    ]
  ]

  bridge_principal-Machine :
      (id secret : Text) (now : ℕ) (st : Store bolt) (p : Principal) (b : BridgeBinding)
      → get st.bindings id ≡ some b
      → (bridge_principal bolt ext id secret now (ok b) st).0 ≡ some p
      → Machine id secret st p
  unfolding get_user verify_secret hash_secret
  bridge_principal-Machine id secret now st p b there h =
      elim (Bool-cases (ext.digest secret == b.cred_hash)) [
        | inr m ↦ ground (arith, h, m)
        | inl y ↦ elim (Option-cases (get st.users b.user_sub)) [
          | inl e ↦ ground (arith, h, y, e)
          | inr (u, e) ↦ elim (Bool-cases u.disabled) [
            | inl d ↦ ground (arith, h, y, e, d)
            | inr n ↦
                subst (Machine id secret st) (ground (arith, h, y, e, n))
                  (by_bridge b u there ((eq_iff (ext.digest secret) b.cred_hash).0 y) e n)
          ]
        ]
      ]

  pub machine_principal-Machine :
      (id secret : Text) (now : ℕ) (st : Store bolt) (p : Principal)
      → (machine_principal bolt ext id secret now st).0 ≡ some p
      → Machine id secret st p
  unfolding machine_principal get_binding
  machine_principal-Machine id secret now st p h = elim (Option-cases (get st.bindings id)) [
    | inl e ↦
        app_principal-Machine id secret st p e (
          subst (λ o. (bridge_principal bolt ext id secret now (or_not_found o) st).0 ≡ some p) e h)
    | inr (b, e) ↦
        bridge_principal-Machine id secret now st p b e (
          subst (λ o. (bridge_principal bolt ext id secret now (or_not_found o) st).0 ≡ some p) e h)
  ]

  pairing_principal-Bearer :
      (bearer : Text) (s : Server bolt) (p : Principal)
      → IsPlain bearer s
      → pairing_principal bolt ext bearer s ≡ some p
      → Bearer bearer s p
  unfolding pairing_principal
  pairing_principal-Bearer bearer s p plain h = elim (Bool-cases (is_empty s.keys)) [
    | inl y ↦ subst (Bearer bearer s) (ground (arith, h, y)) (by_open_key plain y)
    | inr n ↦ elim (Bool-cases (accepts s.keys bearer)) [
      | inl a ↦ subst (Bearer bearer s) (ground (arith, h, n, a)) (by_pairing_key plain a)
      | inr m ↦ ground (arith, h, n, m)
    ]
  ]

  token-Bearer :
      (bearer : Text) (now : ℕ) (s : Server bolt) (p : Principal) (store : Option (Store bolt))
      (parts : Option (Text × Text))
      → s.store ≡ store
      → split_credential bearer ≡ parts
      → (authenticate_token bolt ext bearer now store parts s).0 ≡ some p
      → Bearer bearer s p
  unfolding authenticate_token
  token-Bearer bearer now s p none parts a b h = pairing_principal-Bearer bearer s p (inl a) h
  token-Bearer bearer now s p (some st) none a b h = pairing_principal-Bearer bearer s p (inr b) h
  token-Bearer bearer now s p (some st) (some (id, secret)) a b h =
      by_machine st id secret a b (machine_principal-Machine id secret now st p h)

  pub authenticate_bearer-Bearer :
      (bearer : Text) (now : ℕ) (s : Server bolt) (p : Principal)
      → (authenticate_bearer bolt ext bearer now s).0 ≡ some p
      → Bearer bearer s p
  unfolding authenticate_bearer check_key
  authenticate_bearer-Bearer bearer now s p h = elim (Bool-cases (bearer == [])) [
    | inl y ↦ ground (arith, h, y)
    | inr n ↦ elim (Bool-cases (not (s.admin_token == []) && bearer == s.admin_token)) [
      | inl y ↦ subst (Bearer bearer s) (ground (arith, h, n, y)) (
          by_admin_token (ground (arith, y, eq_iff s.admin_token []))
            (ground (arith, y, eq_iff bearer s.admin_token)))
      | inr m ↦
          token-Bearer bearer now s p s.store (split_credential bearer) refl refl
            (ground (arith, h, n, m))
    ]
  ]

  -- A request is authenticated only on these grounds: a session cookie that stands for the principal; or
  -- else the administrator's token; a bridge's credential whose secret has the stored hash and whose user
  -- is enabled; an app's credential that is not revoked and whose secret has the stored hash; or a pairing
  -- key, and this last only if the token is not of the form "<id>.<secret>" or there is no store.
  pub authenticate-grounds :
      (r : Request) (now : ℕ) (s : Server bolt) (p : Principal)
      → (authenticate bolt ext r now s).0 ≡ some p
      → (session_of bolt ext r now s.session_key s.store ≡ some p)
        ⊎ ((session_of bolt ext r now s.session_key s.store ≡ none)
            × Bearer (key_from_request r) s p)
  unfolding authenticate
  authenticate-grounds r now s p h =
      elim (Option-cases (session_of bolt ext r now s.session_key s.store)) [
        | inr (u, e) ↦ inl (e ∙ ground (arith, h, e))
        | inl e ↦
            inr (e, authenticate_bearer-Bearer (key_from_request r) now s p (ground (arith, h, e)))
      ]
