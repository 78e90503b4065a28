-- ===== src/Server/Auth.antt =====
-- relay/main.go and relay/oidc.go: from a request to a principal.
use relayent.Base.{
  ℕ, ◌+◌, ◌/◌, Text, codes, ◌==◌, ◌&&◌, ◌||◌, not, ltb, if◌then◌else◌, Bool, true, false, [], ◌∷◌,
  ◌++◌, Option, none, some,
}
use relayent.Strings.{trim_space, cut, after_prefix}
use relayent.Security.Keys.{check_key, is_empty, accepts}
use relayent.Security.Limiter.{Limiter, allow}
use relayent.Bolt.{Bolt}
use relayent.Store.Records.{
  User, AppCred, BridgeBinding, Principal, admin, user_bridge, app, scopes_for_role, role_admin,
  scope_claim, can, legacy_principal,
}
use relayent.Store.Users.{Result, ok, err, Store, get_user}
use relayent.Store.Credentials.{get_binding, get_app_cred, touch_binding}
use relayent.Server.Defs.{
  Externals, Request, Response, Server, key_fingerprint, verify_secret, client_ip, write_err,
  bad_credentials, too_many_attempts, not_permitted,
}

unfoldable pub bearer_of : Option Text → Text
bearer_of none = []
bearer_of (some rest) = trim_space rest

unfoldable pub key_from_request : Request → Text
unfolding bearer_of
key_from_request r = bearer_of (after_prefix (codes "Bearer ") r.authorization)

abbrev both_parts : Option (Text × Text) → Option (Text × Text)
both_parts none = none
both_parts (some (id, secret)) = if id == [] || secret == [] then none else some (id, secret)

unfoldable pub split_credential : Text → Option (Text × Text)
split_credential cred = both_parts (cut b'.' cred)

-- 12 hours, the life of a session, in seconds
abbrev pub session_ttl : ℕ
session_ttl = 43_200

-- Unix seconds of a time in nanoseconds
abbrev pub unix : ℕ → ℕ
unix now = now / 1_000_000_000

module _ (ext : Externals) where
  -- sign
  abbrev pub sign : Text → Text → Text
  sign session_key msg = ext.keyed_digest session_key msg

  -- The cookie of `setSession`
  unfoldable pub session_value : Text → Text → ℕ → Text
  session_value session_key sub now =
      let payload = sub ++ b'|' ∷ ext.show_number (unix now + session_ttl) in
      ext.encode64 payload ++ b'|' ∷ sign session_key payload

  unfoldable pub verify_state : Text → Text → Text → Bool
  verify_state session_key signed_cookie plain =
      if signed_cookie == [] || plain == [] then false else signed_cookie == sign session_key plain

module _ (bolt : Bolt) where
  -- The store after a write whose error is ignored.
  abbrev pub settled : Store bolt → Result (Store bolt) → Store bolt
  settled s (ok s') = s'
  settled s (err e) = s

module _ (bolt : Bolt) (ext : Externals) where
  abbrev pub session_user : Text → Result User → Option Principal
  session_user sub (err e) = none
  session_user sub (ok u) =
      if u.disabled
      then none
      else some (record {
        user_id = sub;
        kind = admin;
        scopes = scopes_for_role u.role;
        key_fp = key_fingerprint ext sub;
        bridge_id = [];
      })

  abbrev pub session_payload : ℕ → Option (Store bolt) → Option (Text × Text) → Option Principal
  session_payload now store none = none
  session_payload now store (some (sub, exp_text)) = elim (ext.scan_number exp_text) [
    | none ↦ none
    | some exp ↦ if ltb exp (unix now) then none else session_user sub (get_user bolt store sub)
  ]

  abbrev pub session_signed : Text → ℕ → Option (Store bolt) → Text → Option Text → Option Principal
  session_signed session_key now store mac none = none
  session_signed session_key now store mac (some payload) =
      if mac == sign ext session_key payload
      then session_payload now store (cut b'|' payload)
      else none

  abbrev pub session_parts :
      Text → ℕ → Option (Store bolt) → Option (Text × Text) → Option Principal
  session_parts session_key now store none = none
  session_parts session_key now store (some (b64, mac)) =
      session_signed session_key now store mac (ext.decode64 b64)

  unfoldable pub principal_from_session :
      Text → ℕ → Option (Store bolt) → Request → Option Principal
  principal_from_session session_key now store r = elim r.session_cookie [
    | none ↦ none
    | some value ↦ session_parts session_key now store (cut b'|' value)
  ]

  abbrev pub bridge_of : Text → BridgeBinding → Principal
  bridge_of id b = record {
    user_id = b.user_sub;
    kind = user_bridge;
    scopes = scope_claim ∷ [];
    key_fp = key_fingerprint ext id;
    bridge_id = id;
  }

  abbrev pub app_of : Text → AppCred → Principal
  app_of id c = record {
    user_id = [];
    kind = app;
    scopes = c.scopes;
    key_fp = key_fingerprint ext id;
    bridge_id = [];
  }

  abbrev pub active_bridge :
      Text → ℕ → BridgeBinding → Result User → Store bolt → Option Principal × Store bolt
  active_bridge id now b (err e) s = (none, s)
  active_bridge id now b (ok u) s =
      if u.disabled
      then (none, s)
      else (some (bridge_of id b), settled bolt s (touch_binding bolt id now s))

  abbrev pub app_principal :
      Text → Text → Result AppCred → Store bolt → Option Principal × Store bolt
  app_principal id secret (err e) s = (none, s)
  app_principal id secret (ok c) s =
      if c.revoked || not (verify_secret ext secret c.key_hash)
      then (none, s)
      else (some (app_of id c), s)

  abbrev pub bridge_principal :
      Text → Text → ℕ → Result BridgeBinding → Store bolt → Option Principal × Store bolt
  bridge_principal id secret now (err e) s =
      app_principal id secret (get_app_cred bolt (some s) id) s
  bridge_principal id secret now (ok b) s =
      if verify_secret ext secret b.cred_hash
      then active_bridge id now b (get_user bolt (some s) b.user_sub) s
      else (none, s)

  unfoldable pub machine_principal : Text → Text → ℕ → Store bolt → Option Principal × Store bolt
  machine_principal id secret now s =
      bridge_principal id secret now (get_binding bolt (some s) id) s

  abbrev pub bootstrap_admin : Text → Principal
  bootstrap_admin bearer = record {
    user_id = codes "bootstrap-admin";
    kind = admin;
    scopes = scopes_for_role role_admin;
    key_fp = key_fingerprint ext bearer;
    bridge_id = [];
  }

  unfoldable pub pairing_principal : Text → Server bolt → Option Principal
  pairing_principal bearer s =
      if is_empty s.keys
      then some (record (legacy_principal (key_fingerprint ext bearer)) { user_id = bearer })
      else if accepts s.keys bearer
      then some (legacy_principal (key_fingerprint ext bearer))
      else none

  abbrev pub from_machine :
      Server bolt → Option Principal × Store bolt → Option Principal × Server bolt
  from_machine s (p, st) = (p, record s { store = some st })

  unfoldable pub authenticate_token :
      Text
      → ℕ
      → Option (Store bolt)
      → Option (Text × Text)
      → Server bolt
      → Option Principal × Server bolt
  authenticate_token bearer now none parts s = (pairing_principal bearer s, s)
  authenticate_token bearer now (some st) none s = (pairing_principal bearer s, s)
  authenticate_token bearer now (some st) (some (id, secret)) s =
      from_machine s (machine_principal id secret now st)

  unfoldable pub authenticate_bearer : Text → ℕ → Server bolt → Option Principal × Server bolt
  authenticate_bearer bearer now s =
      if bearer == []
      then (none, s)
      else if not (s.admin_token == []) && check_key bearer s.admin_token
      then (some (bootstrap_admin bearer), s)
      else authenticate_token bearer now s.store (split_credential bearer) s

  abbrev pub session_of : Request → ℕ → Option Text → Option (Store bolt) → Option Principal
  session_of r now none store = none
  session_of r now (some session_key) store = principal_from_session session_key now store r

  abbrev pub or_bearer :
      Request → ℕ → Server bolt → Option Principal → Option Principal × Server bolt
  or_bearer r now s (some p) = (some p, s)
  or_bearer r now s none = authenticate_bearer (key_from_request r) now s

  unfoldable pub authenticate : Request → ℕ → Server bolt → Option Principal × Server bolt
  authenticate r now s = or_bearer r now s (session_of r now s.session_key s.store)

  -- A failed attempt costs the client's address a token; without one it is told to slow down.
  abbrev pub refused : Server bolt → Bool × Limiter → Response × Server bolt
  refused s (true, l) = (write_err 401 bad_credentials, record s { auth_limit = l })
  refused s (false, l) = (write_err 429 too_many_attempts, record s { auth_limit = l })

  abbrev pub answered :
      Request
      → ℕ
      → (Principal → Server bolt → Response × Server bolt)
      → Option Principal × Server bolt
      → Response × Server bolt
  answered r now next (some p, s) = next p s
  answered r now next (none, s) = refused s (allow (client_ip ext s.trust_proxy r) now s.auth_limit)

  unfoldable pub auth :
      Request
      → ℕ
      → (Principal → Server bolt → Response × Server bolt)
      → Server bolt
      → Response × Server bolt
  auth r now next s = answered r now next (authenticate r now s)

  abbrev pub scoped :
      Text
      → (Principal → Server bolt → Response × Server bolt)
      → Principal
      → Server bolt
      → Response × Server bolt
  scoped scope next p s = if can p scope then next p s else (write_err 403 not_permitted, s)

  unfoldable pub authorize :
      Text
      → Request
      → ℕ
      → (Principal → Server bolt → Response × Server bolt)
      → Server bolt
      → Response × Server bolt
  unfolding auth
  authorize scope r now next s = auth r now (scoped scope next) s
