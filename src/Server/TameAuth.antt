-- ===== src/Server/TameAuth.antt =====
-- relay/main.go: authentication and the handlers of jobs keep a server tame.
use relayent.Base.{
  ℕ, Text, ◌==◌, ◌&&◌, ◌||◌, not, sym, subst, Bool, true, false, [], Option, none, some, Bool-cases,
  inl, inr,
}
use relayent.Api.{EnqueueRequest, ResultRequest}
use relayent.Security.Keys.{check_key}
use relayent.Security.Limiter.{Limiter, allow}
use relayent.Queue.Defs.{Queue}
use relayent.Queue.Jobs.{CancelState, cancel}
use relayent.Bolt.{Bolt, BoltLaws}
use relayent.Store.Records.{User, AppCred, BridgeBinding, Principal}
use relayent.Store.Users.{Result, ok, err, Store, get_user}
use relayent.Store.Credentials.{get_binding, touch_binding, get_app_cred}
use relayent.Server.Defs.{Externals, Request, Decoded, Response, Server, client_ip, verify_secret}
use relayent.Server.Auth.{
  key_from_request, session_of, machine_principal, bridge_principal, app_principal, active_bridge,
  authenticate, authenticate_bearer, authenticate_token, or_bearer, auth, answered, refused,
  split_credential,
}
use relayent.Server.Broker.{
  Routed, routes, refuses, handle_enqueue, result_answer, cancel_routed, cancel_answer,
}
use relayent.Server.Enqueue.{handle_enqueue-Outcome}
use relayent.Server.Scopes.{Tame, TameStore, touch_binding-Tame}
use relayent.Server.Tame.{TameServer, settled-Tame, appended-Tame}

module _ (bolt : Bolt) (laws : BoltLaws bolt) (ext : Externals) where
  active_bridge-Tame :
      (id : Text) (now : ℕ) (b : BridgeBinding) (u : Result User) (st : Store bolt)
      → Tame bolt laws st.app_creds
      → Tame bolt laws (active_bridge bolt ext id now b u st).1.app_creds
  active_bridge-Tame id now b (err e) st t = t
  active_bridge-Tame id now b (ok u) st t = elim (Bool-cases u.disabled) [
    | inl y ↦ rw y t
    | inr n ↦ rw n (
        settled-Tame bolt laws ext st (touch_binding bolt id now st) t
          (touch_binding-Tame bolt laws st t id now))
  ]

  app_principal-Tame :
      (id secret : Text) (c : Result AppCred) (st : Store bolt)
      → Tame bolt laws st.app_creds
      → Tame bolt laws (app_principal bolt ext id secret c st).1.app_creds
  app_principal-Tame id secret (err e) st t = t
  app_principal-Tame id secret (ok c) st t =
      elim (Bool-cases (c.revoked || not (verify_secret ext secret c.key_hash))) [
        | inl y ↦ rw y t
        | inr n ↦ rw n t
      ]

  bridge_principal-Tame :
      (id secret : Text) (now : ℕ) (b : Result BridgeBinding) (st : Store bolt)
      → Tame bolt laws st.app_creds
      → Tame bolt laws (bridge_principal bolt ext id secret now b st).1.app_creds
  bridge_principal-Tame id secret now (err e) st t =
      app_principal-Tame id secret (get_app_cred bolt (some st) id) st t
  bridge_principal-Tame id secret now (ok b) st t =
      elim (Bool-cases (verify_secret ext secret b.cred_hash)) [
        | inl y ↦ rw y (active_bridge-Tame id now b (get_user bolt (some st) b.user_sub) st t)
        | inr n ↦ rw n t
      ]

  authenticate_token-Tame :
      (bearer : Text) (now : ℕ) (store : Option (Store bolt)) (parts : Option (Text × Text))
      (s : Server bolt)
      → TameStore bolt laws store
      → TameServer bolt laws ext s
      → TameServer bolt laws ext (authenticate_token bolt ext bearer now store parts s).1
  unfolding authenticate_token machine_principal
  authenticate_token-Tame bearer now none parts s t u = u
  authenticate_token-Tame bearer now (some st) none s t u = u
  authenticate_token-Tame bearer now (some st) (some (id, secret)) s t u =
      bridge_principal-Tame id secret now (get_binding bolt (some st) id) st t

  authenticate_bearer-Tame :
      (bearer : Text) (now : ℕ) (s : Server bolt)
      → TameServer bolt laws ext s
      → TameServer bolt laws ext (authenticate_bearer bolt ext bearer now s).1
  unfolding authenticate_bearer
  authenticate_bearer-Tame bearer now s t = elim (Bool-cases (bearer == [])) [
    | inl y ↦ rw y t
    | inr n ↦ elim (Bool-cases (not (s.admin_token == []) && check_key bearer s.admin_token)) [
      | inl y ↦ rw (n, y) t
      | inr m ↦
          rw (n, m) (authenticate_token-Tame bearer now s.store (split_credential bearer) s t t)
    ]
  ]

  or_bearer-Tame :
      (r : Request) (now : ℕ) (s : Server bolt) (o : Option Principal)
      → TameServer bolt laws ext s
      → TameServer bolt laws ext (or_bearer bolt ext r now s o).1
  or_bearer-Tame r now s none t = authenticate_bearer-Tame (key_from_request r) now s t
  or_bearer-Tame r now s (some p) t = t

  refused-Tame :
      (s : Server bolt) (o : Bool × Limiter)
      → TameServer bolt laws ext s
      → TameServer bolt laws ext (refused bolt ext s o).1
  refused-Tame s (true, l) t = t
  refused-Tame s (false, l) t = t

  answered-Tame :
      (r : Request) (now : ℕ) (next : Principal → Server bolt → Response × Server bolt)
      (o : Option Principal × Server bolt)
      → ((p : Principal) (s : Server bolt)
          → TameServer bolt laws ext s
          → TameServer bolt laws ext (next p s).1)
      → TameServer bolt laws ext o.1
      → TameServer bolt laws ext (answered bolt ext r now next o).1
  answered-Tame r now next (some p, s) h t = h p s t
  answered-Tame r now next (none, s) h t =
      refused-Tame s (allow (client_ip ext s.trust_proxy r) now s.auth_limit) t

  pub auth-Tame :
      (r : Request) (now : ℕ) (next : Principal → Server bolt → Response × Server bolt)
      (s : Server bolt)
      → ((p : Principal) (s : Server bolt)
          → TameServer bolt laws ext s
          → TameServer bolt laws ext (next p s).1)
      → TameServer bolt laws ext s
      → TameServer bolt laws ext (auth bolt ext r now next s).1
  unfolding auth authenticate
  auth-Tame r now next s h t =
      answered-Tame r now next (authenticate bolt ext r now s) h
        (or_bearer-Tame r now s (session_of bolt ext r now s.session_key s.store) t)

  pub handle_enqueue-Tame :
      (body : Decoded EnqueueRequest) (id : Text) (now : ℕ) (p : Principal) (s : Server bolt)
      → TameServer bolt laws ext s
      → TameServer bolt laws ext (handle_enqueue bolt body id now p s).1
  handle_enqueue-Tame body id now p s t = elim (handle_enqueue-Outcome bolt body id now p s) [
    | inl (x, y, z) ↦ subst (TameStore bolt laws) (sym z) t
    | inr (x, a) ↦
        subst (TameStore bolt laws) (sym a.audited) (appended-Tame bolt laws ext _ now s.store t)
  ]

  pub result_answer-Tame :
      (p : Principal) (id : Text) (res : ResultRequest) (now : ℕ) (o : Bool × Queue)
      (s : Server bolt)
      → TameServer bolt laws ext s
      → TameServer bolt laws ext (result_answer bolt ext p id res now o s).1
  result_answer-Tame p id res now (false, q) s t = t
  result_answer-Tame p id res now (true, q) s t = appended-Tame bolt laws ext _ now s.store t

  cancel_answer-Tame :
      (id : Text) (o : Option CancelState × Queue) (s : Server bolt)
      → TameServer bolt laws ext s
      → TameServer bolt laws ext (cancel_answer bolt id o s).1
  cancel_answer-Tame id (none, q) s t = t
  cancel_answer-Tame id (some c, q) s t = t

  pub cancel_routed-Tame :
      (id : Text) (to : Routed) (s : Server bolt)
      → TameServer bolt laws ext s
      → TameServer bolt laws ext (cancel_routed bolt id to s).1
  cancel_routed-Tame id (refuses f) s t = t
  cancel_routed-Tame id (routes user) s t = cancel_answer-Tame id (cancel user id s.q) s t
