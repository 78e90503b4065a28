-- ===== src/Server/Serve.antt =====
-- relay/main.go: which handler answers which route, and the scope that a route requires.
use relayent.Base.{ℕ, Text, Bool, Option, none, some}
use relayent.Api.{EnqueueRequest, ResultRequest, BridgeCapabilities}
use relayent.Bolt.{Bolt}
use relayent.Store.Records.{
  Principal, DemoHit, scope_demo_stats, scope_users_edit, scope_creds_edit, scope_bridges_edit,
  scope_backends_edit,
}
use relayent.Server.Defs.{
  Externals, Request, Decoded, Response, Server, write_json, write_err, no_body, not_found,
}
use relayent.Server.Auth.{auth, authorize}
use relayent.Server.Broker.{
  handle_enqueue, handle_claim_next, handle_post_result, handle_cancel, handle_post_capabilities,
}
use relayent.Server.Enroll.{handle_enroll}
use relayent.Server.Login.{Identity, handle_callback}
use relayent.Server.Demo.{DemoExternals, DemoHitIn, demo_ingest}
use relayent.Server.Admin.{
  CreateUserRequest, EnrollTokenRequest, CreateAppCredRequest, admin_create_user,
  admin_set_user_disabled, admin_set_user_role, admin_delete_user, admin_issue_enroll_token,
  admin_create_app_cred, admin_revoke_app_cred, admin_delete_app_cred, admin_revoke_bridge,
  admin_set_backend,
}

-- The calls of the admin console that change the store, with path values, bodies and random draws.
pub data AdminCall : Type 0 where
  create_user : Decoded CreateUserRequest → AdminCall
  disable_user : Text → Bool → AdminCall
  change_role : Text → Decoded Text → AdminCall
  remove_user : Text → AdminCall
  issue_enroll_token : Decoded EnrollTokenRequest → Text → AdminCall
  create_app_cred : Decoded CreateAppCredRequest → Option (Text × Text) → AdminCall
  revoke_app : Text → AdminCall
  remove_app : Text → AdminCall
  revoke_bridge : Text → AdminCall
  switch_backend : Text → Decoded Bool → AdminCall

abbrev pub scope_of : AdminCall → Text
scope_of (create_user body) = scope_users_edit
scope_of (disable_user sub disabled) = scope_users_edit
scope_of (change_role sub body) = scope_users_edit
scope_of (remove_user sub) = scope_users_edit
scope_of (issue_enroll_token body token) = scope_users_edit
scope_of (create_app_cred body drawn) = scope_creds_edit
scope_of (revoke_app id) = scope_creds_edit
scope_of (remove_app id) = scope_creds_edit
scope_of (revoke_bridge id) = scope_bridges_edit
scope_of (switch_backend name body) = scope_backends_edit

-- All the calls that the mux routes and that change the server, with path values, bodies and random draws.
-- An authenticated call that only reads may still touch its bridge's binding, and changes the rate limiter
-- when it is refused: `read_call` has the scope that the route requires, if any, and what the handler
-- answers. Pages, the login page's redirect, the logout, `me` and `health` change nothing.
pub data Call (bolt : Bolt) : Type 0 where
  admin_call : AdminCall → Call bolt
  enqueue_call : Decoded EnqueueRequest → Text → Call bolt
  claim_call : Call bolt
  result_call : Decoded ResultRequest → Text → Call bolt
  cancel_call : Text → Call bolt
  capabilities_call : Decoded BridgeCapabilities → Call bolt
  read_call : Option Text → (Request → ℕ → Principal → Server bolt → Response) → Call bolt
  enroll_call : Decoded Text → Option (Text × Text) → Call bolt
  -- the configured domain, the state cookie, the query's state, and what the provider says
  callback_call : Text → Option Text → Text → Identity → Call bolt
  -- with what boltdb counts as the bucket's keys
  hit_call :
      DemoExternals
      → (bolt.Bucket DemoHit → bolt.Bucket DemoHit → ℕ)
      → Decoded DemoHitIn
      → Call bolt

module _ (bolt : Bolt) (ext : Externals) where
  abbrev pub admin_handler : AdminCall → ℕ → Principal → Server bolt → Response × Server bolt
  admin_handler (create_user body) now p s = admin_create_user bolt body now s
  admin_handler (disable_user sub disabled) now p s = admin_set_user_disabled bolt sub disabled s
  admin_handler (change_role sub body) now p s = admin_set_user_role bolt body sub p s
  admin_handler (remove_user sub) now p s = admin_delete_user bolt sub p s
  admin_handler (issue_enroll_token body token) now p s =
      admin_issue_enroll_token bolt ext body token now s
  admin_handler (create_app_cred body drawn) now p s =
      admin_create_app_cred bolt ext body now drawn s
  admin_handler (revoke_app id) now p s = admin_revoke_app_cred bolt id s
  admin_handler (remove_app id) now p s = admin_delete_app_cred bolt id s
  admin_handler (revoke_bridge id) now p s = admin_revoke_bridge bolt id s
  admin_handler (switch_backend name body) now p s = admin_set_backend bolt body name s

  -- A claim that waits is answered with 204 when its wait ends without a job; one that is woken claims
  -- anew.
  abbrev pub or_no_job : Option Response × Server bolt → Response × Server bolt
  or_no_job (none, s) = (write_json 204 no_body, s)
  or_no_job (some res, s) = (res, s)

  abbrev pub read_answer :
      Option Text
      → Request
      → ℕ
      → (Principal → Server bolt → Response × Server bolt)
      → Server bolt
      → Response × Server bolt
  read_answer none r now next s = auth bolt ext r now next s
  read_answer (some scope) r now next s = authorize bolt ext scope r now next s

  -- The callback is routed when OIDC is configured; without it the page of `GET /` answers with 404.
  abbrev pub callback_answer :
      Text → Option Text → Text → Identity → ℕ → Option Text → Server bolt → Response × Server bolt
  callback_answer hosted cookie state identity now none s = (write_err 404 not_found, s)
  callback_answer hosted cookie state identity now (some key) s =
      handle_callback bolt ext key hosted cookie state identity now s

  unfoldable pub serve : Call bolt → Request → ℕ → Server bolt → Response × Server bolt
  serve (admin_call c) r now s = authorize bolt ext (scope_of c) r now (admin_handler c now) s
  serve (enqueue_call body id) r now s = auth bolt ext r now (handle_enqueue bolt body id now) s
  serve claim_call r now s =
      auth bolt ext r now (λ p s'. or_no_job (handle_claim_next bolt now p s')) s
  serve (result_call body id) r now s =
      auth bolt ext r now (handle_post_result bolt ext body id now) s
  serve (cancel_call id) r now s = auth bolt ext r now (handle_cancel bolt r id) s
  serve (capabilities_call body) r now s =
      auth bolt ext r now (handle_post_capabilities bolt body now) s
  serve (enroll_call body drawn) r now s = handle_enroll bolt ext r body now drawn s
  serve (read_call scope answer) r now s =
      read_answer scope r now (λ p s'. (answer r now p s', s')) s
  serve (callback_call hosted cookie state identity) r now s =
      callback_answer hosted cookie state identity now s.session_key s
  serve (hit_call d key_n body) r now s =
      authorize bolt ext scope_demo_stats r now (demo_ingest bolt d key_n body now) s
