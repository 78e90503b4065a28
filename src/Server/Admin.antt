-- ===== src/Server/Admin.antt =====
-- relay/admin.go: the handlers of the admin console that change the store.
use relayent.Base.{
  ℕ, ◌+◌, ◌*◌, ◌%◌, ◌^◌, leb, Text, ◌==◌, ◌==ℕ◌, ◌&&◌, ◌||◌, not, if◌then◌else◌, Bool, true, false,
  List, [], ◌∷◌, Option, none, some,
}
use relayent.Strings.{trim_space, to_lower}
use relayent.Security.Sanitize.{is_known_backend, is_supported_backend}
use relayent.Bolt.{Bolt}
use relayent.Store.Records.{
  User, AppCred, EnrollToken, Principal, role_admin, role_user, is_role, is_console_role,
  scope_enqueue, scope_claim, scope_demo_stats,
}
use relayent.Store.Users.{
  StoreError, Result, ok, err, Store, update_store, get_user, upsert_user, set_user_disabled,
  set_user_role, delete_user,
}
use relayent.Store.Credentials.{
  put_app_cred, revoke_app_cred, delete_app_cred, delete_binding, put_enroll_token,
}
use relayent.Store.Audit.{set_backend_enabled}
use relayent.Server.Defs.{
  Externals, Decoded, decode_or, Response, Server, hash_secret, write_err, write_json, sub_body,
  role_body, disabled_body, token_body, credential_body, id_body, backend_body,
  sub_and_email_required, user_not_created, role_invalid, self_demotion, self_deletion,
  unknown_user, token_not_issued, app_id_required, scope_forbidden, credential_not_issued,
  credential_not_recorded, unknown_credential, unknown_bridge, unknown_backend, backend_unsupported,
  policy_not_updated,
}
use relayent.Server.Enroll.{Credential, new_machine_credential}

pub record CreateUserRequest : Type 0 where
  pub sub : Text
  pub email : Text
  pub display_name : Text
  pub role : Text

-- The time to live as a 64-bit number in two's complement, 0 when it is missing.
pub record EnrollTokenRequest : Type 0 where
  pub user_sub : Text
  pub ttl_seconds : ℕ

pub record CreateAppCredRequest : Type 0 where
  pub app_id : Text
  pub scopes : List Text

-- 15 minutes
abbrev pub default_ttl : ℕ
default_ttl = 900_000_000_000

-- The scopes that the switch of `adminCreateAppCred` lets through
unfoldable pub is_app_scope : Text → Bool
is_app_scope sc = sc == scope_enqueue || (sc == scope_claim || sc == scope_demo_stats)

unfoldable pub all_app_scopes : List Text → Bool
all_app_scopes [] = true
all_app_scopes (sc ∷ scs) = let rest = all_app_scopes scs in if is_app_scope sc then rest else false

module _ (bolt : Bolt) where
  -- A write to the store: its response, and the server afterwards.
  abbrev pub written :
      Response
      → Response
      → Server bolt
      → Option StoreError × Option (Store bolt)
      → Response × Server bolt
  written failed done s (none, store) = (done, record s { store = store })
  written failed done s (some e, store) = (failed, record s { store = store })

  abbrev pub write_store :
      (Store bolt → Result (Store bolt))
      → Response
      → Response
      → Server bolt
      → Response × Server bolt
  write_store f failed done s = written failed done s (update_store bolt f s.store)

  abbrev pub new_user : CreateUserRequest → User
  new_user req = record {
    sub = req.sub;
    email = req.email;
    display_name = req.display_name;
    role = if is_console_role req.role then req.role else role_user;
    disabled = false;
    created_at = 0;
  }

  unfoldable pub admin_create_user :
      Decoded CreateUserRequest → ℕ → Server bolt → Response × Server bolt
  admin_create_user body now s =
      decode_or body (λ r. (r, s))
        (λ req.
          if trim_space req.sub == [] || trim_space req.email == []
          then (write_err 400 sub_and_email_required, s)
          else write_store (upsert_user bolt (new_user req) now) (write_err 500 user_not_created)
              (write_json 201 (sub_body req.sub)) s)

  -- `disabled` is whether the query's value differs from "false".
  unfoldable pub admin_set_user_disabled : Text → Bool → Server bolt → Response × Server bolt
  admin_set_user_disabled sub disabled s =
      write_store (set_user_disabled bolt sub disabled) (write_err 404 unknown_user)
        (write_json 200 (disabled_body sub disabled)) s

  unfoldable pub admin_set_user_role :
      Decoded Text → Text → Principal → Server bolt → Response × Server bolt
  admin_set_user_role body sub p s =
      decode_or body (λ r. (r, s))
        (λ role.
          if not (is_role role)
          then (write_err 400 role_invalid, s)
          else if sub == p.user_id && not (role == role_admin)
          then (write_err 400 self_demotion, s)
          else write_store (set_user_role bolt sub role) (write_err 404 unknown_user)
              (write_json 200 (role_body sub role)) s)

  unfoldable pub admin_delete_user : Text → Principal → Server bolt → Response × Server bolt
  admin_delete_user sub p s =
      if sub == p.user_id
      then (write_err 400 self_deletion, s)
      else write_store (delete_user bolt sub) (write_err 404 unknown_user)
          (write_json 200 (sub_body sub)) s

  unfoldable pub admin_revoke_bridge : Text → Server bolt → Response × Server bolt
  admin_revoke_bridge id s =
      write_store (delete_binding bolt id) (write_err 404 unknown_bridge)
        (write_json 200 (id_body id)) s

  unfoldable pub admin_revoke_app_cred : Text → Server bolt → Response × Server bolt
  admin_revoke_app_cred id s =
      write_store (revoke_app_cred bolt id) (write_err 404 unknown_credential)
        (write_json 200 (id_body id)) s

  unfoldable pub admin_delete_app_cred : Text → Server bolt → Response × Server bolt
  admin_delete_app_cred id s =
      write_store (delete_app_cred bolt id) (write_err 404 unknown_credential)
        (write_json 200 (id_body id)) s

  unfoldable pub admin_set_backend : Decoded Bool → Text → Server bolt → Response × Server bolt
  admin_set_backend body raw_name s =
      let name = to_lower (trim_space raw_name) in
      if not (is_known_backend name)
      then (write_err 404 unknown_backend, s)
      else if not (is_supported_backend name)
      then (write_err 400 backend_unsupported, s)
      else decode_or body (λ r. (r, s))
          (λ enabled.
            write_store (set_backend_enabled bolt name enabled) (write_err 500 policy_not_updated)
              (write_json 200 (backend_body name enabled)) s)

  module _ (ext : Externals) where
    -- The product is a signed 64-bit number, and the default stands in for one that is not positive.
    abbrev pub expiry : EnrollTokenRequest → ℕ → ℕ
    expiry req now =
        let ttl = req.ttl_seconds * 1_000_000_000 % 2 ^ 64 in
        now + (if ttl ==ℕ 0 || leb (2 ^ 63) ttl then default_ttl else ttl)

    abbrev pub token_of : EnrollTokenRequest → ℕ → EnrollToken
    token_of req now = record {
      user_sub = req.user_sub;
      expires_at = expiry req now;
      redeemed_at = 0;
    }

    abbrev pub issue_token :
        EnrollTokenRequest → Text → ℕ → Result User → Server bolt → Response × Server bolt
    issue_token req token now (err e) s = (write_err 400 unknown_user, s)
    issue_token req token now (ok u) s =
        write_store (put_enroll_token bolt (hash_secret ext token) (token_of req now))
          (write_err 500 token_not_issued) (write_json 200 (token_body token (expiry req now))) s

    -- `token` is what `randToken` draws.
    unfoldable pub admin_issue_enroll_token :
        Decoded EnrollTokenRequest → Text → ℕ → Server bolt → Response × Server bolt
    admin_issue_enroll_token body token now s =
        decode_or body (λ r. (r, s))
          (λ req. issue_token req token now (get_user bolt s.store req.user_sub) s)

    abbrev pub default_scopes : List Text → List Text
    default_scopes [] = scope_enqueue ∷ []
    default_scopes (sc ∷ scs) = sc ∷ scs

    abbrev pub app_cred_of : CreateAppCredRequest → Credential → AppCred
    app_cred_of req c = record {
      id = c.public_id;
      app_id = req.app_id;
      key_hash = c.secret_hash;
      scopes = default_scopes req.scopes;
      revoked = false;
      created_at = 0;
    }

    abbrev pub issue_app_cred :
        CreateAppCredRequest → ℕ → Option Credential → Server bolt → Response × Server bolt
    issue_app_cred req now none s = (write_err 500 credential_not_issued, s)
    issue_app_cred req now (some c) s =
        write_store (put_app_cred bolt (app_cred_of req c) now)
          (write_err 500 credential_not_recorded)
          (write_json 200 (credential_body req.app_id c.full)) s

    unfoldable pub admin_create_app_cred :
        Decoded CreateAppCredRequest
        → ℕ
        → Option (Text × Text)
        → Server bolt
        → Response × Server bolt
    unfolding all_app_scopes
    admin_create_app_cred body now drawn s =
        decode_or body (λ r. (r, s))
          (λ req.
            if trim_space req.app_id == []
            then (write_err 400 app_id_required, s)
            else if not (all_app_scopes (default_scopes req.scopes))
            then (write_err 403 scope_forbidden, s)
            else issue_app_cred req now (new_machine_credential ext drawn) s)
