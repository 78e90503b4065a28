-- ===== src/Server/TameAdmin.antt =====
-- relay/admin.go: the handlers of the console keep a server tame.
use relayent.Base.{
  ℕ, Text, ◌==◌, ◌&&◌, ◌||◌, not, if◌then◌else◌, ◌≡◌, refl, Bool, true, false, [], Option, none,
  some,
}
use relayent.Strings.{trim_space, to_lower}
use relayent.Security.Sanitize.{is_known_backend, is_supported_backend}
use relayent.Bolt.{Bolt, BoltLaws}
use relayent.Store.Records.{User, Principal, is_role, role_admin}
use relayent.Store.Users.{Result, ok, err, get_user}
use relayent.Server.Defs.{Externals, write_err, scope_forbidden, Server, hash_secret}
use relayent.Server.Enroll.{Credential, new_machine_credential}
use relayent.Server.Admin.{
  admin_create_user, admin_set_user_disabled, admin_set_user_role, admin_delete_user,
  admin_issue_enroll_token, issue_token, admin_create_app_cred, issue_app_cred, all_app_scopes,
  default_scopes, CreateAppCredRequest, app_cred_of, token_of, admin_revoke_app_cred,
  admin_delete_app_cred, admin_revoke_bridge, admin_set_backend, new_user, EnrollTokenRequest,
}
use relayent.Server.Serve.{
  AdminCall, create_user, disable_user, change_role, remove_user, issue_enroll_token,
  create_app_cred, revoke_app, remove_app, revoke_bridge, switch_backend, admin_handler,
}
use relayent.Server.Scopes.{
  upsert_user-Tame, set_user_disabled-Tame, set_user_role-Tame, delete_user-Tame,
  put_enroll_token-Tame, delete_binding-Tame, set_backend_enabled-Tame, put_app_cred-Tame,
  revoke_app_cred-Tame, delete_app_cred-Tame,
}
use relayent.Server.Tame.{TameServer, if-TameServer, decode-TameServer, write_store-Tame}

module _ (bolt : Bolt) (laws : BoltLaws bolt) (ext : Externals) where
  issue_token-Tame :
      (req : EnrollTokenRequest) (token : Text) (now : ℕ) (o : Result User) (s : Server bolt)
      → TameServer bolt laws ext s
      → TameServer bolt laws ext (issue_token bolt ext req token now o s).1
  issue_token-Tame req token now (err e) s t = t
  issue_token-Tame req token now (ok u) s t =
      write_store-Tame bolt laws ext _ _ _ s
        (λ st p.
          put_enroll_token-Tame bolt laws st p (hash_secret ext token) (token_of bolt ext req now))
        t

  issue_app_cred-Tame :
      (req : CreateAppCredRequest) (now : ℕ) (o : Option Credential) (s : Server bolt)
      → all_app_scopes (default_scopes bolt ext req.scopes) ≡ true
      → TameServer bolt laws ext s
      → TameServer bolt laws ext (issue_app_cred bolt ext req now o s).1
  issue_app_cred-Tame req now none s a t = t
  issue_app_cred-Tame req now (some c) s a t =
      write_store-Tame bolt laws ext _ _ _ s
        (λ st p. put_app_cred-Tame bolt laws st p (app_cred_of bolt ext req c) now a) t

  create_app_cred-Tame :
      (req : CreateAppCredRequest) (now : ℕ) (o : Option Credential) (s : Server bolt) (b : Bool)
      → all_app_scopes (default_scopes bolt ext req.scopes) ≡ b
      → TameServer bolt laws ext s
      → TameServer bolt laws ext
          (if not b
            then (write_err 403 scope_forbidden, s)
            else issue_app_cred bolt ext req now o s).1
  create_app_cred-Tame req now o s true a t = issue_app_cred-Tame req now o s a t
  create_app_cred-Tame req now o s false a t = t

  pub admin_handler-Tame :
      (c : AdminCall) (now : ℕ) (p : Principal) (s : Server bolt)
      → TameServer bolt laws ext s
      → TameServer bolt laws ext (admin_handler bolt ext c now p s).1
  unfolding admin_create_user admin_set_user_disabled admin_set_user_role admin_delete_user
      admin_issue_enroll_token admin_create_app_cred admin_revoke_app_cred admin_delete_app_cred
      admin_revoke_bridge admin_set_backend
  admin_handler-Tame (create_user body) now p s t =
      decode-TameServer bolt laws ext body s _ t (λ req.
        if-TameServer bolt laws ext (trim_space req.sub == [] || trim_space req.email == []) _ _ t (
          write_store-Tame bolt laws ext _ _ _ s
            (λ st a. upsert_user-Tame bolt laws st a (new_user bolt req) now) t))
  admin_handler-Tame (disable_user sub disabled) now p s t =
      write_store-Tame bolt laws ext _ _ _ s
        (λ st a. set_user_disabled-Tame bolt laws st a sub disabled) t
  admin_handler-Tame (change_role sub body) now p s t =
      decode-TameServer bolt laws ext body s _ t (λ role.
        if-TameServer bolt laws ext (not (is_role role)) _ _ t (
          if-TameServer bolt laws ext (sub == p.user_id && not (role == role_admin)) _ _ t (
            write_store-Tame bolt laws ext _ _ _ s
              (λ st a. set_user_role-Tame bolt laws st a sub role) t)))
  admin_handler-Tame (remove_user sub) now p s t =
      if-TameServer bolt laws ext (sub == p.user_id) _ _ t
        (write_store-Tame bolt laws ext _ _ _ s (λ st a. delete_user-Tame bolt laws st a sub) t)
  admin_handler-Tame (issue_enroll_token body token) now p s t =
      decode-TameServer bolt laws ext body s _ t
        (λ req. issue_token-Tame req token now (get_user bolt s.store req.user_sub) s t)
  admin_handler-Tame (create_app_cred body drawn) now p s t =
      decode-TameServer bolt laws ext body s _ t (λ req.
        if-TameServer bolt laws ext (trim_space req.app_id == []) _ _ t
          (create_app_cred-Tame req now (new_machine_credential ext drawn) s _ refl t))
  admin_handler-Tame (revoke_app id) now p s t =
      write_store-Tame bolt laws ext _ _ _ s (λ st a. revoke_app_cred-Tame bolt laws st a id) t
  admin_handler-Tame (remove_app id) now p s t =
      write_store-Tame bolt laws ext _ _ _ s (λ st a. delete_app_cred-Tame bolt laws st a id) t
  admin_handler-Tame (revoke_bridge id) now p s t =
      write_store-Tame bolt laws ext _ _ _ s (λ st a. delete_binding-Tame bolt laws st a id) t
  admin_handler-Tame (switch_backend name body) now p s t =
      if-TameServer bolt laws ext (not (is_known_backend (to_lower (trim_space name)))) _ _ t (
        if-TameServer bolt laws ext (not (is_supported_backend (to_lower (trim_space name)))) _ _ t
          (decode-TameServer bolt laws ext body s _ t (λ on.
            write_store-Tame bolt laws ext _ _ _ s
              (λ st a. set_backend_enabled-Tame bolt laws st a (to_lower (trim_space name)) on) t)))
