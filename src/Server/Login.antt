-- ===== src/Server/Login.antt =====
-- relay/oidc.go: the end of a login, when the identity provider sends the browser back.
use relayent.Base.{
  ℕ, Text, codes, ◌==◌, ◌==ℕ◌, ◌&&◌, not, if◌then◌else◌, Bool, false, [], Option, none, some,
}
use relayent.Bolt.{Bolt}
use relayent.Store.Records.{User, is_console_role, role_admin, role_user}
use relayent.Store.Users.{Result, ok, err, Store, get_user, upsert_user, count_users}
use relayent.Server.Defs.{
  Externals, Response, Server, write_err, write_json, redirect_body, login_state_invalid,
  exchange_failed, no_id_token, token_unverified, claims_unreadable, domain_forbidden,
  user_not_recorded,
}
use relayent.Server.Auth.{verify_state, session_value}

pub record Claims : Type 0 where
  pub email : Text
  pub name : Text
  pub hosted_domain : Text

-- What the provider and the packages oauth2 and go-oidc make of the code in the query: an error of the
-- exchange, of the verification, of the claims, or a verified subject.
pub data Identity : Type 0 where
  not_exchanged without_token not_verified not_readable : Identity
  verified : Text → Claims → Identity

abbrev pub state_matches : Externals → Text → Option Text → Text → Bool
state_matches ext session_key none state = false
state_matches ext session_key (some cookie) state = verify_state ext session_key cookie state

module _ (bolt : Bolt) (ext : Externals) where
  abbrev pub login_user : Text → Claims → ℕ → User
  login_user sub claims known_users = record {
    sub = sub;
    email = claims.email;
    display_name = claims.name;
    role = if known_users ==ℕ 0 then role_admin else role_user;
    disabled = false;
    created_at = 0;
  }

  abbrev pub destination : Result User → Text
  destination (err e) = codes "/"
  destination (ok u) = if is_console_role u.role then codes "/admin" else codes "/"

  abbrev pub recorded_login :
      Text → Text → ℕ → Result (Store bolt) → Server bolt → Response × Server bolt
  recorded_login session_key sub now (err e) s = (write_err 500 user_not_recorded, s)
  recorded_login session_key sub now (ok st) s = (
    write_json 302 (
        redirect_body (destination (get_user bolt (some st) sub))
          (session_value ext session_key sub now)),
    record s { store = some st },
  )

  -- On a nil store `UpsertUser` does nothing.
  abbrev pub record_login :
      Text → Text → Claims → ℕ → Option (Store bolt) → Server bolt → Response × Server bolt
  record_login session_key sub claims now none s =
      (write_json 302 (redirect_body (codes "/") (session_value ext session_key sub now)), s)
  record_login session_key sub claims now (some st) s =
      recorded_login session_key sub now
        (upsert_user bolt (login_user sub claims (count_users bolt (some st))) now st) s

  abbrev pub identified : Text → Text → ℕ → Identity → Server bolt → Response × Server bolt
  identified session_key hosted now not_exchanged s = (write_err 502 exchange_failed, s)
  identified session_key hosted now without_token s = (write_err 502 no_id_token, s)
  identified session_key hosted now not_verified s = (write_err 401 token_unverified, s)
  identified session_key hosted now not_readable s = (write_err 502 claims_unreadable, s)
  identified session_key hosted now (verified sub claims) s =
      if not (hosted == []) && not (claims.hosted_domain == hosted)
      then (write_err 403 domain_forbidden, s)
      else record_login session_key sub claims now s.store s

  -- `cookie` is the state cookie, `state` the query's state.
  unfoldable pub handle_callback :
      Text → Text → Option Text → Text → Identity → ℕ → Server bolt → Response × Server bolt
  handle_callback session_key hosted cookie state identity now s =
      if state_matches ext session_key cookie state
      then identified session_key hosted now identity s
      else (write_err 400 login_state_invalid, s)
