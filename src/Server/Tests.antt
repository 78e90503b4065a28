-- ===== src/Server/Tests.antt =====
-- The theorems on the handlers at the server of Sample.
use relayent.Base.{Text, codes, ◌==◌, ◌≡◌, ◌≢◌, ◌⊎◌, refl, inl, true, false, [], ◌∷◌, none, some}
use relayent.Api.{EnqueueRequest, BridgeCapabilities}
use relayent.Queue.Jobs.{report_capabilities}
use relayent.Strings.{
  to_lower, trim_space, trim_left, trim_right, strip, space_width, space_width_back, cut,
  after_prefix,
}
use relayent.Strings.Split.{occurs}
use relayent.Security.Keys.{check_key}
use relayent.Security.Limiter.{new_limiter, allow}
use relayent.Bolt.{find}
use relayent.Bolt.Rows.{rows_bolt, rows-BoltLaws, place}
use relayent.Store.Records.{User, Principal, admin, user_bridge, role_user, scopes_for_role}
use relayent.Store.Users.{update_store, ok, Store, get_user, set_user_disabled}
use relayent.Store.Credentials.{redeem_enroll_token, redeem, put_binding, get_binding, get_app_cred}
use relayent.Server.Defs.{
  backend_body, write_json, Request, decoded, Response, Server, hash_secret, verify_secret,
  key_fingerprint, client_ip,
}
use relayent.Server.Auth.{
  session_value, principal_from_session, session_of, authenticate, authenticate_bearer,
  authenticate_token, machine_principal, split_credential, key_from_request, bearer_of,
  bootstrap_admin,
}
use relayent.Server.Broker.{routes, route_target, handle_enqueue, handle_get_capabilities}
use relayent.Server.Enroll.{handle_enroll}
use relayent.Server.Admin.{admin_set_backend}
use relayent.Server.Grounds.{Bearer, authenticate-grounds}
use relayent.Server.Sessions.{Signed, principal_from_session-Signed}
use relayent.Server.Routing.{MayActFor, route_target-MayActFor}
use relayent.Server.Enqueue.{Outcome, handle_enqueue-Outcome}
use relayent.Server.Revocation.{set_user_disabled-refused}
use relayent.Server.Enrollment.{handle_enroll-authenticates}
use relayent.Server.Scopes.{Tame}
use relayent.Security.Sanitize.{is_known_backend, is_supported_backend}
use relayent.Store.Audit.{disabled_key, set_backend_enabled, insert_name}
use relayent.Bolt.{text_lt}
use relayent.Store.Records.{is_console_role}
use relayent.Store.Users.{upsert_user, count_users}
use relayent.Server.Defs.{redirect_body}
use relayent.Server.Auth.{verify_state, sign}
use relayent.Server.Login.{Claims, verified, handle_callback}
use relayent.Server.LoginLaws.{LoggedIn, handle_callback-LoggedIn}
use relayent.Server.Policy.{Unlisted, UnlistedMe, admin_set_backend-enforced}
use relayent.Server.Views.{me}
use relayent.Server.Sample.{ext, ann, bridge, store, server, with_bearer, hub_principal}

hub-authenticated :
    (authenticate rows_bolt ext (with_bearer (codes "Bearer h.hush")) 9 server).0
    ≡ some hub_principal
unfolding authenticate authenticate_bearer authenticate_token machine_principal key_from_request
    bearer_of after_prefix split_credential cut find ◌==◌ trim_space trim_left trim_right strip
    space_width space_width_back check_key get_binding get_app_cred verify_secret hash_secret
hub-authenticated = refl

authenticate-grounds_example :
    (session_of rows_bolt ext (with_bearer (codes "Bearer h.hush")) 9 none (some store)
      ≡ some hub_principal)
    ⊎ ((session_of rows_bolt ext (with_bearer (codes "Bearer h.hush")) 9 none (some store) ≡ none)
        × Bearer rows_bolt ext
            (key_from_request (with_bearer (codes "Bearer h.hush")))
            server
            hub_principal)
authenticate-grounds_example =
    authenticate-grounds rows_bolt ext (with_bearer (codes "Bearer h.hush")) 9 server hub_principal
      hub-authenticated

hub-routed : route_target rows_bolt hub_principal (codes "ann") server ≡ routes (codes "ann")
unfolding route_target trim_space trim_left trim_right strip space_width space_width_back get_user
    find ◌==◌
hub-routed = refl

abbrev for_ann : Request
for_ann = record (with_bearer []) { target_user = codes "ann" }

route_target-MayActFor_example :
    MayActFor rows_bolt hub_principal (codes "ann") (codes "ann") server
route_target-MayActFor_example =
    route_target-MayActFor rows_bolt hub_principal (codes "ann") (codes "ann") for_ann server refl
      (inl hub-routed)

abbrev ann_cookie : Text
ann_cookie = session_value ext (codes "key") (codes "ann") 0

abbrev with_cookie : Request
with_cookie = record (with_bearer []) { session_cookie = some ann_cookie }

abbrev ann_principal : Principal
ann_principal = record {
  user_id = codes "ann";
  kind = admin;
  scopes = scopes_for_role role_user;
  key_fp = key_fingerprint ext (codes "ann");
  bridge_id = [];
}

ann-session :
    principal_from_session rows_bolt ext (codes "key") 1_000_000_000 (some store) with_cookie
    ≡ some ann_principal
unfolding principal_from_session session_value cut get_user find ◌==◌
ann-session = refl

principal_from_session-Signed_example :
    Signed ext rows_bolt (codes "key") 1_000_000_000 (some store) ann_cookie ann_principal
principal_from_session-Signed_example =
    principal_from_session-Signed ext rows_bolt (codes "key") 1_000_000_000 (some store) with_cookie
      ann_cookie ann_principal refl ann-session

abbrev hello : EnqueueRequest
hello = record {
  backend = codes "cursor";
  model = [];
  prompt = codes "hi";
  system = [];
  json_schema = none;
  messages = [];
  effort = [];
  attachments = [];
  target_user = codes "ann";
}

handle_enqueue-Outcome_example :
    Outcome rows_bolt
      (decoded hello)
      (codes "j")
      9
      hub_principal
      server
      (handle_enqueue rows_bolt (decoded hello) (codes "j") 9 hub_principal server)
handle_enqueue-Outcome_example =
    handle_enqueue-Outcome rows_bolt (decoded hello) (codes "j") 9 hub_principal server

abbrev ann_disabled : Store rows_bolt
ann_disabled = record store {
  users = record { rows = (codes "ann", record ann { disabled = true }) ∷ []; seq = 0 };
}

ann-disabled : set_user_disabled rows_bolt (codes "ann") true store ≡ ok ann_disabled
unfolding set_user_disabled find place ◌==◌
ann-disabled = refl

bridge-found : find (codes "b") store.bindings.rows ≡ some bridge
unfolding find ◌==◌
bridge-found = refl

set_user_disabled-refused_example :
    (machine_principal rows_bolt ext (codes "b") (codes "secret") 9 ann_disabled).0 ≡ none
set_user_disabled-refused_example =
    (set_user_disabled-refused rows_bolt rows-BoltLaws ext (codes "ann") (codes "b")
      (codes "secret") (codes "key") 9 store ann_disabled bridge with_cookie ann_principal
      bridge-found refl ann-disabled).0

abbrev root : Principal
root = bootstrap_admin rows_bolt ext (codes "root")

abbrev enrollment : Response × Server rows_bolt
enrollment =
    handle_enroll rows_bolt ext (with_bearer []) (decoded (codes "t")) 9
      (some (codes "n", codes "s")) server

abbrev by_new_bridge : Request
by_new_bridge = with_bearer (codes "Bearer n.s")

enrollment-status : enrollment.0.status ≡ 200
unfolding handle_enroll trim_space trim_left trim_right strip space_width space_width_back
    redeem_enroll_token redeem find place ◌==◌ hash_secret get_user put_binding allow new_limiter
    client_ip
enrollment-status = refl

enrollment-rest : (enrollment.1.session_key ≡ none) × (enrollment.1.admin_token ≡ codes "root")
unfolding handle_enroll trim_space trim_left trim_right strip space_width space_width_back
    redeem_enroll_token redeem find place ◌==◌ hash_secret get_user put_binding allow new_limiter
    client_ip
enrollment-rest = (refl, refl)

new_bridge-key : key_from_request by_new_bridge ≡ codes "n.s"
unfolding key_from_request bearer_of after_prefix trim_space trim_left trim_right strip space_width
    space_width_back
new_bridge-key = refl

no_dot : occurs b'.' (codes "n") ≡ false
unfolding occurs
no_dot = refl

no_session :
    session_of rows_bolt ext by_new_bridge 10 enrollment.1.session_key enrollment.1.store ≡ none
no_session = rw enrollment-rest.0 refl

other_key : key_from_request by_new_bridge ≢ enrollment.1.admin_token
other_key h = cc (h, new_bridge-key, enrollment-rest.1)

handle_enroll-authenticates_example :
    (user : Text) × (p : Principal) × ((redeem_enroll_token rows_bolt
        (hash_secret ext (codes "t"))
        9
        server.store).0
      ≡ ok user)
    × ((authenticate rows_bolt ext by_new_bridge 10 enrollment.1).0 ≡ some p)
    × (p.kind ≡ user_bridge)
    × (p.user_id ≡ user)
    × (p.bridge_id ≡ codes "n")
    × (p.scopes ≡ codes "claim" ∷ [])
handle_enroll-authenticates_example =
    handle_enroll-authenticates rows_bolt rows-BoltLaws ext (with_bearer []) by_new_bridge
      (codes "t") (codes "n") (codes "s") 9 10 server enrollment.1 enrollment.0 refl
      enrollment-status (λ h. cc h) (λ h. cc h) no_dot new_bridge-key other_key no_session

abbrev no_cursor : Store rows_bolt
no_cursor = record store {
  settings = record { rows = (disabled_key, codes "cursor" ∷ []) ∷ []; seq = 0 };
}

abbrev cursor_report : BridgeCapabilities
cursor_report = record {
  version = [];
  hostname = codes "mac";
  backends =
      record {
        name = codes "cursor";
        installed = true;
        supported = true;
        ready = true;
        model = [];
        models = [];
        default_model = [];
        models_probed = false;
      }
      ∷ [];
}

abbrev reporting : Server rows_bolt
reporting = record server { q = report_capabilities (codes "ann") cursor_report 8 server.q }

abbrev cursor_off : Server rows_bolt
cursor_off = record reporting { store = some no_cursor }

cursor-off :
    admin_set_backend rows_bolt (decoded false) (codes " Cursor") reporting
    ≡ (write_json 200 (backend_body (codes "cursor") false), cursor_off)
unfolding admin_set_backend trim_space trim_left trim_right strip space_width space_width_back
    to_lower is_known_backend is_supported_backend update_store set_backend_enabled insert_name find
    place ◌==◌
cursor-off = refl

cursor-cursor : to_lower (trim_space (codes "cursor")) ≡ to_lower (trim_space (codes " Cursor"))
unfolding trim_space trim_left trim_right strip space_width space_width_back to_lower
cursor-cursor = refl

admin_set_backend-enforced_example :
    ((handle_enqueue rows_bolt (decoded hello) (codes "j") 9 hub_principal cursor_off).0.status
      ≢ 202)
    × Unlisted rows_bolt rows-BoltLaws
        (to_lower (trim_space (codes " Cursor")))
        (handle_get_capabilities rows_bolt for_ann 9 hub_principal cursor_off).body
    × UnlistedMe rows_bolt rows-BoltLaws
        (to_lower (trim_space (codes " Cursor")))
        (me rows_bolt ext cursor_off for_ann 9)
admin_set_backend-enforced_example =
    admin_set_backend-enforced rows_bolt rows-BoltLaws ext (codes " Cursor") (codes "j") 9 store
      reporting cursor_off (write_json 200 (backend_body (codes "cursor") false)) hello
      hub_principal for_ann refl cursor-off refl cursor-cursor

abbrev bea_claims : Claims
bea_claims = record { email = codes "bea@x"; name = []; hosted_domain = [] }

abbrev bea : User
bea = record {
  sub = codes "bea";
  email = codes "bea@x";
  display_name = [];
  role = role_user;
  disabled = false;
  created_at = 9;
}

abbrev with_bea : Store rows_bolt
with_bea = record store {
  users = record { rows = (codes "ann", ann) ∷ (codes "bea", bea) ∷ []; seq = 0 };
}

bea-in :
    handle_callback rows_bolt ext
      (codes "key")
      []
      (some (codes "keys"))
      (codes "s")
      (verified (codes "bea") bea_claims)
      9
      server
    ≡ (
      write_json 302 (redirect_body (codes "/") (session_value ext (codes "key") (codes "bea") 9)),
      record server { store = some with_bea },
    )
unfolding handle_callback verify_state upsert_user get_user count_users find place text_lt
    is_console_role ◌==◌
bea-in = refl

handle_callback-LoggedIn_example :
    (some (codes "keys") ≡ some (sign ext (codes "key") (codes "s")))
    × (codes "s" ≢ [])
    × LoggedIn rows_bolt rows-BoltLaws ext []
        (verified (codes "bea") bea_claims)
        9
        store
        (codes "ann")
        (record server { store = some with_bea })
handle_callback-LoggedIn_example =
    handle_callback-LoggedIn rows_bolt rows-BoltLaws ext (codes "key") [] (some (codes "keys"))
      (codes "s") (verified (codes "bea") bea_claims) 9 store (codes "ann") server
      (record server { store = some with_bea })
      (write_json 302 (redirect_body (codes "/") (session_value ext (codes "key") (codes "bea") 9)))
      refl bea-in refl
