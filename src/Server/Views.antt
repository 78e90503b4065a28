-- ===== src/Server/Views.antt =====
-- relay/me.go, status of relay/main.go, and the lists of relay/admin.go: the answers without effects.
use relayent.Base.{
  ℕ, ◌+◌, ◌-◌, ◌/◌, Text, codes, ◌==◌, ◌==ℕ◌, ◌&&◌, ◌||◌, not, ltb, if◌then◌else◌, Bool, true,
  false, List, [], ◌∷◌, Option, none, some, length,
}
use relayent.Api.{BackendInfo, BridgeCapabilities}
use relayent.Strings.{to_lower}
use relayent.Queue.Jobs.{capabilities, bridge_online, pending_count}
use relayent.Security.Keys.{is_empty, is_retiring}
use relayent.Security.Sanitize.{known_backend_list, is_supported_backend}
use relayent.Bolt.{Bolt}
use relayent.Store.Records.{User, BridgeBinding, AuditEvent, Principal, legacy}
use relayent.Store.Users.{Store, Result, ok, err, get_user, list_users}
use relayent.Store.Credentials.{list_bindings_for_user}
use relayent.Store.Audit.{disabled_backends, has_name, insert_name, recent_audit}
use relayent.Server.Defs.{Externals, Request, Server}
use relayent.Server.Auth.{principal_from_session, key_from_request}
use relayent.Server.Broker.{filter_disabled_backends}

-- MeResponse; a time of 0 is written as an empty text.
pub record MeResponse : Type 0 where
  pub sub : Text
  pub email : Text
  pub display_name : Text
  pub bridge_online : Bool
  pub pending_jobs : ℕ
  pub capabilities : BridgeCapabilities
  pub reported_at : ℕ

pub data Me : Type 0 where
  not_available sign_in_required : Me
  own_status : MeResponse → Me

-- StatusResponse
pub record StatusResponse : Type 0 where
  pub uptime_seconds : ℕ
  pub bridge_online : Bool
  pub pending_jobs : ℕ
  pub require_pairing : Bool
  pub key_fingerprint : Text
  pub tls : Bool
  pub network_reachable : Bool
  pub key_retiring : Bool
  pub rotation_active : Bool

-- AdminBridge, AdminUser
pub record AdminBridge : Type 0 where
  pub bridge_id : Text
  pub enrolled_at : ℕ
  pub last_seen : ℕ

pub record AdminUser : Type 0 where
  pub sub : Text
  pub email : Text
  pub display_name : Text
  pub role : Text
  pub disabled : Bool
  pub bridge_online : Bool
  pub pending_jobs : ℕ
  pub bridges : ℕ
  pub bridge_host : Text
  pub bridge_version : Text
  pub bridge_reported_at : ℕ

-- AdminBackend
pub record AdminBackend : Type 0 where
  pub name : Text
  pub enabled : Bool
  pub supported : Bool
  pub reporting_bridges : ℕ
  pub installed_bridges : ℕ
  pub ready_bridges : ℕ
  pub hosts : List Text

-- The counts of adminListBackends for one backend.
pub record Rollup : Type 0 where
  pub reporting : ℕ
  pub installed : ℕ
  pub ready : ℕ
  pub hosts : List Text

abbrev pub one_if : Bool → ℕ
one_if b = if b then 1 else 0

-- The two inner loops, for the entry of one name in the map: the entries of the names are independent.
abbrev pub count_report : Text → BackendInfo → Rollup → Rollup
count_report host b r = record {
  reporting = r.reporting + 1;
  installed = r.installed + one_if b.installed;
  ready = r.ready + one_if b.ready;
  hosts = if host == [] then r.hosts else insert_name host r.hosts;
}

unfoldable pub roll_backends : Text → Text → List BackendInfo → Rollup → Rollup
roll_backends name host [] r = r
roll_backends name host (b ∷ bs) r =
    roll_backends name host bs (if b.name == name then count_report host b r else r)

abbrev pub roll_report : Text → BridgeCapabilities × ℕ × Bool → Rollup → Rollup
roll_report name (caps, reported_at, online) r =
    if reported_at ==ℕ 0 then r else roll_backends name caps.hostname caps.backends r

unfoldable pub roll_users : Text → List (BridgeCapabilities × ℕ × Bool) → Rollup → Rollup
unfolding roll_backends
roll_users name [] r = r
roll_users name (report ∷ reports) r = roll_users name reports (roll_report name report r)

abbrev pub no_rollup : Rollup
no_rollup = record { reporting = 0; installed = 0; ready = 0; hosts = [] }

unfoldable pub latest_report : List (BridgeCapabilities × ℕ × Bool) → ℕ
latest_report [] = 0
latest_report ((caps, at, online) ∷ reports) =
    let later = latest_report reports in if ltb later at then at else later

abbrev pub backend_row : List Text → List (BridgeCapabilities × ℕ × Bool) → Text → AdminBackend
backend_row disabled reports name =
    let r = roll_users name reports no_rollup in
    record {
      name = name;
      enabled = not (has_name name disabled);
      supported = is_supported_backend name;
      reporting_bridges = r.reporting;
      installed_bridges = r.installed;
      ready_bridges = r.ready;
      hosts = r.hosts;
    }

unfoldable pub backend_rows :
    List Text → List (BridgeCapabilities × ℕ × Bool) → List Text → List AdminBackend
unfolding roll_users
backend_rows disabled reports [] = []
backend_rows disabled reports (name ∷ names) =
    backend_row disabled reports name ∷ backend_rows disabled reports names

module _ (bolt : Bolt) (ext : Externals) where
  abbrev pub named : Result User → MeResponse → MeResponse
  named (err e) m = m
  named (ok u) m = record m { email = u.email; display_name = u.display_name }

  abbrev pub described : Server bolt → BridgeCapabilities × ℕ × Bool → MeResponse → MeResponse
  described s (caps, reported_at, online) m = record m {
    capabilities = record caps { backends = filter_disabled_backends bolt s caps.backends };
    reported_at = reported_at;
  }

  abbrev pub own : Server bolt → ℕ → Text → MeResponse
  own s now sub = described s (capabilities sub now s.q) (
      named (get_user bolt s.store sub) (record {
        sub = sub;
        email = [];
        display_name = [];
        bridge_online = bridge_online sub now s.q;
        pending_jobs = pending_count sub s.q;
        capabilities = record { version = []; hostname = []; backends = [] };
        reported_at = 0;
      }))

  abbrev pub of_session : Server bolt → ℕ → Option Principal → Me
  of_session s now none = sign_in_required
  of_session s now (some p) = own_status (own s now p.user_id)

  -- me: from the session only
  abbrev pub with_session : Server bolt → Request → ℕ → Option (Store bolt) → Option Text → Me
  with_session s r now none key = not_available
  with_session s r now (some store) none = not_available
  with_session s r now (some store) (some key) =
      of_session s now (principal_from_session bolt ext key now (some store) r)

  unfoldable pub me : Server bolt → Request → ℕ → Me
  me s r now = with_session s r now s.store s.session_key

  -- requestIsTLS; the connection's own encryption and the forwarded protocol are arguments.
  unfoldable pub request_is_tls : Server bolt → Bool → Text → Bool
  request_is_tls s encrypted forwarded_proto =
      encrypted || (s.trust_proxy && to_lower forwarded_proto == codes "https")

  abbrev pub is_legacy : Principal → Bool
  is_legacy p = elim p.kind [ legacy ↦ true | _ ↦ false ]

  abbrev pub no_retiring : List Text → Bool
  no_retiring [] = true
  no_retiring (k ∷ ks) = false

  -- status
  unfoldable pub status : Request → ℕ → ℕ → Bool → Bool → Principal → Server bolt → StatusResponse
  status r now started_at tls reachable p s =
      let key = key_from_request r in
      let legacy_keys = is_legacy p && not (is_empty s.keys) in
      record {
        uptime_seconds = (now - started_at) / 1_000_000_000;
        bridge_online = bridge_online p.user_id now s.q;
        pending_jobs = pending_count p.user_id s.q;
        require_pairing = not (is_empty s.keys);
        key_fingerprint = p.key_fp;
        tls = tls;
        network_reachable = reachable;
        key_retiring = legacy_keys && (not (key == []) && is_retiring s.keys key);
        rotation_active = legacy_keys && not (no_retiring s.keys.retiring);
      }

  abbrev pub with_host : BridgeCapabilities × ℕ × Bool → AdminUser → AdminUser
  with_host (caps, reported_at, online) u = if reported_at ==ℕ 0 then u else record u {
    bridge_host = caps.hostname;
    bridge_version = caps.version;
    bridge_reported_at = reported_at;
  }

  abbrev pub user_row : Server bolt → ℕ → User → AdminUser
  user_row s now u = with_host (capabilities u.sub now s.q) (record {
    sub = u.sub;
    email = u.email;
    display_name = u.display_name;
    role = u.role;
    disabled = u.disabled;
    bridge_online = bridge_online u.sub now s.q;
    pending_jobs = pending_count u.sub s.q;
    bridges = length (list_bindings_for_user bolt s.store u.sub);
    bridge_host = [];
    bridge_version = [];
    bridge_reported_at = 0;
  })

  unfoldable pub user_rows : Server bolt → ℕ → List User → List AdminUser
  user_rows s now [] = []
  user_rows s now (u ∷ us) = user_row s now u ∷ user_rows s now us

  -- adminListUsers
  unfoldable pub admin_list_users : Server bolt → ℕ → List AdminUser
  unfolding user_rows
  admin_list_users s now = user_rows s now (list_users bolt s.store)

  unfoldable pub bridge_rows : List BridgeBinding → List AdminBridge
  bridge_rows [] = []
  bridge_rows (b ∷ bs) =
      record { bridge_id = b.bridge_id; enrolled_at = b.enrolled_at; last_seen = b.last_seen }
      ∷ bridge_rows bs

  -- adminListUserBridges
  unfoldable pub admin_list_user_bridges : Text → Server bolt → List AdminBridge
  unfolding bridge_rows
  admin_list_user_bridges sub s = bridge_rows (list_bindings_for_user bolt s.store sub)

  unfoldable pub reports_of : Server bolt → ℕ → List User → List (BridgeCapabilities × ℕ × Bool)
  reports_of s now [] = []
  reports_of s now (u ∷ us) = capabilities u.sub now s.q ∷ reports_of s now us

  -- adminListBackends: the rows and the time of the latest report
  unfoldable pub admin_list_backends : Server bolt → ℕ → List AdminBackend × ℕ
  unfolding reports_of backend_rows latest_report
  admin_list_backends s now =
      let reports = reports_of s now (list_users bolt s.store) in
      (
        backend_rows (disabled_backends bolt s.store) reports known_backend_list,
        latest_report reports,
      )

  -- adminAudit
  abbrev pub limit_of : Text → ℕ
  limit_of limit =
      if limit == [] then 0 else elim (ext.parse_number limit) [ none ↦ 0 | some n ↦ n ]

  unfoldable pub admin_audit : Text → Text → Server bolt → List AuditEvent
  admin_audit user limit s = recent_audit bolt s.store user (limit_of limit)
