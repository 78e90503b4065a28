-- ===== src/Store/Records.antt =====
-- relay/store.go and relay/principal.go: the records at rest, the roles and the scopes.
use relayent.Base.{ℕ, Text, codes, ◌==◌, ◌||◌, if◌then◌else◌, Bool, true, false, List, [], ◌∷◌}

-- A time is in nanoseconds; 0 is the zero time.
pub record User : Type 0 where
  pub sub : Text
  pub email : Text
  pub display_name : Text
  pub role : Text
  pub disabled : Bool
  pub created_at : ℕ

pub record AppCred : Type 0 where
  pub id : Text
  pub app_id : Text
  pub key_hash : Text
  pub scopes : List Text
  pub revoked : Bool
  pub created_at : ℕ

pub record BridgeBinding : Type 0 where
  pub bridge_id : Text
  pub user_sub : Text
  pub cred_hash : Text
  pub enrolled_at : ℕ
  pub last_seen : ℕ

pub record EnrollToken : Type 0 where
  pub user_sub : Text
  pub expires_at : ℕ
  pub redeemed_at : ℕ

-- EvEnqueue, EvResult and EvEnroll are the events that the relay writes; EvClaim, EvCancel and EvAdmin
-- are declared beside them.
pub data EventKind : Type 0 where
  ev_enqueue ev_claim ev_result ev_cancel ev_enroll ev_admin : EventKind

pub record AuditEvent : Type 0 where
  pub seq : ℕ
  pub ts : ℕ
  pub actor_sub : Text
  pub event : EventKind
  pub job_id : Text
  pub target_sub : Text
  pub backend : Text
  pub model : Text
  pub status : Text
  pub prompt_len : ℕ
  pub result_len : ℕ
  pub bridge_id : Text
  pub host : Text
  pub version : Text

-- relay/demostats.go: a visit of the demo, with no raw address.
pub record DemoHit : Type 0 where
  pub ts : ℕ
  pub country : Text
  pub referrer : Text
  pub utm_source : Text
  pub utm_medium : Text
  pub utm_campaign : Text
  pub device : Text
  pub browser : Text
  pub os : Text
  pub ip_hash : Text

abbrev pub role_admin : Text
role_admin = codes "admin"

abbrev pub role_operator : Text
role_operator = codes "operator"

abbrev pub role_viewer : Text
role_viewer = codes "viewer"

abbrev pub role_user : Text
role_user = codes "user"

unfoldable pub is_console_role : Text → Bool
is_console_role role = role == role_admin || (role == role_operator || role == role_viewer)

unfoldable pub is_role : Text → Bool
is_role role =
    role == role_admin || (role == role_operator || (role == role_viewer || role == role_user))

abbrev pub scope_enqueue : Text
scope_enqueue = codes "enqueue"

abbrev pub scope_claim : Text
scope_claim = codes "claim"

abbrev pub scope_admin : Text
scope_admin = codes "admin"

abbrev pub scope_admin_view : Text
scope_admin_view = codes "admin-view"

abbrev pub scope_users_edit : Text
scope_users_edit = codes "users-edit"

abbrev pub scope_creds_edit : Text
scope_creds_edit = codes "creds-edit"

abbrev pub scope_bridges_edit : Text
scope_bridges_edit = codes "bridges-edit"

abbrev pub scope_backends_edit : Text
scope_backends_edit = codes "backends-edit"

abbrev pub scope_demo_stats : Text
scope_demo_stats = codes "demo-stats"

unfoldable pub scopes_for_role : Text → List Text
scopes_for_role role =
    if role == role_admin
    then scope_admin ∷ scope_admin_view ∷ scope_users_edit ∷ scope_creds_edit ∷ scope_bridges_edit
      ∷ scope_backends_edit ∷ []
    else if role == role_operator
    then scope_admin_view ∷ scope_creds_edit ∷ scope_bridges_edit ∷ scope_backends_edit ∷ []
    else if role == role_viewer
    then scope_admin_view ∷ []
    else []

-- KindAdmin, KindUserBridge, KindApp, KindLegacy
pub data Kind : Type 0 where
  admin user_bridge app legacy : Kind

pub record Principal : Type 0 where
  pub user_id : Text
  pub kind : Kind
  pub scopes : List Text
  pub key_fp : Text
  pub bridge_id : Text

-- The loop of `Can`.
unfoldable pub has_scope : Text → List Text → Bool
has_scope scope [] = false
has_scope scope (s ∷ ss) = let rest = has_scope scope ss in if s == scope then true else rest

unfoldable pub can : Principal → Text → Bool
unfolding has_scope
can p scope = has_scope scope p.scopes

unfoldable pub legacy_principal : Text → Principal
legacy_principal key_fp = record {
  user_id = codes "legacy";
  kind = legacy;
  scopes = scope_enqueue ∷ scope_claim ∷ [];
  key_fp = key_fp;
  bridge_id = [];
}
