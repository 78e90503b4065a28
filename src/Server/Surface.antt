-- ===== src/Server/Surface.antt =====
-- relay/main.go, relay/principal.go: who reaches the admin console.
use relayent.Base.{Text, ◌==◌, ◌≡◌, refl, true, false, Bool-cases, inl, inr}
use relayent.Bolt.{Bolt, BoltLaws}
use relayent.Store.Records.{
  User, Principal, has_scope, scopes_for_role, role_admin, role_operator, role_viewer,
  scope_users_edit,
}
use relayent.Store.Users.{ok, Store, get_user}
use relayent.Server.Defs.{Externals, Server}
use relayent.Server.Serve.{AdminCall, scope_of}
use relayent.Server.Scopes.{Tame}

-- Of all roles, the administrator's and no other carries the scope to edit users.
pub scopes_for_role-users_edit :
    (role : Text) → has_scope scope_users_edit (scopes_for_role role) ≡ (role == role_admin)
unfolding scopes_for_role has_scope ◌==◌
scopes_for_role-users_edit role = elim (Bool-cases (role == role_admin)) [
  | inl y ↦ rw y refl
  | inr n ↦ elim (Bool-cases (role == role_operator)) [
    | inl y ↦ rw (n, y) refl
    | inr m ↦ elim (Bool-cases (role == role_viewer)) [
      | inl y ↦ rw (n, m, y) refl
      | inr k ↦ rw (n, m, k) refl
    ]
  ]
]

module _ (bolt : Bolt) (laws : BoltLaws bolt) (ext : Externals) where
  open bolt use {get}

  -- A human with a session: an enabled user whose present role has the scope.
  pub record Console (c : AdminCall) (p : Principal) (s : Server bolt) : Type 0 where
    pub user : User
    pub known : get_user bolt s.store p.user_id ≡ ok user
    pub enabled : user.disabled ≡ false
    pub allowed : has_scope (scope_of c) (scopes_for_role user.role) ≡ true
