-- ===== src/Store/Users.antt =====
-- relay/store.go: the store, its transactions and its methods on users. A write is what happens
-- inside its bbolt transaction; `update_store` adds the nil store, on which every method does nothing,
-- and the roll-back of a failed transaction.
use relayent.Base.{
  ◌≡◌, refl, ℕ, Text, ◌==◌, ◌==ℕ◌, ltb, if◌then◌else◌, Bool, List, [], ◌∷◌, Option, none, some,
  length,
}
use relayent.Bolt.{Bolt}
use relayent.Store.Records.{
  User, AppCred, BridgeBinding, EnrollToken, AuditEvent, DemoHit, is_role, role_user,
}

pub data StoreError : Type 0 where
  not_found invalid_role name_required token_used token_expired io_failure : StoreError

pub data Result {ℓ} (A : Type ℓ) : Type ℓ where
  ok : A → Result A
  err : StoreError → Result A

-- A bbolt write that may fail.
abbrev pub or_io {ℓ} : {A : Type ℓ} → Option A → Result A
or_io none = err io_failure
or_io (some a) = ok a

infixl 5 ◌>>=◌
abbrev pub ◌>>=◌ {ℓ κ} : {A : Type ℓ} {B : Type κ} → Result A → (A → Result B) → Result B
ok a >>= f = f a
err e >>= f = err e

-- A write that succeeded: its parts.
pub or_io-ok {ℓ κ} :
    {A : Type ℓ} {B : Type κ} (o : Option A) (f : A → B) (b : B)
    → (do a ← or_io o; ok (f a)) ≡ ok b
    → (a : A) × (o ≡ some a) × (f a ≡ b)
or_io-ok none f b h = cc
or_io-ok (some a) f b h = (a, refl, cc)

abbrev pub or_not_found {ℓ} : {A : Type ℓ} → Option A → Result A
or_not_found none = err not_found
or_not_found (some a) = ok a

abbrev pub or_default : Text → Text → Text
or_default role fallback = if role == [] then fallback else role

abbrev pub or_now : ℕ → ℕ → ℕ
or_now t now = if t ==ℕ 0 then now else t

-- An earlier record keeps its role and its time of creation.
abbrev pub merged : User → Option User → User
merged u none = u
merged u (some prev) = record u { role = prev.role; created_at = prev.created_at }

abbrev pub values {ℓ κ} : {A : Type ℓ} {B : Type κ} → (A → B) → List (Text × A) → List B
values f [] = []
values f ((k, v) ∷ rows) = f v ∷ values f rows

-- Newest first, by insertion.
unfoldable pub insert_user : User → List User → List User
insert_user u [] = u ∷ []
insert_user u (v ∷ vs) =
    let rest = insert_user u vs in if ltb u.created_at v.created_at then v ∷ rest else u ∷ v ∷ vs

unfoldable pub sort_users : List User → List User
unfolding insert_user
sort_users [] = []
sort_users (u ∷ us) = insert_user u (sort_users us)

module _ (bolt : Bolt) where
  open bolt use {Bucket, empty, get, put, delete, entries, sequence, advance}

  pub record Store : Type 0 where
    pub users : Bucket User
    pub app_creds : Bucket AppCred
    pub enroll_tokens : Bucket EnrollToken
    pub bindings : Bucket BridgeBinding
    pub audit : Bucket AuditEvent
    pub settings : Bucket (List Text)
    pub demo_hits : Bucket DemoHit

  -- A new database with its buckets.
  unfoldable pub open_store : Store
  open_store = record {
    users = empty User;
    app_creds = empty AppCred;
    enroll_tokens = empty EnrollToken;
    bindings = empty BridgeBinding;
    audit = empty AuditEvent;
    settings = empty (List Text);
    demo_hits = empty DemoHit;
  }

  -- s.db.Update on a store that may be nil: the error, if any, and the store afterwards.
  abbrev pub settle : Store → Result Store → Option StoreError × Option Store
  settle s (ok s') = (none, some s')
  settle s (err e) = (some e, some s)

  unfoldable pub update_store :
      (Store → Result Store) → Option Store → Option StoreError × Option Store
  update_store f none = (none, none)
  update_store f (some s) = settle s (f s)

  abbrev pub put_user : User → Store → Result Store
  put_user u s = do users ← or_io (put u.sub u s.users); ok (record s { users = users })

  unfoldable pub upsert_user : User → ℕ → Store → Result Store
  upsert_user u now s =
      let m = merged (record u { role = or_default u.role role_user }) (get s.users u.sub) in
      put_user (record m { created_at = or_now m.created_at now }) s

  unfoldable pub get_user : Option Store → Text → Result User
  get_user none sub = err not_found
  get_user (some s) sub = or_not_found (get s.users sub)

  unfoldable pub list_users : Option Store → List User
  unfolding sort_users
  list_users none = []
  list_users (some s) = sort_users (values (λ u. u) (entries s.users))

  unfoldable pub count_users : Option Store → ℕ
  count_users none = 0
  count_users (some s) = length (entries s.users)

  unfoldable pub set_user_disabled : Text → Bool → Store → Result Store
  set_user_disabled sub disabled s = do
    u ← or_not_found (get s.users sub)
    users ← or_io (put sub (record u { disabled = disabled }) s.users)
    ok (record s { users = users })

  unfoldable pub set_user_role : Text → Text → Store → Result Store
  set_user_role sub role s =
      if is_role role
      then (do
        u ← or_not_found (get s.users sub)
        users ← or_io (put sub (record u { role = role }) s.users)
        ok (record s { users = users }))
      else err invalid_role

  unfoldable pub delete_user : Text → Store → Result Store
  delete_user sub s = do
    u ← or_not_found (get s.users sub)
    users ← or_io (delete sub s.users)
    ok (record s { users = users })
