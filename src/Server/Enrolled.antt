-- ===== src/Server/Enrolled.antt =====
-- relay/main.go: what an enrollment that is answered with 200 has done.
use relayent.Base.{
  ℕ, Text, ◌==◌, ◌≡◌, refl, Bool, true, false, [], ◌∷◌, ◌++◌, Option, none, some, arith, Bool-cases,
  inl, inr,
}
use relayent.Strings.{trim_space}
use relayent.Security.Limiter.{Limiter, allow}
use relayent.Bolt.{Bolt}
use relayent.Store.Records.{User, AuditEvent}
use relayent.Store.Users.{Result, ok, err, ◌>>=◌, or_io, Store, get_user}
use relayent.Store.Credentials.{put_binding, redeem_enroll_token}
use relayent.Store.Audit.{append}
use relayent.Server.Defs.{Externals, Request, decoded, Response, Server, hash_secret, client_ip}
use relayent.Server.Auth.{settled}
use relayent.Server.Broker.{appended}
use relayent.Server.Enroll.{
  Credential, binding_of, bound, enroll_user, redeemed_token, enroll_limited, enroll_enabled,
  handle_enroll, audit_enroll,
}

no_answer {ℓ} : {A : Type ℓ} → ⊥ → A
no_answer h = elim h [ ]

module _ (bolt : Bolt) (ext : Externals) where
  open bolt use {Bucket}

  -- What a successful enrollment with these random halves has done.
  pub record Enrolled (token id secret : Text) (now : ℕ) (store : Option (Store bolt))
      (s' : Server bolt) : Type 0 where
    pub user : Text
    pub account : User
    pub spent : Store bolt
    pub bound_store : Store bolt
    pub redeemed :
        redeem_enroll_token bolt (hash_secret ext token) now store ≡ (ok user, some spent)
    pub known : get_user bolt (some spent) user ≡ ok account
    pub enabled : account.disabled ≡ false
    pub stored :
        put_binding bolt
          (record {
            bridge_id = id;
            user_sub = user;
            cred_hash = hash_secret ext secret;
            enrolled_at = 0;
            last_seen = 0;
          })
          now
          spent
        ≡ ok bound_store
    pub kept : s'.store ≡ appended bolt (audit_enroll bolt ext user) now (some bound_store)

  -- The audit log is a bucket of its own.
  settled-audit :
      (st : Store bolt) (o : Option (Bucket AuditEvent))
      → let st' = settled bolt st (do audit ← or_io o; ok (record st { audit = audit })) in
        (st'.bindings ≡ st.bindings) × (st'.users ≡ st.users)
  settled-audit st none = (refl, refl)
  settled-audit st (some log) = (refl, refl)

  pub append-settled :
      (e : AuditEvent) (now : ℕ) (st : Store bolt)
      → ((settled bolt st (append bolt e now st)).bindings ≡ st.bindings)
        × ((settled bolt st (append bolt e now st)).users ≡ st.users)
  unfolding append
  append-settled e now st = settled-audit st _

  -- A response of 200 comes with the traces of an enrollment.
  abbrev pub IfEnrolled :
      Text → Text → Text → ℕ → Option (Store bolt) → Response × Server bolt → Type 0
  IfEnrolled token id secret now store (res, s') =
      res.status ≡ 200 → Enrolled token id secret now store s'

  abbrev pub credential : Text → Text → Credential
  credential id secret = record {
    full = id ++ b'.' ∷ secret;
    public_id = id;
    secret_hash = hash_secret ext secret;
  }

  bound-Enrolled :
      (token id secret : Text) (now : ℕ) (store : Option (Store bolt)) (user : Text) (u : User)
      (spent : Store bolt) (s : Server bolt) (o : Result (Store bolt))
      → redeem_enroll_token bolt (hash_secret ext token) now store ≡ (ok user, some spent)
      → get_user bolt (some spent) user ≡ ok u
      → u.disabled ≡ false
      → put_binding bolt (binding_of bolt ext (credential id secret) user) now spent ≡ o
      → IfEnrolled token id secret now store (bound bolt ext now user u (credential id secret) o s)
  bound-Enrolled token id secret now store user u spent s (err e) r k d p h =
      no_answer (omega (arith, h))
  bound-Enrolled token id secret now store user u spent s (ok st) r k d p h = record {
    user = user;
    account = u;
    spent = spent;
    bound_store = st;
    redeemed = r;
    known = k;
    enabled = d;
    stored = p;
    kept = refl;
  }

  user-Enrolled :
      (token id secret : Text) (now : ℕ) (store : Option (Store bolt)) (user : Text)
      (spent : Store bolt) (s : Server bolt) (o : Result User)
      → redeem_enroll_token bolt (hash_secret ext token) now store ≡ (ok user, some spent)
      → get_user bolt (some spent) user ≡ o
      → IfEnrolled token id secret now store
          (enroll_user bolt ext now user (some (id, secret)) o spent s)
  user-Enrolled token id secret now store user spent s (err e) r k =
      λ h. no_answer (omega (arith, h))
  user-Enrolled token id secret now store user spent s (ok u) r k = elim (Bool-cases u.disabled) [
    | inl y ↦ rw y (λ h. no_answer (omega (arith, h)))
    | inr n ↦ rw n (bound-Enrolled token id secret now store user u spent s _ r k n refl)
  ]

  token-Enrolled :
      (token id secret : Text) (now : ℕ) (store : Option (Store bolt)) (s : Server bolt)
      (o : Result Text × Option (Store bolt))
      → redeem_enroll_token bolt (hash_secret ext token) now store ≡ o
      → IfEnrolled token id secret now store (redeemed_token bolt ext now (some (id, secret)) o s)
  token-Enrolled token id secret now store s (err e, st) r h = no_answer (omega (arith, h))
  token-Enrolled token id secret now store s (ok user, none) r h = no_answer (omega (arith, h))
  token-Enrolled token id secret now store s (ok user, some spent) r h =
      user-Enrolled token id secret now store user spent (record s { store = some spent })
        (get_user bolt (some spent) user) r refl h

  limited-Enrolled :
      (token id secret : Text) (now : ℕ) (s : Server bolt) (o : Bool × Limiter)
      → IfEnrolled token id secret now s.store
          (enroll_limited bolt ext (decoded token) now (some (id, secret)) o s)
  limited-Enrolled token id secret now s (false, l) = λ h. no_answer (omega (arith, h))
  limited-Enrolled token id secret now s (true, l) = elim (Bool-cases (trim_space token == [])) [
    | inl y ↦ rw y (λ h. no_answer (omega (arith, h)))
    | inr n ↦ rw n (
        token-Enrolled token id secret now s.store (record s { auth_limit = l })
          (redeem_enroll_token bolt (hash_secret ext token) now s.store) refl)
  ]

  enabled-Enrolled :
      (r : Request) (token id secret : Text) (now : ℕ) (s : Server bolt) (o : Option (Store bolt))
      → IfEnrolled token id secret now s.store
          (enroll_enabled bolt ext r (decoded token) now (some (id, secret)) o s)
  enabled-Enrolled r token id secret now s none h = no_answer (omega (arith, h))
  enabled-Enrolled r token id secret now s (some st) h =
      limited-Enrolled token id secret now s
        (allow (client_ip ext s.trust_proxy r) now s.auth_limit) h

  pub handle_enroll-Enrolled :
      (r : Request) (token id secret : Text) (now : ℕ) (s : Server bolt)
      → IfEnrolled token id secret now s.store
          (handle_enroll bolt ext r (decoded token) now (some (id, secret)) s)
  unfolding handle_enroll
  handle_enroll-Enrolled r token id secret now s = enabled-Enrolled r token id secret now s s.store
