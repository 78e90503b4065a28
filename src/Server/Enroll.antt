-- ===== src/Server/Enroll.antt =====
-- relay/main.go and relay/security.go: machine credentials, and the handler that enrolls a bridge.
use relayent.Base.{
  ℕ, Text, ◌==◌, if◌then◌else◌, Bool, true, false, [], ◌∷◌, ◌++◌, Option, none, some,
}
use relayent.Strings.{trim_space}
use relayent.Security.Limiter.{Limiter, allow}
use relayent.Bolt.{Bolt}
use relayent.Store.Records.{User, BridgeBinding, AuditEvent, ev_enroll}
use relayent.Store.Users.{Result, ok, err, Store, get_user}
use relayent.Store.Credentials.{redeem_enroll_token, put_binding}
use relayent.Server.Defs.{
  Externals, Request, Decoded, decode_or, Response, Server, hash_secret, client_ip, write_err,
  write_json, enrolled_body, enrollment_off, too_many_attempts, token_required, bad_token,
  user_not_active, credential_not_issued, binding_not_recorded,
}
use relayent.Server.Broker.{appended, no_event}

pub record Credential : Type 0 where
  pub full : Text
  pub public_id : Text
  pub secret_hash : Text

module _ (ext : Externals) where
  -- From the two random halves, in base64; `none` when there was no randomness.
  abbrev pub new_machine_credential : Option (Text × Text) → Option Credential
  new_machine_credential none = none
  new_machine_credential (some (id, secret)) =
      some (record {
        full = id ++ b'.' ∷ secret;
        public_id = id;
        secret_hash = hash_secret ext secret;
      })

module _ (bolt : Bolt) (ext : Externals) where
  abbrev pub binding_of : Credential → Text → BridgeBinding
  binding_of c user = record {
    bridge_id = c.public_id;
    user_sub = user;
    cred_hash = c.secret_hash;
    enrolled_at = 0;
    last_seen = 0;
  }

  abbrev pub audit_enroll : Text → AuditEvent
  audit_enroll user = record (no_event ev_enroll) { actor_sub = user; target_sub = user }

  abbrev pub bound :
      ℕ → Text → User → Credential → Result (Store bolt) → Server bolt → Response × Server bolt
  bound now user u c (err e) s = (write_err 500 binding_not_recorded, s)
  bound now user u c (ok st) s = (
    write_json 200 (enrolled_body c.full u.email),
    record s { store = appended bolt (audit_enroll user) now (some st) },
  )

  abbrev pub bind :
      ℕ → Text → User → Option Credential → Store bolt → Server bolt → Response × Server bolt
  bind now user u none st s = (write_err 500 credential_not_issued, s)
  bind now user u (some c) st s = bound now user u c (put_binding bolt (binding_of c user) now st) s

  abbrev pub enroll_user :
      ℕ
      → Text
      → Option (Text × Text)
      → Result User
      → Store bolt
      → Server bolt
      → Response × Server bolt
  enroll_user now user drawn (err e) st s = (write_err 403 user_not_active, s)
  enroll_user now user drawn (ok u) st s =
      if u.disabled
      then (write_err 403 user_not_active, s)
      else bind now user u (new_machine_credential ext drawn) st s

  -- The store is the one that the redemption left.
  abbrev pub redeemed_token :
      ℕ
      → Option (Text × Text)
      → Result Text × Option (Store bolt)
      → Server bolt
      → Response × Server bolt
  redeemed_token now drawn (err e, store) s = (write_err 401 bad_token, record s { store = store })
  redeemed_token now drawn (ok user, none) s =
      (write_err 403 user_not_active, record s { store = none })
  redeemed_token now drawn (ok user, some st) s =
      enroll_user now user drawn (get_user bolt (some st) user) st (record s { store = some st })

  abbrev pub enroll_token : ℕ → Text → Option (Text × Text) → Server bolt → Response × Server bolt
  enroll_token now token drawn s =
      if trim_space token == []
      then (write_err 400 token_required, s)
      else redeemed_token now drawn (redeem_enroll_token bolt (hash_secret ext token) now s.store) s

  abbrev pub enroll_limited :
      Decoded Text
      → ℕ
      → Option (Text × Text)
      → Bool × Limiter
      → Server bolt
      → Response × Server bolt
  enroll_limited body now drawn (false, l) s =
      (write_err 429 too_many_attempts, record s { auth_limit = l })
  enroll_limited body now drawn (true, l) s =
      decode_or body (λ r. (r, record s { auth_limit = l }))
        (λ token. enroll_token now token drawn (record s { auth_limit = l }))

  abbrev pub enroll_enabled :
      Request
      → Decoded Text
      → ℕ
      → Option (Text × Text)
      → Option (Store bolt)
      → Server bolt
      → Response × Server bolt
  enroll_enabled r body now drawn none s = (write_err 404 enrollment_off, s)
  enroll_enabled r body now drawn (some st) s =
      enroll_limited body now drawn (allow (client_ip ext s.trust_proxy r) now s.auth_limit) s

  -- `drawn` are the random halves of the new credential.
  unfoldable pub handle_enroll :
      Request → Decoded Text → ℕ → Option (Text × Text) → Server bolt → Response × Server bolt
  handle_enroll r body now drawn s = enroll_enabled r body now drawn s.store s
