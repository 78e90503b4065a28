-- ===== src/Store/Credentials.antt =====
-- relay/store.go: app credentials, bridge bindings and enrollment tokens.
use relayent.Base.{
  ℕ, Text, ◌==◌, ◌==ℕ◌, ltb, not, if◌then◌else◌, true, List, [], Option, none, some, keep,
}
use relayent.Bolt.{Bolt}
use relayent.Store.Records.{AppCred, BridgeBinding, EnrollToken}
use relayent.Store.Users.{
  not_found, token_used, token_expired, Result, ok, err, ◌>>=◌, or_io, or_not_found, or_now, values,
  Store,
}

-- The record without its hash, as the admin surface shows it.
abbrev hide_hash : AppCred → AppCred
hide_hash c = record c { key_hash = [] }

module _ (bolt : Bolt) where
  open bolt use {get, put, delete, entries}

  unfoldable pub put_app_cred : AppCred → ℕ → Store bolt → Result (Store bolt)
  put_app_cred c now s = do
    creds ← or_io (put c.id (record c { created_at = or_now c.created_at now }) s.app_creds)
    ok (record s { app_creds = creds })

  unfoldable pub get_app_cred : Option (Store bolt) → Text → Result AppCred
  get_app_cred none id = err not_found
  get_app_cred (some s) id = or_not_found (get s.app_creds id)

  unfoldable pub list_app_creds : Option (Store bolt) → List AppCred
  list_app_creds none = []
  list_app_creds (some s) = values hide_hash (entries s.app_creds)

  unfoldable pub revoke_app_cred : Text → Store bolt → Result (Store bolt)
  revoke_app_cred id s = do
    c ← or_not_found (get s.app_creds id)
    creds ← or_io (put id (record c { revoked = true }) s.app_creds)
    ok (record s { app_creds = creds })

  unfoldable pub delete_app_cred : Text → Store bolt → Result (Store bolt)
  delete_app_cred id s = do
    c ← or_not_found (get s.app_creds id)
    creds ← or_io (delete id s.app_creds)
    ok (record s { app_creds = creds })

  unfoldable pub put_binding : BridgeBinding → ℕ → Store bolt → Result (Store bolt)
  put_binding b now s = do
    bindings ←
        or_io (put b.bridge_id (record b { enrolled_at = or_now b.enrolled_at now }) s.bindings)
    ok (record s { bindings = bindings })

  unfoldable pub get_binding : Option (Store bolt) → Text → Result BridgeBinding
  get_binding none id = err not_found
  get_binding (some s) id = or_not_found (get s.bindings id)

  abbrev pub touch : Text → ℕ → Option BridgeBinding → Store bolt → Result (Store bolt)
  touch id now none s = ok s
  touch id now (some b) s = do
    bindings ← or_io (put id (record b { last_seen = now }) s.bindings)
    ok (record s { bindings = bindings })

  -- An unknown bridge is no error.
  unfoldable pub touch_binding : Text → ℕ → Store bolt → Result (Store bolt)
  touch_binding id now s = touch id now (get s.bindings id) s

  unfoldable pub list_bindings_for_user : Option (Store bolt) → Text → List BridgeBinding
  list_bindings_for_user none sub = []
  list_bindings_for_user (some s) sub =
      keep (λ b. b.user_sub == sub) (values (λ b. b) (entries s.bindings))

  unfoldable pub delete_binding : Text → Store bolt → Result (Store bolt)
  delete_binding id s = do
    b ← or_not_found (get s.bindings id)
    bindings ← or_io (delete id s.bindings)
    ok (record s { bindings = bindings })

  unfoldable pub put_enroll_token : Text → EnrollToken → Store bolt → Result (Store bolt)
  put_enroll_token token_hash tok s = do
    tokens ← or_io (put token_hash tok s.enroll_tokens)
    ok (record s { enroll_tokens = tokens })

  -- The transaction of `RedeemEnrollToken`: the bound user and the store afterwards.
  unfoldable pub redeem : Text → ℕ → Store bolt → Result (Text × Store bolt)
  redeem token_hash now s = do
    tok ← or_not_found (get s.enroll_tokens token_hash)
    if not (tok.redeemed_at ==ℕ 0)
        then err token_used
        else if ltb tok.expires_at now
        then err token_expired
        else (do
          tokens ← or_io (put token_hash (record tok { redeemed_at = now }) s.enroll_tokens)
          ok (tok.user_sub, record s { enroll_tokens = tokens }))

  abbrev pub redeemed : Store bolt → Result (Text × Store bolt) → Result Text × Option (Store bolt)
  redeemed s (ok (user, s')) = (ok user, some s')
  redeemed s (err e) = (err e, some s)

  unfoldable pub redeem_enroll_token :
      Text → ℕ → Option (Store bolt) → Result Text × Option (Store bolt)
  unfolding redeem
  redeem_enroll_token token_hash now none = (err not_found, none)
  redeem_enroll_token token_hash now (some s) = redeemed s (redeem token_hash now s)
