-- ===== src/Server/TameServe.antt =====
-- relay/main.go: every call keeps a server tame.
use relayent.Base.{
  ℕ, Text, ◌==◌, not, ◌&&◌, sym, subst, Bool, true, false, List, [], ◌∷◌, Option, none, some,
}
use relayent.Strings.{trim_space}
use relayent.Security.Limiter.{Limiter, allow}
use relayent.Queue.Defs.{Queue, Claim, claimed, blocked, nothing, claim_start}
use relayent.Queue.Jobs.{set_result}
use relayent.Bolt.{Bolt, BoltLaws}
use relayent.Store.Records.{User, Principal, DemoHit, can, scope_demo_stats}
use relayent.Store.Users.{Result, ok, err, Store, get_user}
use relayent.Store.Credentials.{redeem_enroll_token}
use relayent.Server.Defs.{Externals, Request, Response, Decoded, Server, client_ip, hash_secret}
use relayent.Server.Auth.{authorize}
use relayent.Server.Broker.{
  handle_claim_next, claim_answer, handle_post_result, handle_cancel, resolve_read_target,
  handle_post_capabilities,
}
use relayent.Server.Enroll.{
  Credential, new_machine_credential, handle_enroll, enroll_enabled, enroll_limited, redeemed_token,
  enroll_user, bind, bound, binding_of,
}
use relayent.Server.Login.{
  Claims, Identity, not_exchanged, without_token, not_verified, not_readable, verified,
  state_matches, recorded_login, record_login, identified, handle_callback,
}
use relayent.Server.Demo.{DemoExternals, demo_ingest, hit_of}
use relayent.Server.DemoLaws.{SameStore, append_demo_hit-SameStore}
use relayent.Server.Serve.{
  Call, claim_call, read_call, callback_call, hit_call, or_no_job, read_answer, callback_answer,
  admin_call, enqueue_call, result_call, cancel_call, capabilities_call, enroll_call, scope_of,
  serve,
}
use relayent.Server.Scopes.{
  Tame, TameStore, TameResult, upsert_user-Tame, put_binding-Tame, redeem-Tame,
}
use relayent.Server.Tame.{TameServer, if-TameServer, decode-TameServer, appended-Tame}
use relayent.Server.TameAuth.{
  auth-Tame, handle_enqueue-Tame, result_answer-Tame, cancel_routed-Tame,
}
use relayent.Server.TameAdmin.{admin_handler-Tame}

module _ (bolt : Bolt) (laws : BoltLaws bolt) (ext : Externals) where
  bound-Tame :
      (now : ℕ) (user : Text) (u : User) (c : Credential) (o : Result (Store bolt))
      (s : Server bolt)
      → TameResult bolt laws o
      → TameServer bolt laws ext s
      → TameServer bolt laws ext (bound bolt ext now user u c o s).1
  unfolding TameResult
  bound-Tame now user u c (err e) s h t = t
  bound-Tame now user u c (ok st) s h t = appended-Tame bolt laws ext _ now (some st) h

  bind-Tame :
      (now : ℕ) (user : Text) (u : User) (c : Option Credential) (st : Store bolt) (s : Server bolt)
      → Tame bolt laws st.app_creds
      → TameServer bolt laws ext s
      → TameServer bolt laws ext (bind bolt ext now user u c st s).1
  bind-Tame now user u none st s h t = t
  bind-Tame now user u (some c) st s h t =
      bound-Tame now user u c _ s (put_binding-Tame bolt laws st h (binding_of bolt ext c user) now)
        t

  enroll_user-Tame :
      (now : ℕ) (user : Text) (drawn : Option (Text × Text)) (o : Result User) (st : Store bolt)
      (s : Server bolt)
      → Tame bolt laws st.app_creds
      → TameServer bolt laws ext s
      → TameServer bolt laws ext (enroll_user bolt ext now user drawn o st s).1
  enroll_user-Tame now user drawn (err e) st s h t = t
  enroll_user-Tame now user drawn (ok u) st s h t =
      if-TameServer bolt laws ext u.disabled _ _ t
        (bind-Tame now user u (new_machine_credential ext drawn) st s h t)

  redeemed_token-Tame :
      (now : ℕ) (drawn : Option (Text × Text)) (o : Result Text × Option (Store bolt))
      (s : Server bolt)
      → TameStore bolt laws o.1
      → TameServer bolt laws ext (redeemed_token bolt ext now drawn o s).1
  redeemed_token-Tame now drawn (err e, store) s h = h
  redeemed_token-Tame now drawn (ok user, none) s h = tt
  redeemed_token-Tame now drawn (ok user, some st) s h =
      enroll_user-Tame now user drawn (get_user bolt (some st) user) st
        (record s { store = some st }) h h

  redeem_enroll_token-Tame :
      (h : Text) (now : ℕ) (store : Option (Store bolt))
      → TameStore bolt laws store
      → TameStore bolt laws (redeem_enroll_token bolt h now store).1
  unfolding redeem_enroll_token
  redeem_enroll_token-Tame h now none t = tt
  redeem_enroll_token-Tame h now (some st) t = redeem-Tame bolt laws st t h now

  enroll_limited-Tame :
      (body : Decoded Text) (now : ℕ) (drawn : Option (Text × Text)) (o : Bool × Limiter)
      (s : Server bolt)
      → TameServer bolt laws ext s
      → TameServer bolt laws ext (enroll_limited bolt ext body now drawn o s).1
  enroll_limited-Tame body now drawn (false, l) s t = t
  enroll_limited-Tame body now drawn (true, l) s t =
      decode-TameServer bolt laws ext body (record s { auth_limit = l }) _ t
        (λ token. if-TameServer bolt laws ext (trim_space token == []) _ _ t (
          redeemed_token-Tame now drawn _ _
            (redeem_enroll_token-Tame (hash_secret ext token) now s.store t)))

  enroll_enabled-Tame :
      (r : Request) (body : Decoded Text) (now : ℕ) (drawn : Option (Text × Text))
      (o : Option (Store bolt)) (s : Server bolt)
      → TameServer bolt laws ext s
      → TameServer bolt laws ext (enroll_enabled bolt ext r body now drawn o s).1
  enroll_enabled-Tame r body now drawn none s t = t
  enroll_enabled-Tame r body now drawn (some st) s t =
      enroll_limited-Tame body now drawn (allow (client_ip ext s.trust_proxy r) now s.auth_limit) s
        t

  recorded_login-Tame :
      (key sub : Text) (now : ℕ) (o : Result (Store bolt)) (s : Server bolt)
      → TameResult bolt laws o
      → TameServer bolt laws ext s
      → TameServer bolt laws ext (recorded_login bolt ext key sub now o s).1
  unfolding TameResult
  recorded_login-Tame key sub now (err e) s h t = t
  recorded_login-Tame key sub now (ok st) s h t = h

  record_login-Tame :
      (key sub : Text) (claims : Claims) (now : ℕ) (store : Option (Store bolt)) (s : Server bolt)
      → TameStore bolt laws store
      → TameServer bolt laws ext s
      → TameServer bolt laws ext (record_login bolt ext key sub claims now store s).1
  record_login-Tame key sub claims now none s h t = t
  record_login-Tame key sub claims now (some st) s h t =
      recorded_login-Tame key sub now _ s (upsert_user-Tame bolt laws st h _ now) t

  identified-Tame :
      (key hosted : Text) (now : ℕ) (identity : Identity) (s : Server bolt)
      → TameServer bolt laws ext s
      → TameServer bolt laws ext (identified bolt ext key hosted now identity s).1
  identified-Tame key hosted now not_exchanged s t = t
  identified-Tame key hosted now without_token s t = t
  identified-Tame key hosted now not_verified s t = t
  identified-Tame key hosted now not_readable s t = t
  identified-Tame key hosted now (verified sub claims) s t =
      if-TameServer bolt laws ext (not (hosted == []) && not (claims.hosted_domain == hosted)) _ _ t
        (record_login-Tame key sub claims now s.store s t t)

  callback_answer-Tame :
      (hosted : Text) (cookie : Option Text) (state : Text) (identity : Identity) (now : ℕ)
      (key : Option Text) (s : Server bolt)
      → TameServer bolt laws ext s
      → TameServer bolt laws ext (callback_answer bolt ext hosted cookie state identity now key s).1
  unfolding handle_callback
  callback_answer-Tame hosted cookie state identity now none s t = t
  callback_answer-Tame hosted cookie state identity now (some key) s t =
      if-TameServer bolt laws ext (state_matches ext key cookie state) _ _
        (identified-Tame key hosted now identity s t) t

  SameStore-Tame :
      (d : DemoExternals) (key_n : bolt.Bucket DemoHit → bolt.Bucket DemoHit → ℕ)
      (o o' : Option (Store bolt))
      → SameStore bolt d key_n o o'
      → TameStore bolt laws o
      → TameStore bolt laws o'
  SameStore-Tame d key_n none none same t = tt
  SameStore-Tame d key_n (some s) none same t = tt
  SameStore-Tame d key_n none (some s') same t = elim same [ ]
  SameStore-Tame d key_n (some s) (some s') same t = subst (Tame bolt laws) (sym same.1) t

  claim_answer-Tame :
      (o : Claim × Queue) (s : Server bolt)
      → TameServer bolt laws ext s
      → TameServer bolt laws ext (or_no_job bolt ext (claim_answer bolt s o)).1
  claim_answer-Tame (claimed id job, q) s t = t
  claim_answer-Tame (blocked ch, q) s t = t
  claim_answer-Tame (nothing, q) s t = t

  read_answer-Tame :
      (scope : Option Text) (r : Request) (now : ℕ)
      (answer : Request → ℕ → Principal → Server bolt → Response) (s : Server bolt)
      → TameServer bolt laws ext s
      → TameServer bolt laws ext
          (read_answer bolt ext scope r now (λ p s'. (answer r now p s', s')) s).1
  unfolding authorize
  read_answer-Tame none r now answer s t = auth-Tame bolt laws ext r now _ s (λ p s' t'. t') t
  read_answer-Tame (some scope) r now answer s t =
      auth-Tame bolt laws ext r now _ s
        (λ p s' t'. if-TameServer bolt laws ext (can p scope) _ _ t' t') t

  pub serve-Tame :
      (c : Call bolt) (r : Request) (now : ℕ) (s : Server bolt)
      → TameServer bolt laws ext s
      → TameServer bolt laws ext (serve bolt ext c r now s).1
  unfolding serve authorize handle_claim_next demo_ingest handle_post_result handle_cancel
      handle_post_capabilities handle_enroll
  serve-Tame (admin_call c) r now s t =
      auth-Tame bolt laws ext r now _ s
        (λ p s' t'.
          if-TameServer bolt laws ext (can p (scope_of c)) _ _
            (admin_handler-Tame bolt laws ext c now p s' t') t')
        t
  serve-Tame (enqueue_call body id) r now s t =
      auth-Tame bolt laws ext r now _ s
        (λ p s' t'. handle_enqueue-Tame bolt laws ext body id now p s' t') t
  serve-Tame claim_call r now s t =
      auth-Tame bolt laws ext r now _ s
        (λ p s' t'. claim_answer-Tame (claim_start p.user_id now s'.q) s' t') t
  serve-Tame (read_call scope answer) r now s t = read_answer-Tame scope r now answer s t
  serve-Tame (callback_call hosted cookie state identity) r now s t =
      callback_answer-Tame hosted cookie state identity now s.session_key s t
  serve-Tame (hit_call d key_n body) r now s t =
      auth-Tame bolt laws ext r now _ s
        (λ p s' t'.
          if-TameServer bolt laws ext (can p scope_demo_stats) _ _
            (decode-TameServer bolt laws ext body s' _ t' (λ visit.
              SameStore-Tame d key_n s'.store _
                (append_demo_hit-SameStore bolt d key_n (hit_of d visit now) now s'.store) t'))
            t')
        t
  serve-Tame (result_call body id) r now s t =
      auth-Tame bolt laws ext r now _ s
        (λ p s' t'. decode-TameServer bolt laws ext body s' _ t' (λ res.
          result_answer-Tame bolt laws ext p id res now (set_result p.user_id id res s'.q) s' t'))
        t
  serve-Tame (cancel_call id) r now s t =
      auth-Tame bolt laws ext r now _ s
        (λ p s' t'. cancel_routed-Tame bolt laws ext id (resolve_read_target bolt p r s') s' t') t
  serve-Tame (capabilities_call body) r now s t =
      auth-Tame bolt laws ext r now _ s
        (λ p s' t'. decode-TameServer bolt laws ext body s' _ t' (λ caps. t')) t
  serve-Tame (enroll_call body drawn) r now s t = enroll_enabled-Tame r body now drawn s.store s t

  abbrev pub serve_all : List (Call bolt × Request × ℕ) → Server bolt → Server bolt
  serve_all [] s = s
  serve_all ((c, r, now) ∷ calls) s = serve_all calls (serve bolt ext c r now s).1

  pub serve_all-Tame :
      (calls : List (Call bolt × Request × ℕ)) (s : Server bolt)
      → TameServer bolt laws ext s
      → TameServer bolt laws ext (serve_all calls s)
  serve_all-Tame [] s t = t
  serve_all-Tame ((c, r, now) ∷ calls) s t =
      serve_all-Tame calls (serve bolt ext c r now s).1 (serve-Tame c r now s t)
