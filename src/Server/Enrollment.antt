-- ===== src/Server/Enrollment.antt =====
-- relay/main.go: the credential that a bridge gets when it enrolls, on its next requests.
use relayent.Base.{
  ℕ, Text, codes, ◌≡◌, ◌≢◌, refl, ap, sym, ◌∙◌, subst, false, [], ◌∷◌, ◌++◌, Option, none, some,
  arith, eq_refl, eq-false_of_ne,
}
use relayent.Strings.Split.{occurs, cut-append}
use relayent.Security.Keys.{check_key}
use relayent.Bolt.{Bolt, BoltLaws}
use relayent.Store.Records.{User, BridgeBinding, Principal, user_bridge}
use relayent.Store.Users.{Result, ok, or_io-ok, or_now, or_not_found, Store, get_user}
use relayent.Store.Credentials.{put_binding, get_binding, redeem_enroll_token}
use relayent.Store.Audit.{append}
use relayent.Server.Defs.{Externals, Request, decoded, Response, Server, verify_secret, hash_secret}
use relayent.Server.Auth.{
  settled, split_credential, key_from_request, session_of, machine_principal, authenticate_token,
  authenticate_bearer, authenticate, bridge_of,
}
use relayent.Server.Enroll.{binding_of, handle_enroll, audit_enroll}
use relayent.Server.Enrolled.{
  Enrolled, IfEnrolled, credential, append-settled, handle_enroll-Enrolled,
}

or_not_found-ok {ℓ} : {A : Type ℓ} (o : Option A) (a : A) → or_not_found o ≡ ok a → o ≡ some a
or_not_found-ok none a h = cc
or_not_found-ok (some b) a h = cc

cons_append : (s t : Text) → s ++ b'.' ∷ t ≢ []
cons_append [] t h = cc
cons_append (c ∷ s) t h = cc

module _ (bolt : Bolt) (laws : BoltLaws bolt) (ext : Externals) where
  open bolt use {Bucket, get, put, sequence, advance}
  open laws use {get-put}

  abbrev pub enrolled_binding : Text → Text → Text → ℕ → BridgeBinding
  enrolled_binding id secret user now = record {
    bridge_id = id;
    user_sub = user;
    cred_hash = hash_secret ext secret;
    enrolled_at = now;
    last_seen = 0;
  }

  put_binding-get :
      (b : BridgeBinding) (now : ℕ) (st st' : Store bolt)
      → put_binding bolt b now st ≡ ok st'
      → (get st'.bindings b.bridge_id ≡ some (record b { enrolled_at = or_now b.enrolled_at now }))
        × (st'.users ≡ st.users)
  unfolding put_binding
  put_binding-get b now st st' h =
      let rec = record b { enrolled_at = or_now b.enrolled_at now } in
      let (bindings, done, e) =
        or_io-ok (put b.bridge_id rec st.bindings) (λ bindings. record st { bindings = bindings })
          st' h in
      (
        ap (λ (t : Store bolt). get t.bindings b.bridge_id) (sym e)
            ∙ get-put b.bridge_id b.bridge_id rec st.bindings bindings done
            ∙ rw (eq_refl b.bridge_id) refl,
        ap (λ (t : Store bolt). t.users) (sym e),
      )

  -- A binding of an active user authenticates its secret.
  machine_principal-bridge :
      (id secret : Text) (now : ℕ) (st : Store bolt) (b : BridgeBinding) (u : User)
      → get st.bindings id ≡ some b
      → b.cred_hash ≡ hash_secret ext secret
      → get st.users b.user_sub ≡ some u
      → u.disabled ≡ false
      → (machine_principal bolt ext id secret now st).0 ≡ some (bridge_of bolt ext id b)
  unfolding machine_principal get_binding get_user verify_secret
  machine_principal-bridge id secret now st b u there h k d =
      rw there (ground (arith, h, k, d, eq_refl (hash_secret ext secret)))

  split_credential-full :
      (id secret : Text)
      → id ≢ []
      → secret ≢ []
      → occurs b'.' id ≡ false
      → split_credential (id ++ b'.' ∷ secret) ≡ some (id, secret)
  unfolding split_credential
  split_credential-full id secret ni ns dot =
      rw (cut-append b'.' id secret dot, eq-false_of_ne id [] ni, eq-false_of_ne secret [] ns) refl

  authenticate_token-machine :
      (bearer id secret : Text) (now : ℕ) (s : Server bolt) (st : Store bolt)
      (store : Option (Store bolt)) (parts : Option (Text × Text))
      → store ≡ some st
      → parts ≡ some (id, secret)
      → (authenticate_token bolt ext bearer now store parts s).0
        ≡ (machine_principal bolt ext id secret now st).0
  unfolding authenticate_token
  authenticate_token-machine bearer id secret now s st store parts a b = rw (a, b) refl

  -- A bearer that is a machine credential is looked up as one.
  authenticate-machine :
      (r : Request) (now : ℕ) (s : Server bolt) (st : Store bolt) (id secret : Text)
      → session_of bolt ext r now s.session_key s.store ≡ none
      → key_from_request r ≢ []
      → key_from_request r ≢ s.admin_token
      → s.store ≡ some st
      → split_credential (key_from_request r) ≡ some (id, secret)
      → (authenticate bolt ext r now s).0 ≡ (machine_principal bolt ext id secret now st).0
  unfolding authenticate authenticate_bearer check_key
  authenticate-machine r now s st id secret out some_key other store parts = ground (
    arith,
    out,
    eq-false_of_ne (key_from_request r) [] some_key,
    eq-false_of_ne (key_from_request r) s.admin_token other,
    authenticate_token-machine (key_from_request r) id secret now s st s.store
        (split_credential (key_from_request r)) store parts,
  )

  Enrolled-authenticates :
      (later : Request) (token id secret : Text) (now time : ℕ) (store : Option (Store bolt))
      (s' : Server bolt) (enrolled : Enrolled bolt ext token id secret now store s')
      → id ≢ []
      → secret ≢ []
      → occurs b'.' id ≡ false
      → key_from_request later ≡ id ++ b'.' ∷ secret
      → key_from_request later ≢ s'.admin_token
      → session_of bolt ext later time s'.session_key s'.store ≡ none
      → (authenticate bolt ext later time s').0
        ≡ some (bridge_of bolt ext id (enrolled_binding id secret enrolled.user now))
  unfolding get_user
  Enrolled-authenticates later token id secret now time store s' enrolled ni ns dot key other out =
      let st : Store bolt =
        settled bolt enrolled.bound_store
          (append bolt (audit_enroll bolt ext enrolled.user) now enrolled.bound_store) in
      let (bindings, users) =
        append-settled bolt ext (audit_enroll bolt ext enrolled.user) now enrolled.bound_store in
      let (bound_now, same_users) =
        put_binding-get (binding_of bolt ext (credential bolt ext id secret) enrolled.user) now
          enrolled.spent enrolled.bound_store enrolled.stored in
      let user : get st.users enrolled.user ≡ some enrolled.account =
        ap (λ b. get b enrolled.user) (users ∙ same_users)
        ∙ or_not_found-ok (get enrolled.spent.users enrolled.user) enrolled.account
            enrolled.known in
      let some_key : key_from_request later ≢ [] = λ e. cons_append id secret (sym key ∙ e) in
      authenticate-machine later time s' st id secret out some_key other enrolled.kept
        (ap split_credential key ∙ split_credential-full id secret ni ns dot)
      ∙ machine_principal-bridge id secret time st (enrolled_binding id secret enrolled.user now)
          enrolled.account (ap (λ b. get b id) bindings ∙ bound_now) refl user enrolled.enabled

  -- When an enrollment is answered with 200, the token was good for some user, and a later request whose
  -- bearer is the drawn credential is authenticated, as the bridge of that user, with the scope to claim
  -- and no other. (The drawn halves are not empty, the id has no dot, the credential is not the
  -- administrator's token, and the request carries no session.)
  pub handle_enroll-authenticates :
      (r later : Request) (token id secret : Text) (now time : ℕ) (s s' : Server bolt)
      (res : Response)
      → handle_enroll bolt ext r (decoded token) now (some (id, secret)) s ≡ (res, s')
      → res.status ≡ 200
      → id ≢ []
      → secret ≢ []
      → occurs b'.' id ≡ false
      → key_from_request later ≡ id ++ b'.' ∷ secret
      → key_from_request later ≢ s'.admin_token
      → session_of bolt ext later time s'.session_key s'.store ≡ none
      → (user : Text) × (p : Principal) × ((redeem_enroll_token bolt
            (hash_secret ext token)
            now
            s.store).0
          ≡ ok user)
        × ((authenticate bolt ext later time s').0 ≡ some p)
        × (p.kind ≡ user_bridge)
        × (p.user_id ≡ user)
        × (p.bridge_id ≡ id)
        × (p.scopes ≡ codes "claim" ∷ [])
  handle_enroll-authenticates r later token id secret now time s s' res h done ni ns dot key other
        out =
      let enrolled : Enrolled bolt ext token id secret now s.store s' =
        subst (IfEnrolled bolt ext token id secret now s.store) h
          (handle_enroll-Enrolled bolt ext r token id secret now s) done in
      (
        enrolled.user,
        bridge_of bolt ext id (enrolled_binding id secret enrolled.user now),
        ap (λ (o : Result Text × Option (Store bolt)). o.0) enrolled.redeemed,
        Enrolled-authenticates later token id secret now time s.store s' enrolled ni ns dot key
            other out,
        refl,
        refl,
        refl,
        refl,
      )
