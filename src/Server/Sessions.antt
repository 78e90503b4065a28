-- ===== src/Server/Sessions.antt =====
-- relay/oidc.go: the session cookie that a login sets, when a later request presents it.
use relayent.Base.{
  ℕ, Text, ◌==◌, ltb, ◌≡◌, refl, subst, false, Option, some, arith, eq_iff, Bool-cases,
  Option-cases, inl, inr,
}
use relayent.Strings.{cut}
use relayent.Strings.Split.{occurs}
use relayent.Bolt.{Bolt}
use relayent.Store.Records.{User, Principal, scopes_for_role}
use relayent.Store.Users.{Result, ok, err, Store, get_user}
use relayent.Server.Defs.{Externals, Request}
use relayent.Server.Auth.{session_user, session_payload, principal_from_session, sign, unix}

module _ (ext : Externals) where
  -- What is documented of base64.RawURLEncoding and of fmt: what was written is read back, and the
  -- alphabet of base64 has no '|'.
  pub record Readable : Type 0 where
    pub decode-encode : (t : Text) → ext.decode64 (ext.encode64 t) ≡ some t
    pub encode-plain : (t : Text) → occurs b'|' (ext.encode64 t) ≡ false
    pub scan-show : (n : ℕ) → ext.scan_number (ext.show_number n) ≡ some n

  module _ (bolt : Bolt) where
    -- What a cookie that is accepted looks like.
    pub record Signed (session_key : Text) (now : ℕ) (store : Option (Store bolt)) (value : Text)
        (p : Principal) : Type 0 where
      pub b64 : Text
      pub payload : Text
      pub exp_text : Text
      pub exp : ℕ
      pub user : User
      pub value-cut : cut b'|' value ≡ some (b64, sign ext session_key payload)
      pub b64-payload : ext.decode64 b64 ≡ some payload
      pub payload-cut : cut b'|' payload ≡ some (p.user_id, exp_text)
      pub exp-scan : ext.scan_number exp_text ≡ some exp
      pub not-expired : ltb exp (unix now) ≡ false
      pub known : get_user bolt store p.user_id ≡ ok user
      pub enabled : user.disabled ≡ false
      pub role-scopes : p.scopes ≡ scopes_for_role user.role

    session_user-inversion :
        (sub : Text) (store : Option (Store bolt)) (p : Principal) (res : Result User)
        → get_user bolt store sub ≡ res
        → session_user bolt ext sub res ≡ some p
        → (u : User) × (sub ≡ p.user_id)
          × (get_user bolt store p.user_id ≡ ok u)
          × (u.disabled ≡ false)
          × (p.scopes ≡ scopes_for_role u.role)
    session_user-inversion sub store p (err e) g h = cc
    session_user-inversion sub store p (ok u) g h = elim (Bool-cases u.disabled) [
      | inl y ↦ ground (arith, h, y)
      | inr n ↦
          let same : sub ≡ p.user_id = ground (arith, h, n) in
          (u, same, subst (λ t. get_user bolt store t ≡ ok u) same g, n, ground (arith, h, n))
    ]

    payload-Signed :
        (session_key : Text) (now : ℕ) (store : Option (Store bolt))
        (value b64 mac payload sub exp_text : Text) (p : Principal)
        → cut b'|' value ≡ some (b64, mac)
        → ext.decode64 b64 ≡ some payload
        → mac ≡ sign ext session_key payload
        → cut b'|' payload ≡ some (sub, exp_text)
        → session_payload bolt ext now store (some (sub, exp_text)) ≡ some p
        → Signed session_key now store value p
    payload-Signed session_key now store value b64 mac payload sub exp_text p e d m c h =
        elim (Option-cases (ext.scan_number exp_text)) [
          | inl x ↦ ground (arith, h, x)
          | inr (exp, x) ↦ elim (Bool-cases (ltb exp (unix now))) [
            | inl y ↦ ground (arith, h, x, y)
            | inr n ↦
                let (u, same, known, enabled, scopes) =
                  session_user-inversion sub store p (get_user bolt store sub) refl
                    (ground (arith, h, x, n)) in
                record {
                  b64 = b64;
                  payload = payload;
                  exp_text = exp_text;
                  exp = exp;
                  user = u;
                  value-cut = cc (e, m);
                  b64-payload = d;
                  payload-cut = cc (c, same);
                  exp-scan = x;
                  not-expired = n;
                  known = known;
                  enabled = enabled;
                  role-scopes = scopes;
                }
          ]
        ]

    -- Only a cookie whose payload carries the signature under the session key is accepted, for the user
    -- that the payload names, who is enabled and gets the scopes of the present role, and not after the
    -- expiry that the payload names.
    pub principal_from_session-Signed :
        (session_key : Text) (now : ℕ) (store : Option (Store bolt)) (r : Request) (value : Text)
        (p : Principal)
        → r.session_cookie ≡ some value
        → principal_from_session bolt ext session_key now store r ≡ some p
        → Signed session_key now store value p
    unfolding principal_from_session
    principal_from_session-Signed session_key now store r value p cookie h =
        elim (Option-cases (cut b'|' value)) [
          | inl e ↦ ground (arith, h, cookie, e)
          | inr ((b64, mac), e) ↦ elim (Option-cases (ext.decode64 b64)) [
            | inl d ↦ ground (arith, h, cookie, e, d)
            | inr (payload, d) ↦ elim (Bool-cases (mac == sign ext session_key payload)) [
              | inr m ↦ ground (arith, h, cookie, e, d, m)
              | inl m ↦ elim (Option-cases (cut b'|' payload)) [
                | inl c ↦ ground (arith, h, cookie, e, d, m, c)
                | inr ((sub, exp_text), c) ↦
                    payload-Signed session_key now store value b64 mac payload sub exp_text p e d
                      ((eq_iff mac (sign ext session_key payload)).0 m) c
                      (ground (arith, h, cookie, e, d, m, c))
              ]
            ]
          ]
        ]
