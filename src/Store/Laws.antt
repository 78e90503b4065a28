-- ===== src/Store/Laws.antt =====
-- relay/store.go: what a reader finds after a write that succeeded.
use relayent.Base.{
  ℕ, ◌<◌, Text, ◌==◌, ◌==ℕ◌, ltb, if◌then◌else◌, ◌≡◌, refl, ap, sym, ◌∙◌, false, Option, none, some,
  arith, eq_refl, Bool-cases, inl, inr,
}
use relayent.Bolt.{Bolt, BoltLaws}
use relayent.Store.Records.{User, EnrollToken, role_user}
use relayent.Store.Users.{
  token_used, Result, ok, err, ◌>>=◌, or_io-ok, or_not_found, or_now, or_default, merged, Store,
  put_user, upsert_user,
}
use relayent.Store.Credentials.{redeem}

-- A lookup that must succeed, then a write of what was found.
pub found-ok {ℓ κ} :
    {A : Type ℓ} {B : Type κ} (o : Option A) (f : A → Result B) (b : B)
    → (do a ← or_not_found o; f a) ≡ ok b
    → (a : A) × (o ≡ some a) × (f a ≡ ok b)
found-ok none f b h = cc
found-ok (some a) f b h = (a, refl, h)

-- The record that a login or a creation leaves.
abbrev pub stored_user : User → ℕ → Option User → User
stored_user u now none = record u {
  role = or_default u.role role_user;
  created_at = or_now u.created_at now;
}
stored_user u now (some prev) = record u {
  role = prev.role;
  created_at = or_now prev.created_at now;
}

upsert-record :
    (u : User) (now : ℕ) (o : Option User)
    → let m = merged (record u { role = or_default u.role role_user }) o in
      record m { created_at = or_now m.created_at now } ≡ stored_user u now o
upsert-record u now none = refl
upsert-record u now (some prev) = refl

merged-sub : (u : User) (o : Option User) → (merged u o).sub ≡ u.sub
merged-sub u none = refl
merged-sub u (some prev) = refl

module _ (bolt : Bolt) (laws : BoltLaws bolt) where
  open bolt use {Bucket, get, put, delete}
  open laws use {get-put, get-delete}

  put_user-get :
      (u : User) (s s' : Store bolt) (sub : Text)
      → put_user bolt u s ≡ ok s'
      → get s'.users sub ≡ (if u.sub == sub then some u else get s.users sub)
  put_user-get u s s' sub h =
      let (b, written, e) = or_io-ok (put u.sub u s.users) (λ b. record s { users = b }) s' h in
      ap (λ (t : Store bolt). get t.users sub) (sym e) ∙ get-put u.sub sub u s.users b written

  -- A login keeps the role and the time of creation that the store has for the user. It does not keep
  -- the disabled flag: that of the new record is stored. Other users keep their records.
  pub upsert_user-get :
      (u : User) (now : ℕ) (s s' : Store bolt) (sub : Text)
      → upsert_user bolt u now s ≡ ok s'
      → get s'.users sub
        ≡ (if u.sub == sub then some (stored_user u now (get s.users u.sub)) else get s.users sub)
  unfolding upsert_user
  upsert_user-get u now s s' sub h =
      let m = merged (record u { role = or_default u.role role_user }) (get s.users u.sub) in
      put_user-get (record m { created_at = or_now m.created_at now }) s s' sub h
      ∙ cc (
        merged-sub (record u { role = or_default u.role role_user }) (get s.users u.sub),
        upsert-record u now (get s.users u.sub),
      )

  abbrev Redeemed : Text → ℕ → Store bolt → Text → Store bolt → Type 0
  Redeemed h now s user s' =
      (tok : EnrollToken) × (get s.enroll_tokens h ≡ some tok)
      × (tok.user_sub ≡ user)
      × (tok.redeemed_at ≡ 0)
      × (ltb tok.expires_at now ≡ false)
      × (put h (record tok { redeemed_at = now }) s.enroll_tokens ≡ some s'.enroll_tokens)

  redeem-inversion :
      (h : Text) (now : ℕ) (s s' : Store bolt) (user : Text)
      → redeem bolt h now s ≡ ok (user, s')
      → Redeemed h now s user s'
  unfolding redeem
  redeem-inversion h now s s' user r =
      let (tok, there, rest) = found-ok (get s.enroll_tokens h) _ (user, s') r in
      elim (Bool-cases (tok.redeemed_at ==ℕ 0)) [
        | inr n ↦ cc (rest, n)
        | inl z ↦ elim (Bool-cases (ltb tok.expires_at now)) [
          | inl y ↦ cc (rest, z, y)
          | inr n ↦
              let (tokens, written, e) =
                or_io-ok (put h (record tok { redeemed_at = now }) s.enroll_tokens)
                  (λ tokens. (tok.user_sub, record s { enroll_tokens = tokens })) (user, s')
                  (ground (arith, rest, z, n)) in
              (
                tok,
                there,
                ap (λ (p : Text × Store bolt). p.0) e,
                ground (arith, z),
                n,
                written ∙ ap (λ (p : Text × Store bolt). some p.1.enroll_tokens) e,
              )
        ]
      ]

  -- One-time: a token that was redeemed is refused from then on, whatever the time; a token is
  -- redeemed only before it expires, for the user it was issued to; other tokens are untouched.
  pub redeem-once :
      (h j : Text) (now later : ℕ) (s s' : Store bolt) (user : Text)
      → 0 < now
      → redeem bolt h now s ≡ ok (user, s')
      → (redeem bolt h later s' ≡ err token_used)
        × ((tok : EnrollToken) × (get s.enroll_tokens h ≡ some tok)
            × (tok.user_sub ≡ user)
            × (ltb tok.expires_at now ≡ false)
            × (get s'.enroll_tokens j ≡ (
                if h == j then some (record tok { redeemed_at = now }) else get s.enroll_tokens j)))
  redeem-once h j now later s s' user pos r =
      let (tok, there, same, fresh, time, written) = redeem-inversion h now s s' user r in
      let used =
        get-put h h (record tok { redeemed_at = now }) s.enroll_tokens s'.enroll_tokens written in
      (
        unfold redeem in rw (used, eq_refl h) (ground arith),
        (
          tok,
          there,
          same,
          time,
          get-put h j (record tok { redeemed_at = now }) s.enroll_tokens s'.enroll_tokens written,
        ),
      )
