-- ===== src/Server/Routing.antt =====
-- relay/main.go: on whose jobs a principal acts.
use relayent.Base.{
  Text, ◌==◌, ◌≡◌, ◌≢◌, ◌↔◌, refl, subst, sym, ap, ◌∙◌, ◌⊎◌, Bool, true, false, [], arith, eq_iff,
  Bool-cases, inl, inr,
}
use relayent.Strings.{trim_space}
use relayent.Bolt.{Bolt}
use relayent.Store.Records.{User, Principal}
use relayent.Store.Users.{Result, ok, err, get_user}
use relayent.Server.Defs.{Request, Server}
use relayent.Server.Broker.{routes, is_app, active_target, route_target, resolve_read_target}

module _ (bolt : Bolt) where
  -- The user is in the store and is not disabled.
  abbrev pub IsActive : Text → Server bolt → Type 0
  IsActive sub s = (u : User) × (get_user bolt s.store sub ≡ ok u) × (u.disabled ≡ false)

  -- Whether a principal, an app or not, that names `target` may act for the user.
  abbrev pub ActsFor : Bool → Principal → Text → Text → Server bolt → Type 0
  ActsFor true p raw_target user s = (user ≡ trim_space raw_target) × (user ≢ []) × IsActive user s
  ActsFor false p raw_target user s = user ≡ p.user_id

  abbrev pub MayActFor : Principal → Text → Text → Server bolt → Type 0
  MayActFor p raw_target user s = ActsFor (is_app p.kind) p raw_target user s

  active_target-IsActive :
      (target user : Text) (s : Server bolt) (res : Result User)
      → get_user bolt s.store target ≡ res
      → active_target target res ≡ routes user
      → (user ≡ target) × IsActive user s
  active_target-IsActive target user s (err e) g h = cc
  active_target-IsActive target user s (ok u) g h = elim (Bool-cases u.disabled) [
    | inl y ↦ ground (arith, h, y)
    | inr n ↦
        let same : target ≡ user = ground (arith, h, n) in
        (ground (arith, same), (u, subst (λ t. get_user bolt s.store t ≡ ok u) same g, n))
  ]

  pub routed-MayActFor :
      (p : Principal) (raw_target user : Text) (s : Server bolt)
      → route_target bolt p raw_target s ≡ routes user
      → MayActFor p raw_target user s
  unfolding route_target
  routed-MayActFor p raw_target user s h = elim (Bool-cases (is_app p.kind)) [
    | inl y ↦
        subst (λ b. ActsFor b p raw_target user s) (sym y)
          (elim (Bool-cases (trim_space raw_target == [])) [
            | inl z ↦ ground (arith, h, y, z)
            | inr n ↦
                let (same, active) =
                  active_target-IsActive (trim_space raw_target) user s
                    (get_user bolt s.store (trim_space raw_target)) refl
                    (ground (arith, h, y, n)) in
                (same, λ z. ground (arith, n, eq_iff (trim_space raw_target) [], same, z), active)
          ])
    | inr n ↦ subst (λ b. ActsFor b p raw_target user s) (sym n) (ground (arith, h, n))
  ]

  -- A read is routed to a user exactly when an enqueue of the same principal that names the same target
  -- is routed to that user; so an app can read what it enqueued.
  pub resolve_read_target-route_target :
      (p : Principal) (r : Request) (user : Text) (s : Server bolt)
      → (resolve_read_target bolt p r s ≡ routes user)
        ↔ (route_target bolt p r.target_user s ≡ routes user)
  unfolding route_target resolve_read_target
  resolve_read_target-route_target p r user s = (λ h. ground (arith, h), λ h. ground (arith, h))

  -- An enqueue that names a target, or a read whose query names it, is routed only to the principal's own
  -- id, or, for an app, to the user that it names, who is in the store and enabled.
  pub route_target-MayActFor :
      (p : Principal) (raw_target user : Text) (r : Request) (s : Server bolt)
      → r.target_user ≡ raw_target
      → (route_target bolt p raw_target s ≡ routes user)
        ⊎ (resolve_read_target bolt p r s ≡ routes user)
      → MayActFor p raw_target user s
  route_target-MayActFor p raw_target user r s e (inl h) = routed-MayActFor p raw_target user s h
  route_target-MayActFor p raw_target user r s e (inr h) = routed-MayActFor p raw_target user s (
      ap (λ t. route_target bolt p t s) (sym e) ∙ (resolve_read_target-route_target p r user s).0 h)
