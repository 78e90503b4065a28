-- ===== src/Store/Policy.antt =====
-- relay/store.go: which backends are switched off after a switch.
use relayent.Base.{
  Text, ◌==◌, ◌||◌, ◌&&◌, not, if◌then◌else◌, ◌≡◌, ap, sym, ◌∙◌, Bool, true, false, List, [], ◌∷◌,
  Option, some, arith, eq_iff, eq_refl, Bool-cases, inl, inr, keep,
}
use relayent.Strings.{trim_space}
use relayent.Bolt.{Bolt, BoltLaws}
use relayent.Store.Users.{ok, or_io-ok, Store}
use relayent.Store.Audit.{
  set_backend_enabled, disabled_backends, has_name, insert_name, names_of, disabled_key,
}

has_name-insert_name :
    (n k : Text) (names : List Text)
    → has_name n (insert_name k names) ≡ (k == n || has_name n names)
unfolding has_name insert_name
has_name-insert_name n k [] = ground arith
has_name-insert_name n k (m ∷ names) =
    ground (arith, has_name-insert_name n k names, eq_iff k m, eq_iff k n, eq_iff m n)

has_name-keep :
    (n k : Text) (names : List Text)
    → has_name n (keep (λ m. not (m == k)) names) ≡ (not (k == n) && has_name n names)
unfolding has_name
has_name-keep n k [] = ground arith
has_name-keep n k (m ∷ names) =
    ground (arith, has_name-keep n k names, eq_iff m k, eq_iff k n, eq_iff m n)

same_key :
    {A : Type 0} (k : Text) (o w : Option A) (v : A)
    → o ≡ (if k == k then some v else w)
    → o ≡ some v
same_key k o w v h = ground (arith, h, eq_refl k)

-- The list that a switch stores.
abbrev switched : Text → Bool → List Text → List Text
switched name on names = if on then keep (λ n. not (n == name)) names else insert_name name names

has_name-switched :
    (n name : Text) (on : Bool) (names : List Text)
    → has_name n (switched name on names) ≡ (if name == n then not on else has_name n names)
has_name-switched n name true names = ground (arith, has_name-keep n name names)
has_name-switched n name false names = ground (arith, has_name-insert_name n name names)

module _ (bolt : Bolt) (laws : BoltLaws bolt) where
  open bolt use {get, put}
  open laws use {get-put}

  -- After a switch of a backend, that backend is disabled exactly when it was switched off, and every
  -- other one is as before.
  pub set_backend_enabled-has_name :
      (raw_name : Text) (on : Bool) (st st' : Store bolt) (n : Text)
      → set_backend_enabled bolt raw_name on st ≡ ok st'
      → has_name n (disabled_backends bolt (some st')) ≡ (
          if trim_space raw_name == n
          then not on
          else has_name n (disabled_backends bolt (some st)))
  unfolding set_backend_enabled disabled_backends
  set_backend_enabled-has_name raw_name on st st' n h =
      let name : Text = trim_space raw_name in
      let names : List Text = names_of (get st.settings disabled_key) in
      elim (Bool-cases (name == [])) [
        | inl y ↦ ground (arith, h, y)
        | inr m ↦
            let (settings, written, e) =
              or_io-ok (put disabled_key (switched name on names) st.settings)
                (λ settings. record st { settings = settings }) st' (ground (arith, h, m)) in
            ap (λ (t : Store bolt). has_name n (names_of (get t.settings disabled_key))) (sym e)
            ∙ ap (λ o. has_name n (names_of o))
                (same_key disabled_key _ _ _ (
                  get-put disabled_key disabled_key (switched name on names) st.settings settings
                    written))
            ∙ has_name-switched n name on names
      ]
