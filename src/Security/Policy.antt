-- ===== src/Security/Policy.antt =====
-- relay/security.go: which keys get past the start-up policy, and which a running relay accepts.
use relayent.Base.{
  ◌≤◌, Text, ◌==◌, ◌&&◌, not, ◌≡◌, ◌≢◌, ◌↔◌, ◌⊎◌, inl, inr, refl, Bool, true, false, List, [], ◌∷◌,
  ◌||◌, none, arith, eq_iff, length, Bool-cases,
}
use relayent.Security.Keys.{
  KeySet, validate_key_policy, validate_each, validate_key_set_policy, is_empty, all_keys, accepts,
  match_any, match_first, is_retiring, min_key_len,
}

-- Every key is non-empty and has at least `min_key_len` bytes.
abbrev pub AllStrong : List Text → Type 0
AllStrong [] = Unit
AllStrong (k ∷ ks) = (k ≢ []) × (min_key_len ≤ length k) × AllStrong ks

strong_of_valid : (ks : List Text) → validate_each ks false false ≡ none → AllStrong ks
unfolding validate_each validate_key_policy
strong_of_valid [] h = tt
strong_of_valid (k ∷ ks) h = ground (arith, eq_iff k [], strong_of_valid ks)

valid_of_strong : (ks : List Text) → AllStrong ks → validate_each ks false false ≡ none
unfolding validate_each validate_key_policy
valid_of_strong [] h = refl
valid_of_strong (k ∷ ks) h = ground (arith, eq_iff k [], valid_of_strong ks)

valid-loopback : (ks : List Text) (insecure : Bool) → validate_each ks true insecure ≡ none
unfolding validate_each validate_key_policy
valid-loopback [] insecure = refl
valid-loopback (k ∷ ks) insecure = ground (arith, valid-loopback ks insecure)

valid-insecure : (ks : List Text) → validate_each ks false true ≡ none
unfolding validate_each validate_key_policy
valid-insecure [] = refl
valid-insecure (k ∷ ks) = ground (arith, valid-insecure ks)

-- The relay starts exactly when it is bound to loopback only, or the operator opted out, or there is
-- a primary key and every configured key, a retiring one too, has at least 24 bytes.
pub validate_key_set_policy_iff :
    (ks : KeySet) (loopback insecure : Bool)
    → (validate_key_set_policy ks loopback insecure ≡ none)
      ↔ ((loopback ≡ true) ⊎ (insecure ≡ true) ⊎ ((ks.primary ≢ []) × AllStrong (all_keys ks)))
unfolding validate_key_set_policy is_empty validate_key_policy
validate_key_set_policy_iff ks true insecure =
    (λ h. inl refl, λ h. ground (arith, valid-loopback (all_keys ks) insecure))
validate_key_set_policy_iff ks false true =
    (λ h. inr (inl refl), λ h. ground (arith, valid-insecure (all_keys ks)))
validate_key_set_policy_iff ks false false = (
  λ h. inr (inr (ground (arith, eq_iff ks.primary [], strong_of_valid (all_keys ks)))),
  λ h. ground (arith, eq_iff ks.primary [], valid_of_strong (all_keys ks)),
)

-- The key is in the list.
abbrev pub listed : Text → List Text → Bool
listed k [] = false
listed k (x ∷ xs) = k == x || listed k xs

match_any-listed : (p : Text) (ks : List Text) (m : Bool) → match_any p ks m ≡ (m || listed p ks)
unfolding match_any
match_any-listed p [] m = ground arith
match_any-listed p (k ∷ ks) m = elim (Bool-cases (p == k)) [
  | inl y ↦ rw y (ground (arith, match_any-listed p ks true))
  | inr n ↦ rw n (ground (arith, match_any-listed p ks m))
]

match_first-listed : (p : Text) (ks : List Text) → match_first p ks ≡ listed p ks
unfolding match_first
match_first-listed p [] = refl
match_first-listed p (k ∷ ks) = ground (arith, match_first-listed p ks)

-- The loop that never stops early accepts exactly the non-empty keys of the set, and a key is
-- reported as retiring exactly when it is among the retiring ones; so with a primary key every
-- retiring key that is not empty is accepted.
pub accepts-listed :
    (ks : KeySet) (p : Text)
    → (accepts ks p ≡ (not (p == []) && listed p (all_keys ks)))
      × (is_retiring ks p ≡ listed p ks.retiring)
      × ((is_retiring ks p && (not (is_empty ks) && not (p == [])))
          ≡ (is_retiring ks p && accepts ks p))
unfolding accepts is_retiring all_keys is_empty
accepts-listed ks p = (
  ground (arith, match_any-listed p (all_keys ks) false),
  match_first-listed p ks.retiring,
  ground (
    arith,
    match_any-listed p (all_keys ks) false,
    match_first-listed p ks.retiring,
    eq_iff ks.primary [],
    eq_iff p [],
  ),
)

listed-strong :
    (p : Text) (ks : List Text) → AllStrong ks → listed p ks ≡ true → min_key_len ≤ length p
listed-strong p [] s h = cc
listed-strong p (k ∷ ks) s h = elim (Bool-cases (p == k)) [
  | inl y ↦ rw ((eq_iff p k).0 y) s.1
  | inr n ↦ listed-strong p ks s.2 (ground (arith, n))
]

-- A network-reachable relay that started without the opt-out accepts no key of less than 24 bytes.
pub public_accepts-strong :
    (ks : KeySet) (p : Text)
    → validate_key_set_policy ks false false ≡ none
    → accepts ks p ≡ true
    → min_key_len ≤ length p
unfolding accepts
public_accepts-strong ks p v a = elim ((validate_key_set_policy_iff ks false false).0 v) [
  | inl h ↦ cc
  | inr (inl h) ↦ cc
  | inr (inr s) ↦
      listed-strong p (all_keys ks) s.1 (ground (arith, match_any-listed p (all_keys ks) false, a))
]
