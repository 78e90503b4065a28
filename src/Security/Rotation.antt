-- ===== src/Security/Rotation.antt =====
-- relay/security.go: the key list that `rotate` prints for the overlap keeps every old key.
use mathlib.Core.List.{append_assoc, append-nil}
use relayent.Base.{
  Text, ◌==◌, ◌≡◌, ◌≢◌, refl, ap, ◌∙◌, false, List, [], ◌∷◌, ◌++◌, arith, eq_iff, Bool-cases, inl,
  inr,
}
use relayent.Strings.{split, join, trim_space}
use relayent.Strings.Split.{occurs, NoneHas, occurs-trim_space, split-join, split-NoneHas}
use relayent.Strings.Trim.{trim_space_idem}
use relayent.Security.Keys.{KeySet, no_keys, add_key, add_keys, parse_key_set, all_keys}

-- What a key of a parsed list looks like: not empty, trimmed, without a comma.
pub record IsKey (k : Text) : Type 0 where
  pub non_empty : k ≢ []
  pub trimmed : trim_space k ≡ k
  pub no_comma : occurs b',' k ≡ false

abbrev pub AllKeys : List Text → Type 0
AllKeys [] = Unit
AllKeys (k ∷ ks) = IsKey k × AllKeys ks

AllKeys-append : (k : Text) (ks : List Text) → AllKeys ks → IsKey k → AllKeys (ks ++ k ∷ [])
AllKeys-append k [] a h = (h, tt)
AllKeys-append k (x ∷ ks) a h = (a.0, AllKeys-append k ks a.1 h)

-- The state of the parser: all its keys are keys, and none is retiring while there is no primary.
record Parsed (ks : KeySet) : Type 0 where
  keys : AllKeys (all_keys ks)
  none_before : ks.primary ≡ [] → ks.retiring ≡ []

add_key-Parsed : (ks : KeySet) (k : Text) → (k ≢ [] → IsKey k) → Parsed ks → Parsed (add_key ks k)
unfolding add_key all_keys
add_key-Parsed ks k h p = elim (Bool-cases (k == [])) [
  | inl y ↦ rw y p
  | inr n ↦
      let key : IsKey k = h (ground (arith, eq_iff k [])) in
      rw n (elim (Bool-cases (ks.primary == [])) [
        | inl y ↦ rw y (record {
          keys = ground (arith, n, p.none_before, eq_iff ks.primary [], key);
          none_before = λ e. absurd (key.non_empty e);
        })
        | inr m ↦ rw m (record {
          keys = rw m (
            ground (arith, p.keys, m),
            AllKeys-append k ks.retiring (ground (arith, p.keys, m)) key,
          );
          none_before = λ e. ground (arith, eq_iff ks.primary []);
        })
      ])
]

add_keys-Parsed :
    (parts : List Text) (ks : KeySet) → NoneHas b',' parts → Parsed ks → Parsed (add_keys ks parts)
unfolding add_keys
add_keys-Parsed [] ks h p = p
add_keys-Parsed (part ∷ parts) ks h p = add_keys-Parsed parts (add_key ks (trim_space part)) h.1 (
    add_key-Parsed ks (trim_space part)
      (λ n. record {
        non_empty = n;
        trimmed = trim_space_idem part;
        no_comma = occurs-trim_space b',' part h.0;
      })
      p)

parse_key_set-Parsed : (raw : Text) → Parsed (parse_key_set raw)
unfolding parse_key_set all_keys ◌==◌
parse_key_set-Parsed raw =
    add_keys-Parsed (split b',' raw) no_keys (split-NoneHas b',' raw)
      (record { keys = tt; none_before = λ e. refl })

add_key-next :
    (k p : Text) (before : List Text)
    → p ≢ []
    → IsKey k
    → add_key (record { primary = p; retiring = before }) (trim_space k)
      ≡ record { primary = p; retiring = before ++ k ∷ [] }
unfolding add_key
add_key-next k p before n key =
    rw key.trimmed (ground (arith, eq_iff k [], eq_iff p [], key.non_empty))

-- Keys that follow a primary one are retiring, in order.
add_keys-retiring :
    (ks : List Text) (p : Text) (before : List Text)
    → p ≢ []
    → AllKeys ks
    → add_keys (record { primary = p; retiring = before }) ks
      ≡ record { primary = p; retiring = before ++ ks }
unfolding add_keys
add_keys-retiring [] p before n a = ground (arith, append-nil before)
add_keys-retiring (k ∷ ks) p before n a =
    ap (λ (z : KeySet). add_keys z ks) (add_key-next k p before n a.0)
    ∙ add_keys-retiring ks p (before ++ k ∷ []) n a.1
    ∙ ap (λ (z : List Text). record { primary = p; retiring = z }) (append_assoc before (k ∷ []) ks)

add_keys-first :
    (k : Text) (ks : List Text)
    → IsKey k
    → AllKeys ks
    → add_keys no_keys (k ∷ ks) ≡ record { primary = k; retiring = ks }
unfolding add_keys add_key ◌==◌
add_keys-first k ks key a =
    rw key.trimmed
      (ground (arith, eq_iff k [], key.non_empty, add_keys-retiring ks k [] key.non_empty a))

AllKeys-NoneHas : (ks : List Text) → AllKeys ks → NoneHas b',' ks
AllKeys-NoneHas [] a = tt
AllKeys-NoneHas (k ∷ ks) a = (a.0.no_comma, AllKeys-NoneHas ks a.1)

-- Rotation: the key list `<new>,<all current keys>` that the tool prints for the overlap parses to a
-- key set whose primary key is the new one and whose retiring keys are exactly the current keys,
-- in order. The new key is not empty, has no white space at its ends and no comma.
pub rotation-keeps_keys :
    (raw new : Text)
    → IsKey new
    → parse_key_set (join b',' (new ∷ all_keys (parse_key_set raw)))
      ≡ record { primary = new; retiring = all_keys (parse_key_set raw) }
rotation-keeps_keys raw new key =
    let keys = (parse_key_set-Parsed raw).keys in
    unfold parse_key_set in
    ap (add_keys no_keys) (
      split-join b',' new (all_keys (parse_key_set raw)) key.no_comma
        (AllKeys-NoneHas (all_keys (parse_key_set raw)) keys))
    ∙ add_keys-first new (all_keys (parse_key_set raw)) key keys
