-- ===== src/Bolt.antt =====
-- go.etcd.io/bbolt, the embedded key/value store that relay/store.go keeps its records in, as an
-- interface: the operations that the program calls and what their documentation says of them. A
-- bucket holds values of one type; the JSON that the program writes is read back as it was written.
pub mod Rows
use relayent.Base.{
  ℕ, ◌+◌, Text, ◌==◌, ◌==ℕ◌, ltb, if◌then◌else◌, ◌≡◌, refl, Bool, true, false, List, [], ◌∷◌, ◌++◌,
  Option, none, some, arith, eq_iff,
}

-- bytes.Compare(s, t) < 0
unfoldable pub text_lt : Text → Text → Bool
text_lt [] [] = false
text_lt [] (d ∷ t) = true
text_lt (c ∷ s) [] = false
text_lt (c ∷ s) (d ∷ t) = if ltb c d then true else if c ==ℕ d then text_lt s t else false

module _ {V : Type 0} where
  unfoldable pub find : Text → List (Text × V) → Option V
  find k [] = none
  find k ((j, v) ∷ rows) = if j == k then some v else find k rows

  unfoldable pub without : Text → List (Text × V) → List (Text × V)
  without k [] = []
  without k ((j, v) ∷ rows) = let rest = without k rows in if j == k then rest else (j, v) ∷ rest

  -- Every key of the list is below `k`.
  abbrev pub AllBelow : Text → List (Text × V) → Type 0
  AllBelow k [] = Unit
  AllBelow k ((j, v) ∷ rows) = (text_lt j k ≡ true) × AllBelow k rows

-- A write answers `none` when it fails (an empty or oversized key, a full disk, a closed database);
-- the transaction is then rolled back.
pub record Bolt : Type 1 where
  pub Bucket : Type 0 → Type 0
  pub empty : (V : Type 0) → Bucket V
  pub get : {V : Type 0} → Bucket V → Text → Option V
  pub put : {V : Type 0} → Text → V → Bucket V → Option (Bucket V)
  pub delete : {V : Type 0} → Text → Bucket V → Option (Bucket V)
  -- the pairs in the byte order of their keys, as `ForEach` and a cursor visit them
  pub entries : {V : Type 0} → Bucket V → List (Text × V)
  -- the bucket's sequence number, and the bucket after `NextSequence`
  pub sequence : {V : Type 0} → Bucket V → ℕ
  pub advance : {V : Type 0} → Bucket V → Bucket V

module _ (bolt : Bolt) where
  open bolt use {Bucket, empty, get, put, delete, entries, sequence, advance}

  -- What the documentation of bbolt promises of these.
  pub record BoltLaws : Type 1 where
    pub get-empty : {V : Type 0} (k : Text) → get (empty V) k ≡ none
    pub get-put :
        {V : Type 0} (k j : Text) (v : V) (b b' : Bucket V)
        → put k v b ≡ some b'
        → get b' j ≡ (if k == j then some v else get b j)
    pub get-delete :
        {V : Type 0} (k j : Text) (b b' : Bucket V)
        → delete k b ≡ some b'
        → get b' j ≡ (if k == j then none else get b j)
    pub get-advance : {V : Type 0} (k : Text) (b : Bucket V) → get (advance b) k ≡ get b k
    pub find-entries : {V : Type 0} (k : Text) (b : Bucket V) → find k (entries b) ≡ get b k
    pub entries-empty : (V : Type 0) → entries (empty V) ≡ []
    pub entries-put_last :
        {V : Type 0} (k : Text) (v : V) (b b' : Bucket V)
        → put k v b ≡ some b'
        → AllBelow k (entries b)
        → entries b' ≡ entries b ++ (k, v) ∷ []
    pub entries-delete :
        {V : Type 0} (k : Text) (b b' : Bucket V)
        → delete k b ≡ some b'
        → entries b' ≡ without k (entries b)
    pub entries-advance : {V : Type 0} (b : Bucket V) → entries (advance b) ≡ entries b
    pub sequence-empty : (V : Type 0) → sequence (empty V) ≡ 0
    pub sequence-put :
        {V : Type 0} (k : Text) (v : V) (b b' : Bucket V)
        → put k v b ≡ some b'
        → sequence b' ≡ sequence b
    pub sequence-advance : {V : Type 0} (b : Bucket V) → sequence (advance b) ≡ sequence b + 1
