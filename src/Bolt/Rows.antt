-- ===== src/Bolt/Rows.antt =====
-- A bucket as the list of its rows in the order of their keys, and what bbolt promises of it.
use relayent.Base.{
  ℕ, ◌+◌, Text, ◌==◌, if◌then◌else◌, ◌≡◌, refl, ap, ◌∙◌, sym, true, false, List, [], ◌∷◌, ◌++◌,
  Option, none, some, arith, eq_iff, Bool-cases, inl, inr,
}
use relayent.Bolt.{Bolt, BoltLaws, text_lt, find, without, AllBelow}

pub text_lt-apart : (s t : Text) → text_lt s t ≡ true → (text_lt t s ≡ false) × ((t == s) ≡ false)
unfolding text_lt ◌==◌
text_lt-apart [] [] h = cc
text_lt-apart [] (d ∷ t) h = (refl, refl)
text_lt-apart (c ∷ s) [] h = cc
text_lt-apart (c ∷ s) (d ∷ t) h = ground (arith, text_lt-apart s t)

pub record Rows (V : Type 0) : Type 0 where
  pub rows : List (Text × V)
  pub seq : ℕ

module _ {V : Type 0} where
  unfoldable pub place : Text → V → List (Text × V) → List (Text × V)
  place k v [] = (k, v) ∷ []
  place k v ((j, w) ∷ rows) =
      let rest = place k v rows in
      if k == j
      then (k, v) ∷ rows
      else if text_lt k j
      then (k, v) ∷ (j, w) ∷ rows
      else (j, w) ∷ rest

  find-place :
      (k i : Text) (v : V) (rows : List (Text × V))
      → find i (place k v rows) ≡ (if k == i then some v else find i rows)
  unfolding find place
  find-place k i v [] = refl
  find-place k i v ((j, w) ∷ rows) =
      ground (arith, find-place k i v rows, eq_iff k j, eq_iff k i, eq_iff j i)

  find-without :
      (k i : Text) (rows : List (Text × V))
      → find i (without k rows) ≡ (if k == i then none else find i rows)
  unfolding find without
  find-without k i [] = ground arith
  find-without k i ((j, w) ∷ rows) =
      ground (arith, find-without k i rows, eq_iff j k, eq_iff k i, eq_iff j i)

  place-last :
      (k : Text) (v : V) (rows : List (Text × V))
      → AllBelow k rows
      → place k v rows ≡ rows ++ (k, v) ∷ []
  unfolding place
  place-last k v [] h = refl
  place-last k v ((j, w) ∷ rows) (below, h) =
      ground (arith, place-last k v rows h, text_lt-apart j k below)

-- A write with an empty key fails.
abbrev pub rows_bolt : Bolt
rows_bolt = record {
  Bucket = Rows;
  empty = λ V. record { rows = []; seq = 0 };
  get = λ b k. find k b.rows;
  put = λ k v b. if k == [] then none else some (record b { rows = place k v b.rows });
  delete = λ k b. some (record b { rows = without k b.rows });
  entries = λ b. b.rows;
  sequence = λ b. b.seq;
  advance = λ b. record b { seq = b.seq + 1 };
}

put-rows :
    {V : Type 0} (k : Text) (v : V) (b b' : Rows V)
    → (if k == [] then none else some (record b { rows = place k v b.rows })) ≡ some b'
    → record b { rows = place k v b.rows } ≡ b'
put-rows k v b b' h = elim (Bool-cases (k == [])) [
  | inl y ↦ ground (arith, h, y)
  | inr n ↦ ground (arith, h, n)
]

pub rows-BoltLaws : BoltLaws rows_bolt
unfolding find
rows-BoltLaws = record {
  get-empty = λ k. refl;
  get-put = λ k j v b b' h.
      ap (λ (c : Rows _). find j c.rows) (sym (put-rows k v b b' h)) ∙ find-place k j v b.rows;
  get-delete = λ k j b b' h.
      ap (λ (c : Option (Rows _)). elim c [ none ↦ none | some d ↦ find j d.rows ]) (sym h)
      ∙ find-without k j b.rows;
  get-advance = λ k b. refl;
  find-entries = λ k b. refl;
  entries-empty = λ V. refl;
  entries-put_last = λ k v b b' h a.
      ap (λ (c : Rows _). c.rows) (sym (put-rows k v b b' h)) ∙ place-last k v b.rows a;
  entries-delete =
      λ k b b' h. ap (λ (c : Option (Rows _)). elim c [ none ↦ [] | some d ↦ d.rows ]) (sym h);
  entries-advance = λ b. refl;
  sequence-empty = λ V. refl;
  sequence-put = λ k v b b' h. ap (λ (c : Rows _). c.seq) (sym (put-rows k v b b' h));
  sequence-advance = λ b. refl;
}
