-- ===== src/Queue/Ids.antt =====
-- Lists of job ids, as relay/queue.go keeps them in `pending`.
use relayent.Base.{
  Text, ◌==◌, ◌||◌, ◌≡◌, refl, true, false, List, [], ◌∷◌, ◌++◌, Option, some, arith, eq_iff,
}
use relayent.Queue.Defs.{JobEntry, pop_ids}
use relayent.Queue.Jobs.{has, drop_id}
use relayent.Queue.Steps.{NoRepeat}

pub has-append : (id y : Text) (xs : List Text) → has id (xs ++ y ∷ []) ≡ (has id xs || y == id)
unfolding has
has-append id y [] = ground arith
has-append id y (x ∷ xs) = ground (arith, has-append id y xs)

pub NoRepeat-append :
    (y : Text) (xs : List Text) → NoRepeat xs → has y xs ≡ false → NoRepeat (xs ++ y ∷ [])
unfolding has
NoRepeat-append y [] r h = (refl, tt)
NoRepeat-append y (x ∷ xs) r h =
    ground (arith, NoRepeat-append y xs r.1, has-append x y xs, eq_iff x y, eq_iff y x)

pub drop_id_absent : (id : Text) (xs : List Text) → has id xs ≡ false → drop_id id xs ≡ xs
unfolding has drop_id
drop_id_absent id [] h = refl
drop_id_absent id (x ∷ xs) h = ground (arith, drop_id_absent id xs)

pub has-drop_id : (id j : Text) (xs : List Text) → has j (drop_id id xs) ≡ true → has j xs ≡ true
unfolding has drop_id
has-drop_id id j [] h = h
has-drop_id id j (x ∷ xs) h = ground (arith, has-drop_id id j xs)

pub has-drop_id_ne :
    (id j : Text) (xs : List Text) → (id == j) ≡ false → has j (drop_id id xs) ≡ has j xs
unfolding has drop_id
has-drop_id_ne id j [] h = refl
has-drop_id_ne id j (x ∷ xs) h =
    ground (arith, has-drop_id_ne id j xs h, eq_iff x j, eq_iff x id, eq_iff id j)

pub has-drop_id_self : (id : Text) (xs : List Text) → NoRepeat xs → has id (drop_id id xs) ≡ false
unfolding has drop_id
has-drop_id_self id [] r = refl
has-drop_id_self id (x ∷ xs) r = ground (arith, has-drop_id_self id xs r.1, eq_iff x id)

pub NoRepeat-drop_id : (id : Text) (xs : List Text) → NoRepeat xs → NoRepeat (drop_id id xs)
unfolding has drop_id
NoRepeat-drop_id id [] r = tt
NoRepeat-drop_id id (x ∷ xs) r = ground (arith, NoRepeat-drop_id id xs r.1, has-drop_id id x xs)

module _ (jobs : Text → Option JobEntry) where
  pub has-pop_ids : (j : Text) (xs : List Text) → has j (pop_ids jobs xs).1 ≡ true → has j xs ≡ true
  unfolding has pop_ids
  has-pop_ids j [] h = h
  has-pop_ids j (x ∷ xs) h = ground (arith, has-pop_ids j xs)

  pub NoRepeat-pop_ids : (xs : List Text) → NoRepeat xs → NoRepeat (pop_ids jobs xs).1
  unfolding pop_ids
  NoRepeat-pop_ids [] r = tt
  NoRepeat-pop_ids (x ∷ xs) r = ground (arith, NoRepeat-pop_ids xs r.1)

  -- What is popped was queued, has a job, and is queued no more.
  pub pop_ids-found :
      (xs : List Text) (id : Text) (e : JobEntry)
      → NoRepeat xs
      → (pop_ids jobs xs).0 ≡ some (id, e)
      → (jobs id ≡ some e) × (has id xs ≡ true) × (has id (pop_ids jobs xs).1 ≡ false)
  unfolding has pop_ids
  pop_ids-found [] id e r h = cc
  pop_ids-found (x ∷ xs) id e r h = ground (arith, pop_ids-found xs id e r.1, eq_iff x id)
