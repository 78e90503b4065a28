-- ===== src/Adapters/ModelLaws.antt =====
-- The list of cursor's models, and the cache of it.
use relayent.Base.{
  ℕ, ◌-◌, Text, codes, ◌==◌, ◌≡◌, refl, ◌&&◌, not, List, [], ◌∷◌, ◌++◌, Option, none, some, ltb,
  ◌⊎◌, inl, inr, Bool-cases,
}
use relayent.Strings.{trim_space, split, to_lower}
use relayent.Strings.Search.{contains}
use relayent.Adapters.Models.{
  Listing, ModelCache, is_empty_list, store_listing, refresh, cursor_models, model_line, add_line,
  read_lines, model_ttl,
}

-- The text stands in the list.
abbrev pub In : Text → List Text → Type 0
In t [] = ⊥
In t (u ∷ us) = (t ≡ u) ⊎ In t us

In-append_left : (t : Text) (us vs : List Text) → In t us → In t (us ++ vs)
In-append_left t [] vs h = elim h [ ]
In-append_left t (u ∷ us) vs (inl e) = inl e
In-append_left t (u ∷ us) vs (inr h) = inr (In-append_left t us vs h)

In-last : (t : Text) (us : List Text) → In t (us ++ t ∷ [])
In-last t [] = inl refl
In-last t (u ∷ us) = inr (In-last t us)

-- A default is one of the names.
abbrev pub IsListed : List Text → Text → Type 0
IsListed models found = (found ≡ []) ⊎ In found models

add_line-IsListed :
    (line : Option (Text × Text)) (models : List Text) (found : Text)
    → IsListed models found
    → IsListed (add_line line (models, found)).0 (add_line line (models, found)).1
add_line-IsListed none models found h = h
add_line-IsListed (some (name, label)) models found h =
    elim (Bool-cases (found == [] && contains (codes "default") (to_lower label))) [
      | inl y ↦ rw y (inr (In-last name models))
      | inr n ↦ rw n (kept h)
    ]
  where
    kept : IsListed models found → IsListed (models ++ name ∷ []) found
    kept (inl e) = inl e
    kept (inr i) = inr (In-append_left found models (name ∷ []) i)

read_lines-IsListed :
    (lines : List Text) (models : List Text) (found : Text)
    → IsListed models found
    → IsListed (read_lines lines (models, found)).0 (read_lines lines (models, found)).1
unfolding read_lines
read_lines-IsListed [] models found h = h
read_lines-IsListed (line ∷ lines) models found h =
    read_lines-IsListed lines _ _ (add_line-IsListed (model_line (trim_space line)) models found h)

-- What a call of Models promises: a default that is one of the names, and `probed` exactly when there
-- are names.
abbrev pub IsHonest : Listing → Type 0
IsHonest l = IsListed l.models l.default_model × (l.probed ≡ not (is_empty_list l.models))

abbrev pub IsConsistent : ModelCache → Type 0
IsConsistent cache = IsListed cache.models cache.default_model

store_listing-Honest :
    (cache : ModelCache) (now : ℕ) (models : List Text) (found : Text)
    → IsConsistent cache
    → IsListed models found
    → IsHonest (store_listing cache now (models, found)).0
      × IsConsistent (store_listing cache now (models, found)).1
store_listing-Honest cache now [] found c h = ((c, refl), c)
store_listing-Honest cache now (m ∷ models) found c h = ((h, refl), h)

refresh-Honest :
    (cache : ModelCache) (now : ℕ) (out : Option Text)
    → IsConsistent cache
    → IsHonest (refresh cache now out).0 × IsConsistent (refresh cache now out).1
refresh-Honest cache now none c = ((c, refl), c)
refresh-Honest cache now (some out) c =
    store_listing-Honest cache now _ _ c (read_lines-IsListed (split 10 out) [] [] (inl refl))

-- Whatever cursor's tool prints, and whenever the cache is asked, the list that is reported names its
-- default if it has one, is marked as probed exactly when it is not empty, and leaves a cache of which
-- the same will hold.
pub cursor_models-IsHonest :
    (cache : ModelCache) (now : ℕ) (out : Option Text)
    → IsConsistent cache
    → IsHonest (cursor_models cache now out).0 × IsConsistent (cursor_models cache now out).1
unfolding cursor_models
cursor_models-IsHonest cache now out c =
    elim (Bool-cases (ltb (now - cache.fetched) model_ttl && not (is_empty_list cache.models))) [
      | inl y ↦ rw y ((c, refl), c)
      | inr n ↦ rw n (refresh-Honest cache now out c)
    ]
