-- ===== src/Strings/Split.antt =====
-- strings.Split undoes strings.Join, and strings.Cut finds the first separator.
use relayent.Base.{
  ℕ, Text, ◌==ℕ◌, ◌||◌, ◌≡◌, refl, ap, ◌∙◌, Bool, false, List, [], ◌∷◌, ◌++◌, arith, some, none,
  Bool-cases, Option-cases, inl, inr,
}
use relayent.Strings.{split, join, cut, cons_head, trim_space}
use relayent.Strings.Trim.{trim_space-piece}

-- The byte occurs in the text.
unfoldable pub occurs : ℕ → Text → Bool
occurs c [] = false
occurs c (x ∷ s) = x ==ℕ c || occurs c s

abbrev pub NoneHas : ℕ → List Text → Type 0
NoneHas c [] = Unit
NoneHas c (t ∷ ts) = (occurs c t ≡ false) × NoneHas c ts

pub occurs-append_left : (c : ℕ) (s t : Text) → occurs c (s ++ t) ≡ false → occurs c s ≡ false
unfolding occurs
occurs-append_left c [] t h = refl
occurs-append_left c (x ∷ s) t h = ground (arith, occurs-append_left c s t)

occurs-append_right : (c : ℕ) (s t : Text) → occurs c (s ++ t) ≡ false → occurs c t ≡ false
unfolding occurs
occurs-append_right c [] t h = h
occurs-append_right c (x ∷ s) t h = ground (arith, occurs-append_right c s t)

-- Trimming brings no byte in.
pub occurs-trim_space : (c : ℕ) (s : Text) → occurs c s ≡ false → occurs c (trim_space s) ≡ false
occurs-trim_space c s h =
    let (front, back, e) = trim_space-piece s in
    occurs-append_right c front (trim_space s)
      (occurs-append_left c (front ++ trim_space s) back (rw e h))

pub split-none : (c : ℕ) (t : Text) → occurs c t ≡ false → split c t ≡ t ∷ []
unfolding occurs split
split-none c [] h = refl
split-none c (x ∷ t) h = ground (arith, split-none c t)

pub split-append : (c : ℕ) (t s : Text) → occurs c t ≡ false → split c (t ++ c ∷ s) ≡ t ∷ split c s
unfolding occurs split
split-append c [] s h = ground arith
split-append c (x ∷ t) s h = ground (arith, split-append c t s)

pub split-join :
    (c : ℕ) (t : Text) (ts : List Text)
    → occurs c t ≡ false
    → NoneHas c ts
    → split c (join c (t ∷ ts)) ≡ t ∷ ts
unfolding join
split-join c t [] h n = split-none c t h
split-join c t (u ∷ ts) h n =
    split-append c t (join c (u ∷ ts)) h ∙ ap (◌∷◌ t) (split-join c u ts n.0 n.1)

-- No piece of a split holds the separator.
NoneHas-cons_head :
    (c x : ℕ) (ts : List Text) → (x ==ℕ c) ≡ false → NoneHas c ts → NoneHas c (cons_head x ts)
unfolding occurs
NoneHas-cons_head c x [] h n = ground arith
NoneHas-cons_head c x (t ∷ ts) h n = ground arith

pub split-NoneHas : (c : ℕ) (s : Text) → NoneHas c (split c s)
unfolding split occurs
split-NoneHas c [] = (refl, tt)
split-NoneHas c (x ∷ s) = elim (Bool-cases (x ==ℕ c)) [
  | inl y ↦ rw y (refl, split-NoneHas c s)
  | inr n ↦ rw n (NoneHas-cons_head c x (split c s) n (split-NoneHas c s))
]

-- What is before the first separator does not hold it; joined by it, the parts are the text.
pub cut-some :
    (c : ℕ) (s before after : Text)
    → cut c s ≡ some (before, after)
    → (occurs c before ≡ false) × (before ++ c ∷ after ≡ s)
unfolding cut occurs
cut-some c [] before after h = cc
cut-some c (x ∷ s) before after h = elim (Option-cases (cut c s)) [
  | inl n ↦ ground arith
  | inr ((b, a), e) ↦ ground (arith, cut-some c s b a e)
]

pub cut-append :
    (c : ℕ) (before after : Text)
    → occurs c before ≡ false
    → cut c (before ++ c ∷ after) ≡ some (before, after)
unfolding cut occurs
cut-append c [] after h = ground arith
cut-append c (x ∷ before) after h = ground (arith, cut-append c before after)

pub cut-none : (c : ℕ) (s : Text) → occurs c s ≡ false → cut c s ≡ none
unfolding cut occurs
cut-none c [] h = refl
cut-none c (x ∷ s) h = ground (arith, cut-none c s)
