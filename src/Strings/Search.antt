-- ===== src/Strings/Search.antt =====
-- The functions of Go's `strings` package that look for a piece of several bytes.
use relayent.Base.{
  ℕ, zero, suc, ◌==ℕ◌, Text, Bool, true, false, List, [], ◌∷◌, ◌++◌, Option, none, some,
  if◌then◌else◌, ◌≡◌, refl, arith,
}
use relayent.Strings.{after_prefix}

-- What stands before and after the first occurrence of a piece.
unfoldable pub cut_at : Text → Text → Option (Text × Text)
cut_at piece [] = elim (after_prefix piece []) [ none ↦ none | some after ↦ some ([], after) ]
cut_at piece (c ∷ s) =
    let later = cut_at piece s in
    elim (after_prefix piece (c ∷ s)) [
      | some after ↦ some ([], after)
      | none ↦ elim later [ none ↦ none | some (before, after) ↦ some (c ∷ before, after) ]
    ]

-- strings.Contains
unfoldable pub contains : Text → Text → Bool
unfolding cut_at
contains piece s = elim (cut_at piece s) [ none ↦ false | some _ ↦ true ]

-- strings.SplitN for a positive count: at most so many pieces, the last one unsplit
unfoldable pub split_n : ℕ → Text → Text → List Text
split_n zero piece s = []
split_n (suc zero) piece s = s ∷ []
split_n (suc (suc n)) piece s = elim (cut_at piece s) [
  | none ↦ s ∷ []
  | some (before, after) ↦ before ∷ split_n (suc n) piece after
]

-- strings.TrimPrefix
unfoldable pub trim_prefix : Text → Text → Text
trim_prefix prefix s = elim (after_prefix prefix s) [ none ↦ s | some after ↦ after ]

keep_head : ℕ → ℕ → Text → Text
keep_head b c [] = if c ==ℕ b then [] else c ∷ []
keep_head b c (d ∷ s) = c ∷ d ∷ s

-- strings.TrimRight with a cut set of one byte
unfoldable pub drop_trailing : ℕ → Text → Text
unfolding keep_head
drop_trailing b [] = []
drop_trailing b (c ∷ s) = keep_head b c (drop_trailing b s)

pub after_prefix-append : (p s : Text) → after_prefix p (p ++ s) ≡ some s
unfolding after_prefix
after_prefix-append [] s = refl
after_prefix-append (c ∷ p) s = ground (arith, after_prefix-append p s)
