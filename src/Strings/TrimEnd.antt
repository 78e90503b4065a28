-- ===== src/Strings/TrimEnd.antt =====
-- strings.TrimSpace: a carriage return at the end, and a first character that is no white space.
use mathlib.Core.List.{reverse, reverse-append}
use relayent.Base.{
  ℕ, zero, suc, ◌+◌, ◌≤◌, Text, ◌≡◌, refl, sym, ap, ◌∙◌, Bool-cases, inl, inr, ◌⊎◌, [], ◌∷◌, ◌++◌,
  arith, length, length-append, drop, ◌==ℕ◌,
}
use relayent.Strings.{space_width, space_width_back, strip, trim_left, trim_right, trim_space}
use relayent.Strings.Trim.{strip-id, trim_right-prefix, length-drop}

space_width-le : (s : Text) → space_width s ≤ length s
unfolding space_width
space_width-le [] = omega arith
space_width-le (a ∷ []) = ground arith
space_width-le (a ∷ b ∷ []) = ground arith
space_width-le (a ∷ b ∷ c ∷ s) = ground arith

-- A carriage return completes no white space character.
space_width-cr : (c : ℕ) (s : Text) → space_width ((c ∷ s) ++ 13 ∷ []) ≡ space_width (c ∷ s)
unfolding space_width
space_width-cr a [] = ground arith
space_width-cr a (b ∷ []) = ground arith
space_width-cr a (b ∷ c ∷ s) = refl

space_width_back-cr : (s : Text) → space_width_back (13 ∷ s) ≡ 1
unfolding space_width_back
space_width_back-cr [] = refl
space_width_back-cr (a ∷ []) = refl
space_width_back-cr (a ∷ b ∷ s) = refl

drop-append : (n : ℕ) (s t : Text) → n ≤ length s → drop n (s ++ t) ≡ drop n s ++ t
drop-append zero s t h = refl
drop-append (suc n) [] t h = absurd (omega arith)
drop-append (suc n) (c ∷ s) t h = drop-append n s t (omega arith)

strip-nil : (n : ℕ) → strip space_width n [] ≡ []
unfolding strip space_width
strip-nil n = strip-id space_width n [] refl

-- With a carriage return behind it, a text is stripped of the same, or of all.
abbrev CrStrips : ℕ → ℕ → Text → Type 0
CrStrips m n s =
    (strip space_width m (s ++ 13 ∷ []) ≡ strip space_width n s ++ 13 ∷ [])
    ⊎ ((strip space_width m (s ++ 13 ∷ []) ≡ []) × (strip space_width n s ≡ []))

strip-CrStrips : (n : ℕ) (s : Text) → length s ≤ n → CrStrips (suc n) n s
unfolding strip space_width
strip-CrStrips n [] h = inr (strip-nil n, strip-nil n)
strip-CrStrips zero (c ∷ s) h = absurd (omega arith)
strip-CrStrips (suc n) (c ∷ s) h = elim (Bool-cases (space_width (c ∷ s) ==ℕ 0)) [
  | inl y ↦ inl (rw (space_width-cr c s) (rw y refl))
  | inr k ↦ rw (space_width-cr c s) (
      rw (drop-append (space_width (c ∷ s)) (c ∷ s) (13 ∷ []) (space_width-le (c ∷ s))) (
        rw k (
          strip-CrStrips n (drop (space_width (c ∷ s)) (c ∷ s))
            (ground (arith, length-drop (space_width (c ∷ s)) (c ∷ s))))))
]

trim_left-CrStrips :
    (s : Text)
    → (trim_left (s ++ 13 ∷ []) ≡ trim_left s ++ 13 ∷ [])
      ⊎ ((trim_left (s ++ 13 ∷ []) ≡ []) × (trim_left s ≡ []))
unfolding trim_left
trim_left-CrStrips s =
    rw (length-append s (13 ∷ []) ∙ more (length s)) (strip-CrStrips (length s) s (omega arith))
  where
    more : (n : ℕ) → n + length {A = ℕ} (13 ∷ []) ≡ suc n
    more n = omega arith

trim_right-cr : (s : Text) → trim_right (s ++ 13 ∷ []) ≡ trim_right s
unfolding trim_right strip
trim_right-cr s =
    rw (reverse-append s (13 ∷ []))
      (rw (length-append s (13 ∷ []) ∙ more (length s)) (rw (space_width_back-cr (reverse s)) refl))
  where
    more : (n : ℕ) → n + length {A = ℕ} (13 ∷ []) ≡ suc n
    more n = omega arith

-- A carriage return at the end is trimmed.
pub trim_space-cr : (s : Text) → trim_space (s ++ 13 ∷ []) ≡ trim_space s
unfolding trim_space
trim_space-cr s = elim (trim_left-CrStrips s) [
  | inl e ↦ ap trim_right e ∙ trim_right-cr (trim_left s)
  | inr (e, f) ↦ ap trim_right (e ∙ sym f)
]

-- A first character that is no white space stays, unless nothing does.
pub trim_space-head :
    (c : ℕ) (s : Text)
    → space_width (c ∷ s) ≡ 0
    → (trim_space (c ∷ s) ≡ []) ⊎ ((r : Text) × (trim_space (c ∷ s) ≡ c ∷ r))
unfolding trim_space trim_left
trim_space-head c s h =
    rw (strip-id space_width (length (c ∷ s)) (c ∷ s) h)
      (let (back, e) = trim_right-prefix (c ∷ s) in head (trim_right (c ∷ s)) back e)
  where
    head : (t back : Text) → t ++ back ≡ c ∷ s → (t ≡ []) ⊎ ((r : Text) × (t ≡ c ∷ r))
    head [] back e = inl refl
    head (d ∷ t) back e = inr (t, (cc))
