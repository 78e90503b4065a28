-- ===== src/Strings/Trim.antt =====
-- strings.TrimSpace leaves no white space at either end, and is idempotent.
use mathlib.Core.List.{reverse, reverse-append, reverse-reverse, reverse-cons, append_assoc}
use relayent.Base.{
  ℕ, zero, suc, ◌-◌, ◌≤◌, Text, ◌≡◌, refl, sym, ap, ◌∙◌, Bool-cases, inl, inr, [], ◌∷◌, ◌++◌, arith,
  length, length-append, take, drop, ◌==ℕ◌,
}
use relayent.Strings.{space_width, space_width_back, strip, trim_left, trim_right, trim_space}

pub length-drop : (n : ℕ) (s : Text) → length (drop n s) ≡ length s - n
length-drop zero s = omega arith
length-drop (suc n) [] = omega arith
length-drop (suc n) (c ∷ s) = omega (arith, length-drop n s)

take-append-drop : (n : ℕ) (s : Text) → take n s ++ drop n s ≡ s
take-append-drop zero s = refl
take-append-drop (suc n) [] = refl
take-append-drop (suc n) (c ∷ s) = rw (take-append-drop n s)

module _ (width : Text → ℕ) where
  -- Enough fuel leaves nothing to drop.
  strip-done : (n : ℕ) (s : Text) → width [] ≡ 0 → length s ≤ n → width (strip width n s) ≡ 0
  unfolding strip
  strip-done zero [] w h = w
  strip-done zero (c ∷ s) w h = absurd (omega arith)
  strip-done (suc n) s w h = elim (Bool-cases (width s ==ℕ 0)) [
    | inl y ↦ rw y (ground arith)
    | inr k ↦ rw k (strip-done n (drop (width s) s) w (ground (arith, length-drop (width s) s)))
  ]

  pub strip-id : (n : ℕ) (s : Text) → width s ≡ 0 → strip width n s ≡ s
  unfolding strip
  strip-id zero s h = refl
  strip-id (suc n) s h = ground arith

  -- What is dropped is a piece at the front.
  strip-suffix : (n : ℕ) (s : Text) → (front : Text) × (front ++ strip width n s ≡ s)
  unfolding strip
  strip-suffix zero s = ([], refl)
  strip-suffix (suc n) s = elim (Bool-cases (width s ==ℕ 0)) [
    | inl y ↦ ([], rw y refl)
    | inr k ↦
        let (front, e) = strip-suffix n (drop (width s) s) in
        (
          take (width s) s ++ front,
          rw k (
              append_assoc (take (width s) s) front _
              ∙ ap (◌++◌ (take (width s) s)) e
              ∙ take-append-drop (width s) s),
        )
  ]

-- White space at the front of a piece is white space at the front of the whole.
space_width-prefix : (s t : Text) → space_width (s ++ t) ≡ 0 → space_width s ≡ 0
unfolding space_width
space_width-prefix [] t h = refl
space_width-prefix (a ∷ []) [] h = h
space_width-prefix (a ∷ []) (b ∷ []) h = ground arith
space_width-prefix (a ∷ []) (b ∷ c ∷ t) h = ground arith
space_width-prefix (a ∷ b ∷ []) [] h = h
space_width-prefix (a ∷ b ∷ []) (c ∷ t) h = ground arith
space_width-prefix (a ∷ b ∷ c ∷ s) t h = h

trim_left-done : (s : Text) → space_width (trim_left s) ≡ 0
unfolding trim_left space_width
trim_left-done s = strip-done space_width (length s) s refl (omega arith)

length-reverse : (s : Text) → length (reverse s) ≡ length s
length-reverse [] = refl
length-reverse (c ∷ s) =
    ap length (reverse-cons c s)
    ∙ length-append (reverse s) (c ∷ [])
    ∙ omega (arith, length-reverse s)

trim_right-done : (s : Text) → space_width_back (reverse (trim_right s)) ≡ 0
unfolding trim_right space_width_back
trim_right-done s =
    rw reverse-reverse
      (strip-done space_width_back (length s) (reverse s) refl (omega (arith, length-reverse s)))

pub trim_right-prefix : (s : Text) → (back : Text) × (trim_right s ++ back ≡ s)
unfolding trim_right
trim_right-prefix s =
    let (front, e) = strip-suffix space_width_back (length s) (reverse s) in
    (
      reverse front,
      sym (reverse-append front (strip space_width_back (length s) (reverse s)))
          ∙ ap reverse e
          ∙ reverse-reverse s,
    )

-- Both ends of a trimmed text are free of white space.
pub trim_space-done :
    (s : Text) → (space_width (trim_space s) ≡ 0) × (space_width_back (reverse (trim_space s)) ≡ 0)
unfolding trim_space
trim_space-done s =
    let (back, e) = trim_right-prefix (trim_left s) in
    (
      space_width-prefix (trim_right (trim_left s)) back (ap space_width e ∙ trim_left-done s),
      trim_right-done (trim_left s),
    )

pub trim_space-id :
    (s : Text) → space_width s ≡ 0 → space_width_back (reverse s) ≡ 0 → trim_space s ≡ s
unfolding trim_space
trim_space-id s l r =
    rw (strip-id space_width (length s) s l)
      (ap reverse (strip-id space_width_back (length s) (reverse s) r) ∙ reverse-reverse s)

pub trim_space_idem : (s : Text) → trim_space (trim_space s) ≡ trim_space s
trim_space_idem s = let d = trim_space-done s in trim_space-id (trim_space s) d.0 d.1

-- Trimming adds no byte.
pub trim_space-piece : (s : Text) → (front back : Text) × (front ++ trim_space s ++ back ≡ s)
unfolding trim_space trim_left
trim_space-piece s =
    let (front, e) = strip-suffix space_width (length s) s in
    let (back, f) = trim_right-prefix (strip space_width (length s) s) in
    (front, back, append_assoc front _ back ∙ ap (◌++◌ front) f ∙ e)
