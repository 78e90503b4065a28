-- ===== src/Adapters/SpanLaws.antt =====
-- parseJSON's fallback: the loop over the braces finds the first balanced span.
use relayent.Base.{
  ℕ, zero, suc, ◌+◌, ◌<◌, Text, ◌==ℕ◌, ◌≡◌, ◌≢◌, refl, sym, ap, ◌∙◌, ◌↔◌, ◌⊎◌, ◌&&◌, true, false,
  [], ◌∷◌, ◌++◌, some, arith, take, length, if◌then◌else◌, Bool-cases, Option-cases, inl, inr,
}
use relayent.Strings.Split.{occurs}
use relayent.Adapters.Json.{depth_after, close_span, from_brace, balanced_span}

-- How often a byte stands in a text.
abbrev pub count : ℕ → Text → ℕ
count b [] = 0
count b (c ∷ s) = (if c ==ℕ b then 1 else 0) + count b s

abbrev pub opens : Text → ℕ
opens = count b'{'

abbrev pub closes : Text → ℕ
closes = count b'}'

-- The text closes `depth` more braces than it opens, and no shorter piece of it does.
abbrev Closing : ℕ → Text → Type 0
Closing depth t =
    (closes t ≡ opens t + depth)
    × ((n : ℕ) → n < length t → closes (take n t) < opens (take n t) + depth)

Closing-cons :
    (depth c : ℕ) (t : Text) → 0 < depth → Closing (depth_after depth c) t → Closing depth (c ∷ t)
Closing-cons depth c t h (e, p) = (ground arith, prefix)
  where
    prefix : (n : ℕ) → n < length (c ∷ t) → closes (take n (c ∷ t)) < opens (take n (c ∷ t)) + depth
    prefix zero l = omega arith
    prefix (suc n) l = let q = p n (omega arith) in ground arith

Closing-tail :
    (depth c : ℕ) (t : Text) → 0 < depth → Closing depth (c ∷ t) → Closing (depth_after depth c) t
Closing-tail depth c t h (e, p) =
    (ground arith, λ n l. let q = p (suc n) (omega arith) in ground arith)

single :
    (depth c : ℕ)
    → 0 < depth
    → (c ==ℕ b'}') ≡ true
    → (n : ℕ) → n < length (c ∷ [])
    → closes (take n (c ∷ [])) < opens (take n (c ∷ [])) + depth
single depth c h e zero l = omega arith
single depth c h e (suc n) l = absurd (omega arith)

close_span-Closing :
    (depth : ℕ) (s t : Text)
    → 0 < depth
    → close_span depth s ≡ some t
    → (back : Text) × (t ++ back ≡ s) × Closing depth t
unfolding close_span
close_span-Closing depth [] t h e = cc
close_span-Closing depth (c ∷ s) t h e =
    elim (Bool-cases (c ==ℕ b'}' && depth_after depth c ==ℕ 0)) [
      | inl y ↦
          let q : c ∷ [] ≡ t = ground arith in
          rw (← q) (s, refl, (ground arith, single depth c h (ground arith)))
      | inr k ↦ elim (Option-cases (close_span (depth_after depth c) s)) [
        | inl n ↦ ground arith
        | inr (u, f) ↦
            let q : c ∷ u ≡ t = ground arith in
            let (back, g, closing) =
              close_span-Closing (depth_after depth c) s u (ground arith) f in
            rw (← q) (back, ap (◌∷◌ c) g, Closing-cons depth c u h closing)
      ]
    ]

close_span_complete :
    (depth : ℕ) (t back : Text)
    → 0 < depth
    → Closing depth t
    → close_span depth (t ++ back) ≡ some t
unfolding close_span
close_span_complete depth [] back h (e, p) = absurd (omega arith)
close_span_complete depth (c ∷ []) back h (e, p) = ground arith
close_span_complete depth (c ∷ d ∷ t) back h (e, p) =
    let q : closes (c ∷ []) < opens (c ∷ []) + depth = p 1 (omega arith) in
    let ih =
      close_span_complete (depth_after depth c) (d ∷ t) back (ground arith)
        (Closing-tail depth c (d ∷ t) h (e, p)) in
    ground arith

-- A balanced text that begins with a brace, no shorter piece of which is balanced.
abbrev pub IsBlock : Text → Type 0
IsBlock t =
    (0 < opens t)
    × (closes t ≡ opens t)
    × ((n : ℕ) → 0 < n → n < length t → closes (take n t) < opens (take n t))

-- The first block of a text: no brace opens before it.
abbrev pub IsFirstBlock : Text → Text → Type 0
IsFirstBlock s t =
    (front : Text) × (back : Text) × (front ++ (t ++ back) ≡ s)
    × (occurs b'{' front ≡ false)
    × IsBlock t

IsBlock-head : (c : ℕ) (t : Text) → IsBlock (c ∷ t) → (c ==ℕ b'{') ≡ true
IsBlock-head c [] (o, e, p) = ground arith
IsBlock-head c (d ∷ t) (o, e, p) = let q = p 1 (omega arith) (omega arith) in ground arith

from_brace-split :
    (s : Text) → (front : Text) × (front ++ from_brace s ≡ s) × (occurs b'{' front ≡ false)
unfolding from_brace occurs
from_brace-split [] = ([], refl, refl)
from_brace-split (c ∷ s) = elim (Bool-cases (c ==ℕ b'{')) [
  | inl y ↦ rw y ([], refl, refl)
  | inr n ↦ let (front, e, o) = from_brace-split s in rw n (c ∷ front, ap (◌∷◌ c) e, ground arith)
]

from_brace-append :
    (front s : Text) → occurs b'{' front ≡ false → from_brace (front ++ s) ≡ from_brace s
unfolding from_brace occurs
from_brace-append [] s h = refl
from_brace-append (c ∷ front) s h = ground (arith, from_brace-append front s)

from_brace-head : (c : ℕ) (s : Text) → (c ==ℕ b'{') ≡ true → from_brace (c ∷ s) ≡ c ∷ s
unfolding from_brace
from_brace-head c s h = rw h refl

-- The text that `from_brace` leaves begins with a brace, or is empty.
from_brace-cases :
    (s : Text)
    → (from_brace s ≡ []) ⊎ ((c : ℕ) × (r : Text) × (from_brace s ≡ c ∷ r) × ((c ==ℕ b'{') ≡ true))
unfolding from_brace
from_brace-cases [] = inl refl
from_brace-cases (c ∷ s) = elim (Bool-cases (c ==ℕ b'{')) [
  | inl y ↦ inr (c, s, rw y refl, y)
  | inr n ↦ rw n (from_brace-cases s)
]

IsBlock-cons :
    (c : ℕ) (t : Text) → (c ==ℕ b'{') ≡ true → Closing (depth_after 0 c) t → IsBlock (c ∷ t)
IsBlock-cons c t y (e, p) = (ground arith, ground arith, prefix)
  where
    prefix : (n : ℕ) → 0 < n → n < length (c ∷ t) → closes (take n (c ∷ t)) < opens (take n (c ∷ t))
    prefix zero z l = elim z [ ]
    prefix (suc n) z l = let q = p n (omega arith) in ground arith

Closing-block :
    (c : ℕ) (t : Text) → (c ==ℕ b'{') ≡ true → IsBlock (c ∷ t) → Closing (depth_after 0 c) t
Closing-block c t y (o, e, p) =
    (ground arith, λ n l. let q = p (suc n) (omega arith) (omega arith) in ground arith)

-- From its opening brace a block is closed from depth 1, and back.
close_span-IsBlock :
    (c : ℕ) (r t : Text)
    → (c ==ℕ b'{') ≡ true
    → close_span 0 (c ∷ r) ≡ some t
    → (back : Text) × (t ++ back ≡ c ∷ r) × IsBlock t
unfolding close_span
close_span-IsBlock c r t y h = elim (Option-cases (close_span (depth_after 0 c) r)) [
  | inl n ↦ ground arith
  | inr (u, f) ↦
      let q : c ∷ u ≡ t = ground arith in
      let (back, g, closing) = close_span-Closing (depth_after 0 c) r u (ground arith) f in
      rw (← q) (back, ap (◌∷◌ c) g, IsBlock-cons c u y closing)
]

block-close_span : (t back : Text) → IsBlock t → close_span 0 (from_brace (t ++ back)) ≡ some t
unfolding close_span
block-close_span [] back (o, e, p) = absurd (omega arith)
block-close_span (c ∷ t) back b =
    let y = IsBlock-head c t b in
    let step =
      close_span_complete (depth_after 0 c) t back (ground arith) (Closing-block c t y b) in
    rw (from_brace-head c (t ++ back) y) (ground arith)

no_span : (s t : Text) → from_brace s ≡ [] → close_span 0 (from_brace s) ≢ some t
unfolding close_span
no_span s t e h = let k = ap (close_span 0) (sym e) ∙ h in cc

-- The fallback finds exactly the first block: a piece that begins at the first brace that opens, closes
-- as many braces as it opens, and has fewer closed than opened after any shorter piece.
pub balanced_span_iff : (s t : Text) → (balanced_span s ≡ some t) ↔ IsFirstBlock s t
unfolding balanced_span
balanced_span_iff s t = (sound, complete)
  where
    sound : close_span 0 (from_brace s) ≡ some t → IsFirstBlock s t
    sound h = elim (from_brace-cases s) [
      | inl n ↦ absurd (no_span s t n h)
      | inr (c, r, f, y) ↦
          let (front, e, o) = from_brace-split s in
          let (back, g, b) = close_span-IsBlock c r t y (ap (close_span 0) (sym f) ∙ h) in
          (front, back, ap (◌++◌ front) (g ∙ sym f) ∙ e, o, b)
    ]

    complete : IsFirstBlock s t → close_span 0 (from_brace s) ≡ some t
    complete (front, back, e, o, b) =
        rw (← e) (rw (from_brace-append front (t ++ back) o) (block-close_span t back b))
