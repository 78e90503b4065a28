-- ===== src/Strings.antt =====
-- The functions of Go's `strings` package that the program calls, on the bytes of valid UTF-8 text.
pub mod Trim
pub mod TrimEnd
pub mod Split
pub mod Search
pub mod Decimal
use mathlib.Core.List.{reverse}
use relayent.Base.{
  ℕ, zero, suc, ◌+◌, ◌-◌, Text, ◌==ℕ◌, ◌&&◌, ◌||◌, leb, if◌then◌else◌, Bool, true, false, List, [],
  ◌∷◌, ◌++◌, Option, none, some, length, drop,
}

-- The length of the white space character that the text begins with, or 0: ASCII space and tab to
-- carriage return, U+0085, U+00A0, U+1680, U+2000 to U+200A, U+2028, U+2029, U+202F, U+205F, U+3000.
is_wide_space : ℕ → ℕ → ℕ → Bool
is_wide_space a b c =
    a ==ℕ 0xe1 && (b ==ℕ 0x9a && c ==ℕ 0x80)
    || (a ==ℕ 0xe2
          && (b ==ℕ 0x80
              && (leb 0x80 c && leb c 0x8a || (c ==ℕ 0xa8 || (c ==ℕ 0xa9 || c ==ℕ 0xaf))))
        || (a ==ℕ 0xe2 && (b ==ℕ 0x81 && c ==ℕ 0x9f) || a ==ℕ 0xe3 && (b ==ℕ 0x80 && c ==ℕ 0x80)))

is_two_byte_space : ℕ → ℕ → Bool
is_two_byte_space a b = a ==ℕ 0xc2 && (b ==ℕ 0x85 || b ==ℕ 0xa0)

is_ascii_space : ℕ → Bool
is_ascii_space a = leb 9 a && leb a 13 || a ==ℕ 32

unfoldable pub space_width : Text → ℕ
unfolding is_wide_space is_two_byte_space is_ascii_space
space_width [] = 0
space_width (a ∷ []) = if is_ascii_space a then 1 else 0
space_width (a ∷ b ∷ []) = if is_ascii_space a then 1 else if is_two_byte_space a b then 2 else 0
space_width (a ∷ b ∷ c ∷ s) =
    if is_ascii_space a
    then 1
    else if is_two_byte_space a b
    then 2
    else if is_wide_space a b c
    then 3
    else 0

-- The same for the character that the text ends with; the text is read backwards.
unfoldable pub space_width_back : Text → ℕ
unfolding is_wide_space is_two_byte_space is_ascii_space
space_width_back [] = 0
space_width_back (a ∷ []) = if is_ascii_space a then 1 else 0
space_width_back (b ∷ a ∷ []) =
    if is_ascii_space b then 1 else if is_two_byte_space a b then 2 else 0
space_width_back (c ∷ b ∷ a ∷ s) =
    if is_ascii_space c
    then 1
    else if is_two_byte_space b c
    then 2
    else if is_wide_space a b c
    then 3
    else 0

-- Drops characters from the front as long as `width` finds one.
unfoldable pub strip : (Text → ℕ) → ℕ → Text → Text
strip width zero s = s
strip width (suc n) s =
    let rest = strip width n (drop (width s) s) in if width s ==ℕ 0 then s else rest

unfoldable pub trim_left : Text → Text
trim_left s = strip space_width (length s) s

unfoldable pub trim_right : Text → Text
trim_right s = reverse (strip space_width_back (length s) (reverse s))

-- strings.TrimSpace
unfoldable pub trim_space : Text → Text
unfolding trim_left trim_right
trim_space s = trim_right (trim_left s)

-- strings.Cut at a separator of one byte
unfoldable pub cut : ℕ → Text → Option (Text × Text)
cut sep [] = none
cut sep (c ∷ s) =
    let rest = cut sep s in
    if c ==ℕ sep
    then some ([], s)
    else elim rest [ none ↦ none | some (before, after) ↦ some (c ∷ before, after) ]

abbrev pub cons_head : ℕ → List Text → List Text
cons_head c [] = (c ∷ []) ∷ []
cons_head c (t ∷ ts) = (c ∷ t) ∷ ts

-- strings.Split at a separator of one byte
unfoldable pub split : ℕ → Text → List Text
split sep [] = [] ∷ []
split sep (c ∷ s) = let rest = split sep s in if c ==ℕ sep then [] ∷ rest else cons_head c rest

-- strings.Join with a separator of one byte
unfoldable pub join : ℕ → List Text → Text
join sep [] = []
join sep (t ∷ []) = t
join sep (t ∷ u ∷ ts) = t ++ sep ∷ join sep (u ∷ ts)

-- strings.HasPrefix, and what follows the prefix
unfoldable pub after_prefix : Text → Text → Option Text
after_prefix [] s = some s
after_prefix (p ∷ ps) [] = none
after_prefix (p ∷ ps) (c ∷ s) = let rest = after_prefix ps s in if p ==ℕ c then rest else none

-- strings.ToLower: ASCII letters, and the two other characters whose lower case is ASCII (U+0130 and
-- U+212A). No further letter is changed: its lower case would not be ASCII either.
abbrev lower_dotted_i : ℕ → Text → Text → Text
lower_dotted_i c [] low = c ∷ low
lower_dotted_i c (d ∷ s) low = if c ==ℕ 0xc4 && d ==ℕ 0xb0 then 0x69 ∷ drop 1 low else c ∷ low

abbrev lower_kelvin : ℕ → Text → Text → Text
lower_kelvin c (d ∷ e ∷ s) low =
    if c ==ℕ 0xe2 && (d ==ℕ 0x84 && e ==ℕ 0xaa)
    then 0x6b ∷ drop 2 low
    else lower_dotted_i c (d ∷ e ∷ s) low
lower_kelvin c s low = lower_dotted_i c s low

unfoldable pub to_lower : Text → Text
to_lower [] = []
to_lower (c ∷ s) =
    let low = to_lower s in if leb 65 c && leb c 90 then (c + 32) ∷ low else lower_kelvin c s low
