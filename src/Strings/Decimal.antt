-- ===== src/Strings/Decimal.antt =====
-- strconv.Itoa of a number that is not negative, and what it writes.
use relayent.Base.{
  ℕ, zero, suc, ◌+◌, ◌-◌, ◌*◌, ◌/◌, ◌%◌, ◌<◌, Text, false, [], ◌∷◌, ◌≡◌, refl, sym, ap, ◌∙◌, ◌⊎◌,
  arith, if◌then◌else◌, ltb, Bool-cases, inl, inr,
}
use relayent.Strings.Split.{occurs}

-- The digits of a number before a text; the fuel is above the number.
unfoldable pub digits : ℕ → ℕ → Text → Text
digits zero n rest = rest
digits (suc fuel) n rest =
    let more = digits fuel (n / 10) ((b'0' + n % 10) ∷ rest) in
    if ltb n 10 then (b'0' + n) ∷ rest else more

unfoldable pub itoa : ℕ → Text
unfolding digits
itoa n = digits (suc n) n []

-- The number that digits stand for, after a number that was read before them.
abbrev pub value_after : ℕ → Text → ℕ
value_after v [] = v
value_after v (c ∷ s) = value_after (v * 10 + (c - b'0')) s

value_after-digits :
    (fuel n : ℕ) (rest : Text) → n < fuel → value_after 0 (digits fuel n rest) ≡ value_after n rest
unfolding digits
value_after-digits zero n rest h = elim h [ ]
value_after-digits (suc fuel) n rest h = elim (Bool-cases (ltb n 10)) [
  | inl y ↦ rw y (ap (λ v. value_after v rest) (omega arith))
  | inr k ↦ rw k (
      value_after-digits fuel (n / 10) ((b'0' + n % 10) ∷ rest) (ground arith)
      ∙ ap (λ v. value_after v rest) (omega arith))
]

pub value_after-itoa : (n : ℕ) → value_after 0 (itoa n) ≡ n
unfolding itoa
value_after-itoa n = value_after-digits (suc n) n [] (omega arith)

pub itoa-inj : (m n : ℕ) → itoa m ≡ itoa n → m ≡ n
itoa-inj m n h = sym (value_after-itoa m) ∙ ap (value_after 0) h ∙ value_after-itoa n

-- A byte that is no digit does not stand in a number.
occurs-digits :
    (c fuel n : ℕ) (rest : Text)
    → (c < b'0') ⊎ (b'9' < c)
    → occurs c rest ≡ false
    → occurs c (digits fuel n rest) ≡ false
unfolding occurs digits
occurs-digits c zero n rest h e = e
occurs-digits c (suc fuel) n rest h e =
    ground (arith, occurs-digits c fuel (n / 10) ((b'0' + n % 10) ∷ rest) h)

pub occurs-itoa : (c n : ℕ) → (c < b'0') ⊎ (b'9' < c) → occurs c (itoa n) ≡ false
unfolding itoa occurs
occurs-itoa c n h = occurs-digits c (suc n) n [] h refl
