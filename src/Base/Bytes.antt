-- ===== src/Base/Bytes.antt =====
-- Go strings are sequences of bytes. Equality is decided by `==`.
use Prim.Native.Nat.{ℕ}
use Prim.Native.Char.{code}
use Prim.Native.String.{String}
use mathlib.Core.Path.{◌≡◌, refl}
use mathlib.Core.Logic.{◌↔◌, ◌≢◌}
use mathlib.Core.Bool.{Bool, true, false, ◌&&◌}
use mathlib.Core.List.{List, [], ◌∷◌}
use native.Mathlib.Omega.{arith}
use relayent.Base.Tests.{◌==ℕ◌}

abbrev pub Text : Type 0
Text = List ℕ

-- The bytes of an ASCII literal.
abbrev pub codes : String → Text
codes String.[] = []
codes (String.◌∷◌ c s) = code c ∷ codes s

infix 50 ◌==◌
unfoldable pub ◌==◌ : Text → Text → Bool
[] == [] = true
[] == (b ∷ t) = false
(a ∷ s) == [] = false
(a ∷ s) == (b ∷ t) = a ==ℕ b && s == t

pub eq_refl : (s : Text) → (s == s) ≡ true
unfolding ◌==◌
eq_refl [] = refl
eq_refl (a ∷ s) = ground (arith, eq_refl s)

pub eq_of_eq : (s t : Text) → (s == t) ≡ true → s ≡ t
unfolding ◌==◌
eq_of_eq [] [] h = refl
eq_of_eq [] (b ∷ t) h = cc
eq_of_eq (a ∷ s) [] h = cc
eq_of_eq (a ∷ s) (b ∷ t) h = ground (arith, eq_of_eq s t)

pub eq_iff : (s t : Text) → ((s == t) ≡ true) ↔ (s ≡ t)
eq_iff s t = (eq_of_eq s t, λ e. rw e (eq_refl t))

pub eq-false_of_ne : (s t : Text) → s ≢ t → (s == t) ≡ false
eq-false_of_ne s t h = ground (arith, eq_iff s t, h)
