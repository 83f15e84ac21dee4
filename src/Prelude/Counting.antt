-- ===== src/Prelude/Counting.antt =====
-- How often a number stands in a list.
use Prim.Native.Nat.{ℕ, suc, ◌+◌}
use mathlib.Core.Path.{◌≡◌, refl}
use mathlib.Core.Logic.{◌≢◌, inl, inr}
use mathlib.Core.Bool.{true, false}
use mathlib.Core.List.{List, [], ◌∷◌, ◌++◌}
use native.Mathlib.Omega.{arith}
use xv6_fork.Prelude.Tests.{Bool-cases, if◌then◌else◌, ◌==◌}

abbrev pub count : ℕ → List ℕ → ℕ
count v [] = 0
count v (x ∷ xs) = let rest = count v xs in if x == v then suc rest else rest

pub count-append : (v : ℕ) (xs ys : List ℕ) → count v (xs ++ ys) ≡ count v xs + count v ys
count-append v [] ys = omega arith
count-append v (x ∷ xs) ys = elim (Bool-cases (x == v)) [
  | inl e ↦ rw (e, count-append v xs ys) (omega arith)
  | inr ne ↦ rw (ne, count-append v xs ys) refl
]

pub count_self : (f : ℕ) (held : List ℕ) → count f (f ∷ held) ≡ suc (count f held)
count_self f held = let same : (f == f) ≡ true = ground arith in rw same refl

pub count_ne : (f g : ℕ) (held : List ℕ) → f ≢ g → count g (f ∷ held) ≡ count g held
count_ne f g held ne = let other : (f == g) ≡ false = ground arith in rw other refl

module _ (f : ℕ) (xs ys : List ℕ) where
  pub count-here : count f (xs ++ f ∷ ys) ≡ suc (count f (xs ++ ys))
  count-here = rw (count-append f xs (f ∷ ys), count_self f ys, count-append f xs ys) (omega arith)

  pub count-elsewhere : (g : ℕ) → f ≢ g → count g (xs ++ ys) ≡ count g (xs ++ f ∷ ys)
  count-elsewhere g ne =
      rw (count-append g xs (f ∷ ys), count_ne f g ys ne, count-append g xs ys) refl
