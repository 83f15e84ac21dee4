-- ===== src/Names/Shorter.antt =====
-- skipelem of fs.c takes at least a character off a path.
use xv6_fork.Prelude.{
  ℕ, ◌<◌, ◌≤◌, ◌≡◌, refl, ap, inl, inr, arith, false, Bool-cases, Option, none, some, List, [], ◌∷◌,
  ◌==◌, length,
}
use mathlib.Core.Path.{subst}
use xv6_fork.Names.{skip_slashes, element, skipelem}

length-skip_slashes : (s : List ℕ) → length (skip_slashes s) ≤ length s
unfolding skip_slashes
length-skip_slashes [] = omega arith
length-skip_slashes (c ∷ s) = elim (Bool-cases (c == b'/')) [
  | inl slash ↦ rw slash (omega (arith, length-skip_slashes s))
  | inr other ↦ rw other (omega arith)
]

length-element : (s : List ℕ) → length (element s).1 ≤ length s
unfolding element
length-element [] = omega arith
length-element (c ∷ s) = elim (Bool-cases (c == b'/')) [
  | inl slash ↦ rw slash (omega arith)
  | inr other ↦ rw other (omega (arith, length-element s))
]

skip_slashes_plain :
    (path : List ℕ) (c : ℕ) (s : List ℕ)
    → skip_slashes path ≡ c ∷ s
    → ((c == b'/') ≡ false) × (length (c ∷ s) ≤ length path)
unfolding skip_slashes
skip_slashes_plain [] c s e = absurd (cc)
skip_slashes_plain (d ∷ path) c s e = elim (Bool-cases (d == b'/')) [
  | inl slash ↦ let r = skip_slashes_plain path c s (rw slash at e) in (r.0, omega (arith, r.1))
  | inr other ↦
      let q : d ∷ path ≡ c ∷ s = rw other at e in
      let head : d ≡ c = cc in
      (
        subst (λ x. (x == b'/') ≡ false) head other,
        subst (λ l. length l ≤ length (d ∷ path)) q (omega arith),
      )
]

pub length-skipelem :
    (path elem rest : List ℕ) → skipelem path ≡ some (elem, rest) → length rest < length path
unfolding skipelem element
length-skipelem path elem rest e = result (skip_slashes path) refl
  where
    second :
        (a b c d : List ℕ) → ◌≡◌ {A = Option (List ℕ × List ℕ)} (some (a, b)) (some (c, d)) → b ≡ d
    second a b c d q = ap (λ o. elim o [ none ↦ b | some p ↦ p.1 ]) q

    result : (l : List ℕ) → skip_slashes path ≡ l → length rest < length path
    result [] k =
        let bad : ◌≡◌ {A = Option (List ℕ × List ℕ)} none (some (elem, rest)) =
          rw (skipelem, k) at e in
        absurd (cc)
    result (c ∷ s) k =
        let (plain, less) = skip_slashes_plain path c s k in
        let good = rw (skipelem, k) at e in
        let same = second _ _ elem rest good in
        let left : length (element (c ∷ s)).1 ≤ length s = rw plain (length-element s) in
        let fewer = length-skip_slashes (element (c ∷ s)).1 in
        subst (λ r. length r < length path) same (omega (arith, left, fewer, less))
