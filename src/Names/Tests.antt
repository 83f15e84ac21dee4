-- ===== src/Names/Tests.antt =====
-- The path `//a/bb/`.
use xv6_fork.Prelude.{ℕ, ◌≡◌, refl, arith, List, [], ◌∷◌}
use xv6_fork.Names.{elements, skipelem, skip_slashes, element}
use xv6_fork.Names.Elements.{joined, names, elements-joined}

abbrev slash : List ℕ
slash = b'/' ∷ []

abbrev parts : List (List ℕ × List ℕ)
parts = (b'/' ∷ b'/' ∷ [], b'a' ∷ []) ∷ (slash, b'b' ∷ b'b' ∷ []) ∷ []

elements-joined_example : elements 3 (joined parts slash) ≡ names parts
elements-joined_example =
    elements-joined 3 parts slash
      (
        (refl, (refl, tt)),
        ((λ e. cc), ((λ e. omega arith), tt)),
        refl,
        ((refl, tt), ((λ e. cc), ((λ e. omega arith), ((λ e. omega arith), tt))), refl, (refl, tt)),
      )
      (omega arith)

two_elements : elements 3 (joined parts slash) ≡ (b'a' ∷ []) ∷ (b'b' ∷ b'b' ∷ []) ∷ []
unfolding elements skipelem skip_slashes element
two_elements = refl
