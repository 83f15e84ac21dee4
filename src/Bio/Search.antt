-- ===== src/Bio/Search.antt =====
-- bget of bio.c: which buffer its two loops over the list find.
use xv6_fork.Prelude.{
  ℕ, zero, suc, ◌<◌, ◌≡◌, refl, sym, ap, ◌∙◌, inl, inr, arith, List, [], ◌∷◌, ◌++◌, ◌==◌, NotIn, In,
  Bool-cases, Bool, true, false, Option, none, some, length, ◌&&◌,
}
use xv6_fork.Bio.{Cache, head, find_cached}
use xv6_fork.Bio.Ring.{Chain}

-- The buffer is for this block.
abbrev pub is_for : ℕ → ℕ → Cache → ℕ → Bool
is_for dev blockno s b = (s.dev b == dev) && (s.blockno b == blockno)

-- The first buffer of `xs` that meets the test, or none does.
abbrev pub IsFirstOf : (ℕ → Bool) → List ℕ → Option ℕ → Type 0
IsFirstOf test xs none = (b : ℕ) → In b xs → test b ≡ false
IsFirstOf test xs (some b) =
    (ys zs : List ℕ) × (xs ≡ ys ++ b ∷ zs) × (test b ≡ true) × ((c : ℕ) → In c ys → test c ≡ false)

pub later-IsFirstOf :
    (test : ℕ → Bool) (x : ℕ) (xs : List ℕ) (o : Option ℕ)
    → test x ≡ false
    → IsFirstOf test xs o
    → IsFirstOf test (x ∷ xs) o
later-IsFirstOf test x xs none no_match h =
    λ b i. elim i [ inl e ↦ ap test (sym e) ∙ no_match | inr j ↦ h b j ]
later-IsFirstOf test x xs (some b) no_match (ys, zs, e, found, before) =
    (x ∷ ys, zs, ap (λ t. x ∷ t) e, found, go)
  where
    go : (c : ℕ) → In c (x ∷ ys) → test c ≡ false
    go c (inl same) = ap test (sym same) ∙ no_match
    go c (inr i) = before c i

pub find_cached-IsFirstOf :
    (k dev blockno a : ℕ) (s : Cache) (xs : List ℕ)
    → length xs < k
    → NotIn head xs
    → Chain s.next s.prev a xs head
    → IsFirstOf (is_for dev blockno s) xs (find_cached k (s.next a) dev blockno s)
unfolding find_cached
find_cached-IsFirstOf zero dev blockno a s xs lt out chain = absurd (omega arith)
find_cached-IsFirstOf (suc k) dev blockno a s [] lt out (n, p) = rw n (λ b i. absurd i)
find_cached-IsFirstOf (suc k) dev blockno a s (x ∷ xs) lt out (n, p, rest) =
    let inside : (x == head) ≡ false = ground (arith, out.0) in
    rw (n, inside)
      (elim (Bool-cases (is_for dev blockno s x)) [
        | inl found ↦ rw found ([], xs, refl, found, λ c i. absurd i)
        | inr other ↦ rw other (
            later-IsFirstOf (is_for dev blockno s) x xs _ other
              (find_cached-IsFirstOf k dev blockno x s xs (omega arith) out.1 rest))
      ])
