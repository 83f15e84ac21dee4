-- ===== src/Syscall/Lowest.antt =====
-- fdalloc of sysfile.c takes the lowest free descriptor.
use xv6_fork.Prelude.{
  count, ℕ, zero, suc, ◌+◌, ◌<◌, ◌≡◌, ◌≢◌, refl, ap, ◌∙◌, arith, Option, none, some, List, [], ◌∷◌,
  ◌++◌, set, length,
}
use xv6_fork.Syscall.{file_at, fdalloc}

-- The references to files that a table of descriptors holds.
abbrev pub refs : List (Option ℕ) → List ℕ
refs [] = []
refs (none ∷ fs) = refs fs
refs (some f ∷ fs) = f ∷ refs fs

-- A used descriptor is one reference, and closing it leaves the others.
pub refs_at :
    (ofile : List (Option ℕ)) (fd f : ℕ)
    → file_at ofile fd ≡ some f
    → (xs : List ℕ) × (ys : List ℕ) × (refs ofile ≡ xs ++ f ∷ ys)
      × (refs (set ofile fd none) ≡ xs ++ ys)
refs_at [] fd f e = absurd (cc)
refs_at (none ∷ fs) zero f e = absurd (cc)
refs_at (some g ∷ fs) zero f e = ([], refs fs, ap (λ h. h ∷ refs fs) (ground arith), refl)
refs_at (none ∷ fs) (suc fd) f e = refs_at fs fd f e
refs_at (some g ∷ fs) (suc fd) f e =
    let (xs, ys, p, q) = refs_at fs fd f e in (g ∷ xs, ys, ap (λ l. g ∷ l) p, ap (λ l. g ∷ l) q)

-- What fdalloc amounts to: no free descriptor, or the lowest one taken.
abbrev pub Allocs : ℕ → List (Option ℕ) → Option (ℕ × List (Option ℕ)) → Type 0
Allocs f ofile none = (j : ℕ) → j < length ofile → file_at ofile j ≢ none
Allocs f ofile (some (fd, ofile')) =
    (file_at ofile fd ≡ none)
    × (file_at ofile' fd ≡ some f)
    × (ofile' ≡ set ofile fd (some f))
    × ((j : ℕ) → j < fd → file_at ofile j ≢ none)
    × ((g : ℕ) → count g (refs ofile') ≡ count g (f ∷ refs ofile))

count_swap : (v f g : ℕ) (xs : List ℕ) → count v (f ∷ g ∷ xs) ≡ count v (g ∷ f ∷ xs)
count_swap v f g xs = ground arith

more-Allocs :
    (f g : ℕ) (fs : List (Option ℕ)) (r : Option (ℕ × List (Option ℕ)))
    → Allocs f fs r
    → Allocs f (some g ∷ fs) (elim r [ none ↦ none | some (fd, gs) ↦ some (fd + 1, some g ∷ gs) ])
more-Allocs f g fs none h = λ j lt. used j lt
  where
    used : (j : ℕ) → j < suc (length fs) → file_at (some g ∷ fs) j ≢ none
    used zero lt = λ e. cc
    used (suc j) lt = h j (omega arith)
more-Allocs f g fs (some (fd, gs)) h =
    rw (next fd) (h.0, h.1, ap (λ l. some g ∷ l) h.2, below, counted)
  where
    next : (n : ℕ) → n + 1 ≡ suc n
    next n = omega arith

    below : (j : ℕ) → j < suc fd → file_at (some g ∷ fs) j ≢ none
    below zero lt = λ e. cc
    below (suc j) lt = h.3 j (omega arith)

    same_front :
        (v : ℕ) (xs ys : List ℕ) → count v xs ≡ count v ys → count v (g ∷ xs) ≡ count v (g ∷ ys)
    same_front v xs ys e = ground arith

    counted : (v : ℕ) → count v (g ∷ refs gs) ≡ count v (f ∷ g ∷ refs fs)
    counted v = same_front v (refs gs) (f ∷ refs fs) (h.4 v) ∙ count_swap v g f (refs fs)

pub fdalloc-Allocs : (f : ℕ) (ofile : List (Option ℕ)) → Allocs f ofile (fdalloc f ofile)
unfolding fdalloc
fdalloc-Allocs f [] = λ j lt. absurd (omega arith)
fdalloc-Allocs f (none ∷ fs) = (refl, refl, refl, (λ j lt. absurd (omega arith)), (λ v. refl))
fdalloc-Allocs f (some g ∷ fs) = more-Allocs f g fs (fdalloc f fs) (fdalloc-Allocs f fs)
