-- ===== src/Syscall/Descriptors.antt =====
-- dup and close of sysfile.c with the reference counts of file.c.
use xv6_fork.Prelude.{
  count, count-append, ℕ, zero, suc, ◌+◌, ◌<◌, ◌≡◌, ◌≢◌, refl, sym, ap, ◌∙◌, inl, inr, Option-cases,
  arith, false, Option, none, some, List, ◌∷◌, ◌++◌, append_assoc, if◌then◌else◌, ◌==◌, set, length,
}
use mathlib.Core.Path.{subst}
use xv6_fork.File.{File, Release, nothing, release_of, filedup, fileclose}
use xv6_fork.File.Counts.{
  IsHeld, duplicated, filedup-held, duplicated-IsHeld, fileclose-counted, dropped, given_back,
  ref-here, dropped-IsHeld,
}
use xv6_fork.Syscall.{
  User, file_at, argint, argfd, fdalloc, Outcome, fails, panics, returns, dup_file, sys_dup,
  close_file, sys_close,
}
use xv6_fork.Syscall.Lowest.{refs, refs_at, Allocs, fdalloc-Allocs}

-- What dup and close by a process come to: `others` are the references that are not in its table.
abbrev pub Dups : ℕ → List (Option ℕ) → List ℕ → Outcome → Type 0
Dups f ofile others fails = (j : ℕ) → j < length ofile → file_at ofile j ≢ none
Dups f ofile others panics = ⊥
Dups f ofile others (returns fd ofile' files' r) =
    IsHeld files' (refs ofile' ++ others)
    × (ofile' ≡ set ofile fd (some f))
    × (file_at ofile fd ≡ none)
    × ((j : ℕ) → j < fd → file_at ofile j ≢ none)
    × (r ≡ nothing)

counts-IsHeld :
    (files : ℕ → File) (held held2 : List ℕ)
    → ((g : ℕ) → count g held2 ≡ count g held)
    → IsHeld files held
    → IsHeld files held2
counts-IsHeld files held held2 e h g = h g ∙ sym (e g)

dup_file-full :
    (f : ℕ) (ofile : List (Option ℕ)) (files : ℕ → File)
    → fdalloc f ofile ≡ none
    → dup_file f ofile files ≡ fails
unfolding dup_file
dup_file-full f ofile files e = rw (e, dup_file) refl

dup_file-found :
    (f fd : ℕ) (ofile ofile' : List (Option ℕ)) (files files' : ℕ → File)
    → fdalloc f ofile ≡ some (fd, ofile')
    → filedup f files ≡ some files'
    → dup_file f ofile files ≡ returns fd ofile' files' nothing
unfolding dup_file
dup_file-found f fd ofile ofile' files files' e d = rw (e, dup_file, d) refl

close_file-found :
    (fd f : ℕ) (ofile : List (Option ℕ)) (files files' : ℕ → File) (r : Release)
    → fileclose f files ≡ some (files', r)
    → close_file fd f ofile files ≡ returns 0 (set ofile fd none) files' r
unfolding close_file
close_file-found fd f ofile files files' r e = rw (e, close_file) refl

-- close takes the descriptor out of the table; the file is given back if it was the last reference.
abbrev pub Closes : ℕ → ℕ → List (Option ℕ) → List ℕ → (ℕ → File) → Outcome → Type 0
Closes fd f ofile others files fails = ⊥
Closes fd f ofile others files panics = ⊥
Closes fd f ofile others files (returns z ofile' files' r) =
    IsHeld files' (refs ofile' ++ others)
    × (ofile' ≡ set ofile fd none)
    × (r ≡ (if count f (refs ofile' ++ others) == 0 then release_of (files f) else nothing))

module _ (f from : ℕ) (ofile : List (Option ℕ)) (others : List ℕ) (files : ℕ → File)
    (open_at : file_at ofile from ≡ some f) (h : IsHeld files (refs ofile ++ others)) where
  dups :
      (r : Option (ℕ × List (Option ℕ)))
      → fdalloc f ofile ≡ r
      → Allocs f ofile r
      → Dups f ofile others (dup_file f ofile files)
  dups none e a = subst (Dups f ofile others) (sym (dup_file-full f ofile files e)) a
  dups (some (fd, ofile')) e a =
      let (xs, ys, split, left) = refs_at ofile from f open_at in
      let whole : refs ofile ++ others ≡ xs ++ f ∷ (ys ++ others) =
        ap (λ l. l ++ others) split ∙ append_assoc xs (f ∷ ys) others in
      let k = subst (IsHeld files) whole h in
      let counted = λ (g : ℕ).
        count-append g (refs ofile') others
        ∙ ap (λ n. n + count g others) (a.4 g)
        ∙ sym (count-append g (f ∷ refs ofile) others)
        ∙ ap (λ l. count g (f ∷ l)) whole in
      subst (Dups f ofile others)
        (sym
          (dup_file-found f fd ofile ofile' files _ e (filedup-held f xs (ys ++ others) files k)))
        (
          counts-IsHeld (duplicated f xs (ys ++ others) files k) (f ∷ (xs ++ f ∷ (ys ++ others)))
              (refs ofile' ++ others) counted (duplicated-IsHeld f xs (ys ++ others) files k),
          a.2,
          a.0,
          a.3,
          refl,
        )

  closes : Closes from f ofile others files (close_file from f ofile files)
  closes =
      let (xs, ys, split, left) = refs_at ofile from f open_at in
      let whole : refs ofile ++ others ≡ xs ++ f ∷ (ys ++ others) =
        ap (λ l. l ++ others) split ∙ append_assoc xs (f ∷ ys) others in
      let after : refs (set ofile from none) ++ others ≡ xs ++ (ys ++ others) =
        ap (λ l. l ++ others) left ∙ append_assoc xs ys others in
      let k = subst (IsHeld files) whole h in
      let n = count f (xs ++ (ys ++ others)) in
      subst (Closes from f ofile others files)
        (sym (
          close_file-found from f ofile files _ _ (
            fileclose-counted f xs (ys ++ others) files k n
              (ref-here f xs (ys ++ others) files k))))
        (
          subst (IsHeld (dropped f xs (ys ++ others) files k n)) (sym after)
              (dropped-IsHeld f xs (ys ++ others) files k n refl),
          refl,
          last f xs (ys ++ others) k n
              ∙ ap (λ l. if count f l == 0 then release_of (files f) else nothing) (sym after),
        )
    where
      last :
          (f : ℕ) (xs ys : List ℕ) (k : IsHeld files (xs ++ f ∷ ys)) (n : ℕ)
          → given_back f xs ys files k n ≡ (if n == 0 then release_of (files f) else nothing)
      last f xs ys k zero = refl
      last f xs ys k (suc n) = let more : (suc n == 0) ≡ false = ground arith in rw more refl

sys_dup-file :
    (u : User) (ofile : List (Option ℕ)) (files : ℕ → File) (fd f : ℕ)
    → argfd 0 u ofile ≡ some (fd, f)
    → sys_dup u ofile files ≡ dup_file f ofile files
unfolding sys_dup
sys_dup-file u ofile files fd f e = rw (e, sys_dup) refl

sys_close-file :
    (u : User) (ofile : List (Option ℕ)) (files : ℕ → File) (fd f : ℕ)
    → argfd 0 u ofile ≡ some (fd, f)
    → sys_close u ofile files ≡ close_file fd f ofile files
unfolding sys_close
sys_close-file u ofile files fd f e = rw (e, sys_close) refl

argfd-open :
    (n : ℕ) (u : User) (ofile : List (Option ℕ)) (fd f : ℕ)
    → argfd n u ofile ≡ some (fd, f)
    → file_at ofile fd ≡ some f
unfolding argfd
argfd-open n u ofile fd f e = elim (Option-cases (argint n u)) [
  | inl unread ↦ absurd (ground arith)
  | inr (i, read) ↦ elim (Option-cases (file_at ofile i)) [
    | inl shut ↦ absurd (ground arith)
    | inr (g, found) ↦ let same : i ≡ fd = ground arith in rw (← same) (ground arith)
  ]
]

-- With an open descriptor for an argument, and counts of files that match the references in the
-- process's table and `others`, neither dup nor close panics, and the counts match afterwards. dup
-- fails only on a full table, and takes the lowest free descriptor for the same file; close frees the
-- descriptor, and gives the pipe or the inode back exactly if no reference is left.
pub sys_dup-sys_close :
    (u : User) (ofile : List (Option ℕ)) (others : List ℕ) (files : ℕ → File) (fd f : ℕ)
    → argfd 0 u ofile ≡ some (fd, f)
    → IsHeld files (refs ofile ++ others)
    → Dups f ofile others (sys_dup u ofile files)
      × Closes fd f ofile others files (sys_close u ofile files)
sys_dup-sys_close u ofile others files fd f e h =
    let there = argfd-open 0 u ofile fd f e in
    (
      subst (Dups f ofile others) (sym (sys_dup-file u ofile files fd f e))
          (dups f fd ofile others files there h (fdalloc f ofile) refl (fdalloc-Allocs f ofile)),
      subst (Closes fd f ofile others files) (sym (sys_close-file u ofile files fd f e))
          (closes f fd ofile others files there h),
    )
