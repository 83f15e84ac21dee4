-- ===== src/File/Counts.antt =====
-- The reference counts of file.c: filealloc, filedup and fileclose, one call at a time.
use xv6_fork.Prelude.{
  ℕ, zero, suc, ◌+◌, ◌-◌, ◌<◌, ◌≡◌, refl, sym, ap, ◌∙◌, ◌≢◌, inl, inr, Bool-cases, arith, true,
  false, Option, none, some, List, ◌∷◌, ◌++◌, ◌==◌, ltb, count, count_self, count_ne, count-here,
  count-elsewhere,
}
use mathlib.Core.Path.{subst}
use native.Mathlib.Decide.{ℕ_discrete}
use xv6_fork.File.{
  File, fd_none, nfile, put, find_free, filealloc, filedup, Release, nothing, release_of, fileclose,
}

-- The count of a file is the number of references to it.
abbrev pub IsHeld : (ℕ → File) → List ℕ → Type 0
IsHeld files held = (f : ℕ) → (files f).ref ≡ count f held

find_free-hit :
    (k i e : ℕ) (files : ℕ → File)
    → find_free k i files ≡ some e
    → (e < i + k) × ((files e).ref ≡ 0)
unfolding find_free
find_free-hit zero i e files h = absurd (ground arith)
find_free-hit (suc k) i e files h = elim (Bool-cases ((files i).ref == 0)) [
  | inl free ↦
      let q : i ≡ e = ground arith in (omega arith, subst (λ x. (files x).ref ≡ 0) q (ground arith))
  | inr taken ↦ let r = find_free-hit k (suc i) e files (rw taken at h) in (omega (arith, r.0), r.1)
]

put_self : (files : ℕ → File) (f : ℕ) (v : File) → put files f v f ≡ v
put_self files f v = ground arith

put_ne : (files : ℕ → File) (f g : ℕ) (v : File) → f ≢ g → put files f v g ≡ files g
put_ne files f g v ne = ground arith

-- One more or one fewer reference to `f`, with its count to match.
put-IsHeld :
    (files : ℕ → File) (f : ℕ) (v : File) (held held2 : List ℕ)
    → v.ref ≡ count f held2
    → ((g : ℕ) → f ≢ g → count g held2 ≡ count g held)
    → IsHeld files held
    → IsHeld (put files f v) held2
put-IsHeld files f v held held2 e same h g = elim (ℕ_discrete f g) [
  | yes q ↦
      subst (λ x. (put files f v x).ref ≡ count x held2) q
        (ap (λ w. w.ref) (put_self files f v) ∙ e)
  | no ne ↦ ap (λ w. w.ref) (put_ne files f g v ne) ∙ h g ∙ sym (same g ne)
]

module _ (f : ℕ) (xs ys : List ℕ) where
  module _ (files : ℕ → File) (h : IsHeld files (xs ++ f ∷ ys)) where
    pub ref-here : (files f).ref ≡ suc (count f (xs ++ ys))
    ref-here = h f ∙ count-here f xs ys

    abbrev pub duplicated : ℕ → File
    duplicated = put files f (record (files f) { ref = (files f).ref + 1 })

    pub filedup-held : filedup f files ≡ some duplicated
    unfolding filedup
    filedup-held = let used : ltb (files f).ref 1 ≡ false = ground (arith, ref-here) in rw used refl

    pub duplicated-IsHeld : IsHeld duplicated (f ∷ (xs ++ f ∷ ys))
    duplicated-IsHeld =
        put-IsHeld files f _ (xs ++ f ∷ ys) (f ∷ (xs ++ f ∷ ys))
          (plus_one (files f).ref ∙ ap suc (h f) ∙ sym (count_self f (xs ++ f ∷ ys)))
          (λ g ne. count_ne f g (xs ++ f ∷ ys) ne) h
      where
        plus_one : (n : ℕ) → n + 1 ≡ suc n
        plus_one n = omega arith

    -- The table when one reference to `f` has been closed, and what is given back.
    abbrev pub dropped : ℕ → ℕ → File
    dropped zero = put files f (record (files f) { ref = 0; type = fd_none })
    dropped (suc n) = put files f (record (files f) { ref = suc n })

    abbrev pub given_back : ℕ → Release
    given_back zero = release_of (files f)
    given_back (suc n) = nothing

    pub fileclose-counted :
        (n : ℕ) → (files f).ref ≡ suc n → fileclose f files ≡ some (dropped n, given_back n)
    unfolding fileclose
    fileclose-counted zero e =
        let used : ltb (files f).ref 1 ≡ false = ground arith in
        let last : ltb 0 ((files f).ref - 1) ≡ false = ground arith in rw (used, last) refl
    fileclose-counted (suc n) e =
        let used : ltb (files f).ref 1 ≡ false = ground arith in
        let more : ltb 0 ((files f).ref - 1) ≡ true = ground arith in
        let less : (files f).ref - 1 ≡ suc n = omega arith in rw (used, more, less) refl

    pub dropped-IsHeld : (n : ℕ) → count f (xs ++ ys) ≡ n → IsHeld (dropped n) (xs ++ ys)
    dropped-IsHeld zero e =
        put-IsHeld files f _ (xs ++ f ∷ ys) (xs ++ ys) (sym e) (count-elsewhere f xs ys) h
    dropped-IsHeld (suc n) e =
        put-IsHeld files f _ (xs ++ f ∷ ys) (xs ++ ys) (sym e) (count-elsewhere f xs ys) h

-- What filealloc amounts to, for the references held.
abbrev pub Allocs : (ℕ → File) → List ℕ → Option ℕ × (ℕ → File) → Type 0
Allocs files held (none, w) = w ≡ files
Allocs files held (some f, w) = (f < nfile) × (count f held ≡ 0) × IsHeld w (f ∷ held)

module _ (files : ℕ → File) (held : List ℕ) (h : IsHeld files held) where
  abbrev after : Option ℕ → Option ℕ × (ℕ → File)
  after r = elim r [
    | none ↦ (none, files)
    | some f ↦ (some f, put files f (record (files f) { ref = 1 }))
  ]

  after-Allocs : (r : Option ℕ) → find_free nfile 0 files ≡ r → Allocs files held (after r)
  after-Allocs none e = refl
  after-Allocs (some f) e =
      let (lt, free) = find_free-hit nfile 0 f files e in
      let unheld : count f held ≡ 0 = sym (h f) ∙ free in
      (
        omega arith,
        unheld,
        put-IsHeld files f _ held (f ∷ held) (sym (count_self f held ∙ ap suc unheld))
            (λ g ne. count_ne f g held ne) h,
      )

  pub filealloc-Allocs : Allocs files held (filealloc files)
  unfolding filealloc
  filealloc-Allocs = after-Allocs (find_free nfile 0 files) refl
