-- ===== src/File/Holders.antt =====
-- The reference counts of file.c against the references that are held.
use xv6_fork.Prelude.{
  count, ℕ, zero, suc, ◌≡◌, refl, sym, ap, ◌∙◌, arith, false, Option, none, some, List, ◌∷◌, ◌++◌,
  if◌then◌else◌, ◌==◌,
}
use mathlib.Core.Path.{subst}
use xv6_fork.File.{File, filealloc, filedup, Release, nothing, release_of, fileclose}
use xv6_fork.File.Counts.{
  IsHeld, Allocs, filealloc-Allocs, duplicated, filedup-held, duplicated-IsHeld, fileclose-counted,
  dropped, given_back, ref-here, dropped-IsHeld,
}

-- The table, and the references that processes hold.
pub record Users : Type 0 where
  pub files : ℕ → File
  pub held : List ℕ

-- filealloc hands a reference out; filedup and fileclose are called with one that is held.
pub data Step (u : Users) : Users → Type 0 where
  allocs :
      {f : ℕ} {w : ℕ → File}
      → filealloc u.files ≡ (some f, w)
      → Step u (record { files = w; held = f ∷ u.held })
  dups :
      {w : ℕ → File} (f : ℕ) (xs ys : List ℕ)
      → u.held ≡ xs ++ f ∷ ys
      → filedup f u.files ≡ some w
      → Step u (record { files = w; held = f ∷ u.held })
  closes :
      {w : ℕ → File} {r : Release} (f : ℕ) (xs ys : List ℕ)
      → u.held ≡ xs ++ f ∷ ys
      → fileclose f u.files ≡ some (w, r)
      → Step u (record { files = w; held = xs ++ ys })

pub data Reach (u : Users) : Users → Type 0 where
  here : Reach u u
  next : {v w : Users} → Reach u v → Step v w → Reach u w

some-eq : (a b : ℕ → File) → some a ≡ some b → a ≡ b
some-eq a b e = cc

some-first :
    (a b : ℕ → File) (x y : Release)
    → ◌≡◌ {A = Option ((ℕ → File) × Release)} (some (a, x)) (some (b, y))
    → a ≡ b
some-first a b x y e = ap (λ r. elim r [ none ↦ a | some p ↦ p.0 ]) e

Step-IsHeld : {u v : Users} → IsHeld u.files u.held → Step u v → IsHeld v.files v.held
Step-IsHeld {u} h (allocs {f} {w} e) =
    (subst (Allocs u.files u.held) e (filealloc-Allocs u.files u.held h)).2
Step-IsHeld {u} h (dups {w} f xs ys e d) =
    let k = subst (IsHeld u.files) e h in
    subst (λ x. IsHeld x (f ∷ u.held))
      (some-eq (duplicated f xs ys u.files k) w (sym (filedup-held f xs ys u.files k) ∙ d))
      (subst (λ l. IsHeld (duplicated f xs ys u.files k) (f ∷ l)) (sym e)
        (duplicated-IsHeld f xs ys u.files k))
Step-IsHeld {u} h (closes {w} {r} f xs ys e d) =
    let k = subst (IsHeld u.files) e h in
    let n = count f (xs ++ ys) in
    let counted = fileclose-counted f xs ys u.files k n (ref-here f xs ys u.files k) in
    subst (λ x. IsHeld x (xs ++ ys))
      (some-first (dropped f xs ys u.files k n) w (given_back f xs ys u.files k n) r
        (sym counted ∙ d))
      (dropped-IsHeld f xs ys u.files k n refl)

Run-IsHeld : {u v : Users} → IsHeld u.files u.held → Reach u v → IsHeld v.files v.held
Run-IsHeld h here = h
Run-IsHeld h (next r s) = Step-IsHeld (Run-IsHeld h r) s

-- From a table whose counts match the references held, whatever sequence of filealloc, filedup and
-- fileclose is made, the counts keep matching. With a reference to a file in hand, filedup does not
-- panic, and fileclose does not either: it gives the pipe or the inode of the file back if no other
-- reference is left, and nothing otherwise.
pub Reach-IsHeld :
    (u v : Users)
    → IsHeld u.files u.held
    → Reach u v
    → IsHeld v.files v.held
      × ((f : ℕ) (xs ys : List ℕ)
          → v.held ≡ xs ++ f ∷ ys
          → ((w : ℕ → File) × (filedup f v.files ≡ some w))
            × ((w : ℕ → File) × (fileclose f v.files
                  ≡ some (w, if count f (xs ++ ys) == 0 then release_of (v.files f) else nothing))))
Reach-IsHeld u v h r = (
  Run-IsHeld h r,
  (λ f xs ys e.
      let k = subst (IsHeld v.files) e (Run-IsHeld h r) in
      let n = count f (xs ++ ys) in
      (
        (duplicated f xs ys v.files k, filedup-held f xs ys v.files k),
        (
          dropped f xs ys v.files k n,
          fileclose-counted f xs ys v.files k n (ref-here f xs ys v.files k)
              ∙ ap (λ b. some (dropped f xs ys v.files k n, b)) (last f xs ys v.files k n),
        ),
      )),
)
  where
    last :
        (f : ℕ) (xs ys : List ℕ) (files : ℕ → File) (k : IsHeld files (xs ++ f ∷ ys)) (n : ℕ)
        → given_back f xs ys files k n ≡ (if n == 0 then release_of (files f) else nothing)
    last f xs ys files k zero = refl
    last f xs ys files k (suc n) = let more : (suc n == 0) ≡ false = ground arith in rw more refl
