-- ===== src/Names.antt =====
-- fs.c: the elements of a path name. A path is a list of bytes without the NUL that ends it.
pub mod Elements
pub mod Shorter
mod Tests
use xv6_fork.Prelude.{
  ℕ, zero, suc, Bool, true, false, ◌||◌, Option, none, some, List, [], ◌∷◌, if◌then◌else◌, ◌==◌,
  leb, length, take,
}

abbrev pub dirsiz : ℕ
dirsiz = 14

-- `while(*path == '/') path++;`
pub skip_slashes : List ℕ → List ℕ
skip_slashes [] = []
skip_slashes (c ∷ s) = if c == b'/' then skip_slashes s else c ∷ s

-- `while(*path != '/' && *path != 0) path++;`: what it passes, and what is left.
pub element : List ℕ → List ℕ × List ℕ
element [] = ([], [])
element (c ∷ s) = let r = element s in if c == b'/' then ([], c ∷ s) else (c ∷ r.0, r.1)

-- skipelem: the name, without the NUL that ends a short one, and the rest of the path.
pub skipelem : List ℕ → Option (List ℕ × List ℕ)
skipelem path = elim (skip_slashes path) [
  | [] ↦ none
  | c ∷ s ↦
      let r = element (c ∷ s) in
      some (if leb dirsiz (length r.0) then take dirsiz r.0 else r.0, skip_slashes r.1)
]

-- The elements that the loop of namex goes through, at most `f` of them.
pub elements : ℕ → List ℕ → List (List ℕ)
elements zero path = []
elements (suc f) path = elim (skipelem path) [
  | none ↦ []
  | some (name, rest) ↦ name ∷ elements f rest
]
