-- ===== src/Names/Elements.antt =====
-- What skipelem takes a path apart into.
use xv6_fork.Prelude.{
  ℕ, zero, suc, ◌<◌, ◌≡◌, ◌≢◌, refl, sym, ap, ◌∙◌, inl, inr, Bool-cases, arith, true, false, Option,
  none, some, List, [], ◌∷◌, ◌++◌, if◌then◌else◌, ◌==◌, leb, length, take,
}
use xv6_fork.Names.{dirsiz, skip_slashes, element, skipelem, elements}

abbrev pub NoSlash : List ℕ → Type 0
NoSlash [] = Unit {0}
NoSlash (c ∷ s) = (c ≢ b'/') × NoSlash s

abbrev pub AllSlash : List ℕ → Type 0
AllSlash [] = Unit {0}
AllSlash (c ∷ s) = (c ≡ b'/') × AllSlash s

-- A name that skipelem may come to: not empty, without a slash.
abbrev pub IsName : List ℕ → Type 0
IsName n = (n ≢ []) × NoSlash n

-- The path is slashes or nothing.
abbrev pub StartsSlash : List ℕ → Type 0
StartsSlash [] = Unit {0}
StartsSlash (c ∷ s) = c ≡ b'/'

-- A path: each element behind its slashes, and slashes at the end.
abbrev pub joined : List (List ℕ × List ℕ) → List ℕ → List ℕ
joined [] end = end
joined ((slashes, name) ∷ rest) end = slashes ++ (name ++ joined rest end)

-- Slashes are slashes, and at least one stands between two elements.
abbrev pub AllNames : List (List ℕ × List ℕ) → List ℕ → Type 0
AllNames [] end = AllSlash end
AllNames ((slashes, name) ∷ rest) end =
    AllSlash slashes × IsName name × StartsSlash (joined rest end) × AllNames rest end

abbrev pub cut : List ℕ → List ℕ
cut name = if leb dirsiz (length name) then take dirsiz name else name

abbrev pub names : List (List ℕ × List ℕ) → List (List ℕ)
names [] = []
names ((slashes, name) ∷ rest) = cut name ∷ names rest

skip_slashes-append :
    (slashes s : List ℕ) → AllSlash slashes → skip_slashes (slashes ++ s) ≡ skip_slashes s
unfolding skip_slashes
skip_slashes-append [] s h = refl
skip_slashes-append (c ∷ slashes) s h =
    let slash : (c == b'/') ≡ true = ground arith in rw slash (skip_slashes-append slashes s h.1)

skip_slashes-name : (name s : List ℕ) → IsName name → skip_slashes (name ++ s) ≡ name ++ s
unfolding skip_slashes
skip_slashes-name [] s h = absurd (h.0 refl)
skip_slashes-name (c ∷ name) s h =
    let plain : (c == b'/') ≡ false = ground (arith, h.1.0) in rw plain refl

element-append : (name s : List ℕ) → NoSlash name → StartsSlash s → element (name ++ s) ≡ (name, s)
unfolding element
element-append [] [] h e = refl
element-append [] (c ∷ s) h e = let slash : (c == b'/') ≡ true = ground arith in rw slash refl
element-append (c ∷ name) s h e =
    let plain : (c == b'/') ≡ false = ground (arith, h.0) in
    rw (plain, element-append name s h.1 e) refl

skip_slashes-all : (s : List ℕ) → AllSlash s → skip_slashes s ≡ []
unfolding skip_slashes
skip_slashes-all [] h = refl
skip_slashes-all (c ∷ s) h =
    let slash : (c == b'/') ≡ true = ground arith in rw slash (skip_slashes-all s h.1)

skip_slashes-skip_slashes : (s : List ℕ) → skip_slashes (skip_slashes s) ≡ skip_slashes s
unfolding skip_slashes
skip_slashes-skip_slashes [] = refl
skip_slashes-skip_slashes (c ∷ s) = elim (Bool-cases (c == b'/')) [
  | inl slash ↦ rw slash (skip_slashes-skip_slashes s)
  | inr plain ↦ rw (plain, plain) refl
]

-- skipelem behind its first loop.
abbrev behind_slashes : List ℕ → Option (List ℕ × List ℕ)
behind_slashes p = elim p [
  | [] ↦ none
  | c ∷ s ↦
      let r = element (c ∷ s) in
      some (if leb dirsiz (length r.0) then take dirsiz r.0 else r.0, skip_slashes r.1)
]

skipelem-behind : (path p : List ℕ) → skip_slashes path ≡ p → skipelem path ≡ behind_slashes p
unfolding skipelem
skipelem-behind path p e = ap behind_slashes e

behind-name :
    (name s : List ℕ)
    → IsName name
    → StartsSlash s
    → behind_slashes (name ++ s) ≡ some (cut name, skip_slashes s)
behind-name [] s h e = absurd (h.0 refl)
behind-name (c ∷ name) s h e = rw (element-append (c ∷ name) s h.1 e) refl

-- skipelem takes the first element off a path, and the slashes behind it.
skipelem-joined :
    (slashes name s : List ℕ)
    → AllSlash slashes
    → IsName name
    → StartsSlash s
    → skipelem (slashes ++ (name ++ s)) ≡ some (cut name, skip_slashes s)
skipelem-joined slashes name s a n e =
    skipelem-behind (slashes ++ (name ++ s)) (name ++ s)
      (skip_slashes-append slashes (name ++ s) a ∙ skip_slashes-name name s n)
    ∙ behind-name name s n e

-- One round of the loop of namex.
abbrev round : ℕ → Option (List ℕ × List ℕ) → List (List ℕ)
round f r = elim r [ none ↦ [] | some (name, rest) ↦ name ∷ elements f rest ]

elements-round :
    (f : ℕ) (path : List ℕ) (r : Option (List ℕ × List ℕ))
    → skipelem path ≡ r
    → elements (suc f) path ≡ round f r
unfolding elements
elements-round f path r e = ap (round f) e

elements-skip_slashes : (f : ℕ) (s : List ℕ) → elements f (skip_slashes s) ≡ elements f s
unfolding elements
elements-skip_slashes zero s = refl
elements-skip_slashes (suc f) s = elements-round f (skip_slashes s) (skipelem s) (
    skipelem-behind (skip_slashes s) (skip_slashes s) (skip_slashes-skip_slashes s)
    ∙ sym (skipelem-behind s (skip_slashes s) refl))

-- The loop of namex goes through the elements of a path in order, however many slashes stand before,
-- between and behind them, each cut to DIRSIZ bytes; there is no further one.
pub elements-joined :
    (f : ℕ) (ps : List (List ℕ × List ℕ)) (end : List ℕ)
    → AllNames ps end
    → length ps < f
    → elements f (joined ps end) ≡ names ps
elements-joined zero ps end h lt = absurd (omega arith)
elements-joined (suc f) [] end h lt =
    elements-round f end none (skipelem-behind end [] (skip_slashes-all end h))
elements-joined (suc f) ((slashes, name) ∷ ps) end h lt =
    elements-round f (joined ((slashes, name) ∷ ps) end) _
      (skipelem-joined slashes name (joined ps end) h.0 h.1 h.2)
    ∙ ap (λ l. cut name ∷ l)
        (elements-skip_slashes f (joined ps end) ∙ elements-joined f ps end h.3 (omega arith))
