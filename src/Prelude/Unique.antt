-- ===== src/Prelude/Unique.antt =====
-- Lists of numbers without repetition, by recursion.
use Prim.Native.Nat.{ℕ}
use mathlib.Core.Path.{◌≡◌, sym}
use mathlib.Core.Logic.{◌≢◌, ◌⊎◌}
use mathlib.Core.List.{List, [], ◌∷◌, ◌++◌}

abbrev pub NotIn : ℕ → List ℕ → Type 0
NotIn v [] = Unit {0}
NotIn v (x ∷ xs) = (x ≢ v) × NotIn v xs

abbrev pub In : ℕ → List ℕ → Type 0
In v [] = ⊥
In v (x ∷ xs) = (x ≡ v) ⊎ In v xs

abbrev pub Distinct : List ℕ → Type 0
Distinct [] = Unit {0}
Distinct (x ∷ xs) = NotIn x xs × Distinct xs

pub NotIn-append : (v : ℕ) (xs ys : List ℕ) → NotIn v xs → NotIn v ys → NotIn v (xs ++ ys)
NotIn-append v [] ys h k = k
NotIn-append v (x ∷ xs) ys h k = (h.0, NotIn-append v xs ys h.1 k)

pub NotIn-append_left : (v : ℕ) (xs ys : List ℕ) → NotIn v (xs ++ ys) → NotIn v xs
NotIn-append_left v [] ys h = tt
NotIn-append_left v (x ∷ xs) ys h = (h.0, NotIn-append_left v xs ys h.1)

pub NotIn-append_right : (v : ℕ) (xs ys : List ℕ) → NotIn v (xs ++ ys) → NotIn v ys
NotIn-append_right v [] ys h = h
NotIn-append_right v (x ∷ xs) ys h = NotIn-append_right v xs ys h.1

-- An element may be moved to any place of a list.
pub NotIn-move : (w v : ℕ) (xs ys : List ℕ) → NotIn w (v ∷ (xs ++ ys)) → NotIn w (xs ++ (v ∷ ys))
NotIn-move w v [] ys h = h
NotIn-move w v (x ∷ xs) ys h = (h.1.0, NotIn-move w v xs ys (h.0, h.1.1))

pub NotIn-move_back :
    (w v : ℕ) (xs ys : List ℕ) → NotIn w (xs ++ (v ∷ ys)) → NotIn w (v ∷ (xs ++ ys))
NotIn-move_back w v [] ys h = h
NotIn-move_back w v (x ∷ xs) ys h = let r = NotIn-move_back w v xs ys h.1 in (r.0, (h.0, r.1))

pub Distinct-move : (v : ℕ) (xs ys : List ℕ) → Distinct (v ∷ (xs ++ ys)) → Distinct (xs ++ (v ∷ ys))
Distinct-move v [] ys h = h
Distinct-move v (x ∷ xs) ys h =
    (NotIn-move x v xs ys ((λ e. h.0.0 (sym e)), h.1.0), Distinct-move v xs ys (h.0.1, h.1.1))

pub Distinct-move_back :
    (v : ℕ) (xs ys : List ℕ) → Distinct (xs ++ (v ∷ ys)) → Distinct (v ∷ (xs ++ ys))
Distinct-move_back v [] ys h = h
Distinct-move_back v (x ∷ xs) ys h =
    let r = Distinct-move_back v xs ys h.1 in
    let n = NotIn-move_back x v xs ys h.0 in (((λ e. n.0 (sym e)), r.0), (n.1, r.1))

pub Distinct-append_left : (xs ys : List ℕ) → Distinct (xs ++ ys) → Distinct xs
Distinct-append_left [] ys h = tt
Distinct-append_left (x ∷ xs) ys h = (NotIn-append_left x xs ys h.0, Distinct-append_left xs ys h.1)
