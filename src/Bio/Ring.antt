-- ===== src/Bio/Ring.antt =====
-- The list of the buffer cache in bio.c as a ring through the head.
use xv6_fork.Prelude.{
  true, false, ◌==◌, ℕ, ◌≡◌, ◌≢◌, refl, sym, ◌∙◌, arith, List, [], ◌∷◌, ◌++◌, NotIn, Distinct,
  NotIn-append_left, NotIn-append_right,
}
use mathlib.Core.Path.{subst}
use xv6_fork.Bio.{put}

-- From `a` through `xs` to `c`, forwards and backwards.
abbrev pub Chain : (ℕ → ℕ) → (ℕ → ℕ) → ℕ → List ℕ → ℕ → Type 0
Chain next prev a [] c = (next a ≡ c) × (prev c ≡ a)
Chain next prev a (x ∷ xs) c = (next a ≡ x) × (prev x ≡ a) × Chain next prev x xs c

pub put_at {ℓ} : {A : Type ℓ} (f : ℕ → A) (i : ℕ) (v : A) (j : ℕ) → i ≡ j → put f i v j ≡ v
put_at f i v j e = let same : (i == j) ≡ true = ground arith in rw same refl

pub put_ne {ℓ} : {A : Type ℓ} (f : ℕ → A) (i : ℕ) (v : A) (j : ℕ) → i ≢ j → put f i v j ≡ f j
put_ne f i v j ne = let other : (i == j) ≡ false = ground arith in rw other refl

turn : {x y : ℕ} → x ≢ y → y ≢ x
turn ne e = ne (sym e)

next-frame :
    (next prev : ℕ → ℕ) (a c k v : ℕ) (xs : List ℕ)
    → k ≢ a
    → NotIn k xs
    → Chain next prev a xs c
    → Chain (put next k v) prev a xs c
next-frame next prev a c k v [] ne out (n, p) = (put_ne next k v a ne ∙ n, p)
next-frame next prev a c k v (x ∷ xs) ne out (n, p, rest) =
    (put_ne next k v a ne ∙ n, p, next-frame next prev x c k v xs (turn (out.0)) out.1 rest)

prev-frame :
    (next prev : ℕ → ℕ) (a c k v : ℕ) (xs : List ℕ)
    → k ≢ c
    → NotIn k xs
    → Chain next prev a xs c
    → Chain next (put prev k v) a xs c
prev-frame next prev a c k v [] ne out (n, p) = (n, put_ne prev k v c ne ∙ p)
prev-frame next prev a c k v (x ∷ xs) ne out (n, p, rest) =
    (n, put_ne prev k v x (turn (out.0)) ∙ p, prev-frame next prev x c k v xs ne out.1 rest)

pub split :
    (next prev : ℕ → ℕ) (a b c : ℕ) (xs ys : List ℕ)
    → Chain next prev a (xs ++ b ∷ ys) c
    → Chain next prev a xs b × Chain next prev b ys c
split next prev a b c [] ys (n, p, rest) = ((n, p), rest)
split next prev a b c (x ∷ xs) ys (n, p, rest) =
    let (first, second) = split next prev x b c xs ys rest in ((n, p, first), second)

-- What stands before `b` is `a` or in `xs`.
last_ne :
    (next prev : ℕ → ℕ) (a b k : ℕ) (xs : List ℕ)
    → k ≢ a
    → NotIn k xs
    → Chain next prev a xs b
    → k ≢ prev b
last_ne next prev a b k [] ne out (n, p) e = ne (e ∙ p)
last_ne next prev a b k (x ∷ xs) ne out (n, p, rest) e =
    last_ne next prev x b k xs (turn (out.0)) out.1 rest e

-- What stands behind `b` is `c` or in `ys`.
pub first_ne :
    (next prev : ℕ → ℕ) (b c k : ℕ) (ys : List ℕ)
    → k ≢ c
    → NotIn k ys
    → Chain next prev b ys c
    → k ≢ next b
first_ne next prev b c k [] ne out (n, p) e = ne (e ∙ n)
first_ne next prev b c k (y ∷ ys) ne out (n, p, rest) e = out.0 (sym n ∙ sym e)

-- With `b` taken out the ends are joined.
pub join :
    (next prev : ℕ → ℕ) (a b c : ℕ) (xs ys : List ℕ)
    → Distinct (xs ++ ys)
    → NotIn a (xs ++ ys)
    → NotIn c (xs ++ ys)
    → Chain next prev a xs b
    → Chain next prev b ys c
    → Chain (put next (prev b) (next b)) (put prev (next b) (prev b)) a (xs ++ ys) c
join next prev a b c [] [] d na nc (n, p) (n', p') =
    (put_at next _ _ a p ∙ n', put_at prev _ _ c n' ∙ p)
join next prev a b c [] (y ∷ ys) d na nc (n, p) (n', p', rest) = (
  put_at next _ _ a p ∙ n',
  put_at prev _ _ y n' ∙ p,
  prev-frame (put next (prev b) (next b)) prev y c (next b) (prev b) ys (λ e. nc.0 (sym n' ∙ e))
      (subst (λ k. NotIn k ys) (sym n') d.0)
      (next-frame next prev y c (prev b) (next b) ys (λ e. na.0 (sym e ∙ p))
        (subst (λ k. NotIn k ys) (sym p) na.1) rest),
)
join next prev a b c (x ∷ xs) ys d na nc (n, p, rest) tail = (
  put_ne next (prev b) (next b) a
        (turn (last_ne next prev x b a xs (turn (na.0)) (NotIn-append_left a xs ys na.1) rest))
      ∙ n,
  put_ne prev (next b) (prev b) x
        (turn (first_ne next prev b c x ys nc.0 (NotIn-append_right x xs ys d.0) tail))
      ∙ p,
  join next prev x b c xs ys d.1 d.0 nc.1 rest tail,
)

-- `b` put between `a` and what is behind it.
pub insert :
    (next prev : ℕ → ℕ) (a b c : ℕ) (xs : List ℕ)
    → NotIn b xs
    → NotIn a xs
    → Distinct xs
    → NotIn c xs
    → b ≢ a
    → b ≢ c
    → Chain next prev a xs c
    → Chain (put (put next b (next a)) a b) (put (put prev b a) (next a) b) a (b ∷ xs) c
insert next prev a b c [] nb na d nc ba bc (n, p) = (
  put_at (put next b (next a)) a b a refl,
  put_ne (put prev b a) (next a) b b (λ e. bc (sym e ∙ n)) ∙ put_at prev b a b refl,
  (
    put_ne (put next b (next a)) a b b (turn ba) ∙ put_at next b (next a) b refl ∙ n,
    put_at (put prev b a) (next a) b c n,
  ),
)
insert next prev a b c (x ∷ xs) nb na d nc ba bc (n, p, rest) = (
  put_at (put next b (next a)) a b a refl,
  put_ne (put prev b a) (next a) b b (λ e. nb.0 (sym n ∙ e)) ∙ put_at prev b a b refl,
  (
    put_ne (put next b (next a)) a b b (turn ba) ∙ put_at next b (next a) b refl ∙ n,
    put_at (put prev b a) (next a) b x n,
    prev-frame _ (put prev b a) x c (next a) b xs (λ e. nc.0 (sym n ∙ e))
        (subst (λ k. NotIn k xs) (sym n) d.0)
        (prev-frame _ prev x c b a xs bc nb.1 (
          next-frame (put next b (next a)) prev x c a b xs (turn (na.0)) na.1
            (next-frame next prev x c b (next a) xs (turn (nb.0)) nb.1 rest))),
  ),
)
