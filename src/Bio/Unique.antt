-- ===== src/Bio/Unique.antt =====
-- No block has two buffers in bio.c.
use xv6_fork.Prelude.{
  ℕ, zero, suc, ◌+◌, ◌<◌, ◌≡◌, refl, sym, ap, ◌∙◌, inl, inr, arith, List, [], ◌∷◌, ◌++◌, ◌==◌, In,
  Bool-cases, none, some, length, length-append, sub32,
}
use mathlib.Core.Path.{subst}
use native.Mathlib.Decide.{ℕ_discrete}
use xv6_fork.Bio.{Cache, nbuf, put, link, take_out, bget, brelse, binit, init_from}
use xv6_fork.Bio.Moves.{IsRing, downwards, binit-IsRing, brelse-IsRing}
use xv6_fork.Bio.Buffers.{Gets, bget-Gets}
use xv6_fork.Bio.Given.{IsReal, IsReal-same, IsCache, hit-IsCache, recycled-IsCache}

-- A call of bget that returns, and one of brelse of a buffer.
pub data Step (s : Cache) : Cache → Type 0 where
  gets : (dev blockno b : ℕ) {s' : Cache} → bget dev blockno s ≡ some (b, s') → Step s s'
  releases : (b : ℕ) → b < nbuf → Step s (brelse b s)

pub data Reach (s : Cache) : Cache → Type 0 where
  here : Reach s s
  next : {s' s'' : Cache} → Reach s s' → Step s' s'' → Reach s s''

In-split : (b : ℕ) (xs : List ℕ) → In b xs → (ys zs : List ℕ) × (xs ≡ ys ++ b ∷ zs)
In-split b [] i = absurd i
In-split b (x ∷ xs) (inl e) = ([], xs, ap (λ y. y ∷ xs) e)
In-split b (x ∷ xs) (inr i) = let (ys, zs, e) = In-split b xs i in (x ∷ ys, zs, ap (λ t. x ∷ t) e)

In-front : (c b : ℕ) (xs ys : List ℕ) → In c (xs ++ b ∷ ys) → In c (b ∷ (xs ++ ys))
In-front c b [] ys i = i
In-front c b (x ∷ xs) ys (inl e) = inr (inl e)
In-front c b (x ∷ xs) ys (inr i) = elim (In-front c b xs ys i) [
  | inl e ↦ inl e
  | inr j ↦ inr (inr j)
]

In-back : (c b : ℕ) (xs ys : List ℕ) → In c (b ∷ (xs ++ ys)) → In c (xs ++ b ∷ ys)
In-back c b [] ys i = i
In-back c b (x ∷ xs) ys (inl e) = inr (In-back c b xs ys (inl e))
In-back c b (x ∷ xs) ys (inr (inl e)) = inl e
In-back c b (x ∷ xs) ys (inr (inr i)) = inr (In-back c b xs ys (inr i))

brelse-fields :
    (b : ℕ) (s : Cache) → ((brelse b s).dev ≡ s.dev) × ((brelse b s).blockno ≡ s.blockno)
unfolding brelse link take_out
brelse-fields b s = elim (Bool-cases (put s.refcnt b (sub32 (s.refcnt b) 1) b == 0)) [
  | inl last ↦ rw last (refl, refl)
  | inr more ↦ rw more (refl, refl)
]

-- The cache with another order of the same buffers.
reordered-IsCache :
    (s s' : Cache) (order order' : List ℕ)
    → IsCache s order
    → IsRing s' order'
    → length order' ≡ length order
    → ((c : ℕ) → In c order → In c order')
    → ((c : ℕ) → In c order' → In c order)
    → s'.dev ≡ s.dev
    → s'.blockno ≡ s.blockno
    → IsCache s' order'
reordered-IsCache s s' order order' h ring count into back dev blockno = record {
  ring = ring;
  count = count ∙ h.count;
  all = λ b lt. into b (h.all b lt);
  unique = λ x y ix iy nz ed eb.
      h.unique x y (back x ix) (back y iy)
        (IsReal-same _ _ _ _ (ap (λ f. f x) dev) (ap (λ f. f x) blockno) nz)
        (sym (ap (λ f. f x) dev) ∙ ed ∙ ap (λ f. f y) dev)
        (sym (ap (λ f. f x) blockno) ∙ eb ∙ ap (λ f. f y) blockno);
}

brelse-IsCache :
    (b : ℕ) (s : Cache) (xs ys : List ℕ)
    → IsCache s (xs ++ b ∷ ys)
    → (order : List ℕ) × IsCache (brelse b s) order
brelse-IsCache b s xs ys h =
    let moved = brelse-IsRing b s xs ys h.ring in
    let fields = brelse-fields b s in
    elim (Bool-cases (sub32 (s.refcnt b) 1 == 0)) [
      | inl last ↦ (
        b ∷ (xs ++ ys),
        reordered-IsCache s (brelse b s) (xs ++ b ∷ ys) (b ∷ (xs ++ ys)) h (rw last at moved)
            (omega (arith, length-append xs ys, length-append xs (b ∷ ys)))
            (λ c. In-front c b xs ys) (λ c. In-back c b xs ys) fields.0 fields.1,
      )
      | inr more ↦ (
        xs ++ b ∷ ys,
        reordered-IsCache s (brelse b s) (xs ++ b ∷ ys) (xs ++ b ∷ ys) h (rw more at moved) refl
            (λ c i. i) (λ c i. i) fields.0 fields.1,
      )
    ]

some-eq : {p q : ℕ × Cache} → some p ≡ some q → p ≡ q
some-eq {p} e = ap (λ r. elim r [ none ↦ p | some z ↦ z ]) e

Step-IsCache :
    {s s' : Cache} (order : List ℕ)
    → IsCache s order
    → Step s s'
    → (order' : List ℕ) × IsCache s' order'
unfolding Gets
Step-IsCache {s} {s'} order h (gets dev blockno b e) =
    let g =
      subst (Gets dev blockno s order) e
        (bget-Gets dev blockno s order h.ring (omega (arith, h.count))) in
    elim g.1 [
      | inl hit ↦ (order, hit-IsCache dev blockno b s s' order h g.0 hit)
      | inr recycled ↦ (order, recycled-IsCache dev blockno b s s' order h g.0 recycled)
    ]
Step-IsCache {s} order h (releases b lt) =
    let (xs, ys, e) = In-split b order (h.all b lt) in
    brelse-IsCache b s xs ys (subst (IsCache s) e h)

In-downwards : (b n : ℕ) → b < n → In b (downwards n)
unfolding downwards
In-downwards b zero lt = absurd (omega arith)
In-downwards b (suc n) lt = elim (ℕ_discrete n b) [
  | yes e ↦ inl e
  | no ne ↦ inr (In-downwards b n (omega arith))
]

In-downwards_lt : (b n : ℕ) → In b (downwards n) → b < n
unfolding downwards
In-downwards_lt b zero i = elim i [ ]
In-downwards_lt b (suc n) (inl e) = omega arith
In-downwards_lt b (suc n) (inr i) = omega (arith, In-downwards_lt b n i)

length-downwards : (n : ℕ) → length (downwards n) ≡ n
unfolding downwards
length-downwards zero = refl
length-downwards (suc n) = ap suc (length-downwards n)

init_from-dev : (k b : ℕ) (s : Cache) → (init_from k b s).dev ≡ s.dev
unfolding init_from link
init_from-dev zero b s = refl
init_from-dev (suc k) b s = init_from-dev k (b + 1) (link b s)

init_from-blockno : (k b : ℕ) (s : Cache) → (init_from k b s).blockno ≡ s.blockno
unfolding init_from link
init_from-blockno zero b s = refl
init_from-blockno (suc k) b s = init_from-blockno k (b + 1) (link b s)

unreal : (dev blockno : ℕ) → dev ≡ 0 → blockno ≡ 0 → IsReal dev blockno → ⊥
unreal dev blockno e f (inl nz) = nz e
unreal dev blockno e f (inr nz) = nz f

binit-IsCache :
    (s : Cache)
    → ((b : ℕ) → b < nbuf → (s.dev b ≡ 0) × (s.blockno b ≡ 0))
    → IsCache (binit s) (downwards nbuf)
unfolding binit
binit-IsCache s zeroed = record {
  ring = binit-IsRing s;
  count = length-downwards nbuf;
  all = λ b lt. In-downwards b nbuf lt;
  unique = λ b c ib ic nz ed eb.
      let (no_dev, no_block) = zeroed b (In-downwards_lt b nbuf ib) in
      absurd (
        unreal _ _ (ap (λ f. f b) (init_from-dev nbuf 0 _) ∙ no_dev)
          (ap (λ f. f b) (init_from-blockno nbuf 0 _) ∙ no_block) nz);
}

Run-IsCache :
    {s s' : Cache} (order : List ℕ)
    → IsCache s order
    → Reach s s'
    → (order' : List ℕ) × IsCache s' order'
Run-IsCache order h here = (order, h)
Run-IsCache order h (next r step) =
    let (order', h') = Run-IsCache order h r in Step-IsCache order' h' step

-- From binit of memory that is zero, whatever calls of bget and of brelse are made, for whatever
-- devices: the list is a ring of all 30 buffers through both pointers, and no two buffers are for the
-- same block, unless it is block 0 of device 0. bget then returns the most recently used buffer that the
-- block has, with one more reference and its flags kept; or, if it has none, the least recently used
-- buffer without a reference that is clean, now for the block, neither valid nor dirty and with one
-- reference. It changes no other buffer, and panics only if the block has no buffer and each one has a
-- reference or is dirty.
pub Reach-IsCache :
    (s t : Cache)
    → ((b : ℕ) → b < nbuf → (s.dev b ≡ 0) × (s.blockno b ≡ 0))
    → Reach (binit s) t
    → (order : List ℕ) × IsCache t order
      × ((dev blockno : ℕ) → Gets dev blockno t order (bget dev blockno t))
Reach-IsCache s t zeroed r =
    let (order, h) = Run-IsCache (downwards nbuf) (binit-IsCache s zeroed) r in
    (order, h, λ dev blockno. bget-Gets dev blockno t order h.ring (omega (arith, h.count)))
