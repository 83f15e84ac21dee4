-- ===== src/Bio/Given.antt =====
-- What bget of bio.c makes of a list in which no block has two buffers.
use xv6_fork.Prelude.{
  ℕ, ◌<◌, ◌≡◌, ◌≢◌, refl, sym, ap, ◌∙◌, ◌⊎◌, inl, inr, arith, List, [], ◌∷◌, ◌++◌, In, Bool, true,
  some, length,
}
use mathlib.Core.Path.{subst}
use native.Mathlib.Decide.{ℕ_discrete}
use xv6_fork.Bio.{Cache, head, nbuf}
use xv6_fork.Bio.Ring.{Chain}
use xv6_fork.Bio.Moves.{IsRing}
use xv6_fork.Bio.Search.{is_for, IsFirstOf}
use xv6_fork.Bio.Buffers.{Spares, Hits, Recycles, reverse}

-- A block other than block 0 of device 0, which each buffer has until it is first taken.
abbrev pub IsReal : ℕ → ℕ → Type 0
IsReal dev blockno = (dev ≢ 0) ⊎ (blockno ≢ 0)

pub IsReal-same :
    (dev dev' blockno blockno' : ℕ)
    → dev' ≡ dev
    → blockno' ≡ blockno
    → IsReal dev' blockno'
    → IsReal dev blockno
IsReal-same dev dev' blockno blockno' e f (inl nz) = inl (λ z. nz (e ∙ z))
IsReal-same dev dev' blockno blockno' e f (inr nz) = inr (λ z. nz (f ∙ z))

pub record IsCache (s : Cache) (order : List ℕ) : Type 0 where
  pub ring : IsRing s order
  pub count : length order ≡ nbuf
  pub all : (b : ℕ) → b < nbuf → In b order
  pub unique :
      (b c : ℕ)
      → In b order
      → In c order
      → IsReal (s.dev b) (s.blockno b)
      → s.dev b ≡ s.dev c
      → s.blockno b ≡ s.blockno c
      → b ≡ c

-- What is in the list as well as in its reverse.
In-append : (b : ℕ) (xs ys : List ℕ) → In b (xs ++ ys) → In b xs ⊎ In b ys
In-append b [] ys i = inr i
In-append b (x ∷ xs) ys (inl e) = inl (inl e)
In-append b (x ∷ xs) ys (inr i) = elim (In-append b xs ys i) [ inl j ↦ inl (inr j) | inr j ↦ inr j ]

In-reverse : (b : ℕ) (xs : List ℕ) → In b (reverse xs) → In b xs
In-reverse b [] i = elim i [ ]
In-reverse b (x ∷ xs) i = elim (In-append b (reverse xs) (x ∷ []) i) [
  | inl j ↦ inr (In-reverse b xs j)
  | inr (inl e) ↦ inl e
  | inr (inr j) ↦ absurd j
]

In-middle : (b : ℕ) (xs ys : List ℕ) → In b (xs ++ b ∷ ys)
In-middle b [] ys = inl refl
In-middle b (x ∷ xs) ys = inr (In-middle b xs ys)

first-In : (test : ℕ → Bool) (xs : List ℕ) (b : ℕ) → IsFirstOf test xs (some b) → In b xs
first-In test xs b (ys, zs, e, found, before) = subst (In b) (sym e) (In-middle b ys zs)

is_for-fields :
    (dev blockno b : ℕ) (s : Cache)
    → is_for dev blockno s b ≡ true
    → (s.dev b ≡ dev) × (s.blockno b ≡ blockno)
is_for-fields dev blockno b s h = ground arith

fields-is_for :
    (dev blockno b : ℕ) (s : Cache)
    → s.dev b ≡ dev
    → s.blockno b ≡ blockno
    → is_for dev blockno s b ≡ true
fields-is_for dev blockno b s e f = ground arith

module _ (dev blockno b : ℕ) (s s' : Cache) (order : List ℕ) (h : IsCache s order)
    (sp : Spares s b s') where
  same-IsRing : IsRing s' order
  same-IsRing = record {
    chain =
        subst (λ n. Chain n s'.prev head order head) (sym sp.next)
          (subst (λ p. Chain s.next p head order head) (sym sp.prev) h.ring.chain);
    distinct = h.ring.distinct;
    headless = h.ring.headless;
  }

  pub hit-IsCache : Hits dev blockno s order b s' → IsCache s' order
  hit-IsCache hit = record {
    ring = same-IsRing;
    count = h.count;
    all = h.all;
    unique = λ x y ix iy nz ed eb.
        h.unique x y ix iy (IsReal-same _ _ _ _ (same_dev x) (same_blockno x) nz)
          (sym (same_dev x) ∙ ed ∙ same_dev y) (sym (same_blockno x) ∙ eb ∙ same_blockno y);
  }
    where
      found : (s.dev b ≡ dev) × (s.blockno b ≡ blockno)
      found = is_for-fields dev blockno b s hit.cached.3

      still : (s'.dev b ≡ dev) × (s'.blockno b ≡ blockno)
      still = is_for-fields dev blockno b s' hit.still

      same_dev : (c : ℕ) → s'.dev c ≡ s.dev c
      same_dev c = elim (ℕ_discrete c b) [
        | yes e ↦ ap s'.dev e ∙ still.0 ∙ sym found.0 ∙ sym (ap s.dev e)
        | no ne ↦ sp.dev c ne
      ]

      same_blockno : (c : ℕ) → s'.blockno c ≡ s.blockno c
      same_blockno c = elim (ℕ_discrete c b) [
        | yes e ↦ ap s'.blockno e ∙ still.1 ∙ sym found.1 ∙ sym (ap s.blockno e)
        | no ne ↦ sp.blockno c ne
      ]

  pub recycled-IsCache : Recycles dev blockno s order b s' → IsCache s' order
  recycled-IsCache r = record {
    ring = same-IsRing;
    count = h.count;
    all = h.all;
    unique = λ x y ix iy nz ed eb. elim (ℕ_discrete x b) [
      | yes ex ↦ elim (ℕ_discrete y b) [
        | yes ey ↦ ex ∙ sym ey
        | no ny ↦
            absurd
              (other y iy ny (sym ed ∙ ap s'.dev ex ∙ now.0) (sym eb ∙ ap s'.blockno ex ∙ now.1))
      ]
      | no nx ↦ elim (ℕ_discrete y b) [
        | yes ey ↦
            absurd (other x ix nx (ed ∙ ap s'.dev ey ∙ now.0) (eb ∙ ap s'.blockno ey ∙ now.1))
        | no ny ↦
            h.unique x y ix iy (IsReal-same _ _ _ _ (sp.dev x nx) (sp.blockno x nx) nz)
              (sym (sp.dev x nx) ∙ ed ∙ sp.dev y ny) (sym (sp.blockno x nx) ∙ eb ∙ sp.blockno y ny)
      ]
    ];
  }
    where
      now : (s'.dev b ≡ dev) × (s'.blockno b ≡ blockno)
      now = is_for-fields dev blockno b s' r.now_for

      -- Nobody else has the block.
      other : (c : ℕ) → In c order → c ≢ b → s'.dev c ≡ dev → s'.blockno c ≡ blockno → ⊥
      other c i ne e f =
          let was =
            fields-is_for dev blockno c s (sym (sp.dev c ne) ∙ e) (sym (sp.blockno c ne) ∙ f) in
          let none_there = r.missing c i in absurd (cc)
