-- ===== src/Kalloc/Chain.antt =====
-- The free list of kalloc.c as a list of addresses.
use xv6_fork.Prelude.{
  ℕ, zero, suc, ◌+◌, ◌%◌, ◌≤◌, ◌<◌, ◌≡◌, refl, ap, ◌∙◌, arith, some, false, List, [], ◌∷◌, length,
  ◌==◌, NotIn, Distinct,
}
use xv6_fork.Kalloc.{
  Kmem, page_size, kern_base, phys_stop, v2p, junk, poke, kfree, take_page, count_pages, kmem_len,
}

-- A page that kfree accepts.
pub record IsPage (kernel_end v : ℕ) : Type 0 where
  pub aligned : v % page_size ≡ 0
  pub above : kernel_end ≤ v
  pub below : v2p v < phys_stop
  pub kernel : kern_base ≤ v
  pub word : v < 0x100000000

-- From address `r` on, the list runs through `xs` and ends at 0.
abbrev pub Chain : ℕ → (ℕ → ℕ) → ℕ → List ℕ → Type 0
Chain kernel_end words r [] = r ≡ 0
Chain kernel_end words r (x ∷ xs) =
    (r ≡ x) × IsPage kernel_end x × Chain kernel_end words (words x) xs

-- The free pages are `xs`, each once.
pub record IsFree (kernel_end : ℕ) (m : Kmem) (xs : List ℕ) : Type 0 where
  pub chain : Chain kernel_end m.words m.freelist xs
  pub distinct : Distinct xs

-- Two different pages share no word, so freeing one leaves the link in the other alone.
Chain-poke :
    (kernel_end v y : ℕ) (words : ℕ → ℕ) (r : ℕ) (xs : List ℕ)
    → IsPage kernel_end v
    → NotIn v xs
    → Chain kernel_end words r xs
    → Chain kernel_end (poke (junk words v) v y) r xs
Chain-poke kernel_end v y words r [] p n c = c
Chain-poke kernel_end v y words r (x ∷ xs) p n c =
    let same : poke (junk words v) v y x ≡ words x = ground (arith, c.1.aligned, p.aligned, n.0) in
    (c.0, c.1, rw same (Chain-poke kernel_end v y words (words x) xs p n.1 c.2))

-- Freeing a page that is not free already puts it at the front of the list, with the rest as it was.
pub kfree-IsFree :
    (kernel_end v : ℕ) (m : Kmem) (xs : List ℕ)
    → IsPage kernel_end v
    → NotIn v xs
    → IsFree kernel_end m xs
    → (m' : Kmem) × (kfree kernel_end v m ≡ some m') × IsFree kernel_end m' (v ∷ xs)
unfolding kfree
kfree-IsFree kernel_end v m xs p n f = (
  record { freelist = v; words = poke (junk m.words v) v m.freelist },
  ground (arith, p.aligned, p.above, p.below),
  record {
    chain = (
      refl,
      p,
      rw (poke_self (junk m.words v) v m.freelist)
          (Chain-poke kernel_end v m.freelist m.words m.freelist xs p n f.chain),
    );
    distinct = (n, f.distinct);
  },
)
  where
    poke_self : (words : ℕ → ℕ) (a x : ℕ) → poke words a x a ≡ x
    poke_self words a x = ground arith

-- kalloc gives out the front page of a list that is not empty, and keeps the rest.
pub take_page-IsFree :
    (kernel_end x : ℕ) (m : Kmem) (xs : List ℕ)
    → IsFree kernel_end m (x ∷ xs)
    → (m' : Kmem) × (take_page m ≡ (x, m')) × IsFree kernel_end m' xs
unfolding take_page
take_page-IsFree kernel_end x m xs f =
    let e = f.chain.0 in
    let nonzero : (m.freelist == 0) ≡ false = ground (arith, f.chain.1.kernel) in
    (
      record m { freelist = m.words x },
      rw nonzero (rw e refl),
      record { chain = f.chain.2; distinct = f.distinct.1 },
    )

-- With no free page it gives out nothing.
pub take_page_empty : (kernel_end : ℕ) (m : Kmem) → IsFree kernel_end m [] → take_page m ≡ (0, m)
unfolding take_page
take_page_empty kernel_end m f = ground (arith, f.chain)

count_pages-length :
    (xs : List ℕ) (fuel kernel_end : ℕ) (words : ℕ → ℕ) (r i : ℕ)
    → length xs < fuel
    → Chain kernel_end words r xs
    → count_pages fuel words r i ≡ some (i + length xs)
unfolding count_pages
count_pages-length xs zero kernel_end words r i h c = absurd (omega arith)
count_pages-length [] (suc f) kernel_end words r i h c = ground (arith, c)
count_pages-length (x ∷ xs) (suc f) kernel_end words r i h c =
    let nonzero : (r == 0) ≡ false = ground (arith, c.0, c.1.kernel) in
    let ih = count_pages-length xs f kernel_end words (words x) (i + 1) (omega arith) c.2 in
    rw nonzero (rw c.0 (ih ∙ ap some (omega arith)))

-- kmem_len ends on every free list, and returns the number of free pages.
pub kmem_len-length :
    (kernel_end fuel : ℕ) (m : Kmem) (xs : List ℕ)
    → length xs < fuel
    → IsFree kernel_end m xs
    → kmem_len fuel m ≡ some (length xs)
unfolding kmem_len
kmem_len-length kernel_end fuel m xs h f =
    count_pages-length xs fuel kernel_end m.words m.freelist 0 h f.chain ∙ ap some (omega arith)
