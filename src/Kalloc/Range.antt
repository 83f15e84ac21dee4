-- ===== src/Kalloc/Range.antt =====
-- freerange of kalloc.c: every whole page of an address range becomes free.
use xv6_fork.Prelude.{
  ℕ, zero, suc, ◌+◌, ◌*◌, ◌%◌, ◌≤◌, ◌<◌, ◌≡◌, refl, arith, some, true, false, List, [], ◌∷◌, NotIn,
  leb,
}
use xv6_fork.Kalloc.{Kmem, page_size, kern_base, phys_stop, page_round_up, free_from, freerange}
use xv6_fork.Kalloc.Chain.{IsPage, IsFree, kfree-IsFree}

-- The free list after the `k` pages from `p` on have been freed, lowest first.
abbrev pub stacked : ℕ → ℕ → List ℕ → List ℕ
stacked p zero xs = xs
stacked p (suc k) xs = stacked (p + page_size) k (p ∷ xs)

abbrev pub AllBelow : ℕ → List ℕ → Type 0
AllBelow p [] = Unit {0}
AllBelow p (x ∷ xs) = (x < p) × AllBelow p xs

AllBelow-mono : (p q : ℕ) (xs : List ℕ) → p ≤ q → AllBelow p xs → AllBelow q xs
AllBelow-mono p q [] h b = tt
AllBelow-mono p q (x ∷ xs) h b = (omega arith, AllBelow-mono p q xs h b.1)

NotIn-above : (p : ℕ) (xs : List ℕ) → AllBelow p xs → NotIn p xs
NotIn-above p [] b = tt
NotIn-above p (x ∷ xs) b = ((λ e. omega arith), NotIn-above p xs b.1)

free_from-IsFree :
    (k fuel kernel_end vend p : ℕ) (m : Kmem) (xs : List ℕ)
    → k < fuel
    → p % page_size ≡ 0
    → kernel_end ≤ p
    → kern_base ≤ p
    → vend ≤ kern_base + phys_stop
    → p + k * page_size ≤ vend
    → vend < p + k * page_size + page_size
    → AllBelow p xs
    → IsFree kernel_end m xs
    → (m' : Kmem) × (free_from fuel kernel_end vend p m ≡ some (some m'))
      × IsFree kernel_end m' (stacked p k xs)
unfolding free_from
free_from-IsFree k zero kernel_end vend p m xs h a e b v lo hi below f = absurd (omega arith)
free_from-IsFree zero (suc fuel) kernel_end vend p m xs h a e b v lo hi below f =
    let stop : leb (p + page_size) vend ≡ false = ground arith in (m, rw stop refl, f)
free_from-IsFree (suc k) (suc fuel) kernel_end vend p m xs h a e b v lo hi below f =
    let page : IsPage kernel_end p = record {
      aligned = a;
      above = e;
      below = omega arith;
      kernel = b;
      word = omega arith;
    } in
    let go : leb (p + page_size) vend ≡ true = ground arith in
    let (m1, e1, f1) = kfree-IsFree kernel_end p m xs page (NotIn-above p xs below) f in
    let (m2, e2, f2) =
      free_from-IsFree k fuel kernel_end vend (p + page_size) m1 (p ∷ xs) (omega arith)
        (omega arith) (omega arith) (omega arith) v (omega arith) (omega arith)
        (omega arith, AllBelow-mono p (p + page_size) xs (omega arith) below) f1 in
    (m2, rw (go, e1) e2, f2)

-- freerange over addresses of the kernel's mapping of physical memory neither panics nor runs out of
-- fuel, and makes free, beside the pages that were free below the range, exactly the whole pages
-- between the two addresses: `k` pages from the first page boundary on.
pub freerange-IsFree :
    (k fuel kernel_end vstart vend : ℕ) (m : Kmem) (xs : List ℕ)
    → k < fuel
    → kernel_end ≤ vstart
    → kern_base ≤ vstart
    → vstart ≤ vend
    → vend ≤ kern_base + phys_stop
    → page_round_up vstart + k * page_size ≤ vend
    → vend < page_round_up vstart + k * page_size + page_size
    → AllBelow vstart xs
    → IsFree kernel_end m xs
    → (m' : Kmem) × (freerange fuel kernel_end vstart vend m ≡ some (some m'))
      × IsFree kernel_end m' (stacked (page_round_up vstart) k xs)
unfolding freerange
freerange-IsFree k fuel kernel_end vstart vend m xs h e b v w lo hi below f =
    free_from-IsFree k fuel kernel_end vend (page_round_up vstart) m xs h (omega arith)
      (omega arith) (omega arith) w lo hi
      (AllBelow-mono vstart (page_round_up vstart) xs (omega arith) below) f
