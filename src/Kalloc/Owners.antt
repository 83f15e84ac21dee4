-- ===== src/Kalloc/Owners.antt =====
-- kalloc.c as its clients use it: pages are given out, and owned pages come back, in any order.
use xv6_fork.Prelude.{
  ℕ, suc, ◌+◌, ◌≡◌, sym, ap, ◌∙◌, ◌≢◌, arith, false, some, List, [], ◌∷◌, ◌++◌, append_assoc,
  length, length-append, Distinct, Distinct-move, Distinct-move_back, NotIn-append_left,
}
use mathlib.Core.Path.{subst}
use xv6_fork.Kalloc.{Kmem, kfree, take_page}
use xv6_fork.Lru.{Run, returns, faults, runs_on}
use xv6_fork.Kalloc.Reclaim.{Memory, reclaim, kalloc}
use xv6_fork.Kalloc.Reclaim.Serves.{kalloc-take_page, kalloc_refuses, reclaim-kmem}
use xv6_fork.Kalloc.Chain.{IsPage, IsFree, kfree-IsFree, take_page-IsFree}

-- The allocator, and the pages that are in somebody's hands.
pub record Clients : Type 0 where
  pub mem : Memory
  pub owned : List ℕ

module _ (kernel_end : ℕ) where
  -- kalloc with a free page, or without one and with a reclaim that fails; kfree of an owned page; and
  -- whatever else happens to the list of user pages, their entries and their blocks.
  pub data Step : Clients → Clients → Type 0 where
    allocs :
        {m m' : Memory} {x : ℕ} (f fuel : ℕ) (ys : List ℕ)
        → m.kmem.freelist ≢ 0
        → kalloc (suc f) fuel m ≡ returns (x, m')
        → Step (record { mem = m; owned = ys }) (record { mem = m'; owned = x ∷ ys })
    refuses :
        {m m' r : Memory} {x : ℕ} (f fuel : ℕ) (ys : List ℕ)
        → m.kmem.freelist ≡ 0
        → reclaim fuel m ≡ returns (false, r)
        → kalloc (suc f) fuel m ≡ returns (x, m')
        → Step (record { mem = m; owned = ys }) (record { mem = m'; owned = ys })
    frees :
        {m : Memory} {k : Kmem} (ys zs : List ℕ) (v : ℕ)
        → kfree kernel_end v m.kmem ≡ some k
        → Step
            (record { mem = m; owned = ys ++ (v ∷ zs) })
            (record { mem = record m { kmem = k }; owned = ys ++ zs })
    elsewhere :
        {m m' : Memory} (ys : List ℕ)
        → m'.kmem ≡ m.kmem
        → Step (record { mem = m; owned = ys }) (record { mem = m'; owned = ys })

  pub data Reach (c : Clients) : Clients → Type 0 where
    here : Reach c c
    next : {d e : Clients} → Reach c d → Step d e → Reach c e

  abbrev pub AllPages : List ℕ → Type 0
  AllPages [] = Unit {0}
  AllPages (x ∷ xs) = IsPage kernel_end x × AllPages xs

  -- `total` pages: each is free or owned, none is both, and none is owned twice.
  pub record IsShared (total : ℕ) (c : Clients) : Type 0 where
    pub unused : List ℕ
    pub free : IsFree kernel_end c.mem.kmem unused
    pub distinct : Distinct (unused ++ c.owned)
    pub pages : AllPages c.owned
    pub count : length unused + length c.owned ≡ total

  AllPages-drop : (ys zs : List ℕ) (v : ℕ) → AllPages (ys ++ (v ∷ zs)) → AllPages (ys ++ zs)
  AllPages-drop [] zs v h = h.1
  AllPages-drop (y ∷ ys) zs v h = (h.0, AllPages-drop ys zs v h.1)

  AllPages-pick : (ys zs : List ℕ) (v : ℕ) → AllPages (ys ++ (v ∷ zs)) → IsPage kernel_end v
  AllPages-pick [] zs v h = h.0
  AllPages-pick (y ∷ ys) zs v h = AllPages-pick ys zs v h.1

  head-IsPage :
      (x : ℕ) (m : Kmem) (xs : List ℕ) → IsFree kernel_end m (x ∷ xs) → IsPage kernel_end x
  head-IsPage x m xs f = f.chain.1

  returned : {a b : ℕ × Memory} → ◌≡◌ {A = Run (ℕ × Memory)} (returns a) (returns b) → a ≡ b
  returned {a} e = ap (λ r. elim r [ returns t ↦ t | faults ↦ a | runs_on ↦ a ]) e

  allocs-IsShared :
      (total : ℕ) (m : Memory) (ys xs : List ℕ)
      → m.kmem.freelist ≢ 0
      → IsFree kernel_end m.kmem xs
      → Distinct (xs ++ ys)
      → AllPages ys
      → length xs + length ys ≡ total
      → IsShared total (record {
        mem = record m { kmem = (take_page m.kmem).1 };
        owned = (take_page m.kmem).0 ∷ ys;
      })
  allocs-IsShared total m ys [] ne f d p n = absurd (ne f.chain)
  allocs-IsShared total m ys (y ∷ xs) ne f d p n =
      let (k, e, f') = take_page-IsFree kernel_end y m.kmem xs f in
      subst
        (λ (t : ℕ × Kmem).
          IsShared total (record { mem = record m { kmem = t.1 }; owned = t.0 ∷ ys }))
        (sym e)
        record {
          unused = xs;
          free = f';
          distinct = Distinct-move y xs ys d;
          pages = (head-IsPage y m.kmem xs f, p);
          count = omega arith;
        }

  frees-IsShared :
      (total : ℕ) (m : Memory) (k : Kmem) (ys zs : List ℕ) (v : ℕ)
      → kfree kernel_end v m.kmem ≡ some k
      → IsShared total (record { mem = m; owned = ys ++ (v ∷ zs) })
      → IsShared total (record { mem = record m { kmem = k }; owned = ys ++ zs })
  frees-IsShared total m k ys zs v e s =
      let d =
        Distinct-move_back v (s.unused ++ ys) zs
          (rw (append_assoc s.unused ys (v ∷ zs)) s.distinct) in
      let d' = rw append_assoc at d in
      let n = NotIn-append_left v s.unused (ys ++ zs) d'.0 in
      let (k', e', f') =
        kfree-IsFree kernel_end v m.kmem s.unused (AllPages-pick ys zs v s.pages) n s.free in
      let em : k' ≡ k = ground (arith, e', e) in
      record {
        unused = v ∷ s.unused;
        free = subst (λ z. IsFree kernel_end z (v ∷ s.unused)) em f';
        distinct = d';
        pages = AllPages-drop ys zs v s.pages;
        count = omega (arith, s.count, length-append ys (v ∷ zs), length-append ys zs);
      }

  same-IsShared :
      (total : ℕ) (m m' : Memory) (ys : List ℕ)
      → m'.kmem ≡ m.kmem
      → IsShared total (record { mem = m; owned = ys })
      → IsShared total (record { mem = m'; owned = ys })
  same-IsShared total m m' ys e s = record {
    unused = s.unused;
    free = subst (λ k. IsFree kernel_end k s.unused) (sym e) s.free;
    distinct = s.distinct;
    pages = s.pages;
    count = s.count;
  }

  Step-IsShared : {c d : Clients} (total : ℕ) → Step c d → IsShared total c → IsShared total d
  Step-IsShared total (allocs {m} {m'} {x} f fuel ys ne e) s =
      let done = returned (sym (kalloc-take_page f fuel m ne) ∙ e) in
      subst (λ (t : ℕ × Memory). IsShared total (record { mem = t.1; owned = t.0 ∷ ys })) done
        (allocs-IsShared total m ys s.unused ne s.free s.distinct s.pages s.count)
  Step-IsShared total (refuses {m} {m'} {r} {x} f fuel ys z failed e) s =
      let done = returned (sym (kalloc_refuses f fuel m r z failed) ∙ e) in
      let kept = ap (λ (t : ℕ × Memory). t.1.kmem) (sym done) ∙ reclaim-kmem fuel m r failed in
      same-IsShared total m m' ys kept s
  Step-IsShared total (frees {m} {k} ys zs v e) s = frees-IsShared total m k ys zs v e s
  Step-IsShared total (elsewhere {m} {m'} ys e) s = same-IsShared total m m' ys e s

  -- As long as no call of kalloc reclaims a page: whatever sequence is made of calls of kalloc that find
  -- a free page, or find none and fail to reclaim one, and of calls of kfree for owned pages, whatever
  -- happens to user pages in between, every page of the allocator stays either free or owned, never
  -- both, no page is owned twice, and none is lost: the free list and the owned pages add up to the same
  -- total.
  pub Reach-IsShared : {c d : Clients} (total : ℕ) → IsShared total c → Reach c d → IsShared total d
  Reach-IsShared total s here = s
  Reach-IsShared total s (next r t) = Step-IsShared total t (Reach-IsShared total s r)
