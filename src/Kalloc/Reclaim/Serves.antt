-- ===== src/Kalloc/Reclaim/Serves.antt =====
-- kalloc of kalloc.c: with a free page, without one, and behind a reclaim.
use xv6_fork.Prelude.{
  ℕ, zero, suc, ◌≡◌, ◌≢◌, refl, sym, ap, ◌∙◌, inl, inr, arith, Bool, true, false, Bool-cases,
  Option, none, some, Option-cases, ◌==◌, leb,
}
use xv6_fork.Kalloc.{take_page}
use xv6_fork.Fs.{balloc}
use xv6_fork.Swap.{a_bit, pte_logical_and}
use xv6_fork.Lru.{unlink, Run, returns, faults, runs_on}
use xv6_fork.Kalloc.Reclaim.{
  Memory, swap_pages, swap_out, pass_over, is_page, reclaim_from, reclaim, kalloc,
}

-- A free page is handed out.
pub kalloc-take_page :
    (f fuel : ℕ) (m : Memory)
    → m.kmem.freelist ≢ 0
    → kalloc (suc f) fuel m
      ≡ returns ((take_page m.kmem).0, record m { kmem = (take_page m.kmem).1 })
unfolding kalloc
kalloc-take_page f fuel m nz =
    let some_free : (m.kmem.freelist == 0) ≡ false = ground arith in rw some_free refl

-- Without a free page and with a reclaim that fails there is nothing to hand out.
pub kalloc_refuses :
    (f fuel : ℕ) (m m' : Memory)
    → m.kmem.freelist ≡ 0
    → reclaim fuel m ≡ returns (false, m')
    → kalloc (suc f) fuel m ≡ returns (0, m')
unfolding kalloc
kalloc_refuses f fuel m m' z failed =
    let empty : (m.kmem.freelist == 0) ≡ true = ground arith in rw (kalloc, empty, failed) refl

-- Where reclaim starts.
reclaim_head :
    (fuel : ℕ) (m : Memory) {h : Option ℕ}
    → m.lru.head ≡ h
    → reclaim fuel m ≡ (elim h as (λ x. Run (Bool × Memory)) [
      | none ↦ returns (false, m)
      | some i ↦ reclaim_from fuel i (m.lru.pages i).prev m
    ])
unfolding reclaim
reclaim_head fuel m k =
    ap
      (λ o. elim o as (λ x. Run (Bool × Memory)) [
        | none ↦ returns (false, m)
        | some i ↦ reclaim_from fuel i (m.lru.pages i).prev m
      ])
      k

pub reclaim_alone :
    (fuel : ℕ) (m : Memory) → m.lru.head ≡ none → reclaim fuel m ≡ returns (false, m)
reclaim_alone fuel m alone = reclaim_head fuel m alone

freelist_eq :
    {a b : Memory}
    → ◌≡◌ {A = Run (Bool × Memory)} (returns (true, a)) (returns (true, b))
    → a.kmem.freelist ≡ b.kmem.freelist
freelist_eq {a} e =
    ap
      (λ r. elim r [
        | returns t ↦ t.1.kmem.freelist
        | faults ↦ a.kmem.freelist
        | runs_on ↦ a.kmem.freelist
      ])
      e

-- What is on the free list after a reclaim that succeeds.
swap_out-freelist :
    (p : ℕ) (m m' : Memory)
    → swap_out p m ≡ returns (true, m')
    → m'.kmem.freelist ≡ (m.lru.pages p).vaddr
unfolding swap_out
swap_out-freelist p m m' e =
    elim (Option-cases (unlink m.lru.pages p (m.lru.pages p).next (m.lru.pages p).prev)) [
      | inl u ↦
          let bad : ◌≡◌ {A = Run (Bool × Memory)} faults (returns (true, m')) =
            rw (swap_out, u) at e in
          absurd (cc)
      | inr (pages, u) ↦ elim (Option-cases (balloc m.swap_fs)) [
        | inl b ↦
            let bad : ◌≡◌ {A = Run (Bool × Memory)} faults (returns (true, m')) =
              rw (swap_out, u, b) at e in
            absurd (cc)
        | inr ((blkno, fs), b) ↦ elim (Bool-cases (leb swap_pages blkno)) [
          | inl l ↦
              let bad : ◌≡◌ {A = Run (Bool × Memory)} faults (returns (true, m')) =
                rw (swap_out, u, b, l) at e in
              absurd (cc)
          | inr l ↦ sym (freelist_eq (rw (swap_out, u, b, l) at e))
        ]
      ]
    ]

-- The victim is one of the list, with an address of a process.
reclaim_from-freelist :
    (f p : ℕ) (tail : Option ℕ) (m m' : Memory)
    → reclaim_from f p tail m ≡ returns (true, m')
    → (q : ℕ) × (m'.kmem.freelist ≡ (m.lru.pages q).vaddr)
unfolding reclaim_from
reclaim_from-freelist zero p tail m m' e = absurd (cc)
reclaim_from-freelist (suc f) p tail m m' e =
    elim (Bool-cases
      (pte_logical_and (m.pte (m.lru.pages p).pgdir (m.lru.pages p).vaddr) a_bit == 0)) [
        | inl idle ↦ (p, swap_out-freelist p m m' (rw (reclaim_from, idle) at e))
        | inr busy ↦ elim (Bool-cases (is_page p tail)) [
          | inl last ↦
              let bad : ◌≡◌ {A = Run (Bool × Memory)} (returns (false, pass_over p m))
                  (returns (true, m')) =
                rw (reclaim_from, busy, last) at e in
              absurd (cc)
          | inr more ↦ elim (Option-cases (m.lru.pages p).next) [
            | inl end ↦
                let bad : ◌≡◌ {A = Run (Bool × Memory)} faults (returns (true, m')) =
                  rw (reclaim_from, busy, more, end) at e in
                absurd (cc)
            | inr (q, n) ↦
                reclaim_from-freelist f q tail (pass_over p m) m'
                  (rw (reclaim_from, busy, more, n) at e)
          ]
        ]
      ]

reclaim-freelist :
    (fuel : ℕ) (m m' : Memory)
    → reclaim fuel m ≡ returns (true, m')
    → (q : ℕ) × (m'.kmem.freelist ≡ (m.lru.pages q).vaddr)
reclaim-freelist fuel m m' e = result m.lru.head refl
  where
    result : (h : Option ℕ) → m.lru.head ≡ h → (q : ℕ) × (m'.kmem.freelist ≡ (m.lru.pages q).vaddr)
    result none k =
        let bad : ◌≡◌ {A = Run (Bool × Memory)} (returns (false, m)) (returns (true, m')) =
          sym (reclaim_head fuel m k) ∙ e in
        absurd (cc)
    result (some h) k =
        reclaim_from-freelist fuel h (m.lru.pages h).prev m m' (sym (reclaim_head fuel m k) ∙ e)

kmem_eq :
    {a b : Memory}
    → ◌≡◌ {A = Run (Bool × Memory)} (returns (false, a)) (returns (false, b))
    → b.kmem ≡ a.kmem
kmem_eq {a} e =
    sym (ap (λ r. elim r [ returns t ↦ t.1.kmem | faults ↦ a.kmem | runs_on ↦ a.kmem ]) e)

taken_out : (p : ℕ) (m m' : Memory) → swap_out p m ≡ returns (false, m') → ⊥
unfolding swap_out
taken_out p m m' e =
    elim (Option-cases (unlink m.lru.pages p (m.lru.pages p).next (m.lru.pages p).prev)) [
      | inl u ↦ clash (rw (swap_out, u) at e)
      | inr (pages, u) ↦ elim (Option-cases (balloc m.swap_fs)) [
        | inl b ↦ clash (rw (swap_out, u, b) at e)
        | inr ((blkno, fs), b) ↦ elim (Bool-cases (leb swap_pages blkno)) [
          | inl l ↦ clash (rw (swap_out, u, b, l) at e)
          | inr l ↦ other (rw (swap_out, u, b, l) at e)
        ]
      ]
    ]
  where
    clash : ◌≡◌ {A = Run (Bool × Memory)} faults (returns (false, m')) → ⊥
    clash bad = absurd (cc)

    other :
        {a : Memory} → ◌≡◌ {A = Run (Bool × Memory)} (returns (true, a)) (returns (false, m')) → ⊥
    other bad = absurd (cc)

reclaim_from-kmem :
    (f p : ℕ) (tail : Option ℕ) (m m' : Memory)
    → reclaim_from f p tail m ≡ returns (false, m')
    → m'.kmem ≡ m.kmem
unfolding reclaim_from
reclaim_from-kmem zero p tail m m' e = absurd (cc)
reclaim_from-kmem (suc f) p tail m m' e =
    elim (Bool-cases
      (pte_logical_and (m.pte (m.lru.pages p).pgdir (m.lru.pages p).vaddr) a_bit == 0)) [
        | inl idle ↦ absurd (taken_out p m m' (rw (reclaim_from, idle) at e))
        | inr busy ↦ elim (Bool-cases (is_page p tail)) [
          | inl last ↦ kmem_eq {a = pass_over p m} (rw (reclaim_from, busy, last) at e)
          | inr more ↦ elim (Option-cases (m.lru.pages p).next) [
            | inl end ↦
                let bad : ◌≡◌ {A = Run (Bool × Memory)} faults (returns (false, m')) =
                  rw (reclaim_from, busy, more, end) at e in
                absurd (cc)
            | inr (q, n) ↦
                reclaim_from-kmem f q tail (pass_over p m) m'
                  (rw (reclaim_from, busy, more, n) at e)
          ]
        ]
      ]

-- A reclaim that fails leaves the free list alone.
pub reclaim-kmem :
    (fuel : ℕ) (m m' : Memory) → reclaim fuel m ≡ returns (false, m') → m'.kmem ≡ m.kmem
reclaim-kmem fuel m m' e = result m.lru.head refl
  where
    result : (h : Option ℕ) → m.lru.head ≡ h → m'.kmem ≡ m.kmem
    result none k = kmem_eq {a = m} (sym (reclaim_head fuel m k) ∙ e)
    result (some h) k =
        reclaim_from-kmem fuel h (m.lru.pages h).prev m m' (sym (reclaim_head fuel m k) ∙ e)

-- When the free list is empty and reclaim succeeds, kalloc returns what `vaddr` of a page in the list
-- says, if that is not 0: the address of the page in its process, not a page of the allocator.
pub kalloc-vaddr :
    (f fuel : ℕ) (m m' : Memory)
    → m.kmem.freelist ≡ 0
    → reclaim fuel m ≡ returns (true, m')
    → m'.kmem.freelist ≢ 0
    → (q : ℕ) × (t : Memory) × (kalloc (suc (suc f)) fuel m ≡ returns ((m.lru.pages q).vaddr, t))
unfolding kalloc take_page
kalloc-vaddr f fuel m m' z e nz =
    let empty : (m.kmem.freelist == 0) ≡ true = ground arith in
    let (q, there) = reclaim-freelist fuel m m' e in
    let full : (m'.kmem.freelist == 0) ≡ false = ground arith in
    let next = kalloc-take_page f fuel m' nz in
    let first : (take_page m'.kmem).0 ≡ (m.lru.pages q).vaddr = rw full there in
    (
      q,
      record m' { kmem = (take_page m'.kmem).1 },
      rw (kalloc, empty, e)
          (next ∙ ap (λ a. returns (a, record m' { kmem = (take_page m'.kmem).1 })) first),
    )
