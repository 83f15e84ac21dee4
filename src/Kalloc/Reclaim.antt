-- ===== src/Kalloc/Reclaim.antt =====
-- kalloc.c: reclaim, and kalloc with it. The bits of the page table entries are those of Swap, the list
-- of user pages that of Lru, and the blocks for swapped pages come from balloc of fs.c.
pub mod Serves
use xv6_fork.Prelude.{
  ℕ, zero, suc, ◌+◌, ◌-◌, ◌*◌, ◌/◌, ◌&&◌, Bool, true, false, Option, none, some, List, ◌∷◌,
  if◌then◌else◌, ◌==◌, leb,
}
use xv6_fork.Kalloc.{Kmem, take_page}
use xv6_fork.Lru.{Page, Lru, unlink, Run, returns, faults, runs_on}
use xv6_fork.Swap.{a_bit, pte_logical_and, pte_pte_a_clear, swapped_out}
use xv6_fork.Fs.{Fs, balloc}

-- SWAPMAX / (PGSIZE / BSIZE).
abbrev pub swap_pages : ℕ
swap_pages = (100000 - 500) / 8

-- What kalloc works on: the free list, the list of user pages, the entry that walkpgdir finds in a page
-- directory for an address, `swapbitmap`, the blocks that balloc_for_swap hands out, and the pages that
-- swapwrite has written, by address and place.
pub record Memory : Type 0 where
  pub kmem : Kmem
  pub lru : Lru
  pub pte : ℕ → ℕ → Option ℕ
  pub swapbitmap : ℕ → ℕ
  pub swap_fs : Fs
  pub written : List (ℕ × ℕ)

-- Writes to the entry, if there is one.
abbrev pub on_pte : (ℕ → ℕ) → ℕ → ℕ → (ℕ → ℕ → Option ℕ) → ℕ → ℕ → Option ℕ
on_pte f pgdir va pte d a =
    if (pgdir == d) && (va == a)
    then (elim (pte d a) [ none ↦ none | some e ↦ some (f e) ])
    else pte d a

-- The body of the if of reclaim, for pages[p]. `faults` also stands for the panics of balloc and swapwrite.
pub swap_out : ℕ → Memory → Run (Bool × Memory)
swap_out p m = elim (unlink m.lru.pages p (m.lru.pages p).next (m.lru.pages p).prev) [
  | none ↦ faults
  | some pages ↦ elim (balloc m.swap_fs) [
    | none ↦ faults
    | some (blkno, fs) ↦
        let va = (m.lru.pages p).vaddr in
        if leb swap_pages blkno
        then faults
        else returns (
          true,
          record {
            kmem = record m.kmem { freelist = va };
            lru = record m.lru { pages = pages; num = m.lru.num - 1 };
            pte = on_pte (λ e. swapped_out e blkno) (m.lru.pages p).pgdir va m.pte;
            swapbitmap = λ b. if blkno == b then va else m.swapbitmap b;
            swap_fs = fs;
            written = (va, blkno) ∷ m.written;
          },
        )
  ]
]

-- `page_lru_head = page_lru_head->next`, and the entry without PTE_A.
abbrev pub pass_over : ℕ → Memory → Memory
pass_over p m = record m {
  lru = record m.lru { head = elim m.lru.head [ none ↦ none | some h ↦ (m.lru.pages h).next ] };
  pte = on_pte pte_pte_a_clear (m.lru.pages p).pgdir (m.lru.pages p).vaddr m.pte;
}

abbrev pub is_page : ℕ → Option ℕ → Bool
is_page p none = false
is_page p (some t) = p == t

-- The loop of reclaim from pages[p] on.
pub reclaim_from : ℕ → ℕ → Option ℕ → Memory → Run (Bool × Memory)
reclaim_from zero p tail m = runs_on
reclaim_from (suc f) p tail m =
    let rest : Run (Bool × Memory) = elim (m.lru.pages p).next [
      | none ↦ faults
      | some q ↦ reclaim_from f q tail (pass_over p m)
    ] in
    if pte_logical_and (m.pte (m.lru.pages p).pgdir (m.lru.pages p).vaddr) a_bit == 0
    then swap_out p m
    else (if is_page p tail then returns (false, pass_over p m) else rest)

pub reclaim : ℕ → Memory → Run (Bool × Memory)
reclaim fuel m = elim m.lru.head [
  | none ↦ returns (false, m)
  | some h ↦ reclaim_from fuel h (m.lru.pages h).prev m
]

-- kalloc, with fuel for its own loop and for that of reclaim: what it returns.
pub kalloc : ℕ → ℕ → Memory → Run (ℕ × Memory)
kalloc zero fuel m = runs_on
kalloc (suc f) fuel m =
    if m.kmem.freelist == 0
    then (elim (reclaim fuel m) [
      | returns (ok, m') ↦ elim ok [ true ↦ kalloc f fuel m' | false ↦ returns (0, m') ]
      | faults ↦ faults
      | runs_on ↦ runs_on
    ])
    else (let r = take_page m.kmem in returns (r.0, record m { kmem = r.1 }))
