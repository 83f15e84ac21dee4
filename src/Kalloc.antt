-- ===== src/Kalloc.antt =====
-- kalloc.c: the allocator of physical pages. A free page holds the address of the next free page in
-- its first word; `words` is the kernel's memory, read by word address. kalloc as
-- a whole is in Kalloc/Reclaim, with reclaim; the list of user pages and swapping are in Lru and Swap.
pub mod Chain
pub mod Reclaim
pub mod Owners
pub mod Range
mod Tests
use xv6_fork.Prelude.{
  ℕ, zero, suc, ◌+◌, ◌-◌, ◌*◌, ◌/◌, ◌%◌, ◌≡◌, Bool, true, false, not, ◌||◌, Option, none, some,
  if◌then◌else◌, ◌==◌, ltb, leb, sub32, add32,
}

abbrev pub page_size : ℕ
page_size = 4096

-- memlayout.h
abbrev pub kern_base : ℕ
kern_base = 0x80000000

abbrev pub phys_stop : ℕ
phys_stop = 0xE000000

abbrev pub v2p : ℕ → ℕ
v2p a = sub32 a kern_base

abbrev pub p2v : ℕ → ℕ
p2v a = add32 a kern_base

-- PGROUNDUP of mmu.h, on a `uint`.
abbrev pub page_round_up : ℕ → ℕ
page_round_up a = let s = add32 a (page_size - 1) in s - s % page_size

-- `kmem` without its lock, and the memory that the free pages lie in.
pub record Kmem : Type 0 where
  pub freelist : ℕ
  pub words : ℕ → ℕ

-- memset(v, 1, PGSIZE)
abbrev pub junk : (ℕ → ℕ) → ℕ → ℕ → ℕ
junk words v a = if a / page_size == v / page_size then 0x01010101 else words a

abbrev pub poke : (ℕ → ℕ) → ℕ → ℕ → ℕ → ℕ
poke words v x a = if v == a then x else words a

-- The guard of kfree. `kernel_end` is the symbol `end` of kernel.ld.
abbrev pub is_bad_page : ℕ → ℕ → Bool
is_bad_page kernel_end v = not (v % page_size == 0) || (ltb v kernel_end || leb phys_stop (v2p v))

-- `none` is panic("kfree").
pub kfree : ℕ → ℕ → Kmem → Option Kmem
kfree kernel_end v m =
    if is_bad_page kernel_end v
    then none
    else some (record { freelist = v; words = poke (junk m.words v) v m.freelist })

-- The rest of kalloc behind its loop, where `r` is the head of the list: 0 if the list is empty.
pub take_page : Kmem → ℕ × Kmem
take_page m =
    if m.freelist == 0 then (0, m) else (m.freelist, record m { freelist = m.words m.freelist })

-- The loop of kmem_len, with `i` pages counted. `none` means that the fuel ran out.
pub count_pages : ℕ → (ℕ → ℕ) → ℕ → ℕ → Option ℕ
count_pages zero words r i = none
count_pages (suc f) words r i =
    let rest = count_pages f words (words r) (i + 1) in if r == 0 then some i else rest

pub kmem_len : ℕ → Kmem → Option ℕ
kmem_len fuel m = count_pages fuel m.words m.freelist 0

-- The loop of freerange from `p` on. The first `none` is a panic of kfree, the inner one means that
-- the fuel ran out.
pub free_from : ℕ → ℕ → ℕ → ℕ → Kmem → Option (Option Kmem)
free_from zero kernel_end vend p m = some none
free_from (suc f) kernel_end vend p m =
    if leb (p + page_size) vend
    then (elim (kfree kernel_end p m) [
      | none ↦ none
      | some m' ↦ free_from f kernel_end vend (p + page_size) m'
    ])
    else some (some m)

pub freerange : ℕ → ℕ → ℕ → ℕ → Kmem → Option (Option Kmem)
freerange fuel kernel_end vstart vend m = free_from fuel kernel_end vend (page_round_up vstart) m
