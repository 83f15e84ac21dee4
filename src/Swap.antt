-- ===== src/Swap.antt =====
-- Swapping of user pages: the page table entry helpers at the end of vm.c, and what reclaim and
-- swapin of kalloc.c do with them. An entry is a 32-bit word; `x & FLAG` for one flag bit is written
-- with `/` and `%`.
pub mod Entry
mod Tests
use xv6_fork.Prelude.{
  ℕ, zero, suc, ◌+◌, ◌-◌, ◌*◌, ◌/◌, ◌%◌, ◌^◌, ◌≡◌, Bool, true, false, Option, none, some, u32_mod,
  sub32, if◌then◌else◌, ◌==◌,
}

-- Bit k of a word: `(pte >> k) & 1`.
abbrev pub bit : ℕ → ℕ → ℕ
bit pte k = pte / 2 ^ k % 2

-- `pte & (1 << k)` and `pte & ~(1 << k)`.
abbrev pub only_bit : ℕ → ℕ → ℕ
only_bit pte k = bit pte k * 2 ^ k

abbrev pub clear_bit : ℕ → ℕ → ℕ
clear_bit pte k = pte - bit pte k * 2 ^ k

-- `pte | (1 << k)`
abbrev pub set_bit : ℕ → ℕ → ℕ
set_bit pte k = clear_bit pte k + 2 ^ k

-- The flags of mmu.h: PTE_P is bit 0, PTE_U bit 2, PTE_A bit 5, PTE_SWAP bit 8.
abbrev pub p_bit : ℕ
p_bit = 0

abbrev pub u_bit : ℕ
u_bit = 2

abbrev pub a_bit : ℕ
a_bit = 5

abbrev pub swap_bit : ℕ
swap_bit = 8

-- `&` of two words, from the lowest bit on.
pub and_bits : ℕ → ℕ → ℕ → ℕ
and_bits zero x y = 0
and_bits (suc k) x y = x % 2 * (y % 2) + 2 * and_bits k (x / 2) (y / 2)

-- The entry that walkpgdir finds, or nothing. Each helper returns its int result, with none for -1,
-- and the entry.
pub pte_logical_and : Option ℕ → ℕ → ℕ
pte_logical_and none k = 0
pte_logical_and (some pte) k = only_bit pte k

pub pte_pte_a_clear : ℕ → ℕ
pte_pte_a_clear pte = clear_bit pte a_bit

pub pte_pte_p_set : ℕ → ℕ
pte_pte_p_set pte = only_bit pte p_bit

pub pte_pte_p_clear : ℕ → ℕ
pte_pte_p_clear pte = clear_bit pte p_bit

pub pte_pte_swap_set : ℕ → ℕ
pte_pte_swap_set pte = only_bit pte swap_bit

pub pte_pte_swap_clear : ℕ → ℕ
pte_pte_swap_clear pte = clear_bit pte swap_bit

-- `*pte &= ((1 << 12) - 1); *pte |= off << 12;` The two parts have no bit in common.
pub pte_set_swapoffset : ℕ → ℕ → ℕ
pte_set_swapoffset pte off = pte % 2 ^ 12 + off * 2 ^ 12 % u32_mod

-- What reclaim leaves in the victim's entry, when the page went to swap block `blkno`.
pub swapped_out : ℕ → ℕ → ℕ
unfolding pte_pte_swap_set pte_pte_p_clear pte_set_swapoffset
swapped_out pte blkno = pte_set_swapoffset (pte_pte_p_clear (pte_pte_swap_set pte)) blkno

-- What swapin_helper leaves in the entry, for a new page at kernel address `np`.
pub swapin_helper : ℕ → ℕ → ℕ
swapin_helper pte np =
    and_bits 32 (set_bit (pte % 2 ^ 12) p_bit) (sub32 np 0x80000000 * 2 ^ 12 % u32_mod)

-- The two outcomes of pgintr: the faulting process is killed, or the page is swapped in.
pub data FaultAction : Type 0 where
  swaps_in kills : FaultAction

-- pgintr on the entry of the faulting address; `out_of_memory` says that swapin returned -1.
pub pgintr : ℕ → Bool → FaultAction
pgintr pte out_of_memory =
    if only_bit pte swap_bit == 0 then kills else (if out_of_memory then kills else swaps_in)
