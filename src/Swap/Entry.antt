-- ===== src/Swap/Entry.antt =====
-- What becomes of a page table entry that is swapped out or in (vm.c, kalloc.c).
use xv6_fork.Prelude.{ℕ, zero, suc, ◌/◌, ◌%◌, ◌^◌, ◌<◌, ◌≡◌, refl, arith, Bool, u32_mod}
use xv6_fork.Swap.{bit, p_bit, swap_bit, and_bits, swapped_out, swapin_helper, kills, pgintr}

-- After reclaim the entry holds the block number and is not present, and its PTE_SWAP bit is what it
-- was before: `&=` keeps the bit where `|=` would set it.
pub swapped_out-bits :
    (pte blkno : ℕ)
    → pte < u32_mod
    → blkno < 2 ^ 20
    → (swapped_out pte blkno / 2 ^ 12 ≡ blkno)
      × (bit (swapped_out pte blkno) p_bit ≡ 0)
      × (bit (swapped_out pte blkno) swap_bit ≡ bit pte swap_bit)
unfolding swapped_out
swapped_out-bits pte blkno h k = (omega arith, omega arith, omega arith)

-- So a process that touches a page which reclaim took, and whose entry did not have PTE_SWAP set
-- before, is killed, whether or not memory is left.
pub pgintr-swapped_out :
    (pte blkno : ℕ) (out_of_memory : Bool)
    → pte < u32_mod
    → blkno < 2 ^ 20
    → bit pte swap_bit ≡ 0
    → pgintr (swapped_out pte blkno) out_of_memory ≡ kills
unfolding pgintr
pgintr-swapped_out pte blkno out_of_memory h k e =
    let b = (swapped_out-bits pte blkno h k).2 in rw (b, e) refl

-- A word whose bits from `m` on are 0, and one whose bits below `m` are 0.
abbrev IsLow : ℕ → ℕ → Type 0
IsLow zero x = x ≡ 0
IsLow (suc m) x = IsLow m (x / 2)

abbrev IsHigh : ℕ → ℕ → Type 0
IsHigh zero y = Unit {0}
IsHigh (suc m) y = (y % 2 ≡ 0) × IsHigh m (y / 2)

and_bits-zero : (k y : ℕ) → and_bits k 0 y ≡ 0
unfolding and_bits
and_bits-zero zero y = refl
and_bits-zero (suc k) y = omega (arith, and_bits-zero k (y / 2))

and_bits-disjoint : (k m x y : ℕ) → IsLow m x → IsHigh m y → and_bits k x y ≡ 0
unfolding and_bits
and_bits-disjoint zero m x y l h = refl
and_bits-disjoint (suc k) zero x y l h = rw l (omega (arith, and_bits-zero k (y / 2)))
and_bits-disjoint (suc k) (suc m) x y l h =
    rw h.0 (omega (arith, and_bits-disjoint k m (x / 2) (y / 2) l h.1))

-- swapin_helper always leaves an entry of 0, not present: the flags and PTE_P lie in the low 12 bits,
-- and the word that they are masked with has none of these set.
pub swapin_helper-zero : (pte np : ℕ) → swapin_helper pte np ≡ 0
unfolding swapin_helper
swapin_helper-zero pte np = and_bits-disjoint 32 12 _ _ (omega arith) (omega arith)
