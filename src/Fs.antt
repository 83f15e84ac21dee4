-- ===== src/Fs.antt =====
-- fs.c: the file system. bread, log_write and brelse appear as reads and writes of the blocks that the
-- log shows, bytes by block and offset. `none` is a panic.
pub mod Bits
pub mod Bitmap
pub mod Scan
pub mod Taking
pub mod Owners
mod Tests
use xv6_fork.Prelude.{
  ℕ, zero, suc, ◌+◌, ◌-◌, ◌*◌, ◌/◌, ◌%◌, ◌^◌, Bool, true, false, not, ◌&&◌, ◌||◌, Option, none,
  some, List, [], ◌∷◌, if◌then◌else◌, ◌==◌, ltb, leb,
}

-- Bits in a block of the bitmap.
abbrev pub bpb : ℕ
bpb = 4096

-- The blocks, and the fields of the super block that are used.
pub record Fs : Type 0 where
  pub block : ℕ → ℕ → ℕ
  pub size : ℕ
  pub inodestart : ℕ
  pub bmapstart : ℕ

abbrev pub bblock : ℕ → Fs → ℕ
bblock b fs = b / bpb + fs.bmapstart

abbrev pub write_byte : (ℕ → ℕ → ℕ) → ℕ → ℕ → ℕ → ℕ → ℕ → ℕ
write_byte blocks k i v k' i' = if (k == k') && (i == i') then v else blocks k' i'

pub bzero : ℕ → Fs → Fs
bzero bno fs = record fs { block = λ k i. if (bno == k) && ltb i 512 then 0 else fs.block k i }

-- The bit of `m = 1 << (bi % 8)` in a byte.
abbrev pub has_bit : ℕ → ℕ → Bool
has_bit byte i = byte / 2 ^ i % 2 == 1

-- `(bp->data[bi/8] & m) != 0`, in the block of the bitmap for block `b`.
abbrev pub test_bit : ℕ → ℕ → Fs → Bool
test_bit b bi fs = has_bit (fs.block (bblock b fs) (bi / 8)) (bi % 8)

-- `bp->data[bi/8] |= m` where the bit is clear.
abbrev pub set_bit : ℕ → ℕ → Fs → Fs
set_bit b bi fs = record fs {
  block =
      write_byte fs.block (bblock b fs) (bi / 8) (fs.block (bblock b fs) (bi / 8) + 2 ^ (bi % 8));
}

-- `bp->data[bi/8] &= ~m` where the bit is set.
abbrev pub clear_bit : ℕ → ℕ → Fs → Fs
clear_bit b bi fs = record fs {
  block =
      write_byte fs.block (bblock b fs) (bi / 8) (fs.block (bblock b fs) (bi / 8) - 2 ^ (bi % 8));
}

-- The inner loop of balloc, `k` rounds from `bi` on.
pub scan_group : ℕ → ℕ → ℕ → Fs → Option ℕ
scan_group zero b bi fs = none
scan_group (suc k) b bi fs =
    let rest = scan_group k b (bi + 1) fs in
    if not (ltb (b + bi) fs.size) then none else (if not (test_bit b bi fs) then some bi else rest)

-- The outer loop of balloc, at most `g` rounds from `b` on: the group and the bit in it.
pub scan_groups : ℕ → ℕ → Fs → Option (ℕ × ℕ)
scan_groups zero b fs = none
scan_groups (suc g) b fs =
    let rest = scan_groups g (b + bpb) fs in
    if not (ltb b fs.size)
    then none
    else (elim (scan_group bpb b 0 fs) [ none ↦ rest | some bi ↦ some (b, bi) ])

pub balloc : Fs → Option (ℕ × Fs)
balloc fs = elim (scan_groups (fs.size / bpb + 1) 0 fs) [
  | none ↦ none
  | some (b, bi) ↦ some (b + bi, bzero (b + bi) (set_bit b bi fs))
]

pub bfree : ℕ → Fs → Option Fs
bfree b fs = if not (test_bit b (b % bpb) fs) then none else some (clear_bit b (b % bpb) fs)
