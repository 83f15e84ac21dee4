-- ===== src/Inode/Slots.antt =====
-- The block numbers of an inode in fs.c: 12 direct ones, that of the indirect block, and those in it.
use xv6_fork.Prelude.{
  ℕ, ◌+◌, ◌-◌, ◌*◌, ◌/◌, ◌%◌, ◌^◌, ◌<◌, ◌≤◌, ◌≡◌, ◌≢◌, refl, arith, true, false, if◌then◌else◌,
  ◌==◌, ltb, leb,
}
use xv6_fork.Fs.{Fs, bblock}
use xv6_fork.Fs.Bitmap.{used, IsBytes}
use xv6_fork.Fs.Taking.{IsMapped}
use xv6_fork.Inode.{Inode, uint_at, put_word, iblock}

-- Slot 12 is the indirect block; those behind it are in it, and empty without it.
abbrev pub slot : Inode → Fs → ℕ → ℕ
slot ip fs i =
    if leb i 12
    then ip.addrs i
    else (if ip.addrs 12 == 0 then 0 else uint_at fs (ip.addrs 12) (i - 13))

-- The slot of the block with index `bn` in the file.
abbrev pub index : ℕ → ℕ
index bn = if ltb bn 12 then bn else bn + 1

-- A block that may be written to without a change to the bitmap or to inode `inum`.
pub record IsData (fs : Fs) (inum x : ℕ) : Type 0 where
  pub inside : x < fs.size
  pub marked : used fs x ≡ true
  pub unmapped : (y : ℕ) → y < fs.size → bblock y fs ≢ x
  pub foreign : iblock inum fs ≢ x

-- Every slot that is not 0 has a block of its own, marked in the bitmap.
pub record IsInode (ip : Inode) (fs : Fs) : Type 0 where
  pub bytes : IsBytes fs
  pub mapped : IsMapped fs
  pub words : fs.size ≤ 2 ^ 32
  pub boot : used fs 0 ≡ true
  pub home_inside : iblock ip.inum fs < fs.size
  pub home_marked : used fs (iblock ip.inum fs) ≡ true
  pub home_unmapped : (y : ℕ) → y < fs.size → bblock y fs ≢ iblock ip.inum fs
  pub owns : (i : ℕ) → i < 141 → slot ip fs i ≢ 0 → IsData fs ip.inum (slot ip fs i)
  pub apart : (i j : ℕ) → i < 141 → j < 141 → slot ip fs i ≢ 0 → slot ip fs i ≡ slot ip fs j → i ≡ j

module _ (fs : Fs) (k j v : ℕ) where
  abbrev after : Fs
  after = put_word k j v fs

  byte0 : after.block k (4 * j) ≡ v % 256
  byte0 = ground arith

  byte1 : after.block k (4 * j + 1) ≡ v / 256 % 256
  byte1 = ground arith

  byte2 : after.block k (4 * j + 2) ≡ v / 65536 % 256
  byte2 = ground arith

  byte3 : after.block k (4 * j + 3) ≡ v / 16777216 % 256
  byte3 = ground arith

  pub uint_at-put_self : v < 2 ^ 32 → uint_at after k j ≡ v
  uint_at-put_self small = omega (arith, byte0, byte1, byte2, byte3)

  pub put_word-far : (k' i : ℕ) → k ≢ k' → after.block k' i ≡ fs.block k' i
  put_word-far k' i ne = ground arith

  put_word-away : (i : ℕ) → (j ≢ i / 4) → after.block k i ≡ fs.block k i
  put_word-away i ne = ground arith

  pub uint_at-put_ne : (j' : ℕ) → j ≢ j' → uint_at after k j' ≡ uint_at fs k j'
  uint_at-put_ne j' ne = omega (
    arith,
    put_word-away (4 * j') (omega arith),
    put_word-away (4 * j' + 1) (omega arith),
    put_word-away (4 * j' + 2) (omega arith),
    put_word-away (4 * j' + 3) (omega arith),
  )

  pub put_word-IsBytes : IsBytes fs → IsBytes after
  put_word-IsBytes h k' i = ground (arith, h k' i)

-- Words depend on their bytes only.
pub uint_at-same :
    (fs fs' : Fs) (k j : ℕ)
    → ((i : ℕ) → fs'.block k i ≡ fs.block k i)
    → uint_at fs' k j ≡ uint_at fs k j
uint_at-same fs fs' k j h = omega (arith, h (4 * j), h (4 * j + 1), h (4 * j + 2), h (4 * j + 3))

pub slot_direct : (ip : Inode) (fs : Fs) (j : ℕ) → j ≤ 12 → slot ip fs j ≡ ip.addrs j
slot_direct ip fs j le = let e : leb j 12 ≡ true = ground arith in rw e refl

pub slot_beyond :
    (ip : Inode) (fs : Fs) (j : ℕ)
    → 12 < j
    → ip.addrs 12 ≢ 0
    → slot ip fs j ≡ uint_at fs (ip.addrs 12) (j - 13)
slot_beyond ip fs j lt nz =
    let e : leb j 12 ≡ false = ground arith in
    let f : (ip.addrs 12 == 0) ≡ false = ground arith in rw (e, f) refl

pub slot_none : (ip : Inode) (fs : Fs) (j : ℕ) → 12 < j → ip.addrs 12 ≡ 0 → slot ip fs j ≡ 0
slot_none ip fs j lt z =
    let e : leb j 12 ≡ false = ground arith in
    let f : (ip.addrs 12 == 0) ≡ true = ground arith in rw (e, f) refl

pub uint_at-zero :
    (fs : Fs) (k j : ℕ) → ((i : ℕ) → i < 512 → fs.block k i ≡ 0) → j < 128 → uint_at fs k j ≡ 0
uint_at-zero fs k j h lt = omega (
  arith,
  h (4 * j) (omega arith),
  h (4 * j + 1) (omega arith),
  h (4 * j + 2) (omega arith),
  h (4 * j + 3) (omega arith),
)
