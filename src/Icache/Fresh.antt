-- ===== src/Icache/Fresh.antt =====
-- ialloc of fs.c.
use xv6_fork.Prelude.{
  ℕ, zero, suc, ◌+◌, ◌-◌, ◌*◌, ◌/◌, ◌%◌, ◌^◌, ◌<◌, ◌≤◌, ◌≡◌, ◌≢◌, ◌⊎◌, inl, inr, arith, Bool-cases,
  Option, none, some, Option-cases, ◌==◌,
}
use mathlib.Core.Path.{subst}
use native.Mathlib.Decide.{ℕ_discrete}
use xv6_fork.Fs.{Fs}
use xv6_fork.Inode.{iblock}
use xv6_fork.Icache.{Entry, Store, ninode, disk_type, mark_inode, ialloc_from, ialloc, iget}
use xv6_fork.Icache.Entries.{Gets, iget-Gets}

-- The inodes from `lo` to below `hi` have a type.
abbrev pub AllTyped : Fs → ℕ → ℕ → Type 0
AllTyped fs lo hi = (n : ℕ) → lo ≤ n → n < hi → disk_type n fs ≢ 0

abbrev FirstFree : Fs → ℕ → ℕ → Option ℕ → Type 0
FirstFree fs lo hi none = AllTyped fs lo hi
FirstFree fs lo hi (some n) = (lo ≤ n) × (n < hi) × (disk_type n fs ≡ 0) × AllTyped fs lo n

next-AllTyped :
    (fs : Fs) (lo hi : ℕ) → disk_type lo fs ≢ 0 → AllTyped fs (suc lo) hi → AllTyped fs lo hi
next-AllTyped fs lo hi nz h n le lt = elim (ℕ_discrete lo n) [
  | yes e ↦ subst (λ x. disk_type x fs ≢ 0) e nz
  | no ne ↦ h n (omega arith) lt
]

next-FirstFree :
    (fs : Fs) (lo hi : ℕ) (r : Option ℕ)
    → disk_type lo fs ≢ 0
    → FirstFree fs (suc lo) hi r
    → FirstFree fs lo hi r
next-FirstFree fs lo hi none nz h = next-AllTyped fs lo hi nz h
next-FirstFree fs lo hi (some n) nz (low, high, free, before) =
    (omega arith, high, free, next-AllTyped fs lo n nz before)

ialloc_from-FirstFree : (fs : Fs) (k lo : ℕ) → FirstFree fs lo (lo + k) (ialloc_from k lo fs)
unfolding ialloc_from
ialloc_from-FirstFree fs zero lo = λ n le lt. absurd (omega arith)
ialloc_from-FirstFree fs (suc k) lo = elim (Bool-cases (disk_type lo fs == 0)) [
  | inl free ↦ rw free (omega arith, omega arith, ground arith, λ n le lt. absurd (omega arith))
  | inr taken ↦
      let end : suc lo + k ≡ lo + suc k = omega arith in
      rw taken (
        next-FirstFree fs lo (lo + suc k) (ialloc_from k (suc lo) fs) (ground arith) (
          subst (λ hi. FirstFree fs (suc lo) hi (ialloc_from k (suc lo) fs)) end
            (ialloc_from-FirstFree fs k (suc lo))))
]

module _ (inum type : ℕ) (fs : Fs) where
  abbrev marked : Fs
  marked = mark_inode inum type fs

  -- The bytes of the inode, and those of another one.
  marked-rest : (o : ℕ) → 2 ≤ o → o < 64 → marked.block (iblock inum fs) (inum % 8 * 64 + o) ≡ 0
  unfolding mark_inode
  marked-rest o low high = ground arith

  marked-first : marked.block (iblock inum fs) (inum % 8 * 64) ≡ type % 256
  unfolding mark_inode
  marked-first = ground arith

  marked-second : marked.block (iblock inum fs) (inum % 8 * 64 + 1) ≡ type / 256 % 256
  unfolding mark_inode
  marked-second = ground arith

  marked-type : disk_type inum marked ≡ type % 2 ^ 16
  unfolding mark_inode
  marked-type = omega (arith, marked-first, marked-second)

  marked-apart :
      (n o : ℕ)
      → n ≢ inum
      → o < 64
      → marked.block (iblock n fs) (n % 8 * 64 + o) ≡ fs.block (iblock n fs) (n % 8 * 64 + o)
  unfolding mark_inode
  marked-apart n o ne lt = ground arith

-- What ialloc comes to: the first inode without a type gets this type and is zero otherwise, no other
-- inode changes, and iget gives an entry for it; or a panic, with every inode taken or every entry in
-- use.
unfoldable pub Allocates : ℕ → ℕ → ℕ → Store → Option (ℕ × Store) → Type 0
Allocates ninodes dev type s none =
    AllTyped s.fs 1 ninodes ⊎ ((i : ℕ) → i < ninode → (s.cache i).ref ≢ 0)
Allocates ninodes dev type s (some (i, s')) =
    (inum : ℕ) × (1 ≤ inum)
    × (inum < ninodes)
    × (disk_type inum s.fs ≡ 0)
    × AllTyped s.fs 1 inum
    × Gets dev inum s.cache (some (i, s'.cache))
    × (disk_type inum s'.fs ≡ type % 2 ^ 16)
    × ((o : ℕ) → 2 ≤ o → o < 64 → s'.fs.block (iblock inum s.fs) (inum % 8 * 64 + o) ≡ 0)
    × ((n o : ℕ)
        → n ≢ inum
        → o < 64
        → s'.fs.block (iblock n s.fs) (n % 8 * 64 + o)
          ≡ s.fs.block (iblock n s.fs) (n % 8 * 64 + o))

module _ (ninodes dev type : ℕ) (s : Store) where
  none-Allocates : AllTyped s.fs 1 (1 + (ninodes - 1)) → Allocates ninodes dev type s none
  unfolding Allocates
  none-Allocates h = inl (λ n le lt. h n le (omega arith))

  full-Allocates : (inum : ℕ) → Gets dev inum s.cache none → Allocates ninodes dev type s none
  unfolding Allocates Gets
  full-Allocates inum (unmet, used) = inr used

  some-Allocates :
      (inum i : ℕ) (c : ℕ → Entry)
      → FirstFree s.fs 1 (1 + (ninodes - 1)) (some inum)
      → Gets dev inum s.cache (some (i, c))
      → Allocates ninodes dev type s
          (some (i, record { cache = c; fs = mark_inode inum type s.fs }))
  unfolding Allocates
  some-Allocates inum i c (low, high, free, before) g = (
    inum,
    low,
    omega arith,
    free,
    before,
    g,
    marked-type inum type s.fs,
    marked-rest inum type s.fs,
    marked-apart inum type s.fs,
  )

  -- ialloc takes the first inode that is free on the disk, from 1 on and below their number: its type
  -- is then the one given, its other bytes are 0, and those of the other inodes are unchanged; iget
  -- gives its entry. It panics only if every inode is taken or every entry of the cache is in use.
  pub ialloc-Allocates : Allocates ninodes dev type s (ialloc ninodes dev type s)
  unfolding ialloc
  ialloc-Allocates =
      let first = ialloc_from-FirstFree s.fs (ninodes - 1) 1 in
      elim (Option-cases (ialloc_from (ninodes - 1) 1 s.fs)) [
        | inl e ↦
            rw (ialloc, e) (none-Allocates (subst (FirstFree s.fs 1 (1 + (ninodes - 1))) e first))
        | inr (inum, e) ↦
            let found = subst (FirstFree s.fs 1 (1 + (ninodes - 1))) e first in
            elim (Option-cases (iget dev inum s.cache)) [
              | inl f ↦
                  rw (ialloc, e, f)
                    (full-Allocates inum
                      (subst (Gets dev inum s.cache) f (iget-Gets dev inum s.cache)))
              | inr ((i, c), f) ↦
                  rw (ialloc, e, f)
                    (some-Allocates inum i c found
                      (subst (Gets dev inum s.cache) f (iget-Gets dev inum s.cache)))
            ]
      ]
