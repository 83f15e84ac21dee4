-- ===== src/Icache/Tests.antt =====
-- Calls on the cache of inodes, and a file with a direct block, 5, an indirect block, 6, and one block in it, 7.
use xv6_fork.Prelude.{
  ℕ, ◌<◌, ◌≡◌, ◌≢◌, refl, sym, ap, arith, if◌then◌else◌, ◌==◌, ◌&&◌, some, true, false, List, [],
  ◌∷◌, ◌++◌, In, ◌⊎◌, inl, inr,
}
use mathlib.Core.Path.{subst}
use native.Mathlib.Decide.{ℕ_discrete}
use xv6_fork.Fs.{Fs, bblock}
use xv6_fork.Fs.Bitmap.{used, IsBytes}
use xv6_fork.Fs.Taking.{IsMapped}
use xv6_fork.Inode.{Inode}
use xv6_fork.Inode.Slots.{slot, IsData, IsInode}
use xv6_fork.Icache.{
  Store, iget_from, iget, discard, iput, recycled, more, fewer, ialloc, ialloc_from,
}
use xv6_fork.Icache.Entries.{IsCounted, Gets}
use xv6_fork.Icache.Reachable.{Users, Reach, here, next, gets, puts, Reach-IsCounted}
use xv6_fork.Icache.Fresh.{Allocates, ialloc-Allocates}
use xv6_fork.Icache.Last.{Removes, iput-Removes}

abbrev disk : Fs
disk = record {
  block = λ k i. if (k == 2) && (i == 0) then 231 else (if (k == 6) && (i == 0) then 7 else 0);
  size = 40;
  inodestart = 1;
  bmapstart = 2;
}

abbrev file : Inode
file = record {
  inum = 5;
  type = 2;
  major = 0;
  minor = 0;
  nlink = 0;
  size = 6500;
  addrs = λ i. if i == 0 then 5 else (if i == 12 then 6 else 0);
}

file-slots :
    (i : ℕ)
    → slot file disk i ≡ (if i == 0 then 5 else (if i == 12 then 6 else (if i == 13 then 7 else 0)))
file-slots i = ground arith

disk-IsBytes : IsBytes disk
disk-IsBytes k i = ground arith

map_block : (y : ℕ) → y < 40 → bblock y disk ≡ 2
map_block y lt = omega arith

disk-IsMapped : IsMapped disk
disk-IsMapped y lt = (omega (arith, map_block y lt), ap (used disk) (map_block y lt))

data_cases :
    (i : ℕ)
    → slot file disk i ≢ 0
    → (slot file disk i ≡ 5) ⊎ ((slot file disk i ≡ 6) ⊎ (slot file disk i ≡ 7))
data_cases i nz = elim (ℕ_discrete i 0) [
  | yes e ↦ inl (ground (arith, file-slots i))
  | no a ↦ elim (ℕ_discrete i 12) [
    | yes e ↦ inr (inl (ground (arith, file-slots i)))
    | no b ↦ elim (ℕ_discrete i 13) [
      | yes e ↦ inr (inr (ground (arith, file-slots i)))
      | no c ↦ absurd (ground (arith, file-slots i))
    ]
  ]
]

a_block : (x : ℕ) → 2 < x → x < 40 → used disk x ≡ true → IsData disk 5 x
a_block x low high u = record {
  inside = high;
  marked = u;
  unmapped = λ y lt e. absurd (omega (arith, map_block y lt));
  foreign = λ e. absurd (omega arith);
}

IsData-of : (i : ℕ) → slot file disk i ≢ 0 → IsData disk 5 (slot file disk i)
IsData-of i nz = elim (data_cases i nz) [
  | inl e ↦ subst (IsData disk 5) (sym e) (a_block 5 (omega arith) (omega arith) refl)
  | inr (inl e) ↦ subst (IsData disk 5) (sym e) (a_block 6 (omega arith) (omega arith) refl)
  | inr (inr e) ↦ subst (IsData disk 5) (sym e) (a_block 7 (omega arith) (omega arith) refl)
]

file-IsInode : IsInode file disk
file-IsInode = record {
  bytes = disk-IsBytes;
  mapped = disk-IsMapped;
  words = omega arith;
  boot = refl;
  home_inside = omega arith;
  home_marked = refl;
  home_unmapped = λ y lt e. absurd (omega (arith, map_block y lt, e));
  owns = λ i lt nz. IsData-of i nz;
  apart = λ i j li lj nz e. ground (arith, file-slots i, file-slots j);
}

abbrev nothing_cached : Store
nothing_cached = record {
  cache = λ i. record { dev = 0; ref = 0; valid = false; ip = file };
  fs = disk;
}

-- The last process with the file open.
abbrev opened : Store
opened = record {
  cache = λ i. record { dev = 1; ref = if i == 3 then 1 else 0; valid = i == 3; ip = file };
  fs = disk;
}

iput-Removes_example : (s' : Store) × (iput 3 opened ≡ some s') × Removes 3 file opened s'
iput-Removes_example = iput-Removes 3 opened refl refl refl file-IsInode

nobody-IsCounted : IsCounted nothing_cached.cache []
nobody-IsCounted = record {
  counts = λ i. refl;
  inside = λ i le. refl;
  unique = λ i j nz. absurd (nz refl);
}

abbrev got_once : Store
got_once = record nothing_cached { cache = recycled 0 1 5 nothing_cached.cache }

abbrev got_twice : Store
got_twice = record got_once { cache = more 0 got_once.cache }

abbrev put_once : Store
put_once = record got_twice { cache = fewer 0 got_twice.cache }

first_iget : iget 1 5 nothing_cached.cache ≡ some (0, got_once.cache)
unfolding iget iget_from
first_iget = refl

second_iget : iget 1 5 got_once.cache ≡ some (0, got_twice.cache)
unfolding iget iget_from
second_iget = refl

first_iput : iput 0 got_twice ≡ some put_once
unfolding iput discard
first_iput = refl

abbrev before : Users
before = record { store = nothing_cached; held = [] }

abbrev behind : Users
behind = record { store = put_once; held = 0 ∷ [] }

calls : Reach before behind
calls =
    next (next (next here (gets 1 5 first_iget)) (gets 1 5 second_iget))
      (puts 0 [] (0 ∷ []) refl first_iput)

Reach-IsCounted_example :
    IsCounted put_once.cache (0 ∷ [])
    × ((dev inum : ℕ) → Gets dev inum put_once.cache (iget dev inum put_once.cache))
    × ((i : ℕ) (xs ys : List ℕ)
        → 0 ∷ [] ≡ xs ++ i ∷ ys
        → In i (xs ++ ys)
        → iput i put_once ≡ some (record put_once { cache = fewer i put_once.cache }))
Reach-IsCounted_example = Reach-IsCounted before behind nobody-IsCounted calls

ialloc-Allocates_example : Allocates 8 1 2 nothing_cached (ialloc 8 1 2 nothing_cached)
ialloc-Allocates_example = ialloc-Allocates 8 1 2 nothing_cached

-- Inode 1 is free on the disk.
first_ialloc : ialloc_from 7 1 disk ≡ some 1
unfolding ialloc_from
first_ialloc = refl
