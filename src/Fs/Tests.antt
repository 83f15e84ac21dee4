-- ===== src/Fs/Tests.antt =====
-- A file system of 10 blocks, with its bitmap in block 2 and blocks 0 to 3 in use.
use xv6_fork.Prelude.{
  ℕ, ◌<◌, ◌≡◌, ◌⊎◌, ◌&&◌, refl, arith, true, none, some, [], ◌∷◌, NotIn, In, if◌then◌else◌, ◌==◌,
}
use xv6_fork.Fs.{Fs, bblock, bzero, set_bit, scan_group, scan_groups, balloc, bfree}
use mathlib.Core.Path.{subst}
use xv6_fork.Fs.Bitmap.{used}
use xv6_fork.Fs.Scan.{AllUsed, IsFirst}
use xv6_fork.Fs.Owners.{Users, IsOwned, here, next, takes, Reach-IsOwned}

abbrev small : Fs
small = record {
  block = λ k i. if (k == 2) && (i == 0) then 15 else 0;
  size = 10;
  inodestart = 1;
  bmapstart = 2;
}

abbrev start : Users
start = record { fs = small; owned = [] }

start-IsOwned : IsOwned small []
start-IsOwned = record {
  bytes = λ k i. ground arith;
  mapped = λ y lt.
      let map_block : 2 ≡ bblock y small = omega arith in
      (omega arith, subst (λ k. used small k ≡ true) map_block refl);
  distinct = tt;
  inside = λ x i. absurd i;
  marked = λ x i. absurd i;
  apart = λ x y i. absurd i;
}

abbrev taken : Fs
taken = bzero 4 (set_bit 0 4 small)

first_free : balloc small ≡ some (4, taken)
unfolding balloc scan_groups scan_group
first_free = refl

Reach-IsOwned_example :
    IsOwned taken (4 ∷ [])
    × (((x : ℕ) × (after : Fs) × (balloc taken ≡ some (x, after))
          × IsFirst taken 0 x
          × NotIn x (4 ∷ [])
          × ((i : ℕ) → i < 512 → after.block x i ≡ 0)
          × ((y i : ℕ) → In y (4 ∷ []) → after.block y i ≡ taken.block y i))
        ⊎ (balloc taken ≡ none) × AllUsed taken 0 taken.size)
    × ((x : ℕ) → In x (4 ∷ []) → (after : Fs) × (bfree x taken ≡ some after))
Reach-IsOwned_example =
    Reach-IsOwned start (record { fs = taken; owned = 4 ∷ [] }) start-IsOwned
      (next here (takes first_free))
