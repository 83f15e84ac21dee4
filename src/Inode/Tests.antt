-- ===== src/Inode/Tests.antt =====
-- Files on a small disk: block 1 has the inodes and block 2 the bitmap; 37 blocks are free.
use xv6_fork.Prelude.{
  ℕ, zero, suc, ◌<◌, ◌≡◌, refl, ap, arith, if◌then◌else◌, ◌==◌, ◌&&◌, List, [], ◌∷◌, some, false,
  Bool,
}
use xv6_fork.Fs.{Fs, bblock}
use xv6_fork.Fs.Bitmap.{used, IsBytes}
use xv6_fork.Fs.Taking.{IsMapped}
use xv6_fork.Inode.{Inode, writei, readi, wrote, got, iupdate, dinode}
use xv6_fork.Inode.Slots.{slot, IsInode}
use xv6_fork.Inode.Free.{free, free_below}
use xv6_fork.Inode.Read.{IsFilled}
use xv6_fork.Inode.Stored.{AllBytes}
use xv6_fork.Inode.Update.{Result, writei-Result}
use xv6_fork.Inode.RoundTrip.{readi-writei}
use xv6_fork.Inode.OnDisk.{Fits, SameInode, dinode-iupdate}

abbrev disk : Fs
disk = record {
  block = λ k i. if (k == 2) && (i == 0) then 7 else 0;
  size = 40;
  inodestart = 1;
  bmapstart = 2;
}

abbrev new_file : Inode
new_file = record { inum = 5; type = 2; major = 0; minor = 0; nlink = 1; size = 0; addrs = λ i. 0 }

abbrev hello : List ℕ
hello = 104 ∷ 101 ∷ 108 ∷ 108 ∷ 111 ∷ []

abbrev no_device : ℕ → Bool
no_device d = false

no_slot : (i : ℕ) → slot new_file disk i ≡ 0
no_slot i = ground arith

disk-IsBytes : IsBytes disk
disk-IsBytes k i = ground arith

map_block : (y : ℕ) → y < 40 → bblock y disk ≡ 2
map_block y lt = omega arith

disk-IsMapped : IsMapped disk
disk-IsMapped y lt = (omega (arith, map_block y lt), ap (used disk) (map_block y lt))

new_file-IsInode : IsInode new_file disk
new_file-IsInode = record {
  bytes = disk-IsBytes;
  mapped = disk-IsMapped;
  words = omega arith;
  boot = refl;
  home_inside = omega arith;
  home_marked = refl;
  home_unmapped = λ y lt e. absurd (omega (arith, map_block y lt, e));
  owns = λ i lt nz. absurd (nz (no_slot i));
  apart = λ i j li lj nz e. absurd (nz (no_slot i));
}

new_file-IsFilled : IsFilled new_file disk 0
new_file-IsFilled bn lt = absurd (omega arith)

disk_free : free disk ≡ 37
unfolding free_below
disk_free = refl

hello-AllBytes : AllBytes hello
hello-AllBytes zero = omega arith
hello-AllBytes (suc zero) = omega arith
hello-AllBytes (suc (suc zero)) = omega arith
hello-AllBytes (suc (suc (suc zero))) = omega arith
hello-AllBytes (suc (suc (suc (suc zero)))) = omega arith
hello-AllBytes (suc (suc (suc (suc (suc j))))) = omega arith

writei-Result_example : Result 0 hello new_file disk (writei no_device 0 hello new_file disk)
writei-Result_example =
    writei-Result no_device 0 hello new_file disk refl new_file-IsInode new_file-IsFilled
      (omega arith) (omega arith) hello-AllBytes (omega (arith, disk_free))

readi-writei_example :
    (ip' : Inode) × (fs' : Fs) × (writei no_device 0 hello new_file disk ≡ some (wrote 5, ip', fs'))
    × (readi no_device 0 5 ip' fs' ≡ some (got 5 hello, ip', fs'))
readi-writei_example =
    readi-writei no_device no_device 0 hello new_file disk refl new_file-IsInode new_file-IsFilled
      (omega arith) (omega arith) (omega arith) hello-AllBytes (omega (arith, disk_free))

new_file-Fits : Fits new_file
new_file-Fits = record {
  type = omega arith;
  major = omega arith;
  minor = omega arith;
  nlink = omega arith;
  size = omega arith;
  addrs = λ i lt. omega arith;
}

dinode-iupdate_example : SameInode (dinode 5 (iupdate new_file disk)) new_file
dinode-iupdate_example = dinode-iupdate new_file disk new_file-Fits
