-- ===== src/Dir/Tests.antt =====
-- A directory, inode 5, with one entry for itself, in block 5.
use xv6_fork.Prelude.{
  ℕ, ◌≡◌, refl, arith, if◌then◌else◌, ◌==◌, ◌&&◌, some, true, false, Bool, List, [], ◌∷◌,
}
use xv6_fork.Fs.{Fs}
use xv6_fork.Inode.{Inode}
use xv6_fork.Inode.Slots.{slot, index}
use xv6_fork.Spin.{SleepLock, holdingsleep}
use xv6_fork.Icache.{Store, more}
use xv6_fork.Icache.Entries.{IsCounted}
use xv6_fork.Dir.{same_text, asleep_on, dirlink}
use xv6_fork.Dir.Lookup.{IsDir, FirstMatch}
use xv6_fork.Dir.Waits.{dirlink-waits}

abbrev disk : Fs
disk = record {
  block = λ k i.
      if (k == 2) && (i == 0)
      then 39
      else (if k == 5 then (if i == 0 then 5 else (if i == 2 then b'.' else 0)) else 0);
  size = 40;
  inodestart = 1;
  bmapstart = 2;
}

abbrev directory : Inode
directory = record {
  inum = 5;
  type = 1;
  major = 0;
  minor = 0;
  nlink = 1;
  size = 16;
  addrs = λ i. if i == 0 then 5 else 0;
}

-- The directory is entry 3 of the cache, with one reference.
abbrev store : Store
store = record {
  cache = λ i. record { dev = 1; ref = if i == 3 then 1 else 0; valid = true; ip = directory };
  fs = disk;
}

-- Process 8 holds the lock of the directory.
abbrev locks : ℕ → SleepLock
locks = λ j. record { locked = j == 3; pid = if j == 3 then 8 else 0 }

locked : holdingsleep 8 (locks 3) ≡ true
unfolding holdingsleep
locked = refl

directory-slots : (i : ℕ) → slot directory disk i ≡ (if i == 0 then 5 else 0)
directory-slots i = ground arith

directory-IsDir : IsDir directory disk
directory-IsDir = record {
  kind = refl;
  filled = λ bn lt. ground (arith, directory-slots (index bn));
  small = omega arith;
  entries = omega arith;
}

abbrev no_device : ℕ → Bool
no_device d = false

abbrev dot : List ℕ
dot = b'.' ∷ []

abbrev letter : List ℕ
letter = b'a' ∷ []

dot-FirstMatch : FirstMatch dot directory disk 0 1 (some (0, 5))
unfolding same_text
dot-FirstMatch = (0, omega arith, omega arith, refl, refl, refl, λ k low lt. absurd (omega arith))

store-IsCounted : IsCounted store.cache (3 ∷ [])
store-IsCounted = record {
  counts = λ i. ground arith;
  inside = λ i le. ground arith;
  unique = λ i j ni nj ed en. ground arith;
}

dirlink-waits_example :
    dirlink no_device no_device 8 3 dot 7 locks store
    ≡ some (asleep_on 3, locks, record store { cache = more 3 store.cache })
dirlink-waits_example =
    dirlink-waits no_device no_device 8 3 0 dot (3 ∷ []) 7 locks store directory-IsDir
      store-IsCounted (λ e. omega arith) locked dot-FirstMatch
