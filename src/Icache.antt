-- ===== src/Icache.antt =====
-- fs.c: the cache of inodes, and their allocation. Each function is what its C function does while it
-- holds icache.lock or the sleep lock of the inode; `none` is a panic. An inode in memory is its index
-- in the cache.
pub mod Search
pub mod Entries
pub mod References
pub mod Reachable
pub mod Last
pub mod Fresh
mod Tests
use xv6_fork.Prelude.{
  ℕ, zero, suc, ◌+◌, ◌-◌, ◌*◌, ◌/◌, ◌%◌, Bool, true, false, not, ◌&&◌, Option, none, some,
  if◌then◌else◌, ◌==◌, ltb, leb, u32_mod,
}
use xv6_fork.Fs.{Fs}
use xv6_fork.Inode.{Inode, iblock, iupdate, half, dinode}
use xv6_fork.Inode.Truncate.{itrunc}

abbrev pub ninode : ℕ
ninode = 50

-- An entry of the cache: where its inode is, and how often it is referred to.
pub record Entry : Type 0 where
  pub dev : ℕ
  pub ref : ℕ
  pub valid : Bool
  pub ip : Inode

abbrev pub put : (ℕ → Entry) → ℕ → Entry → ℕ → Entry
put c i e j = if i == j then e else c j

-- `ip->ref > 0 && ip->dev == dev && ip->inum == inum`.
abbrev pub is_for : ℕ → ℕ → Entry → Bool
is_for dev inum e = ltb 0 e.ref && (e.dev == dev) && (e.ip.inum == inum)

-- `if(empty == 0 && ip->ref == 0) empty = ip;`
abbrev pub remember : Option ℕ → ℕ → Entry → Option ℕ
remember none i e = if e.ref == 0 then some i else none
remember (some j) i e = some j

pub data Found : Type 0 where
  cached : ℕ → Found
  missing : Option ℕ → Found

-- The loop of iget, `k` rounds from `i` on.
pub iget_from : ℕ → ℕ → Option ℕ → ℕ → ℕ → (ℕ → Entry) → Found
iget_from zero i empty dev inum c = missing empty
iget_from (suc k) i empty dev inum c =
    let rest = iget_from k (suc i) (remember empty i (c i)) dev inum c in
    if is_for dev inum (c i) then cached i else rest

abbrev pub more : ℕ → (ℕ → Entry) → ℕ → Entry
more i c = put c i (record (c i) { ref = (c i).ref + 1 })

abbrev pub recycled : ℕ → ℕ → ℕ → (ℕ → Entry) → ℕ → Entry
recycled i dev inum c =
    put c i (record { dev = dev; ref = 1; valid = false; ip = record (c i).ip { inum = inum } })

pub iget : ℕ → ℕ → (ℕ → Entry) → Option (ℕ × (ℕ → Entry))
iget dev inum c = elim (iget_from ninode 0 none dev inum c) [
  | cached i ↦ some (i, more i c)
  | missing empty ↦ elim empty [ none ↦ none | some i ↦ some (i, recycled i dev inum c) ]
]

pub idup : ℕ → (ℕ → Entry) → ℕ → Entry
idup i c = more i c

pub record Store : Type 0 where
  pub cache : ℕ → Entry
  pub fs : Fs

-- ilock, once it has the sleep lock.
pub ilock : ℕ → Store → Option Store
ilock i s =
    if ltb (s.cache i).ref 1
    then none
    else (if (s.cache i).valid
        then some s
        else (let ip = dinode (s.cache i).ip.inum s.fs in
            if ip.type == 0
            then none
            else some (record s {
              cache = put s.cache i (record (s.cache i) { valid = true; ip = ip });
            })))

-- What iput does with the sleep lock in hand.
pub discard : ℕ → Store → Option Store
discard i s =
    if (s.cache i).valid && ((s.cache i).ip.nlink == 0) && ((s.cache i).ref == 1)
    then (elim (itrunc (s.cache i).ip s.fs) [
      | none ↦ none
      | some (ip, fs) ↦
          let gone = record ip { type = 0 } in
          some (record {
            cache = put s.cache i (record (s.cache i) { valid = false; ip = gone });
            fs = iupdate gone fs;
          })
    ])
    else some s

-- `ip->ref--`, with -1 as two's complement.
abbrev pub one_less : ℕ → ℕ
one_less n = if n == 0 then u32_mod - 1 else n - 1

abbrev pub fewer : ℕ → (ℕ → Entry) → ℕ → Entry
fewer i c = put c i (record (c i) { ref = one_less (c i).ref })

pub iput : ℕ → Store → Option Store
iput i s = elim (discard i s) [
  | none ↦ none
  | some s' ↦ some (record s' { cache = fewer i s'.cache })
]

-- `dip->type` of inode `inum`.
abbrev pub disk_type : ℕ → Fs → ℕ
disk_type inum fs = half fs (iblock inum fs) (inum % 8 * 64)

-- `memset(dip, 0, sizeof(*dip)); dip->type = type;` and log_write.
pub mark_inode : ℕ → ℕ → Fs → Fs
mark_inode inum type fs = record fs {
  block = λ k i.
      if (iblock inum fs == k) && leb (inum % 8 * 64) i && ltb i (inum % 8 * 64 + 64)
      then (if i == inum % 8 * 64
          then type % 256
          else (if i == inum % 8 * 64 + 1 then type / 256 % 256 else 0))
      else fs.block k i;
}

-- The loop of ialloc, `k` rounds from `inum` on.
pub ialloc_from : ℕ → ℕ → Fs → Option ℕ
ialloc_from zero inum fs = none
ialloc_from (suc k) inum fs =
    let rest = ialloc_from k (suc inum) fs in if disk_type inum fs == 0 then some inum else rest

-- `ninodes` is the field of the super block.
pub ialloc : ℕ → ℕ → ℕ → Store → Option (ℕ × Store)
ialloc ninodes dev type s = elim (ialloc_from (ninodes - 1) 1 s.fs) [
  | none ↦ none
  | some inum ↦ elim (iget dev inum s.cache) [
    | none ↦ none
    | some (i, c) ↦ some (i, record { cache = c; fs = mark_inode inum type s.fs })
  ]
]
