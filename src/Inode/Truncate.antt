-- ===== src/Inode/Truncate.antt =====
-- itrunc of fs.c: the blocks of an inode are given back, and the inode is written with none.
pub mod Freed
pub mod Frees
pub mod Emptied
use xv6_fork.Prelude.{ℕ, zero, suc, ◌+◌, Option, none, some, if◌then◌else◌, ◌==◌}
use xv6_fork.Fs.{Fs, bfree}
use xv6_fork.Inode.{Inode, put_addr, uint_at, iupdate, ndirect, nindirect}

-- `if(ip->addrs[i]){ bfree(ip->dev, ip->addrs[i]); ip->addrs[i] = 0; }`
pub free_slot : ℕ → Inode → Fs → Option (Inode × Fs)
free_slot i ip fs =
    if ip.addrs i == 0
    then some (ip, fs)
    else (elim (bfree (ip.addrs i) fs) [ none ↦ none | some fs' ↦ some (put_addr i 0 ip, fs') ])

-- The loop over the direct blocks, `k` rounds from `i` on.
pub free_direct : ℕ → ℕ → Inode → Fs → Option (Inode × Fs)
free_direct zero i ip fs = some (ip, fs)
free_direct (suc k) i ip fs = elim (free_slot i ip fs) [
  | none ↦ none
  | some (ip', fs') ↦ free_direct k (i + 1) ip' fs'
]

-- `if(a[j]) bfree(ip->dev, a[j]);` in block `b`.
pub free_word : ℕ → ℕ → Fs → Option Fs
free_word j b fs = if uint_at fs b j == 0 then some fs else bfree (uint_at fs b j) fs

pub free_words : ℕ → ℕ → ℕ → Fs → Option Fs
free_words zero j b fs = some fs
free_words (suc k) j b fs = elim (free_word j b fs) [
  | none ↦ none
  | some fs' ↦ free_words k (j + 1) b fs'
]

-- The indirect block, behind the blocks in it.
pub free_indirect : Inode → Fs → Option (Inode × Fs)
free_indirect ip fs =
    if ip.addrs ndirect == 0
    then some (ip, fs)
    else (elim (free_words nindirect 0 (ip.addrs ndirect) fs) [
      | none ↦ none
      | some fs' ↦ elim (bfree (ip.addrs ndirect) fs') [
        | none ↦ none
        | some fs'' ↦ some (put_addr ndirect 0 ip, fs'')
      ]
    ])

pub itrunc : Inode → Fs → Option (Inode × Fs)
itrunc ip fs = elim (free_direct ndirect 0 ip fs) [
  | none ↦ none
  | some (ip', fs') ↦ elim (free_indirect ip' fs') [
    | none ↦ none
    | some (ip'', fs'') ↦
        let emptied = record ip'' { size = 0 } in some (emptied, iupdate emptied fs'')
  ]
]
