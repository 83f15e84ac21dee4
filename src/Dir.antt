-- ===== src/Dir.antt =====
-- fs.c: directories, which are files of entries of 16 bytes. A directory is given by its index in the
-- cache of inodes; its caller holds its sleep lock. `none` is a panic, and also the end of the fuel.
pub mod Lookup
pub mod Link
pub mod Added
pub mod Waits
pub mod Empty
pub mod Walk
mod Tests
use xv6_fork.Prelude.{
  ℕ, zero, suc, ◌+◌, ◌/◌, ◌%◌, ◌*◌, Bool, true, false, not, ◌&&◌, Option, none, some, List, [], ◌∷◌,
  if◌then◌else◌, ◌==◌, ltb, add32, drop,
}
use xv6_fork.Fs.{Fs}
use xv6_fork.Names.{dirsiz}
use xv6_fork.Inode.{
  Inode, ReadEnd, reads_device, read_refused, got, readi, WriteEnd, writes_device, write_refused,
  wrote, writei,
}
use xv6_fork.Spin.{SleepLock, acquiresleep, releasesleep}
use xv6_fork.Icache.{Entry, Store, put, iget, iput}

abbrev pub t_dir : ℕ
t_dir = 1

-- sizeof(struct dirent).
abbrev pub dirent_size : ℕ
dirent_size = 16

-- A text without the NUL behind it, as a place to read from.
abbrev pub first_char : List ℕ → ℕ
first_char [] = 0
first_char (c ∷ s) = c

abbrev pub next_char : List ℕ → List ℕ
next_char [] = []
next_char (c ∷ s) = s

-- `strncmp(p, q, n) == 0`.
pub same_text : ℕ → List ℕ → List ℕ → Bool
same_text zero p q = true
same_text (suc n) p q =
    let rest = same_text n (next_char p) (next_char q) in
    if not (first_char p == 0) && (first_char p == first_char q)
    then rest
    else first_char p == first_char q

-- `namecmp(s, t) == 0`.
abbrev pub same_name : List ℕ → List ℕ → Bool
same_name s t = same_text dirsiz s t

-- The fields of the bytes of `struct dirent`.
abbrev pub inum_of : List ℕ → ℕ
inum_of de = first_char de + 256 * first_char (next_char de)

abbrev pub name_of : List ℕ → List ℕ
name_of de = next_char (next_char de)

-- The bytes that strncpy fills a name of `n` bytes with.
abbrev pub padded : ℕ → List ℕ → List ℕ
padded zero s = []
padded (suc n) s = first_char s ∷ padded n (next_char s)

abbrev pub dirent : List ℕ → ℕ → List ℕ
dirent name inum = inum % 256 ∷ inum / 256 % 256 ∷ padded dirsiz name

-- A count of 16 bytes, and the bytes.
abbrev pub whole : ReadEnd → Option (List ℕ)
whole reads_device = none
whole read_refused = none
whole (got n bytes) = if n == dirent_size then some bytes else none

-- `if(readi(dp, (char*)&de, off, sizeof(de)) != sizeof(de)) panic(...)`. A directory is no device.
pub read_entry : (ℕ → Bool) → ℕ → Inode → Fs → Option (List ℕ × Inode × Fs)
read_entry has_read off dp fs = elim (readi has_read off dirent_size dp fs) [
  | none ↦ none
  | some (end, dp', fs') ↦ elim (whole end) [ none ↦ none | some de ↦ some (de, dp', fs') ]
]

-- The loop of dirlookup from `off` on: the offset and the number in the entry found.
pub look_from : ℕ → (ℕ → Bool) → List ℕ → ℕ → Inode → Fs → Option (Option (ℕ × ℕ) × Inode × Fs)
look_from zero has_read name off dp fs = none
look_from (suc f) has_read name off dp fs =
    if not (ltb off dp.size) then some (none, dp, fs) else (elim (read_entry has_read off dp fs) [
      | none ↦ none
      | some (de, dp', fs') ↦
          let rest = look_from f has_read name (add32 off dirent_size) dp' fs' in
          if not (inum_of de == 0) && same_name name (name_of de)
          then some (some (off, inum_of de), dp', fs')
          else rest
    ])

-- The directory as reads and writes have left it.
abbrev pub with_dir : ℕ → Inode → Fs → Store → Store
with_dir i dp fs s = record { cache = put s.cache i (record (s.cache i) { ip = dp }); fs = fs }

-- The entry of the inode found, with the offset that `poff` gets.
pub dirlookup : (ℕ → Bool) → ℕ → List ℕ → Store → Option (Option (ℕ × ℕ) × Store)
dirlookup has_read i name s =
    if not ((s.cache i).ip.type == t_dir)
    then none
    else (elim (look_from ((s.cache i).ip.size / dirent_size + 2) has_read name 0 (s.cache i).ip
        s.fs) [
          | none ↦ none
          | some (found, dp, fs) ↦
              let s' = with_dir i dp fs s in
              elim found [
                | none ↦ some (none, s')
                | some (off, inum) ↦ elim (iget (s.cache i).dev inum s'.cache) [
                  | none ↦ none
                  | some (e, c) ↦ some (some (e, off), record s' { cache = c })
                ]
              ]
        ])

-- The loop of dirlink from `off` on: the offset of an empty entry, or the end.
pub gap_from : ℕ → (ℕ → Bool) → ℕ → Inode → Fs → Option (ℕ × Inode × Fs)
gap_from zero has_read off dp fs = none
gap_from (suc f) has_read off dp fs =
    if not (ltb off dp.size) then some (off, dp, fs) else (elim (read_entry has_read off dp fs) [
      | none ↦ none
      | some (de, dp', fs') ↦
          let rest = gap_from f has_read (add32 off dirent_size) dp' fs' in
          if inum_of de == 0 then some (off, dp', fs') else rest
    ])

-- How dirlink ends: with 0, with -1, or asleep in iput, on the sleep lock of an inode in the cache.
pub data LinkEnd : Type 0 where
  linked : LinkEnd
  present : LinkEnd
  asleep_on : ℕ → LinkEnd

abbrev pub wrote_all : WriteEnd → Bool
wrote_all writes_device = false
wrote_all write_refused = false
wrote_all (wrote n) = n == dirent_size

-- What dirlink does after the check that the name is not present.
pub add_entry : (ℕ → Bool) → (ℕ → Bool) → ℕ → List ℕ → ℕ → Store → Option (LinkEnd × Store)
add_entry has_read has_write i name inum s =
    elim (gap_from ((s.cache i).ip.size / dirent_size + 2) has_read 0 (s.cache i).ip s.fs) [
      | none ↦ none
      | some (off, dp, fs) ↦ elim (writei has_write off (dirent name inum) dp fs) [
        | none ↦ none
        | some (end, dp', fs') ↦ if wrote_all end then some (linked, with_dir i dp' fs' s) else none
      ]
    ]

-- iput by process `pid` up to its return or its first sleep, with the sleep locks of the inodes. The
-- inner `none` means that acquiresleep waits for the lock.
pub iput_run : ℕ → ℕ → (ℕ → SleepLock) → Store → Option (Option ((ℕ → SleepLock) × Store))
iput_run pid e locks s = elim (acquiresleep pid (locks e)) [
  | none ↦ some none
  | some taken ↦ elim (iput e s) [
    | none ↦ none
    | some s' ↦ some (some ((λ j. if e == j then releasesleep taken else locks j), s'))
  ]
]

-- dirlink by process `pid`, up to its return or a sleep in iput.
pub dirlink :
    (ℕ → Bool)
    → (ℕ → Bool)
    → ℕ
    → ℕ
    → List ℕ
    → ℕ
    → (ℕ → SleepLock)
    → Store
    → Option (LinkEnd × (ℕ → SleepLock) × Store)
dirlink has_read has_write pid i name inum locks s = elim (dirlookup has_read i name s) [
  | none ↦ none
  | some (found, s') ↦ elim found [
    | none ↦ elim (add_entry has_read has_write i name inum s') [
      | none ↦ none
      | some (end, s'') ↦ some (end, locks, s'')
    ]
    | some (e, off) ↦ elim (iput_run pid e locks s') [
      | none ↦ none
      | some r ↦ elim r [
        | none ↦ some (asleep_on e, locks, s')
        | some (locks', s'') ↦ some (present, locks', s'')
      ]
    ]
  ]
]
