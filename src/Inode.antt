-- ===== src/Inode.antt =====
-- fs.c: the contents of inodes. bread, log_write and brelse appear as reads and writes of the blocks
-- that the log shows. `none` is a panic; the loops over blocks take fuel.
pub mod Slots
pub mod Free
pub mod Grow
pub mod Extend
pub mod Place
pub mod Map
pub mod Bytes
pub mod Stored
pub mod Write
pub mod Loop
pub mod Read
pub mod Update
pub mod Truncate
pub mod RoundTrip
pub mod OnDisk
mod Tests
use xv6_fork.Prelude.{
  ℕ, zero, suc, ◌+◌, ◌-◌, ◌*◌, ◌/◌, ◌%◌, ◌^◌, min, Bool, true, false, not, ◌&&◌, ◌||◌, Option, none,
  some, List, [], ◌∷◌, ◌++◌, if◌then◌else◌, ◌==◌, ltb, leb, add32, length, take, drop,
}
use xv6_fork.Fs.{Fs, write_byte, balloc}

-- NDIRECT, NINDIRECT, NDEV and T_DEV.
abbrev pub ndirect : ℕ
ndirect = 12

abbrev pub nindirect : ℕ
nindirect = 128

abbrev pub ndev : ℕ
ndev = 10

abbrev pub t_dev : ℕ
t_dev = 3

-- MAXFILE * BSIZE.
abbrev pub max_size : ℕ
max_size = (ndirect + nindirect) * 512

-- `struct inode`, but for its place in the cache. A negative `short` is its two's complement, so that
-- a negative `major` is not below NDEV.
pub record Inode : Type 0 where
  pub inum : ℕ
  pub type : ℕ
  pub major : ℕ
  pub minor : ℕ
  pub nlink : ℕ
  pub size : ℕ
  pub addrs : ℕ → ℕ

abbrev pub put_addr : ℕ → ℕ → Inode → Inode
put_addr i a ip = record ip { addrs = λ j. if i == j then a else ip.addrs j }

-- The `uint` at index `j` of a block.
abbrev pub uint_at : Fs → ℕ → ℕ → ℕ
uint_at fs k j =
    fs.block k (4 * j)
    + 256 * fs.block k (4 * j + 1)
    + 65536 * fs.block k (4 * j + 2)
    + 16777216 * fs.block k (4 * j + 3)

-- `a[j] = v` and log_write.
abbrev pub put_word : ℕ → ℕ → ℕ → Fs → Fs
put_word k j v fs = record fs {
  block =
      write_byte
        (write_byte
          (write_byte (write_byte fs.block k (4 * j) (v % 256)) k (4 * j + 1) (v / 256 % 256)) k
          (4 * j + 2) (v / 65536 % 256))
        k (4 * j + 3) (v / 16777216 % 256);
}

-- `if((addr = ip->addrs[i]) == 0) ip->addrs[i] = addr = balloc(ip->dev);`
pub direct : ℕ → Inode → Fs → Option (ℕ × Inode × Fs)
direct i ip fs =
    if ip.addrs i == 0
    then (elim (balloc fs) [ none ↦ none | some (a, after) ↦ some (a, put_addr i a ip, after) ])
    else some (ip.addrs i, ip, fs)

-- `if((addr = a[bn]) == 0){ a[bn] = addr = balloc(ip->dev); log_write(bp); }` in block `k`.
pub indirect : ℕ → ℕ → Inode → Fs → Option (ℕ × Inode × Fs)
indirect k bn ip fs =
    if uint_at fs k bn == 0
    then (elim (balloc fs) [ none ↦ none | some (a, after) ↦ some (a, ip, put_word k bn a after) ])
    else some (uint_at fs k bn, ip, fs)

pub bmap : ℕ → Inode → Fs → Option (ℕ × Inode × Fs)
bmap bn ip fs =
    if ltb bn ndirect
    then direct bn ip fs
    else (if ltb (bn - ndirect) nindirect
        then (elim (direct ndirect ip fs) [
          | none ↦ none
          | some (k, ip', fs') ↦ indirect k (bn - ndirect) ip' fs'
        ])
        else none)

-- `m` bytes of a block from `o` on.
abbrev pub slice : Fs → ℕ → ℕ → ℕ → List ℕ
slice fs k o zero = []
slice fs k o (suc m) = fs.block k o ∷ slice fs k (o + 1) m

-- The loop of readi, with `left` bytes left.
pub readi_from : ℕ → ℕ → ℕ → Inode → Fs → Option (List ℕ × Inode × Fs)
readi_from fuel off zero ip fs = some ([], ip, fs)
readi_from zero off (suc left) ip fs = none
readi_from (suc fuel) off (suc left) ip fs = elim (bmap (off / 512) ip fs) [
  | none ↦ none
  | some (k, ip', fs') ↦
      elim (readi_from fuel (off + min (suc left) (512 - off % 512))
        (suc left - min (suc left) (512 - off % 512)) ip' fs') [
          | none ↦ none
          | some (rest, ip'', fs'') ↦
              some (slice fs' k (off % 512) (min (suc left) (512 - off % 512)) ++ rest, ip'', fs'')
        ]
]

-- How readi and writei end: with the call of a device's function, with -1, or with a count, for
-- readi with the bytes at `dst`.
pub data ReadEnd : Type 0 where
  reads_device : ReadEnd
  read_refused : ReadEnd
  got : ℕ → List ℕ → ReadEnd

pub data WriteEnd : Type 0 where
  writes_device : WriteEnd
  write_refused : WriteEnd
  wrote : ℕ → WriteEnd

-- `has_read` tells whether `devsw[ip->major].read` is set.
pub readi : (ℕ → Bool) → ℕ → ℕ → Inode → Fs → Option (ReadEnd × Inode × Fs)
readi has_read off n ip fs =
    if ip.type == t_dev
    then some (
      if leb ndev ip.major || not (has_read ip.major) then read_refused else reads_device,
      ip,
      fs,
    )
    else (if ltb ip.size off || ltb (add32 off n) off
        then some (read_refused, ip, fs)
        else (let m = if ltb ip.size (add32 off n) then ip.size - off else n in
            elim (readi_from m off m ip fs) [
              | none ↦ none
              | some (bytes, ip', fs') ↦ some (got m bytes, ip', fs')
            ]))

-- memmove of the bytes to offset `o` of a block, and log_write.
abbrev pub store_bytes : ℕ → ℕ → List ℕ → Fs → Fs
store_bytes k o [] fs = fs
store_bytes k o (c ∷ cs) fs =
    store_bytes k (o + 1) cs (record fs { block = write_byte fs.block k o c })

-- The loop of writei, with these bytes left.
pub writei_from : ℕ → ℕ → List ℕ → Inode → Fs → Option (Inode × Fs)
writei_from fuel off [] ip fs = some (ip, fs)
writei_from zero off (c ∷ cs) ip fs = none
writei_from (suc fuel) off (c ∷ cs) ip fs = elim (bmap (off / 512) ip fs) [
  | none ↦ none
  | some (k, ip', fs') ↦
      writei_from fuel (off + min (length (c ∷ cs)) (512 - off % 512))
        (drop (min (length (c ∷ cs)) (512 - off % 512)) (c ∷ cs)) ip'
        (store_bytes k (off % 512) (take (min (length (c ∷ cs)) (512 - off % 512)) (c ∷ cs)) fs')
]

-- IBLOCK.
abbrev pub iblock : ℕ → Fs → ℕ
iblock inum fs = inum / 8 + fs.inodestart

-- Byte `i` of a little-endian number.
abbrev pub byte_of : ℕ → ℕ → ℕ
byte_of v i = v / 256 ^ i % 256

-- The bytes of `struct dinode`.
abbrev pub dinode_byte : Inode → ℕ → ℕ
dinode_byte ip i =
    if ltb i 2
    then byte_of ip.type i
    else (if ltb i 4
        then byte_of ip.major (i - 2)
        else (if ltb i 6
            then byte_of ip.minor (i - 4)
            else (if ltb i 8
                then byte_of ip.nlink (i - 6)
                else (if ltb i 12
                    then byte_of ip.size (i - 8)
                    else byte_of (ip.addrs ((i - 12) / 4)) ((i - 12) % 4)))))

pub iupdate : Inode → Fs → Fs
iupdate ip fs = record fs {
  block = λ k i.
      if (iblock ip.inum fs == k) && leb (ip.inum % 8 * 64) i && ltb i (ip.inum % 8 * 64 + 64)
      then dinode_byte ip (i - ip.inum % 8 * 64)
      else fs.block k i;
}

-- The inode in the place of inode `inum` on the disk, as ilock reads it.
abbrev pub half : Fs → ℕ → ℕ → ℕ
half fs k o = fs.block k o + 256 * fs.block k (o + 1)

abbrev pub long : Fs → ℕ → ℕ → ℕ
long fs k o =
    fs.block k o
    + 256 * fs.block k (o + 1)
    + 65536 * fs.block k (o + 2)
    + 16777216 * fs.block k (o + 3)

pub dinode : ℕ → Fs → Inode
dinode inum fs =
    let k = iblock inum fs in
    let o = inum % 8 * 64 in
    record {
      inum = inum;
      type = half fs k o;
      major = half fs k (o + 2);
      minor = half fs k (o + 4);
      nlink = half fs k (o + 6);
      size = long fs k (o + 8);
      addrs = λ i. long fs k (o + 12 + 4 * i);
    }

pub writei : (ℕ → Bool) → ℕ → List ℕ → Inode → Fs → Option (WriteEnd × Inode × Fs)
writei has_write off bytes ip fs =
    if ip.type == t_dev
    then some (
      if leb ndev ip.major || not (has_write ip.major) then write_refused else writes_device,
      ip,
      fs,
    )
    else (if ltb ip.size off || ltb (add32 off (length bytes)) off
        then some (write_refused, ip, fs)
        else (if ltb max_size (add32 off (length bytes))
            then some (write_refused, ip, fs)
            else (elim (writei_from (length bytes) off bytes ip fs) [
              | none ↦ none
              | some (ip', fs') ↦
                  if ltb 0 (length bytes) && ltb ip'.size (off + length bytes)
                  then (let grown = record ip' { size = off + length bytes } in
                      some (wrote (length bytes), grown, iupdate grown fs'))
                  else some (wrote (length bytes), ip', fs')
            ])))
