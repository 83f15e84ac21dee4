-- ===== src/Inode/Update.antt =====
-- writei of fs.c as a whole, with the copy of the inode that iupdate writes to the disk.
use xv6_fork.Prelude.{
  ℕ, ◌+◌, ◌-◌, ◌*◌, ◌/◌, ◌%◌, ◌^◌, ◌<◌, ◌≤◌, ◌≡◌, ◌≢◌, ◌⊎◌, refl, sym, ap, ◌∙◌, arith, max, ◌==◌,
  inl, inr, ltb, List, length, get_or, Option, some, Bool, true, false, Bool-cases, ◌||◌, ◌&&◌,
  add32,
}
use xv6_fork.Fs.{Fs}
use xv6_fork.Fs.Bitmap.{used, IsBytes}
use xv6_fork.Inode.{
  Inode, iblock, dinode_byte, iupdate, writei_from, WriteEnd, wrote, write_refused, writei, t_dev,
  max_size,
}
use xv6_fork.Inode.Slots.{slot, index, IsInode, slot_direct}
use xv6_fork.Inode.Free.{free}
use xv6_fork.Inode.Bytes.{byte, Edits, edited-IsInode, edited-slot, edited-used}
use xv6_fork.Inode.Read.{IsFilled}
use xv6_fork.Inode.Stored.{AllBytes}
use xv6_fork.Inode.Write.{Writes}
use xv6_fork.Inode.Loop.{rounds, Written, writei_from-Written}

pub iupdate-Edits :
    (ip : Inode) (fs : Fs) → IsBytes fs → Edits fs (iblock ip.inum fs) (iupdate ip fs)
unfolding iupdate
iupdate-Edits ip fs h = record {
  size = refl;
  bmapstart = refl;
  inodestart = refl;
  bytes = λ k i. in_byte k i (h k i);
  far = λ k' i ne. let other : (iblock ip.inum fs == k') ≡ false = ground arith in rw other refl;
}
  where
    small : (i : ℕ) → dinode_byte ip i < 256
    small i = ground arith

    in_byte : (k i : ℕ) → fs.block k i < 256 → (iupdate ip fs).block k i < 256
    in_byte k i le = ground (arith, small (i - ip.inum % 8 * 64))

-- The size of an inode says nothing about its blocks.
resized-IsInode :
    (ip : Inode) (n : ℕ) (fs : Fs) → IsInode ip fs → IsInode (record ip { size = n }) fs
resized-IsInode ip n fs h = record {
  bytes = h.bytes;
  mapped = h.mapped;
  words = h.words;
  boot = h.boot;
  home_inside = h.home_inside;
  home_marked = h.home_marked;
  home_unmapped = h.home_unmapped;
  owns = h.owns;
  apart = h.apart;
}

module _ (ip : Inode) (fs : Fs) (h : IsInode ip fs) where
  home_apart : ip.addrs 12 ≢ 0 → iblock ip.inum fs ≢ ip.addrs 12
  home_apart nz e =
      let s = slot_direct ip fs 12 (omega arith) in
      (h.owns 12 (omega arith) (λ z. nz (sym s ∙ z))).foreign (e ∙ sym s)

  pub iupdate-IsInode : IsInode ip (iupdate ip fs)
  iupdate-IsInode = edited-IsInode h (iupdate-Edits ip fs h.bytes) h.home_unmapped home_apart

  pub iupdate-slot : (j : ℕ) → slot ip (iupdate ip fs) j ≡ slot ip fs j
  iupdate-slot j = edited-slot h (iupdate-Edits ip fs h.bytes) h.home_unmapped home_apart j

  pub iupdate-used : (y : ℕ) → y < fs.size → used (iupdate ip fs) y ≡ used fs y
  iupdate-used = edited-used h (iupdate-Edits ip fs h.bytes) h.home_unmapped home_apart

  -- The blocks of the file are not touched.
  pub iupdate-byte :
      (o : ℕ)
      → o < max_size
      → slot ip fs (index (o / 512)) ≢ 0
      → byte ip (iupdate ip fs) o ≡ byte ip fs o
  iupdate-byte o lt nz =
      let bn : index (o / 512) < 141 = ground arith in
      ap (λ k. (iupdate ip fs).block k (o % 512)) (iupdate-slot (index (o / 512)))
      ∙ (iupdate-Edits ip fs h.bytes).far (slot ip fs (index (o / 512))) (o % 512)
          (h.owns (index (o / 512)) bn nz).foreign

-- What a file is after `bytes` have been written to it at `off`.
pub record Stores (ip : Inode) (fs : Fs) (off : ℕ) (bytes : List ℕ) (ip' : Inode) (fs' : Fs)
    : Type 0 where
  pub inode : IsInode ip' fs'
  pub filled : IsFilled ip' fs' ip'.size
  pub size : ip'.size ≡ max ip.size (off + length bytes)
  pub type : ip'.type ≡ ip.type
  pub inside : (o j : ℕ) → j < length bytes → o ≡ off + j → byte ip' fs' o ≡ get_or bytes j 0
  pub outside :
      (o : ℕ) → o < ip.size → (o < off) ⊎ (off + length bytes ≤ o) → byte ip' fs' o ≡ byte ip fs o

-- What writei comes to: -1 with nothing done, or all bytes written.
unfoldable pub Result : ℕ → List ℕ → Inode → Fs → Option (WriteEnd × Inode × Fs) → Type 0
Result off bytes ip fs r =
    (((ip.size < off) ⊎ (max_size < off + length bytes)) × (r ≡ some (write_refused, ip, fs)))
    ⊎ ((off ≤ ip.size)
        × (off + length bytes ≤ max_size)
        × ((ip' : Inode) × (fs' : Fs) × (r ≡ some (wrote (length bytes), ip', fs'))
            × Stores ip fs off bytes ip' fs'))

module _ (ip : Inode) (fs : Fs) (off : ℕ) (bytes : List ℕ) (filled : IsFilled ip fs ip.size)
    (within : off ≤ ip.size) (fit : off + length bytes ≤ max_size) (n : ℕ) (ip' : Inode) (fs' : Fs)
    (small : ip.size ≤ max_size) (w : Writes n ip fs off bytes ip' fs') where
  -- The blocks up to the new end are there.
  extended-IsFilled : IsFilled ip' fs' (max ip.size (off + length bytes))
  extended-IsFilled bn lt = elim (Bool-cases (ltb (bn * 512) ip.size)) [
    | inl old ↦ w.kept bn (ground arith) (filled bn (ground arith))
    | inr new ↦ w.covered bn (ground arith) (ground arith) (ground arith)
  ]

  -- The end stays.
  kept-Stores :
      (ltb 0 (length bytes) && ltb ip'.size (off + length bytes)) ≡ false
      → Stores ip fs off bytes ip' fs'
  kept-Stores stays =
      let same : ip'.size ≡ max ip.size (off + length bytes) = ground (arith, w.size) in
      record {
        inode = w.inode;
        filled = λ bn lt. extended-IsFilled bn (omega (arith, same));
        size = same;
        type = w.type;
        inside = w.inside;
        outside = λ o lt out. w.outside o (omega arith) out (filled (o / 512) (omega arith));
      }

  grown : Inode
  grown = record ip' { size = off + length bytes }

  grown-Stores :
      (ltb 0 (length bytes) && ltb ip'.size (off + length bytes)) ≡ true
      → Stores ip fs off bytes
          (record ip' { size = off + length bytes })
          (iupdate (record ip' { size = off + length bytes }) fs')
  unfolding grown
  grown-Stores grows =
      let bigger : ip.size < off + length bytes = ground (arith, w.size) in
      let h = resized-IsInode ip' (off + length bytes) fs' w.inode in
      let there : IsFilled ip' fs' (off + length bytes) =
        λ bn lt. extended-IsFilled bn (omega arith) in
      record {
        inode = iupdate-IsInode grown fs' h;
        filled = λ bn lt z. there bn lt (sym (iupdate-slot grown fs' h (index bn)) ∙ z);
        size = omega arith;
        type = w.type;
        inside = λ o j lt e.
            iupdate-byte grown fs' h o (omega arith) (there (o / 512) (omega arith))
            ∙ w.inside o j lt e;
        outside = λ o lt out.
            iupdate-byte grown fs' h o (omega arith) (there (o / 512) (omega arith))
            ∙ w.outside o (omega arith) out (filled (o / 512) (omega arith));
      }

-- A write that is admitted, by what its loop comes to.
admitted-Stores :
    (has_write : ℕ → Bool) (off : ℕ) (bytes : List ℕ) (ip : Inode) (fs : Fs)
    → (ip.type == t_dev) ≡ false
    → IsFilled ip fs ip.size
    → ip.size ≤ max_size
    → off ≤ ip.size
    → off + length bytes ≤ max_size
    → Written off bytes ip fs (writei_from (length bytes) off bytes ip fs)
    → (ip' : Inode) × (fs' : Fs) × (writei has_write off bytes ip fs
        ≡ some (wrote (length bytes), ip', fs'))
      × Stores ip fs off bytes ip' fs'
unfolding writei Written
admitted-Stores has_write off bytes ip fs file filled small within fit (ip', fs', e, w) =
    let no_wrap : (ltb ip.size off || ltb (add32 off (length bytes)) off) ≡ false = ground arith in
    let no_excess : ltb max_size (add32 off (length bytes)) ≡ false = ground arith in
    elim (Bool-cases (ltb 0 (length bytes) && ltb ip'.size (off + length bytes))) [
      | inl grows ↦ (
        record ip' { size = off + length bytes },
        iupdate (record ip' { size = off + length bytes }) fs',
        rw (file, no_wrap, no_excess, writei, e, grows) refl,
        grown-Stores ip fs off bytes filled within fit _ ip' fs' small w grows,
      )
      | inr stays ↦ (
        ip',
        fs',
        rw (file, no_wrap, no_excess, writei, e, stays) refl,
        kept-Stores ip fs off bytes filled within fit _ ip' fs' small w stays,
      )
    ]

refused-same :
    (has_write : ℕ → Bool) (off : ℕ) (bytes : List ℕ) (ip : Inode) (fs : Fs)
    → (ip.type == t_dev) ≡ false
    → (ltb ip.size off || ltb max_size (off + length bytes)) ≡ true
    → ip.size ≤ max_size
    → length bytes < 2 ^ 32
    → writei has_write off bytes ip fs ≡ some (write_refused, ip, fs)
unfolding writei
refused-same has_write off bytes ip fs file refused small wide =
    elim (Bool-cases (ltb ip.size off || ltb (add32 off (length bytes)) off)) [
      | inl first ↦ rw (file, first) refl
      | inr passes ↦
          let excess : ltb max_size (add32 off (length bytes)) ≡ true = ground arith in
          rw (file, passes, excess) refl
    ]

-- writei of a file or a directory whose blocks up to its end are there, with two free blocks on the
-- disk for each block that the bytes lie in: it refuses an offset behind the end and an end behind the
-- largest size, with nothing done; otherwise it returns the number of bytes, they are in the file
-- at `off`, all other bytes up to the old end are what they were, the file ends where it did or behind
-- the bytes, and each of its blocks is its own and marked in the bitmap.
pub writei-Result :
    (has_write : ℕ → Bool) (off : ℕ) (bytes : List ℕ) (ip : Inode) (fs : Fs)
    → (ip.type == t_dev) ≡ false
    → IsInode ip fs
    → IsFilled ip fs ip.size
    → ip.size ≤ max_size
    → length bytes < 2 ^ 32
    → AllBytes bytes
    → 2 * rounds off (length bytes) ≤ free fs
    → Result off bytes ip fs (writei has_write off bytes ip fs)
unfolding Result
writei-Result has_write off bytes ip fs file h filled small wide all_bytes room =
    elim (Bool-cases (ltb ip.size off || ltb max_size (off + length bytes))) [
      | inl refused ↦
          inl (which refused, refused-same has_write off bytes ip fs file refused small wide)
      | inr admitted ↦ inr (
        ground arith,
        ground arith,
        admitted-Stores has_write off bytes ip fs file filled small (ground arith) (ground arith) (
            writei_from-Written (length bytes) off bytes ip fs (omega arith) (ground arith)
              all_bytes h room),
      )
    ]
  where
    which :
        (ltb ip.size off || ltb max_size (off + length bytes)) ≡ true
        → (ip.size < off) ⊎ (max_size < off + length bytes)
    which e = elim (Bool-cases (ltb ip.size off)) [
      | inl behind ↦ inl (ground arith)
      | inr before ↦ inr (ground arith)
    ]
