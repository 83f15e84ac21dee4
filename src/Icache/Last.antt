-- ===== src/Icache/Last.antt =====
-- iput of fs.c when the last reference to an inode without links goes.
use xv6_fork.Prelude.{
  ℕ, ◌+◌, ◌*◌, ◌/◌, ◌%◌, ◌<◌, ◌≡◌, ◌≢◌, refl, ap, ◌∙◌, arith, true, false, some, ◌==◌, ◌&&◌,
}
use mathlib.Core.Path.{subst}
use xv6_fork.Fs.{Fs}
use xv6_fork.Fs.Bitmap.{used}
use xv6_fork.Inode.{Inode, iupdate, half}
use xv6_fork.Inode.Slots.{slot, IsInode}
use xv6_fork.Inode.Update.{iupdate-Edits, iupdate-used}
use xv6_fork.Inode.OnDisk.{written_half}
use xv6_fork.Inode.Truncate.{itrunc}
use xv6_fork.Inode.Truncate.Emptied.{Empties, itrunc-Empties}
use xv6_fork.Icache.{Entry, Store, put, one_less, fewer, discard, iput, disk_type}
use xv6_fork.Icache.Entries.{put_self, put_ne}

-- The inode of entry `i` is gone from the cache and from the disk.
pub record Removes (i : ℕ) (ip : Inode) (s s' : Store) : Type 0 where
  pub ref : (s'.cache i).ref ≡ 0
  pub valid : (s'.cache i).valid ≡ false
  pub others : (j : ℕ) → i ≢ j → s'.cache j ≡ s.cache j
  pub type : disk_type ip.inum s'.fs ≡ 0
  pub freed : (j : ℕ) → j < 141 → slot ip s.fs j ≢ 0 → used s'.fs (slot ip s.fs j) ≡ false
  pub kept :
      (y : ℕ)
      → y < s.fs.size
      → ((j : ℕ) → j < 141 → slot ip s.fs j ≢ 0 → slot ip s.fs j ≢ y)
      → used s'.fs y ≡ used s.fs y

retyped-IsInode :
    (ip : Inode) (n : ℕ) (fs : Fs) → IsInode ip fs → IsInode (record ip { type = n }) fs
retyped-IsInode ip n fs h = record {
  bytes = h.bytes;
  mapped = h.mapped;
  words = h.words;
  boot = h.boot;
  home_inside = h.home_inside;
  home_marked = h.home_marked;
  home_unmapped = h.home_unmapped;
  owns = h.owns;
  apart = h.apart;
}

module _ (i : ℕ) (s : Store) (valid : (s.cache i).valid ≡ true)
    (unlinked : (s.cache i).ip.nlink ≡ 0) (last : (s.cache i).ref ≡ 1) where
  discarding : ((s.cache i).valid && ((s.cache i).ip.nlink == 0) && ((s.cache i).ref == 1)) ≡ true
  discarding = ground arith

  abbrev after : Inode → Fs → Store
  after ip fs = record {
    cache =
        fewer i (put s.cache i (record (s.cache i) { valid = false; ip = record ip { type = 0 } }));
    fs = iupdate (record ip { type = 0 }) fs;
  }

  last-iput :
      (ip : Inode) (fs : Fs)
      → itrunc (s.cache i).ip s.fs ≡ some (ip, fs)
      → iput i s ≡ some (after ip fs)
  unfolding iput discard
  last-iput ip fs e = rw (iput, discard, discarding, e) refl

  abbrev entry : Inode → Entry
  entry ip = record (s.cache i) { valid = false; ip = record ip { type = 0 } }

  no_type :
      (ip : Inode) (fs : Fs)
      → IsInode ip fs
      → disk_type ip.inum (iupdate (record ip { type = 0 }) fs) ≡ 0
  no_type ip fs h =
      let gone = record ip { type = 0 } in
      let d = iupdate-Edits gone fs h.bytes in
      ap (λ m. half (iupdate gone fs) (ip.inum / 8 + m) (ip.inum % 8 * 64)) d.inodestart
      ∙ written_half gone fs (ip.inum % 8 * 64) 0 0 (omega arith) (omega arith) (omega arith) refl
          refl

  after-Removes :
      (ip : Inode) (fs : Fs)
      → IsInode (s.cache i).ip s.fs
      → Empties (s.cache i).ip s.fs ip fs
      → Removes i (s.cache i).ip s (after ip fs)
  after-Removes ip fs h e = record {
    ref =
        ap (λ x. x.ref) (put_self (put s.cache i (entry ip)) i _)
        ∙ one_less_one _ (ap (λ x. x.ref) (put_self s.cache i (entry ip)) ∙ last);
    valid =
        ap (λ x. x.valid) (put_self (put s.cache i (entry ip)) i _)
        ∙ ap (λ x. x.valid) (put_self s.cache i (entry ip));
    others = λ j ne. put_ne (put s.cache i (entry ip)) i j _ ne ∙ put_ne s.cache i j (entry ip) ne;
    type =
        subst (λ n. disk_type n (iupdate (record ip { type = 0 }) fs) ≡ 0) e.inum
          (no_type ip fs e.inode);
    freed = λ j lt nz.
        iupdate-used (record ip { type = 0 }) fs (retyped-IsInode ip 0 fs e.inode)
          (slot (s.cache i).ip s.fs j) (omega (arith, e.blocks, (h.owns j lt nz).inside))
        ∙ e.freed j lt nz;
    kept = λ y lt apart.
        iupdate-used (record ip { type = 0 }) fs (retyped-IsInode ip 0 fs e.inode) y
          (omega (arith, e.blocks))
        ∙ e.kept y lt apart;
  }
    where
      one_less_one : (n : ℕ) → n ≡ 1 → one_less n ≡ 0
      one_less_one n q = ground arith

  -- iput of a valid inode without links, to which no other reference is left and whose blocks are its
  -- own, does not panic. Its blocks and its indirect block are free afterwards, and the bitmap is
  -- unchanged for all others; the inode is marked free on the disk, its entry is not valid and has no
  -- reference, and the other entries are unchanged.
  pub iput-Removes :
      IsInode (s.cache i).ip s.fs
      → (s' : Store) × (iput i s ≡ some s') × Removes i (s.cache i).ip s s'
  iput-Removes h =
      let (ip, fs, e, gone) = itrunc-Empties (s.cache i).ip s.fs h in
      (after ip fs, last-iput ip fs e, after-Removes ip fs h gone)
