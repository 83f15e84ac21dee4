-- ===== src/Inode/OnDisk.antt =====
-- The inode that ilock of fs.c reads is the one that iupdate has written.
use xv6_fork.Prelude.{
  ℕ, ◌+◌, ◌-◌, ◌*◌, ◌/◌, ◌%◌, ◌^◌, ◌<◌, ◌≤◌, ◌≡◌, refl, ◌∙◌, arith, ◌==◌, ltb, leb, true, false,
  ◌&&◌,
}
use mathlib.Core.Path.{ap₂}
use xv6_fork.Fs.{Fs}
use xv6_fork.Inode.{Inode, iblock, byte_of, dinode_byte, iupdate, half, long, dinode}

-- Every field fits its place.
pub record Fits (ip : Inode) : Type 0 where
  pub type : ip.type < 2 ^ 16
  pub major : ip.major < 2 ^ 16
  pub minor : ip.minor < 2 ^ 16
  pub nlink : ip.nlink < 2 ^ 16
  pub size : ip.size < 2 ^ 32
  pub addrs : (i : ℕ) → i < 13 → ip.addrs i < 2 ^ 32

-- The same in memory, with 13 block numbers.
pub record SameInode (a b : Inode) : Type 0 where
  pub inum : a.inum ≡ b.inum
  pub type : a.type ≡ b.type
  pub major : a.major ≡ b.major
  pub minor : a.minor ≡ b.minor
  pub nlink : a.nlink ≡ b.nlink
  pub size : a.size ≡ b.size
  pub addrs : (i : ℕ) → i < 13 → a.addrs i ≡ b.addrs i

module _ (ip : Inode) (fs : Fs) where
  written_byte :
      (o p : ℕ)
      → p < 64
      → o ≡ ip.inum % 8 * 64 + p
      → (iupdate ip fs).block (iblock ip.inum fs) o ≡ dinode_byte ip p
  unfolding iupdate
  written_byte o p lt e =
      let same : ((iblock ip.inum fs == iblock ip.inum fs)
            && leb (ip.inum % 8 * 64) o
            && ltb o (ip.inum % 8 * 64 + 64))
          ≡ true =
        ground arith in
      let there : o - ip.inum % 8 * 64 ≡ p = omega arith in rw (same, there) refl

  pub written_half :
      (o p v : ℕ)
      → p + 1 < 64
      → o ≡ ip.inum % 8 * 64 + p
      → v < 2 ^ 16
      → dinode_byte ip p ≡ byte_of v 0
      → dinode_byte ip (p + 1) ≡ byte_of v 1
      → half (iupdate ip fs) (iblock ip.inum fs) o ≡ v
  written_half o p v lt e small low high =
      omega (arith, written_byte o p (omega arith) e, written_byte (o + 1) (p + 1) lt (omega arith))

  written_long :
      (o p v : ℕ)
      → p + 3 < 64
      → o ≡ ip.inum % 8 * 64 + p
      → v < 2 ^ 32
      → ((c : ℕ) → c < 4 → dinode_byte ip (p + c) ≡ byte_of v c)
      → long (iupdate ip fs) (iblock ip.inum fs) o ≡ v
  written_long o p v lt e small bytes =
      let b0 : (iupdate ip fs).block (iblock ip.inum fs) o ≡ v % 256 =
        written_byte o (p + 0) (omega arith) (omega arith) ∙ bytes 0 (omega arith) ∙ omega arith in
      let b1 = written_byte (o + 1) (p + 1) (omega arith) (omega arith) ∙ bytes 1 (omega arith) in
      let b2 = written_byte (o + 2) (p + 2) (omega arith) (omega arith) ∙ bytes 2 (omega arith) in
      let b3 = written_byte (o + 3) (p + 3) (omega arith) (omega arith) ∙ bytes 3 (omega arith) in
      omega (arith, b0, b1, b2, b3)

  in_addrs : (p : ℕ) → 12 ≤ p → dinode_byte ip p ≡ byte_of (ip.addrs ((p - 12) / 4)) ((p - 12) % 4)
  in_addrs p le =
      let f2 : ltb p 2 ≡ false = ground arith in
      let f4 : ltb p 4 ≡ false = ground arith in
      let f6 : ltb p 6 ≡ false = ground arith in
      let f8 : ltb p 8 ≡ false = ground arith in
      let f12 : ltb p 12 ≡ false = ground arith in rw (f2, f4, f6, f8, f12) refl

  addr_byte : (i c : ℕ) → c < 4 → dinode_byte ip (12 + 4 * i + c) ≡ byte_of (ip.addrs i) c
  addr_byte i c lt =
      let slot_of : (12 + 4 * i + c - 12) / 4 ≡ i = omega arith in
      let byte_in : (12 + 4 * i + c - 12) % 4 ≡ c = omega arith in
      in_addrs (12 + 4 * i + c) (omega arith) ∙ ap₂ (λ j d. byte_of (ip.addrs j) d) slot_of byte_in

  size_byte : (c : ℕ) → c < 4 → dinode_byte ip (8 + c) ≡ byte_of ip.size c
  size_byte c lt =
      let f2 : ltb (8 + c) 2 ≡ false = ground arith in
      let f4 : ltb (8 + c) 4 ≡ false = ground arith in
      let f6 : ltb (8 + c) 6 ≡ false = ground arith in
      let f8 : ltb (8 + c) 8 ≡ false = ground arith in
      let f12 : ltb (8 + c) 12 ≡ true = ground arith in
      let there : 8 + c - 8 ≡ c = omega arith in rw (f2, f4, f6, f8, f12, there) refl

  -- iupdate of an inode whose fields fit, and then the reading of ilock at the same number, gives the
  -- inode back.
  pub dinode-iupdate : Fits ip → SameInode (dinode ip.inum (iupdate ip fs)) ip
  unfolding dinode iupdate
  dinode-iupdate f = record {
    inum = refl;
    type = written_half (ip.inum % 8 * 64) 0 ip.type (omega arith) (omega arith) f.type refl refl;
    major =
        written_half (ip.inum % 8 * 64 + 2) 2 ip.major (omega arith) (omega arith) f.major refl
          refl;
    minor =
        written_half (ip.inum % 8 * 64 + 4) 4 ip.minor (omega arith) (omega arith) f.minor refl
          refl;
    nlink =
        written_half (ip.inum % 8 * 64 + 6) 6 ip.nlink (omega arith) (omega arith) f.nlink refl
          refl;
    size =
        written_long (ip.inum % 8 * 64 + 8) 8 ip.size (omega arith) (omega arith) f.size size_byte;
    addrs = λ i lt.
        written_long (ip.inum % 8 * 64 + 12 + 4 * i) (12 + 4 * i) (ip.addrs i) (omega arith)
          (omega arith) (f.addrs i lt) (addr_byte i);
  }

pub dinode-inum : (inum : ℕ) (fs : Fs) → (dinode inum fs).inum ≡ inum
unfolding dinode
dinode-inum inum fs = refl
