-- ===== src/Inode/Extend.antt =====
-- What the calls of fs.c that give blocks to an inode leave as it was.
use xv6_fork.Prelude.{ℕ, ◌+◌, ◌<◌, ◌≤◌, ◌≡◌, ◌≢◌, refl, sym, ap, ◌∙◌, arith}
use xv6_fork.Fs.{Fs}
use xv6_fork.Inode.{Inode}
use xv6_fork.Inode.Slots.{slot, IsInode}
use xv6_fork.Inode.Free.{free}

-- What a call may do to an inode and its blocks: no slot that has a block loses it, the contents of
-- all but the indirect block stay, and at most `n` free blocks are used up.
pub record Extends (n : ℕ) (ip : Inode) (fs : Fs) (ip' : Inode) (fs' : Fs) : Type 0 where
  pub inode : IsInode ip' fs'
  pub kept : (j : ℕ) → j < 141 → slot ip fs j ≢ 0 → slot ip' fs' j ≡ slot ip fs j
  pub keeps :
      (j i : ℕ)
      → j < 141
      → j ≢ 12
      → slot ip fs j ≢ 0
      → fs'.block (slot ip fs j) i ≡ fs.block (slot ip fs j) i
  pub room : free fs ≤ free fs' + n
  pub size : ip'.size ≡ ip.size
  pub type : ip'.type ≡ ip.type
  pub inum : ip'.inum ≡ ip.inum
  pub inodestart : fs'.inodestart ≡ fs.inodestart

pub Extends-refl : (n : ℕ) (ip : Inode) (fs : Fs) → IsInode ip fs → Extends n ip fs ip fs
Extends-refl n ip fs h = record {
  inode = h;
  kept = λ j lt nz. refl;
  keeps = λ j i lt ne nz. refl;
  room = omega arith;
  size = refl;
  type = refl;
  inum = refl;
  inodestart = refl;
}

pub Extends-trans :
    {n m : ℕ} {ip ip' ip'' : Inode} {fs fs' fs'' : Fs}
    → Extends n ip fs ip' fs'
    → Extends m ip' fs' ip'' fs''
    → Extends (n + m) ip fs ip'' fs''
Extends-trans {fs = fs} {fs' = fs'} {fs'' = fs''} a b = record {
  inode = b.inode;
  kept = λ j lt nz. b.kept j lt (λ z. nz (sym (a.kept j lt nz) ∙ z)) ∙ a.kept j lt nz;
  keeps = λ j i lt ne nz.
      let e = a.kept j lt nz in
      ap (λ k. fs''.block k i) (sym e)
      ∙ b.keeps j i lt ne (λ z. nz (sym e ∙ z))
      ∙ ap (λ k. fs'.block k i) e
      ∙ a.keeps j i lt ne nz;
  room = omega (arith, a.room, b.room);
  size = b.size ∙ a.size;
  type = b.type ∙ a.type;
  inum = b.inum ∙ a.inum;
  inodestart = b.inodestart ∙ a.inodestart;
}
