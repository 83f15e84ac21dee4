-- ===== src/Inode/Write.antt =====
-- The loop of writei in fs.c puts the bytes into the file, and keeps all others.
use xv6_fork.Prelude.{
  ℕ, zero, suc, ◌+◌, ◌-◌, ◌*◌, ◌/◌, ◌%◌, ◌<◌, ◌≤◌, ◌≡◌, ◌≢◌, ◌⊎◌, refl, sym, ap, ◌∙◌, arith, inl,
  inr, List, ◌++◌, length, get_or, length-append, get_or-append_left, get_or-append_right,
}
use mathlib.Core.Path.{subst, ap₂}
use native.Mathlib.Decide.{ℕ_discrete}
use xv6_fork.Fs.{Fs}
use xv6_fork.Inode.{Inode, store_bytes, max_size}
use xv6_fork.Inode.Slots.{slot, index, IsData, IsInode, slot_direct}
use xv6_fork.Inode.Free.{free, free_below-same, free_below}
use xv6_fork.Inode.Map.{Gives}
use xv6_fork.Inode.Bytes.{byte, Edits, edited-IsInode, edited-slot, edited-used}
use xv6_fork.Inode.Stored.{AllBytes, store_bytes-Edits, store_bytes-beside, store_bytes-inside}

-- What writing `bytes` at `off` does to the file, with at most `n` new blocks.
pub record Writes (n : ℕ) (ip : Inode) (fs : Fs) (off : ℕ) (bytes : List ℕ) (ip' : Inode) (fs' : Fs)
    : Type 0 where
  pub inode : IsInode ip' fs'
  pub kept : (bn : ℕ) → bn < 140 → slot ip fs (index bn) ≢ 0 → slot ip' fs' (index bn) ≢ 0
  pub covered :
      (bn : ℕ)
      → 0 < length bytes
      → off < bn * 512 + 512
      → bn * 512 < off + length bytes
      → slot ip' fs' (index bn) ≢ 0
  pub inside : (o j : ℕ) → j < length bytes → o ≡ off + j → byte ip' fs' o ≡ get_or bytes j 0
  pub outside :
      (o : ℕ)
      → o < max_size
      → (o < off) ⊎ (off + length bytes ≤ o)
      → slot ip fs (index (o / 512)) ≢ 0
      → byte ip' fs' o ≡ byte ip fs o
  pub room : free fs ≤ free fs' + n
  pub size : ip'.size ≡ ip.size
  pub type : ip'.type ≡ ip.type
  pub inum : ip'.inum ≡ ip.inum
  pub inodestart : fs'.inodestart ≡ fs.inodestart

byte_at :
    (ip : Inode) (fs : Fs) (o k r : ℕ)
    → slot ip fs (index (o / 512)) ≡ k
    → o % 512 ≡ r
    → byte ip fs o ≡ fs.block k r
byte_at ip fs o k r e f = ap₂ (λ a b. fs.block a b) e f

index_lt : (bn : ℕ) → bn < 140 → index bn < 141
index_lt bn lt = ground arith

index_ne : (bn : ℕ) → index bn ≢ 12
index_ne bn = ground arith

index_inj : (a b : ℕ) → index a ≡ index b → a ≡ b
index_inj a b e = ground arith

-- A piece of one block.
module _ {ip : Inode} {fs : Fs} {off a : ℕ} {ip1 : Inode} {fs1 : Fs} (chunk : List ℕ)
    (fit : off < max_size) (one_block : off % 512 + length chunk ≤ 512) (small : AllBytes chunk)
    (g : Gives 2 ip fs (index (off / 512)) a ip1 fs1) where
  fs2 : Fs
  fs2 = store_bytes a (off % 512) chunk fs1

  edits : Edits fs1 a fs2
  unfolding fs2
  edits = store_bytes-Edits a (off % 512) chunk fs1 small g.extends.inode.bytes

  here-IsData : IsData fs1 ip1.inum a
  here-IsData = subst (IsData fs1 ip1.inum) g.here (
      g.extends.inode.owns (index (off / 512)) (index_lt (off / 512) (omega arith))
        (λ z. g.nonzero (sym g.here ∙ z)))

  -- Other blocks of the file are not this one.
  apart_here : (j : ℕ) → j < 141 → slot ip1 fs1 j ≡ a → index (off / 512) ≡ j
  apart_here j lt e =
      g.extends.inode.apart (index (off / 512)) j (index_lt (off / 512) (omega arith)) lt
        (λ z. g.nonzero (sym g.here ∙ z)) (g.here ∙ sym e)

  not_indirect : ip1.addrs 12 ≢ 0 → a ≢ ip1.addrs 12
  not_indirect nz e =
      index_ne (off / 512)
        (apart_here 12 (omega arith) (slot_direct ip1 fs1 12 (omega arith) ∙ sym e))

  slots_same : (j : ℕ) → slot ip1 fs2 j ≡ slot ip1 fs1 j
  slots_same j = edited-slot g.extends.inode edits here-IsData.unmapped not_indirect j

  untouched :
      (o : ℕ)
      → o < max_size
      → (o < off) ⊎ (off + length chunk ≤ o)
      → (k : ℕ) → slot ip1 fs1 (index (o / 512)) ≡ k
      → fs2.block k (o % 512) ≡ fs1.block k (o % 512)
  unfolding fs2
  untouched o lo out k e = elim (ℕ_discrete a k) [
    | no ne ↦ edits.far k (o % 512) ne
    | yes same ↦
        let together : off / 512 ≡ o / 512 =
          index_inj (off / 512) (o / 512)
            (apart_here (index (o / 512)) (index_lt (o / 512) (omega arith)) (e ∙ sym same)) in
        ap (λ b. fs2.block b (o % 512)) (sym same)
        ∙ store_bytes-beside a (off % 512) chunk fs1 (o % 512)
            (elim out [ inl lt ↦ inl (omega arith) | inr ge ↦ inr (omega arith) ])
        ∙ ap (λ b. fs1.block b (o % 512)) same
  ]

  old_outside :
      (o : ℕ)
      → o < max_size
      → (o < off) ⊎ (off + length chunk ≤ o)
      → slot ip fs (index (o / 512)) ≢ 0
      → byte ip1 fs2 o ≡ byte ip fs o
  unfolding fs2
  old_outside o lo out nz =
      let kept = g.extends.kept (index (o / 512)) (index_lt (o / 512) (omega arith)) nz in
      let keeps =
        g.extends.keeps (index (o / 512)) (o % 512) (index_lt (o / 512) (omega arith))
          (index_ne (o / 512)) nz in
      byte_at ip1 fs2 o (slot ip fs (index (o / 512))) (o % 512) (slots_same _ ∙ kept) refl
      ∙ untouched o lo out (slot ip fs (index (o / 512))) kept
      ∙ keeps

  chunk-Writes : Writes 2 ip fs off chunk ip1 fs2
  unfolding fs2
  chunk-Writes = record {
    inode = edited-IsInode g.extends.inode edits here-IsData.unmapped not_indirect;
    kept = λ bn lt nz z.
        nz (sym (g.extends.kept (index bn) (index_lt bn lt) nz) ∙ sym (slots_same (index bn)) ∙ z);
    covered = λ bn some_bytes lo hi z.
        let same : bn ≡ off / 512 = omega arith in
        g.nonzero (
          sym g.here
          ∙ sym (slots_same (index (off / 512)))
          ∙ sym (ap (λ b. slot ip1 fs2 (index b)) same)
          ∙ z);
    inside = λ o j lt e.
        let same : o / 512 ≡ off / 512 = omega arith in
        let there : o % 512 ≡ off % 512 + j = omega arith in
        byte_at ip1 fs2 o a (off % 512 + j)
          (slots_same (index (o / 512)) ∙ ap (λ b. slot ip1 fs1 (index b)) same ∙ g.here) there
        ∙ store_bytes-inside a (off % 512) chunk fs1 (off % 512 + j) j lt refl;
    outside = old_outside;
    room = omega (
      arith,
      g.extends.room,
      ap (λ n. free_below n fs2) edits.size,
      free_below-same fs1.size fs2 fs1
          (edited-used g.extends.inode edits here-IsData.unmapped not_indirect),
    );
    size = g.extends.size;
    type = g.extends.type;
    inum = g.extends.inum;
    inodestart = edits.inodestart ∙ g.extends.inodestart;
  }

pub piece-Writes :
    (ip : Inode) (fs : Fs) (off a : ℕ) (ip1 : Inode) (fs1 : Fs) (chunk : List ℕ)
    → off < max_size
    → off % 512 + length chunk ≤ 512
    → AllBytes chunk
    → Gives 2 ip fs (index (off / 512)) a ip1 fs1
    → Writes 2 ip fs off chunk ip1 (store_bytes a (off % 512) chunk fs1)
unfolding fs2
piece-Writes ip fs off a ip1 fs1 chunk fit one_block small g =
    chunk-Writes chunk fit one_block small g

split_at : (a b : ℕ) → (a < b) ⊎ (b ≤ a)
split_at a b = omega arith

-- One piece after another.
pub Writes-append :
    {n m : ℕ} {ip ip1 ip2 : Inode} {fs fs1 fs2 : Fs} (off : ℕ) (cs ds : List ℕ)
    → off + length (cs ++ ds) ≤ max_size
    → Writes n ip fs off cs ip1 fs1
    → Writes m ip1 fs1 (off + length cs) ds ip2 fs2
    → Writes (n + m) ip fs off (cs ++ ds) ip2 fs2
Writes-append {ip = ip} {ip1 = ip1} {fs = fs} {fs1 = fs1} off cs ds fit a b =
    let total : length (cs ++ ds) ≡ length cs + length ds = length-append cs ds in
    record {
      inode = b.inode;
      kept = λ bn lt nz. b.kept bn lt (a.kept bn lt nz);
      covered = λ bn some_bytes lo hi. elim (in_first bn (length cs)) [
        | inl (lt, first) ↦ b.kept bn (omega arith) (a.covered bn first lo lt)
        | inr (inl ge) ↦ b.covered bn (omega arith) (omega arith) (omega arith)
        | inr (inr none_first) ↦ b.covered bn (omega arith) (omega arith) (omega arith)
      ];
      inside = λ o j lt e. elim (split_at j (length cs)) [
        | inl left ↦
            b.outside o (omega arith) (inl (omega arith))
              (a.covered (o / 512) (omega arith) (omega arith) (omega arith))
            ∙ a.inside o j left e
            ∙ sym (get_or-append_left cs ds j 0 left)
        | inr right ↦
            let there : length cs + (j - length cs) ≡ j = omega arith in
            b.inside o (j - length cs) (omega arith) (omega arith)
            ∙ sym (get_or-append_right cs ds (j - length cs) 0)
            ∙ ap (λ i. get_or (cs ++ ds) i 0) there
      ];
      outside = λ o lo out nz.
          b.outside o lo (elim out [ inl lt ↦ inl (omega arith) | inr ge ↦ inr (omega arith) ])
            (a.kept (o / 512) (omega arith) nz)
          ∙ a.outside o lo (elim out [ inl lt ↦ inl lt | inr ge ↦ inr (omega arith) ]) nz;
      room = omega (arith, a.room, b.room);
      size = b.size ∙ a.size;
      type = b.type ∙ a.type;
      inum = b.inum ∙ a.inum;
      inodestart = b.inodestart ∙ a.inodestart;
    }
  where
    in_first : (bn l : ℕ) → ((bn * 512 < off + l) × (0 < l)) ⊎ ((off + l ≤ bn * 512) ⊎ (l ≡ 0))
    in_first bn zero = inr (inr refl)
    in_first bn (suc l) = elim (split_at (bn * 512) (off + suc l)) [
      | inl lt ↦ inl (lt, omega arith)
      | inr ge ↦ inr (inl ge)
    ]
