-- ===== src/Inode/Grow.antt =====
-- A slot of an inode gets a block that balloc of fs.c hands out.
use xv6_fork.Prelude.{
  ℕ, ◌+◌, ◌/◌, ◌<◌, ◌≡◌, ◌≢◌, refl, sym, ap, ◌∙◌, arith, Bool, true, false, if◌then◌else◌, ◌==◌,
}
use mathlib.Core.Path.{subst}
use native.Mathlib.Decide.{ℕ_discrete}
use xv6_fork.Fs.{Fs, bblock}
use xv6_fork.Fs.Bitmap.{used, IsBytes}
use xv6_fork.Inode.{Inode, iblock}
use xv6_fork.Inode.Slots.{slot, IsData, IsInode}

-- What the step from `ip` and `fs` to `ip'` and `fs'` does: block `x` is taken, and goes to slot `i`.
pub record Grows (ip : Inode) (fs : Fs) (i x : ℕ) (ip' : Inode) (fs' : Fs) : Type 0 where
  pub size : fs'.size ≡ fs.size
  pub bmapstart : fs'.bmapstart ≡ fs.bmapstart
  pub inodestart : fs'.inodestart ≡ fs.inodestart
  pub inum : ip'.inum ≡ ip.inum
  pub bytes : IsBytes fs'
  pub marks : (y : ℕ) → y < fs.size → used fs' y ≡ (if x == y then true else used fs y)
  pub slots : (j : ℕ) → j < 141 → slot ip' fs' j ≡ (if i == j then x else slot ip fs j)

module _ {ip : Inode} {fs : Fs} {i x : ℕ} {ip' : Inode} {fs' : Fs} (h : IsInode ip fs)
    (inside : x < fs.size) (fresh : used fs x ≡ false) (g : Grows ip fs i x ip' fs') where
  bblock_same : (y : ℕ) → bblock y fs' ≡ bblock y fs
  bblock_same y = ap (λ s. y / 4096 + s) g.bmapstart

  iblock_same : iblock ip'.inum fs' ≡ iblock ip.inum fs
  iblock_same = omega (arith, g.inum, g.inodestart)

  stays_used : (y : ℕ) → y < fs.size → used fs y ≡ true → used fs' y ≡ true
  stays_used y lt u = g.marks y lt ∙ go (x == y) (used fs y) u
    where
      go : (b c : Bool) → c ≡ true → (if b then true else c) ≡ true
      go true c e = refl
      go false c e = e

  not_used : (y : ℕ) → used fs y ≡ true → x ≢ y
  not_used y u e = let f : used fs y ≡ false = ap (used fs) (sym e) ∙ fresh in absurd (cc)

  old-IsData : (y : ℕ) → IsData fs ip.inum y → IsData fs' ip'.inum y
  old-IsData y d = record {
    inside = omega (arith, g.size, d.inside);
    marked = stays_used y d.inside d.marked;
    unmapped = λ z lt e. d.unmapped z (omega (arith, g.size)) (sym (bblock_same z) ∙ e);
    foreign = λ e. d.foreign (sym iblock_same ∙ e);
  }

  new-IsData : IsData fs' ip'.inum x
  new-IsData = record {
    inside = omega (arith, g.size, inside);
    marked = g.marks x inside ∙ ground arith;
    unmapped = λ z lt e.
        not_used (bblock z fs) (h.mapped z (omega (arith, g.size))).1
          (sym (sym (bblock_same z) ∙ e));
    foreign = λ e. not_used (iblock ip.inum fs) h.home_marked (sym (sym iblock_same ∙ e));
  }

  slot_new : (j : ℕ) → j < 141 → i ≡ j → slot ip' fs' j ≡ x
  slot_new j lt e = g.slots j lt ∙ ground arith

  pub slot_old : (j : ℕ) → j < 141 → i ≢ j → slot ip' fs' j ≡ slot ip fs j
  slot_old j lt ne = g.slots j lt ∙ ground arith

  -- The new block is in no other slot.
  not_slot : (j : ℕ) → j < 141 → x ≢ slot ip fs j
  not_slot j lt e = elim (ℕ_discrete (slot ip fs j) 0) [
    | yes z ↦ not_used 0 h.boot (e ∙ z)
    | no nz ↦ not_used (slot ip fs j) (h.owns j lt nz).marked e
  ]

  pub grown-IsInode : IsInode ip' fs'
  grown-IsInode = record {
    bytes = g.bytes;
    mapped = λ y lt.
        let m = h.mapped y (omega (arith, g.size)) in
        (
          omega (arith, bblock_same y, g.size, m.0),
          ap (used fs') (bblock_same y) ∙ stays_used (bblock y fs) m.0 m.1,
        );
    words = omega (arith, g.size, h.words);
    boot = stays_used 0 (omega (arith, inside)) h.boot;
    home_inside = omega (arith, g.size, iblock_same, h.home_inside);
    home_marked =
        ap (used fs') iblock_same ∙ stays_used (iblock ip.inum fs) h.home_inside h.home_marked;
    home_unmapped =
        λ y lt e. h.home_unmapped y (omega (arith, g.size)) (sym (bblock_same y) ∙ e ∙ iblock_same);
    owns = λ j lt nz. elim (ℕ_discrete i j) [
      | yes e ↦ subst (IsData fs' ip'.inum) (sym (slot_new j lt e)) new-IsData
      | no ne ↦
          let same = slot_old j lt ne in
          subst (IsData fs' ip'.inum) (sym same)
            (old-IsData (slot ip fs j) (h.owns j lt (λ z. nz (same ∙ z))))
    ];
    apart = λ j k lj lk nz same. elim (ℕ_discrete i j) [
      | yes ej ↦ elim (ℕ_discrete i k) [
        | yes ek ↦ sym ej ∙ ek
        | no nk ↦ absurd (not_slot k lk (sym (slot_new j lj ej) ∙ same ∙ slot_old k lk nk))
      ]
      | no nj ↦ elim (ℕ_discrete i k) [
        | yes ek ↦ absurd (not_slot j lj (sym (slot_new k lk ek) ∙ sym same ∙ slot_old j lj nj))
        | no nk ↦
            h.apart j k lj lk (λ z. nz (slot_old j lj nj ∙ z))
              (sym (slot_old j lj nj) ∙ same ∙ slot_old k lk nk)
      ]
    ];
  }
