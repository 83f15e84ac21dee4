-- ===== src/Inode/Bytes.antt =====
-- The bytes of a file in fs.c, and changes to a block that leave all others alone.
use xv6_fork.Prelude.{
  ℕ, zero, suc, ◌+◌, ◌-◌, ◌/◌, ◌%◌, ◌<◌, ◌≤◌, ◌≡◌, ◌≢◌, refl, sym, ap, ◌∙◌, arith, inl, inr, leb,
  List, [], ◌∷◌, ◌++◌, Bool-cases, leb→le,
}
use mathlib.Core.Path.{subst, ap₂}
use native.Mathlib.Decide.{ℕ_discrete}
use xv6_fork.Fs.{Fs, bblock, has_bit, bpb}
use xv6_fork.Fs.Bitmap.{used, IsBytes}
use xv6_fork.Inode.{Inode, iblock, slice}
use xv6_fork.Inode.Slots.{
  slot, index, IsData, IsInode, uint_at-same, slot_direct, slot_beyond, slot_none,
}

-- Byte `o` of a file.
abbrev pub byte : Inode → Fs → ℕ → ℕ
byte ip fs o = fs.block (slot ip fs (index (o / 512))) (o % 512)

-- The `n` bytes from `o` on.
abbrev pub window : Inode → Fs → ℕ → ℕ → List ℕ
window ip fs o zero = []
window ip fs o (suc n) = byte ip fs o ∷ window ip fs (o + 1) n

pub window-append :
    (ip : Inode) (fs : Fs) (o m n : ℕ)
    → window ip fs o (m + n) ≡ window ip fs o m ++ window ip fs (o + m) n
window-append ip fs o zero n =
    let e : 0 + n ≡ n = omega arith in
    let f : o ≡ o + 0 = omega arith in ap (window ip fs o) e ∙ ap (λ a. window ip fs a n) f
window-append ip fs o (suc m) n =
    let e : suc m + n ≡ suc (m + n) = omega arith in
    let f : o + 1 + m ≡ o + suc m = omega arith in
    ap (window ip fs o) e
    ∙ ap (λ t. byte ip fs o ∷ t)
        (window-append ip fs (o + 1) m n ∙ ap (λ a. window ip fs (o + 1) m ++ window ip fs a n) f)

pub slice-window :
    (ip : Inode) (fs : Fs) (k r o m : ℕ)
    → slot ip fs (index (o / 512)) ≡ k
    → o % 512 ≡ r
    → r + m ≤ 512
    → slice fs k r m ≡ window ip fs o m
slice-window ip fs k r o zero e f fit = refl
slice-window ip fs k r o (suc zero) e f fit = ap₂ (λ a b. fs.block a b ∷ []) (sym e) (sym f)
slice-window ip fs k r o (suc (suc m)) e f fit =
    let same : (o + 1) / 512 ≡ o / 512 = omega arith in
    let next : (o + 1) % 512 ≡ r + 1 = omega arith in
    ap₂ ◌∷◌ (ap₂ (λ a b. fs.block a b) (sym e) (sym f)) (
      slice-window ip fs k (r + 1) (o + 1) (suc m) (ap (λ b. slot ip fs (index b)) same ∙ e) next
        (omega arith))

-- Only block `k` has changed.
pub record Edits (fs : Fs) (k : ℕ) (fs' : Fs) : Type 0 where
  pub size : fs'.size ≡ fs.size
  pub bmapstart : fs'.bmapstart ≡ fs.bmapstart
  pub inodestart : fs'.inodestart ≡ fs.inodestart
  pub bytes : IsBytes fs'
  pub far : (k' i : ℕ) → k ≢ k' → fs'.block k' i ≡ fs.block k' i

module _ {ip : Inode} {fs : Fs} {k : ℕ} {fs' : Fs} (h : IsInode ip fs) (d : Edits fs k fs')
    (unmapped : (y : ℕ) → y < fs.size → bblock y fs ≢ k)
    (not_indirect : ip.addrs 12 ≢ 0 → k ≢ ip.addrs 12) where
  bblock_same : (y : ℕ) → bblock y fs' ≡ bblock y fs
  bblock_same y = ap (λ s. y / bpb + s) d.bmapstart

  iblock_same : iblock ip.inum fs' ≡ iblock ip.inum fs
  iblock_same = ap (λ s. ip.inum / 8 + s) d.inodestart

  pub edited-used : (y : ℕ) → y < fs.size → used fs' y ≡ used fs y
  edited-used y lt =
      ap (λ b. has_bit (fs'.block b (y % bpb / 8)) (y % bpb % 8)) (bblock_same y)
      ∙ ap (λ z. has_bit z (y % bpb % 8))
          (d.far (bblock y fs) (y % bpb / 8) (λ e. unmapped y lt (sym e)))

  pub edited-slot : (j : ℕ) → slot ip fs' j ≡ slot ip fs j
  edited-slot j = elim (Bool-cases (leb j 12)) [
    | inl low ↦ slot_direct ip fs' j (leb→le j 12 low) ∙ sym (slot_direct ip fs j (leb→le j 12 low))
    | inr high ↦
        let lo : 12 < j = ground arith in
        elim (ℕ_discrete (ip.addrs 12) 0) [
          | yes z ↦ slot_none ip fs' j lo z ∙ sym (slot_none ip fs j lo z)
          | no nz ↦
              slot_beyond ip fs' j lo nz
              ∙ uint_at-same fs fs' (ip.addrs 12) (j - 13)
                  (λ i. d.far (ip.addrs 12) i (not_indirect nz))
              ∙ sym (slot_beyond ip fs j lo nz)
        ]
  ]

  edited-IsData : (x : ℕ) → IsData fs ip.inum x → IsData fs' ip.inum x
  edited-IsData x c = record {
    inside = omega (arith, d.size, c.inside);
    marked = edited-used x c.inside ∙ c.marked;
    unmapped = λ y lt e. c.unmapped y (omega (arith, d.size)) (sym (bblock_same y) ∙ e);
    foreign = λ e. c.foreign (sym iblock_same ∙ e);
  }

  pub edited-IsInode : IsInode ip fs'
  edited-IsInode = record {
    bytes = d.bytes;
    mapped = λ y lt.
        let m = h.mapped y (omega (arith, d.size)) in
        (
          omega (arith, bblock_same y, d.size, m.0),
          ap (used fs') (bblock_same y) ∙ edited-used (bblock y fs) m.0 ∙ m.1,
        );
    words = omega (arith, d.size, h.words);
    boot = edited-used 0 (omega (arith, h.home_inside)) ∙ h.boot;
    home_inside = omega (arith, d.size, iblock_same, h.home_inside);
    home_marked =
        ap (used fs') iblock_same ∙ edited-used (iblock ip.inum fs) h.home_inside ∙ h.home_marked;
    home_unmapped =
        λ y lt e. h.home_unmapped y (omega (arith, d.size)) (sym (bblock_same y) ∙ e ∙ iblock_same);
    owns = λ j lt nz.
        let e = edited-slot j in
        subst (IsData fs' ip.inum) (sym e)
          (edited-IsData (slot ip fs j) (h.owns j lt (λ z. nz (e ∙ z))));
    apart = λ i j li lj nz same.
        h.apart i j li lj (λ z. nz (edited-slot i ∙ z))
          (sym (edited-slot i) ∙ same ∙ edited-slot j);
  }
