-- ===== src/Inode/Place.antt =====
-- bmap of fs.c puts a new block into a slot: a direct one, the indirect block, or one in it.
use xv6_fork.Prelude.{
  ℕ, ◌+◌, ◌-◌, ◌/◌, ◌%◌, ◌<◌, ◌≤◌, ◌≡◌, ◌≢◌, refl, sym, ap, ◌∙◌, arith, true, false, if◌then◌else◌,
  ◌==◌, inl, inr, Bool-cases, leb, leb→le,
}
use native.Mathlib.Decide.{ℕ_discrete}
use xv6_fork.Fs.{Fs, bpb, bblock, has_bit}
use xv6_fork.Fs.Bitmap.{used}
use xv6_fork.Fs.Taking.{Takes}
use xv6_fork.Inode.{Inode, put_addr, uint_at, put_word}
use xv6_fork.Inode.Slots.{
  slot, IsData, IsInode, uint_at-put_self, uint_at-put_ne, put_word-far, put_word-IsBytes,
  uint_at-same, uint_at-zero, slot_direct, slot_beyond, slot_none,
}
use xv6_fork.Inode.Grow.{Grows}

module _ (ip : Inode) (fs : Fs) (h : IsInode ip fs) (x : ℕ) (after : Fs)
    (t : Takes fs x after) where
  pub not_boot : x ≢ 0
  not_boot z =
      let f : used fs 0 ≡ false = ap (used fs) (sym z) ∙ t.first.free in
      let b = h.boot in absurd (cc)

  -- Blocks that are in use are not touched.
  pub data_kept : (k i : ℕ) → IsData fs ip.inum k → after.block k i ≡ fs.block k i
  data_kept k i d =
      t.keeps k i
        (λ e.
          let f : used fs k ≡ false = ap (used fs) e ∙ t.first.free in
          let m = d.marked in absurd (cc))
        (λ e. d.unmapped x t.first.inside (sym e))

  -- The indirect block is new, and empty; or it is what it was.
  beyond_same :
      (i j : ℕ)
      → i ≤ 12
      → ip.addrs i ≡ 0
      → 12 < j
      → j < 141
      → slot (put_addr i x ip) after j ≡ slot ip fs j
  beyond_same i j le z lo lt = elim (ℕ_discrete i 12) [
    | yes e ↦
        let here : (put_addr i x ip).addrs 12 ≡ x = ground arith in
        slot_beyond (put_addr i x ip) after j lo (λ n. not_boot (sym here ∙ n))
        ∙ ap (λ k. uint_at after k (j - 13)) here
        ∙ uint_at-zero after x (j - 13) t.zeroed (omega arith)
        ∙ sym (slot_none ip fs j lo (ap ip.addrs (sym e) ∙ z))
    | no ne ↦
        let here : (put_addr i x ip).addrs 12 ≡ ip.addrs 12 = ground arith in
        elim (ℕ_discrete (ip.addrs 12) 0) [
          | yes n ↦ slot_none (put_addr i x ip) after j lo (here ∙ n) ∙ sym (slot_none ip fs j lo n)
          | no nz ↦
              slot_beyond (put_addr i x ip) after j lo (λ n. nz (sym here ∙ n))
              ∙ ap (λ k. uint_at after k (j - 13)) here
              ∙ uint_at-same fs after (ip.addrs 12) (j - 13)
                  (λ o. data_kept (ip.addrs 12) o (h.owns 12 (omega arith) nz))
              ∙ sym (slot_beyond ip fs j lo nz)
        ]
  ]

  direct_slots :
      (i : ℕ)
      → i ≤ 12
      → ip.addrs i ≡ 0
      → (j : ℕ) → j < 141
      → slot (put_addr i x ip) after j ≡ (if i == j then x else slot ip fs j)
  direct_slots i le z j lt = elim (Bool-cases (leb j 12)) [
    | inl low ↦
        let lj : j ≤ 12 = leb→le j 12 low in
        slot_direct (put_addr i x ip) after j lj
        ∙ ap (λ s. if i == j then x else s) (sym (slot_direct ip fs j lj))
    | inr high ↦
        let other : (i == j) ≡ false = ground arith in
        beyond_same i j le z (ground arith) lt ∙ sym (ap (λ b. if b then x else slot ip fs j) other)
  ]

  pub direct-Grows : (i : ℕ) → i ≤ 12 → ip.addrs i ≡ 0 → Grows ip fs i x (put_addr i x ip) after
  direct-Grows i le z = record {
    size = t.size;
    bmapstart = t.bmapstart;
    inodestart = t.inodestart;
    inum = refl;
    bytes = t.bytes;
    marks = t.marks;
    slots = direct_slots i le z;
  }

  pub marks_kept :
      (bn : ℕ)
      → IsData fs ip.inum (ip.addrs 12)
      → (y : ℕ) → y < fs.size
      → used (put_word (ip.addrs 12) bn x after) y ≡ (if x == y then true else used fs y)
  marks_kept bn d y ly =
      let same : bblock y after ≡ bblock y fs = ap (λ s. y / bpb + s) t.bmapstart in
      ap (λ z. has_bit z (y % bpb % 8))
        (put_word-far after (ip.addrs 12) bn x (bblock y after) (y % bpb / 8)
          (λ e. d.unmapped y ly (sym same ∙ sym e)))
      ∙ t.marks y ly

  word_kept :
      (bn j : ℕ)
      → IsData fs ip.inum (ip.addrs 12)
      → bn ≢ j
      → uint_at (put_word (ip.addrs 12) bn x after) (ip.addrs 12) j ≡ uint_at fs (ip.addrs 12) j
  word_kept bn j d ne =
      uint_at-put_ne after (ip.addrs 12) bn x j ne
      ∙ uint_at-same fs after (ip.addrs 12) j (λ o. data_kept (ip.addrs 12) o d)

  indirect_slots :
      (bn : ℕ)
      → bn < 128
      → ip.addrs 12 ≢ 0
      → IsData fs ip.inum (ip.addrs 12)
      → (j : ℕ)
      → slot ip (put_word (ip.addrs 12) bn x after) j ≡ (if bn + 13 == j then x else slot ip fs j)
  indirect_slots bn lt nz d j = elim (Bool-cases (leb j 12)) [
    | inl low ↦
        let lj : j ≤ 12 = leb→le j 12 low in
        let other : (bn + 13 == j) ≡ false = ground arith in
        rw other
          (slot_direct ip (put_word (ip.addrs 12) bn x after) j lj ∙ sym (slot_direct ip fs j lj))
    | inr high ↦
        let lj : 12 < j = ground arith in
        slot_beyond ip (put_word (ip.addrs 12) bn x after) j lj nz ∙ elim (ℕ_discrete bn (j - 13)) [
          | yes e ↦
              let same : (bn + 13 == j) ≡ true = ground arith in
              rw same (
                ap (uint_at (put_word (ip.addrs 12) bn x after) (ip.addrs 12)) (sym e)
                ∙ uint_at-put_self after (ip.addrs 12) bn x
                    (omega (arith, t.first.inside, h.words)))
          | no ne ↦
              let other : (bn + 13 == j) ≡ false = ground arith in
              rw other (word_kept bn (j - 13) d ne ∙ sym (slot_beyond ip fs j lj nz))
        ]
  ]

  pub indirect-Grows :
      (bn : ℕ)
      → bn < 128
      → ip.addrs 12 ≢ 0
      → uint_at fs (ip.addrs 12) bn ≡ 0
      → Grows ip fs (bn + 13) x ip (put_word (ip.addrs 12) bn x after)
  indirect-Grows bn lt nz z =
      let d : IsData fs ip.inum (ip.addrs 12) = h.owns 12 (omega arith) nz in
      record {
        size = t.size;
        bmapstart = t.bmapstart;
        inodestart = t.inodestart;
        inum = refl;
        bytes = put_word-IsBytes after (ip.addrs 12) bn x t.bytes;
        marks = λ y ly. marks_kept bn d y ly;
        slots = λ j lj. indirect_slots bn lt nz d j;
      }
