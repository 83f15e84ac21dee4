-- ===== src/Inode/Map.antt =====
-- bmap of fs.c: it finds the block of a file, or gives it one.
use xv6_fork.Prelude.{
  ℕ, ◌+◌, ◌-◌, ◌<◌, ◌≤◌, ◌≡◌, ◌≢◌, refl, sym, ap, ◌∙◌, arith, true, false, ◌==◌, inl, inr,
  Bool-cases, ltb, Option, none, some,
}
use mathlib.Core.Path.{subst}
use native.Mathlib.Decide.{ℕ_discrete}
use xv6_fork.Fs.{Fs}
use xv6_fork.Fs.Bitmap.{used}
use xv6_fork.Fs.Taking.{Takes, balloc-Takes}
use xv6_fork.Inode.{Inode, put_addr, uint_at, put_word, direct, indirect, bmap}
use xv6_fork.Inode.Slots.{slot, index, IsInode, put_word-far, slot_direct, slot_beyond, slot_none}
use xv6_fork.Inode.Free.{free, free_below, free-Takes, free_below-same, free_below-full}
use xv6_fork.Inode.Grow.{Grows, grown-IsInode, slot_old}
use xv6_fork.Inode.Extend.{Extends, Extends-refl, Extends-trans}
use xv6_fork.Inode.Place.{not_boot, data_kept, marks_kept, direct-Grows, indirect-Grows}

-- What a call that looks up slot `i` gives: a block, which is in the slot afterwards; a slot that had
-- one is not touched.
pub record Gives (n : ℕ) (ip : Inode) (fs : Fs) (i a : ℕ) (ip' : Inode) (fs' : Fs) : Type 0 where
  pub extends : Extends n ip fs ip' fs'
  pub here : slot ip' fs' i ≡ a
  pub nonzero : a ≢ 0
  pub same : slot ip fs i ≢ 0 → (slot ip fs i ≡ a) × (ip' ≡ ip) × (fs' ≡ fs)

unfoldable pub Given : ℕ → Inode → Fs → ℕ → Option (ℕ × Inode × Fs) → Type 0
Given n ip fs i r =
    (a : ℕ) × (ip' : Inode) × (fs' : Fs) × (r ≡ some (a, ip', fs')) × Gives n ip fs i a ip' fs'

grown-Gives :
    (ip : Inode) (fs : Fs) (i x : ℕ) (after : Fs) (ip' : Inode) (fs' : Fs)
    → IsInode ip fs
    → Takes fs x after
    → i < 141
    → slot ip fs i ≡ 0
    → Grows ip fs i x ip' fs'
    → ((y : ℕ) → y < fs.size → used fs' y ≡ used after y)
    → ((j o : ℕ)
        → j < 141
        → j ≢ 12
        → slot ip fs j ≢ 0
        → fs'.block (slot ip fs j) o ≡ fs.block (slot ip fs j) o)
    → ip'.size ≡ ip.size
    → ip'.type ≡ ip.type
    → Gives 1 ip fs i x ip' fs'
grown-Gives ip fs i x after ip' fs' h t lt z g marks keeps size type = record {
  extends = record {
    inode = grown-IsInode h t.first.inside t.first.free g;
    kept = λ j lj nz.
        slot_old h t.first.inside t.first.free g j lj (λ e. nz (ap (slot ip fs) (sym e) ∙ z));
    keeps = keeps;
    room = omega (
      arith,
      free-Takes fs after x t,
      free_below-same fs.size fs' after marks,
      ap (λ n. free_below n fs') g.size,
      ap (λ n. free_below n after) t.size,
    );
    size = size;
    type = type;
    inum = g.inum;
    inodestart = g.inodestart;
  };
  here = g.slots i lt ∙ ground arith;
  nonzero = not_boot ip fs h x after t;
  same = λ nz. absurd (nz z);
}

direct-Given :
    (i : ℕ) (ip : Inode) (fs : Fs)
    → IsInode ip fs
    → i ≤ 12
    → 1 ≤ free fs
    → Given 1 ip fs i (direct i ip fs)
unfolding Given direct
direct-Given i ip fs h le room = elim (ℕ_discrete (ip.addrs i) 0) [
  | no nz ↦
      let e : (ip.addrs i == 0) ≡ false = ground arith in
      let s = slot_direct ip fs i le in
      (
        ip.addrs i,
        ip,
        fs,
        rw (e, direct) refl,
        record {
          extends = Extends-refl 1 ip fs h;
          here = s;
          nonzero = nz;
          same = λ _. (s, refl, refl);
        },
      )
  | yes z ↦
      let e : (ip.addrs i == 0) ≡ true = ground arith in
      elim (balloc-Takes fs h.bytes h.mapped) [
        | inl (x, after, b, t) ↦ (
          x,
          put_addr i x ip,
          after,
          rw (e, b, direct) refl,
          grown-Gives ip fs i x after (put_addr i x ip) after h t (omega arith)
              (slot_direct ip fs i le ∙ z) (direct-Grows ip fs h x after t i le z) (λ y ly. refl)
              (λ j o lj ne nz. data_kept ip fs h x after t (slot ip fs j) o (h.owns j lj nz)) refl
              refl,
        )
        | inr (b, full) ↦
            absurd (omega (arith, room, free_below-full fs.size fs (omega arith) full))
      ]
]

indirect-Given :
    (bn : ℕ) (ip : Inode) (fs : Fs)
    → IsInode ip fs
    → bn < 128
    → ip.addrs 12 ≢ 0
    → 1 ≤ free fs
    → Given 1 ip fs (bn + 13) (indirect (ip.addrs 12) bn ip fs)
unfolding Given indirect
indirect-Given bn ip fs h lt nz room =
    let there : bn + 13 - 13 ≡ bn = omega arith in
    let s : slot ip fs (bn + 13) ≡ uint_at fs (ip.addrs 12) bn =
      slot_beyond ip fs (bn + 13) (omega arith) nz ∙ ap (uint_at fs (ip.addrs 12)) there in
    let d = h.owns 12 (omega arith) nz in
    elim (ℕ_discrete (uint_at fs (ip.addrs 12) bn) 0) [
      | no nw ↦
          let e : (uint_at fs (ip.addrs 12) bn == 0) ≡ false = ground arith in
          (
            uint_at fs (ip.addrs 12) bn,
            ip,
            fs,
            rw (e, indirect) refl,
            record {
              extends = Extends-refl 1 ip fs h;
              here = s;
              nonzero = nw;
              same = λ _. (s, refl, refl);
            },
          )
      | yes z ↦
          let e : (uint_at fs (ip.addrs 12) bn == 0) ≡ true = ground arith in
          elim (balloc-Takes fs h.bytes h.mapped) [
            | inl (x, after, b, t) ↦ (
              x,
              ip,
              put_word (ip.addrs 12) bn x after,
              rw (e, b, indirect) refl,
              grown-Gives ip fs (bn + 13) x after ip (put_word (ip.addrs 12) bn x after) h t
                  (omega arith) (s ∙ z) (indirect-Grows ip fs h x after t bn lt nz z)
                  (λ y ly. marks_kept ip fs h x after t bn d y ly ∙ sym (t.marks y ly))
                  (λ j o lj ne nj.
                    put_word-far after (ip.addrs 12) bn x (slot ip fs j) o
                      (λ same. ne (sym (h.apart 12 j (omega arith) lj nz same)))
                    ∙ data_kept ip fs h x after t (slot ip fs j) o (h.owns j lj nj))
                  refl refl,
            )
            | inr (b, full) ↦
                absurd (omega (arith, room, free_below-full fs.size fs (omega arith) full))
          ]
    ]

abbrev beyond : ℕ → Inode → Fs → Option (ℕ × Inode × Fs)
beyond bn ip fs = elim (direct 12 ip fs) [
  | none ↦ none
  | some (k, ip', fs') ↦ indirect k bn ip' fs'
]

-- The block of a file at index `bn`, behind the direct ones.
beyond-Given :
    (bn : ℕ) (ip : Inode) (fs : Fs)
    → IsInode ip fs
    → bn < 128
    → 2 ≤ free fs
    → Given 2 ip fs (bn + 13) (beyond bn ip fs)
unfolding Given
beyond-Given bn ip fs h lt room =
    let (k, ip', fs', e, g) = direct-Given 12 ip fs h (omega arith) (omega arith) in
    let addr : ip'.addrs 12 ≡ k = sym (slot_direct ip' fs' 12 (omega arith)) ∙ g.here in
    let (a, ip'', fs'', e', g') =
      indirect-Given bn ip' fs' g.extends.inode lt (λ z. g.nonzero (sym addr ∙ z))
        (omega (arith, g.extends.room)) in
    (
      a,
      ip'',
      fs'',
      rw (e, beyond) (ap (λ q. indirect q bn ip' fs') (sym addr) ∙ e'),
      record {
        extends = Extends-trans g.extends g'.extends;
        here = g'.here;
        nonzero = g'.nonzero;
        same = λ nz.
            let kept = g.extends.kept (bn + 13) (omega arith) nz in
            let later = g'.same (λ z. nz (sym kept ∙ z)) in
            let first = g.same (λ z. nz (
              slot_none ip fs (bn + 13) (omega arith)
                (sym (slot_direct ip fs 12 (omega arith)) ∙ z))) in
            (sym kept ∙ later.0, later.1 ∙ first.1, later.2 ∙ first.2);
      },
    )

widen-Given :
    (ip : Inode) (fs : Fs) (i : ℕ) (r : Option (ℕ × Inode × Fs))
    → Given 1 ip fs i r
    → Given 2 ip fs i r
unfolding Given
widen-Given ip fs i r (a, ip', fs', e, g) = (
  a,
  ip',
  fs',
  e,
  record {
    extends = Extends-trans g.extends (Extends-refl 1 ip' fs' g.extends.inode);
    here = g.here;
    nonzero = g.nonzero;
    same = g.same;
  },
)

-- bmap of a block within the largest size of a file, with two free blocks on the disk, gives the file
-- a block there if it has none; it loses no other, and their contents stay.
pub bmap-Given :
    (bn : ℕ) (ip : Inode) (fs : Fs)
    → IsInode ip fs
    → bn < 140
    → 2 ≤ free fs
    → Given 2 ip fs (index bn) (bmap bn ip fs)
unfolding bmap
bmap-Given bn ip fs h lt room = elim (Bool-cases (ltb bn 12)) [
  | inl low ↦
      let found =
        widen-Given ip fs bn (direct bn ip fs)
          (direct-Given bn ip fs h (ground arith) (omega arith)) in
      rw low found
  | inr high ↦
      let inside : ltb (bn - 12) 128 ≡ true = ground arith in
      let there : bn - 12 + 13 ≡ bn + 1 = ground arith in
      rw (high, inside)
        (subst (λ i. Given 2 ip fs i (beyond (bn - 12) ip fs)) there
          (beyond-Given (bn - 12) ip fs h (ground arith) room))
]
