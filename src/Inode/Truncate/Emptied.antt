-- ===== src/Inode/Truncate/Emptied.antt =====
-- itrunc of fs.c as a whole.
use xv6_fork.Prelude.{
  ℕ, ◌+◌, ◌-◌, ◌/◌, ◌<◌, ◌≤◌, ◌≡◌, ◌≢◌, refl, sym, ap, ◌∙◌, arith, true, false, some, inl, inr,
  if◌then◌else◌, ◌==◌, ltb, leb, Bool-cases, leb→le,
}
use mathlib.Core.Path.{subst}
use xv6_fork.Fs.{Fs, bblock}
use xv6_fork.Fs.Bitmap.{used}
use xv6_fork.Inode.{Inode, iblock, iupdate, uint_at}
use xv6_fork.Inode.Slots.{slot, IsInode, slot_direct, slot_beyond, slot_none}
use xv6_fork.Inode.Bytes.{Edits}
use xv6_fork.Inode.Update.{iupdate-Edits, iupdate-IsInode, iupdate-used}
use xv6_fork.Inode.Truncate.{free_direct, free_indirect, itrunc}
use xv6_fork.Inode.Truncate.Freed.{AreBlocks, Freed, Freed-none}
use xv6_fork.Inode.Truncate.Frees.{Cleared, Cleared-none, free_direct-Freed, free_indirect-Freed}

-- What itrunc leaves of an inode.
pub record Empties (ip : Inode) (fs : Fs) (ip' : Inode) (fs' : Fs) : Type 0 where
  pub inode : IsInode ip' fs'
  pub blocks : fs'.size ≡ fs.size
  pub inum : ip'.inum ≡ ip.inum
  pub type : ip'.type ≡ ip.type
  pub nlink : ip'.nlink ≡ ip.nlink
  pub size : ip'.size ≡ 0
  pub slots : (i : ℕ) → i < 141 → slot ip' fs' i ≡ 0
  pub freed : (i : ℕ) → i < 141 → slot ip fs i ≢ 0 → used fs' (slot ip fs i) ≡ false
  pub kept :
      (y : ℕ)
      → y < fs.size
      → ((i : ℕ) → i < 141 → slot ip fs i ≢ 0 → slot ip fs i ≢ y)
      → used fs' y ≡ used fs y
  pub same :
      (b i : ℕ)
      → ((y : ℕ) → y < fs.size → bblock y fs ≢ b)
      → iblock ip.inum fs ≢ b
      → fs'.block b i ≡ fs.block b i

-- The slot that itrunc frees as number `k`.
abbrev place : ℕ → ℕ
place k = if ltb k 12 then k else (if ltb k 140 then k + 1 else 12)

abbrev turn : ℕ → ℕ
turn i = if ltb i 12 then i else (if i == 12 then 140 else i - 1)

place_lt : (k : ℕ) → k < 141 → place k < 141
place_lt k lt = ground arith

turn_lt : (i : ℕ) → i < 141 → turn i < 141
turn_lt i lt = ground arith

place-turn : (i : ℕ) → i < 141 → place (turn i) ≡ i
place-turn i lt = ground arith

place_distinct : (i k : ℕ) → i < 141 → k < 141 → place i ≡ place k → i ≡ k
place_distinct i k li lk e = ground arith

itrunc_steps :
    (ip : Inode) (fs : Fs) (ip1 : Inode) (fs1 : Fs) (ip2 : Inode) (fs2 : Fs)
    → free_direct 12 0 ip fs ≡ some (ip1, fs1)
    → free_indirect ip1 fs1 ≡ some (ip2, fs2)
    → itrunc ip fs ≡ some (record ip2 { size = 0 }, iupdate (record ip2 { size = 0 }) fs2)
unfolding itrunc
itrunc_steps ip fs ip1 fs1 ip2 fs2 q r = rw (itrunc, q, r) refl

module _ (ip : Inode) (fs : Fs) (h : IsInode ip fs) where
  abbrev block_of : ℕ → ℕ
  block_of k = slot ip fs (place k)

  owned : AreBlocks fs block_of
  owned = record {
    bytes = h.bytes;
    inside = λ k lt nz. (h.owns (place k) (place_lt k lt) nz).inside;
    marked = λ k lt nz. (h.owns (place k) (place_lt k lt) nz).marked;
    unmapped = λ k y lt nz l. (h.owns (place k) (place_lt k lt) nz).unmapped y l;
    apart = λ i k li lk nz e.
        place_distinct i k li lk (h.apart (place i) (place k) (place_lt i li) (place_lt k lk) nz e);
  }

  directs : (k : ℕ) → k < 12 → block_of k ≡ ip.addrs k
  directs k lt =
      let e : place k ≡ k = ground arith in ap (slot ip fs) e ∙ slot_direct ip fs k (omega arith)

  words : ip.addrs 12 ≢ 0 → (j : ℕ) → j < 128 → block_of (12 + j) ≡ uint_at fs (ip.addrs 12) j
  words nz j lt =
      let e : place (12 + j) ≡ 13 + j = ground arith in
      let f : 13 + j - 13 ≡ j = omega arith in
      ap (slot ip fs) e
      ∙ slot_beyond ip fs (13 + j) (omega arith) nz
      ∙ ap (uint_at fs (ip.addrs 12)) f

  last : block_of 140 ≡ ip.addrs 12
  last = slot_direct ip fs 12 (omega arith)

  absent : ip.addrs 12 ≡ 0 → (k : ℕ) → 12 ≤ k → k < 141 → block_of k ≡ 0
  absent z k le lt = elim (Bool-cases (ltb k 140)) [
    | inl low ↦
        let e : place k ≡ k + 1 = ground arith in
        ap (slot ip fs) e ∙ slot_none ip fs (k + 1) (omega arith) z
    | inr high ↦
        let e : place k ≡ 12 = ground arith in
        ap (slot ip fs) e ∙ slot_direct ip fs 12 (omega arith) ∙ z
  ]

  clear : (y : ℕ) → y < fs.size → ip.addrs 12 ≢ 0 → bblock y fs ≢ ip.addrs 12
  clear y lt nz e = (h.owns 12 (omega arith) (λ z. nz (sym last ∙ z))).unmapped y lt (e ∙ sym last)

  module _ (ip' : Inode) (fs' : Fs) (c : Cleared ip 13 ip') (f : Freed fs block_of 141 fs') where
    abbrev emptied : Inode
    emptied = record ip' { size = 0 }

    same_bblock : (y : ℕ) → bblock y fs' ≡ bblock y fs
    same_bblock y = ap (λ s. y / 4096 + s) f.bmapstart

    same_home : iblock emptied.inum fs' ≡ iblock ip.inum fs
    same_home = ap (λ n. n / 8 + fs'.inodestart) c.inum ∙ ap (λ s. ip.inum / 8 + s) f.inodestart

    no_slot : (i : ℕ) → slot emptied fs' i ≡ 0
    no_slot i = elim (Bool-cases (leb i 12)) [
      | inl low ↦ let le = leb→le i 12 low in slot_direct emptied fs' i le ∙ c.zeros i (omega arith)
      | inr high ↦ slot_none emptied fs' i (ground arith) (c.zeros 12 (omega arith))
    ]

    still_used :
        (y : ℕ)
        → ((k : ℕ) → k < 141 → block_of k ≢ 0 → block_of k ≢ y)
        → used fs y ≡ true
        → used fs' y ≡ true
    still_used y apart u = f.kept y apart ∙ u

    emptied-IsInode : IsInode emptied fs'
    emptied-IsInode = record {
      bytes = f.bytes;
      mapped = λ y lt.
          let m = h.mapped y (omega (arith, f.size)) in
          (
            omega (arith, same_bblock y, f.size, m.0),
            ap (used fs') (same_bblock y)
                ∙ still_used (bblock y fs)
                    (λ k l nz e. owned.unmapped k y l nz (omega (arith, f.size)) (sym e)) m.1,
          );
      words = omega (arith, f.size, h.words);
      boot = still_used 0 (λ k l nz. nz) h.boot;
      home_inside = omega (arith, f.size, same_home, h.home_inside);
      home_marked =
          ap (used fs') same_home
          ∙ still_used (iblock ip.inum fs)
              (λ k l nz e. (h.owns (place k) (place_lt k l) nz).foreign (sym e)) h.home_marked;
      home_unmapped =
          λ y lt e. h.home_unmapped y (omega (arith, f.size)) (sym (same_bblock y) ∙ e ∙ same_home);
      owns = λ i lt nz. absurd (nz (no_slot i));
      apart = λ i j li lj nz e. absurd (nz (no_slot i));
    }

    written : Edits fs' (iblock emptied.inum fs') (iupdate emptied fs')
    written = iupdate-Edits emptied fs' f.bytes

    emptied-slots : (i : ℕ) → slot emptied (iupdate emptied fs') i ≡ 0
    emptied-slots i = elim (Bool-cases (leb i 12)) [
      | inl low ↦
          let le = leb→le i 12 low in
          slot_direct emptied (iupdate emptied fs') i le ∙ c.zeros i (omega arith)
      | inr high ↦
          slot_none emptied (iupdate emptied fs') i (ground arith) (c.zeros 12 (omega arith))
    ]

    emptied-Empties : Empties ip fs emptied (iupdate emptied fs')
    emptied-Empties = record {
      inode = iupdate-IsInode emptied fs' emptied-IsInode;
      blocks = written.size ∙ f.size;
      inum = c.inum;
      type = c.type;
      nlink = c.nlink;
      size = refl;
      slots = λ i lt. emptied-slots i;
      freed = λ i lt nz.
          let e = ap (slot ip fs) (place-turn i lt) in
          iupdate-used emptied fs' emptied-IsInode (slot ip fs i)
            (omega (arith, f.size, (h.owns i lt nz).inside))
          ∙ subst (λ b. used fs' b ≡ false) e
              (f.freed (turn i) (turn_lt i lt) (λ z. nz (sym e ∙ z)));
      kept = λ y lt apart.
          iupdate-used emptied fs' emptied-IsInode y (omega (arith, f.size))
          ∙ f.kept y (λ k l nz. apart (place k) (place_lt k l) nz);
      same = λ b i off home. written.far b i (λ e. home (sym same_home ∙ e)) ∙ f.same b i off;
    }

  -- itrunc of an inode whose blocks are its own does not panic. Every block of the file, and its
  -- indirect block, is free afterwards; the bitmap is unchanged for all other blocks, and the bytes of
  -- all blocks but those of the bitmap and the one with the inode. The inode keeps its number, type
  -- and links, has no blocks and size 0, and is well-formed.
  pub itrunc-Empties :
      (ip' : Inode) × (fs' : Fs) × (itrunc ip fs ≡ some (ip', fs')) × Empties ip fs ip' fs'
  itrunc-Empties =
      let (ip1, fs1, q, c1, f1) =
        free_direct-Freed owned ip directs 12 0 ip fs (omega arith) (Cleared-none ip)
          (Freed-none fs block_of h.bytes) in
      let (ip2, fs2, r, c2, f2) =
        free_indirect-Freed owned ip directs clear words absent last ip1 fs1 c1 f1 in
      (
        record ip2 { size = 0 },
        iupdate (record ip2 { size = 0 }) fs2,
        itrunc_steps ip fs ip1 fs1 ip2 fs2 q r,
        emptied-Empties ip2 fs2 c2 f2,
      )
