-- ===== src/Fs/Taking.antt =====
-- balloc of fs.c: which block it hands out, and what stays.
use xv6_fork.Prelude.{
  ℕ, ◌+◌, ◌/◌, ◌%◌, ◌^◌, ◌<◌, ◌≡◌, ◌≢◌, refl, ap, ◌∙◌, ◌⊎◌, inl, inr, Option-cases, arith, true,
  Option, none, some, if◌then◌else◌, ◌==◌,
}
use mathlib.Core.Path.{subst}
use xv6_fork.Fs.{
  Fs, bpb, bblock, write_byte, bzero, has_bit, set_bit, clear_bit, scan_groups, balloc, bfree,
}
use xv6_fork.Fs.Bitmap.{used, IsBytes, used-set_bit, set_bit-IsBytes}
use xv6_fork.Fs.Scan.{AllUsed, IsFirst, InGroups, scan_groups-InGroups}

-- The blocks of the bitmap lie in the file system and are marked used.
abbrev pub IsMapped : Fs → Type 0
IsMapped fs = (y : ℕ) → y < fs.size → (bblock y fs < fs.size) × (used fs (bblock y fs) ≡ true)

-- What balloc does when it returns `x`.
pub record Takes (fs : Fs) (x : ℕ) (after : Fs) : Type 0 where
  pub first : IsFirst fs 0 x
  pub size : after.size ≡ fs.size
  pub bmapstart : after.bmapstart ≡ fs.bmapstart
  pub inodestart : after.inodestart ≡ fs.inodestart
  pub marks : (y : ℕ) → y < fs.size → used after y ≡ (if x == y then true else used fs y)
  pub zeroed : (i : ℕ) → i < 512 → after.block x i ≡ 0
  pub keeps : (k i : ℕ) → k ≢ x → k ≢ bblock x fs → after.block k i ≡ fs.block k i
  pub bytes : IsBytes after

used-bzero : (fs : Fs) (x y : ℕ) → bblock y fs ≢ x → used (bzero x fs) y ≡ used fs y
unfolding bzero
used-bzero fs x y ne =
    let same : (bzero x fs).block (bblock y fs) (y % bpb / 8)
        ≡ fs.block (bblock y fs) (y % bpb / 8) =
      ground arith in
    ap (λ z. has_bit z (y % bpb % 8)) same

set_bit_at :
    (fs : Fs) (b bi : ℕ)
    → b % bpb ≡ 0
    → bi < bpb
    → set_bit b bi fs ≡ set_bit (b + bi) ((b + bi) % bpb) fs
set_bit_at fs b bi e lt =
    let group : bblock b fs ≡ bblock (b + bi) fs = omega arith in
    let offset : bi ≡ (b + bi) % bpb = omega arith in
    ap (λ k. marked k bi) group ∙ ap (marked (bblock (b + bi) fs)) offset
  where
    marked : ℕ → ℕ → Fs
    marked k o = record fs {
      block = write_byte fs.block k (o / 8) (fs.block k (o / 8) + 2 ^ (o % 8));
    }

set_bit_keeps :
    (fs : Fs) (x k i : ℕ) → k ≢ bblock x fs → (set_bit x (x % bpb) fs).block k i ≡ fs.block k i
set_bit_keeps fs x k i ne = ground arith

taken-Takes :
    (fs : Fs) (x : ℕ)
    → IsBytes fs
    → IsMapped fs
    → IsFirst fs 0 x
    → Takes fs x (bzero x (set_bit x (x % bpb) fs))
unfolding bzero
taken-Takes fs x bytes mapped f = record {
  first = f;
  size = refl;
  bmapstart = refl;
  inodestart = refl;
  marks = λ y ly.
      used-bzero (set_bit x (x % bpb) fs) x y (unmapped y ly) ∙ used-set_bit fs bytes x f.free y;
  zeroed = λ i lt. ground arith;
  keeps = λ k i ne nb. ground (arith, set_bit_keeps fs x k i nb);
  bytes = λ k i. ground (arith, set_bit-IsBytes fs bytes x f.free k i);
}
  where
    unmapped : (y : ℕ) → y < fs.size → bblock y fs ≢ x
    unmapped y ly e =
        let u = subst (λ k. used fs k ≡ true) e (mapped y ly).1 in let free = f.free in absurd (cc)

balloc-found :
    (fs : Fs) (b bi : ℕ)
    → scan_groups (fs.size / bpb + 1) 0 fs ≡ some (b, bi)
    → balloc fs ≡ some (b + bi, bzero (b + bi) (set_bit b bi fs))
unfolding balloc
balloc-found fs b bi e = rw (e, balloc) refl

balloc-missed : (fs : Fs) → scan_groups (fs.size / bpb + 1) 0 fs ≡ none → balloc fs ≡ none
unfolding balloc
balloc-missed fs e = rw (e, balloc) refl

found-inside :
    (fs : Fs) (r : Option (ℕ × ℕ)) (b bi : ℕ)
    → r ≡ some (b, bi)
    → InGroups fs 0 (fs.size / bpb + 1) r
    → (b % bpb ≡ 0) × (bi < bpb) × IsFirst fs 0 (b + bi)
found-inside fs none b bi e h = absurd (cc)
found-inside fs (some (c, j)) b bi e h =
    subst (λ p. (p.0 % bpb ≡ 0) × (p.1 < bpb) × IsFirst fs 0 (p.0 + p.1)) (some-pair e) h
  where
    some-pair : {p q : ℕ × ℕ} → some p ≡ some q → p ≡ q
    some-pair {p} s = ap (λ r. elim r [ none ↦ p | some z ↦ z ]) s

missed-full :
    (fs : Fs) (r : Option (ℕ × ℕ))
    → r ≡ none
    → InGroups fs 0 (fs.size / bpb + 1) r
    → AllUsed fs 0 fs.size
missed-full fs none e h = λ x le lt ls. h x le (omega arith) ls
missed-full fs (some p) e h = absurd (cc)

-- balloc takes the first free block, marks it and zeroes it; it panics only if all are used.
pub balloc-Takes :
    (fs : Fs)
    → IsBytes fs
    → IsMapped fs
    → ((x : ℕ) × (after : Fs) × (balloc fs ≡ some (x, after)) × Takes fs x after)
      ⊎ (balloc fs ≡ none) × AllUsed fs 0 fs.size
balloc-Takes fs bytes mapped =
    let searched = scan_groups-InGroups fs (fs.size / bpb + 1) 0 (omega arith) in
    elim (Option-cases (scan_groups (fs.size / bpb + 1) 0 fs)) [
      | inl e ↦ inr (balloc-missed fs e, missed-full fs _ e searched)
      | inr ((b, bi), e) ↦
          let (group, lt, first) = found-inside fs _ b bi e searched in
          inl (
            b + bi,
            bzero (b + bi) (set_bit (b + bi) ((b + bi) % bpb) fs),
            balloc-found fs b bi e
                ∙ ap (λ m. some (b + bi, bzero (b + bi) m)) (set_bit_at fs b bi group lt),
            taken-Takes fs (b + bi) bytes mapped first,
          )
    ]

pub bfree-used : (fs : Fs) (x : ℕ) → used fs x ≡ true → bfree x fs ≡ some (clear_bit x (x % bpb) fs)
unfolding bfree
bfree-used fs x u = rw u refl
