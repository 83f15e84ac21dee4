-- ===== src/Fs/Scan.antt =====
-- The search of balloc for a free block.
use xv6_fork.Prelude.{
  ℕ, zero, suc, ◌+◌, ◌*◌, ◌/◌, ◌%◌, ◌≤◌, ◌<◌, ◌≡◌, ap, ◌∙◌, inl, inr, Bool-cases, arith, true,
  false, Option, none, some, ltb,
}
use mathlib.Core.Path.{subst}
use native.Mathlib.Decide.{ℕ_discrete}
use xv6_fork.Fs.{Fs, bpb, bblock, has_bit, test_bit, scan_group, scan_groups}
use xv6_fork.Fs.Bitmap.{used}

used_at : (fs : Fs) (b bi : ℕ) → b % bpb ≡ 0 → bi < bpb → used fs (b + bi) ≡ test_bit b bi fs
used_at fs b bi e lt =
    let offset : (b + bi) % bpb ≡ bi = omega arith in
    let group : bblock (b + bi) fs ≡ bblock b fs = omega arith in
    ap (λ o. has_bit (fs.block (bblock (b + bi) fs) (o / 8)) (o % 8)) offset
    ∙ ap (λ k. has_bit (fs.block k (bi / 8)) (bi % 8)) group

-- The blocks from `lo` to below `hi`, and of the file system, are used.
abbrev pub AllUsed : Fs → ℕ → ℕ → Type 0
AllUsed fs lo hi = (x : ℕ) → lo ≤ x → x < hi → x < fs.size → used fs x ≡ true

-- `x` is the first free block from `lo` on.
pub record IsFirst (fs : Fs) (lo x : ℕ) : Type 0 where
  pub low : lo ≤ x
  pub inside : x < fs.size
  pub free : used fs x ≡ false
  pub before : AllUsed fs lo x

AllUsed-step : (fs : Fs) (lo hi : ℕ) → used fs lo ≡ true → AllUsed fs (suc lo) hi → AllUsed fs lo hi
AllUsed-step fs lo hi u h x le lt ls = elim (ℕ_discrete lo x) [
  | yes e ↦ subst (λ y. used fs y ≡ true) e u
  | no ne ↦ h x (omega arith) lt ls
]

abbrev InGroup : Fs → ℕ → ℕ → ℕ → Option ℕ → Type 0
InGroup fs b bi k none = AllUsed fs (b + bi) (b + bi + k)
InGroup fs b bi k (some j) = (j < bi + k) × IsFirst fs (b + bi) (b + j)

next-InGroup :
    (fs : Fs) (b bi k : ℕ) (r : Option ℕ)
    → used fs (b + bi) ≡ true
    → InGroup fs b (bi + 1) k r
    → InGroup fs b bi (suc k) r
next-InGroup fs b bi k none u h = λ x le lt ls. elim (ℕ_discrete (b + bi) x) [
  | yes e ↦ subst (λ y. used fs y ≡ true) e u
  | no ne ↦ h x (omega arith) (omega arith) ls
]
next-InGroup fs b bi k (some j) u h = (
  omega (arith, h.0),
  record {
    low = omega (arith, h.1.low);
    inside = h.1.inside;
    free = h.1.free;
    before = λ x le lt ls. elim (ℕ_discrete (b + bi) x) [
      | yes e ↦ subst (λ y. used fs y ≡ true) e u
      | no ne ↦ h.1.before x (omega arith) lt ls
    ];
  },
)

scan_group-InGroup :
    (fs : Fs) (k b bi : ℕ) → b % bpb ≡ 0 → bi + k ≤ bpb → InGroup fs b bi k (scan_group k b bi fs)
unfolding scan_group
scan_group-InGroup fs zero b bi e fit = λ x le lt ls. absurd (omega arith)
scan_group-InGroup fs (suc k) b bi e fit = elim (Bool-cases (ltb (b + bi) fs.size)) [
  | inr out ↦
      let past : fs.size ≤ b + bi = ground arith in rw out (λ x le lt ls. absurd (omega arith))
  | inl within ↦
      let same = used_at fs b bi e (omega arith) in
      elim (Bool-cases (test_bit b bi fs)) [
        | inr free ↦
            rw (within, free)
              (
                omega arith,
                record {
                  low = omega arith;
                  inside = ground arith;
                  free = same ∙ free;
                  before = λ x le lt ls. absurd (omega arith);
                },
              )
        | inl taken ↦
            rw (within, taken)
              (next-InGroup fs b bi k (scan_group k b (bi + 1) fs) (same ∙ taken)
                (scan_group-InGroup fs k b (bi + 1) e (omega arith)))
      ]
]

-- What the search from group `b` on over `g` groups comes to.
abbrev pub InGroups : Fs → ℕ → ℕ → Option (ℕ × ℕ) → Type 0
InGroups fs b g none = AllUsed fs b (b + g * bpb)
InGroups fs b g (some (c, j)) = (c % bpb ≡ 0) × (j < bpb) × IsFirst fs b (c + j)

join-used : (fs : Fs) (lo mid hi : ℕ) → AllUsed fs lo mid → AllUsed fs mid hi → AllUsed fs lo hi
join-used fs lo mid hi h k x le lt ls = elim (Bool-cases (ltb x mid)) [
  | inl below ↦ h x le (ground arith) ls
  | inr above ↦ k x (ground arith) lt ls
]

next-InGroups :
    (fs : Fs) (b g : ℕ) (r : Option (ℕ × ℕ))
    → AllUsed fs b (b + bpb)
    → InGroups fs (b + bpb) g r
    → InGroups fs b (suc g) r
next-InGroups fs b g none u h = join-used fs b (b + bpb) _ u (λ x le lt ls. h x le (omega arith) ls)
next-InGroups fs b g (some (c, j)) u h = (
  h.0,
  h.1,
  record {
    low = omega (arith, h.2.low);
    inside = h.2.inside;
    free = h.2.free;
    before = join-used fs b (b + bpb) (c + j) u h.2.before;
  },
)

found-InGroups :
    (fs : Fs) (b g : ℕ) (r : Option ℕ) (rest : Option (ℕ × ℕ))
    → b % bpb ≡ 0
    → InGroup fs b 0 bpb r
    → InGroups fs (b + bpb) g rest
    → InGroups fs b (suc g) (elim r [ none ↦ rest | some bi ↦ some (b, bi) ])
found-InGroups fs b g none rest e h k =
    next-InGroups fs b g rest (λ x le lt ls. h x (omega arith) (omega arith) ls) k
found-InGroups fs b g (some j) rest e h k = (
  e,
  omega (arith, h.0),
  record {
    low = omega (arith, h.1.low);
    inside = h.1.inside;
    free = h.1.free;
    before = λ x le lt ls. h.1.before x (omega arith) lt ls;
  },
)

pub scan_groups-InGroups : (fs : Fs) (g b : ℕ) → b % bpb ≡ 0 → InGroups fs b g (scan_groups g b fs)
unfolding scan_groups
scan_groups-InGroups fs zero b e = λ x le lt ls. absurd (omega arith)
scan_groups-InGroups fs (suc g) b e = elim (Bool-cases (ltb b fs.size)) [
  | inr out ↦ let past : fs.size ≤ b = ground arith in rw out (λ x le lt ls. absurd (omega arith))
  | inl within ↦ rw within (
      found-InGroups fs b g (scan_group bpb b 0 fs) (scan_groups g (b + bpb) fs) e
        (scan_group-InGroup fs bpb b 0 e (omega arith))
        (scan_groups-InGroups fs g (b + bpb) (omega arith)))
]
