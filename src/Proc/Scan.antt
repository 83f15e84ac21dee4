-- ===== src/Proc/Scan.antt =====
-- The scans of proc.c over the table, and the operations that create and remove a process.
use xv6_fork.Prelude.{
  ℕ, zero, suc, ◌+◌, ◌≤◌, ◌<◌, ◌≡◌, refl, ◌⊎◌, inl, inr, Bool-cases, arith, Bool, true, false,
  Option, none, some,
}
use native.Mathlib.Decide.{ℕ_discrete}
use xv6_fork.Proc.{Proc, is_unused, is_zombie, is_parent, find_unused, scan_children}

-- find_unused finds an unused entry.
pub find_unused-hit :
    (k i e : ℕ) (procs : ℕ → Proc)
    → find_unused k i procs ≡ some e
    → (e < i + k) × (is_unused (procs e).state ≡ true)
unfolding find_unused
find_unused-hit zero i e procs h = absurd (ground arith)
find_unused-hit (suc k) i e procs h = elim (Bool-cases (is_unused (procs i).state)) [
  | inl free ↦ let q : i ≡ e = ground arith in (omega arith, rw (← q) free)
  | inr taken ↦
      let r = find_unused-hit k (suc i) e procs (rw taken at h) in (omega (arith, r.0), r.1)
]

-- What a scan of wait found from `i` on.
abbrev pub Found : (ℕ → Proc) → ℕ → ℕ → ℕ → Bool → Option ℕ × Bool → Type 0
Found procs cur i k seen (some e, b) =
    (e < i + k) × (is_parent (procs e).parent cur ≡ true) × (is_zombie (procs e).state ≡ true)
Found procs cur i k seen (none, b) =
    ((e : ℕ)
      → i ≤ e
      → e < i + k
      → is_parent (procs e).parent cur ≡ true
      → (is_zombie (procs e).state ≡ false) × (b ≡ true))
    × (seen ≡ true → b ≡ true)
    × (b ≡ true
        → (seen ≡ true)
          ⊎ ((e : ℕ) × (i ≤ e) × (e < i + k) × (is_parent (procs e).parent cur ≡ true)))

-- A process that is not a child of `cur` is passed over.
Found-skip :
    (procs : ℕ → Proc) (cur i k : ℕ) (seen : Bool) (r : Option ℕ × Bool)
    → is_parent (procs i).parent cur ≡ false
    → Found procs cur (suc i) k seen r
    → Found procs cur i (suc k) seen r
Found-skip procs cur i k seen (some e, b) foreign f = (omega (arith, f.0), f.1, f.2)
Found-skip procs cur i k seen (none, b) foreign f = (
  (λ e lo hi mine. elim (ℕ_discrete i e) [
    | yes q ↦ let no_child = rw q at foreign in absurd (cc)
    | no ne ↦ f.0 e (omega arith) (omega arith) mine
  ]),
  f.1,
  (λ s. elim (f.2 s) [
    | inl old ↦ inl old
    | inr (e, lo, hi, mine) ↦ inr (e, omega arith, omega arith, mine)
  ]),
)

-- A child that is not a zombie has been seen.
Found-seen :
    (procs : ℕ → Proc) (cur i k : ℕ) (seen : Bool) (r : Option ℕ × Bool)
    → is_parent (procs i).parent cur ≡ true
    → is_zombie (procs i).state ≡ false
    → Found procs cur (suc i) k true r
    → Found procs cur i (suc k) seen r
Found-seen procs cur i k seen (some e, b) child alive f = (omega (arith, f.0), f.1, f.2)
Found-seen procs cur i k seen (none, b) child alive f = (
  (λ e lo hi mine. elim (ℕ_discrete i e) [
    | yes q ↦ (rw q at alive, f.1 refl)
    | no ne ↦ f.0 e (omega arith) (omega arith) mine
  ]),
  (λ s. f.1 refl),
  (λ s. inr (i, omega arith, omega arith, child)),
)

pub scan_children-Found :
    (k i cur : ℕ) (seen : Bool) (procs : ℕ → Proc)
    → Found procs cur i k seen (scan_children k i cur seen procs)
unfolding scan_children
scan_children-Found zero i cur seen procs =
    ((λ e lo hi. absurd (omega arith)), (λ s. s), (λ s. inl s))
scan_children-Found (suc k) i cur seen procs = elim (Bool-cases (is_parent (procs i).parent cur)) [
  | inr foreign ↦
      rw foreign
        (Found-skip procs cur i k seen _ foreign (scan_children-Found k (suc i) cur seen procs))
  | inl mine ↦ elim (Bool-cases (is_zombie (procs i).state)) [
    | inl dead ↦ rw (mine, dead) (omega arith, mine, dead)
    | inr alive ↦
        rw (mine, alive)
          (Found-seen procs cur i k seen _ mine alive
            (scan_children-Found k (suc i) cur true procs))
  ]
]
