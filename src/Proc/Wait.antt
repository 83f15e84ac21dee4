-- ===== src/Proc/Wait.antt =====
-- wait of proc.c: which child it frees, and when it returns -1 or sleeps.
use xv6_fork.Prelude.{
  ℕ, ◌+◌, ◌≤◌, ◌<◌, ◌≡◌, refl, sym, ◌≢◌, ◌⊎◌, inl, inr, Bool-cases, arith, Bool, true, false, not,
  ◌||◌, Option, none, some, List, [], ◌∷◌, if◌then◌else◌,
}
use mathlib.Core.Path.{subst}
use xv6_fork.Proc.{
  ProcState, at_proc, Table, Call, nproc, is_unused, is_zombie, is_parent, kfree, freevm,
  WaitOutcome, reaped, no_children, wait_asleep, scan_children, reap, sleep, wait,
}
use xv6_fork.Proc.Same.{is_live, IsTable, sleep-IsTable}
use xv6_fork.Proc.Family.{drop-IsTable}
use xv6_fork.Proc.Scan.{Found, scan_children-Found}

-- The entry is a child of `cur`.
abbrev pub is_child : ℕ → Table → ℕ → Bool
is_child cur t i = is_parent (t.procs i).parent cur

-- What a pass of wait by `cur` amounts to.
abbrev pub Waits : ℕ → Table → WaitOutcome × Table × List Call → Type 0
Waits cur t (reaped pid, u, calls) =
    (i : ℕ) × (i < nproc)
    × (is_child cur t i ≡ true)
    × (is_zombie (t.procs i).state ≡ true)
    × (pid ≡ (t.procs i).pid)
    × (is_unused (u.procs i).state ≡ true)
    × ((j : ℕ) → i ≢ j → u.procs j ≡ t.procs j)
    × (calls ≡ kfree (t.procs i).kstack ∷ freevm (t.procs i).pgdir ∷ [])
Waits cur t (no_children, u, calls) =
    (u ≡ t)
    × (calls ≡ [])
    × (((t.procs cur).killed ≡ true) ⊎ ((i : ℕ) → i < nproc → is_child cur t i ≡ false))
    × ((i : ℕ) → i < nproc → is_child cur t i ≡ true → is_zombie (t.procs i).state ≡ false)
Waits cur t (wait_asleep, u, calls) =
    (u ≡ sleep cur (at_proc cur) t)
    × (calls ≡ [])
    × ((t.procs cur).killed ≡ false)
    × ((i : ℕ) × (i < nproc) × (is_child cur t i ≡ true))
    × ((i : ℕ) → i < nproc → is_child cur t i ≡ true → is_zombie (t.procs i).state ≡ false)

module _ (cur : ℕ) (t : Table) (h : IsTable t) (l : is_live (t.procs cur).state ≡ true) where
  abbrev after : Option ℕ × Bool → WaitOutcome × Table × List Call
  after r = elim r.0 [
    | some i ↦
        (reaped (t.procs i).pid, reap i t, kfree (t.procs i).kstack ∷ freevm (t.procs i).pgdir ∷ [])
    | none ↦
        if not r.1 || (t.procs cur).killed
        then (no_children, t, [])
        else (wait_asleep, sleep cur (at_proc cur) t, [])
  ]

  wait-after : wait cur t ≡ after (scan_children nproc 0 cur false t.procs)
  unfolding wait
  wait-after = refl

  reap-unused : (i : ℕ) → is_unused ((reap i t).procs i).state ≡ true
  reap-unused i = ground arith

  reap-other : (i j : ℕ) → i ≢ j → (reap i t).procs j ≡ t.procs j
  reap-other i j ne = ground arith

  zombie-dead : (s : ProcState) → is_zombie s ≡ true → is_live s ≡ false
  zombie-dead s e = ground arith

  reap-IsTable : (i : ℕ) → is_zombie (t.procs i).state ≡ true → IsTable (reap i t)
  reap-IsTable i dead =
      drop-IsTable t (reap i t) i (record { other = reap-other i; init = refl; pids = omega arith })
        h (zombie-dead (t.procs i).state dead) (reap-unused i)

  Good : WaitOutcome × Table × List Call → Type 0
  Good r = IsTable r.1 × Waits cur t r

  after-Good : (r : Option ℕ × Bool) → Found t.procs cur 0 nproc false r → Good (after r)
  unfolding Good
  after-Good (some i, b) f = (
    reap-IsTable i f.2,
    (i, omega (arith, f.0), f.1, f.2, refl, reap-unused i, reap-other i, refl),
  )
  after-Good (none, b) f = elim (Bool-cases b) [
    | inr none_seen ↦ rw none_seen (
      h,
      (
        refl,
        refl,
        inr (λ i lt. elim (Bool-cases (is_child cur t i)) [
          | inr foreign ↦ foreign
          | inl mine ↦ let seen = (f.0 i (omega arith) (omega arith) mine).1 in absurd (cc)
        ]),
        (λ i lt mine. (f.0 i (omega arith) (omega arith) mine).0),
      ),
    )
    | inl some_seen ↦ elim (Bool-cases (t.procs cur).killed) [
      | inl killed ↦
          rw (some_seen, killed)
            (h, (refl, refl, inl killed, (λ i lt mine. (f.0 i (omega arith) (omega arith) mine).0)))
      | inr spared ↦
          rw (some_seen, spared)
            (
              sleep-IsTable cur (at_proc cur) t l h,
              (
                refl,
                refl,
                spared,
                seen_child (f.2 some_seen),
                (λ i lt mine. (f.0 i (omega arith) (omega arith) mine).0),
              ),
            )
    ]
  ]
    where
      seen_child :
          (false ≡ true) ⊎ ((e : ℕ) × (0 ≤ e) × (e < 0 + nproc) × (is_child cur t e ≡ true))
          → (e : ℕ) × (e < nproc) × (is_child cur t e ≡ true)
      seen_child (inl never) = absurd (cc)
      seen_child (inr (e, lo, hi, mine)) = (e, omega arith, mine)

-- A pass of wait by a live process keeps the invariant of the table. It frees a child that is a zombie
-- if there is one, returns that child's pid and gives its stack and memory back; it returns -1 only if
-- no child is a zombie and the process is killed or has no child; and otherwise it sleeps on itself.
pub wait-Waits :
    (cur : ℕ) (t : Table)
    → IsTable t
    → is_live (t.procs cur).state ≡ true
    → IsTable (wait cur t).1 × Waits cur t (wait cur t)
unfolding Good
wait-Waits cur t h l =
    subst (Good cur t h l) (sym (wait-after cur t h l))
      (after-Good cur t h l _ (scan_children-Found nproc 0 cur false t.procs))
