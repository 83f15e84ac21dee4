-- ===== src/Proc/Fork.antt =====
-- fork of proc.c: the child that it makes, and what it leaves behind where it fails.
use xv6_fork.Prelude.{
  ℕ, ◌+◌, ◌<◌, ◌≡◌, refl, sym, ap, ◌∙◌, ◌≢◌, ◌⊎◌, inl, inr, Option-cases, arith, true, false,
  Option, none, some, List, [], ◌∷◌, ◌++◌, ◌==◌,
}
use mathlib.Core.Path.{subst}
use native.Mathlib.Decide.{ℕ_discrete}
use xv6_fork.Proc.{
  ProcState, embryo, runnable, Proc, Table, Call, nproc, is_unused, put, find_unused, claim,
  unclaim, allocproc, fork_into, fork, kfree, dup_calls, idup, give_up, dup_files,
}
use xv6_fork.Proc.Same.{is_live, IsTable}
use xv6_fork.Proc.Family.{differs, unused-dead, still_live, OneEntry, add-IsTable, drop-IsTable}
use xv6_fork.Proc.Scan.{find_unused-hit}

-- The process that fork makes in entry `i`.
abbrev pub child : ℕ → ℕ → ℕ → ℕ → Table → Proc
child cur i kstack pgdir t = record {
  sz = (t.procs cur).sz;
  pgdir = pgdir;
  kstack = kstack;
  state = runnable;
  pid = t.nextpid;
  parent = some cur;
  chan = (t.procs i).chan;
  killed = (t.procs i).killed;
  ofile = dup_files (t.procs cur).ofile (t.procs i).ofile;
  cwd = (t.procs cur).cwd;
}

-- What a fork by `cur` amounts to: nothing but used up pids, or one more process.
abbrev pub Forks : ℕ → ℕ → ℕ → Table → Option ℕ × Table × List Call → Type 0
Forks cur kstack pgdir t (none, u, calls) =
    ((j : ℕ) → is_unused (t.procs j).state ≡ false → u.procs j ≡ t.procs j)
    × ((j : ℕ) → is_unused (t.procs j).state ≡ true → is_unused (u.procs j).state ≡ true)
    × ((find_unused nproc 0 t.procs ≡ none) × (calls ≡ [])
        ⊎ (kstack ≡ 0) × (calls ≡ [])
        ⊎ (pgdir ≡ 0) × (calls ≡ kfree kstack ∷ []))
Forks cur kstack pgdir t (some pid, u, calls) =
    (i : ℕ) × (i < nproc)
    × (is_unused (t.procs i).state ≡ true)
    × (u.procs i ≡ child cur i kstack pgdir t)
    × ((j : ℕ) → i ≢ j → u.procs j ≡ t.procs j)
    × (pid ≡ t.nextpid)
    × (calls ≡ dup_calls (t.procs cur).ofile ++ idup (t.procs cur).cwd ∷ [])

module _ (cur kstack pgdir : ℕ) (t : Table) where
  abbrev after : Option ℕ × Table → Option ℕ × Table × List Call
  after r = elim r.0 [ none ↦ (none, r.1, []) | some i ↦ fork_into cur pgdir i r.1 ]

  fork-failed :
      (u : Table) → allocproc kstack t ≡ (none, u) → fork cur kstack pgdir t ≡ (none, u, [])
  unfolding fork
  fork-failed u e = ap after e

  fork-given :
      (i : ℕ) (u : Table)
      → allocproc kstack t ≡ (some i, u)
      → fork cur kstack pgdir t ≡ fork_into cur pgdir i u
  unfolding fork
  fork-given i u e = ap after e

  allocproc-full : find_unused nproc 0 t.procs ≡ none → allocproc kstack t ≡ (none, t)
  unfolding allocproc
  allocproc-full e = rw (e, allocproc) refl

  module _ (i : ℕ) where
    allocproc-no_stack :
        find_unused nproc 0 t.procs ≡ some i
        → kstack ≡ 0
        → allocproc kstack t ≡ (none, unclaim (claim t i 0) i)
    unfolding allocproc
    allocproc-no_stack hit e = rw (hit, e, allocproc) refl

    pub allocproc-claim :
        find_unused nproc 0 t.procs ≡ some i
        → kstack ≢ 0
        → allocproc kstack t ≡ (some i, claim t i kstack)
    unfolding allocproc
    allocproc-claim hit ne =
        let full : (kstack == 0) ≡ false = ground arith in rw (hit, full, allocproc) refl

    put_self : (procs : ℕ → Proc) (c : ℕ) (q : Proc) → put procs c q c ≡ q
    put_self procs c q = ground arith

    put_ne : (procs : ℕ → Proc) (c e : ℕ) (q : Proc) → c ≢ e → put procs c q e ≡ procs e
    put_ne procs c e q ne = ground arith

    claimed : Proc
    claimed = record (t.procs i) { state = embryo; pid = t.nextpid; kstack = kstack }

    abbrev grown : Table
    grown = record t {
      procs = put (claim t i kstack).procs i (child cur i kstack pgdir t);
      nextpid = t.nextpid + 1;
    }

    fork-grown :
        i ≢ cur
        → pgdir ≢ 0
        → fork_into cur pgdir i (claim t i kstack)
          ≡ (some t.nextpid, grown, dup_calls (t.procs cur).ofile ++ idup (t.procs cur).cwd ∷ [])
    unfolding claimed
    fork-grown ne np =
        let given : (pgdir == 0) ≡ false = ground arith in
        rw (given, put_ne t.procs i cur claimed ne, put_self t.procs i claimed) refl

    fork-no_space :
        pgdir ≡ 0
        → fork_into cur pgdir i (claim t i kstack)
          ≡ (none, give_up (claim t i kstack) i, kfree kstack ∷ [])
    unfolding claimed
    fork-no_space e = rw (e, put_self t.procs i claimed) refl

  Good : Option ℕ × Table × List Call → Type 0
  Good r = IsTable r.1 × Forks cur kstack pgdir t r

  module _ (u : Table) (i : ℕ) (c : OneEntry t u i) (free : is_unused (t.procs i).state ≡ true)
      (lost : is_unused (u.procs i).state ≡ true) where
    lost-free : (j : ℕ) → is_unused (t.procs j).state ≡ true → is_unused (u.procs j).state ≡ true
    lost-free j unused = elim (ℕ_discrete i j) [
      | yes q ↦ subst (λ x. is_unused (u.procs x).state ≡ true) q lost
      | no ne ↦ rw (c.other j ne) unused
    ]

    lost-keeps : (j : ℕ) → is_unused (t.procs j).state ≡ false → u.procs j ≡ t.procs j
    lost-keeps j used = c.other j (differs (λ x. is_unused (t.procs x).state) i j free used)

    -- A fork that gives its entry up again.
    lost-Good :
        (calls : List Call)
        → (find_unused nproc 0 t.procs ≡ none) × (calls ≡ [])
          ⊎ (kstack ≡ 0) × (calls ≡ [])
          ⊎ (pgdir ≡ 0) × (calls ≡ kfree kstack ∷ [])
        → IsTable t
        → Good (none, u, calls)
    unfolding Good
    lost-Good calls why h = (
      drop-IsTable t u i c h (unused-dead (t.procs i).state free) lost,
      (lost-keeps, lost-free, why),
    )

  stackless-Good :
      (i : ℕ)
      → is_unused (t.procs i).state ≡ true
      → kstack ≡ 0
      → IsTable t
      → Good (none, unclaim (claim t i 0) i, [])
  stackless-Good i free z h =
      lost-Good (unclaim (claim t i 0) i) i
        (record { other = λ j ne. ground arith; init = refl; pids = omega arith }) free
        (ground arith) [] (inr (inl (z, refl))) h

  spaceless-Good :
      (i : ℕ)
      → is_unused (t.procs i).state ≡ true
      → pgdir ≡ 0
      → IsTable t
      → Good (none, give_up (claim t i kstack) i, kfree kstack ∷ [])
  spaceless-Good i free z h =
      lost-Good (give_up (claim t i kstack) i) i
        (record { other = λ j ne. ground arith; init = refl; pids = omega arith }) free
        (ground arith) (kfree kstack ∷ []) (inr (inr (z, refl))) h

  grown-child : (i : ℕ) → (grown i).procs i ≡ child cur i kstack pgdir t
  grown-child i = put_self i (claim t i kstack).procs i (child cur i kstack pgdir t)

  grown-other : (i j : ℕ) → i ≢ j → (grown i).procs j ≡ t.procs j
  grown-other i j ne = ground arith

  grown-IsTable :
      (i : ℕ)
      → cur < nproc
      → is_live (t.procs cur).state ≡ true
      → is_unused (t.procs i).state ≡ true
      → IsTable t
      → IsTable (grown i)
  grown-IsTable i lc l free h =
      add-IsTable t (grown i) i fits h free
        (λ born. (cur, lc, ap (λ p. p.parent) (grown-child i), live))
        (ap (λ p. p.pid) (grown-child i)) (omega arith)
    where
      fits : OneEntry t (grown i) i
      fits = record { other = grown-other i; init = refl; pids = omega arith }

      live : is_live ((grown i).procs cur).state ≡ true
      live = still_live t (grown i) i fits h cur (unused-dead (t.procs i).state free) l

-- fork by a live process keeps the invariant of the table. It either makes one new runnable process,
-- in an unused entry, with the next pid, `cur` for its parent and a copy of its memory, files and
-- directory, and changes no other entry; or it returns -1, because the table is full, there is no page
-- for the kernel stack, or no memory for the copy (the stack is then freed), and leaves every process
-- as it was and every unused entry unused.
pub fork-Forks :
    (cur kstack pgdir : ℕ) (t : Table)
    → cur < nproc
    → is_live (t.procs cur).state ≡ true
    → IsTable t
    → IsTable (fork cur kstack pgdir t).1 × Forks cur kstack pgdir t (fork cur kstack pgdir t)
unfolding Good
fork-Forks cur kstack pgdir t lc l h = elim (Option-cases (find_unused nproc 0 t.procs)) [
  | inl e ↦
      subst (Good cur kstack pgdir t)
        (sym (fork-failed cur kstack pgdir t t (allocproc-full cur kstack pgdir t e)))
        (h, ((λ j w. refl), (λ j w. w), inl (e, refl)))
  | inr (i, hit) ↦
      let (lt, free) = find_unused-hit nproc 0 i t.procs hit in
      elim (ℕ_discrete kstack 0) [
        | yes z ↦
            subst (Good cur kstack pgdir t)
              (sym
                (fork-failed cur kstack pgdir t _ (allocproc-no_stack cur kstack pgdir t i hit z)))
              (stackless-Good cur kstack pgdir t i free z h)
        | no nk ↦
            let given =
              fork-given cur kstack pgdir t i _ (allocproc-claim cur kstack pgdir t i hit nk) in
            elim (ℕ_discrete pgdir 0) [
              | yes z ↦
                  subst (Good cur kstack pgdir t)
                    (sym (given ∙ fork-no_space cur kstack pgdir t i z))
                    (spaceless-Good cur kstack pgdir t i free z h)
              | no np ↦
                  let apart = unused-apart cur i t l free in
                  subst (Good cur kstack pgdir t)
                    (sym (given ∙ fork-grown cur kstack pgdir t i apart np))
                    (
                      grown-IsTable cur kstack pgdir t i lc l free h,
                      (
                        i,
                        lt,
                        free,
                        grown-child cur kstack pgdir t i,
                        grown-other cur kstack pgdir t i,
                        refl,
                        refl,
                      ),
                    )
            ]
      ]
]
  where
    unused-apart :
        (cur i : ℕ) (t : Table)
        → is_live (t.procs cur).state ≡ true
        → is_unused (t.procs i).state ≡ true
        → i ≢ cur
    unused-apart cur i t l free =
        differs (λ k. is_unused (t.procs k).state) i cur free (live-used (t.procs cur).state l)
      where
        live-used : (s : ProcState) → is_live s ≡ true → is_unused s ≡ false
        live-used s l = ground arith
