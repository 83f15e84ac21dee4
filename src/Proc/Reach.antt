-- ===== src/Proc/Reach.antt =====
-- Every sequence of operations on the process table of proc.c, from userinit on.
use xv6_fork.Prelude.{
  ℕ, ◌<◌, ◌≡◌, refl, sym, ap, ◌∙◌, ◌≢◌, inl, inr, Option-cases, Bool-cases, arith, true, false,
  Option, none, some, List, if◌then◌else◌, ◌==◌,
}
use mathlib.Core.Path.{subst}
use native.Mathlib.Decide.{ℕ_discrete}
use xv6_fork.Proc.{
  embryo, runnable, Chan, Table, Call, nproc, is_unused, put, find_unused, claim, unclaim, give_up,
  allocproc, fork_into, exit, wait, sleep, wake_tidy, yield, schedule, kill, wakeup, userinit,
  zero_table, dup_files,
}
use xv6_fork.Proc.Same.{
  is_live, IsTable, wakeup-IsTable, sleep-IsTable, wake_tidy-IsTable, yield-IsTable,
  schedule-IsTable, kill-IsTable,
}
use xv6_fork.Proc.Family.{still_live, OneEntry, add-IsTable, drop-IsTable, fill-IsTable}
use xv6_fork.Proc.Fork.{allocproc-claim}
use xv6_fork.Proc.Scan.{find_unused-hit}
use xv6_fork.Proc.Exit.{exit-IsTable}
use xv6_fork.Proc.Wait.{wait-Waits}

claim-IsTable :
    (t : Table) (i k : ℕ) → is_unused (t.procs i).state ≡ true → IsTable t → IsTable (claim t i k)
claim-IsTable t i k free h =
    add-IsTable t (claim t i k) i
      (record { other = λ j ne. ground arith; init = refl; pids = omega arith }) h free
      (λ born. absurd (ground arith)) (ground arith) (omega arith)

unclaim-IsTable :
    (t : Table) (i : ℕ) → is_live (t.procs i).state ≡ false → IsTable t → IsTable (unclaim t i)
unclaim-IsTable t i d h =
    drop-IsTable t (unclaim t i) i
      (record { other = λ j ne. ground arith; init = refl; pids = omega arith }) h d (ground arith)

embryo-dead : (t : Table) (i k : ℕ) → is_live ((claim t i k).procs i).state ≡ false
embryo-dead t i k = ground arith

allocproc-IsTable : (kstack : ℕ) (t : Table) → IsTable t → IsTable (allocproc kstack t).1
unfolding allocproc
allocproc-IsTable kstack t h = elim (Option-cases (find_unused nproc 0 t.procs)) [
  | inl e ↦ rw (e, allocproc) h
  | inr (i, hit) ↦
      let (lt, free) = find_unused-hit nproc 0 i t.procs hit in
      elim (Bool-cases (kstack == 0)) [
        | inl z ↦
            rw (hit, z, allocproc)
              (unclaim-IsTable (claim t i 0) i (embryo-dead t i 0) (claim-IsTable t i 0 free h))
        | inr nz ↦ rw (hit, nz, allocproc) (claim-IsTable t i kstack free h)
      ]
]

module _ (cur pgdir i : ℕ) (t : Table) (h : IsTable t) (lc : cur < nproc)
    (l : is_live (t.procs cur).state ≡ true) (e : (t.procs i).state ≡ embryo) where
  waiting-dead : is_live (t.procs i).state ≡ false
  waiting-dead = rw e

  abbrev started : Table
  started = record t {
    procs = put t.procs i (record (t.procs i) {
      pgdir = pgdir;
      sz = (t.procs cur).sz;
      parent = some cur;
      ofile = dup_files (t.procs cur).ofile (t.procs i).ofile;
      cwd = (t.procs cur).cwd;
      state = runnable;
    });
  }

  started-fits : OneEntry t started i
  started-fits = record { other = λ j ne. ground arith; init = refl; pids = omega arith }

  started-IsTable : IsTable started
  started-IsTable =
      fill-IsTable t started i started-fits h waiting-dead (rw e)
        (λ born. (cur, lc, ground arith, still_live t started i started-fits h cur waiting-dead l))
        (ground arith)

  fork_into-IsTable : IsTable (fork_into cur pgdir i t).1
  fork_into-IsTable = elim (Bool-cases (pgdir == 0)) [
    | inl z ↦ rw z (
        drop-IsTable t (give_up t i) i
          (record { other = λ j ne. ground arith; init = refl; pids = omega arith }) h waiting-dead
          (ground arith))
    | inr nz ↦ rw nz started-IsTable
  ]

-- One operation, by a live process `cur` where one acts. fork is two steps, since it holds the lock
-- of the table in neither allocproc nor the copying between allocproc and the end.
pub data Step (t : Table) : Table → Type 0 where
  allocates : (kstack : ℕ) → Step t (allocproc kstack t).1
  forks :
      (cur pgdir i : ℕ)
      → cur < nproc
      → is_live (t.procs cur).state ≡ true
      → (t.procs i).state ≡ embryo
      → Step t (fork_into cur pgdir i t).1
  exits :
      {u : Table} {calls : List Call} (cur : ℕ)
      → is_live (t.procs cur).state ≡ true
      → exit cur t ≡ some (u, calls)
      → Step t u
  waits : (cur : ℕ) → is_live (t.procs cur).state ≡ true → Step t (wait cur t).1
  sleeps : (cur : ℕ) (chan : Chan) → is_live (t.procs cur).state ≡ true → Step t (sleep cur chan t)
  wakes_up : (cur : ℕ) → Step t (wake_tidy cur t)
  wakes : (chan : Chan) → Step t (wakeup chan t)
  yields : (cur : ℕ) → is_live (t.procs cur).state ≡ true → Step t (yield cur t)
  schedules : {u : Table} (i : ℕ) → schedule i t ≡ some u → Step t u
  kills : (pid : ℕ) → Step t (kill pid t).1

pub data Reach (t : Table) : Table → Type 0 where
  here : Reach t t
  next : {u v : Table} → Reach t u → Step u v → Reach t v

init-exits : (cur : ℕ) (t : Table) → cur ≡ t.initproc → exit cur t ≡ none
unfolding exit
init-exits cur t e = let same : (cur == t.initproc) ≡ true = ground arith in rw same refl

exits-IsTable :
    (cur : ℕ) (t u : Table) (calls : List Call)
    → is_live (t.procs cur).state ≡ true
    → exit cur t ≡ some (u, calls)
    → IsTable t
    → IsTable u
exits-IsTable cur t u calls l e h = elim (ℕ_discrete cur t.initproc) [
  | yes q ↦ let panics = init-exits cur t q in absurd (ground arith)
  | no ne ↦
      let (v, f, k, zombie_now, orphans, parent_woken) = exit-IsTable cur t ne l h in
      subst IsTable (same_result v u _ calls (sym f ∙ e)) k
]
  where
    same_result :
        (v u : Table) (c d : List Call)
        → ◌≡◌ {A = Option (Table × List Call)} (some (v, c)) (some (u, d))
        → v ≡ u
    same_result v u c d e = ground arith

Step-IsTable : {t u : Table} → IsTable t → Step t u → IsTable u
Step-IsTable {t} h (allocates kstack) = allocproc-IsTable kstack t h
Step-IsTable {t} h (forks cur pgdir i lc l e) = fork_into-IsTable cur pgdir i t h lc l e
Step-IsTable {t} {u} h (exits {calls} cur l e) = exits-IsTable cur t u calls l e h
Step-IsTable {t} h (waits cur l) = (wait-Waits cur t h l).0
Step-IsTable {t} h (sleeps cur chan l) = sleep-IsTable cur chan t l h
Step-IsTable {t} h (wakes_up cur) = wake_tidy-IsTable cur t h
Step-IsTable {t} h (wakes chan) = wakeup-IsTable chan t h
Step-IsTable {t} h (yields cur l) = yield-IsTable cur t l h
Step-IsTable {t} {u} h (schedules i e) = schedule-IsTable i t u e h
Step-IsTable {t} h (kills pid) = kill-IsTable pid t h

Run-IsTable : {t u : Table} → IsTable t → Reach t u → IsTable u
Run-IsTable h here = h
Run-IsTable h (next r s) = Step-IsTable (Run-IsTable h r) s

-- The table that userinit makes.
abbrev pub booted : ℕ → ℕ → ℕ → Table
booted kstack pgdir root =
    let t = claim zero_table 0 kstack in
    record t {
      procs =
          put t.procs 0
            (record (t.procs 0) { pgdir = pgdir; sz = 4096; cwd = root; state = runnable });
      initproc = 0;
    }

abbrev finish : ℕ → ℕ → Option ℕ × Table → Option Table
finish pgdir root r = elim r.0 [
  | none ↦ none
  | some i ↦
      if pgdir == 0
      then none
      else some (record r.1 {
        procs =
            put r.1.procs i
              (record (r.1.procs i) { pgdir = pgdir; sz = 4096; cwd = root; state = runnable });
        initproc = i;
      })
]

first_unused : find_unused nproc 0 zero_table.procs ≡ some 0
unfolding find_unused
first_unused = refl

userinit-booted :
    (kstack pgdir root : ℕ)
    → kstack ≢ 0
    → pgdir ≢ 0
    → userinit kstack pgdir root zero_table ≡ some (booted kstack pgdir root)
unfolding userinit
userinit-booted kstack pgdir root nk np =
    let dir : (pgdir == 0) ≡ false = ground arith in
    ap (finish pgdir root) (allocproc-claim 0 kstack pgdir zero_table 0 first_unused nk)
    ∙ rw dir refl

booted-only :
    (kstack pgdir root i : ℕ) → is_unused ((booted kstack pgdir root).procs i).state ≡ false → i ≡ 0
booted-only kstack pgdir root i w = ground arith

pub booted-IsTable : (kstack pgdir root : ℕ) → IsTable (booted kstack pgdir root)
booted-IsTable kstack pgdir root = record {
  init_in = omega arith;
  init_live = refl;
  parents = λ i lt born ne. absurd (ne (booted-only kstack pgdir root i (ground arith)));
  pid_low = λ i lt w. ground arith;
  pid_new = λ i j li lj ne x y.
      absurd (ne (booted-only kstack pgdir root i x ∙ sym (booted-only kstack pgdir root j y)));
}

-- userinit makes a table from the zero one, given a page for the kernel stack and a page directory.
-- Whatever operations live processes then make, in whatever order: init is alive, every other process
-- that has not been reaped has a live parent in the table, and no two processes share a pid (with
-- a `nextpid` that does not overflow).
pub Reach-IsTable :
    (kstack pgdir root : ℕ)
    → kstack ≢ 0
    → pgdir ≢ 0
    → (t : Table) × (userinit kstack pgdir root zero_table ≡ some t)
      × ((u : Table) → Reach t u → IsTable u)
Reach-IsTable kstack pgdir root nk np = (
  booted kstack pgdir root,
  userinit-booted kstack pgdir root nk np,
  (λ u r. Run-IsTable (booted-IsTable kstack pgdir root) r),
)
