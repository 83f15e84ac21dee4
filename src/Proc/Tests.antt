-- ===== src/Proc/Tests.antt =====
-- proc.c with init and one child.
use xv6_fork.Prelude.{ℕ, ◌<◌, ◌≡◌, ◌≢◌, refl, arith, true, false, Option, none, some, List, ◌++◌}
use xv6_fork.Proc.{
  Table, Call, zombie, at_proc, nproc, is_parent, zero_table, userinit, allocproc, find_unused,
  fork, exit, adopt_all, wakeup1, wait, WaitOutcome, reaped, scan_children, close_calls, iput_calls,
}
use xv6_fork.Proc.Same.{is_live, IsTable}
use xv6_fork.Proc.Adoption.{is_waiting}
use xv6_fork.Proc.Exit.{exit-IsTable}
use xv6_fork.Proc.Fork.{Forks, fork-Forks}
use xv6_fork.Proc.Wait.{Waits, wait-Waits}
use xv6_fork.Proc.Reach.{booted, booted-IsTable, Reach, Reach-IsTable}

abbrev stack : ℕ
stack = 0x80301000

abbrev dir : ℕ
dir = 0x80302000

abbrev boot : Table
boot = booted 0x80303000 0x80304000 1

abbrev forked : Table
forked = (fork 0 stack dir boot).1

fork-Forks_example : IsTable forked × Forks 0 stack dir boot (fork 0 stack dir boot)
fork-Forks_example =
    fork-Forks 0 stack dir boot (omega arith) refl (booted-IsTable 0x80303000 0x80304000 1)

child_live : is_live (forked.procs 1).state ≡ true
unfolding fork allocproc find_unused
child_live = refl

init_live : is_live (forked.procs 0).state ≡ true
unfolding fork allocproc find_unused
init_live = refl

child_not_init : 1 ≢ forked.initproc
unfolding fork allocproc find_unused
child_not_init = omega arith

exit-IsTable_example :
    (u : Table) × (exit 1 forked
      ≡ some (u, close_calls (forked.procs 1).ofile ++ iput_calls (forked.procs 1).cwd))
    × IsTable u
    × ((u.procs 1).state ≡ zombie)
    × ((i : ℕ) → i < nproc → is_parent (u.procs i).parent 1 ≡ false)
    × ((j : ℕ)
        → j < nproc
        → (forked.procs 1).parent ≡ some j
        → is_waiting (u.procs j) (at_proc j) ≡ false)
exit-IsTable_example = exit-IsTable 1 forked child_not_init child_live fork-Forks_example.0

wait-Waits_example : IsTable (wait 0 forked).1 × Waits 0 forked (wait 0 forked)
wait-Waits_example = wait-Waits 0 forked fork-Forks_example.0 init_live

Reach-IsTable_example :
    (t : Table) × (userinit stack dir 1 zero_table ≡ some t) × ((u : Table) → Reach t u → IsTable u)
Reach-IsTable_example = Reach-IsTable stack dir 1 (omega arith) (omega arith)

-- init reaps the child when it has exited.
abbrev outcome : Option (Table × List Call) → Option WaitOutcome
outcome none = none
outcome (some (u, calls)) = some (wait 0 u).0

child_reaped : outcome (exit 1 forked) ≡ some (reaped 2)
unfolding fork allocproc find_unused exit adopt_all wakeup1 wait scan_children
child_reaped = refl
