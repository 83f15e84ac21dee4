-- ===== src/Proc/Same.antt =====
-- The invariant of the process table of proc.c, and the operations that only move a live process
-- between SLEEPING, RUNNABLE and RUNNING.
use xv6_fork.Prelude.{
  ℕ, ◌<◌, ◌≡◌, refl, sym, ◌∙◌, ◌≢◌, inl, inr, Bool-cases, Option-cases, arith, Bool, true, false,
  some, if◌then◌else◌,
}
use mathlib.Core.Path.{subst}
use native.Mathlib.Decide.{ℕ_discrete}
use xv6_fork.Proc.{
  ProcState, unused, embryo, sleeping, runnable, running, Chan, Proc, Table, nproc, is_unused,
  is_sleeping, is_runnable, put, wakeup1, wakeup, sleep, wake_tidy, yield, schedule, kill, find_pid,
}

-- The process runs or can run again.
abbrev pub is_live : ProcState → Bool
is_live s = elim s [ sleeping ↦ true | runnable ↦ true | running ↦ true | _ ↦ false ]

-- The entry is a process that has not been reaped.
abbrev pub is_born : ProcState → Bool
is_born s = elim s [ unused ↦ false | embryo ↦ false | _ ↦ true ]

pub record IsTable (t : Table) : Type 0 where
  pub init_in : t.initproc < nproc
  pub init_live : is_live (t.procs t.initproc).state ≡ true
  pub parents :
      (i : ℕ)
      → i < nproc
      → is_born (t.procs i).state ≡ true
      → i ≢ t.initproc
      → (j : ℕ) × (j < nproc) × ((t.procs i).parent ≡ some j) × (is_live (t.procs j).state ≡ true)
  pub pid_low :
      (i : ℕ) → i < nproc → is_unused (t.procs i).state ≡ false → (t.procs i).pid < t.nextpid
  pub pid_new :
      (i j : ℕ)
      → i < nproc
      → j < nproc
      → i ≢ j
      → is_unused (t.procs i).state ≡ false
      → is_unused (t.procs j).state ≡ false
      → (t.procs i).pid ≢ (t.procs j).pid

-- Two entries agree on all that the invariant reads.
pub record Alike (p q : Proc) : Type 0 where
  pub pid : q.pid ≡ p.pid
  pub parent : q.parent ≡ p.parent
  pub unused : is_unused q.state ≡ is_unused p.state
  pub born : is_born q.state ≡ is_born p.state
  pub live : is_live q.state ≡ is_live p.state

pub Alike-refl : (p : Proc) → Alike p p
Alike-refl p = record { pid = refl; parent = refl; unused = refl; born = refl; live = refl }

pub Alike-IsTable :
    (t : Table) (procs : ℕ → Proc)
    → ((i : ℕ) → Alike (t.procs i) (procs i))
    → IsTable t
    → IsTable (record t { procs = procs })
Alike-IsTable t procs a h = record {
  init_in = h.init_in;
  init_live = (a t.initproc).live ∙ h.init_live;
  parents = λ i lt born ne.
      let (j, lj, e, live) = h.parents i lt (sym (a i).born ∙ born) ne in
      (j, lj, (a i).parent ∙ e, (a j).live ∙ live);
  pid_low = λ i lt u. rw (a i).pid (h.pid_low i lt (sym (a i).unused ∙ u));
  pid_new = λ i j li lj ne u w.
      rw ((a i).pid, (a j).pid)
        (h.pid_new i j li lj ne (sym (a i).unused ∙ u) (sym (a j).unused ∙ w));
}

-- Changing one entry to one that is alike.
pub put-Alike :
    (procs : ℕ → Proc) (c : ℕ) (q : Proc)
    → Alike (procs c) q
    → (i : ℕ) → Alike (procs i) (put procs c q i)
put-Alike procs c q a i = elim (ℕ_discrete c i) [
  | yes e ↦ subst (λ k. Alike (procs k) (put procs c q k)) e (rw (put_self procs c q) a)
  | no ne ↦ rw (put_ne procs c i q ne) (Alike-refl (procs i))
]
  where
    put_self : (procs : ℕ → Proc) (c : ℕ) (q : Proc) → put procs c q c ≡ q
    put_self procs c q = ground arith

    put_ne : (procs : ℕ → Proc) (c i : ℕ) (q : Proc) → c ≢ i → put procs c q i ≡ procs i
    put_ne procs c i q ne = ground arith

-- A live process stays alike in any of the three live states.
live-Alike :
    (p q : Proc)
    → is_live p.state ≡ true
    → is_live q.state ≡ true
    → q.pid ≡ p.pid
    → q.parent ≡ p.parent
    → Alike p q
live-Alike p q l m e f = ground arith

pub wakeup1-Alike :
    (chan : Chan) (procs : ℕ → Proc) (i : ℕ) → Alike (procs i) (wakeup1 chan procs i)
unfolding wakeup1
wakeup1-Alike chan procs i = ground arith

pub wakeup-IsTable : (chan : Chan) (t : Table) → IsTable t → IsTable (wakeup chan t)
unfolding wakeup
wakeup-IsTable chan t h = Alike-IsTable t (wakeup1 chan t.procs) (wakeup1-Alike chan t.procs) h

pub sleep-IsTable :
    (cur : ℕ) (chan : Chan) (t : Table)
    → is_live (t.procs cur).state ≡ true
    → IsTable t
    → IsTable (sleep cur chan t)
unfolding sleep
sleep-IsTable cur chan t l h =
    Alike-IsTable t _ (put-Alike t.procs cur _ (live-Alike (t.procs cur) _ l refl refl refl)) h

pub wake_tidy-IsTable : (cur : ℕ) (t : Table) → IsTable t → IsTable (wake_tidy cur t)
unfolding wake_tidy
wake_tidy-IsTable cur t h =
    Alike-IsTable t _
      (put-Alike t.procs cur _
        (record { pid = refl; parent = refl; unused = refl; born = refl; live = refl }))
      h

pub yield-IsTable :
    (cur : ℕ) (t : Table) → is_live (t.procs cur).state ≡ true → IsTable t → IsTable (yield cur t)
unfolding yield
yield-IsTable cur t l h =
    Alike-IsTable t _ (put-Alike t.procs cur _ (live-Alike (t.procs cur) _ l refl refl refl)) h

runnable-live : (s : ProcState) → is_runnable s ≡ true → is_live s ≡ true
runnable-live s e = ground arith

some-eq : (a b : Table) → some a ≡ some b → a ≡ b
some-eq a b e = cc

abbrev dispatched : ℕ → Table → Table
dispatched i t = record t { procs = put t.procs i (record (t.procs i) { state = running }) }

schedules :
    (i : ℕ) (t : Table)
    → is_runnable (t.procs i).state ≡ true
    → some (dispatched i t) ≡ schedule i t
unfolding schedule
schedules i t ready = rw ready

pub schedule-IsTable : (i : ℕ) (t u : Table) → schedule i t ≡ some u → IsTable t → IsTable u
unfolding schedule
schedule-IsTable i t u e h = elim (Bool-cases (is_runnable (t.procs i).state)) [
  | inl ready ↦ subst IsTable (some-eq (dispatched i t) u (schedules i t ready ∙ e)) (
      Alike-IsTable t _
        (put-Alike t.procs i (record (t.procs i) { state = running })
          (live-Alike (t.procs i) _ (runnable-live (t.procs i).state ready) refl refl refl))
        h)
  | inr other ↦ absurd (ground arith)
]

killed-Alike :
    (p : Proc)
    → Alike p
        (record p { killed = true; state = if is_sleeping p.state then runnable else p.state })
killed-Alike p = ground arith

pub kill-IsTable : (pid : ℕ) (t : Table) → IsTable t → IsTable (kill pid t).1
unfolding kill
kill-IsTable pid t h = elim (Option-cases (find_pid nproc 0 pid t.procs)) [
  | inl e ↦ rw (e, kill) h
  | inr (i, e) ↦
      rw (e, kill) (Alike-IsTable t _ (put-Alike t.procs i _ (killed-Alike (t.procs i))) h)
]
