-- ===== src/Proc/Exit.antt =====
-- exit of proc.c: abandoned children go to init, and no process is left with a dead parent.
use xv6_fork.Prelude.{
  ℕ, ◌<◌, ◌≡◌, refl, sym, ◌∙◌, ◌≢◌, inl, inr, arith, true, false, some, ◌++◌, ◌==◌,
}
use native.Mathlib.Decide.{ℕ_discrete}
use xv6_fork.Proc.{
  zombie, Chan, at_proc, Proc, Table, nproc, is_unused, is_parent, put, wakeup1, adopt_all, exit,
  chan_of, closed, close_calls, iput_calls,
}
use xv6_fork.Proc.Same.{is_live, is_born, IsTable, Alike, put-Alike, wakeup1-Alike}
use xv6_fork.Proc.Adoption.{
  is_waiting, Moved, Moved-trans, Alike-Moved, wakeup1-calm, adopt_all-Moved, adopt_all-foreign,
  wakeup1-calm_self,
}

module _ (cur : ℕ) (t : Table) where
  shut : ℕ → Proc
  shut = put t.procs cur (record (t.procs cur) { ofile = closed (t.procs cur).ofile; cwd = 0 })

  woken : ℕ → Proc
  woken = wakeup1 (chan_of (t.procs cur).parent) shut

  passed : ℕ → Proc
  passed = adopt_all nproc 0 cur t.initproc woken

  abbrev dead : Table
  dead = record t { procs = put passed cur (record (passed cur) { state = zombie }) }

  exit-dead :
      cur ≢ t.initproc
      → exit cur t ≡ some (dead, close_calls (t.procs cur).ofile ++ iput_calls (t.procs cur).cwd)
  unfolding exit shut woken passed
  exit-dead ne = let differs : (cur == t.initproc) ≡ false = ground arith in rw differs refl

  shut-Alike : (e : ℕ) → Alike (t.procs e) (shut e)
  unfolding shut
  shut-Alike =
      put-Alike t.procs cur _
        (record { pid = refl; parent = refl; unused = refl; born = refl; live = refl })

  shut-calm : (e : ℕ) (c : Chan) → is_waiting (t.procs e) c ≡ false → is_waiting (shut e) c ≡ false
  unfolding shut
  shut-calm e c h = ground arith

  module _ (ne : cur ≢ t.initproc) where
    passed-Moved : (e : ℕ) → Moved t.initproc (t.procs e) (passed e)
    unfolding woken passed
    passed-Moved e =
        Moved-trans t.initproc _ _ _ (Alike-Moved t.initproc _ _ (shut-Alike e) (shut-calm e)) (
          Moved-trans t.initproc _ _ _
            (Alike-Moved t.initproc _ _ (wakeup1-Alike (chan_of (t.procs cur).parent) shut e)
              (wakeup1-calm (chan_of (t.procs cur).parent) shut e))
            (adopt_all-Moved cur t.initproc ne nproc 0 woken e))

    passed-foreign : (e : ℕ) → e < nproc → is_parent (passed e).parent cur ≡ false
    unfolding passed
    passed-foreign e h =
        adopt_all-foreign cur t.initproc ne nproc 0 woken e (omega arith) (omega arith)

    dead_ne : (e : ℕ) → cur ≢ e → dead.procs e ≡ passed e
    dead_ne e d = ground arith

    dead-parent : (e : ℕ) → (dead.procs e).parent ≡ (passed e).parent
    dead-parent e = ground arith

    dead-pid : (e : ℕ) → (dead.procs e).pid ≡ (passed e).pid
    dead-pid e = ground arith

    -- Only an entry that was in use is in use afterwards.
    dead-unused :
        (e : ℕ)
        → is_live (t.procs cur).state ≡ true
        → is_unused (dead.procs e).state ≡ false
        → is_unused (t.procs e).state ≡ false
    dead-unused e l u = elim (ℕ_discrete cur e) [
      | yes q ↦ rw (← q) (ground arith)
      | no d ↦ sym (passed-Moved e).unused ∙ rw (dead_ne e d) at u
    ]

    dead-born :
        (e : ℕ)
        → is_live (t.procs cur).state ≡ true
        → is_born (dead.procs e).state ≡ true
        → is_born (t.procs e).state ≡ true
    dead-born e l b = elim (ℕ_discrete cur e) [
      | yes q ↦ rw (← q) (ground arith)
      | no d ↦ sym (passed-Moved e).born ∙ rw (dead_ne e d) at b
    ]

    dead-live :
        (e : ℕ) → cur ≢ e → is_live (t.procs e).state ≡ true → is_live (dead.procs e).state ≡ true
    dead-live e d l = rw (dead_ne e d) ((passed-Moved e).live ∙ l)

    dead-IsTable : is_live (t.procs cur).state ≡ true → IsTable t → IsTable dead
    dead-IsTable l h = record {
      init_in = h.init_in;
      init_live = dead-live t.initproc ne h.init_live;
      parents = λ i lt born other.
          let (j, lj, e, live) = h.parents i lt (dead-born i l born) other in
          elim (passed-Moved i).parent [
            | inl same ↦
                let still = dead-parent i ∙ same ∙ e in
                (j, lj, still, dead-live j (foreign_parent i j lt (same ∙ e)) live)
            | inr init ↦
                (t.initproc, h.init_in, dead-parent i ∙ init, dead-live t.initproc ne h.init_live)
          ];
      pid_low =
          λ i lt u. rw (dead-pid i ∙ (passed-Moved i).pid) (h.pid_low i lt (dead-unused i l u));
      pid_new = λ i j li lj d u w.
          rw (dead-pid i ∙ (passed-Moved i).pid, dead-pid j ∙ (passed-Moved j).pid)
            (h.pid_new i j li lj d (dead-unused i l u) (dead-unused j l w));
    }
      where
        foreign_parent : (i j : ℕ) → i < nproc → (passed i).parent ≡ some j → cur ≢ j
        foreign_parent i j lt e q = ground (arith, passed-foreign i lt)

    dead-woken :
        (j : ℕ)
        → j < nproc
        → (t.procs cur).parent ≡ some j
        → is_waiting (dead.procs j) (at_proc j) ≡ false
    unfolding woken passed
    dead-woken j h e = elim (ℕ_discrete cur j) [
      | yes q ↦ rw (← q) (ground arith)
      | no d ↦ rw (dead_ne j d) (
          (adopt_all-Moved cur t.initproc ne nproc 0 woken j).calm (at_proc j)
            (rw e (wakeup1-calm_self (at_proc j) shut j h)))
    ]

-- exit by a live process other than init succeeds. The process is then a zombie, nobody has it for a
-- parent, its own parent no longer sleeps in wait, its open files and its directory are given back,
-- and the table keeps its invariant: every process has a live parent, and pids are distinct.
pub exit-IsTable :
    (cur : ℕ) (t : Table)
    → cur ≢ t.initproc
    → is_live (t.procs cur).state ≡ true
    → IsTable t
    → (u : Table) × (exit cur t
        ≡ some (u, close_calls (t.procs cur).ofile ++ iput_calls (t.procs cur).cwd))
      × IsTable u
      × ((u.procs cur).state ≡ zombie)
      × ((i : ℕ) → i < nproc → is_parent (u.procs i).parent cur ≡ false)
      × ((j : ℕ)
          → j < nproc
          → (t.procs cur).parent ≡ some j
          → is_waiting (u.procs j) (at_proc j) ≡ false)
exit-IsTable cur t ne l h = (
  dead cur t,
  exit-dead cur t ne,
  dead-IsTable cur t ne l h,
  ground arith,
  (λ i lt. rw (dead-parent cur t ne i) (passed-foreign cur t ne i lt)),
  dead-woken cur t ne,
)
