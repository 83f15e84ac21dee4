-- ===== src/Spin/Exclusion.antt =====
-- Mutual exclusion of one spin lock between any number of processors, step by step.
use xv6_fork.Prelude.{
  ℕ, ◌≡◌, refl, sym, inl, inr, Option-cases, arith, Bool, true, false, ◌&&◌, none, some,
  if◌then◌else◌, ◌==◌,
}
use mathlib.Core.Path.{subst}
use xv6_fork.Spin.{
  Cpu, SpinLock, is_cpu, holding, acquire_enter, xchg, acquire_mark, release_enter, release_leave,
  initlock,
}

-- Where a processor is in its use of the lock: spinning in acquire, behind the loop, between acquire
-- and release, or between the two stores of release.
pub data Stage : Type 0 where
  idle spinning marking inside releasing : Stage

abbrev pub has : Stage → Bool
has s = elim s [ idle ↦ false | spinning ↦ false | _ ↦ true ]

pub record Machine : Type 0 where
  pub cpus : ℕ → Cpu
  pub lock : SpinLock
  pub stage : ℕ → Stage

abbrev pub put : (ℕ → Stage) → ℕ → Stage → ℕ → Stage
put st me s c = if me == c then s else st c

-- One access of a processor `me` to the lock. Anything may happen to the interrupt state of the
-- processors by the way, as it does when they use other locks. A round of the loop of acquire that
-- finds the lock taken changes nothing.
pub data Step (m : Machine) : Machine → Type 0 where
  enters :
      {c : ℕ → Cpu} {d : Cpu} (me : ℕ)
      → m.stage me ≡ idle
      → acquire_enter me m.lock (m.cpus me) ≡ some d
      → Step m (record { cpus = c; lock = m.lock; stage = put m.stage me spinning })
  takes :
      {c : ℕ → Cpu} (me : ℕ)
      → m.stage me ≡ spinning
      → (xchg m.lock).0 ≡ false
      → Step m (record { cpus = c; lock = (xchg m.lock).1; stage = put m.stage me marking })
  marks :
      {c : ℕ → Cpu} (me : ℕ)
      → m.stage me ≡ marking
      → Step m (record { cpus = c; lock = acquire_mark me m.lock; stage = put m.stage me inside })
  frees :
      {c : ℕ → Cpu} {k : SpinLock} {d : Cpu} (me : ℕ)
      → m.stage me ≡ inside
      → release_enter me m.lock (m.cpus me) ≡ some (k, d)
      → Step m (record { cpus = c; lock = k; stage = put m.stage me releasing })
  leaves :
      {c : ℕ → Cpu} {k : SpinLock} {d : Cpu} (me : ℕ)
      → m.stage me ≡ releasing
      → release_leave m.lock (m.cpus me) ≡ some (k, d)
      → Step m (record { cpus = c; lock = k; stage = put m.stage me idle })

pub data Reach (m : Machine) : Machine → Type 0 where
  here : Reach m m
  next : {n p : Machine} → Reach m n → Step n p → Reach m p

pub record IsExclusive (lk : SpinLock) (st : ℕ → Stage) : Type 0 where
  pub taken : (c : ℕ) → has (st c) ≡ true → lk.locked ≡ true
  pub alone : (c d : ℕ) → has (st c) ≡ true → has (st d) ≡ true → c ≡ d
  pub marked : (c : ℕ) → is_cpu lk.cpu c ≡ true → st c ≡ inside
  pub mine : (c : ℕ) → st c ≡ inside → is_cpu lk.cpu c ≡ true

module _ (lk : SpinLock) (st : ℕ → Stage) (h : IsExclusive lk st) (me : ℕ) where
  enters-IsExclusive : st me ≡ idle → IsExclusive lk (put st me spinning)
  enters-IsExclusive e = record {
    taken = λ c a. ground (arith, h.taken c);
    alone = λ c d a b. ground (arith, h.alone c d);
    marked = λ c a. ground (arith, h.marked c);
    mine = λ c a. ground (arith, h.mine c);
  }

  takes-IsExclusive :
      st me ≡ spinning
      → lk.locked ≡ false
      → IsExclusive (record lk { locked = true }) (put st me marking)
  takes-IsExclusive e free = record {
    taken = λ c a. refl;
    alone = λ c d a b. ground (arith, h.taken c, h.taken d);
    marked = λ c a. ground (arith, h.marked c);
    mine = λ c a. ground (arith, h.mine c);
  }

  marks-IsExclusive : st me ≡ marking → IsExclusive (record lk { cpu = some me }) (put st me inside)
  marks-IsExclusive e = record {
    taken = λ c a. h.taken me (ground arith);
    alone = λ c d a b. ground (arith, h.alone c d, h.alone me d, h.alone c me);
    marked = λ c a. ground arith;
    mine = λ c a. ground (arith, h.alone c me);
  }

  frees-IsExclusive : st me ≡ inside → IsExclusive (record lk { cpu = none }) (put st me releasing)
  frees-IsExclusive e = record {
    taken = λ c a. h.taken me (ground arith);
    alone = λ c d a b. ground (arith, h.alone c d, h.alone me d, h.alone c me);
    marked = λ c a. ground arith;
    mine = λ c a. ground (arith, h.alone c me);
  }

  leaves-IsExclusive :
      st me ≡ releasing → IsExclusive (record lk { locked = false }) (put st me idle)
  leaves-IsExclusive e = record {
    taken = λ c a. ground (arith, h.alone c me);
    alone = λ c d a b. ground (arith, h.alone c d);
    marked = λ c a. ground (arith, h.marked c);
    mine = λ c a. ground (arith, h.mine c);
  }

release_enter-cleared :
    (me : ℕ) (lk k : SpinLock) (c d : Cpu)
    → release_enter me lk c ≡ some (k, d)
    → k ≡ record lk { cpu = none }
unfolding release_enter
release_enter-cleared me lk k c d e = elim (Option-cases (holding me lk c)) [
  | inl stuck ↦ absurd (ground arith)
  | inr ((held, f), holds) ↦ ground arith
]

release_leave-unlocked :
    (lk k : SpinLock) (c d : Cpu)
    → release_leave lk c ≡ some (k, d)
    → k ≡ record lk { locked = false }
unfolding release_leave
release_leave-unlocked lk k c d e = ground arith

Step-IsExclusive :
    {m n : Machine} → IsExclusive m.lock m.stage → Step m n → IsExclusive n.lock n.stage
unfolding xchg acquire_mark
Step-IsExclusive {m} h (enters me e a) = enters-IsExclusive m.lock m.stage h me e
Step-IsExclusive {m} h (takes me e free) = takes-IsExclusive m.lock m.stage h me e free
Step-IsExclusive {m} h (marks me e) = marks-IsExclusive m.lock m.stage h me e
Step-IsExclusive {m} h (frees {k} {d} me e a) =
    subst (λ l. IsExclusive l (put m.stage me releasing))
      (sym (release_enter-cleared me m.lock k (m.cpus me) d a))
      (frees-IsExclusive m.lock m.stage h me e)
Step-IsExclusive {m} h (leaves {k} {d} me e a) =
    subst (λ l. IsExclusive l (put m.stage me idle))
      (sym (release_leave-unlocked m.lock k (m.cpus me) d a))
      (leaves-IsExclusive m.lock m.stage h me e)

Run-IsExclusive :
    {m n : Machine} → IsExclusive m.lock m.stage → Reach m n → IsExclusive n.lock n.stage
Run-IsExclusive h here = h
Run-IsExclusive h (next r s) = Step-IsExclusive (Run-IsExclusive h r) s

-- From a machine with the lock as initlock leaves it and no processor at it, however the processors'
-- accesses to the lock interleave: at most one is behind the loop of acquire and before the end of
-- release. The test of `holding` is true of a processor exactly between acquire and release, so acquire
-- panics only for a processor that has the lock, and release for none that has.
pub Reach-IsExclusive :
    (m n : Machine)
    → m.lock ≡ initlock
    → ((c : ℕ) → m.stage c ≡ idle)
    → Reach m n
    → ((c d : ℕ) → has (n.stage c) ≡ true → has (n.stage d) ≡ true → c ≡ d)
      × ((c : ℕ)
          → ((n.lock.locked && is_cpu n.lock.cpu c) ≡ true → n.stage c ≡ inside)
            × (n.stage c ≡ inside → (n.lock.locked && is_cpu n.lock.cpu c) ≡ true))
Reach-IsExclusive m n e none_there r =
    let h = Run-IsExclusive start r in
    (
      h.alone,
      (λ c. ((λ a. ground (arith, h.marked c)), (λ a. ground (arith, h.mine c, h.taken c)))),
    )
  where
    start : IsExclusive m.lock m.stage
    start = record {
      taken = λ c a. ground (arith, none_there c);
      alone = λ c d a b. ground (arith, none_there c);
      marked = λ c a. ground (arith, e);
      mine = λ c a. ground (arith, none_there c);
    }
