-- ===== src/Spin.antt =====
-- spinlock.c and sleeplock.c: interrupts on a processor, spin locks and sleep locks. `none` is a
-- panic where a function returns an Option and nothing else is said.
pub mod Nesting
pub mod Exclusion
pub mod Sleep
mod Tests
use xv6_fork.Prelude.{ℕ, ◌+◌, ◌-◌, Bool, true, false, ◌&&◌, Option, none, some, if◌then◌else◌, ◌==◌}

-- `struct cpu`, and the interrupt flag of the processor.
pub record Cpu : Type 0 where
  pub interrupts : Bool
  pub ncli : ℕ
  pub intena : Bool

-- `struct spinlock`, without what is kept for debugging. `cpu` is the number of a processor.
pub record SpinLock : Type 0 where
  pub locked : Bool
  pub cpu : Option ℕ

abbrev pub initlock : SpinLock
initlock = record { locked = false; cpu = none }

pub pushcli : Cpu → Cpu
pushcli c = record {
  interrupts = false;
  ncli = c.ncli + 1;
  intena = if c.ncli == 0 then c.interrupts else c.intena;
}

pub popcli : Cpu → Option Cpu
popcli c =
    if c.interrupts
    then none
    else (if c.ncli == 0
        then none
        else some (record c {
          ncli = c.ncli - 1;
          interrupts = if (c.ncli - 1 == 0) && c.intena then true else c.interrupts;
        }))

abbrev pub is_cpu : Option ℕ → ℕ → Bool
is_cpu none i = false
is_cpu (some j) i = j == i

-- holding, on processor `me`.
pub holding : ℕ → SpinLock → Cpu → Option (Bool × Cpu)
holding me lk c = elim (popcli (pushcli c)) [
  | none ↦ none
  | some d ↦ some (lk.locked && is_cpu lk.cpu me, d)
]

-- acquire up to its loop.
pub acquire_enter : ℕ → SpinLock → Cpu → Option Cpu
acquire_enter me lk c = elim (holding me lk (pushcli c)) [
  | none ↦ none
  | some (held, d) ↦ if held then none else some d
]

-- One round of the loop of acquire: the old value of `locked`, and the lock.
pub xchg : SpinLock → Bool × SpinLock
xchg lk = (lk.locked, record lk { locked = true })

-- `lk->cpu = mycpu()`, behind the loop.
pub acquire_mark : ℕ → SpinLock → SpinLock
acquire_mark me lk = record lk { cpu = some me }

-- release up to `lk->cpu = 0`.
pub release_enter : ℕ → SpinLock → Cpu → Option (SpinLock × Cpu)
release_enter me lk c = elim (holding me lk c) [
  | none ↦ none
  | some (held, d) ↦ if held then some (record lk { cpu = none }, d) else none
]

-- `lk->locked = 0` and popcli.
pub release_leave : SpinLock → Cpu → Option (SpinLock × Cpu)
release_leave lk c = elim (popcli c) [
  | none ↦ none
  | some d ↦ some (record lk { locked = false }, d)
]

-- acquire where the first round of its loop ends it.
pub data Acquire : Type 0 where
  acquired : SpinLock → Cpu → Acquire
  spins : Cpu → Acquire
  acquire_panics : Acquire

pub acquire : ℕ → SpinLock → Cpu → Acquire
acquire me lk c = elim (acquire_enter me lk c) [
  | none ↦ acquire_panics
  | some d ↦ if (xchg lk).0 then spins d else acquired (acquire_mark me (xchg lk).1) d
]

pub release : ℕ → SpinLock → Cpu → Option (SpinLock × Cpu)
release me lk c = elim (release_enter me lk c) [
  | none ↦ none
  | some (left, d) ↦ release_leave left d
]

-- `struct sleeplock`; what its `lk` protects is done in one step.
pub record SleepLock : Type 0 where
  pub locked : Bool
  pub pid : ℕ

-- acquiresleep by process `pid`; `none` means that it sleeps on the lock.
pub acquiresleep : ℕ → SleepLock → Option SleepLock
acquiresleep pid lk = if lk.locked then none else some (record { locked = true; pid = pid })

-- releasesleep; it also wakes the processes that sleep on the lock.
pub releasesleep : SleepLock → SleepLock
releasesleep lk = record { locked = false; pid = 0 }

unfoldable pub holdingsleep : ℕ → SleepLock → Bool
holdingsleep pid lk = lk.locked && (lk.pid == pid)
