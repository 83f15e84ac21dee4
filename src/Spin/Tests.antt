-- ===== src/Spin/Tests.antt =====
-- Two processors and one lock.
use xv6_fork.Prelude.{ℕ, ◌≡◌, refl, true, false, ◌&&◌, none, some, ◌↔◌, [], ◌∷◌}
use xv6_fork.Spin.{
  Cpu, SpinLock, initlock, is_cpu, pushcli, popcli, holding, acquire_enter, acquired,
  acquire_panics, acquire, release, SleepLock, acquiresleep, holdingsleep,
}
use xv6_fork.Spin.Sleep
use xv6_fork.Spin.Sleep.{Users, Reach-holdingsleep}
use xv6_fork.Spin.Nesting.{release-acquire}
use xv6_fork.Spin.Exclusion.{
  idle, spinning, inside, has, put, Machine, Reach, here, next, enters, Reach-IsExclusive,
}

abbrev running : Cpu
running = record { interrupts = true; ncli = 0; intena = false }

release-acquire_example :
    (taken : SpinLock) × (d : Cpu) × (acquire 1 initlock running ≡ acquired taken d)
    × (d.interrupts ≡ false)
    × (acquire 1 taken d ≡ acquire_panics)
    × ((e : Cpu) × (release 1 taken d ≡ some (record { locked = false; cpu = none }, e))
        × (e.interrupts ≡ running.interrupts)
        × (e.ncli ≡ running.ncli))
release-acquire_example = release-acquire 1 initlock running refl (λ ne. absurd (ne refl))

abbrev start : Machine
start = record { cpus = λ c. running; lock = initlock; stage = λ c. idle }

abbrev entered : Machine
entered = record { cpus = λ c. running; lock = initlock; stage = put (λ c. idle) 1 spinning }

entering : Reach start entered
unfolding acquire_enter holding pushcli popcli
entering = next here (enters {d = pushcli running} 1 refl refl)

Reach-IsExclusive_example :
    ((c d : ℕ) → has (entered.stage c) ≡ true → has (entered.stage d) ≡ true → ◌≡◌ {A = ℕ} c d)
    × ((c : ℕ)
        → ((entered.lock.locked && is_cpu entered.lock.cpu c) ≡ true → entered.stage c ≡ inside)
          × (entered.stage c ≡ inside → (entered.lock.locked && is_cpu entered.lock.cpu c) ≡ true))
Reach-IsExclusive_example = Reach-IsExclusive start entered refl (λ c. refl) entering

abbrev unlocked : SleepLock
unlocked = record { locked = false; pid = 0 }

abbrev before : Users
before = record { lock = unlocked; holders = [] }

abbrev after : Users
after = record { lock = record { locked = true; pid = 7 }; holders = 7 ∷ [] }

locking : Sleep.Reach before after
unfolding acquiresleep
locking = Sleep.next Sleep.here (Sleep.acquires 7 refl)

Reach-holdingsleep_example :
    ((holdingsleep 7 after.lock ≡ true) ↔ (after.holders ≡ 7 ∷ []))
    × ((acquiresleep 7 after.lock ≡ none) ↔ ((q : ℕ) × (after.holders ≡ q ∷ [])))
Reach-holdingsleep_example = Reach-holdingsleep before after 7 refl refl locking
