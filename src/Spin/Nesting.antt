-- ===== src/Spin/Nesting.antt =====
-- pushcli and popcli nest, and release undoes acquire.
use xv6_fork.Prelude.{
  ℕ, zero, suc, ◌+◌, ◌≡◌, refl, ap, ◌∙◌, ◌≢◌, inl, inr, Bool-cases, arith, Bool, true, false, ◌&&◌,
  Option, none, some, if◌then◌else◌, ◌==◌,
}
use xv6_fork.Spin.{
  Cpu, SpinLock, pushcli, popcli, is_cpu, holding, acquire_enter, xchg, acquire_mark, release_enter,
  release_leave, acquired, spins, acquire_panics, acquire, release,
}

abbrev pub pushes : ℕ → Cpu → Cpu
pushes zero c = c
pushes (suc n) c = pushes n (pushcli c)

abbrev pub pops : ℕ → Cpu → Option Cpu
pops zero c = some c
pops (suc n) c = let rest = pops n in elim (popcli c) [ none ↦ none | some d ↦ rest d ]

-- Interrupts are off while some pushcli is open.
abbrev pub IsQuiet : Cpu → Type 0
IsQuiet c = c.ncli ≢ 0 → c.interrupts ≡ false

-- popcli undoes a pushcli made with another one open.
popcli-pushcli : (c : Cpu) → c.ncli ≢ 0 → c.interrupts ≡ false → popcli (pushcli c) ≡ some c
unfolding pushcli popcli
popcli-pushcli c ne q = ground arith

-- popcli undoes the first pushcli, but for `intena`, which nothing reads then.
popcli-pushcli_outer :
    (c : Cpu) → c.ncli ≡ 0 → popcli (pushcli c) ≡ some (record c { intena = c.interrupts })
unfolding pushcli popcli
popcli-pushcli_outer c e = ground arith

-- The processor after `k` > 0 pushcli.
abbrev raised : Cpu → ℕ → Cpu
raised c k = record {
  interrupts = false;
  ncli = c.ncli + k;
  intena = if c.ncli == 0 then c.interrupts else c.intena;
}

cpu_eq :
    (b b' i i' : Bool) (n n' : ℕ)
    → b ≡ b'
    → n ≡ n'
    → i ≡ i'
    → ◌≡◌ {A = Cpu}
        (record { interrupts = b; ncli = n; intena = i })
        (record { interrupts = b'; ncli = n'; intena = i' })
cpu_eq b b' i i' n n' e f g = cc

pushes-raised : (n : ℕ) (c : Cpu) → pushes (suc n) c ≡ raised c (suc n)
unfolding pushcli
pushes-raised zero c = refl
pushes-raised (suc n) c =
    pushes-raised n (pushcli c) ∙ cpu_eq false false _ _ _ _ refl (omega arith) (ground arith)

popcli-raised : (n : ℕ) (c : Cpu) → popcli (raised c (suc (suc n))) ≡ some (raised c (suc n))
unfolding popcli
popcli-raised n c = ground arith

-- The processor after the last popcli.
abbrev settled : Cpu → Cpu
settled c = record {
  interrupts = c.interrupts;
  ncli = c.ncli;
  intena = if c.ncli == 0 then c.interrupts else c.intena;
}

popcli-settled : (c : Cpu) → IsQuiet c → popcli (raised c 1) ≡ some (settled c)
unfolding popcli
popcli-settled c q = elim (Bool-cases (c.ncli == 0)) [
  | inl z ↦ ground arith
  | inr nz ↦ let off = q (ground arith) in ground arith
]

pops-raised : (n : ℕ) (c : Cpu) → IsQuiet c → pops (suc n) (raised c (suc n)) ≡ some (settled c)
pops-raised zero c q = rw (popcli-settled c q, pops) refl
pops-raised (suc n) c q = rw (popcli-raised n c, pops) (pops-raised n c q)

-- `n` popcli undo `n` pushcli: the interrupt flag and the depth are what they were. Between them
-- interrupts are off.
pub pops-pushes :
    (n : ℕ) (c : Cpu)
    → IsQuiet c
    → ((d : Cpu) × (pops (suc n) (pushes (suc n) c) ≡ some d)
        × (d.interrupts ≡ c.interrupts)
        × (d.ncli ≡ c.ncli))
      × ((pushes (suc n) c).interrupts ≡ false)
pops-pushes n c q = (
  (settled c, ap (pops (suc n)) (pushes-raised n c) ∙ pops-raised n c q, refl, refl),
  ap (λ d. d.interrupts) (pushes-raised n c),
)

pushcli-raised : (c : Cpu) → pushcli c ≡ raised c 1
unfolding pushcli
pushcli-raised c = refl

holding-raised :
    (me : ℕ) (lk : SpinLock) (c : Cpu)
    → holding me lk (raised c 1) ≡ some (lk.locked && is_cpu lk.cpu me, raised c 1)
unfolding holding
holding-raised me lk c = rw (popcli-pushcli (raised c 1) (omega arith) refl, holding) refl

acquire_enter-lem :
    (me : ℕ) (lk : SpinLock) (c : Cpu)
    → acquire_enter me lk c ≡ (if lk.locked && is_cpu lk.cpu me then none else some (raised c 1))
unfolding acquire_enter holding popcli pushcli
acquire_enter-lem me lk c = rw (holding-raised me lk c, acquire_enter) refl

abbrev taken_by : ℕ → SpinLock
taken_by me = record { locked = true; cpu = some me }

module _ (me : ℕ) (c : Cpu) where
  is_cpu_self : is_cpu (some me) me ≡ true
  is_cpu_self = ground arith

  acquire-free :
      (lk : SpinLock) → lk.locked ≡ false → acquire me lk c ≡ acquired (taken_by me) (raised c 1)
  unfolding acquire xchg acquire_mark
  acquire-free lk free =
      let unheld : (lk.locked && is_cpu lk.cpu me) ≡ false = ground arith in
      let entered : acquire_enter me lk c ≡ some (raised c 1) =
        acquire_enter-lem me lk c ∙ rw unheld in
      let tried : acquire me lk c
          ≡ (if lk.locked then spins (raised c 1) else acquired (taken_by me) (raised c 1)) =
        rw (entered, acquire) refl in
      tried ∙ rw free

  acquire-again : acquire me (taken_by me) (raised c 1) ≡ acquire_panics
  unfolding acquire
  acquire-again = rw (acquire_enter-lem me (taken_by me) (raised c 1), is_cpu_self, acquire) refl

  release-taken :
      IsQuiet c
      → release me (taken_by me) (raised c 1)
        ≡ some (record { locked = false; cpu = none }, settled c)
  unfolding release release_enter release_leave
  release-taken q =
      rw
        (
          holding-raised me (taken_by me) c,
          is_cpu_self,
          popcli-settled c q,
          release,
          release_enter,
          release_leave,
        )
        refl

-- acquire of a free lock succeeds with interrupts off, a second acquire by the same processor panics,
-- and release gives the lock back free and the interrupt flag and depth of the processor as they were.
pub release-acquire :
    (me : ℕ) (lk : SpinLock) (c : Cpu)
    → lk.locked ≡ false
    → IsQuiet c
    → (taken : SpinLock) × (d : Cpu) × (acquire me lk c ≡ acquired taken d)
      × (d.interrupts ≡ false)
      × (acquire me taken d ≡ acquire_panics)
      × ((e : Cpu) × (release me taken d ≡ some (record { locked = false; cpu = none }, e))
          × (e.interrupts ≡ c.interrupts)
          × (e.ncli ≡ c.ncli))
release-acquire me lk c free q = (
  taken_by me,
  raised c 1,
  acquire-free me c lk free,
  refl,
  acquire-again me c,
  (settled c, release-taken me c q, refl, refl),
)
