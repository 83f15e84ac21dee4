-- ===== src/Spin/Sleep.antt =====
-- Mutual exclusion of a sleep lock between processes.
use xv6_fork.Prelude.{
  ℕ, ◌≡◌, ◌↔◌, refl, ◌⊎◌, inl, inr, arith, true, false, none, some, List, [], ◌∷◌,
}
use xv6_fork.Spin.{SleepLock, acquiresleep, releasesleep, holdingsleep}

-- The lock, and the processes that have returned from acquiresleep and not called releasesleep since.
pub record Users : Type 0 where
  pub lock : SleepLock
  pub holders : List ℕ

pub data Step (u : Users) : Users → Type 0 where
  acquires :
      {k : SleepLock} (pid : ℕ)
      → acquiresleep pid u.lock ≡ some k
      → Step u (record { lock = k; holders = pid ∷ u.holders })
  releases :
      (pid : ℕ) (rest : List ℕ)
      → u.holders ≡ pid ∷ rest
      → Step u (record { lock = releasesleep u.lock; holders = rest })

pub data Reach (u : Users) : Users → Type 0 where
  here : Reach u u
  next : {v w : Users} → Reach u v → Step v w → Reach u w

-- Nobody has the lock, or one process has and the lock says so.
abbrev IsSole : SleepLock → List ℕ → Type 0
IsSole lk held =
    (lk.locked ≡ false) × (held ≡ [])
    ⊎ ((pid : ℕ) × (held ≡ pid ∷ []) × (lk.locked ≡ true) × (lk.pid ≡ pid))

Step-IsSole : {u v : Users} → IsSole u.lock u.holders → Step u v → IsSole v.lock v.holders
unfolding acquiresleep releasesleep
Step-IsSole {u} h (acquires {k} pid a) = elim h [
  | inl (free, none_there) ↦ inr (pid, ground arith, ground arith, ground arith)
  | inr (p, one, taken, mine) ↦ absurd (ground arith)
]
Step-IsSole {u} h (releases pid rest e) = elim h [
  | inl (free, none_there) ↦ absurd (cc)
  | inr (p, one, taken, mine) ↦ inl (refl, ground arith)
]

Run-IsSole : {u v : Users} → IsSole u.lock u.holders → Reach u v → IsSole v.lock v.holders
Run-IsSole h here = h
Run-IsSole h (next r s) = Step-IsSole (Run-IsSole h r) s

-- From a free sleep lock that nobody has, however processes acquire it and release it when they have
-- it: holdingsleep is true of a process exactly if it is the one process that has the lock, and
-- acquiresleep succeeds exactly if none has.
pub Reach-holdingsleep :
    (u v : Users) (pid : ℕ)
    → u.lock.locked ≡ false
    → u.holders ≡ []
    → Reach u v
    → ((holdingsleep pid v.lock ≡ true) ↔ (v.holders ≡ pid ∷ []))
      × ((acquiresleep pid v.lock ≡ none) ↔ ((q : ℕ) × (v.holders ≡ q ∷ [])))
unfolding holdingsleep acquiresleep
Reach-holdingsleep u v pid free none_there r = elim (Run-IsSole (inl (free, none_there)) r) [
  | inl (open_lock, nobody) ↦ (
    ((λ e. absurd (ground arith)), (λ e. absurd (cc))),
    ((λ e. absurd (ground arith)), (λ (q, e). absurd (cc))),
  )
  | inr (p, one, taken, mine) ↦
      (((λ e. ground arith), (λ e. ground arith)), ((λ e. (p, one)), (λ e. ground arith)))
]

-- A lock that a process has is not to be had, not even by the process itself.
pub acquiresleep-held :
    (pid holder : ℕ) (lk : SleepLock) → holdingsleep holder lk ≡ true → acquiresleep pid lk ≡ none
unfolding holdingsleep acquiresleep
acquiresleep-held pid holder lk h = ground arith
