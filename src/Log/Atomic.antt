-- ===== src/Log/Atomic.antt =====
-- Crashes of log.c: a commit that stops anywhere, and restarts that may stop as well.
use xv6_fork.Prelude.{ℕ, ◌≤◌, ◌<◌, ◌≡◌, refl, ◌⊎◌, inl, inr, arith, false, List, [], ◌∷◌, replicate}
use native.Mathlib.Decide.{dec_lt}
use xv6_fork.Log.{Log, log_size, commit, initlog}
use xv6_fork.Log.Disk.{Block, Device, contents, reboot}
use xv6_fork.Log.Layout.{IsHome, state, IsLayout, IsClear, IsCommitted}
use xv6_fork.Log.Restart.{log_with, recover-IsCommitted, recover-IsClear}
use xv6_fork.Log.Commit.{IsReady, commit-old, commit-new}

-- `struct log` as a kernel that has just been loaded has it.
abbrev pub zeroed : Log
zeroed = record {
  start = 0;
  size = 0;
  outstanding = 0;
  committing = false;
  lh = record { n = 0; block = replicate log_size 0 };
}

abbrev pub located : ℕ → ℕ → Log
located start size = record zeroed { start = start; size = size }

-- The machine starts again, runs initlog, and stops after at most `power` disk writes.
unfoldable pub restart : ℕ → ℕ → ℕ → Device → Device
restart start size power d = (initlog start size (state zeroed (reboot power d))).dev

unfoldable pub restarts : ℕ → ℕ → List ℕ → Device → Device
restarts start size [] d = d
restarts start size (power ∷ ps) d = restarts start size ps (restart start size power d)

module _ (start size n : ℕ) (xs : List ℕ) (goal : ℕ → Block) where
  abbrev base : Log
  base = located start size

  -- Either the file system is `goal`, or the log holds all that makes it so.
  abbrev Recoverable : (ℕ → Block) → Type 0
  Recoverable disk = IsClear base goal disk ⊎ IsCommitted (log_with base n xs) goal 0 disk

  module _ (l : IsLayout (log_with base n xs)) where
    sized : 0 < size
    sized = omega (arith, l.fits)

    restart-Recoverable :
        (power : ℕ) (d : Device)
        → Recoverable d.disk
        → Recoverable (restart start size power d).disk
    unfolding restart initlog
    restart-Recoverable power d (inl c) = inl (
        recover-IsClear base goal refl sized (reboot power d) (λ b p q. refl)
          (record { head_size = c.head_size; head = c.head; home = c.home }))
    restart-Recoverable power d (inr c) =
        let r =
          recover-IsCommitted base goal refl sized n xs (reboot power d) l (λ b p q. refl) c in
        elim (dec_lt n power) [ yes on ↦ inl (r.0 on) | no off ↦ inr (r.1 (omega arith)) ]

    restart-IsClear :
        (power : ℕ) (d : Device)
        → n < power
        → Recoverable d.disk
        → IsClear base goal (restart start size power d).disk
    unfolding restart initlog
    restart-IsClear power d on (inl c) =
        recover-IsClear base goal refl sized (reboot power d) (λ b p q. refl)
          (record { head_size = c.head_size; head = c.head; home = c.home })
    restart-IsClear power d on (inr c) =
        (recover-IsCommitted base goal refl sized n xs (reboot power d) l (λ b p q. refl) c).0 on

    restarts-Recoverable :
        (ps : List ℕ) (d : Device)
        → Recoverable d.disk
        → Recoverable (restarts start size ps d).disk
    unfolding restarts
    restarts-Recoverable [] d r = r
    restarts-Recoverable (p ∷ ps) d r =
        restarts-Recoverable ps (restart start size p d) (restart-Recoverable p d r)

-- A crash during commit, and then during any number of restarts, never leaves part of a
-- transaction behind. Let commit be called in a state that meets `IsReady`, on a machine that stops
-- after some number of disk writes; let initlog run any number of times, each stopped after some
-- number of writes; and let it then run with power for more writes than the log has blocks. If the
-- first run stopped before the header was written (it made at most `n` writes), every home block is
-- as it was on the disk before commit; otherwise every home block is as the cache showed it.
pub commit_atomic :
    (g : Log) (d : Device) (ps : List ℕ) (power : ℕ)
    → IsReady g d
    → log_size < power
    → let e = restart g.start g.size power (restarts g.start g.size ps (commit (state g d)).dev) in
      (d.power ≤ g.lh.n → (b : ℕ) → IsHome g b → e.disk b ≡ d.disk b)
      × (g.lh.n < d.power → (b : ℕ) → IsHome g b → e.disk b ≡ contents d b)
commit_atomic g d ps power r on = (before, since)
  where
    g' : Log
    g' = log_with (located g.start g.size) g.lh.n g.lh.block

    l : IsLayout g'
    l = record {
      count = r.layout.count;
      fits = r.layout.fits;
      array = r.layout.array;
      homes = r.layout.homes;
    }

    final :
        (goal : ℕ → Block)
        → Recoverable g.start g.size g.lh.n g.lh.block goal (commit (state g d)).dev.disk
        → (b : ℕ) → IsHome g b
        → (restart g.start g.size power (restarts g.start g.size ps (commit (state g d)).dev)).disk
            b
          ≡ goal b
    final goal c =
        (restart-IsClear g.start g.size g.lh.n g.lh.block goal l power _
          (omega (arith, r.layout.count))
          (restarts-Recoverable g.start g.size g.lh.n g.lh.block goal l ps _ c)).home

    before :
        d.power ≤ g.lh.n
        → (b : ℕ) → IsHome g b
        → (restart g.start g.size power (restarts g.start g.size ps (commit (state g d)).dev)).disk
            b
          ≡ d.disk b
    before off =
        let c = commit-old g d r off in
        final d.disk (inl (record { head_size = c.head_size; head = c.head; home = c.home }))

    since :
        g.lh.n < d.power
        → (b : ℕ) → IsHome g b
        → (restart g.start g.size power (restarts g.start g.size ps (commit (state g d)).dev)).disk
            b
          ≡ contents d b
    since late = final (contents d) (elim (commit-new g d r late) [
      | inl c ↦ inl (record { head_size = c.head_size; head = c.head; home = c.home })
      | inr c ↦ inr (record {
        head_size = c.head_size;
        count = c.count;
        targets = c.targets;
        slots = c.slots;
        home = c.home;
      })
    ])
