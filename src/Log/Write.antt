-- ===== src/Log/Write.antt =====
-- The first half of commit in log.c: write_log and write_head, on a machine that may stop at any
-- disk write.
use xv6_fork.Prelude.{ℕ, zero, suc, ◌+◌, ◌-◌, ◌≤◌, ◌<◌, ◌≡◌, refl, sym, ◌∙◌, arith, get_or, length}
use native.Mathlib.Decide.{ℕ_discrete}
use xv6_fork.Log.{Log, log_one, log_from, write_log}
use xv6_fork.Log.Disk.{
  Block, Device, contents, bwrite, power-bwrite, bwrite_self, bwrite_ne, bwrite-clean,
  contents-of_eq,
}
use xv6_fork.Log.Layout.{
  block_words, IsHome, IsTidy, target, state, IsLayout, rounds_lem, home-ne-slot,
}

-- A device in which a transaction is open: the disk's file system is still `old`, and the cache
-- shows `new`. The log blocks below `tail` are written.
pub record IsOpen (g : Log) (old new : ℕ → Block) (tail : ℕ) (d : Device) : Type 0 where
  pub head_size : length (d.disk g.start) ≡ block_words
  pub head : get_or (d.disk g.start) 0 0 ≡ 0
  pub tidy : IsTidy g d
  pub home : (b : ℕ) → IsHome g b → d.disk b ≡ old b
  pub shown : (b : ℕ) → IsHome g b → contents d b ≡ new b
  pub slots : (j : ℕ) → j < tail → d.disk (g.start + j + 1) ≡ new (target g j)

module _ (g : Log) (l : IsLayout g) (old new : ℕ → Block) where
  log_dev : ℕ → Device → Device
  log_dev tail d = (log_one tail (state g d)).dev

  -- One round changes only its log block, so it keeps an open transaction open.
  log_one-IsOpen :
      (tail : ℕ) (d : Device)
      → tail < g.lh.n
      → IsOpen g old new 0 d
      → IsOpen g old new 0 (log_dev tail d)
  unfolding log_dev
  log_one-IsOpen tail d h o =
      let v = contents d (target g tail) in
      let slot = g.start + tail + 1 in
      let at_start = bwrite_ne d slot v g.start (λ e. omega arith) in
      record {
        head_size = rw at_start.0 o.head_size;
        head = rw at_start.0 o.head;
        tidy = λ b p q. bwrite-clean d slot v b (o.tidy b p q);
        home =
            λ b p. (bwrite_ne d slot v b (λ e. home-ne-slot g b tail l p h (sym e))).0 ∙ o.home b p;
        shown = λ b p.
            let ne = bwrite_ne d slot v b (λ e. home-ne-slot g b tail l p h (sym e)) in
            contents-of_eq (bwrite d slot v) d b ne.0 ne.1 ∙ o.shown b p;
        slots = λ j p. absurd (omega arith);
      }

  -- With power left the round fills its log block.
  log_one-slots :
      (tail : ℕ) (d : Device)
      → tail < g.lh.n
      → 0 < d.power
      → IsOpen g old new tail d
      → (j : ℕ) → j < suc tail
      → (log_dev tail d).disk (g.start + j + 1) ≡ new (target g j)
  unfolding log_dev
  log_one-slots tail d h on o j p = elim (ℕ_discrete j tail) [
    | yes e ↦ rw e (
        (bwrite_self d (g.start + tail + 1) (contents d (target g tail)) on).0
        ∙ o.shown (target g tail) (l.homes tail h))
    | no ne ↦
        (bwrite_ne d (g.start + tail + 1) (contents d (target g tail)) (g.start + j + 1)
          (λ e. ne (omega arith))).0
        ∙ o.slots j (omega arith)
  ]

  with_slots :
      (t u : ℕ) (d : Device)
      → IsOpen g old new t d
      → ((j : ℕ) → j < u → d.disk (g.start + j + 1) ≡ new (target g j))
      → IsOpen g old new u d
  with_slots t u d o filled = record {
    head_size = o.head_size;
    head = o.head;
    tidy = o.tidy;
    home = o.home;
    shown = o.shown;
    slots = filled;
  }

  log_one-next :
      (tail : ℕ) (d : Device)
      → tail < g.lh.n
      → 0 < d.power
      → IsOpen g old new tail d
      → IsOpen g old new (suc tail) (log_dev tail d)
  log_one-next tail d h on o =
      let o0 = with_slots tail 0 d o (λ j p. absurd (omega arith)) in
      with_slots 0 (suc tail) (log_dev tail d) (log_one-IsOpen tail d h o0)
        (log_one-slots tail d h on o)

  log_devs : ℕ → ℕ → Device → Device
  log_devs zero tail d = d
  log_devs (suc k) tail d = log_devs k (suc tail) (log_dev tail d)

  log_from-state :
      (k tail : ℕ) (d : Device) → log_from k tail (state g d) ≡ state g (log_devs k tail d)
  unfolding log_from log_devs log_dev
  log_from-state zero tail d = refl
  log_from-state (suc k) tail d = log_from-state k (suc tail) (log_dev tail d)

  power-log_devs : (k tail : ℕ) (d : Device) → (log_devs k tail d).power ≡ d.power - k
  unfolding log_devs log_dev
  power-log_devs zero tail d = omega arith
  power-log_devs (suc k) tail d = omega (
    arith,
    power-log_devs k (suc tail) (log_dev tail d),
    power-bwrite d (g.start + tail + 1) (contents d (target g tail)),
  )

  log_devs-IsOpen :
      (k tail : ℕ) (d : Device)
      → tail + k ≤ g.lh.n
      → IsOpen g old new 0 d
      → IsOpen g old new 0 (log_devs k tail d)
  unfolding log_devs
  log_devs-IsOpen zero tail d h o = o
  log_devs-IsOpen (suc k) tail d h o =
      log_devs-IsOpen k (suc tail) (log_dev tail d) (omega arith)
        (log_one-IsOpen tail d (omega arith) o)

  log_devs-full :
      (k tail : ℕ) (d : Device)
      → tail + k ≡ g.lh.n
      → k ≤ d.power
      → IsOpen g old new tail d
      → IsOpen g old new g.lh.n (log_devs k tail d)
  unfolding log_devs log_dev
  log_devs-full zero tail d h p o = with_slots tail g.lh.n d o (λ j q. o.slots j (omega arith))
  log_devs-full (suc k) tail d h p o =
      log_devs-full k (suc tail) (log_dev tail d) (omega arith)
        (omega (arith, power-bwrite d (g.start + tail + 1) (contents d (target g tail))))
        (log_one-next tail d (omega arith) (omega arith) o)

  -- write_log, as a device: it never touches a home block or the header.
  pub logged : Device → Device
  logged d = log_devs g.lh.n 0 d

  pub write_log-state : (d : Device) → write_log (state g d) ≡ state g (logged d)
  unfolding write_log logged
  write_log-state d = rw (rounds_lem g.lh.n l.count) (log_from-state g.lh.n 0 d)

  pub power-logged : (d : Device) → (logged d).power ≡ d.power - g.lh.n
  unfolding logged
  power-logged d = power-log_devs g.lh.n 0 d

  pub logged-IsOpen : (d : Device) → IsOpen g old new 0 d → IsOpen g old new 0 (logged d)
  unfolding logged
  logged-IsOpen d o = log_devs-IsOpen g.lh.n 0 d (omega arith) o

  pub logged-full :
      (d : Device) → g.lh.n ≤ d.power → IsOpen g old new 0 d → IsOpen g old new g.lh.n (logged d)
  unfolding logged
  logged-full d p o = log_devs-full g.lh.n 0 d (omega arith) p o
