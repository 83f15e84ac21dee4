-- ===== src/Log/Recover.antt =====
-- install_trans and recover_from_log of log.c on a disk that holds a committed transaction, on a
-- machine that may stop at any disk write.
use xv6_fork.Prelude.{
  ℕ, zero, suc, ◌+◌, ◌-◌, ◌≤◌, ◌<◌, ◌≡◌, refl, sym, ap, ◌∙◌, ◌≢◌, ◌⊎◌, inl, inr, arith,
}
use native.Mathlib.Decide.{ℕ_discrete, dec_lt}
use xv6_fork.Log.{Log, install_one, install_from, install_trans, clear_head}
use xv6_fork.Log.Disk.{
  Block, Device, contents, bwrite, power-bwrite, bwrite_self, bwrite_ne, bwrite-clean,
  contents_clean,
}
use xv6_fork.Log.Head.{
  encoded-count, encoded-size, headed, headed_ne, headed_self, headed_stopped, power-headed,
  write_head-state,
}
use xv6_fork.Log.Layout.{
  IsHome, IsTidy, target, state, IsLayout, IsClear, IsCommitted, rounds_lem, home-ne-start,
  home-ne-slot,
}

module _ (g : Log) (l : IsLayout g) (goal : ℕ → Block) where
  install_dev : ℕ → Device → Device
  install_dev tail d = (install_one tail (state g d)).dev

  -- Whether or not it happens, a round of install_trans keeps the transaction on the disk.
  install_one-IsCommitted :
      (tail : ℕ) (d : Device)
      → tail < g.lh.n
      → IsCommitted g goal 0 d.disk
      → IsCommitted g goal 0 (install_dev tail d).disk
  unfolding install_dev
  install_one-IsCommitted tail d h c =
      let v = contents d (g.start + tail + 1) in
      let t = target g tail in
      let at_start = bwrite_ne d t v g.start (home-ne-start g t l (l.homes tail h)) in
      record {
        head_size = rw at_start.0 c.head_size;
        count = rw at_start.0 c.count;
        targets = λ j p. rw at_start.0 (c.targets j p);
        slots = λ j p.
            (bwrite_ne d t v (g.start + j + 1) (home-ne-slot g t j l (l.homes tail h) p)).0
            ∙ c.slots j p;
        home = λ b p. elim (ℕ_discrete t b) [
          | yes e ↦ inr (tail, omega arith, h, e)
          | no ne ↦ elim (c.home b p) [
            | inl done ↦ inl ((bwrite_ne d t v b ne).0 ∙ done)
            | inr todo ↦ inr todo
          ]
        ];
      }

  -- With power left, the round settles its home block.
  install_one-home :
      (tail : ℕ) (d : Device)
      → tail < g.lh.n
      → 0 < d.power
      → IsTidy g d
      → IsCommitted g goal tail d.disk
      → (b : ℕ) → IsHome g b
      → ((install_dev tail d).disk b ≡ goal b)
        ⊎ ((j : ℕ) × (suc tail ≤ j) × (j < g.lh.n) × (target g j ≡ b))
  unfolding install_dev
  install_one-home tail d h on tidy c b p =
      let slot = g.start + tail + 1 in
      let v = contents d slot in
      let t = target g tail in
      let v_goal : v ≡ goal t =
        contents_clean d slot (tidy slot (omega arith) (omega (arith, l.fits))) ∙ c.slots tail h in
      elim (ℕ_discrete t b) [
        | yes e ↦ inl (rw (← e) ((bwrite_self d t v on).0 ∙ v_goal))
        | no ne ↦ elim (c.home b p) [
          | inl done ↦ inl ((bwrite_ne d t v b ne).0 ∙ done)
          | inr (j, lo, hi, e) ↦ inr (j, later tail j lo (λ q. ne (ap (target g) q ∙ e)), hi, e)
        ]
      ]
    where
      later : (a j : ℕ) → a ≤ j → a ≢ j → suc a ≤ j
      later a j q ne = omega arith

  from_tail :
      (t u : ℕ) (disk : ℕ → Block)
      → IsCommitted g goal t disk
      → ((b : ℕ)
          → IsHome g b
          → (disk b ≡ goal b) ⊎ ((j : ℕ) × (u ≤ j) × (j < g.lh.n) × (target g j ≡ b)))
      → IsCommitted g goal u disk
  from_tail t u disk c settled = record {
    head_size = c.head_size;
    count = c.count;
    targets = c.targets;
    slots = c.slots;
    home = settled;
  }

  from_start : (t : ℕ) (disk : ℕ → Block) → IsCommitted g goal t disk → IsCommitted g goal 0 disk
  from_start t disk c = from_tail t 0 disk c λ b p. elim (c.home b p) [
    | inl done ↦ inl done
    | inr (j, lo, hi, e) ↦ inr (j, omega arith, hi, e)
  ]

  install_devs : ℕ → ℕ → Device → Device
  install_devs zero tail d = d
  install_devs (suc k) tail d = install_devs k (suc tail) (install_dev tail d)

  install_from-state :
      (k tail : ℕ) (d : Device) → install_from k tail (state g d) ≡ state g (install_devs k tail d)
  unfolding install_from install_devs install_dev
  install_from-state zero tail d = refl
  install_from-state (suc k) tail d = install_from-state k (suc tail) (install_dev tail d)

  power-install_devs : (k tail : ℕ) (d : Device) → (install_devs k tail d).power ≡ d.power - k
  unfolding install_devs install_dev
  power-install_devs zero tail d = omega arith
  power-install_devs (suc k) tail d = omega (
    arith,
    power-install_devs k (suc tail) (install_dev tail d),
    power-bwrite d (target g tail) (contents d (g.start + tail + 1)),
  )

  install_devs-IsTidy : (k tail : ℕ) (d : Device) → IsTidy g d → IsTidy g (install_devs k tail d)
  unfolding install_devs install_dev
  install_devs-IsTidy zero tail d t = t
  install_devs-IsTidy (suc k) tail d t =
      install_devs-IsTidy k (suc tail) (install_dev tail d)
        (λ b p q. bwrite-clean d (target g tail) _ b (t b p q))

  install_devs-IsCommitted :
      (k tail : ℕ) (d : Device)
      → tail + k ≤ g.lh.n
      → IsCommitted g goal 0 d.disk
      → IsCommitted g goal 0 (install_devs k tail d).disk
  unfolding install_devs
  install_devs-IsCommitted zero tail d h c = c
  install_devs-IsCommitted (suc k) tail d h c =
      install_devs-IsCommitted k (suc tail) (install_dev tail d) (omega arith)
        (install_one-IsCommitted tail d (omega arith) c)

  install_devs-full :
      (k tail : ℕ) (d : Device)
      → tail + k ≡ g.lh.n
      → k ≤ d.power
      → IsTidy g d
      → IsCommitted g goal tail d.disk
      → IsCommitted g goal g.lh.n (install_devs k tail d).disk
  unfolding install_devs install_dev
  install_devs-full zero tail d h p tidy c =
      from_tail tail g.lh.n d.disk c
        λ b q. elim (c.home b q) [ inl done ↦ inl done | inr (j, lo, hi, e) ↦ absurd (omega arith) ]
  install_devs-full (suc k) tail d h p tidy c =
      let d' = install_dev tail d in
      let next =
        from_tail 0 (suc tail) d'.disk
          (install_one-IsCommitted tail d (omega arith) (from_start tail d.disk c))
          (install_one-home tail d (omega arith) (omega arith) tidy c) in
      install_devs-full k (suc tail) d' (omega arith)
        (omega (arith, power-bwrite d (target g tail) (contents d (g.start + tail + 1))))
        (λ b q r. bwrite-clean d (target g tail) _ b (tidy b q r)) next

  -- install_trans followed by clearing the header, as a device.
  pub finished : Device → Device
  finished d = headed (record g { lh = record g.lh { n = 0 } }) (install_devs g.lh.n 0 d)

  pub finish-state :
      (d : Device)
      → clear_head (install_trans (state g d))
        ≡ state (record g { lh = record g.lh { n = 0 } }) (finished d)
  unfolding finished install_trans clear_head
  finish-state d =
      rw (rounds_lem g.lh.n l.count, install_from-state g.lh.n 0 d)
        (write_head-state (record g { lh = record g.lh { n = 0 } }) (install_devs g.lh.n 0 d)
          (omega arith))

  pub power-finished : (d : Device) → (finished d).power ≡ d.power - (g.lh.n + 1)
  unfolding finished
  power-finished d = omega (
    arith,
    power-install_devs g.lh.n 0 d,
    power-headed (record g { lh = record g.lh { n = 0 } }) (install_devs g.lh.n 0 d),
  )

  -- When everything is installed the home blocks are as wanted.
  settled :
      (d : Device) → IsCommitted g goal g.lh.n d.disk → (b : ℕ) → IsHome g b → d.disk b ≡ goal b
  settled d c b p = elim (c.home b p) [
    | inl done ↦ done
    | inr (j, lo, hi, e) ↦ absurd (omega arith)
  ]

  headed-IsClear :
      (d : Device)
      → 0 < d.power
      → IsTidy g d
      → IsCommitted g goal g.lh.n d.disk
      → IsClear g goal (headed (record g { lh = record g.lh { n = 0 } }) d).disk
  headed-IsClear d on tidy c =
      let g0 = record g { lh = record g.lh { n = 0 } } in
      let self = headed_self g0 d on (tidy g.start (omega arith) (omega (arith, l.fits))) in
      record {
        head_size = rw self.0 (encoded-size 0 g.lh.block (d.disk g.start) ∙ c.head_size);
        head = rw self.0 (encoded-count 0 g.lh.block (d.disk g.start) (omega (arith, c.head_size)));
        home = λ b p. (headed_ne g0 d b (λ e. home-ne-start g b l p (sym e))).0 ∙ settled d c b p;
      }

  -- Enough power finishes the job; with less, the transaction stays on the disk.
  pub finished-IsClear :
      (d : Device)
      → g.lh.n < d.power
      → IsTidy g d
      → IsCommitted g goal 0 d.disk
      → IsClear g goal (finished d).disk
  unfolding finished
  finished-IsClear d p tidy c =
      headed-IsClear (install_devs g.lh.n 0 d) (omega (arith, power-install_devs g.lh.n 0 d))
        (install_devs-IsTidy g.lh.n 0 d tidy)
        (install_devs-full g.lh.n 0 d (omega arith) (omega arith) tidy c)

  pub finished-stopped :
      (d : Device)
      → d.power ≤ g.lh.n
      → IsCommitted g goal 0 d.disk
      → IsCommitted g goal 0 (finished d).disk
  unfolding finished
  finished-stopped d p c =
      rw
        (headed_stopped (record g { lh = record g.lh { n = 0 } }) (install_devs g.lh.n 0 d)
          (omega (arith, power-install_devs g.lh.n 0 d)))
        (install_devs-IsCommitted g.lh.n 0 d (omega arith) c)

  install_devs_none : (k : ℕ) (d : Device) → k ≡ 0 → install_devs k 0 d ≡ d
  unfolding install_devs
  install_devs_none zero d e = refl
  install_devs_none (suc k) d e = absurd (omega arith)

  headed-of_IsClear :
      (d : Device)
      → IsTidy g d
      → IsClear g goal d.disk
      → IsClear g goal (headed (record g { lh = record g.lh { n = 0 } }) d).disk
  headed-of_IsClear d tidy c = elim (dec_lt 0 d.power) [
    | yes on ↦
        let g0 = record g { lh = record g.lh { n = 0 } } in
        let self = headed_self g0 d on (tidy g.start (omega arith) (omega (arith, l.fits))) in
        record {
          head_size = rw self.0 (encoded-size 0 g.lh.block (d.disk g.start) ∙ c.head_size);
          head =
              rw self.0 (encoded-count 0 g.lh.block (d.disk g.start) (omega (arith, c.head_size)));
          home = λ b p. (headed_ne g0 d b (λ e. home-ne-start g b l p (sym e))).0 ∙ c.home b p;
        }
    | no off ↦ rw (headed_stopped (record g { lh = record g.lh { n = 0 } }) d (omega arith)) c
  ]

  -- With no transaction on the disk, clearing the header again changes nothing that matters.
  pub finished-of_IsClear :
      (d : Device)
      → g.lh.n ≡ 0
      → IsTidy g d
      → IsClear g goal d.disk
      → IsClear g goal (finished d).disk
  unfolding finished
  finished-of_IsClear d e tidy c = rw (install_devs_none g.lh.n d e) (headed-of_IsClear d tidy c)

  install_devs_stopped : (k tail : ℕ) (d : Device) → d.power ≡ 0 → install_devs k tail d ≡ d
  unfolding install_devs install_dev
  install_devs_stopped zero tail d e = refl
  install_devs_stopped (suc k) tail d e =
      let still : install_dev tail d ≡ d = unfold install_dev in rw (e, bwrite) in
      rw still (install_devs_stopped k (suc tail) d e)

  -- A machine that has stopped does nothing more.
  pub finished_stopped : (d : Device) → d.power ≡ 0 → finished d ≡ d
  unfolding finished
  finished_stopped d e =
      rw (install_devs_stopped g.lh.n 0 d e)
        (headed_stopped (record g { lh = record g.lh { n = 0 } }) d e)
