-- ===== src/Log/Commit.antt =====
-- commit of log.c, stopped at any disk write: what is on the disk then.
use xv6_fork.Prelude.{
  ℕ, ◌+◌, ◌≤◌, ◌<◌, ◌≡◌, refl, sym, ◌∙◌, ◌⊎◌, inl, inr, arith, none, get_or, length, ◌==◌,
  Bool-cases, ==_iff, if◌then◌else◌,
}
use native.Mathlib.Decide.{dec_lt}
use xv6_fork.Log.{Log, commit}
use xv6_fork.Log.Disk.{Device, contents, contents_clean}
use xv6_fork.Log.Head.{
  encoded-count, encoded-size, encoded-target, headed, headed_ne, headed_self, headed_stopped,
  power-headed, write_head-state, headed-IsTidy,
}
use xv6_fork.Log.Layout.{
  block_words, IsHome, IsTidy, target, state, IsLayout, IsClear, IsCommitted, rounds_lem,
  home-ne-start,
}
use xv6_fork.Log.Write.{IsOpen, logged, write_log-state, power-logged, logged-IsOpen, logged-full}
use xv6_fork.Log.Recover.{
  finished, finish-state, finished-IsClear, finished-stopped, finished_stopped,
}

-- The header and the disk that commit is called with: no transaction on the disk, no log block in
-- the cache, and every changed block recorded in the header.
pub record IsReady (g : Log) (d : Device) : Type 0 where
  pub layout : IsLayout g
  pub head_size : length (d.disk g.start) ≡ block_words
  pub head : get_or (d.disk g.start) 0 0 ≡ 0
  pub tidy : IsTidy g d
  pub recorded :
      (b : ℕ) → IsHome g b → (d.dirty b ≡ none) ⊎ ((j : ℕ) × (j < g.lh.n) × (target g j ≡ b))

module _ (g : Log) (d : Device) (r : IsReady g d) where
  IsOpen-now : IsOpen g d.disk (contents d) 0 d
  IsOpen-now = record {
    head_size = r.head_size;
    head = r.head;
    tidy = r.tidy;
    home = λ b p. refl;
    shown = λ b p. refl;
    slots = λ j p. absurd (omega arith);
  }

  after_log : Device
  after_log = logged g r.layout d.disk (contents d) d

  pub after_head : Device
  after_head = headed g after_log

  pub after_commit : Device
  after_commit = finished g r.layout (contents d) after_head

  pub commit-state : (commit (state g d)).dev ≡ (if 0 == g.lh.n then d else after_commit)
  unfolding commit after_commit after_head after_log
  commit-state = elim (Bool-cases (0 == g.lh.n)) [
    | inl none_logged ↦ rw (rounds_lem g.lh.n r.layout.count, none_logged)
    | inr some_logged ↦ rw (
      rounds_lem g.lh.n r.layout.count,
      some_logged,
      write_log-state g r.layout d.disk (contents d) d,
      write_head-state g (logged g r.layout d.disk (contents d) d) r.layout.count,
      finish-state g r.layout (contents d) (headed g (logged g r.layout d.disk (contents d) d)),
    )
  ]

  IsClear-before : (e : Device) → IsOpen g d.disk (contents d) 0 e → IsClear g d.disk e.disk
  IsClear-before e o = record { head_size = o.head_size; head = o.head; home = o.home }

  -- The header is not written: the old file system stands.
  after_commit-old : d.power ≤ g.lh.n → IsClear g d.disk after_commit.disk
  unfolding after_commit after_head after_log
  after_commit-old off =
      let e = logged g r.layout d.disk (contents d) d in
      let p : e.power ≡ 0 = omega (arith, power-logged g r.layout d.disk (contents d) d) in
      rw (headed_stopped g e p, finished_stopped g r.layout (contents d) e p)
        (IsClear-before e (logged-IsOpen g r.layout d.disk (contents d) d IsOpen-now))

  -- The header is written: the whole transaction is on the disk.
  after_head-IsCommitted : g.lh.n < d.power → IsCommitted g (contents d) 0 after_head.disk
  unfolding after_head after_log
  after_head-IsCommitted on =
      let e = logged g r.layout d.disk (contents d) d in
      let o = logged-full g r.layout d.disk (contents d) d (omega arith) IsOpen-now in
      let p : 0 < e.power = omega (arith, power-logged g r.layout d.disk (contents d) d) in
      let self = headed_self g e p (o.tidy g.start (omega arith) (omega (arith, r.layout.fits))) in
      record {
        head_size = rw self.0 (encoded-size g.lh.n g.lh.block (e.disk g.start) ∙ o.head_size);
        count =
            rw self.0
              (encoded-count g.lh.n g.lh.block (e.disk g.start) (omega (arith, o.head_size)));
        targets = λ j q. rw self.0 (
            encoded-target g.lh.n j g.lh.block (e.disk g.start)
              (omega (arith, o.head_size, r.layout.count)) q);
        slots = λ j q. (headed_ne g e (g.start + j + 1) (λ w. omega arith)).0 ∙ o.slots j q;
        home = λ b q.
            let same =
              (headed_ne g e b (λ w. home-ne-start g b r.layout q (sym w))).0 ∙ o.home b q in
            elim (r.recorded b q) [
              | inl unchanged ↦ inl (same ∙ sym (contents_clean d b unchanged))
              | inr (j, lt, at) ↦ inr (j, omega arith, lt, at)
            ];
      }

  after_head-IsTidy : IsTidy g after_head
  unfolding after_head after_log
  after_head-IsTidy =
      headed-IsTidy g (logged g r.layout d.disk (contents d) d)
        (logged-IsOpen g r.layout d.disk (contents d) d IsOpen-now).tidy

  pub commit-old : d.power ≤ g.lh.n → IsClear g d.disk (commit (state g d)).dev.disk
  commit-old off = rw commit-state (elim (Bool-cases (0 == g.lh.n)) [
    | inl none_logged ↦ rw none_logged (IsClear-before d IsOpen-now)
    | inr some_logged ↦ rw some_logged (after_commit-old off)
  ])

  -- With nothing recorded the cache and the disk agree.
  nothing_new : g.lh.n ≡ 0 → IsClear g (contents d) d.disk
  nothing_new e = record {
    head_size = r.head_size;
    head = r.head;
    home = λ b p. elim (r.recorded b p) [
      | inl unchanged ↦ sym (contents_clean d b unchanged)
      | inr (j, lt, at) ↦ absurd (omega arith)
    ];
  }

  pub commit-new :
      g.lh.n < d.power
      → IsClear g (contents d) (commit (state g d)).dev.disk
        ⊎ IsCommitted g (contents d) 0 (commit (state g d)).dev.disk
  unfolding after_commit
  commit-new on = rw commit-state (elim (Bool-cases (0 == g.lh.n)) [
    | inl none_logged ↦ rw none_logged (inl (nothing_new (sym ((==_iff 0 g.lh.n).0 none_logged))))
    | inr some_logged ↦ rw some_logged (elim (dec_lt g.lh.n after_head.power) [
      | yes p ↦ inl (
          finished-IsClear g r.layout (contents d) after_head p after_head-IsTidy
            (after_head-IsCommitted on))
      | no p ↦ inr (
          finished-stopped g r.layout (contents d) after_head (omega arith)
            (after_head-IsCommitted on))
    ])
  ])

  -- With power for all its writes, commit itself brings every home block up to date.
  pub commit-done :
      g.lh.n + g.lh.n + 1 < d.power → IsClear g (contents d) (commit (state g d)).dev.disk
  unfolding after_commit after_head after_log
  commit-done on = rw commit-state (elim (Bool-cases (0 == g.lh.n)) [
    | inl none_logged ↦ rw none_logged (nothing_new (sym ((==_iff 0 g.lh.n).0 none_logged)))
    | inr some_logged ↦
        let e = logged g r.layout d.disk (contents d) d in
        rw some_logged (
          finished-IsClear g r.layout (contents d) after_head
            (omega (arith, power-headed g e, power-logged g r.layout d.disk (contents d) d))
            after_head-IsTidy (after_head-IsCommitted (omega arith)))
  ])
