-- ===== src/Log/Restart.antt =====
-- initlog of log.c when the machine starts again: recovery from the disk that a crash left, on a
-- machine that may stop once more.
use xv6_fork.Prelude.{ℕ, ◌≤◌, ◌<◌, ◌≡◌, refl, sym, ap, ◌∙◌, inl, inr, arith, List, get_or, length}
use mathlib.Core.Path.{subst}
use xv6_fork.Log.{Log, log_size, read_head, recover_from_log, read_blocks}
use xv6_fork.Log.Disk.{Block, Device, contents_clean}
use xv6_fork.Log.Words.{length-read_blocks, read_blocks-inside}
use xv6_fork.Log.Layout.{IsHome, IsTidy, state, IsLayout, IsClear, IsCommitted, rounds_lem}
use xv6_fork.Log.Recover.{finish-state, finished-IsClear, finished-stopped, finished-of_IsClear}

abbrev pub log_with : Log → ℕ → List ℕ → Log
log_with b n xs = record b { lh = record { n = n; block = xs } }

module _ (b : Log) (goal : ℕ → Block) where
  same_targets :
      (n : ℕ) (xs ys : List ℕ) (disk : ℕ → Block)
      → ((j : ℕ) → j < n → get_or xs j 0 ≡ get_or ys j 0)
      → IsCommitted (log_with b n xs) goal 0 disk
      → IsCommitted (log_with b n ys) goal 0 disk
  same_targets n xs ys disk e c = record {
    head_size = c.head_size;
    count = c.count;
    targets = λ j p. c.targets j p ∙ e j p;
    slots = λ j p. c.slots j p ∙ ap goal (e j p);
    home = λ a p. elim (c.home a p) [
      | inl done ↦ inl done
      | inr (j, lo, hi, q) ↦ inr (j, lo, hi, sym (e j hi) ∙ q)
    ];
  }

  IsClear-of :
      (n : ℕ) (xs : List ℕ) (disk : ℕ → Block)
      → IsClear (log_with b n xs) goal disk
      → IsClear b goal disk
  IsClear-of n xs disk c = record { head_size = c.head_size; head = c.head; home = c.home }

  IsClear-to :
      (n : ℕ) (xs : List ℕ) (disk : ℕ → Block)
      → IsClear b goal disk
      → IsClear (log_with b n xs) goal disk
  IsClear-to n xs disk c = record { head_size = c.head_size; head = c.head; home = c.home }

  abbrev read_back : ℕ → Device → List ℕ
  read_back n d = read_blocks n 0 (d.disk b.start) b.lh.block

  module _ (array : length b.lh.block ≡ log_size) (sized : 0 < b.size) where
    read_head-state :
        (n : ℕ) (d : Device)
        → n ≤ log_size
        → IsTidy b d
        → get_or (d.disk b.start) 0 0 ≡ n
        → read_head (state b d) ≡ state (log_with b n (read_back n d)) d
    unfolding read_head
    read_head-state n d h tidy e =
        rw (contents_clean d b.start (tidy b.start (omega arith) (omega arith)), e, rounds_lem n h)

    read_back-targets :
        (n : ℕ) (xs : List ℕ) (d : Device)
        → n ≤ log_size
        → IsCommitted (log_with b n xs) goal 0 d.disk
        → (j : ℕ) → j < n
        → get_or xs j 0 ≡ get_or (read_back n d) j 0
    read_back-targets n xs d h c j p =
        sym (c.targets j p)
        ∙ sym (
            read_blocks-inside n 0 j (d.disk b.start) b.lh.block (omega (arith, array))
              (omega arith) (omega arith))

    read_back-IsLayout :
        (n : ℕ) (xs : List ℕ) (d : Device)
        → IsLayout (log_with b n xs)
        → IsCommitted (log_with b n xs) goal 0 d.disk
        → IsLayout (log_with b n (read_back n d))
    read_back-IsLayout n xs d l c = record {
      count = l.count;
      fits = l.fits;
      array = length-read_blocks n 0 (d.disk b.start) b.lh.block ∙ array;
      homes = λ j p. subst (IsHome b) (read_back-targets n xs d l.count c j p) (l.homes j p);
    }

    -- A committed transaction stays on the disk until recovery has installed all of it.
    pub recover-IsCommitted :
        (n : ℕ) (xs : List ℕ) (d : Device)
        → IsLayout (log_with b n xs)
        → IsTidy b d
        → IsCommitted (log_with b n xs) goal 0 d.disk
        → let disk = (recover_from_log (state b d)).dev.disk in
          (n < d.power → IsClear b goal disk)
          × (d.power ≤ n → IsCommitted (log_with b n xs) goal 0 disk)
    unfolding recover_from_log
    recover-IsCommitted n xs d l tidy c =
        let ys = read_back n d in
        let e = read_back-targets n xs d l.count c in
        let l' = read_back-IsLayout n xs d l c in
        let c' = same_targets n xs ys d.disk e c in
        rw (read_head-state n d l.count tidy c.count, finish-state (log_with b n ys) l' goal d)
          (
            (λ on. IsClear-of n ys _ (finished-IsClear (log_with b n ys) l' goal d on tidy c')),
            (λ off.
                same_targets n ys xs _ (λ j p. sym (e j p))
                  (finished-stopped (log_with b n ys) l' goal d off c')),
          )

    -- With no transaction on the disk, recovery leaves the file system alone.
    pub recover-IsClear :
        (d : Device)
        → IsTidy b d
        → IsClear b goal d.disk
        → IsClear b goal (recover_from_log (state b d)).dev.disk
    unfolding recover_from_log
    recover-IsClear d tidy c =
        let ys = read_back 0 d in
        let l : IsLayout (log_with b 0 ys) = record {
          count = omega arith;
          fits = sized;
          array = length-read_blocks 0 0 (d.disk b.start) b.lh.block ∙ array;
          homes = λ j p. absurd (omega arith);
        } in
        rw (read_head-state 0 d (omega arith) tidy c.head, finish-state (log_with b 0 ys) l goal d)
          (IsClear-of 0 ys _
            (finished-of_IsClear (log_with b 0 ys) l goal d refl tidy (IsClear-to 0 ys d.disk c)))
