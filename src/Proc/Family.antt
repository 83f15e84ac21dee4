-- ===== src/Proc/Family.antt =====
-- Entries of the table that come into use and go out of use.
use xv6_fork.Prelude.{ℕ, ◌≤◌, ◌<◌, ◌≡◌, sym, ap, ◌∙◌, ◌≢◌, arith, Bool, true, false, some}
use mathlib.Core.Path.{subst}
use native.Mathlib.Decide.{ℕ_discrete}
use xv6_fork.Proc.{ProcState, Table, nproc, is_unused}
use xv6_fork.Proc.Same.{is_live, is_born, IsTable}

-- `u` is `t` but for entry `i`, and has used up no fewer pids.
pub record OneEntry (t u : Table) (i : ℕ) : Type 0 where
  pub other : (j : ℕ) → i ≢ j → u.procs j ≡ t.procs j
  pub init : u.initproc ≡ t.initproc
  pub pids : t.nextpid ≤ u.nextpid

pub differs : (f : ℕ → Bool) (i j : ℕ) → f i ≡ true → f j ≡ false → i ≢ j
differs f i j a b = λ e. cc

pub unused-dead : (s : ProcState) → is_unused s ≡ true → is_live s ≡ false
unused-dead s e = ground arith

unused-unborn : (s : ProcState) → is_unused s ≡ true → is_born s ≡ false
unused-unborn s e = ground arith

module _ (t u : Table) (i : ℕ) (c : OneEntry t u i) (h : IsTable t) where
  -- An entry that is live in `t` is so in `u`, if entry `i` is not live in `t`.
  pub still_live :
      (j : ℕ)
      → is_live (t.procs i).state ≡ false
      → is_live (t.procs j).state ≡ true
      → is_live (u.procs j).state ≡ true
  still_live j d l =
      rw (c.other j (λ e. differs (λ k. is_live (t.procs k).state) j i l d (sym e))) l

  init_still : is_live (t.procs i).state ≡ false → is_live (u.procs u.initproc).state ≡ true
  init_still d = rw c.init (still_live t.initproc d h.init_live)

  abbrev Parent : ℕ → Type 0
  Parent e =
      (j : ℕ) × (j < nproc) × ((u.procs e).parent ≡ some j) × (is_live (u.procs j).state ≡ true)

  old-Parent :
      (e : ℕ)
      → i ≢ e
      → is_live (t.procs i).state ≡ false
      → e < nproc
      → is_born (u.procs e).state ≡ true
      → e ≢ u.initproc
      → Parent e
  old-Parent e ne d lt born other =
      let (j, lj, q, live) =
        h.parents e lt (rw (c.other e ne) at born) (λ z. other (z ∙ sym c.init)) in
      (j, lj, rw (c.other e ne) q, still_live j d live)

  old_low :
      (e : ℕ)
      → i ≢ e
      → e < nproc
      → is_unused (u.procs e).state ≡ false
      → (u.procs e).pid < t.nextpid
  old_low e ne lt w = rw (c.other e ne) (h.pid_low e lt (rw (c.other e ne) at w))

  old_new :
      (e j : ℕ)
      → i ≢ e
      → i ≢ j
      → e < nproc
      → j < nproc
      → e ≢ j
      → is_unused (u.procs e).state ≡ false
      → is_unused (u.procs j).state ≡ false
      → (u.procs e).pid ≢ (u.procs j).pid
  old_new e j ne nj le lj d x y =
      rw (c.other e ne, c.other j nj)
        (h.pid_new e j le lj d (rw (c.other e ne) at x) (rw (c.other j nj) at y))

  -- An entry that is not live can go out of use.
  pub drop-IsTable :
      is_live (t.procs i).state ≡ false → is_unused (u.procs i).state ≡ true → IsTable u
  drop-IsTable d free = record {
    init_in = rw c.init h.init_in;
    init_live = init_still d;
    parents = λ e lt born. old-Parent e (unborn e born) d lt born;
    pid_low = λ e lt w. low (old_low e (used e w) lt w) c.pids;
    pid_new = λ e j le lj ne x y. old_new e j (used e x) (used j y) le lj ne x y;
  }
    where
      low : {a b z : ℕ} → z < a → a ≤ b → z < b
      low x y = omega arith

      used : (e : ℕ) → is_unused (u.procs e).state ≡ false → i ≢ e
      used e w = differs (λ k. is_unused (u.procs k).state) i e free w

      unborn : (e : ℕ) → is_born (u.procs e).state ≡ true → i ≢ e
      unborn e w z =
          differs (λ k. is_born (u.procs k).state) e i w (unused-unborn (u.procs i).state free)
            (sym z)

  -- An entry that is not live can be filled, with a live parent if it is a process.
  fill-Parent :
      is_live (t.procs i).state ≡ false
      → (is_born (u.procs i).state ≡ true → Parent i)
      → (e : ℕ) → e < nproc
      → is_born (u.procs e).state ≡ true
      → e ≢ u.initproc
      → Parent e
  fill-Parent d p e lt born other = elim (ℕ_discrete i e) [
    | yes q ↦ subst (λ k. is_born (u.procs k).state ≡ true → Parent k) q p born
    | no ne ↦ old-Parent e ne d lt born other
  ]

  -- An unused entry can come into use with the next pid.
  pub add-IsTable :
      is_unused (t.procs i).state ≡ true
      → (is_born (u.procs i).state ≡ true → Parent i)
      → (u.procs i).pid ≡ t.nextpid
      → t.nextpid < u.nextpid
      → IsTable u
  add-IsTable free p pid fresh = record {
    init_in = rw c.init h.init_in;
    init_live = init_still d;
    parents = fill-Parent d p;
    pid_low = low;
    pid_new = λ e j le lj ne x y. elim (ℕ_discrete i e) [
      | yes q ↦ λ same.
          apart (old_low j (λ z. ne (sym q ∙ z)) lj y)
            (sym same ∙ sym (ap (λ k. (u.procs k).pid) q) ∙ pid)
      | no ni ↦ elim (ℕ_discrete i j) [
        | yes q ↦ λ same. apart (old_low e ni le x) (same ∙ sym (ap (λ k. (u.procs k).pid) q) ∙ pid)
        | no nj ↦ old_new e j ni nj le lj ne x y
      ]
    ];
  }
    where
      d : is_live (t.procs i).state ≡ false
      d = unused-dead (t.procs i).state free

      apart : {a b : ℕ} → a < b → a ≢ b
      apart x = omega arith

      less : {a b z : ℕ} → z < a → a < b → z < b
      less x y = omega arith

      low : (e : ℕ) → e < nproc → is_unused (u.procs e).state ≡ false → (u.procs e).pid < u.nextpid
      low e lt w = elim (ℕ_discrete i e) [
        | yes q ↦ subst (λ k. (u.procs k).pid < u.nextpid) q (rw pid fresh)
        | no ne ↦ less (old_low e ne lt w) fresh
      ]

  same_pid : (u.procs i).pid ≡ (t.procs i).pid → (e : ℕ) → (u.procs e).pid ≡ (t.procs e).pid
  same_pid p e = elim (ℕ_discrete i e) [
    | yes q ↦ subst (λ k. (u.procs k).pid ≡ (t.procs k).pid) q p
    | no ne ↦ ap (λ r. r.pid) (c.other e ne)
  ]

  was_used :
      is_unused (t.procs i).state ≡ false
      → (e : ℕ) → is_unused (u.procs e).state ≡ false
      → is_unused (t.procs e).state ≡ false
  was_used taken e w = elim (ℕ_discrete i e) [
    | yes q ↦ subst (λ k. is_unused (t.procs k).state ≡ false) q taken
    | no ne ↦ sym (ap (λ r. is_unused r.state) (c.other e ne)) ∙ w
  ]

  -- An entry in use that is not live can become another process with its pid.
  pub fill-IsTable :
      is_live (t.procs i).state ≡ false
      → is_unused (t.procs i).state ≡ false
      → (is_born (u.procs i).state ≡ true → Parent i)
      → (u.procs i).pid ≡ (t.procs i).pid
      → IsTable u
  fill-IsTable d taken p pid = record {
    init_in = rw c.init h.init_in;
    init_live = init_still d;
    parents = fill-Parent d p;
    pid_low = λ e lt w. low (rw (same_pid pid e) (h.pid_low e lt (was_used taken e w))) c.pids;
    pid_new = λ e j le lj ne x y.
        rw (same_pid pid e, same_pid pid j)
          (h.pid_new e j le lj ne (was_used taken e x) (was_used taken j y));
  }
    where
      low : {a b z : ℕ} → z < a → a ≤ b → z < b
      low x y = omega arith
