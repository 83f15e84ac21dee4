-- ===== src/Log/Tests.antt =====
-- log.c at a concrete disk: two blocks changed in the cache, and crashes at several writes.
use xv6_fork.Prelude.{
  ℕ, zero, suc, ◌≤◌, ◌<◌, ◌≡◌, refl, ◌≢◌, inl, inr, arith, none, some, false, [], ◌∷◌, replicate,
  get_or,
}
use native.Mathlib.Decide.{ℕ_discrete}
use xv6_fork.Log.{
  Log, State, max_op_blocks, begin_op, log_write, commit, write_log, write_head, install_trans,
  clear_head, log_from, install_from, write_blocks, initlog, recover_from_log, read_head,
  read_blocks,
}
use xv6_fork.Log.Disk.{Block, Device, contents, update}
use xv6_fork.Log.Layout.{IsHome, state}
use xv6_fork.Log.Commit.{IsReady}
use xv6_fork.Log.Atomic.{restart, restarts, commit_atomic}
use xv6_fork.Log.Record.{Records, log_write-Records}
use xv6_fork.Log.Space.{HasSpace, here, next, begins, log_write-never-panics}

abbrev block_of : ℕ → Block
block_of v = replicate 128 v

abbrev header : Log
header = record {
  start = 2;
  size = 31;
  outstanding = 1;
  committing = false;
  lh = record { n = 2; block = 50 ∷ 60 ∷ replicate 28 0 };
}

-- Blocks 50 and 60 hold zeros on the disk; the cache has new data for them.
abbrev changed : ℕ → Device
changed power = record {
  disk = λ b. block_of 0;
  dirty = update (update (λ b. none) 50 (some (block_of 5))) 60 (some (block_of 6));
  power = power;
}

header-homes : (j : ℕ) → j < 2 → IsHome header (get_or header.lh.block j 0)
header-homes zero h = inr (omega arith)
header-homes (suc zero) h = inr (omega arith)
header-homes (suc (suc j)) h = absurd (omega arith)

changed-IsReady : (power : ℕ) → IsReady header (changed power)
changed-IsReady power = record {
  layout = record { count = omega arith; fits = omega arith; array = refl; homes = header-homes };
  head_size = refl;
  head = refl;
  tidy = λ b p q. ground arith;
  recorded = λ b p. elim (ℕ_discrete 50 b) [
    | yes e ↦ inr (0, omega arith, e)
    | no ne ↦ elim (ℕ_discrete 60 b) [
      | yes e ↦ inr (1, omega arith, e)
      | no ne' ↦ inl (ground arith)
    ]
  ];
}

commits_at : ℕ → ℕ → Block
commits_at power b =
    (restart 2 31 40 (restarts 2 31 (1 ∷ []) (commit (state header (changed power))).dev)).disk b

stops_before_header : commits_at 2 50 ≡ block_of 0
unfolding commits_at restart restarts initlog recover_from_log read_head read_blocks commit
    write_log write_head install_trans clear_head log_from install_from write_blocks
stops_before_header = refl

stops_after_header : commits_at 3 60 ≡ block_of 6
unfolding commits_at restart restarts initlog recover_from_log read_head read_blocks commit
    write_log write_head install_trans clear_head log_from install_from write_blocks
stops_after_header = refl

commit_atomic_example :
    let e = restart 2 31 40 (restarts 2 31 (1 ∷ 0 ∷ []) (commit (state header (changed 4))).dev) in
    (4 ≤ 2 → (b : ℕ) → IsHome header b → e.disk b ≡ block_of 0)
    × (2 < 4 → (b : ℕ) → IsHome header b → e.disk b ≡ contents (changed 4) b)
commit_atomic_example =
    commit_atomic header (changed 4) (1 ∷ 0 ∷ []) 40 (changed-IsReady 4) (omega arith)

log_write-Records_example :
    (t : State) × (log_write (state header (changed 9)) 70 (block_of 7) ≡ some t)
    × Records (state header (changed 9)) 70 (block_of 7) t
log_write-Records_example =
    log_write-Records (state header (changed 9)) 70 (block_of 7) (changed-IsReady 9)
      (inr (omega arith)) (omega arith) (omega arith) (omega arith)

abbrev quiet : State
quiet = state (record header { outstanding = 0; lh = record header.lh { n = 0 } }) (changed 9)

abbrev one_call : State
one_call = state (record header { lh = record header.lh { n = 0 } }) (changed 9)

quiet-HasSpace : HasSpace (record { fs = quiet; left = [] })
quiet-HasSpace = record {
  idle = refl;
  counted = refl;
  reserved = omega arith;
  small = tt;
  size = omega arith;
}

first_begin : begin_op quiet ≡ some one_call
unfolding begin_op
first_begin = refl

log_write-never-panics_example : log_write one_call 70 (block_of 7) ≢ none
log_write-never-panics_example =
    log_write-never-panics (record { fs = quiet; left = [] })
      (record { fs = one_call; left = max_op_blocks ∷ [] }) [] [] 9 70 (block_of 7) quiet-HasSpace
      (next here (begins [] first_begin)) refl
