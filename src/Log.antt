-- ===== src/Log.antt =====
-- log.c: the write-ahead log of the file system.
pub mod Disk
pub mod Words
pub mod Layout
pub mod Write
pub mod Head
pub mod Recover
pub mod Restart
pub mod Commit
pub mod Atomic
pub mod Record
pub mod Space
mod Tests
use xv6_fork.Prelude.{
  ℕ, zero, suc, ◌+◌, ◌-◌, ◌*◌, ◌^◌, ◌≡◌, Bool, true, false, ◌||◌, Option, none, some, List, [], ◌∷◌,
  if◌then◌else◌, ◌==◌, ltb, leb, get_or, set,
}
use Disk.{Block, Device, update, contents, bwrite}

abbrev pub max_op_blocks : ℕ
max_op_blocks = 10

abbrev pub log_size : ℕ
log_size = max_op_blocks * 3

-- `struct logheader`: the count and the array of log_size block numbers.
pub record LogHeader : Type 0 where
  pub n : ℕ
  pub block : List ℕ

-- `struct log` without its lock.
pub record Log : Type 0 where
  pub start : ℕ
  pub size : ℕ
  pub outstanding : ℕ
  pub committing : Bool
  pub lh : LogHeader

pub record State : Type 0 where
  pub log : Log
  pub dev : Device

abbrev pub with_header : State → LogHeader → State
with_header s h = record s { log = record s.log { lh = h } }

-- An `int` counter that is negative makes no rounds.
abbrev pub rounds : ℕ → ℕ
rounds n = if ltb n (2 ^ 31) then n else 0

-- The body of the loop of install_trans.
abbrev pub install_one : ℕ → State → State
install_one tail s = record s {
  dev = bwrite s.dev (get_or s.log.lh.block tail 0) (contents s.dev (s.log.start + tail + 1));
}

-- The loop of install_trans, `k` rounds from `tail` on.
pub install_from : ℕ → ℕ → State → State
install_from zero tail s = s
install_from (suc k) tail s = install_from k (suc tail) (install_one tail s)

pub install_trans : State → State
install_trans s = install_from (rounds s.log.lh.n) 0 s

-- `log.lh.block[i] = lh->block[i]` for `k` values from `i` on. The count stands in word 0 of the block.
pub read_blocks : ℕ → ℕ → Block → List ℕ → List ℕ
read_blocks zero i buf block = block
read_blocks (suc k) i buf block = read_blocks k (suc i) buf (set block i (get_or buf (suc i) 0))

pub read_head : State → State
read_head s =
    let buf = contents s.dev s.log.start in
    let n = get_or buf 0 0 in
    with_header s (record { n = n; block = read_blocks (rounds n) 0 buf s.log.lh.block })

-- `hb->block[i] = log.lh.block[i]` for `k` values from `i` on.
pub write_blocks : ℕ → ℕ → List ℕ → Block → Block
write_blocks zero i block buf = buf
write_blocks (suc k) i block buf = write_blocks k (suc i) block (set buf (suc i) (get_or block i 0))

abbrev pub head_block : State → Block
head_block s =
    write_blocks (rounds s.log.lh.n) 0 s.log.lh.block
      (set (contents s.dev s.log.start) 0 s.log.lh.n)

pub write_head : State → State
write_head s = record s { dev = bwrite s.dev s.log.start (head_block s) }

pub clear_head : State → State
clear_head s = write_head (with_header s (record s.log.lh { n = 0 }))

pub recover_from_log : State → State
recover_from_log s = clear_head (install_trans (read_head s))

-- initlog after readsb, which gives the log area of the disk.
pub initlog : ℕ → ℕ → State → State
initlog start size s =
    recover_from_log (record s { log = record s.log { start = start; size = size } })

-- The body of the loop of write_log.
abbrev pub log_one : ℕ → State → State
log_one tail s = record s {
  dev = bwrite s.dev (s.log.start + tail + 1) (contents s.dev (get_or s.log.lh.block tail 0));
}

pub log_from : ℕ → ℕ → State → State
log_from zero tail s = s
log_from (suc k) tail s = log_from k (suc tail) (log_one tail s)

pub write_log : State → State
write_log s = log_from (rounds s.log.lh.n) 0 s

-- `log.lh.n > 0` on an `int`.
pub commit : State → State
commit s =
    if 0 == rounds s.log.lh.n then s else clear_head (install_trans (write_head (write_log s)))

-- One pass through the loop of begin_op: `none` means that the caller sleeps on the log.
pub begin_op : State → Option State
begin_op s =
    if s.log.committing
    then none
    else (if ltb log_size (s.log.lh.n + (s.log.outstanding + 1) * max_op_blocks)
        then none
        else some (record s { log = record s.log { outstanding = s.log.outstanding + 1 } }))

-- end_op up to its `release`; the flag is do_commit. `none` is the panic. The count is an `int` that
-- would become negative where no operation was begun; here it stays 0, with no commit either.
pub end_op_enter : State → Option (State × Bool)
end_op_enter s =
    if s.log.committing
    then none
    else (if s.log.outstanding == 1
        then some (record s { log = record s.log { outstanding = 0; committing = true } }, true)
        else some (record s { log = record s.log { outstanding = s.log.outstanding - 1 } }, false))

-- The rest of end_op, when do_commit is set.
pub end_op_commit : State → State
end_op_commit s = let t = commit s in record t { log = record t.log { committing = false } }

-- The search of log_write: the first i from `i` on with block[i] == b, or lh.n.
pub slot_of : ℕ → ℕ → List ℕ → ℕ → ℕ
slot_of zero i block b = i
slot_of (suc k) i block b =
    let rest = slot_of k (suc i) block b in if get_or block i 0 == b then i else rest

-- Setting the data of a buffer and calling log_write. `none` is one of its two panics.
pub log_write : State → ℕ → Block → Option State
log_write s b v =
    if leb log_size s.log.lh.n || leb (s.log.size - 1) s.log.lh.n
    then none
    else (if ltb s.log.outstanding 1
        then none
        else (let i = slot_of s.log.lh.n 0 s.log.lh.block b in
            some (record {
              log = record s.log {
                lh = record {
                  n = if i == s.log.lh.n then s.log.lh.n + 1 else s.log.lh.n;
                  block = set s.log.lh.block i b;
                };
              };
              dev = record s.dev { dirty = update s.dev.dirty b (some v) };
            })))
