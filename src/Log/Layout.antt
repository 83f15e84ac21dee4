-- ===== src/Log/Layout.antt =====
-- What a disk says of a transaction, for a log.c header `g.lh` and a wanted file system `goal`.
use xv6_fork.Prelude.{ℕ, suc, ◌+◌, ◌≤◌, ◌<◌, ◌≡◌, ◌≢◌, ◌⊎◌, arith, none, get_or, length}
use xv6_fork.Log.{Log, State, log_size, rounds}
use xv6_fork.Log.Disk.{Block, Device}

abbrev pub block_words : ℕ
block_words = 128

-- The blocks that are not the log's own.
abbrev pub IsHome : Log → ℕ → Type 0
IsHome g b = (b < g.start) ⊎ (g.start + g.size ≤ b)

abbrev pub target : Log → ℕ → ℕ
target g j = get_or g.lh.block j 0

abbrev pub state : Log → Device → State
state g d = record { log = g; dev = d }

-- The header fits its array and the log area, and names home blocks.
pub record IsLayout (g : Log) : Type 0 where
  pub count : g.lh.n ≤ log_size
  pub fits : g.lh.n < g.size
  pub array : length g.lh.block ≡ log_size
  pub homes : (j : ℕ) → j < g.lh.n → IsHome g (target g j)

-- No transaction on the disk, and the file system is `goal`.
pub record IsClear (g : Log) (goal : ℕ → Block) (disk : ℕ → Block) : Type 0 where
  pub head_size : length (disk g.start) ≡ block_words
  pub head : get_or (disk g.start) 0 0 ≡ 0
  pub home : (b : ℕ) → IsHome g b → disk b ≡ goal b

-- The header and the log blocks hold the whole transaction; of the home blocks, those that are not
-- yet as wanted are to be written from entries `tail` on.
pub record IsCommitted (g : Log) (goal : ℕ → Block) (tail : ℕ) (disk : ℕ → Block) : Type 0 where
  pub head_size : length (disk g.start) ≡ block_words
  pub count : get_or (disk g.start) 0 0 ≡ g.lh.n
  pub targets : (j : ℕ) → j < g.lh.n → get_or (disk g.start) (suc j) 0 ≡ target g j
  pub slots : (j : ℕ) → j < g.lh.n → disk (g.start + j + 1) ≡ goal (target g j)
  pub home :
      (b : ℕ)
      → IsHome g b
      → (disk b ≡ goal b) ⊎ ((j : ℕ) × (tail ≤ j) × (j < g.lh.n) × (target g j ≡ b))

-- The cache holds no unwritten change of a block of the log.
abbrev pub IsTidy : Log → Device → Type 0
IsTidy g d = (b : ℕ) → g.start ≤ b → b < g.start + g.size → d.dirty b ≡ none

pub rounds_lem : (n : ℕ) → n ≤ log_size → rounds n ≡ n
rounds_lem n h = ground arith

-- No home block is a block of the log.
pub home-ne-start : (g : Log) (b : ℕ) → IsLayout g → IsHome g b → b ≢ g.start
home-ne-start g b l h = λ e. ground (arith, l.fits)

pub home-ne-slot : (g : Log) (b j : ℕ) → IsLayout g → IsHome g b → j < g.lh.n → b ≢ g.start + j + 1
home-ne-slot g b j l h p = λ e. ground (arith, l.fits)
