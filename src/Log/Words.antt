-- ===== src/Log/Words.antt =====
-- Copying the block numbers of a log header between memory and the header block (log.c).
use xv6_fork.Prelude.{
  ℕ, zero, suc, ◌+◌, ◌≤◌, ◌<◌, ◌≡◌, refl, ◌∙◌, arith, List, get_or, set, length, length-set,
  get_or-set_self, get_or-set_ne,
}
use native.Mathlib.Decide.{ℕ_discrete}
use xv6_fork.Log.{read_blocks, write_blocks}
use xv6_fork.Log.Disk.{Block}

pub length-read_blocks :
    (k i : ℕ) (buf : Block) (block : List ℕ) → length (read_blocks k i buf block) ≡ length block
unfolding read_blocks
length-read_blocks zero i buf block = refl
length-read_blocks (suc k) i buf block =
    length-read_blocks k (suc i) buf (set block i (get_or buf (suc i) 0)) ∙ length-set block i _

pub length-write_blocks :
    (k i : ℕ) (block : List ℕ) (buf : Block) → length (write_blocks k i block buf) ≡ length buf
unfolding write_blocks
length-write_blocks zero i block buf = refl
length-write_blocks (suc k) i block buf =
    length-write_blocks k (suc i) block (set buf (suc i) (get_or block i 0))
    ∙ length-set buf (suc i) _

-- Entries outside the copied range stay.
pub read_blocks-below :
    (k i j : ℕ) (buf : Block) (block : List ℕ)
    → j < i
    → get_or (read_blocks k i buf block) j 0 ≡ get_or block j 0
unfolding read_blocks
read_blocks-below zero i j buf block h = refl
read_blocks-below (suc k) i j buf block h =
    read_blocks-below k (suc i) j buf (set block i (get_or buf (suc i) 0)) (omega arith)
    ∙ get_or-set_ne block i j (get_or buf (suc i) 0) 0 (λ e. omega arith)

pub write_blocks-below :
    (k i j : ℕ) (block : List ℕ) (buf : Block)
    → j ≤ i
    → get_or (write_blocks k i block buf) j 0 ≡ get_or buf j 0
unfolding write_blocks
write_blocks-below zero i j block buf h = refl
write_blocks-below (suc k) i j block buf h =
    write_blocks-below k (suc i) j block (set buf (suc i) (get_or block i 0)) (omega arith)
    ∙ get_or-set_ne buf (suc i) j (get_or block i 0) 0 (λ e. omega arith)

-- Entries inside it are copied.
pub read_blocks-inside :
    (k i j : ℕ) (buf : Block) (block : List ℕ)
    → i + k ≤ length block
    → i ≤ j
    → j < i + k
    → get_or (read_blocks k i buf block) j 0 ≡ get_or buf (suc j) 0
unfolding read_blocks
read_blocks-inside zero i j buf block h lo hi = absurd (omega arith)
read_blocks-inside (suc k) i j buf block h lo hi = elim (ℕ_discrete i j) [
  | yes e ↦
      read_blocks-below k (suc i) j buf (set block i (get_or buf (suc i) 0)) (omega arith)
      ∙ rw (← e) (get_or-set_self block i (get_or buf (suc i) 0) 0 (omega arith))
  | no ne ↦
      read_blocks-inside k (suc i) j buf (set block i (get_or buf (suc i) 0))
        (omega (arith, length-set block i (get_or buf (suc i) 0))) (omega arith) (omega arith)
]

pub write_blocks-inside :
    (k i j : ℕ) (block : List ℕ) (buf : Block)
    → i + k < length buf
    → i ≤ j
    → j < i + k
    → get_or (write_blocks k i block buf) (suc j) 0 ≡ get_or block j 0
unfolding write_blocks
write_blocks-inside zero i j block buf h lo hi = absurd (omega arith)
write_blocks-inside (suc k) i j block buf h lo hi = elim (ℕ_discrete i j) [
  | yes e ↦
      write_blocks-below k (suc i) (suc j) block (set buf (suc i) (get_or block i 0)) (omega arith)
      ∙ rw (← e) (get_or-set_self buf (suc i) (get_or block i 0) 0 (omega arith))
  | no ne ↦
      write_blocks-inside k (suc i) j block (set buf (suc i) (get_or block i 0))
        (omega (arith, length-set buf (suc i) (get_or block i 0))) (omega arith) (omega arith)
]
