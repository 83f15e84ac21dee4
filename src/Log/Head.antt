-- ===== src/Log/Head.antt =====
-- write_head of log.c: the one disk write that commits a transaction, or erases it.
use xv6_fork.Prelude.{
  ℕ, suc, ◌-◌, ◌≤◌, ◌<◌, ◌≡◌, ◌∙◌, ◌≢◌, arith, none, List, get_or, set, length, length-set,
  get_or-set_self,
}
use xv6_fork.Log.{Log, log_size, write_head, write_blocks}
use xv6_fork.Log.Disk.{
  Block, Device, contents, bwrite, power-bwrite, bwrite_self, bwrite_ne, bwrite-clean,
  contents_clean,
}
use xv6_fork.Log.Words.{length-write_blocks, write_blocks-below, write_blocks-inside}
use xv6_fork.Log.Layout.{IsTidy, state, rounds_lem}

-- What the header block holds after write_head.
abbrev pub encoded : ℕ → List ℕ → Block → Block
encoded n block buf = write_blocks n 0 block (set buf 0 n)

pub encoded-size :
    (n : ℕ) (block : List ℕ) (buf : Block) → length (encoded n block buf) ≡ length buf
encoded-size n block buf = length-write_blocks n 0 block (set buf 0 n) ∙ length-set buf 0 n

pub encoded-count :
    (n : ℕ) (block : List ℕ) (buf : Block) → 0 < length buf → get_or (encoded n block buf) 0 0 ≡ n
encoded-count n block buf h =
    write_blocks-below n 0 0 block (set buf 0 n) (omega arith) ∙ get_or-set_self buf 0 n 0 h

pub encoded-target :
    (n j : ℕ) (block : List ℕ) (buf : Block)
    → n < length buf
    → j < n
    → get_or (encoded n block buf) (suc j) 0 ≡ get_or block j 0
encoded-target n j block buf h p =
    write_blocks-inside n 0 j block (set buf 0 n) (omega (arith, length-set buf 0 n)) (omega arith)
      (omega arith)

module _ (g : Log) where
  -- write_head as a device.
  pub headed : Device → Device
  headed d = bwrite d g.start (encoded g.lh.n g.lh.block (contents d g.start))

  pub write_head-state :
      (d : Device) → g.lh.n ≤ log_size → write_head (state g d) ≡ state g (headed d)
  unfolding write_head headed
  write_head-state d h = rw (rounds_lem g.lh.n h)

  pub power-headed : (d : Device) → (headed d).power ≡ d.power - 1
  unfolding headed
  power-headed d = power-bwrite d g.start _

  pub headed_stopped : (d : Device) → d.power ≡ 0 → headed d ≡ d
  unfolding headed
  headed_stopped d e = rw (e, bwrite)

  -- Nothing but the header block changes.
  pub headed_ne :
      (d : Device) (b : ℕ)
      → g.start ≢ b
      → ((headed d).disk b ≡ d.disk b) × ((headed d).dirty b ≡ d.dirty b)
  unfolding headed
  headed_ne d b ne = bwrite_ne d g.start _ b ne

  pub headed_self :
      (d : Device)
      → 0 < d.power
      → d.dirty g.start ≡ none
      → ((headed d).disk g.start ≡ encoded g.lh.n g.lh.block (d.disk g.start))
        × ((headed d).dirty g.start ≡ none)
  unfolding headed
  headed_self d on clean =
      rw (← contents_clean d g.start clean)
        (bwrite_self d g.start (encoded g.lh.n g.lh.block (contents d g.start)) on)

  pub headed-IsTidy : (d : Device) → IsTidy g d → IsTidy g (headed d)
  unfolding headed
  headed-IsTidy d t = λ b p q. bwrite-clean d g.start _ b (t b p q)
