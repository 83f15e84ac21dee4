-- ===== src/Log/Space.antt =====
-- begin_op, log_write and end_op of log.c as any number of file system calls mix them: the space
-- that begin_op reserves is enough.
use xv6_fork.Prelude.{
  ℕ, zero, suc, ◌+◌, ◌*◌, ◌≤◌, ◌<◌, ◌≡◌, refl, ap, ◌∙◌, ◌≢◌, inl, inr, arith, none, some, true,
  false, List, [], ◌∷◌, ◌++◌, length, ◌==◌, Bool-cases,
}
use xv6_fork.Log.{
  Log, rounds, State, log_size, max_op_blocks, log_write, begin_op, end_op_enter, end_op_commit,
  commit, log_from, install_from, write_log, write_head, install_trans, clear_head,
}
use xv6_fork.Log.Disk.{Block}
use xv6_fork.Log.Layout.{rounds_lem}

-- For each call between its begin_op and its end_op, how many blocks it may still write.
abbrev pub sum : List ℕ → ℕ
sum [] = 0
sum (x ∷ xs) = x + sum xs

pub record Calls : Type 0 where
  pub fs : State
  pub left : List ℕ

-- One step of some call. Each call writes at most max_op_blocks blocks.
pub data Step : Calls → Calls → Type 0 where
  begins :
      {s t : State} (ls : List ℕ)
      → begin_op s ≡ some t
      → Step (record { fs = s; left = ls }) (record { fs = t; left = max_op_blocks ∷ ls })
  writes :
      {s t : State} (xs ys : List ℕ) (k b : ℕ) (v : Block)
      → log_write s b v ≡ some t
      → Step
          (record { fs = s; left = xs ++ (suc k ∷ ys) })
          (record { fs = t; left = xs ++ (k ∷ ys) })
  ends :
      {s t : State} (xs ys : List ℕ) (k : ℕ)
      → end_op_enter s ≡ some (t, false)
      → Step (record { fs = s; left = xs ++ (k ∷ ys) }) (record { fs = t; left = xs ++ ys })
  commits :
      {s t : State} (xs ys : List ℕ) (k : ℕ)
      → end_op_enter s ≡ some (t, true)
      → Step
          (record { fs = s; left = xs ++ (k ∷ ys) })
          (record { fs = end_op_commit t; left = xs ++ ys })

pub data Reach (c : Calls) : Calls → Type 0 where
  here : Reach c c
  next : {d e : Calls} → Reach c d → Step d e → Reach c e

abbrev pub AllSmall : List ℕ → Type 0
AllSmall [] = Unit {0}
AllSmall (x ∷ xs) = (x ≤ max_op_blocks) × AllSmall xs

pub record HasSpace (c : Calls) : Type 0 where
  pub idle : c.fs.log.committing ≡ false
  pub counted : c.fs.log.outstanding ≡ length c.left
  pub reserved : c.fs.log.lh.n + sum c.left ≤ log_size
  pub small : AllSmall c.left
  pub size : log_size < c.fs.log.size

sum-append : (xs ys : List ℕ) → sum (xs ++ ys) ≡ sum xs + sum ys
sum-append [] ys = omega arith
sum-append (x ∷ xs) ys = omega (arith, sum-append xs ys)

length-middle : (xs ys : List ℕ) (k : ℕ) → length (xs ++ (k ∷ ys)) ≡ suc (length (xs ++ ys))
length-middle [] ys k = refl
length-middle (x ∷ xs) ys k = omega (arith, length-middle xs ys k)

log-log_from : (k tail : ℕ) (s : State) → (log_from k tail s).log ≡ s.log
unfolding log_from
log-log_from zero tail s = refl
log-log_from (suc k) tail s = log-log_from k (suc tail) _

log-install_from : (k tail : ℕ) (s : State) → (install_from k tail s).log ≡ s.log
unfolding install_from
log-install_from zero tail s = refl
log-install_from (suc k) tail s = log-install_from k (suc tail) _

log-clear_head : (s : State) → (clear_head s).log ≡ record s.log { lh = record s.log.lh { n = 0 } }
unfolding clear_head write_head
log-clear_head s = refl

log-prepared : (s : State) → (install_trans (write_head (write_log s))).log ≡ s.log
unfolding install_trans write_head write_log
log-prepared s =
    log-install_from (rounds (log_from (rounds s.log.lh.n) 0 s).log.lh.n) 0 _
    ∙ log-log_from (rounds s.log.lh.n) 0 s

-- A commit empties the header, and touches nothing else of `struct log`.
log-commit :
    (s : State)
    → s.log.lh.n ≤ log_size
    → (commit s).log ≡ record s.log { lh = record s.log.lh { n = 0 } }
unfolding commit
log-commit s h = elim (Bool-cases (0 == rounds s.log.lh.n)) [
  | inl e ↦
      let z : s.log.lh.n ≡ 0 = ground (arith, rounds_lem s.log.lh.n h) in
      rw e (λ i. record s.log { lh = record s.log.lh { n = z i } })
  | inr e ↦ rw e (
      log-clear_head (install_trans (write_head (write_log s)))
      ∙ ap (λ (g : Log). record g { lh = record g.lh { n = 0 } }) (log-prepared s))
]

sum-le : (ls : List ℕ) → AllSmall ls → sum ls ≤ length ls * max_op_blocks
sum-le [] h = omega arith
sum-le (x ∷ xs) h = omega (arith, sum-le xs h.1)

AllSmall-drop : (xs ys : List ℕ) (k : ℕ) → AllSmall (xs ++ (k ∷ ys)) → AllSmall (xs ++ ys)
AllSmall-drop [] ys k h = h.1
AllSmall-drop (x ∷ xs) ys k h = (h.0, AllSmall-drop xs ys k h.1)

AllSmall-dec : (xs ys : List ℕ) (k : ℕ) → AllSmall (xs ++ (suc k ∷ ys)) → AllSmall (xs ++ (k ∷ ys))
AllSmall-dec [] ys k h = (omega arith, h.1)
AllSmall-dec (x ∷ xs) ys k h = (h.0, AllSmall-dec xs ys k h.1)

begins-HasSpace :
    (s t : State) (ls : List ℕ)
    → begin_op s ≡ some t
    → HasSpace (record { fs = s; left = ls })
    → HasSpace (record { fs = t; left = max_op_blocks ∷ ls })
unfolding begin_op
begins-HasSpace s t ls e h = ground (arith, sum-le ls h.small)

writes-HasSpace :
    (s t : State) (xs ys : List ℕ) (k b : ℕ) (v : Block)
    → log_write s b v ≡ some t
    → HasSpace (record { fs = s; left = xs ++ (suc k ∷ ys) })
    → HasSpace (record { fs = t; left = xs ++ (k ∷ ys) })
unfolding log_write
writes-HasSpace s t xs ys k b v e h = ground (
  arith,
  sum-append xs (suc k ∷ ys),
  sum-append xs (k ∷ ys),
  length-middle xs ys (suc k),
  length-middle xs ys k,
  AllSmall-dec xs ys k h.small,
)

ends-HasSpace :
    (s t : State) (xs ys : List ℕ) (k : ℕ)
    → end_op_enter s ≡ some (t, false)
    → HasSpace (record { fs = s; left = xs ++ (k ∷ ys) })
    → HasSpace (record { fs = t; left = xs ++ ys })
unfolding end_op_enter
ends-HasSpace s t xs ys k e h = ground (
  arith,
  sum-append xs (k ∷ ys),
  sum-append xs ys,
  length-middle xs ys k,
  AllSmall-drop xs ys k h.small,
)

commits-HasSpace :
    (s t : State) (xs ys : List ℕ) (k : ℕ)
    → end_op_enter s ≡ some (t, true)
    → HasSpace (record { fs = s; left = xs ++ (k ∷ ys) })
    → HasSpace (record { fs = end_op_commit t; left = xs ++ ys })
unfolding end_op_enter end_op_commit
commits-HasSpace s t xs ys k e h = ground (
  arith,
  log-commit t,
  sum-append xs (k ∷ ys),
  sum-append xs ys,
  length-middle xs ys k,
  AllSmall-drop xs ys k h.small,
)

Step-HasSpace : {c d : Calls} → Step c d → HasSpace c → HasSpace d
Step-HasSpace (begins {s} {t} ls e) h = begins-HasSpace s t ls e h
Step-HasSpace (writes {s} {t} xs ys k b v e) h = writes-HasSpace s t xs ys k b v e h
Step-HasSpace (ends {s} {t} xs ys k e) h = ends-HasSpace s t xs ys k e h
Step-HasSpace (commits {s} {t} xs ys k e) h = commits-HasSpace s t xs ys k e h

Reach-HasSpace : {c d : Calls} → HasSpace c → Reach c d → HasSpace d
Reach-HasSpace h here = h
Reach-HasSpace h (next r s) = Step-HasSpace s (Reach-HasSpace h r)

-- However begin_op, log_write and end_op of any number of calls are interleaved, if each call writes
-- at most max_op_blocks blocks and the log area has more than log_size blocks, then a call that
-- still may write never meets a panic of log_write, whatever the block and the data.
pub log_write-never-panics :
    (c d : Calls) (xs ys : List ℕ) (k b : ℕ) (v : Block)
    → HasSpace c
    → Reach c d
    → d.left ≡ xs ++ (suc k ∷ ys)
    → log_write d.fs b v ≢ none
unfolding log_write
log_write-never-panics c d xs ys k b v h r e =
    let q = Reach-HasSpace h r in
    let p = ap sum e ∙ sum-append xs (suc k ∷ ys) in
    let l = ap length e ∙ length-middle xs ys (suc k) in
    ground (arith, q.idle, q.counted, q.reserved, q.size, p, l)
