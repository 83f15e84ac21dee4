-- ===== src/Bio.antt =====
-- bio.c: the buffer cache. A buffer is its index in `bcache.buf`, and the list head is NBUF; a
-- pointer between them is such a number, and a field is a function of it. What `bcache.lock`
-- protects is one step. What a buffer holds is in the model of the log.
pub mod Ring
pub mod Moves
pub mod Search
pub mod Buffers
pub mod Given
pub mod Unique
mod Tests
use xv6_fork.Prelude.{
  ℕ, zero, suc, ◌+◌, ◌-◌, Bool, true, false, not, ◌&&◌, Option, none, some, if◌then◌else◌, ◌==◌,
  sub32, add32,
}

-- NBUF.
abbrev pub nbuf : ℕ
nbuf = 30

-- `&bcache.head`
abbrev pub head : ℕ
head = nbuf

-- `bcache`, with B_VALID and B_DIRTY of `flags`.
pub record Cache : Type 0 where
  pub valid : ℕ → Bool
  pub dirty : ℕ → Bool
  pub dev : ℕ → ℕ
  pub blockno : ℕ → ℕ
  pub refcnt : ℕ → ℕ
  pub prev : ℕ → ℕ
  pub next : ℕ → ℕ

abbrev pub put {ℓ} : {A : Type ℓ} → (ℕ → A) → ℕ → A → ℕ → A
put f i v j = if i == j then v else f j

-- The four assignments that put `b` behind the head.
pub link : ℕ → Cache → Cache
link b s =
    let s1 = record s { next = put s.next b (s.next head) } in
    let s2 = record s1 { prev = put s1.prev b head } in
    let s3 = record s2 { prev = put s2.prev (s2.next head) b } in
    record s3 { next = put s3.next head b }

-- The two assignments of brelse that take `b` out.
pub take_out : ℕ → Cache → Cache
take_out b s =
    let s1 = record s { prev = put s.prev (s.next b) (s.prev b) } in
    record s1 { next = put s1.next (s1.prev b) (s1.next b) }

-- The loop of binit, `k` rounds from `b` on.
pub init_from : ℕ → ℕ → Cache → Cache
init_from zero b s = s
init_from (suc k) b s = init_from k (b + 1) (link b s)

pub binit : Cache → Cache
binit s = init_from nbuf 0 (record s { prev = put s.prev head head; next = put s.next head head })

-- The first loop of bget, at most `k` rounds from `b` on.
pub find_cached : ℕ → ℕ → ℕ → ℕ → Cache → Option ℕ
find_cached zero b dev blockno s = none
find_cached (suc k) b dev blockno s =
    let rest = find_cached k (s.next b) dev blockno s in
    if b == head
    then none
    else (if (s.dev b == dev) && (s.blockno b == blockno) then some b else rest)

-- The second loop of bget, at most `k` rounds from `b` on.
pub find_recyclable : ℕ → ℕ → Cache → Option ℕ
find_recyclable zero b s = none
find_recyclable (suc k) b s =
    let rest = find_recyclable k (s.prev b) s in
    if b == head then none else (if (s.refcnt b == 0) && not (s.dirty b) then some b else rest)

abbrev pub recycle : ℕ → ℕ → ℕ → Cache → Cache
recycle b dev blockno s = record s {
  dev = put s.dev b dev;
  blockno = put s.blockno b blockno;
  valid = put s.valid b false;
  dirty = put s.dirty b false;
  refcnt = put s.refcnt b 1;
}

-- bget up to acquiresleep. `none` is its panic.
pub bget : ℕ → ℕ → Cache → Option (ℕ × Cache)
bget dev blockno s = elim (find_cached (suc nbuf) (s.next head) dev blockno s) [
  | some b ↦ some (b, record s { refcnt = put s.refcnt b (add32 (s.refcnt b) 1) })
  | none ↦ elim (find_recyclable (suc nbuf) (s.prev head) s) [
    | some b ↦ some (b, recycle b dev blockno s)
    | none ↦ none
  ]
]

-- brelse of a buffer whose lock the process holds, behind releasesleep.
pub brelse : ℕ → Cache → Cache
brelse b s =
    let t = record s { refcnt = put s.refcnt b (sub32 (s.refcnt b) 1) } in
    if t.refcnt b == 0 then link b (take_out b t) else t
