-- ===== src/Pipe.antt =====
-- pipe.c: a ring of 512 bytes between two file descriptors, indexed by two free-running `uint`
-- counters. A call that sleeps is a value: it says on which channel it waits and what is left to do,
-- and is run again when it is woken. Locking is implicit, since each run up to a sleep or a return
-- holds `p->lock`.
pub mod Contents
pub mod Write
pub mod Read
pub mod Traffic
mod Tests
use xv6_fork.Prelude.{
  ℕ, zero, suc, ◌+◌, ◌%◌, ◌≡◌, Bool, true, false, not, ◌&&◌, ◌||◌, Option, none, some, List, [],
  ◌∷◌, if◌then◌else◌, ◌==◌, add32, get_or, set, length,
}

abbrev pub pipe_size : ℕ
pipe_size = 512

-- `struct pipe` without its lock.
pub record Pipe : Type 0 where
  pub buf : List ℕ
  pub nread : ℕ
  pub nwrite : ℕ
  pub readopen : Bool
  pub writeopen : Bool

-- The addresses that the code sleeps on, `&p->nread` and `&p->nwrite`.
pub data Chan : Type 0 where
  on_nread on_nwrite : Chan

-- How a run of pipewrite ends: it returns n, returns -1, or sleeps on `&p->nwrite`, with the n of its
-- call and the bytes that are left.
pub data WriteOutcome : Type 0 where
  wrote : ℕ → WriteOutcome
  write_failed : WriteOutcome
  write_asleep : ℕ → List ℕ → WriteOutcome

-- How a run of piperead ends: it returns the number of bytes that it put at `addr`, returns -1, or
-- sleeps on `&p->nread`.
pub data ReadOutcome : Type 0 where
  got : ℕ → List ℕ → ReadOutcome
  read_failed : ReadOutcome
  read_asleep : ReadOutcome

-- `p->nwrite == p->nread + PIPESIZE`
abbrev pub is_full : Pipe → Bool
is_full p = p.nwrite == add32 p.nread pipe_size

-- `p->nread == p->nwrite`
abbrev pub is_empty : Pipe → Bool
is_empty p = p.nread == p.nwrite

-- `p->data[p->nwrite++ % PIPESIZE] = c`
abbrev pub store : Pipe → ℕ → Pipe
store p c = record p { buf = set p.buf (p.nwrite % pipe_size) c; nwrite = add32 p.nwrite 1 }

-- The loop of pipewrite over the bytes `addr[i], .., addr[n - 1]`, with the wakeups that it makes. This
-- is also what a call of n bytes that slept with these left does when it is woken.
-- `killed` is `myproc()->killed`.
pub write_from : Pipe → Bool → ℕ → List ℕ → Pipe × List Chan × WriteOutcome
write_from p killed n [] = (p, on_nread ∷ [], wrote n)
write_from p killed n (c ∷ cs) =
    if is_full p
    then (if not p.readopen || killed
        then (p, [], write_failed)
        else (p, on_nread ∷ [], write_asleep n (c ∷ cs)))
    else write_from (store p c) killed n cs

pub pipewrite : Pipe → Bool → List ℕ → Pipe × List Chan × WriteOutcome
pipewrite p killed bytes = write_from p killed (length bytes) bytes

-- The copy loop of piperead, for at most n bytes.
pub copy_out : Pipe → ℕ → Pipe × List ℕ
copy_out p zero = (p, [])
copy_out p (suc n) =
    let rest = copy_out (record p { nread = add32 p.nread 1 }) n in
    if is_empty p then (p, []) else (rest.0, get_or p.buf (p.nread % pipe_size) 0 ∷ rest.1)

pub piperead : Pipe → Bool → ℕ → Pipe × List Chan × ReadOutcome
piperead p killed n =
    if is_empty p && p.writeopen
    then (p, [], if killed then read_failed else read_asleep)
    else (let r = copy_out p n in (r.0, on_nwrite ∷ [], got (length r.1) r.1))

-- pipeclose. The last part says whether the page of the pipe is freed.
pub pipeclose : Pipe → Bool → Pipe × List Chan × Bool
pipeclose p writable =
    let q = if writable then record p { writeopen = false } else record p { readopen = false } in
    (q, (if writable then on_nread else on_nwrite) ∷ [], not q.readopen && not q.writeopen)

-- The pipe that pipealloc sets up in a page from kalloc, whose old bytes stay.
pub fresh : List ℕ → Pipe
fresh page = record { buf = page; nread = 0; nwrite = 0; readopen = true; writeopen = true }
