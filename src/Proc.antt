-- ===== src/Proc.antt =====
-- proc.c: the process table. Each function is what its C function does while it holds ptable.lock;
-- sleeping, yielding and exiting end with the state that sched is called in. Results of calls into
-- other parts (kalloc, copyuvm) are arguments, and the calls that have an effect there are returned.
pub mod Same
pub mod Fork
pub mod Adoption
pub mod Exit
pub mod Scan
pub mod Family
pub mod Wait
pub mod Reach
mod Tests
use xv6_fork.Prelude.{
  ℕ, zero, suc, ◌+◌, ◌≡◌, Bool, true, false, not, ◌&&◌, ◌||◌, Option, none, some, List, [], ◌∷◌,
  ◌++◌, if◌then◌else◌, ◌==◌, ltb, replicate,
}

abbrev pub nproc : ℕ
nproc = 64

-- `enum procstate`
pub data ProcState : Type 0 where
  unused embryo sleeping runnable running zombie : ProcState

-- What a process sleeps on: 0, the address of a process table entry, or another address.
pub data Chan : Type 0 where
  no_chan : Chan
  at_proc : ℕ → Chan
  at : ℕ → Chan

-- `struct proc`, without the saved registers and the name. A parent is an index into the table; 0 is a
-- null page directory, kernel stack or directory.
pub record Proc : Type 0 where
  pub sz : ℕ
  pub pgdir : ℕ
  pub kstack : ℕ
  pub state : ProcState
  pub pid : ℕ
  pub parent : Option ℕ
  pub chan : Chan
  pub killed : Bool
  pub ofile : List (Option ℕ)
  pub cwd : ℕ

-- `ptable`, `nextpid` and `initproc`. `nextpid` is taken not to overflow its int.
pub record Table : Type 0 where
  pub procs : ℕ → Proc
  pub nextpid : ℕ
  pub initproc : ℕ

-- Calls into the page allocator, virtual memory, the file table, the inode cache and the log.
pub data Call : Type 0 where
  kfree freevm filedup fileclose idup iput : ℕ → Call
  begin_op end_op : Call

abbrev pub is_unused : ProcState → Bool
is_unused s = elim s [ unused ↦ true | _ ↦ false ]

abbrev pub is_sleeping : ProcState → Bool
is_sleeping s = elim s [ sleeping ↦ true | _ ↦ false ]

abbrev pub is_runnable : ProcState → Bool
is_runnable s = elim s [ runnable ↦ true | _ ↦ false ]

abbrev pub is_zombie : ProcState → Bool
is_zombie s = elim s [ zombie ↦ true | _ ↦ false ]

abbrev pub same_chan : Chan → Chan → Bool
same_chan no_chan no_chan = true
same_chan (at_proc i) (at_proc j) = i == j
same_chan (at a) (at b) = a == b
same_chan _ _ = false

abbrev pub is_parent : Option ℕ → ℕ → Bool
is_parent none i = false
is_parent (some j) i = j == i

abbrev pub put : (ℕ → Proc) → ℕ → Proc → ℕ → Proc
put procs i p j = if i == j then p else procs j

-- allocproc up to its first release. `none` is a full table.
pub find_unused : ℕ → ℕ → (ℕ → Proc) → Option ℕ
find_unused zero i procs = none
find_unused (suc k) i procs =
    let rest = find_unused k (suc i) procs in if is_unused (procs i).state then some i else rest

-- allocproc when it has found entry `i`, for the page that kalloc returned.
abbrev pub claim : Table → ℕ → ℕ → Table
claim t i kstack = record t {
  procs = put t.procs i (record (t.procs i) { state = embryo; pid = t.nextpid; kstack = kstack });
  nextpid = t.nextpid + 1;
}

abbrev pub unclaim : Table → ℕ → Table
unclaim t i = record t { procs = put t.procs i (record (t.procs i) { state = unused; kstack = 0 }) }

-- allocproc. The page is 0 where kalloc fails.
pub allocproc : ℕ → Table → Option ℕ × Table
allocproc kstack t = elim (find_unused nproc 0 t.procs) [
  | none ↦ (none, t)
  | some i ↦ if kstack == 0 then (none, unclaim (claim t i 0) i) else (some i, claim t i kstack)
]

-- The table before userinit, all zero, with the static `nextpid = 1`. `initproc` is null, which stands
-- as 0 and is not read.
abbrev pub zero_table : Table
zero_table = record {
  procs = λ i. record {
    sz = 0;
    pgdir = 0;
    kstack = 0;
    state = unused;
    pid = 0;
    parent = none;
    chan = no_chan;
    killed = false;
    ofile = replicate 16 none;
    cwd = 0;
  };
  nextpid = 1;
  initproc = 0;
}

-- userinit, for the page directory from setupkvm and the inode from namei; `none` is its panic, or the
-- null pointer that it would follow if allocproc failed.
pub userinit : ℕ → ℕ → ℕ → Table → Option Table
userinit kstack pgdir root t =
    let r = allocproc kstack t in
    elim r.0 [
      | none ↦ none
      | some i ↦
          if pgdir == 0
          then none
          else some (record r.1 {
            procs =
                put r.1.procs i
                  (record (r.1.procs i) { pgdir = pgdir; sz = 4096; cwd = root; state = runnable });
            initproc = i;
          })
    ]

-- `if(curproc->ofile[i]) np->ofile[i] = filedup(curproc->ofile[i])`, over all i.
abbrev pub dup_calls : List (Option ℕ) → List Call
dup_calls [] = []
dup_calls (none ∷ fs) = dup_calls fs
dup_calls (some f ∷ fs) = filedup f ∷ dup_calls fs

abbrev pub dup_files : List (Option ℕ) → List (Option ℕ) → List (Option ℕ)
dup_files [] olds = olds
dup_files (f ∷ fs) [] = []
dup_files (none ∷ fs) (o ∷ olds) = o ∷ dup_files fs olds
dup_files (some f ∷ fs) (o ∷ olds) = some f ∷ dup_files fs olds

-- What fork leaves of entry `i` where copyuvm fails.
abbrev pub give_up : Table → ℕ → Table
give_up t i = record t {
  procs = put t.procs i (record (t.procs i) { pgdir = 0; kstack = 0; state = unused });
}

-- fork after allocproc has given entry `i`, for the page directory from copyuvm (0 where it fails).
abbrev pub fork_into : ℕ → ℕ → ℕ → Table → Option ℕ × Table × List Call
fork_into cur pgdir i t =
    let p = t.procs i in
    let parent = t.procs cur in
    if pgdir == 0 then (none, give_up t i, kfree p.kstack ∷ []) else (
      some p.pid,
      record t {
        procs = put t.procs i (record p {
          pgdir = pgdir;
          sz = parent.sz;
          parent = some cur;
          ofile = dup_files parent.ofile p.ofile;
          cwd = parent.cwd;
          state = runnable;
        });
      },
      dup_calls parent.ofile ++ idup parent.cwd ∷ [],
    )

-- fork by process `cur`; the result is the child's pid, or none for -1.
pub fork : ℕ → ℕ → ℕ → Table → Option ℕ × Table × List Call
fork cur kstack pgdir t =
    let r = allocproc kstack t in
    elim r.0 [ none ↦ (none, r.1, []) | some i ↦ fork_into cur pgdir i r.1 ]

-- wakeup1
pub wakeup1 : Chan → (ℕ → Proc) → ℕ → Proc
wakeup1 chan procs i =
    let p = procs i in
    if ltb i nproc && (is_sleeping p.state && same_chan p.chan chan)
    then record p { state = runnable }
    else p

pub wakeup : Chan → Table → Table
wakeup chan t = record t { procs = wakeup1 chan t.procs }

-- The wakeup1 of a pointer to a process.
abbrev pub chan_of : Option ℕ → Chan
chan_of none = no_chan
chan_of (some i) = at_proc i

-- One round of the loop of exit that passes children to init.
abbrev pub adopt : ℕ → ℕ → ℕ → (ℕ → Proc) → ℕ → Proc
adopt cur init i procs =
    let given = put procs i (record (procs i) { parent = some init }) in
    if is_parent (procs i).parent cur
    then (if is_zombie (procs i).state then wakeup1 (at_proc init) given else given)
    else procs

pub adopt_all : ℕ → ℕ → ℕ → ℕ → (ℕ → Proc) → ℕ → Proc
adopt_all zero i cur init procs = procs
adopt_all (suc k) i cur init procs = adopt_all k (suc i) cur init (adopt cur init i procs)

abbrev pub close_calls : List (Option ℕ) → List Call
close_calls [] = []
close_calls (none ∷ fs) = close_calls fs
close_calls (some f ∷ fs) = fileclose f ∷ close_calls fs

abbrev pub closed : List (Option ℕ) → List (Option ℕ)
closed [] = []
closed (f ∷ fs) = none ∷ closed fs

abbrev pub iput_calls : ℕ → List Call
iput_calls ip = begin_op ∷ iput ip ∷ end_op ∷ []

-- exit up to its sched. `none` is panic("init exiting").
pub exit : ℕ → Table → Option (Table × List Call)
exit cur t =
    if cur == t.initproc
    then none
    else (let p = t.procs cur in
        let shut = put t.procs cur (record p { ofile = closed p.ofile; cwd = 0 }) in
        let woken = wakeup1 (chan_of p.parent) shut in
        let passed = adopt_all nproc 0 cur t.initproc woken in
        some (
          record t { procs = put passed cur (record (passed cur) { state = zombie }) },
          close_calls p.ofile ++ iput_calls p.cwd,
        ))

-- How a pass of wait ends: it frees a child and returns its pid, returns -1, or sleeps.
pub data WaitOutcome : Type 0 where
  reaped : ℕ → WaitOutcome
  no_children wait_asleep : WaitOutcome

-- The scan of wait, `k` rounds from `i` on: the first zombie child, and whether a child was seen.
pub scan_children : ℕ → ℕ → ℕ → Bool → (ℕ → Proc) → Option ℕ × Bool
scan_children zero i cur havekids procs = (none, havekids)
scan_children (suc k) i cur havekids procs =
    let skip = scan_children k (suc i) cur havekids procs in
    let go_on = scan_children k (suc i) cur true procs in
    if not (is_parent (procs i).parent cur)
    then skip
    else (if is_zombie (procs i).state then (some i, true) else go_on)

abbrev pub reap : ℕ → Table → Table
reap i t = record t {
  procs =
      put t.procs i
        (record (t.procs i) { kstack = 0; pid = 0; parent = none; killed = false; state = unused });
}

-- sleep(chan) up to its sched.
pub sleep : ℕ → Chan → Table → Table
sleep cur chan t = record t {
  procs = put t.procs cur (record (t.procs cur) { chan = chan; state = sleeping });
}

-- `p->chan = 0`, when the sleeper runs again.
pub wake_tidy : ℕ → Table → Table
wake_tidy cur t = record t { procs = put t.procs cur (record (t.procs cur) { chan = no_chan }) }

-- One pass of wait by process `cur`.
pub wait : ℕ → Table → WaitOutcome × Table × List Call
wait cur t =
    let r = scan_children nproc 0 cur false t.procs in
    elim r.0 [
      | some i ↦ (
        reaped (t.procs i).pid,
        reap i t,
        kfree (t.procs i).kstack ∷ freevm (t.procs i).pgdir ∷ [],
      )
      | none ↦
          if not r.1 || (t.procs cur).killed
          then (no_children, t, [])
          else (wait_asleep, sleep cur (at_proc cur) t, [])
    ]

-- yield up to its sched.
pub yield : ℕ → Table → Table
yield cur t = record t { procs = put t.procs cur (record (t.procs cur) { state = runnable }) }

-- The body of the scheduler's loop up to its swtch; `none` where the process is not RUNNABLE.
pub schedule : ℕ → Table → Option Table
schedule i t =
    if not (is_runnable (t.procs i).state)
    then none
    else some (record t { procs = put t.procs i (record (t.procs i) { state = running }) })

-- The scan of kill, `k` rounds from `i` on.
pub find_pid : ℕ → ℕ → ℕ → (ℕ → Proc) → Option ℕ
find_pid zero i pid procs = none
find_pid (suc k) i pid procs =
    let rest = find_pid k (suc i) pid procs in if (procs i).pid == pid then some i else rest

-- kill; the flag says whether it returned 0.
pub kill : ℕ → Table → Bool × Table
kill pid t = elim (find_pid nproc 0 pid t.procs) [
  | none ↦ (false, t)
  | some i ↦
      let p = t.procs i in
      (
        true,
        record t {
          procs = put t.procs i (record p {
            killed = true;
            state = if is_sleeping p.state then runnable else p.state;
          });
        },
      )
]
