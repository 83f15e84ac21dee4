-- ===== src/Syscall/Tests.antt =====
-- System calls of a process with one page and two files.
use xv6_fork.Prelude.{
  ℕ, ◌+◌, ◌≤◌, ◌<◌, ◌≡◌, refl, arith, true, false, Option, none, some, List, [], ◌∷◌, ◌++◌,
  if◌then◌else◌, ◌==◌,
}
use xv6_fork.File.{File, fd_pipe}
use xv6_fork.File.Counts.{IsHeld}
use xv6_fork.Syscall.{User, word_at, fetchint, argint, argptr, argstr, argfd, sys_dup, sys_close}
use xv6_fork.Syscall.Memory.{IsText, args-inside}
use xv6_fork.Syscall.Lowest.{refs}
use xv6_fork.Syscall.Descriptors.{Dups, Closes, sys_dup-sys_close}

-- The stack has descriptor 1 as its first argument.
abbrev user : User
user = record { memory = λ a. if a == 4084 then 1 else 0; sz = 4096; esp = 4080 }

args-inside_example :
    ((p : ℕ) → argptr 0 8 user ≡ some p → (p < user.sz) × (p + 8 ≤ user.sz))
    × ((addr v : ℕ)
        → fetchint user addr ≡ some v
        → (addr + 4 ≤ user.sz) × (v ≡ word_at user.memory addr))
    × ((addr len : ℕ) → argstr 0 user ≡ some (addr, len) → IsText user addr len)
args-inside_example = args-inside 0 8 user (omega arith) (omega arith)

pointer : argptr 0 8 user ≡ some 1
unfolding argptr argint fetchint
pointer = refl

past_end : argint 3 user ≡ none
unfolding argint fetchint
past_end = refl

abbrev ofile : List (Option ℕ)
ofile = none ∷ some 5 ∷ none ∷ []

abbrev shared : File
shared = record {
  type = fd_pipe;
  ref = 2;
  readable = true;
  writable = false;
  pipe = 0x80200000;
  ip = 0;
  off = 0;
}

abbrev files : ℕ → File
files f = if f == 5 then shared else record shared { ref = 0 }

files-IsHeld : IsHeld files (refs ofile ++ 5 ∷ [])
files-IsHeld f = ground arith

descriptor : argfd 0 user ofile ≡ some (1, 5)
unfolding argfd argint fetchint
descriptor = refl

sys_dup-sys_close_example :
    Dups 5 ofile (5 ∷ []) (sys_dup user ofile files)
    × Closes 1 5 ofile (5 ∷ []) files (sys_close user ofile files)
sys_dup-sys_close_example = sys_dup-sys_close user ofile (5 ∷ []) files 1 5 descriptor files-IsHeld
