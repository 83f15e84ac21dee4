-- ===== src/Syscall.antt =====
-- syscall.c and sysfile.c: fetching the arguments of a system call from user memory, and the file
-- descriptors of a process. A pointer that is handed on is the address itself; `none` is -1 for the
-- functions that return an Option.
pub mod Memory
pub mod Lowest
pub mod Descriptors
mod Tests
use xv6_fork.Prelude.{
  ℕ, zero, suc, ◌+◌, ◌-◌, ◌*◌, Bool, true, false, ◌||◌, Option, none, some, List, [], ◌∷◌,
  if◌then◌else◌, ◌==◌, ltb, leb, add32, get_elem?, set,
}
use xv6_fork.File.{File, Release, nothing, filedup, fileclose}

-- The memory of the process as bytes by user address, its size, and its saved stack pointer.
pub record User : Type 0 where
  pub memory : ℕ → ℕ
  pub sz : ℕ
  pub esp : ℕ

-- `*(int*)addr`, as a word.
abbrev pub word_at : (ℕ → ℕ) → ℕ → ℕ
word_at m a = m a + m (a + 1) * 256 + m (a + 2) * 65536 + m (a + 3) * 16777216

pub fetchint : User → ℕ → Option ℕ
fetchint u addr =
    if leb u.sz addr || ltb u.sz (add32 addr 4) then none else some (word_at u.memory addr)

-- The loop of fetchstr, `k` rounds from `s` on, with `n` characters before it.
pub scan_text : (ℕ → ℕ) → ℕ → ℕ → ℕ → Option ℕ
scan_text m zero s n = none
scan_text m (suc k) s n =
    let rest = scan_text m k (s + 1) (n + 1) in if m s == 0 then some n else rest

-- fetchstr returns the length of the string.
pub fetchstr : User → ℕ → Option ℕ
fetchstr u addr = if leb u.sz addr then none else scan_text u.memory (u.sz - addr) addr 0

pub argint : ℕ → User → Option ℕ
argint n u = fetchint u (add32 (add32 u.esp 4) (4 * n))

-- The `size` is the word of an int.
pub argptr : ℕ → ℕ → User → Option ℕ
argptr n size u = elim (argint n u) [
  | none ↦ none
  | some i ↦ if leb 0x80000000 size || (leb u.sz i || ltb u.sz (add32 i size)) then none else some i
]

-- argstr returns the address and the length.
pub argstr : ℕ → User → Option (ℕ × ℕ)
argstr n u = elim (argint n u) [
  | none ↦ none
  | some addr ↦ elim (fetchstr u addr) [ none ↦ none | some len ↦ some (addr, len) ]
]

-- `curproc->ofile[fd]`, null past the end.
abbrev pub file_at : List (Option ℕ) → ℕ → Option ℕ
file_at [] fd = none
file_at (f ∷ fs) zero = f
file_at (f ∷ fs) (suc fd) = file_at fs fd

-- argfd: the descriptor and its file. The table has NOFILE entries, and a negative descriptor is a
-- word past its end.
pub argfd : ℕ → User → List (Option ℕ) → Option (ℕ × ℕ)
argfd n u ofile = elim (argint n u) [
  | none ↦ none
  | some fd ↦ elim (file_at ofile fd) [ none ↦ none | some f ↦ some (fd, f) ]
]

-- fdalloc: the lowest free descriptor, and the table with the file in it.
pub fdalloc : ℕ → List (Option ℕ) → Option (ℕ × List (Option ℕ))
fdalloc f [] = none
fdalloc f (none ∷ fs) = some (0, some f ∷ fs)
fdalloc f (some g ∷ fs) = elim (fdalloc f fs) [
  | none ↦ none
  | some (fd, gs) ↦ some (fd + 1, some g ∷ gs)
]

-- How a system call on descriptors ends.
pub data Outcome : Type 0 where
  fails : Outcome
  panics : Outcome
  returns : ℕ → List (Option ℕ) → (ℕ → File) → Release → Outcome

-- sys_dup behind argfd.
pub dup_file : ℕ → List (Option ℕ) → (ℕ → File) → Outcome
dup_file f ofile files = elim (fdalloc f ofile) [
  | none ↦ fails
  | some (fd, ofile') ↦ elim (filedup f files) [
    | none ↦ panics
    | some files' ↦ returns fd ofile' files' nothing
  ]
]

pub sys_dup : User → List (Option ℕ) → (ℕ → File) → Outcome
sys_dup u ofile files = elim (argfd 0 u ofile) [
  | none ↦ fails
  | some (fd, f) ↦ dup_file f ofile files
]

-- sys_close behind argfd.
pub close_file : ℕ → ℕ → List (Option ℕ) → (ℕ → File) → Outcome
close_file fd f ofile files = elim (fileclose f files) [
  | none ↦ panics
  | some (files', r) ↦ returns 0 (set ofile fd none) files' r
]

pub sys_close : User → List (Option ℕ) → (ℕ → File) → Outcome
sys_close u ofile files = elim (argfd 0 u ofile) [
  | none ↦ fails
  | some (fd, f) ↦ close_file fd f ofile files
]
