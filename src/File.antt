-- ===== src/File.antt =====
-- file.c: the table of open files and their reference counts. Each function is what its C function
-- does while it holds ftable.lock; `none` is its panic. A file is its index in the table.
pub mod Counts
pub mod Holders
mod Tests
use xv6_fork.Prelude.{
  ℕ, zero, suc, ◌+◌, ◌-◌, Bool, true, false, Option, none, some, List, if◌then◌else◌, ◌==◌, ltb,
}

abbrev pub nfile : ℕ
nfile = 100

pub data FileType : Type 0 where
  fd_none fd_pipe fd_inode : FileType

-- `struct file`, with the addresses of its pipe and its inode.
pub record File : Type 0 where
  pub type : FileType
  pub ref : ℕ
  pub readable : Bool
  pub writable : Bool
  pub pipe : ℕ
  pub ip : ℕ
  pub off : ℕ

abbrev pub put : (ℕ → File) → ℕ → File → ℕ → File
put files f v g = if f == g then v else files g

-- The loop of filealloc: the first unused file from `i` on.
pub find_free : ℕ → ℕ → (ℕ → File) → Option ℕ
find_free zero i files = none
find_free (suc k) i files =
    let rest = find_free k (suc i) files in if (files i).ref == 0 then some i else rest

pub filealloc : (ℕ → File) → Option ℕ × (ℕ → File)
filealloc files = elim (find_free nfile 0 files) [
  | none ↦ (none, files)
  | some f ↦ (some f, put files f (record (files f) { ref = 1 }))
]

pub filedup : ℕ → (ℕ → File) → Option (ℕ → File)
filedup f files =
    if ltb (files f).ref 1
    then none
    else some (put files f (record (files f) { ref = (files f).ref + 1 }))

-- What fileclose gives back at the last reference: nothing, an end of a pipe by pipeclose, or an inode
-- by iput within a transaction.
pub data Release : Type 0 where
  nothing : Release
  pipe_end : ℕ → Bool → Release
  inode : ℕ → Release

abbrev pub release_of : File → Release
release_of f = elim f.type [
  | fd_none ↦ nothing
  | fd_pipe ↦ pipe_end f.pipe f.writable
  | fd_inode ↦ inode f.ip
]

pub fileclose : ℕ → (ℕ → File) → Option ((ℕ → File) × Release)
fileclose f files =
    if ltb (files f).ref 1
    then none
    else (if ltb 0 ((files f).ref - 1)
        then some (put files f (record (files f) { ref = (files f).ref - 1 }), nothing)
        else some
            (put files f (record (files f) { ref = 0; type = fd_none }), release_of (files f)))
