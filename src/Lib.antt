-- ===== src/Lib.antt =====
-- xv6: models and theorems of the kernel's own logic, from the C files at the repository's root.
--
-- The parts, and the files that model them:
-- * Pipe (pipe.c): the ring of 512 bytes and its two wrapping counters. A call is modelled as a run up
--   to its return or its next sleep; a sleeping call is a value that says what is left to do, and goes
--   on from there in a run of its own when it is woken. Locks are implicit: such a run holds the pipe's lock. The specification in
--   Pipe/Traffic is a bounded queue with two ends that can be closed.
-- * Log (log.c): the write-ahead log. Log/Disk is the disk and the buffer cache as bread and bwrite
--   show them (bio.c, ide.c): a block is 128 words, and only buffers that differ from the disk are
--   kept. A crash is a bound on the number of disk writes that happen; a restart forgets the cache and
--   `struct log` and runs initlog. Log/Layout says what a disk means, Log/Write and Log/Recover follow
--   commit and recovery write by write, Log/Atomic joins them. Log/Space has the calls of several
--   processes as steps in any order; the steps of one commit are one step there, since `committing`
--   and the empty count keep all others out.
-- * Kalloc (kalloc.c): the free list of pages, threaded through the first word of each page. `words`
--   is the kernel's memory, and `kernel_end` the symbol `end` of kernel.ld. kmem_len and freerange
--   take fuel, with theorems that any fuel above the number of pages is enough. Kalloc/Reclaim has kalloc
--   with its call of reclaim, on the list of Lru, the entries of Swap and the blocks of Fs; its loops take
--   fuel, of which a call that does not reclaim needs one unit.
-- * Lru (kalloc.c): the array `pages` and the list through it; pointers into it are indices.
-- * Swap (vm.c, kalloc.c): the page table entries of swapped pages. The fuel of a run over the page
--   list is universally quantified where a loop does not end.
-- * Proc (proc.c): the process table, userinit, allocproc, fork, exit, wait, sleep, wakeup, yield, the
--   scheduler's choice and kill. Each is what the C function does until sched or its return; what it
--   calls elsewhere is returned as a list, and what it gets from there is an argument. `nextpid` is
--   taken not to overflow its int, which takes 2^31 - 1 processes. Proc/Reach has the operations of all
--   processes as steps in any order, with fork as two.
-- * File (file.c): filealloc, filedup and fileclose on the reference counts; the references that are
--   held are a list in File/Holders, whose steps are calls with a reference in hand.
-- * Text (string.c): every function, over a memory of bytes by address. A size of 0 stands for the sizes
--   of at most 0 that safestrcpy and strncpy are given. strlen has fuel; more than the length of the
--   string is enough.
-- * Spin (spinlock.c, sleeplock.c): interrupts of a processor and locks. Spin/Exclusion has each access
--   of acquire and release to the lock as a step of its own.
-- * Print (printf.c, console.c, ulib.c): numbers and formats as lists of bytes, and atoi. 32 rounds are
--   fuel for the digits of a word. The arguments of a call are a function of their position.
-- * Grep (grep.c): the matcher; its specification is by recursion on the pattern.
-- * Syscall (syscall.c, sysfile.c): arguments from user memory, and dup and close on the tables of a
--   process (proc.h) and of open files (file.c).
-- * Fs (fs.c): the bitmap of blocks, on the contents that the log shows. The rounds of both loops of
--   balloc cover every block.
-- * Inode (fs.c): bmap, readi, writei, iupdate and itrunc on the bytes of the blocks that the log shows. Slot 12
--   of an inode is its indirect block. The loops of readi and writei have as much fuel as there are
--   bytes; Inode/Read and Inode/Loop show that it is enough.
-- * Icache (fs.c): the cache of inodes and ialloc. A call is what the C function does with icache.lock or
--   the sleep lock of the inode in hand; Icache/Reachable has the calls of all holders as steps in any
--   order.
-- * Dir (fs.c, sysfile.c): dirlookup, dirlink and isdirempty on directories in the cache of Icache. Their
--   loops have two rounds more than the directory has entries, which Dir/Lookup, Dir/Link and Dir/Empty
--   show to be enough. dirlink takes the sleep locks of the inodes (sleeplock.c, in Spin) for its iput.
-- * Bio (bio.c): the list of the buffer cache through its two pointers. The loops of bget have one
--   round for each buffer and one for the head.
-- * Console (console.c): the line that the keyboard fills and that processes read. The loop of C('U')
--   gets as many rounds as the ring has places.
-- * Names (fs.c): the elements of path names. namex, which looks them up, is in Dir/Walk; it has one
--   round for each character of the path and one more, which Dir/Walk shows to be enough.
-- * Shell (sh.c): the parser of command lines. Its fuel is three units for each character and three
--   more, which Shell/Grammar shows to be enough.
--
-- Pipe and Log model a sleep by ending a run; wakeups are part of what a run returns. Numbers are
-- natural numbers with the wrap of `uint` written out; the counters of `struct log` stay far below
-- their `int` range by the invariants. Not modelled are
-- page tables, exec, and most user programs; devices and start-up code are left out.
pub mod Prelude
pub mod Pipe
pub mod Log
pub mod Kalloc
pub mod Lru
pub mod Swap
pub mod Proc
pub mod Text
pub mod File
pub mod Grep
pub mod Print
pub mod Spin
pub mod Shell
pub mod Syscall
pub mod Fs
pub mod Inode
pub mod Icache
pub mod Dir
pub mod Names
pub mod Console
pub mod Bio
