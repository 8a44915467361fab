-- ===== src/Lib.antt =====
-- The kernel of a RISC-V teaching operating system (kernel/) and parts of its user programs (user/):
-- definitions that follow the C code, and theorems about them.
--
-- Parts and files
--   kernel/kalloc.c   Kalloc       kfree, kalloc, freerange and kinit on physical memory as 64-bit words by
--                                  address; the free list is threaded through the free pages.
--   kernel/string.c   Strings      the functions on memory as bytes by address; also memmove of user/ulib.c.
--   kernel/vm.c       Vm           page tables as 64-bit words in the memory of Kalloc: walk, walkaddr and
--                                  mappages; Vm.Space (uvmunmap, uvmalloc, uvmdealloc, freewalk, uvmcopy and
--                                  the like), Vm.Copy (copyout, copyin, copyinstr), Vm.Process (kvmmake, and
--                                  from kernel/proc.c proc_mapstacks, proc_pagetable, proc_freepagetable).
--                                  Vm.Tables says what a proper page table is; Vm.Bytes has the bytes of the
--                                  words, on which memmove of Strings works.
--                     UserMemory   copyin and copyout of one byte, as kernel/pipe.c calls them.
--   kernel/pipe.c     Pipe         pipewrite and piperead as runs under pi->lock, up to a return or a sleep,
--                                  with the counters taken modulo 2 ^ 32.
--   kernel/log.c      Log          recovery, transactions and commit, over a disk of blocks, with the disk
--                                  after each single write; the buffer cache (kernel/bio.c) is the view that
--                                  bread gives of a block, and the counts of bpin.
--   kernel/bio.c      Bio          the buffer cache: the buffers, their reference counts and the list that
--                                  orders them by use, as next and prev pointers, and the process that holds
--                                  each buffer's sleep lock; bget and bread may end asleep.
--   kernel/fs.c       Fs           the file system above the log: Fs.Bitmap (bzero, balloc, bfree), Fs.Inodes
--                                  (iget, idup, ilock, iunlock, iupdate, ialloc), Fs.Content (bmap, itrunc,
--                                  iput, stati, readi, writei), Fs.Directory (namecmp, dirlookup, dirlink),
--                                  Fs.Path (skipelem, namex). Fs.Bytes has numbers in the bytes of a block.
--   kernel/proc.c     Proc         the process table: Proc.Table (allocproc, freeproc, growproc), Proc.Sched
--                                  (scheduler, sched, yield, sleep, wakeup, kill), Proc.Lifecycle (fork,
--                                  reparent, exit, wait), Proc.Info (procinfo).
--   kernel/file.c     File         the file table: filealloc, filedup, fileclose, filestat, fileread, filewrite.
--   kernel/console.c  Console      the line buffer: the input interrupt (consoleintr) and consoleread, as runs
--                                  under cons.lock, up to a return or a sleep.
--   kernel/printf.c   Printf       printint, printptr and printf, as the characters passed to consputc.
--   kernel/syscall.c  Syscall      the fetching of arguments: fetchaddr, fetchstr, argint, argaddr, argstr.
--   kernel/spinlock.c Spinlock     acquire and release of one lock by several CPUs, as a step relation with
--                                  the swap, the writes of lk->cpu and the store of 0 as single steps.
--   user/grep.c       Grep         the matcher: match, matchhere, matchstar.
-- The other modules of a part hold its theorems and are named for what they prove; a module Tests holds
-- concrete inputs. Prelude has the shared names and the lemmas on tests, lists and integers.
--
-- How the parts meet
--   proc.c calls the page allocator, the page tables, the file table, the inodes and the log; these calls
--   are the record Proc.Services, over a state of its own, which is a parameter of the definitions.
--   A pipe calls wakeup and sleep of proc.c: a run that sleeps ends with `asleep`, and Pipe.wakeups lists
--   the channels that were woken. copyout, which procinfo calls, is an argument of procinfo.
--   fs.c reads and writes blocks through the view that the cache gives of them, and lists the blocks that
--   it passes to log_write; either_copyout and either_copyin are arguments of readi and writei. namecmp
--   calls strncmp of Strings.
--   file.c calls the log, fs.c, pipe.c, the devices and copyout; these calls are the record FileCalls, over a
--   state of its own, which is a parameter of the definitions; each of them may panic.
--   The text that procdump prints on ^P is an argument of consoleintr.
--   vm.c takes its pages from kalloc of Kalloc and gives them back by kfree, in one memory: a table made by
--   walk is a page off the free list. copyin and copyout move bytes by memmove of Strings.
--
-- Bounds and fuel
--   A loop over the process table, the inode table or the log runs over the number of entries that are
--   left, which is the bound that the C loop has. pipewrite and piperead run over the bytes that are left.
--   free_from has fuel for one round more than there are pages below the end of its range, and its loop
--   has no more than that. strlen has fuel, one round more than the distance to the first NUL being
--   enough. The loops of bget have one round more than there are buffers, for the head. The loops of
--   balloc, readi and dirlookup have as many rounds as their ranges allow, and the theorems on them show
--   that this is enough; namex has one round more than the path has characters, each round taking at
--   least one off the path. The loop of ^U in consoleintr has a round for each edited character, and the
--   loop of printint more rounds than a number of 32 bits has digits.
--   A loop over a range of pages has a round for every page below MAXVA and one more, as walk panics from
--   MAXVA on. copyin, copyout, copyinstr and filewrite have a round for each byte and one more, as each
--   round but the last copies a byte at least. freewalk goes three levels down, as walk does.
--   uint and int values wrap where the code can make them do so: pipe counters, p->sz in
--   growproc, nextpid, off + n in readi and writei, the reference counts of buffers, the indices of the console.
--
-- Not modelled
--   Locks, but for the spin lock itself: each critical section is one transition, and a sleep lock is
--   held or free: in Bio with the pid that holds it, in Fs as a flag that is set when it is free.
--   What C leaves undefined: printint is `none` where it would leave its arrays; a log header with more
--   than LOGSIZE blocks, which read_head would write past log.lh.block, is outside the theorems on Log.
--   The saving of registers, satp and the TLB, devices, readsb, fsinit and iinit of fs.c, the rest of the
--   system call layer, exec, and most user programs.
pub mod Prelude
pub mod Kalloc
pub mod Strings
pub mod UserMemory
pub mod Pipe
pub mod Log
pub mod Proc
pub mod Bio
pub mod Fs
pub mod Console
pub mod Grep
pub mod Spinlock
pub mod Vm
pub mod File
pub mod Printf
pub mod Syscall
