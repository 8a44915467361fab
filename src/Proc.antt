-- ===== src/Proc.antt =====
-- kernel/proc.c and kernel/proc.h: the process table. A function runs under the locks that it takes, so
-- each is one transition of the table; sleep, yield and exit end in sched, where the process leaves its
-- CPU, and are cut there.
pub mod Table
pub mod Sched
pub mod Lifecycle
pub mod Info
pub mod Links
pub mod Poised
pub mod Exit
pub mod Alloc
pub mod Family
pub mod Cpus
pub mod Wakeup
pub mod Wait
pub mod Steps
pub mod Keep
pub mod Reach
mod Tests
use operating_systems_lab.Prelude.{
  ℕ, zero, suc, ◌+◌, ◌-◌, ◌*◌, ◌/◌, ◌%◌, ◌^◌, ◌≤◌, ◌<◌, min, ◌≡◌, refl, sym, ap, ap₂, subst, ◌∙◌,
  fun_ext, ◌≢◌, ◌↔◌, ◌⊎◌, inl, inr, Bool, true, false, not, ◌&&◌, ◌||◌, Option, none, some, List,
  [], ◌∷◌, ◌++◌, map, append-nil, append_assoc, arith, ltb, leb, ◌==◌, if◌then◌else◌, ltb→lt,
  lt→ltb, leb→le, ==_iff, tests, Bool-cases, Option-cases, length, get_elem?, set, length-append,
  length-set, get_elem?-set_self, get_elem?-set_ne, get_or, take, drop, replicate, take-append-drop,
  length-take, length-drop, length-replicate, length-map, ℤ, minus_one, sub_ℕ, sub_ℕ-eq-zero,
  sub_ℕ-self, pos, negsuc, update, update_self, update_ne, update_same,
}

abbrev pub nproc : ℕ
nproc = 64

abbrev pub nofile : ℕ
nofile = 16

pub data Procstate : Type 0 where
  unused used sleeping runnable running zombie : Procstate

-- What a process can sleep on: the null pointer, an entry of the process table, another object.
pub data Channel : Type 0 where
  null : Channel
  proc_chan : ℕ → Channel
  object : ℕ → Channel

abbrev pub chan_eq : Channel → Channel → Bool
chan_eq null null = true
chan_eq (proc_chan i) (proc_chan j) = i == j
chan_eq (object a) (object b) = a == b
chan_eq _ _ = false

-- `struct proc`. A parent is an index into the table; pages, files and inodes are pointers, 0 for none;
-- `name` is the C string in that array.
pub record Proc : Type 0 where
  pub state : Procstate
  pub chan : Channel
  pub killed : Bool
  pub xstate : ℤ
  pub pid : ℕ
  pub parent : Option ℕ
  pub kstack : ℕ
  pub sz : ℕ
  pub pagetable : ℕ
  pub trapframe : ℕ
  pub context_ra : ℕ
  pub context_sp : ℕ
  pub ofile : List ℕ
  pub cwd : ℕ
  pub name : List ℕ

-- What proc.c calls in kernel/vm.c, kalloc.c, file.c, fs.c and log.c, over the state that those keep.
-- A page or page table is 0 where the call fails, and a Boolean is false.
pub record Services : Type 1 where
  pub World : Type 0
  pub kalloc : World → ℕ × World
  pub kfree : ℕ → World → World
  pub proc_pagetable : ℕ → World → ℕ × World
  pub proc_freepagetable : ℕ → ℕ → World → World
  pub uvmcopy : ℕ → ℕ → ℕ → World → Bool × World
  pub uvmalloc : ℕ → ℕ → ℕ → World → ℕ × World
  pub uvmdealloc : ℕ → ℕ → ℕ → World → ℕ × World
  pub copy_trapframe : ℕ → ℕ → World → World
  pub set_a0 : ℕ → ℕ → World → World
  pub filedup : ℕ → World → World
  pub fileclose : ℕ → World → World
  pub idup : ℕ → World → World
  pub iput : ℕ → World → World
  pub copyout_int : ℕ → ℕ → ℤ → World → Bool × World
  pub forkret : ℕ

-- The table, with `nextpid`, the bits of an int as the pids are, `initproc`, the process of each CPU, and the rest of the kernel.
pub record Kernel (W : Type 0) : Type 0 where
  pub procs : ℕ → Proc
  pub nextpid : ℕ
  pub initproc : ℕ
  pub cpus : ℕ → Option ℕ
  pub world : W

abbrev pub put_proc : {W : Type 0} → ℕ → Proc → Kernel W → Kernel W
put_proc i p k = record k { procs = update k.procs i p }
