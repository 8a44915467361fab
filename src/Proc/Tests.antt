-- ===== src/Proc/Tests.antt =====
-- The theorems on the process table at a concrete kernel, and runs of the code.
use operating_systems_lab.Prelude.{
  ℕ, ◌+◌, ◌≡◌, refl, sym, ap, ◌∙◌, ◌≢◌, ◌⊎◌, inl, inr, true, false, Option, none, some, [], ◌∷◌,
  arith, ◌==◌, if◌then◌else◌, Bool-cases, pos,
}
use operating_systems_lab.Proc.{
  Procstate, unused, sleeping, running, zombie, Channel, null, proc_chan, Proc, Services, Kernel,
}
use operating_systems_lab.Proc.Table.{allocproc, setup_proc}
use operating_systems_lab.Proc.Sched.{yield_cpu}
use operating_systems_lab.Proc.Lifecycle.{fork, wait, exit}
use operating_systems_lab.Proc.Links.{Linked, is_live}
use operating_systems_lab.Proc.Alloc.{Forked, fork_lem}
use operating_systems_lab.Proc.Exit.{Exited, exit_lem}
use operating_systems_lab.Proc.Wait.{Pass, wait_lem}
use operating_systems_lab.Proc.Steps.{IsValid, yielded}
use operating_systems_lab.Proc.Reach.{Step-IsValid}
use operating_systems_lab.Proc.Info.{
  Uproc, procinfo, procinfo_writes_nothing, count_named, HasParents, is_named,
}

-- A memory that gives out pages by their number; every call succeeds.
abbrev plain : Services
plain = record {
  World = ℕ;
  kalloc = λ w. (w + 1, w + 1);
  kfree = λ a w. w;
  proc_pagetable = λ tf w. (w + 1, w + 1);
  proc_freepagetable = λ p sz w. w;
  uvmcopy = λ p q sz w. (true, w);
  uvmalloc = λ p a b w. (b, w);
  uvmdealloc = λ p a b w. (b, w);
  copy_trapframe = λ a b w. w;
  set_a0 = λ a b w. w;
  filedup = λ f w. w;
  fileclose = λ f w. w;
  idup = λ f w. w;
  iput = λ f w. w;
  copyout_int = λ p a x w. (true, w);
  forkret = 77;
}

abbrev entry_of : Procstate → Channel → ℕ → Option ℕ → Proc
entry_of s ch pid par = record {
  state = s;
  chan = ch;
  killed = false;
  xstate = pos 0;
  pid = pid;
  parent = par;
  kstack = 4096;
  sz = 8192;
  pagetable = 5;
  trapframe = 6;
  context_ra = 0;
  context_sp = 0;
  ofile = 1 ∷ 0 ∷ [];
  cwd = 1;
  name = [];
}

-- init sleeps in wait, its child runs on CPU 1, and that has a zombie child.
abbrev table : ℕ → Proc
table i =
    if i == 0
    then entry_of sleeping (proc_chan 0) 1 none
    else if i == 1
    then entry_of running null 2 (some 0)
    else if i == 2
    then entry_of zombie null 3 (some 1)
    else entry_of unused null 0 none

abbrev machine : Kernel ℕ
machine = record {
  procs = table;
  nextpid = 4;
  initproc = 0;
  cpus = λ c. if c == 1 then some 1 else none;
  world = 10;
}

table-parent : (i j : ℕ) → (table i).parent ≡ some j → (j ≡ 0) ⊎ (j ≡ 1)
table-parent i j e = ground arith

table-Linked : Linked 0 table
unfolding is_live
table-Linked = record {
  init_in = omega arith;
  init_live = refl;
  parents = λ i j lt e. elim (table-parent i j e) [
    | inl h ↦ rw h (omega arith, refl)
    | inr h ↦ rw h (omega arith, refl)
  ];
}

cpus-one : (c i : ℕ) → machine.cpus c ≡ some i → (c ≡ 1) × (i ≡ 1)
cpus-one c i e = ground arith

machine-IsValid : IsValid machine
machine-IsValid = record {
  on_cpus = record {
    runs = λ c i e. rw (cpus-one c i e).1 (omega arith, refl);
    alone = λ c d i e e'. (cpus-one c i e).0 ∙ sym (cpus-one d i e').0;
  };
  links = table-Linked;
}

-- A fork into entry 3, and the zombie child reaped.
fork_runs : (fork plain 1 machine).0 ≡ pos 4
unfolding fork allocproc setup_proc
fork_runs = refl

fork_lem_example : Forked plain 1 machine (fork plain 1 machine).1 (fork plain 1 machine).0
unfolding is_live
fork_lem_example = fork_lem plain 1 machine refl

exit_lem_example :
    ((exit plain 1 1 (pos 9) machine ≡ none) × (1 ≡ machine.initproc))
    ⊎ ((k' : Kernel ℕ) × (exit plain 1 1 (pos 9) machine ≡ some k')
        × (1 ≢ machine.initproc)
        × Exited 1 1 (pos 9) machine k')
exit_lem_example = exit_lem plain 1 1 (pos 9) machine table-Linked

wait_lem_example : Pass plain 1 1 0 machine (wait plain 1 1 0 machine)
wait_lem_example = wait_lem plain 1 1 0 machine

Step-IsValid_example : IsValid (yield_cpu 1 1 machine)
Step-IsValid_example =
    Step-IsValid plain machine (yield_cpu 1 1 machine) machine-IsValid (yielded 1 1 refl)

-- A user memory that counts the bytes stored.
abbrev counted : ℕ → Uproc → ℕ → ℕ → Option ℕ
counted a e len u = some (u + len)

counted-nothing : (a : ℕ) (e : Uproc) (u : ℕ) → counted a e 0 u ≡ some u
counted-nothing a e u = ap some (omega arith)

table-HasParents : HasParents table
unfolding is_named
table-HasParents i h = elim (Bool-cases (i == 0)) [
  | inl z ↦ inl (ground arith)
  | inr nz ↦ elim (Bool-cases (i == 1)) [
    | inl o ↦ inr (0, ground arith)
    | inr n1 ↦ elim (Bool-cases (i == 2)) [
      | inl tw ↦ inr (1, ground arith)
      | inr nt ↦ absurd (ground arith)
    ]
  ]
]

procinfo_writes_nothing_example : procinfo counted 64 table 5 ≡ some (pos 3, 5)
unfolding count_named is_named
procinfo_writes_nothing_example =
    procinfo_writes_nothing counted 64 counted-nothing table 5 table-HasParents
