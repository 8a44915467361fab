-- ===== src/Proc/Lifecycle.antt =====
-- fork, reparent, exit and wait of kernel/proc.c.
use operating_systems_lab.Prelude.{
  ℕ, zero, suc, ◌+◌, Bool, true, false, not, ◌&&◌, ◌||◌, Option, none, some, List, [], ◌∷◌, ◌==◌,
  if◌then◌else◌, take, ℤ, to_int, minus_one, update,
}
use operating_systems_lab.Proc.{
  Procstate, runnable, zombie, Channel, null, proc_chan, Proc, Services, Kernel, nproc, put_proc,
}
use operating_systems_lab.Proc.Table.{allocproc, freeproc}
use operating_systems_lab.Proc.Sched.{wakeup, sched, sleep}

unfoldable pub is_zombie : Procstate → Bool
is_zombie zombie = true
is_zombie _ = false

abbrev pub is_child : ℕ → Proc → Bool
is_child cur p = elim p.parent [ none ↦ false | some j ↦ j == cur ]

-- reparent: give the children of `cur` to init.
unfoldable pub reparent_from : ℕ → ℕ → ℕ → ℕ → (ℕ → Proc) → ℕ → Proc
reparent_from zero i cur init t = t
reparent_from (suc rounds) i cur init t = reparent_from rounds (i + 1) cur init (
    if is_child cur (t i)
    then wakeup cur (proc_chan init) (update t i (record (t i) { parent = some init }))
    else t)

unfoldable pub reparent : ℕ → ℕ → (ℕ → Proc) → ℕ → Proc
unfolding reparent_from
reparent cur init t = reparent_from nproc 0 cur init t

abbrev pub parent_chan : Proc → Channel
parent_chan p = elim p.parent [ none ↦ null | some j ↦ proc_chan j ]

-- The pass of wait over the entries from i on: `havekids` so far, and the first zombie child.
unfoldable pub find_zombie : ℕ → ℕ → ℕ → (ℕ → Proc) → Bool → Bool × Option ℕ
unfolding is_zombie
find_zombie cur zero i t havekids = (havekids, none)
find_zombie cur (suc rounds) i t havekids =
    let later = find_zombie cur rounds (i + 1) t (havekids || is_child cur (t i)) in
    if is_child cur (t i) && is_zombie (t i).state then (true, some i) else later

-- How wait ends one pass over the table: with a result, or asleep on its own entry.
pub data Waited (K : Type 0) : Type 0 where
  returned : ℤ → K → Waited K
  asleep : K → Waited K

module _ (sys : Services) where
  open sys use {World, uvmcopy, copy_trapframe, set_a0, filedup, fileclose, idup, iput, copyout_int}

  -- for(i = 0; i < NOFILE; i++) if(p->ofile[i]) np->ofile[i] = filedup(p->ofile[i]);
  unfoldable pub dup_files : List ℕ → List ℕ → World → List ℕ × World
  dup_files [] mine w = (mine, w)
  dup_files (f ∷ fs) [] w = ([], w)
  dup_files (f ∷ fs) (g ∷ gs) w =
      let (rest, w') = dup_files fs gs (if f == 0 then w else filedup f w) in
      ((if f == 0 then g else f) ∷ rest, w')

  -- fork, once allocproc has given entry `np`.
  unfoldable pub fork_into : ℕ → ℕ → Kernel World → ℤ × Kernel World
  unfolding dup_files freeproc
  fork_into cur np k =
      let p = k.procs cur in
      let child = k.procs np in
      let (copied, w₁) = uvmcopy p.pagetable child.pagetable p.sz k.world in
      if not copied
      then (minus_one, freeproc sys np (record k { world = w₁ }))
      else let w₂ = set_a0 child.trapframe 0 (copy_trapframe child.trapframe p.trapframe w₁) in
        let (files, w₃) = dup_files p.ofile child.ofile w₂ in
        let w₄ = idup p.cwd w₃ in
        (
          to_int child.pid,
          record (put_proc np
              (record child {
                sz = p.sz;
                ofile = files;
                cwd = p.cwd;
                name = take 15 p.name;
                parent = some cur;
                state = runnable;
              })
              k) { world = w₄ },
        )

  unfoldable pub fork : ℕ → Kernel World → ℤ × Kernel World
  unfolding fork_into
  fork cur k =
      let (np, k') = allocproc sys k in
      elim np [ none ↦ (minus_one, k') | some i ↦ fork_into cur i k' ]

  -- The loop of exit that closes the open files.
  unfoldable pub close_files : List ℕ → World → List ℕ × World
  close_files [] w = ([], w)
  close_files (f ∷ fs) w =
      let (rest, w') = close_files fs (if f == 0 then w else fileclose f w) in (0 ∷ rest, w')

  -- exit up to sched; `none` is panic("init exiting").
  unfoldable pub exit : ℕ → ℕ → ℤ → Kernel World → Option (Kernel World)
  unfolding close_files reparent
  exit c cur status k =
      if cur == k.initproc
      then none
      else let p = k.procs cur in
        let (files, w) = close_files p.ofile k.world in
        let t₁ = update k.procs cur (record p { ofile = files; cwd = 0 }) in
        let t₂ = reparent cur k.initproc t₁ in
        let t₃ = wakeup cur (parent_chan (t₂ cur)) t₂ in
        some (
          sched c (record k {
            procs = update t₃ cur (record (t₃ cur) { xstate = status; state = zombie });
            world = iput p.cwd w;
          }))

  -- wait, when it has found the zombie child `np`.
  unfoldable pub reap : ℕ → ℕ → ℕ → Kernel World → Waited (Kernel World)
  unfolding freeproc
  reap cur addr np k =
      let (copied, w) =
        if addr == 0
        then (true, k.world)
        else copyout_int (k.procs cur).pagetable addr (k.procs np).xstate k.world in
      if not copied
      then returned minus_one (record k { world = w })
      else returned (to_int (k.procs np).pid) (freeproc sys np (record k { world = w }))

  -- One pass of wait's outer loop on CPU c, up to its return or to sched.
  unfoldable pub wait : ℕ → ℕ → ℕ → Kernel World → Waited (Kernel World)
  unfolding find_zombie reap
  wait c cur addr k =
      let (havekids, found) = find_zombie cur nproc 0 k.procs false in
      elim found [
        | some np ↦ reap cur addr np k
        | none ↦
            if not havekids || (k.procs cur).killed
            then returned minus_one k
            else asleep (sleep c cur (proc_chan cur) k)
      ]
