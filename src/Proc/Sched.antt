-- ===== src/Proc/Sched.antt =====
-- scheduler, yield, sleep, wakeup and kill of kernel/proc.c.
use operating_systems_lab.Prelude.{
  ℕ, zero, suc, ◌+◌, Bool, true, false, ◌&&◌, Option, none, some, ◌==◌, if◌then◌else◌, ℤ, minus_one,
  pos, update,
}
use operating_systems_lab.Proc.{
  Procstate, sleeping, runnable, running, Channel, null, chan_eq, Proc, Kernel, nproc, put_proc,
}

unfoldable pub is_sleeping : Procstate → Bool
is_sleeping sleeping = true
is_sleeping _ = false

unfoldable pub is_runnable : Procstate → Bool
is_runnable runnable = true
is_runnable _ = false

-- for(p = proc; p < &proc[NPROC]; p++), where the body changes only `*p`; `rounds` entries are left.
unfoldable pub for_procs : ℕ → ℕ → (ℕ → Proc → Proc) → (ℕ → Proc) → ℕ → Proc
for_procs zero i body t = t
for_procs (suc rounds) i body t = for_procs rounds (i + 1) body (update t i (body i (t i)))

-- The body of wakeup's loop.
unfoldable pub wake_one : ℕ → Channel → ℕ → Proc → Proc
unfolding is_sleeping
wake_one cur c i p =
    if i == cur
    then p
    else if is_sleeping p.state && chan_eq p.chan c
    then record p { state = runnable }
    else p

-- `cur` is myproc().
unfoldable pub wakeup : ℕ → Channel → (ℕ → Proc) → ℕ → Proc
unfolding for_procs wake_one
wakeup cur c t = for_procs nproc 0 (wake_one cur c) t

-- The first entry with the pid.
unfoldable pub find_pid : ℕ → ℕ → ℕ → (ℕ → Proc) → Option ℕ
find_pid pid zero i t = none
find_pid pid (suc rounds) i t = elim ((t i).pid == pid) [
  | true ↦ some i
  | false ↦ find_pid pid rounds (i + 1) t
]

unfoldable pub kill : ℕ → (ℕ → Proc) → ℤ × (ℕ → Proc)
unfolding find_pid is_sleeping
kill pid t = elim (find_pid pid nproc 0 t) [
  | none ↦ (minus_one, t)
  | some i ↦ (
    pos 0,
    update t i (record (t i) {
      killed = true;
      state = if is_sleeping (t i).state then runnable else (t i).state;
    }),
  )
]

module _ {W : Type 0} where
  -- One round of scheduler's loop on CPU c up to swtch; `none` if the entry is not RUNNABLE.
  unfoldable pub dispatch : ℕ → ℕ → Kernel W → Option (Kernel W)
  unfolding is_runnable
  dispatch c i k =
      if is_runnable (k.procs i).state
      then some (record (put_proc i (record (k.procs i) { state = running }) k) {
        cpus = update k.cpus c (some i);
      })
      else none

  -- sched, then the scheduler's c->proc = 0: the process leaves its CPU.
  abbrev pub sched : ℕ → Kernel W → Kernel W
  sched c k = record k { cpus = update k.cpus c none }

  unfoldable pub yield_cpu : ℕ → ℕ → Kernel W → Kernel W
  yield_cpu c cur k = sched c (put_proc cur (record (k.procs cur) { state = runnable }) k)

  -- sleep up to sched.
  unfoldable pub sleep : ℕ → ℕ → Channel → Kernel W → Kernel W
  sleep c cur chan k =
      sched c (put_proc cur (record (k.procs cur) { chan = chan; state = sleeping }) k)

  -- sleep after sched.
  unfoldable pub sleep_return : ℕ → Kernel W → Kernel W
  sleep_return cur k = put_proc cur (record (k.procs cur) { chan = null }) k
