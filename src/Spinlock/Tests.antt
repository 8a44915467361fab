-- ===== src/Spinlock/Tests.antt =====
-- The theorem on the spin lock at a concrete run.
use operating_systems_lab.Prelude.{refl, true, false, some, update}
use operating_systems_lab.Spinlock.{
  Cpu, initlock, holding, push_off, outside, spinning, taken, State, goto, acquire_starts,
  acquire_takes, acquire_ends, inside, Reachable, start, step,
}
use operating_systems_lab.Spinlock.Exclusion.{Safe, Reachable-Safe}

-- All CPUs take interrupts and hold no lock.
abbrev idle : Cpu
idle = record { noff = 0; intena = false; intr = true }

abbrev fresh : State
fresh = record { lock = initlock; cpus = λ _. idle; pc = λ _. outside }

-- CPU 0 comes to the loop of acquire, takes the lock and leaves acquire, and CPU 1 waits for it.
abbrev in_loop : State
in_loop = goto 0 spinning (record fresh { cpus = update fresh.cpus 0 (push_off (fresh.cpus 0)) })

abbrev swapped : State
swapped = goto 0 taken (record in_loop { lock = record in_loop.lock { locked = true } })

abbrev locked_state : State
locked_state = goto 0 inside (record swapped { lock = record swapped.lock { cpu = some 0 } })

abbrev contended : State
contended =
    goto 1 spinning
      (record locked_state { cpus = update locked_state.cpus 1 (push_off (locked_state.cpus 1)) })

contended-Reachable : Reachable contended
unfolding initlock holding
contended-Reachable =
    step 1
      (step 0
        (step 0 (step 0 (start (λ _. idle)) (acquire_starts refl refl)) (acquire_takes refl refl))
        (acquire_ends refl))
      (acquire_starts refl refl)

Reachable-Safe_example : Safe contended
Reachable-Safe_example = Reachable-Safe contended contended-Reachable
