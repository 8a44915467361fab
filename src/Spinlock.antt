-- ===== src/Spinlock.antt =====
-- kernel/spinlock.c: one spin lock and the CPUs that use it. `pc` says how far each CPU is in acquire
-- and release, whose steps on the lock are the atomic swap, the writes of lk->cpu, and the atomic store
-- of 0; another CPU may make its steps between any two of them.
pub mod Invariant
pub mod Exclusion
pub mod Nesting
mod Tests
use operating_systems_lab.Prelude.{
  ℕ, zero, suc, ◌+◌, ◌-◌, ◌*◌, ◌/◌, ◌%◌, ◌^◌, ◌≤◌, ◌<◌, min, ◌≡◌, refl, sym, ap, ap₂, subst, ◌∙◌,
  fun_ext, ◌≢◌, ◌↔◌, ◌⊎◌, inl, inr, Bool, true, false, not, ◌&&◌, ◌||◌, Option, none, some, List,
  [], ◌∷◌, ◌++◌, map, append-nil, append_assoc, arith, ltb, leb, ◌==◌, if◌then◌else◌, ltb→lt,
  lt→ltb, leb→le, ==_iff, tests, Bool-cases, Option-cases, from_next, true_ne_false, length,
  get_elem?, set, length-append, length-set, get_elem?-set_self, get_elem?-set_ne, get_or, take,
  drop, replicate, take-append-drop, length-take, length-drop, length-replicate, length-map, ℤ,
  minus_one, sub_ℕ, sub_ℕ-eq-zero, sub_ℕ-self, pos, negsuc, update, update_self, update_ne,
  update_same,
}

-- `struct spinlock`, less its name; `cpu` is none for a null pointer.
pub record Spinlock : Type 0 where
  pub locked : Bool
  pub cpu : Option ℕ

-- `struct cpu`, what push_off and pop_off use, and whether the CPU takes interrupts.
pub record Cpu : Type 0 where
  pub noff : ℕ
  pub intena : Bool
  pub intr : Bool

unfoldable pub initlock : Spinlock
initlock = record { locked = false; cpu = none }

abbrev pub is_cpu : ℕ → Option ℕ → Bool
is_cpu i none = false
is_cpu i (some j) = i == j

unfoldable pub holding : ℕ → Spinlock → Bool
holding i lk = lk.locked && is_cpu i lk.cpu

unfoldable pub push_off : Cpu → Cpu
push_off c = record c {
  intr = false;
  intena = if c.noff == 0 then c.intr else c.intena;
  noff = c.noff + 1;
}

-- `none` is a panic.
unfoldable pub pop_off : Cpu → Option Cpu
pop_off c =
    if c.intr || c.noff == 0
    then none
    else let c' = record c { noff = c.noff - 1 } in
      some (if c'.noff == 0 && c'.intena then record c' { intr = true } else c')

-- Where a CPU is: outside, in the loop of acquire, behind it, between acquire and release, behind the
-- write of 0 to lk->cpu, behind the store of 0 to lk->locked.
pub data Pc : Type 0 where
  outside spinning taken inside leaving unlocked : Pc

pub record State : Type 0 where
  pub lock : Spinlock
  pub cpus : ℕ → Cpu
  pub pc : ℕ → Pc

abbrev pub goto : ℕ → Pc → State → State
goto i p s = record s { pc = update s.pc i p }

-- A step of CPU i.
pub data Step (i : ℕ) (s : State) : State → Type 0 where
  -- acquire: push_off, and no panic.
  acquire_starts :
      s.pc i ≡ outside
      → holding i s.lock ≡ false
      → Step i s (goto i spinning (record s { cpus = update s.cpus i (push_off (s.cpus i)) }))
  -- The swap finds the lock taken, or takes it.
  acquire_spins : s.pc i ≡ spinning → s.lock.locked ≡ true → Step i s s
  acquire_takes :
      s.pc i ≡ spinning
      → s.lock.locked ≡ false
      → Step i s (goto i taken (record s { lock = record s.lock { locked = true } }))
  acquire_ends :
      s.pc i ≡ taken → Step i s (goto i inside (record s { lock = record s.lock { cpu = some i } }))
  -- release, with no panic.
  release_starts :
      s.pc i ≡ inside
      → holding i s.lock ≡ true
      → Step i s (goto i leaving (record s { lock = record s.lock { cpu = none } }))
  release_unlocks :
      s.pc i ≡ leaving
      → Step i s (goto i unlocked (record s { lock = record s.lock { locked = false } }))
  release_ends :
      (c : Cpu)
      → s.pc i ≡ unlocked
      → pop_off (s.cpus i) ≡ some c
      → Step i s (goto i outside (record s { cpus = update s.cpus i c }))
  -- Other code of the CPU, outside, and nested calls of push_off and pop_off anywhere.
  elsewhere : (c : Cpu) → s.pc i ≡ outside → Step i s (record s { cpus = update s.cpus i c })
  nested_push : Step i s (record s { cpus = update s.cpus i (push_off (s.cpus i)) })
  nested_pop :
      (c : Cpu)
      → 1 < (s.cpus i).noff
      → pop_off (s.cpus i) ≡ some c
      → Step i s (record s { cpus = update s.cpus i c })

-- The states that runs from a fresh lock, with all CPUs outside, come to.
pub data Reachable : State → Type 0 where
  start : (cpus : ℕ → Cpu) → Reachable (record { lock = initlock; cpus = cpus; pc = λ _. outside })
  step : (i : ℕ) {s s' : State} → Reachable s → Step i s s' → Reachable s'
