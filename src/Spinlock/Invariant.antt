-- ===== src/Spinlock/Invariant.antt =====
-- What every step on a spin lock of kernel/spinlock.c keeps.
use operating_systems_lab.Prelude.{
  ℕ, ◌≤◌, ◌<◌, ◌≡◌, refl, sym, subst, ◌≢◌, inl, inr, Bool, true, false, ◌||◌, some, arith, ◌==◌,
  ==_iff, Bool-cases, update,
}
use operating_systems_lab.Spinlock.{
  Cpu, push_off, pop_off, Pc, outside, spinning, taken, inside, leaving, unlocked, State, Step,
  acquire_starts, acquire_spins, acquire_takes, acquire_ends, release_starts, release_unlocks,
  release_ends, elsewhere, nested_push, nested_pop,
}

-- The CPU has the lock.
abbrev pub owns : Pc → Bool
owns outside = false
owns spinning = false
owns taken = true
owns inside = true
owns leaving = true
owns unlocked = false

abbrev pub is_outside : Pc → Bool
is_outside outside = true
is_outside _ = false

abbrev pub is_inside : Pc → Bool
is_inside inside = true
is_inside _ = false

-- A CPU that is between push_off and pop_off takes no interrupts.
pub record Quiet (c : Cpu) : Type 0 where
  pub off : c.intr ≡ false
  pub nested : 1 ≤ c.noff

pub record IsValid (s : State) : Type 0 where
  pub taken_locked : (i : ℕ) → owns (s.pc i) ≡ true → s.lock.locked ≡ true
  pub one_owner : (i j : ℕ) → owns (s.pc i) ≡ true → owns (s.pc j) ≡ true → i ≡ j
  pub recorded : (i : ℕ) → s.pc i ≡ inside → s.lock.cpu ≡ some i
  pub only_recorded : (i : ℕ) → s.lock.cpu ≡ some i → s.pc i ≡ inside
  pub quiet : (i : ℕ) → is_outside (s.pc i) ≡ false → Quiet (s.cpus i)

pub push_off-Quiet : (c : Cpu) → Quiet (push_off c)
unfolding push_off
push_off-Quiet c = record { off = refl; nested = omega arith }

pub pop_off-Quiet : (c c' : Cpu) → 1 < c.noff → pop_off c ≡ some c' → Quiet c → Quiet c'
unfolding pop_off
pop_off-Quiet c c' deep e q = ground (arith, q.off, deep, e)

pub Quiet-pop_off : (c : Cpu) → Quiet c → (c' : Cpu) × (pop_off c ≡ some c')
unfolding pop_off
Quiet-pop_off c q =
    let works : (c.intr || c.noff == 0) ≡ false = ground (arith, q.off, q.nested) in
    rw works (_, refl)

-- The CPUs after a change of one of them.
Quiet-update :
    (cpus : ℕ → Cpu) (i : ℕ) (c : Cpu) (p : ℕ → Pc)
    → (is_outside (p i) ≡ false → Quiet c)
    → ((j : ℕ) → i ≢ j → is_outside (p j) ≡ false → Quiet (cpus j))
    → (j : ℕ) → is_outside (p j) ≡ false
    → Quiet (update cpus i c j)
Quiet-update cpus i c p here rest j h = elim (Bool-cases (i == j)) [
  | inl same ↦
      rw same (here (subst (λ (k : ℕ). is_outside (p k) ≡ false) (sym ((==_iff i j).0 same)) h))
  | inr other ↦ rw other (rest j (ground (arith, other)) h)
]

pub Step-IsValid : (i : ℕ) {s s' : State} → Step i s s' → IsValid s → IsValid s'
Step-IsValid i {s} {s'} (acquire_starts at free) v =
    let was : is_outside (s.pc i) ≡ true = rw at refl in
    record {
      taken_locked = λ j h. ground (arith, h, v.taken_locked j);
      one_owner = λ j k h g. ground (arith, h, g, v.one_owner j k);
      recorded = λ j h. ground (arith, h, v.recorded j);
      only_recorded = λ j h. ground (arith, h, at, v.only_recorded j);
      quiet =
          Quiet-update s.cpus i (push_off (s.cpus i)) (update s.pc i spinning)
            (λ h. push_off-Quiet (s.cpus i)) (λ j ne h. v.quiet j (ground (arith, ne, h)));
    }
Step-IsValid i {s} {s'} (acquire_spins at busy) v = v
Step-IsValid i {s} {s'} (acquire_takes at free) v = record {
  taken_locked = λ j h. ground (arith, h, at, v.taken_locked j);
  one_owner = λ j k h g.
      ground (arith, h, g, at, v.one_owner j k, v.taken_locked j, v.taken_locked k, free);
  recorded = λ j h. ground (arith, h, at, v.recorded j);
  only_recorded = λ j h. ground (arith, h, at, v.only_recorded j);
  quiet = λ j h. ground (arith, h, at, v.quiet j);
}
Step-IsValid i {s} {s'} (acquire_ends at) v = record {
  taken_locked = λ j h. ground (arith, h, at, v.taken_locked j);
  one_owner =
      λ j k h g. ground (arith, h, g, at, v.one_owner j k, v.one_owner i j, v.one_owner i k);
  recorded = λ j h. ground (arith, h, at, v.recorded j, v.one_owner i j);
  only_recorded = λ j h. ground (arith, h, at, v.only_recorded j, v.taken_locked i);
  quiet = λ j h. ground (arith, h, at, v.quiet j);
}
Step-IsValid i {s} {s'} (release_starts at held) v = record {
  taken_locked = λ j h. ground (arith, h, at, v.taken_locked j, v.taken_locked i);
  one_owner = λ j k h g. ground (arith, h, g, at, v.one_owner j k);
  recorded = λ j h. ground (arith, h, at, v.recorded j, v.one_owner i j);
  only_recorded = λ j h. ground (arith, h, at, v.only_recorded j);
  quiet = λ j h. ground (arith, h, at, v.quiet j);
}
Step-IsValid i {s} {s'} (release_unlocks at) v = record {
  taken_locked = λ j h. ground (arith, h, at, v.taken_locked j, v.one_owner i j);
  one_owner = λ j k h g. ground (arith, h, g, at, v.one_owner j k);
  recorded = λ j h. ground (arith, h, at, v.recorded j);
  only_recorded = λ j h. ground (arith, h, at, v.only_recorded j);
  quiet = λ j h. ground (arith, h, at, v.quiet j);
}
Step-IsValid i {s} {s'} (release_ends c at e) v = record {
  taken_locked = λ j h. ground (arith, h, at, v.taken_locked j);
  one_owner = λ j k h g. ground (arith, h, g, at, v.one_owner j k);
  recorded = λ j h. ground (arith, h, at, v.recorded j);
  only_recorded = λ j h. ground (arith, h, at, v.only_recorded j);
  quiet =
      Quiet-update s.cpus i c (update s.pc i outside) (λ h. ground (arith, h))
        (λ j ne h. v.quiet j (ground (arith, ne, h)));
}
Step-IsValid i {s} {s'} (elsewhere c at) v = record {
  taken_locked = v.taken_locked;
  one_owner = v.one_owner;
  recorded = v.recorded;
  only_recorded = v.only_recorded;
  quiet = Quiet-update s.cpus i c s.pc (λ h. ground (arith, at, h)) (λ j ne h. v.quiet j h);
}
Step-IsValid i {s} {s'} nested_push v = record {
  taken_locked = v.taken_locked;
  one_owner = v.one_owner;
  recorded = v.recorded;
  only_recorded = v.only_recorded;
  quiet =
      Quiet-update s.cpus i (push_off (s.cpus i)) s.pc (λ h. push_off-Quiet (s.cpus i))
        (λ j ne h. v.quiet j h);
}
Step-IsValid i {s} {s'} (nested_pop c deep e) v = record {
  taken_locked = v.taken_locked;
  one_owner = v.one_owner;
  recorded = v.recorded;
  only_recorded = v.only_recorded;
  quiet =
      Quiet-update s.cpus i c s.pc (λ h. pop_off-Quiet (s.cpus i) c deep e (v.quiet i h))
        (λ j ne h. v.quiet j h);
}
