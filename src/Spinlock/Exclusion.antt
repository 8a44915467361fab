-- ===== src/Spinlock/Exclusion.antt =====
-- Mutual exclusion by the spin lock of kernel/spinlock.c.
use operating_systems_lab.Prelude.{
  ℕ, ◌≡◌, refl, sym, ap, ◌∙◌, inl, inr, true, false, Option, none, some, arith, ==_iff, Bool-cases,
  true_ne_false,
}
use operating_systems_lab.Spinlock.{
  Cpu, initlock, is_cpu, holding, pop_off, outside, inside, unlocked, State, Reachable, start, step,
}
use operating_systems_lab.Spinlock.Invariant.{is_outside, IsValid, Quiet-pop_off, Step-IsValid}

pub Reachable-IsValid : (s : State) → Reachable s → IsValid s
unfolding initlock
Reachable-IsValid s (start cpus) = record {
  taken_locked = λ i h. absurd cc;
  one_owner = λ i j h g. absurd cc;
  recorded = λ i h. absurd cc;
  only_recorded = λ i h. absurd cc;
  quiet = λ i h. absurd cc;
}
Reachable-IsValid s (step i r st) = Step-IsValid i st (Reachable-IsValid _ r)

-- What the lock promises.
pub record Safe (s : State) : Type 0 where
  pub exclusive : (i j : ℕ) → s.pc i ≡ inside → s.pc j ≡ inside → i ≡ j
  pub not_held : (i : ℕ) → s.pc i ≡ outside → holding i s.lock ≡ false
  pub held : (i : ℕ) → s.pc i ≡ inside → holding i s.lock ≡ true
  pub no_interrupts : (i : ℕ) → s.pc i ≡ inside → (s.cpus i).intr ≡ false
  pub pops : (i : ℕ) → s.pc i ≡ unlocked → (c : Cpu) × (pop_off (s.cpus i) ≡ some c)

is_cpu-some : (i : ℕ) (o : Option ℕ) → is_cpu i o ≡ true → o ≡ some i
is_cpu-some i none h = absurd cc
is_cpu-some i (some j) h = ap some (sym ((==_iff i j).0 h))

-- In every state that CPUs come to through acquire and release of one lock, at most one CPU is between
-- them, it takes no interrupts, and none of the panics in acquire, release and the pop_off at the end of
-- release can happen.
pub Reachable-Safe : (s : State) → Reachable s → Safe s
unfolding holding
Reachable-Safe s r =
    let v = Reachable-IsValid s r in
    record {
      exclusive = λ i j h g. v.one_owner i j (rw h refl) (rw g refl);
      not_held = λ i at. elim (Bool-cases (is_cpu i s.lock.cpu)) [
        | inl mine ↦
            let here = v.only_recorded i (is_cpu-some i s.lock.cpu mine) in
            absurd (true_ne_false (ap is_outside (sym at ∙ here)))
        | inr other ↦ ground (arith, other)
      ];
      held = λ i at.
          let mine : is_cpu i (some i) ≡ true = ground arith in
          rw (v.taken_locked i (rw at refl), v.recorded i at, mine) refl;
      no_interrupts = λ i at. (v.quiet i (rw at refl)).off;
      pops = λ i at. Quiet-pop_off (s.cpus i) (v.quiet i (rw at refl));
    }
