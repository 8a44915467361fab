-- ===== src/Spinlock/Nesting.antt =====
-- push_off and pop_off of kernel/spinlock.c nest.
use operating_systems_lab.Prelude.{
  ℕ, zero, suc, ◌+◌, ◌-◌, ◌<◌, ◌≡◌, refl, ap, ◌∙◌, inl, inr, false, Option, none, some, arith, ◌==◌,
  if◌then◌else◌, Bool-cases,
}
use operating_systems_lab.Spinlock.{Cpu, push_off, pop_off}

-- The CPU after n calls of push_off, and after n calls of pop_off.
abbrev pub pushes : ℕ → Cpu → Cpu
pushes zero c = c
pushes (suc n) c = push_off (pushes n c)

abbrev pub pops_from : ℕ → Cpu → Option Cpu
pops_from zero c = some c
pops_from (suc n) c = elim (pop_off c) [ none ↦ none | some c' ↦ pops_from n c' ]

-- Interrupts are off inside a push_off.
abbrev pub Balanced : Cpu → Type 0
Balanced c = 0 < c.noff → c.intr ≡ false

abbrev pub remembers : Cpu → Cpu
remembers c = record c { intena = if c.noff == 0 then c.intr else c.intena }

push_off-Balanced : (c : Cpu) → Balanced (push_off c)
unfolding push_off
push_off-Balanced c h = refl

pop_off-push_off : (c : Cpu) → Balanced c → pop_off (push_off c) ≡ some (remembers c)
unfolding push_off pop_off
pop_off-push_off c b =
    let inner : (c.noff + 1 == 0) ≡ false = ground arith in
    let back : c.noff + 1 - 1 ≡ c.noff = omega arith in
    elim (Bool-cases (c.noff == 0)) [
      | inl outer ↦ elim (Bool-cases c.intr) [
        | inl on ↦ rw (inner, back, outer, on) refl
        | inr off ↦ rw (inner, back, outer, off) refl
      ]
      | inr nested ↦
          let off : c.intr ≡ false = b (ground (arith, nested)) in
          rw (inner, back, nested, off) refl
    ]

pushed_remembers : (c : Cpu) → remembers (push_off c) ≡ push_off c
unfolding push_off
pushed_remembers c = let inner : (c.noff + 1 == 0) ≡ false = ground arith in rw inner refl

pops_from-next : (n : ℕ) (c c' : Cpu) → pop_off c ≡ some c' → pops_from (suc n) c ≡ pops_from n c'
pops_from-next n c c' h = rw (h, pops_from) refl

-- As many calls of pop_off as of push_off, at least one, end without a panic, with the interrupts and the
-- depth of nesting as they were before, where interrupts are off inside a push_off; intena is then what
-- the first push_off saw, if it was the outermost.
pub pop_off-nest :
    (n : ℕ) (c : Cpu) → Balanced c → pops_from (suc n) (pushes (suc n) c) ≡ some (remembers c)
pop_off-nest zero c b = pops_from-next 0 (push_off c) (remembers c) (pop_off-push_off c b)
pop_off-nest (suc n) c b =
    pops_from-next (suc n) (pushes (suc (suc n)) c) (remembers (pushes (suc n) c))
      (pop_off-push_off (pushes (suc n) c) (push_off-Balanced (pushes n c)))
    ∙ ap (pops_from (suc n)) (pushed_remembers (pushes n c))
    ∙ pop_off-nest n c b
