-- ===== src/Proc/Poised.antt =====
-- Entries of the process table of kernel/proc.c that wait on a channel, through reparent.
use operating_systems_lab.Prelude.{
  ℕ, zero, suc, ◌+◌, ◌≡◌, refl, sym, ap, subst, ◌∙◌, ◌⊎◌, inl, inr, Bool, true, false, some, arith,
  ◌==◌, if◌then◌else◌, Bool-cases, update, update_self, update_ne,
}
use operating_systems_lab.Proc.{sleeping, runnable, Channel, proc_chan, chan_eq, Proc, nproc}
use operating_systems_lab.Proc.Sched.{wakeup}
use operating_systems_lab.Proc.Wakeup.{wakeup_lem}
use operating_systems_lab.Proc.Lifecycle.{is_child, reparent_from, reparent}

-- A process that waits on the channel, or that is ready to run.
abbrev pub Poised : Channel → Proc → Type 0
Poised c p = ((p.state ≡ sleeping) × (chan_eq p.chan c ≡ true)) ⊎ (p.state ≡ runnable)

Poised-if :
    (c : Channel) (p : Proc) (a : Bool)
    → Poised c p
    → Poised c (if a then record p { state = runnable } else p)
Poised-if c p true h = inr refl
Poised-if c p false h = h

wakeup-Poised :
    (cur : ℕ) (d c : Channel) (t : ℕ → Proc) (j : ℕ) → Poised c (t j) → Poised c (wakeup cur d t j)
wakeup-Poised cur d c t j h =
    subst (λ (p : Proc). Poised c p) (sym (wakeup_lem cur d t j)) (Poised-if c (t j) _ h)

Poised-update :
    (c : Channel) (t : ℕ → Proc) (i j : ℕ) (q : Proc)
    → q.state ≡ (t i).state
    → q.chan ≡ (t i).chan
    → Poised c (t j)
    → Poised c (update t i q j)
Poised-update c t i j q s ch h = elim (Bool-cases (i == j)) [
  | inr miss ↦ subst (λ (p : Proc). Poised c p) (sym (update_ne t i q j (ground arith))) h
  | inl hit ↦
      let e : i ≡ j = ground arith in
      subst (λ (k : ℕ). Poised c (update t i q k)) e
        (subst (λ (p : Proc). Poised c p) (sym (update_self t i q))
          (moved (subst (λ (k : ℕ). Poised c (t k)) (sym e) h)))
]
  where
    moved : Poised c (t i) → Poised c q
    moved (inl (a, b)) = inl (s ∙ a, ap (λ (d : Channel). chan_eq d c) ch ∙ b)
    moved (inr a) = inr (s ∙ a)

reparent_from-Poised :
    (rounds i cur init : ℕ) (c : Channel) (t : ℕ → Proc) (j : ℕ)
    → Poised c (t j)
    → Poised c (reparent_from rounds i cur init t j)
unfolding reparent_from
reparent_from-Poised zero i cur init c t j h = h
reparent_from-Poised (suc rounds) i cur init c t j h =
    reparent_from-Poised rounds (i + 1) cur init c _ j (round (is_child cur (t i)))
  where
    round :
        (a : Bool)
        → Poised c (
            (if a
                then wakeup cur (proc_chan init) (update t i (record (t i) { parent = some init }))
                else t)
              j)
    round false = h
    round true =
        wakeup-Poised cur (proc_chan init) c _ j
          (Poised-update c t i j (record (t i) { parent = some init }) refl refl h)

pub reparent-Poised :
    (cur init : ℕ) (c : Channel) (t : ℕ → Proc) (j : ℕ)
    → Poised c (t j)
    → Poised c (reparent cur init t j)
unfolding reparent
reparent-Poised cur init c t j = reparent_from-Poised nproc 0 cur init c t j

pub true-false : true ≡ false → ⊥
true-false e = cc
