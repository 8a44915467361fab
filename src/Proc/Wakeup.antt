-- ===== src/Proc/Wakeup.antt =====
-- What the loops over the process table in kernel/proc.c do to each entry.
use operating_systems_lab.Prelude.{
  ℕ, zero, suc, ◌+◌, ◌<◌, ◌≡◌, refl, sym, ap, subst, ◌∙◌, ◌≢◌, Bool, true, false, not, ◌&&◌, arith,
  ltb, leb, ◌==◌, if◌then◌else◌, update,
}
use operating_systems_lab.Proc.{
  Procstate, unused, used, sleeping, runnable, running, zombie, Channel, chan_eq, Proc, nproc,
}
use operating_systems_lab.Proc.Sched.{for_procs, wake_one, wakeup, is_sleeping}

for_procs-at :
    (rounds i : ℕ) (body : ℕ → Proc → Proc) (t : ℕ → Proc) (j : ℕ)
    → for_procs rounds i body t j ≡ (if leb i j && ltb j (i + rounds) then body j (t j) else t j)
unfolding for_procs
for_procs-at zero i body t j = ground arith
for_procs-at (suc rounds) i body t j =
    ground (arith, for_procs-at rounds (i + 1) body (update t i (body i (t i))) j, congr)
  where
    congr : i ≡ j → body i (t i) ≡ body j (t j)
    congr e = ap (λ (k : ℕ). body k (t k)) e

select :
    (a b c d : Bool) (p q : Proc)
    → (if a then if b then p else if c && d then q else p else p)
      ≡ (if a && not b && c && d then q else p)
select false b c d p q = refl
select true true c d p q = refl
select true false c d p q = refl

in_table : (j : ℕ) → (leb 0 j && ltb j (0 + nproc)) ≡ ltb j nproc
in_table j = ground arith

-- wakeup makes an entry of the table RUNNABLE exactly when it sleeps on the channel and is not the
-- caller's, and changes nothing else of it.
pub wakeup_lem :
    (cur : ℕ) (c : Channel) (t : ℕ → Proc) (j : ℕ)
    → wakeup cur c t j ≡ (
        if ltb j nproc && not (j == cur) && is_sleeping (t j).state && chan_eq (t j).chan c
        then record (t j) { state = runnable }
        else t j)
unfolding wakeup wake_one
wakeup_lem cur c t j =
    for_procs-at nproc 0 (wake_one cur c) t j
    ∙ ap (λ (a : Bool). if a then wake_one cur c j (t j) else t j) (in_table j)
    ∙ select (ltb j nproc) (j == cur) (is_sleeping (t j).state) (chan_eq (t j).chan c) (t j)
        (record (t j) { state = runnable })

pub wakeup-parent :
    (cur : ℕ) (c : Channel) (t : ℕ → Proc) (j : ℕ) → (wakeup cur c t j).parent ≡ (t j).parent
wakeup-parent cur c t j = ap (λ (p : Proc). p.parent) (wakeup_lem cur c t j) ∙ unchanged _
  where
    unchanged :
        (a : Bool) → (if a then record (t j) { state = runnable } else t j).parent ≡ (t j).parent
    unchanged true = refl
    unchanged false = refl

-- How wakeup and kill may change a state.
pub data Woken : Procstate → Procstate → Type 0 where
  same : (s : Procstate) → Woken s s
  awake : Woken sleeping runnable

is_sleeping-Woken : (s : Procstate) → is_sleeping s ≡ true → Woken s runnable
unfolding is_sleeping
is_sleeping-Woken sleeping e = awake
is_sleeping-Woken unused e = cc
is_sleeping-Woken used e = cc
is_sleeping-Woken runnable e = cc
is_sleeping-Woken running e = cc
is_sleeping-Woken zombie e = cc

pub wakeup-Woken :
    (cur : ℕ) (c : Channel) (t : ℕ → Proc) (j : ℕ) → Woken (t j).state (wakeup cur c t j).state
wakeup-Woken cur c t j =
    subst (λ (p : Proc). Woken (t j).state p.state) (sym (wakeup_lem cur c t j))
      (by_test (ltb j nproc) (j == cur) (is_sleeping (t j).state) refl (chan_eq (t j).chan c))
  where
    by_test :
        (a b s : Bool)
        → is_sleeping (t j).state ≡ s
        → (d : Bool)
        → Woken
            (t j).state
            (if a && not b && s && d then record (t j) { state = runnable } else t j).state
    by_test false b s e d = same (t j).state
    by_test true true s e d = same (t j).state
    by_test true false false e d = same (t j).state
    by_test true false true e false = same (t j).state
    by_test true false true e true = is_sleeping-Woken (t j).state e

pub wakeup_self : (cur : ℕ) (c : Channel) (t : ℕ → Proc) → wakeup cur c t cur ≡ t cur
wakeup_self cur c t = wakeup_lem cur c t cur ∙ ground arith

-- A process that sleeps on the channel is RUNNABLE after wakeup: no wakeup is lost on it.
pub wakeup-wakes :
    (cur : ℕ) (c : Channel) (t : ℕ → Proc) (j : ℕ)
    → j < nproc
    → j ≢ cur
    → (t j).state ≡ sleeping
    → chan_eq (t j).chan c ≡ true
    → (wakeup cur c t j).state ≡ runnable
unfolding is_sleeping
wakeup-wakes cur c t j lt ne st ch = ground (arith, wakeup_lem cur c t j)
