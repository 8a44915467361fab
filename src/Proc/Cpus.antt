-- ===== src/Proc/Cpus.antt =====
-- Which process runs on which CPU: what the functions of kernel/proc.c leave RUNNING.
use operating_systems_lab.Prelude.{
  ℕ, zero, suc, ◌+◌, ◌<◌, ◌≡◌, sym, ap, ◌∙◌, ◌≢◌, inl, inr, Bool, true, false, Option, none, some,
  arith, ◌==◌, if◌then◌else◌, Bool-cases, ℤ, update, update_self, update_ne,
}
use operating_systems_lab.Proc.{
  Procstate, running, Channel, proc_chan, Proc, Services, Kernel, nproc,
}
use operating_systems_lab.Proc.Sched.{wakeup}
use operating_systems_lab.Proc.Lifecycle.{is_child, reparent_from, reparent}
use operating_systems_lab.Proc.Wakeup.{wakeup-Woken, Woken, same, awake}
use operating_systems_lab.Proc.Exit.{closed, orphaned, told, ended}

-- A CPU's process is an entry of the table that is RUNNING, and no other CPU has it.
pub record OnCpus {W : Type 0} (k : Kernel W) : Type 0 where
  pub runs : (c i : ℕ) → k.cpus c ≡ some i → (i < nproc) × ((k.procs i).state ≡ running)
  pub alone : (c d i : ℕ) → k.cpus c ≡ some i → k.cpus d ≡ some i → c ≡ d

-- The CPUs keep their processes, and those stay RUNNING.
pub OnCpus-still :
    {W : Type 0} (k k' : Kernel W)
    → k'.cpus ≡ k.cpus
    → ((i : ℕ) → (k.procs i).state ≡ running → (k'.procs i).state ≡ running)
    → OnCpus k
    → OnCpus k'
OnCpus-still k k' e h v = record {
  runs = λ c i at_c. let r = v.runs c i (sym (at c) ∙ at_c) in (r.0, h i r.1);
  alone = λ c d i at_c at_d. v.alone c d i (sym (at c) ∙ at_c) (sym (at d) ∙ at_d);
}
  where
    at : (c : ℕ) → k'.cpus c ≡ k.cpus c
    at c = ap (λ (f : ℕ → Option ℕ). f c) e

-- One process leaves its CPU, and the others stay RUNNING.
pub OnCpus-leave :
    {W : Type 0} (k k' : Kernel W) (c cur : ℕ)
    → k.cpus c ≡ some cur
    → k'.cpus ≡ update k.cpus c none
    → ((i : ℕ) → cur ≢ i → (k.procs i).state ≡ running → (k'.procs i).state ≡ running)
    → OnCpus k
    → OnCpus k'
OnCpus-leave k k' c cur here e h v = record {
  runs = λ d i at_d.
      let old = stays d i at_d in
      let r = v.runs d i old.1 in
      (r.0, h i (λ same_proc. old.0 (v.alone c d i (here ∙ ap some same_proc) old.1)) r.1);
  alone = λ d d' i at_d at_d'. v.alone d d' i (stays d i at_d).1 (stays d' i at_d').1;
}
  where
    stays : (d i : ℕ) → k'.cpus d ≡ some i → (c ≢ d) × (k.cpus d ≡ some i)
    stays d i at_d =
        let now : update k.cpus c none d ≡ some i = sym (ap (λ (f : ℕ → Option ℕ). f d) e) ∙ at_d in
        (λ eq_cpu. gone d i eq_cpu now, kept d i now)
      where
        gone : (d i : ℕ) → c ≡ d → update k.cpus c none d ≡ some i → ⊥
        gone d i eq_cpu now =
            let cleared_cpu : update k.cpus c none d ≡ none =
              ap (update k.cpus c none) (sym eq_cpu) ∙ update_self k.cpus c none in
            none_some (sym cleared_cpu ∙ now)
          where
            none_some : none ≡ some i → ⊥
            none_some a = cc

        kept : (d i : ℕ) → update k.cpus c none d ≡ some i → k.cpus d ≡ some i
        kept d i now = sym (update_ne k.cpus c none d (λ a. gone d i a now)) ∙ now

pub Woken-running : {s s' : Procstate} → Woken s s' → s ≡ running → s' ≡ running
Woken-running (same s) e = e
Woken-running awake e = cc

pub wakeup-running :
    (cur : ℕ) (c : Channel) (t : ℕ → Proc) (j : ℕ)
    → (t j).state ≡ running
    → (wakeup cur c t j).state ≡ running
wakeup-running cur c t j h = Woken-running (wakeup-Woken cur c t j) h

reparent_from-running :
    (rounds i cur init : ℕ) (t : ℕ → Proc) (j : ℕ)
    → (t j).state ≡ running
    → (reparent_from rounds i cur init t j).state ≡ running
unfolding reparent_from
reparent_from-running zero i cur init t j h = h
reparent_from-running (suc rounds) i cur init t j h =
    reparent_from-running rounds (i + 1) cur init _ j (round (is_child cur (t i)))
  where
    adopted : (update t i (record (t i) { parent = some init }) j).state ≡ running
    adopted = elim (Bool-cases (i == j)) [
      | inl hit ↦
          let e : i ≡ j = ground arith in
          ap (λ (m : ℕ). (update t i (record (t i) { parent = some init }) m).state) (sym e)
          ∙ ap (λ (p : Proc). p.state) (update_self t i _)
          ∙ ap (λ (m : ℕ). (t m).state) e
          ∙ h
      | inr miss ↦ ap (λ (p : Proc). p.state) (update_ne t i _ j (ground arith)) ∙ h
    ]

    round :
        (a : Bool)
        → ((if a
              then wakeup cur (proc_chan init) (update t i (record (t i) { parent = some init }))
              else t)
            j).state
          ≡ running
    round false = h
    round true = wakeup-running cur (proc_chan init) _ j adopted

-- The other processes that are RUNNING stay so when one exits.
pub ended-running :
    (sys : Services) (c cur : ℕ) (status : ℤ) (k : Kernel sys.World) (j : ℕ)
    → cur ≢ j
    → (k.procs j).state ≡ running
    → (ended sys c cur status k j).state ≡ running
unfolding reparent
ended-running sys c cur status k j ne h =
    ap (λ (p : Proc). p.state) (update_ne (told sys c cur status k) cur _ j ne)
    ∙ wakeup-running cur _ (orphaned sys c cur status k) j (
        reparent_from-running nproc 0 cur k.initproc (closed sys c cur status k) j
          (ap (λ (p : Proc). p.state) (update_ne k.procs cur _ j ne) ∙ h))
