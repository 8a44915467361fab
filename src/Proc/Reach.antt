-- ===== src/Proc/Reach.antt =====
-- Every transition of the process table keeps its invariant.
use operating_systems_lab.Prelude.{
  ℕ, ◌≡◌, refl, sym, ap, subst, ◌∙◌, inl, inr, true, false, none, some, arith, ◌==◌, ==_iff,
  Bool-cases, ℤ,
}
use operating_systems_lab.Proc.{zombie, proc_chan, Proc, Services, Kernel}
use operating_systems_lab.Proc.Table.{cleared}
use operating_systems_lab.Proc.Lifecycle.{fork, exit, Waited, returned, asleep}
use operating_systems_lab.Proc.Links.{Linked, is_live}
use operating_systems_lab.Proc.Alloc.{OnlyAt, Forked, table_full, slot, fork_lem}
use operating_systems_lab.Proc.Family.{fork-Linked}
use operating_systems_lab.Proc.Exit.{exit_lem, exit-left, left-Exited, left}
use operating_systems_lab.Proc.Cpus.{OnCpus, OnCpus-still, OnCpus-leave, ended-running}
use operating_systems_lab.Proc.Wait.{
  wait_lem, Pass, no_children, was_killed, sleeps, reaped, unreadable,
}
use operating_systems_lab.Proc.Steps.{
  IsValid, Step, dispatched, yielded, slept, resumed, woke, signalled, forked, waited, waits,
  exited, cur-live, yield_cpu-IsValid, sleep-IsValid, sleep_return-IsValid, wakeup-IsValid,
}
use operating_systems_lab.Proc.Keep.{
  unused_not_running, zombie_not_running, some_inj, is_dead_child-eq, spared, returned-inj,
  asleep-inj, asleep_returned, dispatch-started, started-IsValid, kill-IsValid,
}

module _ (sys : Services) (k : Kernel sys.World) (v : IsValid k) where
  fork-IsValid : (c cur : ℕ) → k.cpus c ≡ some cur → IsValid (fork sys cur k).1
  fork-IsValid c cur here = record {
    on_cpus = still (fork sys cur k).1 (fork sys cur k).0 (fork_lem sys cur k live);
    links = fork-Linked sys cur k (v.on_cpus.runs c cur here).0 live v.links;
  }
    where
      live : is_live (k.procs cur).state ≡ true
      live = cur-live k v c cur here

      still : (k' : Kernel sys.World) (r : ℤ) → Forked sys cur k k' r → OnCpus k'
      still k' r (table_full full e unchanged) =
          subst (λ (m : Kernel sys.World). OnCpus m) (sym unchanged) v.on_cpus
      still k' r (slot np lt free only next child) =
          OnCpus-still k k' only.cpus_same
            (spared k.procs k'.procs np (λ e. unused_not_running (sym free ∙ e)) only.others)
            v.on_cpus

  -- The entry of a zombie child is cleared.
  reaped-IsValid :
      (i : ℕ) (k' : Kernel sys.World)
      → (k.procs i).state ≡ zombie
      → k'.procs i ≡ cleared (k.procs i)
      → OnlyAt i k k'
      → IsValid k'
  unfolding is_live
  reaped-IsValid i k' dead gone only = record {
    on_cpus =
        OnCpus-still k k' only.cpus_same
          (spared k.procs k'.procs i (λ e. zombie_not_running (sym dead ∙ e)) only.others)
          v.on_cpus;
    links =
        subst (λ (m : ℕ). Linked m k'.procs) (sym only.init_same)
          (record {
            init_in = v.links.init_in;
            init_live = still k.initproc v.links.init_live;
            parents = λ m j lt e. elim (Bool-cases (i == m)) [
              | inl hit ↦ absurd (
                  none_some j (
                    sym (ap (λ (p : Proc). p.parent) gone)
                    ∙ ap (λ (q : ℕ). (k'.procs q).parent) ((==_iff i m).0 hit)
                    ∙ e))
              | inr miss ↦
                  let old : (k.procs m).parent ≡ some j =
                    ap (λ (p : Proc). p.parent) (sym (only.others m (ground arith))) ∙ e in
                  let h = v.links.parents m j lt old in (h.0, still j h.1)
            ];
          });
  }
    where
      none_some : (j : ℕ) → none ≡ some j → ⊥
      none_some j a = cc

      false_true : false ≡ true → ⊥
      false_true a = cc

      still : (j : ℕ) → is_live (k.procs j).state ≡ true → is_live (k'.procs j).state ≡ true
      still j h =
          ap (λ (p : Proc). is_live p.state)
            (only.others j (λ e.
              false_true (sym (ap is_live (ap (λ (q : ℕ). (k.procs q).state) (sym e) ∙ dead)) ∙ h)))
          ∙ h

  returned-IsValid :
      (c cur addr : ℕ) (r : ℤ) (k' : Kernel sys.World) (w : Waited (Kernel sys.World))
      → Pass sys c cur addr k w
      → w ≡ returned r k'
      → IsValid k'
  returned-IsValid c cur addr r k' w (no_children none_child) e =
      subst (λ (m : Kernel sys.World). IsValid m) (returned-inj _ r k k' e) v
  returned-IsValid c cur addr r k' w (was_killed ill none_dead) e =
      subst (λ (m : Kernel sys.World). IsValid m) (returned-inj _ r k k' e) v
  returned-IsValid c cur addr r k' w (sleeps i lt kid well none_dead) e =
      absurd (asleep_returned _ r k' e)
  returned-IsValid c cur addr r k' w (reaped i k₁ lt d copied gone only) e =
      subst (λ (m : Kernel sys.World). IsValid m) (returned-inj _ r k₁ k' e)
        (reaped-IsValid i k₁ (is_dead_child-eq cur (k.procs i) d) gone only)
  returned-IsValid c cur addr r k' w (unreadable i lt d ne failed) e =
      subst (λ (m : Kernel sys.World). IsValid m)
        (returned-inj _ r
          (record k {
            world = (sys.copyout_int (k.procs cur).pagetable addr (k.procs i).xstate k.world).1;
          })
          k' e)
        (record { on_cpus = OnCpus-still k _ refl (λ j h. h) v.on_cpus; links = v.links })

  asleep-IsValid :
      (c cur addr : ℕ) (k' : Kernel sys.World) (w : Waited (Kernel sys.World))
      → k.cpus c ≡ some cur
      → Pass sys c cur addr k w
      → w ≡ asleep k'
      → IsValid k'
  asleep-IsValid c cur addr k' w here (no_children none_child) e =
      absurd (asleep_returned k' _ _ (sym e))
  asleep-IsValid c cur addr k' w here (was_killed ill none_dead) e =
      absurd (asleep_returned k' _ _ (sym e))
  asleep-IsValid c cur addr k' w here (sleeps i lt kid well none_dead) e =
      subst (λ (m : Kernel sys.World). IsValid m) (asleep-inj _ k' e)
        (sleep-IsValid k v c cur (proc_chan cur) here)
  asleep-IsValid c cur addr k' w here (reaped i k₁ lt d copied gone only) e =
      absurd (asleep_returned k' _ _ (sym e))
  asleep-IsValid c cur addr k' w here (unreadable i lt d ne failed) e =
      absurd (asleep_returned k' _ _ (sym e))

  exit-IsValid :
      (c cur : ℕ) (status : ℤ) (k' : Kernel sys.World)
      → k.cpus c ≡ some cur
      → exit sys c cur status k ≡ some k'
      → IsValid k'
  exit-IsValid c cur status k' here e = elim (exit_lem sys c cur status k v.links) [
    | inl (panic, init) ↦ absurd (none_some (sym panic ∙ e))
    | inr (k₁, e₁, ne, facts) ↦
        subst (λ (m : Kernel sys.World). IsValid m)
          (some_inj (sym (exit-left sys c cur status k ne) ∙ e))
          (record {
            on_cpus =
                OnCpus-leave k (left sys c cur status k) c cur here refl
                  (ended-running sys c cur status k) v.on_cpus;
            links = (left-Exited sys c cur status k ne v.links).links;
          })
  ]
    where
      none_some : none ≡ some k' → ⊥
      none_some a = cc

-- Every transition keeps the invariant: the process of a CPU is RUNNING and on no other CPU, and every
-- parent pointer, and init's, leads to an entry that is in use and no zombie.
pub Step-IsValid :
    (sys : Services) (k k' : Kernel sys.World) → IsValid k → Step sys k k' → IsValid k'
Step-IsValid sys k k' v (dispatched c i k₁ lt idle e) =
    let s = dispatch-started k v c i k₁ e in
    subst (λ (m : Kernel sys.World). IsValid m) (sym s.1) (started-IsValid k v c i lt s.0)
Step-IsValid sys k k' v (yielded c cur here) = yield_cpu-IsValid k v c cur here
Step-IsValid sys k k' v (slept c cur chan here) = sleep-IsValid k v c cur chan here
Step-IsValid sys k k' v (resumed c cur here) = sleep_return-IsValid k v cur
Step-IsValid sys k k' v (woke cur chan) = wakeup-IsValid k v cur chan
Step-IsValid sys k k' v (signalled pid) = kill-IsValid k v pid
Step-IsValid sys k k' v (forked c cur here) = fork-IsValid sys k v c cur here
Step-IsValid sys k k' v (waited c cur addr r k₁ here e) =
    returned-IsValid sys k v c cur addr r k₁ _ (wait_lem sys c cur addr k) e
Step-IsValid sys k k' v (waits c cur addr k₁ here e) =
    asleep-IsValid sys k v c cur addr k₁ _ here (wait_lem sys c cur addr k) e
Step-IsValid sys k k' v (exited c cur status k₁ here e) =
    exit-IsValid sys k v c cur status k₁ here e
