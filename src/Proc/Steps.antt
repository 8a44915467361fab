-- ===== src/Proc/Steps.antt =====
-- The transitions of the process table, and the invariant that all of them keep.
use operating_systems_lab.Prelude.{
  ℕ, ◌<◌, ◌≡◌, refl, sym, ap, ◌∙◌, ◌⊎◌, inl, inr, true, none, some, arith, ◌==◌, Bool-cases, ℤ,
  update, update_self, update_ne,
}
use operating_systems_lab.Proc.{Procstate, running, Channel, null, Proc, Services, Kernel, nproc}
use operating_systems_lab.Proc.Sched.{wakeup, kill, dispatch, yield_cpu, sleep, sleep_return}
use operating_systems_lab.Proc.Lifecycle.{fork, wait, exit, returned, asleep}
use operating_systems_lab.Proc.Links.{Linked, Linked-same, wakeup-Linked, is_live}
use operating_systems_lab.Proc.Cpus.{OnCpus, OnCpus-still, OnCpus-leave, wakeup-running}

-- What holds of the process table whenever no function is inside its locks.
pub record IsValid {W : Type 0} (k : Kernel W) : Type 0 where
  pub on_cpus : OnCpus k
  pub links : Linked k.initproc k.procs

-- One function of proc.c, run on CPU c by the process `cur` that is on it, or by the scheduler of an idle
-- CPU, or by an interrupt.
pub data Step (sys : Services) (k : Kernel sys.World) : Kernel sys.World → Type 0 where
  dispatched :
      (c i : ℕ) (k' : Kernel sys.World)
      → i < nproc
      → k.cpus c ≡ none
      → dispatch c i k ≡ some k'
      → Step sys k k'
  yielded : (c cur : ℕ) → k.cpus c ≡ some cur → Step sys k (yield_cpu c cur k)
  slept : (c cur : ℕ) (chan : Channel) → k.cpus c ≡ some cur → Step sys k (sleep c cur chan k)
  resumed : (c cur : ℕ) → k.cpus c ≡ some cur → Step sys k (sleep_return cur k)
  woke : (cur : ℕ) (chan : Channel) → Step sys k (record k { procs = wakeup cur chan k.procs })
  signalled : (pid : ℕ) → Step sys k (record k { procs = (kill pid k.procs).1 })
  forked : (c cur : ℕ) → k.cpus c ≡ some cur → Step sys k (fork sys cur k).1
  waited :
      (c cur addr : ℕ) (r : ℤ) (k' : Kernel sys.World)
      → k.cpus c ≡ some cur
      → wait sys c cur addr k ≡ returned r k'
      → Step sys k k'
  waits :
      (c cur addr : ℕ) (k' : Kernel sys.World)
      → k.cpus c ≡ some cur
      → wait sys c cur addr k ≡ asleep k'
      → Step sys k k'
  exited :
      (c cur : ℕ) (status : ℤ) (k' : Kernel sys.World)
      → k.cpus c ≡ some cur
      → exit sys c cur status k ≡ some k'
      → Step sys k k'

-- A change of one entry keeps the parents and what is live.
pub one-Linked :
    (init i : ℕ) (p : Proc) (t : ℕ → Proc)
    → p.parent ≡ (t i).parent
    → is_live p.state ≡ is_live (t i).state
    → Linked init t
    → Linked init (update t i p)
one-Linked init i p t e l v = Linked-same init t (update t i p) parents alive v
  where
    at : (j : ℕ) → (update t i p j ≡ t j) ⊎ ((i ≡ j) × (update t i p j ≡ p))
    at j = elim (Bool-cases (i == j)) [
      | inl hit ↦
          let h : i ≡ j = ground arith in inr (h, ap (update t i p) (sym h) ∙ update_self t i p)
      | inr miss ↦ inl (update_ne t i p j (ground arith))
    ]

    parents : (j : ℕ) → (update t i p j).parent ≡ (t j).parent
    parents j = elim (at j) [
      | inl h ↦ ap (λ (q : Proc). q.parent) h
      | inr (h, h') ↦ ap (λ (q : Proc). q.parent) h' ∙ e ∙ ap (λ (m : ℕ). (t m).parent) h
    ]

    alive : (j : ℕ) → is_live (update t i p j).state ≡ is_live (t j).state
    alive j = elim (at j) [
      | inl h ↦ ap (λ (q : Proc). is_live q.state) h
      | inr (h, h') ↦
          ap (λ (q : Proc). is_live q.state) h' ∙ l ∙ ap (λ (m : ℕ). is_live (t m).state) h
    ]

running-live : (s : Procstate) → s ≡ running → is_live s ≡ true
unfolding is_live
running-live s e = ap is_live e

module _ {W : Type 0} (k : Kernel W) (v : IsValid k) where
  pub cur-live : (c cur : ℕ) → k.cpus c ≡ some cur → is_live (k.procs cur).state ≡ true
  cur-live c cur here = running-live (k.procs cur).state (v.on_cpus.runs c cur here).1

  -- The process of CPU c leaves it with a new entry p, live and with the same parent.
  pub leave-IsValid :
      (c cur : ℕ) (p : Proc)
      → k.cpus c ≡ some cur
      → p.parent ≡ (k.procs cur).parent
      → is_live p.state ≡ true
      → IsValid (record k { procs = update k.procs cur p; cpus = update k.cpus c none })
  leave-IsValid c cur p here e l = record {
    on_cpus =
        OnCpus-leave k _ c cur here refl
          (λ i ne h. ap (λ (q : Proc). q.state) (update_ne k.procs cur p i ne) ∙ h) v.on_cpus;
    links = one-Linked k.initproc cur p k.procs e (l ∙ sym (cur-live c cur here)) v.links;
  }

  pub yield_cpu-IsValid : (c cur : ℕ) → k.cpus c ≡ some cur → IsValid (yield_cpu c cur k)
  unfolding yield_cpu is_live
  yield_cpu-IsValid c cur here = leave-IsValid c cur _ here refl refl

  pub sleep-IsValid :
      (c cur : ℕ) (chan : Channel) → k.cpus c ≡ some cur → IsValid (sleep c cur chan k)
  unfolding sleep is_live
  sleep-IsValid c cur chan here = leave-IsValid c cur _ here refl refl

  pub sleep_return-IsValid : (cur : ℕ) → IsValid (sleep_return cur k)
  unfolding sleep_return
  sleep_return-IsValid cur = record {
    on_cpus = OnCpus-still k _ refl still v.on_cpus;
    links = one-Linked k.initproc cur _ k.procs refl refl v.links;
  }
    where
      still :
          (i : ℕ)
          → (k.procs i).state ≡ running
          → (update k.procs cur (record (k.procs cur) { chan = null }) i).state ≡ running
      still i h = elim (Bool-cases (cur == i)) [
        | inl hit ↦
            let e : cur ≡ i = ground arith in
            ap (λ (m : ℕ). (update k.procs cur (record (k.procs cur) { chan = null }) m).state)
              (sym e)
            ∙ ap (λ (q : Proc). q.state) (update_self k.procs cur _)
            ∙ ap (λ (m : ℕ). (k.procs m).state) e
            ∙ h
        | inr miss ↦ ap (λ (q : Proc). q.state) (update_ne k.procs cur _ i (ground arith)) ∙ h
      ]

  pub wakeup-IsValid :
      (cur : ℕ) (chan : Channel) → IsValid (record k { procs = wakeup cur chan k.procs })
  wakeup-IsValid cur chan = record {
    on_cpus = OnCpus-still k _ refl (λ i h. wakeup-running cur chan k.procs i h) v.on_cpus;
    links = wakeup-Linked k.initproc cur chan k.procs v.links;
  }
