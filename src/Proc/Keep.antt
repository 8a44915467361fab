-- ===== src/Proc/Keep.antt =====
-- What dispatch and kill on the process table of kernel/proc.c keep, and lemmas on states and results.
use operating_systems_lab.Prelude.{
  ℕ, ◌<◌, ◌≡◌, refl, sym, ap, subst, ◌∙◌, ◌≢◌, ◌⊎◌, inl, inr, Bool, true, false, ◌&&◌, none, some,
  arith, ◌==◌, if◌then◌else◌, Bool-cases, Option-cases, ℤ, update, update_self, update_ne,
}
use operating_systems_lab.Proc.{
  Procstate, unused, used, sleeping, runnable, running, zombie, Proc, Kernel, nproc, put_proc,
}
use operating_systems_lab.Proc.Sched.{kill, find_pid, dispatch, is_runnable, is_sleeping}
use operating_systems_lab.Proc.Lifecycle.{is_child, returned, asleep, is_zombie}
use operating_systems_lab.Proc.Links.{is_live}
use operating_systems_lab.Proc.Cpus.{OnCpus-still}
use operating_systems_lab.Proc.Wait.{is_dead_child}
use operating_systems_lab.Proc.Steps.{IsValid, one-Linked}

runnable_not_running : runnable ≡ running → ⊥
runnable_not_running e = cc

pub unused_not_running : unused ≡ running → ⊥
unused_not_running e = cc

pub zombie_not_running : zombie ≡ running → ⊥
zombie_not_running e = cc

pub some_inj {ℓ} : {A : Type ℓ} {a b : A} → some a ≡ some b → a ≡ b
some_inj e = cc

is_runnable-eq : (s : Procstate) → is_runnable s ≡ true → s ≡ runnable
unfolding is_runnable
is_runnable-eq runnable e = refl
is_runnable-eq unused e = cc
is_runnable-eq used e = cc
is_runnable-eq sleeping e = cc
is_runnable-eq running e = cc
is_runnable-eq zombie e = cc

pub is_dead_child-eq : (cur : ℕ) (p : Proc) → is_dead_child cur p ≡ true → p.state ≡ zombie
unfolding is_zombie
is_dead_child-eq cur p e = by_state (is_child cur p) p.state e
  where
    by_state : (a : Bool) (s : Procstate) → (a && is_zombie s) ≡ true → s ≡ zombie
    by_state true zombie h = refl
    by_state true unused h = cc
    by_state true used h = cc
    by_state true sleeping h = cc
    by_state true runnable h = cc
    by_state true running h = cc
    by_state false s h = cc

-- The change of one entry that is not RUNNING leaves the others on their CPUs.
pub spared :
    (t t' : ℕ → Proc) (i : ℕ)
    → ((t i).state ≡ running → ⊥)
    → ((j : ℕ) → i ≢ j → t' j ≡ t j)
    → (j : ℕ) → (t j).state ≡ running
    → (t' j).state ≡ running
spared t t' i idle others j h =
    ap (λ (p : Proc). p.state) (others j (λ e. idle (ap (λ (m : ℕ). (t m).state) e ∙ h))) ∙ h

pub returned-inj : {K : Type 0} (r r' : ℤ) (k k' : K) → returned r k ≡ returned r' k' → k ≡ k'
returned-inj r r' k k' e = cc

pub asleep-inj : {K : Type 0} (k k' : K) → asleep k ≡ asleep k' → k ≡ k'
asleep-inj k k' e = cc

pub asleep_returned : {K : Type 0} (k : K) (r : ℤ) (k' : K) → asleep k ≡ returned r k' → ⊥
asleep_returned k r k' e = cc

-- What kill makes of a state.
abbrev roused : Procstate → Procstate
roused s = if is_sleeping s then runnable else s

roused-running : (s : Procstate) → s ≡ running → roused s ≡ running
unfolding is_sleeping
roused-running s e = ap roused e

roused-live : (s : Procstate) → is_live (roused s) ≡ is_live s
unfolding is_sleeping is_live
roused-live unused = refl
roused-live used = refl
roused-live sleeping = refl
roused-live runnable = refl
roused-live running = refl
roused-live zombie = refl

update-running :
    (t : ℕ → Proc) (i : ℕ) (p : Proc)
    → ((t i).state ≡ running → p.state ≡ running)
    → (j : ℕ) → (t j).state ≡ running
    → (update t i p j).state ≡ running
update-running t i p keep j h = elim (Bool-cases (i == j)) [
  | inr miss ↦ ap (λ (q : Proc). q.state) (update_ne t i p j (ground arith)) ∙ h
  | inl hit ↦
      let e : i ≡ j = ground arith in
      ap (λ (m : ℕ). (update t i p m).state) (sym e)
      ∙ ap (λ (q : Proc). q.state) (update_self t i p)
      ∙ keep (ap (λ (m : ℕ). (t m).state) e ∙ h)
]

module _ {W : Type 0} (k : Kernel W) (v : IsValid k) where
  -- The process that starts to run.
  abbrev started : ℕ → ℕ → Kernel W
  started c i = record (put_proc i (record (k.procs i) { state = running }) k) {
    cpus = update k.cpus c (some i);
  }

  pub dispatch-started :
      (c i : ℕ) (k' : Kernel W)
      → dispatch c i k ≡ some k'
      → ((k.procs i).state ≡ runnable) × (k' ≡ started c i)
  unfolding dispatch
  dispatch-started c i k' e = elim (Bool-cases (is_runnable (k.procs i).state)) [
    | inl ready ↦
        let go : dispatch c i k ≡ some (started c i) = rw ready in
        (is_runnable-eq (k.procs i).state ready, some_inj (sym e ∙ go))
    | inr idle ↦ let stop : dispatch c i k ≡ none = rw idle in absurd (none_some (sym stop ∙ e))
  ]
    where
      none_some : none ≡ some k' → ⊥
      none_some a = cc

  module _ (c i : ℕ) (lt : i < nproc) (ready : (k.procs i).state ≡ runnable) where
    -- Who is on a CPU then.
    started-cpus :
        (d j : ℕ)
        → (started c i).cpus d ≡ some j
        → ((c ≡ d) × (i ≡ j)) ⊎ ((c ≢ d) × (k.cpus d ≡ some j))
    started-cpus d j e = elim (Bool-cases (c == d)) [
      | inl hit ↦
          let h : c ≡ d = ground arith in
          inl (
            h,
            some_inj
                (sym (ap (update k.cpus c (some i)) (sym h) ∙ update_self k.cpus c (some i)) ∙ e),
          )
      | inr miss ↦
          let h : c ≢ d = ground arith in inr (h, sym (update_ne k.cpus c (some i) d h) ∙ e)
    ]

    not_on : (d : ℕ) → k.cpus d ≡ some i → ⊥
    not_on d e = runnable_not_running (sym ready ∙ (v.on_cpus.runs d i e).1)

    pub started-IsValid : IsValid (started c i)
    unfolding is_live
    started-IsValid = record {
      on_cpus = record {
        runs = λ d j e. runs d j (started-cpus d j e);
        alone = λ d d' j e e'. alone d d' j (started-cpus d j e) (started-cpus d' j e');
      };
      links =
          one-Linked k.initproc i (record (k.procs i) { state = running }) k.procs refl
            (sym (ap is_live ready)) v.links;
    }
      where
        runs :
            (d j : ℕ)
            → ((c ≡ d) × (i ≡ j)) ⊎ ((c ≢ d) × (k.cpus d ≡ some j))
            → (j < nproc) × (((started c i).procs j).state ≡ running)
        runs d j (inl (h, s)) =
            subst (λ (m : ℕ). (m < nproc) × (((started c i).procs m).state ≡ running)) s
              (lt, ap (λ (p : Proc). p.state) (update_self k.procs i _))
        runs d j (inr (h, e)) =
            let old = v.on_cpus.runs d j e in
            (
              old.0,
              ap (λ (p : Proc). p.state)
                    (update_ne k.procs i _ j (λ s. not_on d (e ∙ ap some (sym s))))
                  ∙ old.1,
            )

        alone :
            (d d' j : ℕ)
            → ((c ≡ d) × (i ≡ j)) ⊎ ((c ≢ d) × (k.cpus d ≡ some j))
            → ((c ≡ d') × (i ≡ j)) ⊎ ((c ≢ d') × (k.cpus d' ≡ some j))
            → d ≡ d'
        alone d d' j (inl (h, s)) (inl (h', s')) = sym h ∙ h'
        alone d d' j (inl (h, s)) (inr (h', e')) = absurd (not_on d' (e' ∙ ap some (sym s)))
        alone d d' j (inr (h, e)) (inl (h', s')) = absurd (not_on d (e ∙ ap some (sym s')))
        alone d d' j (inr (h, e)) (inr (h', e')) = v.on_cpus.alone d d' j e e'

  pub kill-IsValid : (pid : ℕ) → IsValid (record k { procs = (kill pid k.procs).1 })
  unfolding kill
  kill-IsValid pid = elim (Option-cases (find_pid pid nproc 0 k.procs)) [
    | inl nobody ↦ rw (nobody, kill) v
    | inr (i, e) ↦
        rw (e, kill)
          (record {
            on_cpus =
                OnCpus-still k _ refl
                  (update-running k.procs i _ (roused-running (k.procs i).state)) v.on_cpus;
            links = one-Linked k.initproc i _ k.procs refl (roused-live (k.procs i).state) v.links;
          })
  ]
