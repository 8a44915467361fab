-- ===== src/Proc/Exit.antt =====
-- exit of kernel/proc.c: what becomes of the children and of the parent.
use operating_systems_lab.Prelude.{
  ℕ, ◌<◌, ◌≡◌, refl, sym, ap, subst, ◌∙◌, ◌≢◌, ◌⊎◌, inl, inr, Bool, true, false, Option, none, some,
  List, arith, ◌==◌, if◌then◌else◌, ==_iff, Bool-cases, ℤ, update, update_self, update_ne,
}
use operating_systems_lab.Proc.{
  sleeping, runnable, zombie, Channel, null, proc_chan, chan_eq, Proc, Services, Kernel, nproc,
}
use operating_systems_lab.Proc.Sched.{wakeup}
use operating_systems_lab.Proc.Wakeup.{wakeup_lem, wakeup-parent, wakeup-wakes}
use operating_systems_lab.Proc.Lifecycle.{is_child, reparent, parent_chan, exit, close_files}
use operating_systems_lab.Proc.Links.{
  Linked, is_live, wakeup-live, reparent-Reparented, is_child-parent,
}
use operating_systems_lab.Proc.Poised.{Poised, reparent-Poised, true-false}

module _ (sys : Services) (c cur : ℕ) (status : ℤ) (k : Kernel sys.World) where
  pub files_closed : List ℕ
  files_closed = (close_files sys (k.procs cur).ofile k.world).0

  -- The table after each step of exit.
  abbrev pub closed : ℕ → Proc
  closed = update k.procs cur (record (k.procs cur) { ofile = files_closed; cwd = 0 })

  abbrev pub orphaned : ℕ → Proc
  orphaned = reparent cur k.initproc closed

  abbrev pub told : ℕ → Proc
  told = wakeup cur (parent_chan (orphaned cur)) orphaned

  abbrev pub ended : ℕ → Proc
  ended = update told cur (record (told cur) { xstate = status; state = zombie })

  closed-parent : (i : ℕ) → (closed i).parent ≡ (k.procs i).parent
  closed-parent i = elim (Bool-cases (cur == i)) [
    | inr miss ↦ ap (λ (p : Proc). p.parent) (update_ne k.procs cur _ i (ground arith))
    | inl hit ↦
        let e : cur ≡ i = ground arith in
        subst (λ (j : ℕ). (closed j).parent ≡ (k.procs j).parent) e
          (ap (λ (p : Proc). p.parent) (update_self k.procs cur _))
  ]

  ended-parent : (i : ℕ) → (ended i).parent ≡ (orphaned i).parent
  ended-parent i = elim (Bool-cases (cur == i)) [
    | inr miss ↦
        ap (λ (p : Proc). p.parent) (update_ne told cur _ i (ground arith))
        ∙ wakeup-parent cur (parent_chan (orphaned cur)) orphaned i
    | inl hit ↦
        let e : cur ≡ i = ground arith in
        subst (λ (j : ℕ). (ended j).parent ≡ (orphaned j).parent) e
          (ap (λ (p : Proc). p.parent) (update_self told cur _)
            ∙ wakeup-parent cur (parent_chan (orphaned cur)) orphaned cur)
  ]

  ended-live : (j : ℕ) → cur ≢ j → is_live (ended j).state ≡ is_live (k.procs j).state
  ended-live j ne =
      ap (λ (p : Proc). is_live p.state) (update_ne told cur _ j ne)
      ∙ wakeup-live cur (parent_chan (orphaned cur)) orphaned j
      ∙ (reparent-Reparented cur k.initproc closed).live j
      ∙ ap (λ (p : Proc). is_live p.state) (update_ne k.procs cur _ j ne)

  -- Where a parent pointer leads after exit.
  ended-link :
      (i j : ℕ)
      → i < nproc
      → (ended i).parent ≡ some j
      → (j ≡ k.initproc) ⊎ ((j ≢ cur) × ((k.procs i).parent ≡ some j))
  ended-link i j lt e = elim (Bool-cases (is_child cur (closed i))) [
    | inl hit ↦
        let moved =
          (reparent-Reparented cur k.initproc closed).moved i (omega arith) (omega arith) hit in
        inl (some_inj (sym e ∙ ended-parent i ∙ moved))
    | inr miss ↦
        let old : (closed i).parent ≡ some j =
          sym ((reparent-Reparented cur k.initproc closed).kept_in i miss)
          ∙ sym (ended-parent i)
          ∙ e in
        inr (not_child j old miss, sym (closed-parent i) ∙ old)
  ]
    where
      some_inj : {a b : ℕ} → some a ≡ some b → a ≡ b
      some_inj h = cc

      not_child : (j : ℕ) → (closed i).parent ≡ some j → is_child cur (closed i) ≡ false → j ≢ cur
      not_child j o miss same = true-false (
          sym (is_child-some j same)
          ∙ sym (ap (λ (p : Option ℕ). elim p [ none ↦ false | some m ↦ m == cur ]) o)
          ∙ miss)
        where
          is_child-some : (j : ℕ) → j ≡ cur → (j == cur) ≡ true
          is_child-some j h = ground arith

  ended-Linked : cur ≢ k.initproc → Linked k.initproc k.procs → Linked k.initproc ended
  ended-Linked ne v = record {
    init_in = v.init_in;
    init_live = ended-live k.initproc ne ∙ v.init_live;
    parents = λ i j lt e. elim (ended-link i j lt e) [
      | inl init ↦ rw init (v.init_in, ended-live k.initproc ne ∙ v.init_live)
      | inr (other, old) ↦
          ((v.parents i j lt old).0, ended-live j (λ h. other (sym h)) ∙ (v.parents i j lt old).1)
    ];
  }

  childless : cur ≢ k.initproc → (i : ℕ) → i < nproc → (ended i).parent ≢ some cur
  childless ne i lt e = elim (ended-link i cur lt e) [
    | inl init ↦ ne init
    | inr (other, old) ↦ other refl
  ]

  -- The children of cur go to init, and no other parent pointer changes.
  given_to_init :
      (i : ℕ) → i < nproc → (k.procs i).parent ≡ some cur → (ended i).parent ≡ some k.initproc
  given_to_init i lt child =
      ended-parent i
      ∙ (reparent-Reparented cur k.initproc closed).moved i (omega arith) (omega arith) (
          ap (λ (o : Option ℕ). elim o [ none ↦ false | some m ↦ m == cur ])
            (closed-parent i ∙ child)
          ∙ ground arith)

  parent_same : (i : ℕ) → (k.procs i).parent ≢ some cur → (ended i).parent ≡ (k.procs i).parent
  parent_same i stranger = elim (Bool-cases (is_child cur (closed i))) [
    | inl hit ↦ absurd (
        stranger (
          own (k.procs i).parent (
            ap (λ (o : Option ℕ). elim o [ none ↦ false | some m ↦ m == cur ])
              (sym (closed-parent i))
            ∙ hit)))
    | inr miss ↦
        ended-parent i
        ∙ (reparent-Reparented cur k.initproc closed).kept_in i miss
        ∙ closed-parent i
  ]
    where
      own : (o : Option ℕ) → elim o [ none ↦ false | some j ↦ j == cur ] ≡ true → o ≡ some cur
      own none e = cc
      own (some j) e = ap some ((==_iff j cur).0 e)

  told-Poised :
      (par : ℕ)
      → par < nproc
      → par ≢ cur
      → Poised (proc_chan par) (orphaned par)
      → parent_chan (orphaned cur) ≡ proc_chan par
      → (told par).state ≡ runnable
  told-Poised par lt ne (inl (s, ch)) e =
      subst (λ (d : Channel). (wakeup cur d orphaned par).state ≡ runnable) (sym e)
        (wakeup-wakes cur (proc_chan par) orphaned par lt ne s ch)
  told-Poised par lt ne (inr s) e =
      ap (λ (p : Proc). p.state) (wakeup_lem cur (parent_chan (orphaned cur)) orphaned par)
      ∙ stays _
    where
      stays :
          (a : Bool)
          → (if a then record (orphaned par) { state = runnable } else orphaned par).state
            ≡ runnable
      stays true = refl
      stays false = s

  parent_told :
      (par : ℕ)
      → par < nproc
      → par ≢ cur
      → (k.procs cur).parent ≡ some par
      → (k.procs par).state ≡ sleeping
      → (k.procs par).chan ≡ proc_chan par
      → (ended par).state ≡ runnable
  parent_told par lt ne link s ch =
      ap (λ (p : Proc). p.state) (update_ne told cur _ par (λ e. ne (sym e)))
      ∙ told-Poised par lt ne (reparent-Poised cur k.initproc (proc_chan par) closed par waits)
          to_par
    where
      link' : (closed cur).parent ≡ some par
      link' = closed-parent cur ∙ link

      stranger : is_child cur (closed cur) ≡ false
      stranger =
          ap (λ (o : Option ℕ). elim o [ none ↦ false | some m ↦ m == cur ]) link' ∙ ground arith

      to_par : parent_chan (orphaned cur) ≡ proc_chan par
      to_par =
          ap (λ (o : Option ℕ). elim o [ none ↦ null | some m ↦ proc_chan m ])
            ((reparent-Reparented cur k.initproc closed).kept_in cur stranger ∙ link')

      same_chan : chan_eq (k.procs par).chan (proc_chan par) ≡ true
      same_chan = ap (λ (d : Channel). chan_eq d (proc_chan par)) ch ∙ ground arith

      waits : Poised (proc_chan par) (closed par)
      waits =
          subst (λ (p : Proc). Poised (proc_chan par) p)
            (sym (update_ne k.procs cur _ par (λ e. ne (sym e)))) (inl (s, same_chan))

-- What exit leaves behind.
pub record Exited {W : Type 0} (c cur : ℕ) (status : ℤ) (k k' : Kernel W) : Type 0 where
  pub links : Linked k'.initproc k'.procs
  pub childless : (i : ℕ) → i < nproc → (k'.procs i).parent ≢ some cur
  pub children :
      (i : ℕ) → i < nproc → (k.procs i).parent ≡ some cur → (k'.procs i).parent ≡ some k.initproc
  pub strangers : (i : ℕ) → (k.procs i).parent ≢ some cur → (k'.procs i).parent ≡ (k.procs i).parent
  pub zombie_state : (k'.procs cur).state ≡ zombie
  pub exit_status : (k'.procs cur).xstate ≡ status
  pub parent_kept : (k'.procs cur).parent ≡ (k.procs cur).parent ⊎ ((k.procs cur).parent ≡ some cur)
  pub off_cpu : k'.cpus c ≡ none
  pub parent_woken :
      (par : ℕ)
      → par < nproc
      → par ≢ cur
      → (k.procs cur).parent ≡ some par
      → (k.procs par).state ≡ sleeping
      → (k.procs par).chan ≡ proc_chan par
      → (k'.procs par).state ≡ runnable

module _ (sys : Services) (c cur : ℕ) (status : ℤ) (k : Kernel sys.World) where
  -- The kernel when exit is in sched.
  abbrev pub left : Kernel sys.World
  left = record k {
    procs = ended sys c cur status k;
    world = sys.iput (k.procs cur).cwd (close_files sys (k.procs cur).ofile k.world).1;
    cpus = update k.cpus c none;
  }

  pub exit-left : cur ≢ k.initproc → exit sys c cur status k ≡ some left
  unfolding exit files_closed
  exit-left ne = let miss : (cur == k.initproc) ≡ false = ground arith in rw (miss, exit)

  left-parent_kept :
      (left.procs cur).parent ≡ (k.procs cur).parent ⊎ ((k.procs cur).parent ≡ some cur)
  left-parent_kept = elim (Bool-cases (is_child cur (k.procs cur))) [
    | inl self ↦ inr (own (k.procs cur).parent self)
    | inr other ↦ inl (
        ended-parent sys c cur status k cur
        ∙ (reparent-Reparented cur k.initproc (closed sys c cur status k)).kept_in cur (
            is_child-parent cur k.initproc (closed sys c cur status k cur) (k.procs cur)
              (closed-parent sys c cur status k cur)
            ∙ other)
        ∙ closed-parent sys c cur status k cur)
  ]
    where
      own : (o : Option ℕ) → elim o [ none ↦ false | some j ↦ j == cur ] ≡ true → o ≡ some cur
      own none e = cc
      own (some j) e = ap some ((==_iff j cur).0 e)

  pub left-Exited : cur ≢ k.initproc → Linked k.initproc k.procs → Exited c cur status k left
  left-Exited ne v = record {
    links = ended-Linked sys c cur status k ne v;
    childless = childless sys c cur status k ne;
    children = given_to_init sys c cur status k;
    strangers = parent_same sys c cur status k;
    zombie_state = ap (λ (p : Proc). p.state) (update_self (told sys c cur status k) cur _);
    exit_status = ap (λ (p : Proc). p.xstate) (update_self (told sys c cur status k) cur _);
    parent_kept = left-parent_kept;
    off_cpu = update_self k.cpus c none;
    parent_woken = parent_told sys c cur status k;
  }

  -- exit panics for init only. Any other process becomes a zombie with its exit status and leaves its CPU;
  -- its children have init as parent and no other parent pointer changes, a parent that sleeps in wait on
  -- its own entry is RUNNABLE, and all parent pointers lead to live entries, if they did before.
  pub exit_lem :
      Linked k.initproc k.procs
      → ((exit sys c cur status k ≡ none) × (cur ≡ k.initproc))
        ⊎ ((k' : Kernel sys.World) × (exit sys c cur status k ≡ some k')
            × (cur ≢ k.initproc)
            × Exited c cur status k k')
  unfolding exit
  exit_lem v = elim (Bool-cases (cur == k.initproc)) [
    | inl init ↦ inl (rw init, (==_iff _ _).0 init)
    | inr other ↦
        let ne : cur ≢ k.initproc = ground arith in inr (left, exit-left ne, ne, left-Exited ne v)
  ]
