-- ===== src/Proc/Alloc.antt =====
-- allocproc, freeproc and fork of kernel/proc.c: which entries they touch and what they leave there.
use operating_systems_lab.Prelude.{
  ℕ, zero, suc, ◌+◌, ◌≤◌, ◌<◌, ◌≡◌, refl, sym, ap, subst, ◌∙◌, ◌≢◌, inl, inr, Bool, true, false,
  not, ◌&&◌, Option, none, some, arith, ◌==◌, ==_iff, Bool-cases, Option-cases, ℤ, to_int,
  minus_one, update_self, update_ne,
}
use operating_systems_lab.Proc.{
  Procstate, unused, used, sleeping, runnable, running, zombie, Proc, Services, Kernel, nproc,
}
use operating_systems_lab.Proc.Table.{
  next_pid, is_unused, cleared, freeproc, find_unused, setup_proc, allocproc,
}
use operating_systems_lab.Proc.Lifecycle.{fork, fork_into}
use operating_systems_lab.Proc.Links.{is_live}

is_unused-eq : (s : Procstate) → is_unused s ≡ true → s ≡ unused
unfolding is_unused
is_unused-eq unused e = refl
is_unused-eq used e = cc
is_unused-eq sleeping e = cc
is_unused-eq runnable e = cc
is_unused-eq running e = cc
is_unused-eq zombie e = cc

pub find_unused-some :
    (rounds i : ℕ) (t : ℕ → Proc) (j : ℕ)
    → find_unused rounds i t ≡ some j
    → ((t j).state ≡ unused) × (j < i + rounds)
unfolding find_unused
find_unused-some zero i t j e = cc
find_unused-some (suc rounds) i t j e = elim (Bool-cases (is_unused (t i).state)) [
  | inl free ↦
      let here : find_unused (suc rounds) i t ≡ some i = rw (free, find_unused) in
      let same : i ≡ j = cc in
      (subst (λ (m : ℕ). (t m).state ≡ unused) same (is_unused-eq (t i).state free), omega arith)
  | inr busy ↦
      let rest : find_unused (suc rounds) i t ≡ find_unused rounds (i + 1) t =
        rw (busy, find_unused) in
      let r = find_unused-some rounds (i + 1) t j (sym rest ∙ e) in (r.0, omega (arith, r.1))
]

pub find_unused-none :
    (rounds i : ℕ) (t : ℕ → Proc)
    → find_unused rounds i t ≡ none
    → (j : ℕ) → i ≤ j
    → j < i + rounds
    → (t j).state ≢ unused
unfolding find_unused is_unused
find_unused-none zero i t e j lo hi free = absurd (omega (arith, lo, hi))
find_unused-none (suc rounds) i t e j lo hi free = elim (Bool-cases (is_unused (t i).state)) [
  | inl here ↦
      let found : find_unused (suc rounds) i t ≡ some i = rw (here, find_unused) in
      absurd (cc (sym found ∙ e))
  | inr busy ↦
      let rest : find_unused (suc rounds) i t ≡ find_unused rounds (i + 1) t =
        rw (busy, find_unused) in
      elim (Bool-cases (j == i)) [
        | inl at_i ↦ busy_used (
            sym busy
            ∙ ap (λ (m : ℕ). is_unused (t m).state) (sym ((==_iff j i).0 at_i))
            ∙ ap is_unused free)
        | inr later ↦
            find_unused-none rounds (i + 1) t (sym rest ∙ e) j (ground (arith, later, lo))
              (omega (arith, hi)) free
      ]
]
  where
    busy_used : false ≡ is_unused unused → ⊥
    busy_used h = cc

-- The changes that stay within entry i.
pub record OnlyAt {W : Type 0} (i : ℕ) (k k' : Kernel W) : Type 0 where
  pub others : (j : ℕ) → i ≢ j → k'.procs j ≡ k.procs j
  pub init_same : k'.initproc ≡ k.initproc
  pub cpus_same : k'.cpus ≡ k.cpus

module _ (sys : Services) where
  pub freeproc-OnlyAt : (i : ℕ) (k : Kernel sys.World) → OnlyAt i k (freeproc sys i k)
  unfolding freeproc
  freeproc-OnlyAt i k = record {
    others = λ j ne. update_ne k.procs i _ j ne;
    init_same = refl;
    cpus_same = refl;
  }

  pub freeproc-cleared :
      (i : ℕ) (k : Kernel sys.World) → (freeproc sys i k).procs i ≡ cleared (k.procs i)
  unfolding freeproc
  freeproc-cleared i k = update_self k.procs i _

  setup_proc-OnlyAt : (i : ℕ) (k : Kernel sys.World) → OnlyAt i k (setup_proc sys i k).1
  unfolding setup_proc
  setup_proc-OnlyAt i k = record {
    others = λ j ne. ground arith;
    init_same = ground arith;
    cpus_same = ground arith;
  }

  -- What the page allocator and vm.c answer to a fork that has found an entry: the trapframe's page, the page
  -- table, and whether the caller's memory is copied.
  abbrev pub page : Kernel sys.World → ℕ
  page k = (sys.kalloc k.world).0

  abbrev pub table : Kernel sys.World → ℕ × sys.World
  table k = sys.proc_pagetable (page k) (sys.kalloc k.world).1

  abbrev pub copied : ℕ → Kernel sys.World → Bool
  copied cur k = (sys.uvmcopy (k.procs cur).pagetable (table k).0 (k.procs cur).sz (table k).1).0

  abbrev pub has_entry : Kernel sys.World → Bool
  has_entry k = not (page k == 0) && not ((table k).0 == 0)

  -- What allocproc leaves in its entry.
  pub data Set (i : ℕ) (k k' : Kernel sys.World) (r : Option ℕ) : Type 0 where
    failed :
        r ≡ none
        → has_entry k ≡ false
        → (k'.procs i).state ≡ unused
        → (k'.procs i).parent ≡ none
        → k'.nextpid ≡ next_pid k.nextpid
        → Set i k k' r
    given :
        r ≡ some i
        → (k'.procs i).state ≡ used
        → has_entry k ≡ true
        → (k'.procs i).pid ≡ k.nextpid
        → (k'.procs i).pagetable ≡ (table k).0
        → k'.world ≡ (table k).1
        → k'.nextpid ≡ next_pid k.nextpid
        → Set i k k' r

  setup_proc-Set :
      (i : ℕ) (k : Kernel sys.World) → Set i k (setup_proc sys i k).1 (setup_proc sys i k).0
  unfolding setup_proc
  setup_proc-Set i k = elim (Bool-cases ((sys.kalloc k.world).0 == 0)) [
    | inl no_page ↦
        failed (ground arith) (ground arith) (ground arith) (ground arith) (ground arith)
    | inr page ↦
        elim (Bool-cases
          ((sys.proc_pagetable (sys.kalloc k.world).0 (sys.kalloc k.world).1).0 == 0)) [
            | inl no_table ↦
                failed (ground arith) (ground arith) (ground arith) (ground arith) (ground arith)
            | inr both ↦
                given (ground arith) (ground arith) (ground arith) (ground arith) (ground arith)
                  (ground arith) (ground arith)
          ]
  ]

  OnlyAt-trans :
      (i : ℕ) (k k₁ k₂ : Kernel sys.World) → OnlyAt i k k₁ → OnlyAt i k₁ k₂ → OnlyAt i k k₂
  OnlyAt-trans i k k₁ k₂ a b = record {
    others = λ j ne. b.others j ne ∙ a.others j ne;
    init_same = b.init_same ∙ a.init_same;
    cpus_same = b.cpus_same ∙ a.cpus_same;
  }

  fork_into-OnlyAt : (cur np : ℕ) (k : Kernel sys.World) → OnlyAt np k (fork_into sys cur np k).1
  unfolding fork_into
  fork_into-OnlyAt cur np k = record {
    others = λ j ne. ground arith;
    init_same = ground arith;
    cpus_same = ground arith;
  }

  -- The child's entry, or the entry that fork gave back, by whether fork had all it needed.
  pub data Child (cur np : ℕ) (p : Proc) (k' : Kernel sys.World) (r : ℤ) (pid : ℕ) (ok : Bool)
      : Type 0 where
    given_back :
        r ≡ minus_one
        → ok ≡ false
        → (k'.procs np).state ≡ unused
        → (k'.procs np).parent ≡ none
        → Child cur np p k' r pid ok
    born :
        r ≡ to_int pid
        → ok ≡ true
        → (k'.procs np).state ≡ runnable
        → (k'.procs np).parent ≡ some cur
        → (k'.procs np).pid ≡ pid
        → (k'.procs np).sz ≡ p.sz
        → (k'.procs np).cwd ≡ p.cwd
        → Child cur np p k' r pid ok

  fork_into-Child :
      (cur np : ℕ) (k : Kernel sys.World)
      → Child cur np
          (k.procs cur)
          (fork_into sys cur np k).1
          (fork_into sys cur np k).0
          (k.procs np).pid
          (sys.uvmcopy (k.procs cur).pagetable (k.procs np).pagetable (k.procs cur).sz k.world).0
  unfolding fork_into
  fork_into-Child cur np k =
      elim (Bool-cases
        (sys.uvmcopy (k.procs cur).pagetable (k.procs np).pagetable (k.procs cur).sz k.world).0) [
          | inl ok ↦
              born (ground arith) ok (ground arith) (ground arith) (ground arith) (ground arith)
                (ground arith)
          | inr refused ↦ given_back (ground arith) refused (ground arith) (ground arith)
        ]

  -- What fork does, from a running process `cur`.
  pub data Forked (cur : ℕ) (k k' : Kernel sys.World) (r : ℤ) : Type 0 where
    table_full :
        ((j : ℕ) → j < nproc → (k.procs j).state ≢ unused)
        → r ≡ minus_one
        → k' ≡ k
        → Forked cur k k' r
    slot :
        (np : ℕ)
        → np < nproc
        → (k.procs np).state ≡ unused
        → OnlyAt np k k'
        → k'.nextpid ≡ next_pid k.nextpid
        → Child cur np (k.procs cur) k' r k.nextpid (has_entry k && copied cur k)
        → Forked cur k k' r

  -- fork after allocproc.
  after_alloc : ℕ → Option ℕ × Kernel sys.World → ℤ × Kernel sys.World
  after_alloc cur a = elim a.0 [ none ↦ (minus_one, a.1) | some i ↦ fork_into sys cur i a.1 ]

  allocproc-slot :
      (np : ℕ) (k : Kernel sys.World)
      → find_unused nproc 0 k.procs ≡ some np
      → allocproc sys k ≡ setup_proc sys np k
  unfolding allocproc
  allocproc-slot np k e = rw (e, allocproc)

  fork-slot :
      (cur np : ℕ) (k : Kernel sys.World)
      → find_unused nproc 0 k.procs ≡ some np
      → fork sys cur k ≡ after_alloc cur (setup_proc sys np k)
  unfolding fork after_alloc
  fork-slot cur np k e = ap (after_alloc cur) (allocproc-slot np k e)

  allocproc-full :
      (k : Kernel sys.World) → find_unused nproc 0 k.procs ≡ none → allocproc sys k ≡ (none, k)
  unfolding allocproc
  allocproc-full k e = rw (e, allocproc)

  fork-full :
      (cur : ℕ) (k : Kernel sys.World)
      → find_unused nproc 0 k.procs ≡ none
      → fork sys cur k ≡ (minus_one, k)
  unfolding fork after_alloc allocproc
  fork-full cur k e = ap (after_alloc cur) (allocproc-full k e)

  fork_into-nextpid :
      (cur np : ℕ) (k : Kernel sys.World) → (fork_into sys cur np k).1.nextpid ≡ k.nextpid
  unfolding fork_into
  fork_into-nextpid cur np k = ground arith

  -- What becomes of the entry that allocproc found.
  abbrev AfterAlloc : (cur np : ℕ) → Kernel sys.World → ℤ × Kernel sys.World → Type 0
  AfterAlloc cur np k out =
      OnlyAt np k out.1
      × (out.1.nextpid ≡ next_pid k.nextpid)
      × Child cur np (k.procs cur) out.1 out.0 k.nextpid (has_entry k && copied cur k)

  after_alloc-Child :
      (cur np : ℕ) (k : Kernel sys.World) (a : Option ℕ × Kernel sys.World)
      → cur ≢ np
      → OnlyAt np k a.1
      → Set np k a.1 a.0
      → AfterAlloc cur np k (after_alloc cur a)
  unfolding after_alloc
  after_alloc-Child cur np k (r, k₁) ne only (failed e none_there s par next) =
      subst (λ (o : Option ℕ). AfterAlloc cur np k (after_alloc cur (o, k₁))) (sym e)
        (only, next, given_back refl (ap (λ (b : Bool). b && copied cur k) none_there) s par)
  after_alloc-Child cur np k (r, k₁) ne only (given e s there pid pt world next) =
      let same : k₁.procs cur ≡ k.procs cur = only.others cur (λ h. ne (sym h)) in
      let answer : (sys.uvmcopy (k₁.procs cur).pagetable (k₁.procs np).pagetable (k₁.procs cur).sz
            k₁.world).0
          ≡ (has_entry k && copied cur k) =
        ap (λ (p : Proc). (sys.uvmcopy p.pagetable (k₁.procs np).pagetable p.sz k₁.world).0) same
        ∙ ap (λ (q : ℕ). (sys.uvmcopy (k.procs cur).pagetable q (k.procs cur).sz k₁.world).0) pt
        ∙ ap
            (λ (w : sys.World).
              (sys.uvmcopy (k.procs cur).pagetable (table k).0 (k.procs cur).sz w).0)
            world
        ∙ sym (ap (λ (b : Bool). b && copied cur k) there) in
      subst (λ (o : Option ℕ). AfterAlloc cur np k (after_alloc cur (o, k₁))) (sym e)
        (
          OnlyAt-trans np k k₁ (fork_into sys cur np k₁).1 only (fork_into-OnlyAt cur np k₁),
          fork_into-nextpid cur np k₁ ∙ next,
          subst
              (λ (b : Bool).
                Child cur np (k.procs cur) (fork_into sys cur np k₁).1 (fork_into sys cur np k₁).0
                  k.nextpid b)
              answer
              (subst
                (λ (n : ℕ).
                  Child cur np (k.procs cur) (fork_into sys cur np k₁).1 (fork_into sys cur np k₁).0
                    n
                    (sys.uvmcopy (k₁.procs cur).pagetable (k₁.procs np).pagetable (k₁.procs cur).sz
                      k₁.world).0)
                pid
                (subst
                  (λ (p : Proc).
                    Child cur np p (fork_into sys cur np k₁).1 (fork_into sys cur np k₁).0
                      (k₁.procs np).pid
                      (sys.uvmcopy (k₁.procs cur).pagetable (k₁.procs np).pagetable
                        (k₁.procs cur).sz k₁.world).0)
                  same (fork_into-Child cur np k₁))),
        )

  find_unused-live :
      (cur np : ℕ) (k : Kernel sys.World)
      → is_live (k.procs cur).state ≡ true
      → (k.procs np).state ≡ unused
      → cur ≢ np
  unfolding is_live
  find_unused-live cur np k live free same =
      true_false (sym live ∙ ap (λ (i : ℕ). is_live (k.procs i).state) same ∙ ap is_live free)
    where
      true_false : true ≡ false → ⊥
      true_false e = cc

  -- fork from a live process returns -1 and changes nothing exactly where no entry is UNUSED. Else it changes
  -- one UNUSED entry alone, and advances nextpid: where the trapframe's page, the page table or the copy of
  -- the memory cannot be had it returns -1, and that entry is UNUSED and without a parent again; where all
  -- three are had it returns the pid that nextpid was, and the entry is a RUNNABLE child of the caller with
  -- that pid and the caller's size and directory.
  pub fork_lem :
      (cur : ℕ) (k : Kernel sys.World)
      → is_live (k.procs cur).state ≡ true
      → Forked cur k (fork sys cur k).1 (fork sys cur k).0
  fork_lem cur k live = elim (Option-cases (find_unused nproc 0 k.procs)) [
    | inl full ↦
        subst (λ (r : ℤ × Kernel sys.World). Forked cur k r.1 r.0) (sym (fork-full cur k full))
          (table_full
            (λ j lt. find_unused-none nproc 0 k.procs full j (omega arith) (omega (arith, lt))) refl
            refl)
    | inr (np, e) ↦
        let free = find_unused-some nproc 0 k.procs np e in
        let child =
          after_alloc-Child cur np k (setup_proc sys np k) (find_unused-live cur np k live free.0)
            (setup_proc-OnlyAt np k) (setup_proc-Set np k) in
        subst (λ (r : ℤ × Kernel sys.World). Forked cur k r.1 r.0) (sym (fork-slot cur np k e))
          (slot np free.1 free.0 child.0 child.1 child.2)
  ]
