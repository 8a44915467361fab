-- ===== src/Proc/Wait.antt =====
-- wait of kernel/proc.c: which child it takes, and when it sleeps.
use operating_systems_lab.Prelude.{
  ℕ, zero, suc, ◌+◌, ◌≤◌, ◌<◌, ◌≡◌, refl, sym, ap, subst, ◌∙◌, ◌≢◌, ◌⊎◌, inl, inr, Bool, true,
  false, not, ◌&&◌, ◌||◌, Option, none, some, arith, ◌==◌, if◌then◌else◌, ==_iff, Bool-cases,
  to_int, minus_one, update_self, update_ne,
}
use operating_systems_lab.Proc.{proc_chan, Proc, Services, Kernel, nproc}
use operating_systems_lab.Proc.Table.{cleared, freeproc}
use operating_systems_lab.Proc.Sched.{sleep}
use operating_systems_lab.Proc.Alloc.{OnlyAt}
use operating_systems_lab.Proc.Lifecycle.{
  is_zombie, is_child, find_zombie, reap, wait, Waited, returned, asleep,
}

-- A zombie child of `cur`.
abbrev pub is_dead_child : ℕ → Proc → Bool
is_dead_child cur p = is_child cur p && is_zombie p.state

-- What the pass over the entries from lo up to hi finds.
pub data Search (cur lo hi : ℕ) (t : ℕ → Proc) (before : Bool) : Bool × Option ℕ → Type 0 where
  dead :
      (i : ℕ)
      → lo ≤ i
      → i < hi
      → is_dead_child cur (t i) ≡ true
      → ((j : ℕ) → lo ≤ j → j < i → is_dead_child cur (t j) ≡ false)
      → Search cur lo hi t before (true, some i)
  alive :
      (i : ℕ)
      → lo ≤ i
      → i < hi
      → is_child cur (t i) ≡ true
      → ((j : ℕ) → lo ≤ j → j < hi → is_dead_child cur (t j) ≡ false)
      → Search cur lo hi t before (true, none)
  no_child :
      ((j : ℕ) → lo ≤ j → j < hi → is_child cur (t j) ≡ false)
      → Search cur lo hi t before (before, none)

-- A test that fails at i and from i + 1 up to hi fails from i on.
extend :
    (q : Proc → Bool) (t : ℕ → Proc) (i hi : ℕ)
    → q (t i) ≡ false
    → ((j : ℕ) → i + 1 ≤ j → j < hi → q (t j) ≡ false)
    → (j : ℕ) → i ≤ j
    → j < hi
    → q (t j) ≡ false
extend q t i hi here rest j lo h = elim (Bool-cases (j == i)) [
  | inl e ↦ ap (λ (m : ℕ). q (t m)) ((==_iff j i).0 e) ∙ here
  | inr ne ↦ rest j (ground (arith, ne, lo)) h
]

module _ (cur : ℕ) (t : ℕ → Proc) where
  -- An entry in front that is no child.
  Search-skip :
      (i hi : ℕ) (b : Bool) (r : Bool × Option ℕ)
      → is_child cur (t i) ≡ false
      → is_dead_child cur (t i) ≡ false
      → Search cur (i + 1) hi t b r
      → Search cur i hi t b r
  Search-skip i hi b r c d (dead j lo h dj first) =
      dead j (omega (arith, lo)) h dj (extend (is_dead_child cur) t i j d first)
  Search-skip i hi b r c d (alive j lo h cj none_dead) =
      alive j (omega (arith, lo)) h cj (extend (is_dead_child cur) t i hi d none_dead)
  Search-skip i hi b r c d (no_child k) = no_child (extend (is_child cur) t i hi c k)

  -- A child in front that is no zombie.
  Search-child :
      (i hi : ℕ) (b : Bool) (r : Bool × Option ℕ)
      → i < hi
      → is_child cur (t i) ≡ true
      → is_dead_child cur (t i) ≡ false
      → Search cur (i + 1) hi t true r
      → Search cur i hi t b r
  Search-child i hi b r lt c d (dead j lo h dj first) =
      dead j (omega (arith, lo)) h dj (extend (is_dead_child cur) t i j d first)
  Search-child i hi b r lt c d (alive j lo h cj none_dead) =
      alive j (omega (arith, lo)) h cj (extend (is_dead_child cur) t i hi d none_dead)
  Search-child i hi b r lt c d (no_child k) = alive i (omega arith) lt c (
      extend (is_dead_child cur) t i hi d
        (λ j lo h. ap (λ (a : Bool). a && is_zombie (t j).state) (k j lo h)))

  child_false : (i : ℕ) → is_child cur (t i) ≡ false → is_dead_child cur (t i) ≡ false
  child_false i c = ap (λ (a : Bool). a && is_zombie (t i).state) c

  or_true : (b : Bool) → (b || true) ≡ true
  or_true true = refl
  or_true false = refl

  or_false : (b : Bool) → (b || false) ≡ b
  or_false true = refl
  or_false false = refl

  find_zombie-Search :
      (rounds i hi : ℕ) (b : Bool)
      → hi ≡ i + rounds
      → Search cur i hi t b (find_zombie cur rounds i t b)
  unfolding find_zombie is_zombie
  find_zombie-Search zero i hi b e = no_child (λ j lo h. absurd (omega arith))
  find_zombie-Search (suc rounds) i hi b e = elim (Bool-cases (is_dead_child cur (t i))) [
    | inl d ↦
        let found : find_zombie cur (suc rounds) i t b ≡ (true, some i) = rw d in
        subst (λ (r : Bool × Option ℕ). Search cur i hi t b r) (sym found)
          (dead i (omega arith) (omega arith) d (λ j lo h. absurd (omega (arith, lo, h))))
    | inr d ↦
        let next : find_zombie cur (suc rounds) i t b
            ≡ find_zombie cur rounds (i + 1) t (b || is_child cur (t i)) =
          rw d in
        subst (λ (r : Bool × Option ℕ). Search cur i hi t b r) (sym next)
          (elim (Bool-cases (is_child cur (t i))) [
            | inl c ↦ Search-child i hi b _ (omega arith) c d (
                subst
                  (λ (a : Bool). Search cur (i + 1) hi t true (find_zombie cur rounds (i + 1) t a))
                  (sym (ap (λ (a : Bool). b || a) c ∙ or_true b))
                  (find_zombie-Search rounds (i + 1) hi true (omega arith)))
            | inr c ↦ Search-skip i hi b _ c d (
                subst (λ (a : Bool). Search cur (i + 1) hi t b (find_zombie cur rounds (i + 1) t a))
                  (sym (ap (λ (a : Bool). b || a) c ∙ or_false b))
                  (find_zombie-Search rounds (i + 1) hi b (omega arith)))
          ])
  ]

-- How a pass of wait ends.
pub data Pass (sys : Services) (c cur addr : ℕ) (k : Kernel sys.World)
    : Waited (Kernel sys.World) → Type 0 where
  no_children :
      ((j : ℕ) → j < nproc → is_child cur (k.procs j) ≡ false)
      → Pass sys c cur addr k (returned minus_one k)
  was_killed :
      (k.procs cur).killed ≡ true
      → ((j : ℕ) → j < nproc → is_dead_child cur (k.procs j) ≡ false)
      → Pass sys c cur addr k (returned minus_one k)
  sleeps :
      (i : ℕ)
      → i < nproc
      → is_child cur (k.procs i) ≡ true
      → (k.procs cur).killed ≡ false
      → ((j : ℕ) → j < nproc → is_dead_child cur (k.procs j) ≡ false)
      → Pass sys c cur addr k (asleep (sleep c cur (proc_chan cur) k))
  reaped :
      (i : ℕ) (k' : Kernel sys.World)
      → i < nproc
      → is_dead_child cur (k.procs i) ≡ true
      → ((addr ≡ 0)
          ⊎ ((sys.copyout_int (k.procs cur).pagetable addr (k.procs i).xstate k.world).0 ≡ true))
      → k'.procs i ≡ cleared (k.procs i)
      → OnlyAt i k k'
      → Pass sys c cur addr k (returned (to_int (k.procs i).pid) k')
  unreadable :
      (i : ℕ)
      → i < nproc
      → is_dead_child cur (k.procs i) ≡ true
      → addr ≢ 0
      → (sys.copyout_int (k.procs cur).pagetable addr (k.procs i).xstate k.world).0 ≡ false
      → Pass sys c cur addr k (
          returned minus_one (record k {
            world = (sys.copyout_int (k.procs cur).pagetable addr (k.procs i).xstate k.world).1;
          }))

module _ (sys : Services) (c cur addr np : ℕ) (k : Kernel sys.World) where
  freed-Pass :
      (w : sys.World)
      → np < nproc
      → is_dead_child cur (k.procs np) ≡ true
      → ((addr ≡ 0)
          ⊎ ((sys.copyout_int (k.procs cur).pagetable addr (k.procs np).xstate k.world).0 ≡ true))
      → Pass sys c cur addr k
          (returned (to_int (k.procs np).pid) (freeproc sys np (record k { world = w })))
  unfolding freeproc
  freed-Pass w lt d copied =
      reaped np (freeproc sys np (record k { world = w })) lt d copied
        (update_self k.procs np (cleared (k.procs np)))
        (record {
          others = λ j ne. update_ne k.procs np (cleared (k.procs np)) j ne;
          init_same = refl;
          cpus_same = refl;
        })

  reap-Pass :
      np < nproc
      → is_dead_child cur (k.procs np) ≡ true
      → Pass sys c cur addr k (reap sys cur addr np k)
  unfolding reap
  reap-Pass lt d = elim (Bool-cases (addr == 0)) [
    | inl null_addr ↦
        rw (null_addr, reap) (freed-Pass k.world lt d (inl ((==_iff addr 0).0 null_addr)))
    | inr given ↦
        elim (Bool-cases
          (sys.copyout_int (k.procs cur).pagetable addr (k.procs np).xstate k.world).0) [
            | inl copied ↦ rw (given, copied, reap) (freed-Pass _ lt d (inr copied))
            | inr failed ↦
                rw (given, failed, reap) (unreadable np lt d (λ h. ground (arith, given, h)) failed)
          ]
  ]

module _ (sys : Services) (c cur addr : ℕ) (k : Kernel sys.World) where
  -- wait, when its search has the result r.
  decide : Bool × Option ℕ → Waited (Kernel sys.World)
  decide r = elim r.1 [
    | some np ↦ reap sys cur addr np k
    | none ↦
        if not r.0 || (k.procs cur).killed
        then returned minus_one k
        else asleep (sleep c cur (proc_chan cur) k)
  ]

  decide-Pass :
      (r : Bool × Option ℕ) → Search cur 0 nproc k.procs false r → Pass sys c cur addr k (decide r)
  unfolding decide
  decide-Pass r (dead i lo lt d first) = reap-Pass sys c cur addr i k lt d
  decide-Pass r (no_child none_child) = no_children (λ j lt. none_child j (omega arith) lt)
  decide-Pass r (alive i lo lt kid none_dead) = elim (Bool-cases (k.procs cur).killed) [
    | inl ill ↦ rw ill (was_killed ill (λ j h. none_dead j (omega arith) h))
    | inr well ↦ rw well (sleeps i lt kid well (λ j h. none_dead j (omega arith) h))
  ]

  -- A pass of wait's outer loop ends in one of these ways. It returns -1 and changes nothing, when the
  -- caller has no child, or is killed and has no zombie child. It sleeps on its own entry and leaves its
  -- CPU, only when it has a child, no zombie child and is not killed. Else it has a zombie child: where the
  -- address is null or the status is copied out to it, it returns the child's pid and clears the child's
  -- entry alone; where the copy fails, it returns -1 and leaves the table as it was.
  pub wait_lem : Pass sys c cur addr k (wait sys c cur addr k)
  unfolding wait decide
  wait_lem =
      decide-Pass (find_zombie cur nproc 0 k.procs false)
        (find_zombie-Search cur k.procs nproc 0 nproc false (omega arith))
