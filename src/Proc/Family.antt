-- ===== src/Proc/Family.antt =====
-- fork of kernel/proc.c and the parent pointers.
use operating_systems_lab.Prelude.{
  ℕ, ◌<◌, ◌≡◌, sym, ap, subst, ◌∙◌, ◌≢◌, inl, inr, true, false, none, some, arith, ◌==◌, ◌&&◌,
  ==_iff, Bool-cases, ℤ,
}
use operating_systems_lab.Proc.{unused, Proc, Services, Kernel, nproc}
use operating_systems_lab.Proc.Lifecycle.{fork}
use operating_systems_lab.Proc.Links.{Linked, is_live}
use operating_systems_lab.Proc.Alloc.{
  has_entry, copied, Child, born, given_back, Forked, table_full, slot, fork_lem,
}

true-false : true ≡ false → ⊥
true-false e = cc

-- An UNUSED entry is not a live one.
apart : (t : ℕ → Proc) (np j : ℕ) → (t np).state ≡ unused → is_live (t j).state ≡ true → np ≢ j
unfolding is_live
apart t np j free live e =
    true-false (sym live ∙ ap (λ (i : ℕ). is_live (t i).state) (sym e) ∙ ap is_live free)

module _ (sys : Services) (cur : ℕ) (k : Kernel sys.World) where
  abbrev forked : Kernel sys.World
  forked = (fork sys cur k).1

  Child-parent :
      (np j : ℕ) (r : ℤ)
      → Child sys cur np (k.procs cur) forked r k.nextpid (has_entry sys k && copied sys cur k)
      → (forked.procs np).parent ≡ some j
      → j ≡ cur
  Child-parent np j r (given_back e ok s none_parent) h = absurd (none_some (sym none_parent ∙ h))
    where
      none_some : none ≡ some j → ⊥
      none_some a = cc
  Child-parent np j r (born e ok s link pid sz cwd) h = some_inj (sym h ∙ link)
    where
      some_inj : some j ≡ some cur → j ≡ cur
      some_inj a = cc

  Forked-Linked :
      (r : ℤ)
      → cur < nproc
      → is_live (k.procs cur).state ≡ true
      → Linked k.initproc k.procs
      → Forked sys cur k forked r
      → Linked forked.initproc forked.procs
  Forked-Linked r lt live v (table_full full e unchanged) =
      subst (λ (m : Kernel sys.World). Linked m.initproc m.procs) (sym unchanged) v
  Forked-Linked r lt live v (slot np np_lt free only next child) =
      subst (λ (i : ℕ). Linked i forked.procs) (sym only.init_same)
        (record {
          init_in = v.init_in;
          init_live = still k.initproc v.init_live;
          parents = λ i j i_lt e. elim (Bool-cases (np == i)) [
            | inl hit ↦
                let at_np : (forked.procs np).parent ≡ some j =
                  ap (λ (m : ℕ). (forked.procs m).parent) ((==_iff np i).0 hit) ∙ e in
                let own : cur ≡ j = sym (Child-parent np j r child at_np) in
                subst (λ (m : ℕ). (m < nproc) × (is_live (forked.procs m).state ≡ true)) own
                  (lt, still cur live)
            | inr miss ↦
                let old : (k.procs i).parent ≡ some j =
                  ap (λ (p : Proc). p.parent) (sym (only.others i (ground arith))) ∙ e in
                let h = v.parents i j i_lt old in (h.0, still j h.1)
          ];
        })
    where
      still : (j : ℕ) → is_live (k.procs j).state ≡ true → is_live (forked.procs j).state ≡ true
      still j h = ap (λ (p : Proc). is_live p.state) (only.others j (apart k.procs np j free h)) ∙ h

  -- fork from a live process of the table keeps every parent pointer leading to a live entry.
  pub fork-Linked :
      cur < nproc
      → is_live (k.procs cur).state ≡ true
      → Linked k.initproc k.procs
      → Linked (fork sys cur k).1.initproc (fork sys cur k).1.procs
  fork-Linked lt live v = Forked-Linked (fork sys cur k).0 lt live v (fork_lem sys cur k live)
