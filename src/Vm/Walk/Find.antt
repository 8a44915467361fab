-- ===== src/Vm/Walk/Find.antt =====
-- The rounds of walk of kernel/vm.c, and walk where it makes no tables: it reads only.
use operating_systems_lab.Prelude.{
  ℕ, zero, suc, ◌<◌, ◌≡◌, refl, sym, ap, ◌∙◌, inl, inr, Bool, true, false, Option, none, some,
  arith, leb, Bool-cases,
}
use operating_systems_lab.Prelude.Run.{◌>>=◌}
use operating_systems_lab.Kalloc.{Kmem}
use operating_systems_lab.Vm.{maxva, pte2pa, pte_v, entry_at, new_table, walk_from, walk}
use operating_systems_lab.Vm.Tables.{find, find-valid, find-invalid}

-- The rounds of the loop.
module _ (level table va : ℕ) (k : Kmem) where
  abbrev here : ℕ
  here = entry_at table (suc level) va

  pub walk_from-valid :
      (alloc : Bool)
      → pte_v (k.word here) ≡ true
      → walk_from (suc level) table va alloc k ≡ walk_from level (pte2pa (k.word here)) va alloc k
  unfolding walk_from
  walk_from-valid alloc h = rw (h, walk_from) refl

  pub walk_from-missing :
      pte_v (k.word here) ≡ false → walk_from (suc level) table va false k ≡ some (none, k)
  unfolding walk_from
  walk_from-missing h = rw (h, walk_from) refl

  pub walk_from-full :
      pte_v (k.word here) ≡ false
      → new_table here k ≡ some (none, k)
      → walk_from (suc level) table va true k ≡ some (none, k)
  unfolding walk_from
  walk_from-full h full = rw (h, walk_from) (rw (full, ◌>>=◌) refl)

  pub walk_from-made :
      (p : ℕ) (k' : Kmem)
      → pte_v (k.word here) ≡ false
      → new_table here k ≡ some (some p, k')
      → walk_from (suc level) table va true k ≡ walk_from level p va true k'
  unfolding walk_from
  walk_from-made p k' h made = rw (h, walk_from) (rw (made, ◌>>=◌) refl)

-- Without allocation walk reads only.
pub walk_from-find :
    (level table va : ℕ) (k : Kmem)
    → walk_from level table va false k ≡ some (find k.word level table va, k)
unfolding walk_from find
walk_from-find zero table va k = refl
walk_from-find (suc level) table va k =
    elim (Bool-cases (pte_v (k.word (entry_at table (suc level) va)))) [
      | inl valid ↦
          walk_from-valid level table va k false valid
          ∙ walk_from-find level (pte2pa (k.word (entry_at table (suc level) va))) va k
          ∙ ap (λ (r : Option ℕ). some (r, k)) (sym (find-valid k.word level table va valid))
      | inr invalid ↦
          walk_from-missing level table va k invalid
          ∙ ap (λ (r : Option ℕ). some (r, k)) (sym (find-invalid k.word level table va invalid))
    ]

pub walk-find :
    (pagetable va : ℕ) (k : Kmem)
    → va < maxva
    → walk pagetable va false k ≡ some (find k.word 2 pagetable va, k)
unfolding walk
walk-find pagetable va k small =
    let inside : leb maxva va ≡ false = ground (arith, small) in
    rw inside (walk_from-find 2 pagetable va k)
