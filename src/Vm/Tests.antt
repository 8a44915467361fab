-- ===== src/Vm/Tests.antt =====
-- The theorems on page tables at concrete inputs, and runs of the code.
mod Mapped
use operating_systems_lab.Prelude.{
  ℕ, zero, suc, ◌+◌, ◌-◌, ◌*◌, ◌/◌, ◌%◌, ◌^◌, ◌≤◌, ◌<◌, min, ◌≡◌, refl, sym, ap, ap₂, subst, ◌∙◌,
  fun_ext, ◌≢◌, ◌↔◌, ◌⊎◌, inl, inr, Bool, true, false, not, ◌&&◌, ◌||◌, Option, none, some, List,
  [], ◌∷◌, ◌++◌, map, append-nil, append_assoc, arith, ltb, leb, ◌==◌, if◌then◌else◌, ltb→lt,
  lt→ltb, leb→le, ==_iff, tests, Bool-cases, Option-cases, from_next, true_ne_false, length,
  get_elem?, set, length-append, length-set, get_elem?-set_self, get_elem?-set_ne, get_or, take,
  drop, replicate, take-append-drop, length-take, length-drop, length-replicate, length-map, ℤ,
  minus_one, sub_ℕ, sub_ℕ-eq-zero, sub_ℕ-self, pos, negsuc, update, update_self, update_ne,
  update_same,
}
use operating_systems_lab.Kalloc.{Kmem}
use operating_systems_lab.Kalloc.Chain.{IsPage, Fresh, FreeList}
use operating_systems_lab.Vm.{walk, mappages}
use operating_systems_lab.Vm.Tables.{Role, other, root, find, at_level, IsTable}
use operating_systems_lab.Vm.Walk.{Walked, walk_lem}
use operating_systems_lab.Vm.Map.{mappages_lem}
use operating_systems_lab.Vm.Map.Ranges.{Mapping}

abbrev end_addr : ℕ
end_addr = 0x80020000

-- Zeroed memory with one free page.
abbrev lone : Kmem
lone = record { freelist = 0x80021000; word = λ _. 0 }

lone-IsPage : IsPage end_addr 0x80021000
lone-IsPage = record { aligned = refl; above = omega arith; below = omega arith }

lone-FreeList : FreeList end_addr lone (0x80021000 ∷ [])
lone-FreeList = record { chained = (refl, refl); proper = (lone-IsPage, tt, tt) }

abbrev root_only : ℕ → Role
root_only a = if a == 0x80022000 then root else other

only_root : (a : ℕ) → root_only a ≢ other → a ≡ 0x80022000
only_root a ne = elim (Bool-cases (a == 0x80022000)) [
  | inl h ↦ (==_iff a 0x80022000).0 h
  | inr h ↦ absurd (ne (rw h refl))
]

root-IsPage : IsPage end_addr 0x80022000
root-IsPage = record { aligned = refl; above = omega arith; below = omega arith }

-- An empty page table.
lone-IsTable : IsTable end_addr 0x80022000 lone (0x80021000 ∷ []) root_only
lone-IsTable = record {
  free_list = lone-FreeList;
  root_role = refl;
  pages = λ a ne.
      subst (λ (b : ℕ). IsPage end_addr b × Fresh b (0x80021000 ∷ [])) (sym (only_root a ne))
        (root-IsPage, ((λ h. absurd (omega (arith, h))), tt));
  entries = λ a level i at lt valid. absurd (omega (arith, (==_iff (0 % 2) 1).0 valid));
}

-- One page is not enough for the two tables.
walk_lem_example :
    (r : Option ℕ) × (k' : Kmem) × (walk 0x80022000 0x5000 true lone ≡ some (r, k'))
    × (r ≡ find k'.word 2 0x80022000 0x5000)
    × Walked end_addr 0x80022000 lone root_only r k'
walk_lem_example =
    walk_lem end_addr 0x80022000 0x5000 lone (0x80021000 ∷ []) root_only (omega arith) (omega arith)
      lone-IsTable

mappages_lem_example :
    Mapping end_addr 0x80022000 2 0x5000 0x80030000 22 lone
      (mappages 0x80022000 0x5010 0x1000 0x80030000 22 lone)
mappages_lem_example =
    mappages_lem end_addr 0x80022000 0x5010 0x1000 0x80030000 22 1 lone (0x80021000 ∷ []) root_only
      (omega arith) (omega arith) (omega arith) refl lone-IsTable
